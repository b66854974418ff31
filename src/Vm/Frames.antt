-- ===== src/Vm/Frames.antt =====
-- A change of memory outside a page table's pages is not seen through it.
use virtual_memory.Base.{ℕ, ◌+◌, ◌≤◌, ◌<◌, ◌≡◌, ◌⊎◌, inl, inr, arith, ap, sym, ◌∙◌, ltb, Bool-cases}
use virtual_memory.Memory.{Memory, load64}
use virtual_memory.Memory.Words.{IsBytes, load64_cong}
use virtual_memory.Vm.{Tables, virtual_memory_lookup}
use virtual_memory.Vm.Layout.{AreTables, Connected, slot, mapping_of, lookup-Connected}

abbrev pub InPage : ℕ → ℕ → Type 0
InPage p x = (p ≤ x) × (x < p + 4096)

-- An address in one of the five pages.
abbrev pub InTables : Tables → ℕ → Type 0
InTables t x = InPage t.l1 x ⊎ InPage t.l2 x ⊎ InPage t.l3 x ⊎ InPage t.l4_1 x ⊎ InPage t.l4_2 x

module _ (t : Tables) (m m' : Memory) (same : (x : ℕ) → InTables t x → m' x ≡ m x) where
  pub frame-Connected : Connected m t → Connected m' t
  frame-Connected conn = record {
    to_l2 = load64_cong m m' t.l1 (λ j h. same (t.l1 + j) (inl (omega arith))) ∙ conn.to_l2;
    to_l3 = load64_cong m m' t.l2 (λ j h. same (t.l2 + j) (inr (inl (omega arith)))) ∙ conn.to_l3;
    to_l4_1 =
        load64_cong m m' t.l3 (λ j h. same (t.l3 + j) (inr (inr (inl (omega arith)))))
        ∙ conn.to_l4_1;
    to_l4_2 =
        load64_cong m m' (t.l3 + 8) (λ j h. same (t.l3 + 8 + j) (inr (inr (inl (omega arith)))))
        ∙ conn.to_l4_2;
  }

  frame_slot : (b : ℕ) → load64 m' (slot t b) ≡ load64 m (slot t b)
  frame_slot b = load64_cong m m' (slot t b) (λ j h. same (slot t b + j) (inside j h))
    where
      inside : (j : ℕ) → j < 8 → InTables t (slot t b + j)
      inside j h = elim (Bool-cases (ltb b 0x200000)) [
        | inl is ↦ rw is (inr (inr (inr (inl (omega arith)))))
        | inr isnt ↦ rw isnt (inr (inr (inr (inr (omega arith)))))
      ]

  pub frame_lookup :
      AreTables t
      → Connected m t
      → IsBytes m
      → IsBytes m'
      → (b : ℕ) → b < 0x400000
      → virtual_memory_lookup m' t.l1 b ≡ virtual_memory_lookup m t.l1 b
  frame_lookup ts conn bytes bytes' b h =
      lookup-Connected m' t ts (frame-Connected conn) bytes' b h
      ∙ ap (mapping_of b) (frame_slot b)
      ∙ sym (lookup-Connected m t ts conn bytes b h)
