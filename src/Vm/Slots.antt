-- ===== src/Vm/Slots.antt =====
-- Last-level entries as separate words of memory.
use virtual_memory.Base.{sym, ℕ, ◌+◌, ◌/◌, ◌%◌, ◌≤◌, ◌<◌, ◌≡◌, ◌≢◌, ◌⊎◌, arith, ap, ◌∙◌}
use virtual_memory.Memory.{Memory, store64}
use virtual_memory.Memory.Words.{load64_cong, store64_ne}
use virtual_memory.Vm.{Tables}
use virtual_memory.Vm.Layout.{AreTables, Connected, slot}

-- An address in neither of the two last-level tables.
abbrev pub OutsideL4 : Tables → ℕ → Type 0
OutsideL4 t x = ((x < t.l4_1) ⊎ (t.l4_1 + 4096 ≤ x)) × ((x < t.l4_2) ⊎ (t.l4_2 + 4096 ≤ x))

-- Different pages do not overlap.
pub page_apart :
    (a b k : ℕ) → a % 4096 ≡ 0 → b % 4096 ≡ 0 → a ≢ b → k < 4096 → (a + k < b) ⊎ (b + 4096 ≤ a + k)
page_apart a b k ha hb ne hk = ground arith

module _ (t : Tables) (tables : AreTables t) where
  -- Entries of different pages below 4 MB are different words.
  pub slot_apart :
      (a b : ℕ)
      → a < 0x400000
      → b < 0x400000
      → a / 4096 ≢ b / 4096
      → (slot t a + 8 ≤ slot t b) ⊎ (slot t b + 8 ≤ slot t a)
  slot_apart a b ha hb ne = ground (arith, tables.l4_1_page, tables.l4_2_page, tables.l4_apart)

  pub slot_eq : (a b : ℕ) → a / 4096 ≡ b / 4096 → slot t a ≡ slot t b
  slot_eq a b e = ground arith

  -- The words that connect the tables lie outside the last level.
  l1_outside : (k : ℕ) → k < 16 → OutsideL4 t (t.l1 + k)
  l1_outside k h = (
    page_apart t.l1 t.l4_1 k tables.l1_page.0 tables.l4_1_page.0 tables.l1_apart.0 (omega arith),
    page_apart t.l1 t.l4_2 k tables.l1_page.0 tables.l4_2_page.0 tables.l1_apart.1 (omega arith),
  )

  l2_outside : (k : ℕ) → k < 16 → OutsideL4 t (t.l2 + k)
  l2_outside k h = (
    page_apart t.l2 t.l4_1 k tables.l2_page.0 tables.l4_1_page.0 tables.l2_apart.0 (omega arith),
    page_apart t.l2 t.l4_2 k tables.l2_page.0 tables.l4_2_page.0 tables.l2_apart.1 (omega arith),
  )

  l3_outside : (k : ℕ) → k < 16 → OutsideL4 t (t.l3 + k)
  l3_outside k h = (
    page_apart t.l3 t.l4_1 k tables.l3_page.0 tables.l4_1_page.0 tables.l3_apart.0 (omega arith),
    page_apart t.l3 t.l4_2 k tables.l3_page.0 tables.l4_2_page.0 tables.l3_apart.1 (omega arith),
  )

  -- So a change of last-level entries alone keeps the tables connected.
  pub Connected-frame :
      (m m' : Memory) → ((x : ℕ) → OutsideL4 t x → m' x ≡ m x) → Connected m t → Connected m' t
  Connected-frame m m' same conn = record {
    to_l2 =
        load64_cong m m' t.l1 (λ k h. same (t.l1 + k) (l1_outside k (omega arith))) ∙ conn.to_l2;
    to_l3 =
        load64_cong m m' t.l2 (λ k h. same (t.l2 + k) (l2_outside k (omega arith))) ∙ conn.to_l3;
    to_l4_1 =
        load64_cong m m' t.l3 (λ k h. same (t.l3 + k) (l3_outside k (omega arith))) ∙ conn.to_l4_1;
    to_l4_2 =
        load64_cong m m' (t.l3 + 8) (λ k h.
          ap m' (e k) ∙ same (t.l3 + (8 + k)) (l3_outside (8 + k) (omega arith)) ∙ ap m (sym (e k)))
        ∙ conn.to_l4_2;
  }
    where
      e : (k : ℕ) → t.l3 + 8 + k ≡ t.l3 + (8 + k)
      e k = omega arith

  -- A store to a last-level entry changes no byte outside the last level.
  pub store_slot_outside :
      (m : Memory) (va v x : ℕ) → OutsideL4 t x → store64 m (slot t va) v x ≡ m x
  store_slot_outside m va v x h = store64_ne m (slot t va) v x (ground arith)
