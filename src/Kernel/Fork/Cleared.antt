-- ===== src/Kernel/Fork/Cleared.antt =====
-- The memory of `duplicate_pagetable` before its copying loop: five cleared pages, connected.
use virtual_memory.Base.{
  ℕ, Bool, true, false, ◌+◌, ◌*◌, ◌/◌, ◌%◌, ◌≤◌, ◌<◌, ◌≡◌, ◌≢◌, ◌⊎◌, inl, inr, arith, ap, sym, ◌∙◌,
  ltb, if◌then◌else◌,
}
use virtual_memory.Memory.{Memory, load64, memset}
use virtual_memory.Memory.Words.{IsBytes, load64_cong}
use virtual_memory.Memory.Copy.{memset_lem, memset-IsBytes}
use virtual_memory.Vm.{Tables, connect}
use virtual_memory.Vm.Layout.{AreTables, Connected, IsPage, table_of, slot, table_of-IsPage}
use virtual_memory.Vm.Slots.{page_apart}
use virtual_memory.Vm.Connect.{connect-IsBytes, connect_outside}
use virtual_memory.Kernel.Fork.{clear_tables}

-- A page that is none of the five.
pub record NoneOf (u : Tables) (p : ℕ) : Type 0 where
  pub not_l1 : p ≢ u.l1
  pub not_l2 : p ≢ u.l2
  pub not_l3 : p ≢ u.l3
  pub not_l4_1 : p ≢ u.l4_1
  pub not_l4_2 : p ≢ u.l4_2

-- An address that lies in none of the five pages.
abbrev pub Outside : Tables → ℕ → Type 0
Outside u x =
    ((x < u.l1) ⊎ (u.l1 + 4096 ≤ x))
    × ((x < u.l2) ⊎ (u.l2 + 4096 ≤ x))
    × ((x < u.l3) ⊎ (u.l3 + 4096 ≤ x))
    × ((x < u.l4_1) ⊎ (u.l4_1 + 4096 ≤ x))
    × ((x < u.l4_2) ⊎ (u.l4_2 + 4096 ≤ x))

memset_outside : (m : Memory) (p x : ℕ) → (x < p) ⊎ (p + 4096 ≤ x) → memset m p 0 4096 x ≡ m x
memset_outside m p x h = ground (arith, memset_lem m p 0 4096 x)

memset_keeps_zero : (m : Memory) (p x : ℕ) → m x ≡ 0 → memset m p 0 4096 x ≡ 0
memset_keeps_zero m p x h = ground (arith, memset_lem m p 0 4096 x)

memset_inside : (m : Memory) (p x : ℕ) → p ≤ x → x < p + 4096 → memset m p 0 4096 x ≡ 0
memset_inside m p x h k = ground (arith, memset_lem m p 0 4096 x)

module _ (u : Tables) (us : AreTables u) (m : Memory) where
  -- The memory before the loop.
  abbrev pub prepared : Memory
  prepared = connect (clear_tables m u) u

  pub prepared-IsBytes : IsBytes m → IsBytes prepared
  unfolding clear_tables
  prepared-IsBytes h = connect-IsBytes u us (clear_tables m u) (
      memset-IsBytes _ u.l4_2 0 4096 (
        memset-IsBytes _ u.l4_1 0 4096 (
          memset-IsBytes _ u.l3 0 4096
            (memset-IsBytes _ u.l2 0 4096 (memset-IsBytes _ u.l1 0 4096 h)))))

  -- No byte of another page changes.
  pub prepared-Outside : (x : ℕ) → Outside u x → prepared x ≡ m x
  unfolding clear_tables
  prepared-Outside x o =
      connect_outside u us (clear_tables m u) x (omega (arith, o)) (omega (arith, o))
        (omega (arith, o))
      ∙ memset_outside _ u.l4_2 x o.4
      ∙ memset_outside _ u.l4_1 x o.3
      ∙ memset_outside _ u.l3 x o.2
      ∙ memset_outside _ u.l2 x o.1
      ∙ memset_outside m u.l1 x o.0

  -- The last-level tables are empty.
  cleared_l4 :
      (x : ℕ)
      → ((u.l4_1 ≤ x) × (x < u.l4_1 + 4096)) ⊎ ((u.l4_2 ≤ x) × (x < u.l4_2 + 4096))
      → clear_tables m u x ≡ 0
  unfolding clear_tables
  cleared_l4 x (inl h) = memset_keeps_zero _ u.l4_2 x (memset_inside _ u.l4_1 x h.0 h.1)
  cleared_l4 x (inr h) = memset_inside _ u.l4_2 x h.0 h.1

  prepared_l4 : (p k : ℕ) → (p ≡ u.l4_1) ⊎ (p ≡ u.l4_2) → k < 4096 → prepared (p + k) ≡ 0
  prepared_l4 p k h hk =
      let aligned : p % 4096 ≡ 0 = ground (arith, us.l4_1_page.0, us.l4_2_page.0) in
      let o1 = page_apart p u.l1 k aligned us.l1_page.0 (omega (arith, us.l1_apart)) hk in
      let o2 = page_apart p u.l2 k aligned us.l2_page.0 (omega (arith, us.l2_apart)) hk in
      let o3 = page_apart p u.l3 k aligned us.l3_page.0 (omega (arith, us.l3_apart)) hk in
      connect_outside u us (clear_tables m u) (p + k) (omega arith) (omega arith) (omega arith)
      ∙ cleared_l4 (p + k) (omega arith)

  prepared_l4_word :
      (p k : ℕ) → (p ≡ u.l4_1) ⊎ (p ≡ u.l4_2) → k + 8 ≤ 4096 → load64 prepared (p + k) ≡ 0
  unfolding load64
  prepared_l4_word p k h hk =
      load64_cong (λ x. 0) prepared (p + k)
        λ j hj. ap prepared (omega arith) ∙ prepared_l4 p (k + j) h (omega arith)

  pub prepared-slot : (b : ℕ) → load64 prepared (slot u b) ≡ 0
  prepared-slot b =
      prepared_l4_word (table_of u b) (8 * (b / 4096 % 512)) (ground arith) (omega arith)

  other_word :
      (p k : ℕ) → IsPage p → NoneOf u p → k + 8 ≤ 4096 → load64 prepared (p + k) ≡ load64 m (p + k)
  other_word p k page out h = load64_cong m prepared (p + k) λ j hj.
      ap prepared (shift j) ∙ prepared-Outside (p + (k + j)) (outside j hj) ∙ ap m (sym (shift j))
    where
      shift : (j : ℕ) → p + k + j ≡ p + (k + j)
      shift j = omega arith

      outside : (j : ℕ) → j < 8 → Outside u (p + (k + j))
      outside j hj = (
        page_apart p u.l1 (k + j) page.0 us.l1_page.0 out.not_l1 (omega arith),
        page_apart p u.l2 (k + j) page.0 us.l2_page.0 out.not_l2 (omega arith),
        page_apart p u.l3 (k + j) page.0 us.l3_page.0 out.not_l3 (omega arith),
        page_apart p u.l4_1 (k + j) page.0 us.l4_1_page.0 out.not_l4_1 (omega arith),
        page_apart p u.l4_2 (k + j) page.0 us.l4_2_page.0 out.not_l4_2 (omega arith),
      )

  first_other_word : (p : ℕ) → IsPage p → NoneOf u p → load64 prepared p ≡ load64 m p
  first_other_word p page out =
      ap (load64 prepared) (omega arith)
      ∙ other_word p 0 page out (omega arith)
      ∙ ap (load64 m) (omega arith)

  -- Page tables on other pages stay as they are.
  module _ (t : Tables) (ts : AreTables t) (n1 : NoneOf u t.l1) (n2 : NoneOf u t.l2)
      (n3 : NoneOf u t.l3) (n4 : NoneOf u t.l4_1) (n5 : NoneOf u t.l4_2) where
    pub prepared-Connected : Connected m t → Connected prepared t
    prepared-Connected conn = record {
      to_l2 = first_other_word t.l1 ts.l1_page n1 ∙ conn.to_l2;
      to_l3 = first_other_word t.l2 ts.l2_page n2 ∙ conn.to_l3;
      to_l4_1 = first_other_word t.l3 ts.l3_page n3 ∙ conn.to_l4_1;
      to_l4_2 = other_word t.l3 8 ts.l3_page n3 (omega arith) ∙ conn.to_l4_2;
    }

    pub prepared_other_slot : (b : ℕ) → load64 prepared (slot t b) ≡ load64 m (slot t b)
    prepared_other_slot b =
        other_word (table_of t b) (8 * (b / 4096 % 512)) (table_of-IsPage t ts b)
          (either (λ p. NoneOf u p) t.l4_1 t.l4_2 (ltb b 0x200000) n4 n5) (omega arith)
      where
        either : (P : ℕ → Type 0) (x y : ℕ) (c : Bool) → P x → P y → P (if c then x else y)
        either P x y true px py = px
        either P x y false px py = py
