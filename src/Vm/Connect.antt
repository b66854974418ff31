-- ===== src/Vm/Connect.antt =====
-- The four stores that connect the pages of a page table.
use virtual_memory.Base.{
  ℕ, ◌+◌, ◌*◌, ◌/◌, ◌%◌, ◌^◌, ◌≤◌, ◌<◌, ◌≡◌, ◌≢◌, ◌⊎◌, bit_or, arith, ap, sym, ◌∙◌,
}
use virtual_memory.Bits.{bit_or_sum, bit_or_digit}
use virtual_memory.Memory.{Memory, load64, store64}
use virtual_memory.Memory.Words.{
  load64-store64_ne, load64-store64_self, store64_ne, IsBytes, store64-IsBytes,
}
use virtual_memory.Vm.{Tables, link, connect}
use virtual_memory.Vm.Layout.{AreTables, Connected, IsPage}

pub link_lem : (a : ℕ) → a % 4096 ≡ 0 → link a ≡ a + 7
unfolding link
link_lem a h =
    let one : bit_or a 1 ≡ a + 1 =
      ap (λ x. bit_or x 1) (omega arith) ∙ bit_or_sum 12 (a / 4096) 1 (omega arith) ∙ omega arith in
    let two : bit_or (a + 1) 2 ≡ a + 3 =
      ground (arith, bit_or_digit (a + 1) 2, bit_or_sum 1 (a / 4) 1 (omega arith)) in
    let four : bit_or (a + 3) 4 ≡ a + 7 = ground (
      arith,
      bit_or_digit (a + 3) 4,
      bit_or_digit ((a + 3) / 2) 2,
      bit_or_sum 1 (a / 8) 1 (omega arith),
    ) in
    rw (one, two, four)

pages_apart : (a b : ℕ) → IsPage a → IsPage b → a ≢ b → (a + 4096 ≤ b) ⊎ (b + 4096 ≤ a)
pages_apart a b p q ne = ground arith

-- A load of the word just stored, at an address that is spelled otherwise.
read_self : (m : Memory) (a b v : ℕ) → a ≡ b → v < 2 ^ 64 → load64 (store64 m a v) b ≡ v
read_self m a b v e h = ap (load64 (store64 m a v)) (sym e) ∙ load64-store64_self m a v h

link_read :
    (m : Memory) (a b next : ℕ)
    → a ≡ b
    → IsPage next
    → load64 (store64 m a (link next)) b ≡ next + 7
link_read m a b next e page =
    read_self m a b (link next) e (omega (arith, link_lem next page.0)) ∙ link_lem next page.0

module _ (t : Tables) (tables : AreTables t) (m : Memory) where
  abbrev m1 : Memory
  m1 = store64 m (t.l1 + 8 * 0) (link t.l2)

  abbrev m2 : Memory
  m2 = store64 m1 (t.l2 + 8 * 0) (link t.l3)

  abbrev m3 : Memory
  m3 = store64 m2 (t.l3 + 8 * 0) (link t.l4_1)

  pub connect-Connected : Connected (connect m t) t
  unfolding connect
  connect-Connected =
      let p12 = pages_apart t.l1 t.l2 tables.l1_page tables.l2_page tables.upper_apart.0 in
      let p13 = pages_apart t.l1 t.l3 tables.l1_page tables.l3_page tables.upper_apart.1 in
      let p23 = pages_apart t.l2 t.l3 tables.l2_page tables.l3_page tables.upper_apart.2 in
      record {
        to_l2 =
            load64-store64_ne m3 (t.l3 + 8) t.l1 _ (ground arith)
            ∙ load64-store64_ne m2 (t.l3 + 8 * 0) t.l1 _ (ground arith)
            ∙ load64-store64_ne m1 (t.l2 + 8 * 0) t.l1 _ (ground arith)
            ∙ link_read m (t.l1 + 8 * 0) t.l1 t.l2 (omega arith) tables.l2_page;
        to_l3 =
            load64-store64_ne m3 (t.l3 + 8) t.l2 _ (ground arith)
            ∙ load64-store64_ne m2 (t.l3 + 8 * 0) t.l2 _ (ground arith)
            ∙ link_read m1 (t.l2 + 8 * 0) t.l2 t.l3 (omega arith) tables.l3_page;
        to_l4_1 =
            load64-store64_ne m3 (t.l3 + 8) t.l3 _ (ground arith)
            ∙ link_read m2 (t.l3 + 8 * 0) t.l3 t.l4_1 (omega arith) tables.l4_1_page;
        to_l4_2 = link_read m3 (t.l3 + 8) (t.l3 + 8) t.l4_2 (omega arith) tables.l4_2_page;
      }

  -- No other byte changes.
  pub connect_outside :
      (x : ℕ)
      → ((x < t.l1) ⊎ (t.l1 + 8 ≤ x))
      → ((x < t.l2) ⊎ (t.l2 + 8 ≤ x))
      → ((x < t.l3) ⊎ (t.l3 + 16 ≤ x))
      → connect m t x ≡ m x
  unfolding connect
  connect_outside x h1 h2 h3 =
      store64_ne m3 (t.l3 + 8) (link t.l4_2) x (ground arith)
      ∙ store64_ne m2 (t.l3 + 8 * 0) (link t.l4_1) x (ground arith)
      ∙ store64_ne m1 (t.l2 + 8 * 0) (link t.l3) x (ground arith)
      ∙ store64_ne m (t.l1 + 8 * 0) (link t.l2) x (ground arith)

  pub connect-IsBytes : IsBytes m → IsBytes (connect m t)
  unfolding connect
  connect-IsBytes h =
      store64-IsBytes m3 _ _
        (store64-IsBytes m2 _ _ (store64-IsBytes m1 _ _ (store64-IsBytes m _ _ h)))
