-- ===== src/Vm/Mapping.antt =====
-- `virtual_memory_map` over the five tables: which entries it writes, and that it writes no other.
use virtual_memory.Base.{
  ℕ, zero, suc, ◌+◌, ◌-◌, ◌*◌, ◌/◌, ◌%◌, ◌^◌, ◌≤◌, ◌<◌, ◌≡◌, refl, inl, inr, Bool, false, ◌&&◌, ltb,
  leb, ◌==◌, if◌then◌else◌, arith, Bool-cases, ap, ◌∙◌, ok,
}
use virtual_memory.Memory.{Memory, load64, store64}
use virtual_memory.Memory.Words.{load64-store64_ne, load64-store64_self, IsBytes, store64-IsBytes}
use virtual_memory.Paging.{has, pte_p, page_size}
use virtual_memory.Paging.Flags.{pageindex_3}
use virtual_memory.Vm.{Tables, continue, index123, map_entry, map_loop, lookup_l4pagetable}
use virtual_memory.Vm.Layout.{AreTables, Connected, table_of, slot, lookup_l4-Connected}
use virtual_memory.Vm.Slots.{OutsideL4, slot_apart, slot_eq, Connected-frame, store_slot_outside}

-- The entry that maps `pa` with `perm`.
unfoldable pub entry_value : ℕ → ℕ → ℕ
entry_value pa perm = if has perm pte_p then (pa + perm) % 2 ^ 64 else perm

-- `b` lies in one of the `n` pages from `va`.
abbrev pub in_range : (va n b : ℕ) → Bool
in_range va n b = leb va b && ltb b (va + n * 4096)

-- The physical page that the range from `va` to `pa` gives to the page of `b`.
abbrev pub target : (va pa b : ℕ) → ℕ
target va pa b = (pa + (b / 4096 * 4096 - va)) % 2 ^ 64

-- `m'` is `m` with `n` pages from `va` mapped to `pa`.
pub record Maps (t : Tables) (m : Memory) (va pa perm n : ℕ) (m' : Memory) : Type 0 where
  pub conn : Connected m' t
  pub outside : (x : ℕ) → OutsideL4 t x → m' x ≡ m x
  pub slots :
      (b : ℕ)
      → b < 0x400000
      → load64 m' (slot t b)
        ≡ (if in_range va n b then entry_value (target va pa b) perm else load64 m (slot t b))
  pub bytes : IsBytes m → IsBytes m'

module _ (t : Tables) (tables : AreTables t) (perm : ℕ) (small : perm < 0x1000) where
  entry_value-lt : (pa : ℕ) → entry_value pa perm < 2 ^ 64
  unfolding entry_value
  entry_value-lt pa = ground arith

  entry_value-mod : (pa : ℕ) → entry_value (pa % 2 ^ 64) perm ≡ entry_value pa perm
  unfolding entry_value
  entry_value-mod pa = ground arith

  entry_value_eq : (pa pa' : ℕ) → pa ≡ pa' → entry_value pa perm ≡ entry_value pa' perm
  entry_value_eq pa pa' e = ap (λ x. entry_value x perm) e

  -- The range of one more page, seen from its first page.
  range_suc :
      (va pa n b old : ℕ)
      → va % 4096 ≡ 0
      → (if in_range (va + 4096) n b
          then entry_value (target (va + 4096) ((pa + 4096) % 2 ^ 64) b) perm
          else if va / 4096 == b / 4096
          then entry_value pa perm
          else old)
        ≡ (if in_range va (suc n) b then entry_value (target va pa b) perm else old)
  range_suc va pa n b old h = ground (
    arith,
    entry_value-mod pa,
    entry_value_eq (target va pa b) (pa % 2 ^ 64),
    entry_value_eq (target (va + 4096) ((pa + 4096) % 2 ^ 64) b) (target va pa b),
  )

  stored_slot :
      (m : Memory) (va b v : ℕ)
      → v < 2 ^ 64
      → va < 0x400000
      → b < 0x400000
      → load64 (store64 m (slot t va) v) (slot t b)
        ≡ (if va / 4096 == b / 4096 then v else load64 m (slot t b))
  stored_slot m va b v hv ha hb = elim (Bool-cases (va / 4096 == b / 4096)) [
    | inl e ↦ rw (e, slot_eq t tables b va (ground arith)) (load64-store64_self m (slot t va) v hv)
    | inr e ↦ rw e (
        load64-store64_ne m (slot t va) (slot t b) v
          (slot_apart t tables va b ha hb (ground arith)))
  ]

  -- One round with the right table stores one entry.
  map_entry_lem :
      (m : Memory) (va pa : ℕ)
      → map_entry m va pa perm (table_of t va)
        ≡ continue (table_of t va) (store64 m (slot t va) (entry_value pa perm))
  unfolding map_entry entry_value
  map_entry_lem m va pa =
      let nonzero : (table_of t va == 0) ≡ false =
        ground (arith, tables.l4_1_page, tables.l4_2_page) in
      rw (nonzero, pageindex_3 va)
        (elim (Bool-cases (has perm pte_p)) [ inl e ↦ rw e refl | inr e ↦ rw e refl ])

  none_Maps : (m : Memory) (va pa : ℕ) → va % 4096 ≡ 0 → Connected m t → Maps t m va pa perm 0 m
  none_Maps m va pa h conn = record {
    conn = conn;
    outside = λ x o. refl;
    slots = λ b hb. ground arith;
    bytes = λ h. h;
  }

  step_Maps :
      (m m' : Memory) (va pa n : ℕ)
      → va % 4096 ≡ 0
      → va + 4096 ≤ 0x400000
      → Connected m t
      → Maps t
          (store64 m (slot t va) (entry_value pa perm))
          (va + 4096)
          ((pa + 4096) % 2 ^ 64)
          perm
          n
          m'
      → Maps t m va pa perm (suc n) m'
  step_Maps m m' va pa n h fits conn r = record {
    conn = r.conn;
    outside = λ x o. r.outside x o ∙ store_slot_outside t tables m va (entry_value pa perm) x o;
    slots = λ b hb.
        r.slots b hb
        ∙ ap
            (λ w.
              if in_range (va + 4096) n b
              then entry_value (target (va + 4096) ((pa + 4096) % 2 ^ 64) b) perm
              else w)
            (stored_slot m va b _ (entry_value-lt pa) (omega arith) hb)
        ∙ range_suc va pa n b _ h;
    bytes = λ h. r.bytes (store64-IsBytes m (slot t va) _ h);
  }

  -- The table that a round works with: the one it kept, if its index is that of the round before.
  round_table :
      (m : Memory) (va last l4 : ℕ)
      → Connected m t
      → va < 0x400000
      → (last ≡ index123 va → l4 ≡ table_of t va)
      → (if index123 va == last then ok l4 else lookup_l4pagetable m t.l1 va perm)
        ≡ ok (table_of t va)
  round_table m va last l4 conn hv keep = elim (Bool-cases (index123 va == last)) [
    | inl e ↦ rw e (ap ok (keep (ground arith)))
    | inr e ↦ rw e (lookup_l4-Connected m t tables conn va perm hv)
  ]

  -- Pages with one index at the first three levels share their last-level table.
  same_table :
      (va : ℕ)
      → va + 4096 < 0x400000
      → index123 va ≡ index123 (va + 4096)
      → table_of t va ≡ table_of t (va + 4096)
  same_table va hv e = ground arith

  map_loop-zero :
      (m : Memory) (va pa last l4 : ℕ) → map_loop m t.l1 0 va pa perm last l4 ≡ ok (0, m)
  unfolding map_loop
  map_loop-zero m va pa last l4 = refl

  map_loop-suc :
      (n : ℕ) (m : Memory) (va pa last l4 : ℕ)
      → Connected m t
      → va + 4096 ≤ 0x400000
      → (last ≡ index123 va → l4 ≡ table_of t va)
      → map_loop m t.l1 (suc n) va pa perm last l4
        ≡ map_loop
            (store64 m (slot t va) (entry_value pa perm))
            t.l1
            n
            (va + 4096)
            ((pa + 4096) % 2 ^ 64)
            perm
            (index123 va)
            (table_of t va)
  unfolding map_loop
  map_loop-suc n m va pa last l4 conn fits keep =
      let va' : (va + page_size) % 2 ^ 64 ≡ va + 4096 = omega arith in
      rw (round_table m va last l4 conn (omega arith) keep)
        (rw (map_entry_lem m va pa) (rw va' refl))

  -- From here the loop stays shut.
  pub map_loop-Maps :
      (n : ℕ) (m : Memory) (va pa last l4 : ℕ)
      → Connected m t
      → va % 4096 ≡ 0
      → va + n * 4096 ≤ 0x400000
      → (va < 0x400000 → last ≡ index123 va → l4 ≡ table_of t va)
      → (m' : Memory) × (map_loop m t.l1 n va pa perm last l4 ≡ ok (0, m'))
        × Maps t m va pa perm n m'
  map_loop-Maps zero m va pa last l4 conn h fits keep =
      (m, map_loop-zero m va pa last l4, none_Maps m va pa h conn)
  map_loop-Maps (suc n) m va pa last l4 conn h fits keep =
      let m1 = store64 m (slot t va) (entry_value pa perm) in
      let conn1 =
        Connected-frame t tables m m1 (store_slot_outside t tables m va (entry_value pa perm))
          conn in
      let rest =
        map_loop-Maps n m1 (va + 4096) ((pa + 4096) % 2 ^ 64) (index123 va) (table_of t va) conn1
          (omega arith) (omega arith) (λ hv e. same_table va hv e) in
      (
        rest.0,
        map_loop-suc n m va pa last l4 conn (omega arith) (keep (omega arith)) ∙ rest.1,
        step_Maps m rest.0 va pa n h (omega arith) conn rest.2,
      )
