-- ===== src/Vm/Isolation.antt =====
-- A mapping in one page table is not seen through another.
use virtual_memory.Base.{ℕ, ◌+◌, ◌*◌, ◌/◌, ◌%◌, ◌≤◌, ◌<◌, ◌≡◌, ◌≢◌, arith, ap, sym, ◌∙◌, ok}
use virtual_memory.Memory.{Memory, load64}
use virtual_memory.Memory.Words.{load64_cong, IsBytes}
use virtual_memory.Vm.{Tables, virtual_memory_map, virtual_memory_lookup}
use virtual_memory.Vm.Layout.{
  AreTables, Connected, IsPage, table_of, slot, mapping_of, table_of-IsPage, lookup-Connected,
}
use virtual_memory.Vm.Slots.{OutsideL4, page_apart}
use virtual_memory.Vm.Spaces.{CanMap, virtual_memory_map-Maps}

-- A page that is no last-level table of `t`.
abbrev pub NotL4 : Tables → ℕ → Type 0
NotL4 t p = (p ≢ t.l4_1) × (p ≢ t.l4_2)

-- No table of `u` is a last-level table of `t`.
pub record Separate (t u : Tables) : Type 0 where
  pub l1_not : NotL4 t u.l1
  pub l2_not : NotL4 t u.l2
  pub l3_not : NotL4 t u.l3
  pub l4_1_not : NotL4 t u.l4_1
  pub l4_2_not : NotL4 t u.l4_2

module _ (t : Tables) (tables : AreTables t) (m m' : Memory)
    (same : (x : ℕ) → OutsideL4 t x → m' x ≡ m x) where
  page_word : (p k : ℕ) → IsPage p → NotL4 t p → k + 8 ≤ 4096 → load64 m' (p + k) ≡ load64 m (p + k)
  page_word p k page out h =
      load64_cong m m' (p + k)
        λ j hj. ap m' (shift j) ∙ same (p + (k + j)) (outside j hj) ∙ ap m (sym (shift j))
    where
      shift : (j : ℕ) → p + k + j ≡ p + (k + j)
      shift j = omega arith

      outside : (j : ℕ) → j < 8 → OutsideL4 t (p + (k + j))
      outside j hj = (
        page_apart p t.l4_1 (k + j) page.0 tables.l4_1_page.0 out.0 (omega arith),
        page_apart p t.l4_2 (k + j) page.0 tables.l4_2_page.0 out.1 (omega arith),
      )

  first_word : (p : ℕ) → IsPage p → NotL4 t p → load64 m' p ≡ load64 m p
  first_word p page out =
      ap (load64 m') (omega arith)
      ∙ page_word p 0 page out (omega arith)
      ∙ ap (load64 m) (omega arith)

  -- The other tables stay connected and keep their last-level entries.
  pub other_Connected : (u : Tables) → AreTables u → Separate t u → Connected m u → Connected m' u
  other_Connected u us sep conn = record {
    to_l2 = first_word u.l1 us.l1_page sep.l1_not ∙ conn.to_l2;
    to_l3 = first_word u.l2 us.l2_page sep.l2_not ∙ conn.to_l3;
    to_l4_1 = first_word u.l3 us.l3_page sep.l3_not ∙ conn.to_l4_1;
    to_l4_2 = page_word u.l3 8 us.l3_page sep.l3_not (omega arith) ∙ conn.to_l4_2;
  }

  pub other_slot :
      (u : Tables)
      → AreTables u
      → Separate t u
      → (b : ℕ) → load64 m' (slot u b) ≡ load64 m (slot u b)
  other_slot u us sep b =
      page_word (table_of u b) (8 * (b / 4096 % 512)) (table_of-IsPage u us b)
        (ground (arith, sep.l4_1_not, sep.l4_2_not)) (omega arith)

-- For two connected page tables of the kernel's shape, a call of `virtual_memory_map` on the first,
-- with a range that it can map, changes no lookup below 4 MB in the second, if none of the second's
-- pages is a last-level page of the first.
pub virtual_memory_map_isolated :
    (t u : Tables) (m : Memory) (va pa sz perm b : ℕ)
    → AreTables t
    → AreTables u
    → Separate t u
    → Connected m t
    → Connected m u
    → IsBytes m
    → CanMap va pa sz perm
    → b < 0x400000
    → (m' : Memory) × (virtual_memory_map m t.l1 va pa sz perm ≡ ok (0, m'))
      × (virtual_memory_lookup m' u.l1 b ≡ virtual_memory_lookup m u.l1 b)
virtual_memory_map_isolated t u m va pa sz perm b ts us sep ct cu bytes c h =
    let r = virtual_memory_map-Maps t ts m ct va pa sz perm c in
    let conn = other_Connected t ts m r.0 r.2.outside u us sep cu in
    (
      r.0,
      r.1,
      lookup-Connected r.0 u us conn (r.2.bytes bytes) b h
          ∙ ap (mapping_of b) (other_slot t ts m r.0 r.2.outside u us sep b)
          ∙ sym (lookup-Connected m u us cu bytes b h),
    )
