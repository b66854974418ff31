-- ===== src/Kernel/Fork/Copying.antt =====
-- The copying loop of `duplicate_pagetable`, run on five pages that were free.
use virtual_memory.Base.{
  ℕ, ◌*◌, ◌/◌, ◌%◌, ◌<◌, ◌≡◌, refl, ◌≢◌, true, arith, ap, sym, ◌∙◌, ltb, if◌then◌else◌, ok,
}
use virtual_memory.Memory.{Memory}
use virtual_memory.Memory.Words.{IsBytes}
use virtual_memory.Vm.{Tables, Vamapping, unmapped, virtual_memory_lookup}
use virtual_memory.Vm.Layout.{AreTables, Connected, mapping_of, lookup-Connected}
use virtual_memory.Vm.Isolation.{Separate, other_Connected}
use virtual_memory.Vm.Connect.{connect-Connected}
use virtual_memory.Pages.{PageInfos}
use virtual_memory.Kernel.Fork.{copy_mappings, clear_tables, all_allocated}
use virtual_memory.Kernel.Fork.Allocated.{AreAllocated}
use virtual_memory.Kernel.Fork.Cleared.{
  NoneOf, Outside, prepared-Outside, prepared, prepared-IsBytes, prepared-Connected, prepared-slot,
  prepared_other_slot,
}
use virtual_memory.Kernel.Fork.Duplicate.{Copied, copy_mappings-Copied, parent_lookup}

-- The pages of a page table are not free.
pub record InUse (pages : PageInfos) (t : Tables) : Type 0 where
  pub l1_used : (pages (t.l1 / 4096)).refcount ≢ 0
  pub l2_used : (pages (t.l2 / 4096)).refcount ≢ 0
  pub l3_used : (pages (t.l3 / 4096)).refcount ≢ 0
  pub l4_1_used : (pages (t.l4_1 / 4096)).refcount ≢ 0
  pub l4_2_used : (pages (t.l4_2 / 4096)).refcount ≢ 0

pub used_apart :
    (pages : PageInfos) (p q : ℕ)
    → (pages q).refcount ≡ 0
    → (pages (p / 4096)).refcount ≢ 0
    → p ≢ q * 4096
used_apart pages p q free used e = used (ap (λ x. (pages x).refcount) (omega (arith, e)) ∙ free)

module _ (pages : PageInfos) (pid : ℕ) (u : Tables) (pages' : PageInfos)
    (a : AreAllocated pages pid u pages') where
  pub fresh-AreTables : AreTables u
  fresh-AreTables = rw a.tables (omega (arith, a))

  pub fresh_all : all_allocated u ≡ true
  fresh_all = rw a.tables (ground (arith, a))

  pub fresh-NoneOf : (p : ℕ) → (pages (p / 4096)).refcount ≢ 0 → NoneOf u p
  fresh-NoneOf p used = rw a.tables record {
    not_l1 = used_apart pages p a.p1 a.was_1.2 used;
    not_l2 = used_apart pages p a.p2 a.was_2.2 used;
    not_l3 = used_apart pages p a.p3 a.was_3.2 used;
    not_l4_1 = used_apart pages p a.p4 a.was_4.2 used;
    not_l4_2 = used_apart pages p a.p5 a.was_5.2 used;
  }

pub none-Separate :
    (u t : Tables)
    → NoneOf u t.l1
    → NoneOf u t.l2
    → NoneOf u t.l3
    → NoneOf u t.l4_1
    → NoneOf u t.l4_2
    → Separate u t
none-Separate u t n1 n2 n3 n4 n5 = record {
  l1_not = (n1.not_l4_1, n1.not_l4_2);
  l2_not = (n2.not_l4_1, n2.not_l4_2);
  l3_not = (n3.not_l4_1, n3.not_l4_2);
  l4_1_not = (n4.not_l4_1, n4.not_l4_2);
  l4_2_not = (n5.not_l4_1, n5.not_l4_2);
}

-- The copying loop, run on the five pages of `u`, cleared and connected.
module _ (t u : Tables) (ts : AreTables t) (us : AreTables u) (n1 : NoneOf u t.l1)
    (n2 : NoneOf u t.l2) (n3 : NoneOf u t.l3) (n4 : NoneOf u t.l4_1) (n5 : NoneOf u t.l4_2)
    (m : Memory) (ct : Connected m t) (bytes : IsBytes m) where
  same_lookup :
      (b : ℕ)
      → b < 0x400000
      → virtual_memory_lookup (prepared u us m) t.l1 b ≡ virtual_memory_lookup m t.l1 b
  same_lookup b h =
      lookup-Connected (prepared u us m) t ts (prepared-Connected u us m t ts n1 n2 n3 n4 n5 ct)
        (prepared-IsBytes u us m bytes) b h
      ∙ ap (mapping_of b) (prepared_other_slot u us m t ts n1 n2 n3 n4 n5 b)
      ∙ sym (lookup-Connected m t ts ct bytes b h)

  empty_lookup : (b : ℕ) → b < 0x400000 → virtual_memory_lookup (prepared u us m) u.l1 b ≡ unmapped
  empty_lookup b h =
      lookup-Connected (prepared u us m) u us (connect-Connected u us (clear_tables m u))
        (prepared-IsBytes u us m bytes) b h
      ∙ ap (mapping_of b) (prepared-slot u us m b)

  pub copies :
      ((va : ℕ)
        → va < 0x100000
        → (virtual_memory_lookup m t.l1 va).perm % 2 ≡ 1
        → (virtual_memory_lookup m t.l1 va).pa < 0x200000)
      → (m' : Memory) × (copy_mappings (prepared u us m) t.l1 u.l1 256 0 ≡ ok m')
        × Connected m' u
        × Connected m' t
        × IsBytes m'
        × ((x : ℕ) → Outside u x → m' x ≡ m x)
        × ((b : ℕ)
            → b < 0x400000
            → (virtual_memory_lookup m' u.l1 b
                ≡ (if ltb b 0x100000 then virtual_memory_lookup m t.l1 b else unmapped))
              × (virtual_memory_lookup m' t.l1 b ≡ virtual_memory_lookup m t.l1 b))
  copies exists =
      let sep = none-Separate u t n1 n2 n3 n4 n5 in
      let m0 = prepared u us m in
      let ct0 = prepared-Connected u us m t ts n1 n2 n3 n4 n5 ct in
      let bytes0 = prepared-IsBytes u us m bytes in
      let exists0 : (va : ℕ)
          → va < 0x100000
          → (virtual_memory_lookup m0 t.l1 va).perm % 2 ≡ 1
          → (virtual_memory_lookup m0 t.l1 va).pa < 0x200000 =
        λ va h. rw (same_lookup va (omega arith)) (exists va h) in
      let old : ℕ → Vamapping = λ _. unmapped in
      let start : Copied t u ts us sep m0 ct0 bytes0 exists0 old 0 m0 = record {
        child = connect-Connected u us (clear_tables m u);
        bytes' = bytes0;
        outside = λ x o. refl;
        copied = λ b h. empty_lookup b h ∙ nothing_yet b (virtual_memory_lookup m0 t.l1 b);
      } in
      let r =
        copy_mappings-Copied t u ts us sep m0 ct0 bytes0 exists0 old 256 0 m0 (omega arith)
          (omega arith) start in
      (
        r.0,
        r.1,
        r.2.child,
        other_Connected u us m0 r.0 r.2.outside t ts sep ct0,
        r.2.bytes',
        λ x o. r.2.outside x (o.3, o.4) ∙ prepared-Outside u us m x o,
        λ b h. (
          r.2.copied b h ∙ ap (λ v. if ltb b 0x100000 then v else unmapped) (same_lookup b h),
          parent_lookup t u ts us sep m0 ct0 bytes0 exists0 r.0 r.2.outside r.2.bytes' b h
              ∙ same_lookup b h,
        ),
      )
    where
      nothing_yet : (b : ℕ) (v : Vamapping) → unmapped ≡ (if ltb b 0 then v else unmapped)
      nothing_yet b v = ground arith
