-- ===== src/Kernel/Fork/NewTables.antt =====
-- What the five pages of a new page table mean for `pageinfo[]`.
use virtual_memory.Base.{
  ℕ, ◌+◌, ◌*◌, ◌/◌, ◌≤◌, ◌<◌, ◌≡◌, refl, ◌≢◌, ap, sym, ◌∙◌, eq→==, ne→==, arith,
}
use virtual_memory.Vm.{Tables}
use virtual_memory.Pages.{PageInfos, set_page}
use virtual_memory.Pages.SysAlloc.{taken_by}
use virtual_memory.Kernel.Fork.Allocated.{AreAllocated, taken_5}
use virtual_memory.Kernel.Fork.Cleared.{Outside}
use virtual_memory.Kernel.Fork.Copying.{InUse}
use virtual_memory.Kernel.Fork.FreePages.{free_pages, free_pages-take}
use virtual_memory.Kernel.Fork.Rounds.{StaysUsed, outside_page}

-- Taking a page.
take-StaysUsed : (pages : PageInfos) (p pid : ℕ) → StaysUsed pages (set_page pages p (taken_by pid))
unfolding set_page
take-StaysUsed pages p pid n h used = ground (arith, used)

taken-used : (pages : PageInfos) (p pid : ℕ) → (set_page pages p (taken_by pid) p).refcount ≢ 0
unfolding set_page
taken-used pages p pid = rw (eq→== p p refl) (λ z. omega (arith, z))

take-other : (pages : PageInfos) (p pid n : ℕ) → n ≢ p → set_page pages p (taken_by pid) n ≡ pages n
unfolding set_page
take-other pages p pid n other = rw (ne→== n p other) refl

used_other : (pages : PageInfos) (p n : ℕ) → (pages p).refcount ≡ 0 → (pages n).refcount ≢ 0 → n ≢ p
used_other pages p n free used e = used (ap (λ x. (pages x).refcount) e ∙ free)

at_start :
    (pages : PageInfos) (p : ℕ) → (pages p).refcount ≢ 0 → (pages (p * 4096 / 4096)).refcount ≢ 0
at_start pages p used =
    let same : p * 4096 / 4096 ≡ p = omega arith in
    λ z. used (ap (λ n. (pages n).refcount) (sym same) ∙ z)

module _ (pages : PageInfos) (pid : ℕ) (u : Tables) (pages' : PageInfos)
    (a : AreAllocated pages pid u pages') where
  s1 : PageInfos
  s1 = set_page pages a.p1 (taken_by pid)

  s2 : PageInfos
  s2 = set_page s1 a.p2 (taken_by pid)

  s3 : PageInfos
  s3 = set_page s2 a.p3 (taken_by pid)

  s4 : PageInfos
  s4 = set_page s3 a.p4 (taken_by pid)

  -- A page in use keeps its entry.
  pub new_tables-same : (n : ℕ) → (pages n).refcount ≢ 0 → pages' n ≡ pages n
  unfolding s1 s2 s3 s4
  new_tables-same n used =
      ap (λ (q : PageInfos). q n) a.pages_after
      ∙ take-other s4 a.p5 pid n (used_other pages a.p5 n a.was_5.2 used)
      ∙ take-other s3 a.p4 pid n (used_other pages a.p4 n a.was_4.2 used)
      ∙ take-other s2 a.p3 pid n (used_other pages a.p3 n a.was_3.2 used)
      ∙ take-other s1 a.p2 pid n (used_other pages a.p2 n a.was_2.2 used)
      ∙ take-other pages a.p1 pid n (used_other pages a.p1 n a.was_1.2 used)

  -- Five pages are taken at most.
  pub new_tables-free : free_pages pages 511 1 ≤ free_pages pages' 511 1 + 5
  unfolding s1 s2 s3 s4
  new_tables-free = rw a.pages_after (
      omega (
        arith,
        free_pages-take pages (taken_by pid) a.p1 511 1,
        free_pages-take s1 (taken_by pid) a.p2 511 1,
        free_pages-take s2 (taken_by pid) a.p3 511 1,
        free_pages-take s3 (taken_by pid) a.p4 511 1,
        free_pages-take s4 (taken_by pid) a.p5 511 1,
      ))

  -- The tables are in use.
  pub new_tables-InUse : InUse pages' u
  unfolding s1 s2 s3 s4
  new_tables-InUse =
      let by5 =
        λ (n : ℕ) (h : n < 512) (e : (s4 n).refcount ≢ 0). take-StaysUsed s4 a.p5 pid n h e in
      let by4 = λ (n : ℕ) (h : n < 512) (e : (s3 n).refcount ≢ 0).
        by5 n h (take-StaysUsed s3 a.p4 pid n h e) in
      let by3 = λ (n : ℕ) (h : n < 512) (e : (s2 n).refcount ≢ 0).
        by4 n h (take-StaysUsed s2 a.p3 pid n h e) in
      let by2 = λ (n : ℕ) (h : n < 512) (e : (s1 n).refcount ≢ 0).
        by3 n h (take-StaysUsed s1 a.p2 pid n h e) in
      let last = taken_5 pages pid a.p1 a.p2 a.p3 a.p4 a.p5 in
      rw (a.tables, a.pages_after)
        record {
          l1_used = at_start last a.p1 (by2 a.p1 a.was_1.1 (taken-used pages a.p1 pid));
          l2_used = at_start last a.p2 (by3 a.p2 a.was_2.1 (taken-used s1 a.p2 pid));
          l3_used = at_start last a.p3 (by4 a.p3 a.was_3.1 (taken-used s2 a.p3 pid));
          l4_1_used = at_start last a.p4 (by5 a.p4 a.was_4.1 (taken-used s3 a.p4 pid));
          l4_2_used = at_start last a.p5 (taken-used s4 a.p5 pid);
        }

  -- A byte of a page that was in use is in no new table.
  pub new_tables-Outside : (x : ℕ) → (pages (x / 4096)).refcount ≢ 0 → Outside u x
  new_tables-Outside x used = rw a.tables (
    outside_page pages a.p1 x a.was_1.2 used,
    outside_page pages a.p2 x a.was_2.2 used,
    outside_page pages a.p3 x a.was_3.2 used,
    outside_page pages a.p4 x a.was_4.2 used,
    outside_page pages a.p5 x a.was_5.2 used,
  )
