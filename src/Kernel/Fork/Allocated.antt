-- ===== src/Kernel/Fork/Allocated.antt =====
-- The five pages that `duplicate_pagetable` allocates.
use virtual_memory.Base.{ℕ, ◌*◌, ◌≤◌, ◌<◌, ◌≡◌, refl, ◌≢◌, arith}
use virtual_memory.Vm.{Tables}
use virtual_memory.Pages.{PageInfos, set_page, alloc_page_process}
use virtual_memory.Pages.Assign.{IsFree, alloc_page_process_lowest}
use virtual_memory.Pages.SysAlloc.{taken_by}
use virtual_memory.Kernel.Fork.{alloc_tables}

-- A page that is free once `p` is taken was free before, and is another page.
IsFree-before :
    (pages : PageInfos) (p x pid : ℕ)
    → IsFree (set_page pages p (taken_by pid)) x
    → IsFree pages x × (x ≢ p)
unfolding set_page
IsFree-before pages p x pid f = ground arith

IsFree-still :
    (pages : PageInfos) (p x pid : ℕ)
    → IsFree pages x
    → x ≢ p
    → IsFree (set_page pages p (taken_by pid)) x
unfolding set_page
IsFree-still pages p x pid f ne = ground arith

-- Five free pages, in order.
pub record FiveFree (pages : PageInfos) : Type 0 where
  pub q1 : ℕ
  pub q2 : ℕ
  pub q3 : ℕ
  pub q4 : ℕ
  pub q5 : ℕ
  pub order : (q1 < q2) × (q2 < q3) × (q3 < q4) × (q4 < q5)
  pub free_1 : IsFree pages q1
  pub free_2 : IsFree pages q2
  pub free_3 : IsFree pages q3
  pub free_4 : IsFree pages q4
  pub free_5 : IsFree pages q5

-- The array after the five allocations.
abbrev pub taken_5 : PageInfos → (pid p1 p2 p3 p4 p5 : ℕ) → PageInfos
taken_5 pages pid p1 p2 p3 p4 p5 =
    set_page
      (set_page
        (set_page (set_page (set_page pages p1 (taken_by pid)) p2 (taken_by pid)) p3 (taken_by pid))
        p4 (taken_by pid))
      p5 (taken_by pid)

-- `alloc_tables` took five different free pages for the process.
pub record AreAllocated (pages : PageInfos) (pid : ℕ) (u : Tables) (pages' : PageInfos)
    : Type 0 where
  pub p1 : ℕ
  pub p2 : ℕ
  pub p3 : ℕ
  pub p4 : ℕ
  pub p5 : ℕ
  pub was_1 : IsFree pages p1
  pub was_2 : IsFree pages p2
  pub was_3 : IsFree pages p3
  pub was_4 : IsFree pages p4
  pub was_5 : IsFree pages p5
  pub apart_2 : p2 ≢ p1
  pub apart_3 : (p3 ≢ p1) × (p3 ≢ p2)
  pub apart_4 : (p4 ≢ p1) × (p4 ≢ p2) × (p4 ≢ p3)
  pub apart_5 : (p5 ≢ p1) × (p5 ≢ p2) × (p5 ≢ p3) × (p5 ≢ p4)
  pub tables : u ≡ record {
    l1 = p1 * 4096;
    l2 = p2 * 4096;
    l3 = p3 * 4096;
    l4_1 = p4 * 4096;
    l4_2 = p5 * 4096;
  }
  pub pages_after : pages' ≡ taken_5 pages pid p1 p2 p3 p4 p5

-- One allocation of the five: it takes a free page, and a page that is free afterwards was free
-- before it and is another.
one_allocation :
    (pages : PageInfos) (pid q : ℕ)
    → IsFree pages q
    → (p : ℕ) × IsFree pages p
      × (p ≤ q)
      × (alloc_page_process pages pid ≡ (p * 4096, set_page pages p (taken_by pid)))
      × ((x : ℕ) → p < x → IsFree pages x → IsFree (set_page pages p (taken_by pid)) x)
      × ((x : ℕ) → IsFree (set_page pages p (taken_by pid)) x → IsFree pages x × (x ≢ p))
one_allocation pages pid q free =
    let a = alloc_page_process_lowest pages pid q free in
    (
      a.0,
      a.1,
      a.2,
      a.3,
      λ x h f. IsFree-still pages a.0 x pid f (omega arith),
      λ x f. IsFree-before pages a.0 x pid f,
    )

pub alloc_tables-AreAllocated :
    (pages : PageInfos) (pid : ℕ)
    → FiveFree pages
    → AreAllocated pages pid (alloc_tables pages pid).0 (alloc_tables pages pid).1
unfolding alloc_tables
alloc_tables-AreAllocated pages pid f =
    let a1 = one_allocation pages pid f.q1 f.free_1 in
    let s1 = set_page pages a1.0 (taken_by pid) in
    let still1 = λ (x : ℕ) (h : f.q1 < x) (e : IsFree pages x). a1.4 x (omega (arith, a1.2)) e in
    let a2 = one_allocation s1 pid f.q2 (still1 f.q2 f.order.0 f.free_2) in
    let s2 = set_page s1 a2.0 (taken_by pid) in
    let still2 = λ (x : ℕ) (h : f.q2 < x) (e : IsFree pages x).
      a2.4 x (omega (arith, a2.2)) (still1 x (omega (arith, f.order)) e) in
    let a3 = one_allocation s2 pid f.q3 (still2 f.q3 f.order.1 f.free_3) in
    let s3 = set_page s2 a3.0 (taken_by pid) in
    let still3 = λ (x : ℕ) (h : f.q3 < x) (e : IsFree pages x).
      a3.4 x (omega (arith, a3.2)) (still2 x (omega (arith, f.order)) e) in
    let a4 = one_allocation s3 pid f.q4 (still3 f.q4 f.order.2 f.free_4) in
    let s4 = set_page s3 a4.0 (taken_by pid) in
    let still4 = λ (x : ℕ) (h : f.q4 < x) (e : IsFree pages x).
      a4.4 x (omega (arith, a4.2)) (still3 x (omega (arith, f.order)) e) in
    let a5 = one_allocation s4 pid f.q5 (still4 f.q5 f.order.3 f.free_5) in
    let b2 = a1.5 a2.0 a2.1 in
    let b3 = a2.5 a3.0 a3.1 in
    let c3 = a1.5 a3.0 b3.0 in
    let b4 = a3.5 a4.0 a4.1 in
    let c4 = a2.5 a4.0 b4.0 in
    let d4 = a1.5 a4.0 c4.0 in
    let b5 = a4.5 a5.0 a5.1 in
    let c5 = a3.5 a5.0 b5.0 in
    let d5 = a2.5 a5.0 c5.0 in
    let e5 = a1.5 a5.0 d5.0 in
    record {
      p1 = a1.0;
      p2 = a2.0;
      p3 = a3.0;
      p4 = a4.0;
      p5 = a5.0;
      was_1 = a1.1;
      was_2 = b2.0;
      was_3 = c3.0;
      was_4 = d4.0;
      was_5 = e5.0;
      apart_2 = b2.1;
      apart_3 = (c3.1, b3.1);
      apart_4 = (d4.1, c4.1, b4.1);
      apart_5 = (e5.1, d5.1, c5.1, b5.1);
      tables = rw (a1.3) (rw a2.3 (rw a3.3 (rw a4.3 (rw a5.3 refl))));
      pages_after = rw (a1.3) (rw a2.3 (rw a3.3 (rw a4.3 (rw a5.3 refl))));
    }
