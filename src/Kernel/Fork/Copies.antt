-- ===== src/Kernel/Fork/Copies.antt =====
-- What `duplicate_pagetable` returns, when memory suffices and when it does not.
use virtual_memory.Base.{ℕ, ◌%◌, ◌≤◌, ◌<◌, ◌≡◌, refl, ◌≢◌, arith, ltb, if◌then◌else◌, ok}
use virtual_memory.Memory.{Memory, memset}
use virtual_memory.Memory.Words.{IsBytes}
use virtual_memory.Memory.Copy.{memset_lem}
use virtual_memory.Vm.{Tables, unmapped, virtual_memory_lookup}
use virtual_memory.Vm.Layout.{AreTables, Connected}
use virtual_memory.Vm.Isolation.{Separate}
use virtual_memory.Pages.{PageInfos}
use virtual_memory.Pages.Assign.{alloc_page_process_full}
use virtual_memory.Kernel.Fork.{alloc_tables, clear_tables, duplicate_pagetable}
use virtual_memory.Kernel.Fork.Allocated.{FiveFree, AreAllocated, alloc_tables-AreAllocated}
use virtual_memory.Kernel.Fork.Cleared.{Outside}
use virtual_memory.Kernel.Fork.Copying.{
  InUse, fresh-AreTables, fresh_all, fresh-NoneOf, none-Separate, copies,
}

-- All that the new page table keeps, at every address.
pub duplicate_pagetable_all :
    (m : Memory) (pages : PageInfos) (t : Tables) (pid : ℕ)
    → AreTables t
    → Connected m t
    → IsBytes m
    → FiveFree pages
    → InUse pages t
    → ((va : ℕ)
        → va < 0x100000
        → (virtual_memory_lookup m t.l1 va).perm % 2 ≡ 1
        → (virtual_memory_lookup m t.l1 va).pa < 0x200000)
    → (u : Tables) × (pages' : PageInfos) × (m' : Memory) × (duplicate_pagetable m pages t.l1 pid
        ≡ ok (u.l1, pages', m'))
      × AreAllocated pages pid u pages'
      × AreTables u
      × Separate u t
      × Connected m' u
      × Connected m' t
      × IsBytes m'
      × ((x : ℕ) → Outside u x → m' x ≡ m x)
      × ((b : ℕ)
          → b < 0x400000
          → (virtual_memory_lookup m' u.l1 b
              ≡ (if ltb b 0x100000 then virtual_memory_lookup m t.l1 b else unmapped))
            × (virtual_memory_lookup m' t.l1 b ≡ virtual_memory_lookup m t.l1 b))
unfolding duplicate_pagetable
duplicate_pagetable_all m pages t pid ts ct bytes free used exists =
    let u = (alloc_tables pages pid).0 in
    let pages' = (alloc_tables pages pid).1 in
    let a = alloc_tables-AreAllocated pages pid free in
    let us = fresh-AreTables pages pid u pages' a in
    let none = fresh-NoneOf pages pid u pages' a in
    let n1 = none t.l1 used.l1_used in
    let n2 = none t.l2 used.l2_used in
    let n3 = none t.l3 used.l3_used in
    let n4 = none t.l4_1 used.l4_1_used in
    let n5 = none t.l4_2 used.l4_2_used in
    let r = copies t u ts us n1 n2 n3 n4 n5 m ct bytes exists in
    (
      u,
      pages',
      r.0,
      rw (fresh_all pages pid u pages' a) (rw r.1 refl),
      a,
      us,
      none-Separate u t n1 n2 n3 n4 n5,
      r.2,
      r.3,
      r.4,
      r.5,
      r.6,
    )

-- All lookups in the new page table at once.
pub duplicate_pagetable_agrees :
    (m : Memory) (pages : PageInfos) (t : Tables) (pid : ℕ)
    → AreTables t
    → Connected m t
    → IsBytes m
    → FiveFree pages
    → InUse pages t
    → ((va : ℕ)
        → va < 0x100000
        → (virtual_memory_lookup m t.l1 va).perm % 2 ≡ 1
        → (virtual_memory_lookup m t.l1 va).pa < 0x200000)
    → (u : Tables) × (pages' : PageInfos) × (m' : Memory) × (duplicate_pagetable m pages t.l1 pid
        ≡ ok (u.l1, pages', m'))
      × AreTables u
      × ((b : ℕ)
          → b < 0x400000
          → virtual_memory_lookup m' u.l1 b
            ≡ (if ltb b 0x100000 then virtual_memory_lookup m t.l1 b else unmapped))
duplicate_pagetable_agrees m pages t pid ts ct bytes free used exists =
    let (u, pages', m', runs, _, us, _, _, _, _, _, looks) =
      duplicate_pagetable_all m pages t pid ts ct bytes free used exists in
    (u, pages', m', runs, us, λ b h. (looks b h).0)

-- Given a connected page table of the kernel's shape, in a memory of bytes, on pages in use, that
-- maps nothing below 1 MB to memory that does not exist, and while five pages behind page 0 are
-- free, `duplicate_pagetable` returns the first of five different pages that were free and that it
-- gives to the process. They form a connected page table of the kernel's shape; a lookup in it
-- below 1 MB gives what the given page table gives, and from there to 4 MB nothing is mapped. No
-- lookup below 4 MB in the given page table changes, and no byte outside the five pages.
pub duplicate_pagetable_copies :
    (m : Memory) (pages : PageInfos) (t : Tables) (pid b x : ℕ)
    → AreTables t
    → Connected m t
    → IsBytes m
    → FiveFree pages
    → InUse pages t
    → ((va : ℕ)
        → va < 0x100000
        → (virtual_memory_lookup m t.l1 va).perm % 2 ≡ 1
        → (virtual_memory_lookup m t.l1 va).pa < 0x200000)
    → b < 0x400000
    → (u : Tables) × (pages' : PageInfos) × (m' : Memory) × (duplicate_pagetable m pages t.l1 pid
        ≡ ok (u.l1, pages', m'))
      × AreAllocated pages pid u pages'
      × AreTables u
      × Connected m' u
      × Connected m' t
      × IsBytes m'
      × (virtual_memory_lookup m' u.l1 b
          ≡ (if ltb b 0x100000 then virtual_memory_lookup m t.l1 b else unmapped))
      × (virtual_memory_lookup m' t.l1 b ≡ virtual_memory_lookup m t.l1 b)
      × (Outside u x → m' x ≡ m x)
duplicate_pagetable_copies m pages t pid b x ts ct bytes free used exists h =
    let (u, pages', m', runs, a, us, _, cu, ct', bytes', same, looks) =
      duplicate_pagetable_all m pages t pid ts ct bytes free used exists in
    (u, pages', m', runs, a, us, cu, ct', bytes', (looks b h).0, (looks b h).1, same x)

abbrev no_tables : Tables
no_tables = record { l1 = 0; l2 = 0; l3 = 0; l4_1 = 0; l4_2 = 0 }

alloc_tables_full :
    (pages : PageInfos) (pid : ℕ)
    → ((k : ℕ) → 1 ≤ k → k < 512 → (pages k).refcount ≢ 0)
    → alloc_tables pages pid ≡ (no_tables, pages)
unfolding alloc_tables
alloc_tables_full pages pid h =
    let e = alloc_page_process_full pages pid h in rw e (rw e (rw e (rw e (rw e refl))))

-- When no page is free, `duplicate_pagetable` returns NULL and takes no page; yet it overwrites
-- all of physical page 0 with zeroes.
pub duplicate_pagetable_full :
    (m : Memory) (pages : PageInfos) (pagetable pid x : ℕ)
    → ((k : ℕ) → 1 ≤ k → k < 512 → (pages k).refcount ≢ 0)
    → (m' : Memory) × (duplicate_pagetable m pages pagetable pid ≡ ok (0, pages, m'))
      × (m' x ≡ (if ltb x 4096 then 0 else m x))
unfolding duplicate_pagetable clear_tables
duplicate_pagetable_full m pages pagetable pid x h =
    let m1 = memset m 0 0 4096 in
    let m2 = memset m1 0 0 4096 in
    let m3 = memset m2 0 0 4096 in
    let m4 = memset m3 0 0 4096 in
    (
      memset m4 0 0 4096,
      rw (alloc_tables_full pages pid h) refl,
      ground (
        arith,
        memset_lem m 0 0 4096 x,
        memset_lem m1 0 0 4096 x,
        memset_lem m2 0 0 4096 x,
        memset_lem m3 0 0 4096 x,
        memset_lem m4 0 0 4096 x,
      ),
    )
