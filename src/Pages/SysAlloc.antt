-- ===== src/Pages/SysAlloc.antt =====
-- The system call that maps a fresh page, on each of its branches.
use virtual_memory.Base.{
  ℕ, ◌+◌, ◌*◌, ◌%◌, ◌^◌, ◌≤◌, ◌<◌, ◌≡◌, refl, ◌≢◌, inl, none, some, arith, ◌∙◌, ok, panicked, ◌>>=◌,
  lt→ltb, le→ltb, ne→==,
}
use virtual_memory.Memory.{Memory}
use virtual_memory.Memory.Words.{IsBytes}
use virtual_memory.Paging.{proc_start_addr}
use virtual_memory.Vm.{
  Tables, minus_one, virtual_memory_map, virtual_memory_lookup, lookup_l4pagetable,
}
use virtual_memory.Vm.Layout.{AreTables, Connected}
use virtual_memory.Vm.Spaces.{CanMap, mapped, lookup-virtual_memory_map}
use virtual_memory.Vm.Errors.{virtual_memory_map-panicked, virtual_memory_map-no_table}
use virtual_memory.Pages.{
  PageInfo, PageInfos, set_page, find_free, find_free_or_fail, map_free_page,
  sys_page_alloc_find_free,
}
use virtual_memory.Pages.Assign.{
  IsFree, find_free_first, find_free_none, find_free_or_fail-find_free, assign-free,
  pageaddress_lem,
}

abbrev pub taken_by : ℕ → PageInfo
taken_by pid = record { owner = pid % 256; refcount = 1 }

-- With a free page the search goes on to map the lowest.
search_found :
    (m : Memory) (pages : PageInfos) (pagetable pid addr q : ℕ)
    → IsFree pages q
    → (p : ℕ) × IsFree pages p
      × (p ≤ q)
      × (sys_page_alloc_find_free m pages pagetable pid addr
          ≡ map_free_page m pages pagetable pid addr p)
unfolding sys_page_alloc_find_free
search_found m pages pagetable pid addr q free =
    let p = find_free pages 511 1 in
    let f = find_free_first pages 511 1 q free.0 free.1 free.2 in
    let below : p ≢ 512 = omega (arith, f, free) in
    let found : find_free_or_fail pages 511 1 ≡ some p =
      find_free_or_fail-find_free pages 510 1 refl ∙ rw (ne→== p 512 below) refl in
    (p, (f.0, omega (arith, f, free), f.2), f.1, rw (found, sys_page_alloc_find_free) refl)

-- The page is taken; the address decides what follows.
map_free_page_lem :
    (m : Memory) (pages : PageInfos) (pagetable pid addr p : ℕ)
    → p < 512
    → (pages p).refcount ≡ 0
    → proc_start_addr ≤ addr
    → map_free_page m pages pagetable pid addr p ≡ (
        virtual_memory_map m pagetable addr (p * 4096) 4096 7 >>= λ (_, m').
        ok (0, set_page pages p (taken_by pid), m'))
unfolding map_free_page
map_free_page_lem m pages pagetable pid addr p h e low =
    rw
      (
        assign-free pages p pid h e,
        le→ltb addr proc_start_addr low,
        pageaddress_lem p (omega arith),
      )
      refl

map_free_page_low :
    (m : Memory) (pages : PageInfos) (pagetable pid addr p : ℕ)
    → p < 512
    → (pages p).refcount ≡ 0
    → addr < proc_start_addr
    → map_free_page m pages pagetable pid addr p
      ≡ ok (minus_one, set_page pages p (taken_by pid), m)
unfolding map_free_page
map_free_page_low m pages pagetable pid addr p h e low =
    rw (assign-free pages p pid h e, lt→ltb addr proc_start_addr low) refl

-- On a connected page table of the kernel's shape, in a memory of bytes, for a page-aligned address
-- from the start of application memory up to 4 MB, and while a page behind page 0 is free, the call
-- returns 0: it takes the lowest free page for the process, maps it at the address with `P`, `W`
-- and `U`, and leaves every other lookup below 4 MB as it was.
pub sys_page_alloc_maps :
    (m : Memory) (pages : PageInfos) (t : Tables) (pid addr q b : ℕ)
    → AreTables t
    → Connected m t
    → IsBytes m
    → IsFree pages q
    → addr % 4096 ≡ 0
    → 0x100000 ≤ addr
    → addr + 4096 ≤ 0x400000
    → b < 0x400000
    → (p : ℕ) × (m' : Memory) × IsFree pages p
      × (p ≤ q)
      × (sys_page_alloc_find_free m pages t.l1 pid addr
          ≡ ok (0, set_page pages p (taken_by pid), m'))
      × (virtual_memory_lookup m' t.l1 b
          ≡ mapped addr (p * 4096) 4096 7 (virtual_memory_lookup m t.l1) b)
sys_page_alloc_maps m pages t pid addr q b ts conn bytes free aligned low high hb =
    let s = search_found m pages t.l1 pid addr q free in
    let can : CanMap addr (s.0 * 4096) 4096 7 = omega (arith, s.1) in
    let r = lookup-virtual_memory_map t ts m conn bytes addr (s.0 * 4096) 4096 7 b can hb in
    (
      s.0,
      r.0,
      s.1,
      s.2,
      s.3 ∙ map_free_page_lem m pages t.l1 pid addr s.0 s.1.1 s.1.2 low ∙ rw r.1 refl,
      r.2,
    )

-- When no page is free the call returns -1 and changes nothing.
pub sys_page_alloc_full :
    (m : Memory) (pages : PageInfos) (pagetable pid addr : ℕ)
    → ((k : ℕ) → 1 ≤ k → k < 512 → (pages k).refcount ≢ 0)
    → sys_page_alloc_find_free m pages pagetable pid addr ≡ ok (minus_one, pages, m)
unfolding sys_page_alloc_find_free
sys_page_alloc_full m pages pagetable pid addr h =
    let found : find_free_or_fail pages 511 1 ≡ none =
      find_free_or_fail-find_free pages 510 1 refl ∙ rw (find_free_none pages 511 1 h) refl in
    rw (found, sys_page_alloc_find_free) refl

-- For an address below application memory, and while a page behind page 0 is free, the call returns
-- -1 and changes no memory, and so no page table; yet the lowest free page now belongs to the
-- process, with one reference.
pub sys_page_alloc_leaks :
    (m : Memory) (pages : PageInfos) (pagetable pid addr q : ℕ)
    → IsFree pages q
    → addr < 0x100000
    → (p : ℕ) × IsFree pages p
      × (p ≤ q)
      × (sys_page_alloc_find_free m pages pagetable pid addr
          ≡ ok (minus_one, set_page pages p (taken_by pid), m))
sys_page_alloc_leaks m pages pagetable pid addr q free low =
    let s = search_found m pages pagetable pid addr q free in
    (s.0, s.1, s.2, s.3 ∙ map_free_page_low m pages pagetable pid addr s.0 s.1.1 s.1.2 low)

-- For an address of application memory that is not page-aligned and does not lie in the last page
-- of the 64-bit space, with an aligned page table, the call stops the machine, while a page behind
-- page 0 is free.
pub sys_page_alloc_misaligned :
    (m : Memory) (pages : PageInfos) (pagetable pid addr q : ℕ)
    → pagetable % 4096 ≡ 0
    → IsFree pages q
    → addr % 4096 ≢ 0
    → 0x100000 ≤ addr
    → addr + 4096 < 2 ^ 64
    → sys_page_alloc_find_free m pages pagetable pid addr ≡ panicked
sys_page_alloc_misaligned m pages pagetable pid addr q pt free ne low high =
    let s = search_found m pages pagetable pid addr q free in
    s.3
    ∙ map_free_page_lem m pages pagetable pid addr s.0 s.1.1 s.1.2 low
    ∙ rw
        (virtual_memory_map-panicked m pagetable addr (s.0 * 4096) 4096 7 pt high
          (omega (arith, s.1)) (inl ne))
        refl

-- For a page-aligned address of application memory below 2^52 whose last-level table is absent,
-- with an aligned page table, and while a page behind page 0 is free, the call returns 0 and takes
-- the lowest free page, although it has mapped nothing.
pub sys_page_alloc_unmapped :
    (m : Memory) (pages : PageInfos) (pagetable pid addr q : ℕ)
    → pagetable % 4096 ≡ 0
    → IsFree pages q
    → addr % 4096 ≡ 0
    → 0x100000 ≤ addr
    → addr + 4096 < 2 ^ 52
    → lookup_l4pagetable m pagetable addr 7 ≡ ok 0
    → (p : ℕ) × IsFree pages p
      × (p ≤ q)
      × (sys_page_alloc_find_free m pages pagetable pid addr
          ≡ ok (0, set_page pages p (taken_by pid), m))
sys_page_alloc_unmapped m pages pagetable pid addr q pt free aligned low high absent =
    let s = search_found m pages pagetable pid addr q free in
    (
      s.0,
      s.1,
      s.2,
      s.3
          ∙ map_free_page_lem m pages pagetable pid addr s.0 s.1.1 s.1.2 low
          ∙ rw
              (virtual_memory_map-no_table m pagetable addr (s.0 * 4096) 0 7 pt aligned high refl
                (omega arith) (omega arith) (omega (arith, s.1)) absent)
              refl,
    )
