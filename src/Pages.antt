-- ===== src/Pages.antt =====
-- `pageinfo[]` of kernel.c and the functions that hand out physical pages, with
-- `physical_memory_isreserved` of k-hardware.c. An `int8_t` is its 8-bit pattern.
pub mod Assign
pub mod Initial
pub mod SysAlloc
use virtual_memory.Base.{
  ℕ, zero, suc, ◌+◌, ◌-◌, ◌*◌, ◌/◌, ◌%◌, ◌^◌, bit_and, Bool, true, false, not, ◌&&◌, ◌||◌, ltb, leb,
  ◌==◌, if◌then◌else◌, Option, none, some, Outcome, ok, ◌>>=◌,
}
use virtual_memory.Memory.{Memory}
use virtual_memory.Paging.{
  page_size, memsize_physical, proc_start_addr, kernel_start_addr, kernel_stack_top, npages,
  pagenumber, pageaddress, pte_p, pte_w, pte_u,
}
use virtual_memory.Vm.{Symbols, is_nonneg, minus_one, virtual_memory_map}

pub record PageInfo : Type 0 where
  pub owner : ℕ
  pub refcount : ℕ

abbrev pub po_free : ℕ
po_free = 0

-- `(int8_t) -1` and `(int8_t) -2`
abbrev pub po_reserved : ℕ
po_reserved = 255

abbrev pub po_kernel : ℕ
po_kernel = 254

-- The array, by the 32-bit pattern of an `int` index. The code also uses index -1, which lies
-- outside the array: the bytes that are there are the cell at 0xFFFFFFFF.
abbrev pub PageInfos : Type 0
PageInfos = ℕ → PageInfo

unfoldable pub set_page : PageInfos → ℕ → PageInfo → PageInfos
set_page pages pn info n = if n == pn then info else pages n

-- The result, 0 or -1, and the new array.
unfoldable pub assign_physical_page : PageInfos → (addr owner : ℕ) → ℕ × PageInfos
assign_physical_page pages addr owner =
    if not (bit_and addr 0xFFF == 0)
      || leb memsize_physical addr
      || not ((pages (pagenumber addr)).refcount == 0)
    then (minus_one, pages)
    else (0, set_page pages (pagenumber addr) (record { owner = owner % 256; refcount = 1 }))

-- `for (p = 1; p < NPAGES; p++) if (pageinfo[p].refcount == 0) break;`, with the pages left.
unfoldable pub find_free : PageInfos → (left p : ℕ) → ℕ
find_free pages zero p = p
find_free pages (suc left) p =
    let rest = find_free pages left (p + 1) in if (pages p).refcount == 0 then p else rest

-- The address of the page, or NULL.
unfoldable pub alloc_page_process : PageInfos → (pid : ℕ) → ℕ × PageInfos
alloc_page_process pages pid =
    let p = find_free pages (npages - 1) 1 in
    let (page, pages') = assign_physical_page pages (pageaddress p) pid in
    (if is_nonneg page then pageaddress p else 0, pages')

-- The search loop of `sys_page_alloc_find_free`; `none` is its `return -1`.
pub find_free_or_fail : PageInfos → (left p : ℕ) → Option ℕ
find_free_or_fail pages zero p = some p
find_free_or_fail pages (suc left) p =
    let rest = find_free_or_fail pages left (p + 1) in
    if (pages p).refcount == 0 then some p else if p == npages - 1 then none else rest

-- The part behind the search, for the page `p`.
pub map_free_page :
    Memory → PageInfos → (pagetable pid addr p : ℕ) → Outcome (ℕ × PageInfos × Memory)
map_free_page m pages pagetable pid addr p =
    let (r, pages') = assign_physical_page pages (pageaddress p) pid in
    let r' = if ltb addr proc_start_addr then minus_one else r in
    if is_nonneg r'
    then (do
      (_, m') ← virtual_memory_map m pagetable addr (pageaddress p) page_size 7
      ok (r', pages', m'))
    else ok (r', pages', m)

-- The result, 0 or -1, with the new array and memory.
pub sys_page_alloc_find_free :
    Memory → PageInfos → (pagetable pid addr : ℕ) → Outcome (ℕ × PageInfos × Memory)
sys_page_alloc_find_free m pages pagetable pid addr =
    elim (find_free_or_fail pages (npages - 1) 1) [
      | none ↦ ok (minus_one, pages, m)
      | some p ↦ map_free_page m pages pagetable pid addr p
    ]

-- k-hardware.c
pub physical_memory_isreserved : ℕ → Bool
physical_memory_isreserved pa = (pa == 0) || leb 0xA0000 pa && ltb pa 0x100000

-- The owner that `pageinfo_init` gives the page at `addr`.
pub initial_owner : Symbols → ℕ → ℕ
initial_owner s addr =
    if physical_memory_isreserved addr
    then po_reserved
    else if leb kernel_start_addr addr && ltb addr s.end || (addr == kernel_stack_top - page_size)
    then po_kernel
    else po_free

-- The loop of `pageinfo_init`, with the pages that are left.
pub pageinfo_init_loop : Symbols → PageInfos → (left addr : ℕ) → PageInfos
pageinfo_init_loop s pages zero addr = pages
pageinfo_init_loop s pages (suc left) addr =
    let owner = initial_owner s addr in
    let info : PageInfo = record { owner = owner; refcount = if owner == po_free then 0 else 1 } in
    pageinfo_init_loop s (set_page pages (pagenumber addr) info) left (addr + page_size)

pub pageinfo_init : Symbols → PageInfos → PageInfos
pageinfo_init s pages = pageinfo_init_loop s pages (memsize_physical / page_size) 0
