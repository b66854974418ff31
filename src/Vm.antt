-- ===== src/Vm.antt =====
-- vm.c: the page-table walk, the mapping of ranges, and the kernel's own page table. A C `int` is
-- its 32-bit pattern and a pointer its address, 0 being NULL. `log_printf` writes to the host's
-- log and changes no state that the kernel reads, so its calls are left out.
pub mod Connect
pub mod Errors
pub mod Frames
pub mod Init
pub mod Isolation
pub mod Layout
pub mod Lookup
pub mod Mapping
pub mod Slots
pub mod Spaces
pub mod Walk
use virtual_memory.Base.{
  ℕ, zero, suc, ◌+◌, ◌-◌, ◌*◌, ◌/◌, ◌%◌, ◌^◌, bit_and, bit_or, Bool, true, false, not, ◌&&◌, ◌||◌,
  ltb, leb, ◌==◌, if◌then◌else◌, Outcome, ok, panicked, ◌>>=◌, ◌>>◌, assert,
}
use virtual_memory.Memory.{Memory, store64, memset}
use virtual_memory.Paging.{
  page_size, memsize_physical, pte_p, pte_w, pte_u, pagenumber, pageindex, pageoffset, pte_addr,
  pte_flags, has, entry_addr, entry,
}

-- `(int) -1` and `(uintptr_t) -1`
abbrev pub minus_one : ℕ
minus_one = 0xFFFFFFFF

abbrev pub minus_one64 : ℕ
minus_one64 = 0xFFFFFFFFFFFFFFFF

-- A non-negative `int`
abbrev pub is_nonneg : ℕ → Bool
is_nonneg r = ltb r (2 ^ 31)

-- `~x` on 64 bits
abbrev pub not64 : ℕ → ℕ
not64 x = 0xFFFFFFFFFFFFFFFF - x

pub record Vamapping : Type 0 where
  pub pn : ℕ
  pub pa : ℕ
  pub perm : ℕ

abbrev pub unmapped : Vamapping
unmapped = record { pn = minus_one; pa = minus_one64; perm = 0 }

-- The entry that one round of `virtual_memory_lookup`'s loop reads, less the flags that it clears.
unfoldable pub next_entry : Memory → (va level pt pe : ℕ) → ℕ
next_entry m va level pt pe =
    bit_and (entry m pt (pageindex va level)) (not64 (bit_and pe (bit_or pte_w pte_u)))

-- The loop of `virtual_memory_lookup`, with the levels that are left.
unfoldable pub lookup_loop : Memory → (va left level pt pe : ℕ) → ℕ
lookup_loop m va zero level pt pe = pe
lookup_loop m va (suc left) level pt pe =
    let pe' = next_entry m va level pt pe in
    let rest = lookup_loop m va left (level + 1) (pte_addr pe') pe' in
    if has pe pte_p then rest else pe

-- What `virtual_memory_lookup` returns for the last entry that it read.
unfoldable pub vamapping_of : (va pe : ℕ) → Vamapping
vamapping_of va pe =
    if has pe pte_p
    then record {
      pn = pagenumber pe;
      pa = (pte_addr pe + pageoffset va) % 2 ^ 64;
      perm = pte_flags pe;
    }
    else unmapped

unfoldable pub virtual_memory_lookup : Memory → (pagetable va : ℕ) → Vamapping
virtual_memory_lookup m pagetable va = vamapping_of va (lookup_loop m va 4 0 pagetable 7)

-- The loop of `lookup_l4pagetable`, with the levels that are left.
unfoldable pub lookup_l4_loop : Memory → (va perm left level pt : ℕ) → Outcome ℕ
lookup_l4_loop m va perm zero level pt = ok pt
lookup_l4_loop m va perm (suc left) level pt =
    let pe = entry m pt (pageindex va level) in
    if has pe pte_p
    then (do
      assert (ltb (pte_addr pe) memsize_physical)
      assert (not (has perm pte_w) || has pe pte_w)
      assert (not (has perm pte_u) || has pe pte_u)
      lookup_l4_loop m va perm left (level + 1) (pte_addr pe))
    else ok 0

unfoldable pub lookup_l4pagetable : Memory → (pagetable va perm : ℕ) → Outcome ℕ
lookup_l4pagetable m pagetable va perm = lookup_l4_loop m va perm 3 0 pagetable

-- How one round of `virtual_memory_map`'s loop ends: it goes on with this last-level table, or it
-- returns -1.
pub data Round : Type 0 where
  continue : ℕ → Memory → Round
  no_table : Memory → Round

-- `cur_index123`
abbrev pub index123 : ℕ → ℕ
index123 va = va / 2 ^ 21 % 2 ^ 32

-- The body of the loop, once the last-level table is known.
pub map_entry : Memory → (va pa perm l4pagetable : ℕ) → Round
map_entry m va pa perm l4pagetable =
    if has perm pte_p && not (l4pagetable == 0)
    then continue l4pagetable
        (store64 m (entry_addr l4pagetable (pageindex va 3)) ((pa + perm) % 2 ^ 64))
    else if not (l4pagetable == 0)
    then continue l4pagetable (store64 m (entry_addr l4pagetable (pageindex va 3)) perm)
    else if has perm pte_p
    then no_table m
    else continue l4pagetable m

abbrev pub and_continue : Round → (ℕ → Memory → Outcome (ℕ × Memory)) → Outcome (ℕ × Memory)
and_continue (continue t m) rest = rest t m
and_continue (no_table m) rest = ok (minus_one, m)

-- The loop, with the pages that are left: `sz` is a multiple of the page size, so `sz != 0` holds
-- for `sz / PAGESIZE` rounds.
pub map_loop :
    Memory → (pagetable left va pa perm last_index123 l4pagetable : ℕ) → Outcome (ℕ × Memory)
map_loop m pagetable zero va pa perm last l4 = ok (0, m)
map_loop m pagetable (suc left) va pa perm last l4 = do
  l4' ← if index123 va == last then ok l4 else lookup_l4pagetable m pagetable va perm
  and_continue (map_entry m va pa perm l4') λ t m'.
      map_loop m' pagetable left ((va + page_size) % 2 ^ 64) ((pa + page_size) % 2 ^ 64) perm
        (index123 va) t

-- The assertions at the start of `virtual_memory_map`, in their order.
pub map_checks : (pagetable va pa sz perm : ℕ) → Outcome (Unit {0})
map_checks pagetable va pa sz perm = do
  assert (va % page_size == 0)
  assert (sz % page_size == 0)
  assert (leb va ((va + sz) % 2 ^ 64) || ((va + sz) % 2 ^ 64 == 0))
  assert (not (has perm pte_p) || (pa % page_size == 0))
  assert (not (has perm pte_p) || leb pa ((pa + sz) % 2 ^ 64))
  assert (not (has perm pte_p) || leb ((pa + sz) % 2 ^ 64) memsize_physical)
  assert (ltb perm 0x1000)
  assert (pagetable % page_size == 0)

pub virtual_memory_map : Memory → (pagetable va pa sz perm : ℕ) → Outcome (ℕ × Memory)
virtual_memory_map m pagetable va pa sz perm = do
  map_checks pagetable va pa sz perm
  map_loop m pagetable (sz / page_size) va pa perm minus_one 0

-- The addresses of a page table's five pages: one at each of the first three levels, two at the
-- last.
pub record Tables : Type 0 where
  pub l1 : ℕ
  pub l2 : ℕ
  pub l3 : ℕ
  pub l4_1 : ℕ
  pub l4_2 : ℕ

-- `(x86_64_pageentry_t) pt | PTE_P | PTE_W | PTE_U`
unfoldable pub link : ℕ → ℕ
link pt = bit_or (bit_or (bit_or pt pte_p) pte_w) pte_u

-- The four stores that connect the pages.
unfoldable pub connect : Memory → Tables → Memory
connect m t =
    let m1 = store64 m (entry_addr t.l1 0) (link t.l2) in
    let m2 = store64 m1 (entry_addr t.l2 0) (link t.l3) in
    let m3 = store64 m2 (entry_addr t.l3 0) (link t.l4_1) in
    store64 m3 (entry_addr t.l3 1) (link t.l4_2)

-- What the linker provides: the array `kernel_pagetables`, the entry points that the kernel
-- compares with their mappings, and the ends of its data.
pub record Symbols : Type 0 where
  pub kernel_pagetables : ℕ
  pub default_int_handler : ℕ
  pub virtual_memory_map_code : ℕ
  pub start_data : ℕ
  pub end : ℕ

-- `kernel_pagetable = &kernel_pagetables[0]`
abbrev pub kernel_tables : Symbols → Tables
kernel_tables s = record {
  l1 = s.kernel_pagetables;
  l2 = s.kernel_pagetables + 0x1000;
  l3 = s.kernel_pagetables + 0x2000;
  l4_1 = s.kernel_pagetables + 0x3000;
  l4_2 = s.kernel_pagetables + 0x4000;
}

-- The result is what is loaded into CR3.
unfoldable pub set_pagetable : Symbols → Memory → (pagetable : ℕ) → Outcome ℕ
set_pagetable s m pagetable = do
  let kernel_pagetable = s.kernel_pagetables
  assert (pageoffset pagetable == 0)
  assert ((virtual_memory_lookup m pagetable s.default_int_handler).pa == s.default_int_handler)
  assert ((virtual_memory_lookup m kernel_pagetable pagetable).pa == pagetable)
  assert ((virtual_memory_lookup m pagetable kernel_pagetable).pa == kernel_pagetable)
  assert (
      (virtual_memory_lookup m pagetable s.virtual_memory_map_code).pa == s.virtual_memory_map_code)
  ok pagetable

-- The loop of assertions in `virtual_memory_init`, with the pages that are left.
pub check_identity : Memory → (pagetable left addr : ℕ) → Outcome (Unit {0})
check_identity m pagetable zero addr = ok tt
check_identity m pagetable (suc left) addr = do
  let vmap = virtual_memory_lookup m pagetable addr
  assert (vmap.pa == addr)
  assert (bit_and vmap.perm (bit_or pte_p pte_w) == bit_or pte_p pte_w)
  check_identity m pagetable left (addr + page_size)

-- The result is the memory, and what is loaded into CR3.
pub virtual_memory_init : Symbols → Memory → Outcome (Memory × ℕ)
virtual_memory_init s m = do
  let kernel_pagetable = s.kernel_pagetables
  let m1 = connect (memset m s.kernel_pagetables 0 (5 * page_size)) (kernel_tables s)
  (r, m2) ← virtual_memory_map m1 kernel_pagetable 0 0 memsize_physical 7
  check_identity m2 kernel_pagetable (memsize_physical / page_size) 0
  cr3 ← set_pagetable s m2 kernel_pagetable
  ok (m2, cr3)
