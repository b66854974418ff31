-- ===== src/Tests/PagesTests.antt =====
-- The theorems on the page allocator at a concrete array, memory and page table.
use virtual_memory.Base.{ℕ, ◌*◌, ◌≤◌, ◌≡◌, refl, arith, ok, ◌==◌, if◌then◌else◌}
use virtual_memory.Memory.{Memory, load64, store64}
use virtual_memory.Paging.{pageaddress, pagenumber, pageindex, has, pte_addr}
use virtual_memory.Vm.{
  connect, link, lookup_l4_loop, virtual_memory_lookup, minus_one, lookup_l4pagetable,
}
use virtual_memory.Vm.Spaces.{mapped}
use virtual_memory.Pages.{
  PageInfos, set_page, find_free, assign_physical_page, alloc_page_process,
  sys_page_alloc_find_free,
}
use virtual_memory.Pages.Assign.{IsFree, alloc_page_process_lowest}
use virtual_memory.Pages.SysAlloc.{
  taken_by, sys_page_alloc_maps, sys_page_alloc_leaks, sys_page_alloc_unmapped,
}
use virtual_memory.Tests.Machines.{t1, two_tables, t1-AreTables, t1-Connected, two_tables-IsBytes}

-- The kernel has taken all pages but page 300.
abbrev one_left : PageInfos
one_left pn =
    if pn == 300 then record { owner = 0; refcount = 0 } else record { owner = 254; refcount = 1 }

abbrev none_left : PageInfos
none_left pn = record { owner = 254; refcount = 1 }

one_left-IsFree : IsFree one_left 300
one_left-IsFree = (omega arith, omega arith, refl)

one_left_run : (alloc_page_process one_left 5).0 ≡ 0x12C000
unfolding alloc_page_process find_free assign_physical_page pageaddress pagenumber
one_left_run = refl

alloc_page_process_lowest_example :
    (p : ℕ) × IsFree one_left p
    × (p ≤ 300)
    × (alloc_page_process one_left 5 ≡ (p * 4096, set_page one_left p (taken_by 5)))
alloc_page_process_lowest_example = alloc_page_process_lowest one_left 5 300 one_left-IsFree

sys_page_alloc_maps_example :
    (p : ℕ) × (m' : Memory) × IsFree one_left p
    × (p ≤ 300)
    × (sys_page_alloc_find_free two_tables one_left 0x1000 5 0x100000
        ≡ ok (0, set_page one_left p (taken_by 5), m'))
    × (virtual_memory_lookup m' 0x1000 0x100010
        ≡ mapped 0x100000 (p * 4096) 4096 7 (virtual_memory_lookup two_tables 0x1000) 0x100010)
sys_page_alloc_maps_example =
    sys_page_alloc_maps two_tables one_left t1 5 0x100000 300 0x100010 t1-AreTables t1-Connected
      two_tables-IsBytes one_left-IsFree (omega arith) (omega arith) (omega arith) (omega arith)

sys_page_alloc_leaks_example :
    (p : ℕ) × IsFree one_left p
    × (p ≤ 300)
    × (sys_page_alloc_find_free two_tables one_left 0x1000 5 0xFF000
        ≡ ok (minus_one, set_page one_left p (taken_by 5), two_tables))
sys_page_alloc_leaks_example =
    sys_page_alloc_leaks two_tables one_left 0x1000 5 0xFF000 300 one_left-IsFree (omega arith)

no_table_above : lookup_l4pagetable two_tables 0x1000 0x400000 7 ≡ ok 0
unfolding lookup_l4pagetable lookup_l4_loop two_tables connect link load64 store64 has pte_addr
    pageindex
no_table_above = refl

sys_page_alloc_unmapped_example :
    (p : ℕ) × IsFree one_left p
    × (p ≤ 300)
    × (sys_page_alloc_find_free two_tables one_left 0x1000 5 0x400000
        ≡ ok (0, set_page one_left p (taken_by 5), two_tables))
sys_page_alloc_unmapped_example =
    sys_page_alloc_unmapped two_tables one_left 0x1000 5 0x400000 300 (omega arith) one_left-IsFree
      (omega arith) (omega arith) (omega arith) no_table_above

-- A page of the kernel's code.
abbrev code_page : ℕ
code_page = 0x41
