-- ===== src/Tests/TrapTests.antt =====
-- The theorems on the system calls, the exceptions and the loader at concrete inputs.
use virtual_memory.Base.{ℕ, ◌+◌, ◌%◌, ◌^◌, ◌≡◌, refl, ◌≤◌, ok, inl, arith}
use virtual_memory.Memory.{Memory, load64, store64, byte_of}
use virtual_memory.Vm.{virtual_memory_lookup, lookup_loop, next_entry, vamapping_of, connect, link}
use virtual_memory.Paging.{has, pageindex, pte_addr, pte_flags, pagenumber, pageoffset}
use virtual_memory.Process.{Proc, zero_registers}
use virtual_memory.Kernel.{current_proc}
use virtual_memory.Kernel.Syscalls.{syscall_mapping}
use virtual_memory.Kernel.Syscalls.MappingWrites.{
  load_int, syscall_mapping_keeps, syscall_mapping_writes,
}
use virtual_memory.Kernel.Exceptions.{Trap}
use virtual_memory.Kernel.Loader.{allocate_pages}
use virtual_memory.Kernel.Loader.Allocation.{AreSegmentPages, allocate_pages_maps}
use virtual_memory.Kernel.Fork.FreePages.{free_pages}
use virtual_memory.Pages.{PageInfos}
use virtual_memory.Tests.ForkTests.{eleven_used}
use virtual_memory.Tests.Machines.{two_tables, t1, t1-AreTables, t1-Connected, two_tables-IsBytes}
use virtual_memory.Tests.ExitTests.{running}

-- The page at 0x180000 is mapped to itself.
abbrev own_page : Memory
own_page = store64 two_tables 0x4C00 0x180007

-- A process that asks into that page where its byte 0x180100 is.
abbrev asking : Proc
asking = record (current_proc running) {
  p_registers = record zero_registers { reg_rdi = 0x180000; reg_rsi = 0x180100 };
}

abbrev no_padding : ℕ → ℕ
no_padding i = 0

own_page_lookup :
    virtual_memory_lookup own_page 0x1000 0x180000 ≡ record { pn = 0x180; pa = 0x180000; perm = 7 }
unfolding virtual_memory_lookup lookup_loop next_entry vamapping_of two_tables store64 load64
    byte_of connect link has pageindex pte_addr pte_flags pagenumber pageoffset
own_page_lookup = refl

own_page_end : (virtual_memory_lookup own_page 0x1000 0x180017).perm ≡ 7
unfolding virtual_memory_lookup lookup_loop next_entry vamapping_of two_tables store64 load64
    byte_of connect link has pageindex pte_addr pte_flags pagenumber pageoffset
own_page_end = refl

syscall_mapping_keeps_example :
    syscall_mapping own_page asking no_padding 0x180018 ≡ own_page 0x180018
syscall_mapping_keeps_example =
    syscall_mapping_keeps own_page asking no_padding 0x180018
      (inl (rw own_page_lookup (omega arith)))

syscall_mapping_writes_example :
    let map = virtual_memory_lookup own_page 0x1000 0x180000 in
    let asked = virtual_memory_lookup own_page 0x1000 0x180100 in
    (load_int (syscall_mapping own_page asking no_padding) map.pa ≡ asked.pn % 2 ^ 32)
    × (load64 (syscall_mapping own_page asking no_padding) (map.pa + 8) ≡ asked.pa % 2 ^ 64)
    × (load_int (syscall_mapping own_page asking no_padding) (map.pa + 16) ≡ asked.perm % 2 ^ 32)
syscall_mapping_writes_example =
    syscall_mapping_writes own_page asking no_padding (rw own_page_lookup (omega arith))
      (rw own_page_lookup refl) (rw (own_page_lookup, own_page_end) refl)

abbrev pub yielding : Trap
yielding = record {
  registers = record zero_registers { reg_intno = 50 };
  cr2 = 0;
  keyboard_status = 0;
  keyboard_byte = 0;
  padding = no_padding;
}

-- Two pages from 1 MB on.
many_free : 2 ≤ free_pages eleven_used 511 1
unfolding free_pages
many_free = omega arith

allocate_pages_maps_example :
    (pages' : PageInfos) × (m' : Memory) × (allocate_pages two_tables eleven_used 0x1000 1 2
        0x100000
      ≡ ok (0, pages', m'))
    × AreSegmentPages t1 1 2 0x100000 two_tables eleven_used m' pages'
allocate_pages_maps_example =
    allocate_pages_maps two_tables eleven_used t1 1 2 0x100000 t1-AreTables t1-Connected
      two_tables-IsBytes refl (omega arith) many_free
