-- ===== src/Tests/VmTests.antt =====
-- The theorems on vm.c at two concrete page tables.
use virtual_memory.Base.{◌^◌, ◌+◌, ◌/◌, ◌%◌, ◌≡◌, refl, inr, arith, ok, panicked}
use virtual_memory.Memory.{Memory, load64, store64, byte_of}
use virtual_memory.Memory.Words.{IsBytes, store64-IsBytes}
use virtual_memory.Paging.{pageindex, has, pte_addr}
use virtual_memory.Vm.{
  virtual_memory_map, virtual_memory_lookup, virtual_memory_init, lookup_l4pagetable,
  lookup_l4_loop, connect, link,
}
use virtual_memory.Vm.Walk.{frame, entry_2, entry_3, entry_4, AllPresent}
use virtual_memory.Vm.Lookup.{kept, lookup-AllPresent}
use virtual_memory.Vm.Spaces.{lookup-virtual_memory_map}
use virtual_memory.Vm.Isolation.{virtual_memory_map_isolated}
use virtual_memory.Vm.Init.{virtual_memory_init-identity}
use virtual_memory.Vm.Errors.{virtual_memory_map-panicked}
use virtual_memory.Tests.Machines.{
  zeros, zeros-IsBytes, t1, t2, two_tables, t1-AreTables, t2-AreTables, t1-t2-Separate,
  t1-Connected, t2-Connected, two_tables-IsBytes, symbols, symbols-AreSymbols,
}

-- Two pages of application memory at 1 MB, mapped to the frames at 0x180000.
lookup-virtual_memory_map_example :
    (m' : Memory) × (virtual_memory_map two_tables 0x1000 0x100000 0x180000 0x2000 7 ≡ ok (0, m'))
    × (virtual_memory_lookup m' 0x1000 0x101234 ≡ record { pn = 0x181; pa = 0x181234; perm = 7 })
lookup-virtual_memory_map_example =
    lookup-virtual_memory_map t1 t1-AreTables two_tables t1-Connected two_tables-IsBytes 0x100000
      0x180000 0x2000 7 0x101234 (omega arith) (omega arith)

virtual_memory_map_isolated_example :
    (m' : Memory) × (virtual_memory_map two_tables 0x1000 0x100000 0x180000 0x2000 7 ≡ ok (0, m'))
    × (virtual_memory_lookup m' 0x6000 0x101234 ≡ virtual_memory_lookup two_tables 0x6000 0x101234)
virtual_memory_map_isolated_example =
    virtual_memory_map_isolated t1 t2 two_tables 0x100000 0x180000 0x2000 7 0x101234 t1-AreTables
      t2-AreTables t1-t2-Separate t1-Connected t2-Connected two_tables-IsBytes (omega arith)
      (omega arith)

virtual_memory_init-identity_example :
    (m' : Memory) × (virtual_memory_init symbols zeros ≡ ok (m', 0x52000))
    × (virtual_memory_lookup m' 0x52000 0xB8000 ≡ record { pn = 0xB8; pa = 0xB8000; perm = 7 })
virtual_memory_init-identity_example =
    virtual_memory_init-identity symbols symbols-AreSymbols zeros 0xB8000 zeros-IsBytes
      (omega arith)

virtual_memory_map-panicked_example :
    virtual_memory_map two_tables 0x1000 0x100000 0x200000 0x1000 7 ≡ panicked
virtual_memory_map-panicked_example =
    virtual_memory_map-panicked two_tables 0x1000 0x100000 0x200000 0x1000 7 (omega arith)
      (omega arith) (omega arith) (inr (inr (inr (inr (omega arith)))))

-- Page 1 of the first table's address space is page 2 of memory, for reading alone.
abbrev one_page : Memory
one_page = store64 two_tables 0x4008 0x2005

one_page-IsBytes : IsBytes one_page
one_page-IsBytes = store64-IsBytes two_tables 0x4008 0x2005 two_tables-IsBytes

one_page-AllPresent : AllPresent one_page 0x1000 0x1234
unfolding two_tables connect link load64 store64 pageindex byte_of
one_page-AllPresent = (refl, refl, refl, refl)

lookup-AllPresent_example :
    let e2 = entry_2 one_page 0x1000 0x1234 in
    let e3 = entry_3 one_page 0x1000 0x1234 in
    let e4 = entry_4 one_page 0x1000 0x1234 in
    let v = virtual_memory_lookup one_page 0x1000 0x1234 in
    (v.pn ≡ e4 / 4096 % 2 ^ 32)
    × (v.pa ≡ frame e4 + 0x1234 % 4096)
    × (v.perm % 2 ≡ 1)
    × (v.perm / 2 % 2 ≡ kept (e2 / 2 % 2) (e3 / 2 % 2) (e4 / 2 % 2))
    × (v.perm / 4 % 2 ≡ kept (e2 / 4 % 2) (e3 / 4 % 2) (e4 / 4 % 2))
    × (v.perm / 8 ≡ e4 / 8 % 512)
lookup-AllPresent_example =
    lookup-AllPresent one_page one_page-IsBytes 0x1000 0x1234 one_page-AllPresent

page_2-absent : entry_4 one_page 0x1000 0x2234 % 2 ≡ 0
unfolding two_tables connect link load64 store64 pageindex byte_of
page_2-absent = refl

no_table_at_4MB : lookup_l4pagetable two_tables 0x1000 0x400000 3 ≡ ok 0
unfolding lookup_l4pagetable lookup_l4_loop two_tables connect link load64 store64 has pte_addr
    pageindex
no_table_at_4MB = refl
