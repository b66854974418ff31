-- ===== src/Tests/ForkTests.antt =====
-- The theorems on `duplicate_pagetable` at a page table that maps the console alone.
use virtual_memory.Base.{
  ℕ, ◌/◌, ◌%◌, ◌<◌, ◌≡◌, inl, inr, arith, ap, ◌∙◌, ltb, leb, ◌==◌, if◌then◌else◌, ok, Bool-cases,
}
use virtual_memory.Memory.{Memory, load64, store64}
use virtual_memory.Memory.Words.{
  IsBytes, store64-IsBytes, load64-store64_self, load64-store64_ne, store64_ne,
}
use virtual_memory.Vm.{Tables, unmapped, virtual_memory_lookup}
use virtual_memory.Vm.Layout.{AreTables, Connected, slot, lookup-Connected}
use virtual_memory.Vm.Slots.{Connected-frame}
use virtual_memory.Vm.Connect.{connect-Connected}
use virtual_memory.Pages.{PageInfos}
use virtual_memory.Kernel.Fork.{clear_tables, duplicate_pagetable}
use virtual_memory.Kernel.Fork.Allocated.{FiveFree, AreAllocated}
use virtual_memory.Kernel.Fork.Cleared.{prepared, prepared-IsBytes, prepared-slot, Outside}
use virtual_memory.Kernel.Fork.Copying.{InUse}
use virtual_memory.Kernel.Fork.Copies.{duplicate_pagetable_copies, duplicate_pagetable_full}
use virtual_memory.Tests.Machines.{zeros, zeros-IsBytes, t1, t1-AreTables}

abbrev pub no_pages : Memory
no_pages = prepared t1 t1-AreTables zeros

console_alone : Memory
console_alone = store64 no_pages 0x45C0 0xB8007

console_alone-IsBytes : IsBytes console_alone
unfolding console_alone
console_alone-IsBytes =
    store64-IsBytes no_pages 0x45C0 0xB8007 (prepared-IsBytes t1 t1-AreTables zeros zeros-IsBytes)

console_alone-Connected : Connected console_alone t1
unfolding console_alone
console_alone-Connected =
    Connected-frame t1 t1-AreTables no_pages console_alone
      (λ x o. store64_ne no_pages 0x45C0 0xB8007 x (omega (arith, o)))
      (connect-Connected t1 t1-AreTables (clear_tables zeros t1))

console_slot :
    (va : ℕ)
    → va < 0x100000
    → load64 console_alone (slot t1 va) ≡ (if va / 4096 == 0xB8 then 0xB8007 else 0)
unfolding console_alone
console_slot va h = elim (Bool-cases (va / 4096 == 0xB8)) [
  | inl is ↦ rw is (
      ap (load64 console_alone) (ground arith)
      ∙ load64-store64_self no_pages 0x45C0 0xB8007 (omega arith))
  | inr isnt ↦ rw isnt (
      load64-store64_ne no_pages 0x45C0 (slot t1 va) 0xB8007 (ground arith)
      ∙ prepared-slot t1 t1-AreTables zeros va)
]

console_exists :
    (va : ℕ)
    → va < 0x100000
    → (virtual_memory_lookup console_alone 0x1000 va).perm % 2 ≡ 1
    → (virtual_memory_lookup console_alone 0x1000 va).pa < 0x200000
console_exists va h =
    rw
      (
        lookup-Connected console_alone t1 t1-AreTables console_alone-Connected console_alone-IsBytes
            va (omega arith),
        console_slot va h,
      )
      (λ p. ground (arith, p))

-- Pages 11 and up are free.
abbrev pub eleven_used : PageInfos
eleven_used pn =
    if leb 11 pn then record { owner = 0; refcount = 0 } else record { owner = 254; refcount = 1 }

pub five_free : FiveFree eleven_used
five_free = record {
  q1 = 11;
  q2 = 12;
  q3 = 13;
  q4 = 14;
  q5 = 15;
  order = omega arith;
  free_1 = omega arith;
  free_2 = omega arith;
  free_3 = omega arith;
  free_4 = omega arith;
  free_5 = omega arith;
}

pub t1-InUse : InUse eleven_used t1
t1-InUse = omega arith

duplicate_pagetable_copies_example :
    (u : Tables) × (pages' : PageInfos) × (m' : Memory) × (duplicate_pagetable console_alone
        eleven_used 0x1000 2
      ≡ ok (u.l1, pages', m'))
    × AreAllocated eleven_used 2 u pages'
    × AreTables u
    × Connected m' u
    × Connected m' t1
    × IsBytes m'
    × (virtual_memory_lookup m' u.l1 0xB8000 ≡ (
        if ltb 0xB8000 0x100000
        then virtual_memory_lookup console_alone 0x1000 0xB8000
        else unmapped))
    × (virtual_memory_lookup m' 0x1000 0xB8000 ≡ virtual_memory_lookup console_alone 0x1000 0xB8000)
    × (Outside u 0x1000 → m' 0x1000 ≡ console_alone 0x1000)
duplicate_pagetable_copies_example =
    duplicate_pagetable_copies console_alone eleven_used t1 2 0xB8000 0x1000 t1-AreTables
      console_alone-Connected console_alone-IsBytes five_free t1-InUse console_exists (omega arith)

abbrev all_used : PageInfos
all_used pn = record { owner = 254; refcount = 1 }

duplicate_pagetable_full_example :
    (m' : Memory) × (duplicate_pagetable console_alone all_used 0x1000 2 ≡ ok (0, all_used, m'))
    × (m' 5 ≡ (if ltb 5 4096 then 0 else console_alone 5))
duplicate_pagetable_full_example =
    duplicate_pagetable_full console_alone all_used 0x1000 2 5 (λ k h1 h2. omega arith)
