-- ===== src/Tests/CheckTests.antt =====
-- The check of a page table, for one with a page of the kernel's code and its stack.
use virtual_memory.Base.{
  ℕ, ◌/◌, ◌%◌, ◌<◌, ◌≡◌, refl, inl, inr, arith, ap, ◌∙◌, ◌==◌, if◌then◌else◌, Bool-cases, ok,
}
use virtual_memory.Memory.{Memory, load64, store64}
use virtual_memory.Memory.Words.{
  IsBytes, store64-IsBytes, load64-store64_self, load64-store64_ne, store64_ne,
}
use virtual_memory.Paging.{has, pte_addr}
use virtual_memory.Vm.{Symbols, virtual_memory_lookup}
use virtual_memory.Vm.Layout.{Connected, slot, mapping_of, lookup-Connected}
use virtual_memory.Vm.Slots.{Connected-frame}
use virtual_memory.Vm.Connect.{connect-Connected}
use virtual_memory.Pages.{PageInfos}
use virtual_memory.Kernel.Fork.{clear_tables, duplicate_pagetable}
use virtual_memory.Kernel.Fork.Cleared.{prepared-IsBytes, prepared-slot}
use virtual_memory.Kernel.Checks.{check_kernel_pages, check_page_table_mappings}
use virtual_memory.Kernel.Checks.Duplicated.{duplicate_pagetable-checked}
use virtual_memory.Tests.Machines.{zeros, zeros-IsBytes, t1, t1-AreTables}
use virtual_memory.Tests.ForkTests.{no_pages, eleven_used, five_free, t1-InUse}

stack_alone : Memory
stack_alone = store64 no_pages 0x43F8 0x7F007

kernel_pages : Memory
kernel_pages = store64 stack_alone 0x4200 0x40005

abbrev small_kernel : Symbols
small_kernel = record {
  kernel_pagetables = 0x1000;
  default_int_handler = 0x4009C;
  virtual_memory_map_code = 0x40E14;
  start_data = 0x41000;
  end = 0x41000;
}

kernel_pages-IsBytes : IsBytes kernel_pages
unfolding kernel_pages stack_alone
kernel_pages-IsBytes =
    store64-IsBytes stack_alone 0x4200 0x40005 (
      store64-IsBytes no_pages 0x43F8 0x7F007
        (prepared-IsBytes t1 t1-AreTables zeros zeros-IsBytes))

kernel_pages-Connected : Connected kernel_pages t1
unfolding kernel_pages stack_alone
kernel_pages-Connected =
    Connected-frame t1 t1-AreTables no_pages kernel_pages
      (λ x o.
        store64_ne stack_alone 0x4200 0x40005 x (omega (arith, o))
        ∙ store64_ne no_pages 0x43F8 0x7F007 x (omega (arith, o)))
      (connect-Connected t1 t1-AreTables (clear_tables zeros t1))

stack_slot :
    (va : ℕ)
    → va < 0x100000
    → load64 stack_alone (slot t1 va) ≡ (if va / 4096 == 0x7F then 0x7F007 else 0)
unfolding stack_alone
stack_slot va h = elim (Bool-cases (va / 4096 == 0x7F)) [
  | inl is ↦ rw is (
      ap (load64 stack_alone) (ground arith)
      ∙ load64-store64_self no_pages 0x43F8 0x7F007 (omega arith))
  | inr isnt ↦ rw isnt (
      load64-store64_ne no_pages 0x43F8 (slot t1 va) 0x7F007 (ground arith)
      ∙ prepared-slot t1 t1-AreTables zeros va)
]

abbrev entry_of : ℕ → ℕ
entry_of va = if va / 4096 == 0x40 then 0x40005 else if va / 4096 == 0x7F then 0x7F007 else 0

kernel_pages-slot : (va : ℕ) → va < 0x100000 → load64 kernel_pages (slot t1 va) ≡ entry_of va
unfolding kernel_pages
kernel_pages-slot va h = elim (Bool-cases (va / 4096 == 0x40)) [
  | inl is ↦ rw is (
      ap (load64 kernel_pages) (ground arith)
      ∙ load64-store64_self stack_alone 0x4200 0x40005 (omega arith))
  | inr isnt ↦
      rw isnt
        (load64-store64_ne stack_alone 0x4200 (slot t1 va) 0x40005 (ground arith) ∙ stack_slot va h)
]

kernel_pages_lookup :
    (va : ℕ)
    → va < 0x100000
    → virtual_memory_lookup kernel_pages 0x1000 va ≡ mapping_of va (entry_of va)
kernel_pages_lookup va h =
    lookup-Connected kernel_pages t1 t1-AreTables kernel_pages-Connected kernel_pages-IsBytes va
      (omega arith)
    ∙ ap (mapping_of va) (kernel_pages-slot va h)

kernel_pages_exist :
    (va : ℕ)
    → va < 0x100000
    → (virtual_memory_lookup kernel_pages 0x1000 va).perm % 2 ≡ 1
    → (virtual_memory_lookup kernel_pages 0x1000 va).pa < 0x200000
kernel_pages_exist va h = rw (kernel_pages_lookup va h) (λ p. ground (arith, p))

kernel_pages_pass : check_page_table_mappings small_kernel kernel_pages 0x1000 ≡ ok tt
unfolding check_page_table_mappings check_kernel_pages has pte_addr
kernel_pages_pass =
    rw (kernel_pages_lookup 0x40000 (omega arith), kernel_pages_lookup 0x7F000 (omega arith)) refl

duplicate_pagetable-checked_example :
    (pt : ℕ) × (pages' : PageInfos) × (m' : Memory) × (duplicate_pagetable kernel_pages eleven_used
        0x1000 2
      ≡ ok (pt, pages', m'))
    × (check_page_table_mappings small_kernel m' pt ≡ ok tt)
duplicate_pagetable-checked_example =
    duplicate_pagetable-checked small_kernel kernel_pages eleven_used t1 2 (omega arith)
      t1-AreTables kernel_pages-Connected kernel_pages-IsBytes five_free t1-InUse kernel_pages_exist
      kernel_pages_pass
