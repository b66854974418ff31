-- ===== src/Tests/ExitTests.antt =====
-- The theorems on exit, for a process that has one page of memory.
use virtual_memory.Base.{
  ℕ, ◌/◌, ◌≤◌, ◌<◌, ◌≡◌, refl, inl, inr, arith, ap, ◌∙◌, ltb, ◌==◌, if◌then◌else◌, Bool-cases, true,
  false,
}
use virtual_memory.Memory.{Memory, load64, store64}
use virtual_memory.Memory.Words.{
  IsBytes, store64-IsBytes, load64-store64_self, load64-store64_ne, store64_ne,
}
use virtual_memory.Paging.{has, pte_w, pagenumber}
use virtual_memory.Vm.{virtual_memory_lookup}
use virtual_memory.Vm.Layout.{Connected, slot, mapping_of, lookup-Connected}
use virtual_memory.Vm.Slots.{Connected-frame}
use virtual_memory.Vm.Connect.{connect-Connected}
use virtual_memory.Process.{ProcState}
use virtual_memory.Kernel.{Kernel, current_proc}
use virtual_memory.Kernel.Fork.{clear_tables}
use virtual_memory.Kernel.Fork.Cleared.{prepared-IsBytes, prepared-slot}
use virtual_memory.Kernel.Exit.{tables_of, free_page, exit}
use virtual_memory.Kernel.Exit.Rounds.{IsTable}
use virtual_memory.Kernel.Exit.Releases.{
  exit_frees_tables, exit_keeps_others, exit_frees_owned, tables_of-Connected,
}
use virtual_memory.Tests.Machines.{zeros, zeros-IsBytes, t1, t1-AreTables}
use virtual_memory.Tests.ForkTests.{no_pages}
use virtual_memory.Tests.KernelTests.{in_state}

-- Page 0x180 is mapped at 1 MB.
unfoldable pub one_app_page : Memory
one_app_page = store64 no_pages 0x4800 0x180007

pub one_app_page-IsBytes : IsBytes one_app_page
unfolding one_app_page
one_app_page-IsBytes =
    store64-IsBytes no_pages 0x4800 0x180007 (prepared-IsBytes t1 t1-AreTables zeros zeros-IsBytes)

pub one_app_page-Connected : Connected one_app_page t1
unfolding one_app_page
one_app_page-Connected =
    Connected-frame t1 t1-AreTables no_pages one_app_page
      (λ x o. store64_ne no_pages 0x4800 0x180007 x (omega (arith, o)))
      (connect-Connected t1 t1-AreTables (clear_tables zeros t1))

pub one_app_page-slot :
    (va : ℕ)
    → va < 0x300000
    → load64 one_app_page (slot t1 va) ≡ (if va / 4096 == 0x100 then 0x180007 else 0)
unfolding one_app_page
one_app_page-slot va h = elim (Bool-cases (va / 4096 == 0x100)) [
  | inl is ↦ rw is (
      ap (load64 one_app_page) (ground arith)
      ∙ load64-store64_self no_pages 0x4800 0x180007 (omega arith))
  | inr isnt ↦ rw isnt (
      load64-store64_ne no_pages 0x4800 (slot t1 va) 0x180007 (ground arith)
      ∙ prepared-slot t1 t1-AreTables zeros va)
]

pub one_app_page_lookup :
    (va : ℕ)
    → va < 0x300000
    → virtual_memory_lookup one_app_page 0x1000 va
      ≡ mapping_of va (if va / 4096 == 0x100 then 0x180007 else 0)
one_app_page_lookup va h =
    lookup-Connected one_app_page t1 t1-AreTables one_app_page-Connected one_app_page-IsBytes va
      (omega arith)
    ∙ ap (mapping_of va) (one_app_page-slot va h)

one_app_page_tables : tables_of one_app_page 0x1000 ≡ t1
one_app_page_tables = tables_of-Connected one_app_page t1 t1-AreTables one_app_page-Connected

-- So its tables are pages 1 to 5.
page_4-IsTable : IsTable t1 4
unfolding pagenumber
page_4-IsTable = omega arith

not-IsTable : (p : ℕ) → 6 ≤ p → ¬ IsTable (tables_of one_app_page 0x1000) p
unfolding pagenumber
not-IsTable p h = rw one_app_page_tables (λ is. omega (arith, is))

-- All its application memory is writable.
one_app_page_writable :
    (p x : ℕ)
    → p < 512
    → 0x100000 ≤ x
    → x < 0x300000
    → (virtual_memory_lookup one_app_page 0x1000 x).pn ≡ p
    → has (virtual_memory_lookup one_app_page 0x1000 x).perm pte_w ≡ true
unfolding has
one_app_page_writable p x hp h1 h2 =
    rw (one_app_page_lookup x h2) (elim (Bool-cases (x / 4096 == 0x100)) [
      | inl is ↦ rw is (λ e. refl)
      | inr isnt ↦ rw isnt (λ e. absurd (omega (arith, e)))
    ])

-- Process 1 owns its page table and page 0x180, and is the current one.
abbrev pub running : Kernel
running = record {
  mem = one_app_page;
  pageinfo = λ pn.
      if ltb pn 6
      then record { owner = 1; refcount = 1 }
      else if pn == 0x180
      then record { owner = 1; refcount = 1 }
      else record { owner = 254; refcount = 1 };
  processes = λ pid. record (in_state pid ProcState.runnable) { p_pagetable = 0x1000 };
  current = 1;
  ticks = 0;
  disp_global = true;
  last_ticks = 0;
  showing = 1;
  screen = λ i. 0;
  keyboard = record { modifiers = 0; last_escape = 0 };
  cr3 = 0x1000;
}

exit_frees_tables_example :
    ((exit running).pageinfo 4 ≡ free_page)
    × ((exit running).mem ≡ one_app_page)
    × ((current_proc (exit running)).p_state ≡ ProcState.free)
exit_frees_tables_example =
    exit_frees_tables running t1 4 t1-AreTables one_app_page-Connected refl page_4-IsTable

exit_keeps_others_example : (exit running).pageinfo 0x181 ≡ record { owner = 254; refcount = 1 }
exit_keeps_others_example =
    exit_keeps_others running 0x181 (not-IsTable 0x181 (omega arith)) (omega arith)
      (λ x. one_app_page_writable 0x181 x (omega arith))

exit_frees_owned_example : (exit running).pageinfo 0x180 ≡ free_page
exit_frees_owned_example =
    exit_frees_owned running 0x180 0x100000 (not-IsTable 0x180 (omega arith)) (omega arith)
      (omega arith) (omega arith) refl (omega arith) (omega arith) (omega arith) (omega arith)
      (rw (one_app_page_lookup 0x100000 (omega arith)) refl)
      (λ x. one_app_page_writable 0x180 x (omega arith))

read_only : has 5 pte_w ≡ false
unfolding has
read_only = refl
