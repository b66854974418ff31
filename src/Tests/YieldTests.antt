-- ===== src/Tests/YieldTests.antt =====
-- `exception` where it comes to its end: process 1 yields to process 2.
use virtual_memory.Base.{
  ℕ, ◌≡◌, ◌==◌, ltb, if◌then◌else◌, Bool, true, false, refl, arith, Outcome, ok,
}
use virtual_memory.Memory.{Memory, load64, store64, byte_of}
use virtual_memory.Paging.{has, pageindex, pte_addr, pte_flags, pagenumber, pageoffset}
use virtual_memory.Vm.{
  Symbols, virtual_memory_lookup, lookup_loop, next_entry, vamapping_of, connect, link,
  set_pagetable,
}
use virtual_memory.Process.{ProcState}
use virtual_memory.Kernel.{Kernel, set_proc, next_runnable, run, schedule, Resume}
use virtual_memory.Kernel.Checks.{
  check_kernel_pages, check_page_table_mappings, check_owner, check_entries,
  check_page_table_ownership_level, count_kernel_users, check_page_table_ownership, check_processes,
  check_owners, check_virtual_memory,
}
use virtual_memory.Hardware.Keyboard.{check_keyboard, keyboard_readc}
use virtual_memory.Kernel.Exceptions.{
  Ending, exception, show_state, poll_keyboard, after_keyboard, handle, case_of, finish,
}
use virtual_memory.Kernel.Exceptions.Resumes.{or_panic, is_proper, exception_resumes_properly}
use virtual_memory.Kernel.Exceptions.Isolation.{exception_isolates}
use virtual_memory.Kernel.Exceptions.Isolation.Frame.{Holds, processes_of}
use virtual_memory.Tests.Machines.{two_tables}
use virtual_memory.Tests.KernelTests.{in_state}
use virtual_memory.Tests.TrapTests.{yielding}

-- The kernel's page table maps itself, a page of code and the stack.
unfoldable kernel_memory : Memory
kernel_memory = store64 (store64 (store64 two_tables 0x4008 0x1007) 0x4200 0x40005) 0x43F8 0x7F007

abbrev one_page_kernel : Symbols
one_page_kernel = record {
  kernel_pagetables = 0x1000;
  default_int_handler = 0x4009C;
  virtual_memory_map_code = 0x40E14;
  start_data = 0x41000;
  end = 0x41000;
}

-- Processes 1 and 2 run on the kernel's page table, so that its first page has three references.
abbrev two_running : Kernel
two_running = record {
  mem = kernel_memory;
  pageinfo = λ pn.
      if pn == 1
      then record { owner = 254; refcount = 3 }
      else if ltb pn 6
      then record { owner = 254; refcount = 1 }
      else record { owner = 0; refcount = 0 };
  processes = λ pid.
      record (in_state pid (
        if pid == 1
        then ProcState.runnable
        else if pid == 2
        then ProcState.runnable
        else ProcState.free)) { p_pagetable = 0x1000 };
  current = 1;
  ticks = 0;
  disp_global = false;
  last_ticks = 0;
  showing = 1;
  screen = λ i. 0;
  keyboard = record { modifiers = 0; last_escape = 0 };
  cr3 = 0x1000;
}

-- `exception` comes to its end with this process.
abbrev resumes_process : (pid : ℕ) → Outcome Ending → Bool
resumes_process pid (ok (Ending.resumes (Resume.runs k))) = k.current == pid
resumes_process pid e = false

yields : resumes_process 2 (exception one_page_kernel two_running yielding) ≡ true
unfolding exception show_state poll_keyboard after_keyboard handle case_of finish check_keyboard
    keyboard_readc check_virtual_memory check_owners check_processes check_page_table_ownership
    count_kernel_users check_page_table_ownership_level check_entries check_owner
    check_page_table_mappings check_kernel_pages schedule run next_runnable set_proc set_pagetable
    kernel_memory two_tables connect link vamapping_of next_entry lookup_loop virtual_memory_lookup
    has pageindex pte_addr pte_flags pagenumber pageoffset load64 store64 byte_of
yields = refl

-- It resumes process 2, as it should.
exception_resumes_properly_example :
    (resumes_process 2 (exception one_page_kernel two_running yielding) ≡ true)
    × (or_panic is_proper (exception one_page_kernel two_running yielding) ≡ true)
exception_resumes_properly_example =
    (yields, exception_resumes_properly one_page_kernel two_running yielding)

-- The trap of process 1 leaves process 2, which goes on, as it was.
exception_isolates_example :
    (resumes_process 2 (exception one_page_kernel two_running yielding) ≡ true)
    × Holds
        (λ e. processes_of e 2 ≡ two_running.processes 2)
        (exception one_page_kernel two_running yielding)
exception_isolates_example =
    (yields, exception_isolates one_page_kernel two_running yielding 2 (λ e. omega (arith, e)) refl)
