-- ===== src/Kernel/Exceptions/Isolation.antt =====
-- No trap changes the descriptor of a process that did not cause it.
pub mod Frame
pub mod Forks
pub mod Switches
use virtual_memory.Base.{
  ℕ, zero, suc, ◌+◌, ◌≡◌, ◌≢◌, refl, true, false, Bool, ◌==◌, ◌%◌, ◌^◌, not, ◌||◌, ltb, Outcome, ok,
  panicked, ◌>>=◌, ◌>>◌, if◌then◌else◌, arith, ne→==, Bool-cases, inl, inr, Option, none, some,
  assert, ap, sym, ◌∙◌,
}
use virtual_memory.Memory.{Memory}
use virtual_memory.Pages.{PageInfos}
use virtual_memory.Vm.{Symbols, is_nonneg, set_pagetable}
use virtual_memory.Process.{ProcState, Proc, is_free, is_runnable, nproc}
use virtual_memory.Kernel.{Kernel, current_proc, set_proc, Resume, run, schedule, next_runnable}
use virtual_memory.Kernel.Fork.{
  fork, fork_into, fork_return, fork_fails, find_free_pid, fork_pages, duplicate_pagetable,
  fork_memory, with_child, set_rax, failure,
}
use virtual_memory.Print.Printers.{ConsolePrinter}
use virtual_memory.Hardware.Keyboard.{Keyed, check_keyboard}
use virtual_memory.Kernel.Checks.{check_virtual_memory}
use virtual_memory.Kernel.Viewer.{
  memshow_physical, memshow_virtual, memshow_virtual_animate, advance, show_process, process_name,
}
use virtual_memory.Paging.{has}
use virtual_memory.Pages.{sys_page_alloc_find_free}
use virtual_memory.Kernel.Exit.{exit}
use virtual_memory.Kernel.Syscalls.{syscall_mem_tog, syscall_mapping}
use virtual_memory.Kernel.Exceptions.{
  page_alloc, print_fault, page_fault, break_current, set_result, sign_extend, after_fork,
  set_screen, Case, case_of, shows, Trap, Handled, Ending, exception, after_keyboard, finish,
  handle, return_to_process, save_registers, show_state, poll_keyboard,
}
use virtual_memory.Kernel.Exceptions.Isolation.Frame.{
  Holds, Holds-bind, Holds-any, Holds-if, if-Kept, true≢false, Bystander, Kept, processes_of,
  kernel_of, set_current_keeps, set_other_keeps, update_keeps,
}
use virtual_memory.Kernel.Exceptions.Isolation.Forks.{fork_case_keeps}
use virtual_memory.Kernel.Exceptions.Isolation.Switches.{
  show_state_keeps, schedule_keeps, return_keeps,
}

module _ (w : Bystander) where
  page_alloc_keeps : (k : Kernel) → Kept w k → Holds (λ h. Kept w (kernel_of h)) (page_alloc k)
  unfolding page_alloc
  page_alloc_keeps k kept =
      let q = current_proc k in
      let allocated =
        sys_page_alloc_find_free k.mem k.pageinfo q.p_pagetable q.p_pid q.p_registers.reg_rdi in
      Holds-bind (λ r. Unit) (λ h. Kept w (kernel_of h)) allocated
        (λ (r, pages, m).
          ok (Handled.breaks (set_result (record k { pageinfo = pages; mem = m }) (sign_extend r))))
        (Holds-any allocated)
        λ r h.
          update_keeps w (record k { pageinfo = r.1; mem = r.2 }) (set_rax q (sign_extend r.0)) kept

  set_screen_keeps : (k : Kernel) (o : Option ConsolePrinter) → Kept w k → Kept w (set_screen k o)
  set_screen_keeps k none kept = kept
  set_screen_keeps k (some cp) kept = kept

  print_fault_keeps : (k : Kernel) (t : Trap) → Kept w k → Kept w (print_fault k t)
  unfolding print_fault
  print_fault_keeps k t kept = set_screen_keeps k _ kept

  page_fault_keeps :
      (k : Kernel) (t : Trap) → Kept w k → Holds (λ h. Kept w (kernel_of h)) (page_fault k t)
  unfolding page_fault
  page_fault_keeps k t kept =
      let k' = print_fault k t in
      Holds-if (λ h. Kept w (kernel_of h)) (has t.registers.reg_err 4)
        (ok (Handled.breaks (break_current k'))) panicked
        (update_keeps w k' (record (current_proc k') { p_state = ProcState.broken })
          (print_fault_keeps k t kept))
        tt

  mem_tog_keeps : (k : Kernel) → Kept w k → Kept w (syscall_mem_tog k)
  unfolding syscall_mem_tog
  mem_tog_keeps k kept =
      let q = current_proc k in
      let n = q.p_registers.reg_rdi % 2 ^ 32 in
      let toggled = record q { display_status = not q.display_status } in
      let k' = record k { processes = set_proc k.processes k.current toggled } in
      let refused = not (is_nonneg n) || ltb nproc n || not (n == q.p_pid) in
      if-Kept w (n == 0) (record k { disp_global = not k.disp_global }) (if refused then k else k')
        kept (if-Kept w refused k k' kept (update_keeps w k toggled kept))

  exit_keeps : (k : Kernel) → Kept w k → Kept w (exit k)
  unfolding exit
  exit_keeps k kept = update_keeps w k (record (current_proc k) { p_state = ProcState.free }) kept

  handle_keeps :
      (k : Kernel) (t : Trap) (n : Case)
      → Kept w k
      → Holds (λ h. Kept w (kernel_of h)) (handle k t n)
  unfolding handle
  handle_keeps k t Case.sys_panic kept = tt
  handle_keeps k t Case.sys_getpid kept =
      update_keeps w k (set_rax (current_proc k) (sign_extend (current_proc k).p_pid)) kept
  handle_keeps k t Case.sys_yield kept = kept
  handle_keeps k t Case.sys_page_alloc kept = page_alloc_keeps k kept
  handle_keeps k t Case.sys_mapping kept = kept
  handle_keeps k t Case.sys_mem_tog kept = mem_tog_keeps k kept
  handle_keeps k t Case.timer kept = kept
  handle_keeps k t Case.pagefault kept = page_fault_keeps k t kept
  handle_keeps k t Case.sys_fork kept = fork_case_keeps w k kept
  handle_keeps k t Case.sys_exit kept = exit_keeps k kept
  handle_keeps k t Case.unexpected kept = tt

  resumes_keeps :
      (m : Outcome Resume)
      → Holds (λ r. processes_of (Ending.resumes r) w.pid ≡ w.descriptor) m
      → Holds (λ e. processes_of e w.pid ≡ w.descriptor) (m >>= λ r. ok (Ending.resumes r))
  resumes_keeps (ok r) h = h
  resumes_keeps panicked h = tt

  finish_keeps :
      (s : Symbols) (h : Handled)
      → Kept w (kernel_of h)
      → Holds (λ e. processes_of e w.pid ≡ w.descriptor) (finish s h)
  unfolding finish
  finish_keeps s (Handled.breaks k) kept =
      resumes_keeps (return_to_process s k) (return_keeps w s k kept)
  finish_keeps s (Handled.schedules k) kept =
      resumes_keeps (schedule s k) (schedule_keeps w s k kept)
  finish_keeps s (Handled.returns k) kept = kept.1

  after_keyboard_keeps :
      (s : Symbols) (k : Kernel) (t : Trap) (key : Keyed)
      → Kept w k
      → Holds (λ e. processes_of e w.pid ≡ w.descriptor) (after_keyboard s k t key)
  unfolding after_keyboard
  after_keyboard_keeps s k t (Keyed.returns_key ch) kept =
      Holds-bind (λ h. Kept w (kernel_of h)) (λ e. processes_of e w.pid ≡ w.descriptor)
        (handle k t (case_of t.registers.reg_intno)) (finish s)
        (handle_keeps k t (case_of t.registers.reg_intno) kept) (finish_keeps s)
  after_keyboard_keeps s k t (Keyed.reboots argument m) kept = kept.1
  after_keyboard_keeps s k t Keyed.powers_off kept = kept.1

  poll_keeps :
      (s : Symbols) (t : Trap) (k : Kernel)
      → Kept w k
      → Holds (λ e. processes_of e w.pid ≡ w.descriptor) (poll_keyboard s t k)
  unfolding poll_keyboard
  poll_keeps s t k kept =
      let checked = check_keyboard t.keyboard_status t.keyboard_byte k.keyboard k.mem in
      after_keyboard_keeps s (record k { keyboard = checked.1 }) t checked.0 kept

-- Whatever the interrupt, the system call or the fault, and however `exception` ends, but for a
-- panic, behind which there is no state, it leaves the whole descriptor of every process as it was
-- that is in use and is not the current one: its registers, its state and its page table.
pub exception_isolates :
    (s : Symbols) (k : Kernel) (t : Trap) (pid : ℕ)
    → pid ≢ k.current
    → is_free (k.processes pid).p_state ≡ false
    → Holds (λ e. processes_of e pid ≡ k.processes pid) (exception s k t)
unfolding exception
exception_isolates s k t pid other used =
    let p = k.processes pid in
    let saved = save_registers k t.registers in
    let w : Bystander = record {
      pid = pid;
      running = k.current;
      descriptor = p;
      other = other;
      used = used;
    } in
    let kept : Kept w saved =
      update_keeps w k (record (current_proc k) { p_registers = t.registers }) (refl, refl) in
    let active = set_pagetable s saved.mem s.kernel_pagetables in
    Holds-bind (λ v. Unit) (λ e. processes_of e pid ≡ p) active
      (λ cr3. show_state s t.registers (record saved { cr3 = cr3 }) >>= poll_keyboard s t)
      (Holds-any active)
      λ cr3 h.
        Holds-bind (Kept w) (λ e. processes_of e pid ≡ p)
          (show_state s t.registers (record saved { cr3 = cr3 })) (poll_keyboard s t)
          (show_state_keeps w s t (record saved { cr3 = cr3 }) kept) (poll_keeps w s t)
