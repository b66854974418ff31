-- ===== src/Kernel/Exceptions.antt =====
-- `exception`: what the kernel does for an interrupt, a system call or a fault. The cursor's ports
-- and the log change nothing that it reads, and are left out.
pub mod Resumes
pub mod Isolation
use virtual_memory.Base.{
  ℕ, zero, suc, ◌+◌, ◌-◌, ◌%◌, ◌^◌, bit_and, bit_or, Bool, true, false, not, ◌&&◌, ◌||◌, ltb, ◌==◌,
  if◌then◌else◌, List, [], ◌∷◌, get_or, codes, Option, none, some, Outcome, ok, panicked, ◌>>=◌,
  ◌>>◌,
}
use virtual_memory.Paging.{has}
use virtual_memory.Vm.{Symbols, is_nonneg, set_pagetable}
use virtual_memory.Pages.{sys_page_alloc_find_free}
use virtual_memory.Print.Printers.{ConsolePrinter, console_vprintf}
use virtual_memory.Process.{ProcState, Proc, Registers, is_runnable}
use virtual_memory.Hardware.Keyboard.{check_keyboard, Keyed}
use virtual_memory.Hardware.Segments.{int_gpf, int_pagefault, int_timer, int_sys}
use virtual_memory.Kernel.{Kernel, current_proc, set_proc, Resume, run, schedule}
use virtual_memory.Kernel.Fork.{fork, set_rax}
use virtual_memory.Kernel.Exit.{exit}
use virtual_memory.Kernel.Checks.{check_virtual_memory}
use virtual_memory.Kernel.Viewer.{cpos, memshow_physical, memshow_virtual_animate}
use virtual_memory.Kernel.Syscalls.{syscall_mapping, syscall_mem_tog}

-- What the hardware provides: the saved registers, CR2, the keyboard's two ports, and the bytes on
-- the kernel's stack that the mapping call copies.
pub record Trap : Type 0 where
  pub registers : Registers
  pub cr2 : ℕ
  pub keyboard_status : ℕ
  pub keyboard_byte : ℕ
  pub padding : ℕ → ℕ

abbrev pub int_sys_panic : ℕ
int_sys_panic = int_sys + 0

abbrev pub int_sys_getpid : ℕ
int_sys_getpid = int_sys + 1

abbrev pub int_sys_yield : ℕ
int_sys_yield = int_sys + 2

abbrev pub int_sys_page_alloc : ℕ
int_sys_page_alloc = int_sys + 3

abbrev pub int_sys_fork : ℕ
int_sys_fork = int_sys + 4

abbrev pub int_sys_exit : ℕ
int_sys_exit = int_sys + 5

abbrev pub int_sys_mapping : ℕ
int_sys_mapping = int_sys + 6

abbrev pub int_sys_mem_tog : ℕ
int_sys_mem_tog = int_sys + 8

-- An `int` as a 64-bit pattern.
unfoldable pub sign_extend : ℕ → ℕ
sign_extend r = if is_nonneg r then r else r + (2 ^ 64 - 2 ^ 32)

abbrev pub pferr_present : ℕ
pferr_present = 1

abbrev pub pferr_write : ℕ
pferr_write = 2

abbrev pub pferr_user : ℕ
pferr_user = 4

-- `current->p_registers = *reg`
abbrev pub save_registers : Kernel → Registers → Kernel
save_registers k reg = record k {
  processes = set_proc k.processes k.current (record (current_proc k) { p_registers = reg });
}

-- The trap is no fault of the kernel itself.
abbrev pub shows : Registers → Bool
shows reg =
    (not (reg.reg_intno == int_pagefault) && not (reg.reg_intno == int_gpf))
    || has reg.reg_err pferr_user

-- The checks and the pictures, unless the kernel itself has faulted.
unfoldable pub show_state : Symbols → Registers → Kernel → Outcome Kernel
show_state s reg k =
    if shows reg
    then (do
      check_virtual_memory s k
      if k.disp_global
          then memshow_virtual_animate (record k { screen = memshow_physical k.pageinfo k.screen })
          else ok k)
    else ok k

-- The screen after a message.
abbrev pub set_screen : Kernel → Option ConsolePrinter → Kernel
set_screen k none = k
set_screen k (some cp) = record k { screen = cp.cells }

-- The message for a process's page fault, on the last line.
unfoldable pub print_fault : Kernel → Trap → Kernel
print_fault k t =
    let err = t.registers.reg_err in
    let args = (current_proc k).p_pid ∷ t.cr2 ∷ 0 ∷ 1 ∷ t.registers.reg_rip ∷ [] in
    let operation = if has err pferr_write then codes "write" else codes "read" in
    let problem =
      if has err pferr_present then codes "protection problem" else codes "missing page" in
    set_screen k (
      console_vprintf k.screen (cpos 24 0) 0x0C00
        (codes "Process %d page fault for %p (%s %s, rip=%p)!\n") (λ i. get_or args i 0)
        (λ a. if a == 0 then operation else problem))

-- `current->p_state = P_BROKEN`
abbrev pub break_current : Kernel → Kernel
break_current k = record k {
  processes =
      set_proc k.processes k.current (record (current_proc k) { p_state = ProcState.broken });
}

-- How a case of the `switch` ends: with `break`, with `schedule()`, or, in fork, with `return`.
pub data Handled : Type 0 where
  breaks : Kernel → Handled
  schedules : Kernel → Handled
  returns : Kernel → Handled

abbrev pub after_fork : Kernel × Bool → Handled
after_fork (k, true) = breaks k
after_fork (k, false) = returns k

abbrev pub set_result : Kernel → ℕ → Kernel
set_result k v = record k {
  processes = set_proc k.processes k.current (set_rax (current_proc k) v);
}

unfoldable pub page_alloc : Kernel → Outcome Handled
page_alloc k = do
  let p = current_proc k
  (r, pages, m) ←
      sys_page_alloc_find_free k.mem k.pageinfo p.p_pagetable p.p_pid p.p_registers.reg_rdi
  ok (breaks (set_result (record k { pageinfo = pages; mem = m }) (sign_extend r)))

-- A process's fault breaks the process; the kernel's own fault stops the machine.
unfoldable pub page_fault : Kernel → Trap → Outcome Handled
page_fault k t =
    if has t.registers.reg_err pferr_user
    then ok (breaks (break_current (print_fault k t)))
    else panicked

-- The cases of the `switch`.
pub data Case : Type 0 where
  sys_panic sys_getpid sys_yield sys_page_alloc sys_mapping sys_mem_tog timer pagefault sys_fork
        sys_exit unexpected :
      Case

unfoldable pub case_of : (reg_intno : ℕ) → Case
case_of n =
    if n == int_sys_panic
    then Case.sys_panic
    else if n == int_sys_getpid
    then Case.sys_getpid
    else if n == int_sys_yield
    then Case.sys_yield
    else if n == int_sys_page_alloc
    then Case.sys_page_alloc
    else if n == int_sys_mapping
    then Case.sys_mapping
    else if n == int_sys_mem_tog
    then Case.sys_mem_tog
    else if n == int_timer
    then Case.timer
    else if n == int_pagefault
    then Case.pagefault
    else if n == int_sys_fork
    then Case.sys_fork
    else if n == int_sys_exit
    then Case.sys_exit
    else Case.unexpected

unfoldable pub handle : Kernel → Trap → Case → Outcome Handled
handle k t Case.sys_panic = panicked
handle k t Case.sys_getpid = ok (breaks (set_result k (sign_extend (current_proc k).p_pid)))
handle k t Case.sys_yield = ok (schedules k)
handle k t Case.sys_page_alloc = page_alloc k
handle k t Case.sys_mapping =
    ok (breaks (record k { mem = syscall_mapping k.mem (current_proc k) t.padding }))
handle k t Case.sys_mem_tog = ok (breaks (syscall_mem_tog k))
handle k t Case.timer = ok (schedules (record k { ticks = (k.ticks + 1) % 2 ^ 32 }))
handle k t Case.pagefault = page_fault k t
handle k t Case.sys_fork = fork k >>= λ r. ok (after_fork r)
handle k t Case.sys_exit = ok (breaks (exit k))
handle k t Case.unexpected = panicked

-- How `exception` ends: with a process, in fork's `return` to its caller, or by the keyboard.
pub data Ending : Type 0 where
  resumes : Resume → Ending
  returns_to_caller : Kernel → Ending
  restarts : (argument : List ℕ) → Kernel → Ending
  turns_off : Kernel → Ending

-- The code behind the `switch`.
unfoldable pub return_to_process : Symbols → Kernel → Outcome Resume
return_to_process s k =
    if is_runnable (current_proc k).p_state then run s k k.current else schedule s k

unfoldable pub finish : Symbols → Handled → Outcome Ending
finish s (breaks k) = return_to_process s k >>= λ r. ok (resumes r)
finish s (schedules k) = schedule s k >>= λ r. ok (resumes r)
finish s (returns k) = ok (returns_to_caller k)

unfoldable pub after_keyboard : Symbols → Kernel → Trap → Keyed → Outcome Ending
after_keyboard s k t (Keyed.returns_key c) = handle k t (case_of t.registers.reg_intno) >>= finish s
after_keyboard s k t (Keyed.reboots argument m) =
    ok (restarts argument (record k { mem = m; cr3 = 0x8000 }))
after_keyboard s k t Keyed.powers_off = ok (turns_off k)

unfoldable pub poll_keyboard : Symbols → Trap → Kernel → Outcome Ending
poll_keyboard s t k =
    let (key, keyboard) = check_keyboard t.keyboard_status t.keyboard_byte k.keyboard k.mem in
    after_keyboard s (record k { keyboard = keyboard }) t key

unfoldable pub exception : Symbols → Kernel → Trap → Outcome Ending
exception s k t = do
  let saved = save_registers k t.registers
  cr3 ← set_pagetable s saved.mem s.kernel_pagetables
  shown ← show_state s t.registers (record saved { cr3 = cr3 })
  poll_keyboard s t shown
