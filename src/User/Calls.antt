-- ===== src/User/Calls.antt =====
-- What the kernel does for the stubs of the system calls.
use virtual_memory.Base.{ℕ, ◌≡◌, refl, bit_and, true, false, Outcome, ok, panicked, ◌>>=◌, eq→==}
use virtual_memory.Vm.{Symbols, set_pagetable}
use virtual_memory.Process.{Registers}
use virtual_memory.Hardware.Keyboard.{check_keyboard, keyboard_readc}
use virtual_memory.Kernel.{Kernel}
use virtual_memory.Kernel.Exceptions.{
  Trap, Case, case_of, handle, exception, poll_keyboard, after_keyboard, show_state, save_registers,
}
use virtual_memory.Kernel.Exceptions.Resumes.{or_panic, or_panic-bind}
use virtual_memory.User.{
  sys_getpid, sys_yield, sys_page_alloc, sys_fork, sys_exit, sys_panic, sys_mapping, sys_mem_tog,
  sys_brk, sys_sbrk,
}

-- The keyboard has no key.
abbrev pub IsQuiet : Trap → Type 0
IsQuiet t = bit_and t.keyboard_status 1 ≡ 0

only_panics : {A : Type 0} (o : Outcome A) → or_panic (λ a. false) o ≡ true → o ≡ panicked
only_panics (ok a) h = cc
only_panics panicked h = refl

quiet_key :
    (s : Symbols) (k : Kernel) (t : Trap)
    → IsQuiet t
    → case_of t.registers.reg_intno ≡ Case.unexpected
    → or_panic (λ e. false) (poll_keyboard s t k) ≡ true
unfolding poll_keyboard check_keyboard keyboard_readc after_keyboard handle
quiet_key s k t quiet unknown = rw (eq→== (bit_and t.keyboard_status 1) 0 quiet, unknown) refl

unexpected_panics :
    (s : Symbols) (k : Kernel) (t : Trap)
    → IsQuiet t
    → case_of t.registers.reg_intno ≡ Case.unexpected
    → exception s k t ≡ panicked
unfolding exception
unexpected_panics s k t quiet unknown =
    let saved = save_registers k t.registers in
    only_panics (exception s k t) (
      or_panic-bind (λ e. false) (set_pagetable s saved.mem s.kernel_pagetables)
        (λ cr3. show_state s t.registers (record saved { cr3 = cr3 }) >>= poll_keyboard s t)
        λ cr3.
          or_panic-bind (λ e. false) (show_state s t.registers (record saved { cr3 = cr3 }))
            (poll_keyboard s t) λ k'. quiet_key s k' t quiet unknown)

-- Eight stubs end in the case of `exception` that is meant for them, and those of `brk` and `sbrk`
-- in the case of an unexpected exception.
pub stubs_reach_cases :
    (reg : Registers) (a b : ℕ)
    → (case_of (sys_getpid reg).reg_intno ≡ Case.sys_getpid)
      × (case_of (sys_yield reg).reg_intno ≡ Case.sys_yield)
      × (case_of (sys_page_alloc reg a).reg_intno ≡ Case.sys_page_alloc)
      × (case_of (sys_fork reg).reg_intno ≡ Case.sys_fork)
      × (case_of (sys_exit reg).reg_intno ≡ Case.sys_exit)
      × (case_of (sys_panic reg a).reg_intno ≡ Case.sys_panic)
      × (case_of (sys_mapping reg a b).reg_intno ≡ Case.sys_mapping)
      × (case_of (sys_mem_tog reg a).reg_intno ≡ Case.sys_mem_tog)
      × (case_of (sys_brk reg a).reg_intno ≡ Case.unexpected)
      × (case_of (sys_sbrk reg a).reg_intno ≡ Case.unexpected)
unfolding case_of sys_getpid sys_yield sys_page_alloc sys_fork sys_exit sys_panic sys_mapping
    sys_mem_tog sys_brk sys_sbrk
stubs_reach_cases reg a b = (refl, refl, refl, refl, refl, refl, refl, refl, refl, refl)

-- Any process stops the whole machine with `sys_brk` or `sys_sbrk`: unless the user has pressed a
-- key, `exception` panics for the stub's registers, in every state of the kernel and for every
-- argument, and -1 is never returned.
pub brk_panics :
    (s : Symbols) (k : Kernel) (t : Trap) (reg : Registers) (addr increment : ℕ)
    → IsQuiet t
    → (exception s k (record t { registers = sys_brk reg addr }) ≡ panicked)
      × (exception s k (record t { registers = sys_sbrk reg increment }) ≡ panicked)
brk_panics s k t reg addr increment quiet =
    let cases = stubs_reach_cases reg addr increment in
    (
      unexpected_panics s k (record t { registers = sys_brk reg addr }) quiet cases.8,
      unexpected_panics s k (record t { registers = sys_sbrk reg increment }) quiet
          (stubs_reach_cases reg increment addr).9,
    )
