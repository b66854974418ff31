-- ===== src/Kernel/Exceptions/Resumes.antt =====
-- With which process `exception` goes on.
use virtual_memory.Base.{
  ℕ, ◌≡◌, refl, true, Bool, ◌&&◌, ◌==◌, Outcome, ok, panicked, ◌>>=◌, ◌>>◌, arith, eq→==,
  Bool-cases, inl, inr, none, some, assert,
}
use virtual_memory.Memory.{Memory}
use virtual_memory.Paging.{pageoffset}
use virtual_memory.Vm.{Symbols, set_pagetable, virtual_memory_lookup}
use virtual_memory.Process.{is_runnable, nproc}
use virtual_memory.Hardware.Keyboard.{Keyed, check_keyboard}
use virtual_memory.Kernel.{Kernel, current_proc, Resume, run, schedule, next_runnable}
use virtual_memory.Kernel.Exceptions.{
  Trap, Handled, Ending, exception, after_keyboard, finish, handle, case_of, poll_keyboard,
  return_to_process, save_registers, show_state,
}

-- A process that the processor goes on with is runnable, and CR3 holds its page table.
abbrev pub is_proper : Ending → Bool
is_proper (Ending.resumes (Resume.runs k)) =
    is_runnable (current_proc k).p_state && (k.cr3 == (current_proc k).p_pagetable)
is_proper e = true

abbrev pub or_panic : {A : Type 0} → (A → Bool) → Outcome A → Bool
or_panic f (ok e) = f e
or_panic f panicked = true

pub or_panic-bind :
    {A B : Type 0} (f : B → Bool) (m : Outcome A) (g : A → Outcome B)
    → ((a : A) → or_panic f (g a) ≡ true)
    → or_panic f (m >>= g) ≡ true
or_panic-bind f (ok a) g h = h a
or_panic-bind f panicked g h = refl

-- Assertions and then a value, as in `set_pagetable`.
assertions_then :
    (a b c d e : Bool) (pt : ℕ)
    → or_panic
        (λ r. r == pt)
        (assert a >> (assert b >> (assert c >> (assert d >> (assert e >> ok pt)))))
      ≡ true
assertions_then a b c d e pt = ground (arith, eq→== pt pt refl)

abbrev pub is_proper_resume : Resume → Bool
is_proper_resume r = is_proper (Ending.resumes r)

set_pagetable_result :
    (s : Symbols) (m : Memory) (pt : ℕ) → or_panic (λ r. r == pt) (set_pagetable s m pt) ≡ true
unfolding set_pagetable
set_pagetable_result s m pt =
    assertions_then (pageoffset pt == 0)
      ((virtual_memory_lookup m pt s.default_int_handler).pa == s.default_int_handler)
      ((virtual_memory_lookup m s.kernel_pagetables pt).pa == pt)
      ((virtual_memory_lookup m pt s.kernel_pagetables).pa == s.kernel_pagetables)
      ((virtual_memory_lookup m pt s.virtual_memory_map_code).pa == s.virtual_memory_map_code) pt

run_proper : (s : Symbols) (k : Kernel) (pid : ℕ) → or_panic is_proper_resume (run s k pid) ≡ true
unfolding run
run_proper s k pid = ground (arith, set_pagetable_result s k.mem (k.processes pid).p_pagetable)

schedule_proper : (s : Symbols) (k : Kernel) → or_panic is_proper_resume (schedule s k) ≡ true
unfolding schedule
schedule_proper s k =
    elim (next_runnable k.processes nproc (current_proc k).p_pid)
      as (λ o.
        or_panic is_proper_resume
          (elim o as (λ x. Outcome Resume) [ none ↦ ok (Resume.spins k) | some pid ↦ run s k pid ])
        ≡ true) [ none ↦ refl | some pid ↦ run_proper s k pid ]

return_proper :
    (s : Symbols) (k : Kernel) → or_panic is_proper_resume (return_to_process s k) ≡ true
unfolding return_to_process
return_proper s k = elim (Bool-cases (is_runnable (current_proc k).p_state)) [
  | inl is ↦ rw is (run_proper s k k.current)
  | inr other ↦ rw other (schedule_proper s k)
]

resumes_proper :
    (m : Outcome Resume)
    → or_panic is_proper_resume m ≡ true
    → or_panic is_proper (m >>= λ r. ok (Ending.resumes r)) ≡ true
resumes_proper (ok r) h = h
resumes_proper panicked h = refl

finish_proper : (s : Symbols) (h : Handled) → or_panic is_proper (finish s h) ≡ true
unfolding finish
finish_proper s (Handled.breaks k) = resumes_proper (return_to_process s k) (return_proper s k)
finish_proper s (Handled.schedules k) = resumes_proper (schedule s k) (schedule_proper s k)
finish_proper s (Handled.returns k) = refl

after_keyboard_proper :
    (s : Symbols) (k : Kernel) (t : Trap) (key : Keyed)
    → or_panic is_proper (after_keyboard s k t key) ≡ true
unfolding after_keyboard
after_keyboard_proper s k t (Keyed.returns_key c) =
    or_panic-bind is_proper (handle k t (case_of t.registers.reg_intno)) (finish s)
      (finish_proper s)
after_keyboard_proper s k t (Keyed.reboots argument m) = refl
after_keyboard_proper s k t Keyed.powers_off = refl

poll_proper :
    (s : Symbols) (t : Trap) (k : Kernel) → or_panic is_proper (poll_keyboard s t k) ≡ true
unfolding poll_keyboard
poll_proper s t k =
    let checked = check_keyboard t.keyboard_status t.keyboard_byte k.keyboard k.mem in
    after_keyboard_proper s (record k { keyboard = checked.1 }) t checked.0

-- Whatever the interrupt, the system call or the fault, when `exception` resumes a process then
-- that process is runnable, it is the current one, and its own page table is in CR3.
pub exception_resumes_properly :
    (s : Symbols) (k : Kernel) (t : Trap) → or_panic is_proper (exception s k t) ≡ true
unfolding exception
exception_resumes_properly s k t =
    let saved = save_registers k t.registers in
    or_panic-bind is_proper (set_pagetable s saved.mem s.kernel_pagetables)
      (λ cr3. show_state s t.registers (record saved { cr3 = cr3 }) >>= poll_keyboard s t)
      λ cr3.
        or_panic-bind is_proper (show_state s t.registers (record saved { cr3 = cr3 }))
          (poll_keyboard s t) (poll_proper s t)
