-- ===== src/Tests/KernelTests.antt =====
-- The theorems on processes and the scheduler at concrete descriptors.
use virtual_memory.Base.{ℕ, ◌≤◌, ◌<◌, ◌≡◌, refl, ◌⊎◌, arith, true, false, ◌==◌, if◌then◌else◌, some}
use virtual_memory.Process.{Proc, ProcState, zero_registers, is_runnable, nproc}
use virtual_memory.Kernel.{next_runnable}
use virtual_memory.Kernel.Scheduling.{distance, next_runnable_fair}

abbrev pub in_state : ℕ → ProcState → Proc
in_state pid s = record {
  p_pid = pid;
  p_registers = zero_registers;
  p_state = s;
  p_pagetable = 0;
  display_status = false;
}

-- Processes 3 and 7 are runnable.
abbrev two_procs : ℕ → Proc
two_procs pid = in_state pid (
    if pid == 3
    then ProcState.runnable
    else if pid == 7
    then ProcState.runnable
    else ProcState.free)

abbrev no_procs : ℕ → Proc
no_procs pid = in_state pid ProcState.free

turns : next_runnable two_procs 16 7 ≡ some 3
unfolding next_runnable
turns = refl

next_runnable_fair_example :
    (r : ℕ) × (next_runnable two_procs nproc 7 ≡ some r)
    × (r < 16)
    × (is_runnable (two_procs r).p_state ≡ true)
    × (distance 7 r ≤ distance 7 7)
    × ((r ≡ 7) ⊎ (distance r 7 < distance 7 7))
next_runnable_fair_example = next_runnable_fair two_procs 7 7 (omega arith) (omega arith) refl
