-- ===== src/Kernel.antt =====
-- kernel.c: the kernel's state and its process scheduler.
pub mod Fork
pub mod Exit
pub mod Scheduling
pub mod Checks
pub mod Viewer
pub mod Syscalls
pub mod Exceptions
pub mod Loader
pub mod Start
use virtual_memory.Base.{
  ℕ, zero, suc, ◌+◌, ◌-◌, ◌%◌, ◌^◌, Bool, true, false, ◌==◌, if◌then◌else◌, Option, none, some,
  Outcome, ok, ◌>>=◌, ◌>>◌, assert,
}
use virtual_memory.Memory.{Memory}
use virtual_memory.Vm.{Symbols, set_pagetable}
use virtual_memory.Pages.{PageInfos}
use virtual_memory.Hardware.Keyboard.{KeyboardState}
use virtual_memory.Process.{Proc, is_runnable, nproc}

-- The globals of kernel.c with the two counters of `memshow_virtual_animate`, physical memory, the
-- cells of the screen, the variables of the keyboard, and CR3. `current` is an index into `processes[]`.
pub record Kernel : Type 0 where
  pub mem : Memory
  pub pageinfo : PageInfos
  pub processes : ℕ → Proc
  pub current : ℕ
  pub ticks : ℕ
  pub disp_global : Bool
  pub last_ticks : ℕ
  pub showing : ℕ
  pub screen : ℕ → ℕ
  pub keyboard : KeyboardState
  pub cr3 : ℕ

abbrev pub current_proc : Kernel → Proc
current_proc k = k.processes k.current

-- `processes[pid] = p`
unfoldable pub set_proc : (ℕ → Proc) → ℕ → Proc → ℕ → Proc
set_proc procs pid p n = if n == pid then p else procs n

-- The search of `schedule` for the next runnable process, for this many rounds of its loop.
unfoldable pub next_runnable : (ℕ → Proc) → (rounds pid : ℕ) → Option ℕ
next_runnable procs zero pid = none
next_runnable procs (suc rounds) pid =
    let pid' = (pid + 1) % nproc in
    let rest = next_runnable procs rounds pid' in
    if is_runnable (procs pid').p_state then some pid' else rest

-- How a trap ends: the processor goes on with the current process, or it spins in `schedule`.
pub data Resume : Type 0 where
  runs : Kernel → Resume
  spins : Kernel → Resume

unfoldable pub run : Symbols → Kernel → (pid : ℕ) → Outcome Resume
run s k pid = do
  assert (is_runnable (k.processes pid).p_state)
  cr3 ← set_pagetable s k.mem (k.processes pid).p_pagetable
  ok (runs (record k { current = pid; cr3 = cr3 }))

-- After NPROC rounds without a runnable process `schedule` has seen every descriptor, and nothing
-- in its loop changes one. Its polls of the keyboard are left out.
unfoldable pub schedule : Symbols → Kernel → Outcome Resume
schedule s k = elim (next_runnable k.processes nproc (current_proc k).p_pid) [
  | none ↦ ok (spins k)
  | some pid ↦ run s k pid
]
