-- ===== src/Kernel/Exceptions/Isolation/Switches.antt =====
-- The pictures and the switch to another process keep the descriptors.
use virtual_memory.Base.{
  ℕ, ◌≡◌, Outcome, ok, panicked, ◌>>=◌, ◌>>◌, if◌then◌else◌, none, some, assert,
}
use virtual_memory.Vm.{Symbols, set_pagetable}
use virtual_memory.Process.{is_free, is_runnable, nproc}
use virtual_memory.Kernel.{Kernel, current_proc, Resume, run, schedule, next_runnable}
use virtual_memory.Kernel.Checks.{check_virtual_memory}
use virtual_memory.Kernel.Viewer.{
  memshow_physical, memshow_virtual, memshow_virtual_animate, advance, show_process, process_name,
}
use virtual_memory.Kernel.Exceptions.{shows, Trap, Ending, return_to_process, show_state}
use virtual_memory.Kernel.Exceptions.Isolation.Frame.{
  Holds, Holds-bind, Holds-any, Holds-if, Bystander, Kept, processes_of,
}

module _ (w : Bystander) where
  pub animate_keeps : (k : Kernel) → Kept w k → Holds (Kept w) (memshow_virtual_animate k)
  unfolding memshow_virtual_animate show_process
  animate_keeps k kept =
      let k' = advance k in
      let shown = k'.processes k'.showing in
      let picture =
        memshow_virtual k'.mem k'.pageinfo shown.p_pagetable (process_name k'.showing) k'.screen in
      Holds-if (Kept w) (is_free shown.p_state) (ok k')
        (picture >>= λ screen. ok (record k' { screen = screen })) kept
        (Holds-bind (λ u. Unit) (Kept w) picture (λ screen. ok (record k' { screen = screen }))
          (Holds-any picture) λ screen h. kept)

  pub show_state_keeps :
      (s : Symbols) (t : Trap) (k : Kernel) → Kept w k → Holds (Kept w) (show_state s t.registers k)
  unfolding show_state
  show_state_keeps s t k kept =
      Holds-if (Kept w) (shows t.registers)
        (check_virtual_memory s k
          >> (if k.disp_global
              then memshow_virtual_animate
                  (record k { screen = memshow_physical k.pageinfo k.screen })
              else ok k))
        (ok k)
        (Holds-bind (λ u. Unit) (Kept w) (check_virtual_memory s k)
          (λ u.
            if k.disp_global
            then memshow_virtual_animate
                (record k { screen = memshow_physical k.pageinfo k.screen })
            else ok k)
          (Holds-any (check_virtual_memory s k))
          λ u h.
            Holds-if (Kept w) k.disp_global
              (memshow_virtual_animate (record k { screen = memshow_physical k.pageinfo k.screen }))
              (ok k)
              (animate_keeps (record k { screen = memshow_physical k.pageinfo k.screen }) kept)
              kept)
        kept

  pub run_keeps :
      (s : Symbols) (k : Kernel) (n : ℕ)
      → Kept w k
      → Holds (λ r. processes_of (Ending.resumes r) w.pid ≡ w.descriptor) (run s k n)
  unfolding run
  run_keeps s k n kept =
      run_from (assert (is_runnable (k.processes n).p_state))
        (set_pagetable s k.mem (k.processes n).p_pagetable)
    where
      run_from :
          (a : Outcome (Unit {0})) (cr3 : Outcome ℕ)
          → Holds
              (λ r. processes_of (Ending.resumes r) w.pid ≡ w.descriptor)
              (a >> (cr3 >>= λ v. ok (Resume.runs (record k { current = n; cr3 = v }))))
      run_from (ok u) (ok v) = kept.1
      run_from (ok u) panicked = tt
      run_from panicked cr3 = tt

  pub schedule_keeps :
      (s : Symbols) (k : Kernel)
      → Kept w k
      → Holds (λ r. processes_of (Ending.resumes r) w.pid ≡ w.descriptor) (schedule s k)
  unfolding schedule
  schedule_keeps s k kept =
      elim (next_runnable k.processes nproc (current_proc k).p_pid)
        as (λ o.
          Holds (λ r. processes_of (Ending.resumes r) w.pid ≡ w.descriptor)
            (elim o as (λ x. Outcome Resume) [ none ↦ ok (Resume.spins k) | some n ↦ run s k n ])) [
              | none ↦ kept.1
              | some n ↦ run_keeps s k n kept
            ]

  pub return_keeps :
      (s : Symbols) (k : Kernel)
      → Kept w k
      → Holds (λ r. processes_of (Ending.resumes r) w.pid ≡ w.descriptor) (return_to_process s k)
  unfolding return_to_process
  return_keeps s k kept =
      Holds-if (λ r. processes_of (Ending.resumes r) w.pid ≡ w.descriptor)
        (is_runnable (current_proc k).p_state) (run s k k.current) (schedule s k)
        (run_keeps s k k.current kept) (schedule_keeps s k kept)
