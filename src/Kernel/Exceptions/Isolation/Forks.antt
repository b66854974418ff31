-- ===== src/Kernel/Exceptions/Isolation/Forks.antt =====
-- Fork takes a free descriptor.
use virtual_memory.Base.{
  ℕ, zero, suc, ◌+◌, ◌≡◌, ◌≢◌, refl, true, false, Bool, ◌==◌, Outcome, ok, ◌>>=◌, arith, ne→==,
  Bool-cases, inl, inr, Option, none, some, ap, sym, ◌∙◌,
}
use virtual_memory.Process.{ProcState, Proc, is_free}
use virtual_memory.Kernel.{Kernel, current_proc, set_proc}
use virtual_memory.Kernel.Fork.{
  fork, fork_into, fork_return, fork_fails, find_free_pid, fork_pages, duplicate_pagetable,
  fork_memory, with_child, set_rax, failure,
}
use virtual_memory.Kernel.Exceptions.{after_fork}
use virtual_memory.Kernel.Exceptions.Isolation.Frame.{
  Holds, Holds-bind, Holds-any, Holds-if, true≢false, Bystander, Kept, kernel_of, set_other_keeps,
  update_keeps,
}

module _ (w : Bystander) where
  pub find_free_pid-free :
      (procs : ℕ → Proc) (left n free : ℕ)
      → find_free_pid procs left n ≡ some free
      → is_free (procs free).p_state ≡ true
  unfolding find_free_pid
  find_free_pid-free procs zero n free h = ground (arith, h)
  find_free_pid-free procs (suc left) n free h = elim (Bool-cases (is_free (procs n).p_state)) [
    | inl is ↦ ground (arith, h, is)
    | inr isnt ↦ find_free_pid-free procs left (n + 1) free (ground (arith, h, isnt))
  ]

  -- The parent and the child of a fork.
  pub fork_return_keeps :
      (k : Kernel) (free : ℕ) → w.pid ≢ free → Kept w k → Kept w (fork_return k free)
  unfolding fork_return set_proc
  fork_return_keeps k free ne kept =
      (kept.0, rw (ne→== w.pid k.current (λ e. w.other (e ∙ kept.0)), ne→== w.pid free ne) kept.1)

  pub fork_fails_keeps :
      (k : Kernel) (free : ℕ) → w.pid ≢ free → Kept w k → Kept w (fork_fails k free)
  unfolding fork_fails set_proc
  fork_fails_keeps k free ne kept =
      (kept.0, rw (ne→== w.pid k.current (λ e. w.other (e ∙ kept.0)), ne→== w.pid free ne) kept.1)

  pub fork_memory_keeps :
      (k : Kernel) (parent free pt : ℕ)
      → w.pid ≢ free
      → Kept w k
      → Holds (λ r. Kept w r.0) (fork_memory k parent free pt)
  unfolding fork_memory
  fork_memory_keeps k parent free pt ne kept =
      let copied = fork_pages k.mem k.pageinfo parent pt free 512 0x100000 in
      Holds-if (λ r. Kept w r.0) (pt == 0) (ok (fork_fails k free, false))
        (copied >>= λ (pages, m).
          ok (fork_return (record k { mem = m; pageinfo = pages }) free, true))
        (fork_fails_keeps k free ne kept)
        (Holds-bind (λ r. Unit) (λ r. Kept w r.0) copied
          (λ (pages, m). ok (fork_return (record k { mem = m; pageinfo = pages }) free, true))
          (Holds-any copied)
          λ r h. fork_return_keeps (record k { mem = r.1; pageinfo = r.0 }) free ne kept)

  pub fork_into_keeps :
      (k : Kernel) (free : ℕ) → w.pid ≢ free → Kept w k → Holds (λ r. Kept w r.0) (fork_into k free)
  unfolding fork_into with_child
  fork_into_keeps k free ne kept =
      let parent = (current_proc k).p_pagetable in
      let copied = duplicate_pagetable k.mem k.pageinfo parent free in
      Holds-bind (λ r. Unit) (λ r. Kept w r.0) copied
        (λ (pt, pages, m). fork_memory (with_child k free pt pages m) parent free pt)
        (Holds-any copied)
        λ r h. fork_memory_keeps (with_child k free r.0 r.1 r.2) parent free r.0 ne (
          set_other_keeps w k free
            (record (k.processes free) {
              p_pid = free;
              p_state = ProcState.runnable;
              p_pagetable = r.0;
            })
            ne kept)

  pub fork_keeps : (k : Kernel) → Kept w k → Holds (λ r. Kept w r.0) (fork k)
  unfolding fork
  fork_keeps k kept = search (find_free_pid k.processes 15 1) refl
    where
      search :
          (o : Option ℕ)
          → find_free_pid k.processes 15 1 ≡ o
          → Holds
              (λ r. Kept w r.0)
              (elim o as (λ x. Outcome (Kernel × Bool)) [
                | none ↦ ok (
                  record k {
                    processes = set_proc k.processes k.current (set_rax (current_proc k) failure);
                  },
                  true,
                )
                | some free ↦ fork_into k free
              ])
      search none e = update_keeps w k (set_rax (current_proc k) failure) kept
      search (some free) e =
          let is = find_free_pid-free k.processes 15 1 free e in
          fork_into_keeps k free
            (λ q. true≢false (
              sym is
              ∙ ap (λ x. is_free (k.processes x).p_state) (sym q)
              ∙ ap (λ d. is_free d.p_state) kept.1
              ∙ w.used))
            kept

  pub fork_case_keeps :
      (k : Kernel)
      → Kept w k
      → Holds (λ h. Kept w (kernel_of h)) (fork k >>= λ r. ok (after_fork r))
  fork_case_keeps k kept =
      Holds-bind (λ r. Kept w r.0) (λ h. Kept w (kernel_of h)) (fork k) (λ r. ok (after_fork r))
        (fork_keeps k kept) after
    where
      after :
          (r : Kernel × Bool) → Kept w r.0 → Holds (λ h. Kept w (kernel_of h)) (ok (after_fork r))
      after (k', true) kept' = kept'
      after (k', false) kept' = kept'
