-- ===== src/Kernel/Scheduling.antt =====
-- The scheduler is a fair round robin.
use virtual_memory.Base.{
  ℕ, zero, suc, ◌+◌, ◌-◌, ◌%◌, ◌≤◌, ◌<◌, ◌≡◌, ◌≢◌, refl, true, false, ◌==◌, none, some, arith,
  Bool-cases, inl, inr, ◌⊎◌, ap,
}
use virtual_memory.Process.{Proc, is_runnable, nproc}
use virtual_memory.Kernel.{next_runnable}

-- How many rounds of `schedule`, after the first, lead from `pid` to `q`.
abbrev pub distance : ℕ → ℕ → ℕ
distance pid q = (q + 15 - pid) % 16

next_runnable_step :
    (procs : ℕ → Proc) (rounds pid q : ℕ)
    → q < 16
    → pid < 16
    → is_runnable (procs q).p_state ≡ true
    → distance pid q < rounds
    → (r : ℕ) × (next_runnable procs rounds pid ≡ some r)
      × (r < 16)
      × (is_runnable (procs r).p_state ≡ true)
      × (distance pid r ≤ distance pid q)
unfolding next_runnable
next_runnable_step procs zero pid q hq hp run h = absurd (omega arith)
next_runnable_step procs (suc rounds) pid q hq hp run h =
    let next = (pid + 1) % 16 in
    elim (Bool-cases (is_runnable (procs next).p_state)) [
      | inl is ↦ (next, rw is refl, omega arith, is, omega arith)
      | inr other ↦
          let ne : next ≢ q = λ e. ground (arith, ap (λ x. is_runnable (procs x).p_state) e) in
          let ih = next_runnable_step procs rounds next q hq (omega arith) run (omega arith) in
          (ih.0, rw other ih.1, ih.2, ih.3, omega (arith, ih))
    ]

-- While process `q` is runnable, the search of `schedule` finds a runnable process that is no
-- further ahead in the cycle of the 16 descriptors than `q`, and it is `q` or brings the turn of
-- `q` nearer: so `q` waits for at most 15 others.
pub next_runnable_fair :
    (procs : ℕ → Proc) (pid q : ℕ)
    → q < 16
    → pid < 16
    → is_runnable (procs q).p_state ≡ true
    → (r : ℕ) × (next_runnable procs nproc pid ≡ some r)
      × (r < 16)
      × (is_runnable (procs r).p_state ≡ true)
      × (distance pid r ≤ distance pid q)
      × ((r ≡ q) ⊎ (distance r q < distance pid q))
next_runnable_fair procs pid q hq hp run =
    let s = next_runnable_step procs 16 pid q hq hp run (omega arith) in
    (s.0, s.1, s.2, s.3, s.4, nearer pid s.0 q hp s.2 hq s.4)
  where
    nearer :
        (p r x : ℕ)
        → p < 16
        → r < 16
        → x < 16
        → distance p r ≤ distance p x
        → (r ≡ x) ⊎ (distance r x < distance p x)
    nearer p r x hp hr hx h = elim (Bool-cases (r == x)) [
      | inl e ↦ inl (ground arith)
      | inr e ↦ inr (ground arith)
    ]

-- With no runnable process `schedule` finds none, however long it spins.
pub next_runnable-none :
    (procs : ℕ → Proc) (rounds pid : ℕ)
    → ((q : ℕ) → is_runnable (procs q).p_state ≡ false)
    → next_runnable procs rounds pid ≡ none
unfolding next_runnable
next_runnable-none procs zero pid h = refl
next_runnable-none procs (suc rounds) pid h =
    rw (h ((pid + 1) % 16)) (next_runnable-none procs rounds ((pid + 1) % 16) h)
