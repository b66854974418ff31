-- ===== src/Kernel/Exceptions/Isolation/Frame.antt =====
-- A process that a trap does not concern, and what keeps its descriptor.
use virtual_memory.Base.{
  ℕ, ◌≡◌, ◌≢◌, true, false, Bool, Outcome, ok, panicked, ◌>>=◌, if◌then◌else◌, arith, ne→==, ◌∙◌,
}
use virtual_memory.Process.{Proc, is_free}
use virtual_memory.Kernel.{Kernel, set_proc, Resume}
use virtual_memory.Kernel.Exceptions.{Handled, Ending}

-- What holds of the result, if there is one.
abbrev pub Holds : {A : Type 0} → (A → Type 0) → Outcome A → Type 0
Holds P (ok a) = P a
Holds P panicked = Unit

pub Holds-bind :
    {A B : Type 0} (P : A → Type 0) (Q : B → Type 0) (m : Outcome A) (f : A → Outcome B)
    → Holds P m
    → ((a : A) → P a → Holds Q (f a))
    → Holds Q (m >>= f)
Holds-bind P Q (ok a) f h g = g a h
Holds-bind P Q panicked f h g = tt

-- Whatever a computation gives, if what follows does not depend on it.
pub Holds-any : {A : Type 0} (m : Outcome A) → Holds (λ a. Unit {0}) m
Holds-any (ok a) = tt
Holds-any panicked = tt

pub true≢false : true ≢ false
true≢false e = ground (arith, e)

-- A process that is not the current one, with its descriptor, which is in use.
pub record Bystander : Type 0 where
  pub pid : ℕ
  pub running : ℕ
  pub descriptor : Proc
  pub other : pid ≢ running
  pub used : is_free descriptor.p_state ≡ false

-- The current process is still the same, and so is the descriptor.
abbrev pub Kept : Bystander → Kernel → Type 0
Kept w k = (k.current ≡ w.running) × (k.processes w.pid ≡ w.descriptor)

-- The descriptors that `exception` leaves.
abbrev pub processes_of : Ending → ℕ → Proc
processes_of (Ending.resumes (Resume.runs k)) = k.processes
processes_of (Ending.resumes (Resume.spins k)) = k.processes
processes_of (Ending.returns_to_caller k) = k.processes
processes_of (Ending.restarts argument k) = k.processes
processes_of (Ending.turns_off k) = k.processes

abbrev pub kernel_of : Handled → Kernel
kernel_of (Handled.breaks k) = k
kernel_of (Handled.schedules k) = k
kernel_of (Handled.returns k) = k

pub Holds-if :
    {A : Type 0} (P : A → Type 0) (b : Bool) (x y : Outcome A)
    → Holds P x
    → Holds P y
    → Holds P (if b then x else y)
Holds-if P true x y h g = h
Holds-if P false x y h g = g

pub if-Kept :
    (w : Bystander) (b : Bool) (x y : Kernel) → Kept w x → Kept w y → Kept w (if b then x else y)
if-Kept w true x y h g = h
if-Kept w false x y h g = g

module _ (w : Bystander) where
  pub set_current_keeps :
      (k : Kernel) (q : Proc) → Kept w k → set_proc k.processes k.current q w.pid ≡ w.descriptor
  unfolding set_proc
  set_current_keeps k q kept = rw (ne→== w.pid k.current (λ e. w.other (e ∙ kept.0))) kept.1

  -- A change of a descriptor other than that of `pid`.
  pub set_other_keeps :
      (k : Kernel) (n : ℕ) (q : Proc)
      → w.pid ≢ n
      → Kept w k
      → Kept w (record k { processes = set_proc k.processes n q })
  unfolding set_proc
  set_other_keeps k n q ne kept = (kept.0, rw (ne→== w.pid n ne) kept.1)

  -- A change of the current process's descriptor.
  pub update_keeps :
      (k : Kernel) (q : Proc)
      → Kept w k
      → Kept w (record k { processes = set_proc k.processes k.current q })
  update_keeps k q kept = (kept.0, set_current_keeps k q kept)
