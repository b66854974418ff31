-- ===== src/Kernel/Fork/Pages.antt =====
-- Fork's loop over application memory as a whole.
use virtual_memory.Base.{
  ℕ, zero, suc, ◌+◌, ◌*◌, ◌/◌, ◌%◌, ◌≤◌, ◌<◌, ◌≡◌, ◌≢◌, ◌⊎◌, inl, inr, true, false, arith, ◌∙◌,
  ◌==◌, if◌then◌else◌, ok, ==→eq, ==→ne, Bool-cases,
}
use virtual_memory.Memory.{Memory}
use virtual_memory.Vm.{Tables, Vamapping, virtual_memory_lookup}
use virtual_memory.Vm.Layout.{AreTables}
use virtual_memory.Vm.Slots.{OutsideL4}
use virtual_memory.Vm.Isolation.{Separate}
use virtual_memory.Pages.{PageInfos}
use virtual_memory.Pages.Assign.{IsFree}
use virtual_memory.Kernel.Fork.{fork_page}
use virtual_memory.Kernel.Fork.FreePages.{free_pages, find_some}
use virtual_memory.Kernel.Fork.Rounds.{page_start, copies, StaysUsed, Ready, IsForked, Round}
use virtual_memory.Kernel.Fork.Rounds.Copied.{copied_round}
use virtual_memory.Kernel.Fork.Rounds.Shared.{shared_round, no_number}

-- How many of `left` pages from `v` on are copied.
unfoldable pub copied_pages : (par : ℕ → Vamapping) (left v : ℕ) → ℕ
copied_pages par zero v = 0
copied_pages par (suc left) v = (if copies (par v) then 1 else 0) + copied_pages par left (v + 4096)

-- An address in the range that the parent has mapped.
abbrev pub IsMapped : (par : ℕ → Vamapping) (v left b : ℕ) → Type 0
IsMapped par v left b = (v ≤ b) × (b < v + 4096 * left) × ((par b).perm % 2 ≡ 1)

-- The start of a page that is mapped and not copied.
abbrev pub IsShared : (par : ℕ → Vamapping) (v left b : ℕ) → Type 0
IsShared par v left b = IsMapped par v left b × (b % 4096 ≡ 0) × (copies (par b) ≡ false)

-- What fork expects of the parent's mappings: they lead to existing pages in use that are no
-- last-level tables of the child, and the pages that will be shared are mapped once, with at most
-- 254 references.
pub record AreSound (u : Tables) (par : ℕ → Vamapping) (pages : PageInfos) (v left : ℕ)
    : Type 0 where
  pub exists : (b : ℕ) → IsMapped par v left b → (par b).pa < 0x200000
  pub number : (b : ℕ) → IsMapped par v left b → (par b).pn ≡ (par b).pa / 4096
  pub in_use : (b : ℕ) → IsMapped par v left b → (pages (par b).pn).refcount ≢ 0
  pub no_table : (b : ℕ) → IsMapped par v left b → OutsideL4 u (par b).pa
  pub few : (b : ℕ) → IsShared par v left b → (pages (par b).pn).refcount < 255
  pub once :
      (b c : ℕ) → IsShared par v left b → IsShared par v left c → b < c → (par b).pn ≢ (par c).pn

module _ (t u : Tables) (ts : AreTables t) (us : AreTables u) (sep : Separate u t)
    (par : ℕ → Vamapping) where
  -- One round, whichever it is.
  pub some_round :
      (m : Memory) (pages : PageInfos)
      → Ready t u ts us sep par m pages
      → (pid v left : ℕ) → v % 4096 ≡ 0
      → v + 4096 ≤ 0x400000
      → AreSound u par pages v (suc left)
      → copied_pages par (suc left) v ≤ free_pages pages 511 1
      → (m' : Memory) × (pages' : PageInfos) × (fork_page m pages t.l1 u.l1 pid v ≡ ok (pages', m'))
        × Round t u ts us sep par m pages v m' pages'
  unfolding copied_pages
  some_round m pages r pid v left hv hend sound enough = elim (Bool-cases (copies (par v))) [
    | inl copied ↦
        let (q, from, to, free) = find_some pages 511 1 (ground (arith, enough)) in
        let (p, m', _, runs, round) =
          copied_round t u ts us sep par m pages r pid v hv hend q copied
            (omega arith, omega arith, free) in
        (m', _, runs, round)
    | inr shared ↦
        let (m', runs, round) =
          shared_round t u ts us sep par m pages r pid v hv hend shared
            (λ h. sound.exists v (omega arith, omega arith, h))
            (λ h. (
              sound.in_use v (omega arith, omega arith, h),
              sound.few v ((omega arith, omega arith, h), hv, shared),
            )) in
        (m', _, runs, round)
  ]

  -- What the loop leaves, given what it started with.
  pub record AreForked (m : Memory) (pages : PageInfos) (v left : ℕ) (m' : Memory)
      (pages' : PageInfos) : Type 0 where
    pub ready : Ready t u ts us sep par m' pages'
    pub stays : StaysUsed pages pages'
    pub frame :
        (x : ℕ) → x / 4096 < 512 → (pages (x / 4096)).refcount ≢ 0 → OutsideL4 u x → m' x ≡ m x
    pub others :
        (b : ℕ)
        → b < 0x400000
        → (b < v) ⊎ (v + 4096 * left ≤ b)
        → virtual_memory_lookup m' u.l1 b ≡ virtual_memory_lookup m u.l1 b
    pub page : (b : ℕ) → v ≤ b → b < v + 4096 * left → IsForked t u ts us sep par m pages m' b
    pub apart :
        (b c : ℕ)
        → v ≤ b
        → c < v + 4096 * left
        → b / 4096 < c / 4096
        → copies (par (page_start b)) ≡ true
        → copies (par (page_start c)) ≡ true
        → (virtual_memory_lookup m' u.l1 b).pn ≢ (virtual_memory_lookup m' u.l1 c).pn

  -- The pages that are left keep what fork expects of them.
  pub sound_rest :
      (m m1 : Memory) (pages pages1 : PageInfos) (v left : ℕ)
      → v % 4096 ≡ 0
      → v + 4096 * suc left ≤ 0x400000
      → AreSound u par pages v (suc left)
      → (pid : ℕ) → Ready t u ts us sep par m pages
      → Round t u ts us sep par m pages v m1 pages1
      → AreSound u par pages1 (v + 4096) left
  sound_rest m m1 pages pages1 v left hv hend sound pid r round = record {
    exists = λ b h. sound.exists b (wider b h);
    number = λ b h. sound.number b (wider b h);
    in_use = λ b h. round.stays (par b).pn (below b h) (sound.in_use b (wider b h));
    no_table = λ b h. sound.no_table b (wider b h);
    few = λ b h.
        rw (round.counts (par b).pn (below b h.0) (sound.in_use b (wider b h.0)) (different b h))
          (sound.few b (wider b h.0, h.1, h.2));
    once = λ b c hb hc. sound.once b c (wider b hb.0, hb.1, hb.2) (wider c hc.0, hc.1, hc.2);
  }
    where
      wider : (b : ℕ) → IsMapped par (v + 4096) left b → IsMapped par v (suc left) b
      wider b h = (omega (arith, h.0), omega (arith, h.1), h.2)

      below : (b : ℕ) → IsMapped par (v + 4096) left b → (par b).pn < 512
      below b h = omega (arith, sound.number b (wider b h), sound.exists b (wider b h))

      different :
          (b : ℕ)
          → IsShared par (v + 4096) left b
          → (copies (par v) ≡ true) ⊎ ((par v).pn ≢ (par b).pn)
      different b h = elim (Bool-cases (copies (par v))) [
        | inl copied ↦ inl copied
        | inr shared ↦ elim (Bool-cases ((par v).perm % 2 == 1)) [
          | inl is ↦ inr (
              sound.once v b ((omega arith, omega arith, ==→eq ((par v).perm % 2) 1 is), hv, shared)
                (wider b h.0, h.1, h.2) (omega (arith, h.0)))
          | inr isnt ↦
              let none =
                no_number t u ts us sep par m pages r pid v hv (omega arith)
                  (omega (arith, ==→ne ((par v).perm % 2) 1 isnt)) in
              inr (omega (arith, none, below b h.0))
        ]
      ]

  -- A free page of the later array was free before.
  StaysUsed-IsFree :
      (pages pages1 : PageInfos)
      → StaysUsed pages pages1
      → (n : ℕ) → IsFree pages1 n
      → IsFree pages n
  StaysUsed-IsFree pages pages1 stays n free = elim (Bool-cases ((pages n).refcount == 0)) [
    | inl is ↦ (free.0, free.1, ==→eq (pages n).refcount 0 is)
    | inr isnt ↦ absurd (stays n free.1 (==→ne (pages n).refcount 0 isnt) free.2)
  ]

  -- A later page, described from before the round.
  pub later_page :
      (m m1 m' : Memory) (pages pages1 : PageInfos) (b : ℕ)
      → StaysUsed pages pages1
      → (copies (par (page_start b)) ≡ true → m1 (par b).pa ≡ m (par b).pa)
      → IsForked t u ts us sep par m1 pages1 m' b
      → IsForked t u ts us sep par m pages m' b
  later_page m m1 m' pages pages1 b stays same f = (
    λ copied.
        let c = f.0 copied in
        (
          StaysUsed-IsFree pages pages1 stays (virtual_memory_lookup m' u.l1 b).pn c.0,
          c.1,
          c.2,
          c.3 ∙ same copied,
        ),
    f.1,
  )

  -- The page of the round, described in the memory that the later rounds leave.
  pub first_page :
      (m m1 m' : Memory) (pages : PageInfos) (b : ℕ)
      → virtual_memory_lookup m' u.l1 b ≡ virtual_memory_lookup m1 u.l1 b
      → (copies (par (page_start b)) ≡ true
          → m' (virtual_memory_lookup m1 u.l1 b).pa ≡ m1 (virtual_memory_lookup m1 u.l1 b).pa)
      → IsForked t u ts us sep par m pages m1 b
      → IsForked t u ts us sep par m pages m' b
  first_page m m1 m' pages b same kept f =
      rw same (λ copied. let c = f.0 copied in (c.0, c.1, c.2, kept copied ∙ c.3), f.1)
