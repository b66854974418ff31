-- ===== src/Kernel/Fork/Rounds.antt =====
-- One round of fork's loop over application memory, with all that the rounds after it rely on.
use virtual_memory.Base.{
  ℕ, ◌+◌, ◌-◌, ◌*◌, ◌/◌, ◌%◌, ◌≤◌, ◌<◌, ◌≡◌, refl, ◌≢◌, ◌⊎◌, inl, inr, Bool, true, false, not, ◌&&◌,
  leb, ltb, arith, ap, sym, ◌∙◌, ◌==◌, if◌then◌else◌, ok, eq→==, ne→==, ==→eq, ==→ne, Bool-cases,
}
pub mod Copied
pub mod Shared
use mathlib.Core.Bool.{true≢false, false≢true}
use virtual_memory.Memory.{Memory, load64, memcpy}
use virtual_memory.Memory.Words.{IsBytes}
use virtual_memory.Memory.Copy.{memcpy-IsBytes}
use virtual_memory.Paging.{has, pte_w, console_addr}
use virtual_memory.Paging.Flags.{has_w}
use virtual_memory.Vm.{Tables, Vamapping, unmapped, virtual_memory_lookup, minus_one}
use virtual_memory.Vm.Layout.{AreTables, Connected, slot, mapping_of, lookup-Connected}
use virtual_memory.Vm.Slots.{OutsideL4}
use virtual_memory.Vm.Isolation.{Separate, other_Connected}
use virtual_memory.Vm.Spaces.{CanMap, mapped, mapped_outside, virtual_memory_map-Maps, Maps-lookup}
use virtual_memory.Pages.{PageInfos, set_page}
use virtual_memory.Pages.Assign.{IsFree, alloc_page_process_lowest}
use virtual_memory.Pages.SysAlloc.{taken_by}
use virtual_memory.Kernel.Fork.{increment, fork_page}
use virtual_memory.Kernel.Fork.CopyPage.{copy_page, same_page, at_offset, lookup-at_offset}
use virtual_memory.Kernel.Fork.Copying.{InUse, used_apart}
use virtual_memory.Kernel.Fork.FreePages.{free_pages, free_pages_keeps, free_pages-take}
use virtual_memory.Kernel.Fork.ForkPage.{
  other_lookup, tables_apart, memcpy_outside, memcpy_inside, copied-Connected, copied_lookup,
  shown-perm, shown-aligned, is_copied, is_shared,
}

-- The start of the page of `b`.
abbrev pub page_start : ℕ → ℕ
page_start b = b / 4096 * 4096

-- The test of the loop: the page is copied, not shared.
abbrev pub copies : Vamapping → Bool
copies w = not (w.pa == console_addr) && has w.perm pte_w

-- The entry of a page that was in use stays in use.
abbrev pub StaysUsed : (pages pages' : PageInfos) → Type 0
StaysUsed pages pages' = (n : ℕ) → n < 512 → (pages n).refcount ≢ 0 → (pages' n).refcount ≢ 0

pub InUse-StaysUsed :
    (pages pages' : PageInfos) (t : Tables)
    → AreTables t
    → StaysUsed pages pages'
    → InUse pages t
    → InUse pages' t
InUse-StaysUsed pages pages' t ts stays used = record {
  l1_used = stays (t.l1 / 4096) (omega (arith, ts)) used.l1_used;
  l2_used = stays (t.l2 / 4096) (omega (arith, ts)) used.l2_used;
  l3_used = stays (t.l3 / 4096) (omega (arith, ts)) used.l3_used;
  l4_1_used = stays (t.l4_1 / 4096) (omega (arith, ts)) used.l4_1_used;
  l4_2_used = stays (t.l4_2 / 4096) (omega (arith, ts)) used.l4_2_used;
}

pub outside_page :
    (pages : PageInfos) (p x : ℕ)
    → (pages p).refcount ≡ 0
    → (pages (x / 4096)).refcount ≢ 0
    → (x < p * 4096) ⊎ (p * 4096 + 4096 ≤ x)
outside_page pages p x free used =
    let other : x / 4096 ≢ p = λ e. used (ap (λ n. (pages n).refcount) e ∙ free) in
    omega (arith, other)

-- A byte of a free page is in no table in use.
pub outside_tables :
    (pages : PageInfos) (u : Tables) (p x : ℕ)
    → AreTables u
    → InUse pages u
    → (pages p).refcount ≡ 0
    → x / 4096 ≡ p
    → OutsideL4 u x
outside_tables pages u p x us used free inside =
    let n4 = used_apart pages u.l4_1 p free used.l4_1_used in
    let n5 = used_apart pages u.l4_2 p free used.l4_2_used in omega (arith, us)

-- Page tables `t` of the parent and `u` of the child; `par` is what lookups through `t` give.
module _ (t u : Tables) (ts : AreTables t) (us : AreTables u) (sep : Separate u t)
    (par : ℕ → Vamapping) where
  pub record Ready (m : Memory) (pages : PageInfos) : Type 0 where
    pub parent : Connected m t
    pub child : Connected m u
    pub bytes : IsBytes m
    pub parent_used : InUse pages t
    pub child_used : InUse pages u
    pub shows : (b : ℕ) → b < 0x400000 → virtual_memory_lookup m t.l1 b ≡ par b

  -- The child's view of the byte at `b`: a copy on a page that was free, or the parent's mapping.
  abbrev pub IsForked : (m : Memory) (pages : PageInfos) (m' : Memory) (b : ℕ) → Type 0
  IsForked m pages m' b =
      (copies (par (page_start b)) ≡ true
        → (IsFree pages (virtual_memory_lookup m' u.l1 b).pn)
          × ((virtual_memory_lookup m' u.l1 b).pa
              ≡ (virtual_memory_lookup m' u.l1 b).pn * 4096 + b % 4096)
          × ((virtual_memory_lookup m' u.l1 b).perm ≡ (par b).perm)
          × (m' (virtual_memory_lookup m' u.l1 b).pa ≡ m (par b).pa))
      × (copies (par (page_start b)) ≡ false → virtual_memory_lookup m' u.l1 b ≡ par b)

  pub record Round (m : Memory) (pages : PageInfos) (v : ℕ) (m' : Memory) (pages' : PageInfos)
      : Type 0 where
    pub ready : Ready m' pages'
    pub stays : StaysUsed pages pages'
    pub frame :
        (x : ℕ) → x / 4096 < 512 → (pages (x / 4096)).refcount ≢ 0 → OutsideL4 u x → m' x ≡ m x
    pub others :
        (b : ℕ)
        → b < 0x400000
        → same_page b v ≡ false
        → virtual_memory_lookup m' u.l1 b ≡ virtual_memory_lookup m u.l1 b
    pub page : (b : ℕ) → b < 0x400000 → same_page b v ≡ true → IsForked m pages m' b
    pub settled :
        (b : ℕ)
        → b < 0x400000
        → same_page b v ≡ true
        → copies (par v) ≡ true
        → ((pages' (virtual_memory_lookup m' u.l1 b).pn).refcount ≢ 0)
          × OutsideL4 u (virtual_memory_lookup m' u.l1 b).pa
    pub counts :
        (n : ℕ)
        → n < 512
        → (pages n).refcount ≢ 0
        → (copies (par v) ≡ true) ⊎ ((par v).pn ≢ n)
        → (pages' n).refcount ≡ (pages n).refcount
    pub free_left :
        free_pages pages 511 1 ≤ free_pages pages' 511 1 + (if copies (par v) then 1 else 0)

  module _ (m : Memory) (pages : PageInfos) (r : Ready m pages) (pid v : ℕ) (hv : v % 4096 ≡ 0)
      (hend : v + 4096 ≤ 0x400000) where
    -- The parent's mapping at an offset of the page.
    pub par_at :
        (b : ℕ) → b < 0x400000 → same_page b v ≡ true → par b ≡ at_offset (par v) (b % 4096)
    par_at b h same =
        let start : page_start b ≡ v = ground arith in
        sym (r.shows b h)
        ∙ lookup-at_offset t m b ts r.parent r.bytes h
        ∙ ap (λ a. at_offset (virtual_memory_lookup m t.l1 a) (b % 4096)) start
        ∙ ap (λ w. at_offset w (b % 4096)) (r.shows v (omega arith))

    pub set_page-StaysUsed : (p : ℕ) → StaysUsed pages (set_page pages p (taken_by pid))
    unfolding set_page
    set_page-StaysUsed p n h used = ground (arith, used)

    pub shown : par v ≡ mapping_of v (load64 m (slot t v))
    shown = sym (r.shows v (omega arith)) ∙ lookup-Connected m t ts r.parent r.bytes v (omega arith)

    pub small : (par v).perm < 0x1000
    small = rw shown (shown-perm v (load64 m (slot t v)))

    pub present_of : copies (par v) ≡ true → (par v).perm % 2 ≡ 1
    present_of c = present_if v (load64 m (slot t v)) (par v) shown c
      where
        present_if :
            (a e : ℕ) (w : Vamapping) → w ≡ mapping_of a e → copies w ≡ true → w.perm % 2 ≡ 1
        present_if a e w is c' = ground (arith, is, has_w w.perm, c')

    pub start_copies : (b : ℕ) → same_page b v ≡ true → copies (par (page_start b)) ≡ copies (par v)
    start_copies b same = ap (λ a. copies (par a)) (ground arith)
