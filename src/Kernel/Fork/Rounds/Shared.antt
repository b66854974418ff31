-- ===== src/Kernel/Fork/Rounds/Shared.antt =====
-- The round of a page that is shared.
use virtual_memory.Base.{
  ℕ, ◌+◌, ◌%◌, ◌≤◌, ◌<◌, ◌≡◌, refl, ◌≢◌, ◌⊎◌, inl, inr, true, false, arith, ap, sym, ◌∙◌, ◌==◌, ok,
  ne→==, ==→eq, ==→ne, Bool-cases,
}
use mathlib.Core.Bool.{true≢false}
use virtual_memory.Memory.{Memory, load64}
use virtual_memory.Vm.{Tables, Vamapping, virtual_memory_lookup, minus_one}
use virtual_memory.Vm.Layout.{AreTables, slot, mapping_of}
use virtual_memory.Vm.Isolation.{Separate, other_Connected}
use virtual_memory.Pages.{PageInfos, set_page}
use virtual_memory.Kernel.Fork.{increment, fork_page}
use virtual_memory.Kernel.Fork.CopyPage.{copy_page}
use virtual_memory.Kernel.Fork.FreePages.{free_pages, free_pages_keeps}
use virtual_memory.Kernel.Fork.ForkPage.{other_lookup}
use virtual_memory.Kernel.Fork.Rounds.{
  copies, StaysUsed, InUse-StaysUsed, Ready, Round, shown, start_copies,
}

-- Page tables `t` of the parent and `u` of the child; `par` is what lookups through `t` give.
module _ (t u : Tables) (ts : AreTables t) (us : AreTables u) (sep : Separate u t)
    (par : ℕ → Vamapping) where
  module _ (m : Memory) (pages : PageInfos) (r : Ready t u ts us sep par m pages) (pid v : ℕ)
      (hv : v % 4096 ≡ 0) (hend : v + 4096 ≤ 0x400000) where
    -- A mapping that is not there has the page number -1.
    pub no_number : (par v).perm % 2 ≡ 0 → (par v).pn ≡ minus_one
    no_number h =
        number_of v (load64 m (slot t v)) (par v) (shown t u ts us sep par m pages r pid v hv hend)
          h
      where
        number_of :
            (a e : ℕ) (w : Vamapping) → w ≡ mapping_of a e → w.perm % 2 ≡ 0 → w.pn ≡ minus_one
        number_of a e w is h' = ground (arith, is, h')

    increment-StaysUsed :
        (pn : ℕ) → (pn < 512 → (pages pn).refcount < 255) → StaysUsed pages (increment pages pn)
    unfolding increment set_page
    increment-StaysUsed pn below n h used = ground (arith, used, below)

    increment-counts : (pn n : ℕ) → pn ≢ n → (increment pages pn n).refcount ≡ (pages n).refcount
    unfolding increment set_page
    increment-counts pn n other = rw (ne→== n pn (λ e. other (sym e))) refl

    -- The references of the page that is shared.
    abbrev pub Counted : ℕ → Type 0
    Counted n = ((pages n).refcount ≢ 0) × ((pages n).refcount < 255)

    few_references :
        ((par v).perm % 2 ≡ 1 → Counted (par v).pn) → (par v).pn < 512 → Counted (par v).pn
    few_references below h = elim (Bool-cases ((par v).perm % 2 == 1)) [
      | inl is ↦ below (==→eq ((par v).perm % 2) 1 is)
      | inr isnt ↦
          absurd (omega (arith, no_number (omega (arith, ==→ne ((par v).perm % 2) 1 isnt))))
    ]

    increment-free :
        (pn : ℕ)
        → (pn < 512 → Counted pn)
        → free_pages pages 511 1 ≤ free_pages (increment pages pn) 511 1
    increment-free pn counted = free_pages_keeps pages (increment pages pn) 511 1 λ n h free.
        increment-counts pn n
          (λ e. (counted (omega (arith, e))).0 (ap (λ x. (pages x).refcount) e ∙ free))
        ∙ free

    pn_other :
        copies (par v) ≡ false
        → (n : ℕ) → (copies (par v) ≡ true) ⊎ ((par v).pn ≢ n)
        → (par v).pn ≢ n
    pn_other shared n (inl is_copy) = absurd (true≢false (sym is_copy ∙ shared))
    pn_other shared n (inr other) = other

    -- Any other page is shared.
    pub shared_round :
        copies (par v) ≡ false
        → ((par v).perm % 2 ≡ 1 → (par v).pa < 0x200000)
        → ((par v).perm % 2 ≡ 1 → Counted (par v).pn)
        → (m' : Memory) × (fork_page m pages t.l1 u.l1 pid v ≡ ok (increment pages (par v).pn, m'))
          × Round t u ts us sep par m pages v m' (increment pages (par v).pn)
    unfolding fork_page
    shared_round shared exists below =
        let w = virtual_memory_lookup m t.l1 v in
        let is_par : w ≡ par v = r.shows v (omega arith) in
        let (m', maps, result, seen) =
          copy_page t u ts us sep m r.parent r.child r.bytes v hv hend (rw is_par exists) in
        let pages' = increment pages (par v).pn in
        let stays = increment-StaysUsed (par v).pn (λ h. (few_references below h).1) in
        (
          m',
          rw (is_par, shared) (rw (rw is_par at maps) refl),
          record {
            ready = record {
              parent = other_Connected u us m m' result.outside t ts sep r.parent;
              child = result.conn;
              bytes = result.bytes r.bytes;
              parent_used = InUse-StaysUsed pages pages' t ts stays r.parent_used;
              child_used = InUse-StaysUsed pages pages' u us stays r.child_used;
              shows = λ b h.
                  other_lookup u t us ts sep m m' result.outside r.parent r.bytes
                    (result.bytes r.bytes) b h
                  ∙ r.shows b h;
            };
            stays = stays;
            frame = λ x h used out. result.outside x out;
            others = λ b h other. seen b h ∙ rw other refl;
            page = λ b h same. (
              λ is_copy. absurd (
                  true≢false (
                    sym is_copy
                    ∙ (start_copies t u ts us sep par m pages r pid v hv hend) b same
                    ∙ shared)),
              λ isnt_copy. seen b h ∙ rw same (r.shows b h),
            );
            settled = λ b h same is_copy. absurd (true≢false (sym is_copy ∙ shared));
            counts = λ n h used other. increment-counts (par v).pn n (pn_other shared n other);
            free_left = rw shared (omega (arith, increment-free (par v).pn (few_references below)));
          },
        )
