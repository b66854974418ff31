-- ===== src/Kernel/Fork/Rounds/Copied.antt =====
-- The round of a page that is copied.
use virtual_memory.Base.{
  ℕ, ◌+◌, ◌*◌, ◌%◌, ◌≤◌, ◌<◌, ◌≡◌, refl, ◌≢◌, ◌⊎◌, true, arith, ap, sym, ◌∙◌, ◌==◌, ok, eq→==,
  ne→==,
}
use mathlib.Core.Bool.{true≢false}
use virtual_memory.Memory.{Memory, load64, memcpy}
use virtual_memory.Memory.Copy.{memcpy-IsBytes}
use virtual_memory.Vm.{Tables, Vamapping, virtual_memory_lookup}
use virtual_memory.Vm.Layout.{AreTables, slot}
use virtual_memory.Vm.Slots.{OutsideL4}
use virtual_memory.Vm.Isolation.{Separate, other_Connected}
use virtual_memory.Vm.Spaces.{CanMap, mapped, mapped_outside, virtual_memory_map-Maps, Maps-lookup}
use virtual_memory.Pages.{PageInfos, set_page}
use virtual_memory.Pages.Assign.{IsFree, alloc_page_process_lowest}
use virtual_memory.Pages.SysAlloc.{taken_by}
use virtual_memory.Kernel.Fork.{fork_page}
use virtual_memory.Kernel.Fork.CopyPage.{same_page}
use virtual_memory.Kernel.Fork.FreePages.{free_pages-take}
use virtual_memory.Kernel.Fork.ForkPage.{
  other_lookup, memcpy_outside, memcpy_inside, copied-Connected, copied_lookup, shown-aligned,
}
use virtual_memory.Kernel.Fork.Rounds.{
  copies, InUse-StaysUsed, outside_page, outside_tables, Ready, IsForked, Round, par_at,
  set_page-StaysUsed, shown, small, present_of, start_copies,
}

-- Page tables `t` of the parent and `u` of the child; `par` is what lookups through `t` give.
module _ (t u : Tables) (ts : AreTables t) (us : AreTables u) (sep : Separate u t)
    (par : ℕ → Vamapping) where
  module _ (m : Memory) (pages : PageInfos) (r : Ready t u ts us sep par m pages) (pid v : ℕ)
      (hv : v % 4096 ≡ 0) (hend : v + 4096 ≤ 0x400000) where
    mapped_page :
        (p b perm : ℕ) (old : ℕ → Vamapping)
        → same_page b v ≡ true
        → perm % 2 ≡ 1
        → mapped v (p * 4096) 4096 perm old b
          ≡ record { pn = p; pa = p * 4096 + b % 4096; perm = perm }
    mapped_page p b perm old same h = ground arith

    -- A copied page in the child, from how the lookup and the memory have changed.
    IsForked-copy :
        (m' : Memory) (p b : ℕ)
        → copies (par v) ≡ true
        → IsFree pages p
        → b < 0x400000
        → same_page b v ≡ true
        → virtual_memory_lookup m' u.l1 b
          ≡ record { pn = p; pa = p * 4096 + b % 4096; perm = (par v).perm }
        → ((k : ℕ) → k < 4096 → m' (p * 4096 + k) ≡ m ((par v).pa + k))
        → IsForked t u ts us sep par m pages m' b
    IsForked-copy m' p b copied free h same seen bytes =
        let present : ((par v).perm % 2 == 1) ≡ true =
          eq→== _ 1 ((present_of t u ts us sep par m pages r pid v hv hend) copied) in
        let here : par b ≡ record (par v) { pa = (par v).pa + b % 4096 } =
          (par_at t u ts us sep par m pages r pid v hv hend) b h same ∙ rw present refl in
        rw (seen, here)
          (
            λ is_copy. (free, refl, refl, bytes (b % 4096) (omega arith)),
            λ isnt_copy. absurd (
                true≢false (
                  sym copied
                  ∙ sym ((start_copies t u ts us sep par m pages r pid v hv hend) b same)
                  ∙ isnt_copy)),
          )

    settled_copy :
        (m' : Memory) (p b : ℕ)
        → (pages p).refcount ≡ 0
        → virtual_memory_lookup m' u.l1 b
          ≡ record { pn = p; pa = p * 4096 + b % 4096; perm = (par v).perm }
        → ((set_page pages p (taken_by pid) (virtual_memory_lookup m' u.l1 b).pn).refcount ≢ 0)
          × OutsideL4 u (virtual_memory_lookup m' u.l1 b).pa
    unfolding set_page
    settled_copy m' p b free seen = rw seen (
      rw (eq→== p p refl) (λ z. omega (arith, z)),
      outside_tables pages u p (p * 4096 + b % 4096) us r.child_used free (omega arith),
    )

    set_page-counts :
        (p n : ℕ)
        → (pages p).refcount ≡ 0
        → (pages n).refcount ≢ 0
        → (set_page pages p (taken_by pid) n).refcount ≡ (pages n).refcount
    unfolding set_page
    set_page-counts p n free used =
        let other : n ≢ p = λ e. used (ap (λ x. (pages x).refcount) e ∙ free) in
        rw (ne→== n p other) refl

    -- A page that the parent can write is copied.
    pub copied_round :
        (q : ℕ)
        → copies (par v) ≡ true
        → IsFree pages q
        → (p : ℕ) × (m' : Memory) × IsFree pages p
          × (fork_page m pages t.l1 u.l1 pid v ≡ ok (set_page pages p (taken_by pid), m'))
          × Round t u ts us sep par m pages v m' (set_page pages p (taken_by pid))
    unfolding fork_page
    copied_round q copied free =
        let w = virtual_memory_lookup m t.l1 v in
        let is_par : w ≡ par v = r.shows v (omega arith) in
        let aligned : (par v).pa % 4096 ≡ 0 = rw (shown t u ts us sep par m pages r pid v hv hend) (
          shown-aligned v (load64 m (slot t v)) hv (
            rw (shown t u ts us sep par m pages r pid v hv hend) at
              ((present_of t u ts us sep par m pages r pid v hv hend) copied))) in
        let (p, p_free, p_first, takes) = alloc_page_process_lowest pages pid q free in
        let src = (par v).pa in
        let apart : (p * 4096 ≤ src) ⊎ (src + 4096 ≤ p * 4096) = ground arith in
        let m1 = memcpy m (p * 4096) src 4096 in
        let bytes1 = memcpy-IsBytes m (p * 4096) src 4096 r.bytes in
        let cu1 = copied-Connected m pages u us r.child_used r.child r.bytes p src p_free.2 apart in
        let ct1 =
          copied-Connected m pages t ts r.parent_used r.parent r.bytes p src p_free.2 apart in
        let can : CanMap v (p * 4096) 4096 (par v).perm =
          omega (arith, p_free, (small t u ts us sep par m pages r pid v hv hend)) in
        let (m', maps, result) =
          virtual_memory_map-Maps u us m1 cu1 v (p * 4096) 4096 (par v).perm can in
        let pages' = set_page pages p (taken_by pid) in
        (
          p,
          m',
          p_free,
          rw (is_par, copied, takes) (rw maps refl),
          record {
            ready = record {
              parent = other_Connected u us m1 m' result.outside t ts sep ct1;
              child = result.conn;
              bytes = result.bytes bytes1;
              parent_used =
                  InUse-StaysUsed pages pages' t ts
                    ((set_page-StaysUsed t u ts us sep par m pages r pid v hv hend) p)
                    r.parent_used;
              child_used =
                  InUse-StaysUsed pages pages' u us
                    ((set_page-StaysUsed t u ts us sep par m pages r pid v hv hend) p) r.child_used;
              shows = λ b h.
                  other_lookup u t us ts sep m1 m' result.outside ct1 bytes1 (result.bytes bytes1) b
                    h
                  ∙ copied_lookup m pages t ts r.parent_used r.parent r.bytes p src p_free.2 apart b
                      h
                  ∙ r.shows b h;
            };
            stays = (set_page-StaysUsed t u ts us sep par m pages r pid v hv hend) p;
            frame = λ x h used out.
                result.outside x out
                ∙ memcpy_outside m (p * 4096) src x apart (outside_page pages p x p_free.2 used);
            others = λ b h apart'.
                Maps-lookup u us m1 cu1 bytes1 v (p * 4096) 4096 (par v).perm m' can result b h
                ∙ sym (
                    mapped_outside v (p * 4096) 4096 (par v).perm b (virtual_memory_lookup m1 u.l1)
                      (ground arith))
                ∙ copied_lookup m pages u us r.child_used r.child r.bytes p src p_free.2 apart b h;
            page = λ b h same.
                IsForked-copy m' p b copied p_free h same
                  (Maps-lookup u us m1 cu1 bytes1 v (p * 4096) 4096 (par v).perm m' can result b h
                    ∙ mapped_page p b (par v).perm (virtual_memory_lookup m1 u.l1) same
                        ((present_of t u ts us sep par m pages r pid v hv hend) copied))
                  λ k hk.
                    result.outside (p * 4096 + k) (
                      outside_tables pages u p (p * 4096 + k) us r.child_used p_free.2
                        (omega arith))
                    ∙ memcpy_inside m (p * 4096) src k r.bytes apart hk;
            settled = λ b h same _. settled_copy m' p b p_free.2 (
                Maps-lookup u us m1 cu1 bytes1 v (p * 4096) 4096 (par v).perm m' can result b h
                ∙ mapped_page p b (par v).perm (virtual_memory_lookup m1 u.l1) same
                    ((present_of t u ts us sep par m pages r pid v hv hend) copied));
            counts = λ n h used _. set_page-counts p n p_free.2 used;
            free_left = rw copied (omega (arith, free_pages-take pages (taken_by pid) p 511 1));
          },
        )
