-- ===== src/Kernel/Fork/Loop.antt =====
-- The loop over application memory by induction on the pages that are left.
use virtual_memory.Base.{
  ℕ, zero, suc, ◌+◌, ◌*◌, ◌/◌, ◌%◌, ◌≤◌, ◌<◌, ◌≡◌, refl, ◌≢◌, inl, inr, true, arith, ap, sym, ◌∙◌,
  ok, Bool-cases,
}
use virtual_memory.Memory.{Memory}
use virtual_memory.Vm.{Tables, Vamapping, virtual_memory_lookup}
use virtual_memory.Vm.Layout.{AreTables}
use virtual_memory.Vm.Isolation.{Separate}
use virtual_memory.Pages.{PageInfos}
use virtual_memory.Kernel.Fork.{fork_page, fork_pages}
use virtual_memory.Kernel.Fork.CopyPage.{same_page, at_offset}
use virtual_memory.Kernel.Fork.FreePages.{free_pages}
use virtual_memory.Kernel.Fork.Rounds.{
  page_start, copies, Ready, IsForked, Round, par_at, present_of,
}
use virtual_memory.Kernel.Fork.Pages.{
  copied_pages, IsMapped, AreSound, AreForked, some_round, sound_rest, later_page, first_page,
}

at_offset-perm : (w : Vamapping) (k : ℕ) → (at_offset w k).perm ≡ w.perm
at_offset-perm w k = ground arith

module _ (t u : Tables) (ts : AreTables t) (us : AreTables u) (sep : Separate u t)
    (par : ℕ → Vamapping) where
  -- A page that is copied is mapped.
  pub copied_present :
      (m : Memory) (pages : PageInfos)
      → Ready t u ts us sep par m pages
      → (pid b : ℕ) → b < 0x400000
      → copies (par (page_start b)) ≡ true
      → (par b).perm % 2 ≡ 1
  copied_present m pages r pid b h copied =
      let v = page_start b in
      let here : par b ≡ at_offset (par v) (b % 4096) =
        par_at t u ts us sep par m pages r pid v (omega arith) (omega arith) b h (ground arith) in
      let perm : (par b).perm ≡ (par v).perm =
        ap (λ (w : Vamapping). w.perm) here ∙ at_offset-perm (par v) (b % 4096) in
      rw perm (present_of t u ts us sep par m pages r pid v (omega arith) (omega arith) copied)

  -- The first page and the pages after it.
  both_parts :
      (m m1 m' : Memory) (pages pages1 pages' : PageInfos) (pid v left : ℕ)
      → v % 4096 ≡ 0
      → v + 4096 * suc left ≤ 0x400000
      → AreSound u par pages v (suc left)
      → Ready t u ts us sep par m pages
      → Round t u ts us sep par m pages v m1 pages1
      → AreForked t u ts us sep par m1 pages1 (v + 4096) left m' pages'
      → AreForked t u ts us sep par m pages v (suc left) m' pages'
  both_parts m m1 m' pages pages1 pages' pid v left hv hend sound r round rest = record {
    ready = rest.ready;
    stays = λ n h used. rest.stays n h (round.stays n h used);
    frame = λ x h used out.
        rest.frame x h (round.stays (x / 4096) h used) out ∙ round.frame x h used out;
    others =
        λ b h out. rest.others b h (omega (arith, out)) ∙ round.others b h (ground (arith, out));
    page = λ b from to. elim (Bool-cases (same_page b v)) [
      | inl same ↦ here b from to same
      | inr apart ↦ later b (ground arith) to
    ];
    apart = λ b c from to less cb cc. elim (Bool-cases (same_page b v)) [
      | inl same ↦ first_apart b c from to less same cb cc
      | inr apart ↦ rest.apart b c (ground arith) (omega arith) less cb cc
    ];
  }
    where
      start_at : (b : ℕ) → same_page b v ≡ true → page_start b ≡ v
      start_at b same = ground arith

      copied_at :
          (b : ℕ)
          → same_page b v ≡ true
          → copies (par (page_start b)) ≡ true
          → copies (par v) ≡ true
      copied_at b same copied = ap (λ a. copies (par a)) (sym (start_at b same)) ∙ copied

      unmoved :
          (b : ℕ)
          → b < 0x400000
          → same_page b v ≡ true
          → virtual_memory_lookup m' u.l1 b ≡ virtual_memory_lookup m1 u.l1 b
      unmoved b h same = rest.others b h (inl (ground (arith, same)))

      unwritten :
          (b : ℕ)
          → b < 0x400000
          → same_page b v ≡ true
          → copies (par (page_start b)) ≡ true
          → m' (virtual_memory_lookup m1 u.l1 b).pa ≡ m1 (virtual_memory_lookup m1 u.l1 b).pa
      unwritten b h same copied =
          let w = virtual_memory_lookup m1 u.l1 b in
          let c = (round.page b h same).0 copied in
          let safe = round.settled b h same (copied_at b same copied) in
          let number : w.pn ≡ w.pa / 4096 = omega (arith, c.1) in
          rest.frame w.pa (omega (arith, number, c.0))
            (λ z. safe.0 (ap (λ n. (pages1 n).refcount) number ∙ z)) safe.1

      here :
          (b : ℕ)
          → v ≤ b
          → b < v + 4096 * suc left
          → same_page b v ≡ true
          → IsForked t u ts us sep par m pages m' b
      here b from to same =
          first_page t u ts us sep par m m1 m' pages b (unmoved b (omega arith) same)
            (unwritten b (omega arith) same) (round.page b (omega arith) same)

      later :
          (b : ℕ) → v + 4096 ≤ b → b < v + 4096 * suc left → IsForked t u ts us sep par m pages m' b
      later b from to =
          later_page t u ts us sep par m m1 m' pages pages1 b round.stays
            (λ copied.
              let mapped : IsMapped par v (suc left) b =
                (omega arith, to, copied_present m pages r pid b (omega arith) copied) in
              let number = sound.number b mapped in
              round.frame (par b).pa (omega (arith, sound.exists b mapped))
                (λ z. sound.in_use b mapped (ap (λ n. (pages n).refcount) number ∙ z))
                (sound.no_table b mapped))
            (rest.page b from (omega arith))

      first_apart :
          (b c : ℕ)
          → v ≤ b
          → c < v + 4096 * suc left
          → b / 4096 < c / 4096
          → same_page b v ≡ true
          → copies (par (page_start b)) ≡ true
          → copies (par (page_start c)) ≡ true
          → (virtual_memory_lookup m' u.l1 b).pn ≢ (virtual_memory_lookup m' u.l1 c).pn
      first_apart b c from to less same cb cc e =
          let other = (rest.page c (ground (arith, same)) (omega arith)).0 cc in
          let safe = round.settled b (omega arith) same (copied_at b same cb) in
          let number = ap (λ (w : Vamapping). w.pn) (sym (unmoved b (omega arith) same)) ∙ e in
          safe.0 (ap (λ n. (pages1 n).refcount) number ∙ other.0.2)

  fork_pages_step :
      (m m1 : Memory) (pages pages1 : PageInfos) (pid v left : ℕ)
      → fork_page m pages t.l1 u.l1 pid v ≡ ok (pages1, m1)
      → fork_pages m pages t.l1 u.l1 pid (suc left) v
        ≡ fork_pages m1 pages1 t.l1 u.l1 pid left (v + 4096)
  unfolding fork_pages
  fork_pages_step m m1 pages pages1 pid v left e = rw e refl

  -- With a free page for every page that is copied, the loop ends.
  pub fork_pages-AreForked :
      (left v : ℕ) (m : Memory) (pages : PageInfos) (pid : ℕ)
      → Ready t u ts us sep par m pages
      → v % 4096 ≡ 0
      → v + 4096 * left ≤ 0x400000
      → AreSound u par pages v left
      → copied_pages par left v ≤ free_pages pages 511 1
      → (m' : Memory) × (pages' : PageInfos) × (fork_pages m pages t.l1 u.l1 pid left v
          ≡ ok (pages', m'))
        × AreForked t u ts us sep par m pages v left m' pages'
  unfolding fork_pages copied_pages
  fork_pages-AreForked zero v m pages pid r hv hend sound enough = (
    m,
    pages,
    refl,
    record {
      ready = r;
      stays = λ n h used. used;
      frame = λ x h used out. refl;
      others = λ b h out. refl;
      page = λ b from to. absurd (omega arith);
      apart = λ b c from to less. absurd (omega arith);
    },
  )
  fork_pages-AreForked (suc left) v m pages pid r hv hend sound enough =
      let (m1, pages1, runs, round) =
        some_round t u ts us sep par m pages r pid v left hv (omega arith) sound enough in
      let (m', pages', more, rest) =
        fork_pages-AreForked left (v + 4096) m1 pages1 pid round.ready (omega arith) (omega arith)
          (sound_rest t u ts us sep par m m1 pages pages1 v left hv hend sound pid r round)
          (omega (arith, round.free_left)) in
      (
        m',
        pages',
        fork_pages_step m m1 pages pages1 pid v left runs ∙ more,
        both_parts m m1 m' pages pages1 pages' pid v left hv hend sound r round rest,
      )
