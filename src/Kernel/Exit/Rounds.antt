-- ===== src/Kernel/Exit/Rounds.antt =====
-- The rounds of exit's loop over application memory.
use virtual_memory.Base.{
  ℕ, zero, suc, ◌+◌, ◌*◌, ◌%◌, ◌≤◌, ◌<◌, ◌≡◌, refl, ◌≢◌, ◌⊎◌, inl, inr, Bool, true, false, not,
  ◌&&◌, arith, ap, sym, ◌∙◌, ◌==◌, if◌then◌else◌, Bool-cases, eq→==, ne→==, ==→eq, ==→ne,
}
use virtual_memory.Memory.{Memory}
use virtual_memory.Paging.{has, pte_w, pagenumber}
use virtual_memory.Vm.{Tables, Vamapping, virtual_memory_lookup}
use virtual_memory.Pages.{PageInfo, PageInfos, set_page}
use virtual_memory.Kernel.Exit.{free_page, is_positive, drop_reference, release, release_loop}

-- One of the five pages of the page table, by its number.
abbrev pub IsTable : Tables → ℕ → Type 0
IsTable t p =
    (p ≡ pagenumber t.l1)
    ⊎ (p ≡ pagenumber t.l2)
    ⊎ (p ≡ pagenumber t.l3)
    ⊎ (p ≡ pagenumber t.l4_1)
    ⊎ (p ≡ pagenumber t.l4_2)

-- The two tests of the loop's body.
abbrev drops : PageInfos → Vamapping → Bool
drops pages w = not (has w.perm pte_w) && is_positive w.pn && not ((pages w.pn).refcount == 0)

abbrev frees : PageInfos → Tables → ℕ → Vamapping → Bool
frees pages t pid w =
    is_positive w.pn
    && has w.perm pte_w
    && ((pages w.pn).owner == pid)
    && not ((pages w.pn).refcount == 0)
    && not (w.pn == pagenumber t.l1)
    && not (w.pn == pagenumber t.l2)
    && not (w.pn == pagenumber t.l3)
    && not (w.pn == pagenumber t.l4_1)
    && not (w.pn == pagenumber t.l4_2)

pub release_lem :
    (pages : PageInfos) (t : Tables) (pid : ℕ) (w : Vamapping) (p : ℕ)
    → release pages t pid w p ≡ (
        if p == w.pn
        then if drops pages w
          then drop_reference (pages w.pn)
          else if frees pages t pid w
          then free_page
          else pages p
        else pages p)
unfolding release set_page
release_lem pages t pid w p = cases (drops pages w) (frees pages t pid w)
  where
    same : (c : Bool) (x : PageInfo) → x ≡ (if c then x else x)
    same true x = refl
    same false x = refl

    cases :
        (a b : Bool)
        → (if a
              then set_page pages w.pn (drop_reference (pages w.pn))
              else if b
              then set_page pages w.pn free_page
              else pages)
            p
          ≡ (if p == w.pn
              then if a then drop_reference (pages w.pn) else if b then free_page else pages p
              else pages p)
    cases true b = refl
    cases false true = refl
    cases false false = same (p == w.pn) (pages p)

neither :
    (c a b : Bool) (x y z : PageInfo)
    → (c ≡ true → (a ≡ false) × (b ≡ false))
    → (if c then if a then x else if b then y else z else z) ≡ z
neither true a b x y z h = rw ((h refl).0, (h refl).1) refl
neither false a b x y z h = refl

-- A page without references stays as it is.
release_zero :
    (pages : PageInfos) (t : Tables) (pid : ℕ) (w : Vamapping) (p : ℕ)
    → (pages p).refcount ≡ 0
    → release pages t pid w p ≡ pages p
release_zero pages t pid w p h =
    release_lem pages t pid w p
    ∙ neither (p == w.pn) (drops pages w) (frees pages t pid w) _ _ (pages p) λ is.
      let z : (pages w.pn).refcount ≡ 0 =
        ap (λ x. (pages x).refcount) (sym (==→eq p w.pn is)) ∙ h in
      (ground arith, ground arith)

-- So does a page of another owner that is mapped with `W`.
pub release_owned :
    (pages : PageInfos) (t : Tables) (pid : ℕ) (w : Vamapping) (p : ℕ)
    → (pages p).owner ≢ pid
    → has w.perm pte_w ≡ true
    → release pages t pid w p ≡ pages p
release_owned pages t pid w p h k =
    release_lem pages t pid w p
    ∙ neither (p == w.pn) (drops pages w) (frees pages t pid w) _ _ (pages p) λ is.
      let o : (pages w.pn).owner ≢ pid = λ e. h (ap (λ x. (pages x).owner) (==→eq p w.pn is) ∙ e) in
      (ground arith, ground arith)

-- A page that is mapped with `W` and has the owner `pid` becomes free, if it is no table.
release_frees :
    (pages : PageInfos) (t : Tables) (pid : ℕ) (w : Vamapping) (p : ℕ)
    → w.pn ≡ p
    → has w.perm pte_w ≡ true
    → (pages p).owner ≡ pid
    → (pages p).refcount ≢ 0
    → 1 ≤ p
    → p < 512
    → ¬ IsTable t p
    → release pages t pid w p ≡ free_page
release_frees pages t pid w p e k o r low high no_table =
    let owns : (pages w.pn).owner ≡ pid = ap (λ x. (pages x).owner) e ∙ o in
    let used : (pages w.pn).refcount ≢ 0 = λ z. r (ap (λ x. (pages x).refcount) (sym e) ∙ z) in
    let at : (p == w.pn) ≡ true = eq→== p w.pn (sym e) in
    let kept : drops pages w ≡ false = ground arith in
    let freed : frees pages t pid w ≡ true = ground arith in
    release_lem pages t pid w p ∙ rw (at, kept, freed) refl

module _ (m : Memory) (t : Tables) (pid p : ℕ) where
  -- What no round of the loop changes stays.
  pub release_loop_stays :
      (info : PageInfo)
      → ((pages : PageInfos) (x : ℕ)
          → 0x100000 ≤ x
          → x < 0x300000
          → pages p ≡ info
          → release pages t pid (virtual_memory_lookup m t.l1 x) p ≡ info)
      → (left v : ℕ) (pages : PageInfos) → 0x100000 ≤ v
      → v + left * 4096 ≤ 0x300000
      → pages p ≡ info
      → release_loop m pages t pid left v p ≡ info
  unfolding release_loop
  release_loop_stays info step zero v pages h1 h2 e = e
  release_loop_stays info step (suc left) v pages h1 h2 e =
      release_loop_stays info step left (v + 4096) _ (omega arith) (omega arith) (
        either (t.l1 == 0) pages (release pages t pid (virtual_memory_lookup m t.l1 v)) e
          (step pages v h1 (omega arith) e))
    where
      either :
          (c : Bool) (a b : PageInfos) → a p ≡ info → b p ≡ info → (if c then a else b) p ≡ info
      either true a b ea eb = ea
      either false a b ea eb = eb

  pub loop_free :
      (left v : ℕ) (pages : PageInfos)
      → 0x100000 ≤ v
      → v + left * 4096 ≤ 0x300000
      → pages p ≡ free_page
      → release_loop m pages t pid left v p ≡ free_page
  loop_free = release_loop_stays free_page λ pages x h1 h2 e.
      release_zero pages t pid (virtual_memory_lookup m t.l1 x) p (ap (λ i. i.refcount) e) ∙ e

module _ (m : Memory) (t : Tables) (pid p : ℕ) (info : PageInfo) (owned : info.owner ≡ pid)
    (used : info.refcount ≢ 0) (low : 1 ≤ p) (high : p < 512) (no_table : ¬ IsTable t p)
    (exists : t.l1 ≢ 0)
    (writable : (x : ℕ)
      → 0x100000 ≤ x
      → x < 0x300000
      → (virtual_memory_lookup m t.l1 x).pn ≡ p
      → has (virtual_memory_lookup m t.l1 x).perm pte_w ≡ true) where
  -- The loop frees the page when it comes to an address `v` that maps it, if not before.
  pub loop_frees :
      (v : ℕ)
      → v % 4096 ≡ 0
      → (virtual_memory_lookup m t.l1 v).pn ≡ p
      → (left va : ℕ) (pages : PageInfos) → va % 4096 ≡ 0
      → 0x100000 ≤ va
      → va + left * 4096 ≤ 0x300000
      → va ≤ v
      → v < va + left * 4096
      → pages p ≡ info
      → release_loop m pages t pid left va p ≡ free_page
  unfolding release_loop
  loop_frees v hv maps zero va pages h1 h2 h3 h4 h5 e = absurd (omega arith)
  loop_frees v hv maps (suc left) va pages h1 h2 h3 h4 h5 e =
      let w = virtual_memory_lookup m t.l1 va in
      rw (ne→== t.l1 0 exists) (elim (Bool-cases (p == w.pn)) [
        | inl is ↦
            let at = sym (==→eq p w.pn is) in
            loop_free m t pid p left (va + 4096) (release pages t pid w) (omega arith) (omega arith)
              (release_frees pages t pid w p at (writable va h2 (omega arith) at)
                (ap (λ i. i.owner) e ∙ owned) (λ z. used (ap (λ i. i.refcount) (sym e) ∙ z)) low
                high no_table)
        | inr isnt ↦
            let not_here : va ≢ v = λ here.
              ==→ne p w.pn isnt
                (sym maps ∙ ap (λ x. (virtual_memory_lookup m t.l1 x).pn) (sym here)) in
            loop_frees v hv maps left (va + 4096) (release pages t pid w) (omega arith)
              (omega arith) (omega arith) (omega arith) (omega arith)
              (release_lem pages t pid w p ∙ rw isnt e)
      ])

keeps_owner :
    (c a b : Bool) (i j : PageInfo)
    → (c ≡ true → i.owner ≡ j.owner)
    → (a ≡ true → (i.refcount == 0) ≡ false)
    → b ≡ false
    → (if c then if a then drop_reference i else if b then free_page else j else j).owner ≡ j.owner
unfolding drop_reference
keeps_owner true true b i j same used off = rw (used refl) (same refl)
keeps_owner true false b i j same used off = rw off refl
keeps_owner false a b i j same used off = refl

-- A round for an address that is not mapped with `W` changes no page's owner, also where it takes
-- the last reference from a page.
pub release_keeps_owner :
    (pages : PageInfos) (t : Tables) (pid : ℕ) (w : Vamapping) (q : ℕ)
    → has w.perm pte_w ≡ false
    → (release pages t pid w q).owner ≡ (pages q).owner
release_keeps_owner pages t pid w q h =
    ap (λ i. i.owner) (release_lem pages t pid w q)
    ∙ keeps_owner (q == w.pn) (drops pages w) (frees pages t pid w) (pages w.pn) (pages q)
        (λ is. ap (λ x. (pages x).owner) (sym (==→eq q w.pn is))) (λ d. ground arith) (ground arith)
