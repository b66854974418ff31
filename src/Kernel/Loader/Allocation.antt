-- ===== src/Kernel/Loader/Allocation.antt =====
-- The loader's allocation of the pages of a segment.
use virtual_memory.Base.{
  ℕ, zero, suc, ◌+◌, ◌*◌, ◌/◌, ◌%◌, ◌≤◌, ◌<◌, ◌≡◌, ◌≢◌, refl, ◌⊎◌, ◌==◌, ltb, false, ok, arith,
  Bool-cases, ==→eq, ne→==, ltb→lt, ltb-false, inl, inr, ap, sym, ◌∙◌,
}
use virtual_memory.Memory.{Memory}
use virtual_memory.Memory.Words.{IsBytes}
use virtual_memory.Vm.{Tables, Vamapping, virtual_memory_lookup}
use virtual_memory.Vm.Layout.{AreTables, Connected}
use virtual_memory.Vm.Spaces.{CanMap, mapped, virtual_memory_map-Maps, Maps-lookup}
use virtual_memory.Pages.{PageInfos, set_page}
use virtual_memory.Pages.Assign.{IsFree, alloc_page_process_lowest}
use virtual_memory.Pages.SysAlloc.{taken_by}
use virtual_memory.Kernel.Fork.FreePages.{free_pages, find_some, free_pages-take}
use virtual_memory.Kernel.Loader.{allocate_pages}

-- What a new page of the segment is mapped to: a page that was free and is the process's now.
pub record IsFresh (pages pages' : PageInfos) (pid b : ℕ) (v : Vamapping) : Type 0 where
  pub was_free : IsFree pages v.pn
  pub taken : pages' v.pn ≡ taken_by pid
  pub address : v.pa ≡ v.pn * 4096 + b % 4096
  pub permissions : v.perm ≡ 7

-- What the loop leaves for `left` pages from `addr` on.
pub record AreSegmentPages (t : Tables) (pid left addr : ℕ) (m : Memory) (pages : PageInfos)
    (m' : Memory) (pages' : PageInfos) : Type 0 where
  pub conn : Connected m' t
  pub bytes : IsBytes m'
  pub kept : (n : ℕ) → (pages n).refcount ≢ 0 → pages' n ≡ pages n
  pub inside :
      (b : ℕ)
      → addr ≤ b
      → b < addr + left * 4096
      → IsFresh pages pages' pid b (virtual_memory_lookup m' t.l1 b)
  pub apart :
      (b c : ℕ)
      → addr ≤ b
      → b / 4096 < c / 4096
      → c < addr + left * 4096
      → (virtual_memory_lookup m' t.l1 b).pn ≢ (virtual_memory_lookup m' t.l1 c).pn
  pub outside :
      (b : ℕ)
      → b < 0x400000
      → (b < addr) ⊎ (addr + left * 4096 ≤ b)
      → virtual_memory_lookup m' t.l1 b ≡ virtual_memory_lookup m t.l1 b

-- The new page is in use behind the allocation, and nothing else has changed.
other_pages :
    (pages : PageInfos) (pid p n : ℕ)
    → (pages p).refcount ≡ 0
    → (pages n).refcount ≢ 0
    → set_page pages p (taken_by pid) n ≡ pages n
unfolding set_page
other_pages pages pid p n free used = elim (Bool-cases (n == p)) [
  | inl is ↦ absurd (used (ap (λ k. (pages k).refcount) (==→eq n p is) ∙ free))
  | inr isnt ↦ rw isnt refl
]

new_page : (pages : PageInfos) (pid p : ℕ) → set_page pages p (taken_by pid) p ≡ taken_by pid
unfolding set_page
new_page pages pid p = ground arith

earlier-IsFree :
    (pages : PageInfos) (pid p n : ℕ)
    → IsFree (set_page pages p (taken_by pid)) n
    → IsFree pages n × (n ≢ p)
unfolding set_page
earlier-IsFree pages pid p n free = elim (Bool-cases (n == p)) [
  | inl is ↦ absurd (ground (arith, free, is))
  | inr isnt ↦ ((free.0, free.1, ground (arith, free.2, isnt)), λ e. ground (arith, e, isnt))
]

-- One round, and what the later rounds make of it.
module _ (t : Tables) (pid left addr p : ℕ) (m m1 m' : Memory) (pages pages' : PageInfos)
    (free : IsFree pages p) (aligned : addr % 4096 ≡ 0) (fits : addr + suc left * 4096 ≤ 0x400000)
    (looks : (b : ℕ)
      → b < 0x400000
      → virtual_memory_lookup m1 t.l1 b
        ≡ mapped addr (p * 4096) 4096 7 (virtual_memory_lookup m t.l1) b)
    (later : AreSegmentPages t pid left
      (addr + 4096)
      m1
      (set_page pages p (taken_by pid))
      m'
      pages') where
  first_lookup :
      (b : ℕ)
      → addr ≤ b
      → b < addr + 4096
      → virtual_memory_lookup m' t.l1 b ≡ record { pn = p; pa = p * 4096 + b % 4096; perm = 7 }
  first_lookup b from to =
      later.outside b (omega (arith, fits)) (inl to)
      ∙ looks b (omega (arith, fits))
      ∙ ground (arith, from, to, aligned)

  page_taken : pages' p ≡ taken_by pid
  page_taken =
      later.kept p (λ e. omega (arith, ap (λ i. i.refcount) (new_page pages pid p), e))
      ∙ new_page pages pid p

  round-IsFresh :
      (b : ℕ)
      → addr ≤ b
      → b < addr + suc left * 4096
      → IsFresh pages pages' pid b (virtual_memory_lookup m' t.l1 b)
  round-IsFresh b from to = elim (Bool-cases (ltb b (addr + 4096))) [
    | inl is ↦
        rw (first_lookup b from (ltb→lt b (addr + 4096) is))
          record { was_free = free; taken = page_taken; address = refl; permissions = refl }
    | inr isnt ↦
        let r = later.inside b (ltb-false b (addr + 4096) isnt) (omega (arith, to)) in
        record {
          was_free = (earlier-IsFree pages pid p _ r.was_free).0;
          taken = r.taken;
          address = r.address;
          permissions = r.permissions;
        }
  ]

  round_apart :
      (b c : ℕ)
      → addr ≤ b
      → b / 4096 < c / 4096
      → c < addr + suc left * 4096
      → (virtual_memory_lookup m' t.l1 b).pn ≢ (virtual_memory_lookup m' t.l1 c).pn
  round_apart b c from lt to = elim (Bool-cases (ltb b (addr + 4096))) [
    | inl is ↦ λ e.
        (earlier-IsFree pages pid p _
            (later.inside c (omega (arith, from, lt, aligned)) (omega (arith, to))).was_free).1
          (sym e ∙ ap (λ v. v.pn) (first_lookup b from (ltb→lt b (addr + 4096) is)))
    | inr isnt ↦ later.apart b c (ltb-false b (addr + 4096) isnt) lt (omega (arith, to))
  ]

  round-AreSegmentPages : AreSegmentPages t pid (suc left) addr m pages m' pages'
  round-AreSegmentPages = record {
    conn = later.conn;
    bytes = later.bytes;
    kept = λ n used.
        let same = other_pages pages pid p n free.2 used in
        later.kept n (λ e. used (sym (ap (λ i. i.refcount) same) ∙ e)) ∙ same;
    inside = round-IsFresh;
    apart = round_apart;
    outside = λ b h out. later.outside b h (omega (arith, out)) ∙ looks b h ∙ ground (arith, out);
  }

-- For `left` pages from an aligned address on, below 4 MB, on a connected page table of the kernel's
-- shape, in a memory of bytes, and while as many pages behind page 0 are free, the loop succeeds.
-- Every address of the range is then mapped with `P`, `W` and `U`, at its offset, to a page that
-- was free and that belongs to the process now, different pages of the range to different ones. No
-- other lookup below 4 MB changes, and no entry of `pageinfo[]` for a page that was in use; the page
-- table stays connected.
pub allocate_pages_maps :
    (m : Memory) (pages : PageInfos) (t : Tables) (pid left addr : ℕ)
    → AreTables t
    → Connected m t
    → IsBytes m
    → addr % 4096 ≡ 0
    → addr + left * 4096 ≤ 0x400000
    → left ≤ free_pages pages 511 1
    → (pages' : PageInfos) × (m' : Memory) × (allocate_pages m pages t.l1 pid left addr
        ≡ ok (0, pages', m'))
      × AreSegmentPages t pid left addr m pages m' pages'
unfolding allocate_pages
allocate_pages_maps m pages t pid zero addr ts conn bytes aligned fits enough = (
  pages,
  m,
  refl,
  record {
    conn = conn;
    bytes = bytes;
    kept = λ n used. refl;
    inside = λ b from to. absurd (omega (arith, from, to));
    apart = λ b c from lt to. absurd (omega (arith, from, lt, to));
    outside = λ b h out. refl;
  },
)
allocate_pages_maps m pages t pid (suc left) addr ts conn bytes aligned fits enough =
    let (q, q_from, q_to, q_free) = find_some pages 511 1 (omega (arith, enough)) in
    let (p, free, _, taken) = alloc_page_process_lowest pages pid q (q_from, q_to, q_free) in
    let can : CanMap addr (p * 4096) 4096 7 = omega (arith, free, fits, aligned) in
    let (m1, runs, maps) = virtual_memory_map-Maps t ts m conn addr (p * 4096) 4096 7 can in
    let (pages', m', more, later) =
      allocate_pages_maps m1 (set_page pages p (taken_by pid)) t pid left (addr + 4096) ts maps.conn
        (maps.bytes bytes) (omega (arith, aligned)) (omega (arith, fits))
        (omega (arith, enough, free_pages-take pages (taken_by pid) p 511 1)) in
    let behind_0 : (p * 4096 == 0) ≡ false = ne→== (p * 4096) 0 (omega (arith, free)) in
    (
      pages',
      m',
      rw taken (rw behind_0 (rw runs more)),
      round-AreSegmentPages t pid left addr p m m1 m' pages pages' free aligned fits
          (Maps-lookup t ts m conn bytes addr (p * 4096) 4096 7 m1 can maps) later,
    )
