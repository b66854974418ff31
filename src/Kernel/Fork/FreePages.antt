-- ===== src/Kernel/Fork/FreePages.antt =====
-- How many pages are free, before and after an allocation.
use virtual_memory.Base.{
  ℕ, zero, suc, ◌+◌, ◌≤◌, ◌<◌, ◌≡◌, leb, inl, inr, ◌==◌, if◌then◌else◌, ==→eq, Bool-cases, arith,
}
use virtual_memory.Pages.{PageInfo, PageInfos, set_page}

-- The number of free pages among `left` pages from `p` on.
unfoldable pub free_pages : PageInfos → (left p : ℕ) → ℕ
free_pages pages zero p = 0
free_pages pages (suc left) p =
    (if (pages p).refcount == 0 then 1 else 0) + free_pages pages left (p + 1)

-- If there is one, it can be found.
pub find_some :
    (pages : PageInfos) (left p : ℕ)
    → 0 < free_pages pages left p
    → (q : ℕ) × (p ≤ q) × (q < p + left) × ((pages q).refcount ≡ 0)
unfolding free_pages
find_some pages zero p h = absurd (omega arith)
find_some pages (suc left) p h = elim (Bool-cases ((pages p).refcount == 0)) [
  | inl is ↦ (p, omega arith, omega arith, ==→eq (pages p).refcount 0 is)
  | inr isnt ↦
      let (q, from, to, free) = find_some pages left (p + 1) (ground arith) in
      (q, omega arith, omega arith, free)
]

-- What leaves the free pages free does not lower their number.
pub free_pages_keeps :
    (pages pages' : PageInfos) (left p : ℕ)
    → ((n : ℕ) → n < p + left → (pages n).refcount ≡ 0 → (pages' n).refcount ≡ 0)
    → free_pages pages left p ≤ free_pages pages' left p
unfolding free_pages
free_pages_keeps pages pages' zero p h = omega arith
free_pages_keeps pages pages' (suc left) p h =
    ground (arith, h p, free_pages_keeps pages pages' left (p + 1) (λ n k. h n (omega arith)))

-- One page is taken at most.
free_pages-set_page :
    (pages : PageInfos) (info : PageInfo) (x left p : ℕ)
    → free_pages pages left p
      ≤ free_pages (set_page pages x info) left p + (if leb p x then 1 else 0)
unfolding free_pages set_page
free_pages-set_page pages info x zero p = omega arith
free_pages-set_page pages info x (suc left) p =
    ground (arith, free_pages-set_page pages info x left (p + 1))

pub free_pages-take :
    (pages : PageInfos) (info : PageInfo) (x left p : ℕ)
    → free_pages pages left p ≤ free_pages (set_page pages x info) left p + 1
free_pages-take pages info x left p = grind (arith, free_pages-set_page pages info x left p)
