-- ===== src/Pages/Assign.antt =====
-- Which page the allocator finds, and what it does to the array.
use virtual_memory.Base.{
  ℕ, zero, suc, ◌+◌, ◌*◌, ◌%◌, ◌^◌, ◌≤◌, ◌<◌, ◌≡◌, refl, ◌≢◌, ◌⊎◌, inl, inr, false, ◌==◌,
  if◌then◌else◌, ne→==, none, some, arith, Bool-cases, ap, ◌∙◌,
}
use virtual_memory.Bits.{bit_and_low}
use virtual_memory.Paging.{pagenumber, pageaddress}
use virtual_memory.Vm.{minus_one}
use virtual_memory.Pages.{
  PageInfos, set_page, assign_physical_page, find_free, find_free_or_fail, alloc_page_process,
}

-- A page that `alloc_page_process` may hand out.
abbrev pub IsFree : PageInfos → ℕ → Type 0
IsFree pages p = (1 ≤ p) × (p < 512) × ((pages p).refcount ≡ 0)

pub pageaddress_lem : (p : ℕ) → p < 2 ^ 20 → pageaddress p ≡ p * 4096
unfolding pageaddress
pageaddress_lem p h = omega arith

pub pagenumber-pageaddress : (p : ℕ) → p < 2 ^ 20 → pagenumber (pageaddress p) ≡ p
unfolding pageaddress pagenumber
pagenumber-pageaddress p h = omega arith

-- The search stops at the first free page.
pub find_free_first :
    (pages : PageInfos) (left p q : ℕ)
    → p ≤ q
    → q < p + left
    → (pages q).refcount ≡ 0
    → (p ≤ find_free pages left p)
      × (find_free pages left p ≤ q)
      × ((pages (find_free pages left p)).refcount ≡ 0)
unfolding find_free
find_free_first pages zero p q h1 h2 e = absurd (omega arith)
find_free_first pages (suc left) p q h1 h2 e = elim (Bool-cases ((pages p).refcount == 0)) [
  | inl is ↦ rw is (omega arith, omega arith, ground arith)
  | inr not_p ↦
      let ne : p ≢ q = λ h. differs p q h (ground arith) e in
      let ih = find_free_first pages left (p + 1) q (omega arith) (omega arith) e in
      rw not_p (omega (arith, ih), ih.1, ih.2)
]
  where
    differs : (a b : ℕ) → a ≡ b → (pages a).refcount ≢ 0 → (pages b).refcount ≢ 0
    differs a b h n z = n (ap (λ x. (pages x).refcount) h ∙ z)

-- It runs to its end where no page is free.
pub find_free_none :
    (pages : PageInfos) (left p : ℕ)
    → ((k : ℕ) → p ≤ k → k < p + left → (pages k).refcount ≢ 0)
    → find_free pages left p ≡ p + left
unfolding find_free
find_free_none pages zero p h = omega arith
find_free_none pages (suc left) p h =
    let taken : ((pages p).refcount == 0) ≡ false = ne→== _ 0 (h p (omega arith) (omega arith)) in
    rw taken
      (find_free_none pages left (p + 1) (λ k h1 h2. h k (omega arith) (omega arith)) ∙ omega arith)

-- The two searches agree.
pub find_free_or_fail-find_free :
    (pages : PageInfos) (left p : ℕ)
    → p + suc left ≡ 512
    → find_free_or_fail pages (suc left) p
      ≡ (if find_free pages (suc left) p == 512 then none else some (find_free pages (suc left) p))
unfolding find_free_or_fail find_free
find_free_or_fail-find_free pages zero p h = ground arith
find_free_or_fail-find_free pages (suc left) p h =
    ground (arith, find_free_or_fail-find_free pages left (p + 1))

-- `assign_physical_page` on the address of a page: it takes a free page, and refuses another.
pub assign-free :
    (pages : PageInfos) (p owner : ℕ)
    → p < 512
    → (pages p).refcount ≡ 0
    → assign_physical_page pages (pageaddress p) owner
      ≡ (0, set_page pages p (record { owner = owner % 256; refcount = 1 }))
unfolding assign_physical_page
assign-free pages p owner h e =
    rw
      (
        pagenumber-pageaddress p (omega arith),
        e,
        pageaddress_lem p (omega arith),
        bit_and_low 12 (p * 4096),
      )
      (ground arith)

pub assign-taken :
    (pages : PageInfos) (addr owner : ℕ)
    → (addr % 4096 ≢ 0) ⊎ (0x200000 ≤ addr) ⊎ ((pages (pagenumber addr)).refcount ≢ 0)
    → assign_physical_page pages addr owner ≡ (minus_one, pages)
unfolding assign_physical_page
assign-taken pages addr owner h = ground (arith, bit_and_low 12 addr)

-- While a page behind page 0 is free, `alloc_page_process` returns the address of the lowest one,
-- which it gives to the process with one reference; it changes no other page's entry.
pub alloc_page_process_lowest :
    (pages : PageInfos) (pid q : ℕ)
    → IsFree pages q
    → (p : ℕ) × IsFree pages p
      × (p ≤ q)
      × (alloc_page_process pages pid
          ≡ (p * 4096, set_page pages p (record { owner = pid % 256; refcount = 1 })))
unfolding alloc_page_process
alloc_page_process_lowest pages pid q free =
    let p = find_free pages 511 1 in
    let f = find_free_first pages 511 1 q free.0 free.1 free.2 in
    let below : p < 512 = omega (arith, f, free) in
    (
      p,
      (f.0, below, f.2),
      f.1,
      rw (assign-free pages p pid below f.2, pageaddress_lem p (omega arith)) refl,
    )

-- When all pages behind page 0 are taken, `alloc_page_process` returns NULL and changes nothing.
pub alloc_page_process_full :
    (pages : PageInfos) (pid : ℕ)
    → ((k : ℕ) → 1 ≤ k → k < 512 → (pages k).refcount ≢ 0)
    → alloc_page_process pages pid ≡ (0, pages)
unfolding alloc_page_process
alloc_page_process_full pages pid h =
    let e : find_free pages 511 1 ≡ 512 = find_free_none pages 511 1 h in
    rw
      (e, assign-taken pages (pageaddress 512) pid (inr (inl (omega (arith, pageaddress_lem 512)))))
      refl
