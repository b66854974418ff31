-- ===== src/Kernel/Checks/Duplicated.antt =====
-- A duplicated page table passes the checks that its original passes.
use virtual_memory.Base.{
  ℕ, zero, suc, ◌+◌, ◌*◌, ◌%◌, ◌≤◌, ◌<◌, ◌≡◌, refl, ◌==◌, arith, ok, lt→ltb, ◌∙◌, true,
}
use virtual_memory.Memory.{Memory}
use virtual_memory.Memory.Words.{IsBytes}
use virtual_memory.Paging.{pte_addr}
use virtual_memory.Paging.Flags.{pte_addr_lem}
use virtual_memory.Vm.{Symbols, Tables, virtual_memory_lookup}
use virtual_memory.Vm.Layout.{AreTables, Connected}
use virtual_memory.Pages.{PageInfos}
use virtual_memory.Kernel.Checks.{pages_between, check_kernel_pages, check_page_table_mappings}
use virtual_memory.Kernel.Fork.{duplicate_pagetable}
use virtual_memory.Kernel.Fork.Allocated.{FiveFree}
use virtual_memory.Kernel.Fork.Copying.{InUse}
use virtual_memory.Kernel.Fork.Copies.{duplicate_pagetable_agrees}

-- Two page tables with the same view of the first megabyte.
module _ (s : Symbols) (m m' : Memory) (pt pt' : ℕ)
    (agree : (b : ℕ)
      → b < 0x100000
      → virtual_memory_lookup m' pt' b ≡ virtual_memory_lookup m pt b) where
  check_kernel_pages_agree :
      (left va : ℕ)
      → va + left * 4096 ≤ 0x100000
      → check_kernel_pages s m' pt' left va ≡ check_kernel_pages s m pt left va
  unfolding check_kernel_pages
  check_kernel_pages_agree zero va h = refl
  check_kernel_pages_agree (suc left) va h =
      rw (agree va (omega arith), check_kernel_pages_agree left (va + 4096) (omega arith)) refl

  check_mappings_agree :
      s.end ≤ 0x100000
      → (pte_addr pt' == pt') ≡ true
      → (pte_addr pt == pt) ≡ true
      → check_page_table_mappings s m' pt' ≡ check_page_table_mappings s m pt
  unfolding check_page_table_mappings
  check_mappings_agree h e' e =
      rw
        (
          e,
          e',
          check_kernel_pages_agree (pages_between 0x40000 s.end) 0x40000 (omega arith),
          agree 0x7F000 (omega arith),
        )
        refl

page_test : (m : Memory) (t : Tables) → AreTables t → (pte_addr t.l1 == t.l1) ≡ true
page_test m t ts = ground (arith, pte_addr_lem t.l1, ts.l1_page)

-- Under the conditions of `duplicate_pagetable_copies`, and with a kernel that ends below 1 MB: if
-- the given page table passes `check_page_table_mappings`, then `duplicate_pagetable` succeeds, and
-- the new page table passes the check too, in the new memory.
pub duplicate_pagetable-checked :
    (s : Symbols) (m : Memory) (pages : PageInfos) (t : Tables) (pid : ℕ)
    → s.end ≤ 0x100000
    → AreTables t
    → Connected m t
    → IsBytes m
    → FiveFree pages
    → InUse pages t
    → ((va : ℕ)
        → va < 0x100000
        → (virtual_memory_lookup m t.l1 va).perm % 2 ≡ 1
        → (virtual_memory_lookup m t.l1 va).pa < 0x200000)
    → check_page_table_mappings s m t.l1 ≡ ok tt
    → (pt : ℕ) × (pages' : PageInfos) × (m' : Memory) × (duplicate_pagetable m pages t.l1 pid
        ≡ ok (pt, pages', m'))
      × (check_page_table_mappings s m' pt ≡ ok tt)
duplicate_pagetable-checked s m pages t pid end ts ct bytes free used exists checked =
    let (u, pages', m', e, us, view) =
      duplicate_pagetable_agrees m pages t pid ts ct bytes free used exists in
    (
      u.l1,
      pages',
      m',
      e,
      check_mappings_agree s m m' t.l1 u.l1
            (λ b h. view b (omega arith) ∙ rw (lt→ltb b 0x100000 h) refl) end (page_test m u us)
            (page_test m t ts)
          ∙ checked,
    )
