-- ===== src/Kernel/Checks.antt =====
-- The kernel's checks of its own invariants. The message that is printed before a failed assertion
-- is left out.
pub mod Duplicated
use virtual_memory.Base.{
  ℕ, zero, suc, ◌+◌, ◌-◌, ◌/◌, not, ◌&&◌, ◌||◌, ltb, ◌==◌, if◌then◌else◌, Outcome, ok, ◌>>◌, assert,
}
use virtual_memory.Memory.{Memory}
use virtual_memory.Paging.{
  page_size, kernel_start_addr, kernel_stack_top, npages, has, pte_w, pte_addr, pagenumber, entry,
}
use virtual_memory.Vm.{Symbols, is_nonneg, virtual_memory_lookup}
use virtual_memory.Pages.{PageInfos, po_kernel}
use virtual_memory.Process.{Proc, is_free, nproc}
use virtual_memory.Kernel.{Kernel}

-- How many pages a loop from `from` to below `to` takes.
abbrev pub pages_between : (from to : ℕ) → ℕ
pages_between from to = (to - from + (page_size - 1)) / page_size

-- The loop over kernel memory, with the pages that are left.
unfoldable pub check_kernel_pages : Symbols → Memory → (pt left va : ℕ) → Outcome (Unit {0})
check_kernel_pages s m pt zero va = ok tt
check_kernel_pages s m pt (suc left) va = do
  let vam = virtual_memory_lookup m pt va
  assert (vam.pa == va)
  assert (ltb va s.start_data || has vam.perm pte_w)
  check_kernel_pages s m pt left (va + page_size)

unfoldable pub check_page_table_mappings : Symbols → Memory → (pt : ℕ) → Outcome (Unit {0})
check_page_table_mappings s m pt = do
  assert (pte_addr pt == pt)
  check_kernel_pages s m pt (pages_between kernel_start_addr s.end) kernel_start_addr
  let kstack = kernel_stack_top - page_size
  let vam = virtual_memory_lookup m pt kstack
  assert (vam.pa == kstack)
  assert (has vam.perm pte_w)

-- The three assertions of `check_page_table_ownership_level`.
unfoldable pub check_owner : PageInfos → (pt owner refcount : ℕ) → Outcome (Unit {0})
check_owner pages pt owner refcount = do
  assert (not (is_nonneg (pagenumber pt)) || ltb (pagenumber pt) npages)
  assert ((pages (pagenumber pt)).owner == owner)
  assert ((pages (pagenumber pt)).refcount == refcount)

-- Its loop over the entries, with the entries that are left, and the check of a next level.
unfoldable pub check_entries :
    Memory → (pt : ℕ) (check_next : ℕ → Outcome (Unit {0})) → (left index : ℕ) → Outcome (Unit {0})
check_entries m pt check_next zero index = ok tt
check_entries m pt check_next (suc left) index = do
  if entry m pt index == 0 then ok tt else check_next (pte_addr (entry m pt index))
  check_entries m pt check_next left (index + 1)

-- By the levels that stand below `pt`, three of them below the first.
unfoldable pub check_page_table_ownership_level :
    Memory → PageInfos → (below pt owner refcount : ℕ) → Outcome (Unit {0})
check_page_table_ownership_level m pages zero pt owner refcount =
    check_owner pages pt owner refcount
check_page_table_ownership_level m pages (suc below) pt owner refcount = do
  check_owner pages pt owner refcount
  check_entries m pt (λ next. check_page_table_ownership_level m pages below next owner 1) 512 0

-- How many of the processes from `xpid` on share the kernel's page table, with those left.
unfoldable pub count_kernel_users : (ℕ → Proc) → (kernel_pagetable left xpid : ℕ) → ℕ
count_kernel_users procs kernel_pagetable zero xpid = 0
count_kernel_users procs kernel_pagetable (suc left) xpid =
    (if not (is_free (procs xpid).p_state) && ((procs xpid).p_pagetable == kernel_pagetable)
      then 1
      else 0)
    + count_kernel_users procs kernel_pagetable left (xpid + 1)

-- Owners and counts are 8-bit patterns.
unfoldable pub check_page_table_ownership :
    (kernel_pagetable : ℕ) → Memory → PageInfos → (ℕ → Proc) → (pt pid : ℕ) → Outcome (Unit {0})
check_page_table_ownership kernel_pagetable m pages procs pt pid =
    if pt == kernel_pagetable
    then check_page_table_ownership_level m pages 3 pt po_kernel
        (1 + count_kernel_users procs kernel_pagetable nproc 0)
    else check_page_table_ownership_level m pages 3 pt pid 1

-- The loop over the processes, with those left.
unfoldable pub check_processes :
    Symbols → Memory → PageInfos → (ℕ → Proc) → (left pid : ℕ) → Outcome (Unit {0})
check_processes s m pages procs zero pid = ok tt
check_processes s m pages procs (suc left) pid = do
  let pt = (procs pid).p_pagetable
  if not (is_free (procs pid).p_state) && not (pt == s.kernel_pagetables)
      then (do
        check_page_table_mappings s m pt
        check_page_table_ownership s.kernel_pagetables m pages procs pt pid)
      else ok tt
  check_processes s m pages procs left (pid + 1)

-- The loop over the pages, with those left. `refcount > 0` and `owner >= 0` are of an `int8_t`.
unfoldable pub check_owners : PageInfos → (ℕ → Proc) → (left pn : ℕ) → Outcome (Unit {0})
check_owners pages procs zero pn = ok tt
check_owners pages procs (suc left) pn = do
  let info = pages pn
  assert (
      not (ltb 0 info.refcount && ltb info.refcount 128 && ltb info.owner 128)
      || not (is_free (procs info.owner).p_state))
  check_owners pages procs left (pn + 1)

unfoldable pub check_virtual_memory : Symbols → Kernel → Outcome (Unit {0})
check_virtual_memory s k = do
  assert (is_free (k.processes 0).p_state)
  check_page_table_mappings s k.mem s.kernel_pagetables
  check_page_table_ownership s.kernel_pagetables k.mem k.pageinfo k.processes s.kernel_pagetables
      255
  check_processes s k.mem k.pageinfo k.processes nproc 0
  check_owners k.pageinfo k.processes npages 0
