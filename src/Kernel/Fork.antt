-- ===== src/Kernel/Fork.antt =====
-- `duplicate_pagetable` and the fork system call.
pub mod CopyPage
pub mod Duplicate
pub mod Allocated
pub mod Cleared
pub mod Copying
pub mod Copies
pub mod ForkPage
pub mod FreePages
pub mod Rounds
pub mod Pages
pub mod Loop
pub mod NewTables
pub mod Whole
pub mod Succeeds
use virtual_memory.Base.{
  ℕ, zero, suc, ◌+◌, ◌-◌, ◌*◌, ◌/◌, ◌%◌, ◌^◌, bit_and, Bool, true, false, not, ◌&&◌, ◌==◌,
  if◌then◌else◌, Outcome, ok, ◌>>=◌, Option, none, some,
}
use virtual_memory.Memory.{Memory, memset, memcpy}
use virtual_memory.Paging.{page_size, proc_start_addr, memsize_virtual, console_addr, has, pte_w}
use virtual_memory.Vm.{Tables, connect, virtual_memory_map, virtual_memory_lookup}
use virtual_memory.Pages.{PageInfo, PageInfos, set_page, alloc_page_process}
use virtual_memory.Process.{ProcState, Proc, is_free, nproc}
use virtual_memory.Kernel.{Kernel, current_proc, set_proc}

-- The copying loop of `duplicate_pagetable`, with the pages that are left. Its results are unused.
pub copy_mappings : Memory → (pagetable fill_pagetable left va : ℕ) → Outcome Memory
copy_mappings m pagetable fill_pagetable zero va = ok m
copy_mappings m pagetable fill_pagetable (suc left) va = do
  let map = virtual_memory_lookup m pagetable va
  (_, m') ← virtual_memory_map m fill_pagetable va map.pa page_size map.perm
  copy_mappings m' pagetable fill_pagetable left (va + page_size)

-- The five allocations, and the pages in the order of the calls.
pub alloc_tables : PageInfos → (pid : ℕ) → Tables × PageInfos
alloc_tables pages pid =
    let (l1, pages1) = alloc_page_process pages pid in
    let (l2, pages2) = alloc_page_process pages1 pid in
    let (l3, pages3) = alloc_page_process pages2 pid in
    let (l4_1, pages4) = alloc_page_process pages3 pid in
    let (l4_2, pages5) = alloc_page_process pages4 pid in
    (record { l1 = l1; l2 = l2; l3 = l3; l4_1 = l4_1; l4_2 = l4_2 }, pages5)

-- The five calls of `memset`, which come before the test for NULL.
pub clear_tables : Memory → Tables → Memory
clear_tables m t =
    let m1 = memset m t.l1 0 page_size in
    let m2 = memset m1 t.l2 0 page_size in
    let m3 = memset m2 t.l3 0 page_size in
    let m4 = memset m3 t.l4_1 0 page_size in memset m4 t.l4_2 0 page_size

abbrev pub all_allocated : Tables → Bool
all_allocated t =
    not (t.l1 == 0) && not (t.l2 == 0) && not (t.l3 == 0) && not (t.l4_1 == 0) && not (t.l4_2 == 0)

-- The result is the new page table or NULL, with the new array and memory.
pub duplicate_pagetable :
    Memory → PageInfos → (pagetable pid : ℕ) → Outcome (ℕ × PageInfos × Memory)
duplicate_pagetable m pages pagetable pid =
    let (t, pages') = alloc_tables pages pid in
    let m1 = clear_tables m t in
    if all_allocated t
    then (do
      m2 ← copy_mappings (connect m1 t) pagetable t.l1 (proc_start_addr / page_size) 0
      ok (t.l1, pages', m2))
    else ok (0, pages', m1)

-- `++pageinfo[pn].refcount`
pub increment : PageInfos → ℕ → PageInfos
increment pages pn =
    set_page pages pn (record (pages pn) { refcount = ((pages pn).refcount + 1) % 256 })

-- The body of fork's loop over application memory: a writable page is copied, any other is shared.
pub fork_page : Memory → PageInfos → (parent child pid v : ℕ) → Outcome (PageInfos × Memory)
fork_page m pages parent child pid v =
    let map = virtual_memory_lookup m parent v in
    if not (map.pa == console_addr) && has map.perm pte_w
    then (do
      let (page, pages') = alloc_page_process pages pid
      let m1 = memcpy m page map.pa page_size
      (_, m2) ← virtual_memory_map m1 child v page page_size map.perm
      ok (pages', m2))
    else (do
      (_, m1) ← virtual_memory_map m child v map.pa page_size map.perm
      ok (increment pages map.pn, m1))

-- The loop, with the pages that are left.
pub fork_pages : Memory → PageInfos → (parent child pid left v : ℕ) → Outcome (PageInfos × Memory)
fork_pages m pages parent child pid zero v = ok (pages, m)
fork_pages m pages parent child pid (suc left) v = do
  (pages', m') ← fork_page m pages parent child pid v
  fork_pages m' pages' parent child pid left (v + page_size)

-- `reg_rax` of a process
abbrev pub set_rax : Proc → ℕ → Proc
set_rax p v = record p { p_registers = record (p.p_registers) { reg_rax = v } }

-- The loop that looks for a free descriptor, with the descriptors that are left; `none` is its end.
unfoldable pub find_free_pid : (ℕ → Proc) → (left pid : ℕ) → Option ℕ
find_free_pid procs zero pid = none
find_free_pid procs (suc left) pid =
    let rest = find_free_pid procs left (pid + 1) in
    if is_free (procs pid).p_state then some pid else rest

-- `(uint64_t) -1`
abbrev pub failure : ℕ
failure = 0xFFFFFFFFFFFFFFFF

-- The child gets the parent's registers with 0 in `rax`, and the parent the child's number.
unfoldable pub fork_return : Kernel → (pid : ℕ) → Kernel
fork_return k pid =
    let parent = current_proc k in
    let child = set_rax (record (k.processes pid) { p_registers = parent.p_registers }) 0 in
    record k {
      processes = set_proc (set_proc k.processes pid child) k.current (set_rax parent pid);
    }

-- The descriptor is given back, and the parent gets -1.
unfoldable pub fork_fails : Kernel → (pid : ℕ) → Kernel
fork_fails k pid =
    let freed = set_proc k.processes pid (record (k.processes pid) { p_state = ProcState.free }) in
    record k { processes = set_proc freed k.current (set_rax (freed k.current) failure) }

-- The child's descriptor is set up, with the new page table.
unfoldable pub with_child : Kernel → (pid pt : ℕ) → PageInfos → Memory → Kernel
with_child k pid pt pages m = record k {
  mem = m;
  pageinfo = pages;
  processes =
      set_proc k.processes pid
        (record (k.processes pid) { p_pid = pid; p_state = ProcState.runnable; p_pagetable = pt });
}

-- The pages of the process are copied or shared, if there is a page table. The flag tells whether
-- the handler ends with `break` (true) or with `return`.
unfoldable pub fork_memory : Kernel → (parent_pagetable pid pt : ℕ) → Outcome (Kernel × Bool)
fork_memory k parent_pagetable pid pt = if pt == 0 then ok (fork_fails k pid, false) else (do
  (pages, m) ←
      fork_pages k.mem k.pageinfo parent_pagetable pt pid
        ((memsize_virtual - proc_start_addr) / page_size) proc_start_addr
  ok (fork_return (record k { mem = m; pageinfo = pages }) pid, true))

-- The part of the system call behind the search, for the free descriptor `pid`.
unfoldable pub fork_into : Kernel → (pid : ℕ) → Outcome (Kernel × Bool)
fork_into k pid = do
  let parent_pagetable = (current_proc k).p_pagetable
  (pt, pages, m) ← duplicate_pagetable k.mem k.pageinfo parent_pagetable pid
  fork_memory (with_child k pid pt pages m) parent_pagetable pid pt

-- `case INT_SYS_FORK`. With no free descriptor the parent gets -1.
unfoldable pub fork : Kernel → Outcome (Kernel × Bool)
fork k = elim (find_free_pid k.processes (nproc - 1) 1) [
  | none ↦ ok (
    record k { processes = set_proc k.processes k.current (set_rax (current_proc k) failure) },
    true,
  )
  | some pid ↦ fork_into k pid
]
