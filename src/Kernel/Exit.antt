-- ===== src/Kernel/Exit.antt =====
-- The exit system call: it gives back the pages of the current process.
pub mod Releases
pub mod Rounds
use virtual_memory.Base.{
  ℕ, zero, suc, ◌+◌, ◌-◌, ◌/◌, ◌%◌, ◌^◌, Bool, not, ◌&&◌, ltb, ◌==◌, if◌then◌else◌,
}
use virtual_memory.Memory.{Memory}
use virtual_memory.Paging.{
  page_size, proc_start_addr, memsize_virtual, has, pte_w, pagenumber, pte_addr, entry,
}
use virtual_memory.Vm.{Tables, Vamapping, virtual_memory_lookup}
use virtual_memory.Pages.{PageInfo, PageInfos, set_page, po_free}
use virtual_memory.Process.{ProcState}
use virtual_memory.Kernel.{Kernel, current_proc, set_proc}

-- The five pages of a page table, as the handler reads them.
pub tables_of : Memory → (l1 : ℕ) → Tables
tables_of m l1 =
    let l2 = pte_addr (entry m l1 0) in
    let l3 = pte_addr (entry m l2 0) in
    record {
      l1 = l1;
      l2 = l2;
      l3 = l3;
      l4_1 = pte_addr (entry m l3 0);
      l4_2 = pte_addr (entry m l3 1);
    }

abbrev pub free_page : PageInfo
free_page = record { owner = po_free; refcount = 0 }

-- The ten assignments that give back the five pages.
pub free_tables : PageInfos → Tables → PageInfos
free_tables pages t =
    let p1 = set_page pages (pagenumber t.l1) free_page in
    let p2 = set_page p1 (pagenumber t.l2) free_page in
    let p3 = set_page p2 (pagenumber t.l3) free_page in
    let p4 = set_page p3 (pagenumber t.l4_1) free_page in set_page p4 (pagenumber t.l4_2) free_page

-- `pn > 0` for an `int`
abbrev pub is_positive : ℕ → Bool
is_positive pn = not (pn == 0) && ltb pn (2 ^ 31)

-- `if (refcount == 0) owner = P_FREE; --refcount;`
pub drop_reference : PageInfo → PageInfo
drop_reference info = record {
  owner = if info.refcount == 0 then po_free else info.owner;
  refcount = (info.refcount + 255) % 256;
}

-- The body of the loop for one mapping.
pub release : PageInfos → Tables → (pid : ℕ) → Vamapping → PageInfos
release pages t pid map =
    let info = pages map.pn in
    if not (has map.perm pte_w) && is_positive map.pn && not (info.refcount == 0)
    then set_page pages map.pn (drop_reference info)
    else if is_positive map.pn
        && has map.perm pte_w
        && (info.owner == pid)
        && not (info.refcount == 0)
        && not (map.pn == pagenumber t.l1)
        && not (map.pn == pagenumber t.l2)
        && not (map.pn == pagenumber t.l3)
        && not (map.pn == pagenumber t.l4_1)
        && not (map.pn == pagenumber t.l4_2)
    then set_page pages map.pn free_page
    else pages

-- The loop, with the pages that are left.
pub release_loop : Memory → PageInfos → Tables → (pid left v : ℕ) → PageInfos
release_loop m pages t pid zero v = pages
release_loop m pages t pid (suc left) v =
    release_loop m
      (if t.l1 == 0 then pages else release pages t pid (virtual_memory_lookup m t.l1 v)) t pid left
      (v + page_size)

-- `case INT_SYS_EXIT`
unfoldable pub exit : Kernel → Kernel
exit k =
    let p = current_proc k in
    let t = tables_of k.mem p.p_pagetable in
    let pages = free_tables k.pageinfo t in
    record k {
      pageinfo =
          release_loop k.mem pages t p.p_pid ((memsize_virtual - proc_start_addr) / page_size)
            proc_start_addr;
      processes = set_proc k.processes k.current (record p { p_state = ProcState.free });
    }
