-- ===== src/Kernel/Exit/Releases.antt =====
-- Which pages the exit system call gives back, and which it leaves alone.
use virtual_memory.Base.{
  ℕ, ◌+◌, ◌%◌, ◌≤◌, ◌<◌, ◌≡◌, refl, ◌≢◌, inl, inr, true, arith, ap, sym, ◌∙◌, ◌==◌, Bool-cases,
  eq→==, ==→eq,
}
use virtual_memory.Memory.{Memory, load64}
use virtual_memory.Vm.Layout.{AreTables, Connected, IsPage}
use virtual_memory.Paging.Flags.{pte_addr_lem}
use virtual_memory.Paging.{entry, pte_addr, has, pte_w}
use virtual_memory.Vm.{Tables, virtual_memory_lookup}
use virtual_memory.Pages.{PageInfos, set_page}
use virtual_memory.Process.{ProcState}
use virtual_memory.Kernel.{Kernel, current_proc, set_proc}
use virtual_memory.Kernel.Exit.{tables_of, free_page, free_tables, exit}
use virtual_memory.Kernel.Exit.Rounds.{
  IsTable, release_owned, release_lem, release_loop_stays, loop_free, loop_frees,
}

-- The handler finds the five pages of a page table of the kernel's shape.
pub tables_of-Connected :
    (m : Memory) (t : Tables) → AreTables t → Connected m t → tables_of m t.l1 ≡ t
unfolding tables_of
tables_of-Connected m t ts conn =
    rw
      (
        table_behind m t.l1 0 t.l2 ts.l2_page (ap (load64 m) (omega arith) ∙ conn.to_l2),
        table_behind m t.l2 0 t.l3 ts.l3_page (ap (load64 m) (omega arith) ∙ conn.to_l3),
        table_behind m t.l3 0 t.l4_1 ts.l4_1_page (ap (load64 m) (omega arith) ∙ conn.to_l4_1),
        table_behind m t.l3 1 t.l4_2 ts.l4_2_page (ap (load64 m) (omega arith) ∙ conn.to_l4_2),
      )
      refl
  where
    table_behind :
        (m : Memory) (pt i next : ℕ)
        → IsPage next
        → entry m pt i ≡ next + 7
        → pte_addr (entry m pt i) ≡ next
    table_behind m pt i next page e = rw e (omega (arith, pte_addr_lem (next + 7)))

free_tables_table :
    (pages : PageInfos) (t : Tables) (p : ℕ) → IsTable t p → free_tables pages t p ≡ free_page
unfolding free_tables set_page
free_tables_table pages t p h = ground arith

free_tables_other :
    (pages : PageInfos) (t : Tables) (p : ℕ) → ¬ IsTable t p → free_tables pages t p ≡ pages p
unfolding free_tables set_page
free_tables_other pages t p h = ground arith

-- The five pages that the handler finds are free after it.
exit_frees_found :
    (k : Kernel) (p : ℕ)
    → IsTable (tables_of k.mem (current_proc k).p_pagetable) p
    → ((exit k).pageinfo p ≡ free_page)
      × ((exit k).mem ≡ k.mem)
      × ((current_proc (exit k)).p_state ≡ ProcState.free)
unfolding exit set_proc
exit_frees_found k p h =
    let t = tables_of k.mem (current_proc k).p_pagetable in
    (
      loop_free k.mem t (current_proc k).p_pid p 512 0x100000 (free_tables k.pageinfo t)
          (omega arith) (omega arith) (free_tables_table k.pageinfo t p h),
      refl,
      rw (eq→== k.current k.current refl) refl,
    )

-- If the page table of the current process is a connected one of the kernel's shape, the exit system
-- call frees its five pages and the descriptor, and changes no memory.
pub exit_frees_tables :
    (k : Kernel) (t : Tables) (p : ℕ)
    → AreTables t
    → Connected k.mem t
    → (current_proc k).p_pagetable ≡ t.l1
    → IsTable t p
    → ((exit k).pageinfo p ≡ free_page)
      × ((exit k).mem ≡ k.mem)
      × ((current_proc (exit k)).p_state ≡ ProcState.free)
exit_frees_tables k t p ts conn first h =
    let found : tables_of k.mem (current_proc k).p_pagetable ≡ t =
      ap (tables_of k.mem) first ∙ tables_of-Connected k.mem t ts conn in
    exit_frees_found k p (rw found h)

-- The exit system call changes nothing about a page of another owner that is no page of the page
-- table and that the process has mapped, if at all, with `W` only.
pub exit_keeps_others :
    (k : Kernel) (p : ℕ)
    → ¬ IsTable (tables_of k.mem (current_proc k).p_pagetable) p
    → (k.pageinfo p).owner ≢ (current_proc k).p_pid
    → ((x : ℕ)
        → 0x100000 ≤ x
        → x < 0x300000
        → (virtual_memory_lookup k.mem (current_proc k).p_pagetable x).pn ≡ p
        → has (virtual_memory_lookup k.mem (current_proc k).p_pagetable x).perm pte_w ≡ true)
    → (exit k).pageinfo p ≡ k.pageinfo p
unfolding exit tables_of
exit_keeps_others k p not_table other writable =
    let t = tables_of k.mem (current_proc k).p_pagetable in
    let pid = (current_proc k).p_pid in
    release_loop_stays k.mem t pid p (k.pageinfo p)
      (λ pages x h1 h2 e. elim (Bool-cases (p == (virtual_memory_lookup k.mem t.l1 x).pn)) [
        | inl is ↦
            release_owned pages t pid _ p (λ o. other (ap (λ i. i.owner) (sym e) ∙ o))
              (writable x h1 h2 (sym (==→eq p _ is)))
            ∙ e
        | inr isnt ↦ release_lem pages t pid _ p ∙ rw isnt e
      ])
      512 0x100000 (free_tables k.pageinfo t) (omega arith) (omega arith)
      (free_tables_other k.pageinfo t p not_table)

-- The exit system call frees a page of the process, which has a page table: one behind page 0 that
-- it owns and that has references, that is no page of the page table, that the page table maps at
-- some page-aligned address of application memory, and that it maps nowhere there without `W`.
pub exit_frees_owned :
    (k : Kernel) (p v : ℕ)
    → ¬ IsTable (tables_of k.mem (current_proc k).p_pagetable) p
    → (current_proc k).p_pagetable ≢ 0
    → 1 ≤ p
    → p < 512
    → (k.pageinfo p).owner ≡ (current_proc k).p_pid
    → (k.pageinfo p).refcount ≢ 0
    → v % 4096 ≡ 0
    → 0x100000 ≤ v
    → v < 0x300000
    → (virtual_memory_lookup k.mem (current_proc k).p_pagetable v).pn ≡ p
    → ((x : ℕ)
        → 0x100000 ≤ x
        → x < 0x300000
        → (virtual_memory_lookup k.mem (current_proc k).p_pagetable x).pn ≡ p
        → has (virtual_memory_lookup k.mem (current_proc k).p_pagetable x).perm pte_w ≡ true)
    → (exit k).pageinfo p ≡ free_page
unfolding exit tables_of
exit_frees_owned k p v not_table exists low high owned used hv h1 h2 maps writable =
    let t = tables_of k.mem (current_proc k).p_pagetable in
    loop_frees k.mem t (current_proc k).p_pid p (k.pageinfo p) owned used low high not_table exists
      writable v hv maps 512 0x100000 (free_tables k.pageinfo t) (omega arith) (omega arith)
      (omega arith) h1 (omega arith) (free_tables_other k.pageinfo t p not_table)
