-- ===== src/Kernel/Fork/Succeeds.antt =====
-- The fork system call succeeds, and what it leaves.
use virtual_memory.Base.{
  ℕ, ◌-◌, ◌/◌, ◌≤◌, ◌<◌, ◌≡◌, refl, ◌≢◌, inl, inr, true, false, arith, ap, sym, ◌∙◌, ◌==◌, ok, some,
  eq→==, ne→==, lt→ltb, le→ltb,
}
use virtual_memory.Memory.{Memory}
use virtual_memory.Vm.{Tables}
use virtual_memory.Vm.Layout.{AreTables}
use virtual_memory.Vm.Isolation.{Separate}
use virtual_memory.Pages.{PageInfos}
use virtual_memory.Process.{ProcState, nproc}
use virtual_memory.Kernel.{Kernel, current_proc, set_proc}
use virtual_memory.Kernel.Fork.{
  duplicate_pagetable, fork, fork_into, fork_memory, fork_pages, fork_return, find_free_pid,
  with_child,
}
use virtual_memory.Kernel.Fork.Allocated.{AreAllocated}
use virtual_memory.Kernel.Fork.Copying.{InUse}
use virtual_memory.Kernel.Fork.Copies.{duplicate_pagetable_all}
use virtual_memory.Kernel.Fork.Cleared.{Outside}
use virtual_memory.Kernel.Fork.Rounds.{StaysUsed, Ready, IsForked}
use virtual_memory.Kernel.Fork.Pages.{IsMapped, AreSound, AreForked, later_page}
use virtual_memory.Kernel.Fork.Loop.{fork_pages-AreForked, copied_present}
use virtual_memory.Kernel.Fork.NewTables.{
  new_tables-same, new_tables-free, new_tables-InUse, new_tables-Outside,
}
use virtual_memory.Kernel.Fork.Whole.{view, CanFork, HasForked, number_of_view}

-- The state that the system call leaves, from what its two loops leave.
abbrev result :
    Kernel → (pid root : ℕ) → (m2 : Memory) → (pages1 pages2 : PageInfos) → Memory → Kernel
result k pid root m2 pages1 pages2 m1 =
    fork_return (record (with_child k pid root pages1 m1) { mem = m2; pageinfo = pages2 }) pid

fork_runs :
    (k : Kernel) (pid l1 root : ℕ) (pages1 pages2 : PageInfos) (m1 m2 : Memory)
    → find_free_pid k.processes (nproc - 1) 1 ≡ some pid
    → (current_proc k).p_pagetable ≡ l1
    → duplicate_pagetable k.mem k.pageinfo l1 pid ≡ ok (root, pages1, m1)
    → root ≢ 0
    → fork_pages m1 pages1 l1 root pid 512 0x100000 ≡ ok (pages2, m2)
    → fork k ≡ ok (result k pid root m2 pages1 pages2 m1, true)
unfolding fork fork_into fork_memory with_child
fork_runs k pid l1 root pages1 pages2 m1 m2 found is_l1 dup nonzero loop =
    rw (fork, found) (rw is_l1 (rw dup (rw (ne→== root 0 nonzero, loop) refl)))

-- The two descriptors.
child_lem :
    (k : Kernel) (pid root : ℕ) (pages1 pages2 : PageInfos) (m1 m2 : Memory)
    → pid ≢ k.current
    → ((result k pid root m2 pages1 pages2 m1).processes pid ≡ record (k.processes pid) {
      p_pid = pid;
      p_registers = record ((current_proc k).p_registers) { reg_rax = 0 };
      p_state = ProcState.runnable;
      p_pagetable = root;
    })
      × ((result k pid root m2 pages1 pages2 m1).processes k.current ≡ record (current_proc k) {
        p_registers = record ((current_proc k).p_registers) { reg_rax = pid };
      })
unfolding fork_return with_child set_proc
child_lem k pid root pages1 pages2 m1 m2 other =
    let apart : (pid == k.current) ≡ false = ne→== pid k.current other in
    let apart' : (k.current == pid) ≡ false = ne→== k.current pid (λ e. other (sym e)) in
    let self : (pid == pid) ≡ true = eq→== pid pid refl in
    let self' : (k.current == k.current) ≡ true = eq→== k.current k.current refl in
    (rw (apart, apart', self) refl, rw (apart', self') refl)

module _ (k : Kernel) (t : Tables) (pid : ℕ) (can : CanFork k t) (u : Tables) (pages1 : PageInfos)
    (m1 : Memory) (a : AreAllocated k.pageinfo pid u pages1) (us : AreTables u)
    (sep : Separate u t) where
  used_stays : StaysUsed k.pageinfo pages1
  used_stays n h used z =
      used (sym (ap (λ i. i.refcount) (new_tables-same k.pageinfo pid u pages1 a n used)) ∙ z)

  InUse-same : InUse pages1 t
  InUse-same = record {
    l1_used = used_stays (t.l1 / 4096) (omega (arith, can.tables)) can.tables_used.l1_used;
    l2_used = used_stays (t.l2 / 4096) (omega (arith, can.tables)) can.tables_used.l2_used;
    l3_used = used_stays (t.l3 / 4096) (omega (arith, can.tables)) can.tables_used.l3_used;
    l4_1_used = used_stays (t.l4_1 / 4096) (omega (arith, can.tables)) can.tables_used.l4_1_used;
    l4_2_used = used_stays (t.l4_2 / 4096) (omega (arith, can.tables)) can.tables_used.l4_2_used;
  }

  still_sound : AreSound u (view k t) pages1 0x100000 512
  still_sound = record {
    exists = λ b h. can.exists b (omega (arith, h)) h.2;
    number = λ b h. number b h;
    in_use = λ b h. used_stays (view k t b).pn (small b h) (can.in_use b h);
    no_table = λ b h.
        let out = new_tables-Outside k.pageinfo pid u pages1 a (view k t b).pa (page_used b h) in
        (out.3, out.4);
    few = λ b h.
        rw (new_tables-same k.pageinfo pid u pages1 a (view k t b).pn (can.in_use b h.0))
          (can.few b h);
    once = can.once;
  }
    where
      number :
          (b : ℕ) → IsMapped (view k t) 0x100000 512 b → (view k t b).pn ≡ (view k t b).pa / 4096
      number b h = number_of_view k t b can (omega (arith, h)) h.2

      small : (b : ℕ) → IsMapped (view k t) 0x100000 512 b → (view k t b).pn < 512
      small b h = omega (arith, number b h, can.exists b (omega (arith, h)) h.2)

      page_used :
          (b : ℕ)
          → IsMapped (view k t) 0x100000 512 b
          → (k.pageinfo ((view k t b).pa / 4096)).refcount ≢ 0
      page_used b h z = can.in_use b h (ap (λ n. (k.pageinfo n).refcount) (number b h) ∙ z)

  -- The bytes of pages in use, after the loop.
  memory_kept :
      (m2 : Memory) (pages2 : PageInfos)
      → ((x : ℕ) → Outside u x → m1 x ≡ k.mem x)
      → AreForked t u can.tables us sep (view k t) m1 pages1 0x100000 512 m2 pages2
      → (x : ℕ) → x < 0x200000
      → (k.pageinfo (x / 4096)).refcount ≢ 0
      → m2 x ≡ k.mem x
  memory_kept m2 pages2 same f x h used =
      let out = new_tables-Outside k.pageinfo pid u pages1 a x used in
      f.frame x (omega arith) (used_stays (x / 4096) (omega arith) used) (out.3, out.4) ∙ same x out

  -- A page of application memory in the child, described from before the call.
  page-IsForked :
      (m2 : Memory) (pages2 : PageInfos)
      → ((x : ℕ) → Outside u x → m1 x ≡ k.mem x)
      → Ready t u can.tables us sep (view k t) m1 pages1
      → AreForked t u can.tables us sep (view k t) m1 pages1 0x100000 512 m2 pages2
      → (b : ℕ) → 0x100000 ≤ b
      → b < 0x300000
      → IsForked t u can.tables us sep (view k t) k.mem k.pageinfo m2 b
  page-IsForked m2 pages2 same r f b from to =
      later_page t u can.tables us sep (view k t) k.mem m1 m2 k.pageinfo pages1 b used_stays
        (λ copied.
          let mapped : IsMapped (view k t) 0x100000 512 b = (
            from,
            omega arith,
            copied_present t u can.tables us sep (view k t) m1 pages1 r pid b (omega arith) copied,
          ) in
          let number = number_of_view k t b can to mapped.2 in
          let exists = can.exists b to mapped.2 in
          same (view k t b).pa (
            new_tables-Outside k.pageinfo pid u pages1 a (view k t b).pa
              λ z. can.in_use b mapped (ap (λ n. (k.pageinfo n).refcount) number ∙ z)))
        (f.page b from (omega arith))

-- In a state as `CanFork` describes it, and with a free descriptor, the system call returns. The
-- child has the parent's registers but for 0 in `rax`, the parent gets the child's number. The
-- child's page table shows the parent's mappings below 1 MB; from there to 3 MB every page that the
-- parent can write, the console apart, is a copy, with the parent's permissions, of the parent's
-- bytes, on a page that was free, another one for each; every other page is mapped as for the
-- parent. From 3 to 4 MB nothing is mapped. The parent's view does not change, nor does any byte of
-- a page that was in use.
pub fork_copies :
    (k : Kernel) (t : Tables) (pid : ℕ)
    → CanFork k t
    → find_free_pid k.processes (nproc - 1) 1 ≡ some pid
    → pid ≢ k.current
    → (k' : Kernel) × (u : Tables) × (fork k ≡ ok (k', true)) × HasForked k t u pid k'
unfolding fork_return
fork_copies k t pid can found other =
    let (u, pages1, m1, dup, a, us, sep, cu, ct, bytes1, same, looks) =
      duplicate_pagetable_all k.mem k.pageinfo t pid can.tables can.connected can.bytes can.five
        can.tables_used (λ va h. can.exists va (omega arith)) in
    let ready : Ready t u can.tables us sep (view k t) m1 pages1 = record {
      parent = ct;
      child = cu;
      bytes = bytes1;
      parent_used = InUse-same k t pid can u pages1 m1 a us sep;
      child_used = new_tables-InUse k.pageinfo pid u pages1 a;
      shows = λ b h. (looks b h).1;
    } in
    let (m2, pages2, loop, f) =
      fork_pages-AreForked t u can.tables us sep (view k t) 512 0x100000 m1 pages1 pid ready
        (omega arith) (omega arith) (still_sound k t pid can u pages1 m1 a us sep)
        (omega (arith, can.enough, new_tables-free k.pageinfo pid u pages1 a)) in
    let page = page-IsForked k t pid can u pages1 m1 a us sep m2 pages2 same ready f in
    let procs = child_lem k pid u.l1 pages1 pages2 m1 m2 other in
    (
      result k pid u.l1 m2 pages1 pages2 m1,
      u,
      fork_runs k pid t.l1 u.l1 pages1 pages2 m1 m2 found can.root dup (omega (arith, us)) loop,
      record {
        low = λ b h.
            f.others b (omega arith) (inl h)
            ∙ (looks b (omega arith)).0
            ∙ rw (lt→ltb b 0x100000 h) refl;
        copied = λ b from to. (page b from to).0;
        apart = λ b c from to. f.apart b c from (omega arith);
        shared = λ b from to. (page b from to).1;
        high = λ b from to.
            f.others b to (inr (omega arith))
            ∙ (looks b to).0
            ∙ rw (le→ltb b 0x100000 (omega arith)) refl;
        parent = λ b h. f.ready.shows b h;
        memory = memory_kept k t pid can u pages1 m1 a us sep m2 pages2 same f;
        child_proc = procs.0;
        parent_proc = procs.1;
      },
    )
