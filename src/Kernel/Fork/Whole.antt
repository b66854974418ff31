-- ===== src/Kernel/Fork/Whole.antt =====
-- The fork system call as a whole.
use virtual_memory.Base.{ℕ, ◌+◌, ◌*◌, ◌/◌, ◌%◌, ◌≤◌, ◌<◌, ◌≡◌, ◌≢◌, true, false, arith}
use virtual_memory.Memory.{load64}
use virtual_memory.Memory.Words.{IsBytes}
use virtual_memory.Vm.{Tables, Vamapping, unmapped, virtual_memory_lookup}
use virtual_memory.Vm.Layout.{AreTables, Connected, slot, mapping_of, lookup-Connected}
use virtual_memory.Pages.Assign.{IsFree}
use virtual_memory.Process.{ProcState}
use virtual_memory.Kernel.{Kernel, current_proc}
use virtual_memory.Kernel.Fork.Allocated.{FiveFree}
use virtual_memory.Kernel.Fork.Copying.{InUse}
use virtual_memory.Kernel.Fork.FreePages.{free_pages}
use virtual_memory.Kernel.Fork.Rounds.{page_start, copies}
use virtual_memory.Kernel.Fork.Pages.{copied_pages, IsMapped, IsShared}

-- What lookups through the page table `t` of the current process give.
abbrev pub view : Kernel → Tables → ℕ → Vamapping
view k t = virtual_memory_lookup k.mem t.l1

-- The state in which fork succeeds: the current process has a connected page table of the kernel's
-- shape on pages in use; what it maps below 3 MB exists, and from 1 MB on is in use; the pages that
-- it cannot write are mapped once there, with at most 254 references; five pages are free for the
-- new page table, and one more for each page to copy.
pub record CanFork (k : Kernel) (t : Tables) : Type 0 where
  pub tables : AreTables t
  pub root : (current_proc k).p_pagetable ≡ t.l1
  pub connected : Connected k.mem t
  pub bytes : IsBytes k.mem
  pub tables_used : InUse k.pageinfo t
  pub exists : (b : ℕ) → b < 0x300000 → (view k t b).perm % 2 ≡ 1 → (view k t b).pa < 0x200000
  pub in_use :
      (b : ℕ) → IsMapped (view k t) 0x100000 512 b → (k.pageinfo (view k t b).pn).refcount ≢ 0
  pub few :
      (b : ℕ) → IsShared (view k t) 0x100000 512 b → (k.pageinfo (view k t b).pn).refcount < 255
  pub once :
      (b c : ℕ)
      → IsShared (view k t) 0x100000 512 b
      → IsShared (view k t) 0x100000 512 c
      → b < c
      → (view k t b).pn ≢ (view k t c).pn
  pub five : FiveFree k.pageinfo
  pub enough : copied_pages (view k t) 512 0x100000 + 5 ≤ free_pages k.pageinfo 511 1

-- The state behind a successful fork of the process with table `t` into `pid` with table `u`.
pub record HasForked (k : Kernel) (t u : Tables) (pid : ℕ) (k' : Kernel) : Type 0 where
  pub low : (b : ℕ) → b < 0x100000 → view k' u b ≡ view k t b
  pub copied :
      (b : ℕ)
      → 0x100000 ≤ b
      → b < 0x300000
      → copies (view k t (page_start b)) ≡ true
      → IsFree k.pageinfo (view k' u b).pn
        × ((view k' u b).pa ≡ (view k' u b).pn * 4096 + b % 4096)
        × ((view k' u b).perm ≡ (view k t b).perm)
        × (k'.mem (view k' u b).pa ≡ k.mem (view k t b).pa)
  pub apart :
      (b c : ℕ)
      → 0x100000 ≤ b
      → c < 0x300000
      → b / 4096 < c / 4096
      → copies (view k t (page_start b)) ≡ true
      → copies (view k t (page_start c)) ≡ true
      → (view k' u b).pn ≢ (view k' u c).pn
  pub shared :
      (b : ℕ)
      → 0x100000 ≤ b
      → b < 0x300000
      → copies (view k t (page_start b)) ≡ false
      → view k' u b ≡ view k t b
  pub high : (b : ℕ) → 0x300000 ≤ b → b < 0x400000 → view k' u b ≡ unmapped
  pub parent : (b : ℕ) → b < 0x400000 → view k' t b ≡ view k t b
  pub memory : (x : ℕ) → x < 0x200000 → (k.pageinfo (x / 4096)).refcount ≢ 0 → k'.mem x ≡ k.mem x
  pub child_proc : k'.processes pid ≡ record (k.processes pid) {
    p_pid = pid;
    p_registers = record ((current_proc k).p_registers) { reg_rax = 0 };
    p_state = ProcState.runnable;
    p_pagetable = u.l1;
  }
  pub parent_proc : k'.processes k.current ≡ record (current_proc k) {
    p_registers = record ((current_proc k).p_registers) { reg_rax = pid };
  }

-- A mapping that is there, in memory that exists, has its page's number.
pub number_of_view :
    (k : Kernel) (t : Tables) (b : ℕ)
    → CanFork k t
    → b < 0x300000
    → (view k t b).perm % 2 ≡ 1
    → (view k t b).pn ≡ (view k t b).pa / 4096
number_of_view k t b can h present =
    number_if b (load64 k.mem (slot t b)) (view k t b)
      (lookup-Connected k.mem t can.tables can.connected can.bytes b (omega arith)) present
      (can.exists b h present)
  where
    number_if :
        (a e : ℕ) (w : Vamapping)
        → w ≡ mapping_of a e
        → w.perm % 2 ≡ 1
        → w.pa < 0x200000
        → w.pn ≡ w.pa / 4096
    number_if a e w is present' low = ground (arith, is)
