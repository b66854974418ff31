-- ===== src/Kernel/Start.antt =====
-- How the kernel starts: the hardware, the tables of pages and processes, and the first programs.
use virtual_memory.Base.{
  ℕ, zero, suc, ◌+◌, ◌-◌, Bool, true, false, ◌&&◌, ◌==◌, if◌then◌else◌, List, [], ◌∷◌, ◌++◌, codes,
  Option, none, some, Outcome, ok, ◌>>=◌, ◌>>◌, assert,
}
use virtual_memory.Memory.{Memory}
use virtual_memory.Paging.{page_size, proc_start_addr, memsize_virtual}
use virtual_memory.Vm.{Symbols, is_nonneg, virtual_memory_init, virtual_memory_map}
use virtual_memory.Pages.{pageinfo_init, sys_page_alloc_find_free}
use virtual_memory.Print.Printers.{console_clear}
use virtual_memory.Process.{ProcState, Proc, zero_registers, process_init}
use virtual_memory.Hardware.Ports.{Outb, interrupt_init, timer_init}
use virtual_memory.Hardware.Segments.{Handlers, Processor, segments_init}
use virtual_memory.Kernel.{Kernel, set_proc, Resume, run}
use virtual_memory.Kernel.Fork.{duplicate_pagetable}
use virtual_memory.Kernel.Loader.{program_load}

abbrev pub hz : ℕ
hz = 100

-- The writes to the ports, `interrupts_enabled`, the processor's tables, the memory and CR3.
pub record Hardware : Type 0 where
  pub writes : List Outb
  pub interrupts_enabled : ℕ
  pub processor : Processor
  pub mem : Memory
  pub cr3 : ℕ

pub hardware_init : Symbols → Handlers → Processor → Memory → Outcome Hardware
hardware_init s h cpu m = do
  let (writes, enabled) = interrupt_init
  (m', cr3) ← virtual_memory_init s m
  ok (record {
    writes = writes;
    interrupts_enabled = enabled;
    processor = segments_init h cpu;
    mem = m';
    cr3 = cr3;
  })

-- The register that `process_setup` sets after the program is loaded.
abbrev pub set_rsp : Proc → ℕ → Proc
set_rsp p v = record p { p_registers = record (p.p_registers) { reg_rsp = v } }

pub process_setup :
    Symbols → (ramimages : ℕ → ℕ) → Kernel → (pid program_number : ℕ) → Outcome Kernel
process_setup s ramimages k pid program_number = do
  let p = process_init (k.processes pid) 0
  (pagetable_copy, pages1, m1) ← duplicate_pagetable k.mem k.pageinfo s.kernel_pagetables pid
  let p1 = record p { p_pagetable = pagetable_copy }
  (r, p2, pages2, m2) ← program_load s ramimages m1 pages1 p1 program_number
  assert (is_nonneg r)
  let p3 = set_rsp p2 memsize_virtual
  let stack_page = memsize_virtual - page_size
  (_, pages3, m3) ← sys_page_alloc_find_free m2 pages2 p3.p_pagetable pid stack_page
  ok (record k {
    mem = m3;
    pageinfo = pages3;
    processes = set_proc k.processes pid (record p3 { p_state = ProcState.runnable });
  })

-- A loop that sets up the processes from `pid` on, with those left.
pub setup_loop :
    Symbols → (ramimages : ℕ → ℕ) → (program_of : ℕ → ℕ) → Kernel → (left pid : ℕ) → Outcome Kernel
setup_loop s ramimages program_of k zero pid = ok k
setup_loop s ramimages program_of k (suc left) pid = do
  k' ← process_setup s ramimages k pid (program_of pid)
  setup_loop s ramimages program_of k' left (pid + 1)

-- `strcmp(…) == 0` for two strings without their terminating zeros.
pub is_same : List ℕ → List ℕ → Bool
is_same [] [] = true
is_same (x ∷ xs) (y ∷ ys) = (x == y) && is_same xs ys
is_same xs ys = false

pub is_command : Option (List ℕ) → List ℕ → Bool
is_command none name = false
is_command (some command) name = is_same command name

-- The processes that a command starts.
pub setup_command : Symbols → (ramimages : ℕ → ℕ) → Option (List ℕ) → Kernel → Outcome Kernel
setup_command s ramimages command k =
    if is_command command (codes "fork")
    then process_setup s ramimages k 1 4
    else if is_command command (codes "forkexit")
    then process_setup s ramimages k 1 5
    else if is_command command (codes "test")
    then process_setup s ramimages k 1 6
    else if is_command command (codes "test2")
    then setup_loop s ramimages (λ i. 6) k 2 1
    else setup_loop s ramimages (λ i. i - 1) k 4 1

-- The descriptors after the `memset` and the loop.
pub fresh_processes : ℕ → Proc
fresh_processes i = record {
  p_pid = i;
  p_registers = zero_registers;
  p_state = ProcState.free;
  p_pagetable = 0;
  display_status = false;
}

-- The two calls of `virtual_memory_map`, whose results are unused.
pub map_kernel : Symbols → Memory → Outcome Memory
map_kernel s m = do
  (_, m1) ← virtual_memory_map m s.kernel_pagetables 0 0 proc_start_addr 3
  (_, m2) ← virtual_memory_map m1 s.kernel_pagetables 0xB8000 0xB8000 page_size 7
  ok m2

-- `kernel`: the state that it finds is `k`. The result has the hardware and how it goes on.
pub kernel :
    Symbols
    → Handlers
    → (ramimages : ℕ → ℕ) → (command : Option (List ℕ)) → Processor
    → Kernel
    → Outcome (Hardware × Resume)
kernel s h ramimages command cpu k = do
  hw ← hardware_init s h cpu k.mem
  let pages = pageinfo_init s k.pageinfo
  let console = console_clear k.screen
  let (writes, enabled) = timer_init hz hw.interrupts_enabled
  m ← map_kernel s hw.mem
  let ready = record k {
    mem = m;
    pageinfo = pages;
    processes = fresh_processes;
    screen = console.cells;
    cr3 = hw.cr3;
  }
  k1 ← setup_command s ramimages command ready
  r ← run s k1 1
  ok (record hw { writes = hw.writes ++ writes; interrupts_enabled = enabled; mem = k1.mem }, r)
