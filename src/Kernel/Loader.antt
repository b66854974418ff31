-- ===== src/Kernel/Loader.antt =====
-- k-loader.c: it loads a program's segments into a process.
pub mod Allocation
use virtual_memory.Base.{
  ℕ, zero, suc, ◌+◌, ◌-◌, ◌*◌, ◌/◌, ◌%◌, ◌^◌, Bool, true, false, not, ◌&&◌, ◌||◌, ltb, ◌==◌,
  if◌then◌else◌, Outcome, ok, panicked, ◌>>=◌, ◌>>◌, assert,
}
use virtual_memory.Memory.{Memory, store8}
use virtual_memory.Paging.{page_size, has, pte_p, pte_w}
use virtual_memory.Vm.{
  Symbols, minus_one, is_nonneg, set_pagetable, virtual_memory_lookup, virtual_memory_map,
}
use virtual_memory.Pages.{PageInfos, alloc_page_process}
use virtual_memory.Process.{Proc}
use virtual_memory.Elf.{
  ElfHeader, elf_header, ElfProgram, elf_program, elf_program_size, elf_pflag_write, elf_magic,
}
use virtual_memory.Kernel.Checks.{pages_between}

-- The loop that allocates the pages of a segment, with the pages that are left. The result is 0 or
-- -1. The message of a failure, which is followed by a failed assertion in `process_setup`, is left
-- out.
unfoldable pub allocate_pages :
    Memory → PageInfos → (pagetable pid left addr : ℕ) → Outcome (ℕ × PageInfos × Memory)
allocate_pages m pages pagetable pid zero addr = ok (0, pages, m)
allocate_pages m pages pagetable pid (suc left) addr =
    let (p_addr, pages') = alloc_page_process pages pid in
    if p_addr == 0 then ok (minus_one, pages', m) else (do
      (r, m') ← virtual_memory_map m pagetable addr p_addr page_size 7
      if is_nonneg r
          then allocate_pages m' pages' pagetable pid left (addr + page_size)
          else ok (minus_one, pages', m'))

-- A store by the kernel while `pagetable` is active; without a writable mapping it faults.
unfoldable pub store_virtual : Memory → (pagetable va byte : ℕ) → Outcome Memory
store_virtual m pagetable va byte = do
  let map = virtual_memory_lookup m pagetable va
  assert (has map.perm pte_p)
  assert (has map.perm pte_w)
  ok (store8 m map.pa byte)

-- A load by the kernel while `pagetable` is active.
unfoldable pub load_virtual : Memory → (pagetable va : ℕ) → Outcome ℕ
load_virtual m pagetable va = do
  let map = virtual_memory_lookup m pagetable va
  assert (has map.perm pte_p)
  ok (m map.pa)

-- `memcpy` and `memset` while `pagetable` is active.
unfoldable pub memcpy_virtual : Memory → (pagetable dst src n : ℕ) → Outcome Memory
memcpy_virtual m pagetable dst src zero = ok m
memcpy_virtual m pagetable dst src (suc n) = do
  byte ← load_virtual m pagetable src
  m' ← store_virtual m pagetable dst byte
  memcpy_virtual m' pagetable (dst + 1) (src + 1) n

unfoldable pub memset_virtual : Memory → (pagetable v c n : ℕ) → Outcome Memory
memset_virtual m pagetable v c zero = ok m
memset_virtual m pagetable v c (suc n) = do
  m' ← store_virtual m pagetable v c
  memset_virtual m' pagetable (v + 1) c n

-- The loop that takes the write permission from a segment's pages, with the pages that are left.
unfoldable pub protect_pages : Memory → (pagetable flags left addr : ℕ) → Outcome Memory
protect_pages m pagetable flags zero addr = ok m
protect_pages m pagetable flags (suc left) addr = do
  m' ← if has flags elf_pflag_write then ok m else (do
    (_, m1) ←
        virtual_memory_map m pagetable addr (virtual_memory_lookup m pagetable addr).pa page_size 5
    ok m1)
  protect_pages m' pagetable flags left (addr + page_size)

-- The part behind the allocation.
unfoldable pub fill_segment :
    Symbols → Memory → (pagetable flags src va end_file end_mem : ℕ) → Outcome Memory
fill_segment s m pagetable flags src va end_file end_mem = do
  _ ← set_pagetable s m pagetable
  m1 ← memcpy_virtual m pagetable va src ((end_file + 2 ^ 64 - va) % 2 ^ 64)
  m2 ← memset_virtual m1 pagetable end_file 0 ((end_mem + 2 ^ 64 - end_file) % 2 ^ 64)
  m3 ← protect_pages m2 pagetable flags (pages_between va end_mem) va
  _ ← set_pagetable s m3 s.kernel_pagetables
  ok m3

-- The result is 0 or -1, with the new array and memory.
unfoldable pub program_load_segment :
    Symbols → Memory → PageInfos → Proc → ElfProgram → (src : ℕ) → Outcome (ℕ × PageInfos × Memory)
program_load_segment s m pages p ph src = do
  let end_file = (ph.p_va + ph.p_filesz) % 2 ^ 64
  let end_mem = (ph.p_va + ph.p_memsz) % 2 ^ 64
  let va = ph.p_va - ph.p_va % page_size
  (r, pages', m1) ← allocate_pages m pages p.p_pagetable p.p_pid (pages_between va end_mem) va
  if not (is_nonneg r) then ok (r, pages', m1) else (do
    m2 ← fill_segment s m1 p.p_pagetable ph.p_flags src va end_file end_mem
    ok (0, pages', m2))

-- The loop over the program headers, with those left.
unfoldable pub load_segments :
    Symbols → Memory → PageInfos → Proc → (eh ph left : ℕ) → Outcome (ℕ × PageInfos × Memory)
load_segments s m pages p eh ph zero = ok (0, pages, m)
load_segments s m pages p eh ph (suc left) = do
  let header = elf_program m ph
  (r, pages', m') ←
      if header.p_type == 1
      then program_load_segment s m pages p header ((eh + header.p_offset) % 2 ^ 64)
      else ok (0, pages, m)
  if is_nonneg r
      then load_segments s m' pages' p eh (ph + elf_program_size) left
      else ok (minus_one, pages', m')

-- `ramimages programnumber` is where the linker has put a program's image. The result is 0 or -1,
-- with the new process, array and memory.
unfoldable pub program_load :
    Symbols
    → (ramimages : ℕ → ℕ) → Memory
    → PageInfos
    → Proc
    → (programnumber : ℕ) → Outcome (ℕ × Proc × PageInfos × Memory)
program_load s ramimages m pages p programnumber = do
  assert (is_nonneg programnumber && ltb programnumber 7)
  let begin = ramimages programnumber
  let eh = elf_header m begin
  assert (eh.e_magic == elf_magic)
  (r, pages', m') ← load_segments s m pages p begin ((begin + eh.e_phoff) % 2 ^ 64) eh.e_phnum
  if is_nonneg r
      then ok (
        0,
        record p {
          p_registers = record (p.p_registers) { reg_rip = (elf_header m' begin).e_entry };
        },
        pages',
        m',
      )
      else ok (minus_one, p, pages', m')
