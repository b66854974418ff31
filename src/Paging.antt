-- ===== src/Paging.antt =====
-- The paged-memory constants and macros of x86-64.h and kernel.h, on 64-bit patterns.
pub mod Flags
use virtual_memory.Base.{ℕ, ◌+◌, ◌-◌, ◌*◌, ◌/◌, ◌%◌, ◌^◌, bit_and, Bool, not, ◌==◌}
use virtual_memory.Memory.{Memory, load64}

abbrev pub page_size : ℕ
page_size = 0x1000

abbrev pub memsize_physical : ℕ
memsize_physical = 0x200000

abbrev pub memsize_virtual : ℕ
memsize_virtual = 0x300000

abbrev pub proc_start_addr : ℕ
proc_start_addr = 0x100000

abbrev pub kernel_start_addr : ℕ
kernel_start_addr = 0x40000

abbrev pub kernel_stack_top : ℕ
kernel_stack_top = 0x80000

abbrev pub console_addr : ℕ
console_addr = 0xB8000

-- `MEMSIZE_PHYSICAL / PAGESIZE`
abbrev pub npages : ℕ
npages = 512

abbrev pub pte_p : ℕ
pte_p = 1

abbrev pub pte_w : ℕ
pte_w = 2

abbrev pub pte_u : ℕ
pte_u = 4

-- `(int) ((uintptr_t) ptr >> PAGEOFFBITS)`, as the 32-bit pattern of the `int`.
unfoldable pub pagenumber : ℕ → ℕ
pagenumber ptr = ptr / 2 ^ 12 % 2 ^ 32

-- `(uintptr_t) pn << PAGEOFFBITS`
unfoldable pub pageaddress : ℕ → ℕ
pageaddress pn = pn * 2 ^ 12 % 2 ^ 64

-- `(int) (addr >> (PAGEOFFBITS + (3 - level) * PAGEINDEXBITS)) & 0x1FF`; every caller passes a
-- literal level from 0 to 3, for which the function's assertion holds.
unfoldable pub pageindex : ℕ → ℕ → ℕ
pageindex addr level = bit_and (addr / 2 ^ (12 + (3 - level) * 9) % 2 ^ 32) 0x1FF

unfoldable pub pageoffset : ℕ → ℕ
pageoffset addr = bit_and addr 0xFFF

-- `pageentry & ~0xFFFUL`
unfoldable pub pte_addr : ℕ → ℕ
pte_addr pe = bit_and pe 0xFFFFFFFFFFFFF000

-- `pageentry & 0xFFFU`
unfoldable pub pte_flags : ℕ → ℕ
pte_flags pe = bit_and pe 0xFFF

-- `x & f` as a condition.
unfoldable pub has : ℕ → ℕ → Bool
has x f = not (bit_and x f == 0)

-- `((x86_64_pagetable*) pt)->entry[i]`
abbrev pub entry_addr : ℕ → ℕ → ℕ
entry_addr pt i = pt + 8 * i

abbrev pub entry : Memory → ℕ → ℕ → ℕ
entry m pt i = load64 m (entry_addr pt i)
