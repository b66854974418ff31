-- ===== src/User.antt =====
-- The library of the application processes (process.c, process.h): the stubs of the system calls,
-- and printing.
pub mod Calls
pub mod Cursor
pub mod Report
use virtual_memory.Base.{
  ℕ, zero, suc, ◌+◌, ◌-◌, ◌*◌, ◌/◌, ◌%◌, ◌^◌, Bool, true, false, not, ◌&&◌, ltb, leb, ◌==◌,
  if◌then◌else◌, List, [], ◌∷◌, get_or, codes, Option, none, some,
}
use virtual_memory.Base.Options.{◌>>=◌}
use virtual_memory.Memory.{Memory, store8}
use virtual_memory.Vm.{is_nonneg}
use virtual_memory.Print.Printers.{ConsolePrinter, console_vprintf, vsnprintf}
use virtual_memory.Process.{Registers}
use virtual_memory.Kernel.Exceptions.{
  int_sys_panic, int_sys_getpid, int_sys_yield, int_sys_page_alloc, int_sys_fork, int_sys_exit,
  int_sys_mapping, int_sys_mem_tog,
}

abbrev pub int_sys_brk : ℕ
int_sys_brk = 57

abbrev pub int_sys_sbrk : ℕ
int_sys_sbrk = 58

-- The stubs: the registers that a trap by `int` saves, with the number of the interrupt, given the
-- registers before the arguments are put into theirs. What a stub returns is `rax`, of which an
-- `int` result takes the low 32 bits, when the process goes on.
module _ (reg : Registers) where
  unfoldable pub sys_getpid : Registers
  sys_getpid = record reg { reg_intno = int_sys_getpid }

  unfoldable pub sys_yield : Registers
  sys_yield = record reg { reg_intno = int_sys_yield }

  unfoldable pub sys_page_alloc : (addr : ℕ) → Registers
  sys_page_alloc addr = record reg { reg_intno = int_sys_page_alloc; reg_rdi = addr }

  unfoldable pub sys_fork : Registers
  sys_fork = record reg { reg_intno = int_sys_fork }

  unfoldable pub sys_exit : Registers
  sys_exit = record reg { reg_intno = int_sys_exit }

  unfoldable pub sys_panic : (msg : ℕ) → Registers
  sys_panic msg = record reg { reg_intno = int_sys_panic; reg_rdi = msg }

  unfoldable pub sys_mapping : (addr map : ℕ) → Registers
  sys_mapping addr map = record reg { reg_intno = int_sys_mapping; reg_rdi = map; reg_rsi = addr }

  unfoldable pub sys_mem_tog : (p : ℕ) → Registers
  sys_mem_tog p = record reg { reg_intno = int_sys_mem_tog; reg_rdi = p }

  unfoldable pub sys_brk : (addr : ℕ) → Registers
  sys_brk addr = record reg { reg_intno = int_sys_brk; reg_rdi = addr }

  unfoldable pub sys_sbrk : (increment : ℕ) → Registers
  sys_sbrk increment = record reg { reg_intno = int_sys_sbrk; reg_rdi = increment }

-- The five colors of `app_printf`.
abbrev pub app_colors : List ℕ
app_colors = 0x0E ∷ 0x0F ∷ 0x0C ∷ 0x0A ∷ 0x09 ∷ []

unfoldable pub app_color : (colorid : ℕ) → ℕ
app_color colorid =
    if not (is_nonneg colorid) then 0x0700 else get_or app_colors (colorid % 5) 0 * 2 ^ 8

-- The cells and `cursorpos` after the call. `colorid` is the pattern of an `int`.
unfoldable pub app_printf :
    ConsolePrinter
    → (colorid : ℕ) → (format : List ℕ) → (args : ℕ → ℕ) (string_at : ℕ → List ℕ)
    → Option ConsolePrinter
app_printf console colorid format args string_at = do
  cp ← console_vprintf console.cells console.cursor (app_color colorid) format args string_at
  some (if leb 23 (cp.cursor / 80) then record cp { cursor = 0 } else cp)

-- The bytes of a literal are stored one behind the other (`memcpy`, and `strcpy` with its zero).
unfoldable pub put_bytes : Memory → (a : ℕ) → List ℕ → Memory
unfolding store8
put_bytes m a [] = m
put_bytes m a (c ∷ cs) = put_bytes (store8 m a c) (a + 1) cs

-- The string at an address, with a bound on its length.
unfoldable pub string_from : Memory → (bound a : ℕ) → List ℕ
string_from m zero a = []
string_from m (suc bound) a =
    let rest = string_from m bound (a + 1) in if m a == 0 then [] else m a ∷ rest

-- `sizeof(buf)`
abbrev pub panic_size : ℕ
panic_size = 160

-- The buffer of `panic`, at the address `buf`, when it is printed.
unfoldable pub panic_buffer :
    Memory → (buf : ℕ) → (format : List ℕ) → (args : ℕ → ℕ) (string_at : ℕ → List ℕ) → Option Memory
panic_buffer m buf format args string_at = do
  let m1 = put_bytes m buf (codes "PANIC: ")
  (m2, n) ← vsnprintf m1 (buf + 7) (panic_size - 7) format args string_at
  let len = n + 7
  let shift = if len == panic_size - 1 then 1 else 0
  some (
      if ltb 0 len && not (m2 (buf + len - 1) == b'\n')
      then put_bytes m2 (buf + len - shift) (b'\n' ∷ 0 ∷ [])
      else m2)

-- The screen, and the registers of the system call that follows.
unfoldable pub panic :
    Memory
    → (cells : ℕ → ℕ) → Registers
    → (buf : ℕ) → (format : List ℕ) → (args : ℕ → ℕ) (string_at : ℕ → List ℕ)
    → Option (ConsolePrinter × Registers)
panic m cells reg buf format args string_at = do
  m' ← panic_buffer m buf format args string_at
  cp ←
      console_vprintf cells (23 * 80 + 0) 0xC000 (codes "%s") (λ i. buf)
        (λ a. string_from m' panic_size a)
  some (cp, sys_panic reg 0)

unfoldable pub assert_fail :
    (cells : ℕ → ℕ)
    → Registers
    → (file line msg : ℕ) (string_at : ℕ → List ℕ) → Option (ConsolePrinter × Registers)
assert_fail cells reg file line msg string_at = do
  cp ←
      console_vprintf cells (23 * 80 + 0) 0xC000 (codes "PANIC: %s:%d: assertion '%s' failed\n")
        (λ i. get_or (file ∷ line ∷ msg ∷ []) i 0) string_at
  some (cp, sys_panic reg 0)
