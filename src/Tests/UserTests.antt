-- ===== src/Tests/UserTests.antt =====
-- The processes' library, and the messages of the kernel, at concrete inputs.
use virtual_memory.Base.{
  ℕ, ◌+◌, ◌-◌, ◌*◌, ◌%◌, ◌==◌, if◌then◌else◌, min, length, ◌≤◌, ◌<◌, ◌≡◌, refl, ◌⊎◌, false, List,
  [], ◌++◌, codes, get_or, some, panicked, arith,
}
use virtual_memory.Memory.{Memory}
use virtual_memory.Print.Characters.{bytes_of, characters}
use virtual_memory.Print.Printers.{ConsolePrinter, console_vprintf}
use virtual_memory.Process.{zero_registers}
use virtual_memory.Hardware.Log.{LogPrinter, log_vprintf, Reported}
use virtual_memory.Hardware.Log.Messages.{sent, log_vprintf_sends}
use virtual_memory.Hardware.Log.Panic.{panic_reports}
use virtual_memory.Kernel.Exceptions.{exception}
use virtual_memory.User.{app_printf, panic_buffer, sys_brk, sys_sbrk}
use virtual_memory.User.Calls.{brk_panics}
use virtual_memory.User.Cursor.{app_printf_cursor}
use virtual_memory.User.Report.{panic_buffer_line}
use virtual_memory.Tests.Machines.{symbols, zeros}
use virtual_memory.Tests.ExitTests.{running}
use virtual_memory.Tests.TrapTests.{yielding}
use virtual_memory.Hardware.Log

-- The port is busy at every other read.
abbrev port_status : ℕ → ℕ
port_status t = 128 * (t % 2)

abbrev empty_log : LogPrinter
empty_log = record { calls = []; polls = 0; initialized = false }

-- `"exit %d"`
abbrev exit_format : List ℕ
exit_format = codes "exit %d"

abbrev three : ℕ → ℕ
three next = 3

abbrev no_strings : ℕ → List ℕ
no_strings a = []

log_vprintf_sends_example :
    (p' : LogPrinter) × (log_vprintf port_status empty_log exit_format three no_strings ≡ some p')
    × (sent p'.calls ≡ [] ++ bytes_of (characters three no_strings 0 exit_format))
log_vprintf_sends_example = log_vprintf_sends port_status empty_log exit_format three no_strings

panic_reports_example :
    (r : Reported) × (c1 c2 : ConsolePrinter) × (Log.panic port_status empty_log zeros
        (some exit_format)
        three
        no_strings
      ≡ some r)
    × (console_vprintf zeros 1840 0xC000 (codes "PANIC: ") (λ i. 0) (λ a. []) ≡ some c1)
    × (console_vprintf c1.cells c1.cursor 0xC000 exit_format three no_strings ≡ some c2)
    × ((if c2.cursor % 80 == 0
          then some c2
          else console_vprintf c2.cells c2.cursor 0xC000 (codes "\n") (λ i. 0) (λ a. []))
        ≡ some r.console)
    × (r.console.cursor % 80 ≡ 0)
    × (sent r.log.calls
        ≡ []
          ++ (codes "PANIC: "
              ++ (bytes_of (characters three no_strings 0 exit_format)
                  ++ (if c2.cursor % 80 == 0 then [] else codes "\n"))))
panic_reports_example = panic_reports port_status empty_log zeros exit_format three no_strings

brk_panics_example :
    (exception symbols running (record yielding { registers = sys_brk zero_registers 0x200000 })
      ≡ panicked)
    × (exception symbols running (record yielding { registers = sys_sbrk zero_registers 4096 })
        ≡ panicked)
brk_panics_example = brk_panics symbols running yielding zero_registers 0x200000 4096 refl

app_printf_cursor_example :
    (cp : ConsolePrinter) × (app_printf
        (record { cells = zeros; cursor = 1839 })
        2
        exit_format
        three
        no_strings
      ≡ some cp)
    × (cp.cursor < 23 * 80)
    × (cp.cells 2000 ≡ 0)
app_printf_cursor_example =
    app_printf_cursor (record { cells = zeros; cursor = 1839 }) 2 2000 exit_format three no_strings
      (omega arith)

-- What the buffer's line holds.
abbrev exit_line : List ℕ
exit_line = codes "PANIC: " ++ bytes_of (characters three no_strings 0 exit_format)

panic_buffer_line_example :
    let n = min (length exit_line) 159 in
    (m' : Memory) × (last : ℕ) × (panic_buffer zeros 0x2FFE00 exit_format three no_strings
      ≡ some m')
    × (last ≡ (if get_or exit_line (n - 1) 0 == b'\n' then n - 1 else if n == 159 then 158 else n))
    × (6 ≤ last)
    × (last ≤ 158)
    × ((i : ℕ) → i < last → m' (0x2FFE00 + i) ≡ get_or exit_line i 0)
    × (m' (0x2FFE00 + last) ≡ b'\n')
    × (m' (0x2FFE00 + last + 1) ≡ 0)
    × ((x : ℕ) → (x < 0x2FFE00) ⊎ (0x2FFE00 + 160 ≤ x) → m' x ≡ 0)
panic_buffer_line_example = panic_buffer_line zeros 0x2FFE00 exit_format three no_strings
