-- ===== src/Hardware/Log.antt =====
-- Messages (k-hardware.c): the log on the parallel port, errors on the log and the screen, and what
-- `panic` prints before it waits for a key.
pub mod Messages
pub mod Panic
use virtual_memory.Base.{
  ℕ, zero, suc, ◌+◌, ◌-◌, ◌*◌, ◌%◌, Bool, true, false, ltb, ◌==◌, if◌then◌else◌, List, [], ◌∷◌,
  ◌++◌, get_or, codes, Option, none, some,
}
use virtual_memory.Base.Options.{◌>>=◌}
use virtual_memory.Memory.{Memory}
use virtual_memory.Print.{printer_vprintf}
use virtual_memory.Print.Printers.{ConsolePrinter, console_vprintf}
use virtual_memory.Hardware.Ports.{Outb, outb, parallel_port_putc}
use virtual_memory.Hardware.Keyboard.{KeyboardState, Keyed, check_keyboard}

-- The calls of `outb`, how often the port's status has been read, and the static variable of
-- `parallel_port_putc`.
pub record LogPrinter : Type 0 where
  pub calls : List Outb
  pub polls : ℕ
  pub initialized : Bool

-- `p.putc = parallel_port_putc`. Its loop reads the status once for each round that it waits, and
-- once more if it is the status that ends it; `status t` is what the `t`-th read yields.
unfoldable pub log_putc : (status : ℕ → ℕ) → LogPrinter → (c color : ℕ) → LogPrinter
log_putc status p c color =
    let (calls, waited, initialized) =
      parallel_port_putc (λ i. status (p.polls + i)) p.initialized c in
    record {
      calls = p.calls ++ calls;
      polls = p.polls + (if ltb waited 12800 then waited + 1 else 12800);
      initialized = initialized;
    }

-- `vprintf` on the log and on the screen.
pub record Reported : Type 0 where
  pub log : LogPrinter
  pub console : ConsolePrinter

module _ (status : ℕ → ℕ) where
  unfoldable pub log_vprintf :
      LogPrinter → (format : List ℕ) → (args : ℕ → ℕ) (string_at : ℕ → List ℕ) → Option LogPrinter
  log_vprintf p format args string_at = printer_vprintf (log_putc status) args string_at 0 format p

  -- The screen's cells and the position come in as `console`.
  unfoldable pub error_vprintf :
      Reported
      → (color : ℕ) → (format : List ℕ) → (args : ℕ → ℕ) (string_at : ℕ → List ℕ) → Option Reported
  error_vprintf r color format args string_at = do
    log ← log_vprintf r.log format args string_at
    console ← console_vprintf r.console.cells r.console.cursor color format args string_at
    some (record { log = log; console = console })

  -- A format without a `%` takes no arguments.
  abbrev error_text : Reported → (text : List ℕ) → Option Reported
  error_text r text = error_vprintf r 0xC000 text (λ i. 0) (λ a. [])

  -- What `panic` prints on the log and from the start of row 23 on; `format` may be NULL.
  unfoldable pub panic :
      LogPrinter
      → (cells : ℕ → ℕ) → (format : Option (List ℕ)) → (args : ℕ → ℕ) (string_at : ℕ → List ℕ)
      → Option Reported
  panic log cells (some format) args string_at = do
    r1 ←
        error_text (record { log = log; console = record { cells = cells; cursor = 23 * 80 + 0 } })
          (codes "PANIC: ")
    r2 ← error_vprintf r1 0xC000 format args string_at
    if r2.console.cursor % 80 == 0 then some r2 else error_text r2 (codes "\n")
  panic log cells none args string_at =
      error_text (record { log = log; console = record { cells = cells; cursor = 23 * 80 + 0 } })
        (codes "PANIC")

  -- `file` and `msg` are addresses of strings, `line` the pattern of an `int`.
  unfoldable pub assert_fail :
      LogPrinter → (cells : ℕ → ℕ) (file line msg : ℕ) (string_at : ℕ → List ℕ) → Option Reported
  assert_fail log cells file line msg string_at =
      panic log cells (some (codes "%s:%d: assertion '%s' failed\n"))
        (λ i. get_or (file ∷ line ∷ msg ∷ []) i 0) string_at

  unfoldable pub default_exception : LogPrinter → (cells : ℕ → ℕ) (reg_intno : ℕ) → Option Reported
  default_exception log cells reg_intno =
      panic log cells (some (codes "Unexpected exception %d!\n")) (λ i. reg_intno) (λ a. [])

-- The loop of `fail` over what the keyboard's two ports yield: `none` while no key has ended it.
unfoldable pub fail : (polls : List (ℕ × ℕ)) → KeyboardState → Memory → Option Keyed
fail [] k m = none
fail ((status, byte) ∷ polls) k m =
    let (key, k') = check_keyboard status byte k m in
    let rest = fail polls k' m in
    elim key [
      | Keyed.returns_key c ↦ rest
      | Keyed.reboots argument m' ↦ some (Keyed.reboots argument m')
      | Keyed.powers_off ↦ some Keyed.powers_off
    ]

-- The screen where the machine cannot be turned off.
unfoldable pub cannot_power_off : (cells : ℕ → ℕ) → Option ConsolePrinter
cannot_power_off cells =
    console_vprintf cells (24 * 80 + 0) 0xC000 (codes "Cannot power off!\n") (λ i. 0) (λ a. [])

unfoldable pub reboot : List Outb
reboot = outb 0x92 3 ∷ []
