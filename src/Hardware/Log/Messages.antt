-- ===== src/Hardware/Log/Messages.antt =====
-- The log receives the text of a message byte by byte, and `panic` reports before it stops.
use virtual_memory.Base.{
  ℕ, ◌%◌, ◌≤◌, ◌≡◌, refl, ap, sym, ◌∙◌, inl, inr, ◌==◌, if◌then◌else◌, List, [], ◌∷◌, ◌++◌, some,
  arith, Bool-cases,
}
use virtual_memory.Print.Characters.{
  Character, put_each, bytes_of, characters, printer_vprintf-characters,
}
use virtual_memory.Print.Printers.{console_vprintf, console_cells}
use virtual_memory.Print.Printers.Bounds.{console_vprintf_bounds}
use virtual_memory.Hardware.Ports.{Outb, parallel_port_putc}
use virtual_memory.Hardware.Log.{LogPrinter, log_putc, log_vprintf, error_vprintf, Reported}

-- The bytes that the calls send to the data register of the parallel port.
abbrev pub sent : List Outb → List ℕ
sent [] = []
sent (call ∷ calls) = if call.port == 0x378 then call.byte ∷ sent calls else sent calls

sent-append : (xs ys : List Outb) → sent (xs ++ ys) ≡ sent xs ++ sent ys
sent-append [] ys = refl
sent-append (x ∷ xs) ys = elim (Bool-cases (x.port == 0x378)) [
  | inl is ↦ rw is (ap (λ l. x.byte ∷ l) (sent-append xs ys))
  | inr isnt ↦ rw isnt (sent-append xs ys)
]

pub append_assoc : (xs ys zs : List ℕ) → (xs ++ ys) ++ zs ≡ xs ++ (ys ++ zs)
append_assoc [] ys zs = refl
append_assoc (x ∷ xs) ys zs = ap (λ l. x ∷ l) (append_assoc xs ys zs)

pub append_nil : (xs : List ℕ) → xs ++ [] ≡ xs
append_nil [] = refl
append_nil (x ∷ xs) = ap (λ l. x ∷ l) (append_nil xs)

module _ (status : ℕ → ℕ) where
  -- One character, whether or not the port has been set up.
  sent-log_putc :
      (p : LogPrinter) (c color : ℕ)
      → sent (log_putc status p c color).calls ≡ sent p.calls ++ (c % 256 ∷ [])
  unfolding log_putc parallel_port_putc
  sent-log_putc p c color = elim (Bool-cases p.initialized) [
    | inl is ↦ rw is (sent-append p.calls _)
    | inr isnt ↦ rw isnt (sent-append p.calls _)
  ]

  sent-put_each :
      (cs : List Character) (p : LogPrinter)
      → sent (put_each (log_putc status) cs p).calls ≡ sent p.calls ++ bytes_of cs
  sent-put_each [] p = sym (append_nil (sent p.calls))
  sent-put_each (c ∷ cs) p =
      sent-put_each cs (log_putc status p c.code c.color)
      ∙ ap (λ l. l ++ bytes_of cs) (sent-log_putc p c.code c.color)
      ∙ append_assoc (sent p.calls) (c.code % 256 ∷ []) (bytes_of cs)

  -- Whatever the port's status is, and however long a character waits for it, `log_vprintf` ends,
  -- and the bytes that it sends to the port's data register are the characters of the format, each
  -- once and in their order.
  pub log_vprintf_sends :
      (p : LogPrinter) (format : List ℕ) (args : ℕ → ℕ) (string_at : ℕ → List ℕ)
      → (p' : LogPrinter) × (log_vprintf status p format args string_at ≡ some p')
        × (sent p'.calls ≡ sent p.calls ++ bytes_of (characters args string_at 0 format))
  unfolding log_vprintf
  log_vprintf_sends p format args string_at =
      let cs = characters args string_at 0 format in
      (
        put_each (log_putc status) cs p,
        printer_vprintf-characters (log_putc status) args string_at 0 format p,
        sent-put_each cs p,
      )

  -- The same message on the log and on the screen.
  pub error_vprintf_reports :
      (r : Reported) (color : ℕ) (format : List ℕ) (args : ℕ → ℕ) (string_at : ℕ → List ℕ)
      → (r' : Reported) × (error_vprintf status r color format args string_at ≡ some r')
        × (sent r'.log.calls ≡ sent r.log.calls ++ bytes_of (characters args string_at 0 format))
        × (r'.console.cursor ≤ console_cells)
        × (console_vprintf r.console.cells r.console.cursor color format args string_at
            ≡ some r'.console)
  unfolding error_vprintf
  error_vprintf_reports r color format args string_at =
      let (log, runs, said) = log_vprintf_sends r.log format args string_at in
      let (cp, shows, within, _) =
        console_vprintf_bounds r.console.cells r.console.cursor color 2000 format args string_at
          (omega arith) in
      (record { log = log; console = cp }, rw (runs, shows) refl, said, within, shows)
