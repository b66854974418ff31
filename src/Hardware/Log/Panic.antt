-- ===== src/Hardware/Log/Panic.antt =====
-- `panic` reports on the log and the screen before it stops.
use virtual_memory.Base.{
  ℕ, zero, suc, ◌+◌, ◌-◌, ◌%◌, ◌≡◌, refl, ap, sym, ◌∙◌, inl, inr, not, ◌||◌, leb, ◌==◌,
  if◌then◌else◌, List, [], ◌∷◌, ◌++◌, codes, some, arith, Bool-cases, ==→eq,
}
use mathlib.Core.Option.{some-injective}
use virtual_memory.Vm.{is_nonneg}
use virtual_memory.Print.Characters.{put_each, bytes_of, characters, printer_vprintf-characters}
use virtual_memory.Print.Printers.{
  ConsolePrinter, console_vprintf, console_putc, put_cells, put_cell, console_cells,
}
use virtual_memory.Hardware.Log.{LogPrinter, error_vprintf, Reported, panic}
use virtual_memory.Hardware.Log.Messages.{sent, append_assoc, append_nil, error_vprintf_reports}

put_cells-cursor :
    (left : ℕ) (cp : ConsolePrinter) (v : ℕ) → (put_cells left cp v).cursor ≡ cp.cursor + left
unfolding put_cells
put_cells-cursor zero cp v = omega arith
put_cells-cursor (suc left) cp v = omega (arith, put_cells-cursor left (put_cell cp v) v)

-- A newline fills the line up.
newline_lem : (cp : ConsolePrinter) (color : ℕ) → (console_putc cp b'\n' color).cursor % 80 ≡ 0
unfolding console_putc
newline_lem cp color = elim (Bool-cases (leb console_cells cp.cursor)) [
  | inl is ↦ rw is (omega (arith, put_cells-cursor 80 (record cp { cursor = 0 }) _))
  | inr isnt ↦ rw isnt (omega (arith, put_cells-cursor (80 - cp.cursor % 80) cp _))
]

newline-characters :
    (color : ℕ)
    → characters (λ i. 0) (λ a. []) color (codes "\n") ≡ record { code = b'\n'; color = color } ∷ []
unfolding characters
newline-characters color = refl

-- A newline on the screen, from any position, ends at the start of a line.
console_newline :
    (cells : ℕ → ℕ) (cpos color : ℕ) (cp : ConsolePrinter)
    → console_vprintf cells cpos color (codes "\n") (λ i. 0) (λ a. []) ≡ some cp
    → cp.cursor % 80 ≡ 0
unfolding console_vprintf
console_newline cells cpos color cp e =
    let start : ConsolePrinter = record {
      cells = cells;
      cursor = if not (is_nonneg cpos) || leb console_cells cpos then 0 else cpos;
    } in
    let printed =
      printer_vprintf-characters console_putc (λ i. 0) (λ a. []) color (codes "\n") start in
    let same : console_putc start b'\n' color ≡ cp = some-injective _ _ (
      sym (ap (λ cs. some (put_each console_putc cs start)) (newline-characters color))
      ∙ sym printed
      ∙ e) in
    ap (λ (p : ConsolePrinter). p.cursor % 80) (sym same) ∙ newline_lem start color

-- What ends the line of a message: nothing at the start of a line.
abbrev pub end_of_line : (cursor : ℕ) → List ℕ
end_of_line cursor = if cursor % 80 == 0 then [] else codes "\n"

module _ (status : ℕ → ℕ) where
  -- The three parts of the report.
  panic_parts :
      (log : LogPrinter) (cells : ℕ → ℕ) (format : List ℕ) (args : ℕ → ℕ) (string_at : ℕ → List ℕ)
      (r1 r2 r3 : Reported)
      → error_vprintf status
          (record { log = log; console = record { cells = cells; cursor = 1840 } })
          0xC000
          (codes "PANIC: ")
          (λ i. 0)
          (λ a. [])
        ≡ some r1
      → error_vprintf status r1 0xC000 format args string_at ≡ some r2
      → (if r2.console.cursor % 80 == 0
          then some r2
          else error_vprintf status r2 0xC000 (codes "\n") (λ i. 0) (λ a. []))
        ≡ some r3
      → panic status log cells (some format) args string_at ≡ some r3
  unfolding panic
  panic_parts log cells format args string_at r1 r2 r3 e1 e2 e3 = rw (e1, e2) e3

  -- The last part: a line that is not at its start is ended.
  line_end :
      (r : Reported)
      → (r' : Reported) × ((if r.console.cursor % 80 == 0
            then some r
            else error_vprintf status r 0xC000 (codes "\n") (λ i. 0) (λ a. []))
          ≡ some r')
        × (r'.console.cursor % 80 ≡ 0)
        × (sent r'.log.calls ≡ sent r.log.calls ++ end_of_line r.console.cursor)
        × ((if r.console.cursor % 80 == 0
              then some r.console
              else console_vprintf r.console.cells r.console.cursor 0xC000
                  (codes "\n")
                  (λ i. 0)
                  (λ a. []))
            ≡ some r'.console)
  line_end r = elim (Bool-cases (r.console.cursor % 80 == 0)) [
    | inl is ↦ rw is (r, refl, ==→eq _ _ is, sym (append_nil (sent r.log.calls)), refl)
    | inr isnt ↦
        let (r', runs, said, _, shown) =
          error_vprintf_reports status r 0xC000 (codes "\n") (λ i. 0) (λ a. []) in
        rw isnt (
          r',
          runs,
          console_newline r.console.cells r.console.cursor 0xC000 r'.console shown,
          said ∙ ap (λ cs. sent r.log.calls ++ bytes_of cs) (newline-characters 0),
          shown,
        )
  ]

  -- For every format and its arguments `panic` gets to the end of its report, whatever the port's
  -- status is and whatever is on the screen. On the screen "PANIC: " is printed from the start of
  -- row 23 on, the message behind it, and a newline exactly where that has not left the cursor at
  -- the start of a line; after the report the cursor stands at the start of a line. The log gets
  -- the bytes of the same: "PANIC: ", the message, and the newline where the screen gets it.
  pub panic_reports :
      (log : LogPrinter) (cells : ℕ → ℕ) (format : List ℕ) (args : ℕ → ℕ) (string_at : ℕ → List ℕ)
      → (r : Reported) × (c1 c2 : ConsolePrinter) × (panic status log cells
            (some format)
            args
            string_at
          ≡ some r)
        × (console_vprintf cells 1840 0xC000 (codes "PANIC: ") (λ i. 0) (λ a. []) ≡ some c1)
        × (console_vprintf c1.cells c1.cursor 0xC000 format args string_at ≡ some c2)
        × ((if c2.cursor % 80 == 0
              then some c2
              else console_vprintf c2.cells c2.cursor 0xC000 (codes "\n") (λ i. 0) (λ a. []))
            ≡ some r.console)
        × (r.console.cursor % 80 ≡ 0)
        × (sent r.log.calls
            ≡ sent log.calls
              ++ (codes "PANIC: "
                  ++ (bytes_of (characters args string_at 0 format)
                      ++ (if c2.cursor % 80 == 0 then [] else codes "\n"))))
  unfolding characters
  panic_reports log cells format args string_at =
      let (r1, runs1, said1, _, shown1) =
        error_vprintf_reports status
          (record { log = log; console = record { cells = cells; cursor = 1840 } }) 0xC000
          (codes "PANIC: ") (λ i. 0) (λ a. []) in
      let (r2, runs2, said2, _, shown2) =
        error_vprintf_reports status r1 0xC000 format args string_at in
      let (r3, runs3, column, said3, shown3) = line_end r2 in
      let text = bytes_of (characters args string_at 0 format) in
      let tail = end_of_line r2.console.cursor in
      (
        r3,
        r1.console,
        r2.console,
        panic_parts log cells format args string_at r1 r2 r3 runs1 runs2 runs3,
        shown1,
        shown2,
        shown3,
        column,
        said3
            ∙ ap (λ l. l ++ tail) (said2 ∙ ap (λ l. l ++ text) said1)
            ∙ append_assoc (sent log.calls ++ codes "PANIC: ") text tail
            ∙ append_assoc (sent log.calls) (codes "PANIC: ") (text ++ tail),
      )
