-- ===== src/User/Cursor.antt =====
-- Where `app_printf` leaves the cursor.
use virtual_memory.Base.{
  ℕ, ◌*◌, ◌/◌, ◌≤◌, ◌<◌, ◌≡◌, refl, ◌∙◌, inl, inr, leb, if◌then◌else◌, List, some, arith,
  Bool-cases,
}
use virtual_memory.Print.Printers.{ConsolePrinter, console_cells}
use virtual_memory.Print.Printers.Bounds.{console_vprintf_bounds}
use virtual_memory.User.{app_printf, app_color}

wrapped :
    (cp : ConsolePrinter)
    → let cp' : ConsolePrinter = if leb 23 (cp.cursor / 80) then record cp { cursor = 0 } else cp in
      (cp'.cursor < 23 * 80) × ((x : ℕ) → cp'.cells x ≡ cp.cells x)
wrapped cp = elim (Bool-cases (leb 23 (cp.cursor / 80))) [
  | inl is ↦ rw is (omega arith, λ x. refl)
  | inr isnt ↦ rw isnt (ground arith, λ x. refl)
]

-- For any format, arguments, process number and cursor, `app_printf` ends with the cursor in one of
-- the first 23 rows of the screen, and it writes no cell outside the screen.
pub app_printf_cursor :
    (console : ConsolePrinter) (colorid x : ℕ) (format : List ℕ) (args : ℕ → ℕ)
    (string_at : ℕ → List ℕ)
    → console_cells ≤ x
    → (cp : ConsolePrinter) × (app_printf console colorid format args string_at ≡ some cp)
      × (cp.cursor < 23 * 80)
      × (cp.cells x ≡ console.cells x)
unfolding app_printf
app_printf_cursor console colorid x format args string_at out =
    let (cp, runs, _, kept) =
      console_vprintf_bounds console.cells console.cursor (app_color colorid) x format args
        string_at out in
    (
      if leb 23 (cp.cursor / 80) then record cp { cursor = 0 } else cp,
      rw runs refl,
      (wrapped cp).0,
      (wrapped cp).1 x ∙ kept,
    )
