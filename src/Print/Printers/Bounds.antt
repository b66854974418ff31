-- ===== src/Print/Printers/Bounds.antt =====
-- No format makes the printers write outside their buffer or the screen.
use virtual_memory.Base.{
  ℕ, zero, suc, ◌+◌, ◌-◌, ◌%◌, ◌≤◌, ◌<◌, ◌≡◌, refl, ◌⊎◌, inl, inr, Bool, true, false, not, ◌||◌,
  leb, ◌==◌, if◌then◌else◌, List, some, arith, Bool-cases, ne→==,
}
use virtual_memory.Memory.{Memory, store8}
use virtual_memory.Vm.{is_nonneg}
use virtual_memory.Print.Loop.{printer_vprintf_keeps}
use virtual_memory.Print.Printers.{
  StringPrinter, string_putc, vsnprintf, ConsolePrinter, console_cells, put_cell, put_cells,
  console_putc, console_vprintf,
}

-- The printer stays in the buffer, and the byte at `x` outside it stays.
record InBuffer (m : Memory) (s size x : ℕ) (sp : StringPrinter) : Type 0 where
  end_lem : sp.end ≡ s + size - 1
  from : s ≤ sp.s
  to : sp.s ≤ sp.end
  kept : sp.mem x ≡ m x

string_putc-InBuffer :
    (m : Memory) (s size x : ℕ)
    → 0 < size
    → (x < s) ⊎ (s + size ≤ x)
    → (sp : StringPrinter) (c color : ℕ) → InBuffer m s size x sp
    → InBuffer m s size x (string_putc sp c color)
unfolding string_putc store8
string_putc-InBuffer m s size x pos out sp c color h = ground arith

-- For any format and arguments, `vsnprintf` into a buffer of at least one byte ends. It returns the
-- number of bytes that it has put before a zero byte, less than the size; no byte outside the
-- buffer changes.
pub vsnprintf_bounds :
    (m : Memory) (s size x : ℕ) (format : List ℕ) (args : ℕ → ℕ) (string_at : ℕ → List ℕ)
    → 0 < size
    → (x < s) ⊎ (s + size ≤ x)
    → (m' : Memory) × (n : ℕ) × (vsnprintf m s size format args string_at ≡ some (m', n))
      × (n < size)
      × (m' (s + n) ≡ 0)
      × (m' x ≡ m x)
unfolding vsnprintf store8
vsnprintf_bounds m s size x format args string_at pos out =
    let r =
      printer_vprintf_keeps string_putc (InBuffer m s size x)
        (string_putc-InBuffer m s size x pos out) args string_at 0 format
        (record { mem = m; s = s; end = s + size - 1 })
        (record { end_lem = refl; from = omega arith; to = omega arith; kept = refl }) in
    (
      store8 r.0.mem r.0.s 0,
      r.0.s - s,
      rw (ne→== size 0 (omega arith), r.1) refl,
      omega (arith, r.2),
      ground (arith, r.2),
      ground (arith, r.2),
    )

record OnScreen (cells : ℕ → ℕ) (x : ℕ) (cp : ConsolePrinter) : Type 0 where
  cursor_le : cp.cursor ≤ 2000
  kept : cp.cells x ≡ cells x

put_cells-OnScreen :
    (cells : ℕ → ℕ) (x left v : ℕ) (cp : ConsolePrinter)
    → 2000 ≤ x
    → cp.cursor + left ≤ 2000
    → cp.cells x ≡ cells x
    → OnScreen cells x (put_cells left cp v)
unfolding put_cells
put_cells-OnScreen cells x zero v cp out h e = record { cursor_le = omega arith; kept = e }
put_cells-OnScreen cells x (suc left) v cp out h e =
    put_cells-OnScreen cells x left v _ out (omega arith) (ground arith)

console_putc-OnScreen :
    (cells : ℕ → ℕ) (x : ℕ)
    → 2000 ≤ x
    → (cp : ConsolePrinter) (c color : ℕ) → OnScreen cells x cp
    → OnScreen cells x (console_putc cp c color)
unfolding console_putc
console_putc-OnScreen cells x out cp c color h = elim (Bool-cases (leb console_cells cp.cursor)) [
  | inl is ↦ rw is (placed (record cp { cursor = 0 }) (omega arith) h.kept (c % 256 == b'\n') _ _)
  | inr isnt ↦ rw isnt (placed cp (ground arith) h.kept (c % 256 == b'\n') _ _)
]
  where
    placed :
        (cp' : ConsolePrinter)
        → cp'.cursor < 2000
        → cp'.cells x ≡ cells x
        → (newline : Bool) (v w : ℕ)
        → OnScreen cells x
            (if newline then put_cells (80 - cp'.cursor % 80) cp' v else put_cell cp' w)
    placed cp' k e true v w =
        put_cells-OnScreen cells x (80 - cp'.cursor % 80) v cp' out (omega arith) e
    placed cp' k e false v w = record { cursor_le = omega arith; kept = ground arith }

-- For any format and arguments, `console_vprintf` ends with a position between 0 and the number of
-- cells of the screen, whatever position it is given, and writes no cell outside the screen.
pub console_vprintf_bounds :
    (cells : ℕ → ℕ) (cpos color x : ℕ) (format : List ℕ) (args : ℕ → ℕ) (string_at : ℕ → List ℕ)
    → console_cells ≤ x
    → (cp : ConsolePrinter) × (console_vprintf cells cpos color format args string_at ≡ some cp)
      × (cp.cursor ≤ console_cells)
      × (cp.cells x ≡ cells x)
unfolding console_vprintf
console_vprintf_bounds cells cpos color x format args string_at out =
    let r =
      printer_vprintf_keeps console_putc (OnScreen cells x) (console_putc-OnScreen cells x out) args
        string_at color format
        (record {
          cells = cells;
          cursor = if not (is_nonneg cpos) || leb console_cells cpos then 0 else cpos;
        })
        (record { cursor_le = ground arith; kept = refl }) in
    (r.0, r.1, r.2.cursor_le, r.2.kept)
