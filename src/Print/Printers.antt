-- ===== src/Print/Printers.antt =====
-- The printers of lib.c: into a buffer (`vsnprintf`) and onto the console (`console_vprintf`).
pub mod Bounds
pub mod Buffer
use virtual_memory.Base.{
  ℕ, zero, suc, ◌+◌, ◌-◌, ◌%◌, ◌^◌, bit_or, Bool, true, false, not, ◌||◌, ltb, leb, ◌==◌,
  if◌then◌else◌, List, Option, none, some,
}
use virtual_memory.Memory.{Memory, store8}
use virtual_memory.Vm.{is_nonneg}
use virtual_memory.Print.{printer_vprintf}

-- `s` is the address of the next byte, `end` that of the buffer's last one.
pub record StringPrinter : Type 0 where
  pub mem : Memory
  pub s : ℕ
  pub end : ℕ

unfoldable pub string_putc : StringPrinter → (c color : ℕ) → StringPrinter
string_putc sp c color =
    if ltb sp.s sp.end then record sp { mem = store8 sp.mem sp.s c; s = sp.s + 1 } else sp

-- The result is the memory and the number of bytes before the terminating zero.
unfoldable pub vsnprintf :
    Memory → (s size : ℕ) → List ℕ → (args : ℕ → ℕ) (string_at : ℕ → List ℕ) → Option (Memory × ℕ)
vsnprintf m s size format args string_at =
    if size == 0
    then some (m, 0)
    else elim (printer_vprintf string_putc args string_at 0 format
        (record { mem = m; s = s; end = s + size - 1 })) [
          | none ↦ none
          | some sp ↦ some (store8 sp.mem sp.s 0, sp.s - s)
        ]

-- `CONSOLE_ROWS * CONSOLE_COLUMNS`
abbrev pub console_cells : ℕ
console_cells = 2000

abbrev pub console_columns : ℕ
console_columns = 80

-- The cells of the screen, by index into `console[]`, and the index of the cursor.
pub record ConsolePrinter : Type 0 where
  pub cells : ℕ → ℕ
  pub cursor : ℕ

-- `*cp->cursor++ = v`
abbrev pub put_cell : ConsolePrinter → (v : ℕ) → ConsolePrinter
put_cell cp v = record {
  cells = λ i. if i == cp.cursor then v % 2 ^ 16 else cp.cells i;
  cursor = cp.cursor + 1;
}

-- `for (; pos != 80; pos++) *cp->cursor++ = v`, with the rounds that are left.
unfoldable pub put_cells : (left : ℕ) → ConsolePrinter → (v : ℕ) → ConsolePrinter
put_cells zero cp v = cp
put_cells (suc left) cp v = put_cells left (put_cell cp v) v

unfoldable pub console_putc : ConsolePrinter → (c color : ℕ) → ConsolePrinter
unfolding put_cells
console_putc cp c color =
    let cp' = if leb console_cells cp.cursor then record cp { cursor = 0 } else cp in
    if c % 256 == b'\n'
    then put_cells (80 - cp'.cursor % 80) cp' (bit_or b' ' color)
    else put_cell cp' (bit_or (c % 256) color)

-- The result has the new cells and the new position.
unfoldable pub console_vprintf :
    (cells : ℕ → ℕ) (cpos color : ℕ)
    → List ℕ
    → (args : ℕ → ℕ) (string_at : ℕ → List ℕ) → Option ConsolePrinter
console_vprintf cells cpos color format args string_at =
    printer_vprintf console_putc args string_at color format (record {
      cells = cells;
      cursor = if not (is_nonneg cpos) || leb console_cells cpos then 0 else cpos;
    })

-- `for (…) console[i] = ' ' | 0x0700;`, with the cells that are left.
pub clear_loop : (cells : ℕ → ℕ) (left i : ℕ) → ℕ → ℕ
clear_loop cells zero i = cells
clear_loop cells (suc left) i =
    clear_loop (λ j. if j == i then bit_or b' ' 0x0700 else cells j) left (i + 1)

-- `console_clear`: the cells, and `cursorpos`.
pub console_clear : (cells : ℕ → ℕ) → ConsolePrinter
console_clear cells = record { cells = clear_loop cells console_cells 0; cursor = 0 }
