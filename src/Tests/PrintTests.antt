-- ===== src/Tests/PrintTests.antt =====
-- Runs of the printers, and the theorems on them at concrete formats.
use virtual_memory.Base.{
  ℕ, ◌+◌, ◌-◌, ◌^◌, ◌≤◌, ◌<◌, ◌≡◌, refl, inr, List, [], ◌∷◌, ◌++◌, codes, length, get_or, min, some,
  arith,
}
use virtual_memory.Memory.{Memory}
use virtual_memory.Paging.{has}
use virtual_memory.Print.{
  digit, fill_loop, fill_numbuf, scan_flags, scan_number, scan_star, scan_width,
  scan_precision_value, scan_precision, main_conversion, scan_directive, prefix_of, text_length,
  zeros_of, spaces_of, put_all, put_conversion, printer_loop, printer_vprintf,
}
use virtual_memory.Print.Characters.{put_each, colored, bytes_of, characters}
use virtual_memory.Print.Conversions.{printer_vprintf-conversions}
use virtual_memory.Print.Conversions.Numerals.{IsNumeral, AreSmall}
use virtual_memory.Print.Printers.Buffer.{vsnprintf_text}
use virtual_memory.Print.Numbers.{parse, radix, parse-fill_numbuf}
use virtual_memory.Print.Printers.{ConsolePrinter, console_cells, vsnprintf, console_vprintf}
use virtual_memory.Print.Printers.Bounds.{vsnprintf_bounds, console_vprintf_bounds}
use virtual_memory.Tests.Machines.{zeros}

abbrev one_arg : ℕ → ℕ
one_arg next = 0xFFFFFFFFFFFFFFFB

abbrev no_strings : ℕ → List ℕ
no_strings a = []

-- `"%+05d!"`
abbrev padded : List ℕ
padded = b'%' ∷ b'+' ∷ b'0' ∷ b'5' ∷ b'd' ∷ b'!' ∷ []

-- A list of the printed bytes, the last one first.
abbrev reversed : List ℕ → ℕ → ℕ → List ℕ
reversed out c color = c ∷ out

prints_padded :
    printer_vprintf reversed one_arg no_strings 0 padded []
    ≡ some (b'!' ∷ b'5' ∷ b'0' ∷ b'0' ∷ b'0' ∷ b'-' ∷ [])
unfolding printer_vprintf printer_loop scan_directive scan_flags scan_width scan_precision scan_star
    scan_precision_value scan_number main_conversion put_conversion put_all spaces_of zeros_of
    text_length prefix_of fill_numbuf fill_loop digit has
prints_padded = refl

parse-fill_numbuf_example :
    (ds : List ℕ) × (fill_numbuf 48879 (2 ^ 32 - 16) ≡ some ds)
    × (parse (radix (2 ^ 32 - 16)) 0 ds ≡ 48879)
    × (1 ≤ length ds)
    × (length ds ≤ 20)
parse-fill_numbuf_example = parse-fill_numbuf 48879 (2 ^ 32 - 16) (omega arith) (inr (inr refl))

vsnprintf_bounds_example :
    (m' : Memory) × (n : ℕ) × (vsnprintf zeros 0x100 4 padded one_arg no_strings ≡ some (m', n))
    × (n < 4)
    × (m' (0x100 + n) ≡ 0)
    × (m' 0x104 ≡ 0)
vsnprintf_bounds_example =
    vsnprintf_bounds zeros 0x100 4 0x104 padded one_arg no_strings (omega arith) (inr (omega arith))

console_vprintf_bounds_example :
    (cp : ConsolePrinter) × (console_vprintf zeros 1998 0x0700 padded one_arg no_strings ≡ some cp)
    × (cp.cursor ≤ console_cells)
    × (cp.cells 2000 ≡ 0)
console_vprintf_bounds_example =
    console_vprintf_bounds zeros 1998 0x0700 2000 padded one_arg no_strings (omega arith)

-- A printer that keeps the bytes, the last one first.
printer_vprintf-conversions_example :
    (du dd dx dp : List ℕ) × (printer_vprintf reversed one_arg no_strings 7 (codes "%u") []
      ≡ some (put_each reversed (colored 7 du) []))
    × IsNumeral 10 0xFFFFFFFB du
    × (printer_vprintf reversed one_arg no_strings 7 (codes "%d") []
        ≡ some (put_each reversed (colored 7 (b'-' ∷ dd)) []))
    × IsNumeral 10 5 dd
    × (printer_vprintf reversed one_arg no_strings 7 (codes "%x") []
        ≡ some (put_each reversed (colored 7 dx) []))
    × IsNumeral 16 0xFFFFFFFB dx
    × AreSmall dx
    × (printer_vprintf reversed one_arg no_strings 7 (codes "%p") []
        ≡ some (put_each reversed (colored 7 (codes "0x" ++ dp)) []))
    × IsNumeral 16 0xFFFFFFFFFFFFFFFB dp
    × AreSmall dp
    × (printer_vprintf reversed one_arg no_strings 7 (codes "%s") [] ≡ some [])
    × (printer_vprintf reversed one_arg no_strings 7 (codes "%%") [] ≡ some (reversed [] b'%' 7))
printer_vprintf-conversions_example = printer_vprintf-conversions reversed one_arg no_strings 7 []

-- The text has six bytes, of which a buffer of four bytes takes three.
padded_text :
    bytes_of (characters one_arg no_strings 0 padded) ≡ b'-' ∷ b'0' ∷ b'0' ∷ b'0' ∷ b'5' ∷ b'!' ∷ []
unfolding characters scan_directive scan_flags scan_width scan_precision scan_star
    scan_precision_value scan_number main_conversion spaces_of zeros_of text_length prefix_of
    fill_numbuf fill_loop digit has
padded_text = refl

vsnprintf_text_example :
    let text = bytes_of (characters one_arg no_strings 0 padded) in
    let n = min (length text) (4 - 1) in
    (m' : Memory) × (vsnprintf zeros 0x100 4 padded one_arg no_strings ≡ some (m', n))
    × ((i : ℕ) → i < n → m' (0x100 + i) ≡ get_or text i 0)
    × (m' (0x100 + n) ≡ 0)
vsnprintf_text_example = vsnprintf_text zeros 0x100 4 padded one_arg no_strings (omega arith)
