-- ===== src/Print/Conversions.antt =====
-- What the conversions of a format print.
pub mod Numerals
use virtual_memory.Base.{
  ℕ, zero, suc, ◌+◌, ◌-◌, ◌/◌, ◌%◌, ◌^◌, ◌≤◌, ◌<◌, ◌≡◌, refl, ◌⊎◌, inl, inr, Bool, true, false, leb,
  ltb, ◌==◌, if◌then◌else◌, List, [], ◌∷◌, ◌++◌, length, take, replicate, codes, some, arith,
  Bool-cases, ap, sym, ◌∙◌,
}
use mathlib.Core.Option.{some-injective}
use virtual_memory.Paging.{has}
use virtual_memory.Vm.{minus_one}
use virtual_memory.Print.{
  Conversion, convert, scan_directive, printer_vprintf, printer_loop, scan_flags, scan_width,
  scan_precision, scan_star, main_conversion, text_of, prefix_of, text_length, zeros_of, spaces_of,
  fill_numbuf, fill_loop, digit, flag_numeric, flag_zero, flag_leftjustify,
}
use virtual_memory.Print.Numbers.{parse, parse-fill_numbuf}
use virtual_memory.Print.Conversions.Numerals.{IsNumeral, AreSmall, fill_numbuf-AreSmall}
use virtual_memory.Print.Characters.{
  put_each, colored, conversion_text, put_conversion-text, put_all-colored,
}

take_all : (cs : List ℕ) → take (length cs) cs ≡ cs
take_all [] = refl
take_all (c ∷ cs) = ap (λ l. c ∷ l) (take_all cs)

append_none : (cs : List ℕ) → cs ++ [] ≡ cs
append_none [] = refl
append_none (c ∷ cs) = ap (λ l. c ∷ l) (append_none cs)

-- A conversion without a width and a precision.
abbrev plain : (flags base num : ℕ) (bytes : List ℕ) → Conversion
plain flags base num bytes = record {
  flags = flags;
  width = minus_one;
  precision = minus_one;
  base = base;
  num = num;
  bytes = bytes;
}

-- A number prints its prefix and its digits, a text itself.
plain_number :
    (flags base num : ℕ) (digits : List ℕ)
    → has flags flag_numeric ≡ true
    → has flags flag_zero ≡ false
    → has flags flag_leftjustify ≡ false
    → fill_numbuf num base ≡ some digits
    → conversion_text (plain flags base num []) ≡ prefix_of (plain flags base num []) ++ digits
unfolding text_length zeros_of spaces_of
plain_number flags base num digits numeric no_zero right filled =
    rw (numeric, no_zero, right)
      (rw filled (
        ap (λ l. prefix_of (plain flags base num []) ++ l)
          (append_none (take (length digits) digits) ∙ take_all digits)))

plain_text : (base num : ℕ) (bytes : List ℕ) → conversion_text (plain 0 base num bytes) ≡ bytes
unfolding text_length zeros_of spaces_of prefix_of has
plain_text base num bytes = append_none (take (length bytes) bytes) ∙ take_all bytes

module _ {S : Type 0} (putc : S → ℕ → ℕ → S) (args : ℕ → ℕ) (string_at : ℕ → List ℕ) (color : ℕ)
    (s : S) where
  -- A format that is one directive.
  one_directive :
      (format : List ℕ) (v : Conversion) (next : ℕ) (text : List ℕ)
      → scan_directive args string_at format 0 ≡ convert v next []
      → conversion_text v ≡ text
      → printer_vprintf putc args string_at color (b'%' ∷ format) s
        ≡ some (put_each putc (colored color text) s)
  unfolding printer_vprintf printer_loop
  one_directive format v next text scanned e = rw scanned (
      ap some (
        put_conversion-text putc color v s
        ∙ put_all-colored putc color (conversion_text v) s
        ∙ ap (λ cs. put_each putc (colored color cs) s) e))

  prints_string :
      printer_vprintf putc args string_at color (codes "%s") s
      ≡ some (put_each putc (colored color (string_at (args 0))) s)
  unfolding scan_directive scan_flags scan_width scan_precision main_conversion
  prints_string =
      one_directive (codes "s") (plain 0 10 0 (string_at (args 0))) 1 (string_at (args 0)) refl
        (plain_text 10 0 (string_at (args 0)))

  prints_percent :
      printer_vprintf putc args string_at color (codes "%%") s
      ≡ some (put_each putc (colored color (b'%' ∷ [])) s)
  unfolding scan_directive scan_flags scan_width scan_precision main_conversion
  prints_percent =
      one_directive (codes "%") (plain 0 10 0 (b'%' ∷ [])) 0 (b'%' ∷ []) refl
        (plain_text 10 0 (b'%' ∷ []))

  prints_hex :
      (digits : List ℕ)
      → fill_numbuf (args 0 % 2 ^ 32) (2 ^ 32 - 16) ≡ some digits
      → printer_vprintf putc args string_at color (codes "%x") s
        ≡ some (put_each putc (colored color digits) s)
  unfolding scan_directive scan_flags scan_width scan_precision main_conversion has prefix_of
  prints_hex digits filled =
      one_directive (codes "x") (plain 32 (2 ^ 32 - 16) (args 0 % 2 ^ 32) []) 1 digits refl
        (plain_number 32 (2 ^ 32 - 16) (args 0 % 2 ^ 32) digits refl refl refl filled)

  prints_unsigned :
      (digits : List ℕ)
      → fill_numbuf (args 0 % 2 ^ 32) 10 ≡ some digits
      → printer_vprintf putc args string_at color (codes "%u") s
        ≡ some (put_each putc (colored color digits) s)
  unfolding scan_directive scan_flags scan_width scan_precision main_conversion has prefix_of
  prints_unsigned digits filled =
      one_directive (codes "u") (plain 32 10 (args 0 % 2 ^ 32) []) 1 digits refl
        (plain_number 32 10 (args 0 % 2 ^ 32) digits refl refl refl filled)

  prints_pointer :
      (digits : List ℕ)
      → fill_numbuf (args 0 % 2 ^ 64) (2 ^ 32 - 16) ≡ some digits
      → printer_vprintf putc args string_at color (codes "%p") s
        ≡ some (put_each putc (colored color (codes "0x" ++ digits)) s)
  unfolding scan_directive scan_flags scan_width scan_precision main_conversion has prefix_of
  prints_pointer digits filled =
      one_directive (codes "p") (plain 289 (2 ^ 32 - 16) (args 0 % 2 ^ 64) []) 1
        (codes "0x" ++ digits) refl
        (plain_number 289 (2 ^ 32 - 16) (args 0 % 2 ^ 64) digits refl refl refl filled ∙ has_prefix)
    where
      has_prefix :
          prefix_of (plain 289 (2 ^ 32 - 16) (args 0 % 2 ^ 64) []) ++ digits ≡ codes "0x" ++ digits
      has_prefix = elim (Bool-cases (args 0 % 2 ^ 64 == 0)) [
        | inl is ↦ rw is refl
        | inr isnt ↦ rw isnt refl
      ]

  -- What `%d` reads.
  scan_negative :
      leb (2 ^ 31) (args 0 % 2 ^ 32) ≡ true
      → scan_directive args string_at (codes "d") 0
        ≡ convert (plain 224 10 (2 ^ 32 - args 0 % 2 ^ 32) []) 1 []
  unfolding scan_directive scan_flags scan_width scan_precision main_conversion
  scan_negative is =
      let x = args 0 % 2 ^ 32 in
      let narrow : ltb x (2 ^ 31) ≡ false = ground (arith, is) in
      let high : leb (2 ^ 63) (x + (2 ^ 64 - 2 ^ 32)) ≡ true = ground arith in
      let magnitude : 2 ^ 64 - (x + (2 ^ 64 - 2 ^ 32)) ≡ 2 ^ 32 - x = omega arith in
      rw narrow (rw high (rw magnitude refl))

  scan_positive :
      leb (2 ^ 31) (args 0 % 2 ^ 32) ≡ false
      → scan_directive args string_at (codes "d") 0
        ≡ convert (plain 96 10 (args 0 % 2 ^ 32) []) 1 []
  unfolding scan_directive scan_flags scan_width scan_precision main_conversion
  scan_positive isnt = ground (arith, isnt)

  prints_signed :
      (digits : List ℕ)
      → let x = args 0 % 2 ^ 32 in
        fill_numbuf (if leb (2 ^ 31) x then 2 ^ 32 - x else x) 10 ≡ some digits
        → printer_vprintf putc args string_at color (codes "%d") s
          ≡ some (
              put_each putc
                (colored color ((if leb (2 ^ 31) x then b'-' ∷ [] else []) ++ digits))
                s)
  unfolding scan_directive scan_flags scan_width scan_precision main_conversion has prefix_of
  prints_signed digits = elim (Bool-cases (leb (2 ^ 31) (args 0 % 2 ^ 32))) [
    | inl is ↦ rw is (λ filled.
        one_directive (codes "d") (plain 224 10 (2 ^ 32 - args 0 % 2 ^ 32) []) 1 (b'-' ∷ digits)
          (scan_negative is)
          (plain_number 224 10 (2 ^ 32 - args 0 % 2 ^ 32) digits refl refl refl filled))
    | inr isnt ↦ rw isnt (λ filled.
        one_directive (codes "d") (plain 96 10 (args 0 % 2 ^ 32) []) 1 digits (scan_positive isnt)
          (plain_number 96 10 (args 0 % 2 ^ 32) digits refl refl refl filled))
  ]

-- The printer ends and receives the text.
abbrev pub Prints :
    {S : Type 0} (putc : S → ℕ → ℕ → S) (args : ℕ → ℕ) (string_at : ℕ → List ℕ) (color : ℕ) (s : S)
    (format text : List ℕ)
    → Type 0
Prints putc args string_at color s format text =
    printer_vprintf putc args string_at color format s ≡ some (put_each putc (colored color text) s)

-- Every printer ends on each of these formats. It receives, for `%u`, `%d` and `%x`, the digits of
-- the argument, read as an `int`, in base 10 or 16, and for `%d` those of its magnitude behind a
-- `-` where it is negative; for `%p` "0x" and the digits of the 64-bit argument in base 16; for
-- `%s` the string, and for `%%` a `%`. There is at least one digit; read back in their base, the
-- digits give the number, and those in base 16 have no capitals.
pub printer_vprintf-conversions :
    {S : Type 0} (putc : S → ℕ → ℕ → S) (args : ℕ → ℕ) (string_at : ℕ → List ℕ) (color : ℕ) (s : S)
    → let x = args 0 % 2 ^ 32 in
      (du dd dx dp : List ℕ) × Prints putc args string_at color s (codes "%u") du
      × IsNumeral 10 x du
      × Prints putc args string_at color s
          (codes "%d")
          ((if leb (2 ^ 31) x then b'-' ∷ [] else []) ++ dd)
      × IsNumeral 10 (if leb (2 ^ 31) x then 2 ^ 32 - x else x) dd
      × Prints putc args string_at color s (codes "%x") dx
      × IsNumeral 16 x dx
      × AreSmall dx
      × Prints putc args string_at color s (codes "%p") (codes "0x" ++ dp)
      × IsNumeral 16 (args 0 % 2 ^ 64) dp
      × AreSmall dp
      × Prints putc args string_at color s (codes "%s") (string_at (args 0))
      × Prints putc args string_at color s (codes "%%") (b'%' ∷ [])
printer_vprintf-conversions putc args string_at color s =
    let x = args 0 % 2 ^ 32 in
    let (du, fill_u, read_u, some_u, _) = parse-fill_numbuf x 10 (omega arith) (inl refl) in
    let (dd, fill_d, read_d, some_d, _) =
      parse-fill_numbuf (if leb (2 ^ 31) x then 2 ^ 32 - x else x) 10 (ground arith) (inl refl) in
    let (dx, fill_x, read_x, some_x, _) =
      parse-fill_numbuf x (2 ^ 32 - 16) (omega arith) (inr (inr refl)) in
    let (dp, fill_p, read_p, some_p, _) =
      parse-fill_numbuf (args 0 % 2 ^ 64) (2 ^ 32 - 16) (omega arith) (inr (inr refl)) in
    (
      du,
      dd,
      dx,
      dp,
      prints_unsigned putc args string_at color s du fill_u,
      (read_u, some_u),
      prints_signed putc args string_at color s dd fill_d,
      (read_d, some_d),
      prints_hex putc args string_at color s dx fill_x,
      (read_x, some_x),
      fill_numbuf-AreSmall x dx fill_x,
      prints_pointer putc args string_at color s dp fill_p,
      (read_p, some_p),
      fill_numbuf-AreSmall (args 0 % 2 ^ 64) dp fill_p,
      prints_string putc args string_at color s,
      prints_percent putc args string_at color s,
    )
