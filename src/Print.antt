-- ===== src/Print.antt =====
-- The formatted printing of lib.c. A format is the list of its bytes before the terminating zero.
-- A printer is a state with its `putc`. `va_arg` reads the next 64-bit word of the caller's
-- arguments, which are a function; a `%s` argument is the address of a string, whose bytes before
-- the terminating zero `string_at` gives. An `int` is its 32-bit pattern.
pub mod Characters
pub mod Conversions
pub mod Loop
pub mod Numbers
pub mod Printers
use virtual_memory.Base.{
  ℕ, zero, suc, ◌+◌, ◌-◌, ◌*◌, ◌/◌, ◌%◌, ◌^◌, bit_or, Bool, true, false, not, ◌&&◌, ◌||◌, ltb, leb,
  ◌==◌, if◌then◌else◌, List, [], ◌∷◌, length, take, replicate, Option, none, some,
}
use virtual_memory.Paging.{has}
use virtual_memory.Vm.{minus_one, is_nonneg}

-- `digits[d]` of the upper or the lower table
unfoldable pub digit : (lower : Bool) → ℕ → ℕ
digit lower d = if ltb d 10 then b'0' + d else if lower then b'a' + (d - 10) else b'A' + (d - 10)

-- The loop, with the bytes that stand behind `numbuf_end`; `none` if the fuel runs out.
unfoldable pub fill_loop : (fuel : ℕ) → (lower : Bool) → (base val : ℕ) → List ℕ → Option (List ℕ)
fill_loop zero lower base val out = none
fill_loop (suc fuel) lower base val out =
    let out' = digit lower (val % base) ∷ out in
    let rest = fill_loop fuel lower base (val / base) out' in
    if val / base == 0 then some out' else rest

-- The bytes from the result up to the terminating zero. A 64-bit number has at most 20 digits in
-- base 10 or above.
unfoldable pub fill_numbuf : (val base : ℕ) → Option (List ℕ)
fill_numbuf val base =
    if is_nonneg base
    then fill_loop 20 false base val []
    else fill_loop 20 true (2 ^ 32 - base) val []

abbrev pub flag_alt : ℕ
flag_alt = 1

abbrev pub flag_zero : ℕ
flag_zero = 2

abbrev pub flag_leftjustify : ℕ
flag_leftjustify = 4

abbrev pub flag_spacepositive : ℕ
flag_spacepositive = 8

abbrev pub flag_pluspositive : ℕ
flag_pluspositive = 16

abbrev pub flag_numeric : ℕ
flag_numeric = 32

abbrev pub flag_signed : ℕ
flag_signed = 64

abbrev pub flag_negative : ℕ
flag_negative = 128

abbrev pub flag_alt2 : ℕ
flag_alt2 = 256

-- `1 << (strchr(flag_chars, c) - flag_chars)`, or 0 where `strchr` finds none
abbrev pub flag_of : ℕ → ℕ
flag_of c =
    if c == b'#'
    then flag_alt
    else if c == b'0'
    then flag_zero
    else if c == b'-'
    then flag_leftjustify
    else if c == b' '
    then flag_spacepositive
    else if c == b'+'
    then flag_pluspositive
    else 0

-- The flags, and what is left of the format.
unfoldable pub scan_flags : List ℕ → (flags : ℕ) → ℕ × List ℕ
scan_flags [] flags = (flags, [])
scan_flags (c ∷ rest) flags =
    let more = scan_flags rest (bit_or flags (flag_of c)) in
    if flag_of c == 0 then (flags, c ∷ rest) else more

abbrev pub is_digit : ℕ → Bool
is_digit c = leb b'0' c && leb c b'9'

-- `for (n = …; *format >= '0' && *format <= '9'; ) n = 10 * n + *format++ - '0';`
unfoldable pub scan_number : List ℕ → (n : ℕ) → ℕ × List ℕ
scan_number [] n = (n, [])
scan_number (c ∷ rest) n =
    let more = scan_number rest ((10 * n + c - b'0') % 2 ^ 32) in
    if is_digit c then more else (n, c ∷ rest)

-- What is printed for one `%`.
pub record Conversion : Type 0 where
  pub flags : ℕ
  pub width : ℕ
  pub precision : ℕ
  pub base : ℕ
  pub num : ℕ
  pub bytes : List ℕ

-- What a `%` asks for, with the number of the next argument and the rest of the format.
pub data Directive : Type 0 where
  convert : Conversion → (next : ℕ) → (rest : List ℕ) → Directive
  recolor : (color next : ℕ) → (rest : List ℕ) → Directive

-- A number that an argument area or the format gives, with the next argument and the rest.
pub record Scanned : Type 0 where
  pub value : ℕ
  pub next : ℕ
  pub rest : List ℕ

module _ (args : ℕ → ℕ) (string_at : ℕ → List ℕ) where
  -- `va_arg(val, int)`
  abbrev pub int_arg : ℕ → ℕ
  int_arg next = args next % 2 ^ 32

  -- `*` takes the number from the arguments.
  unfoldable pub scan_star : List ℕ → (next : ℕ) → Scanned
  scan_star [] next = record { value = minus_one; next = next; rest = [] }
  scan_star (c ∷ rest) next =
      if c == b'*'
      then record { value = int_arg next; next = next + 1; rest = rest }
      else record { value = minus_one; next = next; rest = c ∷ rest }

  unfoldable pub scan_width : List ℕ → (next : ℕ) → Scanned
  unfolding scan_star
  scan_width [] next = scan_star [] next
  scan_width (c ∷ rest) next =
      if leb b'1' c && leb c b'9'
      then (let (n, rest') = scan_number (c ∷ rest) 0 in
          record { value = n; next = next; rest = rest' })
      else scan_star (c ∷ rest) next

  -- The part behind the point.
  unfoldable pub scan_precision_value : List ℕ → (next : ℕ) → Scanned
  unfolding scan_star
  scan_precision_value [] next = scan_star [] next
  scan_precision_value (c ∷ rest) next =
      if is_digit c
      then (let (n, rest') = scan_number (c ∷ rest) 0 in
          record { value = n; next = next; rest = rest' })
      else scan_star (c ∷ rest) next

  unfoldable pub scan_precision : List ℕ → (next : ℕ) → Scanned
  unfolding scan_precision_value
  scan_precision [] next = record { value = minus_one; next = next; rest = [] }
  scan_precision (c ∷ rest) next =
      let p = scan_precision_value rest next in
      if c == b'.'
      then record p { value = if is_nonneg p.value then p.value else 0 }
      else record { value = minus_one; next = next; rest = c ∷ rest }

  -- `numbuf[0] = c; numbuf[1] = '\0';`
  abbrev char_text : ℕ → List ℕ
  char_text c = if c % 256 == 0 then [] else c % 256 ∷ []

  -- A `long` argument, or an `int` one widened with its sign.
  abbrev pub signed_arg : (long : Bool) → ℕ → ℕ
  signed_arg long next =
      if long
      then args next % 2 ^ 64
      else if is_nonneg (int_arg next)
      then int_arg next
      else int_arg next + (2 ^ 64 - 2 ^ 32)

  abbrev pub unsigned_arg : (long : Bool) → ℕ → ℕ
  unsigned_arg long next = if long then args next % 2 ^ 64 else int_arg next

  -- The `switch`, from the label `again`. A conversion starts with `base` 10, `num` 0 and no text.
  unfoldable pub main_conversion :
      List ℕ → (long : Bool) → (start : Conversion) → (next : ℕ) → Directive
  main_conversion [] long start next = convert (record start { bytes = b'%' ∷ [] }) next []
  main_conversion (c ∷ rest) long start next =
      let again = main_conversion rest true start next in
      let x = signed_arg long next in
      let negative = leb (2 ^ 63) x in
      if c == b'l' || (c == b'z')
      then again
      else if c == b'd' || (c == b'i')
      then convert
          (record start {
            num = if negative then 2 ^ 64 - x else x;
            flags =
                bit_or start.flags (
                  bit_or (bit_or flag_numeric flag_signed) (if negative then flag_negative else 0));
          })
          (next + 1) rest
      else if c == b'u'
      then convert
          (record start { num = unsigned_arg long next; flags = bit_or start.flags flag_numeric })
          (next + 1) rest
      else if c == b'x'
      then convert
          (record start {
            base = 2 ^ 32 - 16;
            num = unsigned_arg long next;
            flags = bit_or start.flags flag_numeric;
          })
          (next + 1) rest
      else if c == b'X'
      then convert
          (record start {
            base = 16;
            num = unsigned_arg long next;
            flags = bit_or start.flags flag_numeric;
          })
          (next + 1) rest
      else if c == b'p'
      then convert
          (record start {
            base = 2 ^ 32 - 16;
            num = args next % 2 ^ 64;
            flags = bit_or start.flags (bit_or (bit_or flag_alt flag_alt2) flag_numeric);
          })
          (next + 1) rest
      else if c == b's'
      then convert (record start { bytes = string_at (args next) }) (next + 1) rest
      else if c == b'C'
      then recolor (int_arg next) (next + 1) rest
      else if c == b'c'
      then convert (record start { bytes = char_text (int_arg next) }) (next + 1) rest
      else convert (record start { bytes = char_text c }) next rest

  -- All of one `%`, from the byte behind it.
  unfoldable pub scan_directive : List ℕ → (next : ℕ) → Directive
  scan_directive format next =
      let (flags, rest1) = scan_flags format 0 in
      let w = scan_width rest1 next in
      let p = scan_precision w.rest w.next in
      main_conversion p.rest false
        (record {
          flags = flags;
          width = w.value;
          precision = p.value;
          base = 10;
          num = 0;
          bytes = [];
        })
        p.next

-- `data`: a number is written out. (`fill_numbuf` always gives its digits.)
abbrev pub text_of : Conversion → List ℕ
text_of v =
    if has v.flags flag_numeric
    then elim (fill_numbuf v.num v.base) [ none ↦ [] | some out ↦ out ]
    else v.bytes

unfoldable pub prefix_of : Conversion → List ℕ
prefix_of v =
    if has v.flags flag_numeric && has v.flags flag_signed
    then if has v.flags flag_negative
      then b'-' ∷ []
      else if has v.flags flag_pluspositive
      then b'+' ∷ []
      else if has v.flags flag_spacepositive
      then b' ' ∷ []
      else []
    else if has v.flags flag_numeric
        && has v.flags flag_alt
        && (v.base == 16 || (v.base == 2 ^ 32 - 16))
        && (not (v.num == 0) || has v.flags flag_alt2)
    then b'0' ∷ (if v.base == 2 ^ 32 - 16 then b'x' else b'X') ∷ []
    else []

-- `len`
unfoldable pub text_length : Conversion → ℕ
text_length v =
    let n = length (text_of v) in
    if is_nonneg v.precision && not (has v.flags flag_numeric)
    then if ltb v.precision n then v.precision else n
    else n

-- `zeros`
unfoldable pub zeros_of : Conversion → ℕ
zeros_of v =
    let len = text_length v in
    let plen = length (prefix_of v) in
    if has v.flags flag_numeric && is_nonneg v.precision
    then v.precision - len
    else if has v.flags flag_numeric
        && has v.flags flag_zero
        && not (has v.flags flag_leftjustify)
        && is_nonneg v.width
        && ltb (len + plen) v.width
    then v.width - len - plen
    else 0

-- How many spaces the two loops over `width` print together.
unfoldable pub spaces_of : Conversion → ℕ
spaces_of v =
    let used = text_length v + zeros_of v + length (prefix_of v) in
    if is_nonneg v.width then v.width - used else 0

module _ {S : Type 0} (putc : S → (c color : ℕ) → S) where
  unfoldable pub put_all : (color : ℕ) → List ℕ → S → S
  put_all color [] s = s
  put_all color (c ∷ rest) s = put_all color rest (putc s c color)

  -- The five loops that print one conversion.
  unfoldable pub put_conversion : (color : ℕ) → Conversion → S → S
  put_conversion color v s =
      let left = has v.flags flag_leftjustify in
      let s1 = put_all color (replicate (if left then 0 else spaces_of v) b' ') s in
      let s2 = put_all color (prefix_of v) s1 in
      let s3 = put_all color (replicate (zeros_of v) b'0') s2 in
      let s4 = put_all color (take (text_length v) (text_of v)) s3 in
      put_all color (replicate (if left then spaces_of v else 0) b' ') s4

  -- The loop over the format; `none` if the fuel runs out.
  unfoldable pub printer_loop :
      (args : ℕ → ℕ) (string_at : ℕ → List ℕ)
      → (fuel color : ℕ) → List ℕ
      → (next : ℕ) → S
      → Option S
  printer_loop args string_at zero color format next s = none
  printer_loop args string_at (suc fuel) color [] next s = some s
  printer_loop args string_at (suc fuel) color (c ∷ rest) next s =
      let plain = printer_loop args string_at fuel color rest next (putc s c color) in
      let formatted : Option S = elim (scan_directive args string_at rest next) [
        | convert v next' rest' ↦
            printer_loop args string_at fuel color rest' next' (put_conversion color v s)
        | recolor color' next' rest' ↦ printer_loop args string_at fuel color' rest' next' s
      ] in
      if not (c == b'%') then plain else formatted

  -- Each round takes a byte of the format at least.
  unfoldable pub printer_vprintf :
      (args : ℕ → ℕ) (string_at : ℕ → List ℕ) (color : ℕ) → List ℕ → S → Option S
  printer_vprintf args string_at color format s =
      printer_loop args string_at (suc (length format)) color format 0 s
