-- ===== src/Print/Characters.antt =====
-- The characters that a format stands for, whichever printer receives them.
use virtual_memory.Base.{
  ℕ, zero, suc, ◌%◌, ◌≤◌, ◌<◌, ◌≡◌, refl, inl, inr, ◌==◌, if◌then◌else◌, List, [], ◌∷◌, ◌++◌,
  length, take, replicate, Option, some, arith, Bool-cases,
}
use virtual_memory.Paging.{has}
use virtual_memory.Print.{
  Conversion, convert, recolor, scan_directive, put_all, put_conversion, printer_loop,
  printer_vprintf, flag_leftjustify, spaces_of, prefix_of, zeros_of, text_length, text_of,
}
use virtual_memory.Print.Loop.{rest_of, scan_directive-le}

-- A character with its color.
pub record Character : Type 0 where
  pub code : ℕ
  pub color : ℕ

abbrev pub colored : (color : ℕ) → List ℕ → List Character
colored color [] = []
colored color (c ∷ cs) = record { code = c; color = color } ∷ colored color cs

-- The bytes of the characters.
abbrev pub bytes_of : List Character → List ℕ
bytes_of [] = []
bytes_of (c ∷ cs) = c.code % 256 ∷ bytes_of cs

-- One call of `putc` for each character.
abbrev pub put_each {ℓ} : {S : Type ℓ} → (S → ℕ → ℕ → S) → List Character → S → S
put_each putc [] s = s
put_each putc (c ∷ cs) s = put_each putc cs (putc s c.code c.color)

put_each-append {ℓ} :
    {S : Type ℓ} (putc : S → ℕ → ℕ → S) (xs ys : List Character) (s : S)
    → put_each putc (xs ++ ys) s ≡ put_each putc ys (put_each putc xs s)
put_each-append putc [] ys s = refl
put_each-append putc (c ∷ xs) ys s = put_each-append putc xs ys (putc s c.code c.color)

pub put_all-colored :
    {S : Type 0} (putc : S → ℕ → ℕ → S) (color : ℕ) (cs : List ℕ) (s : S)
    → put_all putc color cs s ≡ put_each putc (colored color cs) s
unfolding put_all
put_all-colored putc color [] s = refl
put_all-colored putc color (c ∷ cs) s = put_all-colored putc color cs (putc s c color)

-- What one conversion prints: spaces, a sign or a prefix, zeros, the text cut to its precision, and
-- spaces where it is adjusted to the left.
abbrev pub conversion_text : Conversion → List ℕ
conversion_text v =
    let left = has v.flags flag_leftjustify in
    replicate (if left then 0 else spaces_of v) b' '
    ++ (prefix_of v
        ++ (replicate (zeros_of v) b'0'
            ++ (take (text_length v) (text_of v)
                ++ replicate (if left then spaces_of v else 0) b' ')))

put_all-append :
    {S : Type 0} (putc : S → ℕ → ℕ → S) (color : ℕ) (xs ys : List ℕ) (s : S)
    → put_all putc color (xs ++ ys) s ≡ put_all putc color ys (put_all putc color xs s)
unfolding put_all
put_all-append putc color [] ys s = refl
put_all-append putc color (x ∷ xs) ys s = put_all-append putc color xs ys (putc s x color)

pub put_conversion-text :
    {S : Type 0} (putc : S → ℕ → ℕ → S) (color : ℕ) (v : Conversion) (s : S)
    → put_conversion putc color v s ≡ put_all putc color (conversion_text v) s
unfolding put_conversion
put_conversion-text putc color v s =
    rw (put_all-append, put_all-append, put_all-append, put_all-append) refl

-- The characters of a format from its first byte on, with fuel for its bytes.
unfoldable characters_loop :
    (args : ℕ → ℕ) (string_at : ℕ → List ℕ)
    → (fuel color : ℕ) → List ℕ
    → (next : ℕ) → List Character
characters_loop args string_at zero color format next = []
characters_loop args string_at (suc fuel) color [] next = []
characters_loop args string_at (suc fuel) color (c ∷ rest) next =
    let plain =
      record { code = c; color = color } ∷ characters_loop args string_at fuel color rest next in
    let formatted : List Character = elim (scan_directive args string_at rest next) [
      | convert v next' rest' ↦
          colored color (conversion_text v) ++ characters_loop args string_at fuel color rest' next'
      | recolor color' next' rest' ↦ characters_loop args string_at fuel color' rest' next'
    ] in
    if c == b'%' then formatted else plain

unfoldable pub characters :
    (args : ℕ → ℕ) (string_at : ℕ → List ℕ) (color : ℕ) (format : List ℕ) → List Character
unfolding characters_loop
characters args string_at color format =
    characters_loop args string_at (suc (length format)) color format 0

module _ {S : Type 0} (putc : S → ℕ → ℕ → S) (args : ℕ → ℕ) (string_at : ℕ → List ℕ) where
  printer_loop_lem :
      (fuel color : ℕ) (format : List ℕ) (next : ℕ) (s : S)
      → length format < fuel
      → printer_loop putc args string_at fuel color format next s
        ≡ some (put_each putc (characters_loop args string_at fuel color format next) s)
  unfolding printer_loop characters_loop
  printer_loop_lem zero color format next s h = absurd (omega arith)
  printer_loop_lem (suc fuel) color [] next s h = refl
  printer_loop_lem (suc fuel) color (c ∷ rest) next s h = elim (Bool-cases (c == b'%')) [
    | inl is ↦ rw is (
        elim (scan_directive args string_at rest next)
            as (λ d.
              length (rest_of d) ≤ length rest
              → elim d as (λ x. Option S) [
                | convert v next' rest' ↦
                    printer_loop putc args string_at fuel color rest' next'
                      (put_conversion putc color v s)
                | recolor color' next' rest' ↦
                    printer_loop putc args string_at fuel color' rest' next' s
              ]
                ≡ some (
                    put_each putc
                      (elim d as (λ x. List Character) [
                        | convert v next' rest' ↦
                            colored color (conversion_text v)
                            ++ characters_loop args string_at fuel color rest' next'
                        | recolor color' next' rest' ↦
                            characters_loop args string_at fuel color' rest' next'
                      ])
                      s)) [
                        | convert v next' rest' ↦ λ le.
                            rw
                              (
                                printer_loop_lem fuel color rest' next'
                                    (put_conversion putc color v s) (omega arith),
                                put_each-append,
                                put_conversion-text putc color v s,
                                put_all-colored putc color (conversion_text v) s,
                              )
                              refl
                        | recolor color' next' rest' ↦
                            λ le. printer_loop_lem fuel color' rest' next' s (omega arith)
                      ]
          (scan_directive-le args string_at rest next))
    | inr isnt ↦ rw isnt (printer_loop_lem fuel color rest next (putc s c color) (omega arith))
  ]

  -- Every printer ends, for any format, arguments and state, and its `putc` gets the characters of
  -- the format, one call for each and in their order. Which they are does not depend on the printer:
  -- the bytes outside conversions stand for themselves, and a conversion for its spaces, its sign or
  -- prefix, its zeros and its text.
  pub printer_vprintf-characters :
      (color : ℕ) (format : List ℕ) (s : S)
      → printer_vprintf putc args string_at color format s
        ≡ some (put_each putc (characters args string_at color format) s)
  unfolding printer_vprintf characters
  printer_vprintf-characters color format s =
      printer_loop_lem (suc (length format)) color format 0 s (omega arith)
