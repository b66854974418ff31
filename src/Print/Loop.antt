-- ===== src/Print/Loop.antt =====
-- The loop over the format ends, and keeps what `putc` keeps.
use virtual_memory.Base.{
  ℕ, bit_or, zero, suc, ◌+◌, ◌-◌, ◌*◌, ◌%◌, ◌^◌, ◌≤◌, ◌<◌, ◌≡◌, refl, inl, inr, Bool, true, false,
  ◌==◌, List, [], ◌∷◌, length, some, arith, Bool-cases,
}
use virtual_memory.Print.{
  flag_of, scan_flags, scan_number, is_digit, scan_star, scan_width, scan_precision_value,
  scan_precision, Conversion, Directive, convert, recolor, main_conversion, scan_directive, put_all,
  put_conversion, printer_loop, printer_vprintf,
}

scan_flags-le : (format : List ℕ) (flags : ℕ) → length (scan_flags format flags).1 ≤ length format
unfolding scan_flags
scan_flags-le [] flags = omega arith
scan_flags-le (c ∷ rest) flags = elim (Bool-cases (flag_of c == 0)) [
  | inl e ↦ rw e (omega arith)
  | inr e ↦ rw e (omega (arith, scan_flags-le rest (bit_or flags (flag_of c))))
]

scan_number-le : (format : List ℕ) (n : ℕ) → length (scan_number format n).1 ≤ length format
unfolding scan_number
scan_number-le [] n = omega arith
scan_number-le (c ∷ rest) n = elim (Bool-cases (is_digit c)) [
  | inl e ↦ rw e (omega (arith, scan_number-le rest ((10 * n + c - b'0') % 2 ^ 32)))
  | inr e ↦ rw e (omega arith)
]

abbrev pub rest_of : Directive → List ℕ
rest_of (convert v next rest) = rest
rest_of (recolor color next rest) = rest

module _ (args : ℕ → ℕ) (string_at : ℕ → List ℕ) where
  scan_width-le :
      (format : List ℕ) (next : ℕ)
      → length (scan_width args string_at format next).rest ≤ length format
  unfolding scan_width scan_star
  scan_width-le [] next = omega arith
  scan_width-le (c ∷ rest) next = ground (arith, scan_number-le (c ∷ rest) 0)

  scan_precision_value-le :
      (format : List ℕ) (next : ℕ)
      → length (scan_precision_value args string_at format next).rest ≤ length format
  unfolding scan_precision_value scan_star
  scan_precision_value-le [] next = omega arith
  scan_precision_value-le (c ∷ rest) next = ground (arith, scan_number-le (c ∷ rest) 0)

  scan_precision-le :
      (format : List ℕ) (next : ℕ)
      → length (scan_precision args string_at format next).rest ≤ length format
  unfolding scan_precision
  scan_precision-le [] next = omega arith
  scan_precision-le (c ∷ rest) next = ground (arith, scan_precision_value-le rest next)

  main_conversion-le :
      (format : List ℕ) (long : Bool) (start : Conversion) (next : ℕ)
      → length (rest_of (main_conversion args string_at format long start next)) ≤ length format
  unfolding main_conversion
  main_conversion-le [] long start next = omega arith
  main_conversion-le (c ∷ rest) long start next =
      ground (arith, main_conversion-le rest true start next)

  pub scan_directive-le :
      (format : List ℕ) (next : ℕ)
      → length (rest_of (scan_directive args string_at format next)) ≤ length format
  unfolding scan_directive
  scan_directive-le format next =
      let f = scan_flags format 0 in
      let w = scan_width args string_at f.1 next in
      let p = scan_precision args string_at w.rest w.next in
      omega (
        arith,
        scan_flags-le format 0,
        scan_width-le f.1 next,
        scan_precision-le w.rest w.next,
        main_conversion-le p.rest false
            (record {
              flags = f.0;
              width = w.value;
              precision = p.value;
              base = 10;
              num = 0;
              bytes = [];
            })
            p.next,
      )

module _ {S : Type 0} (putc : S → ℕ → ℕ → S) (P : S → Type 0)
    (keeps : (s : S) (c color : ℕ) → P s → P (putc s c color)) where
  put_all_keeps : (color : ℕ) (cs : List ℕ) (s : S) → P s → P (put_all putc color cs s)
  unfolding put_all
  put_all_keeps color [] s h = h
  put_all_keeps color (c ∷ cs) s h = put_all_keeps color cs (putc s c color) (keeps s c color h)

  put_conversion_keeps :
      (color : ℕ) (v : Conversion) (s : S) → P s → P (put_conversion putc color v s)
  unfolding put_conversion
  put_conversion_keeps color v s h = put_all_keeps color _ _ (
      put_all_keeps color _ _
        (put_all_keeps color _ _ (put_all_keeps color _ _ (put_all_keeps color _ s h))))

  module _ (args : ℕ → ℕ) (string_at : ℕ → List ℕ) where
    printer_loop_keeps :
        (fuel color : ℕ) (format : List ℕ) (next : ℕ) (s : S)
        → length format < fuel
        → P s
        → (s' : S) × (printer_loop putc args string_at fuel color format next s ≡ some s') × P s'
    unfolding printer_loop
    printer_loop_keeps zero color format next s h p = absurd (omega arith)
    printer_loop_keeps (suc fuel) color [] next s h p = (s, refl, p)
    printer_loop_keeps (suc fuel) color (c ∷ rest) next s h p = elim (Bool-cases (c == b'%')) [
      | inl is ↦ rw is (
          elim (scan_directive args string_at rest next)
              as (λ d.
                length (rest_of d) ≤ length rest
                → (s' : S) × (elim d [
                  | convert v next' rest' ↦
                      printer_loop putc args string_at fuel color rest' next'
                        (put_conversion putc color v s)
                  | recolor color' next' rest' ↦
                      printer_loop putc args string_at fuel color' rest' next' s
                ]
                    ≡ some s')
                  × P s') [
                    | convert v next' rest' ↦ λ le.
                        printer_loop_keeps fuel color rest' next' (put_conversion putc color v s)
                          (omega arith) (put_conversion_keeps color v s p)
                    | recolor color' next' rest' ↦
                        λ le. printer_loop_keeps fuel color' rest' next' s (omega arith) p
                  ]
            (scan_directive-le args string_at rest next))
      | inr isnt ↦ rw isnt (
          printer_loop_keeps fuel color rest next (putc s c color) (omega arith)
            (keeps s c color p))
    ]

    -- So the fuel that `printer_vprintf` gives the loop suffices.
    pub printer_vprintf_keeps :
        (color : ℕ) (format : List ℕ) (s : S)
        → P s
        → (s' : S) × (printer_vprintf putc args string_at color format s ≡ some s') × P s'
    unfolding printer_vprintf
    printer_vprintf_keeps color format s p =
        printer_loop_keeps (suc (length format)) color format 0 s (omega arith) p
