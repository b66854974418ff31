-- ===== src/Print/Numbers.antt =====
-- The digits that `fill_numbuf` writes are those of the number.
use virtual_memory.Base.{
  ℕ, zero, suc, ◌+◌, ◌-◌, ◌*◌, ◌/◌, ◌%◌, ◌^◌, ◌≤◌, ◌<◌, ◌≡◌, refl, ◌⊎◌, inl, inr, Bool, true, false,
  leb, ltb, ◌==◌, if◌then◌else◌, List, [], ◌∷◌, ◌++◌, length, some, arith, Bool-cases, ap, sym, ◌∙◌,
  ==→eq, ==→ne,
}
use mathlib.Core.List.{append_assoc, append-nil}
use virtual_memory.Print.{digit, fill_loop, fill_numbuf}

-- The value of a digit, in either case.
abbrev pub digit_value : ℕ → ℕ
digit_value c = if leb c b'9' then c - b'0' else if leb c b'F' then c - b'A' + 10 else c - b'a' + 10

-- The number that a list of digits stands for, from the left.
abbrev pub parse : (base acc : ℕ) → List ℕ → ℕ
parse base acc [] = acc
parse base acc (c ∷ rest) = parse base (acc * base + digit_value c) rest

parse-snoc :
    (base acc : ℕ) (ds : List ℕ) (c : ℕ)
    → parse base acc (ds ++ (c ∷ [])) ≡ parse base acc ds * base + digit_value c
parse-snoc base acc [] c = refl
parse-snoc base acc (d ∷ ds) c = parse-snoc base (acc * base + digit_value d) ds c

length-snoc : (ds : List ℕ) (c : ℕ) → length (ds ++ (c ∷ [])) ≡ length ds + 1
length-snoc [] c = omega arith
length-snoc (d ∷ ds) c = omega (arith, length-snoc ds c)

digit_value-digit : (lower : Bool) (d : ℕ) → d < 16 → digit_value (digit lower d) ≡ d
unfolding digit
digit_value-digit true d h = ground arith
digit_value-digit false d h = ground arith

-- A bound that `fuel` rounds suffice for.
abbrev limit : ℕ → ℕ
limit zero = 1
limit (suc n) = 10 * limit n

abbrev IsBase : ℕ → Type 0
IsBase base = (base ≡ 10) ⊎ (base ≡ 16)

split : (base val : ℕ) → IsBase base → val / base * base + val % base ≡ val
split base val (inl e) = rw e (omega arith)
split base val (inr e) = rw e (omega arith)

mod-lt : (base val : ℕ) → IsBase base → val % base < 16
mod-lt base val (inl e) = rw e (omega arith)
mod-lt base val (inr e) = rw e (omega arith)

div-lt : (base val n : ℕ) → IsBase base → val < 10 * n → val / base < n
div-lt base val n (inl e) h = rw e (omega arith)
div-lt base val n (inr e) h = rw e (omega arith)

-- The digits that the loop puts before `out`.
Digits : (lower : Bool) (fuel base val : ℕ) → List ℕ → Type 0
Digits lower fuel base val out =
    (ds : List ℕ) × (fill_loop fuel lower base val out ≡ some (ds ++ out))
    × (parse base 0 ds ≡ val)
    × (1 ≤ length ds)
    × (length ds ≤ fuel)

fill_loop_lem :
    (lower : Bool) (fuel base val : ℕ) (out : List ℕ)
    → IsBase base
    → 1 ≤ fuel
    → val < limit fuel
    → Digits lower fuel base val out
unfolding fill_loop Digits
fill_loop_lem lower zero base val out b pos h = absurd (omega arith)
fill_loop_lem lower (suc fuel) base val out b pos h =
    let d = digit lower (val % base) in
    let last : digit_value d ≡ val % base =
      digit_value-digit lower (val % base) (mod-lt base val b) in
    elim (Bool-cases (val / base == 0)) [
      | inl is ↦
          let z : val / base ≡ 0 = ==→eq (val / base) 0 is in
          (
            d ∷ [],
            rw is refl,
            ap (λ x. x * base + digit_value d) (sym z)
                ∙ ap (λ x. val / base * base + x) last
                ∙ split base val b,
            omega arith,
            omega arith,
          )
      | inr more ↦
          let small : val / base < limit fuel = div-lt base val (limit fuel) b h in
          let ih =
            fill_loop_lem lower fuel base (val / base) (d ∷ out) b
              (some_fuel fuel (val / base) (==→ne (val / base) 0 more) small) small in
          (
            ih.0 ++ (d ∷ []),
            rw more (ih.1 ∙ ap some (sym (append_assoc ih.0 (d ∷ []) out))),
            parse-snoc base 0 ih.0 d
                ∙ ap (λ x. x * base + digit_value d) ih.2
                ∙ ap (λ x. val / base * base + x) last
                ∙ split base val b,
            omega (arith, length-snoc ih.0 d),
            omega (arith, length-snoc ih.0 d, ih.4),
          )
    ]
  where
    some_fuel : (n x : ℕ) → (x ≡ 0 → ⊥) → x < limit n → 1 ≤ n
    some_fuel zero x ne lt = absurd (ne (omega arith))
    some_fuel (suc n) x ne lt = omega arith

-- The bases that the conversions use; a negative one asks for lower-case digits.
abbrev pub radix : ℕ → ℕ
radix base = if ltb base (2 ^ 31) then base else 2 ^ 32 - base

-- For a 64-bit number and a base of a conversion, `fill_numbuf` ends. It writes at least one digit,
-- and with its terminating zero at most 21 of the buffer's 24 bytes; read back in that base, the
-- digits give the number.
pub parse-fill_numbuf :
    (val base : ℕ)
    → val < 2 ^ 64
    → (base ≡ 10) ⊎ (base ≡ 16) ⊎ (base ≡ 2 ^ 32 - 16)
    → (ds : List ℕ) × (fill_numbuf val base ≡ some ds)
      × (parse (radix base) 0 ds ≡ val)
      × (1 ≤ length ds)
      × (length ds ≤ 20)
unfolding fill_numbuf Digits
parse-fill_numbuf val base h (inl e) =
    let r = fill_loop_lem false 20 10 val [] (inl refl) (omega arith) (omega arith) in
    rw e (r.0, r.1 ∙ ap some (append-nil r.0), r.2, r.3, r.4)
parse-fill_numbuf val base h (inr (inl e)) =
    let r = fill_loop_lem false 20 16 val [] (inr refl) (omega arith) (omega arith) in
    rw e (r.0, r.1 ∙ ap some (append-nil r.0), r.2, r.3, r.4)
parse-fill_numbuf val base h (inr (inr e)) =
    let r = fill_loop_lem true 20 16 val [] (inr refl) (omega arith) (omega arith) in
    rw e (r.0, r.1 ∙ ap some (append-nil r.0), r.2, r.3, r.4)
