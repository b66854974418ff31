-- ===== src/Print/Conversions/Numerals.antt =====
-- Digits: the number that they stand for, and their letters.
use virtual_memory.Base.{
  ℕ, zero, suc, ◌-◌, ◌/◌, ◌%◌, ◌^◌, ◌≤◌, ◌<◌, ◌≡◌, ◌⊎◌, inl, inr, true, ◌==◌, List, [], ◌∷◌, length,
  some, arith, Bool-cases, sym,
}
use mathlib.Core.Option.{some-injective}
use virtual_memory.Print.{fill_numbuf, fill_loop, digit}
use virtual_memory.Print.Numbers.{parse}

-- What a list of digits says.
abbrev pub IsNumeral : (base x : ℕ) → List ℕ → Type 0
IsNumeral base x digits = (parse base 0 digits ≡ x) × (1 ≤ length digits)

-- No letter is a capital.
abbrev pub AreSmall : List ℕ → Type 0
AreSmall [] = Unit
AreSmall (c ∷ cs) = ((c < b'A') ⊎ (b'Z' < c)) × AreSmall cs

small_digit : (d : ℕ) → d < 16 → (digit true d < b'A') ⊎ (b'Z' < digit true d)
unfolding digit
small_digit d h = ground arith

fill_loop-AreSmall :
    (fuel val : ℕ) (out digits : List ℕ)
    → AreSmall out
    → fill_loop fuel true 16 val out ≡ some digits
    → AreSmall digits
unfolding fill_loop
fill_loop-AreSmall zero val out digits h = λ e. absurd (ground (arith, e))
fill_loop-AreSmall (suc fuel) val out digits h =
    let more : AreSmall (digit true (val % 16) ∷ out) = (small_digit (val % 16) (omega arith), h) in
    elim (Bool-cases (val / 16 == 0)) [
      | inl is ↦ rw is (λ e. rw (sym (some-injective _ _ e)) more)
      | inr isnt ↦
          rw isnt (fill_loop-AreSmall fuel (val / 16) (digit true (val % 16) ∷ out) digits more)
    ]

pub fill_numbuf-AreSmall :
    (val : ℕ) (digits : List ℕ) → fill_numbuf val (2 ^ 32 - 16) ≡ some digits → AreSmall digits
unfolding fill_numbuf
fill_numbuf-AreSmall val digits e = fill_loop-AreSmall 20 val [] digits tt e
