-- ===== src/Hardware/Keyboard/Modifiers.antt =====
-- The modifier keys of the keyboard.
use virtual_memory.Base.{
  ℕ, zero, suc, bit_and, bit_or, ◌<◌, ◌≡◌, refl, true, false, Bool, ◌&&◌, ◌==◌, List, [], ◌∷◌,
  arith, ==→eq, ==→ne, Bool-cases, inl, inr, ap,
}
use virtual_memory.Hardware.Keyboard.{
  KeyboardState, keyboard_readc, keymap, pressed, released, complex_keymap,
}

-- A test on all numbers below `n`.
abbrev pub all_below : (ℕ → Bool) → ℕ → Bool
all_below p zero = true
all_below p (suc n) = p n && all_below p n

and_right : (a b : Bool) → (a && b) ≡ true → b ≡ true
and_right true b h = h
and_right false b h = ground (arith, h)

all_below_lem : (p : ℕ → Bool) (n x : ℕ) → all_below p n ≡ true → x < n → p x ≡ true
all_below_lem p zero x h lt = absurd (omega arith)
all_below_lem p (suc n) x h lt = elim (Bool-cases (x == n)) [
  | inl e ↦ ground (arith, ==→eq x n e, ap p (==→eq x n e))
  | inr other ↦
      all_below_lem p n x (and_right (p n) (all_below p n) h) (omega (arith, ==→ne x n other))
]

-- The modifiers after the keyboard has sent these bytes.
abbrev pub modifiers_after : List ℕ → KeyboardState → ℕ
modifiers_after [] k = k.modifiers
modifiers_after (byte ∷ bytes) k = modifiers_after bytes (keyboard_readc 1 byte k).1

abbrev pub state_of : (modifiers : ℕ) → KeyboardState
state_of modifiers = record { modifiers = modifiers; last_escape = 0 }

checked :
    (bytes : List ℕ) (f : ℕ → ℕ)
    → all_below (λ m. modifiers_after bytes (state_of m) == f m) 256 ≡ true
    → (m : ℕ) → m < 256
    → modifiers_after bytes (state_of m) ≡ f m
checked bytes f all m h =
    ==→eq (modifiers_after bytes (state_of m)) (f m)
      (all_below_lem (λ x. modifiers_after bytes (state_of x) == f x) 256 m all h)

-- With any modifiers of 8 bits and no escape pending, the press of the shift, control or alt key
-- sets the bit of that key, and its release clears that bit and no other; caps lock pressed and
-- released twice changes nothing.
pub keyboard_readc_modifiers :
    (m : ℕ)
    → m < 256
    → (modifiers_after (0x2A ∷ []) (state_of m) ≡ bit_or m 1)
      × (modifiers_after (0x1D ∷ []) (state_of m) ≡ bit_or m 2)
      × (modifiers_after (0x38 ∷ []) (state_of m) ≡ bit_or m 4)
      × (modifiers_after (0x2A ∷ 0xAA ∷ []) (state_of m) ≡ bit_and m 0xFE)
      × (modifiers_after (0x1D ∷ 0x9D ∷ []) (state_of m) ≡ bit_and m 0xFD)
      × (modifiers_after (0x38 ∷ 0xB8 ∷ []) (state_of m) ≡ bit_and m 0xFB)
      × (modifiers_after (0x3A ∷ 0xBA ∷ 0x3A ∷ 0xBA ∷ []) (state_of m) ≡ m)
unfolding keyboard_readc keymap pressed released complex_keymap virtual_memory.Paging.has
keyboard_readc_modifiers m h = (
  checked (0x2A ∷ []) (λ x. bit_or x 1) refl m h,
  checked (0x1D ∷ []) (λ x. bit_or x 2) refl m h,
  checked (0x38 ∷ []) (λ x. bit_or x 4) refl m h,
  checked (0x2A ∷ 0xAA ∷ []) (λ x. bit_and x 0xFE) refl m h,
  checked (0x1D ∷ 0x9D ∷ []) (λ x. bit_and x 0xFD) refl m h,
  checked (0x38 ∷ 0xB8 ∷ []) (λ x. bit_and x 0xFB) refl m h,
  checked (0x3A ∷ 0xBA ∷ 0x3A ∷ 0xBA ∷ []) (λ x. x) refl m h,
)
