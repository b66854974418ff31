-- ===== src/Strings/CopyString.antt =====
-- What `strcpy` copies.
use virtual_memory.Base.{
  ℕ, zero, suc, ◌+◌, ◌-◌, ◌≤◌, ◌<◌, ◌≡◌, ◌≢◌, refl, true, false, ◌&&◌, leb, ltb, ◌==◌,
  if◌then◌else◌, arith, some, ap, sym, ◌∙◌, ◌⊎◌, inl, inr, eq→==, ne→==, ==→eq, ==→ne, Bool-cases,
}
use virtual_memory.Memory.{Memory, store8}
use virtual_memory.Memory.Words.{IsBytes}
use virtual_memory.Strings.{strcpy, strcpy_loop}
use virtual_memory.Strings.Compare.{IsString, behind, first, empty}

-- `m` with the `n + 1` bytes at `src` copied to `d`.
abbrev pub copied_to : Memory → (d src n : ℕ) → Memory
copied_to m d src n x = if leb d x && ltb x (d + suc n) then m (src + (x - d)) else m x

-- The memory after the first byte is stored at `d`.
module _ (m : Memory) (d src : ℕ) (bytes : IsBytes m) where
  stored_byte : store8 m d (m src) d ≡ m src
  unfolding store8
  stored_byte = rw (eq→== d d refl) (omega (arith, bytes src))

  stored_other : (x : ℕ) → x ≢ d → store8 m d (m src) x ≡ m x
  unfolding store8
  stored_other x ne = rw (ne→== x d ne) refl

  stored-IsBytes : IsBytes (store8 m d (m src))
  unfolding store8
  stored-IsBytes x = ground (arith, bytes x)

  stored-IsString :
      (n : ℕ)
      → IsString m src (suc n)
      → (d + suc n < src) ⊎ (src + suc n < d)
      → IsString (store8 m d (m src)) (src + 1) n
  stored-IsString n str apart =
      let tail = behind m src n str in
      record {
        non_zero = λ k h z.
            tail.non_zero k h (sym (stored_other (src + 1 + k) (λ e. omega (arith, e, apart))) ∙ z);
        ends = stored_other (src + 1 + n) (λ e. omega (arith, e, apart)) ∙ tail.ends;
      }

  copied_last : (x : ℕ) → store8 m d (m src) x ≡ copied_to m d src 0 x
  copied_last x = elim (Bool-cases (x == d)) [
    | inl is ↦
        let e = ==→eq x d is in
        let here : (leb d x && ltb x (d + 1)) ≡ true = ground arith in
        ap (store8 m d (m src)) e ∙ stored_byte ∙ rw here (ap m (omega arith))
    | inr isnt ↦ stored_other x (==→ne x d isnt) ∙ ground arith
  ]

  copied_more :
      (n x : ℕ)
      → (d + suc n < src) ⊎ (src + suc n < d)
      → copied_to (store8 m d (m src)) (d + 1) (src + 1) n x ≡ copied_to m d src (suc n) x
  copied_more n x apart = elim (Bool-cases (x == d)) [
    | inl is ↦
        let e = ==→eq x d is in
        let behind_it : (leb (d + 1) x && ltb x (d + 1 + suc n)) ≡ false = ground arith in
        let here : (leb d x && ltb x (d + suc (suc n))) ≡ true = ground arith in
        rw (behind_it, here) (ap (store8 m d (m src)) e ∙ stored_byte ∙ ap m (omega arith))
    | inr isnt ↦ elim (Bool-cases (leb (d + 1) x && ltb x (d + 1 + suc n))) [
      | inl inside ↦
          let here : (leb d x && ltb x (d + suc (suc n))) ≡ true = ground arith in
          let range : (d + 1 ≤ x) × (x < d + 1 + suc n) = (ground arith, ground arith) in
          rw (inside, here)
            (stored_other (src + 1 + (x - (d + 1))) (λ e. omega (arith, e, apart, range))
              ∙ ap m (omega (arith, range)))
      | inr outside ↦
          let here : (leb d x && ltb x (d + suc (suc n))) ≡ false = ground arith in
          rw (outside, here) (stored_other x (==→ne x d isnt))
    ]
  ]

-- A string of `n` bytes in a memory of bytes, with fuel above `n`, and a destination whose `n + 1`
-- bytes do not overlap those of the string: `strcpy` ends, the destination then holds the string
-- with its zero, and no other byte has changed.
pub strcpy-IsString :
    (m : Memory) (n fuel d src x : ℕ)
    → IsBytes m
    → IsString m src n
    → n < fuel
    → (d + n < src) ⊎ (src + n < d)
    → (m' : Memory) × (strcpy m fuel d src ≡ some m') × (m' x ≡ copied_to m d src n x)
unfolding strcpy strcpy_loop
strcpy-IsString m n zero d src x bytes str h apart = absurd (omega arith)
strcpy-IsString m zero (suc fuel) d src x bytes str h apart = (
  store8 m d (m src),
  rw (stored_byte m d src bytes, empty m src str) refl,
  copied_last m d src bytes x,
)
strcpy-IsString m (suc n) (suc fuel) d src x bytes str h apart =
    let m' = store8 m d (m src) in
    let r =
      strcpy-IsString m' n fuel (d + 1) (src + 1) x (stored-IsBytes m d src bytes)
        (stored-IsString m d src bytes n str apart) (omega arith) (omega (arith, apart)) in
    (
      r.0,
      rw (stored_byte m d src bytes, ne→== (m src) 0 (first m src n str)) r.1,
      r.2 ∙ copied_more m d src bytes n x apart,
    )
