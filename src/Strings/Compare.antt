-- ===== src/Strings/Compare.antt =====
-- Lengths of strings, and when two strings compare as equal.
use virtual_memory.Base.{
  ℕ, zero, suc, ◌+◌, ◌<◌, min, ◌≡◌, refl, ◌≢◌, ◌↔◌, ◌⊎◌, inl, inr, true, false, not, ◌&&◌, ◌==◌,
  some, arith, ap, sym, ◌∙◌, Bool-cases, ne→==, eq→==, ==→eq, ==→ne,
}
use virtual_memory.Memory.{Memory}
use virtual_memory.Strings.{strlen_loop, strlen, strnlen_loop, strnlen, compare_bytes, strcmp}

-- A string of `len` bytes at `s`, with its terminating zero byte behind them.
pub record IsString (m : Memory) (s len : ℕ) : Type 0 where
  pub non_zero : (k : ℕ) → k < len → m (s + k) ≢ 0
  pub ends : m (s + len) ≡ 0

-- What is left of a string behind its first byte.
pub behind : (m : Memory) (s len : ℕ) → IsString m s (suc len) → IsString m (s + 1) len
behind m s len str = record {
  non_zero = λ k h z. str.non_zero (k + 1) (omega arith) (ap m (omega arith) ∙ z);
  ends = ap m (omega arith) ∙ str.ends;
}

pub first : (m : Memory) (s len : ℕ) → IsString m s (suc len) → m s ≢ 0
first m s len str z = str.non_zero 0 (omega arith) (ap m (omega arith) ∙ z)

pub empty : (m : Memory) (s : ℕ) → IsString m s 0 → m s ≡ 0
empty m s str = ap m (omega arith) ∙ str.ends

strlen_loop_lem :
    (m : Memory) (fuel s n len : ℕ)
    → IsString m s len
    → len < fuel
    → strlen_loop m fuel s n ≡ some (n + len)
unfolding strlen_loop
strlen_loop_lem m zero s n len str h = absurd (omega arith)
strlen_loop_lem m (suc fuel) s n zero str h =
    rw (eq→== (m s) 0 (empty m s str)) (ap some (omega arith))
strlen_loop_lem m (suc fuel) s n (suc len) str h = rw (ne→== (m s) 0 (first m s len str)) (
    strlen_loop_lem m fuel (s + 1) (n + 1) len (behind m s len str) (omega arith)
    ∙ ap some (omega arith))

strnlen_loop_lem :
    (m : Memory) (left s n len : ℕ) → IsString m s len → strnlen_loop m left s n ≡ n + min len left
unfolding strnlen_loop
strnlen_loop_lem m zero s n len str = omega arith
strnlen_loop_lem m (suc left) s n zero str = rw (eq→== (m s) 0 (empty m s str)) (omega arith)
strnlen_loop_lem m (suc left) s n (suc len) str =
    rw (ne→== (m s) 0 (first m s len str))
      (strnlen_loop_lem m left (s + 1) (n + 1) len (behind m s len str) ∙ omega arith)

-- `strlen` of a string ends and returns its length, and `strnlen` returns the smaller one of its
-- length and `maxlen`.
pub strlen-strnlen :
    (m : Memory) (s len maxlen : ℕ)
    → IsString m s len
    → (strlen m (suc len) s ≡ some len) × (strnlen m s maxlen ≡ min len maxlen)
unfolding strlen strnlen
strlen-strnlen m s len maxlen str = (
  strlen_loop_lem m (suc len) s 0 len str (omega arith) ∙ ap some (omega arith),
  strnlen_loop_lem m maxlen s 0 len str ∙ omega arith,
)

-- Two strings with the same bytes.
pub record SameString (m : Memory) (a b la lb : ℕ) : Type 0 where
  pub same_length : la ≡ lb
  pub same_bytes : (k : ℕ) → k < la → m (a + k) ≡ m (b + k)

compare_bytes_lem : (x y : ℕ) → (compare_bytes x y ≡ 0) ↔ (x ≡ y)
compare_bytes_lem x y = ground arith

-- The loop stops where a byte is zero or the bytes differ.
strcmp_stop :
    (m : Memory) (fuel a b : ℕ)
    → (m a ≡ 0) ⊎ (m b ≡ 0) ⊎ (m a ≢ m b)
    → strcmp m (suc fuel) a b ≡ some (compare_bytes (m a) (m b))
unfolding strcmp
strcmp_stop m fuel a b h =
    let off : (not (m a == 0) && not (m b == 0) && (m a == m b)) ≡ false = ground arith in
    rw off refl

strcmp_step :
    (m : Memory) (fuel a b : ℕ)
    → m a ≢ 0
    → m a ≡ m b
    → strcmp m (suc fuel) a b ≡ strcmp m fuel (a + 1) (b + 1)
unfolding strcmp
strcmp_step m fuel a b h e =
    let on : (not (m a == 0) && not (m b == 0) && (m a == m b)) ≡ true = ground arith in rw on refl

-- A string that starts with a zero byte is empty, and the other way round.
zero_first : (m : Memory) (s len : ℕ) → IsString m s len → (m s ≡ 0) ↔ (len ≡ 0)
zero_first m s zero str = (λ z. refl, λ z. empty m s str)
zero_first m s (suc len) str = (λ z. absurd (first m s len str z), λ z. absurd (omega arith))

SameString-first :
    (m : Memory) (a b la lb : ℕ)
    → IsString m a la
    → IsString m b lb
    → SameString m a b la lb
    → m a ≡ m b
SameString-first m a b zero lb sa sb same =
    empty m a sa ∙ sym ((zero_first m b lb sb).1 (sym same.same_length))
SameString-first m a b (suc la) lb sa sb same =
    ap m (omega arith) ∙ same.same_bytes 0 (omega arith) ∙ ap m (omega arith)

-- Two strings, one of which is empty.
empty-SameString :
    (m : Memory) (a b la lb : ℕ)
    → IsString m a la
    → IsString m b lb
    → (la ≡ 0) ⊎ (lb ≡ 0)
    → m a ≡ m b
    → SameString m a b la lb
empty-SameString m a b la lb sa sb h e =
    let za = zero_first m a la sa in
    let zb = zero_first m b lb sb in
    let both : (la ≡ 0) × (lb ≡ 0) = elim h [
      | inl z ↦ (z, zb.0 (sym e ∙ za.1 z))
      | inr z ↦ (za.0 (e ∙ zb.1 z), z)
    ] in
    record { same_length = omega (arith, both); same_bytes = λ k hk. absurd (omega (arith, both)) }

SameString-suc :
    (m : Memory) (a b la lb : ℕ)
    → m a ≡ m b
    → SameString m (a + 1) (b + 1) la lb ↔ SameString m a b (suc la) (suc lb)
SameString-suc m a b la lb e = (
  λ same. record { same_length = ap suc same.same_length; same_bytes = longer same.same_bytes },
  λ same. record {
    same_length = omega (arith, same.same_length);
    same_bytes =
        λ k hk. ap m (omega arith) ∙ same.same_bytes (suc k) (omega arith) ∙ ap m (omega arith);
  },
)
  where
    longer :
        ((k : ℕ) → k < la → m (a + 1 + k) ≡ m (b + 1 + k))
        → (k : ℕ) → k < suc la
        → m (a + k) ≡ m (b + k)
    longer f zero hk = ap m (omega arith) ∙ e ∙ ap m (omega arith)
    longer f (suc k) hk = ap m (omega arith) ∙ f k (omega arith) ∙ ap m (omega arith)

strcmp_stops :
    (m : Memory) (fuel a b la lb : ℕ)
    → IsString m a la
    → IsString m b lb
    → (la ≡ 0) ⊎ (lb ≡ 0) ⊎ (m a ≢ m b)
    → (r : ℕ) × (strcmp m (suc fuel) a b ≡ some r) × ((r ≡ 0) ↔ SameString m a b la lb)
strcmp_stops m fuel a b la lb sa sb h =
    let za = zero_first m a la sa in
    let zb = zero_first m b lb sb in
    let c = compare_bytes_lem (m a) (m b) in
    let stop : (m a ≡ 0) ⊎ (m b ≡ 0) ⊎ (m a ≢ m b) = elim h [
      | inl z ↦ inl (za.1 z)
      | inr (inl z) ↦ inr (inl (zb.1 z))
      | inr (inr z) ↦ inr (inr z)
    ] in
    (
      compare_bytes (m a) (m b),
      strcmp_stop m fuel a b stop,
      (
        λ z. elim h [
          | inl x ↦ empty-SameString m a b la lb sa sb (inl x) (c.0 z)
          | inr (inl x) ↦ empty-SameString m a b la lb sa sb (inr x) (c.0 z)
          | inr (inr x) ↦ absurd (x (c.0 z))
        ],
        λ same. c.1 (SameString-first m a b la lb sa sb same),
      ),
    )

-- `strcmp` of two strings ends, on fuel above the length of the shorter one, and returns 0 exactly
-- if they are the same string.
pub strcmp-SameString :
    (m : Memory) (fuel a b la lb : ℕ)
    → IsString m a la
    → IsString m b lb
    → min la lb < fuel
    → (r : ℕ) × (strcmp m fuel a b ≡ some r) × ((r ≡ 0) ↔ SameString m a b la lb)
strcmp-SameString m zero a b la lb sa sb h = absurd (omega arith)
strcmp-SameString m (suc fuel) a b zero lb sa sb h =
    strcmp_stops m fuel a b zero lb sa sb (inl refl)
strcmp-SameString m (suc fuel) a b (suc la) zero sa sb h =
    strcmp_stops m fuel a b (suc la) zero sa sb (inr (inl refl))
strcmp-SameString m (suc fuel) a b (suc la) (suc lb) sa sb h =
    let ih =
      strcmp-SameString m fuel (a + 1) (b + 1) la lb (behind m a la sa) (behind m b lb sb)
        (omega arith) in
    elim (Bool-cases (m a == m b)) [
      | inl is ↦
          let e = ==→eq (m a) (m b) is in
          let longer = SameString-suc m a b la lb e in
          (
            ih.0,
            strcmp_step m fuel a b (first m a la sa) e ∙ ih.1,
            (λ z. longer.0 (ih.2.0 z), λ same. ih.2.1 (longer.1 same)),
          )
      | inr isnt ↦
          strcmp_stops m fuel a b (suc la) (suc lb) sa sb (inr (inr (==→ne (m a) (m b) isnt)))
    ]
