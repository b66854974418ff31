-- ===== src/Memory/Words.antt =====
-- 64-bit words: what is stored is loaded again, and other words stay.
use virtual_memory.Base.{ℕ, ◌+◌, ◌-◌, ◌*◌, ◌^◌, ◌≤◌, ◌<◌, ◌≡◌, ◌⊎◌, arith, ap, ◌∙◌}
use virtual_memory.Memory.{Memory, load64, store64, byte_of}

module _ (m : Memory) (a v : ℕ) where
  store64_at : (k : ℕ) → k < 8 → store64 m a v (a + k) ≡ byte_of v k
  unfolding store64
  store64_at k h = let e : a + k - a ≡ k = omega arith in ground (arith, ap (byte_of v) e)

  store64_start : store64 m a v a ≡ byte_of v 0
  store64_start = ap (store64 m a v) (omega arith) ∙ store64_at 0 (omega arith)

  -- A store leaves every byte outside its word alone.
  pub store64_ne : (x : ℕ) → (x < a) ⊎ (a + 8 ≤ x) → store64 m a v x ≡ m x
  unfolding store64
  store64_ne x h = ground arith

  bytes_sum :
      v < 2 ^ 64
      → byte_of v 0
          + 256
            * (byte_of v 1
                + 256
                  * (byte_of v 2
                      + 256
                        * (byte_of v 3
                            + 256
                              * (byte_of v 4
                                  + 256
                                    * (byte_of v 5 + 256 * (byte_of v 6 + 256 * byte_of v 7))))))
        ≡ v
  unfolding byte_of
  bytes_sum h = omega arith

  -- A load after the store gives the value back.
  pub load64-store64_self : v < 2 ^ 64 → load64 (store64 m a v) a ≡ v
  unfolding load64
  load64-store64_self h =
      rw
        (
          store64_start,
          store64_at 1 (omega arith),
          store64_at 2 (omega arith),
          store64_at 3 (omega arith),
          store64_at 4 (omega arith),
          store64_at 5 (omega arith),
          store64_at 6 (omega arith),
          store64_at 7 (omega arith),
        )
        (bytes_sum h)

-- A load depends only on the eight bytes of its word.
pub load64_cong :
    (m m' : Memory) (b : ℕ) → ((k : ℕ) → k < 8 → m' (b + k) ≡ m (b + k)) → load64 m' b ≡ load64 m b
unfolding load64
load64_cong m m' b same =
    let start : m' b ≡ m b = ap m' (omega arith) ∙ same 0 (omega arith) ∙ ap m (omega arith) in
    rw (
      start,
      same 1 (omega arith),
      same 2 (omega arith),
      same 3 (omega arith),
      same 4 (omega arith),
      same 5 (omega arith),
      same 6 (omega arith),
      same 7 (omega arith),
    )

-- A load of another word is not changed by a store.
pub load64-store64_ne :
    (m : Memory) (a b v : ℕ) → (a + 8 ≤ b) ⊎ (b + 8 ≤ a) → load64 (store64 m a v) b ≡ load64 m b
load64-store64_ne m a b v apart =
    load64_cong m (store64 m a v) b (λ k h. store64_ne m a v (b + k) (ground arith))

-- Every cell of a real memory holds a byte.
abbrev pub IsBytes : Memory → Type 0
IsBytes m = (a : ℕ) → m a < 256

pub load64-lt : (m : Memory) (a : ℕ) → IsBytes m → load64 m a < 2 ^ 64
unfolding load64
load64-lt m a h =
    omega (arith, h a, h (a + 1), h (a + 2), h (a + 3), h (a + 4), h (a + 5), h (a + 6), h (a + 7))

pub store64-IsBytes : (m : Memory) (a v : ℕ) → IsBytes m → IsBytes (store64 m a v)
unfolding store64 byte_of
store64-IsBytes m a v h x = ground (arith, h x)
