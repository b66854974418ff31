-- ===== src/Strings.antt =====
-- The string functions of lib.c, on strings in memory. A loop that ends at a zero byte runs on
-- fuel; `none` means that the fuel did not suffice.
pub mod Compare
pub mod CopyString
use virtual_memory.Base.{
  ℕ, zero, suc, ◌+◌, ◌*◌, ◌%◌, ◌^◌, bit_and, Bool, true, false, not, ◌&&◌, ltb, ◌==◌, if◌then◌else◌,
  Option, none, some,
}
use virtual_memory.Memory.{Memory, store8}
use virtual_memory.Vm.{minus_one}

pub strlen_loop : Memory → (fuel s n : ℕ) → Option ℕ
strlen_loop m zero s n = none
strlen_loop m (suc fuel) s n =
    let rest = strlen_loop m fuel (s + 1) (n + 1) in if m s == 0 then some n else rest

pub strlen : Memory → (fuel s : ℕ) → Option ℕ
strlen m fuel s = strlen_loop m fuel s 0

-- The loop, with what is left of `maxlen`.
pub strnlen_loop : Memory → (left s n : ℕ) → ℕ
strnlen_loop m zero s n = n
strnlen_loop m (suc left) s n =
    let rest = strnlen_loop m left (s + 1) (n + 1) in if m s == 0 then n else rest

pub strnlen : Memory → (s maxlen : ℕ) → ℕ
strnlen m s maxlen = strnlen_loop m maxlen s 0

-- `(a > b) - (a < b)`
abbrev pub compare_bytes : ℕ → ℕ → ℕ
compare_bytes a b = if ltb b a then 1 else if ltb a b then minus_one else 0

pub strcmp : Memory → (fuel a b : ℕ) → Option ℕ
strcmp m zero a b = none
strcmp m (suc fuel) a b =
    let rest = strcmp m fuel (a + 1) (b + 1) in
    if not (m a == 0) && not (m b == 0) && (m a == m b)
    then rest
    else some (compare_bytes (m a) (m b))

-- The test of the loop reads back the byte that was written.
unfoldable pub strcpy_loop : Memory → (fuel d src : ℕ) → Option Memory
strcpy_loop m zero d src = none
strcpy_loop m (suc fuel) d src =
    let m' = store8 m d (m src) in
    let rest = strcpy_loop m' fuel (d + 1) (src + 1) in if m' d == 0 then some m' else rest

-- The result is the memory; the function returns `dst`.
unfoldable pub strcpy : Memory → (fuel dst src : ℕ) → Option Memory
strcpy m fuel dst src = strcpy_loop m fuel dst src

-- The address of the first byte `(char) c`, or NULL.
pub strchr : Memory → (fuel s c : ℕ) → Option ℕ
strchr m zero s c = none
strchr m (suc fuel) s c =
    let rest = strchr m fuel (s + 1) c in
    if not (m s == 0) && not (m s == c % 256)
    then rest
    else if m s == c % 256
    then some s
    else some 0

abbrev pub rand_max : ℕ
rand_max = 0x7FFFFFFF

-- The generator's two static variables.
pub record Random : Type 0 where
  pub rand_seed : ℕ
  pub rand_seed_set : Bool

pub srand : (seed : ℕ) → Random
srand seed = record { rand_seed = seed; rand_seed_set = true }

pub rand : Random → ℕ × Random
rand r =
    let r' = if r.rand_seed_set then r else srand 819234718 in
    let seed = (r'.rand_seed * 1664525 + 1013904223) % 2 ^ 32 in
    (bit_and seed rand_max, record r' { rand_seed = seed })
