-- ===== src/Memory/Copy.antt =====
-- What the loops of lib.c do to memory, address by address.
use virtual_memory.Base.{
  ℕ, zero, suc, ◌+◌, ◌-◌, ◌%◌, ◌≤◌, ◌<◌, ◌≡◌, refl, ◌⊎◌, inl, inr, arith, ap, leb, ltb, ◌&&◌,
  if◌then◌else◌, Bool-cases,
}
use virtual_memory.Memory.Words.{IsBytes}
use virtual_memory.Memory.{Memory, store8, memset, memcpy, memmove, copy_up, copy_down}

pub memset_lem :
    (m : Memory) (v c n x : ℕ)
    → memset m v c n x ≡ (if leb v x && ltb x (v + n) then c % 256 else m x)
unfolding memset store8
memset_lem m v c zero x = ground arith
memset_lem m v c (suc n) x = ground (arith, memset_lem (store8 m v c) (v + 1) c n x)

-- A byte is determined by its address.
byte_eq : (m : Memory) (a b : ℕ) → a ≡ b → m a ≡ m b
byte_eq m a b e = ap m e

-- `memcpy` copies the bytes in order, as long as it writes no byte that it reads later.
pub memcpy_lem :
    (m : Memory) (dst src n x : ℕ)
    → (dst ≤ src) ⊎ (src + n ≤ dst)
    → memcpy m dst src n x
      ≡ (if leb dst x && ltb x (dst + n) then m (src + (x - dst)) % 256 else m x)
unfolding memcpy store8
memcpy_lem m dst src zero x h = ground arith
memcpy_lem m dst src (suc n) x h = ground (
  arith,
  memcpy_lem (store8 m dst (m src)) (dst + 1) (src + 1) n x (omega arith),
  byte_eq m src (src + (x - dst)),
  byte_eq m (src + 1 + (x - (dst + 1))) (src + (x - dst)),
)

copy_up_lem : (m : Memory) (d s n : ℕ) → copy_up m d s n ≡ memcpy m d s n
unfolding copy_up memcpy
copy_up_lem m d s zero = refl
copy_up_lem m d s (suc n) = copy_up_lem (store8 m d (m s)) (d + 1) (s + 1) n

copy_down_lem :
    (m : Memory) (d s n x : ℕ)
    → n ≤ s
    → s < d
    → copy_down m d s n x
      ≡ (if leb (d - n) x && ltb x d then m (s - n + (x - (d - n))) % 256 else m x)
unfolding copy_down store8
copy_down_lem m d s zero x h k = ground arith
copy_down_lem m d s (suc n) x h k = ground (
  arith,
  copy_down_lem (store8 m (d - 1) (m (s - 1))) (d - 1) (s - 1) n x (omega arith) (omega arith),
  byte_eq m (s - 1) (s - suc n + (x - (d - suc n))),
  byte_eq m (s - 1 - n + (x - (d - 1 - n))) (s - suc n + (x - (d - suc n))),
)

-- `memmove` copies `n` bytes from `src` to `dst` and changes no other byte, however the two
-- ranges overlap: each byte of the target holds what its source byte held before the call.
pub memmove_lem :
    (m : Memory) (dst src n x : ℕ)
    → memmove m dst src n x
      ≡ (if leb dst x && ltb x (dst + n) then m (src + (x - dst)) % 256 else m x)
unfolding memmove
memmove_lem m dst src n x = elim (Bool-cases (ltb src dst && ltb dst (src + n))) [
  | inl e ↦ rw e (
      ground (
        arith,
        copy_down_lem m (dst + n) (src + n) n x (omega arith) (ground arith),
        byte_eq m (src + n - n + (x - (dst + n - n))) (src + (x - dst)),
      ))
  | inr e ↦ rw e (rw (copy_up_lem m dst src n) (memcpy_lem m dst src n x (ground arith)))
]

pub memset-IsBytes : (m : Memory) (v c n : ℕ) → IsBytes m → IsBytes (memset m v c n)
memset-IsBytes m v c n h x = ground (arith, memset_lem m v c n x, h x)

pub memcpy-IsBytes : (m : Memory) (dst src n : ℕ) → IsBytes m → IsBytes (memcpy m dst src n)
unfolding memcpy store8
memcpy-IsBytes m dst src zero h = h
memcpy-IsBytes m dst src (suc n) h =
    memcpy-IsBytes (store8 m dst (m src)) (dst + 1) (src + 1) n (λ x. ground (arith, h x))
