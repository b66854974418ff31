-- ===== src/Memory.antt =====
-- Physical memory, byte by byte, and the loops of lib.c over it (`memcpy`, `memmove`, `memset`).
-- A 64-bit access stands for the little-endian load or store that the compiled code makes.
pub mod Words
pub mod Copy
use virtual_memory.Base.{
  ℕ, zero, suc, ◌+◌, ◌-◌, ◌*◌, ◌/◌, ◌%◌, ◌^◌, Bool, true, false, ◌&&◌, leb, ltb, ◌==◌,
  if◌then◌else◌,
}

-- The byte at each physical address.
abbrev pub Memory : Type 0
Memory = ℕ → ℕ

unfoldable pub byte_of : ℕ → ℕ → ℕ
byte_of v k = v / 256 ^ k % 256

unfoldable pub load64 : Memory → ℕ → ℕ
load64 m a =
    m a
    + 256
      * (m (a + 1)
          + 256
            * (m (a + 2)
                + 256
                  * (m (a + 3)
                      + 256
                        * (m (a + 4) + 256 * (m (a + 5) + 256 * (m (a + 6) + 256 * m (a + 7)))))))

unfoldable pub store64 : Memory → ℕ → ℕ → Memory
unfolding byte_of
store64 m a v x = if leb a x && ltb x (a + 8) then byte_of v (x - a) else m x

unfoldable pub store8 : Memory → ℕ → ℕ → Memory
store8 m a c x = if x == a then c % 256 else m x

-- `for (char* d = dst; n > 0; --n, ++s, ++d) *d = *s;`
unfoldable pub memcpy : Memory → (dst src n : ℕ) → Memory
unfolding store8
memcpy m dst src zero = m
memcpy m dst src (suc n) = memcpy (store8 m dst (m src)) (dst + 1) (src + 1) n

-- `for (char* p = v; n > 0; ++p, --n) *p = c;`
unfoldable pub memset : Memory → (v c n : ℕ) → Memory
unfolding store8
memset m v c zero = m
memset m v c (suc n) = memset (store8 m v c) (v + 1) c n

-- The loop of `memmove` that walks down: `while (n-- > 0) *--d = *--s;`
unfoldable pub copy_down : Memory → (d s n : ℕ) → Memory
unfolding store8
copy_down m d s zero = m
copy_down m d s (suc n) = copy_down (store8 m (d - 1) (m (s - 1))) (d - 1) (s - 1) n

-- The loop of `memmove` that walks up: `while (n-- > 0) *d++ = *s++;`
unfoldable pub copy_up : Memory → (d s n : ℕ) → Memory
unfolding store8
copy_up m d s zero = m
copy_up m d s (suc n) = copy_up (store8 m d (m s)) (d + 1) (s + 1) n

unfoldable pub memmove : Memory → (dst src n : ℕ) → Memory
unfolding copy_down copy_up
memmove m dst src n =
    if ltb src dst && ltb dst (src + n)
    then copy_down m (dst + n) (src + n) n
    else copy_up m dst src n
