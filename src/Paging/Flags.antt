-- ===== src/Paging/Flags.antt =====
-- The macros of x86-64.h as arithmetic.
use virtual_memory.Base.{ℕ, ◌-◌, ◌*◌, ◌/◌, ◌%◌, ◌^◌, ◌<◌, ◌≡◌, arith, ◌==◌}
use virtual_memory.Bits.{bit_and_low, bit_and_high, bit_and_digit}
use virtual_memory.Paging.{pageindex, pageoffset, pte_addr, pte_flags, has}

pub pte_flags_lem : (pe : ℕ) → pte_flags pe ≡ pe % 4096
unfolding pte_flags
pte_flags_lem pe = bit_and_low 12 pe

pub pageoffset_lem : (a : ℕ) → pageoffset a ≡ a % 4096
unfolding pageoffset
pageoffset_lem a = bit_and_low 12 a

pub pte_addr_lem : (pe : ℕ) → pe < 2 ^ 64 → pte_addr pe ≡ pe / 4096 * 4096
unfolding pte_addr
pte_addr_lem pe h = omega (arith, bit_and_high 12 pe (2 ^ 52 - 1), bit_and_low 52 (pe / 4096))

pub pageindex_0 : (a : ℕ) → pageindex a 0 ≡ a / 2 ^ 39 % 2 ^ 32 % 512
unfolding pageindex
pageindex_0 a = bit_and_low 9 (a / 2 ^ 39 % 2 ^ 32)

pub pageindex_1 : (a : ℕ) → pageindex a 1 ≡ a / 2 ^ 30 % 512
unfolding pageindex
pageindex_1 a = omega (arith, bit_and_low 9 (a / 2 ^ 30 % 2 ^ 32))

pub pageindex_2 : (a : ℕ) → pageindex a 2 ≡ a / 2 ^ 21 % 512
unfolding pageindex
pageindex_2 a = omega (arith, bit_and_low 9 (a / 2 ^ 21 % 2 ^ 32))

pub pageindex_3 : (a : ℕ) → pageindex a 3 ≡ a / 4096 % 512
unfolding pageindex
pageindex_3 a = omega (arith, bit_and_low 9 (a / 2 ^ 12 % 2 ^ 32))

pub has_p : (x : ℕ) → has x 1 ≡ (x % 2 == 1)
unfolding has
has_p x = ground (arith, bit_and_low 1 x)

pub has_w : (x : ℕ) → has x 2 ≡ (x / 2 % 2 == 1)
unfolding has
has_w x = ground (arith, bit_and_digit x 2, bit_and_low 1 (x / 2))

pub has_u : (x : ℕ) → has x 4 ≡ (x / 4 % 2 == 1)
unfolding has
has_u x = ground (arith, bit_and_digit x 4, bit_and_digit (x / 2) 2, bit_and_low 1 (x / 2 / 2))
