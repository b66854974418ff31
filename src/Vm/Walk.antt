-- ===== src/Vm/Walk.antt =====
-- What the walk of `virtual_memory_lookup` computes from the four entries that it reads.
use virtual_memory.Base.{ℕ, ◌+◌, ◌-◌, ◌*◌, ◌/◌, ◌%◌, ◌^◌, ◌<◌, bit_and, min, ◌≡◌, arith}
use virtual_memory.Bits.{bit_and_digit, bit_and_low, bit_and-zero}
use virtual_memory.Memory.{Memory}
use virtual_memory.Memory.Words.{IsBytes, load64-lt}
use virtual_memory.Paging.{pageindex, pte_addr, entry}
use virtual_memory.Paging.Flags.{pte_addr_lem}
use virtual_memory.Vm.{not64, next_entry}

flags_6 : (pe : ℕ) → bit_and pe 6 ≡ 2 * (pe / 2 % 2) + 4 * (pe / 4 % 2)
flags_6 pe = omega (
  arith,
  bit_and_digit pe 6,
  bit_and_digit (pe / 2) 3,
  bit_and_digit (pe / 2 / 2) 1,
  bit_and-zero (pe / 2 / 2 / 2),
)

-- `e & ~(2 * b + 4 * c)` at single bits `b` and `c`.
and_not :
    (e b c : ℕ)
    → e < 2 ^ 64
    → b < 2
    → c < 2
    → bit_and e (not64 (2 * b + 4 * c)) ≡ e - 2 * min (e / 2 % 2) b - 4 * min (e / 4 % 2) c
and_not e b c he hb hc =
    let m = not64 (2 * b + 4 * c) in
    ground (
      arith,
      bit_and_digit e m,
      bit_and_digit (e / 2) (m / 2),
      bit_and_digit (e / 2 / 2) (m / 2 / 2),
      bit_and_low 61 (e / 2 / 2 / 2),
    )

-- The frame that an entry points to, as the processor reads it.
abbrev pub frame : ℕ → ℕ
frame e = e / 4096 * 4096

module _ (m : Memory) (bytes : IsBytes m) (va : ℕ) where
  -- One round clears the `W` and `U` flags that the round before had left set, and nothing else.
  next_entry_lem :
      (level pt pe : ℕ)
      → let e = entry m pt (pageindex va level) in
        next_entry m va level pt pe
        ≡ e - 2 * min (e / 2 % 2) (pe / 2 % 2) - 4 * min (e / 4 % 2) (pe / 4 % 2)
  unfolding next_entry
  next_entry_lem level pt pe =
      let e = entry m pt (pageindex va level) in
      rw (flags_6 pe)
        (and_not e (pe / 2 % 2) (pe / 4 % 2) (load64-lt m _ bytes) (omega arith) (omega arith))

  pub entry-lt : (level pt : ℕ) → entry m pt (pageindex va level) < 2 ^ 64
  entry-lt level pt = load64-lt m _ bytes

  pub next_entry-frame :
      (level pt pe : ℕ)
      → pte_addr (next_entry m va level pt pe) ≡ frame (entry m pt (pageindex va level))
  next_entry-frame level pt pe = ground (
    arith,
    next_entry_lem level pt pe,
    entry-lt level pt,
    pte_addr_lem (next_entry m va level pt pe),
  )

  -- The flags that a round leaves.
  pub next_entry_flags :
      (level pt pe : ℕ)
      → let e = entry m pt (pageindex va level) in
        let e' = next_entry m va level pt pe in
        (e' % 2 ≡ e % 2)
        × (e' / 2 % 2 ≡ e / 2 % 2 - min (e / 2 % 2) (pe / 2 % 2))
        × (e' / 4 % 2 ≡ e / 4 % 2 - min (e / 4 % 2) (pe / 4 % 2))
        × (e' / 8 ≡ e / 8)
        × (e' < 2 ^ 64)
  next_entry_flags level pt pe = omega (arith, next_entry_lem level pt pe, entry-lt level pt)

module _ (m : Memory) (pt va : ℕ) where
  -- The entries at the four levels, each in the table that the one before points to.
  abbrev pub entry_1 : ℕ
  entry_1 = entry m pt (pageindex va 0)

  abbrev pub entry_2 : ℕ
  entry_2 = entry m (frame entry_1) (pageindex va 1)

  abbrev pub entry_3 : ℕ
  entry_3 = entry m (frame entry_2) (pageindex va 2)

  abbrev pub entry_4 : ℕ
  entry_4 = entry m (frame entry_3) (pageindex va 3)

  abbrev pub AllPresent : Type 0
  AllPresent = (entry_1 % 2 ≡ 1) × (entry_2 % 2 ≡ 1) × (entry_3 % 2 ≡ 1) × (entry_4 % 2 ≡ 1)
