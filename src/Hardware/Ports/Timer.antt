-- ===== src/Hardware/Ports/Timer.antt =====
-- What the timer counts from after `timer_init`.
use virtual_memory.Base.{
  ℕ, ◌+◌, ◌*◌, ◌/◌, ◌%◌, ◌^◌, ◌<◌, ◌≡◌, ◌↔◌, ltb, leb, ◌==◌, arith, List, ◌∷◌,
}
use native.Mathlib.Nat.{div-lt_iff_lt-mul}
use virtual_memory.Hardware.Ports.{Outb, timer_init, timer_div}

-- The 16-bit counter that the writes to the timer's data port set, low byte first.
abbrev pub counter_of : List Outb → ℕ
counter_of (mode ∷ low ∷ high ∷ rest) = low.byte + high.byte * 256
counter_of writes = 0

timer_div_fits : (rate : ℕ) → 0 < rate → ltb (timer_div rate) 65536 ≡ leb 19 rate
unfolding timer_div
timer_div_fits rate pos =
    let fits : ((1193182 + rate / 2) / rate < 65536) ↔ (1193182 + rate / 2 < 65536 * rate) =
      div-lt_iff_lt-mul pos in
    ground (arith, fits.0, fits.1)

-- For a rate from 19 to 2 ^ 31 - 1 the three first calls of `timer_init` go to the mode port and
-- twice to the data port, and the counter that they set is the divisor: the interrupts per
-- second, the frequency divided by it, differ from the rate by the rounding of one division. For
-- a smaller positive rate the divisor does not fit into the counter, which keeps its low 16 bits.
pub timer_init_counter :
    (rate enabled : ℕ)
    → 0 < rate
    → rate < 2 ^ 31
    → let writes = (timer_init rate enabled).0 in
      (counter_of writes ≡ timer_div rate % 2 ^ 16)
      × ((counter_of writes == timer_div rate) ≡ leb 19 rate)
unfolding timer_init
timer_init_counter rate enabled pos lt =
    let fits = timer_div_fits rate pos in (ground arith, ground arith)
