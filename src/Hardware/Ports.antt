-- ===== src/Hardware/Ports.antt =====
-- The interrupt controllers, the timer, the cursor and the parallel port (k-hardware.c).
pub mod Timer
use virtual_memory.Base.{
  ℕ, zero, suc, ◌+◌, ◌-◌, ◌*◌, ◌/◌, ◌%◌, ◌^◌, bit_and, bit_or, Bool, true, false, not, ◌&&◌, ◌||◌,
  ltb, leb, ◌==◌, if◌then◌else◌, List, [], ◌∷◌, ◌++◌,
}
use virtual_memory.Vm.{is_nonneg}

-- A call `outb(port, data)`.
pub record Outb : Type 0 where
  pub port : ℕ
  pub byte : ℕ

abbrev pub outb : (port byte : ℕ) → Outb
outb port byte = record { port = port; byte = byte % 256 }

abbrev pub io_pic1 : ℕ
io_pic1 = 0x20

abbrev pub io_pic2 : ℕ
io_pic2 = 0xA0

abbrev pub int_hardware : ℕ
int_hardware = 32

abbrev pub irq_slave : ℕ
irq_slave = 2

abbrev pub io_timer1 : ℕ
io_timer1 = 0x40

abbrev pub timer_mode : ℕ
timer_mode = io_timer1 + 3

abbrev pub timer_freq : ℕ
timer_freq = 1193182

unfoldable pub timer_div : ℕ → ℕ
timer_div x = (timer_freq + x / 2) / x

-- The two calls of `interrupt_mask`; `interrupts_enabled` is a 16-bit pattern.
unfoldable pub interrupt_mask : (interrupts_enabled : ℕ) → List Outb
interrupt_mask interrupts_enabled =
    let masked = 0xFFFF - interrupts_enabled in
    outb (io_pic1 + 1) (bit_and masked 0xFF)
    ∷ outb (io_pic2 + 1) (bit_and (masked / 2 ^ 8) 0xFF)
    ∷ []

-- The calls in their order, and the new `interrupts_enabled`.
unfoldable pub interrupt_init : List Outb × ℕ
interrupt_init = (
  interrupt_mask 0
      ++ (outb io_pic1 0x11
          ∷ outb (io_pic1 + 1) int_hardware
          ∷ outb (io_pic1 + 1) (2 ^ irq_slave)
          ∷ outb (io_pic1 + 1) 0x3
          ∷ outb io_pic2 0x11
          ∷ outb (io_pic2 + 1) (int_hardware + 8)
          ∷ outb (io_pic2 + 1) irq_slave
          ∷ outb (io_pic2 + 1) 0x01
          ∷ outb io_pic1 0x68
          ∷ outb io_pic1 0x0A
          ∷ outb io_pic2 0x68
          ∷ outb io_pic2 0x0A
          ∷ [])
      ++ interrupt_mask 0,
  0,
)

-- `rate` is the 32-bit pattern of an `int`; the result is as for `interrupt_init`.
unfoldable pub timer_init : (rate interrupts_enabled : ℕ) → List Outb × ℕ
timer_init rate interrupts_enabled =
    if is_nonneg rate && not (rate == 0)
    then (let enabled = bit_or interrupts_enabled 1 in
        (
          outb timer_mode (bit_or (bit_or 0x00 0x04) 0x30)
              ∷ outb io_timer1 (timer_div rate % 256)
              ∷ outb io_timer1 (timer_div rate / 256)
              ∷ interrupt_mask enabled,
          enabled,
        ))
    else let enabled = bit_and interrupts_enabled 0xFFFE in (interrupt_mask enabled, enabled)

-- `CONSOLE_ROWS * CONSOLE_COLUMNS` is 2000.
unfoldable pub console_show_cursor : (cpos : ℕ) → List Outb
console_show_cursor cpos =
    let shown = if not (is_nonneg cpos) || ltb 2000 cpos then 0 else cpos in
    outb 0x3D4 14 ∷ outb 0x3D5 (shown / 256) ∷ outb 0x3D4 15 ∷ outb 0x3D5 (shown % 256) ∷ []

-- The rounds that `parallel_port_putc` waits while the port, read once a round, is busy (its flag
-- is inverted): `status i` is what round `i` reads.
unfoldable pub parallel_wait : (status : ℕ → ℕ) (left i : ℕ) → ℕ
parallel_wait status zero i = i
parallel_wait status (suc left) i =
    let rest = parallel_wait status left (i + 1) in if bit_and (status i) 0x80 == 0 then rest else i

-- The calls, the number of rounds waited, and the new `initialized`.
unfoldable pub parallel_port_putc :
    (status : ℕ → ℕ) (initialized : Bool) (c : ℕ) → List Outb × ℕ × Bool
parallel_port_putc status initialized c = (
  (if initialized then [] else outb 0x37A 0 ∷ [])
      ++ (outb 0x378 c
          ∷ outb 0x37A (bit_or (bit_or 0x08 0x04) 0x01)
          ∷ outb 0x37A (bit_or 0x08 0x04)
          ∷ []),
  parallel_wait status 12800 0,
  true,
)
