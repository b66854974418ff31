-- ===== src/Hardware/Keyboard.antt =====
-- The keyboard (k-hardware.c): key codes to characters, and the keys that end the kernel.
pub mod Keymap
pub mod Modifiers
unfoldable pub use Keymap.*
use virtual_memory.Base.{
  ℕ, ◌+◌, ◌-◌, ◌*◌, ◌%◌, ◌^◌, bit_and, bit_or, bit_xor, Bool, true, false, not, ◌&&◌, ◌||◌, ltb,
  leb, ◌==◌, if◌then◌else◌, List, [], ◌∷◌, get_or, codes,
}
use virtual_memory.Memory.{Memory, store64, memset}
use virtual_memory.Paging.{page_size, pte_p, pte_w, pte_u, has}
use virtual_memory.Vm.{minus_one}

-- The two static variables of `keyboard_readc`, of 8 bits.
pub record KeyboardState : Type 0 where
  pub modifiers : ℕ
  pub last_escape : ℕ

-- `!=` of two truth values
abbrev pub differ : Bool → Bool → Bool
differ true b = not b
differ false b = b

-- What a key press gives: a character, and the modifiers after it.
unfoldable pub pressed : (modifiers ch : ℕ) → ℕ × ℕ
pressed modifiers ch =
    if leb b'a' ch && leb ch b'z'
    then (
      if has modifiers mod_control
          then ch - 0x60
          else if differ (not (has modifiers mod_shift)) (not (has modifiers mod_capslock))
          then ch - 0x20
          else ch,
      modifiers,
    )
    else if leb key_capslock ch
    then (0, bit_xor modifiers (2 ^ (ch - key_shift)) % 256)
    else if leb key_shift ch
    then (0, bit_or modifiers (2 ^ (ch - key_shift)) % 256)
    else if leb (ckey 0) ch && leb ch (ckey 21)
    then (get_or (get_or complex_keymap (ch - ckey 0) []) (bit_and modifiers 3) 0, modifiers)
    else if ltb ch 0x80 && has modifiers mod_control
    then (0, modifiers)
    else (ch, modifiers)

-- A released key: it matters only for shift, control and alt.
unfoldable pub released : (modifiers ch : ℕ) → ℕ
released modifiers ch =
    if leb key_shift ch && ltb ch key_capslock
    then bit_and modifiers (0xFF - 2 ^ (ch - key_shift))
    else modifiers

-- `status` and `byte` are what the keyboard's two ports yield, each a byte. The result -1 is its
-- 32-bit pattern.
unfoldable pub keyboard_readc : (status byte : ℕ) → KeyboardState → ℕ × KeyboardState
keyboard_readc status byte k =
    if bit_and status 1 == 0
    then (minus_one, k)
    else if byte == 0xE0
    then (0, record k { last_escape = 0x80 })
    else if has byte 0x80
    then (
      0,
      record {
        modifiers =
            released k.modifiers (get_or keymap (bit_or (bit_and byte 0x7F) k.last_escape) 0);
        last_escape = 0;
      },
    )
    else let (ch, modifiers) = pressed k.modifiers (get_or keymap (bit_or byte k.last_escape) 0) in
      (ch, record { modifiers = modifiers; last_escape = 0 })

-- What `check_keyboard` does: it returns the key, or it restarts the kernel with a command, or it
-- turns the machine off.
pub data Keyed : Type 0 where
  returns_key : ℕ → Keyed
  reboots : (argument : List ℕ) (mem : Memory) → Keyed
  powers_off : Keyed

-- The temporary page table at 0x8000. `PTE_PS` is 128.
unfoldable pub install_temporary : Memory → Memory
install_temporary m =
    let flags = bit_or (bit_or pte_p pte_w) pte_u in
    let m1 = memset m 0x8000 0 (page_size * 3) in
    let m2 = store64 m1 0x8000 (bit_or 0x9000 flags) in
    let m3 = store64 m2 0x9000 (bit_or 0xA000 flags) in store64 m3 0xA000 (bit_or flags 128)

-- The command that the restarted kernel gets.
unfoldable pub argument_of : (c : ℕ) → List ℕ
argument_of c =
    if c == b'a'
    then codes "allocator"
    else if c == b'e'
    then codes "forkexit"
    else if c == b't'
    then codes "test"
    else if c == b'2'
    then codes "test2"
    else codes "fork"

-- The rest of the multiboot information and the jump to the entry point are left out.
unfoldable pub check_keyboard : (status byte : ℕ) → KeyboardState → Memory → Keyed × KeyboardState
check_keyboard status byte k m =
    let (c, k') = keyboard_readc status byte k in
    if (c == b'a') || (c == b'f') || (c == b'e') || (c == b't') || (c == b'2')
    then (reboots (argument_of c) (install_temporary m), k')
    else if (c == 3) || (c == b'q')
    then (powers_off, k')
    else (returns_key c, k')
