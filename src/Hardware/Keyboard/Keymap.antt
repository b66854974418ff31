-- ===== src/Hardware/Keyboard/Keymap.antt =====
-- The key codes, and what they stand for (k-hardware.c).
use virtual_memory.Base.{ℕ, ◌+◌, List, [], ◌∷◌}

abbrev pub mod_shift : ℕ
mod_shift = 1

abbrev pub mod_control : ℕ
mod_control = 2

abbrev pub mod_capslock : ℕ
mod_capslock = 8

-- `0372` to `0377`
abbrev pub key_shift : ℕ
key_shift = 250

abbrev pub key_control : ℕ
key_control = 251

abbrev pub key_alt : ℕ
key_alt = 252

abbrev pub key_capslock : ℕ
key_capslock = 253

abbrev pub key_numlock : ℕ
key_numlock = 254

abbrev pub key_scrolllock : ℕ
key_scrolllock = 255

abbrev pub ckey : ℕ → ℕ
ckey cn = 0x80 + cn

-- `KEY_UP` to `KEY_DELETE` are `0300` to `0311`.
unfoldable pub keymap : List ℕ
keymap =
    0
    ∷ 27
    ∷ ckey 0
    ∷ ckey 1
    ∷ ckey 2
    ∷ ckey 3
    ∷ ckey 4
    ∷ ckey 5
    ∷ ckey 6
    ∷ ckey 7
    ∷ ckey 8
    ∷ ckey 9
    ∷ ckey 10
    ∷ ckey 11
    ∷ 8
    ∷ 9
    ∷ b'q'
    ∷ b'w'
    ∷ b'e'
    ∷ b'r'
    ∷ b't'
    ∷ b'y'
    ∷ b'u'
    ∷ b'i'
    ∷ b'o'
    ∷ b'p'
    ∷ ckey 12
    ∷ ckey 13
    ∷ ckey 14
    ∷ key_control
    ∷ b'a'
    ∷ b's'
    ∷ b'd'
    ∷ b'f'
    ∷ b'g'
    ∷ b'h'
    ∷ b'j'
    ∷ b'k'
    ∷ b'l'
    ∷ ckey 15
    ∷ ckey 16
    ∷ ckey 17
    ∷ key_shift
    ∷ ckey 18
    ∷ b'z'
    ∷ b'x'
    ∷ b'c'
    ∷ b'v'
    ∷ b'b'
    ∷ b'n'
    ∷ b'm'
    ∷ ckey 19
    ∷ ckey 20
    ∷ ckey 21
    ∷ key_shift
    ∷ b'*'
    ∷ key_alt
    ∷ b' '
    ∷ key_capslock
    ∷ 0
    ∷ 0
    ∷ 0
    ∷ 0
    ∷ 0
    ∷ 0
    ∷ 0
    ∷ 0
    ∷ 0
    ∷ 0
    ∷ key_numlock
    ∷ key_scrolllock
    ∷ b'7'
    ∷ b'8'
    ∷ b'9'
    ∷ b'-'
    ∷ b'4'
    ∷ b'5'
    ∷ b'6'
    ∷ b'+'
    ∷ b'1'
    ∷ b'2'
    ∷ b'3'
    ∷ b'0'
    ∷ b'.'
    ∷ 0
    ∷ 0
    ∷ 0
    ∷ 0
    ∷ 0
    ∷ 0
    ∷ 0
    ∷ 0
    ∷ 0
    ∷ 0
    ∷ 0
    ∷ 0
    ∷ 0
    ∷ 0
    ∷ 0
    ∷ 0
    ∷ 0
    ∷ 0
    ∷ 0
    ∷ 0
    ∷ 0
    ∷ 0
    ∷ 0
    ∷ 0
    ∷ 0
    ∷ 0
    ∷ 0
    ∷ 0
    ∷ 0
    ∷ 0
    ∷ 0
    ∷ 0
    ∷ 0
    ∷ 0
    ∷ 0
    ∷ 0
    ∷ 0
    ∷ 0
    ∷ 0
    ∷ 0
    ∷ 0
    ∷ 0
    ∷ 0
    ∷ 0
    ∷ 0
    ∷ 0
    ∷ 0
    ∷ 0
    ∷ 0
    ∷ 0
    ∷ 0
    ∷ 0
    ∷ 0
    ∷ 0
    ∷ 0
    ∷ 0
    ∷ 0
    ∷ 0
    ∷ 0
    ∷ 0
    ∷ 0
    ∷ 0
    ∷ 0
    ∷ 0
    ∷ 0
    ∷ 0
    ∷ 0
    ∷ 0
    ∷ 0
    ∷ 0
    ∷ 0
    ∷ 0
    ∷ ckey 14
    ∷ key_control
    ∷ 0
    ∷ 0
    ∷ 0
    ∷ 0
    ∷ 0
    ∷ 0
    ∷ 0
    ∷ 0
    ∷ 0
    ∷ 0
    ∷ 0
    ∷ 0
    ∷ 0
    ∷ 0
    ∷ 0
    ∷ 0
    ∷ 0
    ∷ 0
    ∷ 0
    ∷ 0
    ∷ 0
    ∷ 0
    ∷ 0
    ∷ b'/'
    ∷ 0
    ∷ 0
    ∷ key_alt
    ∷ 0
    ∷ 0
    ∷ 0
    ∷ 0
    ∷ 0
    ∷ 0
    ∷ 0
    ∷ 0
    ∷ 0
    ∷ 0
    ∷ 0
    ∷ 0
    ∷ 0
    ∷ 0
    ∷ 196
    ∷ 192
    ∷ 198
    ∷ 0
    ∷ 195
    ∷ 0
    ∷ 193
    ∷ 0
    ∷ 197
    ∷ 194
    ∷ 199
    ∷ 200
    ∷ 201
    ∷ 0
    ∷ 0
    ∷ 0
    ∷ 0
    ∷ 0
    ∷ 0
    ∷ 0
    ∷ 0
    ∷ 0
    ∷ 0
    ∷ 0
    ∷ 0
    ∷ 0
    ∷ 0
    ∷ 0
    ∷ 0
    ∷ 0
    ∷ 0
    ∷ 0
    ∷ 0
    ∷ 0
    ∷ 0
    ∷ 0
    ∷ 0
    ∷ 0
    ∷ 0
    ∷ 0
    ∷ 0
    ∷ 0
    ∷ 0
    ∷ 0
    ∷ 0
    ∷ 0
    ∷ 0
    ∷ 0
    ∷ 0
    ∷ 0
    ∷ 0
    ∷ 0
    ∷ 0
    ∷ 0
    ∷ 0
    ∷ 0
    ∷ 0
    ∷ []

-- One key of `complex_keymap`: alone, with shift, with control, and with both.
abbrev pub keyboard_key : (alone shifted controlled both : ℕ) → List ℕ
keyboard_key alone shifted controlled both = alone ∷ shifted ∷ controlled ∷ both ∷ []

unfoldable pub complex_keymap : List (List ℕ)
complex_keymap =
    keyboard_key b'1' b'!' 0 0
    ∷ keyboard_key b'2' b'@' 0 0
    ∷ keyboard_key b'3' b'#' 0 0
    ∷ keyboard_key b'4' b'$' 0 0
    ∷ keyboard_key b'5' b'%' 0 0
    ∷ keyboard_key b'6' b'^' 0 30
    ∷ keyboard_key b'7' b'&' 0 0
    ∷ keyboard_key b'8' b'*' 0 0
    ∷ keyboard_key b'9' b'(' 0 0
    ∷ keyboard_key b'0' b')' 0 0
    ∷ keyboard_key b'-' b'_' 0 31
    ∷ keyboard_key b'=' b'+' 0 0
    ∷ keyboard_key b'[' b'{' 27 0
    ∷ keyboard_key b']' b'}' 29 0
    ∷ keyboard_key b'\n' b'\n' b'\r' b'\r'
    ∷ keyboard_key b';' b':' 0 0
    ∷ keyboard_key 39 34 0 0
    ∷ keyboard_key b'`' b'~' 0 0
    ∷ keyboard_key 92 b'|' 28 0
    ∷ keyboard_key b',' b'<' 0 0
    ∷ keyboard_key b'.' b'>' 0 0
    ∷ keyboard_key b'/' b'?' 0 0
    ∷ []
