-- ===== src/Tests/MemoryTests.antt =====
-- Runs of the copy loops of lib.c.
use virtual_memory.Base.{
  ℕ, ◌==◌, some, ◌↔◌, arith, ◌+◌, ◌-◌, ◌%◌, ◌≡◌, refl, ◌&&◌, leb, ltb, if◌then◌else◌,
}
use virtual_memory.Memory.{Memory, copy_down, copy_up, memmove, memcpy, memset}
use virtual_memory.Strings.{strcmp}
use virtual_memory.Memory.Words.{IsBytes}
use virtual_memory.Strings.Compare.{IsString, SameString, strcmp-SameString}
use virtual_memory.Memory.Copy.{memmove_lem}

-- The byte at an address is its low byte.
abbrev counting : Memory
counting a = a

-- Up by two bytes over itself, and down by two.
memmove_up : memmove counting 12 10 4 14 ≡ 12
unfolding memmove copy_down copy_up
memmove_up = refl

memmove_down : memmove counting 10 12 4 12 ≡ 14
unfolding memmove copy_down copy_up
memmove_down = refl

-- `memcpy` repeats the first bytes where `memmove` does not.
memcpy_overlaps : memcpy counting 12 10 4 14 ≡ 10
unfolding memcpy
memcpy_overlaps = refl

memset_sets : memset counting 12 0x107 4 15 ≡ 7
unfolding memset
memset_sets = refl

memmove_lem_example :
    memmove counting 12 10 4 14
    ≡ (if leb 12 14 && ltb 14 (12 + 4) then counting (10 + (14 - 12)) % 256 else counting 14)
memmove_lem_example = memmove_lem counting 12 10 4 14

-- "fork" at 100 and "forkexit" at 200.
abbrev two_strings : Memory
two_strings a =
    if a == 100
    then 102
    else if a == 101
    then 111
    else if a == 102
    then 114
    else if a == 103
    then 107
    else if a == 200
    then 102
    else if a == 201
    then 111
    else if a == 202
    then 114
    else if a == 203
    then 107
    else if a == 204
    then 101
    else if a == 205
    then 120
    else if a == 206
    then 105
    else if a == 207
    then 116
    else 0

fork-IsString : IsString two_strings 100 4
fork-IsString = record { non_zero = λ k h. ground arith; ends = refl }

forkexit-IsString : IsString two_strings 200 8
forkexit-IsString = record { non_zero = λ k h. ground arith; ends = refl }

two_strings-IsBytes : IsBytes two_strings
two_strings-IsBytes a = ground arith

strcmp-SameString_example :
    (r : ℕ) × (strcmp two_strings 9 100 200 ≡ some r)
    × ((r ≡ 0) ↔ SameString two_strings 100 200 4 8)
strcmp-SameString_example =
    strcmp-SameString two_strings 9 100 200 4 8 fork-IsString forkexit-IsString (omega arith)
