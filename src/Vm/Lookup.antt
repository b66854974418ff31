-- ===== src/Vm/Lookup.antt =====
-- `virtual_memory_lookup` against the walk that the processor makes.
use virtual_memory.Base.{
  ℕ, ◌+◌, ◌-◌, ◌/◌, ◌%◌, ◌^◌, ◌<◌, min, ◌≡◌, refl, ◌⊎◌, true, false, if◌then◌else◌, arith,
}
use virtual_memory.Memory.{Memory}
use virtual_memory.Memory.Words.{IsBytes}
use virtual_memory.Paging.{pagenumber, has}
use virtual_memory.Paging.Flags.{has_p, pte_addr_lem, pte_flags_lem, pageoffset_lem}
use virtual_memory.Vm.{unmapped, next_entry, lookup_loop, vamapping_of, virtual_memory_lookup}
use virtual_memory.Vm.Walk.{
  frame, next_entry-frame, next_entry_flags, entry_1, entry_2, entry_3, entry_4, AllPresent,
}

-- One flag of the result, from that flag in the last three entries.
abbrev pub kept : ℕ → ℕ → ℕ → ℕ
kept e2 e3 e4 = e4 - min e4 (e3 - min e3 e2)

kept_rounds :
    (e1 e2 e3 e4 x1 x2 x3 x4 : ℕ)
    → e1 < 2
    → x1 ≡ e1 - min e1 1
    → x2 ≡ e2 - min e2 x1
    → x3 ≡ e3 - min e3 x2
    → x4 ≡ e4 - min e4 x3
    → x4 ≡ kept e2 e3 e4
kept_rounds e1 e2 e3 e4 x1 x2 x3 x4 h p q r t = omega arith

module _ (m : Memory) (bytes : IsBytes m) (pt va : ℕ) where
  -- The values that the variable `pe` takes.
  abbrev pe_1 : ℕ
  pe_1 = next_entry m va 0 pt 7

  abbrev pe_2 : ℕ
  pe_2 = next_entry m va 1 (frame (entry_1 m pt va)) pe_1

  abbrev pe_3 : ℕ
  pe_3 = next_entry m va 2 (frame (entry_2 m pt va)) pe_2

  abbrev pe_4 : ℕ
  pe_4 = next_entry m va 3 (frame (entry_3 m pt va)) pe_3

  lookup_loop_lem : lookup_loop m va 4 0 pt 7 ≡ (
      if has pe_1 1 then if has pe_2 1 then if has pe_3 1 then pe_4 else pe_3 else pe_2 else pe_1)
  unfolding lookup_loop
  lookup_loop_lem =
      rw
        (
          next_entry-frame m bytes va 0 pt 7,
          next_entry-frame m bytes va 1 (frame (entry_1 m pt va)) pe_1,
          next_entry-frame m bytes va 2 (frame (entry_2 m pt va)) pe_2,
        )
        (rw (has_p 7) refl)

  -- Where all four entries are present the loop ends at the last of them, less flags.
  lookup_loop_present :
      AllPresent m pt va
      → let e2 = entry_2 m pt va in
        let e3 = entry_3 m pt va in
        let e4 = entry_4 m pt va in
        let pe = lookup_loop m va 4 0 pt 7 in
        (pe % 2 ≡ 1)
        × (pe / 2 % 2 ≡ kept (e2 / 2 % 2) (e3 / 2 % 2) (e4 / 2 % 2))
        × (pe / 4 % 2 ≡ kept (e2 / 4 % 2) (e3 / 4 % 2) (e4 / 4 % 2))
        × (pe / 8 ≡ e4 / 8)
        × (pe < 2 ^ 64)
  lookup_loop_present h =
      let f1 = next_entry_flags m bytes va 0 pt 7 in
      let f2 = next_entry_flags m bytes va 1 (frame (entry_1 m pt va)) pe_1 in
      let f3 = next_entry_flags m bytes va 2 (frame (entry_2 m pt va)) pe_2 in
      let f4 = next_entry_flags m bytes va 3 (frame (entry_3 m pt va)) pe_3 in
      let ends : lookup_loop m va 4 0 pt 7 ≡ pe_4 =
        ground (arith, lookup_loop_lem, has_p pe_1, has_p pe_2, has_p pe_3) in
      rw ends (
        omega (arith, h, f4.0),
        kept_rounds _ _ _ _ _ _ _ _ (omega arith) f1.1 f2.1 f3.1 f4.1,
        kept_rounds _ _ _ _ _ _ _ _ (omega arith) f1.2 f2.2 f3.2 f4.2,
        f4.3,
        f4.4,
      )

  -- Where one is absent, the walk ends at an entry that is not present.
  lookup_loop_absent :
      (entry_1 m pt va % 2 ≡ 0)
        ⊎ (entry_2 m pt va % 2 ≡ 0)
        ⊎ (entry_3 m pt va % 2 ≡ 0)
        ⊎ (entry_4 m pt va % 2 ≡ 0)
      → has (lookup_loop m va 4 0 pt 7) 1 ≡ false
  lookup_loop_absent h = ground (
    arith,
    lookup_loop_lem,
    has_p pe_1,
    has_p pe_2,
    has_p pe_3,
    has_p pe_4,
    next_entry_flags m bytes va 0 pt 7,
    next_entry_flags m bytes va 1 (frame (entry_1 m pt va)) pe_1,
    next_entry_flags m bytes va 2 (frame (entry_2 m pt va)) pe_2,
    next_entry_flags m bytes va 3 (frame (entry_3 m pt va)) pe_3,
  )

  -- In a memory of bytes, where all four entries of `va` are present, `virtual_memory_lookup` gives
  -- the number and the address of the frame that the last entry names, with the page offset of
  -- `va`, and of the flags of that entry all but `W` and `U`; of these two it gives one that the
  -- last entry has, unless the third has it and the second has not.
  pub lookup-AllPresent :
      AllPresent m pt va
      → let e2 = entry_2 m pt va in
        let e3 = entry_3 m pt va in
        let e4 = entry_4 m pt va in
        let v = virtual_memory_lookup m pt va in
        (v.pn ≡ e4 / 4096 % 2 ^ 32)
        × (v.pa ≡ frame e4 + va % 4096)
        × (v.perm % 2 ≡ 1)
        × (v.perm / 2 % 2 ≡ kept (e2 / 2 % 2) (e3 / 2 % 2) (e4 / 2 % 2))
        × (v.perm / 4 % 2 ≡ kept (e2 / 4 % 2) (e3 / 4 % 2) (e4 / 4 % 2))
        × (v.perm / 8 ≡ e4 / 8 % 512)
  unfolding virtual_memory_lookup vamapping_of pagenumber
  lookup-AllPresent h =
      let pe = lookup_loop m va 4 0 pt 7 in
      let f = lookup_loop_present h in
      let is : has pe 1 ≡ true = ground (arith, has_p pe) in
      rw (is, pte_addr_lem pe f.4, pte_flags_lem pe, pageoffset_lem va) (omega (arith, f))

  -- In a memory of bytes, where an entry of `va` is absent at any level, `virtual_memory_lookup`
  -- gives the mapping `{ -1, -1, 0 }`.
  pub lookup-unmapped :
      (entry_1 m pt va % 2 ≡ 0)
        ⊎ (entry_2 m pt va % 2 ≡ 0)
        ⊎ (entry_3 m pt va % 2 ≡ 0)
        ⊎ (entry_4 m pt va % 2 ≡ 0)
      → virtual_memory_lookup m pt va ≡ unmapped
  unfolding virtual_memory_lookup vamapping_of
  lookup-unmapped h = rw (lookup_loop_absent h)
