-- ===== src/Vm/Spaces.antt =====
-- `virtual_memory_map` refines an update of an address space, the function from virtual addresses
-- to mappings that `virtual_memory_lookup` shows.
use virtual_memory.Base.{
  ℕ, ◌+◌, ◌-◌, ◌/◌, ◌%◌, ◌^◌, ◌≤◌, ◌<◌, ◌≡◌, refl, ◌⊎◌, inl, inr, true, false, ◌&&◌, ltb, leb, ◌==◌,
  if◌then◌else◌, arith, Bool-cases, ap, sym, ◌∙◌, ok,
}
use virtual_memory.Memory.{Memory}
use virtual_memory.Memory.Words.{IsBytes}
use virtual_memory.Paging.Flags.{has_p}
use virtual_memory.Vm.{
  Tables, Vamapping, unmapped, map_checks, minus_one, virtual_memory_map, virtual_memory_lookup,
  index123,
}
use virtual_memory.Vm.Layout.{AreTables, Connected, table_of, mapping_of, lookup-Connected}
use virtual_memory.Vm.Mapping.{entry_value, in_range, target, Maps, map_loop-Maps}

-- What the comment above `virtual_memory_map` asks of its arguments.
pub record CanMap (va pa sz perm : ℕ) : Type 0 where
  pub va_aligned : va % 4096 ≡ 0
  pub sz_aligned : sz % 4096 ≡ 0
  pub below_4mb : va + sz ≤ 0x400000
  pub perm_small : perm < 0x1000
  pub pa_aligned : perm % 2 ≡ 1 → pa % 4096 ≡ 0
  pub pa_exists : perm % 2 ≡ 1 → pa + sz ≤ 0x200000

module _ (pagetable va pa sz perm : ℕ) (aligned : pagetable % 4096 ≡ 0) where
  pub checks_pass :
      va % 4096 ≡ 0
      → sz % 4096 ≡ 0
      → va + sz < 2 ^ 64
      → perm < 0x1000
      → (perm % 2 ≡ 1 → pa % 4096 ≡ 0)
      → (perm % 2 ≡ 1 → pa + sz ≤ 0x200000)
      → map_checks pagetable va pa sz perm ≡ ok tt
  unfolding map_checks
  checks_pass h1 h2 h3 h4 h5 h6 = ground (arith, has_p perm)

  map_checks_pass : CanMap va pa sz perm → map_checks pagetable va pa sz perm ≡ ok tt
  map_checks_pass c =
      checks_pass c.va_aligned c.sz_aligned (omega (arith, c)) c.perm_small c.pa_aligned c.pa_exists

  -- The other way round: what the assertions let through, for sums that do not wrap.
  pub map_checks_meet :
      va + sz < 2 ^ 64
      → pa + sz < 2 ^ 64
      → map_checks pagetable va pa sz perm ≡ ok tt
      → (va % 4096 ≡ 0)
        × (sz % 4096 ≡ 0)
        × (perm < 0x1000)
        × ((perm % 2 ≡ 0) ⊎ (pa % 4096 ≡ 0) × (pa + sz ≤ 0x200000))
  unfolding map_checks
  map_checks_meet h k e = ground (arith, has_p perm)

module _ (t : Tables) (tables : AreTables t) (m : Memory) (conn : Connected m t) where
  -- `virtual_memory_map` of a range that it can map returns 0 and has mapped the range.
  pub virtual_memory_map-Maps :
      (va pa sz perm : ℕ)
      → CanMap va pa sz perm
      → (m' : Memory) × (virtual_memory_map m t.l1 va pa sz perm ≡ ok (0, m'))
        × Maps t m va pa perm (sz / 4096) m'
  unfolding virtual_memory_map
  virtual_memory_map-Maps va pa sz perm c =
      let open_index : va < 0x400000 → minus_one ≡ index123 va → 0 ≡ table_of t va =
        λ hv e. absurd (omega arith) in
      let r =
        map_loop-Maps t tables perm c.perm_small (sz / 4096) m va pa minus_one 0 conn c.va_aligned
          (omega (arith, c)) open_index in
      (r.0, rw (map_checks_pass t.l1 va pa sz perm tables.l1_page.0 c) r.1, r.2)

-- The address space `old` with `[va, va + sz)` mapped to `[pa, pa + sz)` with permissions `perm`.
abbrev pub mapped : (va pa sz perm : ℕ) → (ℕ → Vamapping) → ℕ → Vamapping
mapped va pa sz perm old b =
    if leb va b && ltb b (va + sz)
    then if perm % 2 == 1
      then record { pn = (pa + (b - va)) / 4096; pa = pa + (b - va); perm = perm }
      else unmapped
    else old b

mapping_of-entry_value :
    (va pa sz perm b : ℕ)
    → CanMap va pa sz perm
    → in_range va (sz / 4096) b ≡ true
    → mapping_of b (entry_value (target va pa b) perm) ≡ mapped va pa sz perm (λ x. unmapped) b
unfolding entry_value
mapping_of-entry_value va pa sz perm b c h = elim (Bool-cases (perm % 2 == 1)) [
  | inl p ↦ ground (arith, has_p perm, c)
  | inr p ↦ ground (arith, has_p perm, c)
]

mapped_inside :
    (va pa sz perm b : ℕ) (old new : ℕ → Vamapping)
    → leb va b && ltb b (va + sz) ≡ true
    → mapped va pa sz perm old b ≡ mapped va pa sz perm new b
mapped_inside va pa sz perm b old new h = rw h refl

pub mapped_outside :
    (va pa sz perm b : ℕ) (old : ℕ → Vamapping)
    → leb va b && ltb b (va + sz) ≡ false
    → old b ≡ mapped va pa sz perm old b
mapped_outside va pa sz perm b old h = rw h refl

range_cases :
    (va pa sz perm b : ℕ)
    → CanMap va pa sz perm
    → (old : ℕ) (space : ℕ → Vamapping) → space b ≡ mapping_of b old
    → mapping_of b (if in_range va (sz / 4096) b then entry_value (target va pa b) perm else old)
      ≡ mapped va pa sz perm space b
range_cases va pa sz perm b c old space e = elim (Bool-cases (in_range va (sz / 4096) b)) [
  | inl is ↦ rw is (
      mapping_of-entry_value va pa sz perm b c is
      ∙ mapped_inside va pa sz perm b (λ x. unmapped) space (ground (arith, c)))
  | inr out ↦ rw out (sym e ∙ mapped_outside va pa sz perm b space (ground (arith, c)))
]

module _ (t : Tables) (tables : AreTables t) (m : Memory) (conn : Connected m t)
    (bytes : IsBytes m) where
  pub Maps-lookup :
      (va pa sz perm : ℕ) (m' : Memory)
      → CanMap va pa sz perm
      → Maps t m va pa perm (sz / 4096) m'
      → (b : ℕ) → b < 0x400000
      → virtual_memory_lookup m' t.l1 b ≡ mapped va pa sz perm (virtual_memory_lookup m t.l1) b
  Maps-lookup va pa sz perm m' c maps b h =
      let new = lookup-Connected m' t tables maps.conn (maps.bytes bytes) b h in
      let old = lookup-Connected m t tables conn bytes b h in
      new
      ∙ ap (mapping_of b) (maps.slots b h)
      ∙ range_cases va pa sz perm b c _ (virtual_memory_lookup m t.l1) old

  -- On a connected page table of the kernel's shape, in a memory of bytes, `virtual_memory_map`
  -- returns 0 for an aligned range below 4 MB and, if the permissions have `P`, aligned existing
  -- memory; then a lookup in `[va, va + sz)` gives the mapping that was asked for, and any other
  -- lookup below 4 MB what it gave before.
  pub lookup-virtual_memory_map :
      (va pa sz perm b : ℕ)
      → CanMap va pa sz perm
      → b < 0x400000
      → (m' : Memory) × (virtual_memory_map m t.l1 va pa sz perm ≡ ok (0, m'))
        × (virtual_memory_lookup m' t.l1 b ≡ mapped va pa sz perm (virtual_memory_lookup m t.l1) b)
  lookup-virtual_memory_map va pa sz perm b c h =
      let r = virtual_memory_map-Maps t tables m conn va pa sz perm c in
      (r.0, r.1, Maps-lookup va pa sz perm r.0 c r.2 b h)
