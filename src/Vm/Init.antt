-- ===== src/Vm/Init.antt =====
-- `virtual_memory_init` passes its assertions and leaves an identity map of physical memory.
use virtual_memory.Base.{
  ℕ, zero, suc, ◌+◌, ◌*◌, ◌/◌, ◌%◌, ◌≤◌, ◌<◌, ◌≡◌, refl, true, ◌==◌, arith, ◌∙◌, ok, eq→==,
}
use virtual_memory.Memory.{Memory, memset}
use virtual_memory.Memory.Words.{IsBytes}
use virtual_memory.Memory.Copy.{memset-IsBytes}
use virtual_memory.Paging.Flags.{pageoffset_lem}
use virtual_memory.Paging.{pageoffset}
use virtual_memory.Vm.{
  Vamapping, Symbols, kernel_tables, connect, set_pagetable, check_identity, virtual_memory_init,
  virtual_memory_lookup,
}
use virtual_memory.Vm.Layout.{AreTables}
use virtual_memory.Vm.Connect.{connect-Connected, connect-IsBytes}
use virtual_memory.Vm.Spaces.{CanMap, mapped, virtual_memory_map-Maps, Maps-lookup}

-- What the linker script gives: the tables are pages of physical memory behind page 0, and the
-- entry points lie in physical memory.
pub record AreSymbols (s : Symbols) : Type 0 where
  pub tables_aligned : s.kernel_pagetables % 4096 ≡ 0
  pub tables_after_0 : 0 < s.kernel_pagetables
  pub tables_exist : s.kernel_pagetables + 0x5000 ≤ 0x200000
  pub handler_exists : s.default_int_handler < 0x200000
  pub map_code_exists : s.virtual_memory_map_code < 0x200000

-- The identity mapping of `b`, open to the kernel and to applications.
abbrev pub identity : ℕ → Vamapping
identity b = record { pn = b / 4096; pa = b; perm = 7 }

module _ (s : Symbols) (ok_s : AreSymbols s) where
  pub kernel_AreTables : AreTables (kernel_tables s)
  kernel_AreTables = omega (arith, ok_s)

  CanMap-all : CanMap 0 0 0x200000 7
  CanMap-all = omega arith

  mapped-identity :
      (old : ℕ → Vamapping) (b : ℕ) → b < 0x200000 → mapped 0 0 0x200000 7 old b ≡ identity b
  mapped-identity old b h = ground arith

  module _ (m : Memory)
      (same : (b : ℕ)
        → b < 0x200000
        → virtual_memory_lookup m s.kernel_pagetables b ≡ identity b) where
    check_identity_passes :
        (left addr : ℕ)
        → addr + left * 4096 ≤ 0x200000
        → check_identity m s.kernel_pagetables left addr ≡ ok tt
    unfolding check_identity
    check_identity_passes zero addr h = refl
    check_identity_passes (suc left) addr h =
        rw (same addr (omega arith), eq→== addr addr refl)
          (check_identity_passes left (addr + 4096) (omega arith))

    pub set_kernel_pagetable : set_pagetable s m s.kernel_pagetables ≡ ok s.kernel_pagetables
    unfolding set_pagetable
    set_kernel_pagetable =
        let k = s.kernel_pagetables in
        let aligned : (pageoffset k == 0) ≡ true = ground (arith, pageoffset_lem k, ok_s) in
        rw (aligned, same s.default_int_handler ok_s.handler_exists)
          (rw
            (
              eq→== s.default_int_handler _ refl,
              same k (omega (arith, ok_s)),
              eq→== k k refl,
              same s.virtual_memory_map_code ok_s.map_code_exists,
              eq→== s.virtual_memory_map_code _ refl,
            )
            refl)

  -- Where the linker has put the five tables on pages of physical memory behind page 0, and the two
  -- entry points into physical memory, `virtual_memory_init`, started on any memory of bytes, runs
  -- to its end, loads the kernel's page table into CR3, and leaves every byte of physical memory
  -- mapped to itself.
  pub virtual_memory_init-identity :
      (m : Memory) (b : ℕ)
      → IsBytes m
      → b < 0x200000
      → (m' : Memory) × (virtual_memory_init s m ≡ ok (m', s.kernel_pagetables))
        × (virtual_memory_lookup m' s.kernel_pagetables b ≡ identity b)
  unfolding virtual_memory_init
  virtual_memory_init-identity m b bytes h =
      let t = kernel_tables s in
      let m0 = memset m s.kernel_pagetables 0 0x5000 in
      let m1 = connect m0 t in
      let bytes1 : IsBytes m1 =
        connect-IsBytes t kernel_AreTables m0
          (memset-IsBytes m s.kernel_pagetables 0 0x5000 bytes) in
      let conn = connect-Connected t kernel_AreTables m0 in
      let r = virtual_memory_map-Maps t kernel_AreTables m1 conn 0 0 0x200000 7 CanMap-all in
      let same : (x : ℕ)
          → x < 0x200000
          → virtual_memory_lookup r.0 s.kernel_pagetables x ≡ identity x =
        λ x hx.
          Maps-lookup t kernel_AreTables m1 conn bytes1 0 0 0x200000 7 r.0 CanMap-all r.2 x
            (omega arith)
          ∙ mapped-identity (virtual_memory_lookup m1 s.kernel_pagetables) x hx in
      (
        r.0,
        rw r.1 (
            rw (check_identity_passes r.0 same 512 0 (omega arith), set_kernel_pagetable r.0 same)
              refl),
        same b h,
      )
