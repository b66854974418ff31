-- ===== src/Kernel/Syscalls/MappingWrites.antt =====
-- What the mapping call writes.
use virtual_memory.Base.{
  ℕ, ◌+◌, ◌*◌, ◌-◌, ◌%◌, ◌^◌, bit_and, ◌≤◌, ◌<◌, ◌≡◌, ◌≢◌, refl, arith, ap, ◌∙◌, inl, inr, ◌⊎◌,
  lt→ltb,
}
use virtual_memory.Memory.{Memory, byte_of, load64}
use virtual_memory.Vm.{virtual_memory_lookup}
use virtual_memory.Process.{Proc}
use virtual_memory.Kernel.Syscalls.{syscall_mapping, write_vamapping, vamapping_byte}

-- Where `a` stands behind the physical address of the caller's pointer.
abbrev pub offset_behind : Memory → Proc → (a : ℕ) → ℕ
offset_behind m p a =
    (a + 2 ^ 64 - (virtual_memory_lookup m p.p_pagetable p.p_registers.reg_rdi).pa) % 2 ^ 64

-- The call changes no byte but the 24 behind the physical address of the caller's pointer, and not
-- these either if the page of the pointer is not writable for applications.
pub syscall_mapping_keeps :
    (m : Memory) (p : Proc) (padding : ℕ → ℕ) (a : ℕ)
    → (24 ≤ offset_behind m p a)
      ⊎ (bit_and (virtual_memory_lookup m p.p_pagetable p.p_registers.reg_rdi).perm 6 ≢ 6)
    → syscall_mapping m p padding a ≡ m a
unfolding syscall_mapping write_vamapping
syscall_mapping_keeps m p padding a (inl far) = ground arith
syscall_mapping_keeps m p padding a (inr locked) = ground arith

-- Each byte that the call writes.
syscall_mapping_byte :
    (m : Memory) (p : Proc) (padding : ℕ → ℕ) (i : ℕ)
    → let map = virtual_memory_lookup m p.p_pagetable p.p_registers.reg_rdi in
      i < 24
      → map.pa < 2 ^ 64 - 24
      → bit_and map.perm 6 ≡ 6
      → bit_and (virtual_memory_lookup m p.p_pagetable (map.pa + 23)).perm 3 ≡ 3
      → syscall_mapping m p padding (map.pa + i)
        ≡ vamapping_byte (virtual_memory_lookup m p.p_pagetable p.p_registers.reg_rsi) padding i
unfolding syscall_mapping write_vamapping
syscall_mapping_byte m p padding i lt fits user end =
    let pa = (virtual_memory_lookup m p.p_pagetable p.p_registers.reg_rdi).pa in
    let last : (pa + 24 - 1) % 2 ^ 64 ≡ pa + 23 = omega arith in
    let offset : (pa + i + 2 ^ 64 - pa) % 2 ^ 64 ≡ i = omega arith in
    rw (user, last, end, offset, lt→ltb i 24 lt) refl

-- A little-endian `int`.
abbrev pub load_int : Memory → (a : ℕ) → ℕ
load_int m a = m a + 256 * (m (a + 1) + 256 * (m (a + 2) + 256 * m (a + 3)))

int_bytes :
    (v : ℕ)
    → byte_of v 0 + 256 * (byte_of v 1 + 256 * (byte_of v 2 + 256 * byte_of v 3)) ≡ v % 2 ^ 32
unfolding byte_of
int_bytes v = omega arith

word_bytes :
    (v : ℕ)
    → byte_of v 0
        + 256
          * (byte_of v 1
              + 256
                * (byte_of v 2
                    + 256
                      * (byte_of v 3
                          + 256
                            * (byte_of v 4
                                + 256 * (byte_of v 5 + 256 * (byte_of v 6 + 256 * byte_of v 7))))))
      ≡ v % 2 ^ 64
unfolding byte_of
word_bytes v = omega arith

-- If the page of the caller's pointer is writable for applications, and so is the page at the
-- virtual address whose number is the last physical address, then a program that reads a
-- `vamapping` at the pointer's physical address, with the `int` `pn` in front, the word `pa` at 8
-- and the `int` `perm` at 16, gets the mapping of the second argument. The 24 bytes are consecutive
-- in physical memory, also where they pass the end of the pointer's page.
pub syscall_mapping_writes :
    (m : Memory) (p : Proc) (padding : ℕ → ℕ)
    → let map = virtual_memory_lookup m p.p_pagetable p.p_registers.reg_rdi in
      let asked = virtual_memory_lookup m p.p_pagetable p.p_registers.reg_rsi in
      map.pa < 2 ^ 64 - 24
      → bit_and map.perm 6 ≡ 6
      → bit_and (virtual_memory_lookup m p.p_pagetable (map.pa + 23)).perm 3 ≡ 3
      → (load_int (syscall_mapping m p padding) map.pa ≡ asked.pn % 2 ^ 32)
        × (load64 (syscall_mapping m p padding) (map.pa + 8) ≡ asked.pa % 2 ^ 64)
        × (load_int (syscall_mapping m p padding) (map.pa + 16) ≡ asked.perm % 2 ^ 32)
unfolding load64 vamapping_byte
syscall_mapping_writes m p padding fits user end =
    let map = virtual_memory_lookup m p.p_pagetable p.p_registers.reg_rdi in
    let asked = virtual_memory_lookup m p.p_pagetable p.p_registers.reg_rsi in
    let at : (a i : ℕ)
        → a ≡ map.pa + i
        → i < 24
        → syscall_mapping m p padding a ≡ vamapping_byte asked padding i =
      λ a i e lt.
        ap (syscall_mapping m p padding) e ∙ syscall_mapping_byte m p padding i lt fits user end in
    let b = map.pa in
    (
      rw
          (
            at b 0 (omega arith) (omega arith),
            at (b + 1) 1 refl (omega arith),
            at (b + 2) 2 refl (omega arith),
            at (b + 3) 3 refl (omega arith),
          )
          (int_bytes asked.pn),
      rw
          (
            at (b + 8) 8 refl (omega arith),
            at (b + 8 + 1) 9 (omega arith) (omega arith),
            at (b + 8 + 2) 10 (omega arith) (omega arith),
            at (b + 8 + 3) 11 (omega arith) (omega arith),
            at (b + 8 + 4) 12 (omega arith) (omega arith),
            at (b + 8 + 5) 13 (omega arith) (omega arith),
            at (b + 8 + 6) 14 (omega arith) (omega arith),
            at (b + 8 + 7) 15 (omega arith) (omega arith),
          )
          (word_bytes asked.pa),
      rw
          (
            at (b + 16) 16 refl (omega arith),
            at (b + 16 + 1) 17 (omega arith) (omega arith),
            at (b + 16 + 2) 18 (omega arith) (omega arith),
            at (b + 16 + 3) 19 (omega arith) (omega arith),
          )
          (int_bytes asked.perm),
    )
