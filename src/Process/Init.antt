-- ===== src/Process/Init.antt =====
-- A new process runs with application privilege, and only the kernel gives it more.
use virtual_memory.Base.{ℕ, ◌/◌, ◌%◌, ◌≡◌, not, Bool-cases, inl, inr, refl, ◌==◌}
use virtual_memory.Paging.{has}
use virtual_memory.Process.{Proc, process_init, initial_rflags}

-- Whatever the flags, `process_init` sets selectors of privilege level 3. Interrupts are enabled
-- unless the flag `PROCINIT_DISABLE_INTERRUPTS` is given, and the I/O privilege level is 3 if the
-- flag `PROCINIT_ALLOW_PROGRAMMED_IO` is given and 0 otherwise.
pub process_init_privilege :
    (p : Proc) (flags : ℕ)
    → let r = (process_init p flags).p_registers in
      (r.reg_cs % 4 ≡ 3)
      × (r.reg_ss % 4 ≡ 3)
      × (r.reg_fs % 4 ≡ 3)
      × (r.reg_gs % 4 ≡ 3)
      × ((r.reg_rflags / 0x200 % 2 == 1) ≡ not (has flags 2))
      × ((r.reg_rflags / 0x1000 % 4 == 3) ≡ has flags 1)
      × ((r.reg_rflags / 0x1000 % 4 == 0) ≡ not (has flags 1))
unfolding process_init initial_rflags
process_init_privilege p flags = elim (Bool-cases (has flags 1)) [
  | inl io ↦ elim (Bool-cases (has flags 2)) [
    | inl off ↦ rw (io, off) (refl, refl, refl, refl, refl, refl, refl)
    | inr on ↦ rw (io, on) (refl, refl, refl, refl, refl, refl, refl)
  ]
  | inr no_io ↦ elim (Bool-cases (has flags 2)) [
    | inl off ↦ rw (no_io, off) (refl, refl, refl, refl, refl, refl, refl)
    | inr on ↦ rw (no_io, on) (refl, refl, refl, refl, refl, refl, refl)
  ]
]
