-- ===== src/Elf.antt =====
-- The structures of elf.h that the boot loader and the program loader read, in memory.
use virtual_memory.Base.{ℕ, zero, suc, ◌+◌, ◌*◌}
use virtual_memory.Memory.{Memory}

-- The little-endian number in `n` bytes.
unfoldable pub load : (n : ℕ) → Memory → (a : ℕ) → ℕ
load zero m a = 0
load (suc n) m a = m a + 256 * load n m (a + 1)

abbrev pub elf_magic : ℕ
elf_magic = 0x464C457F

-- The fields of the executable header that the loader reads.
pub record ElfHeader : Type 0 where
  pub e_magic : ℕ
  pub e_entry : ℕ
  pub e_phoff : ℕ
  pub e_phnum : ℕ

unfoldable pub elf_header : Memory → (a : ℕ) → ElfHeader
elf_header m a = record {
  e_magic = load 4 m a;
  e_entry = load 8 m (a + 0x18);
  e_phoff = load 8 m (a + 0x20);
  e_phnum = load 2 m (a + 0x38);
}

-- The fields of a program header that the loader reads.
pub record ElfProgram : Type 0 where
  pub p_type : ℕ
  pub p_flags : ℕ
  pub p_offset : ℕ
  pub p_va : ℕ
  pub p_filesz : ℕ
  pub p_memsz : ℕ

unfoldable pub elf_program : Memory → (a : ℕ) → ElfProgram
elf_program m a = record {
  p_type = load 4 m a;
  p_flags = load 4 m (a + 0x04);
  p_offset = load 8 m (a + 0x08);
  p_va = load 8 m (a + 0x10);
  p_filesz = load 8 m (a + 0x20);
  p_memsz = load 8 m (a + 0x28);
}

-- `sizeof(elf_program)`
abbrev pub elf_program_size : ℕ
elf_program_size = 0x38

abbrev pub elf_pflag_write : ℕ
elf_pflag_write = 2
