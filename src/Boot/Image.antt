-- ===== src/Boot/Image.antt =====
-- The boot loader from its first read to the jump, for an image whose segments ascend.
use virtual_memory.Base.{ℕ, zero, suc, ◌+◌, ◌*◌, ◌/◌, ◌%◌, ◌^◌, ◌≤◌, ◌<◌, ◌≡◌, refl, ◌∙◌, arith}
use virtual_memory.Memory.{Memory}
use virtual_memory.Elf.{
  load, ElfHeader, elf_header, ElfProgram, elf_program, elf_program_size, elf_magic,
}
use virtual_memory.Boot.Sectors.{input_eq}
use virtual_memory.Boot.Segment.{first_byte}

-- The kernel's file, which starts at sector 1 of the disk.
abbrev pub file_of : (image : ℕ → ℕ) → Memory
file_of image a = image (512 + a) % 256

abbrev pub header_of : (image : ℕ → ℕ) → ElfHeader
header_of image = elf_header (file_of image) 0

abbrev pub segment_of : (image : ℕ → ℕ) (j : ℕ) → ElfProgram
segment_of image j = elf_program (file_of image) ((header_of image).e_phoff + elf_program_size * j)

-- The loader can take the segment: it stays clear of the header's copy, and lies at the same place
-- in its sectors as in memory.
pub record FitsIn (p : ElfProgram) : Type 0 where
  pub behind_header : 0x11000 ≤ p.p_va
  pub file_below : p.p_va + p.p_filesz + 512 ≤ 2 ^ 64
  pub mem_below : p.p_va + p.p_memsz < 2 ^ 64
  pub file_in_mem : p.p_filesz ≤ p.p_memsz
  pub congruent : p.p_va % 512 ≡ p.p_offset % 512
  pub on_disk : p.p_offset / 512 + p.p_filesz / 512 + 3 ≤ 2 ^ 28

-- The headers lie in the file's first page, and each segment starts in a sector behind those before.
pub record IsLoadable (image : ℕ → ℕ) : Type 0 where
  pub magic : (header_of image).e_magic ≡ elf_magic
  pub in_page : (header_of image).e_phoff + elf_program_size * (header_of image).e_phnum ≤ 4096
  pub fits : (j : ℕ) → j < (header_of image).e_phnum → FitsIn (segment_of image j)
  pub ascending :
      (i j : ℕ)
      → i < j
      → j < (header_of image).e_phnum
      → (segment_of image i).p_va + (segment_of image i).p_memsz
        ≤ first_byte (segment_of image j).p_va

-- The segment's bytes are in memory, with zeros behind those of the file.
abbrev pub IsLoaded : (image : ℕ → ℕ) → Memory → ElfProgram → Type 0
IsLoaded image m p =
    (i : ℕ)
    → (i < p.p_filesz → m (p.p_va + i) ≡ file_of image (p.p_offset + i))
      × (p.p_filesz ≤ i → i < p.p_memsz → m (p.p_va + i) ≡ 0)

-- Two memories with the same bytes at `a` and at `b`.
abbrev pub Agrees : (n : ℕ) → Memory → Memory → (a b : ℕ) → Type 0
Agrees n m f a b = (i : ℕ) → i < n → m (a + i) ≡ f (b + i)

load_cong : (n : ℕ) (m f : Memory) (a b : ℕ) → Agrees n m f a b → load n m a ≡ load n f b
unfolding load
load_cong zero m f a b h = refl
load_cong (suc n) m f a b h =
    let here : m a ≡ f b =
      input_eq m a (a + 0) (omega arith) ∙ h 0 (omega arith) ∙ input_eq f (b + 0) b (omega arith) in
    let more : load n m (a + 1) ≡ load n f (b + 1) = load_cong n m f (a + 1) (b + 1) λ i k.
      input_eq m (a + 1 + i) (a + suc i) (omega arith)
      ∙ h (suc i) (omega arith)
      ∙ input_eq f (b + suc i) (b + 1 + i) (omega arith) in
    rw (here, more) refl

-- A field of a structure that lies within the bytes that agree.
field :
    (size n d : ℕ) (m f : Memory) (a b : ℕ)
    → Agrees size m f a b
    → d + n ≤ size
    → load n m (a + d) ≡ load n f (b + d)
field size n d m f a b h fit = load_cong n m f (a + d) (b + d) λ i k.
    input_eq m (a + d + i) (a + (d + i)) (omega arith)
    ∙ h (d + i) (omega arith)
    ∙ input_eq f (b + (d + i)) (b + d + i) (omega arith)

pub elf_header_cong : (m f : Memory) (a b : ℕ) → Agrees 64 m f a b → elf_header m a ≡ elf_header f b
unfolding elf_header
elf_header_cong m f a b h =
    rw
      (
        load_cong 4 m f a b (λ i k. h i (omega arith)),
        field 64 8 0x18 m f a b h (omega arith),
        field 64 8 0x20 m f a b h (omega arith),
        field 64 2 0x38 m f a b h (omega arith),
      )
      refl

pub elf_program_cong :
    (m f : Memory) (a b : ℕ) → Agrees 56 m f a b → elf_program m a ≡ elf_program f b
unfolding elf_program
elf_program_cong m f a b h =
    rw
      (
        load_cong 4 m f a b (λ i k. h i (omega arith)),
        field 56 4 0x04 m f a b h (omega arith),
        field 56 8 0x08 m f a b h (omega arith),
        field 56 8 0x10 m f a b h (omega arith),
        field 56 8 0x20 m f a b h (omega arith),
        field 56 8 0x28 m f a b h (omega arith),
      )
      refl
