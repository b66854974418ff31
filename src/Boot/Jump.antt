-- ===== src/Boot/Jump.antt =====
-- The loop over the program headers and the jump into the kernel.
use virtual_memory.Base.{
  ℕ, zero, suc, ◌+◌, ◌*◌, ◌/◌, ◌%◌, ◌^◌, ◌≤◌, ◌<◌, ◌≡◌, refl, ap, ◌∙◌, inl, inr, ◌==◌, eq→==, ==→eq,
  ==→ne, Bool-cases, List, some, arith,
}
use virtual_memory.Memory.{Memory}
use virtual_memory.Hardware.Ports.{Outb}
use virtual_memory.Elf.{ElfHeader, elf_header, ElfProgram, elf_program, elf_program_size, elf_magic}
use virtual_memory.Boot.{Loading, boot, boot_readseg, read_segments, elf_scratch}
use virtual_memory.Boot.Sectors.{Responds, IsDisk, input_eq}
use virtual_memory.Boot.Segment.{first_byte, boot_readseg_loads}
use virtual_memory.Boot.Image.{
  file_of, header_of, segment_of, FitsIn, IsLoadable, IsLoaded, elf_header_cong, elf_program_cong,
}

-- The loader's copy of the file's first page is in place.
abbrev HasHeader : (image : ℕ → ℕ) → Memory → Type 0
HasHeader image m = (i : ℕ) → i < 4096 → m (elf_scratch + i) ≡ file_of image i

HasHeader-elf_header :
    (image : ℕ → ℕ) (m : Memory) → HasHeader image m → elf_header m elf_scratch ≡ header_of image
HasHeader-elf_header image m h =
    elf_header_cong m (file_of image) elf_scratch 0
      λ i k. h i (omega arith) ∙ input_eq (file_of image) i (0 + i) (omega arith)

-- The parts of `boot` in their order.
boot_after :
    (status : ℕ → ℕ) (words : List Outb → ℕ → ℕ) (patience : ℕ) (s s1 s2 : Loading) (h : ElfHeader)
    → boot_readseg status words patience s elf_scratch 1 4096 4096 ≡ some s1
    → elf_header s1.mem elf_scratch ≡ h
    → h.e_magic ≡ elf_magic
    → read_segments status words patience s1 ((elf_scratch + h.e_phoff) % 2 ^ 64) h.e_phnum
      ≡ some s2
    → elf_header s2.mem elf_scratch ≡ h
    → boot status words patience s ≡ some (h.e_entry, s2)
unfolding boot
boot_after status words patience s s1 s2 h first before magic segments after =
    rw (first, before, eq→== h.e_magic elf_magic magic, segments, after) refl

-- One round of the loop.
read_segments_step :
    (status : ℕ → ℕ) (words : List Outb → ℕ → ℕ) (patience : ℕ) (s s1 : Loading) (ph left : ℕ)
    (p : ElfProgram)
    → elf_program s.mem ph ≡ p
    → boot_readseg status words patience s p.p_va
        ((p.p_offset / 512 + 1) % 2 ^ 32)
        p.p_filesz
        p.p_memsz
      ≡ some s1
    → read_segments status words patience s ph (suc left)
      ≡ read_segments status words patience s1 (ph + elf_program_size) left
unfolding read_segments
read_segments_step status words patience s s1 ph left p header runs = rw (header, runs) refl

module _ (status : ℕ → ℕ) (patience : ℕ) (responds : Responds status patience) where
  module _ (words : List Outb → ℕ → ℕ) (image : ℕ → ℕ) (disk : IsDisk words image) where
    -- One segment that fits.
    load_segment :
        (s : Loading) (p : ElfProgram)
        → FitsIn p
        → (s' : Loading) × (boot_readseg status words patience s p.p_va
              ((p.p_offset / 512 + 1) % 2 ^ 32)
              p.p_filesz
              p.p_memsz
            ≡ some s')
          × IsLoaded image s'.mem p
          × ((x : ℕ) → x < first_byte p.p_va → s'.mem x ≡ s.mem x)
    load_segment s p fit =
        let sector : (p.p_offset / 512 + 1) % 2 ^ 32 ≡ p.p_offset / 512 + 1 =
          omega (arith, fit.on_disk) in
        let (s', runs, bytes, zeros, others) =
          boot_readseg_loads status patience responds words image disk s p.p_va
            (p.p_offset / 512 + 1) p.p_filesz p.p_memsz fit.file_below fit.mem_below
            (omega (arith, fit.on_disk)) in
        (
          s',
          ap (λ q. boot_readseg status words patience s p.p_va q p.p_filesz p.p_memsz) sector
              ∙ runs,
          λ i. (λ h. bytes i h ∙ ap (λ a. image a % 256) (omega (arith, fit.congruent)), zeros i),
          λ x h. others x (inl h),
        )

    module _ (ok_image : IsLoadable image) where
      abbrev start_of : ℕ → ℕ
      start_of k = first_byte (segment_of image k).p_va

      abbrev header_at : ℕ → ℕ
      header_at j = elf_scratch + ((header_of image).e_phoff + elf_program_size * j)

      start_behind : (k : ℕ) → k < (header_of image).e_phnum → 0x11000 ≤ start_of k
      start_behind k h = omega (arith, (ok_image.fits k h).behind_header)

      -- The segments from number `j` on.
      load_rest :
          (left j : ℕ) (s : Loading)
          → j + left ≡ (header_of image).e_phnum
          → HasHeader image s.mem
          → (s' : Loading) × (read_segments status words patience s (header_at j) left ≡ some s')
            × ((x : ℕ)
                → ((k : ℕ) → j ≤ k → k < (header_of image).e_phnum → x < start_of k)
                → s'.mem x ≡ s.mem x)
            × ((k : ℕ)
                → j ≤ k
                → k < (header_of image).e_phnum
                → IsLoaded image s'.mem (segment_of image k))
      unfolding read_segments
      load_rest zero j s e h = (s, refl, λ x out. refl, λ k a b. absurd (omega arith))
      load_rest (suc left) j s e h =
          let p = segment_of image j in
          let below : j < (header_of image).e_phnum = omega arith in
          let header : elf_program s.mem (header_at j) ≡ p =
            elf_program_cong s.mem (file_of image) (header_at j)
              ((header_of image).e_phoff + elf_program_size * j)
              λ i k.
                input_eq s.mem (header_at j + i)
                  (elf_scratch + ((header_of image).e_phoff + elf_program_size * j + i))
                  (omega arith)
                ∙ h ((header_of image).e_phoff + elf_program_size * j + i)
                    (omega (arith, ok_image.in_page)) in
          let (s1, runs, here, others) = load_segment s p (ok_image.fits j below) in
          let (s', more, kept, loaded) =
            load_rest left (j + 1) s1 (omega arith)
              λ i k. others (elf_scratch + i) (omega (arith, start_behind j below)) ∙ h i k in
          let same : (i : ℕ) → i < p.p_memsz → s'.mem (p.p_va + i) ≡ s1.mem (p.p_va + i) =
            λ i inside.
              kept (p.p_va + i) λ k a b. omega (arith, ok_image.ascending j k (omega arith) b) in
          let still : IsLoaded image s'.mem p = λ i. (
            λ a. same i (omega (arith, (ok_image.fits j below).file_in_mem)) ∙ (here i).0 a,
            λ a b. same i b ∙ (here i).1 a b,
          ) in
          (
            s',
            read_segments_step status words patience s s1 (header_at j) left p header runs
                ∙ ap (λ a. read_segments status words patience s1 a left) (omega arith)
                ∙ more,
            λ x out. kept x (λ k a b. out k (omega arith) b) ∙ others x (out j (omega arith) below),
            λ k a b. elim (Bool-cases (k == j)) [
              | inl is ↦ rw (==→eq k j is) still
              | inr other ↦ loaded k (omega (arith, ==→ne k j other)) b
            ],
          )

      -- On a disk that follows the protocol, with an image that `IsLoadable` describes from sector 1
      -- on, the boot loader reaches its jump, whatever memory held before: it jumps to the entry
      -- point of the image's header, and then every byte of every segment is in memory as the file
      -- has it, with zeros up to the segment's size in memory.
      pub boot_loads_kernel :
          (s : Loading)
          → (s' : Loading) × (boot status words patience s ≡ some ((header_of image).e_entry, s'))
            × ((k : ℕ) → k < (header_of image).e_phnum → IsLoaded image s'.mem (segment_of image k))
      boot_loads_kernel s =
          let (s1, first, bytes, _, _) =
            boot_readseg_loads status patience responds words image disk s elf_scratch 1 4096 4096
              (omega arith) (omega arith) (omega arith) in
          let header : HasHeader image s1.mem =
            λ i h. bytes i h ∙ ap (λ a. image a % 256) (omega arith) in
          let (s', rest, kept, loaded) =
            load_rest (header_of image).e_phnum 0 s1 (omega arith) header in
          let still : HasHeader image s'.mem =
            λ i h. kept (elf_scratch + i) (λ k _ b. omega (arith, start_behind k b)) ∙ header i h in
          let table : (elf_scratch + (header_of image).e_phoff) % 2 ^ 64 ≡ header_at 0 =
            omega (arith, ok_image.in_page) in
          (
            s',
            boot_after status words patience s s1 s' (header_of image) first
                (HasHeader-elf_header image s1.mem header) ok_image.magic
                (ap (λ a. read_segments status words patience s1 a (header_of image).e_phnum) table
                  ∙ rest)
                (HasHeader-elf_header image s'.mem still),
            λ k h. loaded k (omega arith) h,
          )
