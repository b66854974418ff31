-- ===== src/Boot.antt =====
-- The boot loader (boot.c): it reads the kernel's image from the disk into memory and jumps to it.
-- The disk is a parameter: what its status port yields at each read, and what its data port yields
-- after a sequence of port writes.
pub mod Sectors
pub mod Segment
pub mod Image
pub mod Jump
use virtual_memory.Base.{
  ℕ, zero, suc, ◌+◌, ◌-◌, ◌*◌, ◌/◌, ◌%◌, ◌^◌, bit_and, bit_or, Bool, true, false, not, ltb, ◌==◌,
  if◌then◌else◌, List, [], ◌∷◌, Option, none, some,
}
use virtual_memory.Base.Options.{◌>>=◌}
use virtual_memory.Memory.{Memory, store8}
use virtual_memory.Paging.{page_size}
use virtual_memory.Hardware.Ports.{Outb, outb}
use virtual_memory.Elf.{elf_header, ElfProgram, elf_program, elf_program_size, elf_magic}

abbrev pub sector_size : ℕ
sector_size = 512

-- `ELFHDR`
abbrev pub elf_scratch : ℕ
elf_scratch = 0x10000

-- Memory, and how often the status port has been read.
pub record Loading : Type 0 where
  pub mem : Memory
  pub polls : ℕ

-- `insl` stores `cnt` words of four bytes: `input k` is the `k`-th byte that the port yields.
unfoldable pub insl : Memory → (addr : ℕ) → (input : ℕ → ℕ) → (k cnt : ℕ) → Memory
unfolding store8
insl m addr input k zero = m
insl m addr input k (suc cnt) =
    let m1 = store8 m addr (input k) in
    let m2 = store8 m1 (addr + 1) (input (k + 1)) in
    let m3 = store8 m2 (addr + 2) (input (k + 2)) in
    let m4 = store8 m3 (addr + 3) (input (k + 3)) in insl m4 (addr + 4) input (k + 4) cnt

-- The calls of `outb` that ask for a sector; `src_sect` is below 2^32.
unfoldable pub read_commands : (src_sect : ℕ) → List Outb
read_commands src_sect =
    outb 0x1F2 1
    ∷ outb 0x1F3 src_sect
    ∷ outb 0x1F4 (src_sect / 2 ^ 8)
    ∷ outb 0x1F5 (src_sect / 2 ^ 16)
    ∷ outb 0x1F6 (bit_or (src_sect / 2 ^ 24) 0xE0)
    ∷ outb 0x1F7 0x20
    ∷ []

-- The loop that clears the bytes from `end_ptr`, with those that are left.
unfoldable pub clear_bss : Memory → (end_ptr left : ℕ) → Memory
unfolding store8
clear_bss m end_ptr zero = m
clear_bss m end_ptr (suc left) = clear_bss (store8 m end_ptr 0) (end_ptr + 1) left

-- The wait for the disk, with the rounds left: `status t` is what the `t`-th read of port 0x1F7
-- yields. The result is how often the port has been read in the end, or `none` where the disk is not
-- ready within the bound.
unfoldable pub boot_waitdisk : (status : ℕ → ℕ) (left polls : ℕ) → Option ℕ
boot_waitdisk status zero polls = none
boot_waitdisk status (suc left) polls =
    let rest = boot_waitdisk status left (polls + 1) in
    if bit_and (status polls) 0xC0 == 0x40 then some (polls + 1) else rest

-- `words commands` are the bytes that port 0x1F0 yields after these commands, and `patience` bounds
-- the reads of one wait.
module _ (status : ℕ → ℕ) (words : List Outb → ℕ → ℕ) (patience : ℕ) where
  unfoldable pub boot_readsect : Loading → (dst src_sect : ℕ) → Option Loading
  boot_readsect s dst src_sect = do
    polls1 ← boot_waitdisk status patience s.polls
    polls2 ← boot_waitdisk status patience polls1
    some (record {
      mem = insl s.mem dst (words (read_commands src_sect)) 0 (sector_size / 4);
      polls = polls2;
    })

  -- The loop over the sectors; `none` if the fuel runs out.
  unfoldable pub read_sectors : (fuel : ℕ) → Loading → (ptr end_ptr src_sect : ℕ) → Option Loading
  read_sectors zero s ptr end_ptr src_sect = none
  read_sectors (suc fuel) s ptr end_ptr src_sect =
      let rest = (do
        s' ← boot_readsect s ptr src_sect
        read_sectors fuel s' ((ptr + sector_size) % 2 ^ 64) end_ptr ((src_sect + 1) % 2 ^ 32)) in
      if ltb ptr end_ptr then rest else some s

  -- The file's bytes lie in `filesz / 512 + 2` sectors at most.
  unfoldable pub boot_readseg : Loading → (ptr src_sect filesz memsz : ℕ) → Option Loading
  boot_readseg s ptr src_sect filesz memsz = do
    let end_ptr = (ptr + filesz) % 2 ^ 64
    let end_mem = (memsz + ptr) % 2 ^ 64
    s' ← read_sectors (filesz / sector_size + 3) s (ptr - ptr % sector_size) end_ptr src_sect
    some (record s' { mem = clear_bss s'.mem end_ptr (end_mem - end_ptr) })

  -- The loop over the program headers, with those that are left.
  unfoldable pub read_segments : Loading → (ph left : ℕ) → Option Loading
  read_segments s ph zero = some s
  read_segments s ph (suc left) = do
    let header = elf_program s.mem ph
    let sector = (header.p_offset / sector_size + 1) % 2 ^ 32
    s' ← boot_readseg s header.p_va sector header.p_filesz header.p_memsz
    read_segments s' (ph + elf_program_size) left

  -- The address that it jumps to, with the memory then; `none` where it waits for ever, for the
  -- disk or, with a wrong magic number, in its own loop.
  unfoldable pub boot : Loading → Option (ℕ × Loading)
  boot s = do
    s1 ← boot_readseg s elf_scratch 1 page_size page_size
    let eh = elf_header s1.mem elf_scratch
    if eh.e_magic == elf_magic
        then (do
          s2 ← read_segments s1 ((elf_scratch + eh.e_phoff) % 2 ^ 64) eh.e_phnum
          some ((elf_header s2.mem elf_scratch).e_entry, s2))
        else none
