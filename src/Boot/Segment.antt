-- ===== src/Boot/Segment.antt =====
-- What `boot_readseg` leaves in memory: the segment's bytes, zeros behind them, and, since it reads
-- whole sectors, other bytes of the disk around them.
use virtual_memory.Base.{
  ℕ, zero, suc, ◌+◌, ◌-◌, ◌*◌, ◌/◌, ◌%◌, ◌^◌, ◌≤◌, ◌<◌, ◌≡◌, refl, ◌⊎◌, ltb, leb, ◌&&◌,
  if◌then◌else◌, List, some, arith,
}
use virtual_memory.Memory.{Memory, store8, memset}
use virtual_memory.Memory.Copy.{memset_lem}
use virtual_memory.Hardware.Ports.{Outb}
use virtual_memory.Boot.{Loading, clear_bss, boot_readseg, read_sectors}
use virtual_memory.Boot.Sectors.{Responds, IsDisk, input_eq, sectors_at, read_sectors_lem}

clear_bss_lem : (m : Memory) (v left : ℕ) → clear_bss m v left ≡ memset m v 0 left
unfolding clear_bss memset
clear_bss_lem m v zero = refl
clear_bss_lem m v (suc left) = clear_bss_lem (store8 m v 0) (v + 1) left

-- The first sector's address, and the address behind the last one.
abbrev pub first_byte : (ptr : ℕ) → ℕ
first_byte ptr = ptr - ptr % 512

abbrev pub sectors_for : (ptr filesz : ℕ) → ℕ
sectors_for ptr filesz = (filesz + ptr % 512 + 511) / 512

-- Every byte of memory behind a call on a disk with these bytes.
abbrev pub segment_at : (image : ℕ → ℕ) (before : Memory) (ptr sect filesz memsz x : ℕ) → ℕ
segment_at image before ptr sect filesz memsz x =
    if leb (ptr + filesz) x && ltb x (ptr + memsz)
    then 0
    else sectors_at image before (first_byte ptr) (first_byte ptr + 512 * sectors_for ptr filesz)
        sect x

-- `boot_readseg` behind its sectors.
readseg_after :
    (status : ℕ → ℕ) (words : List Outb → ℕ → ℕ) (patience : ℕ) (s s1 : Loading)
    (ptr sect filesz memsz : ℕ)
    → ptr + filesz < 2 ^ 64
    → ptr + memsz < 2 ^ 64
    → read_sectors status words patience (filesz / 512 + 3) s (first_byte ptr) (ptr + filesz) sect
      ≡ some s1
    → boot_readseg status words patience s ptr sect filesz memsz
      ≡ some (record s1 { mem = clear_bss s1.mem (ptr + filesz) (ptr + memsz - (ptr + filesz)) })
unfolding boot_readseg
readseg_after status words patience s s1 ptr sect filesz memsz h1 h2 e =
    let end_ptr : (ptr + filesz) % 2 ^ 64 ≡ ptr + filesz = omega arith in
    let end_mem : (memsz + ptr) % 2 ^ 64 ≡ ptr + memsz = omega arith in
    rw (end_ptr, end_mem, e) refl

module _ (status : ℕ → ℕ) (patience : ℕ) (responds : Responds status patience) where
  module _ (words : List Outb → ℕ → ℕ) (image : ℕ → ℕ) (disk : IsDisk words image) where
    pub boot_readseg_lem :
        (s : Loading) (ptr sect filesz memsz : ℕ)
        → ptr + filesz + 512 ≤ 2 ^ 64
        → ptr + memsz < 2 ^ 64
        → sect + filesz / 512 + 2 ≤ 2 ^ 28
        → (s' : Loading) × (boot_readseg status words patience s ptr sect filesz memsz ≡ some s')
          × ((x : ℕ) → s'.mem x ≡ segment_at image s.mem ptr sect filesz memsz x)
    boot_readseg_lem s ptr sect filesz memsz h1 h2 h3 =
        let (s1, read, bytes) =
          read_sectors_lem status patience responds words image disk (sectors_for ptr filesz)
            (filesz / 512 + 3) s (first_byte ptr) (ptr + filesz) sect (omega arith) (omega arith)
            (omega arith) (omega arith) (omega arith) in
        (
          record s1 { mem = clear_bss s1.mem (ptr + filesz) (ptr + memsz - (ptr + filesz)) },
          readseg_after status words patience s s1 ptr sect filesz memsz (omega arith) h2 read,
          λ x. rw (clear_bss_lem s1.mem (ptr + filesz) (ptr + memsz - (ptr + filesz))) (
              ground (
                arith,
                memset_lem s1.mem (ptr + filesz) 0 (ptr + memsz - (ptr + filesz)) x,
                bytes x,
              )),
        )

    -- On a disk that follows the protocol `boot_readseg` ends, and leaves the `filesz` bytes at
    -- offset `ptr % 512` of the sector `src_sect` and behind it in memory from `ptr` on, and zeros
    -- from there to `ptr + memsz`. Outside the whole sectors that it reads, and these zeros, no byte
    -- changes. The segment ends a sector before the end of memory at least, and the sectors'
    -- numbers have 28 bits.
    pub boot_readseg_loads :
        (s : Loading) (ptr src_sect filesz memsz : ℕ)
        → ptr + filesz + 512 ≤ 2 ^ 64
        → ptr + memsz < 2 ^ 64
        → src_sect + filesz / 512 + 2 ≤ 2 ^ 28
        → (s' : Loading) × (boot_readseg status words patience s ptr src_sect filesz memsz
            ≡ some s')
          × ((i : ℕ) → i < filesz → s'.mem (ptr + i) ≡ image (512 * src_sect + ptr % 512 + i) % 256)
          × ((i : ℕ) → filesz ≤ i → i < memsz → s'.mem (ptr + i) ≡ 0)
          × ((x : ℕ)
              → (x < ptr - ptr % 512) ⊎ (((ptr + filesz + 511) / 512 * 512 ≤ x) × (ptr + memsz ≤ x))
              → s'.mem x ≡ s.mem x)
    boot_readseg_loads s ptr src_sect filesz memsz h1 h2 h3 =
        let (s', runs, bytes) = boot_readseg_lem s ptr src_sect filesz memsz h1 h2 h3 in
        (
          s',
          runs,
          λ i h. ground (
            arith,
            bytes (ptr + i),
            input_eq image (512 * src_sect + (ptr + i - first_byte ptr))
                (512 * src_sect + ptr % 512 + i),
          ),
          λ i h k. ground (arith, bytes (ptr + i)),
          λ x out. ground (arith, bytes x, out),
        )
