-- ===== src/Tests/BootTests.antt =====
-- The boot loader on a disk with a small image: one segment of 600 bytes, and 100 zeros.
use virtual_memory.Base.{
  ℕ, zero, suc, ◌+◌, ◌-◌, ◌*◌, ◌/◌, ◌%◌, bit_and, ◌≤◌, ◌<◌, ◌≡◌, refl, ap, List, [], ◌∷◌, ltb,
  if◌then◌else◌, get_or, some, arith, ◌⊎◌,
}
use virtual_memory.Hardware.Ports.{Outb}
use virtual_memory.Elf.{elf_header, elf_program, load}
use virtual_memory.Boot.{Loading, boot, boot_readseg}
use virtual_memory.Boot.Sectors.{Responds, IsDisk}
use virtual_memory.Boot.Segment.{boot_readseg_loads}
use virtual_memory.Boot.Image.{header_of, segment_of, FitsIn, IsLoadable, IsLoaded}
use virtual_memory.Boot.Jump.{boot_loads_kernel}

-- The header with entry point 0x40000, and at 64 one program header.
abbrev header_bytes : List ℕ
header_bytes =
    127 ∷ 69 ∷ 76 ∷ 70 ∷ 0 ∷ 0 ∷ 0 ∷ 0 ∷ 0 ∷ 0 ∷ 0 ∷ 0 ∷ 0 ∷ 0 ∷ 0 ∷ 0 ∷ 0 ∷ 0 ∷ 0 ∷ 0 ∷ 0 ∷ 0 ∷ 0
    ∷ 0 ∷ 0 ∷ 0 ∷ 4 ∷ 0 ∷ 0 ∷ 0 ∷ 0 ∷ 0 ∷ 64 ∷ 0 ∷ 0 ∷ 0 ∷ 0 ∷ 0 ∷ 0 ∷ 0 ∷ 0 ∷ 0 ∷ 0 ∷ 0 ∷ 0 ∷ 0 ∷ 0
    ∷ 0 ∷ 0 ∷ 0 ∷ 0 ∷ 0 ∷ 0 ∷ 0 ∷ 0 ∷ 0 ∷ 1 ∷ 0 ∷ 0 ∷ 0 ∷ 0 ∷ 0 ∷ 0 ∷ 0 ∷ 1 ∷ 0 ∷ 0 ∷ 0 ∷ 5 ∷ 0 ∷ 0
    ∷ 0 ∷ 0 ∷ 16 ∷ 0 ∷ 0 ∷ 0 ∷ 0 ∷ 0 ∷ 0 ∷ 0 ∷ 0 ∷ 4 ∷ 0 ∷ 0 ∷ 0 ∷ 0 ∷ 0 ∷ 0 ∷ 0 ∷ 4 ∷ 0 ∷ 0 ∷ 0 ∷ 0
    ∷ 0 ∷ 88 ∷ 2 ∷ 0 ∷ 0 ∷ 0 ∷ 0 ∷ 0 ∷ 0 ∷ 188 ∷ 2 ∷ 0 ∷ 0 ∷ 0 ∷ 0 ∷ 0 ∷ 0 ∷ []

abbrev disk_image : ℕ → ℕ
disk_image a = if ltb a 4096 then get_or header_bytes (a - 512) 0 else a % 251

-- The disk: it decodes the commands.
abbrev disk_words : List Outb → ℕ → ℕ
disk_words (_ ∷ b0 ∷ b1 ∷ b2 ∷ b3 ∷ _ ∷ []) k =
    disk_image (512 * (b0.byte + 256 * b1.byte + 65536 * b2.byte + 16777216 * (b3.byte - 224)) + k)
disk_words _ k = 0

disk_words-IsDisk : IsDisk disk_words disk_image
disk_words-IsDisk b0 b1 b2 b3 k h0 h1 h2 h3 hk =
    let same : 512 * (b0 + 256 * b1 + 65536 * b2 + 16777216 * (224 + b3 - 224)) + k
        ≡ 512 * (b0 + 256 * b1 + 65536 * b2 + 16777216 * b3) + k =
      omega arith in
    ap disk_image same

-- The disk is ready at every other read.
abbrev disk_status : ℕ → ℕ
disk_status t = 64 * (t % 2)

disk_status-Responds : Responds disk_status 2
disk_status-Responds t =
    let odd : (t + (t + 1) % 2) % 2 ≡ 1 = omega arith in
    ((t + 1) % 2, omega arith, ap (λ r. bit_and (64 * r) 0xC0) odd)

first_number : (header_of disk_image).e_phnum ≡ 1
unfolding elf_header load
first_number = refl

segment_zero-FitsIn : FitsIn (segment_of disk_image 0)
unfolding elf_header elf_program load
segment_zero-FitsIn = record {
  behind_header = omega arith;
  file_below = omega arith;
  mem_below = omega arith;
  file_in_mem = omega arith;
  congruent = refl;
  on_disk = omega arith;
}

all-FitsIn : (j : ℕ) → j < (header_of disk_image).e_phnum → FitsIn (segment_of disk_image j)
all-FitsIn zero h = segment_zero-FitsIn
all-FitsIn (suc j) h = absurd (omega (arith, first_number))

disk_image-IsLoadable : IsLoadable disk_image
unfolding elf_header load
disk_image-IsLoadable = record {
  magic = refl;
  in_page = omega arith;
  fits = all-FitsIn;
  ascending = λ i j h k. absurd (omega (arith, first_number));
}

boot_readseg_loads_example :
    (s' : Loading) × (boot_readseg disk_status disk_words 2
        (record { mem = λ a. 7; polls = 0 })
        0x20010
        9
        600
        700
      ≡ some s')
    × ((i : ℕ) → i < 600 → s'.mem (0x20010 + i) ≡ disk_image (512 * 9 + 0x20010 % 512 + i) % 256)
    × ((i : ℕ) → 600 ≤ i → i < 700 → s'.mem (0x20010 + i) ≡ 0)
    × ((x : ℕ)
        → (x < 0x20010 - 0x20010 % 512)
          ⊎ (((0x20010 + 600 + 511) / 512 * 512 ≤ x) × (0x20010 + 700 ≤ x))
        → s'.mem x ≡ 7)
boot_readseg_loads_example =
    boot_readseg_loads disk_status 2 disk_status-Responds disk_words disk_image disk_words-IsDisk
      (record { mem = λ a. 7; polls = 0 }) 0x20010 9 600 700 (omega arith) (omega arith)
      (omega arith)

boot_loads_kernel_example :
    (s' : Loading) × (boot disk_status disk_words 2 (record { mem = λ a. 7; polls = 0 })
      ≡ some ((header_of disk_image).e_entry, s'))
    × ((k : ℕ)
        → k < (header_of disk_image).e_phnum
        → IsLoaded disk_image s'.mem (segment_of disk_image k))
boot_loads_kernel_example =
    boot_loads_kernel disk_status 2 disk_status-Responds disk_words disk_image disk_words-IsDisk
      disk_image-IsLoadable (record { mem = λ a. 7; polls = 0 })
