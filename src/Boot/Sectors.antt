-- ===== src/Boot/Sectors.antt =====
-- What the sector loop of the boot loader leaves in memory, on a disk that follows the protocol.
use virtual_memory.Base.{
  ℕ, zero, suc, ◌+◌, ◌-◌, ◌*◌, ◌/◌, ◌%◌, ◌^◌, ◌≤◌, ◌<◌, bit_and, bit_or, ◌≡◌, refl, ap, ◌∙◌, true,
  ltb, leb, ◌&&◌, ◌==◌, if◌then◌else◌, List, [], ◌∷◌, some, arith, inl, inr, Bool-cases, eq→==,
  lt→ltb, le→ltb,
}
use virtual_memory.Bits.{bit_or_sum_right}
use virtual_memory.Memory.{Memory, store8}
use virtual_memory.Hardware.Ports.{Outb}
use virtual_memory.Boot.{
  Loading, insl, read_commands, boot_waitdisk, boot_readsect, read_sectors, sector_size,
}

-- A disk that becomes ready within `patience` reads of its status, whenever it is asked.
abbrev pub Responds : (status : ℕ → ℕ) → (patience : ℕ) → Type 0
Responds status patience =
    (t : ℕ) → (i : ℕ) × (i < patience) × (bit_and (status (t + i)) 0xC0 ≡ 0x40)

-- A disk that answers the command 0x20 for one sector, whose number has 28 bits, with that sector
-- of `image`. The number comes in three bytes and, with the master's bits 0xE0, a half.
abbrev pub IsDisk : (words : List Outb → ℕ → ℕ) → (image : ℕ → ℕ) → Type 0
IsDisk words image =
    (b0 b1 b2 b3 k : ℕ)
    → b0 < 256
    → b1 < 256
    → b2 < 256
    → b3 < 16
    → k < 512
    → words
        (record { port = 0x1F2; byte = 1 }
          ∷ record { port = 0x1F3; byte = b0 }
          ∷ record { port = 0x1F4; byte = b1 }
          ∷ record { port = 0x1F5; byte = b2 }
          ∷ record { port = 0x1F6; byte = 224 + b3 }
          ∷ record { port = 0x1F7; byte = 0x20 }
          ∷ [])
        k
      ≡ image (512 * (b0 + 256 * b1 + 65536 * b2 + 16777216 * b3) + k)

pub input_eq : (input : ℕ → ℕ) (a b : ℕ) → a ≡ b → input a ≡ input b
input_eq input a b e = ap input e

insl_lem :
    (m : Memory) (addr : ℕ) (input : ℕ → ℕ) (k cnt x : ℕ)
    → insl m addr input k cnt x
      ≡ (if leb addr x && ltb x (addr + 4 * cnt) then input (k + (x - addr)) % 256 else m x)
unfolding insl store8
insl_lem m addr input k zero x = ground arith
insl_lem m addr input k (suc cnt) x =
    let m1 = store8 m addr (input k) in
    let m2 = store8 m1 (addr + 1) (input (k + 1)) in
    let m3 = store8 m2 (addr + 2) (input (k + 2)) in
    let m4 = store8 m3 (addr + 3) (input (k + 3)) in
    ground (
      arith,
      insl_lem m4 (addr + 4) input (k + 4) cnt x,
      input_eq input k (k + (x - addr)),
      input_eq input (k + 1) (k + (x - addr)),
      input_eq input (k + 2) (k + (x - addr)),
      input_eq input (k + 3) (k + (x - addr)),
      input_eq input (k + 4 + (x - (addr + 4))) (k + (x - addr)),
    )

byte_mod : (a : ℕ) → a % 256 < 256
byte_mod a = omega arith

-- The commands spell the sector's number.
read_commands_lem :
    (words : List Outb → ℕ → ℕ) (image : ℕ → ℕ)
    → IsDisk words image
    → (sect k : ℕ) → sect < 2 ^ 28
    → k < 512
    → words (read_commands sect) k ≡ image (512 * sect + k)
unfolding read_commands
read_commands_lem words image disk sect k h hk =
    let top : bit_or (sect / 2 ^ 24) 0xE0 % 256 ≡ 224 + sect / 2 ^ 24 =
      omega (arith, bit_or_sum_right 5 7 (sect / 2 ^ 24) (omega arith)) in
    rw top (
      disk (sect % 256) (sect / 2 ^ 8 % 256) (sect / 2 ^ 16 % 256) (sect / 2 ^ 24) k (omega arith)
        (omega arith) (omega arith) (omega arith) hk
      ∙ ap image (omega arith))

-- A wait that finds the disk ready ends.
wait_returns :
    (status : ℕ → ℕ) (left t i : ℕ)
    → i < left
    → bit_and (status (t + i)) 0xC0 ≡ 0x40
    → (t' : ℕ) × (boot_waitdisk status left t ≡ some t')
unfolding boot_waitdisk
wait_returns status zero t i h ready = absurd (omega arith)
wait_returns status (suc left) t zero h ready =
    let now : (bit_and (status t) 0xC0 == 0x40) ≡ true =
      eq→== (bit_and (status t) 0xC0) 0x40
        (ap (λ u. bit_and (status u) 0xC0) (omega arith) ∙ ready) in
    (t + 1, rw now refl)
wait_returns status (suc left) t (suc i) h ready =
    let more =
      wait_returns status left (t + 1) i (omega arith)
        (ap (λ u. bit_and (status u) 0xC0) (omega arith) ∙ ready) in
    elim (Bool-cases (bit_and (status t) 0xC0 == 0x40)) [
      | inl now ↦ (t + 1, rw now refl)
      | inr later ↦ (more.0, rw later more.1)
    ]

-- Bytes from the disk in `[ptr, stop)`, and the old ones elsewhere.
abbrev pub sectors_at : (image : ℕ → ℕ) (before : Memory) (ptr stop sect x : ℕ) → ℕ
sectors_at image before ptr stop sect x =
    if leb ptr x && ltb x stop then image (512 * sect + (x - ptr)) % 256 else before x

module _ (status : ℕ → ℕ) (patience : ℕ) (responds : Responds status patience) where
  wait_lem : (t : ℕ) → (t' : ℕ) × (boot_waitdisk status patience t ≡ some t')
  wait_lem t = let (i, below, ready) = responds t in wait_returns status patience t i below ready

  module _ (words : List Outb → ℕ → ℕ) (image : ℕ → ℕ) (disk : IsDisk words image) where
    pub boot_readsect_lem :
        (s : Loading) (dst sect : ℕ)
        → sect < 2 ^ 28
        → (s' : Loading) × (boot_readsect status words patience s dst sect ≡ some s')
          × ((x : ℕ)
              → s'.mem x ≡ (
                  if leb dst x && ltb x (dst + 512)
                  then image (512 * sect + (x - dst)) % 256
                  else s.mem x))
    unfolding boot_readsect
    boot_readsect_lem s dst sect h =
        let first = wait_lem s.polls in
        let second = wait_lem first.0 in
        (
          record { mem = insl s.mem dst (words (read_commands sect)) 0 128; polls = second.0 },
          rw (first.1, second.1) refl,
          λ x. ground (
            arith,
            insl_lem s.mem dst (words (read_commands sect)) 0 128 x,
            read_commands_lem words image disk sect (x - dst) h,
          ),
        )

    -- `n` is the number of sectors from `ptr`, at a sector's boundary, to behind `end_ptr`.
    pub read_sectors_lem :
        (n fuel : ℕ) (s : Loading) (ptr end_ptr sect : ℕ)
        → n < fuel
        → end_ptr ≤ ptr + 512 * n
        → ptr + 512 * n < end_ptr + 512
        → ptr + 512 * n < 2 ^ 64
        → sect + n ≤ 2 ^ 28
        → (s' : Loading) × (read_sectors status words patience fuel s ptr end_ptr sect ≡ some s')
          × ((x : ℕ) → s'.mem x ≡ sectors_at image s.mem ptr (ptr + 512 * n) sect x)
    unfolding read_sectors
    read_sectors_lem n zero s ptr end_ptr sect f h1 h2 h3 h4 = absurd (omega arith)
    read_sectors_lem zero (suc fuel) s ptr end_ptr sect f h1 h2 h3 h4 =
        (s, rw (le→ltb ptr end_ptr (omega arith)) refl, λ x. ground arith)
    read_sectors_lem (suc n) (suc fuel) s ptr end_ptr sect f h1 h2 h3 h4 =
        let one = boot_readsect_lem s ptr sect (omega arith) in
        let next : (ptr + sector_size) % 2 ^ 64 ≡ ptr + 512 = omega arith in
        let next_sect : (sect + 1) % 2 ^ 32 ≡ sect + 1 = omega arith in
        let step : read_sectors status words patience (suc fuel) s ptr end_ptr sect
            ≡ read_sectors status words patience fuel one.0 (ptr + 512) end_ptr (sect + 1) =
          rw (lt→ltb ptr end_ptr (omega arith), one.1, next, next_sect) refl in
        let more =
          read_sectors_lem n fuel one.0 (ptr + 512) end_ptr (sect + 1) (omega arith) (omega arith)
            (omega arith) (omega arith) (omega arith) in
        (
          more.0,
          step ∙ more.1,
          λ x. ground (
            arith,
            more.2 x,
            one.2 x,
            input_eq image (512 * (sect + 1) + (x - (ptr + 512))) (512 * sect + (x - ptr)),
          ),
        )
