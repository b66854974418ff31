-- ===== src/Kernel/Fork/CopyPage.antt =====
-- One round of a copying loop: the mapping of a page in one page table, made in another.
use virtual_memory.Base.{
  ℕ, ◌+◌, ◌*◌, ◌/◌, ◌%◌, ◌≤◌, ◌<◌, ◌≡◌, refl, inl, inr, Bool, false, ◌==◌, if◌then◌else◌, arith,
  Bool-cases, ap, sym, ◌∙◌, ok,
}
use virtual_memory.Memory.{Memory, load64}
use virtual_memory.Memory.Words.{IsBytes}
use virtual_memory.Vm.{Tables, Vamapping, unmapped, virtual_memory_map, virtual_memory_lookup}
use virtual_memory.Vm.Layout.{AreTables, Connected, slot, mapping_of, lookup-Connected}
use virtual_memory.Vm.Slots.{slot_eq}
use virtual_memory.Vm.Mapping.{Maps}
use virtual_memory.Vm.Isolation.{Separate}
use virtual_memory.Vm.Spaces.{CanMap, mapped, virtual_memory_map-Maps, Maps-lookup, mapped_outside}

-- A lookup at a page's start, moved to an offset in that page.
abbrev pub at_offset : Vamapping → ℕ → Vamapping
at_offset v k = if v.perm % 2 == 1 then record v { pa = v.pa + k } else v

-- The mapping of `b` is that of its page, at the offset of `b`.
mapping_of-at_offset :
    (b e : ℕ) → mapping_of b e ≡ at_offset (mapping_of (b / 4096 * 4096) e) (b % 4096)
mapping_of-at_offset b e = elim (Bool-cases (e % 2 == 1)) [
  | inl is ↦ rw is (ground arith)
  | inr isnt ↦ rw isnt refl
]

pub lookup-at_offset :
    (t : Tables) (m : Memory) (b : ℕ)
    → AreTables t
    → Connected m t
    → IsBytes m
    → b < 0x400000
    → virtual_memory_lookup m t.l1 b
      ≡ at_offset (virtual_memory_lookup m t.l1 (b / 4096 * 4096)) (b % 4096)
lookup-at_offset t m b ts conn bytes h =
    let page = b / 4096 * 4096 in
    let slots : load64 m (slot t b) ≡ load64 m (slot t page) =
      ap (load64 m) (slot_eq t ts b page (omega arith)) in
    lookup-Connected m t ts conn bytes b h
    ∙ ap (mapping_of b) slots
    ∙ mapping_of-at_offset b (load64 m (slot t page))
    ∙ ap (λ v. at_offset v (b % 4096)) (sym (lookup-Connected m t ts conn bytes page (omega arith)))

-- What a lookup at a page's start gives can be mapped, if it lies in physical memory.
mapping_of-CanMap :
    (va e : ℕ)
    → va % 4096 ≡ 0
    → va + 4096 ≤ 0x400000
    → ((mapping_of va e).perm % 2 ≡ 1 → (mapping_of va e).pa < 0x200000)
    → CanMap va (mapping_of va e).pa 4096 (mapping_of va e).perm
      × ((mapping_of va e).perm % 2 ≡ 1 → (mapping_of va e).pn ≡ (mapping_of va e).pa / 4096)
      × ((mapping_of va e).perm % 2 ≡ 0 → mapping_of va e ≡ unmapped)
mapping_of-CanMap va e h1 h2 h3 = elim (Bool-cases (e % 2 == 1)) [
  | inl is ↦
      let h : e / 4096 * 4096 + va % 4096 < 0x200000 = (rw is at h3) (ground arith) in
      rw is (omega arith, omega arith, λ z. absurd (ground arith))
  | inr isnt ↦ rw isnt (omega arith, λ z. absurd (omega arith), λ z. refl)
]

-- The page at `va`, mapped as `v` says, shows `v` at every offset.
mapped-at_offset :
    (va b : ℕ) (v : Vamapping) (old : ℕ → Vamapping)
    → va % 4096 ≡ 0
    → b / 4096 ≡ va / 4096
    → v.pa % 4096 ≡ 0
    → v.pn ≡ v.pa / 4096
    → v.perm % 2 ≡ 1
    → mapped va v.pa 4096 v.perm old b ≡ at_offset v (b % 4096)
mapped-at_offset va b v old h1 h2 h3 h4 h5 = ground arith

abbrev pub same_page : ℕ → ℕ → Bool
same_page b va = b / 4096 == va / 4096

mapped-absent :
    (va b pa perm : ℕ) (old : ℕ → Vamapping)
    → va % 4096 ≡ 0
    → b / 4096 ≡ va / 4096
    → perm % 2 ≡ 0
    → mapped va pa 4096 perm old b ≡ unmapped
mapped-absent va b pa perm old h1 h2 h3 = ground arith

at_offset-absent : (v : Vamapping) (k : ℕ) → (v.perm % 2 == 1) ≡ false → v ≡ at_offset v k
at_offset-absent v k h = rw h refl

-- A mapping of one page, asked for as a lookup at its start shows it, reads back at each address.
mapped_as_shown :
    (va b : ℕ) (v : Vamapping) (old : ℕ → Vamapping)
    → va % 4096 ≡ 0
    → CanMap va v.pa 4096 v.perm
      × (v.perm % 2 ≡ 1 → v.pn ≡ v.pa / 4096)
      × (v.perm % 2 ≡ 0 → v ≡ unmapped)
    → mapped va v.pa 4096 v.perm old b ≡ (if same_page b va then at_offset v (b % 4096) else old b)
mapped_as_shown va b v old h f = elim (Bool-cases (same_page b va)) [
  | inl is ↦ rw is (elim (Bool-cases (v.perm % 2 == 1)) [
    | inl p ↦
        mapped-at_offset va b v old h (ground arith) (f.0.pa_aligned (ground arith))
          (f.1 (ground arith)) (ground arith)
    | inr p ↦
        mapped-absent va b v.pa v.perm old h (ground arith) (ground arith)
        ∙ sym (f.2 (ground arith))
        ∙ at_offset-absent v (b % 4096) p
  ])
  | inr isnt ↦ rw isnt (sym (mapped_outside va v.pa 4096 v.perm b old (ground arith)))
]

module _ (t u : Tables) (ts : AreTables t) (us : AreTables u) (sep : Separate u t) (m : Memory)
    (ct : Connected m t) (cu : Connected m u) (bytes : IsBytes m) where
  page_cases :
      (va b : ℕ)
      → b < 0x400000
      → va % 4096 ≡ 0
      → (if same_page b va
          then at_offset (virtual_memory_lookup m t.l1 va) (b % 4096)
          else virtual_memory_lookup m u.l1 b)
        ≡ (if same_page b va
            then virtual_memory_lookup m t.l1 b
            else virtual_memory_lookup m u.l1 b)
  page_cases va b hb h = elim (Bool-cases (same_page b va)) [
    | inl is ↦
        let start : va ≡ b / 4096 * 4096 = ground arith in
        rw is (
          ap (λ x. at_offset (virtual_memory_lookup m t.l1 x) (b % 4096)) start
          ∙ sym (lookup-at_offset t m b ts ct bytes hb))
    | inr isnt ↦ rw isnt refl
  ]

  -- One round of a copying loop.
  pub copy_page :
      (va : ℕ)
      → va % 4096 ≡ 0
      → va + 4096 ≤ 0x400000
      → ((virtual_memory_lookup m t.l1 va).perm % 2 ≡ 1
          → (virtual_memory_lookup m t.l1 va).pa < 0x200000)
      → let v = virtual_memory_lookup m t.l1 va in
        (m' : Memory) × (virtual_memory_map m u.l1 va v.pa 4096 v.perm ≡ ok (0, m'))
        × Maps u m va v.pa v.perm 1 m'
        × ((b : ℕ)
            → b < 0x400000
            → virtual_memory_lookup m' u.l1 b ≡ (
                if same_page b va
                then virtual_memory_lookup m t.l1 b
                else virtual_memory_lookup m u.l1 b))
  copy_page va h1 h2 h3 =
      let v = virtual_memory_lookup m t.l1 va in
      let shown : v ≡ mapping_of va (load64 m (slot t va)) =
        lookup-Connected m t ts ct bytes va (omega arith) in
      let f : CanMap va v.pa 4096 v.perm
          × (v.perm % 2 ≡ 1 → v.pn ≡ v.pa / 4096)
          × (v.perm % 2 ≡ 0 → v ≡ unmapped) =
        rw shown (mapping_of-CanMap va (load64 m (slot t va)) h1 h2 (rw shown at h3)) in
      let r = virtual_memory_map-Maps u us m cu va v.pa 4096 v.perm f.0 in
      (
        r.0,
        r.1,
        r.2,
        λ b hb.
            Maps-lookup u us m cu bytes va v.pa 4096 v.perm r.0 f.0 r.2 b hb
            ∙ mapped_as_shown va b v (virtual_memory_lookup m u.l1) h1 f
            ∙ page_cases va b hb h1,
      )
