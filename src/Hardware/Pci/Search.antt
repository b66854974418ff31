-- ===== src/Hardware/Pci/Search.antt =====
-- The search on the PCI bus finds the device, if the bus shows it.
use virtual_memory.Base.{
  ℕ, zero, suc, ◌+◌, ◌*◌, ◌%◌, ◌^◌, bit_or, ◌≤◌, ◌<◌, ◌≡◌, ◌≢◌, refl, false, ◌&&◌, ◌==◌, Option,
  none, some, arith, Bool-cases, inl, inr, ap, sym, ◌∙◌, ◌⊎◌, ==→ne, ne→==,
}
use virtual_memory.Hardware.Pci.{
  pci_make_configaddr, pci_config_readl, find_func, find_slot, find_bus, pci_find_device,
}

Option-cases : (o : Option ℕ) → (o ≡ none) ⊎ ((a : ℕ) × (o ≡ some a))
Option-cases none = inl refl
Option-cases (some a) = inr (a, refl)

none≢some : {a : ℕ} → none ≢ some a
none≢some e = ground (arith, e)

module _ (config : ℕ → ℕ) (word : ℕ) where
  find_func-found :
      (bus slot left func a : ℕ)
      → find_func config word bus slot left func ≡ some a
      → pci_config_readl config a 0 ≡ word
  unfolding find_func
  find_func-found bus slot zero func a h = ground (arith, h)
  find_func-found bus slot (suc left) func a h =
      let here = pci_make_configaddr bus slot func in
      elim (Bool-cases (pci_config_readl config here 0 == word)) [
        | inl is ↦ ground (arith, is, h)
        | inr other ↦ ground (arith, find_func-found bus slot left (func + 1) a)
      ]

  goes_on :
      (bus slot func : ℕ)
      → pci_config_readl config (pci_make_configaddr bus slot 0) 0 ≢ 0xFFFFFFFF
      → ((pci_config_readl config (pci_make_configaddr bus slot func) 0 == 0xFFFFFFFF)
          && (func == 0))
        ≡ false
  goes_on bus slot zero present =
      rw (ne→== (pci_config_readl config (pci_make_configaddr bus slot 0) 0) 0xFFFFFFFF present)
        refl
  goes_on bus slot (suc func) present = ground arith

  find_func_finds :
      (bus slot left func x : ℕ)
      → pci_config_readl config (pci_make_configaddr bus slot 0) 0 ≢ 0xFFFFFFFF
      → func ≤ x
      → x < func + left
      → pci_config_readl config (pci_make_configaddr bus slot x) 0 ≡ word
      → (a : ℕ) × (find_func config word bus slot left func ≡ some a)
  unfolding find_func
  find_func_finds bus slot zero func x present le lt is = absurd (omega arith)
  find_func_finds bus slot (suc left) func x present le lt is =
      let here = pci_make_configaddr bus slot func in
      elim (Bool-cases (pci_config_readl config here 0 == word)) [
        | inl found ↦ (here, rw found refl)
        | inr other ↦
            let later : func ≢ x = λ e.
              ==→ne (pci_config_readl config here 0) word other
                (ap (λ f. pci_config_readl config (pci_make_configaddr bus slot f) 0) e ∙ is) in
            let ih =
              find_func_finds bus slot left (func + 1) x present (omega (arith, later))
                (omega arith) is in
            (ih.0, rw (other, goes_on bus slot func present) ih.1)
      ]

  -- One round of each loop.
  find_slot_next :
      (bus left slot : ℕ) (o : Option ℕ)
      → find_func config word bus slot 8 0 ≡ o
      → find_slot config word bus (suc left) slot
        ≡ elim o [ none ↦ find_slot config word bus left (slot + 1) | some a ↦ some a ]
  unfolding find_slot
  find_slot_next bus left slot o e =
      ap
        (λ (r : Option ℕ). elim r as (λ x. Option ℕ) [
          | none ↦ find_slot config word bus left (slot + 1)
          | some a ↦ some a
        ])
        e

  find_bus_next :
      (left bus : ℕ) (o : Option ℕ)
      → find_slot config word bus 32 0 ≡ o
      → find_bus config word (suc left) bus
        ≡ elim o [ none ↦ find_bus config word left (bus + 1) | some a ↦ some a ]
  unfolding find_bus
  find_bus_next left bus o e =
      ap
        (λ (r : Option ℕ). elim r as (λ x. Option ℕ) [
          | none ↦ find_bus config word left (bus + 1)
          | some a ↦ some a
        ])
        e

  find_slot-found :
      (bus left slot a : ℕ)
      → find_slot config word bus left slot ≡ some a
      → pci_config_readl config a 0 ≡ word
  unfolding find_slot
  find_slot-found bus zero slot a h = ground (arith, h)
  find_slot-found bus (suc left) slot a h =
      elim (Option-cases (find_func config word bus slot 8 0)) [
        | inl e ↦
            find_slot-found bus left (slot + 1) a (sym (find_slot_next bus left slot none e) ∙ h)
        | inr (b, e) ↦
            find_func-found bus slot 8 0 a (e ∙ sym (find_slot_next bus left slot (some b) e) ∙ h)
      ]

  find_bus-found :
      (left bus a : ℕ) → find_bus config word left bus ≡ some a → pci_config_readl config a 0 ≡ word
  unfolding find_bus
  find_bus-found zero bus a h = ground (arith, h)
  find_bus-found (suc left) bus a h = elim (Option-cases (find_slot config word bus 32 0)) [
    | inl e ↦ find_bus-found left (bus + 1) a (sym (find_bus_next left bus none e) ∙ h)
    | inr (b, e) ↦ find_slot-found bus 32 0 a (e ∙ sym (find_bus_next left bus (some b) e) ∙ h)
  ]

  find_slot_finds :
      (bus left slot x a : ℕ)
      → slot ≤ x
      → x < slot + left
      → find_func config word bus x 8 0 ≡ some a
      → (b : ℕ) × (find_slot config word bus left slot ≡ some b)
  unfolding find_slot
  find_slot_finds bus zero slot x a le lt is = absurd (omega arith)
  find_slot_finds bus (suc left) slot x a le lt is =
      elim (Option-cases (find_func config word bus slot 8 0)) [
        | inl e ↦
            let later : slot ≢ x =
              λ q. none≢some (sym e ∙ ap (λ t. find_func config word bus t 8 0) q ∙ is) in
            let ih =
              find_slot_finds bus left (slot + 1) x a (omega (arith, later)) (omega arith) is in
            (ih.0, find_slot_next bus left slot none e ∙ ih.1)
        | inr (b, e) ↦ (b, find_slot_next bus left slot (some b) e)
      ]

  find_bus_finds :
      (left bus x a : ℕ)
      → bus ≤ x
      → x < bus + left
      → find_slot config word x 32 0 ≡ some a
      → (b : ℕ) × (find_bus config word left bus ≡ some b)
  unfolding find_bus
  find_bus_finds zero bus x a le lt is = absurd (omega arith)
  find_bus_finds (suc left) bus x a le lt is =
      elim (Option-cases (find_slot config word bus 32 0)) [
        | inl e ↦
            let later : bus ≢ x =
              λ q. none≢some (sym e ∙ ap (λ t. find_slot config word t 32 0) q ∙ is) in
            let ih = find_bus_finds left (bus + 1) x a (omega (arith, later)) (omega arith) is in
            (ih.0, find_bus_next left bus none e ∙ ih.1)
        | inr (b, e) ↦ (b, find_bus_next left bus (some b) e)
      ]

-- If some function of some slot of some bus shows the vendor and the device in its first
-- configuration word, and function 0 of that slot shows a device too (a word other than all
-- ones), then `pci_find_device` finds a configuration address, and the one that it finds shows
-- them.
pub pci_find_device_finds :
    (config : ℕ → ℕ) (vendor device bus slot func : ℕ)
    → bus < 256
    → slot < 32
    → func < 8
    → pci_config_readl config (pci_make_configaddr bus slot 0) 0 ≢ 0xFFFFFFFF
    → pci_config_readl config (pci_make_configaddr bus slot func) 0
      ≡ bit_or vendor (device * 2 ^ 16) % 2 ^ 32
    → (a : ℕ) × (pci_find_device config vendor device ≡ some a)
      × (pci_config_readl config a 0 ≡ bit_or vendor (device * 2 ^ 16) % 2 ^ 32)
unfolding pci_find_device
pci_find_device_finds config vendor device bus slot func hb hs hf present is =
    let word = bit_or vendor (device * 2 ^ 16) % 2 ^ 32 in
    let f = find_func_finds config word bus slot 8 0 func present (omega arith) (omega arith) is in
    let s = find_slot_finds config word bus 32 0 slot f.0 (omega arith) (omega arith) f.1 in
    let b = find_bus_finds config word 256 0 bus s.0 (omega arith) (omega arith) s.1 in
    (b.0, b.1, find_bus-found config word 256 0 b.0 b.1)
