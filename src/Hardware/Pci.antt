-- ===== src/Hardware/Pci.antt =====
-- The PCI bus: the search for the power management controller (k-hardware.c).
pub mod Search
use virtual_memory.Base.{
  ℕ, zero, suc, ◌+◌, ◌-◌, ◌*◌, ◌%◌, ◌^◌, bit_and, bit_or, Bool, true, false, not, ◌&&◌, ltb, ◌==◌,
  if◌then◌else◌, Option, none, some,
}

-- `bus`, `slot` and `func` are below 256, 32 and 8.
unfoldable pub pci_make_configaddr : (bus slot func : ℕ) → ℕ
pci_make_configaddr bus slot func = bit_or (bit_or (bus * 2 ^ 16) (slot * 2 ^ 11)) (func * 2 ^ 8)

-- `config a` is what port 0xCFC yields after `a` is written to port 0xCF8, a 32-bit word.
module _ (config : ℕ → ℕ) where
  unfoldable pub pci_config_readl : (configaddr offset : ℕ) → ℕ
  pci_config_readl configaddr offset = config (bit_or (bit_or 0x80000000 configaddr) offset)

  -- The loop over the functions of a slot, with those left.
  unfoldable pub find_func : (vendor_device bus slot left func : ℕ) → Option ℕ
  find_func vendor_device bus slot zero func = none
  find_func vendor_device bus slot (suc left) func =
      let configaddr = pci_make_configaddr bus slot func in
      let rest = find_func vendor_device bus slot left (func + 1) in
      if pci_config_readl configaddr 0 == vendor_device
      then some configaddr
      else if (pci_config_readl configaddr 0 == 0xFFFFFFFF) && (func == 0)
      then none
      else rest

  -- The loop over the slots of a bus, with those left.
  unfoldable pub find_slot : (vendor_device bus left slot : ℕ) → Option ℕ
  find_slot vendor_device bus zero slot = none
  find_slot vendor_device bus (suc left) slot =
      let rest = find_slot vendor_device bus left (slot + 1) in
      elim (find_func vendor_device bus slot 8 0) [
        | none ↦ rest
        | some configaddr ↦ some configaddr
      ]

  -- The loop over the buses, with those left.
  unfoldable pub find_bus : (vendor_device left bus : ℕ) → Option ℕ
  find_bus vendor_device zero bus = none
  find_bus vendor_device (suc left) bus =
      let rest = find_bus vendor_device left (bus + 1) in
      elim (find_slot vendor_device bus 32 0) [ none ↦ rest | some configaddr ↦ some configaddr ]

  -- `none` is its -1.
  unfoldable pub pci_find_device : (vendor device : ℕ) → Option ℕ
  pci_find_device vendor device = find_bus (bit_or vendor (device * 2 ^ 16) % 2 ^ 32) 256 0

  -- The port and the value of the call of `outw`, with the device that it finds. The message
  -- behind the call and the loop that follows are left out.
  unfoldable pub poweroff : Option (ℕ × ℕ)
  poweroff = elim (pci_find_device 0x8086 0x7113) [
    | none ↦ none
    | some configaddr ↦ some (bit_and (pci_config_readl configaddr 0x40) 0xFFC0 + 4, 0x2000)
  ]
