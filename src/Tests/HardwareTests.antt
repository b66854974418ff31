-- ===== src/Tests/HardwareTests.antt =====
-- The hardware's tables, the timer, the PCI bus and the keyboard at concrete inputs.
use virtual_memory.Base.{
  ℕ, ◌+◌, ◌*◌, ◌%◌, ◌^◌, bit_or, ◌≡◌, refl, ◌==◌, if◌then◌else◌, some, arith, [], ◌∷◌,
}
use virtual_memory.Paging.{has}
use virtual_memory.Hardware.Segments.{
  Handlers, Processor, segments_init, no_gate, set_segments, app_segment,
}
use virtual_memory.Hardware.Segments.Gates.{
  gate_offset, gate_selector, gate_type, gate_dpl, gate_present, segments_init_gates,
}
use virtual_memory.Hardware.Ports.{timer_init, timer_div, interrupt_mask}
use virtual_memory.Hardware.Ports.Timer.{counter_of}
use virtual_memory.Hardware.Pci.{
  pci_make_configaddr, pci_config_readl, find_func, find_slot, find_bus, pci_find_device, poweroff,
}
use virtual_memory.Hardware.Pci.Search.{pci_find_device_finds}
use virtual_memory.Hardware.Keyboard.{keyboard_readc, pressed, keymap}
use virtual_memory.Hardware.Keyboard.Modifiers.{modifiers_after, state_of, keyboard_readc_modifiers}

-- The system calls' handlers stand 9 bytes apart.
abbrev handlers : Handlers
handlers = record {
  sys_int_handlers = λ i. 0x40020 + i * 9;
  default_int_handler = 0x4009C;
  gpf_int_handler = 0x40000;
  pagefault_int_handler = 0x40005;
  timer_int_handler = 0x4000A;
  segments_addr = 0x58000;
  interrupt_descriptors_addr = 0x58040;
  kernel_task_descriptor = 0x59040;
}

abbrev cpu : Processor
cpu = record {
  segments = λ i. 0;
  interrupt_descriptors = λ i. no_gate;
  ts_rsp0 = 0;
  gdt_limit = 0;
  gdt_base = 0;
  idt_limit = 0;
  idt_base = 0;
  task_register = 0;
  cr0 = 0x80000001;
}

segments_init_gates_example :
    let g = (segments_init handlers cpu).interrupt_descriptors 50 in
    (gate_offset g ≡ 0x40032)
    × (gate_selector g ≡ 8)
    × (gate_type g ≡ 0xE)
    × (gate_dpl g ≡ 3)
    × (gate_present g ≡ 1)
segments_init_gates_example = segments_init_gates handlers cpu 50 (omega arith)

-- The descriptor of the kernel's code segment.
kernel_code : set_segments 0x59040 (λ i. 0) 1 ≡ 0x0020980000000000
unfolding set_segments app_segment
kernel_code = refl

timer_100 : counter_of (timer_init 100 0).0 ≡ 11932
unfolding timer_init timer_div interrupt_mask
timer_100 = refl

-- Slot 1 of bus 0 shows a device in function 0, and the power management controller in function 3.
abbrev config : ℕ → ℕ
config a =
    if a == 0x80000800
    then 0x70008086
    else if a == 0x80000B00
    then 0x71138086
    else if a == 0x80000B40
    then 0x0601
    else 0xFFFFFFFF

pci_find_device_finds_example :
    (a : ℕ) × (pci_find_device config 0x8086 0x7113 ≡ some a)
    × (pci_config_readl config a 0 ≡ bit_or 0x8086 (0x7113 * 2 ^ 16) % 2 ^ 32)
unfolding pci_config_readl pci_make_configaddr
pci_find_device_finds_example =
    pci_find_device_finds config 0x8086 0x7113 0 1 3 (omega arith) (omega arith) (omega arith)
      (λ e. omega (arith, e)) refl

powers_off : poweroff config ≡ some (0x604, 0x2000)
unfolding poweroff pci_find_device find_bus find_slot find_func pci_config_readl pci_make_configaddr
powers_off = refl

keyboard_readc_modifiers_example :
    (modifiers_after (0x2A ∷ []) (state_of 8) ≡ 9)
    × (modifiers_after (0x1D ∷ []) (state_of 8) ≡ 10)
    × (modifiers_after (0x38 ∷ []) (state_of 8) ≡ 12)
    × (modifiers_after (0x2A ∷ 0xAA ∷ []) (state_of 8) ≡ 8)
    × (modifiers_after (0x1D ∷ 0x9D ∷ []) (state_of 8) ≡ 8)
    × (modifiers_after (0x38 ∷ 0xB8 ∷ []) (state_of 8) ≡ 8)
    × (modifiers_after (0x3A ∷ 0xBA ∷ 0x3A ∷ 0xBA ∷ []) (state_of 8) ≡ 8)
keyboard_readc_modifiers_example = keyboard_readc_modifiers 8 (omega arith)

-- Shift and `a` give `A`, and caps lock turns it back.
shifted : (keyboard_readc 1 0x1E (record { modifiers = 1; last_escape = 0 })).0 ≡ b'A'
unfolding keyboard_readc pressed keymap has
shifted = refl

shifted_locked : (keyboard_readc 1 0x1E (record { modifiers = 9; last_escape = 0 })).0 ≡ b'a'
unfolding keyboard_readc pressed keymap has
shifted_locked = refl
