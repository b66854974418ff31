-- ===== src/Hardware/Segments.antt =====
-- The segment descriptors and the interrupt descriptor table (k-hardware.c), with the hardware's
-- constants of x86-64.h.
pub mod Gates
use virtual_memory.Base.{
  ℕ, zero, suc, ◌+◌, ◌-◌, ◌*◌, ◌/◌, ◌%◌, ◌^◌, bit_and, bit_or, ◌==◌, if◌then◌else◌,
}
use virtual_memory.Paging.{kernel_stack_top}
use virtual_memory.Process.{segsel_app_code, segsel_app_data}

abbrev pub segsel_kern_code : ℕ
segsel_kern_code = 0x8

abbrev pub segsel_kern_data : ℕ
segsel_kern_data = 0x18

abbrev pub segsel_taskstate : ℕ
segsel_taskstate = 0x28

abbrev pub x86seg_s : ℕ
x86seg_s = 2 ^ 44

abbrev pub x86seg_p : ℕ
x86seg_p = 2 ^ 47

abbrev pub x86seg_l : ℕ
x86seg_l = 2 ^ 53

abbrev pub x86seg_w : ℕ
x86seg_w = 0x2 * 2 ^ 40

abbrev pub x86seg_x : ℕ
x86seg_x = 0x8 * 2 ^ 40

abbrev pub x86seg_tss : ℕ
x86seg_tss = 0x9 * 2 ^ 40

abbrev pub x86gate_interrupt : ℕ
x86gate_interrupt = 0xE * 2 ^ 40

abbrev pub int_gpf : ℕ
int_gpf = 13

abbrev pub int_pagefault : ℕ
int_pagefault = 14

abbrev pub int_timer : ℕ
int_timer = 32

abbrev pub int_sys : ℕ
int_sys = 48

unfoldable pub app_segment : (type dpl : ℕ) → ℕ
app_segment type dpl = bit_or (bit_or (bit_or type x86seg_s) (dpl * 2 ^ 45)) x86seg_p

-- The two words of a system segment's descriptor.
unfoldable pub sys_segment : (type dpl addr size : ℕ) → ℕ × ℕ
sys_segment type dpl addr size =
    let low = bit_and addr 0x0000000000FFFFFF * 2 ^ 16 in
    let high = bit_and addr 0x00000000FF000000 * 2 ^ 32 in
    let limit =
      bit_or (bit_and (size - 1) 0x0FFFF) (bit_and (size - 1) 0xF0000 * 2 ^ 48 % 2 ^ 64) in
    (
      bit_or (bit_or (bit_or (bit_or (bit_or low high) limit) type) (dpl * 2 ^ 45)) x86seg_p,
      addr / 2 ^ 32,
    )

pub record GateDescriptor : Type 0 where
  pub gd_low : ℕ
  pub gd_high : ℕ

unfoldable pub set_gate : (type dpl function : ℕ) → GateDescriptor
set_gate type dpl function = record {
  gd_low =
      bit_or
        (bit_or
          (bit_or
            (bit_or (bit_or (bit_and function 0x000000000000FFFF) (segsel_kern_code * 2 ^ 16)) type)
            (dpl * 2 ^ 45))
          x86seg_p)
        (bit_and function 0x00000000FFFF0000 * 2 ^ 32);
  gd_high = function / 2 ^ 32;
}

-- What the linker provides: the handlers of k-exception.S, and the places of the tables.
pub record Handlers : Type 0 where
  pub sys_int_handlers : ℕ → ℕ
  pub default_int_handler : ℕ
  pub gpf_int_handler : ℕ
  pub pagefault_int_handler : ℕ
  pub timer_int_handler : ℕ
  pub segments_addr : ℕ
  pub interrupt_descriptors_addr : ℕ
  pub kernel_task_descriptor : ℕ

-- The state that `segments_init` sets: the two tables with the limits and bases that are loaded for
-- them, the kernel's stack for interrupts, the task register, and the control register.
pub record Processor : Type 0 where
  pub segments : ℕ → ℕ
  pub interrupt_descriptors : ℕ → GateDescriptor
  pub ts_rsp0 : ℕ
  pub gdt_limit : ℕ
  pub gdt_base : ℕ
  pub idt_limit : ℕ
  pub idt_base : ℕ
  pub task_register : ℕ
  pub cr0 : ℕ

-- The seven words of `segments[]`.
unfoldable pub set_segments : (kernel_task_descriptor : ℕ) (segments : ℕ → ℕ) → ℕ → ℕ
set_segments kernel_task_descriptor segments n =
    let tss = sys_segment x86seg_tss 0 kernel_task_descriptor 96 in
    if n == 0
    then 0
    else if n == segsel_kern_code / 8
    then app_segment (bit_or x86seg_x x86seg_l) 0
    else if n == segsel_app_code / 8
    then app_segment (bit_or x86seg_x x86seg_l) 3
    else if n == segsel_kern_data / 8
    then app_segment x86seg_w 0
    else if n == segsel_app_data / 8
    then app_segment x86seg_w 3
    else if n == segsel_taskstate / 8
    then tss.0
    else if n == segsel_taskstate / 8 + 1
    then tss.1
    else segments n

-- `set_gate(&interrupt_descriptors[i], …)`
unfoldable pub put_gate : (ℕ → GateDescriptor) → (i dpl function : ℕ) → ℕ → GateDescriptor
put_gate gates i dpl function n =
    if n == i then set_gate x86gate_interrupt dpl function else gates n

-- A loop that sets the gates from `i` on, with those left.
unfoldable pub put_gates :
    (ℕ → GateDescriptor) → (handler : ℕ → ℕ) (dpl left i : ℕ) → ℕ → GateDescriptor
put_gates gates handler dpl zero i = gates
put_gates gates handler dpl (suc left) i =
    put_gates (put_gate gates i dpl (handler i)) handler dpl left (i + 1)

abbrev pub no_gate : GateDescriptor
no_gate = record { gd_low = 0; gd_high = 0 }

-- The gates, from the `memset` on.
unfoldable pub set_gates : Handlers → ℕ → GateDescriptor
set_gates h =
    let g1 = put_gates (λ n. no_gate) (λ i. h.default_int_handler) 0 240 16 in
    let g2 = put_gate g1 int_timer 0 h.timer_int_handler in
    let g3 = put_gate g2 int_gpf 0 h.gpf_int_handler in
    let g4 = put_gate g3 int_pagefault 0 h.pagefault_int_handler in
    put_gates g4 (λ i. h.sys_int_handlers (i - int_sys)) 3 16 int_sys

-- `CR0_PE | CR0_PG | CR0_WP | CR0_AM | CR0_MP | CR0_NE`
abbrev pub cr0_bits : ℕ
cr0_bits = bit_or (bit_or (bit_or (bit_or (bit_or 0x1 0x80000000) 0x10000) 0x40000) 0x2) 0x20

unfoldable pub segments_init : Handlers → Processor → Processor
segments_init h cpu = record {
  segments = set_segments h.kernel_task_descriptor cpu.segments;
  interrupt_descriptors = set_gates h;
  ts_rsp0 = kernel_stack_top;
  gdt_limit = 7 * 8 - 1;
  gdt_base = h.segments_addr;
  idt_limit = 256 * 16 - 1;
  idt_base = h.interrupt_descriptors_addr;
  task_register = segsel_taskstate;
  cr0 = bit_or cpu.cr0 cr0_bits;
}
