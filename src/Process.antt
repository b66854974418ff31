-- ===== src/Process.antt =====
-- Process descriptors (kernel.h), the saved registers (x86-64.h) and `process_init` of
-- k-hardware.c. Registers hold 64-bit patterns, segment selectors 16-bit ones.
pub mod Init
use virtual_memory.Base.{ℕ, bit_and, bit_or, Bool, false, if◌then◌else◌}
use virtual_memory.Paging.{has}

pub data ProcState : Type 0 where
  free runnable blocked broken : ProcState

abbrev pub nproc : ℕ
nproc = 16

-- The struct's padding is left out.
pub record Registers : Type 0 where
  pub reg_rax : ℕ
  pub reg_rcx : ℕ
  pub reg_rdx : ℕ
  pub reg_rbx : ℕ
  pub reg_rbp : ℕ
  pub reg_rsi : ℕ
  pub reg_rdi : ℕ
  pub reg_r8 : ℕ
  pub reg_r9 : ℕ
  pub reg_r10 : ℕ
  pub reg_r11 : ℕ
  pub reg_r12 : ℕ
  pub reg_r13 : ℕ
  pub reg_r14 : ℕ
  pub reg_r15 : ℕ
  pub reg_fs : ℕ
  pub reg_gs : ℕ
  pub reg_intno : ℕ
  pub reg_err : ℕ
  pub reg_rip : ℕ
  pub reg_cs : ℕ
  pub reg_rflags : ℕ
  pub reg_rsp : ℕ
  pub reg_ss : ℕ

-- `memset(&p->p_registers, 0, sizeof(p->p_registers))`
abbrev pub zero_registers : Registers
zero_registers = record {
  reg_rax = 0;
  reg_rcx = 0;
  reg_rdx = 0;
  reg_rbx = 0;
  reg_rbp = 0;
  reg_rsi = 0;
  reg_rdi = 0;
  reg_r8 = 0;
  reg_r9 = 0;
  reg_r10 = 0;
  reg_r11 = 0;
  reg_r12 = 0;
  reg_r13 = 0;
  reg_r14 = 0;
  reg_r15 = 0;
  reg_fs = 0;
  reg_gs = 0;
  reg_intno = 0;
  reg_err = 0;
  reg_rip = 0;
  reg_cs = 0;
  reg_rflags = 0;
  reg_rsp = 0;
  reg_ss = 0;
}

-- `display_status` is a flag that the code only negates.
pub record Proc : Type 0 where
  pub p_pid : ℕ
  pub p_registers : Registers
  pub p_state : ProcState
  pub p_pagetable : ℕ
  pub display_status : Bool

abbrev pub is_runnable : ProcState → Bool
is_runnable s = elim s [ ProcState.runnable ↦ Bool.true | _ ↦ false ]

abbrev pub is_free : ProcState → Bool
is_free s = elim s [ ProcState.free ↦ Bool.true | _ ↦ false ]

abbrev pub segsel_app_code : ℕ
segsel_app_code = 0x10

abbrev pub segsel_app_data : ℕ
segsel_app_data = 0x20

abbrev pub eflags_if : ℕ
eflags_if = 0x200

abbrev pub eflags_iopl_3 : ℕ
eflags_iopl_3 = 0x3000

-- `reg_rflags` after the two tests of `flags`
pub initial_rflags : ℕ → ℕ
initial_rflags flags =
    let io = if has flags 1 then bit_or eflags_if eflags_iopl_3 else eflags_if in
    if has flags 2 then bit_and io 0xFFFFFFFFFFFFFDFF else io

pub process_init : Proc → (flags : ℕ) → Proc
process_init p flags = record p {
  p_registers = record zero_registers {
    reg_cs = bit_or segsel_app_code 3;
    reg_fs = bit_or segsel_app_data 3;
    reg_gs = bit_or segsel_app_data 3;
    reg_ss = bit_or segsel_app_data 3;
    reg_rflags = initial_rflags flags;
  };
}
