-- ===== src/Hardware/Segments/Gates.antt =====
-- What the processor reads in the gates that `segments_init` sets.
use virtual_memory.Base.{
  ℕ, zero, suc, ◌+◌, ◌-◌, ◌*◌, ◌/◌, ◌%◌, ◌^◌, bit_and, ◌≤◌, ◌<◌, ◌≡◌, ◌≢◌, refl, false, ◌&&◌, leb,
  ltb, ◌==◌, if◌then◌else◌, arith, Bool, ◌||◌, Bool-cases, inl, inr, ◌⊎◌, ap, sym, ◌∙◌, eq→==,
  ne→==, ==→eq, ==→ne,
}
use virtual_memory.Bits.{bit_and_low, bit_and_high, bit_or_sum_right}
use virtual_memory.Hardware.Segments.{
  GateDescriptor, Handlers, Processor, segments_init, set_gates, set_gate, put_gate, put_gates,
  x86gate_interrupt, no_gate, int_timer, int_gpf, int_pagefault, int_sys,
}

-- The fields of a gate, as the processor's manual lays them out.
abbrev pub gate_offset : GateDescriptor → ℕ
gate_offset g = g.gd_low % 2 ^ 16 + g.gd_low / 2 ^ 48 * 2 ^ 16 + g.gd_high * 2 ^ 32

abbrev pub gate_selector : GateDescriptor → ℕ
gate_selector g = g.gd_low / 2 ^ 16 % 2 ^ 16

abbrev pub gate_type : GateDescriptor → ℕ
gate_type g = g.gd_low / 2 ^ 40 % 2 ^ 5

abbrev pub gate_dpl : GateDescriptor → ℕ
gate_dpl g = g.gd_low / 2 ^ 45 % 4

abbrev pub gate_present : GateDescriptor → ℕ
gate_present g = g.gd_low / 2 ^ 47 % 2

high_bits :
    (function : ℕ)
    → bit_and function 0x00000000FFFF0000 * 2 ^ 32 ≡ function / 2 ^ 16 % 2 ^ 16 * 2 ^ 48
high_bits function =
    omega (arith, bit_and_high 16 function 0xFFFF, bit_and_low 16 (function / 2 ^ 16))

set_gate_low :
    (dpl function : ℕ)
    → dpl < 4
    → (set_gate x86gate_interrupt dpl function).gd_low
      ≡ function % 2 ^ 16
        + 8 * 2 ^ 16
        + 0xE * 2 ^ 40
        + dpl * 2 ^ 45
        + 2 ^ 47
        + function / 2 ^ 16 % 2 ^ 16 * 2 ^ 48
unfolding set_gate
set_gate_low dpl function h =
    let f = function % 2 ^ 16 in
    let s1 = bit_or_sum_right 16 8 f (omega arith) in
    let s2 = bit_or_sum_right 40 0xE (8 * 2 ^ 16 + f) (omega arith) in
    let s3 = bit_or_sum_right 45 dpl (0xE * 2 ^ 40 + (8 * 2 ^ 16 + f)) (omega arith) in
    let s4 =
      bit_or_sum_right 47 1 (dpl * 2 ^ 45 + (0xE * 2 ^ 40 + (8 * 2 ^ 16 + f))) (omega arith) in
    let s5 =
      bit_or_sum_right 48 (function / 2 ^ 16 % 2 ^ 16)
        (1 * 2 ^ 47 + (dpl * 2 ^ 45 + (0xE * 2 ^ 40 + (8 * 2 ^ 16 + f)))) (omega arith) in
    rw (bit_and_low 16 function, s1, s2, s3, s4, high_bits function, s5) (omega arith)

-- The fields that `set_gate` fills, read back.
set_gate_fields :
    (dpl function : ℕ)
    → dpl < 4
    → let g = set_gate x86gate_interrupt dpl function in
      (gate_offset g ≡ function)
      × (gate_selector g ≡ 8)
      × (gate_type g ≡ 0xE)
      × (gate_dpl g ≡ dpl)
      × (gate_present g ≡ 1)
unfolding set_gate
set_gate_fields dpl function h =
    let low = set_gate_low dpl function h in
    (
      omega (arith, low),
      omega (arith, low),
      omega (arith, low),
      omega (arith, low),
      omega (arith, low),
    )

put_gate_here :
    (gates : ℕ → GateDescriptor) (i dpl function n : ℕ)
    → n ≡ i
    → put_gate gates i dpl function n ≡ set_gate x86gate_interrupt dpl function
unfolding put_gate
put_gate_here gates i dpl function n e = rw (eq→== n i e) refl

put_gate_other :
    (gates : ℕ → GateDescriptor) (i dpl function n : ℕ)
    → n ≢ i
    → put_gate gates i dpl function n ≡ gates n
unfolding put_gate
put_gate_other gates i dpl function n ne = rw (ne→== n i ne) refl

put_gates_outside :
    (gates : ℕ → GateDescriptor) (handler : ℕ → ℕ) (dpl left i n : ℕ)
    → (n < i) ⊎ (i + left ≤ n)
    → put_gates gates handler dpl left i n ≡ gates n
unfolding put_gates
put_gates_outside gates handler dpl zero i n h = refl
put_gates_outside gates handler dpl (suc left) i n h =
    put_gates_outside (put_gate gates i dpl (handler i)) handler dpl left (i + 1) n
      (elim h [ inl l ↦ inl (omega arith) | inr r ↦ inr (omega arith) ])
    ∙ put_gate_other gates i dpl (handler i) n
        (elim h [ inl l ↦ λ e. omega arith | inr r ↦ λ e. omega arith ])

put_gates_inside :
    (gates : ℕ → GateDescriptor) (handler : ℕ → ℕ) (dpl left i n : ℕ)
    → i ≤ n
    → n < i + left
    → put_gates gates handler dpl left i n ≡ set_gate x86gate_interrupt dpl (handler n)
unfolding put_gates
put_gates_inside gates handler dpl zero i n h h' = absurd (omega arith)
put_gates_inside gates handler dpl (suc left) i n h h' = elim (Bool-cases (n == i)) [
  | inl e ↦
      let eq = ==→eq n i e in
      put_gates_outside (put_gate gates i dpl (handler i)) handler dpl left (i + 1) n
        (inl (omega arith))
      ∙ put_gate_here gates i dpl (handler i) n eq
      ∙ ap (λ x. set_gate x86gate_interrupt dpl (handler x)) (sym eq)
  | inr e ↦
      let ne = ==→ne n i e in
      put_gates_inside (put_gate gates i dpl (handler i)) handler dpl left (i + 1) n (omega arith)
        (omega arith)
]

-- Which vectors have a handler, and which one.
abbrev pub is_handled : ℕ → Bool
is_handled n = leb 16 n || (n == 13) || (n == 14)

abbrev pub is_system_call : ℕ → Bool
is_system_call n = leb 48 n && ltb n 64

abbrev pub handler_of : Handlers → ℕ → ℕ
handler_of h n =
    if n == 13
    then h.gpf_int_handler
    else if n == 14
    then h.pagefault_int_handler
    else if n == 32
    then h.timer_int_handler
    else if is_system_call n
    then h.sys_int_handlers (n - 48)
    else h.default_int_handler

module _ (h : Handlers) where
  first_gates :
      (n : ℕ)
      → n < 256
      → is_system_call n ≡ false
      → (n == 14) ≡ false
      → (n == 13) ≡ false
      → put_gate
          (put_gates (λ m. no_gate) (λ i. h.default_int_handler) 0 240 16)
          int_timer
          0
          h.timer_int_handler
          n
        ≡ (if is_handled n
            then set_gate x86gate_interrupt (if is_system_call n then 3 else 0) (handler_of h n)
            else no_gate)
  first_gates n lt other no_fault no_fault' =
      let g1 = put_gates (λ m. no_gate) (λ i. h.default_int_handler) 0 240 16 in
      elim (Bool-cases (n == 32)) [
        | inl timer ↦ put_gate_here g1 32 0 h.timer_int_handler n (ground arith) ∙ ground arith
        | inr no_timer ↦
            put_gate_other g1 32 0 h.timer_int_handler n (ground arith)
            ∙ elim (Bool-cases (leb 16 n)) [
              | inl le ↦
                  put_gates_inside (λ m. no_gate) (λ i. h.default_int_handler) 0 240 16 n
                    (ground arith) (ground arith)
                  ∙ ground arith
              | inr lt' ↦
                  put_gates_outside (λ m. no_gate) (λ i. h.default_int_handler) 0 240 16 n
                    (ground arith)
                  ∙ ground arith
            ]
      ]

-- The gate for each vector, before it is taken apart.
set_gates_at :
    (h : Handlers) (n : ℕ)
    → n < 256
    → set_gates h n ≡ (
        if is_handled n
        then set_gate x86gate_interrupt (if is_system_call n then 3 else 0) (handler_of h n)
        else no_gate)
unfolding set_gates
set_gates_at h n lt =
    let g1 = put_gates (λ m. no_gate) (λ i. h.default_int_handler) 0 240 16 in
    let g2 = put_gate g1 int_timer 0 h.timer_int_handler in
    let g3 = put_gate g2 int_gpf 0 h.gpf_int_handler in
    let g4 = put_gate g3 int_pagefault 0 h.pagefault_int_handler in
    let system : ℕ → ℕ = λ i. h.sys_int_handlers (i - int_sys) in
    elim (Bool-cases (is_system_call n)) [
      | inl is ↦ put_gates_inside g4 system 3 16 48 n (ground arith) (ground arith) ∙ ground arith
      | inr other ↦
          put_gates_outside g4 system 3 16 48 n (ground arith) ∙ elim (Bool-cases (n == 14)) [
            | inl fault ↦
                put_gate_here g3 14 0 h.pagefault_int_handler n (ground arith) ∙ ground arith
            | inr no_fault ↦
                put_gate_other g3 14 0 h.pagefault_int_handler n (ground arith)
                ∙ elim (Bool-cases (n == 13)) [
                  | inl fault ↦
                      put_gate_here g2 13 0 h.gpf_int_handler n (ground arith) ∙ ground arith
                  | inr no_fault' ↦
                      put_gate_other g2 13 0 h.gpf_int_handler n (ground arith)
                      ∙ first_gates h n lt other no_fault no_fault'
                ]
          ]
    ]

-- Every gate of the table that `segments_init` loads: a vector from 16 on, and those of the two
-- faults 13 and 14, lead with the kernel's code segment to the vector's own handler, as an
-- interrupt gate that is present; the other vectors have no gate. A program can raise only the 16
-- vectors of the system calls itself, since their gates alone have privilege level 3.
pub segments_init_gates :
    (h : Handlers) (cpu : Processor) (n : ℕ)
    → n < 256
    → let g = (segments_init h cpu).interrupt_descriptors n in
      (gate_offset g ≡ (if is_handled n then handler_of h n else 0))
      × (gate_selector g ≡ (if is_handled n then 8 else 0))
      × (gate_type g ≡ (if is_handled n then 0xE else 0))
      × (gate_dpl g ≡ (if is_system_call n then 3 else 0))
      × (gate_present g ≡ (if is_handled n then 1 else 0))
unfolding segments_init
segments_init_gates h cpu n lt = elim (Bool-cases (is_handled n)) [
  | inl is ↦
      rw (set_gates_at h n lt, is)
        (set_gate_fields (if is_system_call n then 3 else 0) (handler_of h n) (ground arith))
  | inr other ↦ rw (set_gates_at h n lt, other) (refl, refl, refl, ground arith, refl)
]
