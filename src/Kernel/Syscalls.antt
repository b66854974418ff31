-- ===== src/Kernel/Syscalls.antt =====
-- The system calls that look up a mapping and that switch the pictures of memory.
pub mod MappingWrites
use virtual_memory.Base.{
  ℕ, ◌+◌, ◌-◌, ◌%◌, ◌^◌, bit_and, bit_or, Bool, true, false, not, ◌&&◌, ◌||◌, ltb, ◌==◌,
  if◌then◌else◌,
}
use virtual_memory.Memory.{Memory, byte_of, store8}
use virtual_memory.Paging.{pte_p, pte_w, pte_u}
use virtual_memory.Vm.{Vamapping, is_nonneg, virtual_memory_lookup}
use virtual_memory.Process.{Proc, nproc}
use virtual_memory.Kernel.{Kernel, current_proc, set_proc}

-- `sizeof(vamapping)`
abbrev pub vamapping_size : ℕ
vamapping_size = 24

-- The bytes of a `vamapping`: `pn`, 4 bytes of padding, `pa`, `perm`, 4 bytes of padding. The
-- padding holds what the kernel's stack held.
unfoldable pub vamapping_byte : Vamapping → (padding : ℕ → ℕ) → (i : ℕ) → ℕ
vamapping_byte map padding i =
    if ltb i 4
    then byte_of map.pn i
    else if ltb i 8
    then padding i
    else if ltb i 16
    then byte_of map.pa (i - 8)
    else if ltb i 20
    then byte_of map.perm (i - 16)
    else padding i

-- `memcpy((void *) pa, &map, sizeof(vamapping))`, where the source is no part of `Memory`.
unfoldable pub write_vamapping : Memory → (pa : ℕ) → Vamapping → (padding : ℕ → ℕ) → Memory
write_vamapping m pa map padding a =
    let offset = (a + 2 ^ 64 - pa) % 2 ^ 64 in
    if ltb offset vamapping_size then vamapping_byte map padding offset else m a

-- The second test asks for the page that maps the virtual address with the number `map.pa + 23`.
unfoldable pub syscall_mapping : Memory → Proc → (padding : ℕ → ℕ) → Memory
syscall_mapping m p padding =
    let mapping_ptr = p.p_registers.reg_rdi in
    let ptr = p.p_registers.reg_rsi in
    let map = virtual_memory_lookup m p.p_pagetable mapping_ptr in
    let endaddr = (map.pa + vamapping_size - 1) % 2 ^ 64 in
    let end_map = virtual_memory_lookup m p.p_pagetable endaddr in
    if not (bit_and map.perm (bit_or pte_w pte_u) == bit_or pte_w pte_u)
    then m
    else if not (bit_and end_map.perm (bit_or pte_w pte_p) == bit_or pte_w pte_p)
    then m
    else write_vamapping m map.pa (virtual_memory_lookup m p.p_pagetable ptr) padding

-- The current process's number in `rdi` is truncated to an `int`.
unfoldable pub syscall_mem_tog : Kernel → Kernel
syscall_mem_tog k =
    let process = current_proc k in
    let p = process.p_registers.reg_rdi % 2 ^ 32 in
    if p == 0
    then record k { disp_global = not k.disp_global }
    else if not (is_nonneg p) || ltb nproc p || not (p == process.p_pid)
    then k
    else record k {
      processes =
          set_proc k.processes k.current
            (record process { display_status = not process.display_status });
    }
