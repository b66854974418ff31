-- ===== src/Vm/Errors.antt =====
-- When `virtual_memory_map` stops the machine, and when it returns -1.
use virtual_memory.Base.{
  ℕ, suc, ◌+◌, ◌*◌, ◌/◌, ◌%◌, ◌^◌, ◌≤◌, ◌<◌, ◌≡◌, refl, ◌≢◌, ◌⊎◌, inl, inr, arith, Outcome, ok,
  panicked, ne→==,
}
use virtual_memory.Memory.{Memory}
use virtual_memory.Paging.Flags.{has_p}
use virtual_memory.Vm.{
  map_loop, map_checks, map_entry, no_table, index123, minus_one, virtual_memory_map,
  lookup_l4pagetable,
}
use virtual_memory.Vm.Spaces.{checks_pass, map_checks_meet}

Outcome-cases : (r : Outcome (Unit {0})) → (r ≡ ok tt) ⊎ (r ≡ panicked)
Outcome-cases (ok a) = inl refl
Outcome-cases panicked = inr refl

-- With an aligned page table and ranges that do not wrap at 2^64, `virtual_memory_map` stops the
-- machine when the virtual address or the size is not a multiple of the page size, when the
-- permissions do not fit 12 bits, and when present pages are to be mapped to a physical address
-- that is not page-aligned or to memory that does not exist.
pub virtual_memory_map-panicked :
    (m : Memory) (pagetable va pa sz perm : ℕ)
    → pagetable % 4096 ≡ 0
    → va + sz < 2 ^ 64
    → pa + sz < 2 ^ 64
    → (va % 4096 ≢ 0)
      ⊎ (sz % 4096 ≢ 0)
      ⊎ (0x1000 ≤ perm)
      ⊎ ((perm % 2 ≡ 1) × (pa % 4096 ≢ 0))
      ⊎ ((perm % 2 ≡ 1) × (0x200000 < pa + sz))
    → virtual_memory_map m pagetable va pa sz perm ≡ panicked
unfolding virtual_memory_map
virtual_memory_map-panicked m pagetable va pa sz perm aligned h k bad =
    elim (Outcome-cases (map_checks pagetable va pa sz perm)) [
      | inl e ↦ absurd (ground (arith, map_checks_meet pagetable va pa sz perm aligned h k e))
      | inr e ↦ rw e refl
    ]

no_table_round :
    (m : Memory) (va pa perm : ℕ) → perm % 2 ≡ 1 → map_entry m va pa perm 0 ≡ no_table m
unfolding map_entry
no_table_round m va pa perm h = ground (arith, has_p perm)

map_loop_no_table :
    (m : Memory) (pagetable va pa perm n : ℕ)
    → perm % 2 ≡ 1
    → va / 2 ^ 21 % 2 ^ 32 ≢ minus_one
    → lookup_l4pagetable m pagetable va perm ≡ ok 0
    → map_loop m pagetable (suc n) va pa perm minus_one 0 ≡ ok (minus_one, m)
unfolding map_loop
map_loop_no_table m pagetable va pa perm n h ne e =
    rw (ne→== (index123 va) minus_one ne, e) (rw (no_table_round m va pa perm h) refl)

-- For arguments that pass its assertions, with `P`, at least one page and a range below 2^52,
-- `virtual_memory_map` returns -1 and changes nothing when the walk to the first page's last-level
-- table ends at an entry that is not present.
pub virtual_memory_map-no_table :
    (m : Memory) (pagetable va pa n perm : ℕ)
    → pagetable % 4096 ≡ 0
    → va % 4096 ≡ 0
    → va + suc n * 4096 < 2 ^ 52
    → perm % 2 ≡ 1
    → perm < 0x1000
    → pa % 4096 ≡ 0
    → pa + suc n * 4096 ≤ 0x200000
    → lookup_l4pagetable m pagetable va perm ≡ ok 0
    → virtual_memory_map m pagetable va pa (suc n * 4096) perm ≡ ok (minus_one, m)
unfolding virtual_memory_map
virtual_memory_map-no_table m pagetable va pa n perm ha hv hs hp hperm hpa hend e =
    let rounds : suc n * 4096 / 4096 ≡ suc n = omega arith in
    rw
      (checks_pass pagetable va pa (suc n * 4096) perm ha hv (omega arith) (omega arith) hperm
        (λ _. hpa) (λ _. hend))
      (rw rounds (map_loop_no_table m pagetable va pa perm n hp (omega arith) e))
