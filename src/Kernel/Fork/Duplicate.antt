-- ===== src/Kernel/Fork/Duplicate.antt =====
-- `duplicate_pagetable` gives the new process five fresh pages and the parent's view of the first
-- megabyte.
use virtual_memory.Base.{
  ℕ, zero, suc, ◌+◌, ◌*◌, ◌%◌, ◌≤◌, ◌<◌, ◌≡◌, refl, ltb, if◌then◌else◌, arith, ap, sym, ◌∙◌, ok,
}
use mathlib.Core.Path.{subst, ap₂}
use virtual_memory.Memory.{Memory}
use virtual_memory.Memory.Words.{IsBytes}
use virtual_memory.Vm.{Tables, Vamapping, virtual_memory_lookup}
use virtual_memory.Vm.Layout.{AreTables, Connected, mapping_of, lookup-Connected}
use virtual_memory.Vm.Slots.{OutsideL4}
use virtual_memory.Vm.Isolation.{Separate, other_Connected, other_slot}
use virtual_memory.Kernel.Fork.{copy_mappings}
use virtual_memory.Kernel.Fork.CopyPage.{copy_page, same_page}

module _ (t u : Tables) (ts : AreTables t) (us : AreTables u) (sep : Separate u t) (m0 : Memory)
    (ct : Connected m0 t) (bytes : IsBytes m0)
    (exists : (va : ℕ)
      → va < 0x100000
      → (virtual_memory_lookup m0 t.l1 va).perm % 2 ≡ 1
      → (virtual_memory_lookup m0 t.l1 va).pa < 0x200000) where
  -- Only last-level entries of `u` change, so all lookups in `t` stay.
  pub parent_lookup :
      (m : Memory)
      → ((x : ℕ) → OutsideL4 u x → m x ≡ m0 x)
      → IsBytes m
      → (b : ℕ) → b < 0x400000
      → virtual_memory_lookup m t.l1 b ≡ virtual_memory_lookup m0 t.l1 b
  parent_lookup m out bm b hb =
      lookup-Connected m t ts (other_Connected u us m0 m out t ts sep ct) bm b hb
      ∙ ap (mapping_of b) (other_slot u us m0 m out t ts sep b)
      ∙ sym (lookup-Connected m0 t ts ct bytes b hb)

  -- `m` is `m0` with the mappings below `va` copied from `t` to `u`.
  pub record Copied (old : ℕ → Vamapping) (va : ℕ) (m : Memory) : Type 0 where
    pub child : Connected m u
    pub bytes' : IsBytes m
    pub outside : (x : ℕ) → OutsideL4 u x → m x ≡ m0 x
    pub copied :
        (b : ℕ)
        → b < 0x400000
        → virtual_memory_lookup m u.l1 b
          ≡ (if ltb b va then virtual_memory_lookup m0 t.l1 b else old b)

  Copied-eq :
      (old : ℕ → Vamapping) (va va' : ℕ) (m : Memory)
      → va ≡ va'
      → Copied old va m
      → Copied old va' m
  Copied-eq old va va' m e c = subst (λ x. Copied old x m) e c

  copied_next :
      (old : ℕ → Vamapping) (va b : ℕ)
      → va % 4096 ≡ 0
      → (if same_page b va
          then virtual_memory_lookup m0 t.l1 b
          else if ltb b va
          then virtual_memory_lookup m0 t.l1 b
          else old b)
        ≡ (if ltb b (va + 4096) then virtual_memory_lookup m0 t.l1 b else old b)
  copied_next old va b h = ground arith

  pub copy_mappings-Copied :
      (old : ℕ → Vamapping) (left va : ℕ) (m : Memory)
      → va % 4096 ≡ 0
      → va + left * 4096 ≤ 0x100000
      → Copied old va m
      → (m' : Memory) × (copy_mappings m t.l1 u.l1 left va ≡ ok m')
        × Copied old (va + left * 4096) m'
  unfolding copy_mappings
  copy_mappings-Copied old zero va m h1 h2 c =
      (m, refl, Copied-eq old va (va + 0 * 4096) m (omega arith) c)
  copy_mappings-Copied old (suc left) va m h1 h2 c =
      let same = parent_lookup m c.outside c.bytes' in
      let r =
        copy_page t u ts us sep m (other_Connected u us m0 m c.outside t ts sep ct) c.child c.bytes'
          va h1 (omega arith) (rw (same va (omega arith)) (exists va (omega arith))) in
      let next : Copied old (va + 4096) r.0 = record {
        child = r.2.conn;
        bytes' = r.2.bytes c.bytes';
        outside = λ x o. r.2.outside x o ∙ c.outside x o;
        copied = λ b hb.
            r.3 b hb
            ∙ ap₂ (λ x y. if same_page b va then x else y) (same b hb) (c.copied b hb)
            ∙ copied_next old va b h1;
      } in
      let rest = copy_mappings-Copied old left (va + 4096) r.0 (omega arith) (omega arith) next in
      (rest.0, rw r.1 rest.1, Copied-eq old _ _ rest.0 (omega arith) rest.2)
