-- ===== src/Kernel/Fork/ForkPage.antt =====
-- What fork does with one page of application memory.
use virtual_memory.Base.{
  ℕ, ◌+◌, ◌-◌, ◌*◌, ◌/◌, ◌%◌, ◌≤◌, ◌<◌, ◌≡◌, refl, ◌≢◌, ◌⊎◌, true, false, not, ◌&&◌, arith, ap, sym,
  ◌∙◌, ◌==◌, if◌then◌else◌, ok,
}
use virtual_memory.Memory.{Memory, load64, memcpy}
use virtual_memory.Memory.Words.{IsBytes}
use virtual_memory.Memory.Copy.{memcpy_lem, memcpy-IsBytes}
use virtual_memory.Paging.{has, pte_w, console_addr}
use virtual_memory.Paging.Flags.{has_w}
use virtual_memory.Vm.{Tables, Vamapping, virtual_memory_lookup}
use virtual_memory.Vm.Layout.{AreTables, Connected, slot, mapping_of, lookup-Connected}
use virtual_memory.Vm.Slots.{OutsideL4}
use virtual_memory.Vm.Frames.{InTables, frame-Connected, frame_lookup}
use virtual_memory.Vm.Isolation.{Separate, other_Connected, other_slot}
use virtual_memory.Vm.Spaces.{CanMap, mapped, virtual_memory_map-Maps, Maps-lookup}
use virtual_memory.Pages.{PageInfos, set_page}
use virtual_memory.Pages.Assign.{IsFree, alloc_page_process_lowest}
use virtual_memory.Pages.SysAlloc.{taken_by}
use virtual_memory.Kernel.Fork.{increment, fork_page}
use virtual_memory.Kernel.Fork.CopyPage.{copy_page, same_page}
use virtual_memory.Kernel.Fork.Copying.{InUse, used_apart}

-- A page of a table in use is not the free page `p`.
pub tables_apart :
    (pages : PageInfos) (t : Tables) (p x : ℕ)
    → AreTables t
    → InUse pages t
    → (pages p).refcount ≡ 0
    → InTables t x
    → (x < p * 4096) ⊎ (p * 4096 + 4096 ≤ x)
tables_apart pages t p x ts used free inside =
    let n1 = used_apart pages t.l1 p free used.l1_used in
    let n2 = used_apart pages t.l2 p free used.l2_used in
    let n3 = used_apart pages t.l3 p free used.l3_used in
    let n4 = used_apart pages t.l4_1 p free used.l4_1_used in
    let n5 = used_apart pages t.l4_2 p free used.l4_2_used in omega (arith, ts, inside)

pub memcpy_outside :
    (m : Memory) (p src x : ℕ)
    → (p ≤ src) ⊎ (src + 4096 ≤ p)
    → (x < p) ⊎ (p + 4096 ≤ x)
    → memcpy m p src 4096 x ≡ m x
memcpy_outside m p src x h k = ground (arith, memcpy_lem m p src 4096 x h)

pub memcpy_inside :
    (m : Memory) (p src k : ℕ)
    → IsBytes m
    → (p ≤ src) ⊎ (src + 4096 ≤ p)
    → k < 4096
    → memcpy m p src 4096 (p + k) ≡ m (src + k)
memcpy_inside m p src k bytes h hk =
    ground (arith, memcpy_lem m p src 4096 (p + k) h, bytes (src + k), ap m (shift p src k))
  where
    shift : (x y z : ℕ) → y + (x + z - x) ≡ y + z
    shift x y z = omega arith

-- The memory after the page has been copied to the free page `p`.
module _ (m : Memory) (pages : PageInfos) (t : Tables) (ts : AreTables t) (used : InUse pages t)
    (ct : Connected m t) (bytes : IsBytes m) (p src : ℕ) (free : (pages p).refcount ≡ 0)
    (apart : (p * 4096 ≤ src) ⊎ (src + 4096 ≤ p * 4096)) where
  abbrev pub copied_to : Memory
  copied_to = memcpy m (p * 4096) src 4096

  unseen : (x : ℕ) → InTables t x → copied_to x ≡ m x
  unseen x inside =
      memcpy_outside m (p * 4096) src x apart (tables_apart pages t p x ts used free inside)

  pub copied-Connected : Connected copied_to t
  copied-Connected = frame-Connected t m copied_to unseen ct

  pub copied_lookup :
      (b : ℕ)
      → b < 0x400000
      → virtual_memory_lookup copied_to t.l1 b ≡ virtual_memory_lookup m t.l1 b
  copied_lookup =
      frame_lookup t m copied_to unseen ts ct bytes (memcpy-IsBytes m (p * 4096) src 4096 bytes)

pub shown-perm : (b e : ℕ) → (mapping_of b e).perm < 0x1000
shown-perm b e = ground arith

pub shown-aligned :
    (b e : ℕ) → b % 4096 ≡ 0 → (mapping_of b e).perm % 2 ≡ 1 → (mapping_of b e).pa % 4096 ≡ 0
shown-aligned b e h p = ground arith

pub is_copied :
    (w : Vamapping)
    → w.pa ≢ console_addr
    → w.perm / 2 % 2 ≡ 1
    → (not (w.pa == console_addr) && has w.perm pte_w) ≡ true
is_copied w h k = ground (arith, has_w w.perm)

mapped_old :
    (va pa perm b : ℕ) (old new : ℕ → Vamapping)
    → old b ≡ new b
    → mapped va pa 4096 perm old b ≡ mapped va pa 4096 perm new b
mapped_old va pa perm b old new e = rw e refl

-- Stores to the last-level tables of `u` are not seen through `t`.
pub other_lookup :
    (u t : Tables)
    → AreTables u
    → AreTables t
    → Separate u t
    → (m m' : Memory) → ((x : ℕ) → OutsideL4 u x → m' x ≡ m x)
    → Connected m t
    → IsBytes m
    → IsBytes m'
    → (b : ℕ) → b < 0x400000
    → virtual_memory_lookup m' t.l1 b ≡ virtual_memory_lookup m t.l1 b
other_lookup u t us ts sep m m' same ct bytes bytes' b h =
    lookup-Connected m' t ts (other_Connected u us m m' same t ts sep ct) bytes' b h
    ∙ ap (mapping_of b) (other_slot u us m m' same t ts sep b)
    ∙ sym (lookup-Connected m t ts ct bytes b h)

-- Let parent and child have connected page tables of the kernel's shape on pages in use, no page of
-- the parent's being a last-level page of the child's. For a page below 4 MB that the parent has
-- mapped with `P` and `W` to memory other than the console, and while a page behind page 0 is free,
-- fork's loop body takes the lowest free page for the child and maps it there with the parent's
-- permissions. The new page holds a copy of the parent's page. Any other lookup below 4 MB through
-- the child's page table, and every one through the parent's, is as before.
pub fork_page_private :
    (m : Memory) (pages : PageInfos) (t u : Tables) (pid v q b k : ℕ)
    → AreTables t
    → AreTables u
    → Separate u t
    → Connected m t
    → Connected m u
    → IsBytes m
    → InUse pages t
    → InUse pages u
    → IsFree pages q
    → v % 4096 ≡ 0
    → v + 4096 ≤ 0x400000
    → (virtual_memory_lookup m t.l1 v).perm % 2 ≡ 1
    → (virtual_memory_lookup m t.l1 v).perm / 2 % 2 ≡ 1
    → (virtual_memory_lookup m t.l1 v).pa ≢ console_addr
    → b < 0x400000
    → k < 4096
    → let w = virtual_memory_lookup m t.l1 v in
      (p : ℕ) × (m' : Memory) × IsFree pages p
      × (p ≤ q)
      × (fork_page m pages t.l1 u.l1 pid v ≡ ok (set_page pages p (taken_by pid), m'))
      × (virtual_memory_lookup m' u.l1 b
          ≡ mapped v (p * 4096) 4096 w.perm (virtual_memory_lookup m u.l1) b)
      × (virtual_memory_lookup m' t.l1 b ≡ virtual_memory_lookup m t.l1 b)
      × (m' (p * 4096 + k) ≡ m (w.pa + k))
unfolding fork_page
fork_page_private m pages t u pid v q b k ts us sep ct cu bytes used_t used_u free hv hend present
      writable not_console hb hk =
    let w = virtual_memory_lookup m t.l1 v in
    let shown : w ≡ mapping_of v (load64 m (slot t v)) =
      lookup-Connected m t ts ct bytes v (omega arith) in
    let small : w.perm < 0x1000 = rw shown (shown-perm v (load64 m (slot t v))) in
    let aligned : w.pa % 4096 ≡ 0 =
      rw shown (shown-aligned v (load64 m (slot t v)) hv (rw shown at present)) in
    let a = alloc_page_process_lowest pages pid q free in
    let p = a.0 in
    let apart : (p * 4096 ≤ w.pa) ⊎ (w.pa + 4096 ≤ p * 4096) = ground arith in
    let m1 = memcpy m (p * 4096) w.pa 4096 in
    let bytes1 = memcpy-IsBytes m (p * 4096) w.pa 4096 bytes in
    let cu1 = copied-Connected m pages u us used_u cu bytes p w.pa a.1.2 apart in
    let ct1 = copied-Connected m pages t ts used_t ct bytes p w.pa a.1.2 apart in
    let can : CanMap v (p * 4096) 4096 w.perm = omega (arith, a.1) in
    let r = virtual_memory_map-Maps u us m1 cu1 v (p * 4096) 4096 w.perm can in
    let n4 = used_apart pages u.l4_1 p a.1.2 used_u.l4_1_used in
    let n5 = used_apart pages u.l4_2 p a.1.2 used_u.l4_2_used in
    (
      p,
      r.0,
      a.1,
      a.2,
      rw (is_copied w not_console writable, a.3) (rw r.1 refl),
      Maps-lookup u us m1 cu1 bytes1 v (p * 4096) 4096 w.perm r.0 can r.2 b hb
          ∙ mapped_old v (p * 4096) w.perm b (virtual_memory_lookup m1 u.l1)
              (virtual_memory_lookup m u.l1)
              (copied_lookup m pages u us used_u cu bytes p w.pa a.1.2 apart b hb),
      other_lookup u t us ts sep m1 r.0 r.2.outside ct1 bytes1 (r.2.bytes bytes1) b hb
          ∙ copied_lookup m pages t ts used_t ct bytes p w.pa a.1.2 apart b hb,
      r.2.outside (p * 4096 + k) (omega (arith, us))
          ∙ memcpy_inside m (p * 4096) w.pa k bytes apart hk,
    )

pub is_shared :
    (w : Vamapping)
    → (w.pa ≡ console_addr) ⊎ (w.perm / 2 % 2 ≡ 0)
    → (not (w.pa == console_addr) && has w.perm pte_w) ≡ false
is_shared w h = ground (arith, has_w w.perm)

-- Let parent and child have connected page tables of the kernel's shape, no page of the parent's
-- being a last-level page of the child's. For a page below 4 MB that is the console, or that the
-- parent has not mapped with `W`, and that is mapped to existing memory if at all, fork's loop body
-- gives the child the parent's mapping of that page and adds one reference, in 8 bits, to the entry
-- of the page number that the lookup gave. Any other lookup below 4 MB through the child's page
-- table, and every one through the parent's, is as before.
pub fork_page_shared :
    (m : Memory) (pages : PageInfos) (t u : Tables) (pid v b : ℕ)
    → AreTables t
    → AreTables u
    → Separate u t
    → Connected m t
    → Connected m u
    → IsBytes m
    → v % 4096 ≡ 0
    → v + 4096 ≤ 0x400000
    → ((virtual_memory_lookup m t.l1 v).perm % 2 ≡ 1
        → (virtual_memory_lookup m t.l1 v).pa < 0x200000)
    → ((virtual_memory_lookup m t.l1 v).pa ≡ console_addr)
      ⊎ ((virtual_memory_lookup m t.l1 v).perm / 2 % 2 ≡ 0)
    → b < 0x400000
    → (m' : Memory) × (fork_page m pages t.l1 u.l1 pid v
        ≡ ok (increment pages (virtual_memory_lookup m t.l1 v).pn, m'))
      × (virtual_memory_lookup m' u.l1 b ≡ (
          if same_page b v then virtual_memory_lookup m t.l1 b else virtual_memory_lookup m u.l1 b))
      × (virtual_memory_lookup m' t.l1 b ≡ virtual_memory_lookup m t.l1 b)
unfolding fork_page
fork_page_shared m pages t u pid v b ts us sep ct cu bytes hv hend exists shared hb =
    let r = copy_page t u ts us sep m ct cu bytes v hv hend exists in
    (
      r.0,
      rw (is_shared (virtual_memory_lookup m t.l1 v) shared) (rw r.1 refl),
      r.3 b hb,
      other_lookup u t us ts sep m r.0 r.2.outside ct bytes (r.2.bytes bytes) b hb,
    )
