-- ===== src/Tests/ForkingTests.antt =====
-- The fork system call for a process with a page that it can write and one that it can only read.
use virtual_memory.Base.{
  ℕ, zero, suc, ◌+◌, ◌-◌, ◌*◌, ◌/◌, ◌%◌, ◌≤◌, ◌<◌, ◌≡◌, refl, inl, inr, arith, ap, ◌∙◌, ltb, leb,
  ◌==◌, if◌then◌else◌, Bool-cases, true, false, ok, some,
}
use virtual_memory.Memory.{Memory, load64, store64}
use virtual_memory.Memory.Words.{
  IsBytes, store64-IsBytes, load64-store64_self, load64-store64_ne, store64_ne,
}
use virtual_memory.Paging.{has}
use virtual_memory.Vm.{Tables}
use virtual_memory.Vm.Layout.{Connected, slot, mapping_of, lookup-Connected}
use virtual_memory.Vm.Slots.{Connected-frame}
use virtual_memory.Pages.{PageInfos}
use virtual_memory.Process.{ProcState, nproc}
use virtual_memory.Kernel.{Kernel}
use virtual_memory.Kernel.Fork.{fork, find_free_pid}
use virtual_memory.Kernel.Fork.FreePages.{free_pages}
use virtual_memory.Kernel.Fork.Rounds.{copies}
use virtual_memory.Kernel.Fork.Pages.{copied_pages, IsShared}
use virtual_memory.Kernel.Fork.Whole.{view, CanFork, HasForked}
use virtual_memory.Kernel.Fork.Succeeds.{fork_copies}
use virtual_memory.Tests.Machines.{t1, t1-AreTables}
use virtual_memory.Tests.ExitTests.{
  running, one_app_page, one_app_page-IsBytes, one_app_page-Connected, one_app_page-slot,
}
use virtual_memory.Tests.KernelTests.{in_state}

-- Page 0x181 is mapped behind 1 MB, without `W`.
two_app_pages : Memory
two_app_pages = store64 one_app_page 0x4808 0x181005

two_app_pages-IsBytes : IsBytes two_app_pages
unfolding two_app_pages
two_app_pages-IsBytes = store64-IsBytes one_app_page 0x4808 0x181005 one_app_page-IsBytes

two_app_pages-Connected : Connected two_app_pages t1
unfolding two_app_pages
two_app_pages-Connected =
    Connected-frame t1 t1-AreTables one_app_page two_app_pages
      (λ x o. store64_ne one_app_page 0x4808 0x181005 x (omega (arith, o))) one_app_page-Connected

abbrev app_entry : ℕ → ℕ
app_entry va = if va / 4096 == 0x101 then 0x181005 else if va / 4096 == 0x100 then 0x180007 else 0

two_app_pages-slot : (va : ℕ) → va < 0x300000 → load64 two_app_pages (slot t1 va) ≡ app_entry va
unfolding two_app_pages
two_app_pages-slot va h = elim (Bool-cases (va / 4096 == 0x101)) [
  | inl is ↦ rw is (
      ap (load64 two_app_pages) (ground arith)
      ∙ load64-store64_self one_app_page 0x4808 0x181005 (omega arith))
  | inr isnt ↦ rw isnt (
      load64-store64_ne one_app_page 0x4808 (slot t1 va) 0x181005 (ground arith)
      ∙ one_app_page-slot va h)
]

-- The tables are on pages 1 to 5; pages 0x180 and 0x181 are in use, and so are those below 11.
abbrev some_used : PageInfos
some_used pn =
    if ltb pn 11
    then record { owner = 1; refcount = 1 }
    else if pn == 0x180
    then record { owner = 1; refcount = 1 }
    else if pn == 0x181
    then record { owner = 1; refcount = 1 }
    else record { owner = 0; refcount = 0 }

-- Descriptor 2 is free.
abbrev forking : Kernel
forking = record running {
  mem = two_app_pages;
  pageinfo = some_used;
  processes = λ pid.
      if pid == 2
      then in_state 2 ProcState.free
      else record (in_state pid ProcState.runnable) { p_pagetable = 0x1000 };
}

forking-view : (b : ℕ) → b < 0x300000 → view forking t1 b ≡ mapping_of b (app_entry b)
forking-view b h =
    lookup-Connected two_app_pages t1 t1-AreTables two_app_pages-Connected two_app_pages-IsBytes b
      (omega arith)
    ∙ ap (mapping_of b) (two_app_pages-slot b h)

-- Of the pages only the first one is copied.
forking-copies :
    (b : ℕ) → b < 0x300000 → b % 4096 ≡ 0 → copies (view forking t1 b) ≡ (b / 4096 == 0x100)
unfolding has
forking-copies b h start = rw (forking-view b h) (elim (Bool-cases (b / 4096 == 0x101)) [
  | inl is ↦ let other : (b / 4096 == 0x100) ≡ false = ground arith in rw (is, start, other) refl
  | inr isnt ↦ elim (Bool-cases (b / 4096 == 0x100)) [
    | inl here ↦ rw (isnt, here, start) refl
    | inr other ↦ rw (isnt, other) refl
  ]
])

forking-copied_pages :
    (left v : ℕ)
    → v % 4096 ≡ 0
    → v + 4096 * left ≤ 0x300000
    → copied_pages (view forking t1) left v ≤ (if leb v 0x100000 then 1 else 0)
unfolding copied_pages
forking-copied_pages zero v h k = ground arith
forking-copied_pages (suc left) v h k =
    rw (forking-copies v (omega arith) h)
      (ground (arith, forking-copied_pages left (v + 4096) (omega arith) (omega arith)))

enough_free : free_pages some_used 511 1 ≡ 499
unfolding free_pages
enough_free = refl

-- What is mapped, and what is shared.
forking_mapped :
    (b : ℕ)
    → b < 0x300000
    → (view forking t1 b).perm % 2 ≡ 1
    → ((view forking t1 b).pn ≡ b / 4096 + 0x80)
      × ((view forking t1 b).pa < 0x200000)
      × (b / 4096 < 0x102)
      × (0x100 ≤ b / 4096)
forking_mapped b h = rw (forking-view b h) (λ p. ground (arith, p))

forking_shared : (b : ℕ) → IsShared (view forking t1) 0x100000 512 b → b / 4096 ≡ 0x101
forking_shared b h =
    let m = forking_mapped b (omega arith) h.0.2 in
    ground (arith, forking-copies b (omega arith) h.1, h.2, m)

used_pages : (n : ℕ) → 0x180 ≤ n → n < 0x182 → (some_used n).refcount ≡ 1
used_pages n h k = ground arith

forking_used :
    (b : ℕ)
    → b < 0x300000
    → (view forking t1 b).perm % 2 ≡ 1
    → (some_used (view forking t1 b).pn).refcount ≡ 1
forking_used b h p =
    let m = forking_mapped b h p in
    used_pages (view forking t1 b).pn (omega (arith, m)) (omega (arith, m))

forking-CanFork : CanFork forking t1
forking-CanFork = record {
  tables = t1-AreTables;
  root = refl;
  connected = two_app_pages-Connected;
  bytes = two_app_pages-IsBytes;
  tables_used = omega arith;
  exists = λ b h p. (forking_mapped b h p).1;
  in_use = λ b h. λ z. omega (arith, z, forking_used b (omega arith) h.2);
  few = λ b h. omega (arith, forking_used b (omega arith) h.0.2);
  once = λ b c hb hc less. absurd (omega (arith, forking_shared b hb, forking_shared c hc));
  five = record {
    q1 = 11;
    q2 = 12;
    q3 = 13;
    q4 = 14;
    q5 = 15;
    order = omega arith;
    free_1 = omega arith;
    free_2 = omega arith;
    free_3 = omega arith;
    free_4 = omega arith;
    free_5 = omega arith;
  };
  enough =
      omega (arith, forking-copied_pages 512 0x100000 (omega arith) (omega arith), enough_free);
}

descriptor_2 : find_free_pid forking.processes (nproc - 1) 1 ≡ some 2
unfolding find_free_pid
descriptor_2 = refl

fork_copies_example :
    (k' : Kernel) × (u : Tables) × (fork forking ≡ ok (k', true)) × HasForked forking t1 u 2 k'
fork_copies_example = fork_copies forking t1 2 forking-CanFork descriptor_2 (λ e. omega (arith, e))
