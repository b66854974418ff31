-- ===== src/Kernel/Viewer.antt =====
-- The pictures of memory on the screen.
use virtual_memory.Base.{
  ℕ, zero, suc, ◌+◌, ◌-◌, ◌*◌, ◌/◌, ◌%◌, ◌^◌, bit_and, bit_or, Bool, not, ◌&&◌, ◌||◌, ltb, leb,
  ◌==◌, if◌then◌else◌, List, [], ◌∷◌, get_or, codes, none, some, Outcome, ok, ◌>>=◌, ◌>>◌, assert,
}
use virtual_memory.Memory.{Memory}
use virtual_memory.Paging.{
  page_size, memsize_physical, memsize_virtual, console_addr, npages, has, pte_u, pte_addr,
}
use virtual_memory.Vm.{is_nonneg, virtual_memory_lookup}
use virtual_memory.Print.Printers.{vsnprintf, console_vprintf}
use virtual_memory.Pages.{PageInfo, PageInfos, po_free}
use virtual_memory.Process.{Proc, is_free, nproc}
use virtual_memory.Kernel.{Kernel}

abbrev pub memstate_colors : List ℕ
memstate_colors =
    bit_or b'K' 0x0D00
    ∷ bit_or b'R' 0x0700
    ∷ bit_or b'.' 0x0700
    ∷ bit_or b'1' 0x0C00
    ∷ bit_or b'2' 0x0A00
    ∷ bit_or b'3' 0x0900
    ∷ bit_or b'4' 0x0E00
    ∷ bit_or b'5' 0x0F00
    ∷ bit_or b'6' 0x0C00
    ∷ bit_or b'7' 0x0A00
    ∷ bit_or b'8' 0x0900
    ∷ bit_or b'9' 0x0E00
    ∷ bit_or b'A' 0x0F00
    ∷ bit_or b'B' 0x0C00
    ∷ bit_or b'C' 0x0A00
    ∷ bit_or b'D' 0x0900
    ∷ bit_or b'E' 0x0E00
    ∷ bit_or b'F' 0x0F00
    ∷ b'S'
    ∷ []

abbrev pub shared_color : ℕ
shared_color = b'S'

-- `memstate_colors[owner - PO_KERNEL]`, where an `owner` is its 8-bit pattern; a page without
-- references is shown as free. Owners are -2 to 15, so that the index lies in the table.
pub color_of : PageInfo → ℕ
color_of info =
    let owner = if info.refcount == 0 then po_free else info.owner in
    get_or memstate_colors ((owner + 2) % 256) 0

-- `refcount > 1` for an `int8_t`
abbrev pub is_shared : PageInfo → Bool
is_shared info = ltb 1 info.refcount && ltb info.refcount 128

abbrev pub cpos : (row col : ℕ) → ℕ
cpos row col = row * 80 + col

-- `console_printf` with one argument, a number or the address of `text`. Printing always ends.
pub print_at : (screen : ℕ → ℕ) (pos color : ℕ) → List ℕ → (arg : ℕ) (text : List ℕ) → ℕ → ℕ
print_at screen pos color format arg text =
    elim (console_vprintf screen pos color format (λ next. arg) (λ a. text)) [
      | none ↦ screen
      | some cp ↦ cp.cells
    ]

-- `console[i] = color`
abbrev pub set_cell : (ℕ → ℕ) → (i color : ℕ) → ℕ → ℕ
set_cell screen i color j = if j == i then color else screen j

-- The loop over the pages, with those left.
pub show_pages : PageInfos → (screen : ℕ → ℕ) (left pn : ℕ) → ℕ → ℕ
show_pages pages screen zero pn = screen
show_pages pages screen (suc left) pn =
    let titled =
      if pn % 64 == 0
      then print_at screen (cpos (1 + pn / 64) 3) 0x0F00 (codes "0x%06X ") (pn * 2 ^ 12) []
      else screen in
    let color =
      if is_shared (pages pn) && not (pn == console_addr / page_size)
      then bit_or shared_color 0x0F00
      else color_of (pages pn) in
    show_pages pages (set_cell titled (cpos (1 + pn / 64) (12 + pn % 64)) color) left (pn + 1)

pub memshow_physical : PageInfos → (screen : ℕ → ℕ) → ℕ → ℕ
memshow_physical pages screen =
    show_pages pages (print_at screen (cpos 0 32) 0x0F00 (codes "PHYSICAL MEMORY") 0 []) npages 0

-- What a mapped page is drawn in: reversed if applications may use it, and marked if it is shared.
pub mapped_color : PageInfo → (va perm : ℕ) → ℕ
mapped_color info va perm =
    let color = color_of info in
    let color' =
      if has perm pte_u
      then bit_or (bit_or (bit_and color 0x0F00 * 2 ^ 4) (bit_and color 0xF000 / 2 ^ 4))
          (bit_and color 0x00FF)
      else color in
    let marked = bit_or shared_color (bit_and color' 0xF000) in
    if is_shared info && not (va == console_addr)
    then if has perm pte_u then marked else bit_or marked 0x0F00
    else color'

-- The loop over virtual memory, with the pages that are left.
pub show_virtual :
    Memory → PageInfos → (pagetable : ℕ) → (screen : ℕ → ℕ) (left va : ℕ) → Outcome (ℕ → ℕ)
show_virtual m pages pagetable screen zero va = ok screen
show_virtual m pages pagetable screen (suc left) va = do
  let vam = virtual_memory_lookup m pagetable va
  let pn = va / page_size
  let titled =
      if pn % 64 == 0
      then print_at screen (cpos (11 + pn / 64) 3) 0x0F00 (codes "0x%06X ") va []
      else screen
  assert (not (is_nonneg vam.pn) || ltb vam.pa memsize_physical)
  let color = if is_nonneg vam.pn then mapped_color (pages vam.pn) va vam.perm else b' '
  show_virtual m pages pagetable (set_cell titled (cpos (11 + pn / 64) (12 + pn % 64)) color) left
      (va + page_size)

pub memshow_virtual :
    Memory → PageInfos → (pagetable : ℕ) → (name : List ℕ) → (screen : ℕ → ℕ) → Outcome (ℕ → ℕ)
memshow_virtual m pages pagetable name screen = do
  assert (pagetable == pte_addr pagetable)
  show_virtual m pages pagetable
      (print_at screen (cpos 10 26) 0x0F00 (codes "VIRTUAL ADDRESS SPACE FOR %s") 0 name)
      (memsize_virtual / page_size) 0

-- `while (showing <= 2*NPROC && processes[showing % NPROC].p_state == P_FREE) ++showing;`
-- from at most 2 * NPROC, with the rounds that are left.
pub skip_free : (ℕ → Proc) → (left showing : ℕ) → ℕ
skip_free procs zero showing = showing
skip_free procs (suc left) showing =
    let rest = skip_free procs left (showing + 1) in
    if leb showing (2 * nproc) && is_free (procs (showing % nproc)).p_state then rest else showing

-- The bytes of `snprintf(s, 4, "%d ", showing)`, read back from a buffer of its own.
pub read_bytes : Memory → (left a : ℕ) → List ℕ
read_bytes m zero a = []
read_bytes m (suc left) a = m a ∷ read_bytes m left (a + 1)

pub process_name : (showing : ℕ) → List ℕ
process_name showing = elim (vsnprintf (λ a. 0) 0 4 (codes "%d ") (λ next. showing) (λ a. [])) [
  | none ↦ []
  | some (m, n) ↦ read_bytes m n 0
]

-- The two counters after the timer and the free descriptors are passed over.
abbrev pub advance : Kernel → Kernel
advance k =
    let due = k.last_ticks == 0 || leb 50 ((k.ticks + 2 ^ 32 - k.last_ticks) % 2 ^ 32) in
    record k {
      last_ticks = if due then k.ticks else k.last_ticks;
      showing =
          skip_free k.processes (2 * nproc + 1) (if due then k.showing + 1 else k.showing) % nproc;
    }

-- The picture of the process `showing`.
unfoldable pub show_process : Kernel → Outcome Kernel
show_process k =
    let p = k.processes k.showing in
    if is_free p.p_state then ok k else (do
      screen ← memshow_virtual k.mem k.pageinfo p.p_pagetable (process_name k.showing) k.screen
      ok (record k { screen = screen }))

unfoldable pub memshow_virtual_animate : Kernel → Outcome Kernel
memshow_virtual_animate k = show_process (advance k)
