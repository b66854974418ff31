-- ===== src/Vm/Layout.antt =====
-- The five-table shape that `virtual_memory_init` and `duplicate_pagetable` build: one table at
-- each of the first three levels and two at the last, which together map 4 MB.
use mathlib.Core.Bool.{or-true}
use virtual_memory.Base.{
  ℕ, suc, ◌+◌, ◌*◌, ◌/◌, ◌%◌, ◌^◌, ◌<◌, ◌≡◌, refl, ◌≢◌, inl, inr, true, ltb, ◌==◌, if◌then◌else◌,
  arith, Bool-cases, lt→ltb, ok, sym, ap, ◌∙◌,
}
use virtual_memory.Memory.{Memory, load64}
use virtual_memory.Memory.Words.{IsBytes}
use virtual_memory.Paging.{pageindex, pte_addr, pte_p, pte_w, pte_u, has, entry}
use virtual_memory.Paging.Flags.{
  pageindex_0, pageindex_1, pageindex_2, pageindex_3, has_p, has_w, has_u, pte_addr_lem,
}
use virtual_memory.Vm.{
  Tables, Vamapping, unmapped, virtual_memory_lookup, lookup_l4_loop, lookup_l4pagetable,
}
use virtual_memory.Vm.Walk.{frame, entry_1, entry_2, entry_3, entry_4, AllPresent}
use virtual_memory.Vm.Lookup.{kept, lookup-AllPresent, lookup-unmapped}

-- The address of a page of physical memory other than page 0.
abbrev pub IsPage : ℕ → Type 0
IsPage a = (a % 4096 ≡ 0) × (0 < a) × (a < 0x200000)

-- The tables are five different pages.
pub record AreTables (t : Tables) : Type 0 where
  pub l1_page : IsPage t.l1
  pub l2_page : IsPage t.l2
  pub l3_page : IsPage t.l3
  pub l4_1_page : IsPage t.l4_1
  pub l4_2_page : IsPage t.l4_2
  pub l1_apart : (t.l1 ≢ t.l4_1) × (t.l1 ≢ t.l4_2)
  pub l2_apart : (t.l2 ≢ t.l4_1) × (t.l2 ≢ t.l4_2)
  pub l3_apart : (t.l3 ≢ t.l4_1) × (t.l3 ≢ t.l4_2)
  pub l4_apart : t.l4_1 ≢ t.l4_2
  pub upper_apart : (t.l1 ≢ t.l2) × (t.l1 ≢ t.l3) × (t.l2 ≢ t.l3)

-- The four entries that connect them, each with the flags `P | W | U`.
pub record Connected (m : Memory) (t : Tables) : Type 0 where
  pub to_l2 : load64 m t.l1 ≡ t.l2 + 7
  pub to_l3 : load64 m t.l2 ≡ t.l3 + 7
  pub to_l4_1 : load64 m t.l3 ≡ t.l4_1 + 7
  pub to_l4_2 : load64 m (t.l3 + 8) ≡ t.l4_2 + 7

-- The last-level table of an address below 4 MB, and the address of its entry there.
abbrev pub table_of : Tables → ℕ → ℕ
table_of t va = if ltb va 0x200000 then t.l4_1 else t.l4_2

abbrev pub slot : Tables → ℕ → ℕ
slot t va = table_of t va + 8 * (va / 4096 % 512)

-- What a last-level entry says of the address `va`.
abbrev pub mapping_of : ℕ → ℕ → Vamapping
mapping_of va e =
    if e % 2 == 1
    then record { pn = e / 4096 % 2 ^ 32; pa = e / 4096 * 4096 + va % 4096; perm = e % 4096 }
    else unmapped

load64_eq : (m : Memory) (a b : ℕ) → a ≡ b → load64 m a ≡ load64 m b
load64_eq m a b e = ap (load64 m) e

-- An entry that connects two tables, and the flags in it.
link_bits : (e next : ℕ) → IsPage next → e ≡ next + 7 → (e / 2 % 2 ≡ 1) × (e / 4 % 2 ≡ 1)
link_bits e next page h = omega arith

link_frame : (e next : ℕ) → IsPage next → e ≡ next + 7 → frame e ≡ next
link_frame e next page h = omega arith

link_has :
    (next : ℕ)
    → IsPage next
    → (has (next + 7) pte_p ≡ true)
      × (has (next + 7) pte_w ≡ true)
      × (has (next + 7) pte_u ≡ true)
      × (pte_addr (next + 7) ≡ next)
link_has next page = (
  ground (arith, has_p (next + 7)),
  ground (arith, has_w (next + 7)),
  ground (arith, has_u (next + 7)),
  omega (arith, pte_addr_lem (next + 7)),
)

kept_ones : (a b c : ℕ) → a ≡ 1 → b ≡ 1 → kept a b c ≡ c
kept_ones a b c p q = omega arith

flags_eq :
    (p e : ℕ)
    → e % 2 ≡ 1
    → p % 2 ≡ 1
    → p / 2 % 2 ≡ e / 2 % 2
    → p / 4 % 2 ≡ e / 4 % 2
    → p / 8 ≡ e / 8 % 512
    → p ≡ e % 4096
flags_eq p e h p0 p1 p2 p3 = omega arith

-- Below tables that have `W` and `U`, all flags of the last entry are kept.
perm_whole :
    (p e2 e3 e4 : ℕ)
    → (e2 / 2 % 2 ≡ 1) × (e2 / 4 % 2 ≡ 1)
    → (e3 / 2 % 2 ≡ 1) × (e3 / 4 % 2 ≡ 1)
    → e4 % 2 ≡ 1
    → p % 2 ≡ 1
    → p / 2 % 2 ≡ kept (e2 / 2 % 2) (e3 / 2 % 2) (e4 / 2 % 2)
    → p / 4 % 2 ≡ kept (e2 / 4 % 2) (e3 / 4 % 2) (e4 / 4 % 2)
    → p / 8 ≡ e4 / 8 % 512
    → p ≡ e4 % 4096
perm_whole p e2 e3 e4 f2 f3 h p0 p1 p2 p3 =
    let w = p1 ∙ kept_ones _ _ _ f2.0 f3.0 in
    let u = p2 ∙ kept_ones _ _ _ f2.1 f3.1 in flags_eq p e4 h p0 w u p3

pub table_of-IsPage : (t : Tables) → AreTables t → (va : ℕ) → IsPage (table_of t va)
table_of-IsPage t tables va = ground (arith, tables.l4_1_page, tables.l4_2_page)

module _ (m : Memory) (t : Tables) (tables : AreTables t) (conn : Connected m t) where
  entry_1_lem : (va : ℕ) → va < 0x400000 → entry_1 m t.l1 va ≡ t.l2 + 7
  entry_1_lem va h = load64_eq m _ t.l1 (omega (arith, pageindex_0 va)) ∙ conn.to_l2

  entry_2_lem : (va : ℕ) → va < 0x400000 → entry_2 m t.l1 va ≡ t.l3 + 7
  entry_2_lem va h =
      load64_eq m _ t.l2 (omega (arith, pageindex_1 va, entry_1_lem va h, tables.l2_page))
      ∙ conn.to_l3

  entry_3_lem : (va : ℕ) → va < 0x400000 → entry_3 m t.l1 va ≡ table_of t va + 7
  entry_3_lem va h = elim (Bool-cases (ltb va 0x200000)) [
    | inl e ↦ rw e (
        load64_eq m _ t.l3 (ground (arith, pageindex_2 va, entry_2_lem va h, tables.l3_page))
        ∙ conn.to_l4_1)
    | inr e ↦ rw e (
        load64_eq m _ (t.l3 + 8) (ground (arith, pageindex_2 va, entry_2_lem va h, tables.l3_page))
        ∙ conn.to_l4_2)
  ]

  entry_4_lem : (va : ℕ) → va < 0x400000 → entry_4 m t.l1 va ≡ load64 m (slot t va)
  entry_4_lem va h =
      load64_eq m _ (slot t va)
        (ground (arith, pageindex_3 va, entry_3_lem va h, tables.l4_1_page, tables.l4_2_page))

  -- Below 4 MB a lookup reads one last-level entry, and reports it as it stands.
  pub lookup-Connected :
      IsBytes m
      → (va : ℕ) → va < 0x400000
      → virtual_memory_lookup m t.l1 va ≡ mapping_of va (load64 m (slot t va))
  lookup-Connected bytes va h =
      let e = load64 m (slot t va) in
      elim (Bool-cases (e % 2 == 1)) [
        | inl present ↦
            let e2 = entry_2_lem va h in
            let e3 = entry_3_lem va h in
            let e4 = entry_4_lem va h in
            let all : AllPresent m t.l1 va = ground (
              arith,
              entry_1_lem va h,
              e2,
              e3,
              e4,
              tables.l2_page,
              tables.l3_page,
              tables.l4_1_page,
              tables.l4_2_page,
            ) in
            let f = lookup-AllPresent m bytes t.l1 va all in
            let whole : (virtual_memory_lookup m t.l1 va).perm ≡ entry_4 m t.l1 va % 4096 =
              perm_whole _ _ _ _ (link_bits _ _ tables.l3_page e2)
                (link_bits _ _ (table_of-IsPage t tables va) e3) all.3 f.2 f.3 f.4 f.5 in
            rw present (λ i. record {
              pn = (f.0 ∙ ap (λ x. x / 4096 % 2 ^ 32) e4) i;
              pa = (f.1 ∙ ap (λ x. x / 4096 * 4096 + va % 4096) e4) i;
              perm = (whole ∙ ap (λ x. x % 4096) e4) i;
            })
        | inr absent ↦
            rw absent
              (lookup-unmapped m bytes t.l1 va (inr (inr (inr (ground (arith, entry_4_lem va h))))))
      ]

  lookup_l4_loop_round :
      (va perm left level pt next : ℕ)
      → entry m pt (pageindex va level) ≡ next + 7
      → IsPage next
      → lookup_l4_loop m va perm (suc left) level pt
        ≡ lookup_l4_loop m va perm left (level + 1) next
  unfolding lookup_l4_loop
  lookup_l4_loop_round va perm left level pt next e page =
      let f = link_has next page in
      rw (e, f.0, f.1, f.2, f.3, lt→ltb next _ page.2) (rw (or-true, or-true) refl)

  lookup_l4_loop_end : (va perm level pt : ℕ) → lookup_l4_loop m va perm 0 level pt ≡ ok pt
  unfolding lookup_l4_loop
  lookup_l4_loop_end va perm level pt = refl

  -- Below 4 MB `lookup_l4pagetable` finds the last-level table, whatever the permissions.
  pub lookup_l4-Connected :
      (va perm : ℕ) → va < 0x400000 → lookup_l4pagetable m t.l1 va perm ≡ ok (table_of t va)
  unfolding lookup_l4pagetable
  lookup_l4-Connected va perm h =
      let e1 = entry_1_lem va h in
      let e2 = entry_2_lem va h in
      let e3 = entry_3_lem va h in
      lookup_l4_loop_round va perm 2 0 t.l1 t.l2 e1 tables.l2_page
      ∙ lookup_l4_loop_round va perm 1 1 t.l2 t.l3
          (load64_eq m _ _
              (ap (λ x. x + 8 * pageindex va 1) (sym (link_frame _ _ tables.l2_page e1)))
            ∙ e2)
          tables.l3_page
      ∙ lookup_l4_loop_round va perm 0 2 t.l3 (table_of t va)
          (load64_eq m _ _
              (ap (λ x. x + 8 * pageindex va 2) (sym (link_frame _ _ tables.l3_page e2)))
            ∙ e3)
          (table_of-IsPage t tables va)
      ∙ lookup_l4_loop_end va perm 3 (table_of t va)
