-- ===== src/Print/Printers/Buffer.antt =====
-- The buffer of `vsnprintf` holds the start of the format's text.
use virtual_memory.Base.{
  ℕ, zero, suc, ◌+◌, ◌-◌, ◌%◌, ◌≤◌, ◌<◌, ◌≡◌, refl, ap, ◌∙◌, inl, inr, ltb, leb, ◌&&◌,
  if◌then◌else◌, List, [], ◌∷◌, length, get_or, some, min, arith, Bool-cases, ne→==, ltb→lt,
  ltb-false,
}
use virtual_memory.Memory.{Memory, store8}
use virtual_memory.Print.Characters.{
  Character, put_each, bytes_of, characters, printer_vprintf-characters,
}
use virtual_memory.Print.Printers.{StringPrinter, string_putc, vsnprintf}

get_or_eq : (cs : List ℕ) (i j : ℕ) → i ≡ j → get_or cs i 0 ≡ get_or cs j 0
get_or_eq cs i j e = ap (λ k. get_or cs k 0) e

get_or-suc : (c : ℕ) (cs : List ℕ) (i : ℕ) → 0 < i → get_or (c ∷ cs) i 0 ≡ get_or cs (i - 1) 0
get_or-suc c cs zero h = absurd (omega arith)
get_or-suc c cs (suc i) h = get_or_eq cs i (suc i - 1) (omega arith)

-- The characters go into the buffer until its last byte is reached.
put_each-string_putc :
    (cs : List Character) (sp : StringPrinter)
    → sp.s ≤ sp.end
    → ((put_each string_putc cs sp).s ≡ sp.s + min (length (bytes_of cs)) (sp.end - sp.s))
      × ((x : ℕ)
          → (put_each string_putc cs sp).mem x ≡ (
              if leb sp.s x && ltb x (sp.s + min (length (bytes_of cs)) (sp.end - sp.s))
              then get_or (bytes_of cs) (x - sp.s) 0
              else sp.mem x))
unfolding string_putc store8
put_each-string_putc [] sp h = (omega arith, λ x. ground arith)
put_each-string_putc (c ∷ cs) sp h =
    let len : length (bytes_of (c ∷ cs)) ≡ suc (length (bytes_of cs)) = refl in
    elim (Bool-cases (ltb sp.s sp.end)) [
      | inl is ↦
          let next : StringPrinter = record sp { mem = store8 sp.mem sp.s c.code; s = sp.s + 1 } in
          let step : put_each string_putc (c ∷ cs) sp ≡ put_each string_putc cs next =
            ap (put_each string_putc cs) (rw is refl) in
          let below = ltb→lt sp.s sp.end is in
          let more = put_each-string_putc cs next (omega (arith, below)) in
          (
            ap (λ (p : StringPrinter). p.s) step ∙ omega (arith, more.0, len, below),
            λ x.
                ap (λ (p : StringPrinter). p.mem x) step
                ∙ ground (
                  arith,
                  more.1 x,
                  len,
                  below,
                  get_or-suc (c.code % 256) (bytes_of cs) (x - sp.s),
                  get_or_eq (bytes_of cs) (x - (sp.s + 1)) (x - sp.s - 1),
                  get_or_eq (c.code % 256 ∷ bytes_of cs) (x - sp.s) 0,
                ),
          )
      | inr isnt ↦
          let step : put_each string_putc (c ∷ cs) sp ≡ put_each string_putc cs sp =
            ap (put_each string_putc cs) (rw isnt refl) in
          let full = ltb-false sp.s sp.end isnt in
          let more = put_each-string_putc cs sp h in
          (
            ap (λ (p : StringPrinter). p.s) step ∙ omega (arith, more.0, len, full),
            λ x. ap (λ (p : StringPrinter). p.mem x) step ∙ ground (arith, more.1 x, len, full),
          )
    ]

-- For any format and arguments, `vsnprintf` into a buffer of `size` bytes, at least one, ends. It
-- stores the first bytes of the format's text, as many as there are but `size - 1` at most, and a
-- zero behind them, and returns how many it has stored.
pub vsnprintf_text :
    (m : Memory) (s size : ℕ) (format : List ℕ) (args : ℕ → ℕ) (string_at : ℕ → List ℕ)
    → 0 < size
    → let text = bytes_of (characters args string_at 0 format) in
      let n = min (length text) (size - 1) in
      (m' : Memory) × (vsnprintf m s size format args string_at ≡ some (m', n))
      × ((i : ℕ) → i < n → m' (s + i) ≡ get_or text i 0)
      × (m' (s + n) ≡ 0)
unfolding vsnprintf store8
vsnprintf_text m s size format args string_at pos =
    let cs = characters args string_at 0 format in
    let start : StringPrinter = record { mem = m; s = s; end = s + size - 1 } in
    let printed = printer_vprintf-characters string_putc args string_at 0 format start in
    let full = put_each string_putc cs start in
    let (stored, bytes) = put_each-string_putc cs start (omega arith) in
    let count : full.s - s ≡ min (length (bytes_of cs)) (size - 1) = omega (arith, stored) in
    (
      store8 full.mem full.s 0,
      rw (ne→== size 0 (omega arith), printed) (ap (λ k. some (store8 full.mem full.s 0, k)) count),
      λ i h. ground (arith, stored, bytes (s + i), get_or_eq (bytes_of cs) (s + i - s) i),
      ground (arith, stored),
    )
