-- ===== src/User/Report.antt =====
-- The buffer of a process's `panic`.
use virtual_memory.Base.{
  ℕ, zero, suc, ◌+◌, ◌-◌, ◌≤◌, ◌<◌, ◌≡◌, refl, ap, sym, ◌∙◌, inl, inr, ◌⊎◌, not, ◌&&◌, ltb, ◌==◌,
  if◌then◌else◌, List, [], ◌∷◌, ◌++◌, length, min, get_or, codes, some, arith, Bool-cases, ==→eq,
  ==→ne, lt→ltb, ltb→lt, ltb-false,
}
use mathlib.Core.Option.{some-injective}
use virtual_memory.Memory.{Memory, store8}
use virtual_memory.Print.Characters.{bytes_of, characters}
use virtual_memory.Print.Printers.Buffer.{vsnprintf_text}
use virtual_memory.Print.Printers.{vsnprintf}
use virtual_memory.Print.Printers.Bounds.{vsnprintf_bounds}
use virtual_memory.User.{panic_buffer, put_bytes}

put_bytes_outside :
    (m : Memory) (a x : ℕ) (cs : List ℕ) → (x < a) ⊎ (a + length cs ≤ x) → put_bytes m a cs x ≡ m x
unfolding put_bytes store8
put_bytes_outside m a x [] h = refl
put_bytes_outside m a x (c ∷ cs) h =
    put_bytes_outside (store8 m a c) (a + 1) x cs (omega (arith, h)) ∙ ground (arith, h)

-- What `panic` does behind `vsnprintf`.
abbrev ended : (m2 : Memory) (buf n : ℕ) → Memory
ended m2 buf n =
    let len = n + 7 in
    let shift : ℕ = if len == 159 then 1 else 0 in
    if ltb 0 len && not (m2 (buf + len - 1) == b'\n')
    then put_bytes m2 (buf + len - shift) (b'\n' ∷ 0 ∷ [])
    else m2

-- Where the newline stands.
abbrev line_end : (before n : ℕ) → ℕ
line_end before n = if before == b'\n' then n - 1 else if n == 159 then 158 else n

-- The buffer ends with a line and a zero, and nothing else has changed.
record IsLine (m2 : Memory) (buf n : ℕ) (m' : Memory) : Type 0 where
  last : ℕ
  place : last ≡ line_end (m2 (buf + (n + 7) - 1)) (n + 7)
  kept : (i : ℕ) → i < last → m' (buf + i) ≡ m2 (buf + i)
  from : 6 ≤ last
  to : last ≤ 158
  last_below : last ≤ n + 7
  newline : m' (buf + last) ≡ b'\n'
  end : m' (buf + last + 1) ≡ 0
  outside : (x : ℕ) → (x < buf + 7) ⊎ (buf + 160 ≤ x) → m' x ≡ m2 x

ended-IsLine :
    (m2 : Memory) (buf n : ℕ) → n < 153 → m2 (buf + 7 + n) ≡ 0 → IsLine m2 buf n (ended m2 buf n)
unfolding put_bytes store8
ended-IsLine m2 buf n h end = elim (Bool-cases (m2 (buf + (n + 7) - 1) == b'\n')) [
  | inl is ↦
      rw (lt→ltb 0 (n + 7) (omega arith), is)
        record {
          last = n + 6;
          place = rw is (omega arith);
          kept = λ i o. refl;
          from = omega arith;
          to = omega arith;
          last_below = omega arith;
          newline = ap m2 (omega arith) ∙ ==→eq (m2 (buf + (n + 7) - 1)) b'\n' is;
          end = ap m2 (omega arith) ∙ end;
          outside = λ x o. refl;
        }
  | inr isnt ↦ elim (Bool-cases (n + 7 == 159)) [
    | inl full ↦
        let n_is = ==→eq (n + 7) 159 full in
        rw (lt→ltb 0 (n + 7) (omega arith), isnt, full)
          record {
            last = 158;
            place = rw (isnt, full) refl;
            kept = λ i o. ground (arith, n_is, o);
            from = omega arith;
            to = omega arith;
            last_below = omega (arith, n_is);
            newline = ground (arith, n_is);
            end = ground (arith, n_is);
            outside = λ x o. ground (arith, n_is, o);
          }
    | inr other ↦
        let n_isnt = ==→ne (n + 7) 159 other in
        rw (lt→ltb 0 (n + 7) (omega arith), isnt, other)
          record {
            last = n + 7;
            place = rw (isnt, other) refl;
            kept = λ i o. ground (arith, o);
            from = omega arith;
            to = omega (arith, n_isnt);
            last_below = omega arith;
            newline = ground arith;
            end = ground arith;
            outside = λ x o. ground (arith, n_isnt, o);
          }
  ]
]

-- `vsnprintf` into the rest of the buffer.
printed :
    (m1 : Memory) (buf : ℕ) (format : List ℕ) (args : ℕ → ℕ) (string_at : ℕ → List ℕ)
    → (m2 : Memory) × (n : ℕ) × (vsnprintf m1 (buf + 7) 153 format args string_at ≡ some (m2, n))
      × (n < 153)
      × (m2 (buf + 7 + n) ≡ 0)
      × (n ≡ min (length (bytes_of (characters args string_at 0 format))) 152)
      × ((i : ℕ)
          → i < n
          → m2 (buf + 7 + i) ≡ get_or (bytes_of (characters args string_at 0 format)) i 0)
      × ((x : ℕ) → (x < buf + 7) ⊎ (buf + 160 ≤ x) → m2 x ≡ m1 x)
printed m1 buf format args string_at =
    let (m2, n, runs, below, end, _) =
      vsnprintf_bounds m1 (buf + 7) 153 buf format args string_at (omega arith)
        (inl (omega arith)) in
    let (m4, runs4, bytes, _) =
      vsnprintf_text m1 (buf + 7) 153 format args string_at (omega arith) in
    let text : List ℕ = bytes_of (characters args string_at 0 format) in
    let same4 : (m2, n) ≡ (m4, min (length text) 152) = some-injective _ _ (sym runs ∙ runs4) in
    let count : n ≡ min (length text) 152 = ap (λ (r : Memory × ℕ). r.1) same4 in
    (
      m2,
      n,
      runs,
      below,
      end,
      count,
      λ i h. ap (λ (r : Memory × ℕ). r.0 (buf + 7 + i)) same4 ∙ bytes i (omega (arith, h, count)),
      λ x out.
          let (m3, n3, runs3, _, _, kept) =
            vsnprintf_bounds m1 (buf + 7) 153 x format args string_at (omega arith)
              (omega (arith, out)) in
          let same : (m2, n) ≡ (m3, n3) = some-injective _ _ (sym runs ∙ runs3) in
          ap (λ (r : Memory × ℕ). r.0 x) same ∙ kept,
    )

prefix_at :
    (m : Memory) (buf i : ℕ)
    → i < 7
    → put_bytes m buf (codes "PANIC: ") (buf + i) ≡ get_or (codes "PANIC: ") i 0
unfolding put_bytes store8
prefix_at m buf zero h = ground arith
prefix_at m buf (suc zero) h = ground arith
prefix_at m buf (suc (suc zero)) h = ground arith
prefix_at m buf (suc (suc (suc zero))) h = ground arith
prefix_at m buf (suc (suc (suc (suc zero)))) h = ground arith
prefix_at m buf (suc (suc (suc (suc (suc zero))))) h = ground arith
prefix_at m buf (suc (suc (suc (suc (suc (suc zero)))))) h = ground arith
prefix_at m buf (suc (suc (suc (suc (suc (suc (suc i))))))) h = absurd (omega arith)

line_at :
    (text : List ℕ) (i : ℕ) → 7 ≤ i → get_or (codes "PANIC: " ++ text) i 0 ≡ get_or text (i - 7) 0
line_at text zero h = absurd (omega arith)
line_at text (suc zero) h = absurd (omega arith)
line_at text (suc (suc zero)) h = absurd (omega arith)
line_at text (suc (suc (suc zero))) h = absurd (omega arith)
line_at text (suc (suc (suc (suc zero)))) h = absurd (omega arith)
line_at text (suc (suc (suc (suc (suc zero))))) h = absurd (omega arith)
line_at text (suc (suc (suc (suc (suc (suc zero)))))) h = absurd (omega arith)
line_at text (suc (suc (suc (suc (suc (suc (suc i))))))) h = ap (λ k. get_or text k 0) (omega arith)

line_start :
    (text : List ℕ) (i : ℕ)
    → i < 7
    → get_or (codes "PANIC: " ++ text) i 0 ≡ get_or (codes "PANIC: ") i 0
line_start text zero h = refl
line_start text (suc zero) h = refl
line_start text (suc (suc zero)) h = refl
line_start text (suc (suc (suc zero))) h = refl
line_start text (suc (suc (suc (suc zero)))) h = refl
line_start text (suc (suc (suc (suc (suc zero))))) h = refl
line_start text (suc (suc (suc (suc (suc (suc zero)))))) h = refl
line_start text (suc (suc (suc (suc (suc (suc (suc i))))))) h = absurd (omega arith)

-- The message before its end is made a line.
whole_line :
    (m m2 : Memory) (buf n i : ℕ) (text : List ℕ)
    → ((i : ℕ) → i < n → m2 (buf + 7 + i) ≡ get_or text i 0)
    → ((x : ℕ) → (x < buf + 7) ⊎ (buf + 160 ≤ x) → m2 x ≡ put_bytes m buf (codes "PANIC: ") x)
    → i < n + 7
    → m2 (buf + i) ≡ get_or (codes "PANIC: " ++ text) i 0
whole_line m m2 buf n i text bytes kept h = elim (Bool-cases (ltb i 7)) [
  | inl is ↦
      let low = ltb→lt i 7 is in
      kept (buf + i) (inl (omega (arith, low)))
      ∙ prefix_at m buf i low
      ∙ sym (line_start text i low)
  | inr isnt ↦
      let high = ltb-false i 7 isnt in
      ap m2 (omega (arith, high))
      ∙ bytes (i - 7) (omega (arith, high))
      ∙ sym (line_at text i (omega (arith, high)))
]

-- For any format and arguments, with the line "PANIC: " followed by the format's text, cut to 159
-- bytes: the line stands in the 160 bytes of the buffer up to its newline, and a zero stands behind
-- the newline. If the cut line ends with a newline, that is the one; otherwise one is put behind
-- the line, or, if the line fills the 159 bytes, in the place of its last byte. No byte outside the
-- buffer changes.
pub panic_buffer_line :
    (m : Memory) (buf : ℕ) (format : List ℕ) (args : ℕ → ℕ) (string_at : ℕ → List ℕ)
    → let line = codes "PANIC: " ++ bytes_of (characters args string_at 0 format) in
      let n = min (length line) 159 in
      (m' : Memory) × (last : ℕ) × (panic_buffer m buf format args string_at ≡ some m')
      × (last ≡ (if get_or line (n - 1) 0 == b'\n' then n - 1 else if n == 159 then 158 else n))
      × (6 ≤ last)
      × (last ≤ 158)
      × ((i : ℕ) → i < last → m' (buf + i) ≡ get_or line i 0)
      × (m' (buf + last) ≡ b'\n')
      × (m' (buf + last + 1) ≡ 0)
      × ((x : ℕ) → (x < buf) ⊎ (buf + 160 ≤ x) → m' x ≡ m x)
unfolding panic_buffer
panic_buffer_line m buf format args string_at =
    let text = bytes_of (characters args string_at 0 format) in
    let m1 = put_bytes m buf (codes "PANIC: ") in
    let (m2, n, runs, below, end, count, bytes, kept) = printed m1 buf format args string_at in
    let line = ended-IsLine m2 buf n below end in
    let size : n + 7 ≡ min (length (codes "PANIC: " ++ text)) 159 = omega (arith, count) in
    let before : m2 (buf + (n + 7) - 1) ≡ get_or (codes "PANIC: " ++ text) (n + 7 - 1) 0 =
      ap m2 (omega arith) ∙ whole_line m m2 buf n (n + 7 - 1) text bytes kept (omega arith) in
    (
      ended m2 buf n,
      line.last,
      rw runs refl,
      line.place
          ∙ ap (λ c. line_end c (n + 7)) before
          ∙ ap (λ k. line_end (get_or (codes "PANIC: " ++ text) (k - 1) 0) k) size,
      line.from,
      line.to,
      λ i h.
          line.kept i h
          ∙ whole_line m m2 buf n i text bytes kept (omega (arith, h, line.last_below)),
      line.newline,
      line.end,
      λ x out.
          line.outside x (omega (arith, out))
          ∙ kept x (omega (arith, out))
          ∙ put_bytes_outside m buf x (codes "PANIC: ") (omega (arith, out)),
    )
