-- ===== src/Output/Budget.antt =====
-- How far the output can exceed its budget, and for which texts writing succeeds.
use rusty_kimi.Common.{
  ℕ, ◌+◌, ◌-◌, ◌≤◌, ◌≡◌, refl, sym, ap, subst, true, false, List, [], ◌∷◌, Option, none, some,
  arith, All, All-unappend, Bool-cases, Option-cases, inl, inr, max, ◌>>=◌,
}
use rusty_kimi.Common.Utf8.{len_utf8, byte_len, is_ascii}
use rusty_kimi.Message.{Text}
use rusty_kimi.Output.{
  truncate_line, split_lines_keepends, concat, ToolResultBuilder, default_marker, admits,
  new_builder, new, is_full, limit, push, write_line, write_lines, write,
}
use rusty_kimi.Output.Lines.{IsLine, split_lines_keepends-IsLine}
use rusty_kimi.Output.Cuts.{concat-snoc, truncate_line-le, truncate_line-ascii}

module _ (J : Type 0) where
  abbrev pub Ascii : Text → Type 0
  Ascii t = All (λ c. is_ascii c ≡ true) t

  -- `n_chars` counts the bytes of the output, and they are at most 15 over the budget.
  pub record InBudget (mc : ℕ) (b : ToolResultBuilder J) : Type 0 where
    pub marked : b.marker ≡ default_marker J
    pub capped : b.max_chars ≡ mc
    pub counted : b.n_chars ≡ byte_len (concat b.buffer)
    pub bounded : b.n_chars ≤ mc + 15

  limit-le : (r : ℕ) (o : Option ℕ) → limit J r o ≤ r
  limit-le r none = omega arith
  limit-le r (some m) = omega arith

  push-InBudget :
      (mc : ℕ) (b : ToolResultBuilder J) (line out : Text)
      → is_full J b ≡ false
      → InBudget mc b
      → byte_len out ≤ max (limit J (b.max_chars - b.n_chars) b.max_line_length) 16
      → InBudget mc (push J line out b)
  unfolding push is_full
  push-InBudget mc b line out free i h = record {
    marked = i.marked;
    capped = i.capped;
    counted = rw (concat-snoc b.buffer out) (omega (arith, i.counted));
    bounded =
        ground (
          arith,
          free,
          h,
          i.bounded,
          i.capped,
          limit-le (b.max_chars - b.n_chars) b.max_line_length,
        );
  }

  marker-len : byte_len (default_marker J) ≡ 14
  unfolding byte_len len_utf8
  marker-len = refl

  write_line-InBudget :
      (mc : ℕ) (b b' : ToolResultBuilder J) (line : Text) (n : ℕ)
      → is_full J b ≡ false
      → IsLine line
      → InBudget mc b
      → write_line J line b ≡ some (b', n)
      → InBudget mc b'
  unfolding write_line
  write_line-InBudget mc b b' line n free l i h =
      elim (Option-cases
        (truncate_line line (limit J (b.max_chars - b.n_chars) b.max_line_length) b.marker)) [
          | inl panic ↦ absurd (cc (panic, h))
          | inr (out, cut) ↦
              let same : push J line out b ≡ b' = cc (cut, h) in
              let le =
                truncate_line-le line (limit J (b.max_chars - b.n_chars) b.max_line_length) b.marker
                  out l cut in
              subst (InBudget mc) same (
                push-InBudget mc b line out free i
                  (omega (arith, le, ap byte_len i.marked, marker-len)))
        ]

  write_lines-InBudget :
      (mc : ℕ) (lines : List Text) (b b' : ToolResultBuilder J) (w n : ℕ)
      → All IsLine lines
      → InBudget mc b
      → write_lines J lines w b ≡ some (b', n)
      → InBudget mc b'
  unfolding write_lines
  write_lines-InBudget mc [] b b' w n l i h = subst (InBudget mc) (cc h) i
  write_lines-InBudget mc (line ∷ lines) b b' w n (l, ls) i h = elim (Bool-cases (is_full J b)) [
    | inl full ↦ subst (InBudget mc) (cc (full, h)) i
    | inr free ↦ elim (Option-cases (write_line J line b)) [
      | inl panic ↦ absurd (cc (free, panic, h))
      | inr ((b1, m), wrote) ↦
          write_lines-InBudget mc lines b1 b' (w + m) n ls
            (write_line-InBudget mc b b1 line m free l i wrote) (cc (free, wrote, h))
    ]
  ]

  write_lines-Ascii :
      (lines : List Text) (b : ToolResultBuilder J) (w : ℕ)
      → All Ascii lines
      → (r : ToolResultBuilder J × ℕ) × (write_lines J lines w b ≡ some r)
  unfolding write_lines write_line
  write_lines-Ascii [] b w a = ((b, w), refl)
  write_lines-Ascii (line ∷ lines) b w (a, rest_a) = elim (Bool-cases (is_full J b)) [
    | inl full ↦ ((b, w), rw (full, write_lines) refl)
    | inr free ↦
        let (out, cut) =
          truncate_line-ascii line (limit J (b.max_chars - b.n_chars) b.max_line_length) b.marker
            a in
        let (r, rest) = write_lines-Ascii lines (push J line out b) (w + byte_len out) rest_a in
        (r, rw (free, write_lines) (rw (cut) rest))
  ]

  concat-Ascii : (ts : List Text) → Ascii (concat ts) → All Ascii ts
  unfolding concat
  concat-Ascii [] a = tt
  concat-Ascii (t ∷ ts) a =
      let (here, rest) = All-unappend (λ c. is_ascii c ≡ true) t (concat ts) a in
      (here, concat-Ascii ts rest)

  split_lines_keepends-Ascii : (t : Text) → Ascii t → All Ascii (split_lines_keepends t)
  split_lines_keepends-Ascii t a =
      concat-Ascii (split_lines_keepends t) (subst Ascii (sym (split_lines_keepends-IsLine t).0) a)

  -- Calls of `write`, one after another.
  abbrev pub write_all : List Text → ToolResultBuilder J → Option (ToolResultBuilder J)
  write_all [] b = some b
  write_all (t ∷ ts) b = do (b', _) ← write J t b; write_all ts b'

  write-InBudget :
      (mc : ℕ) (t : Text) (b b' : ToolResultBuilder J) (n : ℕ)
      → InBudget mc b
      → write J t b ≡ some (b', n)
      → InBudget mc b'
  unfolding write
  write-InBudget mc t b b' n i h = elim (Bool-cases (is_full J b)) [
    | inl full ↦ subst (InBudget mc) (cc (full, h)) i
    | inr free ↦
        write_lines-InBudget mc (split_lines_keepends t) b b' 0 n (split_lines_keepends-IsLine t).1
          i (cc (free, h))
  ]

  write-Ascii :
      (t : Text) (b : ToolResultBuilder J)
      → Ascii t
      → (r : ToolResultBuilder J × ℕ) × (write J t b ≡ some r)
  unfolding write
  write-Ascii t b a = elim (Bool-cases (is_full J b)) [
    | inl full ↦ ((b, 0), rw (full) refl)
    | inr free ↦
        let (r, e) =
          write_lines-Ascii (split_lines_keepends t) b 0 (split_lines_keepends-Ascii t a) in
        (r, rw (free) e)
  ]

  write_all-InBudget :
      (mc : ℕ) (ts : List Text) (b b' : ToolResultBuilder J)
      → InBudget mc b
      → write_all ts b ≡ some b'
      → InBudget mc b'
  write_all-InBudget mc [] b b' i h = subst (InBudget mc) (cc h) i
  write_all-InBudget mc (t ∷ ts) b b' i h = elim (Option-cases (write J t b)) [
    | inl panic ↦ absurd (cc (panic, h))
    | inr ((b1, n), wrote) ↦
        write_all-InBudget mc ts b1 b' (write-InBudget mc t b b1 n i wrote) (cc (wrote, h))
  ]

  write_all-Ascii :
      (ts : List Text) (b : ToolResultBuilder J)
      → All Ascii ts
      → (b' : ToolResultBuilder J) × (write_all ts b ≡ some b')
  write_all-Ascii [] b a = (b, refl)
  write_all-Ascii (t ∷ ts) b (a, rest_a) =
      let ((b1, n), wrote) = write-Ascii t b a in
      let (b', rest) = write_all-Ascii ts b1 rest_a in (b', rw (wrote) rest)

  new-InBudget :
      (mc : ℕ) (ml : Option ℕ) (b : ToolResultBuilder J) → new J mc ml ≡ some b → InBudget mc b
  unfolding new concat byte_len
  new-InBudget mc ml b h = elim (Bool-cases (admits J ml)) [
    | inr refused ↦ absurd (cc (refused, h))
    | inl admitted ↦
        let made : new_builder J mc ml ≡ b = cc (admitted, h) in
        subst (InBudget mc) made
          (record { marked = refl; capped = refl; counted = refl; bounded = omega arith })
  ]

  -- After any calls of `write` on a new builder, none of which panics, the count of bytes is that of
  -- the output, and at most 15 over the budget; and no call panics if the texts are ASCII.
  pub write_all-budget :
      (mc : ℕ) (ml : Option ℕ) (b : ToolResultBuilder J) (ts : List Text)
      → new J mc ml ≡ some b
      → ((b' : ToolResultBuilder J)
          → write_all ts b ≡ some b'
          → (b'.n_chars ≡ byte_len (concat b'.buffer)) × (byte_len (concat b'.buffer) ≤ mc + 15))
        × (All Ascii ts → (b' : ToolResultBuilder J) × (write_all ts b ≡ some b'))
  write_all-budget mc ml b ts h = (
    λ b' e.
        let i = write_all-InBudget mc ts b b' (new-InBudget mc ml b h) e in
        (i.counted, omega (arith, i.counted, i.bounded)),
    write_all-Ascii ts b,
  )
