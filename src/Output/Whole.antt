-- ===== src/Output/Whole.antt =====
-- Output that fits is kept as it is.
use rusty_kimi.Common.{
  ℕ, ◌+◌, ◌-◌, ◌≤◌, ◌≡◌, refl, sym, ◌∙◌, ap, true, List, [], ◌∷◌, ◌++◌, Option, none, some, arith,
  All, Bool-cases, inl, inr, ==_iff, append_assoc, append-nil,
}
use rusty_kimi.Common.Utf8.{len_utf8-pos, byte_len, byte_len-append}
use rusty_kimi.Message.{Text}
use rusty_kimi.Output.{
  truncate_line, split_lines_keepends, concat, ToolResultBuilder, is_full, limit, push, write_line,
  write_lines, write,
}
use rusty_kimi.Output.Lines.{split_lines_keepends-IsLine}

byte_len-none : (t : Text) → byte_len t ≤ 0 → t ≡ []
unfolding byte_len
byte_len-none [] h = refl
byte_len-none (c ∷ t) h = absurd (omega (arith, h, len_utf8-pos c))

concat-append : (ts us : List Text) → concat (ts ++ us) ≡ concat ts ++ concat us
unfolding concat
concat-append [] us = refl
concat-append (t ∷ ts) us = rw (concat-append ts us) (sym (append_assoc t (concat ts) (concat us)))

module _ (J : Type 0) where
  -- The limit on a line's length, which may be none.
  abbrev pub Fits : Option ℕ → Text → Type 0
  Fits none line = Unit
  Fits (some max_line) line = byte_len line ≤ max_line

  record Kept (b b' : ToolResultBuilder J) (text : Text) : Type 0 where
    pub output : concat b'.buffer ≡ concat b.buffer ++ text
    pub counted : b'.n_chars ≡ b.n_chars + byte_len text
    pub truncation : b'.truncation ≡ b.truncation

  -- What a write adds when nothing is cut.
  abbrev Whole : List Text → ℕ → ToolResultBuilder J → Type 0
  Whole lines w b =
      (b' : ToolResultBuilder J) × (write_lines J lines w b
        ≡ some (b', w + byte_len (concat lines)))
      × Kept b b' (concat lines)

  Fits-limit :
      (o : Option ℕ) (r : ℕ) (line : Text)
      → Fits o line
      → byte_len line ≤ r
      → byte_len line ≤ limit J r o
  Fits-limit none r line f h = h
  Fits-limit (some m) r line f h = omega (arith, f, h)

  truncate_line_whole :
      (line : Text) (m : ℕ) (marker : Text)
      → byte_len line ≤ m
      → truncate_line line m marker ≡ some line
  unfolding truncate_line
  truncate_line_whole line m marker h = ground (arith, h)

  push-Kept : (b : ToolResultBuilder J) (line : Text) → Kept b (push J line line b) line
  unfolding push concat
  push-Kept b line = record {
    output = rw (concat-append b.buffer (line ∷ [])) (rw (append-nil line) refl);
    counted = refl;
    truncation = ground (arith, ==_iff (byte_len line) (byte_len line));
  }

  Kept-trans :
      (b b1 b2 : ToolResultBuilder J) (t u : Text) → Kept b b1 t → Kept b1 b2 u → Kept b b2 (t ++ u)
  Kept-trans b b1 b2 t u k l = record {
    output = l.output ∙ rw (k.output) (append_assoc (concat b.buffer) t u);
    counted = rw (byte_len-append t u) (omega (arith, k.counted, l.counted));
    truncation = l.truncation ∙ k.truncation;
  }

  full-none :
      (b : ToolResultBuilder J) (n : ℕ) → is_full J b ≡ true → b.n_chars + n ≤ b.max_chars → n ≤ 0
  unfolding is_full
  full-none b n full h = ground (arith, full, h)

  pushed-fits :
      (b : ToolResultBuilder J) (line : Text) (n : ℕ)
      → b.n_chars + byte_len line + n ≤ b.max_chars
      → (push J line line b).n_chars + n ≤ (push J line line b).max_chars
  unfolding push
  pushed-fits b line n h = h

  same-Fits :
      (line : Text) (b : ToolResultBuilder J) (lines : List Text)
      → All (Fits b.max_line_length) lines
      → All (Fits (push J line line b).max_line_length) lines
  unfolding push
  same-Fits line b lines f = f

  stopped-Whole :
      (lines : List Text) (w : ℕ) (b : ToolResultBuilder J)
      → write_lines J lines w b ≡ some (b, w)
      → concat lines ≡ []
      → Whole lines w b
  unfolding byte_len
  stopped-Whole lines w b e z = (
    b,
    rw (e) (rw (z) (ap (λ n. some (b, n)) (omega arith))),
    record {
      output = rw (z) (sym (append-nil (concat b.buffer)));
      counted = rw (z) (omega arith);
      truncation = refl;
    },
  )

  write_lines-full :
      (lines : List Text) (w : ℕ) (b : ToolResultBuilder J)
      → is_full J b ≡ true
      → write_lines J lines w b ≡ some (b, w)
  unfolding write_lines
  write_lines-full [] w b full = refl
  write_lines-full (line ∷ lines) w b full = rw (full, write_lines) refl

  write_line_whole :
      (line : Text) (b : ToolResultBuilder J)
      → Fits b.max_line_length line
      → b.n_chars + byte_len line ≤ b.max_chars
      → write_line J line b ≡ some (push J line line b, byte_len line)
  unfolding write_line
  write_line_whole line b f h =
      let le = Fits-limit b.max_line_length (b.max_chars - b.n_chars) line f (omega (arith, h)) in
      rw
        (truncate_line_whole line (limit J (b.max_chars - b.n_chars) b.max_line_length) b.marker le)
        refl

  write_lines-Whole :
      (lines : List Text) (w : ℕ) (b : ToolResultBuilder J)
      → All (Fits b.max_line_length) lines
      → b.n_chars + byte_len (concat lines) ≤ b.max_chars
      → Whole lines w b
  unfolding write_lines concat
  write_lines-Whole [] w b f h = stopped-Whole [] w b refl refl
  write_lines-Whole (line ∷ lines) w b (f, fs) h = elim (Bool-cases (is_full J b)) [
    | inl full ↦ stopped-Whole (line ∷ lines) w b (write_lines-full (line ∷ lines) w b full) (
        byte_len-none (line ++ concat lines) (full-none b (byte_len (line ++ concat lines)) full h))
    | inr free ↦
        let len : byte_len (line ++ concat lines) ≡ byte_len line + byte_len (concat lines) =
          byte_len-append line (concat lines) in
        let wrote = write_line_whole line b f (omega (arith, h, len)) in
        let first = push-Kept b line in
        let (b', rest, kept) =
          write_lines-Whole lines (w + byte_len line) (push J line line b)
            (same-Fits line b lines fs)
            (pushed-fits b line (byte_len (concat lines)) (omega (arith, h, len))) in
        (
          b',
          rw (free, write_lines)
              (rw (wrote) (rw (rest) (ap (λ n. some (b', n)) (omega (arith, len))))),
          Kept-trans b (push J line line b) b' line (concat lines) first kept,
        )
  ]

  -- A text that fits into what is left of the budget, of which no line is longer than a line may be,
  -- is written completely: its bytes are counted, it stands at the end of the output as it is, and
  -- nothing is marked as cut.
  pub write_whole :
      (text : Text) (b : ToolResultBuilder J)
      → All (Fits b.max_line_length) (split_lines_keepends text)
      → b.n_chars + byte_len text ≤ b.max_chars
      → (b' : ToolResultBuilder J) × (write J text b ≡ some (b', byte_len text))
        × (concat b'.buffer ≡ concat b.buffer ++ text)
        × (b'.truncation ≡ b.truncation)
  unfolding write
  write_whole text b f h = elim (Bool-cases (is_full J b)) [
    | inl full ↦
        let none_left : byte_len text ≡ 0 = omega (arith, full-none b (byte_len text) full h) in
        let empty : text ≡ [] = byte_len-none text (omega (arith, none_left)) in
        (b, rw (full) (rw (none_left) refl), rw (empty) (sym (append-nil (concat b.buffer))), refl)
    | inr free ↦
        let (joined, _) = split_lines_keepends-IsLine text in
        let (b', wrote, kept) =
          write_lines-Whole (split_lines_keepends text) 0 b f (rw (joined) h) in
        (
          b',
          rw (free) (wrote ∙ ap (λ n. some (b', n)) (omega (arith, ap byte_len joined))),
          kept.output ∙ ap (λ t. concat b.buffer ++ t) joined,
          kept.truncation,
        )
  ]
