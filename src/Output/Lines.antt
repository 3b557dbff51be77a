-- ===== src/Output/Lines.antt =====
-- The lines of a text, with their line breaks.
use rusty_kimi.Common.{
  ℕ, ◌≤◌, ◌≡◌, ◌⊎◌, inl, inr, refl, sym, ◌∙◌, true, false, [], ◌∷◌, ◌++◌, arith, All, append_assoc,
  append-nil, Bool-cases, ◌==◌, ◌&&◌,
}
use rusty_kimi.Common.Utf8.{len_utf8, byte_len}
use rusty_kimi.Message.{Text}
use rusty_kimi.Output.{
  is_line_break, trailing_breaks, last_line, lines_from, split_lines_keepends, concat, is_crlf,
}

-- Line breaks stand at the end, and there only one, or the two of "\r\n".
abbrev pub IsLine : Text → Type 0
IsLine [] = Unit
IsLine (c ∷ []) = Unit
IsLine (c ∷ d ∷ t) = ((is_line_break c ≡ false) × IsLine (d ∷ t)) ⊎ ((c ≡ 13) × (d ≡ 10) × (t ≡ []))

abbrev Plain : Text → Type 0
Plain = All (λ c. is_line_break c ≡ false)

Plain-append : (s : Text) (c : ℕ) → Plain s → is_line_break c ≡ false → Plain (s ++ c ∷ [])
Plain-append [] c p h = (h, tt)
Plain-append (d ∷ s) c (q, p) h = (q, Plain-append s c p h)

IsLine-cons : (c : ℕ) (t : Text) → is_line_break c ≡ false → IsLine t → IsLine (c ∷ t)
IsLine-cons c [] h l = tt
IsLine-cons c (d ∷ t) h l = inl (h, l)

IsLine-append : (s t : Text) → Plain s → IsLine t → IsLine (s ++ t)
IsLine-append [] t p l = l
IsLine-append (c ∷ s) t (h, p) l = IsLine-cons c (s ++ t) h (IsLine-append s t p l)

Plain-IsLine : (s : Text) → Plain s → IsLine s
Plain-IsLine [] p = tt
Plain-IsLine (c ∷ s) (h, p) = IsLine-cons c s h (Plain-IsLine s p)

last_line-IsLine : (s : Text) → IsLine s → All IsLine (last_line s)
last_line-IsLine [] l = tt
last_line-IsLine (c ∷ s) l = (l, tt)

concat-last_line : (s : Text) → concat (last_line s) ≡ s
unfolding concat
concat-last_line [] = refl
concat-last_line (c ∷ s) = append-nil (c ∷ s)

cr_lf : (c d : ℕ) → (c == 13 && d == 10) ≡ true → (c ≡ 13) × (d ≡ 10)
cr_lf c d h = (ground (arith, h), ground (arith, h))

lines_from-IsLine : (line t : Text) → Plain line → All IsLine (lines_from line t)
unfolding lines_from
lines_from-IsLine line [] p = last_line-IsLine line (Plain-IsLine line p)
lines_from-IsLine line (c ∷ []) p = elim (Bool-cases (is_line_break c)) [
  | inl break ↦ rw (break) (IsLine-append line (c ∷ []) p tt, tt)
  | inr inside ↦ rw (inside) (
      last_line-IsLine (line ++ c ∷ [])
        (Plain-IsLine (line ++ c ∷ []) (Plain-append line c p inside)))
]
lines_from-IsLine line (c ∷ d ∷ t) p = elim (Bool-cases (is_line_break c)) [
  | inr inside ↦
      rw (inside, lines_from)
        (lines_from-IsLine (line ++ c ∷ []) (d ∷ t) (Plain-append line c p inside))
  | inl break ↦
      rw (break, lines_from)
        (elim (Bool-cases (c == 13 && d == 10)) [
          | inl both ↦
              rw (both, lines_from)
                (
                  IsLine-append line (c ∷ d ∷ []) p
                      (inr (let (r, n) = cr_lf c d both in (r, n, refl))),
                  lines_from-IsLine [] t tt,
                )
          | inr one ↦
              rw (one, lines_from)
                (IsLine-append line (c ∷ []) p tt, lines_from-IsLine [] (d ∷ t) tt)
        ])
]

concat-lines_from : (line t : Text) → concat (lines_from line t) ≡ line ++ t
unfolding lines_from concat
concat-lines_from line [] = concat-last_line line ∙ sym (append-nil line)
concat-lines_from line (c ∷ []) = elim (Bool-cases (is_line_break c)) [
  | inl break ↦ rw (break) (append-nil (line ++ c ∷ []))
  | inr inside ↦ rw (inside) (concat-last_line (line ++ c ∷ []))
]
concat-lines_from line (c ∷ d ∷ t) = elim (Bool-cases (is_line_break c)) [
  | inr inside ↦
      rw (inside, lines_from)
        (concat-lines_from (line ++ c ∷ []) (d ∷ t) ∙ append_assoc line (c ∷ []) (d ∷ t))
  | inl break ↦
      rw (break, lines_from)
        (elim (Bool-cases (c == 13 && d == 10)) [
          | inl both ↦
              rw (both, lines_from) (rw (concat-lines_from [] t) (append_assoc line (c ∷ d ∷ []) t))
          | inr one ↦
              rw (one, lines_from)
                (rw (concat-lines_from [] (d ∷ t)) (append_assoc line (c ∷ []) (d ∷ t)))
        ])
]

no_crlf : (c : ℕ) → is_line_break c ≡ false → is_crlf c ≡ false
unfolding is_line_break
no_crlf c h = ground (arith, h)

pub trailing_breaks-le : (t : Text) → IsLine t → byte_len (trailing_breaks t) ≤ 2
unfolding trailing_breaks byte_len len_utf8
trailing_breaks-le [] l = omega arith
trailing_breaks-le (c ∷ []) l = ground arith
trailing_breaks-le (c ∷ d ∷ t) (inl (h, l)) = rw (no_crlf c h) (trailing_breaks-le (d ∷ t) l)
trailing_breaks-le (c ∷ d ∷ t) (inr (r, n, e)) = rw (r) (rw (n) (rw (e) (omega arith)))

-- Splitting a text into lines loses nothing: put together they are the text; and in each of them a
-- line break stands only at its end, a single one or "\r\n".
pub split_lines_keepends-IsLine :
    (text : Text)
    → (concat (split_lines_keepends text) ≡ text) × All IsLine (split_lines_keepends text)
unfolding split_lines_keepends
split_lines_keepends-IsLine text = (concat-lines_from [] text, lines_from-IsLine [] text tt)
