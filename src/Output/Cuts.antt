-- ===== src/Output/Cuts.antt =====
-- A line cut to a limit, and the bytes of a buffer.
use rusty_kimi.Common.{
  ℕ, ◌+◌, ◌-◌, ◌≤◌, ◌≡◌, refl, true, false, List, [], ◌∷◌, ◌++◌, some, arith, All, Bool-cases,
  Option-cases, inl, inr, max, leb,
}
use rusty_kimi.Common.Utf8.{
  byte_len, byte_len-append, split_bytes, split_bytes_sound, split_bytes-ascii, is_ascii,
}
use rusty_kimi.Message.{Text}
use rusty_kimi.Output.{trailing_breaks, truncate_line, concat}
use rusty_kimi.Output.Lines.{IsLine, trailing_breaks-le}

pub concat-snoc :
    (ts : List Text) (t : Text)
    → byte_len (concat (ts ++ t ∷ [])) ≡ byte_len (concat ts) + byte_len t
unfolding concat byte_len
concat-snoc [] t = rw (byte_len-append t []) (omega arith)
concat-snoc (s ∷ ts) t =
    rw (byte_len-append s (concat (ts ++ t ∷ [])))
      (rw (concat-snoc ts t) (rw (byte_len-append s (concat ts)) (omega arith)))

truncate_line-cut :
    (line : Text) (m : ℕ) (marker out : Text)
    → leb (byte_len line) m ≡ false
    → truncate_line line m marker ≡ some out
    → let end = marker ++ trailing_breaks line in
      (s : Text) × (u : Text) × (split_bytes (max m (byte_len end) - byte_len end) line
        ≡ some (s, u))
      × (out ≡ s ++ end)
unfolding truncate_line
truncate_line-cut line m marker out long h =
    let end = marker ++ trailing_breaks line in
    elim (Option-cases (split_bytes (max m (byte_len end) - byte_len end) line)) [
      | inl panic ↦ absurd (cc (long, panic, h))
      | inr ((s, u), cut) ↦ (s, u, cut, cc (long, cut, h))
    ]

-- A line comes out within its limit, or as the marker and its line break.
pub truncate_line-le :
    (line : Text) (m : ℕ) (marker out : Text)
    → IsLine line
    → truncate_line line m marker ≡ some out
    → byte_len out ≤ max m (byte_len marker + 2)
unfolding truncate_line
truncate_line-le line m marker out l h = elim (Bool-cases (leb (byte_len line) m)) [
  | inl short ↦ let same : line ≡ out = cc (short, h) in rw (← same) (ground (arith, short))
  | inr long ↦
      let (s, u, cut, same) = truncate_line-cut line m marker out long h in
      let end = marker ++ trailing_breaks line in
      rw (same) (
        rw (byte_len-append s end) (
          ground (
            arith,
            (split_bytes_sound (max m (byte_len end) - byte_len end) line s u cut).0,
            byte_len-append marker (trailing_breaks line),
            trailing_breaks-le line l,
          )))
]

-- Of an ASCII line something comes out.
pub truncate_line-ascii :
    (line : Text) (m : ℕ) (marker : Text)
    → All (λ c. is_ascii c ≡ true) line
    → (out : Text) × (truncate_line line m marker ≡ some out)
unfolding truncate_line
truncate_line-ascii line m marker a = elim (Bool-cases (leb (byte_len line) m)) [
  | inl short ↦ (line, rw (short) refl)
  | inr long ↦
      let end = marker ++ trailing_breaks line in
      let (r, cut) =
        split_bytes-ascii (max m (byte_len end) - byte_len end) line a (ground (arith, long)) in
      (r.0 ++ end, rw (long) (rw (cut) refl))
]
