-- ===== src/Common/Utf8.antt =====
-- The standard library's strings by byte offsets: a text is its list of characters, and an offset
-- counts the bytes of their UTF-8 encoding. `none` stands for the panic of a slice whose end is not
-- on a character's boundary.
use Prim.Native.Nat.{ℕ, ◌+◌, ◌-◌, ◌≤◌, ◌<◌}
use mathlib.Core.Logic.{inl, inr}
use mathlib.Core.Path.{◌≡◌, refl, ap}
use mathlib.Core.Bool.{Bool, true}
use mathlib.Core.Option.{Option, none, some}
use mathlib.Core.List.{List, [], ◌∷◌, ◌++◌}
use native.Mathlib.Omega.{arith}
use rusty_kimi.Common.Lists.{All}
use rusty_kimi.Common.Tests.{Bool-cases, ==_iff, ltb, leb, ◌==◌, if◌then◌else◌}

-- `char::len_utf8`.
unfoldable pub len_utf8 : ℕ → ℕ
len_utf8 c = if ltb c 128 then 1 else if ltb c 2048 then 2 else if ltb c 65536 then 3 else 4

pub len_utf8-pos : (c : ℕ) → 0 < len_utf8 c
unfolding len_utf8
len_utf8-pos c = ground arith

-- `str::len`.
unfoldable pub byte_len : List ℕ → ℕ
byte_len [] = 0
byte_len (c ∷ t) = len_utf8 c + byte_len t

pub byte_len-append : (s t : List ℕ) → byte_len (s ++ t) ≡ byte_len s + byte_len t
unfolding byte_len
byte_len-append [] t = omega arith
byte_len-append (c ∷ s) t = rw (byte_len-append s t) (omega arith)

unfoldable pub prepend : ℕ → Option (List ℕ × List ℕ) → Option (List ℕ × List ℕ)
prepend c none = none
prepend c (some (s, t)) = some (c ∷ s, t)

-- `(&t[..n], &t[n..])`.
unfoldable pub split_bytes : ℕ → List ℕ → Option (List ℕ × List ℕ)
unfolding prepend
split_bytes n [] = if n == 0 then some ([], []) else none
split_bytes n (c ∷ t) =
    let rest = split_bytes (n - len_utf8 c) t in
    if n == 0 then some ([], c ∷ t) else if leb (len_utf8 c) n then prepend c rest else none

pub split_bytes-append : (s t : List ℕ) → split_bytes (byte_len s) (s ++ t) ≡ some (s, t)
unfolding byte_len split_bytes
split_bytes-append [] [] = refl
split_bytes-append [] (c ∷ t) = refl
split_bytes-append (c ∷ s) t =
    let over : (len_utf8 c + byte_len s) - len_utf8 c ≡ byte_len s = omega arith in
    rw (over) (rw (split_bytes-append s t) (ground (arith, len_utf8-pos c)))

prepend-some :
    (c : ℕ) (r : Option (List ℕ × List ℕ)) (s u : List ℕ)
    → prepend c r ≡ some (s, u)
    → (s' : List ℕ) × (r ≡ some (s', u)) × (s ≡ c ∷ s')
unfolding prepend
prepend-some c none s u h = absurd (cc h)
prepend-some c (some (s', u')) s u h = (s', cc h, cc h)

nothing-before :
    (n : ℕ) (t s u : List ℕ)
    → ◌≡◌ {A = Option (List ℕ × List ℕ)} (some ([], t)) (some (s, u))
    → n ≡ 0
    → (byte_len s ≡ n) × (s ++ u ≡ t)
unfolding byte_len
nothing-before n t s u h z =
    let first : [] ≡ s = cc h in
    let second : t ≡ u = cc h in rw (← first) (rw (← second) (omega (arith, z), refl))

-- What a split gives is the text, in two parts of which the first has as many bytes as asked for.
pub split_bytes_sound :
    (n : ℕ) (t s u : List ℕ) → split_bytes n t ≡ some (s, u) → (byte_len s ≡ n) × (s ++ u ≡ t)
unfolding split_bytes byte_len
split_bytes_sound n [] s u h = elim (Bool-cases (n == 0)) [
  | inl none_left ↦ nothing-before n [] s u (cc (none_left, h)) ((==_iff n 0).0 none_left)
  | inr more ↦ absurd (cc (more, h))
]
split_bytes_sound n (c ∷ t) s u h = elim (Bool-cases (n == 0)) [
  | inl none_left ↦ nothing-before n (c ∷ t) s u (cc (none_left, h)) ((==_iff n 0).0 none_left)
  | inr more ↦ elim (Bool-cases (leb (len_utf8 c) n)) [
    | inr over ↦ absurd (cc (more, over, h))
    | inl fits ↦
        let (s', below, same) =
          prepend-some c (split_bytes (n - len_utf8 c) t) s u (cc (more, fits, h)) in
        let (len, joined) = split_bytes_sound (n - len_utf8 c) t s' u below in
        rw (same) (ground (arith, len, fits), ap (λ x. c ∷ x) joined)
  ]
]

-- A text of ASCII characters has a boundary at every offset.
abbrev pub is_ascii : ℕ → Bool
is_ascii c = ltb c 128

ascii-len_utf8 : (c : ℕ) → is_ascii c ≡ true → len_utf8 c ≡ 1
unfolding len_utf8
ascii-len_utf8 c h = ground (arith, h)

pub split_bytes-ascii :
    (n : ℕ) (t : List ℕ)
    → All (λ c. is_ascii c ≡ true) t
    → n ≤ byte_len t
    → (r : List ℕ × List ℕ) × (split_bytes n t ≡ some r)
unfolding split_bytes byte_len
split_bytes-ascii n [] a h = (([], []), ground (arith, h))
split_bytes-ascii n (c ∷ t) (ascii, a) h = elim (Bool-cases (n == 0)) [
  | inl none_left ↦ (([], c ∷ t), rw (none_left) refl)
  | inr more ↦
      let one : len_utf8 c ≡ 1 = ascii-len_utf8 c ascii in
      let (r, below) = split_bytes-ascii (n - len_utf8 c) t a (omega (arith, h)) in
      ((c ∷ r.0, r.1), ground (arith, more, one, below, ==_iff n 0))
]
