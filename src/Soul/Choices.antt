-- ===== src/Soul/Choices.antt =====
-- What `parse_choice` finds.
use rusty_kimi.Common.{
  ℕ, ◌≡◌, refl, ◌∙◌, ap, false, [], ◌∷◌, ◌++◌, Option, none, some, arith, ◌==◌, All,
}
use rusty_kimi.Common.Chars.{codes, trim}
use rusty_kimi.Message.{Text}
use rusty_kimi.Soul.Prompts.{after_prefix, until_bracket, closed_choice, choice_at, parse_choice}

-- The text has no `<`.
abbrev pub NoBracket : Text → Type 0
NoBracket = All (λ c. (c == 60) ≡ false)

until_bracket-NoBracket : (x t : Text) → NoBracket x → until_bracket (x ++ 60 ∷ t) ≡ (x, 60 ∷ t)
unfolding until_bracket
until_bracket-NoBracket [] t h = refl
until_bracket-NoBracket (c ∷ cs) t (h, hs) = rw (h, until_bracket-NoBracket cs t hs) refl

choice_at-captures :
    (x after : Text)
    → NoBracket x
    → choice_at (codes "<choice>" ++ (x ++ (codes "</choice>" ++ after))) ≡ some (trim x)
unfolding choice_at closed_choice after_prefix
choice_at-captures x after h =
    ap closed_choice (until_bracket-NoBracket x (codes "/choice>" ++ after) h)

-- A character that is no `<` begins no match.
choice_at-other : (c : ℕ) (cs : Text) → (c == 60) ≡ false → choice_at (c ∷ cs) ≡ none
unfolding choice_at after_prefix
choice_at-other c cs h = let h' : (60 == c) ≡ false = ground (arith, h) in rw (h', choice_at) refl

skipped :
    (o here : Option Text)
    → here ≡ none
    → elim o as (λ _. Option Text) [ some choice ↦ some choice | none ↦ here ] ≡ o
skipped none here h = h
skipped (some x) here h = refl

parse_choice-skip : (x t : Text) → NoBracket x → parse_choice (x ++ t) ≡ parse_choice t
unfolding parse_choice
parse_choice-skip [] t h = refl
parse_choice-skip (c ∷ cs) t (h, hs) =
    skipped (parse_choice (cs ++ t)) (choice_at (c ∷ (cs ++ t))) (choice_at-other c (cs ++ t) h)
    ∙ parse_choice-skip cs t hs

parse_choice-NoBracket : (x : Text) → NoBracket x → parse_choice x ≡ none
unfolding parse_choice
parse_choice-NoBracket [] h = refl
parse_choice-NoBracket (c ∷ cs) (h, hs) =
    skipped (parse_choice cs) (choice_at (c ∷ cs)) (choice_at-other c cs h)
    ∙ parse_choice-NoBracket cs hs

-- A match further on is the one that counts.
parse_choice-later :
    (before t found : Text) → parse_choice t ≡ some found → parse_choice (before ++ t) ≡ some found
unfolding parse_choice
parse_choice-later [] t found h = h
parse_choice-later (c ∷ cs) t found h = rw (parse_choice-later cs t found h) refl

-- The closing tag begins no match.
parse_choice-closing :
    (after : Text) → NoBracket after → parse_choice (codes "</choice>" ++ after) ≡ none
unfolding parse_choice choice_at after_prefix
parse_choice-closing after h =
    let rest : parse_choice (codes "/choice>" ++ after) ≡ none =
      parse_choice-skip (codes "/choice>") after
        (refl, (refl, (refl, (refl, (refl, (refl, (refl, (refl, tt))))))))
      ∙ parse_choice-NoBracket after h in
    rw (rest) refl

-- The choice of a reply is what stands in its last choice tag, trimmed: for a tag after which no `<`
-- comes and in which there is none, whatever comes before it.
pub parse_choice-last :
    (before x after : Text)
    → NoBracket x
    → NoBracket after
    → parse_choice (before ++ (codes "<choice>" ++ (x ++ (codes "</choice>" ++ after))))
      ≡ some (trim x)
unfolding parse_choice
parse_choice-last before x after hx ha =
    let tail = x ++ (codes "</choice>" ++ after) in
    let rest : parse_choice (codes "choice>" ++ tail) ≡ none =
      parse_choice-skip (codes "choice>") tail
        (refl, (refl, (refl, (refl, (refl, (refl, (refl, tt)))))))
      ∙ parse_choice-skip x (codes "</choice>" ++ after) hx
      ∙ parse_choice-closing after ha in
    let here : parse_choice (codes "<choice>" ++ tail) ≡ some (trim x) =
      rw (rest, parse_choice) (choice_at-captures x after hx) in
    parse_choice-later before (codes "<choice>" ++ tail) (trim x) here
