-- ===== src/Slash/Calls.antt =====
-- Which inputs are calls.
use rusty_kimi.Common.{
  ℕ, ◌≡◌, ◌↔◌, refl, sym, ◌∙◌, ap, subst, true, false, [], ◌∷◌, ◌++◌, some, arith, ◌==◌, ==_iff,
  ◌&&◌, ◌||◌, Bool-cases, inl, inr,
}
use rusty_kimi.Common.Chars.{trim, trim_start, is_whitespace}
use rusty_kimi.Message.{Text}
use rusty_kimi.Slash.{
  SlashCommandCall, is_name, starts_name, take_name, ends_word, call_from, parse_trimmed,
  parse_slash_command_call,
}

-- Words of the class, joined by single colons.
abbrev pub Colons : Text → Type 0
Colons [] = Unit
Colons (c ∷ t) = ((is_name c || (c == 58 && starts_name t)) ≡ true) × Colons t

-- A slash, a name, and arguments that stand apart from it.
pub record IsCall (input : Text) (call : SlashCommandCall) : Type 0 where
  pub rest : Text
  pub written : input ≡ 47 ∷ (call.name ++ rest)
  pub starts : starts_name call.name ≡ true
  pub colons : Colons call.name
  pub apart : ends_word rest ≡ true
  pub args : call.args ≡ trim_start rest
  pub raw : call.raw_input ≡ input

-- What is taken and what is left are the text.
take_name-append : (t : Text) → (take_name t).0 ++ (take_name t).1 ≡ t
unfolding take_name
take_name-append [] = refl
take_name-append (c ∷ t) = elim (Bool-cases (is_name c || (c == 58 && starts_name t))) [
  | inl more ↦ rw (more) (ap (λ x. c ∷ x) (take_name-append t))
  | inr done ↦ rw (done) refl
]

starts_name-take : (t : Text) → starts_name (take_name t).0 ≡ starts_name t
unfolding take_name starts_name
starts_name-take [] = refl
starts_name-take (c ∷ t) = elim (Bool-cases (is_name c || (c == 58 && starts_name t))) [
  | inl more ↦ rw (more) refl
  | inr done ↦ rw (done) (ground (arith, done))
]

take_name-Colons : (t : Text) → Colons (take_name t).0
unfolding take_name
take_name-Colons [] = tt
take_name-Colons (c ∷ t) = elim (Bool-cases (is_name c || (c == 58 && starts_name t))) [
  | inl more ↦ rw (more) (rw (starts_name-take t) more, take_name-Colons t)
  | inr done ↦ rw (done) tt
]

whitespace-is_name : (c : ℕ) → is_whitespace c ≡ true → (is_name c ≡ false) × ((c == 58) ≡ false)
unfolding is_whitespace is_name
whitespace-is_name c h = (ground (arith, h), ground (arith, h))

starts_name-append : (s t : Text) → ends_word t ≡ true → starts_name (s ++ t) ≡ starts_name s
unfolding starts_name ends_word
starts_name-append [] [] h = refl
starts_name-append [] (c ∷ t) h = (whitespace-is_name c h).0
starts_name-append (c ∷ s) t h = refl

-- A name that stands apart is taken as it is.
take_name-apart : (s t : Text) → Colons s → ends_word t ≡ true → take_name (s ++ t) ≡ (s, t)
unfolding take_name ends_word
take_name-apart [] [] k h = refl
take_name-apart [] (c ∷ t) k h =
    rw ((whitespace-is_name c h).0) (rw ((whitespace-is_name c h).1) refl)
take_name-apart (c ∷ s) t (k, ks) h =
    rw (starts_name-append s t h) (rw (k) (rw (take_name-apart s t ks h) refl))

call_from-IsCall :
    (t : Text) (call : SlashCommandCall)
    → starts_name t ≡ true
    → (call_from (47 ∷ t) (take_name t) ≡ some call) ↔ IsCall (47 ∷ t) call
unfolding call_from
call_from-IsCall t call start = (
  λ h. elim (Bool-cases (ends_word (take_name t).1)) [
    | inr joined ↦ absurd (cc (joined, h))
    | inl apart ↦
        let taken : SlashCommandCall = record {
          name = (take_name t).0;
          args = trim_start (take_name t).1;
          raw_input = 47 ∷ t;
        } in
        let same : taken ≡ call = cc (apart, h) in
        subst (IsCall (47 ∷ t)) same (record {
          rest = (take_name t).1;
          written = ap (λ x. 47 ∷ x) (sym (take_name-append t));
          starts = starts_name-take t ∙ start;
          colons = take_name-Colons t;
          apart = apart;
          args = refl;
          raw = refl;
        })
  ],
  λ i.
      let body : t ≡ call.name ++ i.rest = cc (i.written) in
      rw (ap take_name body ∙ take_name-apart call.name i.rest i.colons i.apart)
        (rw (i.apart) (rw (← i.args) (rw (← i.raw) refl))),
)

parse_trimmed-IsCall :
    (t : Text) (call : SlashCommandCall) → (parse_trimmed t ≡ some call) ↔ IsCall t call
unfolding parse_trimmed
parse_trimmed-IsCall [] call = (λ h. absurd (cc h), λ i. absurd (cc (i.written)))
parse_trimmed-IsCall (c ∷ t) call = elim (Bool-cases (c == 47)) [
  | inr other ↦ rw (other) (
    λ h. absurd (cc h),
    λ i. let slash : c ≡ 47 = cc (i.written) in absurd (cc (other, (==_iff c 47).1 slash)),
  )
  | inl slash ↦ elim (Bool-cases (starts_name t)) [
    | inl start ↦
        rw (slash) (rw (start) (rw ((==_iff c 47).0 slash) (call_from-IsCall t call start)))
    | inr bare ↦ rw (slash) (
        rw (bare) (
          λ h. absurd (cc h),
          λ i.
              let body : t ≡ call.name ++ i.rest = cc (i.written) in
              absurd (cc (bare, body, starts_name-append call.name i.rest i.apart, i.starts)),
        ))
  ]
]

-- An input is read as a call exactly when it is one: after trimming, a slash, a name of words joined
-- by single colons, and nothing more or white space; the arguments are what follows that, and the
-- call keeps the trimmed input.
pub parse_slash_command_call-IsCall :
    (input : Text) (call : SlashCommandCall)
    → (parse_slash_command_call input ≡ some call) ↔ IsCall (trim input) call
unfolding parse_slash_command_call
parse_slash_command_call-IsCall input call = parse_trimmed-IsCall (trim input) call
