-- ===== src/Compaction/Kept.antt =====
-- What a compaction keeps: the shortest end of the conversation with enough turns in it.
use rusty_kimi.Common.{
  ℕ, ◌+◌, ◌≤◌, ◌<◌, ◌≡◌, ◌≢◌, refl, sym, ◌∙◌, ap, true, false, List, [], ◌∷◌, ◌++◌, none, some,
  arith, length, take, drop, ◌==◌, if◌then◌else◌, Bool-cases, Option-cases, inl, inr, length-append,
  append_assoc, append-nil,
}
use rusty_kimi.Message.{Text, Message}
use rusty_kimi.Compaction.{PrepareResult, speaks, backwards, find_start, ask, prepare_from, prepare}

module _ {J : Type 0} where
  -- How many messages of users and of the assistant.
  unfoldable pub turns : List (Message J) → ℕ
  turns [] = 0
  turns (m ∷ ms) = (if speaks m.role then 1 else 0) + turns ms

  pub turns-append : (xs ys : List (Message J)) → turns (xs ++ ys) ≡ turns xs + turns ys
  unfolding turns
  turns-append [] ys = omega arith
  turns-append (x ∷ xs) ys = omega (arith, turns-append xs ys)

  turns-backwards : (ms : List (Message J)) → turns (backwards ms) ≡ turns ms
  unfolding turns
  turns-backwards [] = refl
  turns-backwards (m ∷ ms) = omega (arith, turns-append (backwards ms) (m ∷ []), turns-backwards ms)

  backwards-snoc :
      (xs : List (Message J)) (x : Message J) → backwards (xs ++ x ∷ []) ≡ x ∷ backwards xs
  backwards-snoc [] x = refl
  backwards-snoc (y ∷ ys) x = ap (λ l. l ++ y ∷ []) (backwards-snoc ys x)

  pub backwards-append :
      (xs ys : List (Message J)) → backwards (xs ++ ys) ≡ backwards ys ++ backwards xs
  backwards-append [] ys = sym (append-nil (backwards ys))
  backwards-append (x ∷ xs) ys =
      ap (λ l. l ++ x ∷ []) (backwards-append xs ys)
      ∙ append_assoc (backwards ys) (backwards xs) (x ∷ [])

  pub backwards-backwards : (ms : List (Message J)) → backwards (backwards ms) ≡ ms
  backwards-backwards [] = refl
  backwards-backwards (m ∷ ms) =
      backwards-snoc (backwards ms) m ∙ ap (◌∷◌ m) (backwards-backwards ms)

  pub length-backwards : (ms : List (Message J)) → length (backwards ms) ≡ length ms
  length-backwards [] = refl
  length-backwards (m ∷ ms) =
      omega (arith, length-append (backwards ms) (m ∷ []), length-backwards ms)

  take-length : (xs ys : List (Message J)) → take (length xs) (xs ++ ys) ≡ xs
  take-length [] ys = refl
  take-length (x ∷ xs) ys = ap (◌∷◌ x) (take-length xs ys)

  pub drop-length : (xs ys : List (Message J)) → drop (length xs) (xs ++ ys) ≡ ys
  drop-length [] ys = refl
  drop-length (x ∷ xs) ys = drop-length xs ys

  -- Where the loop stops: at a turn that makes the count full.
  pub record Stops (most preserved : ℕ) (rs : List (Message J)) (start : ℕ) : Type 0 where
    pub after : List (Message J)
    pub first : Message J
    pub before : List (Message J)
    pub split : rs ≡ after ++ first ∷ before
    pub at : length before ≡ start
    pub full : preserved + turns after + 1 ≡ most
    pub turn : speaks first.role ≡ true

  pub find_start-Stops :
      (most preserved : ℕ) (rs : List (Message J)) (start : ℕ)
      → find_start most preserved rs ≡ some start
      → Stops most preserved rs start
  unfolding find_start turns
  find_start-Stops most preserved [] start h = cc h
  find_start-Stops most preserved (m ∷ rs) start h = elim (Bool-cases (speaks m.role)) [
    | inr silent ↦
        let h' : find_start most preserved rs ≡ some start = ground (arith, silent, h) in
        let s = find_start-Stops most preserved rs start h' in
        record {
          after = m ∷ s.after;
          first = s.first;
          before = s.before;
          split = ap (◌∷◌ m) s.split;
          at = s.at;
          full = ground (arith, silent, s.full);
          turn = s.turn;
        }
    | inl turn ↦ elim (Bool-cases ((preserved + 1) == most)) [
      | inl full ↦ record {
        after = [];
        first = m;
        before = rs;
        split = refl;
        at = ground (arith, turn, full, h);
        full = ground (arith, full);
        turn = turn;
      }
      | inr more ↦
          let h' : find_start most (preserved + 1) rs ≡ some start =
            ground (arith, turn, more, h) in
          let s = find_start-Stops most (preserved + 1) rs start h' in
          record {
            after = m ∷ s.after;
            first = s.first;
            before = s.before;
            split = ap (◌∷◌ m) s.split;
            at = s.at;
            full = ground (arith, turn, s.full);
            turn = s.turn;
          }
    ]
  ]

  find_start-none :
      (most preserved : ℕ) (rs : List (Message J))
      → preserved < most
      → find_start most preserved rs ≡ none
      → preserved + turns rs < most
  unfolding find_start turns
  find_start-none most preserved [] lt h = omega arith
  find_start-none most preserved (m ∷ rs) lt h = elim (Bool-cases (speaks m.role)) [
    | inr silent ↦
        let h' : find_start most preserved rs ≡ none = ground (arith, silent, h) in
        ground (arith, silent, find_start-none most preserved rs lt h')
    | inl turn ↦ elim (Bool-cases ((preserved + 1) == most)) [
      | inl full ↦
          let stopped : some (length rs) ≡ none = ground (arith, turn, full, h) in cc stopped
      | inr more ↦
          let h' : find_start most (preserved + 1) rs ≡ none = ground (arith, turn, more, h) in
          let lt' : preserved + 1 < most = ground (arith, more) in
          ground (arith, turn, find_start-none most (preserved + 1) rs lt' h')
    ]
  ]

  -- A conversation that is kept whole has no more turns than may be kept; of another, what is
  -- kept is its end from a turn on, with exactly as many turns, and the request has the rest.
  pub record Prepared (most : ℕ) (prompt : Text) (messages : List (Message J))
      (old : List (Message J)) (r : PrepareResult J) : Type 0 where
    pub kept : messages ≡ old ++ r.to_preserve
    pub asked : r ≡ ask prompt old r.to_preserve
    pub few : old ≡ [] → turns messages ≤ most
    pub enough : old ≢ [] → turns r.to_preserve ≡ most

  ask-preserve :
      (prompt : Text) (old keep : List (Message J)) → (ask prompt old keep).to_preserve ≡ keep
  unfolding ask
  ask-preserve prompt [] keep = refl
  ask-preserve prompt (m ∷ ms) keep = refl

  asked-Prepared :
      (most : ℕ) (prompt : Text) (messages old keep : List (Message J))
      → messages ≡ old ++ keep
      → turns keep ≡ most
      → Prepared most prompt messages old (ask prompt old keep)
  unfolding turns
  asked-Prepared most prompt messages old keep split full = record {
    kept = split ∙ ap (◌++◌ old) (sym (ask-preserve prompt old keep));
    asked = ap (ask prompt old) (sym (ask-preserve prompt old keep));
    few = λ none_old. omega (arith, ap turns split, turns-append old keep, ap turns none_old, full);
    enough = λ some_old. ap turns (ask-preserve prompt old keep) ∙ full;
  }

  found-Prepared :
      (most start : ℕ) (prompt : Text) (messages : List (Message J))
      → Stops most 0 (backwards messages) start
      → (old : List (Message J)) × Prepared most prompt messages old
          (prepare_from prompt messages (some start))
  unfolding prepare_from turns
  found-Prepared most start prompt messages s =
      let old = backwards s.before in
      let keep = s.first ∷ backwards s.after in
      let split : messages ≡ old ++ keep =
        sym (backwards-backwards messages)
        ∙ ap backwards s.split
        ∙ backwards-append s.after (s.first ∷ s.before)
        ∙ append_assoc old (s.first ∷ []) (backwards s.after) in
      let at : start ≡ length old = sym s.at ∙ sym (length-backwards s.before) in
      let front : take start messages ≡ old =
        ap (λ n. take n messages) at ∙ ap (take (length old)) split ∙ take-length old keep in
      let back : drop start messages ≡ keep =
        ap (λ n. drop n messages) at ∙ ap (drop (length old)) split ∙ drop-length old keep in
      let full : turns keep ≡ most = ground (arith, s.full, s.turn, turns-backwards s.after) in
      (old, rw (front) (rw (back) (asked-Prepared most prompt messages old keep split full)))

  -- A compaction that may keep `most` turns (messages of the user or the assistant), but not 0,
  -- splits the conversation into an old part, of which the request to the model is made, and an
  -- end that is kept: with nothing old the conversation has no more than `most` turns, and
  -- otherwise the end that is kept has exactly `most`.
  pub prepare-Prepared :
      (most : ℕ) (prompt : Text) (messages : List (Message J))
      → 0 < most
      → (old : List (Message J)) × Prepared most prompt messages old (prepare most prompt messages)
  unfolding prepare prepare_from turns
  prepare-Prepared most prompt [] positive = (
    [],
    record {
      kept = refl;
      asked = unfold ask in refl;
      few = λ e. omega arith;
      enough = λ e. absurd (e refl);
    },
  )
  prepare-Prepared most prompt (m ∷ ms) positive =
      let messages = m ∷ ms in
      let nonzero : (most == 0) ≡ false = ground (arith, positive) in
      elim (Option-cases (find_start most 0 (backwards messages))) [
        | inl short ↦
            let bound = find_start-none most 0 (backwards messages) positive short in
            (
              [],
              rw (nonzero) (
                  rw (short) (record {
                    kept = refl;
                    asked = unfold ask in refl;
                    few = λ e. omega (arith, bound, turns-backwards messages);
                    enough = λ e. absurd (e refl);
                  })),
            )
        | inr (start, found) ↦
            let (old, p) =
              found-Prepared most start prompt messages
                (find_start-Stops most 0 (backwards messages) start found) in
            (old, rw (nonzero) (rw (found) p))
      ]
