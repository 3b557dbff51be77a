-- ===== src/Soul/Fit.antt =====
-- What holds of a soul before, within and after a step, and how its operations on the context end when
-- the disk works.
use rusty_kimi.Common.{
  ℕ, ◌<◌, ◌≡◌, ◌≢◌, refl, sym, subst, Bool, true, false, List, [], ◌∷◌, Option, none, some, is_some,
  arith, leb, Bool-cases, inl, inr,
}
use rusty_kimi.Common.Int.{ℤ, pos, negsuc}
use rusty_kimi.Message.{Message, Text}
use rusty_kimi.Context.{Codec, Context, append_messages, checkpoint}
use rusty_kimi.Soul.DenwaRenji.{DMail, DenwaRenji, send_over, send_dmail}
use rusty_kimi.Soul.State.{
  Settings, Llm, Services, TurnError, context_failed, Result, ok, err, Soul, M, next,
}
use rusty_kimi.Soul.Marks.{Sound}
use rusty_kimi.Soul.Effects.{send_dmails, on_context, append_soul, checkpoint_soul}

-- A D-mail goes to a checkpoint that there is.
abbrev pub Pending : Option DMail → ℕ → Type 0
Pending none n = Unit
Pending (some dmail) n = (i : ℕ) × (dmail.checkpoint_id ≡ pos i) × (i < n)

send_over-Pending :
    (n : ℕ) (p : Option DMail) (message : Text) (id : ℤ) (d : DenwaRenji)
    → d.n_checkpoints ≡ pos n
    → d.pending ≡ p
    → Pending p n
    → let d' = (send_over p (record { message = message; checkpoint_id = id }) d).0 in
      (d'.n_checkpoints ≡ pos n) × Pending d'.pending n
unfolding send_over
send_over-Pending n (some m) message id d known e h = (known, subst (λ o. Pending o n) (sym e) h)
send_over-Pending n none message (negsuc i) d known e h =
    (known, subst (λ o. Pending o n) (sym e) h)
send_over-Pending n none message (pos i) d known e h =
    let low : leb 0 i ≡ true = ground arith in
    elim (Bool-cases (leb n i)) [
      | inl beyond ↦ rw (low, known, beyond) (refl, subst (λ o. Pending o n) (sym e) h)
      | inr within ↦ rw (low, known, within) (refl, (i, refl, ground (arith, within)))
    ]

pub send_dmails-Pending :
    (n : ℕ) (ms : List DMail) (d : DenwaRenji)
    → d.n_checkpoints ≡ pos n
    → Pending d.pending n
    → let d' = send_dmails ms d in (d'.n_checkpoints ≡ pos n) × Pending d'.pending n
unfolding send_dmails send_dmail
send_dmails-Pending n [] d known h = (known, h)
send_dmails-Pending n (m ∷ ms) d known h =
    let (known', h') = send_over-Pending n d.pending m.message m.checkpoint_id d known refl h in
    send_dmails-Pending n ms (send_dmail m d).0 known' h'

module _ {J : Type 0} (c : Codec J) where
  -- Between steps: the conversation is sound and on disk, and no D-mail waits.
  pub record Ready (k : Context c) (d : DenwaRenji) : Type 0 where
    pub sound : Sound c k
    pub on_disk : is_some k.file ≡ true
    pub no_dmail : d.pending ≡ none

  -- Within a step: a D-mail that waits goes to a checkpoint that there is.
  pub record Fit (k : Context c) (d : DenwaRenji) : Type 0 where
    pub sound : Sound c k
    pub on_disk : is_some k.file ≡ true
    pub known : d.n_checkpoints ≡ pos k.loaded.next_checkpoint_id
    pub valid : Pending d.pending k.loaded.next_checkpoint_id

module _ {J F W : Type 0} (c : Codec J) where
  -- How a turn may end in an error: the context's operations never are the reason.
  abbrev pub Failed : TurnError → Soul F W c → Type 0
  Failed e s = Sound c s.context × (e ≢ context_failed)

  abbrev pub Readies : {A : Type 0} → A → Soul F W c → Type 0
  Readies a s = Ready c s.context s.denwa_renji

  -- What is known of a result.
  abbrev pub Post : {A : Type 0} → (A → Soul F W c → Type 0) → Soul F W c × Result A → Type 0
  Post Q (s, ok a) = Q a s
  Post Q (s, err e) = Failed e s

  pub next-Post :
      {A B : Type 0} (Q : A → Soul F W c → Type 0) (R : B → Soul F W c → Type 0) (k : A → M F W c B)
      (x : Soul F W c × Result A)
      → Post Q x
      → ((a : A) (s : Soul F W c) → Q a s → Post R (k a s))
      → Post R (next k x)
  next-Post Q R k (s, ok a) h f = f a s h
  next-Post Q R k (s, err e) h f = h

module _ {J F W : Type 0} (c : Codec J) (v : Services J F W) (set : Settings) (llm : Option Llm)
    (works : (w : W) → (v.disk w).1 ≡ true) where
  -- The soul after an operation of its context that succeeds.
  abbrev pub after_context : Context c → Soul F W c → Soul F W c
  after_context k s = record s { context = k; world = (v.disk s.world).0 }

  pub on_context_works :
      (f : Bool → Context c → Context c × Bool) (s : Soul F W c)
      → (f true s.context).1 ≡ true
      → on_context c v set llm f s ≡ (after_context (f true s.context).0 s, ok tt)
  unfolding on_context
  on_context_works f s h = rw (works s.world) (rw (h) refl)

  pub append_soul_works :
      (ms : List (Message J)) (s : Soul F W c)
      → append_soul c v set llm ms s
        ≡ (after_context (append_messages c true ms s.context).0 s, ok tt)
  unfolding append_soul
  append_soul_works ms s =
      on_context_works (λ io. append_messages c io ms) s (unfold append_messages in refl)

  checkpoint-succeeds : (add : Bool) (k : Context c) → (checkpoint c true add k).1 ≡ true
  unfolding checkpoint append_messages
  checkpoint-succeeds false k = refl
  checkpoint-succeeds true k = refl

  pub checkpoint-on_disk :
      (add : Bool) (k : Context c) → is_some (checkpoint c true add k).0.file ≡ true
  unfolding checkpoint append_messages
  checkpoint-on_disk false k = refl
  checkpoint-on_disk true k = refl

  pub checkpoint_soul_works :
      (s : Soul F W c)
      → checkpoint_soul c v set llm s
        ≡ (after_context (checkpoint c true set.checkpoint_with_user_message s.context).0 s, ok tt)
  unfolding checkpoint_soul
  checkpoint_soul_works s =
      on_context_works (λ io. checkpoint c io set.checkpoint_with_user_message) s
        (checkpoint-succeeds set.checkpoint_with_user_message s.context)
