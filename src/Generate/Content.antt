-- ===== src/Generate/Content.antt =====
-- What the message of `generate` holds: its content, its tool calls with their arguments, and the
-- calls that `on_tool_call` saw.
use rusty_kimi.Common.{
  ◌≡◌, refl, sym, Bool, true, false, List, [], ◌∷◌, ◌++◌, Option, none, some, arith, append-nil,
}
use rusty_kimi.Message.{
  ContentPart, ToolCall, StreamedMessagePart, content, tool_call, tool_call_part, merge_content,
  merge_part, as_content,
}
use rusty_kimi.Message.Atoms.{
  Atom, content_atoms, call_atoms, argument_atoms, part_atoms, concat_atoms, concat_atoms-append,
  content_atoms-merge, part_atoms-merge, as_content-eq-some,
}
use rusty_kimi.Generate.{Stream, State, start, append_part, generate, push_call}
use rusty_kimi.Generate.Assembly.{View, parts, Ends, successor, generate-held}

module _ {J : Type 0} where
  -- The atoms of a part's content, and those of its tool call or argument fragment.
  unfoldable pub content_only : StreamedMessagePart J → List (Atom J)
  content_only (content c) = content_atoms c
  content_only (tool_call c) = []
  content_only (tool_call_part p) = []

  unfoldable pub call_only : StreamedMessagePart J → List (Atom J)
  call_only (content c) = []
  call_only (tool_call c) = call_atoms c
  call_only (tool_call_part p) = argument_atoms p

  -- The tool calls of a message; `None` is no call.
  unfoldable pub calls_of : Option (List (ToolCall J)) → List (ToolCall J)
  calls_of none = []
  calls_of (some calls) = calls

  content_only-merge :
      (a b c : StreamedMessagePart J)
      → merge_part a b ≡ some c
      → content_only c ≡ content_only a ++ content_only b
  unfolding content_only merge_part
  content_only-merge (content a) (content b) c h =
      let (m, merged, e) = as_content-eq-some (merge_content a b) c h in
      rw (← e) (content_atoms-merge a b m merged)
  content_only-merge (tool_call a) (tool_call_part b) c h = ground arith
  content_only-merge (tool_call_part a) (tool_call_part b) c h = ground arith
  content_only-merge _ _ c h = cc

  call_only-merge :
      (a b c : StreamedMessagePart J)
      → merge_part a b ≡ some c
      → call_only c ≡ call_only a ++ call_only b
  unfolding call_only merge_part part_atoms
  call_only-merge (content a) (content b) c h =
      let (m, merged, e) = as_content-eq-some (merge_content a b) c h in rw (← e)
  call_only-merge (tool_call a) (tool_call_part b) c h =
      ground (arith, part_atoms-merge (tool_call a) (tool_call_part b) c h)
  call_only-merge (tool_call_part a) (tool_call_part b) c h =
      ground (arith, part_atoms-merge (tool_call_part a) (tool_call_part b) c h)
  call_only-merge _ _ c h = cc

  content-append_part :
      (p : StreamedMessagePart J) (s : State J)
      → concat_atoms content_atoms (append_part p s).message.content
        ≡ concat_atoms content_atoms s.message.content ++ content_only p
  unfolding append_part content_only
  content-append_part (content c) s =
      rw (concat_atoms-append content_atoms s.message.content (c ∷ []))
        (unfold concat_atoms in rw (append-nil (content_atoms c)))
  content-append_part (tool_call c) s = sym (append-nil _)
  content-append_part (tool_call_part p) s = sym (append-nil _)

  content_view : View J
  content_view = record {
    of_part = content_only;
    held = λ m calls. concat_atoms content_atoms m.content;
    Legal = λ pending ps. Unit {0};
    merges = content_only-merge;
    appends = λ p ps s legal. content-append_part p s;
    proceeds = λ pending p ps legal. tt;
  }

  -- Every argument fragment continues a tool call: none comes first, or after content.
  abbrev pub Attached : Bool → List (StreamedMessagePart J) → Type 0
  Attached b [] = Unit
  Attached b (content c ∷ ps) = Attached false ps
  Attached b (tool_call c ∷ ps) = Attached true ps
  Attached true (tool_call_part p ∷ ps) = Attached true ps
  Attached false (tool_call_part p ∷ ps) = ⊥

  -- The same with the pending part, which is no fragment then.
  abbrev AttachedTo : Option (StreamedMessagePart J) → List (StreamedMessagePart J) → Type 0
  AttachedTo none ps = Attached false ps
  AttachedTo (some (content c)) ps = Attached false ps
  AttachedTo (some (tool_call c)) ps = Attached true ps
  AttachedTo (some (tool_call_part p)) ps = ⊥

  successor_content :
      (ps : List (StreamedMessagePart J)) (b : ContentPart) (r : Option ContentPart)
      → Attached false ps
      → AttachedTo (some (elim (as_content r) [ none ↦ content b | some m ↦ m ])) ps
  successor_content ps b none h = h
  successor_content ps b (some m) h = h

  AttachedTo-successor :
      (pending : Option (StreamedMessagePart J)) (p : StreamedMessagePart J)
      (ps : List (StreamedMessagePart J))
      → AttachedTo pending (p ∷ ps)
      → AttachedTo (some (successor p pending)) ps
  unfolding successor merge_part
  AttachedTo-successor none (content c) ps h = h
  AttachedTo-successor none (tool_call c) ps h = h
  AttachedTo-successor none (tool_call_part a) ps h = elim h [ ]
  AttachedTo-successor (some (content a)) (content b) ps h =
      successor_content ps b (merge_content a b) h
  AttachedTo-successor (some (content a)) (tool_call c) ps h = h
  AttachedTo-successor (some (content a)) (tool_call_part b) ps h = elim h [ ]
  AttachedTo-successor (some (tool_call a)) (content b) ps h = h
  AttachedTo-successor (some (tool_call a)) (tool_call c) ps h = h
  AttachedTo-successor (some (tool_call a)) (tool_call_part b) ps h = h
  AttachedTo-successor (some (tool_call_part a)) p ps h = elim h [ ]

  pub calls_of-push_call :
      (c : ToolCall J) (calls : Option (List (ToolCall J)))
      → calls_of (push_call c calls) ≡ calls_of calls ++ c ∷ []
  unfolding calls_of
  calls_of-push_call c none = refl
  calls_of-push_call c (some calls) = refl

  calls-append_part :
      (p : StreamedMessagePart J) (ps : List (StreamedMessagePart J)) (s : State J)
      → AttachedTo (some p) ps
      → concat_atoms call_atoms (calls_of (append_part p s).message.tool_calls)
        ≡ concat_atoms call_atoms (calls_of s.message.tool_calls) ++ call_only p
  unfolding append_part call_only
  calls-append_part (content c) ps s h = sym (append-nil _)
  calls-append_part (tool_call c) ps s h =
      rw
        (
          calls_of-push_call c s.message.tool_calls,
          concat_atoms-append call_atoms (calls_of s.message.tool_calls) (c ∷ []),
        )
        (unfold concat_atoms in rw (append-nil (call_atoms c)))
  calls-append_part (tool_call_part p) ps s h = elim h [ ]

  call_view : View J
  call_view = record {
    of_part = call_only;
    held = λ m calls. concat_atoms call_atoms (calls_of m.tool_calls);
    Legal = AttachedTo;
    merges = call_only-merge;
    appends = calls-append_part;
    proceeds = AttachedTo-successor;
  }

  -- Of a stream that ends without an error, the message's content says exactly what the stream's
  -- content parts say, character by character and in order, whatever tool calls stand between them.
  pub generate-content :
      (stream : Stream J)
      → Ends stream
      → concat_atoms content_atoms (generate none stream).1.message.content
        ≡ concat_atoms content_only (parts stream)
  unfolding content_view
  generate-content stream ends =
      generate-held content_view stream (unfold start concat_atoms in refl) tt ends

  -- Of a stream that ends without an error and in which every argument fragment continues a tool
  -- call, the message's tool calls are those of the stream, in order, with all of their arguments.
  pub generate-calls :
      (stream : Stream J)
      → Ends stream
      → Attached false (parts stream)
      → concat_atoms call_atoms (calls_of (generate none stream).1.message.tool_calls)
        ≡ concat_atoms call_only (parts stream)
  unfolding call_view
  generate-calls stream ends attached =
      generate-held call_view stream (unfold start concat_atoms calls_of in refl) attached ends
