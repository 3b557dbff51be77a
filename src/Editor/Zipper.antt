-- ===== src/Editor/Zipper.antt =====
-- The editor as a zipper: the characters before the cursor, the nearest first, and those after it.
use rusty_kimi.Common.{
  ℕ, ◌+◌, ◌≡◌, refl, sym, ap, List, [], ◌∷◌, ◌++◌, map, Option, none, some, arith, append-nil,
  ◌>>=◌,
}
use rusty_kimi.Common.Utf8.{len_utf8, byte_len, split_bytes, split_bytes-append}
use rusty_kimi.Message.{Text}
use rusty_kimi.Editor.{
  Editor, default, clear, flatten, insert_str, insert, remove_range, last_index, first_end,
  prev_boundary, next_boundary, backspace, delete, left, right, home, to_end,
}

pub record Zipper : Type 0 where
  pub past : Text
  pub ahead : Text

pub data Key : Type 0 where
  types : Text → Key
  backspaces deletes lefts rights homes ends clears : Key

abbrev pub onto : Text → Text → Text
onto [] t = t
onto (c ∷ s) t = onto s (c ∷ t)

abbrev pub pushed : Text → Text → Text
pushed [] past = past
pushed (c ∷ t) past = pushed t (flatten c ∷ past)

abbrev pub forget : Text → Text
forget [] = []
forget (c ∷ t) = t

abbrev pub step_back : Text → Text → Zipper
step_back [] ahead = record { past = []; ahead = ahead }
step_back (c ∷ past) ahead = record { past = past; ahead = c ∷ ahead }

abbrev pub step_on : Text → Text → Zipper
step_on past [] = record { past = past; ahead = [] }
step_on past (c ∷ ahead) = record { past = c ∷ past; ahead = ahead }

-- What each key means.
abbrev pub press : Key → Zipper → Zipper
press (types t) z = record z { past = pushed t z.past }
press backspaces z = record z { past = forget z.past }
press deletes z = record z { ahead = forget z.ahead }
press lefts z = step_back z.past z.ahead
press rights z = step_on z.past z.ahead
press homes z = record { past = []; ahead = onto z.past z.ahead }
press ends z = record { past = onto z.ahead z.past; ahead = [] }
press clears z = record { past = []; ahead = [] }

-- What each key does.
abbrev pub handle : Key → Editor → Option Editor
handle (types t) e = insert t e
handle backspaces e = backspace e
handle deletes e = delete e
handle lefts e = left e
handle rights e = right e
handle homes e = some (home e)
handle ends e = some (to_end e)
handle clears e = some (clear e)

-- The editor that shows a zipper.
abbrev pub shown : Zipper → Editor
shown z = record { buf = onto z.past z.ahead; cursor = byte_len z.past }

onto-append : (s t u : Text) → onto s (t ++ u) ≡ onto s t ++ u
onto-append [] t u = refl
onto-append (c ∷ s) t u = onto-append s (c ∷ t) u

onto_nil : (s t : Text) → onto s t ≡ onto s [] ++ t
onto_nil s t = onto-append s [] t

byte_len-onto : (s t : Text) → byte_len (onto s t) ≡ byte_len s + byte_len t
unfolding byte_len
byte_len-onto [] t = omega arith
byte_len-onto (c ∷ s) t = rw (byte_len-onto s (c ∷ t)) (omega arith)

byte_len-onto_nil : (s : Text) → byte_len (onto s []) ≡ byte_len s
unfolding byte_len
byte_len-onto_nil s = rw (byte_len-onto s []) (omega arith)

split_bytes-onto : (s t : Text) → split_bytes (byte_len s) (onto s t) ≡ some (onto s [], t)
split_bytes-onto s t =
    rw (← byte_len-onto_nil s) (rw (onto_nil s t) (split_bytes-append (onto s []) t))

onto-pushed :
    (t past ahead : Text) → onto (pushed t past) ahead ≡ onto past (map flatten t ++ ahead)
onto-pushed [] past ahead = refl
onto-pushed (c ∷ t) past ahead = onto-pushed t (flatten c ∷ past) ahead

byte_len-pushed :
    (t past : Text) → byte_len (pushed t past) ≡ byte_len past + byte_len (map flatten t)
unfolding byte_len
byte_len-pushed [] past = omega arith
byte_len-pushed (c ∷ t) past = rw (byte_len-pushed t (flatten c ∷ past)) (omega arith)

onto-onto : (s t u : Text) → onto (onto s t) u ≡ onto t (s ++ u)
onto-onto [] t u = refl
onto-onto (c ∷ s) t u = onto-onto s (c ∷ t) u

last_index-append : (at c : ℕ) (s : Text) → last_index at (s ++ c ∷ []) ≡ some (at + byte_len s)
unfolding last_index byte_len
last_index-append at c [] = ap some (omega arith)
last_index-append at c (d ∷ s) =
    rw (last_index-append (at + len_utf8 d) c s) (ap some (omega arith))

last_index-onto : (c : ℕ) (s : Text) → last_index 0 (onto (c ∷ s) []) ≡ some (byte_len s)
last_index-onto c s =
    rw (onto_nil s (c ∷ []))
      (rw (last_index-append 0 c (onto s [])) (rw (byte_len-onto_nil s) (ap some (omega arith))))

prev_boundary-shown :
    (c : ℕ) (s t : Text)
    → prev_boundary (byte_len (c ∷ s)) (shown (record { past = c ∷ s; ahead = t }))
      ≡ some (some (byte_len s))
unfolding prev_boundary
prev_boundary-shown c s t = rw (split_bytes-onto (c ∷ s) t) (rw (last_index-onto c s) refl)

prev_boundary-start :
    (t : Text) → prev_boundary (byte_len []) (shown (record { past = []; ahead = t })) ≡ some none
unfolding prev_boundary last_index
prev_boundary-start t = rw (split_bytes-onto [] t) refl

next_boundary-shown :
    (c : ℕ) (s t : Text)
    → next_boundary (byte_len s) (shown (record { past = s; ahead = c ∷ t }))
      ≡ some (some (byte_len (c ∷ s)))
unfolding next_boundary first_end byte_len
next_boundary-shown c s t = rw (split_bytes-onto s (c ∷ t)) (ap (λ n. some (some n)) (omega arith))

-- The character next to the cursor taken out.
remove_range-onto :
    (c : ℕ) (s t : Text)
    → remove_range (byte_len s) (byte_len (c ∷ s)) (onto s (c ∷ t)) ≡ some (onto s t)
unfolding remove_range
remove_range-onto c s t =
    rw (split_bytes-onto s (c ∷ t)) (rw (split_bytes-onto (c ∷ s) t) (ap some (sym (onto_nil s t))))

insert-shown :
    (text past ahead : Text)
    → insert text (shown (record { past = past; ahead = ahead }))
      ≡ some (shown (record { past = pushed text past; ahead = ahead }))
unfolding insert insert_str
insert-shown text past ahead = rw (split_bytes-onto past ahead) (
    rw (onto-pushed text past ahead)
      (rw (byte_len-pushed text past) (rw (onto_nil past (map flatten text ++ ahead)) refl)))

backspace-shown :
    (past ahead : Text)
    → backspace (shown (record { past = past; ahead = ahead }))
      ≡ some (shown (record { past = forget past; ahead = ahead }))
unfolding backspace byte_len
backspace-shown [] ahead = rw (prev_boundary-start ahead) refl
backspace-shown (c ∷ past) ahead =
    rw (prev_boundary-shown c past ahead) (rw (remove_range-onto c past ahead) refl)

delete-shown :
    (past ahead : Text)
    → delete (shown (record { past = past; ahead = ahead }))
      ≡ some (shown (record { past = past; ahead = forget ahead }))
unfolding delete next_boundary first_end
delete-shown past [] = rw (split_bytes-onto past []) refl
delete-shown past (c ∷ ahead) =
    rw (next_boundary-shown c past ahead) (rw (remove_range-onto c past ahead) refl)

left-shown :
    (past ahead : Text)
    → left (shown (record { past = past; ahead = ahead })) ≡ some (shown (step_back past ahead))
unfolding left
left-shown [] ahead = rw (prev_boundary-start ahead) refl
left-shown (c ∷ past) ahead = rw (prev_boundary-shown c past ahead) refl

right-shown :
    (past ahead : Text)
    → right (shown (record { past = past; ahead = ahead })) ≡ some (shown (step_on past ahead))
unfolding right next_boundary first_end
right-shown past [] = rw (split_bytes-onto past []) refl
right-shown past (c ∷ ahead) = rw (next_boundary-shown c past ahead) refl

to_end-shown :
    (past ahead : Text)
    → some (to_end (shown (record { past = past; ahead = ahead })))
      ≡ some (shown (record { past = onto ahead past; ahead = [] }))
unfolding to_end
to_end-shown past ahead = rw (onto-onto ahead past []) (
    rw (append-nil ahead) (
      rw (byte_len-onto past ahead) (
        rw (byte_len-onto ahead past)
          (ap (λ n. some (record { buf = onto past ahead; cursor = n })) (omega arith)))))

-- Every key does to the editor what it means, and never panics.
handle-press : (k : Key) (z : Zipper) → handle k (shown z) ≡ some (shown (press k z))
unfolding home to_end clear byte_len
handle-press (types t) z = insert-shown t z.past z.ahead
handle-press backspaces z = backspace-shown z.past z.ahead
handle-press deletes z = delete-shown z.past z.ahead
handle-press lefts z = left-shown z.past z.ahead
handle-press rights z = right-shown z.past z.ahead
handle-press homes z = refl
handle-press ends z = to_end-shown z.past z.ahead
handle-press clears z = refl

abbrev pub handle_all : List Key → Editor → Option Editor
handle_all [] e = some e
handle_all (k ∷ ks) e = do e' ← handle k e; handle_all ks e'

abbrev pub press_all : List Key → Zipper → Zipper
press_all [] z = z
press_all (k ∷ ks) z = press_all ks (press k z)

handle_all-press_all :
    (ks : List Key) (z : Zipper) → handle_all ks (shown z) ≡ some (shown (press_all ks z))
handle_all-press_all [] z = refl
handle_all-press_all (k ∷ ks) z = rw (handle-press k z) (handle_all-press_all ks (press k z))

-- Whatever keys are pressed on a new editor, it never panics, and it holds the characters before
-- and after the cursor that the keys, taken as moves and edits of single characters, leave there;
-- its cursor is the length in bytes of those before.
pub default-shown :
    (ks : List Key)
    → handle_all ks default ≡ some (shown (press_all ks (record { past = []; ahead = [] })))
unfolding byte_len
default-shown ks = handle_all-press_all ks (record { past = []; ahead = [] })
