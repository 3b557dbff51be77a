-- ===== src/Tests/Keys.antt =====
-- Keys pressed on the line editor, with characters of one and of three bytes.
use rusty_kimi.Common.{◌≡◌, refl, List, [], ◌∷◌, some}
use rusty_kimi.Common.Utf8.{len_utf8, byte_len, split_bytes}
use rusty_kimi.Common.Chars.{codes}
use rusty_kimi.Editor.{default, flatten, insert, left, backspace}
use rusty_kimi.Editor.Zipper.{
  Key, types, backspaces, lefts, shown, handle_all, press_all, default-shown,
}

abbrev keys : List Key
keys = types (codes "a日\nb") ∷ lefts ∷ lefts ∷ backspaces ∷ []

-- Back over the flattened line break to just after 日, which goes.
keys-handle_all : handle_all keys default ≡ some (record { buf = codes "a b"; cursor = 1 })
unfolding insert left backspace split_bytes byte_len len_utf8 flatten
keys-handle_all = refl

default-shown_example :
    handle_all keys default ≡ some (shown (press_all keys (record { past = []; ahead = [] })))
default-shown_example = default-shown keys
