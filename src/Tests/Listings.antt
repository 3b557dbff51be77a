-- ===== src/Tests/Listings.antt =====
-- A scan that races a write, and the one that follows it.
use rusty_kimi.Common.{◌≡◌, refl, String, true, false, List, [], ◌∷◌, none, some, inl, arith}
use rusty_kimi.Kaos.Index.{
  State, mark_dirty, first_index, with_index, cached, get_paths, publish, disturb, begins_marked,
  changes, ends, starts, walks, compares, publishes, gives_up, Steps, walked, here, next,
  if_current,
}
use rusty_kimi.Kaos.Index.Fresh.{cached-listing, get_paths-listing}

abbrev Listing : Type 0
Listing = List String

abbrev old_files : Listing
old_files = "a.rs" ∷ []

abbrev new_files : Listing
new_files = "a.rs" ∷ "b.rs" ∷ []

-- The walk sees the directory before the file is there, and the counter has moved when it is done.
abbrev raced : State Listing
raced = record { index = none; mutations = 2; listing = new_files; changing = 0; scans = [] }

raced-Steps : Steps Listing (with_index Listing old_files (first_index Listing none)) raced
unfolding mark_dirty disturb with_index first_index publish
raced-Steps =
    next
      (next
        (next
          (next (next (next here (starts)) (begins_marked (omega arith)))
            (changes new_files (omega arith)))
          (walks [] [] 0 true old_files refl tt))
        (ends (omega arith) (omega arith)))
      (gives_up [] [] (record { generation = 0; phase = walked old_files }) refl)

-- The next scan is published.
abbrev published : State Listing
published = record raced { index = some (record { paths = new_files; generation = 2 }) }

published-Steps : Steps Listing (with_index Listing old_files (first_index Listing none)) published
unfolding publish
published-Steps =
    next
      (next (next (next raced-Steps starts) (walks [] [] 2 false new_files refl refl))
        (compares [] [] 2 new_files refl refl))
      (publishes [] [] 2 new_files refl)

cached-listing_example : new_files ≡ published.listing
unfolding cached if_current publish
cached-listing_example = cached-listing Listing old_files none (inl refl) published-Steps refl refl

get_paths-listing_example :
    ((get_paths Listing raced).1 ≡ raced.listing)
    × (cached Listing (get_paths Listing raced).0 ≡ some raced.listing)
get_paths-listing_example = get_paths-listing Listing old_files none (inl refl) raced-Steps refl
