-- ===== src/TextList.antt =====
-- Python's `in`, `==` and `set` on lists of texts.
use cats.Prelude.{String, Bool, true, false, ◌&&◌, ◌||◌, List, [], ◌∷◌, ◌==◌}

unfoldable pub elem : String → List String → Bool
elem s [] = false
elem s (t ∷ ts) = t == s || elem s ts

unfoldable pub same_list : List String → List String → Bool
same_list [] [] = true
same_list (s ∷ ss) (t ∷ ts) = s == t && same_list ss ts
same_list _ _ = false

unfoldable pub all_in : List String → List String → Bool
unfolding elem
all_in [] ts = true
all_in (s ∷ ss) ts = elem s ts && all_in ss ts

-- `set(ss) == set(ts)`
unfoldable pub same_set : List String → List String → Bool
unfolding all_in
same_set ss ts = all_in ss ts && all_in ts ss
