-- ===== src/Flatten.antt =====
-- cas/flatten_refs.py: the addresses of a document, replaced by what they lead to. `fetch` is the
-- caller's, and may raise. A `max_depth` below zero does what zero does.
pub mod Depth
pub mod Cycle
use cats.Prelude.{
  ℕ, zero, suc, String, Bool, true, false, ◌||◌, Option, none, some, List, [], ◌∷◌, ◌==◌,
  if◌then◌else◌,
}
use cats.Result.{Result, ok, ◌>>=◌}
use cats.Text.{◌<>◌, drop_suffix}
use cats.TextList.{elem}
use cats.Json.{
  Json, Items, Fields, null, bool, num, str, arr, obj, nil, item, end, field, text, set,
}
use mathlib.Core.Option

-- `fetch(stem, uri)`
abbrev pub FetchRef : Type 0
FetchRef = String → String → Result Json

-- `allow is None or stem in allow`
unfoldable pub allowed : Option (List String) → String → Bool
allowed none stem = true
allowed (some stems) stem = elem stem stems

-- the stem and the address of one key, where it has them
unfoldable pub slot :
    Option (List String) → Option String → Option String → Option (String × String)
unfolding allowed
slot allow (some stem) (some uri) = if allowed allow stem then some (stem, uri) else none
slot allow _ _ = none

unfoldable pub cons_slot :
    Option (String × String) → List (String × String) → List (String × String)
cons_slot none slots = slots
cons_slot (some s) slots = s ∷ slots

unfoldable pub uri_by_stem : Option (List String) → Fields → List (String × String)
unfolding cons_slot
uri_by_stem allow end = []
uri_by_stem allow (field key value rest) =
    cons_slot (slot allow (drop_suffix key "_uri") (text value)) (uri_by_stem allow rest)

-- the keys that a slot replaces
unfoldable pub skip : List (String × String) → String → Bool
skip [] key = false
skip ((stem, uri) ∷ slots) key =
    key == (stem <> "_uri") || key == (stem <> "_cid") || key == stem || skip slots key

-- One level of dicts and lists. `place` writes the slots of a dict behind what the dict keeps.
module _ (allow : Option (List String))
    (place : List (String × String) → Fields → Result Fields) where
  unfoldable mutual
    pub walk : Json → Result Json
    walk (arr xs) = do ys ← walk_items xs; ok (arr ys)
    walk (obj fs) = do
      kept ← walk_fields (uri_by_stem allow fs) fs
      out ← place (uri_by_stem allow fs) kept
      ok (obj out)
    walk null = ok null
    walk (bool b) = ok (bool b)
    walk (num n) = ok (num n)
    walk (str s) = ok (str s)

    pub walk_items : Items → Result Items
    walk_items nil = ok nil
    walk_items (item x xs) = do y ← walk x; ys ← walk_items xs; ok (item y ys)

    pub walk_fields : List (String × String) → Fields → Result Fields
    walk_fields slots end = ok end
    walk_fields slots (field key value rest) =
        let flat = walk value in
        let others = walk_fields slots rest in
        if skip slots key then others else (do v ← flat; vs ← others; ok (field key v vs))

abbrev pub Deeper : Type 0
Deeper = List String → Json → Result Json

module _ (fetch : FetchRef) where
  -- `deeper` walks a payload, and is missing where the depth is used up.
  unfoldable pub place :
      Option Deeper → List String → List (String × String) → Fields → Result Fields
  place deeper visited [] out = ok out
  place none visited ((stem, uri) ∷ slots) out =
      place none visited slots (set (stem <> "_uri") (str uri) out)
  place (some deeper) visited ((stem, uri) ∷ slots) out =
      let kept = place (some deeper) visited slots (set (stem <> "_uri") (str uri) out) in
      if elem uri visited then kept else (do
        payload ← fetch stem uri
        value ← deeper (uri ∷ visited) payload
        place (some deeper) visited slots (set stem value out))

  unfoldable pub flatten : Option (List String) → ℕ → List String → Json → Result Json
  unfolding walk place
  flatten allow zero visited = walk allow (place none visited)
  flatten allow (suc depth) visited =
      walk allow (place (some (λ seen payload. flatten allow depth seen payload)) visited)

  unfoldable pub flatten_uri_dict :
      Option ℕ → Option (List String) → Option (List String) → Json → Result Json
  unfolding flatten
  flatten_uri_dict max_depth visited stems document =
      flatten stems (Option.get_or max_depth 8) (Option.get_or visited []) document
