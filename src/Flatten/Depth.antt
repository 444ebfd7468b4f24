-- ===== src/Flatten/Depth.antt =====
-- cas/flatten_refs.py: how deep `flatten` goes. An address is not opened inside what it leads to.
use cats.Prelude.{
  ℕ, zero, suc, String, ◌≡◌, refl, inl, inr, true, false, ◌<◌, ◌≤◌, Option, some, List, [], ◌∷◌,
  arith, Bool-cases, ◌==◌, eq_iff, if◌then◌else◌,
}
use cats.Result.{Result, Error, err, >>=_same}
use cats.Text.{◌<>◌}
use cats.TextList.{elem}
use cats.Json.{Json, Items, Fields, str, arr, obj, nil, item, end, field, set}
use cats.Flatten.{FetchRef, Deeper, uri_by_stem, walk, walk_items, walk_fields, place, flatten}

-- Two ways to place the slots that agree give the same document.
module _ (allow : Option (List String))
    (placed placed' : List (String × String) → Fields → Result Fields)
    (same : (slots : List (String × String)) (out : Fields)
      → placed slots out ≡ placed' slots out) where
  mutual
    unfolding walk

    walk_same : (j : Json) → walk allow placed j ≡ walk allow placed' j
    walk_same (arr xs) = rw (walk_items_same xs) refl
    walk_same (obj fs) = rw (walk_fields_same (uri_by_stem allow fs) fs) (
        >>=_same (walk_fields allow placed' (uri_by_stem allow fs) fs)
          (λ kept. rw (same (uri_by_stem allow fs) kept) refl))
    walk_same Json.null = refl
    walk_same (Json.bool b) = refl
    walk_same (Json.num n) = refl
    walk_same (str s) = refl

    walk_items_same : (xs : Items) → walk_items allow placed xs ≡ walk_items allow placed' xs
    walk_items_same nil = refl
    walk_items_same (item x xs) = rw (walk_same x, walk_items_same xs) refl

    walk_fields_same :
        (slots : List (String × String)) (fs : Fields)
        → walk_fields allow placed slots fs ≡ walk_fields allow placed' slots fs
    walk_fields_same slots end = refl
    walk_fields_same slots (field key value rest) =
        rw (walk_same value, walk_fields_same slots rest) refl

-- how many of the addresses were not visited
unfoldable pub unvisited : List String → List String → ℕ
unfolding elem
unvisited visited [] = 0
unvisited visited (uri ∷ known) =
    let rest = unvisited visited known in if elem uri visited then rest else suc rest

unvisited-le :
    (seen : String) (visited known : List String)
    → unvisited (seen ∷ visited) known ≤ unvisited visited known
unfolding unvisited elem
unvisited-le seen visited [] = ground arith
unvisited-le seen visited (uri ∷ known) = ground (arith, unvisited-le seen visited known)

-- one address less, once a new one is visited
unvisited-lt :
    (seen : String) (visited known : List String)
    → elem seen visited ≡ false
    → elem seen known ≡ true
    → unvisited (seen ∷ visited) known < unvisited visited known
unfolding unvisited elem
unvisited-lt seen visited [] new listed = ground arith
unvisited-lt seen visited (uri ∷ known) new listed = elim (Bool-cases (uri == seen)) [
  | inl same ↦
      let is_seen = (eq_iff uri seen).0 same in
      let new_uri : elem uri visited ≡ false = rw is_seen new in
      let step = unvisited-le seen visited known in
      let back : (seen == uri) ≡ true = ground (arith, eq_iff seen uri, eq_iff uri seen) in
      rw (new_uri, back) (ground arith)
  | inr other ↦
      let step = unvisited-lt seen visited known new (ground arith) in
      let back : (seen == uri) ≡ false = ground (arith, eq_iff seen uri, eq_iff uri seen) in
      elim (Bool-cases (elem uri visited)) [
        | inl old ↦ rw (back, old) step
        | inr fresh ↦ rw (back, fresh) (ground arith)
      ]
]

module _ (fetch : FetchRef) (known : List String)
    (silent : (stem uri : String)
      → elem uri known ≡ false
      → (e : Error) × (fetch stem uri ≡ err e)) where
  place_deep :
      (deeper deeper' : Deeper) (visited : List String)
      → ((uri : String) (payload : Json)
          → elem uri visited ≡ false
          → elem uri known ≡ true
          → deeper (uri ∷ visited) payload ≡ deeper' (uri ∷ visited) payload)
      → (slots : List (String × String)) (out : Fields)
      → place fetch (some deeper) visited slots out ≡ place fetch (some deeper') visited slots out
  unfolding place
  place_deep deeper deeper' visited same [] out = refl
  place_deep deeper deeper' visited same ((stem, uri) ∷ slots) out =
      let kept =
        place_deep deeper deeper' visited same slots (set (stem <> "_uri") (str uri) out) in
      elim (Bool-cases (elem uri visited)) [
        | inl old ↦ rw old kept
        | inr new ↦ elim (Bool-cases (elem uri known)) [
          | inl listed ↦ rw new (
              >>=_same (fetch stem uri) (λ payload. rw (same uri payload new listed) (
                >>=_same (deeper' (uri ∷ visited) payload)
                  (λ value. place_deep deeper deeper' visited same slots (set stem value out)))))
          | inr unknown ↦ let (e, raised) = silent stem uri unknown in rw (new, raised) refl
        ]
      ]

  -- Where only the addresses of a list answer, and the fetch raises at all others, flattening a
  -- document gives the same result or error at all depths above the number of the listed addresses
  -- that were not visited.
  pub flatten_deep :
      (allow : Option (List String)) (depth depth' : ℕ) (visited : List String) (document : Json)
      → unvisited visited known < depth
      → unvisited visited known < depth'
      → flatten fetch allow depth visited document ≡ flatten fetch allow depth' visited document
  unfolding flatten
  flatten_deep allow zero depth' visited document deep deep' = ground arith
  flatten_deep allow (suc depth) zero visited document deep deep' = ground arith
  flatten_deep allow (suc depth) (suc depth') visited document deep deep' =
      walk_same allow
        (place fetch (some (λ seen payload. flatten fetch allow depth seen payload)) visited)
        (place fetch (some (λ seen payload. flatten fetch allow depth' seen payload)) visited)
        (place_deep (λ seen payload. flatten fetch allow depth seen payload)
          (λ seen payload. flatten fetch allow depth' seen payload) visited
          (λ uri payload new listed.
            let fewer = unvisited-lt uri visited known new listed in
            flatten_deep allow depth depth' (uri ∷ visited) payload (omega arith) (omega arith)))
        document
