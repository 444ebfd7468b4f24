-- ===== src/Locators/Index.antt =====
-- What the index answers after an address is registered.
use cats.Prelude.{
  String, ◌≡◌, refl, sym, ◌∙◌, inl, inr, false, Option, List, [], ◌∷◌, ◌==◌, eq_iff, arith,
  if◌then◌else◌, Bool-cases,
}
use cats.Result.{ok, ◌>>=◌, >>=-eq-ok, Result-cases}
use cats.Text.{strip, is_empty}
use cats.Text.Laws.{strip_idem}
use cats.TextList.{elem}
use cats.Digest.{to_ni, from_ni, is_ni_or_digest, content_id_fs_key}
use cats.Digest.Keys.{content_id_fs_key-to_ni}
use cats.Files.{read, write}
use cats.Files.Laws.{read-write}
use cats.Locators.{
  Locator, LocatorIndex, canonical_id, has_uri, add_locator, locators_of, put, uris, lookup_uris,
}

-- The canonical id has the file key of the id that it is made from.
pub content_id_fs_key-canonical_id :
    (x n : String) → canonical_id x ≡ ok n → content_id_fs_key n ≡ content_id_fs_key x
unfolding canonical_id content_id_fs_key
content_id_fs_key-canonical_id x n h = elim (Bool-cases (is_ni_or_digest x)) [
  | inl named ↦
      let e : (from_ni x >>= to_ni) ≡ ok n = ground arith in
      let (d, read, made) = >>=-eq-ok (from_ni x) to_ni e in
      let (new, old) = content_id_fs_key-to_ni x d n read made in new ∙ sym old
  | inr other ↦ let same : n ≡ strip x = ground arith in rw (same, strip_idem x) refl
]

elem-uris :
    (u : String) (locs : List Locator) → is_empty u ≡ false → elem u (uris locs) ≡ has_uri u locs
unfolding elem uris has_uri
elem-uris u [] h = refl
elem-uris u (loc ∷ locs) h = ground (arith, elem-uris u locs h, eq_iff loc.uri u)

abbrev pub added : String → List String → List String
added u l = if elem u l then l else u ∷ l

uris-add_locator :
    (u : String) (m : Option String) (locs : List Locator)
    → is_empty u ≡ false
    → uris (add_locator u m locs) ≡ added u (uris locs)
unfolding uris add_locator
uris-add_locator u m locs h = ground (arith, elem-uris u locs h)

-- what a successful `put` leaves
record Written (c u : String) (m : Option String) (index index' : LocatorIndex) (k : String)
    : Type 0 where
  canonical : String
  docs :
      index'.docs
      ≡ write k
          (record {
            content_id = canonical;
            locators = add_locator u m (locators_of (read k index.docs));
          })
          index.docs

put-Written :
    (c u : String) (m : Option String) (index index' : LocatorIndex) (k : String)
    → put c u m index ≡ ok index'
    → content_id_fs_key c ≡ ok k
    → Written c u m index index' k
unfolding put
put-Written c u m index index' k h key = elim (Result-cases (canonical_id c)) [
  | inl (n, e) ↦
      let keyed : content_id_fs_key n ≡ ok k = content_id_fs_key-canonical_id c n e ∙ key in
      record { canonical = n; docs = ground arith }
  | inr (x, e) ↦ cc
]

lookup_uris-key :
    (y j : String) (index : LocatorIndex)
    → content_id_fs_key y ≡ ok j
    → lookup_uris y index ≡ ok (uris (locators_of (read j index.docs)))
unfolding lookup_uris
lookup_uris-key y j index e = rw e refl

-- Registering an address that is not empty puts it in front of the addresses of that content,
-- under each of its names, where it is not listed yet, and leaves other contents as they were.
pub lookup_uris-put :
    (c y u : String) (m : Option String) (index index' : LocatorIndex) (k j : String)
    (l : List String)
    → is_empty u ≡ false
    → put c u m index ≡ ok index'
    → content_id_fs_key c ≡ ok k
    → content_id_fs_key y ≡ ok j
    → lookup_uris y index ≡ ok l
    → lookup_uris y index' ≡ ok (if k == j then added u l else l)
unfolding uris elem locators_of
lookup_uris-put c y u m index index' k j l full h key other old =
    let w = put-Written c u m index index' k h key in
    let before : l ≡ uris (locators_of (read j index.docs)) =
      ground (arith, lookup_uris-key y j index other) in
    rw (lookup_uris-key y j index' other, w.docs, read-write)
      (elim (Bool-cases (k == j)) [
        | inl same ↦
            let e : k ≡ j = (eq_iff k j).0 same in
            rw (same, uris-add_locator u m (locators_of (read k index.docs)) full, before, e) refl
        | inr other ↦ rw (other, before) refl
      ])
