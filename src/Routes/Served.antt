-- ===== src/Routes/Served.antt =====
-- The answers of the routes are what the stores hold, and pass the checks that compare them.
use cats.Prelude.{
  String, ◌≡◌, refl, ap, inl, inr, true, false, none, some, List, [], ◌∷◌, eq_refl, arith,
  Bool-cases, Option-cases,
}
use cats.Result.{Result, ok, >>=-eq-ok}
use cats.Text.{strip, is_empty}
use cats.TextList.{elem, all_in, same_set}
use cats.Digest.{from_ni, is_ni_or_digest, content_id_fs_key}
use cats.Json.{
  Json, Fields, str, obj, end, field, items, elements, get, equal, equal_items, as_dict, text,
  truthy,
}
use cats.Locators.{Locator, LocatorDoc, LocatorIndex, uris, lookup_uris, locators_of}
use cats.Locators
use cats.Parity.{
  texts, names_same, registry_path_key, check_key, assert_registry_by_data_parity,
  assert_registry_by_order_parity, assert_locator_index_parity, check_listed, entries_of,
  entry_uris, set_of_texts, same_uris, body_fields,
}
use cats.Registry.{BomRegistry, lookup_bom, lookup_by_order}
use cats.Routes.{get_method, Response, json_resource, answer, or_missing}
use cats.Routes.Registry.{
  registry_by_data, registry_by_order, registry_by_content, respond_listing, listing, doc_fields,
  locators_json, locator_json,
}

equal_items-texts_self :
    (ss : List String) → equal_items (items (texts ss)) (items (texts ss)) ≡ true
unfolding equal_items items texts
equal_items-texts_self [] = refl
equal_items-texts_self (s ∷ ss) = rw (eq_refl s, equal_items-texts_self ss) refl

registry_path_key-ok :
    (id key : String)
    → content_id_fs_key id ≡ ok key
    → (path : String) × (registry_path_key id ≡ ok path)
unfolding registry_path_key content_id_fs_key
registry_path_key-ok id key keyed = elim (Bool-cases (is_ni_or_digest (strip id))) [
  | inl named ↦
      let read : from_ni (strip id) ≡ ok key = ground arith in (key, rw (named, read) refl)
  | inr other ↦ (strip id, rw other refl)
]

names_same_self : (id key : String) → content_id_fs_key id ≡ ok key → names_same id id ≡ ok true
unfolding names_same
names_same_self id key keyed =
    let (path, e) = registry_path_key-ok id key keyed in rw (e, eq_refl path) refl

text-filled : (s : String) → is_empty (strip s) ≡ false → text (str s) ≡ some (strip s)
unfolding text
text-filled s filled = rw filled refl

fs_key-filled : (id key : String) → content_id_fs_key id ≡ ok key → is_empty (strip id) ≡ false
unfolding content_id_fs_key
fs_key-filled id key keyed = ground arith

-- a key that names a file is compared with itself
check_key_self : (id key : String) → content_id_fs_key id ≡ ok key → check_key (str id) id ≡ ok tt
unfolding check_key
check_key_self id key keyed =
    rw (check_key, text-filled id (fs_key-filled id key keyed), names_same_self id key keyed) refl

listing-parity :
    (id : String) (bom_ids : List String)
    → check_key (str id) id ≡ ok tt
    → assert_registry_by_data_parity bom_ids (listing id bom_ids) id ≡ ok tt
unfolding assert_registry_by_data_parity listing get equal
listing-parity id bom_ids same = rw (equal_items-texts_self bom_ids, same) refl

locator_json-fields :
    (loc : Locator)
    → (fs : Fields) × (as_dict (locator_json loc) ≡ some fs) × (get "uri" fs ≡ str loc.uri)
unfolding locator_json as_dict get
locator_json-fields loc = elim (Option-cases loc.media_type) [
  | inl e ↦ (field "uri" (str loc.uri) end, rw e refl, refl)
  | inr (t, e) ↦ (field "media_type" (str t) (field "uri" (str loc.uri) end), rw e refl, refl)
]

locators_uris : (locs : List Locator) → entry_uris (locators_json locs) ≡ ok (texts (uris locs))
unfolding entry_uris locators_json uris texts body_fields truthy
locators_uris [] = refl
locators_uris (loc ∷ rest) =
    let (fs, dict, uri) = locator_json-fields loc in
    elim (Bool-cases (is_empty loc.uri)) [
      | inl blank ↦ rw (entry_uris, body_fields, dict, locators_uris rest, uri, blank) refl
      | inr filled ↦ rw (entry_uris, body_fields, dict, locators_uris rest, uri, filled) refl
    ]

set_of_texts-texts : (ss : List String) → set_of_texts (texts ss) ≡ ok (some ss)
unfolding set_of_texts texts
set_of_texts-texts [] = refl
set_of_texts-texts (s ∷ ss) = rw (set_of_texts-texts ss) refl

elements-items : (vs : List Json) → elements (items vs) ≡ vs
unfolding elements items
elements-items [] = refl
elements-items (v ∷ vs) = ap (λ ws. v ∷ ws) (elements-items vs)

all_in_more : (s : String) (ss ts : List String) → all_in ss ts ≡ true → all_in ss (s ∷ ts) ≡ true
unfolding all_in elem
all_in_more s [] ts h = refl
all_in_more s (t ∷ ss) ts h = ground (arith, all_in_more s ss ts)

all_in_self : (ss : List String) → all_in ss ss ≡ true
unfolding all_in elem
all_in_self [] = refl
all_in_self (s ∷ ss) = rw (eq_refl s, all_in_more s ss ss (all_in_self ss)) refl

doc-parity :
    (doc : LocatorDoc) → assert_locator_index_parity (uris doc.locators) (doc_fields doc) ≡ ok tt
unfolding assert_locator_index_parity doc_fields get entries_of same_uris same_set
doc-parity doc =
    rw
      (
        elements-items (locators_json doc.locators),
        locators_uris doc.locators,
        set_of_texts-texts (uris doc.locators),
        all_in_self (uris doc.locators),
      )
      refl

-- what a route answers, and that the check of it passes
abbrev pub Passes : Result Response → (Fields → Result (Unit {0})) → Type 0
Passes response check =
    (served : Fields) × (response ≡ ok (json_resource (obj served))) × (check served ≡ ok tt)

pub registry_lists-parity :
    (id : String) (r : BomRegistry) (by_data by_order : List String)
    → lookup_bom id r ≡ ok by_data
    → lookup_by_order id r ≡ ok by_order
    → Passes
        (registry_by_data get_method id r)
        (λ served. assert_registry_by_data_parity by_data served id)
      × Passes
          (registry_by_order get_method id r)
          (λ served. assert_registry_by_order_parity by_order served id none)
unfolding registry_by_data registry_by_order respond_listing answer lookup_bom
    assert_registry_by_order_parity check_listed get listing equal
registry_lists-parity id r by_data by_order found listed =
    let (key, keyed, _) = >>=-eq-ok (content_id_fs_key id) _ found in
    let same = check_key_self id key keyed in
    (
      (listing id by_data, rw found refl, listing-parity id by_data same),
      (listing id by_order, rw listed refl, rw (equal_items-texts_self by_order, same) refl),
    )

pub registry_by_content-parity :
    (id : String) (index : LocatorIndex) (doc : LocatorDoc)
    → Locators.get id index ≡ ok (some doc)
    → (lookup_uris id index ≡ ok (uris doc.locators))
      × Passes
          (registry_by_content get_method id index)
          (assert_locator_index_parity (uris doc.locators))
unfolding registry_by_content answer or_missing lookup_uris locators_of
registry_by_content-parity id index doc found =
    (rw found refl, (doc_fields doc, rw found refl, doc-parity doc))

-- Where the registry lists the BOMs of an id by data and by Order, and the index has a document of
-- it, the routes answer GET with documents that pass the parity checks against these lists and the
-- addresses of that document.
pub registry_index-parity :
    (id : String) (r : BomRegistry) (index : LocatorIndex) (by_data by_order : List String)
    (doc : LocatorDoc)
    → lookup_bom id r ≡ ok by_data
    → lookup_by_order id r ≡ ok by_order
    → Locators.get id index ≡ ok (some doc)
    → Passes
        (registry_by_data get_method id r)
        (λ served. assert_registry_by_data_parity by_data served id)
      × Passes
          (registry_by_order get_method id r)
          (λ served. assert_registry_by_order_parity by_order served id none)
      × (lookup_uris id index ≡ ok (uris doc.locators))
      × Passes
          (registry_by_content get_method id index)
          (assert_locator_index_parity (uris doc.locators))
registry_index-parity id r index by_data by_order doc found listed located =
    let (data_passes, order_passes) = registry_lists-parity id r by_data by_order found listed in
    let (same, content_passes) = registry_by_content-parity id index doc located in
    (data_passes, order_passes, same, content_passes)
