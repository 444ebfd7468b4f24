-- ===== src/Locators.antt =====
-- cas/locators.py: for each content id, the addresses that it can be fetched from. A document has
-- the shape that `put` writes.
pub mod Index
use cats.Prelude.{
  String, Bool, true, false, ◌||◌, Option, none, some, List, [], ◌∷◌, ◌==◌, if◌then◌else◌,
}
use cats.Result.{Result, ok, ◌>>=◌}
use cats.Text.{strip, is_empty}
use cats.Digest.{to_ni, from_ni, is_ni_or_digest, content_id_fs_key}
use cats.CasStore.{cas_ldp_uri}
use cats.Files.{read, write}

pub record Locator : Type 0 where
  pub uri : String
  pub media_type : Option String

pub record LocatorDoc : Type 0 where
  pub content_id : String
  pub locators : List Locator

pub record LocatorIndex : Type 0 where
  pub docs : List (String × LocatorDoc)

unfoldable pub canonical_id : String → Result String
canonical_id content_id =
    if is_ni_or_digest content_id
    then (do digest ← from_ni content_id; to_ni digest)
    else ok (strip content_id)

unfoldable pub has_uri : String → List Locator → Bool
has_uri uri [] = false
has_uri uri (loc ∷ rest) = loc.uri == uri || has_uri uri rest

-- `if media_type: entry['media_type'] = media_type`
unfoldable pub given : Option String → Option String
given none = none
given (some t) = if is_empty t then none else some t

unfoldable pub add_locator : String → Option String → List Locator → List Locator
unfolding has_uri given
add_locator uri media_type locators =
    if has_uri uri locators
    then locators
    else (record { uri = uri; media_type = given media_type }) ∷ locators

unfoldable pub locators_of : Option LocatorDoc → List Locator
locators_of none = []
locators_of (some doc) = doc.locators

unfoldable pub put : String → String → Option String → LocatorIndex → Result LocatorIndex
unfolding add_locator locators_of
put content_id uri media_type index = do
  canonical ← canonical_id content_id
  key ← content_id_fs_key canonical
  let locators = add_locator uri media_type (locators_of (read key index.docs))
  ok (record {
    docs = write key (record { content_id = canonical; locators = locators }) index.docs;
  })

unfoldable pub put_cas_node_locator :
    String → String → Option String → LocatorIndex → Result LocatorIndex
unfolding put
put_cas_node_locator content_id base_url media_type index = do
  digest ← if is_ni_or_digest content_id then from_ni content_id else ok content_id
  uri ← cas_ldp_uri digest base_url
  put content_id uri media_type index

unfoldable pub get : String → LocatorIndex → Result (Option LocatorDoc)
get content_id index = do key ← content_id_fs_key content_id; ok (read key index.docs)

unfoldable pub uris : List Locator → List String
uris [] = []
uris (loc ∷ rest) = if is_empty loc.uri then uris rest else loc.uri ∷ uris rest

unfoldable pub lookup_uris : String → LocatorIndex → Result (List String)
unfolding get uris locators_of
lookup_uris content_id index = do doc ← get content_id index; ok (uris (locators_of doc))

-- A document that lists the address ends the scan where its content id is not blank.
unfoldable pub scan : String → List (String × LocatorDoc) → Result (Option String)
scan target [] = ok none
scan target ((key, doc) ∷ rest) =
    let later = scan target rest in
    if has_uri target doc.locators
    then if is_empty (strip doc.content_id)
      then later
      else (do id ← canonical_id doc.content_id; ok (some id))
    else later

unfoldable pub find_content_id_for_uri : String → LocatorIndex → Result (Option String)
unfolding scan
find_content_id_for_uri uri index =
    let target = strip uri in if is_empty target then ok none else scan target index.docs
