-- ===== src/ContentRef.antt =====
-- cas/content_ref.py: references to content in JSON documents. A function that takes `cats_home`
-- takes the locator index of that home, or `none`, and returns it where it may register addresses.
-- `base_url` is the caller's or the Node's own.
pub mod Url
pub mod Equality
use cats.Prelude.{
  String, Bool, true, false, not, ◌&&◌, ◌||◌, Option, none, some, List, [], ◌∷◌, ◌==◌,
  if◌then◌else◌,
}
use mathlib.Core.Option
use cats.Result.{Result, ok, err, value_error, ◌>>=◌, ◌>>◌}
use cats.Text.{strip, lower, ◌<>◌, all_chars, is_empty, starts_with, drop_prefix, drop_suffix}
use cats.Digest.{to_ni, from_ni, is_ni_or_digest, is_legacy_cid, validate_digest_segment}
use cats.Digest.Codec.{is_b64}
use cats.CasStore.{cas_ldp_uri}
use cats.Hashlink.{is_hl, from_hl}
use cats.Locators.{LocatorIndex, find_content_id_for_uri}
use cats.Locators
use cats.Json.{Json, Fields, str, end, field, get, set, pop, text}
use Url.{url_path}

unfoldable pub content_uri : String → String → Result (Option String)
content_uri content_id base_url =
    if is_ni_or_digest (strip content_id)
    then (do digest ← from_ni (strip content_id); uri ← cas_ldp_uri digest base_url; ok (some uri))
    else ok none

unfoldable pub equality_id : String → Result String
equality_id content_id =
    if is_ni_or_digest (strip content_id)
    then (do digest ← from_ni (strip content_id); to_ni digest)
    else ok (strip content_id)

unfoldable pub is_http_uri : String → Bool
is_http_uri value =
    let lowered = lower (strip value) in
    starts_with lowered "http://" || starts_with lowered "https://"

-- `equality_id(found) if is_ni_or_digest(found) else found`
unfoldable pub found_id : String → Result String
unfolding equality_id
found_id found = if is_ni_or_digest found then equality_id found else ok found

-- the key behind one of the four collections of `_LDP_CONTENT_PATH`
unfoldable pub collection_key : List String → String → Option String
collection_key [] rest = none
collection_key (collection ∷ others) rest = elim (drop_prefix rest collection) [
  | none ↦ collection_key others rest
  | some key ↦ if not (is_empty key) && all_chars is_b64 key then some key else none
]

unfoldable pub ldp_content_key : String → Option String
unfolding collection_key
ldp_content_key path = elim (drop_prefix path "/ldp/") [
  | none ↦ none
  | some rest ↦ collection_key ("cas/" ∷ "invoices/" ∷ "orders/" ∷ "boms/" ∷ []) rest
]

-- a digest's name, or the key itself where it is no digest
unfoldable pub key_id : String → Result String
key_id key = elim (validate_digest_segment (lower key)) [
  | ok digest ↦ to_ni digest
  | err e ↦ ok key
]

-- `LocatorIndex(cats_home).find_content_id_for_uri(…)`, where a home is given and an id found
unfoldable pub id_in_index : String → Option LocatorIndex → Result (Option String)
unfolding found_id
id_in_index uri none = ok none
id_in_index uri (some index) = do
  found ← find_content_id_for_uri uri index
  elim found [
    | none ↦ ok none
    | some id ↦ if is_empty id then ok none else (do eid ← found_id id; ok (some eid))
  ]

unfoldable pub content_id_from_uri : String → Option LocatorIndex → Result (Option String)
unfolding ldp_content_key key_id id_in_index
content_id_from_uri uri index = if not (is_http_uri uri) then ok none else do
  path ← url_path (strip uri)
  elim (ldp_content_key path) [
    | some key ↦ (do id ← key_id key; ok (some id))
    | none ↦ id_in_index (strip uri) index
  ]

unfoldable pub register_hints : String → List String → LocatorIndex → Result LocatorIndex
register_hints ni [] index = ok index
register_hints ni (uri ∷ uris) index =
    let rest = register_hints ni uris in
    if is_http_uri uri then Locators.put ni uri none index >>= rest else rest index

unfoldable pub register : String → List String → Option LocatorIndex → Result (Option LocatorIndex)
unfolding register_hints
register ni uris none = ok none
register ni uris (some index) = do index' ← register_hints ni uris index; ok (some index')

unfoldable pub resolve_intake_ref :
    String → Option LocatorIndex → Result (Option String × Option LocatorIndex)
unfolding register
resolve_intake_ref value index =
    let raw = strip value in
    if is_empty raw
    then ok (none, index)
    else if is_hl raw
    then (do (ni, uris) ← from_hl raw; index' ← register ni uris index; ok (some ni, index'))
    else if is_ni_or_digest raw
    then (do id ← equality_id raw; ok (some id, index))
    else if is_http_uri raw
    then (do
      found ← content_id_from_uri raw index
      elim found [
        | some id ↦
            if is_empty id
            then (do again ← id_in_index raw index; ok (again, index))
            else ok (some id, index)
        | none ↦ (do again ← id_in_index raw index; ok (again, index))
      ])
    else ok (some raw, index)
