-- ===== src/Refs.antt =====
-- cas/content_ref.py: the `*_uri` and `*_cid` fields of JSON documents that refer to content.
use cats.Prelude.{String, ◌||◌, Option, none, some, ◌==◌, if◌then◌else◌}
use mathlib.Core.Option
use cats.Result.{Result, ok, err, value_error, ◌>>=◌}
use cats.Text.{strip, ◌<>◌, is_empty, drop_suffix}
use cats.Digest.{is_ni_or_digest, is_legacy_cid}
use cats.Hashlink.{is_hl}
use cats.Locators.{LocatorIndex}
use cats.ContentRef.{
  content_uri, equality_id, is_http_uri, found_id, content_id_from_uri, resolve_intake_ref,
}
use cats.Json.{Fields, str, get, set, pop, text}

unfoldable pub uri_field_name : String → String
uri_field_name name = elim (drop_suffix name "_cid") [
  | some stem ↦ stem <> "_uri"
  | none ↦ elim (drop_suffix name "_uri") [
    | some _ ↦ name
    | none ↦ if name == "cid" then "uri" else name <> "_uri"
  ]
]

unfoldable pub cid_field_name : String → String
cid_field_name stem = elim (drop_suffix stem "_cid") [
  | some _ ↦ stem
  | none ↦ elim (drop_suffix stem "_uri") [ some s ↦ s <> "_cid" | none ↦ stem <> "_cid" ]
]

pub record ContentRef : Type 0 where
  pub content_id : String
  pub uri : Option String

-- `if resolved: ref['uri'] = resolved`
unfoldable pub non_empty : Option String → Option String
non_empty none = none
non_empty (some s) = if is_empty s then none else some s

unfoldable pub build_content_ref : String → String → Option String → Result ContentRef
unfolding non_empty
build_content_ref content_id base_url uri = do
  eid ← if is_ni_or_digest content_id then equality_id content_id else ok (strip content_id)
  resolved ← elim uri [ some u ↦ ok (some u) | none ↦ content_uri eid base_url ]
  ok (record { content_id = eid; uri = non_empty resolved })

-- Returns the equality id and the document with its new field.
unfoldable pub set_ref :
    Fields → String → String → String → Option String → Result (String × Fields)
unfolding build_content_ref
set_ref obj stem content_id base_url uri = do
  ref ← build_content_ref content_id base_url uri
  let written = set (uri_field_name stem) (str (Option.get_or ref.uri ref.content_id)) obj
  ok (ref.content_id, pop (cid_field_name stem) written)

unfoldable pub ref_uri : Fields → String → Option String
ref_uri obj stem = text (get (uri_field_name stem) obj)

-- `set_cid_uri`, by the name of the legacy field
unfoldable pub set_cid_uri :
    Fields → String → String → String → Option String → Result (String × Fields)
unfolding set_ref
set_cid_uri obj cid_field content_id base_url uri =
    set_ref obj (Option.get_or (drop_suffix cid_field "_cid") cid_field) content_id base_url uri

unfoldable pub or_id : Option String → Result (Option String)
unfolding found_id
or_id none = ok none
or_id (some value) = do id ← found_id value; ok (some id)

-- the legacy `*_cid` field, or a bare `content_id`
unfoldable pub legacy_id : Fields → String → Result (Option String)
unfolding or_id
legacy_id obj stem = elim (text (get (cid_field_name stem) obj)) [
  | some value ↦ or_id (some value)
  | none ↦
      if stem == "" || stem == "content"
      then (elim (get "content_id" obj) [ str value ↦ or_id (some (strip value)) | _ ↦ ok none ])
      else ok none
]

-- the id that a non-empty `*_uri` gives; `none` falls through to the legacy field
unfoldable pub id_of_uri :
    String → Option LocatorIndex → Result (Option String × Option LocatorIndex)
unfolding found_id
id_of_uri uri index =
    if is_http_uri uri
    then (do found ← content_id_from_uri uri index; ok (non_empty found, index))
    else do id ← found_id (strip uri); ok (some id, index)

-- A malformed `hl:` link is no reference. Its hints may be registered in the index.
unfoldable pub ref_id :
    Fields → String → Option LocatorIndex → Result (Option String × Option LocatorIndex)
unfolding id_of_uri legacy_id
ref_id obj stem index = elim (ref_uri obj stem) [
  | none ↦ (do id ← legacy_id obj stem; ok (id, index))
  | some uri ↦
      if is_hl uri
      then (elim (resolve_intake_ref uri index) [ ok r ↦ ok r | err e ↦ ok (none, index) ])
      else do
        (found, index') ← id_of_uri uri index
        elim found [
          | some id ↦ ok (some id, index')
          | none ↦ (do id ← legacy_id obj stem; ok (id, index'))
        ]
]

-- `ref_id(obj, stem)` with no home given
unfoldable pub stem_ref_id : Fields → String → Result (Option String)
unfolding ref_id
stem_ref_id obj stem = do (id, _) ← ref_id obj stem none; ok id

unfoldable pub normalize_legacy_ref : String → String → Result ContentRef
normalize_legacy_ref content_id base_url =
    let value = strip content_id in
    if is_ni_or_digest value
    then build_content_ref value base_url none
    else if is_legacy_cid value
    then ok (record { content_id = value; uri = none })
    else err value_error
