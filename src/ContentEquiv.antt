-- ===== src/ContentEquiv.antt =====
-- registry/content_equiv.py: what the content mesh holds under an id is what HTTP serves at the
-- address. `utf8_encode`, `utf8_decode`, `json_loads` and `json_dumps` are Python's; a decoder gives
-- `none` where it raises UnicodeDecodeError or JSONDecodeError.
pub mod Documents
pub mod Sound
use cats.Prelude.{
  String, Bool, true, false, not, ◌&&◌, Option, none, some, List, [], ◌∷◌, ◌==◌, if◌then◌else◌,
}
use mathlib.Core.Option
use cats.Result.{Result, ok, err, assertion_error, require, ◌>>=◌, ◌>>◌}
use cats.Text.{strip, lower, ◌<>◌, is_empty, starts_with}
use cats.TextList.{elem}
use cats.Digest.{from_ni, is_ni_or_digest}
use cats.Digest.Codec.{Bytes}
use cats.CasStore.{same_bytes}
use cats.ContentRef.{is_http_uri}
use cats.Json.{Json, Fields, get, truthy, text, equal, dict_or_empty}
use cats.ExecutionBind.{HttpGetJson, uri_digest}
use cats.Reachability.{HttpGetBytes}
use cats.Handoff.{Raw, raw_bytes, raw_text, raw_json}

abbrev pub registry_stems : List String
registry_stems =
    "order" ∷ "data" ∷ "seed" ∷ "data_stages" ∷ "function" ∷ "structure" ∷ "invoice"
    ∷ "structure_as_executed" ∷ "runtime_sbom" ∷ "function_sbom" ∷ "structure_sbom"
    ∷ "input_data_sbom" ∷ []

abbrev pub bytes_stems : List String
bytes_stems = "data" ∷ "seed" ∷ "log" ∷ "egressed_data" ∷ "integrated_data" ∷ "ingressed_data" ∷ []

unfoldable pub digest_token : String → Result String
digest_token value =
    let s = strip value in
    if is_http_uri s
    then ok (uri_digest s)
    else if is_ni_or_digest s
    then (do d ← from_ni s; ok (lower d))
    else ok (lower s)

-- the methods that a content mesh may have, and its `cat`
pub record ContentMesh : Type 0 where
  pub cat_obj : Option (String → Result Raw)
  pub cat_bytes : Option (String → Result Bytes)
  pub cat : String → Result Raw

-- the bytes that a value already is
unfoldable pub bytes_of : Raw → Option Bytes
bytes_of (raw_bytes b) = some b
bytes_of _ = none

-- The address that the record gives: `record.get(key) or locs.get(key)`.
unfoldable pub record_uri : String → Fields → Result Json
record_uri key record' =
    let own = get key record' in
    if truthy own
    then ok own
    else (do locs ← dict_or_empty (get "locators" record'); ok (get key locs))

unfoldable pub same_address : String → String → String → Bool
same_address stem reg_uri uri =
    if stem == "data" then strip reg_uri == strip uri else uri_digest reg_uri == uri_digest uri

unfoldable pub check_uri : String → String → Option String → Json → Result (Unit {0})
unfolding same_address
check_uri stem uri none reg_uri = ok tt
check_uri stem uri (some filled) (Json.str reg_uri) =
    require (same_address stem reg_uri uri) assertion_error
check_uri stem uri (some filled) _ = ok tt

-- an id of the record is compared where it is a name of a digest
unfoldable pub check_id : Option String → String → Result (Unit {0})
check_id none uri = ok tt
check_id (some eq) uri =
    if is_ni_or_digest eq
    then (do a ← digest_token eq; b ← digest_token uri; require (a == b) assertion_error)
    else ok tt

-- the id that the record gives for the stem
unfoldable pub registry_id : String → Fields → Option String
registry_id stem record' = if elem stem registry_stems then text (get stem record') else none

unfoldable pub assert_registry_digest_agreement :
    String → String → Option Fields → Result (Unit {0})
unfolding record_uri check_uri check_id registry_id
assert_registry_digest_agreement stem uri none = ok tt
assert_registry_digest_agreement stem uri (some Fields.end) = ok tt
assert_registry_digest_agreement stem uri (some record') = do
  reg_uri ← record_uri (stem <> "_uri") record'
  check_uri stem uri (text reg_uri) reg_uri
  check_id (registry_id stem record') uri

-- what a check returns: the bytes, or the document
pub data Payload : Type 0 where
  payload_bytes : Bytes → Payload
  payload_json : Json → Payload

-- the keywords that every check hands on
pub record FetchKw : Type 0 where
  pub content_mesh : ContentMesh
  pub http_get_json : HttpGetJson
  pub http_get : Option HttpGetBytes
  pub cited : Option Fields

-- the keywords without the record
unfoldable pub without_record : FetchKw → FetchKw
without_record kw = record {
  content_mesh = kw.content_mesh;
  http_get_json = kw.http_get_json;
  http_get = kw.http_get;
  cited = none;
}

-- `locator or uri`, where a locator that is not given is the id of the record
unfoldable pub locator_of : String → String → Option Fields → Option String → String
unfolding registry_id
locator_of stem uri cited (some locator) = if is_empty locator then uri else locator
locator_of stem uri none none = uri
locator_of stem uri (some record') none = Option.get_or (registry_id stem record') uri

unfoldable pub is_opaque : Option Bool → String → Bool
is_opaque (some as_bytes) stem = as_bytes
is_opaque none stem = elem stem bytes_stems

module _ (utf8_encode : String → Result Bytes) (utf8_decode : Bytes → Option String)
    (json_dumps : Json → Result String) (json_loads : String → Option Json) where
  unfoldable pub encode : Raw → Result Bytes
  encode (raw_bytes b) = ok b
  encode (raw_text s) = utf8_encode s
  encode (raw_json v) = do s ← json_dumps v; utf8_encode s

  unfoldable pub cat_bytes_of : ContentMesh → String → Result Bytes
  unfolding encode
  cat_bytes_of mesh locator = elim mesh.cat_bytes [
    | some cat_bytes ↦ cat_bytes locator
    | none ↦ mesh.cat locator >>= encode
  ]

  unfoldable pub mesh_bytes : ContentMesh → String → Result Bytes
  unfolding bytes_of cat_bytes_of
  mesh_bytes mesh locator = elim mesh.cat_obj [
    | none ↦ cat_bytes_of mesh locator
    | some cat_obj ↦
        cat_obj locator
        >>= (λ raw. elim (bytes_of raw) [ some b ↦ ok b | none ↦ cat_bytes_of mesh locator ])
  ]

  unfoldable pub decode : Bytes → Option Json
  decode b = elim (utf8_decode b) [ none ↦ none | some s ↦ json_loads s ]

  -- the bytes over HTTP are those of the mesh
  unfoldable pub same_over_http :
      HttpGetBytes → String → String → Option Fields → Bytes → Result Payload
  same_over_http http_get stem uri cited mesh_raw = do
    via_http ← http_get uri
    require (same_bytes via_http mesh_raw) assertion_error
    assert_registry_digest_agreement stem uri cited
    ok (payload_bytes via_http)

  -- the mesh holds no document
  unfoldable pub not_json :
      Option HttpGetBytes → Bool → String → String → Option Fields → Bytes → Result Payload
  unfolding same_over_http
  not_json none use_bytes stem uri cited mesh_raw = err assertion_error
  not_json (some http_get) true stem uri cited mesh_raw = err assertion_error
  not_json (some http_get) false stem uri cited mesh_raw =
      if starts_with uri "http"
      then same_over_http http_get stem uri cited mesh_raw
      else err assertion_error

  -- the document over HTTP, where the address is one there, is that of the mesh
  unfoldable pub same_document : HttpGetJson → String → Json → Result (Unit {0})
  same_document http_get_json uri via_mesh =
      if starts_with uri "http"
      then (do via_http ← http_get_json uri; require (equal via_http via_mesh) assertion_error)
      else ok tt

  unfoldable pub same_json : HttpGetJson → String → String → Option Fields → Json → Result Payload
  unfolding same_document
  same_json http_get_json stem uri cited via_mesh = do
    same_document http_get_json uri via_mesh
    assert_registry_digest_agreement stem uri cited
    ok (payload_json via_mesh)

  unfoldable pub parsed_equiv :
      FetchKw → Bool → String → String → Option Json → Bytes → Result Payload
  unfolding not_json same_json
  parsed_equiv kw use_bytes stem uri none mesh_raw =
      not_json kw.http_get use_bytes stem uri kw.cited mesh_raw
  parsed_equiv kw use_bytes stem uri (some via_mesh) mesh_raw =
      same_json kw.http_get_json stem uri kw.cited via_mesh

  unfoldable pub compare_payload :
      FetchKw → Option HttpGetBytes → Bool → String → String → Bytes → Result Payload
  unfolding same_over_http parsed_equiv decode
  compare_payload kw (some http_get) true stem uri mesh_raw =
      if starts_with uri "http"
      then same_over_http http_get stem uri kw.cited mesh_raw
      else parsed_equiv kw true stem uri (decode mesh_raw) mesh_raw
  compare_payload kw _ use_bytes stem uri mesh_raw =
      parsed_equiv kw use_bytes stem uri (decode mesh_raw) mesh_raw

  unfoldable pub assert_fetch_equiv :
      FetchKw → String → String → Option String → Option Bool → Result Payload
  unfolding mesh_bytes compare_payload locator_of is_opaque
  assert_fetch_equiv kw stem uri_text locator as_bytes = do
    let uri = strip uri_text
    require (not (is_empty uri)) assertion_error
    mesh_raw ← mesh_bytes kw.content_mesh (locator_of stem uri kw.cited locator)
    compare_payload kw kw.http_get (is_opaque as_bytes stem) stem uri mesh_raw
