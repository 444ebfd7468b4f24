-- ===== src/ContentEquiv/Sound.antt =====
-- What the checks of content equivalence promise of the documents that they accept.
use cats.Prelude.{
  String, ◌≡◌, refl, sym, inl, inr, Bool, true, false, not, Option, none, some, arith, Bool-cases,
}
use cats.Result.{Result, ok, assertion_error, require, >>=-eq-ok, require-eq-ok}
use cats.Text.{strip, starts_with, is_empty}
use cats.Digest.Codec.{Bytes}
use cats.CasStore.{same_bytes}
use cats.CasStore.Integrity.{same_bytes→eq}
use cats.Json.{Json, Fields, equal}
use cats.Reachability.{HttpGetBytes}
use cats.ContentEquiv.{
  FetchKw, Payload, payload_bytes, payload_json, mesh_bytes, decode, assert_fetch_equiv, locator_of,
  is_opaque, compare_payload, parsed_equiv, same_json, same_document, not_json, same_over_http,
  assert_registry_digest_agreement,
}

module _ (utf8_encode : String → Result Bytes) (utf8_decode : Bytes → Option String)
    (json_dumps : Json → Result String) (json_loads : String → Option Json) where
  -- what is served over HTTP equals the document, where the address is one there
  abbrev pub SameOverHttp : FetchKw → String → Json → Bool → Type 0
  SameOverHttp kw uri v true = (w : Json) × (kw.http_get_json uri ≡ ok w) × (equal w v ≡ true)
  SameOverHttp kw uri v false = Unit {0}

  -- The bytes stand over HTTP and in the mesh; a document is that of the mesh, and over HTTP, where
  -- the address is one there, one that equals it.
  abbrev pub IsSame : FetchKw → String → Bytes → Payload → Type 0
  IsSame kw uri mesh_raw (payload_bytes b) =
      (http_get : HttpGetBytes) × (kw.http_get ≡ some http_get)
      × (http_get uri ≡ ok b)
      × (mesh_raw ≡ b)
  IsSame kw uri mesh_raw (payload_json v) =
      (decode utf8_encode utf8_decode json_dumps json_loads mesh_raw ≡ some v)
      × SameOverHttp kw uri v (starts_with uri "http")

  abbrev over_http : HttpGetBytes → String → String → Option Fields → Bytes → Result Payload
  over_http = same_over_http utf8_encode utf8_decode json_dumps json_loads

  over_http-IsSame :
      (kw : FetchKw) (http_get : HttpGetBytes)
      → kw.http_get ≡ some http_get
      → (stem uri : String) (mesh_raw : Bytes) (payload : Payload)
      → over_http http_get stem uri kw.cited mesh_raw ≡ ok payload
      → IsSame kw uri mesh_raw payload
  unfolding same_over_http
  over_http-IsSame kw http_get given stem uri mesh_raw payload done =
      let (b, fetched, h1) = >>=-eq-ok (http_get uri) _ done in
      let (_, same, h2) = >>=-eq-ok (require (same_bytes b mesh_raw) assertion_error) _ h1 in
      let (_, _, h3) = >>=-eq-ok (assert_registry_digest_agreement stem uri kw.cited) _ h2 in
      let passed = require-eq-ok (same_bytes b mesh_raw) assertion_error same in
      let result : payload ≡ payload_bytes b = ground arith in
      rw result (http_get, given, fetched, sym (same_bytes→eq b mesh_raw passed))

  same_document-equal :
      (kw : FetchKw) (uri : String) (via_mesh : Json)
      → same_document utf8_encode utf8_decode json_dumps json_loads kw.http_get_json uri via_mesh
        ≡ ok tt
      → SameOverHttp kw uri via_mesh (starts_with uri "http")
  unfolding same_document
  same_document-equal kw uri via_mesh done = elim (Bool-cases (starts_with uri "http")) [
    | inl remote ↦
        let (w, fetched, h) = >>=-eq-ok (kw.http_get_json uri) _ (rw remote at done) in
        rw remote (w, fetched, require-eq-ok (equal w via_mesh) assertion_error h)
    | inr other ↦ rw other tt
  ]

  abbrev parse : Bytes → Option Json
  parse = decode utf8_encode utf8_decode json_dumps json_loads

  json-IsSame :
      (kw : FetchKw) (stem uri : String) (mesh_raw : Bytes) (via_mesh : Json) (payload : Payload)
      → parse mesh_raw ≡ some via_mesh
      → same_json utf8_encode utf8_decode json_dumps json_loads kw.http_get_json stem uri kw.cited
          via_mesh
        ≡ ok payload
      → IsSame kw uri mesh_raw payload
  unfolding same_json
  json-IsSame kw stem uri mesh_raw via_mesh payload parsed done =
      let (_, same, h1) =
        >>=-eq-ok
          (same_document utf8_encode utf8_decode json_dumps json_loads kw.http_get_json uri
            via_mesh)
          _ done in
      let (_, _, h2) = >>=-eq-ok (assert_registry_digest_agreement stem uri kw.cited) _ h1 in
      let result : payload ≡ payload_json via_mesh = ground arith in
      rw result (parsed, same_document-equal kw uri via_mesh same)

  not_json-IsSame :
      (kw : FetchKw) (given : Option HttpGetBytes)
      → kw.http_get ≡ given
      → (use_bytes : Bool) (stem uri : String) (mesh_raw : Bytes) (payload : Payload)
      → not_json utf8_encode utf8_decode json_dumps json_loads given use_bytes stem uri kw.cited
          mesh_raw
        ≡ ok payload
      → IsSame kw uri mesh_raw payload
  unfolding not_json
  not_json-IsSame kw none given use_bytes stem uri mesh_raw payload done = ground arith
  not_json-IsSame kw (some http_get) given true stem uri mesh_raw payload done = ground arith
  not_json-IsSame kw (some http_get) given false stem uri mesh_raw payload done =
      elim (Bool-cases (starts_with uri "http")) [
        | inl remote ↦
            over_http-IsSame kw http_get given stem uri mesh_raw payload (rw remote at done)
        | inr other ↦ let h = rw other at done in ground arith
      ]

  parsed-IsSame :
      (kw : FetchKw) (use_bytes : Bool) (stem uri : String) (via_mesh : Option Json)
      (mesh_raw : Bytes) (payload : Payload)
      → parse mesh_raw ≡ via_mesh
      → parsed_equiv utf8_encode utf8_decode json_dumps json_loads kw use_bytes stem uri via_mesh
          mesh_raw
        ≡ ok payload
      → IsSame kw uri mesh_raw payload
  unfolding parsed_equiv
  parsed-IsSame kw use_bytes stem uri none mesh_raw payload parsed done =
      not_json-IsSame kw kw.http_get refl use_bytes stem uri mesh_raw payload done
  parsed-IsSame kw use_bytes stem uri (some via_mesh) mesh_raw payload parsed done =
      json-IsSame kw stem uri mesh_raw via_mesh payload parsed done

  compare_payload-IsSame :
      (kw : FetchKw) (given : Option HttpGetBytes)
      → kw.http_get ≡ given
      → (use_bytes : Bool) (stem uri : String) (mesh_raw : Bytes) (payload : Payload)
      → compare_payload utf8_encode utf8_decode json_dumps json_loads kw given use_bytes stem uri
          mesh_raw
        ≡ ok payload
      → IsSame kw uri mesh_raw payload
  unfolding compare_payload
  compare_payload-IsSame kw none given use_bytes stem uri mesh_raw payload done =
      parsed-IsSame kw use_bytes stem uri (parse mesh_raw) mesh_raw payload refl done
  compare_payload-IsSame kw (some http_get) given false stem uri mesh_raw payload done =
      parsed-IsSame kw false stem uri (parse mesh_raw) mesh_raw payload refl done
  compare_payload-IsSame kw (some http_get) given true stem uri mesh_raw payload done =
      elim (Bool-cases (starts_with uri "http")) [
        | inl remote ↦
            over_http-IsSame kw http_get given stem uri mesh_raw payload (rw remote at done)
        | inr other ↦
            parsed-IsSame kw true stem uri (parse mesh_raw) mesh_raw payload refl (rw other at done)
      ]

  -- The fetch check returns a payload only if the mesh holds bytes at the locator and these agree
  -- with it: bytes that it returns are those of the mesh and are served over HTTP; a document that
  -- it returns is read from the bytes of the mesh and equals the one over HTTP, where the address
  -- is one there.
  pub assert_fetch_equiv-IsSame :
      (kw : FetchKw) (stem uri : String) (locator : Option String) (as_bytes : Option Bool)
      (payload : Payload)
      → assert_fetch_equiv utf8_encode utf8_decode json_dumps json_loads kw stem uri locator
          as_bytes
        ≡ ok payload
      → (mesh_raw : Bytes) × (mesh_bytes utf8_encode utf8_decode json_dumps json_loads
            kw.content_mesh
            (locator_of stem (strip uri) kw.cited locator)
          ≡ ok mesh_raw)
        × IsSame kw (strip uri) mesh_raw payload
  unfolding assert_fetch_equiv
  assert_fetch_equiv-IsSame kw stem uri locator as_bytes payload done =
      let (_, _, h1) = >>=-eq-ok (require (not (is_empty (strip uri))) assertion_error) _ done in
      let (mesh_raw, held, h2) =
        >>=-eq-ok
          (mesh_bytes utf8_encode utf8_decode json_dumps json_loads kw.content_mesh
            (locator_of stem (strip uri) kw.cited locator))
          _ h1 in
      (
        mesh_raw,
        held,
        compare_payload-IsSame kw kw.http_get refl (is_opaque as_bytes stem) stem (strip uri)
            mesh_raw payload h2,
      )
