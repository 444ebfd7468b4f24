-- ===== src/NamedBinds/RoundTrip.antt =====
-- A leaf that is made for a digest is read back with the digest's name.
use cats.Prelude.{String, ◌≡◌, refl, true, false, Option, none, some, arith}
use cats.Result.{ok, >>=-eq-ok}
use cats.Text.{is_empty, ◌<>◌}
use cats.Digest.{is_hex_sha256, is_ni_or_digest, to_ni, from_ni}
use cats.Digest.Names.{from_ni-valid, from_ni-is_ni_or_digest, to_ni-Named, ni_name, strip-ni_name}
use cats.Digest.Codec.{Bytes}
use cats.Json.{Json, Fields, str, obj, end, field, get, set, text, as_dict}
use cats.ContentRef.{equality_id, content_uri}
use cats.ContentRef.Equality.{equality_id_idem, equality_id_parts}
use cats.Refs.{non_empty}
use cats.NamedBinds.{
  named_bind_payload, with_source, first_filled, source_id_of, named_bind_source_id, is_filled,
  named_leaf, spec_of, parse_named_bind_leaf,
}

-- the name of a digest is a text that is not blank
name-text : (d n : String) → is_hex_sha256 d ≡ true → to_ni d ≡ ok n → text (str n) ≡ some n
unfolding text is_empty ◌<>◌
name-text d n valid made =
    let r = to_ni-Named d valid in
    let same : n ≡ ni_name r.bytes = ground (arith, r.named) in
    rw (same, strip-ni_name r.bytes r.in_range) refl

source_id-text :
    (spec : Fields) (n : String)
    → text (get "contentId" spec) ≡ some n
    → is_ni_or_digest n ≡ true
    → equality_id n ≡ ok n
    → named_bind_source_id (obj spec) ≡ ok (some n)
unfolding named_bind_source_id first_filled source_id_of as_dict
source_id-text spec n found named same =
    rw (named_bind_source_id, first_filled, found, source_id_of, named, same) refl

-- the payload of an id, whose other fields stand behind it
leaf_fields :
    (n m q : String) (uri : Option String)
    → let p =
        with_source uri
          (field "contentId" (str n) (field "module" (str m) (field "qualname" (str q) end))) in
      (get "contentId" p ≡ str n) × (get "module" p ≡ str m) × (get "qualname" p ≡ str q)
unfolding with_source set get
leaf_fields n m q none = (refl, refl, refl)
leaf_fields n m q (some uri) = (refl, refl, refl)

parse-leaf :
    (loads : Bytes → Option Json) (raw : Bytes) (spec : Fields) (n m q : String)
    → loads raw ≡ some (obj spec)
    → get "module" spec ≡ str m
    → get "qualname" spec ≡ str q
    → is_empty m ≡ false
    → is_empty q ≡ false
    → named_bind_source_id (obj spec) ≡ ok (some n)
    → parse_named_bind_leaf loads raw ≡ ok (some spec)
unfolding parse_named_bind_leaf spec_of is_filled named_leaf as_dict
parse-leaf loads raw spec n m q read module_read qualname_read module_filled qualname_filled id =
    rw
      (
        parse_named_bind_leaf, spec_of, read, as_dict, module_read, qualname_read, module_filled,
        qualname_filled, id,
      )
      refl

-- For a name or a digest, a module and a function name that are not empty, and bytes that are read
-- as the payload that is made of them, the source id of the payload is the canonical name of the
-- digest, and the bytes are accepted as a leaf that is the payload.
pub parse-named_bind_payload :
    (loads : Bytes → Option Json) (raw : Bytes) (source d m q base_url : String) (payload : Fields)
    → from_ni source ≡ ok d
    → is_empty m ≡ false
    → is_empty q ≡ false
    → named_bind_payload source m q base_url ≡ ok payload
    → loads raw ≡ some (obj payload)
    → (n : String) × (to_ni d ≡ ok n)
      × (named_bind_source_id (obj payload) ≡ ok (some n))
      × (parse_named_bind_leaf loads raw ≡ ok (some payload))
unfolding named_bind_payload
parse-named_bind_payload loads raw source d m q base_url payload read module_filled qualname_filled
      done parsed =
    let named = from_ni-is_ni_or_digest source d read in
    let (n, made, h1) = >>=-eq-ok (equality_id source) _ (rw named at done) in
    let (uri, _, h2) = >>=-eq-ok (content_uri n base_url) _ h1 in
    let (spelled, back) = equality_id_parts source d n read made in
    let (id_field, module_field, qualname_field) = leaf_fields n m q (non_empty uri) in
    let same : payload
        ≡ with_source (non_empty uri)
            (field "contentId" (str n) (field "module" (str m) (field "qualname" (str q) end))) =
      ground arith in
    let found : text (get "contentId" payload) ≡ some n =
      rw (same, id_field) (name-text d n (from_ni-valid source d read) spelled) in
    let id =
      source_id-text payload n found (from_ni-is_ni_or_digest n d back)
        (equality_id_idem source n made) in
    (
      n,
      spelled,
      id,
      parse-leaf loads raw payload n m q parsed (rw same module_field) (rw same qualname_field)
          module_filled qualname_filled id,
    )
