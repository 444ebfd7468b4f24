-- ===== src/Routes.antt =====
-- ldp/headers.py and cas/routes.py: the answers of the Node's HTTP routes. The framework takes a HEAD
-- request as a GET request, and refuses the methods that a route does not name. A header that the
-- code does not set is the framework's own.
pub mod Registry
pub mod Ldp
pub mod Served
pub mod Blobs
use cats.Prelude.{ℕ, String, ◌||◌, Option, none, some, if◌then◌else◌}
use cats.Result.{Result, ok, err, value_error, ◌>>=◌}
use cats.Text.{◌<>◌, is_empty, has_char, drop_prefix}
use cats.Digest.{from_ni, is_ni_or_digest, validate_digest_segment}
use cats.Digest.Codec.{Bytes}
use cats.Json.{Json, Fields, str, obj, end, field}
use cats.CasStore.{CasHttpStore}
use cats.CasStore

pub data Method : Type 0 where
  get_method head_method options_method put_method : Method

pub data Body : Type 0 where
  no_body : Body
  json_body : Json → Body
  bytes_body : Bytes → Body

pub record Response : Type 0 where
  pub status : ℕ
  pub body : Body
  pub link : Option String
  pub allow : Option String
  pub content_type : Option String

abbrev pub ldp_ns : String
ldp_ns = "http://www.w3.org/ns/ldp#"

unfoldable pub link_to : String → String
link_to class_name = "<" <> (ldp_ns <> (class_name <> ">; rel=\"type\""))

unfoldable pub resource_link_header : String
unfolding link_to
resource_link_header = link_to "Resource" <> (", " <> link_to "RDFSource")

unfoldable pub container_link_header : String
unfolding link_to
container_link_header = link_to "Resource" <> (", " <> link_to "BasicContainer")

unfoldable pub apply_resource_headers : Response → Response
unfolding resource_link_header
apply_resource_headers response = record {
  status = response.status;
  body = response.body;
  link = some resource_link_header;
  allow = some "GET, HEAD, OPTIONS";
  content_type = some "application/ld+json";
}

unfoldable pub apply_container_headers : Response → Response
unfolding container_link_header
apply_container_headers response = record {
  status = response.status;
  body = response.body;
  link = some container_link_header;
  allow = some "GET, HEAD, OPTIONS";
  content_type = some "application/ld+json";
}

-- a response without headers of its own
unfoldable pub respond : ℕ → Body → Response
respond status body = record {
  status = status;
  body = body;
  link = none;
  allow = none;
  content_type = none;
}

unfoldable pub json_error : ℕ → String → Fields → Response
unfolding respond
json_error status message more = respond status (json_body (obj (field "error" (str message) more)))

-- the answer to OPTIONS
unfoldable pub resource_options : Response
unfolding respond apply_resource_headers
resource_options = apply_resource_headers (respond 204 no_body)

unfoldable pub container_options : Response
unfolding respond apply_container_headers
container_options = apply_container_headers (respond 204 no_body)

unfoldable pub put_not_allowed : String → Response
unfolding json_error apply_resource_headers
put_not_allowed message = apply_resource_headers (json_error 405 message end)

unfoldable pub json_resource : Json → Response
unfolding respond apply_resource_headers
json_resource document = apply_resource_headers (respond 200 (json_body document))

unfoldable pub json_container : Json → Response
unfolding respond apply_container_headers
json_container document = apply_container_headers (respond 200 (json_body document))

-- `except ValueError`: another exception goes on to the framework
unfoldable pub answer {ℓ} : {A : Type ℓ} → Response → (A → Response) → Result A → Result Response
answer invalid respond_to (ok a) = ok (respond_to a)
answer invalid respond_to (err value_error) = ok invalid
answer invalid respond_to (err e) = err e

unfoldable pub or_missing {ℓ} : {A : Type ℓ} → Response → (A → Response) → Option A → Response
or_missing missing respond_to none = missing
or_missing missing respond_to (some a) = respond_to a

unfoldable pub cas_key : String → Result String
cas_key digest = if is_ni_or_digest digest then from_ni digest else validate_digest_segment digest

-- The bytes are made a response with a type of their own, which the headers of a resource replace.
unfoldable pub blob_response : Bytes → Response
unfolding apply_resource_headers
blob_response data_bytes = apply_resource_headers (record {
  status = 200;
  body = bytes_body data_bytes;
  link = none;
  allow = none;
  content_type = some "application/octet-stream";
})

unfoldable pub read_blob : String → CasHttpStore → Result (Option Bytes)
unfolding cas_key
read_blob digest store = do key ← cas_key digest; CasStore.get key store

unfoldable pub get_blob : String → CasHttpStore → Result Response
unfolding answer or_missing json_error blob_response read_blob
get_blob digest store =
    answer (json_error 400 "invalid digest" end)
      (or_missing (json_error 404 "not found" end) blob_response) (read_blob digest store)

unfoldable pub ldp_cas_resource : Method → String → CasHttpStore → Result Response
unfolding put_not_allowed resource_options get_blob
ldp_cas_resource put_method digest store = ok (
    put_not_allowed
      "CAS PUT not open; Node publishes via ContentMesh / Runtime (CasHttpStore) only")
ldp_cas_resource options_method digest store = ok resource_options
ldp_cas_resource get_method digest store = get_blob digest store
ldp_cas_resource head_method digest store = get_blob digest store

-- what `<digest>` matches in `/ldp/cas/<digest>`, in a path whose escapes are decoded: one segment
unfoldable pub cas_segment : String → Option String
cas_segment path = elim (drop_prefix path "/ldp/cas/") [
  | none ↦ none
  | some digest ↦ if is_empty digest || has_char b'/' digest then none else some digest
]

-- the route, which no other path reaches
unfoldable pub cas_route : Method → String → CasHttpStore → Option (Result Response)
unfolding cas_segment ldp_cas_resource
cas_route method path store = elim (cas_segment path) [
  | none ↦ none
  | some digest ↦ some (ldp_cas_resource method digest store)
]
