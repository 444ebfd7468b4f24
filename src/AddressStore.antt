-- ===== src/AddressStore.antt =====
-- address_store/store.py: reads by content id, hashlink or address. `http_get` fetches the bytes of an
-- address, and `sha256_hex` is hashlib's digest. A home holds the node's blobs, its locator index and
-- its Invoices and Orders.
pub mod Get
pub mod Ids
pub mod Verified
pub mod Stored
pub mod Trees
use cats.Prelude.{
  String, Bool, true, false, not, ◌&&◌, Option, none, some, List, [], ◌∷◌, ◌==◌, if◌then◌else◌,
}
use mathlib.Core.Option
use cats.Result.{
  Result, ok, err, value_error, runtime_error, attribute_error, file_not_found, ◌>>=◌,
}
use cats.Text.{strip, lower, drop_prefix}
use cats.Digest.{from_ni, is_ni_or_digest, is_hex_sha256, is_cid_segment, validate_digest_segment}
use cats.Digest.Codec.{Bytes}
use cats.Hashlink.{is_hl, from_hl}
use cats.Json.{Json, str}
use cats.CasStore.{CasHttpStore}
use cats.CasStore
use cats.Locators.{LocatorIndex, lookup_uris, find_content_id_for_uri}
use cats.LdpStore.{JsonResourceStore, get_bytes}
use cats.ContentRef.{is_http_uri}
use cats.ContentRef.Url.{url_path}
use cats.Refs.{non_empty}
use cats.Manifest.{FetchBytes, is_directory_manifest, materialize_tree}

pub record Home : Type 0 where
  pub store : CasHttpStore
  pub index : LocatorIndex
  pub invoices : JsonResourceStore
  pub orders : JsonResourceStore

-- `_CAS_PATH`
unfoldable pub cas_path : String → Option String
cas_path path = elim (drop_prefix path "/ldp/cas/") [
  | none ↦ none
  | some digest ↦ if is_hex_sha256 digest then some digest else none
]

-- `_INVOICE_PATH` and `_ORDER_PATH`
unfoldable pub resource_path : String → String → Option String
resource_path collection path = elim (drop_prefix path collection) [
  | none ↦ none
  | some key ↦ if is_cid_segment key then some key else none
]

-- the bytes, and the digest that the path names
abbrev pub LocalBytes : Type 0
LocalBytes = Option (Bytes × Option String)

unfoldable pub with_digest : Option String → Option Bytes → LocalBytes
with_digest digest none = none
with_digest digest (some data_bytes) = some (data_bytes, digest)

-- a ValueError is no digest
unfoldable pub digest_or_none : Result String → Result (Option String)
digest_or_none (ok digest) = ok (some digest)
digest_or_none (err value_error) = ok none
digest_or_none (err e) = err e

unfoldable pub local_resource : JsonResourceStore → String → Result LocalBytes
unfolding with_digest digest_or_none
local_resource resources key = do
  found ← get_bytes key resources
  elim found [
    | none ↦ ok none
    | some data_bytes ↦ (do
      digest ← digest_or_none (validate_digest_segment (lower key))
      ok (with_digest digest (some data_bytes)))
  ]

unfoldable pub local_blob : CasHttpStore → String → Result LocalBytes
unfolding with_digest
local_blob store key = do
  digest ← validate_digest_segment key
  found ← CasStore.get digest store
  ok (with_digest (some digest) found)

unfoldable pub local_at_path : Home → String → Result LocalBytes
unfolding cas_path resource_path local_blob local_resource
local_at_path home path = elim (cas_path path) [
  | some digest ↦ local_blob home.store digest
  | none ↦ elim (resource_path "/ldp/invoices/" path) [
    | some key ↦ local_resource home.invoices key
    | none ↦ elim (resource_path "/ldp/orders/" path) [
      | some key ↦ local_resource home.orders key
      | none ↦ ok none
    ]
  ]
]

unfoldable pub local_ldp_bytes : Option Home → String → Result LocalBytes
unfolding local_at_path
local_ldp_bytes none uri = ok none
local_ldp_bytes (some home) uri = do path ← url_path uri; local_at_path home path

unfoldable pub cas_local_bytes : Option Home → String → Result (Option Bytes)
cas_local_bytes none content_id = ok none
cas_local_bytes (some home) content_id = CasStore.get content_id home.store

-- the digest of an id that the index gives, where it is a name or a digest
unfoldable pub digest_of_found : Option String → Result (Option String)
unfolding non_empty
digest_of_found found = elim (non_empty found) [
  | none ↦ ok none
  | some id ↦ if is_ni_or_digest id then (do digest ← from_ni id; ok (some digest)) else ok none
]

unfoldable pub digest_in_index : Option Home → String → Result (Option String)
unfolding digest_of_found
digest_in_index none uri = ok none
digest_in_index (some home) uri = do
  found ← find_content_id_for_uri uri home.index
  digest_of_found found

unfoldable pub resolve_expect_digest : Option Home → String → Option String → Result (Option String)
unfolding non_empty cas_path digest_in_index
resolve_expect_digest home uri expect_digest = elim (non_empty expect_digest) [
  | some expected ↦ (do
    digest ← if is_ni_or_digest expected then from_ni expected else validate_digest_segment expected
    ok (some digest))
  | none ↦ (do
    path ← url_path uri
    elim (cas_path path) [
      | some digest ↦ (do d ← validate_digest_segment digest; ok (some d))
      | none ↦ digest_in_index home uri
    ])
]

module _ (sha256_hex : Bytes → String) (http_get : String → Result Bytes) where
  -- bytes of another digest are an error
  unfoldable pub verified : Bytes → String → Result Bytes
  verified data_bytes digest =
      if sha256_hex data_bytes == digest then ok data_bytes else err runtime_error

  -- The first address that can be fetched must serve the content.
  unfoldable pub first_locator : String → List String → Result (Option Bytes)
  unfolding verified
  first_locator content_id [] = ok none
  first_locator content_id (uri ∷ uris) =
      let later = first_locator content_id uris in
      elim (http_get uri) [
        | err _ ↦ later
        | ok data_bytes ↦ (do
          digest ← from_ni content_id
          checked ← verified data_bytes digest
          ok (some checked))
      ]

  unfoldable pub cas_locator_bytes : Option Home → String → Result (Option Bytes)
  unfolding first_locator
  cas_locator_bytes none content_id = ok none
  cas_locator_bytes (some home) content_id = do
    uris ← lookup_uris content_id home.index
    first_locator content_id uris

  -- bytes that are there already, else those over HTTP, which have no digest from their path
  unfoldable pub local_or_http : LocalBytes → String → Result (Bytes × Option String)
  local_or_http (some (data_bytes, digest)) uri = ok (data_bytes, digest)
  local_or_http none uri = do data_bytes ← http_get uri; ok (data_bytes, none)

  unfoldable pub fetch_hint_uri : Option Home → String → Result Bytes
  unfolding local_ldp_bytes local_or_http
  fetch_hint_uri home uri = do
    here ← local_ldp_bytes home uri
    (data_bytes, digest) ← local_or_http here uri
    ok data_bytes

  -- the first hint that can be fetched, which must serve the content
  unfoldable pub first_hint : Option Home → String → List String → Result (Option Bytes)
  unfolding fetch_hint_uri verified
  first_hint home digest [] = ok none
  first_hint home digest (uri ∷ uris) =
      let later = first_hint home digest uris in
      if is_http_uri uri
      then (elim (fetch_hint_uri home uri) [
        | err _ ↦ later
        | ok data_bytes ↦ (do checked ← verified data_bytes digest; ok (some checked))
      ])
      else later

  -- the digest of the caller, of the path of the address, or of the index, else that of the local
  -- path, is checked where there is one
  unfoldable pub check_digest : Option String → Option String → Bytes → Result Bytes
  unfolding non_empty verified
  check_digest resolved path_digest data_bytes = elim (non_empty resolved) [
    | some digest ↦ verified data_bytes digest
    | none ↦ elim path_digest [ some digest ↦ verified data_bytes digest | none ↦ ok data_bytes ]
  ]

  unfoldable pub cat_http : Option Home → String → Option String → Result Bytes
  unfolding local_ldp_bytes local_or_http resolve_expect_digest check_digest
  cat_http home uri expect_digest = do
    here ← local_ldp_bytes home uri
    (data_bytes, path_digest) ← local_or_http here uri
    resolved ← resolve_expect_digest home uri expect_digest
    check_digest resolved path_digest data_bytes

  unfoldable pub or_locators : Option Home → String → Option Bytes → Result (Option Bytes)
  unfolding cas_locator_bytes
  or_locators home content_id (some data_bytes) = ok (some data_bytes)
  or_locators home content_id none = cas_locator_bytes home content_id

  unfoldable pub cat_named : Option Home → String → Result Bytes
  unfolding cas_local_bytes or_locators verified
  cat_named home content_id = do
    here ← cas_local_bytes home content_id
    found ← or_locators home content_id here
    elim found [
      | none ↦ err file_not_found
      | some data_bytes ↦ (do digest ← from_ni content_id; verified data_bytes digest)
    ]

  unfoldable pub cat_resolved : Option Home → String → Option String → Result Bytes
  unfolding cat_http cat_named
  cat_resolved home content_id expect_digest =
      if is_http_uri content_id
      then cat_http home content_id expect_digest
      else if is_ni_or_digest content_id
      then cat_named home content_id
      else err runtime_error

  unfoldable pub cat_hashlink : Option Home → String → Option String → Result Bytes
  unfolding first_hint cat_resolved
  cat_hashlink home hashlink expect_digest = do
    (ni, uris) ← from_hl (strip hashlink)
    digest ← from_ni ni
    found ← first_hint home digest uris
    elim found [ some data_bytes ↦ ok data_bytes | none ↦ cat_resolved home ni expect_digest ]

  unfoldable pub cat_bytes : Option Home → String → Option String → Result Bytes
  unfolding cat_hashlink cat_resolved
  cat_bytes home content_id expect_digest =
      if is_hl content_id
      then cat_hashlink home content_id expect_digest
      else cat_resolved home content_id expect_digest
