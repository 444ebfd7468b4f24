-- ===== src/CasStore.antt =====
-- cas/store.py: blobs under the sha-256 digest of their bytes. `sha256_hex` is the digest of the
-- standard library's hashlib.
pub mod Integrity
use cats.Prelude.{
  ℕ, String, Bool, true, false, not, ◌&&◌, Option, none, some, List, [], ◌∷◌, eqb, if◌then◌else◌,
}
use cats.Result.{Result, ok, err, runtime_error, is_ok, ◌>>=◌}
use cats.Text.{◌<>◌, rstrip_by, is_char}
use cats.Text
use cats.Digest.{validate_digest_segment, to_ni, from_ni, is_ni_or_digest}
use cats.Digest.Codec.{Bytes}
use cats.Files.{read, write, names}

unfoldable pub cas_ldp_path : String → Result String
cas_ldp_path hex_digest = do digest ← validate_digest_segment hex_digest; ok ("/ldp/cas/" <> digest)

-- `base_url` is the caller's, or the Node's own where the caller gives none
unfoldable pub cas_ldp_uri : String → String → Result String
unfolding cas_ldp_path
cas_ldp_uri hex_digest base_url = do
  path ← cas_ldp_path hex_digest
  ok (rstrip_by (is_char b'/') base_url <> path)

pub record CasHttpStore : Type 0 where
  pub blobs : List (String × Bytes)

unfoldable pub same_bytes : Bytes → Bytes → Bool
same_bytes [] [] = true
same_bytes (a ∷ as') (b ∷ bs) = eqb a b && same_bytes as' bs
same_bytes _ _ = false

module _ (sha256_hex : Bytes → String) where
  -- A file that is there already must hold the same bytes.
  abbrev store_blob : Option Bytes → String → Bytes → CasHttpStore → Result CasHttpStore
  store_blob none digest data_bytes s = ok (record { blobs = write digest data_bytes s.blobs })
  store_blob (some existing) digest data_bytes s =
      if same_bytes existing data_bytes then ok s else err runtime_error

  unfoldable pub put : Bytes → CasHttpStore → Result (String × CasHttpStore)
  put data_bytes s = do
    digest ← validate_digest_segment (sha256_hex data_bytes)
    s' ← store_blob (read digest s.blobs) digest data_bytes s
    ni ← to_ni (sha256_hex data_bytes)
    ok (ni, s')

unfoldable pub digest_of : String → Result String
digest_of content_id =
    if is_ni_or_digest content_id then from_ni content_id else validate_digest_segment content_id

unfoldable pub get : String → CasHttpStore → Result (Option Bytes)
unfolding digest_of
get content_id s = do
  digest ← digest_of content_id
  path ← validate_digest_segment digest
  ok (read path s.blobs)

unfoldable pub has : String → CasHttpStore → Result Bool
unfolding get
has content_id s = do found ← get content_id s; ok (elim found [ none ↦ false | some _ ↦ true ])

unfoldable pub digest_names : List String → List String
digest_names [] = []
digest_names (name ∷ rest) =
    if eqb (Text.length name) 64 && is_ok (validate_digest_segment name)
    then name ∷ digest_names rest
    else digest_names rest

unfoldable pub list_digests : CasHttpStore → List String
unfolding digest_names
list_digests s = digest_names (names s.blobs)
