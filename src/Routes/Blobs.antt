-- ===== src/Routes/Blobs.antt =====
-- The route of the CAS serves what `put` stored.
use cats.Prelude.{String, ◌≡◌, refl, true, false, some, arith}
use cats.Text.{◌<>◌, has_char}
use cats.Text.Laws.{drop_prefix-append, has_char-eq-false}
use cats.Digest.Keys.{from_ni-filled}
use cats.Result.{ok}
use cats.Digest.{is_hex_sha256, from_ni}
use cats.Digest.Names.{
  is_hex_sha256-hex, from_ni-is_ni_or_digest, is_ni_or_digest-digest, from_ni-digest,
  validate_digest_segment_self,
}
use cats.Digest.Codec.{Bytes, is_hex}
use cats.CasStore.{CasHttpStore}
use cats.CasStore
use cats.CasStore.Integrity.{put-Stored}
use cats.Routes.{
  get_method, cas_segment, cas_route, ldp_cas_resource, blob_response, get_blob, read_blob, cas_key,
  answer, or_missing,
}

blob_served :
    (x d : String) (s : CasHttpStore) (b : Bytes)
    → from_ni x ≡ ok d
    → CasStore.get d s ≡ ok (some b)
    → ldp_cas_resource get_method x s ≡ ok (blob_response b)
unfolding ldp_cas_resource get_blob read_blob cas_key answer or_missing
blob_served x d s b named held = rw (from_ni-is_ni_or_digest x d named, named, held) refl

module _ (sha256_hex : Bytes → String)
    (hashes : (b : Bytes) → is_hex_sha256 (sha256_hex b) ≡ true) where
  get-digest :
      (b : Bytes) (s : CasHttpStore) (ni : String) (s' : CasHttpStore)
      → CasStore.put sha256_hex b s ≡ ok (ni, s')
      → CasStore.get (sha256_hex b) s' ≡ ok (some b)
  unfolding CasStore.get CasStore.digest_of
  get-digest b s ni s' done =
      let stored = put-Stored sha256_hex hashes b s ni s' done in
      rw
        (
          is_ni_or_digest-digest (sha256_hex b) (hashes b),
          from_ni-digest (sha256_hex b) (hashes b),
          validate_digest_segment_self (sha256_hex b) (hashes b),
          stored.here,
        )
        refl

  digest-one_segment : (b : Bytes) → has_char b'/' (sha256_hex b) ≡ false
  unfolding is_hex
  digest-one_segment b =
      has_char-eq-false is_hex b'/' (λ c h. ground arith) (sha256_hex b)
        (is_hex_sha256-hex (sha256_hex b) (hashes b))

  cas_route-segment :
      (b : Bytes) (s : CasHttpStore) (ni : String) (s' : CasHttpStore) (segment : String)
      → CasStore.put sha256_hex b s ≡ ok (ni, s')
      → from_ni segment ≡ ok (sha256_hex b)
      → has_char b'/' segment ≡ false
      → cas_route get_method ("/ldp/cas/" <> segment) s' ≡ some (ok (blob_response b))
  unfolding cas_route cas_segment
  cas_route-segment b s ni s' segment done named one =
      rw
        (
          cas_route,
          cas_segment,
          drop_prefix-append "/ldp/cas/" segment,
          from_ni-filled segment (sha256_hex b) named,
          one,
          blob_served segment (sha256_hex b) s' b named (get-digest b s ni s' done),
        )
        refl

  -- Where the hash gives 64 lowercase hex digits, after a successful `put` the CAS route answers
  -- GET with the bytes that were put at the path that the store gives for their digest, and under
  -- every name of the digest that is one segment of a path, as its hex digits in any case.
  pub cas_route-put :
      (b : Bytes) (s : CasHttpStore) (ni : String) (s' : CasHttpStore) (segment : String)
      → CasStore.put sha256_hex b s ≡ ok (ni, s')
      → from_ni segment ≡ ok (sha256_hex b)
      → has_char b'/' segment ≡ false
      → (path : String) × (CasStore.cas_ldp_path (sha256_hex b) ≡ ok path)
        × (cas_route get_method path s' ≡ some (ok (blob_response b)))
        × (cas_route get_method ("/ldp/cas/" <> segment) s' ≡ some (ok (blob_response b)))
  unfolding CasStore.cas_ldp_path
  cas_route-put b s ni s' segment done named one = (
    "/ldp/cas/" <> sha256_hex b,
    rw (validate_digest_segment_self (sha256_hex b) (hashes b)) refl,
    cas_route-segment b s ni s' (sha256_hex b) done (from_ni-digest (sha256_hex b) (hashes b))
        (digest-one_segment b),
    cas_route-segment b s ni s' segment done named one,
  )
