-- ===== src/AddressStore/Stored.antt =====
-- What was put into the blobs of a home is read from there.
use cats.Prelude.{String, ◌≡◌, refl, true, inl, inr, Option, some, Bool-cases, arith, eq_iff}
use cats.Result.{Result, ok}
use cats.Text.{strip, lower}
use cats.Digest.{is_hex_sha256, is_ni_or_digest, validate_digest_segment, from_ni}
use cats.Digest.Names.{from_ni-is_ni_or_digest, validate_digest_segment_self}
use cats.Digest.Codec.{Bytes}
use cats.CasStore.{CasHttpStore}
use cats.CasStore
use cats.CasStore.Integrity.{put-Stored, IsAddressed, get-IsAddressed}
use cats.AddressStore.{
  Home, verified, cas_local_bytes, or_locators, cat_named, cat_resolved, cat_bytes,
}
use cats.AddressStore.Ids.{from_ni-not_http, from_ni-not_hl}

module _ (sha256_hex : Bytes → String) (hashes : (b : Bytes) → is_hex_sha256 (sha256_hex b) ≡ true)
    (http_get : String → Result Bytes) where
  get-named :
      (b : Bytes) (s : CasHttpStore) (ni : String) (s' : CasHttpStore) (x : String)
      → CasStore.put sha256_hex b s ≡ ok (ni, s')
      → from_ni x ≡ ok (sha256_hex b)
      → CasStore.get x s' ≡ ok (some b)
  unfolding CasStore.get CasStore.digest_of
  get-named b s ni s' x done named =
      rw
        (
          from_ni-is_ni_or_digest x (sha256_hex b) named,
          named,
          validate_digest_segment_self (sha256_hex b) (hashes b),
          (put-Stored sha256_hex hashes b s ni s' done).here,
        )
        refl

  verified_same : (b : Bytes) → verified sha256_hex http_get b (sha256_hex b) ≡ ok b
  unfolding verified
  verified_same b = rw ((eq_iff (sha256_hex b) (sha256_hex b)).1 refl) refl

  -- Where the hash gives 64 lowercase hex digits, and the blobs of a home come from a successful
  -- `put`, `cat_bytes` reads the bytes that were put under every name of their digest, whatever
  -- digest the caller expects and whatever is served over HTTP.
  pub cat_bytes-put :
      (b : Bytes) (s : CasHttpStore) (ni : String) (home : Home) (x : String)
      (expect_digest : Option String)
      → CasStore.put sha256_hex b s ≡ ok (ni, home.store)
      → from_ni x ≡ ok (sha256_hex b)
      → cat_bytes sha256_hex http_get (some home) x expect_digest ≡ ok b
  unfolding cat_bytes cat_resolved cat_named cas_local_bytes or_locators
  cat_bytes-put b s ni home x expect_digest done named =
      rw
        (
          from_ni-not_hl x (sha256_hex b) named,
          from_ni-not_http x (sha256_hex b) named,
          from_ni-is_ni_or_digest x (sha256_hex b) named,
          get-named b s ni home.store x done named,
          named,
          verified_same b,
        )
        refl

  digest_of-from_ni : (x d : String) → CasStore.digest_of x ≡ ok d → from_ni x ≡ ok d
  unfolding CasStore.digest_of validate_digest_segment from_ni
  digest_of-from_ni x d read = elim (Bool-cases (is_ni_or_digest x)) [
    | inl named ↦ rw named at read
    | inr other ↦ elim (Bool-cases (is_hex_sha256 (lower (strip x)))) [
      | inl bare ↦ let h = rw (other, bare) at read in ground arith
      | inr broken ↦ let h = rw (other, broken) at read in ground arith
    ]
  ]

  -- what the blobs of a home hold is read, where they stand under their digests
  pub cat_bytes-held :
      (home : Home) (x : String) (b : Bytes) (expect_digest : Option String)
      → IsAddressed sha256_hex hashes home.store
      → CasStore.get x home.store ≡ ok (some b)
      → cat_bytes sha256_hex http_get (some home) x expect_digest ≡ ok b
  unfolding cat_bytes cat_resolved cat_named cas_local_bytes or_locators
  cat_bytes-held home x b expect_digest addressed held =
      let named =
        digest_of-from_ni x (sha256_hex b)
          (get-IsAddressed sha256_hex hashes x home.store b addressed held) in
      rw
        (
          from_ni-not_hl x (sha256_hex b) named,
          from_ni-not_http x (sha256_hex b) named,
          from_ni-is_ni_or_digest x (sha256_hex b) named,
          held,
          named,
          verified_same b,
        )
        refl
