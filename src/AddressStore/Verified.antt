-- ===== src/AddressStore/Verified.antt =====
-- Bytes that are read by a name, a digest or a hashlink have the digest that it spells.
use cats.Prelude.{
  String, ◌≡◌, refl, ap, ◌∙◌, inl, inr, true, false, Option, none, some, List, [], ◌∷◌, ◌==◌,
  eq_iff, arith, Bool-cases, Option-cases,
}
use cats.Result.{Result, ok, err, file_not_found, Result-cases, >>=-eq-ok, ◌>>=◌}
use cats.Text.{strip, is_empty}
use cats.Digest.{from_ni}
use cats.Digest.Codec.{Bytes}
use cats.Digest.Names.{from_ni-is_ni_or_digest}
use cats.Hashlink.{is_hl, from_hl}
use cats.ContentRef.{is_http_uri}
use cats.Refs.{non_empty}
use cats.AddressStore.{
  Home, verified, first_hint, fetch_hint_uri, check_digest, cat_http, cat_named, cat_resolved,
  cat_hashlink, cat_bytes, resolve_expect_digest, local_ldp_bytes, local_or_http, cas_local_bytes,
  or_locators,
}
use cats.AddressStore.Ids.{from_ni-not_http, from_ni-not_hl}

-- the digest that the bytes of an id must have: that of a name or a digest, that of the name in a
-- hashlink, or the one that is known for an address
pub data Promised (home : Option Home) (expect : Option String) : String → String → Type 0 where
  by_name : (x d : String) → from_ni x ≡ ok d → Promised home expect x d
  by_hashlink :
      (x ni d : String) (uris : List String)
      → is_hl x ≡ true
      → from_hl (strip x) ≡ ok (ni, uris)
      → from_ni ni ≡ ok d
      → Promised home expect x d
  by_address :
      (x d : String)
      → is_hl x ≡ false
      → is_http_uri x ≡ true
      → resolve_expect_digest home x expect ≡ ok (some d)
      → is_empty d ≡ false
      → Promised home expect x d

module _ (sha256_hex : Bytes → String) (http_get : String → Result Bytes) where
  verified-digest :
      (found data_bytes : Bytes) (d : String)
      → verified sha256_hex http_get found d ≡ ok data_bytes
      → sha256_hex data_bytes ≡ d
  unfolding verified
  verified-digest found data_bytes d done = elim (Bool-cases (sha256_hex found == d)) [
    | inl same ↦
        let h = rw same at done in
        let is_found : data_bytes ≡ found = ground arith in
        rw is_found ((eq_iff (sha256_hex found) d).0 same)
    | inr other ↦ let h = rw other at done in ground arith
  ]

  step-digest :
      (found : Bytes) (d : String) (data_bytes : Bytes)
      → (verified sha256_hex http_get found d >>= (λ checked. ok (some checked)))
        ≡ ok (some data_bytes)
      → sha256_hex data_bytes ≡ d
  step-digest found d data_bytes done =
      let (checked, passed, same) = >>=-eq-ok (verified sha256_hex http_get found d) _ done in
      let is_checked : checked ≡ data_bytes = ground arith in
      verified-digest found data_bytes d (passed ∙ ap ok is_checked)

  first_hint-digest :
      (home : Option Home) (d : String) (uris : List String) (data_bytes : Bytes)
      → first_hint sha256_hex http_get home d uris ≡ ok (some data_bytes)
      → sha256_hex data_bytes ≡ d
  unfolding first_hint
  first_hint-digest home d [] data_bytes done = ground arith
  first_hint-digest home d (uri ∷ uris) data_bytes done =
      let later = first_hint-digest home d uris data_bytes in
      elim (Bool-cases (is_http_uri uri)) [
        | inr other ↦ later (rw other at done)
        | inl address ↦
            let h = rw address at done in
            elim (Result-cases (fetch_hint_uri sha256_hex http_get home uri)) [
              | inl (found, read) ↦ step-digest found d data_bytes (rw read at h)
              | inr (e, failed) ↦ later (rw failed at h)
            ]
      ]

  found-digest :
      (x d : String) (found : Option Bytes) (data_bytes : Bytes)
      → from_ni x ≡ ok d
      → elim found [
        | none ↦ err file_not_found
        | some raw ↦ from_ni x >>= (λ digest. verified sha256_hex http_get raw digest)
      ]
        ≡ ok data_bytes
      → sha256_hex data_bytes ≡ d
  found-digest x d none data_bytes read done = ground arith
  found-digest x d (some found) data_bytes read done =
      verified-digest found data_bytes d (rw read at done)

  cat_named-digest :
      (home : Option Home) (x d : String) (data_bytes : Bytes)
      → from_ni x ≡ ok d
      → cat_named sha256_hex http_get home x ≡ ok data_bytes
      → sha256_hex data_bytes ≡ d
  unfolding cat_named
  cat_named-digest home x d data_bytes read done =
      let (here, _, h1) = >>=-eq-ok (cas_local_bytes home x) _ done in
      let (found, _, h2) = >>=-eq-ok (or_locators sha256_hex http_get home x here) _ h1 in
      found-digest x d found data_bytes read h2

  cat_resolved-digest :
      (home : Option Home) (x d : String) (expect : Option String) (data_bytes : Bytes)
      → from_ni x ≡ ok d
      → cat_resolved sha256_hex http_get home x expect ≡ ok data_bytes
      → sha256_hex data_bytes ≡ d
  unfolding cat_resolved
  cat_resolved-digest home x d expect data_bytes read done =
      cat_named-digest home x d data_bytes read
        (rw (from_ni-not_http x d read, from_ni-is_ni_or_digest x d read) at done)

  check_digest-digest :
      (d : String) (path_digest : Option String) (found data_bytes : Bytes)
      → non_empty (some d) ≡ some d
      → check_digest sha256_hex http_get (some d) path_digest found ≡ ok data_bytes
      → sha256_hex data_bytes ≡ d
  unfolding check_digest
  check_digest-digest d path_digest found data_bytes there done =
      verified-digest found data_bytes d (rw (check_digest, there) at done)

  cat_http-digest :
      (home : Option Home) (x d : String) (expect : Option String) (data_bytes : Bytes)
      → resolve_expect_digest home x expect ≡ ok (some d)
      → is_empty d ≡ false
      → cat_http sha256_hex http_get home x expect ≡ ok data_bytes
      → sha256_hex data_bytes ≡ d
  unfolding cat_http non_empty
  cat_http-digest home x d expect data_bytes known there done =
      let (here, _, h1) = >>=-eq-ok (local_ldp_bytes home x) _ done in
      let ((found, path_digest), _, h2) =
        >>=-eq-ok (local_or_http sha256_hex http_get here x) _ h1 in
      check_digest-digest d path_digest found data_bytes (rw there refl) (rw known at h2)

  cat_hashlink-digest :
      (home : Option Home) (x ni d : String) (uris : List String) (expect : Option String)
      (data_bytes : Bytes)
      → from_hl (strip x) ≡ ok (ni, uris)
      → from_ni ni ≡ ok d
      → cat_hashlink sha256_hex http_get home x expect ≡ ok data_bytes
      → sha256_hex data_bytes ≡ d
  unfolding cat_hashlink
  cat_hashlink-digest home x ni d uris expect data_bytes linked read done =
      let (found, hinted, h1) =
        >>=-eq-ok (first_hint sha256_hex http_get home d uris) _ (rw (linked, read) at done) in
      elim (Option-cases found) [
        | inl nothing ↦ cat_resolved-digest home ni d expect data_bytes read (rw nothing at h1)
        | inr (raw, there) ↦
            let served = rw there at h1 in
            let same : raw ≡ data_bytes = ground arith in
            first_hint-digest home d uris data_bytes (hinted ∙ ap ok (there ∙ ap some same))
      ]

  -- Bytes that `cat_bytes` reads have the digest that is promised: that of a name or a digest,
  -- that of the name in a hashlink, or the one that is known for an address.
  pub cat_bytes-digest :
      (home : Option Home) (x d : String) (expect : Option String) (data_bytes : Bytes)
      → Promised home expect x d
      → cat_bytes sha256_hex http_get home x expect ≡ ok data_bytes
      → sha256_hex data_bytes ≡ d
  unfolding cat_bytes cat_resolved
  cat_bytes-digest home x d expect data_bytes (by_name _ _ read) done =
      cat_resolved-digest home x d expect data_bytes read (rw (from_ni-not_hl x d read) at done)
  cat_bytes-digest home x d expect data_bytes (by_hashlink _ ni _ uris link linked read) done =
      cat_hashlink-digest home x ni d uris expect data_bytes linked read (rw link at done)
  cat_bytes-digest home x d expect data_bytes (by_address _ _ plain address known there) done =
      cat_http-digest home x d expect data_bytes known there (rw (plain, address) at done)
