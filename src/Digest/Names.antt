-- ===== src/Digest/Names.antt =====
-- A digest and its `ni:` name: reading what was written, and one canonical name for each digest.
use cats.Prelude.{
  [], ◌∷◌, Char, String, ◌≡◌, refl, ap, ◌∙◌, Bool, true, false, not, inl, inr, some, arith,
  Bool-cases, Option-cases, length,
}
use cats.Result.{ok, >>=-eq-ok}
use cats.Text.{
  is_space, strip, lower_char, lower, ◌<>◌, all_chars, is_empty, contains, drop_prefix, rstrip_by,
  is_char,
}
use cats.Text
use cats.Text.Laws.{
  Excludes, all_chars-append, strip_self, lower_self, contains-eq-false, drop_prefix-append,
  all_chars-map,
}
use cats.Digest.Codec.{Bytes, is_hex, is_b64, hex, urlsafe_b64encode, urlsafe_b64decode}
use cats.Digest.Codec.RoundTrip.{
  AreBytes, is_empty-unpadded, all_chars-hex, length-hex, unpadded, all_chars-unpadded,
  urlsafe_b64decode-unpadded,
}
use cats.Digest.Codec.Digits.{Decoded, bytes_from_hex-Decoded, urlsafe_b64decode-AreBytes}
use cats.Digest.{
  is_hex_sha256, match_ni, is_unsafe, validate_digest_segment, to_ni, payload_hex, from_ni,
  is_ni_or_digest,
}

hex-not_space : Excludes is_hex is_space
unfolding is_hex is_space
hex-not_space c h = ground arith

pub b64-not_space : Excludes is_b64 is_space
unfolding is_b64 is_space
b64-not_space c h = ground arith

hex-lower : (c : Char) → is_hex c ≡ true → lower_char c ≡ c
unfolding is_hex lower_char
hex-lower c h = ground arith

pub is_hex_sha256-hex : (s : String) → is_hex_sha256 s ≡ true → all_chars is_hex s ≡ true
unfolding is_hex_sha256
is_hex_sha256-hex s h = ground arith

pub is_hex_sha256-length : (s : String) → is_hex_sha256 s ≡ true → Text.length s ≡ 64
unfolding is_hex_sha256
is_hex_sha256-length s h = ground arith

pub is_empty-digest : (s : String) → Text.length s ≡ 64 → is_empty s ≡ false
unfolding is_empty Text.length
is_empty-digest String.[] h = absurd (omega arith)
is_empty-digest (String.◌∷◌ c s) h = refl

-- the `ni:` name of the digest with these bytes
abbrev pub ni_name : Bytes → String
ni_name bs = "ni:///sha-256;" <> unpadded bs

module _ (d : String) (valid : is_hex_sha256 d ≡ true) where
  pub strip-digest : strip d ≡ d
  strip-digest = strip_self is_hex hex-not_space d (is_hex_sha256-hex d valid)

  pub lower-digest : lower d ≡ d
  lower-digest = lower_self is_hex hex-lower d (is_hex_sha256-hex d valid)

  is_unsafe-digest : is_unsafe d ≡ false
  unfolding is_unsafe is_hex
  is_unsafe-digest =
      let hex_only = is_hex_sha256-hex d valid in
      rw
        (
          contains-eq-false is_hex "/" "" (λ c h. ground arith) d hex_only,
          contains-eq-false is_hex "\\" "" (λ c h. ground arith) d hex_only,
          contains-eq-false is_hex "." "." (λ c h. ground arith) d hex_only,
        )
        refl

  -- A digest is a valid path segment, and is left as it is.
  pub validate_digest_segment_self : validate_digest_segment d ≡ ok d
  unfolding validate_digest_segment
  validate_digest_segment_self =
      rw
        (
          strip-digest,
          lower-digest,
          is_unsafe-digest,
          valid,
          is_empty-digest d (is_hex_sha256-length d valid),
        )
        refl

abbrev not_space : Char → Bool
not_space c = not (is_space c)

pub strip-ni_name : (bs : Bytes) → AreBytes bs → strip (ni_name bs) ≡ ni_name bs
unfolding all_chars is_space
strip-ni_name bs h =
    strip_self not_space (λ c h. ground arith) (ni_name bs)
      (all_chars-append not_space "ni:///sha-256;" (unpadded bs) refl (
        all_chars-map is_b64 not_space (λ c k. ground (arith, b64-not_space c k)) (unpadded bs)
          (all_chars-unpadded bs h)))

lower-ni_name : (bs : Bytes) → is_hex_sha256 (lower (ni_name bs)) ≡ false
unfolding is_hex_sha256 lower ◌<>◌ all_chars is_hex lower_char
lower-ni_name bs = refl

match_ni-ni_name :
    (bs : Bytes) → AreBytes bs → length bs ≡ 32 → match_ni (ni_name bs) ≡ some (unpadded bs)
unfolding match_ni drop_prefix rstrip_by ◌<>◌ urlsafe_b64encode
match_ni-ni_name [] h long = absurd (omega arith)
match_ni-ni_name (b ∷ bs) h long =
    rw
      (
        drop_prefix-append "ni:///sha-256;" (unpadded (b ∷ bs)),
        is_empty-unpadded b bs h,
        all_chars-unpadded (b ∷ bs) h,
      )
      refl

pub payload_hex-unpadded :
    (bs : Bytes) → AreBytes bs → length bs ≡ 32 → payload_hex (unpadded bs) ≡ ok (hex bs)
unfolding payload_hex
payload_hex-unpadded bs h long = rw (urlsafe_b64decode-unpadded bs h, long) refl

pub from_ni-ni_name :
    (bs : Bytes) → AreBytes bs → length bs ≡ 32 → from_ni (ni_name bs) ≡ ok (hex bs)
unfolding from_ni
from_ni-ni_name bs h long =
    rw (strip-ni_name bs h, lower-ni_name bs, match_ni-ni_name bs h long)
      (payload_hex-unpadded bs h long)

pub is_ni_or_digest-ni_name :
    (bs : Bytes) → AreBytes bs → length bs ≡ 32 → is_ni_or_digest (ni_name bs) ≡ true
unfolding is_ni_or_digest
is_ni_or_digest-ni_name bs h long =
    rw (strip-ni_name bs h, lower-ni_name bs, match_ni-ni_name bs h long) refl

-- The bytes of a digest, and its name.
pub record Named (d : String) : Type 0 where
  pub bytes : Bytes
  pub in_range : AreBytes bytes
  pub long : length bytes ≡ 32
  pub prints : hex bytes ≡ d
  pub named : to_ni d ≡ ok (ni_name bytes)

pub to_ni-Named : (d : String) → is_hex_sha256 d ≡ true → Named d
unfolding to_ni
to_ni-Named d valid =
    let r : Decoded d =
      bytes_from_hex-Decoded 32 d (is_hex_sha256-hex d valid) (is_hex_sha256-length d valid) in
    record {
      bytes = r.bytes;
      in_range = r.in_range;
      long =
          omega (arith, length-hex r.bytes, ap Text.length r.prints, is_hex_sha256-length d valid);
      prints = r.prints;
      named = rw (validate_digest_segment_self d valid, r.decoded) refl;
    }

-- A digest's `ni:` name is recognised, and is read back as the digest.
pub from_ni-to_ni :
    (d ni : String)
    → is_hex_sha256 d ≡ true
    → to_ni d ≡ ok ni
    → (is_ni_or_digest ni ≡ true) × (from_ni ni ≡ ok d)
from_ni-to_ni d ni valid e =
    let r = to_ni-Named d valid in
    let same : ni ≡ ni_name r.bytes = cc (r.named) in
    rw same (
      is_ni_or_digest-ni_name r.bytes r.in_range r.long,
      from_ni-ni_name r.bytes r.in_range r.long ∙ ap ok r.prints,
    )

is_hex_sha256-hex_of : (bs : Bytes) → AreBytes bs → length bs ≡ 32 → is_hex_sha256 (hex bs) ≡ true
unfolding is_hex_sha256
is_hex_sha256-hex_of bs h long = rw (all_chars-hex bs h) (ground (arith, length-hex bs))

match_ni-b64 : (s b : String) → match_ni s ≡ some b → all_chars is_b64 b ≡ true
unfolding match_ni
match_ni-b64 s b h = ground arith

payload_hex-valid :
    (b d : String) → all_chars is_b64 b ≡ true → payload_hex b ≡ ok d → is_hex_sha256 d ≡ true
unfolding payload_hex
payload_hex-valid b d h e =
    let (raw, decoded, rest) = >>=-eq-ok (urlsafe_b64decode b) _ e in
    let bytes = urlsafe_b64decode-AreBytes b raw h decoded in
    let long : length raw ≡ 32 = ground arith in
    let same : d ≡ hex raw = ground arith in rw same (is_hex_sha256-hex_of raw bytes long)

-- Whatever is read as a name or a digest gives a digest: 64 lowercase hex digits.
pub from_ni-valid : (x d : String) → from_ni x ≡ ok d → is_hex_sha256 d ≡ true
unfolding from_ni
from_ni-valid x d h = elim (Bool-cases (is_hex_sha256 (lower (strip x)))) [
  | inl bare ↦ let same : d ≡ lower (strip x) = ground arith in rw same bare
  | inr named ↦ elim (Option-cases (match_ni (strip x))) [
    | inl unmatched ↦ ground arith
    | inr (b, matched) ↦ payload_hex-valid b d (match_ni-b64 (strip x) b matched) (ground arith)
  ]
]

pub from_ni-is_ni_or_digest : (x d : String) → from_ni x ≡ ok d → is_ni_or_digest x ≡ true
unfolding from_ni is_ni_or_digest
from_ni-is_ni_or_digest x d h = ground arith

pub is_ni_or_digest-digest : (d : String) → is_hex_sha256 d ≡ true → is_ni_or_digest d ≡ true
unfolding is_ni_or_digest
is_ni_or_digest-digest d valid = rw (strip-digest d valid, lower-digest d valid, valid) refl

pub from_ni-digest : (d : String) → is_hex_sha256 d ≡ true → from_ni d ≡ ok d
unfolding from_ni
from_ni-digest d valid = rw (strip-digest d valid, lower-digest d valid, valid) refl
