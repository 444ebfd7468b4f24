-- ===== src/AddressStore/Ids.antt =====
-- Names and digests are neither addresses nor hashlinks.
use cats.Prelude.{
  Char, code, String, ◌≡◌, refl, inl, inr, true, false, ◌||◌, some, eqb, arith, Bool-cases,
  Option-cases,
}
use cats.Result.{ok}
use cats.Text.{strip, lower, lower_char, starts_with, all_chars, drop_prefix}
use cats.Digest.{from_ni, is_hex_sha256, match_ni}
use cats.Digest.Codec.{is_hex}
use cats.Digest.Names.{is_hex_sha256-hex}
use cats.Hashlink.{is_hl}
use cats.ContentRef.{is_http_uri}

hex-not_http :
    (t : String)
    → all_chars is_hex t ≡ true
    → (starts_with t "http://" || starts_with t "https://") ≡ false
unfolding all_chars starts_with is_hex
hex-not_http String.[] h = refl
hex-not_http (String.◌∷◌ c t) h = ground arith

lower-h : (c : Char) → eqb (code c) 110 ≡ true → eqb (code (lower_char c)) 104 ≡ false
unfolding lower_char
lower-h c h = ground arith

ni-not_http :
    (s : String) (b64 : String)
    → match_ni s ≡ some b64
    → (starts_with (lower s) "http://" || starts_with (lower s) "https://") ≡ false
unfolding match_ni lower starts_with drop_prefix
ni-not_http String.[] b64 h = refl
ni-not_http (String.◌∷◌ c s) b64 h = elim (Bool-cases (eqb (code c) 110)) [
  | inl is_n ↦ rw (lower-h c is_n) refl
  | inr other ↦ let gone = rw (match_ni, drop_prefix, other) at h in ground arith
]

hex-not_hl : (t : String) → all_chars is_hex t ≡ true → starts_with t "hl:" ≡ false
unfolding all_chars starts_with is_hex
hex-not_hl String.[] h = refl
hex-not_hl (String.◌∷◌ c t) h = ground arith

ni-not_hl :
    (s : String) (b64 : String) → match_ni s ≡ some b64 → starts_with (lower s) "hl:" ≡ false
unfolding match_ni lower starts_with drop_prefix
ni-not_hl String.[] b64 h = refl
ni-not_hl (String.◌∷◌ c s) b64 h = elim (Bool-cases (eqb (code c) 110)) [
  | inl is_n ↦ rw (lower-h c is_n) refl
  | inr other ↦ let gone = rw (match_ni, drop_prefix, other) at h in ground arith
]

-- what is read as a name or a digest is no address
pub from_ni-not_http : (x d : String) → from_ni x ≡ ok d → is_http_uri x ≡ false
unfolding from_ni is_http_uri
from_ni-not_http x d read = elim (Bool-cases (is_hex_sha256 (lower (strip x)))) [
  | inl bare ↦ hex-not_http (lower (strip x)) (is_hex_sha256-hex (lower (strip x)) bare)
  | inr other ↦ elim (Option-cases (match_ni (strip x))) [
    | inl unmatched ↦ let gone = rw (other, unmatched) at read in ground arith
    | inr (b64, matched) ↦ ni-not_http (strip x) b64 matched
  ]
]

-- nor a hashlink
pub from_ni-not_hl : (x d : String) → from_ni x ≡ ok d → is_hl x ≡ false
unfolding from_ni is_hl
from_ni-not_hl x d read = elim (Bool-cases (is_hex_sha256 (lower (strip x)))) [
  | inl bare ↦ hex-not_hl (lower (strip x)) (is_hex_sha256-hex (lower (strip x)) bare)
  | inr other ↦ elim (Option-cases (match_ni (strip x))) [
    | inl unmatched ↦ let gone = rw (other, unmatched) at read in ground arith
    | inr (b64, matched) ↦ ni-not_hl (strip x) b64 matched
  ]
]
