-- ===== src/Digest/Keys.antt =====
-- File keys: every name of one content has one key.
use cats.Prelude.{Char, String, ◌≡◌, refl, ◌∙◌, true, false, arith, Bool-cases, inl, inr}
use cats.Result.{ok}
use cats.Text.{strip, is_empty, lower, length, all_chars, drop_prefix}
use cats.Text.Laws.{strip_idem, all_chars-map}
use cats.Digest.{
  is_hex_sha256, match_ni, to_ni, from_ni, is_ni_or_digest, content_id_fs_key, is_cid_segment,
  is_alnum,
}
use cats.Digest.Codec.{is_hex}
use cats.Digest.Names.{
  is_empty-digest, is_hex_sha256-length, is_hex_sha256-hex, from_ni-to_ni, from_ni-valid,
  from_ni-is_ni_or_digest,
}

pub is_ni_or_digest-strip : (x : String) → is_ni_or_digest (strip x) ≡ is_ni_or_digest x
unfolding is_ni_or_digest
is_ni_or_digest-strip x = rw (strip_idem x) refl

pub from_ni-strip : (x : String) → from_ni (strip x) ≡ from_ni x
unfolding from_ni
from_ni-strip x = rw (strip_idem x) refl

is_ni_or_digest-nil : (s : String) → is_empty s ≡ true → is_ni_or_digest s ≡ false
unfolding is_empty is_ni_or_digest is_hex_sha256 lower strip match_ni drop_prefix length all_chars
is_ni_or_digest-nil String.[] h = refl
is_ni_or_digest-nil (String.◌∷◌ c s) h = cc

-- The key of a name or a digest is the digest.
pub content_id_fs_key-from_ni :
    (x : String) → is_ni_or_digest x ≡ true → content_id_fs_key x ≡ from_ni x
unfolding content_id_fs_key
content_id_fs_key-from_ni x h =
    let full : is_empty (strip x) ≡ false =
      ground (arith, is_ni_or_digest-nil (strip x), is_ni_or_digest-strip x) in
    rw (full, is_ni_or_digest-strip x, h, from_ni-strip x) refl

-- The canonical name that is made of any name of a digest has the key of that name, the digest.
pub content_id_fs_key-to_ni :
    (x d n : String)
    → from_ni x ≡ ok d
    → to_ni d ≡ ok n
    → (content_id_fs_key n ≡ ok d) × (content_id_fs_key x ≡ ok d)
content_id_fs_key-to_ni x d n read made =
    let (named, back) = from_ni-to_ni d n (from_ni-valid x d read) made in
    (
      content_id_fs_key-from_ni n named ∙ back,
      content_id_fs_key-from_ni x (from_ni-is_ni_or_digest x d read) ∙ read,
    )

hex-alnum : (c : Char) → is_hex c ≡ true → is_alnum c ≡ true
unfolding is_hex
hex-alnum c h = ground arith

is_cid_segment-digest : (d : String) → is_hex_sha256 d ≡ true → is_cid_segment d ≡ true
unfolding is_cid_segment
is_cid_segment-digest d valid =
    rw
      (
        is_empty-digest d (is_hex_sha256-length d valid),
        all_chars-map is_hex is_alnum hex-alnum d (is_hex_sha256-hex d valid),
      )
      refl

-- A file key is never empty and has letters and digits only, so it names a file of its own
-- directory.
pub content_id_fs_key-IsSafe : (x k : String) → content_id_fs_key x ≡ ok k → is_cid_segment k ≡ true
unfolding content_id_fs_key
content_id_fs_key-IsSafe x k h = elim (Bool-cases (is_ni_or_digest (strip x))) [
  | inl named ↦
      let read : from_ni (strip x) ≡ ok k = ground arith in
      is_cid_segment-digest k (from_ni-valid (strip x) k read)
  | inr other ↦ ground arith
]

-- a name or a digest is not empty
pub from_ni-filled : (a d : String) → from_ni a ≡ ok d → is_empty a ≡ false
from_ni-filled a d read = elim (Bool-cases (is_empty a)) [
  | inl blank ↦ cc (is_ni_or_digest-nil a blank, from_ni-is_ni_or_digest a d read)
  | inr full ↦ full
]
