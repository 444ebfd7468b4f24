-- ===== src/Digest.antt =====
-- cas/digest.py: sha-256 digests, their `ni:` names (RFC 6920) and the keys of files made of them.
pub mod Codec
pub mod Names
pub mod Keys
use Prim.Native.String.{[], ◌∷◌}
use cats.Prelude.{
  ℕ, ◌+◌, Char, code, String, Bool, true, false, not, ◌&&◌, ◌||◌, Option, none, some, leb, eqb,
  if◌then◌else◌,
}
use cats.Prelude
use cats.Result.{Result, ok, err, value_error, require, ◌>>=◌, ◌>>◌}
use cats.Text.{
  is_space, strip, lower, ◌<>◌, all_chars, length, is_empty, drop_prefix, contains, rstrip_by,
  is_char,
}
use Codec.{is_hex, is_b64, bytes_from_hex, hex, urlsafe_b64encode, urlsafe_b64decode}

-- `_HEX_SHA256`
unfoldable pub is_hex_sha256 : String → Bool
is_hex_sha256 s = all_chars is_hex s && eqb (length s) 64

abbrev pub is_alnum : Char → Bool
is_alnum c =
    let n = code c in (leb 48 n && leb n 57) || (leb 65 n && leb n 90) || (leb 97 n && leb n 122)

-- `_CID_SEGMENT`
unfoldable pub is_cid_segment : String → Bool
is_cid_segment s = not (is_empty s) && all_chars is_alnum s

-- the group of `_NI_SHA256`
unfoldable pub match_ni : String → Option String
match_ni s = elim (drop_prefix s "ni:///sha-256;") [
  | none ↦ none
  | some rest ↦ if not (is_empty rest) && all_chars is_b64 rest then some rest else none
]

-- a path segment with a separator in it, or with `..`
unfoldable pub is_unsafe : String → Bool
is_unsafe s = contains s "/" || contains s "\\" || contains s ".."

unfoldable pub validate_digest_segment : String → Result String
validate_digest_segment hex_digest =
    let value = lower (strip hex_digest) in
    if is_empty value || is_unsafe value
    then err value_error
    else if not (is_hex_sha256 value)
    then err value_error
    else ok value

unfoldable pub to_ni : String → Result String
to_ni hex_digest = do
  digest ← validate_digest_segment hex_digest
  raw ← bytes_from_hex digest
  ok ("ni:///sha-256;" <> rstrip_by (is_char b'=') (urlsafe_b64encode raw))

-- the 32 bytes that a name's payload must decode to, in hex
unfoldable pub payload_hex : String → Result String
payload_hex b64 = do
  raw ← urlsafe_b64decode b64
  require (eqb (Prelude.length raw) 32) value_error
  ok (hex raw)

unfoldable pub from_ni : String → Result String
from_ni ni =
    let value = strip ni in
    if is_hex_sha256 (lower value)
    then ok (lower value)
    else (elim (match_ni value) [ none ↦ err value_error | some b64 ↦ payload_hex b64 ])

unfoldable pub is_ni_or_digest : String → Bool
is_ni_or_digest content_id =
    let value = strip content_id in
    if is_hex_sha256 (lower value)
    then true
    else (elim (match_ni value) [ none ↦ false | some _ ↦ true ])

unfoldable pub is_legacy_cid : String → Bool
is_legacy_cid content_id =
    let value = strip content_id in
    if is_empty value || is_ni_or_digest value
    then false
    else is_cid_segment value && not (contains value "/")

unfoldable pub content_id_to_ni : String → Result String
content_id_to_ni content_id = do
  digest ← if is_ni_or_digest content_id then from_ni content_id else ok content_id
  to_ni digest

unfoldable pub content_id_fs_key : String → Result String
content_id_fs_key content_id =
    let value = strip content_id in
    if is_empty value
    then err value_error
    else if is_ni_or_digest value
    then from_ni value
    else if is_unsafe value
    then err value_error
    else if not (is_cid_segment value)
    then err value_error
    else ok value
