-- ===== src/Examples/Data.antt =====
-- Two digests with their names, and a hash function that gives them.
use cats.Prelude.{String, ◌≡◌, refl, true, [], ◌∷◌}
use cats.Result.{ok}
use cats.Text
use cats.Text.{
  all_chars, is_empty, lower, lower_char, strip, lstrip_by, rstrip_by, cons_unless, is_space,
  contains, starts_with, ◌<>◌, nth_char, is_char,
}
use cats.Digest.Names.{from_ni-to_ni, from_ni-digest, is_ni_or_digest-digest}
use cats.Digest.Keys.{content_id_fs_key-to_ni}
use cats.Digest.{
  is_hex_sha256, from_ni, is_ni_or_digest, content_id_fs_key, to_ni, validate_digest_segment,
  is_unsafe,
}
use cats.Digest.Codec.{Bytes, is_hex, bytes_from_hex, hex_value, urlsafe_b64encode, b64_char}

-- the digest of the empty file
abbrev pub digest_a : String
digest_a = "e3b0c44298fc1c149afbf4c8996fb92427ae41e4649b934ca495991b7852b855"

abbrev pub name_a : String
name_a = "ni:///sha-256;47DEQpj8HBSa-_TImW-5JCeuQeRkm5NMpJWZG3hSuFU"

-- the digest of a file that says `cat`
abbrev pub digest_b : String
digest_b = "77af778b51abd4a3c51c5ddd97204a9c3ae614ebccb75a606c3b6865aed6744e"

abbrev pub name_b : String
name_b = "ni:///sha-256;d693i1Gr1KPFHF3dlyBKnDrmFOvMt1pgbDtoZa7WdE4"

abbrev pub cat : Bytes
cat = 99 ∷ 97 ∷ 116 ∷ []

-- tells the empty file from the others
unfoldable pub digest_of_size : Bytes → String
digest_of_size [] = digest_a
digest_of_size (_ ∷ _) = digest_b

pub valid_a : is_hex_sha256 digest_a ≡ true
unfolding is_hex_sha256 all_chars is_hex Text.length
valid_a = refl

pub valid_b : is_hex_sha256 digest_b ≡ true
unfolding is_hex_sha256 all_chars is_hex Text.length
valid_b = refl

pub digest_of_size-valid : (b : Bytes) → is_hex_sha256 (digest_of_size b) ≡ true
unfolding digest_of_size
digest_of_size-valid [] = valid_a
digest_of_size-valid (_ ∷ _) = valid_b

pub named_a : to_ni digest_a ≡ ok name_a
unfolding to_ni validate_digest_segment is_hex_sha256 is_unsafe all_chars is_hex Text.length
    is_empty lower lower_char strip lstrip_by rstrip_by cons_unless is_space contains starts_with
    ◌<>◌ nth_char bytes_from_hex hex_value urlsafe_b64encode b64_char is_char
named_a = refl

pub named_b : to_ni digest_b ≡ ok name_b
unfolding to_ni validate_digest_segment is_hex_sha256 is_unsafe all_chars is_hex Text.length
    is_empty lower lower_char strip lstrip_by rstrip_by cons_unless is_space contains starts_with
    ◌<>◌ nth_char bytes_from_hex hex_value urlsafe_b64encode b64_char is_char
named_b = refl

pub recognised_a : (is_ni_or_digest digest_a ≡ true) × (is_ni_or_digest name_a ≡ true)
recognised_a =
    (is_ni_or_digest-digest digest_a valid_a, (from_ni-to_ni digest_a name_a valid_a named_a).0)

pub read_a : (from_ni digest_a ≡ ok digest_a) × (from_ni name_a ≡ ok digest_a)
read_a = (from_ni-digest digest_a valid_a, (from_ni-to_ni digest_a name_a valid_a named_a).1)

pub key_a : (content_id_fs_key name_a ≡ ok digest_a) × (content_id_fs_key digest_a ≡ ok digest_a)
key_a = content_id_fs_key-to_ni digest_a digest_a name_a read_a.0 named_a

pub recognised_b : (is_ni_or_digest digest_b ≡ true) × (is_ni_or_digest name_b ≡ true)
recognised_b =
    (is_ni_or_digest-digest digest_b valid_b, (from_ni-to_ni digest_b name_b valid_b named_b).0)

pub read_b : (from_ni digest_b ≡ ok digest_b) × (from_ni name_b ≡ ok digest_b)
read_b = (from_ni-digest digest_b valid_b, (from_ni-to_ni digest_b name_b valid_b named_b).1)

pub key_b : (content_id_fs_key name_b ≡ ok digest_b) × (content_id_fs_key digest_b ≡ ok digest_b)
key_b = content_id_fs_key-to_ni digest_b digest_b name_b read_b.0 named_b
