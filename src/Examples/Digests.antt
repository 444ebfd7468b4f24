-- ===== src/Examples/Digests.antt =====
-- Names, keys and equality ids of two digests.
use cats.Prelude.{String, ◌≡◌, ◌↔◌, refl, true, ◌∙◌, List, [], ◌∷◌}
use cats.Result.{ok}
use cats.Digest.{is_hex_sha256, to_ni, from_ni, is_ni_or_digest, is_cid_segment}
use cats.Digest.Names.{from_ni-to_ni, from_ni-valid}
use cats.Digest.Keys.{content_id_fs_key-IsSafe, is_ni_or_digest-strip, from_ni-strip}
use cats.ContentRef.{equality_id}
use cats.ContentRef.Equality.{equality_id-eq_iff}
use cats.Hashlink.{to_hl, from_hl, hints, with_hint}
use cats.Hashlink.RoundTrip.{from_hl-to_hl, take_one, OneLine}
use cats.Text.{
  strip, lstrip_by, rstrip_by, cons_unless, is_space, is_empty, nth_char, ◌<>◌, is_char, has_char,
}
use cats.Digest.Codec.{bytes_from_hex, is_hex, hex_value, urlsafe_b64encode, b64_char}
use cats.Examples.Data.{
  digest_a, name_a, digest_b, name_b, valid_a, named_a, named_b, recognised_a, recognised_b, read_a,
  read_b, key_b,
}

equality_id-digest :
    (d n : String)
    → is_ni_or_digest (strip d) ≡ true
    → from_ni (strip d) ≡ ok d
    → to_ni d ≡ ok n
    → equality_id d ≡ ok n
unfolding equality_id
equality_id-digest d n known spelled named = rw (known, spelled, named) refl

equal_a : equality_id digest_a ≡ ok name_a
equal_a =
    equality_id-digest digest_a name_a (is_ni_or_digest-strip digest_a ∙ recognised_a.0)
      (from_ni-strip digest_a ∙ read_a.0) named_a

equal_b : equality_id digest_b ≡ ok name_b
equal_b =
    equality_id-digest digest_b name_b (is_ni_or_digest-strip digest_b ∙ recognised_b.0)
      (from_ni-strip digest_b ∙ read_b.0) named_b

from_ni-to_ni_example : (is_ni_or_digest name_a ≡ true) × (from_ni name_a ≡ ok digest_a)
from_ni-to_ni_example = from_ni-to_ni digest_a name_a valid_a named_a

from_ni-valid_example : is_hex_sha256 digest_a ≡ true
from_ni-valid_example = from_ni-valid name_a digest_a read_a.1

content_id_fs_key-IsSafe_example : is_cid_segment digest_b ≡ true
content_id_fs_key-IsSafe_example = content_id_fs_key-IsSafe name_b digest_b key_b.0

equality_id-eq_iff_example : (name_a ≡ name_b) ↔ (digest_a ≡ digest_b)
equality_id-eq_iff_example =
    equality_id-eq_iff digest_a digest_b digest_a digest_b name_a name_b read_a.0 read_b.0 equal_a
      equal_b

abbrev link : String
link = "hl:d693i1Gr1KPFHF3dlyBKnDrmFOvMt1pgbDtoZa7WdE4:http://node/cas"

abbrev addresses : List String
addresses = " " ∷ " http://node/cas" ∷ []

hinted : hints addresses ≡ "http://node/cas" ∷ []
unfolding hints strip lstrip_by rstrip_by cons_unless is_space is_empty
hinted = refl

linked : to_hl digest_b addresses ≡ ok link
unfolding to_hl hints with_hint strip lstrip_by rstrip_by cons_unless is_space is_empty
    bytes_from_hex is_hex hex_value urlsafe_b64encode b64_char nth_char ◌<>◌ is_char
linked = rw (recognised_b.0, read_b.0) refl

one_line : OneLine ("http://node/cas" ∷ [])
unfolding has_char
one_line = refl

from_hl-to_hl_example : from_hl link ≡ ok (name_b, take_one (hints addresses))
from_hl-to_hl_example =
    from_hl-to_hl digest_b digest_b name_b link addresses read_b.0 named_b (rw hinted one_line)
      linked
