-- ===== src/Hashlink.antt =====
-- cas/hashlink.py: `hl:` links, a digest with an optional address to fetch it from.
pub mod RoundTrip
use cats.Prelude.{
  String, Bool, true, false, not, ◌&&◌, Option, none, some, List, [], ◌∷◌, if◌then◌else◌,
}
use cats.Result.{Result, ok, err, value_error, require, ◌>>=◌, ◌>>◌}
use cats.Text.{
  strip, lower, ◌<>◌, all_chars, is_empty, starts_with, drop_prefix, take_until, drop_until,
  has_char, rstrip_by, is_char,
}
use cats.Digest.{to_ni, from_ni, is_ni_or_digest, payload_hex}
use cats.Digest.Codec.{is_b64, bytes_from_hex, urlsafe_b64encode}

unfoldable pub is_hl : String → Bool
is_hl value = starts_with (lower (strip value)) "hl:"

-- `[u.strip() for u in uris if u and str(u).strip()]`
unfoldable pub hints : List String → List String
hints [] = []
hints (u ∷ us) = if is_empty (strip u) then hints us else strip u ∷ hints us

unfoldable pub with_hint : String → List String → String
with_hint b64 [] = "hl:" <> b64
with_hint b64 (u ∷ us) = "hl:" <> (b64 <> (":" <> u))

unfoldable pub to_hl : String → List String → Result String
unfolding hints with_hint
to_hl content_id uris = do
  require (is_ni_or_digest content_id) value_error
  digest ← from_ni content_id
  raw ← bytes_from_hex digest
  ok (with_hint (rstrip_by (is_char b'=') (urlsafe_b64encode raw)) (hints uris))

-- the optional second group of `_HL_SHA256`: a colon and at least one character, none a newline
unfoldable pub match_hint : String → Option (List String)
match_hint String.[] = some []
match_hint (String.◌∷◌ colon rest) =
    if not (is_empty rest) && not (has_char 10 rest) then some (rest ∷ []) else none

-- both groups of `_HL_SHA256`; the first has no colon
unfoldable pub match_body : String → Option (String × List String)
unfolding match_hint
match_body body =
    let b64 = take_until (is_char b':') body in
    elim (match_hint (drop_until (is_char b':') body)) [
      | none ↦ none
      | some uris ↦ if not (is_empty b64) && all_chars is_b64 b64 then some (b64, uris) else none
    ]

unfoldable pub match_hl : String → Option (String × List String)
unfolding match_body
match_hl value = elim (drop_prefix value "hl:") [ none ↦ none | some body ↦ match_body body ]

unfoldable pub from_hl : String → Result (String × List String)
from_hl hl = elim (match_hl (strip hl)) [
  | none ↦ err value_error
  | some (b64, uris) ↦ do digest ← payload_hex b64; ni ← to_ni digest; ok (ni, uris)
]
