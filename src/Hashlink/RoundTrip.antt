-- ===== src/Hashlink/RoundTrip.antt =====
-- Reading a hashlink that was written.
use cats.Prelude.{
  Char, String, ◌≡◌, refl, ap, sym, ◌∙◌, true, false, not, List, [], ◌∷◌, arith, Bool-cases, inl,
  inr, some, length,
}
use cats.Result.{ok}
use cats.Text.{
  is_space, strip, ◌<>◌, all_chars, is_empty, take_until, drop_until, is_char, has_char,
  drop_prefix,
}
use cats.Text.Laws.{
  all_chars-map, strip_self, drop_prefix-append, strip_idem, take_until_all, take_until-append,
  strip-append, <>_assoc,
}
use cats.Digest.{to_ni, from_ni, payload_hex}
use cats.Digest.Codec.{Bytes, is_b64, hex, bytes_from_hex}
use cats.Digest.Codec.RoundTrip.{
  AreBytes, bytes_from_hex-hex, unpadded, all_chars-unpadded, is_empty-unpadded,
}
use cats.Digest.Names.{
  payload_hex-unpadded, b64-not_space, to_ni-Named, from_ni-valid, from_ni-is_ni_or_digest,
}
use cats.Hashlink.{hints, with_hint, to_hl, match_hint, match_body, match_hl, from_hl}

b64-not_colon : (c : Char) → is_b64 c ≡ true → not (is_char b':' c) ≡ true
unfolding is_b64 is_char
b64-not_colon c h = ground arith

-- A hint is not blank, and is stripped.
hints-head :
    (us : List String) (h : String) (r : List String)
    → hints us ≡ h ∷ r
    → (strip h ≡ h) × (is_empty h ≡ false)
unfolding hints
hints-head [] h r e = cc
hints-head (u ∷ us) h r e = elim (Bool-cases (is_empty (strip u))) [
  | inl blank ↦ hints-head us h r (ground arith)
  | inr full ↦ let same : h ≡ strip u = ground arith in rw same (strip_idem u, full)
]

match_hl-parts :
    (value body b t : String) (us : List String)
    → drop_prefix value "hl:" ≡ some body
    → take_until (is_char b':') body ≡ b
    → drop_until (is_char b':') body ≡ t
    → match_hint t ≡ some us
    → is_empty b ≡ false
    → all_chars is_b64 b ≡ true
    → match_hl value ≡ some (b, us)
unfolding match_hl match_body
match_hl-parts value body b t us h taken left hint full alphabet = ground arith

match_hint-nil : match_hint "" ≡ some []
unfolding match_hint
match_hint-nil = refl

match_hint-colon :
    (u : String)
    → is_empty u ≡ false
    → has_char 10 u ≡ false
    → match_hint (":" <> u) ≡ some (u ∷ [])
unfolding match_hint ◌<>◌
match_hint-colon u full line = rw (full, line) refl

take_until-colon :
    (b u : String)
    → all_chars (λ c. not (is_char b':' c)) b ≡ true
    → (take_until (is_char b':') (b <> (":" <> u)) ≡ b)
      × (drop_until (is_char b':') (b <> (":" <> u)) ≡ ":" <> u)
unfolding ◌<>◌ is_char
take_until-colon b u h = take_until-append (is_char b':') b ":" u h refl

strip-link :
    (t u : String)
    → strip u ≡ u
    → is_empty u ≡ false
    → strip (("hl:" <> t) <> u) ≡ ("hl:" <> t) <> u
unfolding ◌<>◌ is_space
strip-link t u s full = strip-append "h" ("l:" <> t) u refl s full

abbrev pub take_one : List String → List String
take_one [] = []
take_one (x ∷ xs) = x ∷ []

-- no hint that is written has a line end in it
abbrev pub OneLine : List String → Type 0
OneLine [] = Unit
OneLine (x ∷ xs) = has_char 10 x ≡ false

from_hl-parts :
    (hl value b d ni : String) (us : List String)
    → strip hl ≡ value
    → match_hl value ≡ some (b, us)
    → payload_hex b ≡ ok d
    → to_ni d ≡ ok ni
    → from_hl hl ≡ ok (ni, us)
unfolding from_hl
from_hl-parts hl value b d ni us stripped matched payload made = ground arith

module _ (bs : Bytes) (in_range : AreBytes bs) (long : length bs ≡ 32) where
  no_colon : all_chars (λ c. not (is_char b':' c)) (unpadded bs) ≡ true
  no_colon = all_chars-map is_b64 _ b64-not_colon (unpadded bs) (all_chars-unpadded bs in_range)

  nonempty : is_empty (unpadded bs) ≡ false
  nonempty = go bs in_range long
    where
      go : (l : Bytes) → AreBytes l → length l ≡ 32 → is_empty (unpadded l) ≡ false
      go [] h e = absurd (omega arith)
      go (b ∷ l) h e = is_empty-unpadded b l h

  match_hl-bare : match_hl ("hl:" <> unpadded bs) ≡ some (unpadded bs, [])
  match_hl-bare =
      let (taken, left) = take_until_all (is_char b':') (unpadded bs) no_colon in
      match_hl-parts ("hl:" <> unpadded bs) (unpadded bs) (unpadded bs) "" []
        (drop_prefix-append "hl:" (unpadded bs)) taken left match_hint-nil nonempty
        (all_chars-unpadded bs in_range)

  match_hl-hint :
      (u : String)
      → is_empty u ≡ false
      → has_char 10 u ≡ false
      → match_hl ("hl:" <> (unpadded bs <> (":" <> u))) ≡ some (unpadded bs, u ∷ [])
  match_hl-hint u full line =
      let (taken, left) = take_until-colon (unpadded bs) u no_colon in
      match_hl-parts ("hl:" <> (unpadded bs <> (":" <> u))) (unpadded bs <> (":" <> u))
        (unpadded bs) (":" <> u) (u ∷ []) (drop_prefix-append "hl:" (unpadded bs <> (":" <> u)))
        taken left (match_hint-colon u full line) nonempty (all_chars-unpadded bs in_range)

  strip-bare : strip ("hl:" <> unpadded bs) ≡ "hl:" <> unpadded bs
  unfolding is_space
  strip-bare =
      strip-append "h" "l:" (unpadded bs) refl
        (strip_self is_b64 b64-not_space (unpadded bs) (all_chars-unpadded bs in_range)) nonempty

  strip-hint :
      (u : String)
      → strip u ≡ u
      → is_empty u ≡ false
      → strip ("hl:" <> (unpadded bs <> (":" <> u))) ≡ "hl:" <> (unpadded bs <> (":" <> u))
  unfolding is_space
  strip-hint u s full =
      let grouped : ("hl:" <> (unpadded bs <> ":")) <> u ≡ "hl:" <> (unpadded bs <> (":" <> u)) =
        <>_assoc "hl:" (unpadded bs <> ":") u
        ∙ ap (λ r. "hl:" <> r) (<>_assoc (unpadded bs) ":" u) in
      rw (← grouped) (strip-link (unpadded bs <> ":") u s full)

  from_hl-hints :
      (hs : List String) (ni : String)
      → ((h : String) (r : List String) → hs ≡ h ∷ r → (strip h ≡ h) × (is_empty h ≡ false))
      → to_ni (hex bs) ≡ ok ni
      → OneLine hs
      → from_hl (with_hint (unpadded bs) hs) ≡ ok (ni, take_one hs)
  unfolding with_hint
  from_hl-hints [] ni clean made line =
      from_hl-parts _ _ (unpadded bs) (hex bs) ni [] strip-bare match_hl-bare
        (payload_hex-unpadded bs in_range long) made
  from_hl-hints (h ∷ r) ni clean made line =
      let (stripped, full) = clean h r refl in
      from_hl-parts _ _ (unpadded bs) (hex bs) ni (h ∷ []) (strip-hint h stripped full)
        (match_hl-hint h full line) (payload_hex-unpadded bs in_range long) made

-- A hashlink made of a name or a digest is read back as the digest's canonical name with the first
-- of the hints that are not blank, if that hint has no line end.
pub from_hl-to_hl :
    (x d ni hl : String) (us : List String)
    → from_ni x ≡ ok d
    → to_ni d ≡ ok ni
    → OneLine (hints us)
    → to_hl x us ≡ ok hl
    → from_hl hl ≡ ok (ni, take_one (hints us))
unfolding to_hl
from_hl-to_hl x d ni hl us read made line h =
    let valid = from_ni-valid x d read in
    let r = to_ni-Named d valid in
    let raw : bytes_from_hex d ≡ ok r.bytes =
      ap bytes_from_hex (sym r.prints) ∙ bytes_from_hex-hex r.bytes r.in_range in
    let same : hl ≡ with_hint (unpadded r.bytes) (hints us) =
      ground (arith, from_ni-is_ni_or_digest x d read) in
    rw same (
      from_hl-hints r.bytes r.in_range r.long (hints us) ni (hints-head us)
        (ap to_ni r.prints ∙ made) line)
