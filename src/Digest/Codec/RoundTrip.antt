-- ===== src/Digest/Codec/RoundTrip.antt =====
-- Decoding what was encoded, in hex and in base64.
use cats.Prelude.{
  ℕ, ◌+◌, ◌*◌, ◌/◌, ◌%◌, ◌<◌, Char, String, ◌≡◌, refl, true, false, ◌&&◌, [], ◌∷◌, All, eqb,
  all_below, all_below_sound, arith, length,
}
use cats.Result.{ok}
use cats.Text.{nth_char, all_chars, rstrip_by, is_char, is_empty}
use cats.Text
use cats.Text.Laws.{rstrip_by-cons}
use cats.Digest.Codec.{
  Bytes, is_hex, hex_value, hex_char, hex, bytes_from_hex, is_b64, b64_char, b64_value,
  urlsafe_b64encode, urlsafe_b64decode,
}

abbrev pub AreBytes : Bytes → Type 0
AreBytes = All (λ b. b < 256)

hex_table : all_below 16 (λ d. is_hex (hex_char d) && eqb (hex_value (hex_char d)) d) ≡ true
unfolding all_below is_hex hex_char nth_char hex_value
hex_table = refl

b64_table : all_below 64 (λ d. is_b64 (b64_char d) && eqb (b64_value (b64_char d)) d) ≡ true
unfolding all_below is_b64 b64_char nth_char b64_value
b64_table = refl

pub hex_char_lem : (d : ℕ) → d < 16 → (is_hex (hex_char d) ≡ true) × (hex_value (hex_char d) ≡ d)
hex_char_lem d h = ground (arith, all_below_sound 16 _ d hex_table h)

pub b64_char_lem : (d : ℕ) → d < 64 → (is_b64 (b64_char d) ≡ true) × (b64_value (b64_char d) ≡ d)
b64_char_lem d h = ground (arith, all_below_sound 64 _ d b64_table h)

pub bytes_from_hex-hex : (bs : Bytes) → AreBytes bs → bytes_from_hex (hex bs) ≡ ok bs
unfolding bytes_from_hex hex
bytes_from_hex-hex [] h = refl
bytes_from_hex-hex (b ∷ bs) h =
    ground (arith, bytes_from_hex-hex bs h.1, hex_char_lem (b / 16), hex_char_lem (b % 16))

pub all_chars-hex : (bs : Bytes) → AreBytes bs → all_chars is_hex (hex bs) ≡ true
unfolding all_chars hex
all_chars-hex [] h = refl
all_chars-hex (b ∷ bs) h =
    ground (arith, all_chars-hex bs h.1, hex_char_lem (b / 16), hex_char_lem (b % 16))

pub length-hex : (bs : Bytes) → Text.length (hex bs) ≡ 2 * length bs
unfolding Text.length hex
length-hex [] = refl
length-hex (b ∷ bs) = omega (arith, length-hex bs)

pub b64-not_pad : (c : Char) → is_b64 c ≡ true → is_char b'=' c ≡ false
unfolding is_b64 is_char
b64-not_pad c h = ground arith

-- the encoding without its padding
abbrev pub unpadded : Bytes → String
unpadded bs = rstrip_by (is_char b'=') (urlsafe_b64encode bs)

unpadded_step :
    (d : ℕ) (s : String)
    → d < 64
    → rstrip_by (is_char b'=') (String.◌∷◌ (b64_char d) s)
      ≡ String.◌∷◌ (b64_char d) (rstrip_by (is_char b'=') s)
unpadded_step d s h =
    rstrip_by-cons (is_char b'=') (b64_char d) s (b64-not_pad _ (b64_char_lem d h).0)

unpadded_one :
    (a : ℕ)
    → a < 256
    → unpadded (a ∷ []) ≡ String.◌∷◌ (b64_char (a / 4)) (String.◌∷◌ (b64_char (a % 4 * 16)) "")
unfolding urlsafe_b64encode rstrip_by is_char
unpadded_one a h =
    rw (unpadded_step (a / 4) _ (omega arith), unpadded_step (a % 4 * 16) _ (omega arith)) refl

unpadded_two :
    (a b : ℕ)
    → a < 256
    → b < 256
    → unpadded (a ∷ b ∷ [])
      ≡ String.◌∷◌
          (b64_char (a / 4))
          (String.◌∷◌ (b64_char (a % 4 * 16 + b / 16)) (String.◌∷◌ (b64_char (b % 16 * 4)) ""))
unfolding urlsafe_b64encode rstrip_by is_char
unpadded_two a b h k =
    rw
      (
        unpadded_step (a / 4) _ (omega arith),
        unpadded_step (a % 4 * 16 + b / 16) _ (omega arith),
        unpadded_step (b % 16 * 4) _ (omega arith),
      )
      refl

unpadded_more :
    (a b c : ℕ) (r : Bytes)
    → a < 256
    → b < 256
    → c < 256
    → unpadded (a ∷ b ∷ c ∷ r)
      ≡ String.◌∷◌ (b64_char (a / 4)) (
          String.◌∷◌ (b64_char (a % 4 * 16 + b / 16)) (
            String.◌∷◌
              (b64_char (b % 16 * 4 + c / 64))
              (String.◌∷◌ (b64_char (c % 64)) (unpadded r))))
unfolding urlsafe_b64encode
unpadded_more a b c r h k l =
    rw
      (
        unpadded_step (a / 4) _ (omega arith),
        unpadded_step (a % 4 * 16 + b / 16) _ (omega arith),
        unpadded_step (b % 16 * 4 + c / 64) _ (omega arith),
        unpadded_step (c % 64) _ (omega arith),
      )
      refl

pub all_chars-unpadded : (bs : Bytes) → AreBytes bs → all_chars is_b64 (unpadded bs) ≡ true
unfolding all_chars rstrip_by urlsafe_b64encode
all_chars-unpadded [] h = refl
all_chars-unpadded (a ∷ []) h =
    rw (unpadded_one a h.0) (ground (arith, b64_char_lem (a / 4), b64_char_lem (a % 4 * 16)))
all_chars-unpadded (a ∷ b ∷ []) h = rw (unpadded_two a b h.0 h.1.0) (
    ground
      (arith, b64_char_lem (a / 4), b64_char_lem (a % 4 * 16 + b / 16), b64_char_lem (b % 16 * 4)))
all_chars-unpadded (a ∷ b ∷ c ∷ r) h = rw (unpadded_more a b c r h.0 h.1.0 h.1.1.0) (
    ground (
      arith,
      b64_char_lem (a / 4),
      b64_char_lem (a % 4 * 16 + b / 16),
      b64_char_lem (b % 16 * 4 + c / 64),
      b64_char_lem (c % 64),
      all_chars-unpadded r h.1.1.1,
    ))

-- Decoding the encoding of any bytes, its padding removed, gives the bytes.
pub urlsafe_b64decode-unpadded :
    (bs : Bytes) → AreBytes bs → urlsafe_b64decode (unpadded bs) ≡ ok bs
unfolding urlsafe_b64decode rstrip_by urlsafe_b64encode
urlsafe_b64decode-unpadded [] h = refl
urlsafe_b64decode-unpadded (a ∷ []) h =
    rw (unpadded_one a h.0) (ground (arith, b64_char_lem (a / 4), b64_char_lem (a % 4 * 16)))
urlsafe_b64decode-unpadded (a ∷ b ∷ []) h = rw (unpadded_two a b h.0 h.1.0) (
    ground
      (arith, b64_char_lem (a / 4), b64_char_lem (a % 4 * 16 + b / 16), b64_char_lem (b % 16 * 4)))
urlsafe_b64decode-unpadded (a ∷ b ∷ c ∷ r) h = rw (unpadded_more a b c r h.0 h.1.0 h.1.1.0) (
    ground (
      arith,
      b64_char_lem (a / 4),
      b64_char_lem (a % 4 * 16 + b / 16),
      b64_char_lem (b % 16 * 4 + c / 64),
      b64_char_lem (c % 64),
      urlsafe_b64decode-unpadded r h.1.1.1,
    ))

pub is_empty-unpadded :
    (b : ℕ) (bs : Bytes) → AreBytes (b ∷ bs) → is_empty (unpadded (b ∷ bs)) ≡ false
unfolding is_empty
is_empty-unpadded a [] h = rw (unpadded_one a h.0) refl
is_empty-unpadded a (b ∷ []) h = rw (unpadded_two a b h.0 h.1.0) refl
is_empty-unpadded a (b ∷ c ∷ r) h = rw (unpadded_more a b c r h.0 h.1.0 h.1.1.0) refl
