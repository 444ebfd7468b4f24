-- ===== src/Digest/Codec/Digits.antt =====
-- What decoding gives: bytes, as many as the text is long, and for hex the text again.
use text.Mathlib.TextEquality.{Char-path}
use cats.Prelude.{
  ℕ, zero, suc, ◌+◌, ◌-◌, ◌*◌, ◌/◌, ◌%◌, ◌<◌, Char, code, String, ◌≡◌, refl, ap, ◌∙◌, true, not,
  ◌&&◌, ◌||◌, [], ◌∷◌, leb, eqb, all_below, all_below_sound, arith, if◌then◌else◌,
}
use cats.Result.{ok}
use cats.Text.{nth_char, all_chars}
use cats.Text
use cats.Digest.Codec.{
  Bytes, is_hex, hex_value, hex_char, hex, bytes_from_hex, is_b64, b64_value, urlsafe_b64decode,
}
use cats.Digest.Codec.RoundTrip.{AreBytes}

hex_code_table :
    all_below 128 (λ n.
      not ((leb 48 n && leb n 57) || (leb 97 n && leb n 102))
      || eqb (code (hex_char (if leb n 57 then n - 48 else n - 87))) n)
    ≡ true
unfolding all_below hex_char nth_char
hex_code_table = refl

hex_char-hex_value : (c : Char) → is_hex c ≡ true → hex_char (hex_value c) ≡ c
unfolding is_hex hex_value
hex_char-hex_value c h =
    Char-path _ c (ground (arith, all_below_sound 128 _ (code c) hex_code_table))

hex_value-lt : (c : Char) → is_hex c ≡ true → hex_value c < 16
unfolding is_hex hex_value
hex_value-lt c h = ground arith

b64_value-lt : (c : Char) → is_b64 c ≡ true → b64_value c < 64
unfolding is_b64 b64_value
b64_value-lt c h = ground arith

-- A text of hex digits of even length decodes to bytes that print as it.
pub record Decoded (s : String) : Type 0 where
  pub bytes : Bytes
  pub decoded : bytes_from_hex s ≡ ok bytes
  pub in_range : AreBytes bytes
  pub prints : hex bytes ≡ s

hex_of_digits :
    (c d : Char) (t : String)
    → is_hex c ≡ true
    → is_hex d ≡ true
    → String.◌∷◌
        (hex_char ((16 * hex_value c + hex_value d) / 16))
        (String.◌∷◌ (hex_char ((16 * hex_value c + hex_value d) % 16)) t)
      ≡ String.◌∷◌ c (String.◌∷◌ d t)
hex_of_digits c d t hc hd =
    let high : (16 * hex_value c + hex_value d) / 16 ≡ hex_value c =
      omega (arith, hex_value-lt d hd) in
    let low : (16 * hex_value c + hex_value d) % 16 ≡ hex_value d =
      omega (arith, hex_value-lt d hd) in
    rw (high, low, hex_char-hex_value c hc, hex_char-hex_value d hd)

Decoded-step :
    (c d : Char) (s : String)
    → is_hex c ≡ true
    → is_hex d ≡ true
    → Decoded s
    → Decoded (String.◌∷◌ c (String.◌∷◌ d s))
unfolding bytes_from_hex hex
Decoded-step c d s hc hd r = record {
  bytes = (16 * hex_value c + hex_value d) ∷ r.bytes;
  decoded = rw (hc, hd, r.decoded) refl;
  in_range = (omega (arith, hex_value-lt c hc, hex_value-lt d hd), r.in_range);
  prints = hex_of_digits c d (hex r.bytes) hc hd ∙ ap (λ t. String.◌∷◌ c (String.◌∷◌ d t)) r.prints;
}

pub bytes_from_hex-Decoded :
    (n : ℕ) (s : String) → all_chars is_hex s ≡ true → Text.length s ≡ 2 * n → Decoded s
unfolding all_chars Text.length bytes_from_hex hex
bytes_from_hex-Decoded n String.[] h e = record {
  bytes = [];
  decoded = refl;
  in_range = tt;
  prints = refl;
}
bytes_from_hex-Decoded n (String.◌∷◌ c String.[]) h e = absurd (omega arith)
bytes_from_hex-Decoded zero (String.◌∷◌ c (String.◌∷◌ d s)) h e = absurd (omega arith)
bytes_from_hex-Decoded (suc n) (String.◌∷◌ c (String.◌∷◌ d s)) h e =
    Decoded-step c d s (ground arith) (ground arith)
      (bytes_from_hex-Decoded n s (ground arith) (omega arith))

-- A text of the base64 alphabet decodes to bytes.
pub urlsafe_b64decode-AreBytes :
    (s : String) (bs : Bytes)
    → all_chars is_b64 s ≡ true
    → urlsafe_b64decode s ≡ ok bs
    → AreBytes bs
unfolding all_chars urlsafe_b64decode
urlsafe_b64decode-AreBytes String.[] [] h e = tt
urlsafe_b64decode-AreBytes (String.◌∷◌ w (String.◌∷◌ x String.[])) bs h e =
    ground (arith, b64_value-lt w, b64_value-lt x)
urlsafe_b64decode-AreBytes (String.◌∷◌ w (String.◌∷◌ x (String.◌∷◌ y String.[]))) bs h e =
    ground (arith, b64_value-lt w, b64_value-lt x, b64_value-lt y)
urlsafe_b64decode-AreBytes (String.◌∷◌ w (String.◌∷◌ x (String.◌∷◌ y (String.◌∷◌ z s))))
      (a ∷ b ∷ c ∷ r) h e =
    ground (
      arith,
      b64_value-lt w,
      b64_value-lt x,
      b64_value-lt y,
      b64_value-lt z,
      urlsafe_b64decode-AreBytes s r,
    )
urlsafe_b64decode-AreBytes _ bs h e = ground arith
