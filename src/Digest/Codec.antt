-- ===== src/Digest/Codec.antt =====
-- `bytes.hex`, `bytes.fromhex` and url-safe base64 of Python's standard library, as cas/digest.py
-- calls them: `bytes_from_hex` on text that is already checked to be lowercase hex, and
-- `urlsafe_b64decode` on a text of the alphabet, to which the caller adds the `=` padding.
pub mod RoundTrip
pub mod Digits
use cats.Prelude.{
  ℕ, ◌+◌, ◌-◌, ◌*◌, ◌/◌, ◌%◌, Char, code, String, Bool, true, false, ◌&&◌, ◌||◌, List, [], ◌∷◌, leb,
  ltb, eqb, if◌then◌else◌,
}
use cats.Result.{Result, ok, err, value_error, ◌>>=◌}
use cats.Text.{nth_char}

abbrev pub Bytes : Type 0
Bytes = List ℕ

unfoldable pub is_hex : Char → Bool
is_hex c = let n = code c in (leb 48 n && leb n 57) || (leb 97 n && leb n 102)

unfoldable pub hex_value : Char → ℕ
hex_value c = let n = code c in if leb n 57 then n - 48 else n - 87

unfoldable pub hex_char : ℕ → Char
hex_char d = nth_char "0123456789abcdef" d

unfoldable pub hex : Bytes → String
hex [] = String.[]
hex (b ∷ bs) = String.◌∷◌ (hex_char (b / 16)) (String.◌∷◌ (hex_char (b % 16)) (hex bs))

unfoldable pub bytes_from_hex : String → Result Bytes
bytes_from_hex String.[] = ok []
bytes_from_hex (String.◌∷◌ c String.[]) = err value_error
bytes_from_hex (String.◌∷◌ c (String.◌∷◌ d s)) =
    if is_hex c && is_hex d
    then (do rest ← bytes_from_hex s; ok ((16 * hex_value c + hex_value d) ∷ rest))
    else err value_error

unfoldable pub is_b64 : Char → Bool
is_b64 c =
    let n = code c in
    (leb 65 n && leb n 90)
    || (leb 97 n && leb n 122)
    || (leb 48 n && leb n 57)
    || eqb n b'-'
    || eqb n b'_'

unfoldable pub b64_char : ℕ → Char
b64_char d = nth_char "ABCDEFGHIJKLMNOPQRSTUVWXYZabcdefghijklmnopqrstuvwxyz0123456789-_" d

unfoldable pub b64_value : Char → ℕ
b64_value c =
    let n = code c in
    if eqb n b'-'
    then 62
    else if eqb n b'_'
    then 63
    else if leb n 57
    then n + 4
    else if leb n 90
    then n - 65
    else n - 71

-- three bytes are four characters; one or two at the end are filled up with `=`
unfoldable pub urlsafe_b64encode : Bytes → String
urlsafe_b64encode [] = String.[]
urlsafe_b64encode (a ∷ []) = String.◌∷◌ (b64_char (a / 4)) (String.◌∷◌ (b64_char (a % 4 * 16)) "==")
urlsafe_b64encode (a ∷ b ∷ []) =
    String.◌∷◌ (b64_char (a / 4))
      (String.◌∷◌ (b64_char (a % 4 * 16 + b / 16)) (String.◌∷◌ (b64_char (b % 16 * 4)) "="))
urlsafe_b64encode (a ∷ b ∷ c ∷ r) = String.◌∷◌ (b64_char (a / 4)) (
    String.◌∷◌ (b64_char (a % 4 * 16 + b / 16)) (
      String.◌∷◌ (b64_char (b % 16 * 4 + c / 64))
        (String.◌∷◌ (b64_char (c % 64)) (urlsafe_b64encode r))))

-- Of two or three characters at the end the spare bits are dropped; one alone is an error.
unfoldable pub urlsafe_b64decode : String → Result Bytes
urlsafe_b64decode String.[] = ok []
urlsafe_b64decode (String.◌∷◌ w String.[]) = err value_error
urlsafe_b64decode (String.◌∷◌ w (String.◌∷◌ x String.[])) =
    ok ((b64_value w * 4 + b64_value x / 16) ∷ [])
urlsafe_b64decode (String.◌∷◌ w (String.◌∷◌ x (String.◌∷◌ y String.[]))) =
    ok ((b64_value w * 4 + b64_value x / 16) ∷ (b64_value x % 16 * 16 + b64_value y / 4) ∷ [])
urlsafe_b64decode (String.◌∷◌ w (String.◌∷◌ x (String.◌∷◌ y (String.◌∷◌ z s)))) = do
  rest ← urlsafe_b64decode s
  ok (
      (b64_value w * 4 + b64_value x / 16)
      ∷ (b64_value x % 16 * 16 + b64_value y / 4)
      ∷ (b64_value y % 4 * 64 + b64_value z)
      ∷ rest)
