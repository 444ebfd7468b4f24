-- ===== src/Text.antt =====
-- The methods of `str` that cats/network calls, on the native texts. Letters outside ASCII have no
-- lower case here.
pub mod Laws
use Prim.Native.String.{[], ◌∷◌}
use cats.Prelude.{
  ℕ, zero, suc, ◌+◌, ◌-◌, Char, code, String, Bool, true, false, not, ◌&&◌, ◌||◌, Option, none,
  some, ◌==◌, ◌%◌, ◌/◌, ltb, leb, eqb, if◌then◌else◌,
}
use mathlib.Core.Option

-- the white space that `str.strip` removes
unfoldable pub is_space : Char → Bool
is_space c =
    let n = code c in
    (leb 9 n && leb n 13)
    || (leb 28 n && leb n 32)
    || eqb n 0x85
    || eqb n 0xa0
    || eqb n 0x1680
    || (leb 0x2000 n && leb n 0x200a)
    || eqb n 0x2028
    || eqb n 0x2029
    || eqb n 0x202f
    || eqb n 0x205f
    || eqb n 0x3000

unfoldable pub lstrip_by : (Char → Bool) → String → String
lstrip_by p [] = []
lstrip_by p (c ∷ s) = if p c then lstrip_by p s else c ∷ s

-- one more character in front of a text that is already stripped on the right
unfoldable pub cons_unless : (Char → Bool) → Char → String → String
cons_unless p c [] = if p c then [] else c ∷ []
cons_unless p c (d ∷ t) = c ∷ d ∷ t

unfoldable pub rstrip_by : (Char → Bool) → String → String
unfolding cons_unless
rstrip_by p [] = []
rstrip_by p (c ∷ s) = cons_unless p c (rstrip_by p s)

unfoldable pub strip : String → String
unfolding is_space lstrip_by rstrip_by
strip s = rstrip_by is_space (lstrip_by is_space s)

unfoldable pub nth_char : String → ℕ → Char
nth_char [] i = "?"
nth_char (c ∷ s) zero = c
nth_char (c ∷ s) (suc i) = nth_char s i

unfoldable pub lower_char : Char → Char
unfolding nth_char
lower_char c =
    let n = code c in
    if leb 65 n && leb n 90 then nth_char "abcdefghijklmnopqrstuvwxyz" (n - 65) else c

unfoldable pub lower : String → String
unfolding lower_char
lower [] = []
lower (c ∷ s) = lower_char c ∷ lower s

infixr 65 ◌<>◌
unfoldable pub ◌<>◌ : String → String → String
[] <> t = t
(c ∷ s) <> t = c ∷ (s <> t)

unfoldable pub all_chars : (Char → Bool) → String → Bool
all_chars p [] = true
all_chars p (c ∷ s) = p c && all_chars p s

unfoldable pub length : String → ℕ
length [] = 0
length (c ∷ s) = suc (length s)

unfoldable pub is_empty : String → Bool
is_empty [] = true
is_empty (c ∷ s) = false

-- `s.startswith(t)`
unfoldable pub starts_with : String → String → Bool
starts_with s [] = true
starts_with [] (d ∷ t) = false
starts_with (c ∷ s) (d ∷ t) = eqb (code c) (code d) && starts_with s t

-- what is left of `s` behind the prefix `t`
unfoldable pub drop_prefix : String → String → Option String
drop_prefix s [] = some s
drop_prefix [] (d ∷ t) = none
drop_prefix (c ∷ s) (d ∷ t) =
    let rest = drop_prefix s t in if eqb (code c) (code d) then rest else none

-- what stands in front of the suffix `t`, where `s.endswith(t)`
unfoldable pub drop_suffix : String → String → Option String
drop_suffix [] t = if is_empty t then some [] else none
drop_suffix (c ∷ s) t =
    let rest = Option.map (λ r. c ∷ r) (drop_suffix s t) in if (c ∷ s) == t then some [] else rest

-- `t in s`
unfoldable pub contains : String → String → Bool
unfolding starts_with
contains [] t = starts_with [] t
contains (c ∷ s) t = starts_with (c ∷ s) t || contains s t

unfoldable pub has_char : ℕ → String → Bool
has_char n [] = false
has_char n (c ∷ s) = eqb (code c) n || has_char n s

-- the text behind the last `/`: `s.rsplit('/', 1)[-1]`
unfoldable pub last_segment : String → String
unfolding has_char
last_segment [] = []
last_segment (c ∷ s) =
    let rest = last_segment s in
    if has_char b'/' s then rest else if eqb (code c) b'/' then s else c ∷ s

-- the text in front of the first character that passes
unfoldable pub take_until : (Char → Bool) → String → String
take_until p [] = []
take_until p (c ∷ s) = let rest = c ∷ take_until p s in if p c then [] else rest

unfoldable pub drop_until : (Char → Bool) → String → String
drop_until p [] = []
drop_until p (c ∷ s) = if p c then c ∷ s else drop_until p s

unfoldable pub replace_char : ℕ → Char → String → String
replace_char n d [] = []
replace_char n d (c ∷ s) = (if eqb (code c) n then d else c) ∷ replace_char n d s

unfoldable pub is_char : ℕ → Char → Bool
is_char n c = eqb (code c) n

unfoldable pub digits : ℕ → ℕ → String → String
unfolding nth_char
digits zero n rest = rest
digits (suc fuel) n rest =
    let here = nth_char "0123456789" (n % 10) ∷ rest in
    let more = digits fuel (n / 10) here in if ltb n 10 then here else more

-- `str(n)`: a number has no more digits than its value and one
unfoldable pub decimal : ℕ → String
unfolding digits
decimal n = digits (suc n) n []
