-- ===== src/ExecutionBind/Segments.antt =====
-- The last segments of addresses.
use cats.Prelude.{Char, code, String, ◌≡◌, refl, inl, inr, true, false, eqb, arith, Bool-cases}
use cats.Text.{lower, last_segment, has_char, rstrip_by, is_char, ◌<>◌}
use cats.ExecutionBind.{uri_digest}

-- no slash stands in the segment, and nothing behind it
pub data IsLast : String → String → Type 0 where
  whole : (s : String) → has_char 47 s ≡ false → IsLast s s
  behind :
      (front : String) (c : Char) (s : String)
      → eqb (code c) 47 ≡ true
      → has_char 47 s ≡ false
      → IsLast (front <> (String.◌∷◌ c s)) s

IsLast-cons :
    (c : Char) (s t : String) → has_char 47 s ≡ true → IsLast s t → IsLast (String.◌∷◌ c s) t
unfolding ◌<>◌
IsLast-cons c s t slash (whole _ none_there) = ground arith
IsLast-cons c s t slash (behind front d _ is_slash clean) =
    behind (String.◌∷◌ c front) d t is_slash clean

last_segment-IsLast : (s : String) → IsLast s (last_segment s)
unfolding last_segment has_char ◌<>◌
last_segment-IsLast String.[] = whole String.[] refl
last_segment-IsLast (String.◌∷◌ c s) = elim (Bool-cases (has_char 47 s)) [
  | inl slash ↦ rw slash (IsLast-cons c s (last_segment s) slash (last_segment-IsLast s))
  | inr clean ↦ elim (Bool-cases (eqb (code c) 47)) [
    | inl here ↦ rw (clean, here) (behind String.[] c s here clean)
    | inr other ↦ rw (clean, other) (whole (String.◌∷◌ c s) (ground arith))
  ]
]

-- two addresses have one last segment, in any case, slashes at their ends aside
pub record SameLast (a b : String) : Type 0 where
  pub left : String
  pub right : String
  pub left_last : IsLast (rstrip_by (is_char 47) a) left
  pub right_last : IsLast (rstrip_by (is_char 47) b) right
  pub same : lower left ≡ lower right

pub uri_digest-SameLast : (a b : String) → uri_digest a ≡ uri_digest b → SameLast a b
unfolding uri_digest
uri_digest-SameLast a b h = record {
  left = last_segment (rstrip_by (is_char 47) a);
  right = last_segment (rstrip_by (is_char 47) b);
  left_last = last_segment-IsLast (rstrip_by (is_char 47) a);
  right_last = last_segment-IsLast (rstrip_by (is_char 47) b);
  same = h;
}
