-- ===== src/ContentRef/Url.antt =====
-- `urlparse(uri).path` of the standard library, for an absolute http(s) address with no white space
-- at its ends. The check of an address in brackets (RFC 3986 IPv6 hosts) is only that of its brackets.
use cats.Prelude.{Char, code, String, Bool, not, ◌&&◌, ◌||◌, none, some, eqb, if◌then◌else◌}
use cats.Result.{Result, ok, err, value_error}
use cats.Text.{has_char, take_until, drop_until, drop_prefix, is_char}

-- `urlsplit` takes tabs and line ends out of the address
unfoldable pub without_breaks : String → String
without_breaks String.[] = String.[]
without_breaks (String.◌∷◌ c s) =
    let n = code c in
    let rest = without_breaks s in
    if eqb n 9 || eqb n 10 || eqb n 13 then rest else String.◌∷◌ c rest

-- what stands behind `scheme://`
unfoldable pub after_scheme : String → String
after_scheme url = elim (drop_prefix (drop_until (is_char b':') url) "://") [
  | none ↦ url
  | some rest ↦ rest
]

unfoldable pub ends_netloc : Char → Bool
ends_netloc c = eqb (code c) b'/' || eqb (code c) b'?' || eqb (code c) b'#'

-- the parameters behind a `;` in the last segment are no part of the path
unfoldable pub without_params : String → String
without_params String.[] = String.[]
without_params (String.◌∷◌ c s) =
    let rest = String.◌∷◌ c (without_params s) in
    if has_char b'/' s then rest else if eqb (code c) b';' then String.[] else rest

unfoldable pub url_path : String → Result String
unfolding without_breaks after_scheme ends_netloc without_params
url_path uri =
    let rest = after_scheme (without_breaks uri) in
    let netloc = take_until ends_netloc rest in
    let opens = has_char b'[' netloc in
    let closes = has_char b']' netloc in
    if (opens && not closes) || (closes && not opens)
    then err value_error
    else ok (
        without_params
          (take_until (is_char b'?') (take_until (is_char b'#') (drop_until ends_netloc rest))))
