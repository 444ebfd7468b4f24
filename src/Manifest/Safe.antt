-- ===== src/Manifest/Safe.antt =====
-- No path that a manifest names leaves the destination.
use cats.Prelude.{
  ℕ, String, Char, code, ◌≡◌, refl, ◌⊎◌, inl, inr, true, false, ◌&&◌, ◌||◌, List, [], ◌∷◌, ◌==◌,
  eqb, eq_iff, arith, Bool-cases, if◌then◌else◌,
}
use cats.Result.{Result, ok, value_error, require, >>=-eq-ok}
use cats.Text.{◌<>◌, is_empty, starts_with, contains, lstrip_by, is_char, replace_char}
use cats.TextList.{elem}
use cats.Digest.Codec.{Bytes}
use cats.Json.{Json, Fields, str, end, field}
use cats.Files.{write, without}
use cats.Manifest.{
  clean_path, is_unsafe_path, safe_path, FetchBytes, write_entries, materialize_tree, entries_of,
  is_directory_manifest,
}

-- a character in front of the first segment
unfoldable pub cons_first : Char → List String → List String
cons_first c [] = (String.◌∷◌ c String.[]) ∷ []
cons_first c (s ∷ segments) = (String.◌∷◌ c s) ∷ segments

-- the path cut at each `/`
unfoldable pub segments : String → List String
unfolding cons_first
segments String.[] = String.[] ∷ []
segments (String.◌∷◌ c s) =
    if is_char b'/' c then String.[] ∷ segments s else cons_first c (segments s)

-- A path that stays below the directory it is joined to: it is not empty, does not start at the root,
-- and no segment goes up.
abbrev pub StaysBelow : String → Type 0
StaysBelow path =
    (is_empty path ≡ false) × (starts_with path "/" ≡ false) × (elem ".." (segments path) ≡ false)

unfoldable first : List String → String
first [] = String.[]
first (s ∷ ss) = s

unfoldable others : List String → List String
others [] = []
others (s ∷ ss) = ss

slash-eqb : (c : Char) → is_char b'/' c ≡ true → (eqb (code c) b'/' && true) ≡ true
unfolding is_char
slash-eqb c slash = ground arith

first-cons : (c : Char) (ss : List String) → first (cons_first c ss) ≡ String.◌∷◌ c (first ss)
unfolding first cons_first
first-cons c [] = refl
first-cons c (s ∷ ss) = refl

others-cons : (c : Char) (ss : List String) → others (cons_first c ss) ≡ others ss
unfolding others cons_first
others-cons c [] = refl
others-cons c (s ∷ ss) = refl

eqb_refl : (n : ℕ) → eqb n n ≡ true
eqb_refl n = ground arith

-- a path starts with its first segment, and what follows it
starts_with-first :
    (path : String) → starts_with (path <> "/") (first (segments path) <> "/") ≡ true
unfolding segments first starts_with ◌<>◌
starts_with-first String.[] = refl
starts_with-first (String.◌∷◌ c s) = elim (Bool-cases (is_char b'/' c)) [
  | inl slash ↦ rw slash (slash-eqb c slash)
  | inr plain ↦ rw (plain, first-cons c (segments s), eqb_refl (code c), starts_with-first s) refl
]

contains-cons : (c : Char) (s t : String) → contains s t ≡ true → contains (String.◌∷◌ c s) t ≡ true
unfolding contains
contains-cons c s t h = ground arith

contains-starts : (s t : String) → starts_with s t ≡ true → contains s t ≡ true
unfolding contains
contains-starts String.[] t h = h
contains-starts (String.◌∷◌ c s) t h = ground arith

-- behind a slash, a text that starts with `../`
starts_with-up :
    (c : Char) (s : String)
    → is_char b'/' c ≡ true
    → starts_with s "../" ≡ true
    → starts_with (String.◌∷◌ c s) "/../" ≡ true
unfolding starts_with is_char
starts_with-up c s slash up = ground arith

segments-split : (path : String) → segments path ≡ first (segments path) ∷ others (segments path)
unfolding segments first others cons_first
segments-split String.[] = refl
segments-split (String.◌∷◌ c s) = elim (Bool-cases (is_char b'/' c)) [
  | inl slash ↦ rw slash refl
  | inr plain ↦ rw (plain, segments-split s) refl
]

-- a segment that goes up is the first or one of the others
elem-segments :
    (path : String)
    → elem ".." (segments path) ≡ true
    → (first (segments path) ≡ "..") ⊎ (elem ".." (others (segments path)) ≡ true)
unfolding elem
elem-segments path up =
    let parts : (first (segments path) == ".." || elem ".." (others (segments path))) ≡ true =
      rw (segments-split path) at up in
    elim (Bool-cases (first (segments path) == "..")) [
      | inl here ↦ inl ((eq_iff (first (segments path)) "..").0 here)
      | inr later ↦ inr (ground arith)
    ]

first-up : (path : String) → first (segments path) ≡ ".." → starts_with (path <> "/") "../" ≡ true
unfolding ◌<>◌
first-up path up = let h = starts_with-first path in rw up at h

-- A segment behind the first that goes up stands between two slashes.
others-contains :
    (path : String)
    → elem ".." (others (segments path)) ≡ true
    → contains (path <> "/") "/../" ≡ true
unfolding segments others elem ◌<>◌
others-contains String.[] up = cc
others-contains (String.◌∷◌ c s) up = elim (Bool-cases (is_char b'/' c)) [
  | inl slash ↦
      let inside : elem ".." (segments s) ≡ true = rw slash at up in
      elim (elem-segments s inside) [
        | inl here ↦
            contains-starts (String.◌∷◌ c (s <> "/")) "/../"
              (starts_with-up c (s <> "/") slash (first-up s here))
        | inr later ↦ contains-cons c (s <> "/") "/../" (others-contains s later)
      ]
  | inr plain ↦
      let later : elem ".." (others (segments s)) ≡ true =
        rw (plain, others-cons c (segments s)) at up in
      contains-cons c (s <> "/") "/../" (others-contains s later)
]

-- a path with a segment that goes up holds `/../` between slashes
up-contains :
    (path : String)
    → elem ".." (segments path) ≡ true
    → contains ("/" <> (path <> "/")) "/../" ≡ true
unfolding ◌<>◌ is_char
up-contains path up = elim (elem-segments path up) [
  | inl here ↦
      contains-starts ("/" <> (path <> "/")) "/../"
        (starts_with-up "/" (path <> "/") refl (first-up path here))
  | inr later ↦ contains-cons "/" (path <> "/") "/../" (others-contains path later)
]

starts_with-lstrip : (s : String) → starts_with (lstrip_by (is_char b'/') s) "/" ≡ false
unfolding lstrip_by starts_with is_char
starts_with-lstrip String.[] = refl
starts_with-lstrip (String.◌∷◌ c s) = ground (arith, starts_with-lstrip s)

safe_path-StaysBelow : (rel path : String) → safe_path rel ≡ ok path → StaysBelow path
unfolding safe_path is_unsafe_path clean_path
safe_path-StaysBelow rel path done = elim (Bool-cases (is_unsafe_path (clean_path rel))) [
  | inl unsafe ↦ let h = rw unsafe at done in ground arith
  | inr checked ↦
      let h : ok (clean_path rel) ≡ ok path = rw checked at done in
      let same : path ≡ clean_path rel = ground arith in
      rw same (
        let below = up-contains (clean_path rel) in
        (ground arith, starts_with-lstrip (replace_char b'\\' "/" rel), ground arith))
]

-- every file has a path below the destination
abbrev pub AllBelow : List (String × Bytes) → Type 0
AllBelow [] = Unit {0}
AllBelow ((path, data_bytes) ∷ files) = StaysBelow path × AllBelow files

without-AllBelow :
    (key : String) (files : List (String × Bytes)) → AllBelow files → AllBelow (without key files)
unfolding without
without-AllBelow key [] below = tt
without-AllBelow key ((path, data_bytes) ∷ files) (here, below) = elim (Bool-cases (path == key)) [
  | inl same ↦ rw same (without-AllBelow key files below)
  | inr other ↦ rw other (here, without-AllBelow key files below)
]

module _ (loads : Bytes → Result Json) (fetch_bytes : FetchBytes) where
  write_entries-AllBelow :
      (entries : Fields) (dest written : List (String × Bytes))
      → AllBelow dest
      → write_entries loads fetch_bytes entries dest ≡ ok written
      → AllBelow written
  unfolding write_entries write
  write_entries-AllBelow end dest written below done =
      let same : written ≡ dest = ground arith in rw same below
  write_entries-AllBelow (field rel file_id rest) dest written below done =
      let (path, checked, h1) = >>=-eq-ok (safe_path rel) _ done in
      let (data_bytes, _, h2) = >>=-eq-ok (fetch_bytes file_id) _ h1 in
      write_entries-AllBelow rest (write path data_bytes dest) written
        (safe_path-StaysBelow rel path checked, without-AllBelow path dest below) h2

  -- Where the paths of the files at the destination stay below it, so do those of all files after
  -- a successful `materialize_tree`: no path is empty, starts with a slash or has a segment `..`.
  pub materialize_tree-AllBelow :
      (content_id : String) (dest written : List (String × Bytes))
      → AllBelow dest
      → materialize_tree loads fetch_bytes content_id dest ≡ ok written
      → AllBelow written
  unfolding materialize_tree
  materialize_tree-AllBelow content_id dest written below done =
      let (raw, _, h1) = >>=-eq-ok (fetch_bytes (str content_id)) _ done in
      let (document, _, h2) = >>=-eq-ok (loads raw) _ h1 in
      let (_, _, h3) = >>=-eq-ok (require (is_directory_manifest document) value_error) _ h2 in
      write_entries-AllBelow (entries_of document) dest written below h3
