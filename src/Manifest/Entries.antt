-- ===== src/Manifest/Entries.antt =====
-- The entries of a manifest as maps: `set`, sorting and the writing of files keep what a key leads to.
use cats.Prelude.{
  String, ◌≡◌, refl, ap, ◌∙◌, inl, inr, false, Option, none, some, List, [], ◌∷◌, ◌==◌, eq_iff,
  arith, Bool-cases, if◌then◌else◌,
}
use cats.Result.{Result, ok, value_error, require, >>=-eq-ok}
use cats.Digest.{is_ni_or_digest}
use cats.Digest.Codec.{Bytes}
use cats.Files.{read, write}
use cats.Files.Laws.{read-write}
use cats.Json.{Json, Fields, str, end, field, find, set}
use cats.Json.Laws.{find-set}
use cats.Manifest.{
  Entries, FetchBytes, safe_path, before, insert_key, sorted_fields, clean_entries, write_entries,
  set_entry,
}

-- no path stands twice
abbrev pub Distinct {ℓ} : {V : Type ℓ} → List (String × V) → Type ℓ
Distinct [] = Unit
Distinct ((path, v) ∷ files) = (read path files ≡ none) × Distinct files

-- every path is as a manifest holds it
abbrev pub AllClean {ℓ} : {V : Type ℓ} → List (String × V) → Type 0
AllClean [] = Unit {0}
AllClean ((path, v) ∷ files) = (safe_path path ≡ ok path) × AllClean files

abbrev pub DistinctFields : Fields → Type 0
DistinctFields end = Unit {0}
DistinctFields (field k v fs) = (find k fs ≡ none) × DistinctFields fs

pub read-set_entry :
    (k p ni : String) (es : Entries)
    → read p (set_entry k ni es) ≡ (if k == p then some ni else read p es)
unfolding read set_entry
read-set_entry k p ni [] = refl
read-set_entry k p ni ((r, c) ∷ es) =
    ground (arith, read-set_entry k p ni es, eq_iff r k, eq_iff k p, eq_iff r p)

pub set_entry-Distinct : (k ni : String) (es : Entries) → Distinct es → Distinct (set_entry k ni es)
unfolding set_entry read
set_entry-Distinct k ni [] d = (refl, tt)
set_entry-Distinct k ni ((r, c) ∷ es) (new, d) = elim (Bool-cases (r == k)) [
  | inl same ↦ rw same (rw ((eq_iff r k).0 same) at new, d)
  | inr other ↦ rw other (
    ground (arith, read-set_entry k r ni es, eq_iff r k, eq_iff k r),
    set_entry-Distinct k ni es d,
  )
]

pub set_entry-AllClean :
    (k ni : String) (es : Entries) → safe_path k ≡ ok k → AllClean es → AllClean (set_entry k ni es)
unfolding set_entry
set_entry-AllClean k ni [] clean all = (clean, tt)
set_entry-AllClean k ni ((r, c) ∷ es) clean (here, all) = elim (Bool-cases (r == k)) [
  | inl same ↦ rw same (clean, all)
  | inr other ↦ rw other (here, set_entry-AllClean k ni es clean all)
]

before_irrefl : (s : String) → before s s ≡ false
unfolding before
before_irrefl String.[] = refl
before_irrefl (String.◌∷◌ c s) = ground (arith, before_irrefl s)

pub find-insert_key :
    (k j : String) (v : Json) (fs : Fields)
    → find j (insert_key k v fs) ≡ (if k == j then some v else find j fs)
unfolding find insert_key
find-insert_key k j v end = refl
find-insert_key k j v (field i w fs) =
    ground (arith, find-insert_key k j v fs, eq_iff i j, eq_iff k j, before_irrefl k)

pub find-sorted_fields : (j : String) (fs : Fields) → find j (sorted_fields fs) ≡ find j fs
unfolding find sorted_fields
find-sorted_fields j end = refl
find-sorted_fields j (field k v fs) =
    find-insert_key k j v (sorted_fields fs) ∙ rw (find-sorted_fields j fs) refl

insert_key-DistinctFields :
    (k : String) (v : Json) (fs : Fields)
    → find k fs ≡ none
    → DistinctFields fs
    → DistinctFields (insert_key k v fs)
unfolding insert_key find
insert_key-DistinctFields k v end new d = (refl, tt)
insert_key-DistinctFields k v (field i w fs) new (here, d) = elim (Bool-cases (before i k)) [
  | inl later ↦
      let other : find k fs ≡ none = ground arith in
      let stays : find i (insert_key k v fs) ≡ none =
        ground (arith, find-insert_key k i v fs, eq_iff k i, eq_iff i k) in
      rw later (stays, insert_key-DistinctFields k v fs other d)
  | inr first ↦ rw first (new, (here, d))
]

pub sorted_fields-DistinctFields :
    (fs : Fields) → DistinctFields fs → DistinctFields (sorted_fields fs)
unfolding sorted_fields
sorted_fields-DistinctFields end d = tt
sorted_fields-DistinctFields (field k v fs) (new, d) =
    insert_key-DistinctFields k v (sorted_fields fs) (find-sorted_fields k fs ∙ new)
      (sorted_fields-DistinctFields fs d)

set-DistinctFields :
    (k : String) (v : Json) (fs : Fields) → DistinctFields fs → DistinctFields (set k v fs)
unfolding set find
set-DistinctFields k v end d = (refl, tt)
set-DistinctFields k v (field i w fs) (new, d) = elim (Bool-cases (i == k)) [
  | inl same ↦ rw same (new, d)
  | inr other ↦
      let stays : find i (set k v fs) ≡ none =
        ground (arith, find-set k i v fs, eq_iff i k, eq_iff k i) in
      rw other (stays, set-DistinctFields k v fs d)
]

-- what the entries of a manifest lead to: the id under each path, else what was there
abbrev pub id_under : Option String → Option Json → Option Json
id_under none old = old
id_under (some content_id) old = some (str content_id)

pub clean_entries-find :
    (es : Entries) (old fs : Fields)
    → Distinct es
    → AllClean es
    → DistinctFields old
    → clean_entries es old ≡ ok fs
    → DistinctFields fs × ((p : String) → find p fs ≡ id_under (read p es) (find p old))
unfolding clean_entries read
clean_entries-find [] old fs d clean distinct done =
    let same : fs ≡ old = ground arith in (rw same distinct, λ p. ap (find p) same)
clean_entries-find ((k, ni) ∷ es) old fs (new, d) (here, clean) distinct done =
    let (path, checked, h1) = >>=-eq-ok (safe_path k) _ done in
    let (_, _, h2) = >>=-eq-ok (require (is_ni_or_digest ni) value_error) _ h1 in
    let same : path ≡ k = ground arith in
    let (distinct', found) =
      clean_entries-find es (set k (str ni) old) fs d clean
        (set-DistinctFields k (str ni) old distinct) (rw same at h2) in
    (
      distinct',
      λ p. elim (Bool-cases (k == p)) [
        | inl here_p ↦
            let absent : read p es ≡ none = rw ((eq_iff k p).0 here_p) at new in
            rw here_p (found p ∙ rw (absent, find-set k p (str ni) old, here_p) refl)
        | inr other ↦ rw other (found p ∙ rw (find-set k p (str ni) old, other) refl)
      ],
    )

module _ (loads : Bytes → Result Json) (fetch_bytes : FetchBytes) where
  -- each entry is clean, and leads to bytes
  abbrev pub AllFetch : Fields → Type 0
  AllFetch end = Unit {0}
  AllFetch (field k v fs) =
      (safe_path k ≡ ok k) × ((b : Bytes) × (fetch_bytes v ≡ ok b)) × AllFetch fs

  -- what is written for an entry: its bytes, else what was there
  abbrev pub Written : Option Json → Option Bytes → Option Bytes → Type 0
  Written none old now = now ≡ old
  Written (some v) old now = (b : Bytes) × (fetch_bytes v ≡ ok b) × (now ≡ some b)

  Written-cons :
      (k p : String) (v : Json) (fs : Fields) (b : Bytes) (dest written : List (String × Bytes))
      → find k fs ≡ none
      → fetch_bytes v ≡ ok b
      → Written (find p fs) (read p (write k b dest)) (read p written)
      → Written (find p (field k v fs)) (read p dest) (read p written)
  unfolding find
  Written-cons k p v fs b dest written new fetched later = elim (Bool-cases (k == p)) [
    | inl here ↦
        let absent : find p fs ≡ none = rw ((eq_iff k p).0 here) at new in
        let kept : read p written ≡ read p (write k b dest) = rw absent at later in
        rw here (b, fetched, kept ∙ rw (read-write k p b dest, here) refl)
    | inr other ↦ rw other (rw (read-write k p b dest, other) at later)
  ]

  pub write_entries-Written :
      (fs : Fields) (dest : List (String × Bytes))
      → AllFetch fs
      → DistinctFields fs
      → (written : List (String × Bytes)) × (write_entries loads fetch_bytes fs dest ≡ ok written)
        × ((p : String) → Written (find p fs) (read p dest) (read p written))
  unfolding write_entries find
  write_entries-Written end dest all d = (dest, refl, λ p. refl)
  write_entries-Written (field k v fs) dest (clean, (b, fetched), all) (new, d) =
      let (written, done, found) = write_entries-Written fs (write k b dest) all d in
      (
        written,
        rw (clean, fetched) done,
        λ p. Written-cons k p v fs b dest written new fetched (found p),
      )
