-- ===== src/Manifest/Stored.antt =====
-- What `put_files` leaves: an entry for each file, whose bytes the store gives under it.
use cats.Prelude.{
  String, ◌≡◌, refl, ap, ◌∙◌, inl, inr, true, Option, none, some, List, [], ◌∷◌, ◌==◌, eq_iff,
  arith, Bool-cases, if◌then◌else◌,
}
use cats.Result.{Result, ok, >>=-eq-ok}
use cats.Digest.{is_hex_sha256}
use cats.Digest.Codec.{Bytes}
use cats.Files.{read}
use cats.CasStore.{CasHttpStore}
use cats.CasStore
use cats.CasStore.Integrity.{get-put, get-put_keeps}
use cats.Json.{Json}
use cats.Manifest.{Entries, safe_path, set_entry, put_files}
use cats.Manifest.Entries.{
  Distinct, AllClean, read-set_entry, set_entry-Distinct, set_entry-AllClean,
}

pub AllClean-read :
    (es : Entries) (p ni : String) → AllClean es → read p es ≡ some ni → safe_path p ≡ ok p
unfolding read
AllClean-read [] p ni all found = ground arith
AllClean-read ((k, c) ∷ es) p ni (here, all) found = elim (Bool-cases (k == p)) [
  | inl same ↦ rw ((eq_iff k p).0 same) at here
  | inr other ↦ AllClean-read es p ni all (rw other at found)
]

-- the entry of a path: a name of its bytes, where there is a file, else what was there
abbrev pub Held : Option Bytes → Option String → Option String → CasHttpStore → Type 0
Held none old now store = now ≡ old
Held (some b) old now store =
    (ni : String) × (now ≡ some ni) × (CasStore.get ni store ≡ ok (some b))

module _ (sha256_hex : Bytes → String) (hashes : (b : Bytes) → is_hex_sha256 (sha256_hex b) ≡ true)
    (dumps : Json → Result Bytes) where
  abbrev pub Keeps : CasHttpStore → CasHttpStore → Type 0
  Keeps s s' =
      (x : String) (c : Bytes) → CasStore.get x s ≡ ok (some c) → CasStore.get x s' ≡ ok (some c)

  pub Held-Keeps :
      (file : Option Bytes) (old now : Option String) (s s' : CasHttpStore)
      → Keeps s s'
      → Held file old now s
      → Held file old now s'
  Held-Keeps none old now s s' keeps held = held
  Held-Keeps (some b) old now s s' keeps (ni, same, got) = (ni, same, keeps ni b got)

  Held-cons :
      (rel p ni : String) (b : Bytes) (files : List (String × Bytes)) (es es' : Entries)
      (s' : CasHttpStore)
      → read rel files ≡ none
      → CasStore.get ni s' ≡ ok (some b)
      → Held (read p files) (read p (set_entry rel ni es)) (read p es') s'
      → Held (if rel == p then some b else read p files) (read p es) (read p es') s'
  Held-cons rel p ni b files es es' s' new got later = elim (Bool-cases (rel == p)) [
    | inl here ↦
        let absent : read p files ≡ none = rw ((eq_iff rel p).0 here) at new in
        let kept : read p es' ≡ read p (set_entry rel ni es) = rw absent at later in
        rw here (ni, kept ∙ rw (read-set_entry rel p ni es, here) refl, got)
    | inr other ↦ rw other (rw (read-set_entry rel p ni es, other) at later)
  ]

  pub put_files-Held :
      (files : List (String × Bytes)) (es : Entries) (s : CasHttpStore) (es' : Entries)
      (s' : CasHttpStore)
      → Distinct files
      → AllClean files
      → Distinct es
      → AllClean es
      → put_files sha256_hex dumps files es s ≡ ok (es', s')
      → Distinct es'
        × AllClean es'
        × Keeps s s'
        × ((p : String) → Held (read p files) (read p es) (read p es') s')
  unfolding put_files read
  put_files-Held [] es s es' s' d clean de ce done =
      let same : es' ≡ es = ground arith in
      let same_store : s' ≡ s = ground arith in
      (rw same de, rw same ce, λ x c h. rw same_store h, λ p. ap (read p) same)
  put_files-Held ((rel, b) ∷ files) es s es' s' (new, d) (here, clean) de ce done =
      let ((ni, s1), stored, rest) = >>=-eq-ok (CasStore.put sha256_hex b s) _ done in
      let (d', c', keeps, held) =
        put_files-Held files (set_entry rel ni es) s1 es' s' d clean
          (set_entry-Distinct rel ni es de) (set_entry-AllClean rel ni es here ce) rest in
      let got = keeps ni b (get-put sha256_hex hashes b s ni s1 stored) in
      (
        d',
        c',
        λ x c h. keeps x c (get-put_keeps sha256_hex hashes b c s ni s1 x stored h),
        λ p. Held-cons rel p ni b files es es' s' new got (held p),
      )
