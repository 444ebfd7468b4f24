-- ===== src/Registry/Index/Ids.antt =====
-- Normalised ids: they keep the file key, are stripped and are not empty.
use cats.Prelude.{String, ◌≡◌, ◌∙◌, inl, inr, false, arith, Bool-cases}
use cats.Result.{ok, ◌>>=◌, >>=-eq-ok}
use cats.Text.{strip, is_empty}
use cats.Text.Laws.{strip_idem}
use cats.Digest.{to_ni, from_ni, is_ni_or_digest, content_id_fs_key}
use cats.Digest.Names.{to_ni-Named, from_ni-valid, strip-ni_name, ni_name}
use cats.Locators.{canonical_id}
use cats.Locators.Index.{content_id_fs_key-canonical_id}
use cats.Registry.{normalize_content_id}

pub normalize-canonical_id : (x n : String) → normalize_content_id x ≡ ok n → canonical_id x ≡ ok n
unfolding normalize_content_id canonical_id
normalize-canonical_id x n h = let (k, key, rest) = >>=-eq-ok (content_id_fs_key x) _ h in rest

pub content_id_fs_key-normalize :
    (x n : String)
    → normalize_content_id x ≡ ok n
    → (k : String) × (content_id_fs_key n ≡ ok k) × (content_id_fs_key x ≡ ok k)
unfolding normalize_content_id
content_id_fs_key-normalize x n h =
    let (k, key, rest) = >>=-eq-ok (content_id_fs_key x) _ h in
    (k, content_id_fs_key-canonical_id x n (normalize-canonical_id x n h) ∙ key, key)

-- A normalised id is stripped.
pub strip-normalize : (x n : String) → normalize_content_id x ≡ ok n → strip n ≡ n
unfolding canonical_id
strip-normalize x n h =
    let c = normalize-canonical_id x n h in
    elim (Bool-cases (is_ni_or_digest x)) [
      | inl named ↦
          let e : (from_ni x >>= to_ni) ≡ ok n = ground arith in
          let (d, read, made) = >>=-eq-ok (from_ni x) to_ni e in
          let r = to_ni-Named d (from_ni-valid x d read) in
          let same : n ≡ ni_name r.bytes = ground (arith, r.named) in
          rw same (strip-ni_name r.bytes r.in_range)
      | inr other ↦ let same : n ≡ strip x = ground arith in rw same (strip_idem x)
    ]

is_empty-of_key : (n k : String) → content_id_fs_key n ≡ ok k → is_empty (strip n) ≡ false
unfolding content_id_fs_key
is_empty-of_key n k h = ground arith

-- A normalised id is not empty.
pub is_empty-normalize : (x n : String) → normalize_content_id x ≡ ok n → is_empty n ≡ false
is_empty-normalize x n h =
    let (k, key, _) = content_id_fs_key-normalize x n h in
    rw (strip-normalize x n h) at (is_empty-of_key n k key)
