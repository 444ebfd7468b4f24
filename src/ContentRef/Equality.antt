-- ===== src/ContentRef/Equality.antt =====
-- Equality ids: one canonical id for each content, whichever way it is written.
use cats.Prelude.{◌↔◌, String, ◌≡◌, refl, sym, ap, ◌∙◌, ◌⊎◌, inl, inr, false, arith, Bool-cases}
use cats.Result.{ok, ◌>>=◌, >>=-eq-ok}
use cats.Text.{strip}
use cats.Text.Laws.{strip_idem}
use cats.Digest.{to_ni, from_ni, is_ni_or_digest, content_id_fs_key}
use cats.Digest.Names.{from_ni-to_ni, from_ni-valid, from_ni-is_ni_or_digest}
use cats.Digest.Keys.{is_ni_or_digest-strip, from_ni-strip, content_id_fs_key-to_ni}
use cats.ContentRef.{equality_id}

-- the two ways that an equality id is made
pub equality_id_cases :
    (x n : String)
    → equality_id x ≡ ok n
    → ((d : String) × (from_ni x ≡ ok d) × (to_ni d ≡ ok n))
      ⊎ ((is_ni_or_digest x ≡ false) × (n ≡ strip x))
unfolding equality_id
equality_id_cases x n h = elim (Bool-cases (is_ni_or_digest x)) [
  | inl named ↦
      let e : (from_ni (strip x) >>= to_ni) ≡ ok n = ground (arith, is_ni_or_digest-strip x) in
      let (d, read, made) = >>=-eq-ok (from_ni (strip x)) to_ni e in
      inl (d, sym (from_ni-strip x) ∙ read, made)
  | inr other ↦ inr (other, ground (arith, is_ni_or_digest-strip x))
]

pub equality_id-named : (x d n : String) → from_ni x ≡ ok d → to_ni d ≡ ok n → equality_id x ≡ ok n
unfolding equality_id
equality_id-named x d n read made =
    rw (is_ni_or_digest-strip x, from_ni-is_ni_or_digest x d read, from_ni-strip x, read) made

equality_id-other : (x : String) → is_ni_or_digest x ≡ false → equality_id x ≡ ok (strip x)
unfolding equality_id
equality_id-other x h = rw (is_ni_or_digest-strip x, h) refl

-- An equality id is its own equality id.
pub equality_id_idem : (x n : String) → equality_id x ≡ ok n → equality_id n ≡ ok n
equality_id_idem x n h = elim (equality_id_cases x n h) [
  | inl (d, read, made) ↦
      equality_id-named n d n (from_ni-to_ni d n (from_ni-valid x d read) made).1 made
  | inr (other, same) ↦
      rw same (equality_id-other (strip x) (is_ni_or_digest-strip x ∙ other) ∙ ap ok (strip_idem x))
]

pub equality_id_parts :
    (x d n : String)
    → from_ni x ≡ ok d
    → equality_id x ≡ ok n
    → (to_ni d ≡ ok n) × (from_ni n ≡ ok d)
equality_id_parts x d n read h = elim (equality_id_cases x n h) [
  | inl (c, again, made) ↦
      let same : c ≡ d = cc in
      let made' : to_ni d ≡ ok n = rw same at made in
      (made', (from_ni-to_ni d n (from_ni-valid x d read) made').1)
  | inr (other, _) ↦ cc (from_ni-is_ni_or_digest x d read)
]

-- Two names or digests have one equality id exactly when they spell one digest.
pub equality_id-eq_iff :
    (x y d e n m : String)
    → from_ni x ≡ ok d
    → from_ni y ≡ ok e
    → equality_id x ≡ ok n
    → equality_id y ≡ ok m
    → (n ≡ m) ↔ (d ≡ e)
equality_id-eq_iff x y d e n m rx ry hx hy =
    let px = equality_id_parts x d n rx hx in
    let py = equality_id_parts y e m ry hy in
    ((λ p. ground (arith, px, py, p)), (λ q. ground (arith, px, py, q)))

-- An equality id has the file key of what it was made from.
pub content_id_fs_key-equality_id :
    (x n : String) → equality_id x ≡ ok n → content_id_fs_key n ≡ content_id_fs_key x
unfolding content_id_fs_key
content_id_fs_key-equality_id x n h = elim (equality_id_cases x n h) [
  | inl (d, read, made) ↦ let (new, old) = content_id_fs_key-to_ni x d n read made in new ∙ sym old
  | inr (other, same) ↦ rw (same, strip_idem x) refl
]
