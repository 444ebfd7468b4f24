-- ===== src/Stages/Egress.antt =====
-- The data of an Invoice and the egressed data of its stage document are compared by digest.
use cats.Prelude.{
  String, ◌≡◌, ◌≢◌, refl, ◌⊎◌, inl, inr, false, Option, some, ◌==◌, eq_iff, arith, Bool-cases,
}
use cats.Result.{ok, err, assertion_error}
use cats.Text.{is_empty}
use cats.Digest.{from_ni}
use cats.Digest.Names.{
  from_ni-valid, from_ni-is_ni_or_digest, is_empty-digest, is_hex_sha256-length,
}
use cats.Digest.Keys.{is_ni_or_digest-strip, from_ni-strip, from_ni-filled}
use cats.Json.{Fields}
use cats.Locators.{LocatorIndex}
use cats.Refs.{ref_id}
use cats.Stages.{digest_key, same_keys, assert_egressed_matches_data}

digest_key-named : (x d : String) → from_ni x ≡ ok d → digest_key (some x) ≡ ok (some d)
unfolding digest_key
digest_key-named x d read =
    rw
      (
        from_ni-filled x d read,
        is_ni_or_digest-strip x,
        from_ni-is_ni_or_digest x d read,
        from_ni-strip x,
        read,
      )
      refl

from_ni-full : (x d : String) → from_ni x ≡ ok d → is_empty d ≡ false
from_ni-full x d read = is_empty-digest d (is_hex_sha256-length d (from_ni-valid x d read))

-- Where the data of the Invoice and the egressed data of the stage document are names or digests,
-- the check passes exactly when the two spell one digest, in whichever way; otherwise it raises an
-- assertion error.
pub egressed_cases :
    (invoice nest : Fields) (i i1 i2 : Option LocatorIndex) (x y d e : String)
    → ref_id invoice "data" i ≡ ok (some x, i1)
    → ref_id nest "egressed_data" i1 ≡ ok (some y, i2)
    → from_ni x ≡ ok d
    → from_ni y ≡ ok e
    → (d ≡ e) × (assert_egressed_matches_data invoice nest i ≡ ok tt)
      ⊎ (d ≢ e) × (assert_egressed_matches_data invoice nest i ≡ err assertion_error)
unfolding assert_egressed_matches_data same_keys
egressed_cases invoice nest i i1 i2 x y d e held held' read read' =
    let first = digest_key-named x d read in
    let second = digest_key-named y e read' in
    let full = from_ni-full x d read in
    let full' = from_ni-full y e read' in
    elim (Bool-cases (d == e)) [
      | inl same ↦
          inl ((eq_iff d e).0 same, rw (held, held', first, second, full, full', same) refl)
      | inr other ↦ inr (
        (λ p. ground (arith, eq_iff d e)),
        rw (held, held', first, second, full, full', other) refl,
      )
    ]
