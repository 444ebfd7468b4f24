-- ===== src/Lineage/Chain.antt =====
-- When the lineage checks pass.
use cats.Prelude.{
  String, ◌≡◌, ◌≢◌, refl, ◌⊎◌, inl, inr, true, false, some, ◌==◌, eq_iff, arith, Bool-cases,
}
use cats.Result.{ok, err, assertion_error}
use cats.Digest.{from_ni, to_ni}
use cats.Digest.Names.{to_ni-Named, ni_name, from_ni-valid}
use cats.Digest.Keys.{from_ni-filled}
use cats.ContentRef.Equality.{equality_id-named, equality_id-eq_iff}
use cats.Refs.{stem_ref_id}
use cats.Json.{Json, Fields, obj, as_dict, equal}
use cats.Lineage.{
  require_dict, require_stem_id, assert_order_pairing_lineage, assert_invoice_data_chain,
  require_seed_field, assert_distinct_executions,
}

-- the id of a stem that holds a name or a digest is the canonical name
require_stem_id-named :
    (fs : Fields) (a d : String)
    → stem_ref_id fs "data" ≡ ok (some a)
    → from_ni a ≡ ok d
    → (n : String) × (to_ni d ≡ ok n) × (require_stem_id (obj fs) "data" ≡ ok n)
unfolding require_stem_id require_dict as_dict
require_stem_id-named fs a d held read =
    let named = to_ni-Named d (from_ni-valid a d read) in
    (
      ni_name named.bytes,
      named.named,
      rw
          (
            held,
            from_ni-filled a d read,
            equality_id-named a d (ni_name named.bytes) read named.named,
          )
          refl,
    )

-- Where the data fields of two Invoices hold names or digests, the chain check accepts the
-- Invoices exactly when the two spell one digest, in whichever way, and returns the canonical name
-- of it twice; otherwise it raises an assertion error.
pub assert_invoice_data_chain_cases :
    (prior next : Fields) (a b d e : String)
    → stem_ref_id prior "data" ≡ ok (some a)
    → stem_ref_id next "data" ≡ ok (some b)
    → from_ni a ≡ ok d
    → from_ni b ≡ ok e
    → (d ≡ e)
        × ((n : String) × (to_ni d ≡ ok n)
            × (assert_invoice_data_chain (obj prior) (obj next) ≡ ok (n, n)))
      ⊎ (d ≢ e) × (assert_invoice_data_chain (obj prior) (obj next) ≡ err assertion_error)
unfolding assert_invoice_data_chain
assert_invoice_data_chain_cases prior next a b d e held held' read read' =
    let (n, made, first) = require_stem_id-named prior a d held read in
    let (m, made', second) = require_stem_id-named next b e held' read' in
    elim (Bool-cases (n == m)) [
      | inl same ↦
          let one = (eq_iff n m).0 same in
          inl (
            (equality_id-eq_iff a b d e n m read read' (equality_id-named a d n read made)
                  (equality_id-named b e m read' made')).0
                one,
            (n, made, rw (first, second, same, ← one) refl),
          )
      | inr other ↦ inr (
        (λ p.
            let one =
              (equality_id-eq_iff a b d e n m read read' (equality_id-named a d n read made)
                  (equality_id-named b e m read' made')).1
                p in
            ground (arith, eq_iff n m)),
        rw (first, second, other) refl,
      )
    ]

-- Where the four ids can be read, for a next Order with a new function on the same structure, the
-- pairing check passes exactly when the function ids differ and the structure ids agree; otherwise
-- it raises.
pub assert_order_pairing_lineage_cases :
    (prior next : Json) (f0 f1 s0 s1 : String)
    → require_stem_id prior "function" ≡ ok f0
    → require_stem_id next "function" ≡ ok f1
    → require_stem_id prior "structure" ≡ ok s0
    → require_stem_id next "structure" ≡ ok s1
    → (f0 ≢ f1)
        × (s0 ≡ s1)
        × (assert_order_pairing_lineage prior next "mutated" "carried"
            ≡ ok (record { function_0 = f0; function_1 = f1; structure_0 = s0; structure_1 = s1 }))
      ⊎ ((f0 ≡ f1) ⊎ (s0 ≢ s1))
        × (assert_order_pairing_lineage prior next "mutated" "carried" ≡ err assertion_error)
unfolding assert_order_pairing_lineage
assert_order_pairing_lineage_cases prior next f0 f1 s0 s1 a b c d = elim (Bool-cases (f0 == f1)) [
  | inl same ↦ inr (inl ((eq_iff f0 f1).0 same), rw (a, b, c, d, same) refl)
  | inr new ↦ elim (Bool-cases (s0 == s1)) [
    | inl kept ↦ inl (
      (λ e. ground (arith, eq_iff f0 f1)),
      (eq_iff s0 s1).0 kept,
      rw (a, b, c, d, new, kept) refl,
    )
    | inr moved ↦ inr (inr (λ e. ground (arith, eq_iff s0 s1)), rw (a, b, c, d, new, moved) refl)
  ]
]

-- Where their ids and seeds can be read, two runs are accepted as distinct exactly when their
-- output data, their seeds and their random seeds all differ; otherwise the check raises.
pub assert_distinct_executions_cases :
    (i0 i1 s0 s1 : Json) (d0 d1 : String) (x0 x1 r0 r1 : Json)
    → require_stem_id i0 "data" ≡ ok d0
    → require_stem_id i1 "data" ≡ ok d1
    → require_seed_field s0 "seed" ≡ ok x0
    → require_seed_field s1 "seed" ≡ ok x1
    → require_seed_field s0 "rng_seed" ≡ ok r0
    → require_seed_field s1 "rng_seed" ≡ ok r1
    → (d0 ≢ d1)
        × (equal x0 x1 ≡ false)
        × (equal r0 r1 ≡ false)
        × (assert_distinct_executions i0 i1 s0 s1
            ≡ ok (record { data_0 = d0; data_1 = d1; seed_0 = x0; seed_1 = x1 }))
      ⊎ ((d0 ≡ d1) ⊎ (equal x0 x1 ≡ true) ⊎ (equal r0 r1 ≡ true))
        × (assert_distinct_executions i0 i1 s0 s1 ≡ err assertion_error)
unfolding assert_distinct_executions
assert_distinct_executions_cases i0 i1 s0 s1 d0 d1 x0 x1 r0 r1 a b c d e f =
    elim (Bool-cases (d0 == d1)) [
      | inl same ↦ inr (inl ((eq_iff d0 d1).0 same), rw (a, b, same) refl)
      | inr new ↦ elim (Bool-cases (equal x0 x1)) [
        | inl seeds ↦ inr (inr (inl seeds), rw (a, b, c, d, e, f, new, seeds) refl)
        | inr fresh ↦ elim (Bool-cases (equal r0 r1)) [
          | inl rngs ↦ inr (inr (inr rngs), rw (a, b, c, d, e, f, new, fresh, rngs) refl)
          | inr random ↦ inl (
            (λ p. ground (arith, eq_iff d0 d1)),
            fresh,
            random,
            rw (a, b, c, d, e, f, new, fresh, random) refl,
          )
        ]
      ]
    ]
