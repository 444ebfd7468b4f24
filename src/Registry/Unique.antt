-- ===== src/Registry/Unique.antt =====
-- Which BOM of its data a record that was put makes the only one.
use cats.Prelude.{
  String, ◌≡◌, ◌≢◌, refl, ◌⊎◌, inl, inr, List, [], ◌∷◌, ◌==◌, eq_iff, eq_refl, arith, Bool-cases,
}
use cats.Result.{Result, ok, err, ambiguous_bom}
use cats.TextList.{elem}
use cats.Digest.{content_id_fs_key}
use cats.Json.{Fields}
use cats.Locators.Index.{added}
use cats.Registry.{BomRegistry, put, lookup_bom, sole, resolve_unique_bom}
use cats.Registry.Index.{Keys, lookup_bom-put}

-- the BOM is the only one exactly where no other was listed
Resolved : List String → String → Result String → Type 0
Resolved l b resolved =
    ((l ≡ []) ⊎ (l ≡ b ∷ [])) × (resolved ≡ ok b)
    ⊎ (l ≢ []) × (l ≢ b ∷ []) × (resolved ≡ err ambiguous_bom)

sole-added : (b : String) (l : List String) → Resolved l b (sole (added b l))
unfolding Resolved sole elem
sole-added b [] = inl (inl refl, refl)
sole-added b (c ∷ []) = elim (Bool-cases (c == b)) [
  | inl same ↦ let one = (eq_iff c b).0 same in inl (inr (ground arith), rw (same, one) refl)
  | inr other ↦ inr ((λ e. ground arith), (λ e. ground (arith, eq_iff c b)), rw other refl)
]
sole-added b (c ∷ d ∷ l) = elim (Bool-cases (elem b (c ∷ d ∷ l))) [
  | inl listed ↦ inr ((λ e. ground arith), (λ e. ground arith), rw (elem, listed) refl)
  | inr new ↦ inr ((λ e. ground arith), (λ e. ground arith), rw (elem, new) refl)
]

-- After a successful `put`, `resolve_unique_bom` of the data of the record, under each name of
-- them, gives the BOM exactly where no BOM or only this one was listed for the data before;
-- otherwise it raises that the BOM is ambiguous.
pub resolve_unique_bom-put :
    (record' : Fields) (ks : Keys record') (r r' : BomRegistry) (x : String) (l : List String)
    → put record' r ≡ ok r'
    → content_id_fs_key x ≡ ok ks.data_keys.key
    → lookup_bom x r ≡ ok l
    → ((l ≡ []) ⊎ (l ≡ ks.bom.canonical ∷ [])) × (resolve_unique_bom x r' ≡ ok ks.bom.canonical)
      ⊎ (l ≢ []) × (l ≢ ks.bom.canonical ∷ []) × (resolve_unique_bom x r' ≡ err ambiguous_bom)
unfolding resolve_unique_bom Resolved
resolve_unique_bom-put record' ks r r' x l done key was =
    let now : lookup_bom x r' ≡ ok (added ks.bom.canonical l) =
      rw (eq_refl ks.data_keys.key) at
        (lookup_bom-put record' ks r r' done x ks.data_keys.key l key was) in
    rw now (sole-added ks.bom.canonical l)
