-- ===== src/Flatten/Cycle.antt =====
-- cas/flatten_refs.py: an address that leads back to itself.
use cats.Prelude.{
  ℕ, zero, suc, ◌+◌, String, ◌≡◌, refl, ap, inl, inr, true, false, Option, some, List, [], ◌∷◌,
  arith, Bool-cases, ◌==◌, eq_iff, eq_refl,
}
use cats.Result.{ok}
use cats.Text
use cats.Text.{◌<>◌, drop_suffix}
use cats.TextList.{elem}
use cats.Json.{Json, str, obj, end, field, text, set}
use cats.Flatten.{FetchRef, allowed, slot, cons_slot, skip, uri_by_stem, walk, place, flatten}

length-uri : (s : String) → Text.length (s <> "_uri") ≡ Text.length s + 4
unfolding Text.length ◌<>◌
length-uri String.[] = refl
length-uri (String.◌∷◌ c s) = ground (arith, length-uri s)

drop_suffix-uri : (stem : String) → drop_suffix (stem <> "_uri") "_uri" ≡ some stem
unfolding drop_suffix ◌<>◌ Text.length
drop_suffix-uri String.[] = refl
drop_suffix-uri (String.◌∷◌ c s) = elim (Bool-cases ((String.◌∷◌ c (s <> "_uri")) == "_uri")) [
  | inl same ↦
      let long : suc (Text.length (s <> "_uri")) ≡ 4 =
        ap Text.length ((eq_iff (String.◌∷◌ c (s <> "_uri")) "_uri").0 same) in
      ground (arith, length-uri s)
  | inr longer ↦ rw (drop_suffix, longer, drop_suffix-uri s) refl
]

-- a document that is one reference
abbrev pub reference : String → String → Json
reference stem uri = obj (field (stem <> "_uri") (str uri) end)

module _ (fetch : FetchRef) (allow : Option (List String)) (uri : String)
    (filled : text (str uri) ≡ some uri) where
  only_slot :
      (stem : String)
      → allowed allow stem ≡ true
      → uri_by_stem allow (field (stem <> "_uri") (str uri) end) ≡ (stem, uri) ∷ []
  unfolding uri_by_stem slot cons_slot
  only_slot stem fits = rw (drop_suffix-uri stem, filled, fits) refl

  -- a reference to an address that was visited stays
  flatten_old :
      (depth : ℕ) (visited : List String) (stem : String)
      → allowed allow stem ≡ true
      → elem uri visited ≡ true
      → flatten fetch allow depth visited (reference stem uri) ≡ ok (reference stem uri)
  unfolding flatten walk skip place set
  flatten_old zero visited stem fits old = rw (only_slot stem fits, eq_refl (stem <> "_uri")) refl
  flatten_old (suc depth) visited stem fits old =
      rw (only_slot stem fits, eq_refl (stem <> "_uri"), old) refl

  -- a reference to a new address is replaced by what it leads to
  flatten_new :
      (depth : ℕ) (visited : List String) (stem : String) (payload value : Json)
      → allowed allow stem ≡ true
      → elem uri visited ≡ false
      → fetch stem uri ≡ ok payload
      → flatten fetch allow depth (uri ∷ visited) payload ≡ ok value
      → flatten fetch allow (suc depth) visited (reference stem uri)
        ≡ ok (obj (field stem value end))
  unfolding flatten walk skip place set
  flatten_new depth visited stem payload value fits new fetched inner =
      rw (only_slot stem fits, eq_refl (stem <> "_uri"), new, fetched, inner) refl

  -- A document that is one reference, whose address is stripped and not blank, was not visited and
  -- leads to a reference to the same address, is opened once at every depth but zero, where the
  -- two stems are allowed: its stem gets the document that was fetched, in which the address
  -- stays.
  pub flatten_cycle :
      (depth : ℕ) (visited : List String) (stem inner : String)
      → allowed allow stem ≡ true
      → allowed allow inner ≡ true
      → elem uri visited ≡ false
      → fetch stem uri ≡ ok (reference inner uri)
      → flatten fetch allow (suc depth) visited (reference stem uri)
        ≡ ok (obj (field stem (reference inner uri) end))
  unfolding elem
  flatten_cycle depth visited stem inner fits fits' new fetched =
      let old : elem uri (uri ∷ visited) ≡ true = ground (arith, eq_refl uri) in
      flatten_new depth visited stem (reference inner uri) (reference inner uri) fits new fetched
        (flatten_old depth (uri ∷ visited) inner fits' old)
