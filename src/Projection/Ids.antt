-- ===== src/Projection/Ids.antt =====
-- Lists that contain an id, and records that have an address.
use cats.Prelude.{
  String, ◌≡◌, ap, ◌∙◌, ◌⊎◌, inl, inr, true, false, ◌&&◌, some, List, [], ◌∷◌, eq_iff, eq_refl,
  arith, Bool-cases, Option-cases,
}
use cats.Result.{ok, require, >>=-eq-ok, require-eq-ok}
use cats.Text.{strip}
use cats.TextList.{elem}
use cats.Digest.{from_ni, is_ni_or_digest}
use cats.Json.{Json, Items, Fields, obj, get, text, truthy, dict_or_empty, ◌or◌}
use cats.Projection.{same_id, ids_contain, is_text, check_addresses}

-- two ids spell one digest, or are the same text where not both are names or digests
pub data SameId : String → String → Type 0 where
  one_digest :
      (left right d : String) → from_ni left ≡ ok d → from_ni right ≡ ok d → SameId left right
  one_text :
      (left right : String)
      → (is_ni_or_digest left && is_ni_or_digest right) ≡ false
      → strip left ≡ strip right
      → SameId left right

same_id-SameId : (left right : String) → same_id left right ≡ ok true → SameId left right
unfolding same_id
same_id-SameId left right h = elim (Bool-cases (is_ni_or_digest left && is_ni_or_digest right)) [
  | inl named ↦
      let (l, read, h1) = >>=-eq-ok (from_ni left) _ (rw named at h) in
      let (r, read', h2) = >>=-eq-ok (from_ni right) _ h1 in
      let same : l ≡ r = ground (arith, eq_iff l r) in
      one_digest left right r (read ∙ ap ok same) read'
  | inr other ↦
      let h1 = rw other at h in
      let same : strip left ≡ strip right = ground (arith, eq_iff (strip left) (strip right)) in
      one_text left right other same
]

-- an item of the list is the id
abbrev pub Holds : List String → String → Type 0
Holds l needle = (item : String) × (elem item l ≡ true) × SameId item needle

Holds-later :
    (first : String) (l : List String) (needle : String) → Holds l needle → Holds (first ∷ l) needle
unfolding elem
Holds-later first l needle (item, listed, same) = (item, ground arith, same)

pub ids_contain-Holds :
    (l : List String) (needle : String) → ids_contain l needle ≡ ok true → Holds l needle
unfolding ids_contain elem
ids_contain-Holds [] needle h = ground arith
ids_contain-Holds (first ∷ l) needle h =
    let (same, compared, h1) = >>=-eq-ok (same_id first needle) _ h in
    elim (Bool-cases same) [
      | inl found ↦ (
        first,
        ground (arith, eq_refl first),
        same_id-SameId first needle (compared ∙ ap ok found),
      )
      | inr other ↦ Holds-later first l needle (ids_contain-Holds l needle (rw other at h1))
    ]

is_text-some : (v : Json) → is_text v ≡ true → (s : String) × (text v ≡ some s)
unfolding is_text
is_text-some v h = elim (Option-cases (text v)) [
  | inl nothing ↦ let h1 = rw (is_text, nothing) at h in ground arith
  | inr given ↦ given
]

-- what is read of a value as a dict is the value, or nothing
pub dict_or_empty-cases :
    (v : Json) (locs : Fields) → dict_or_empty v ≡ ok locs → (v ≡ obj locs) ⊎ (locs ≡ Fields.end)
unfolding dict_or_empty truthy
dict_or_empty-cases (obj fs) locs h = inl (ground arith)
dict_or_empty-cases Json.null locs h = inr (ground arith)
dict_or_empty-cases (Json.bool b) locs h = inr (ground arith)
dict_or_empty-cases (Json.num n) locs h = inr (ground arith)
dict_or_empty-cases (Json.str s) locs h = inr (ground arith)
dict_or_empty-cases (Json.arr Items.nil) locs h = inr (ground arith)
dict_or_empty-cases (Json.arr (Items.item x xs)) locs h = inr (ground arith)

locators-obj :
    (v : Json) (locs : Fields) (key uri : String)
    → dict_or_empty v ≡ ok locs
    → text (get key locs) ≡ some uri
    → v ≡ obj locs
unfolding get text
locators-obj v locs key uri h given = elim (dict_or_empty-cases v locs h) [
  | inl same ↦ same
  | inr nothing ↦ let h1 = rw nothing at given in ground arith
]

-- the addresses of a record: its locators have one of the BOM, and it or they have one of the
-- Invoice
pub record HasAddresses (record' : Fields) : Type 0 where
  pub locs : Fields
  pub bom_ldp_uri : String
  pub invoice_uri : String
  pub record_locators : get "locators" record' ≡ obj locs
  pub has_bom_uri : text (get "bom_ldp_uri" locs) ≡ some bom_ldp_uri
  pub has_invoice_uri :
      text (get "invoice_uri" record' or get "invoice_uri" locs) ≡ some invoice_uri

pub check_addresses-HasAddresses :
    (record' : Fields) → check_addresses record' ≡ ok tt → HasAddresses record'
unfolding check_addresses
check_addresses-HasAddresses record' h =
    let (locs, is_dict, h1) = >>=-eq-ok (dict_or_empty (get "locators" record')) _ h in
    let (_, first, second) = >>=-eq-ok (require (is_text (get "bom_ldp_uri" locs)) _) _ h1 in
    let (bom, has_bom) = is_text-some (get "bom_ldp_uri" locs) (require-eq-ok _ _ first) in
    let (inv, has_inv) =
      is_text-some (get "invoice_uri" record' or get "invoice_uri" locs)
        (require-eq-ok _ _ second) in
    record {
      locs = locs;
      bom_ldp_uri = bom;
      invoice_uri = inv;
      record_locators =
          locators-obj (get "locators" record') locs "bom_ldp_uri" bom is_dict has_bom;
      has_bom_uri = has_bom;
      has_invoice_uri = has_inv;
    }
