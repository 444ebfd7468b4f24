-- ===== src/Projection/Complete.antt =====
-- What a projection that passes the check holds.
use cats.Prelude.{
  String, ◌≡◌, refl, sym, ap, ◌∙◌, inl, inr, Bool, true, false, ◌&&◌, Option, none, some, List, [],
  ◌∷◌, arith, if◌then◌else◌, Bool-cases,
}
use cats.Result.{ok, require, >>=-eq-ok, require-eq-ok}
use cats.Json.{Json, Fields, str, get, truthy, ◌or◌}
use cats.Locators.{LocatorIndex, lookup_uris}
use cats.Registry.{BomRegistry, get_record, lookup_bom, lookup_by_order}
use cats.Projection.Ids.{Holds, ids_contain-Holds, HasAddresses, check_addresses-HasAddresses}
use cats.Projection.{
  ids_contain, as_text, require_record, is_stage_id, is_filled, has_locators, check_stages,
  stages_of, check_addresses, check_indexes, assert_handoff_projection_complete,
}

-- Each stage id of the list that is a digest has an address in the index.
pub data Located (index : LocatorIndex) : List Json → Type 0 where
  none_left : Located index []
  other :
      (stage_id : Json) (l : List Json)
      → is_stage_id stage_id ≡ false
      → Located index l
      → Located index (stage_id ∷ l)
  digest :
      (id uri : String) (uris : List String) (l : List Json)
      → lookup_uris id index ≡ ok (uri ∷ uris)
      → Located index l
      → Located index (str id ∷ l)

is_filled-cases :
    (uris : List String)
    → is_filled uris ≡ true
    → (uri : String) × (rest : List String) × (uris ≡ uri ∷ rest)
unfolding is_filled
is_filled-cases [] h = ground arith
is_filled-cases (uri ∷ rest) h = (uri, rest, refl)

has_locators-cases :
    (index : LocatorIndex) (id : String)
    → has_locators index (str id) ≡ ok true
    → (uri : String) × (uris : List String) × (lookup_uris id index ≡ ok (uri ∷ uris))
unfolding has_locators
has_locators-cases index id h =
    let (uris, found, h1) = >>=-eq-ok (lookup_uris id index) _ h in
    let (uri, rest, e) = is_filled-cases uris (ground arith) in
    (uri, rest, found ∙ ap (λ l. ok l) e)

check_stages-Located :
    (index : LocatorIndex) (l : List Json) → check_stages index l ≡ ok tt → Located index l
unfolding check_stages is_stage_id
check_stages-Located index [] h = none_left
check_stages-Located index (str id ∷ l) h = elim (Bool-cases (is_stage_id (str id))) [
  | inl given ↦
      let (found, e, h1) = >>=-eq-ok (has_locators index (str id)) _ (rw given at h) in
      let (_, filled, h2) = >>=-eq-ok (require found _) _ h1 in
      let here : has_locators index (str id) ≡ ok true = ground arith in
      let (uri, uris, listed) = has_locators-cases index id here in
      digest id uri uris l listed (check_stages-Located index l h2)
  | inr blank ↦ other (str id) l blank (check_stages-Located index l (rw blank at h))
]
check_stages-Located index (Json.null ∷ l) h =
    other Json.null l refl (check_stages-Located index l h)
check_stages-Located index ((Json.bool b) ∷ l) h =
    other (Json.bool b) l refl (check_stages-Located index l h)
check_stages-Located index ((Json.num n) ∷ l) h =
    other (Json.num n) l refl (check_stages-Located index l h)
check_stages-Located index ((Json.arr xs) ∷ l) h =
    other (Json.arr xs) l refl (check_stages-Located index l h)
check_stages-Located index ((Json.obj fs) ∷ l) h =
    other (Json.obj fs) l refl (check_stages-Located index l h)

pub as_text-str : (v : Json) (s : String) → as_text v ≡ ok s → v ≡ str s
unfolding as_text
as_text-str (str t) s h = ground arith
as_text-str Json.null s h = ground arith
as_text-str (Json.bool b) s h = ground arith
as_text-str (Json.num n) s h = ground arith
as_text-str (Json.arr xs) s h = ground arith
as_text-str (Json.obj fs) s h = ground arith

found-some : (o : Option Fields) (r : Fields) → require_record o ≡ ok r → o ≡ some r
unfolding require_record
found-some none r h = ground arith
found-some (some s) r h = ground arith

-- what the check of the two lists shows
pub record Indexed (registry : BomRegistry) (bom_id : String) (data_value order_value : Json)
    : Type 0 where
  pub data_id : String
  pub order_id : String
  pub data_boms : List String
  pub order_boms : List String
  pub has_data : data_value ≡ str data_id
  pub has_order : order_value ≡ str order_id
  pub by_data : lookup_bom data_id registry ≡ ok data_boms
  pub in_data : Holds data_boms bom_id
  pub by_order : lookup_by_order order_id registry ≡ ok order_boms
  pub in_order : Holds order_boms bom_id

check_indexes-Indexed :
    (registry : BomRegistry) (bom_id : String) (data_value order_value : Json)
    → check_indexes registry bom_id data_value order_value ≡ ok tt
    → Indexed registry bom_id data_value order_value
unfolding check_indexes
check_indexes-Indexed registry bom_id data_value order_value indexed =
    let (d, is_d, i1) = >>=-eq-ok (as_text data_value) _ indexed in
    let (ds, by_d, i2) = >>=-eq-ok (lookup_bom d registry) _ i1 in
    let (cd, in_d, i3) = >>=-eq-ok (ids_contain ds bom_id) _ i2 in
    let (ud, rd, i4) = >>=-eq-ok (require cd _) _ i3 in
    let (n, is_n, i5) = >>=-eq-ok (as_text order_value) _ i4 in
    let (ns, by_n, i6) = >>=-eq-ok (lookup_by_order n registry) _ i5 in
    let (cn, in_n, i7) = >>=-eq-ok (ids_contain ns bom_id) _ i6 in
    record {
      data_id = d;
      order_id = n;
      data_boms = ds;
      order_boms = ns;
      has_data = as_text-str data_value d is_d;
      has_order = as_text-str order_value n is_n;
      by_data = by_d;
      in_data = ids_contain-Holds ds bom_id (in_d ∙ ap ok (require-eq-ok cd _ rd));
      by_order = by_n;
      in_order = ids_contain-Holds ns bom_id (in_n ∙ ap ok (require-eq-ok cn _ i7));
    }

staged-Located :
    (index : LocatorIndex) (stages : Bool) (l : List Json)
    → (if stages then check_stages index l else ok tt) ≡ ok tt
    → stages ≡ true
    → Located index l
staged-Located index true l h e = check_stages-Located index l h
staged-Located index false l h e = ground arith

-- the record of the BOM is there, has its data, its Order and its addresses, and the lists of the two
-- hold the BOM
pub record IsComplete (registry : BomRegistry) (bom_id : String) (record' : Fields) : Type 0 where
  pub found : get_record bom_id registry ≡ ok (some record')
  pub data_given : truthy (get "data" record' or get "data_cid" record') ≡ true
  pub order_given : truthy (get "order" record' or get "order_cid" record') ≡ true
  pub addressed : HasAddresses record'
  pub indexed :
      Indexed registry bom_id
        (get "data" record' or get "data_cid" record')
        (get "order" record' or get "order_cid" record')

abbrev pub stages_of_record : String → Fields → Option (List Json) → List Json
stages_of_record bom_id record' stage_ids =
    stages_of bom_id (get "data" record' or get "data_cid" record')
      (get "order" record' or get "order_cid" record') record' stage_ids

projection-parts :
    (registry : BomRegistry) (index : LocatorIndex) (bom_id : String) (stages : Bool)
    (stage_ids : Option (List Json)) (record' : Fields)
    → assert_handoff_projection_complete registry index bom_id stages stage_ids ≡ ok record'
    → IsComplete registry bom_id record'
      × (stages ≡ true → Located index (stages_of_record bom_id record' stage_ids))
unfolding assert_handoff_projection_complete
projection-parts registry index bom_id stages stage_ids record' h =
    let (o, found, h1) = >>=-eq-ok (get_record bom_id registry) _ h in
    let (r, is_some, h2) = >>=-eq-ok (require_record o) _ h1 in
    let data_value = get "data" r or get "data_cid" r in
    let order_value = get "order" r or get "order_cid" r in
    let (_, given, h3) = >>=-eq-ok (require (truthy data_value && truthy order_value) _) _ h2 in
    let both = require-eq-ok (truthy data_value && truthy order_value) _ given in
    let (_, addressed, h4) = >>=-eq-ok (check_addresses r) _ h3 in
    let (_, indexed, h5) = >>=-eq-ok (check_indexes registry bom_id data_value order_value) _ h4 in
    let (_, staged, h6) =
      >>=-eq-ok
        (if stages
          then check_stages index (stages_of bom_id data_value order_value r stage_ids)
          else ok tt)
        _ h5 in
    let complete : IsComplete registry bom_id r = record {
      found = found ∙ ap (λ x. ok x) (found-some o r is_some);
      data_given = ground arith;
      order_given = ground arith;
      addressed = check_addresses-HasAddresses r addressed;
      indexed = check_indexes-Indexed registry bom_id data_value order_value indexed;
    } in
    let same_record : r ≡ record' = ground arith in
    rw (sym same_record) (complete, staged-Located index stages _ staged)

-- The check of a projection returns only the record of the BOM, and only if it has its data and
-- its Order, locators with an address of the BOM, and an address of the Invoice of its own or in
-- these, and the lists of its data and of its Order hold an id that spells the digest of the BOM,
-- or, where one of the two is neither a name nor a digest, is the same text, white space at the
-- ends aside.
pub projection-IsComplete :
    (registry : BomRegistry) (index : LocatorIndex) (bom_id : String) (stages : Bool)
    (stage_ids : Option (List Json)) (record' : Fields)
    → assert_handoff_projection_complete registry index bom_id stages stage_ids ≡ ok record'
    → IsComplete registry bom_id record'
projection-IsComplete registry index bom_id stages stage_ids record' h =
    (projection-parts registry index bom_id stages stage_ids record' h).0

-- Where the stages are asked for, the check returns the record only if each stage id that is a
-- digest has an address in the index.
pub projection-Located :
    (registry : BomRegistry) (index : LocatorIndex) (bom_id : String)
    (stage_ids : Option (List Json)) (record' : Fields)
    → assert_handoff_projection_complete registry index bom_id true stage_ids ≡ ok record'
    → Located index (stages_of_record bom_id record' stage_ids)
projection-Located registry index bom_id stage_ids record' h =
    (projection-parts registry index bom_id true stage_ids record' h).1 refl
