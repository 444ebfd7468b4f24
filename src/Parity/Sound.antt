-- ===== src/Parity/Sound.antt =====
-- The lists and the addresses that pass the parity check are the same on disk and over HTTP.
use cats.Prelude.{
  String, ◌≡◌, refl, sym, ap, ◌∙◌, inl, inr, Bool, true, false, Option, none, some, List, [], ◌∷◌,
  ◌==◌, eq_iff, arith, Bool-cases,
}
use cats.Result.{require, ok, >>=-eq-ok, require-eq-ok}
use cats.TextList.{elem, all_in, same_set}
use cats.Json.{
  Json, Items, Fields, str, arr, nil, item, array, items, get, equal, equal_items, as_dict,
}
use cats.Parity.{
  require_id, texts, assert_registry_by_data_parity, assert_registry_by_order_parity,
  assert_locator_index_parity, assert_registry_bom_parity, body_fields, disk_answers, Answers,
  entries_of, entry_uris, set_of_texts, same_uris,
}
use cats.Parity.Index.{Served, fetch_answers, compare_answers, assert_registry_index_parity}
use cats.Registry.{BomRegistry}
use cats.Registry.Project.{project_record}
use cats.Projection.{same_id}
use cats.Locators.{LocatorIndex}
use cats.ExecutionBind.{HttpGetJson}

-- a value that equals a text is that text
equal-str : (v : Json) (s : String) → equal v (str s) ≡ true → v ≡ str s
unfolding equal
equal-str (str t) s h = ap str ((eq_iff t s).0 h)
equal-str Json.null s h = ground arith
equal-str (Json.bool true) s h = ground arith
equal-str (Json.bool false) s h = ground arith
equal-str (Json.num n) s h = ground arith
equal-str (arr xs) s h = ground arith
equal-str (Json.obj fs) s h = ground arith

equal_items-texts :
    (xs : Items) (l : List String) → equal_items xs (items (texts l)) ≡ true → xs ≡ items (texts l)
unfolding equal_items items texts
equal_items-texts nil [] h = refl
equal_items-texts nil (s ∷ l) h = ground arith
equal_items-texts (item x xs) [] h = ground arith
equal_items-texts (item x xs) (s ∷ l) h =
    let here : equal x (str s) ≡ true = ground arith in
    let there : equal_items xs (items (texts l)) ≡ true = ground arith in
    rw (equal-str x s here, equal_items-texts xs l there) refl

equal-texts : (v : Json) (l : List String) → equal v (array (texts l)) ≡ true → v ≡ array (texts l)
unfolding equal
equal-texts (arr xs) l h = ap arr (equal_items-texts xs l h)
equal-texts Json.null l h = ground arith
equal-texts (Json.bool true) l h = ground arith
equal-texts (Json.bool false) l h = ground arith
equal-texts (Json.num n) l h = ground arith
equal-texts (str s) l h = ground arith
equal-texts (Json.obj fs) l h = ground arith

-- A by-data answer passes only if it serves the list of the registry, in its order.
pub by_data_parity-same :
    (l : List String) (served : Fields) (id : String)
    → assert_registry_by_data_parity l served id ≡ ok tt
    → get "bom_ids" served ≡ array (texts l)
unfolding assert_registry_by_data_parity
by_data_parity-same l served id h = equal-texts (get "bom_ids" served) l (ground arith)

all_in-elem :
    (l m : List String) (s : String) → all_in l m ≡ true → elem s l ≡ true → elem s m ≡ true
unfolding all_in elem
all_in-elem [] m s h e = ground arith
all_in-elem (t ∷ l) m s h e = elim (Bool-cases (t == s)) [
  | inl same ↦ rw (sym ((eq_iff t s).0 same)) (ground arith)
  | inr other ↦ all_in-elem l m s (ground arith) (ground arith)
]

same_set-elem : (l m : List String) (s : String) → same_set l m ≡ true → elem s l ≡ elem s m
unfolding same_set
same_set-elem l m s h = ground (arith, all_in-elem l m s, all_in-elem m l s)

-- A by-order answer passes only if it serves the list of the registry.
by_order_parity-same :
    (l : List String) (served : Fields) (id : String) (bom_id : Option String)
    → assert_registry_by_order_parity l served id bom_id ≡ ok tt
    → get "bom_ids" served ≡ array (texts l)
unfolding assert_registry_by_order_parity
by_order_parity-same l served id bom_id h = equal-texts (get "bom_ids" served) l (ground arith)

-- the addresses that an answer serves
pub record Serves (served : Fields) (uris : List String) : Type 0 where
  pub entries : List Json
  pub values : List Json
  pub listed : entries_of (get "locators" served) ≡ ok entries
  pub read : entry_uris entries ≡ ok values
  pub as_set : set_of_texts values ≡ ok (some uris)

same_uris-some :
    (disk : List String) (found : Option (List String))
    → same_uris disk found ≡ true
    → (uris : List String) × (found ≡ some uris) × (same_set disk uris ≡ true)
unfolding same_uris
same_uris-some disk none h = ground arith
same_uris-some disk (some uris) h = (uris, refl, h)

-- A by-content answer passes only if it serves the addresses of the index, in any order.
locator_index_parity-same :
    (disk : List String) (served : Fields)
    → assert_locator_index_parity disk served ≡ ok tt
    → (uris : List String) × Serves served uris × ((s : String) → elem s disk ≡ elem s uris)
unfolding assert_locator_index_parity
locator_index_parity-same disk served h =
    let (entries, e1, h1) = >>=-eq-ok (entries_of (get "locators" served)) _ h in
    let (values, e2, h2) = >>=-eq-ok (entry_uris entries) _ h1 in
    let (found, e3, h3) = >>=-eq-ok (set_of_texts values) _ h2 in
    let (uris, e4, same) = same_uris-some disk found (ground arith) in
    (
      uris,
      record {
        entries = entries;
        values = values;
        listed = e1;
        read = e2;
        as_set = e3 ∙ ap (λ x. ok x) e4;
      },
      λ s. same_set-elem disk uris s same,
    )

body_fields-obj : (v : Json) (fs : Fields) → body_fields v ≡ ok fs → v ≡ Json.obj fs
unfolding body_fields as_dict
body_fields-obj (Json.obj gs) fs h = ground arith
body_fields-obj (arr xs) fs h = ground arith
body_fields-obj Json.null fs h = ground arith
body_fields-obj (Json.bool b) fs h = ground arith
body_fields-obj (Json.num n) fs h = ground arith
body_fields-obj (str s) fs h = ground arith

-- The four answers of the node hold what the registry and the index answer: the BOM is the projected
-- record, the lists are the same, and the addresses are the same in any order.
pub record Agrees (a : Answers) (s : Served) : Type 0 where
  pub projected : Fields
  pub bom : Fields
  pub by_data : Fields
  pub by_order : Fields
  pub by_content : Fields
  pub uris : List String
  pub bom_body : s.bom ≡ Json.obj bom
  pub bom_projected : project_record a.record_ ≡ ok projected
  pub bom_equal : equal (Json.obj projected) (Json.obj bom) ≡ true
  pub data_body : s.by_data ≡ Json.obj by_data
  pub data_list : get "bom_ids" by_data ≡ array (texts a.bom_ids_by_data)
  pub order_body : s.by_order ≡ Json.obj by_order
  pub order_list : get "bom_ids" by_order ≡ array (texts a.boms_for_order)
  pub content_body : s.by_content ≡ Json.obj by_content
  pub content_uris : Serves by_content uris
  pub same_uris_ : (x : String) → elem x a.data_locators ≡ elem x uris

bom_parity-same :
    (record' http_bom : Fields) (bom_id : String)
    → assert_registry_bom_parity record' http_bom bom_id ≡ ok tt
    → (projected : Fields) × (project_record record' ≡ ok projected)
      × (equal (Json.obj projected) (Json.obj http_bom) ≡ true)
unfolding assert_registry_bom_parity
bom_parity-same record' http_bom bom_id h =
    let (http_id, _, h1) = >>=-eq-ok (require_id (get "content_id" http_bom)) _ h in
    let (same, _, h2) = >>=-eq-ok (same_id http_id bom_id) _ h1 in
    let (_, _, h3) = >>=-eq-ok (require same _) _ h2 in
    let (projected, e, h4) = >>=-eq-ok (project_record record') _ h3 in
    (projected, e, require-eq-ok (equal (Json.obj projected) (Json.obj http_bom)) _ h4)

compare_answers-Agrees :
    (bom_id : String) (a : Answers) (s : Served) → compare_answers bom_id a s ≡ ok tt → Agrees a s
unfolding compare_answers
compare_answers-Agrees bom_id a s h =
    let (b, eb, h1) = >>=-eq-ok (body_fields s.bom) _ h in
    let (_, pb, h2) = >>=-eq-ok (assert_registry_bom_parity a.record_ b bom_id) _ h1 in
    let (d, ed, h3) = >>=-eq-ok (body_fields s.by_data) _ h2 in
    let (_, pd, h4) =
      >>=-eq-ok (assert_registry_by_data_parity a.bom_ids_by_data d a.data_id) _ h3 in
    let (o, eo, h5) = >>=-eq-ok (body_fields s.by_order) _ h4 in
    let (_, po, h6) =
      >>=-eq-ok (assert_registry_by_order_parity a.boms_for_order o a.order_id (some bom_id)) _
        h5 in
    let (c, ec, h7) = >>=-eq-ok (body_fields s.by_content) _ h6 in
    let (projected, ep, equal_p) = bom_parity-same a.record_ b bom_id pb in
    let (uris, serves, same) = locator_index_parity-same a.data_locators c h7 in
    record {
      projected = projected;
      bom = b;
      bom_body = body_fields-obj s.bom b eb;
      bom_projected = ep;
      bom_equal = equal_p;
      by_data = d;
      by_order = o;
      by_content = c;
      uris = uris;
      data_body = body_fields-obj s.by_data d ed;
      data_list = by_data_parity-same a.bom_ids_by_data d a.data_id pd;
      order_body = body_fields-obj s.by_order o eo;
      order_list = by_order_parity-same a.boms_for_order o a.order_id (some bom_id) po;
      content_body = body_fields-obj s.by_content c ec;
      content_uris = serves;
      same_uris_ = same;
    }

-- what holds of two answers holds of equal ones
retold :
    (registry : BomRegistry) (index : LocatorIndex) (bom_id : String) (http_get_json : HttpGetJson)
    (allow_ambiguous : Bool) (a' : Answers) (s' : Served) (a : Answers) (s : Served)
    → a' ≡ a
    → s' ≡ s
    → (disk_answers registry index bom_id allow_ambiguous ≡ ok a')
      × (fetch_answers http_get_json bom_id a' ≡ ok s')
      × Agrees a' s'
    → (disk_answers registry index bom_id allow_ambiguous ≡ ok a)
      × (fetch_answers http_get_json bom_id a ≡ ok s)
      × Agrees a s
retold registry index bom_id http_get_json allow_ambiguous a' s' a s same_a same_s facts =
    rw (sym same_a, sym same_s) facts

-- The parity check returns the answers of the disk and of the node only if these agree.
pub index_parity-Agrees :
    (registry : BomRegistry) (index : LocatorIndex) (bom_id : String) (http_get_json : HttpGetJson)
    (allow_ambiguous : Bool) (a : Answers) (s : Served)
    → assert_registry_index_parity registry index bom_id http_get_json allow_ambiguous ≡ ok (a, s)
    → (disk_answers registry index bom_id allow_ambiguous ≡ ok a)
      × (fetch_answers http_get_json bom_id a ≡ ok s)
      × Agrees a s
unfolding assert_registry_index_parity
index_parity-Agrees registry index bom_id http_get_json allow_ambiguous a s h =
    let (a', ea, h1) = >>=-eq-ok (disk_answers registry index bom_id allow_ambiguous) _ h in
    let (s', es, h2) = >>=-eq-ok (fetch_answers http_get_json bom_id a') _ h1 in
    let (_, compared, h3) = >>=-eq-ok (compare_answers bom_id a' s') _ h2 in
    let same_a : a' ≡ a = ground arith in
    let same_s : s' ≡ s = ground arith in
    retold registry index bom_id http_get_json allow_ambiguous a' s' a s same_a same_s
      (ea, es, compare_answers-Agrees bom_id a' s' compared)
