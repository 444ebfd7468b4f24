-- ===== src/Parity.antt =====
-- registry/parity.py: the registry on disk and the node's HTTP routes give the same answers.
-- `http_get_json` fetches a path of the node.
pub mod Index
pub mod Sound
use cats.Prelude.{
  String, Bool, true, false, not, ◌&&◌, ◌||◌, Option, none, some, List, [], ◌∷◌, ◌==◌,
  if◌then◌else◌,
}
use cats.Result.{
  Result, ok, err, Error, assertion_error, attribute_error, runtime_error, type_error,
  registry_error, ambiguous_bom, require, ◌>>=◌, ◌>>◌,
}
use cats.Text.{strip, ◌<>◌}
use cats.TextList.{elem, same_set}
use cats.Digest.{from_ni, is_ni_or_digest}
use cats.Json.{
  Json, Fields, str, arr, obj, null, bool, num, get, truthy, text, as_dict, elements, array, equal,
  ◌or◌, dict_or_empty,
}
use cats.Locators.{LocatorIndex, lookup_uris}
use cats.Registry.{
  BomRegistry, get_record, lookup_order, lookup_bom, lookup_by_order, resolve_unique_bom,
}
use cats.Registry.Project.{project_record}
use cats.ExecutionBind.{HttpGetJson}
use cats.Projection.{same_id, ids_contain, as_text}

unfoldable pub registry_path_key : String → Result String
registry_path_key content_id =
    let value = strip content_id in if is_ni_or_digest value then from_ni value else ok value

-- the answer of a route, whose fields are read: another value has no `.get`
unfoldable pub body_fields : Json → Result Fields
body_fields body = elim (as_dict body) [ none ↦ err attribute_error | some fs ↦ ok fs ]

unfoldable pub texts : List String → List Json
texts [] = []
texts (s ∷ ss) = str s ∷ texts ss

unfoldable pub require_id : Json → Result String
require_id (str s) = elim (text (str s)) [ none ↦ err assertion_error | some _ ↦ ok s ]
require_id _ = err assertion_error

unfoldable pub assert_registry_bom_parity : Fields → Fields → String → Result (Unit {0})
unfolding require_id
assert_registry_bom_parity record' http_bom bom_id = do
  http_id ← require_id (get "content_id" http_bom)
  same ← same_id http_id bom_id
  require same assertion_error
  projected ← project_record record'
  require (equal (obj projected) (obj http_bom)) assertion_error

-- the same path key or the same id
unfoldable pub names_same : String → String → Result Bool
unfolding registry_path_key
names_same http_key id = do
  a ← registry_path_key http_key
  b ← registry_path_key id
  if a == b then ok true else same_id http_key id

unfoldable pub check_key : Json → String → Result (Unit {0})
unfolding names_same
check_key (str http_key) id = elim (text (str http_key)) [
  | none ↦ ok tt
  | some _ ↦ (do same ← names_same http_key id; require same assertion_error)
]
check_key _ id = ok tt

unfoldable pub assert_registry_by_data_parity : List String → Fields → String → Result (Unit {0})
unfolding texts check_key
assert_registry_by_data_parity bom_ids http_by_data data_id = do
  require (equal (get "bom_ids" http_by_data) (array (texts bom_ids))) assertion_error
  check_key (get "content_id" http_by_data) data_id

unfoldable pub check_listed : List String → Option String → Result (Unit {0})
check_listed bom_ids none = ok tt
check_listed bom_ids (some bom_id) = do
  found ← ids_contain bom_ids bom_id
  require found assertion_error

unfoldable pub assert_registry_by_order_parity :
    List String → Fields → String → Option String → Result (Unit {0})
unfolding texts check_key check_listed
assert_registry_by_order_parity bom_ids http_by_order order_id bom_id = do
  require (equal (get "bom_ids" http_by_order) (array (texts bom_ids))) assertion_error
  check_key (get "content_id" http_by_order) order_id
  check_listed bom_ids bom_id

-- the `uri` of each entry that has one
unfoldable pub entry_uris : List Json → Result (List Json)
unfolding body_fields
entry_uris [] = ok []
entry_uris (entry ∷ entries) = do
  fs ← body_fields entry
  rest ← entry_uris entries
  ok (if truthy (get "uri" fs) then get "uri" fs ∷ rest else rest)

-- the entries of `value or []`: what else can be iterated has entries without `.get`
unfoldable pub entries_of : Json → Result (List Json)
entries_of (arr xs) = ok (elements xs)
entries_of (bool true) = err type_error
entries_of (num n) = if truthy (num n) then err type_error else ok []
entries_of v = if truthy v then err attribute_error else ok []

-- The addresses as a set of texts: an unhashable one raises, and another value is in no set of texts.
unfoldable pub set_of_texts : List Json → Result (Option (List String))
set_of_texts [] = ok (some [])
set_of_texts (arr _ ∷ values) = err type_error
set_of_texts (obj _ ∷ values) = err type_error
set_of_texts (str s ∷ values) = do
  rest ← set_of_texts values
  ok (elim rest [ none ↦ none | some ts ↦ some (s ∷ ts) ])
set_of_texts (_ ∷ values) = do rest ← set_of_texts values; ok none

unfoldable pub same_uris : List String → Option (List String) → Bool
same_uris disk_uris none = false
same_uris disk_uris (some http_uris) = same_set disk_uris http_uris

unfoldable pub assert_locator_index_parity : List String → Fields → Result (Unit {0})
unfolding entries_of entry_uris set_of_texts same_uris
assert_locator_index_parity disk_uris http_by_content = do
  entries ← entries_of (get "locators" http_by_content)
  http_uris ← entry_uris entries
  http_set ← set_of_texts http_uris
  require (same_uris disk_uris http_set) assertion_error

-- the unique BOM, or `bom_id` where more than one, or none, may be listed
unfoldable pub unique_or : Result String → Bool → List String → String → Result String
unique_or (ok unique) allow_ambiguous bom_ids bom_id = ok unique
unique_or (err registry_error) true bom_ids bom_id = do
  found ← ids_contain bom_ids bom_id
  require found assertion_error
  ok bom_id
unique_or (err ambiguous_bom) true bom_ids bom_id = do
  found ← ids_contain bom_ids bom_id
  require found assertion_error
  ok bom_id
unique_or (err e) _ bom_ids bom_id = err e

-- the unique BOM is `bom_id`, or this is at least listed where that is allowed
unfoldable pub check_unique : String → Bool → List String → String → Result (Unit {0})
check_unique unique_bom allow_ambiguous bom_ids bom_id = do
  same ← same_id unique_bom bom_id
  listed ←
      (if same then ok true else if allow_ambiguous then ids_contain bom_ids bom_id else ok false)
  require listed assertion_error

-- what the four checks compare
pub record Answers : Type 0 where
  pub record_ : Fields
  pub data_id : String
  pub order_id : String
  pub bom_ids_by_data : List String
  pub unique_bom : String
  pub boms_for_order : List String
  pub data_locators : List String

unfoldable pub require_found : Option Fields → Result Fields
require_found none = err runtime_error
require_found (some record') = ok record'

-- the Order of the record, else what `lookup_order` finds
unfoldable pub order_id_of : BomRegistry → String → Fields → Result Json
order_id_of registry bom_id record' =
    let own = get "order" record' or get "order_cid" record' in
    if truthy own
    then ok own
    else (do found ← lookup_order bom_id registry; ok (elim found [ none ↦ null | some s ↦ str s ]))

-- the answers from disk
unfoldable pub disk_answers : BomRegistry → LocatorIndex → String → Bool → Result Answers
unfolding require_found order_id_of unique_or check_unique
disk_answers registry index bom_id allow_ambiguous = do
  found ← get_record bom_id registry
  record' ← require_found found
  let data_value = get "data" record' or get "data_cid" record'
  order_value ← order_id_of registry bom_id record'
  require (truthy data_value && truthy order_value) runtime_error
  data_id ← as_text data_value
  bom_ids_by_data ← lookup_bom data_id registry
  unique_bom ←
      unique_or (resolve_unique_bom data_id registry) allow_ambiguous bom_ids_by_data bom_id
  check_unique unique_bom allow_ambiguous bom_ids_by_data bom_id
  order_id ← as_text order_value
  boms_for_order ← lookup_by_order order_id registry
  data_locators ← lookup_uris data_id index
  ok (record {
    record_ = record';
    data_id = data_id;
    order_id = order_id;
    bom_ids_by_data = bom_ids_by_data;
    unique_bom = unique_bom;
    boms_for_order = boms_for_order;
    data_locators = data_locators;
  })
