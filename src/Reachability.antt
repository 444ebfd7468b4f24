-- ===== src/Reachability.antt =====
-- registry/reachability.py: the addresses of a registry record can be fetched. `http_get_json` and
-- `http_get` fetch over HTTP; an exception of theirs is an assertion error here.
pub mod Claims
use cats.Prelude.{
  String, Bool, true, false, not, ◌&&◌, Option, none, some, List, [], ◌∷◌, ◌==◌, if◌then◌else◌,
}
use cats.Result.{Result, ok, err, assertion_error, attribute_error, require, ◌>>=◌, ◌>>◌}
use cats.Digest.Codec.{Bytes}
use cats.Json.{Json, Fields, str, get, truthy, text, as_dict, equal, dict_or_empty, ◌or◌}
use cats.Lineage.{require_dict}
use cats.ExecutionBind.{HttpGetJson}

abbrev pub HttpGetBytes : Type 0
HttpGetBytes = String → Result Bytes

unfoldable pub field_text : String → Json → Option String
field_text key source = elim (as_dict source) [ none ↦ none | some fs ↦ text (get key fs) ]

-- `record.get('locators') or {}`, which may be no dict
unfoldable pub locators_field : Fields → Json
locators_field record' = get "locators" record' or Json.obj Fields.end

unfoldable pub uri_from_record : Fields → String → Option String
unfolding field_text locators_field
uri_from_record record' key = elim (field_text key (Json.obj record')) [
  | none ↦ field_text key (locators_field record')
  | some uri ↦ some uri
]

-- an exception of the fetch is raised as an assertion error
unfoldable pub reached {ℓ} : {A : Type ℓ} → Result A → Result A
reached (ok a) = ok a
reached (err e) = err assertion_error

unfoldable pub require_json_object : HttpGetJson → String → Result Fields
unfolding reached
require_json_object http_get_json uri = do body ← reached (http_get_json uri); require_dict body

unfoldable pub is_filled : Bytes → Bool
is_filled [] = false
is_filled (_ ∷ _) = true

unfoldable pub require_bytes : HttpGetBytes → String → Result (Unit {0})
unfolding reached is_filled
require_bytes http_get uri = do
  body ← reached (http_get uri)
  require (is_filled body) assertion_error

unfoldable pub require_json : HttpGetJson → String → Result (Unit {0})
unfolding reached
require_json http_get_json uri = do body ← reached (http_get_json uri); ok tt

-- bytes where they can be fetched, else a JSON document
unfoldable pub require_payload : HttpGetJson → Option HttpGetBytes → String → Result (Unit {0})
unfolding require_bytes require_json
require_payload http_get_json none uri = require_json http_get_json uri
require_payload http_get_json (some http_get) uri = require_bytes http_get uri

-- The address of the BOM, if the record has one. Where the record and its locators have none that is
-- a text, the code reads the locators again: a dict gives nothing new, and a value that is no dict
-- raises.
unfoldable pub bom_ldp_uri_of : Fields → Result (Option String)
unfolding uri_from_record
bom_ldp_uri_of record' = elim (uri_from_record record' "bom_ldp_uri") [
  | none ↦ (do locs ← dict_or_empty (get "locators" record'); ok (text (get "bom_ldp_uri" locs)))
  | some uri ↦ ok (some uri)
]

-- the BOM names the Invoice of the record, where both name one
unfoldable pub invoice_agrees : Fields → Option String → Bool
invoice_agrees bom none = true
invoice_agrees bom (some inv_claim) =
    if truthy (get "invoice_uri" bom) then equal (get "invoice_uri" bom) (str inv_claim) else true

unfoldable pub check_bom : HttpGetJson → Fields → Option String → Result (Unit {0})
unfolding require_json_object invoice_agrees uri_from_record
check_bom http_get_json record' none = ok tt
check_bom http_get_json record' (some uri) = do
  bom ← require_json_object http_get_json uri
  require (invoice_agrees bom (uri_from_record record' "invoice_uri")) assertion_error

unfoldable pub when_given : Option String → (String → Result (Unit {0})) → Result (Unit {0})
when_given none check = ok tt
when_given (some uri) check = check uri

unfoldable pub check_object : HttpGetJson → String → Result (Unit {0})
unfolding require_json_object
check_object http_get_json uri = do fs ← require_json_object http_get_json uri; ok tt

unfoldable pub assert_registry_claims_reachable :
    Fields → HttpGetJson → Option HttpGetBytes → Result (Unit {0})
assert_registry_claims_reachable record' http_get_json http_get = do
  bom_ldp_uri ← bom_ldp_uri_of record'
  check_bom http_get_json record' bom_ldp_uri
  when_given (uri_from_record record' "invoice_uri") (check_object http_get_json)
  when_given (uri_from_record record' "order_uri") (check_object http_get_json)
  when_given (uri_from_record record' "data_uri") (require_payload http_get_json http_get)
  when_given (uri_from_record record' "seed_uri") (require_payload http_get_json http_get)
  when_given (uri_from_record record' "ingress_data_uri") (require_payload http_get_json http_get)
  when_given (uri_from_record record' "integration_data_uri")
      (require_payload http_get_json http_get)
  when_given (uri_from_record record' "data_stages_uri") (require_json http_get_json)
