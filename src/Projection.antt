-- ===== src/Projection.antt =====
-- registry/projection.py: whether the registry and the locator index hold all that a run leaves
-- there.
pub mod Ids
pub mod Complete
use mathlib.Core.Option
use cats.Prelude.{
  String, Bool, true, false, not, ◌&&◌, Option, none, some, List, [], ◌∷◌, ◌==◌, if◌then◌else◌,
}
use cats.Result.{Result, ok, err, assertion_error, attribute_error, require, catch, ◌>>=◌, ◌>>◌}
use cats.Text.{strip, is_empty}
use cats.Digest.{from_ni, is_ni_or_digest}
use cats.Json.{Json, Fields, str, null, get, ◌or◌, text, truthy, dict_or_empty}
use cats.Locators.{LocatorIndex, lookup_uris}
use cats.Registry.{BomRegistry, get_record, lookup_bom, lookup_by_order}

unfoldable pub same_id : String → String → Result Bool
same_id left right =
    if is_ni_or_digest left && is_ni_or_digest right
    then (do l ← from_ni left; r ← from_ni right; ok (l == r))
    else ok (strip left == strip right)

unfoldable pub ids_contain : List String → String → Result Bool
unfolding same_id
ids_contain [] needle = ok false
ids_contain (item ∷ haystack) needle = do
  same ← same_id item needle
  let rest = ids_contain haystack needle
  if same then ok true else rest

-- an id that is used as a text: `.strip()` of another value raises
unfoldable pub as_text : Json → Result String
as_text (str s) = ok s
as_text _ = err attribute_error

unfoldable pub require_record : Option Fields → Result Fields
require_record none = err assertion_error
require_record (some record') = ok record'

-- a value that is a text and not blank
unfoldable pub is_text : Json → Bool
is_text v = elim (text v) [ none ↦ false | some _ ↦ true ]

abbrev pub stage_keys : List (String × String)
stage_keys =
    ("invoice", "invoice_cid")
    ∷ ("seed", "seed_cid")
    ∷ ("ingress_data", "ingress_data_cid")
    ∷ ("integration_data", "integration_data_cid")
    ∷ ("data_stages", "data_stages_cid")
    ∷ ("structure_as_executed", "structure_as_executed_cid")
    ∷ ("runtime_sbom", "runtime_sbom_cid")
    ∷ ("function_sbom", "function_sbom_cid")
    ∷ ("structure_sbom", "structure_sbom_cid")
    ∷ ("input_data_sbom", "input_data_sbom_cid")
    ∷ ("log", "log_cid")
    ∷ []

unfoldable pub ids_of : Fields → List (String × String) → List Json
ids_of record' [] = []
ids_of record' ((key, legacy) ∷ keys) =
    (get key record' or get legacy record') ∷ ids_of record' keys

unfoldable pub is_stage_id : Json → Bool
is_stage_id (str s) = not (is_empty s) && is_ni_or_digest s
is_stage_id _ = false

unfoldable pub is_filled : List String → Bool
is_filled [] = false
is_filled (_ ∷ _) = true

-- the index has an address for the id
unfoldable pub has_locators : LocatorIndex → Json → Result Bool
unfolding as_text is_filled
has_locators index stage_id = do
  id ← as_text stage_id
  uris ← lookup_uris id index
  ok (is_filled uris)

unfoldable pub check_stages : LocatorIndex → List Json → Result (Unit {0})
check_stages index [] = ok tt
check_stages index (stage_id ∷ stage_ids) =
    let rest = check_stages index stage_ids in
    if is_stage_id stage_id
    then (do found ← has_locators index stage_id; require found assertion_error; rest)
    else rest

-- the digests that the record names, where the caller gives none
unfoldable pub stages_of : String → Json → Json → Fields → Option (List Json) → List Json
unfolding ids_of
stages_of bom_id data_id order_id record' none =
    str bom_id ∷ data_id ∷ order_id ∷ ids_of record' stage_keys
stages_of bom_id data_id order_id record' (some stage_ids) = stage_ids

-- the addresses that the record must have
unfoldable pub check_addresses : Fields → Result (Unit {0})
unfolding is_text
check_addresses record' = do
  locs ← dict_or_empty (get "locators" record')
  require (is_text (get "bom_ldp_uri" locs)) assertion_error
  require (is_text (get "invoice_uri" record' or get "invoice_uri" locs)) assertion_error

-- the BOM stands in both lists
unfoldable pub check_indexes : BomRegistry → String → Json → Json → Result (Unit {0})
unfolding ids_contain as_text
check_indexes registry bom_id data_id order_id = do
  data' ← as_text data_id
  by_data ← lookup_bom data' registry
  in_data ← ids_contain by_data bom_id
  require in_data assertion_error
  order ← as_text order_id
  by_order ← lookup_by_order order registry
  in_order ← ids_contain by_order bom_id
  require in_order assertion_error

unfoldable pub assert_handoff_projection_complete :
    BomRegistry → LocatorIndex → String → Bool → Option (List Json) → Result Fields
unfolding require_record check_addresses check_indexes stages_of check_stages
assert_handoff_projection_complete registry index bom_id require_stage_locators stage_ids = do
  found ← get_record bom_id registry
  record' ← require_record found
  let data_id = get "data" record' or get "data_cid" record'
  let order_id = get "order" record' or get "order_cid" record'
  require (truthy data_id && truthy order_id) assertion_error
  check_addresses record'
  check_indexes registry bom_id data_id order_id
  (if require_stage_locators
      then check_stages index (stages_of bom_id data_id order_id record' stage_ids)
      else ok tt)
  ok record'
