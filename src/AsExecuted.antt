-- ===== src/AsExecuted.antt =====
-- registry/as_executed.py: the Structure that was executed, as the BOM's lineage and the snapshots of
-- the plant show it.
pub mod Bind
use cats.Prelude.{
  String, Bool, true, false, not, ◌||◌, Option, none, some, List, [], ◌∷◌, ◌==◌, if◌then◌else◌,
}
use cats.Result.{Result, ok, err, assertion_error, require, ◌>>=◌, ◌>>◌}
use cats.Json.{
  Json, Items, Fields, null, bool, num, str, arr, obj, nil, item, get, text, is_dict, has_key, ◌or◌,
}
use cats.Lineage.{require_dict}
use cats.ExecutionBind.{
  HttpGetJson, entity_agrees, fetch_payload, ref_token, require_uri, is_given, has_fetch,
}
use cats.Handoff.{require_str_slots, require_none}

abbrev pub plant_as_executed_keys : List String
plant_as_executed_keys =
    "applied_structure_id" ∷ "kind_cluster_name" ∷ "kubeconfig_context" ∷ "ray_dashboard_address"
    ∷ "ray_release_name" ∷ "rebuilt" ∷ []

unfoldable pub assert_structure_as_executed_slots : Json → Result (Unit {0})
assert_structure_as_executed_slots structure_as_executed = do
  fs ← require_dict structure_as_executed
  require_str_slots fs ("plant_as_executed_uri" ∷ "infrastructure_as_executed_uri" ∷ [])

unfoldable pub assert_infrastructure_as_executed_slots : Json → Result (Unit {0})
assert_infrastructure_as_executed_slots infrastructure_as_executed = do
  fs ← require_dict infrastructure_as_executed
  require_str_slots fs ("object_store_as_executed_uri" ∷ [])

-- An entity that agrees is kept, and one that does not is left out; another exception goes on.
unfoldable pub keep_agreeing :
    Fields → Result (Unit {0}) → Result (List Fields) → Result (List Fields)
keep_agreeing entity (ok _) rest = do entities ← rest; ok (entity ∷ entities)
keep_agreeing entity (err assertion_error) rest = rest
keep_agreeing entity (err e) rest = err e

unfoldable pub matches : String → Items → Result (List Fields)
unfolding keep_agreeing
matches uri nil = ok []
matches uri (item (obj entity) lineage) =
    keep_agreeing entity (entity_agrees entity uri) (matches uri lineage)
matches uri (item _ lineage) = matches uri lineage

unfoldable pub is_observation : Fields → Bool
is_observation entity = not (is_dict (get "prov:wasDerivedFrom" entity))

-- the last of the entities that are not derived from another
unfoldable pub last_observation : List Fields → Option Fields
unfolding is_observation
last_observation [] = none
last_observation (entity ∷ entities) =
    let later = last_observation entities in
    elim later [
      | some found ↦ some found
      | none ↦ if is_observation entity then some entity else none
    ]

unfoldable pub require_entity : Option Fields → Result Fields
require_entity none = err assertion_error
require_entity (some entity) = ok entity

unfoldable pub lineage_items : Json → Result Items
lineage_items (arr entities) = ok entities
lineage_items _ = err assertion_error

unfoldable pub sae_lineage_entity : Json → String → Result Fields
unfolding lineage_items matches last_observation require_entity
sae_lineage_entity document structure_as_executed_uri = do
  bom ← require_dict document
  lineage ← lineage_items (get "stageLineage" bom or arr nil)
  found ← matches structure_as_executed_uri lineage
  require_entity (last_observation found)

unfoldable pub fetch_entity : Option HttpGetJson → Option Json → Fields → Result (Unit {0})
fetch_entity none expected entity = ok tt
fetch_entity (some http_get_json) expected entity = do
  payload ← fetch_payload entity http_get_json expected
  ok tt

unfoldable pub assert_structure_as_executed_bind :
    Json → Json → Option HttpGetJson → Option Json → Result Fields
unfolding sae_lineage_entity fetch_entity is_given has_fetch
assert_structure_as_executed_bind bom structure_as_executed_uri http_get_json expected = do
  sae_uri ← require_uri structure_as_executed_uri
  require (not (is_given expected) || has_fetch http_get_json) assertion_error
  entity ← sae_lineage_entity bom sae_uri
  fetch_entity http_get_json expected entity
  ok entity

unfoldable pub missing_keys : Fields → List String → List String
missing_keys plant [] = []
missing_keys plant (key ∷ keys) =
    let rest = missing_keys plant keys in if has_key key plant then rest else key ∷ rest

unfoldable pub is_bool : Json → Bool
is_bool (bool b) = true
is_bool _ = false

-- the id that was applied, against that of the Order
unfoldable pub check_structure_id : Fields → Option String → Result (Unit {0})
check_structure_id plant none = ok tt
check_structure_id plant (some structure_id) = do
  applied ← require_uri (get "applied_structure_id" plant)
  a ← ref_token applied
  b ← ref_token structure_id
  require (a == b) assertion_error

unfoldable pub assert_plant_as_executed_snapshot : Json → Option String → Result (Unit {0})
unfolding missing_keys is_bool check_structure_id
assert_plant_as_executed_snapshot document structure_id = do
  plant ← require_dict document
  require_none (missing_keys plant plant_as_executed_keys)
  require (is_bool (get "rebuilt" plant)) assertion_error
  check_structure_id plant structure_id
