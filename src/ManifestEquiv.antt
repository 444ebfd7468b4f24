-- ===== src/ManifestEquiv.antt =====
-- cas/manifest_equiv.py: directory manifests with the same entries, and the stage lineage of a BOM
-- whose hops agree. `http_get_json` fetches a document over HTTP.
pub mod Chain
use cats.Prelude.{
  String, Bool, true, false, ◌&&◌, Option, none, some, List, [], ◌∷◌, ◌==◌, if◌then◌else◌,
}
use cats.Result.{Result, ok, err, assertion_error, require, ◌>>=◌, ◌>>◌}
use cats.Json.{Json, Fields, arr, obj, nil, get, truthy, text, as_dict, elements, equal}
use cats.ExecutionBind.{HttpGetJson, require_uri}
use cats.Lineage.{require_dict}

-- the entries of a manifest, or the whole of another document
unfoldable pub fingerprint : Json → Json
fingerprint (obj fs) = elim (as_dict (get "entries" fs)) [
  | none ↦ obj fs
  | some entries ↦ obj entries
]
fingerprint item = item

unfoldable pub fingerprints : List Json → List Json
unfolding fingerprint
fingerprints [] = []
fingerprints (item ∷ items) = fingerprint item ∷ fingerprints items

unfoldable pub entries_fingerprints : Json → List Json
unfolding fingerprints
entries_fingerprints (arr items) = fingerprints (elements items)
entries_fingerprints item = fingerprints (item ∷ [])

unfoldable pub equal_lists : List Json → List Json → Bool
equal_lists [] [] = true
equal_lists (x ∷ xs) (y ∷ ys) = equal x y && equal_lists xs ys
equal_lists _ _ = false

-- the documents at the two addresses have the same entries
unfoldable pub same_entries : HttpGetJson → String → String → Result (Unit {0})
unfolding entries_fingerprints equal_lists
same_entries http_get_json a b = do
  body_a ← http_get_json a
  body_b ← http_get_json b
  require (equal_lists (entries_fingerprints body_a) (entries_fingerprints body_b)) assertion_error

unfoldable pub assert_directory_manifest_equiv : HttpGetJson → Json → Json → Result (Unit {0})
unfolding same_entries
assert_directory_manifest_equiv http_get_json uri_a uri_b = do
  a ← require_uri uri_a
  b ← require_uri uri_b
  if a == b then ok tt else same_entries http_get_json a b

-- the two addresses of an entity that names what it was derived from
unfoldable pub hop : Fields → Fields → Result (String × String)
hop entity derived = do
  derived_uri ← require_uri (get "@id" derived)
  entity_uri ← require_uri (get "@id" entity)
  ok (entity_uri, derived_uri)

-- an entity of the lineage with what it was derived from, where it has both
unfoldable pub hop_of : Json → Option (Fields × Fields)
hop_of entity = elim (as_dict entity) [
  | none ↦ none
  | some e ↦ elim (as_dict (get "prov:wasDerivedFrom" e)) [ none ↦ none | some d ↦ some (e, d) ]
]

-- the first hop compares an entity with what it was derived from, a later one this with the entity before
unfoldable pub check_hop : HttpGetJson → Option String → String → String → Result (Unit {0})
unfolding assert_directory_manifest_equiv
check_hop http_get_json none entity_uri derived_uri =
    assert_directory_manifest_equiv http_get_json (Json.str entity_uri) (Json.str derived_uri)
check_hop http_get_json (some prev_uri) entity_uri derived_uri =
    assert_directory_manifest_equiv http_get_json (Json.str derived_uri) (Json.str prev_uri)

-- one entity of the lineage: the address that the next hop goes back to
unfoldable pub check_entity :
    HttpGetJson → Option String → Option (Fields × Fields) → Result (Option String)
unfolding hop check_hop
check_entity http_get_json prev none = ok prev
check_entity http_get_json prev (some (entity, derived)) = do
  (entity_uri, derived_uri) ← hop entity derived
  check_hop http_get_json prev entity_uri derived_uri
  ok (some entity_uri)

unfoldable pub check_hops : HttpGetJson → Option String → List Json → Result (Unit {0})
unfolding hop_of check_entity
check_hops http_get_json prev [] = ok tt
check_hops http_get_json prev (entity ∷ lineage) = do
  prev_uri ← check_entity http_get_json prev (hop_of entity)
  check_hops http_get_json prev_uri lineage

-- `value or []`, which must be a list
unfoldable pub list_or_empty : Json → Result (List Json)
list_or_empty (arr xs) = ok (elements xs)
list_or_empty v = if truthy v then err assertion_error else ok []

unfoldable pub assert_stage_lineage_payload_equiv : HttpGetJson → Json → Result (Unit {0})
unfolding check_hops list_or_empty
assert_stage_lineage_payload_equiv http_get_json bom = do
  fs ← require_dict bom
  lineage ← list_or_empty (get "stageLineage" fs)
  check_hops http_get_json none lineage
