-- ===== src/AsExecuted/Bind.antt =====
-- The lineage entity that the check of an executed Structure returns.
use cats.Prelude.{
  String, ◌≡◌, refl, sym, ap, ◌∙◌, ◌⊎◌, inl, inr, false, not, ◌||◌, Option, none, some, List, [],
  ◌∷◌, arith, Option-cases,
}
use cats.Result.{Result, ok, err, assertion_error, require, >>=-eq-ok}
use cats.Json.{Json, Items, Fields, arr, obj, nil, item, get, as_dict, is_dict, ◌or◌}
use cats.Lineage.{require_dict}
use cats.ExecutionBind.{HttpGetJson, entity_agrees, fetch_payload, require_uri, is_given, has_fetch}
use cats.AsExecuted.{
  keep_agreeing, matches, is_observation, last_observation, require_entity, lineage_items,
  sae_lineage_entity, fetch_entity, assert_structure_as_executed_bind,
}

-- the entity is one of the list
abbrev pub In : Fields → List Fields → Type 0
In entity [] = ⊥
In entity (other ∷ entities) = (entity ≡ other) ⊎ In entity entities

-- the entity is one of the lineage
abbrev pub Listed : Fields → Items → Type 0
Listed entity nil = ⊥
Listed entity (item first lineage) = (first ≡ obj entity) ⊎ Listed entity lineage

keep_agreeing-ok :
    (entity : Fields) (agrees : Result (Unit {0})) (rest : Result (List Fields))
    (found : List Fields)
    → keep_agreeing entity agrees rest ≡ ok found
    → ((agrees ≡ ok tt) × (fs : List Fields) × (rest ≡ ok fs) × (found ≡ entity ∷ fs))
      ⊎ (rest ≡ ok found)
unfolding keep_agreeing
keep_agreeing-ok entity (ok _) rest found done =
    let (fs, h1, h2) = >>=-eq-ok rest _ done in inl (refl, fs, h1, ground arith)
keep_agreeing-ok entity (err assertion_error) rest found done = inr done
keep_agreeing-ok entity (err _) rest found done = ground arith

matches-In :
    (uri : String) (lineage : Items) (found : List Fields)
    → matches uri lineage ≡ ok found
    → (entity : Fields) → In entity found
    → Listed entity lineage × (entity_agrees entity uri ≡ ok tt)
unfolding matches
matches-In uri nil found done entity in_found =
    let none_found : found ≡ [] = ground arith in absurd (rw none_found at in_found)
matches-In uri (item (obj first) lineage) found done entity in_found =
    elim (keep_agreeing-ok first (entity_agrees first uri) (matches uri lineage) found done) [
      | inl (agrees, fs, rest, made) ↦ elim (rw made at in_found) [
        | inl same ↦ (inl (ap obj (sym same)), rw same agrees)
        | inr later ↦
            let (listed, agreed) = matches-In uri lineage fs rest entity later in
            (inr listed, agreed)
      ]
      | inr rest ↦
          let (listed, agreed) = matches-In uri lineage found rest entity in_found in
          (inr listed, agreed)
    ]
matches-In uri (item _ lineage) found done entity in_found =
    let (listed, agreed) = matches-In uri lineage found done entity in_found in (inr listed, agreed)

last_observation-In :
    (found : List Fields) (entity : Fields)
    → last_observation found ≡ some entity
    → In entity found × (is_dict (get "prov:wasDerivedFrom" entity) ≡ false)
unfolding last_observation is_observation
last_observation-In [] entity done = ground arith
last_observation-In (first ∷ found) entity done = elim (Option-cases (last_observation found)) [
  | inl e ↦ let here = rw e at done in (inl (ground arith), ground arith)
  | inr (later, e) ↦
      let same : some later ≡ some entity = rw e at done in
      let (in_found, plain) = last_observation-In found entity (e ∙ same) in (inr in_found, plain)
]

require_entity-some :
    (found : Option Fields) (entity : Fields)
    → require_entity found ≡ ok entity
    → found ≡ some entity
unfolding require_entity
require_entity-some none entity done = ground arith
require_entity-some (some first) entity done = ground arith

lineage_items-arr : (v : Json) (lineage : Items) → lineage_items v ≡ ok lineage → v ≡ arr lineage
unfolding lineage_items
lineage_items-arr (arr entities) lineage done = ground arith
lineage_items-arr _ lineage done = ground arith

-- what the entity must be for the check to return it
pub record IsObserved (bom : Fields) (uri : String) (entity : Fields) : Type 0 where
  pub lineage : Items
  pub in_bom : (get "stageLineage" bom or arr nil) ≡ arr lineage
  pub listed : Listed entity lineage
  pub agrees : entity_agrees entity uri ≡ ok tt
  pub underived : is_dict (get "prov:wasDerivedFrom" entity) ≡ false

-- the payload of the entity, where a fetch function is given
abbrev pub IsFetched : Option HttpGetJson → Option Json → Fields → Type 0
IsFetched none expected entity = expected ≡ none
IsFetched (some http_get_json) expected entity =
    (payload : Fields) × (fetch_payload entity http_get_json expected ≡ ok payload)

sae_lineage_entity-IsObserved :
    (bom : Fields) (uri : String) (entity : Fields)
    → sae_lineage_entity (obj bom) uri ≡ ok entity
    → IsObserved bom uri entity
unfolding sae_lineage_entity require_dict as_dict
sae_lineage_entity-IsObserved bom uri entity done =
    let (lineage, h1, h2) = >>=-eq-ok (lineage_items (get "stageLineage" bom or arr nil)) _ done in
    let (found, h3, h4) = >>=-eq-ok (matches uri lineage) _ h2 in
    let last = require_entity-some (last_observation found) entity h4 in
    let (in_found, plain) = last_observation-In found entity last in
    let (listed, agreed) = matches-In uri lineage found h3 entity in_found in
    record {
      lineage = lineage;
      in_bom = lineage_items-arr (get "stageLineage" bom or arr nil) lineage h1;
      listed = listed;
      agrees = agreed;
      underived = plain;
    }

fetch_entity-IsFetched :
    (http_get_json : Option HttpGetJson) (expected : Option Json) (entity : Fields)
    → require (not (is_given expected) || has_fetch http_get_json) assertion_error ≡ ok tt
    → fetch_entity http_get_json expected entity ≡ ok tt
    → IsFetched http_get_json expected entity
unfolding fetch_entity is_given has_fetch
fetch_entity-IsFetched none none entity may done = refl
fetch_entity-IsFetched none (some v) entity may done = ground arith
fetch_entity-IsFetched (some http_get_json) expected entity may done =
    let (payload, h, _) = >>=-eq-ok (fetch_payload entity http_get_json expected) _ done in
    (payload, h)

-- For a BOM that is a dict, the bind check of an executed Structure returns only a dict of the
-- stage lineage of the BOM that agrees with the address and is not derived from another, whose
-- payload was fetched, where a fetch function is given.
pub structure_bind-IsObserved :
    (bom : Fields) (structure_uri : Json) (http_get_json : Option HttpGetJson)
    (expected : Option Json) (entity : Fields)
    → assert_structure_as_executed_bind (obj bom) structure_uri http_get_json expected ≡ ok entity
    → (uri : String) × (require_uri structure_uri ≡ ok uri)
      × IsObserved bom uri entity
      × IsFetched http_get_json expected entity
unfolding assert_structure_as_executed_bind
structure_bind-IsObserved bom structure_uri http_get_json expected entity done =
    let (uri, given, h1) = >>=-eq-ok (require_uri structure_uri) _ done in
    let (_, may, h2) =
      >>=-eq-ok (require (not (is_given expected) || has_fetch http_get_json) assertion_error) _
        h1 in
    let (made, found, h3) = >>=-eq-ok (sae_lineage_entity (obj bom) uri) _ h2 in
    let (_, fetched, h4) = >>=-eq-ok (fetch_entity http_get_json expected made) _ h3 in
    let same : entity ≡ made = ground arith in
    (
      uri,
      given,
      rw same (sae_lineage_entity-IsObserved bom uri made found),
      rw same (fetch_entity-IsFetched http_get_json expected made may fetched),
    )
