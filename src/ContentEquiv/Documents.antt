-- ===== src/ContentEquiv/Documents.antt =====
-- registry/content_equiv.py: the checks of the addresses that a BOM, an Invoice and an Order hold.
use cats.Prelude.{
  ℕ, suc, String, Bool, true, false, Option, none, some, List, [], ◌∷◌, ◌==◌, if◌then◌else◌,
}
use cats.Result.{Result, ok, err, assertion_error, ◌>>=◌, ◌>>◌}
use cats.Text.{◌<>◌, decimal}
use cats.TextList.{elem}
use cats.Digest.Codec.{Bytes}
use cats.ContentRef.{is_http_uri}
use cats.Json.{Json, Items, Fields, str, arr, obj, nil, item, get, text, ◌or◌}
use cats.Lineage.{require_dict}
use cats.ContentEquiv.{
  FetchKw, Payload, payload_bytes, payload_json, assert_fetch_equiv, without_record,
}
use cats.ContentEquiv

abbrev pub function_slots : List String
function_slots = "infrafunction_source" ∷ "infrafunction" ∷ "process_source" ∷ "process" ∷ []

abbrev pub structure_slots : List String
structure_slots = "infrastructure" ∷ "plant" ∷ "root" ∷ []

abbrev pub data_stages_nest : List String
data_stages_nest = "egressed_data" ∷ "integrated_data" ∷ "ingressed_data" ∷ []

abbrev pub runtime_sbom_nest : List String
runtime_sbom_nest = "cyclonedx" ∷ "syft" ∷ []

abbrev pub input_data_sbom_nest : List String
input_data_sbom_nest = "dcat" ∷ "spdx" ∷ []

unfoldable pub uri_slot : Fields → String → Option String
uri_slot fs stem = text (get (stem <> "_uri") fs)

-- a check for its errors
unfoldable pub checked {ℓ} : {A : Type ℓ} → Result A → Result (Unit {0})
checked r = do _ ← r; ok tt

unfoldable pub check_each : (String → Result (Unit {0})) → List String → Result (Unit {0})
check_each check [] = ok tt
check_each check (stem ∷ stems) = do check stem; check_each check stems

-- a payload that is a JSON object
unfoldable pub require_object : Payload → Result Fields
require_object (payload_json v) = require_dict v
require_object (payload_bytes b) = err assertion_error

module _ (utf8_encode : String → Result Bytes) (utf8_decode : Bytes → Option String)
    (json_dumps : Json → Result String) (json_loads : String → Option Json) where
  abbrev fetch_equiv : FetchKw → String → String → Option String → Option Bool → Result Payload
  fetch_equiv kw = assert_fetch_equiv utf8_encode utf8_decode json_dumps json_loads kw

  -- A slot that the document has is checked; where it has none, `required` says whether that is an
  -- error.
  unfoldable pub check_slot : FetchKw → Bool → Bool → Fields → String → Result (Unit {0})
  unfolding uri_slot checked
  check_slot kw as_bytes required fs slot = elim (uri_slot fs slot) [
    | none ↦ if required then err assertion_error else ok tt
    | some uri ↦ checked (fetch_equiv kw slot uri none (some as_bytes))
  ]

  unfoldable pub assert_bom_subcomponent_equiv : FetchKw → Json → String → Result (Option Payload)
  unfolding uri_slot
  assert_bom_subcomponent_equiv kw document stem = do
    bom ← require_dict document
    elim (uri_slot bom stem) [
      | none ↦ ok none
      | some uri ↦ (do payload ← fetch_equiv kw stem uri none none; ok (some payload))
    ]

  -- the address of an entity, where it is one over HTTP
  unfoldable pub entity_uri : Json → Option String
  entity_uri (str uri) = if is_http_uri uri then some uri else none
  entity_uri _ = none

  unfoldable pub check_entity : FetchKw → ℕ → Json → Result (Unit {0})
  unfolding entity_uri checked
  check_entity kw index (obj entity) = elim (entity_uri (get "@id" entity)) [
    | none ↦ ok tt
    | some uri ↦ checked (
        fetch_equiv kw ("stageLineage[" <> (decimal index <> "]")) uri
          (text (get "contentId" entity)) (some true))
  ]
  check_entity kw index _ = ok tt

  unfoldable pub check_lineage : FetchKw → ℕ → Items → Result (Unit {0})
  unfolding check_entity
  check_lineage kw index nil = ok tt
  check_lineage kw index (item entity lineage) = do
    check_entity kw index entity
    check_lineage kw (suc index) lineage

  unfoldable pub lineage_of : Json → Result Items
  lineage_of (arr entities) = ok entities
  lineage_of _ = err assertion_error

  unfoldable pub assert_bom_stage_lineage_equiv : FetchKw → Json → Result (Unit {0})
  unfolding lineage_of check_lineage
  assert_bom_stage_lineage_equiv kw document = do
    bom ← require_dict document
    lineage ← lineage_of (get "stageLineage" bom or arr nil)
    check_lineage kw 0 lineage

  unfoldable pub assert_bom_content_equiv : FetchKw → Json → Result (Unit {0})
  unfolding assert_bom_subcomponent_equiv assert_bom_stage_lineage_equiv checked
  assert_bom_content_equiv kw document = do
    checked (assert_bom_subcomponent_equiv kw document "invoice")
    checked (assert_bom_subcomponent_equiv kw document "log")
    assert_bom_stage_lineage_equiv kw document

  -- a nest, and each of its slots
  unfoldable pub check_nest :
      FetchKw → String → String → (Fields → Result (Unit {0})) → Result Payload
  unfolding require_object
  check_nest kw stem uri check_slots = do
    payload ← fetch_equiv kw stem uri none (some false)
    nest ← require_object payload
    check_slots nest
    ok payload

  unfoldable pub check_data_stages : FetchKw → Fields → Result (Unit {0})
  unfolding check_each check_slot
  check_data_stages kw nest = check_each (check_slot kw true false nest) data_stages_nest

  -- only the first document is required
  unfoldable pub check_runtime_sbom : FetchKw → Fields → Result (Unit {0})
  unfolding check_each check_slot
  check_runtime_sbom kw nest =
      check_each (λ nested. check_slot kw false (nested == "cyclonedx") nest nested)
        runtime_sbom_nest

  unfoldable pub check_invoice_stem : FetchKw → String → String → Result Payload
  unfolding check_nest check_data_stages check_runtime_sbom
  check_invoice_stem kw stem uri =
      if stem == "data_stages"
      then check_nest kw stem uri (check_data_stages kw)
      else if stem == "runtime_sbom"
      then check_nest kw stem uri (check_runtime_sbom kw)
      else fetch_equiv kw stem uri none (some (elem stem ContentEquiv.bytes_stems))

  unfoldable pub assert_invoice_subcomponent_equiv :
      FetchKw → Json → String → Result (Option Payload)
  unfolding uri_slot check_invoice_stem
  assert_invoice_subcomponent_equiv kw document stem = do
    invoice ← require_dict document
    elim (uri_slot invoice stem) [
      | none ↦ ok none
      | some uri ↦ (do payload ← check_invoice_stem kw stem uri; ok (some payload))
    ]

  abbrev pub invoice_stems : List String
  invoice_stems =
      "order" ∷ "data" ∷ "seed" ∷ "data_stages" ∷ "structure_as_executed" ∷ "runtime_sbom" ∷ []

  unfoldable pub assert_invoice_content_equiv : FetchKw → Json → Result (Unit {0})
  unfolding check_each assert_invoice_subcomponent_equiv checked
  assert_invoice_content_equiv kw document =
      check_each (λ stem. checked (assert_invoice_subcomponent_equiv kw document stem))
        invoice_stems

  unfoldable pub assert_order_function_content_equiv : FetchKw → Json → Result (Unit {0})
  unfolding check_each check_slot
  assert_order_function_content_equiv kw document = do
    function ← require_dict document
    check_each (check_slot kw false false function) function_slots

  unfoldable pub assert_order_structure_content_equiv : FetchKw → Json → Result (Unit {0})
  unfolding check_each check_slot
  assert_order_structure_content_equiv kw document = do
    structure ← require_dict document
    check_each (check_slot kw false false structure) structure_slots

  unfoldable pub assert_order_invoice_content_equiv : FetchKw → Json → Result (Unit {0})
  unfolding check_slot without_record
  assert_order_invoice_content_equiv kw document = do
    invoice ← require_dict document
    check_slot (without_record kw) true false invoice "data"

  -- the nested checks of a Function, a Structure and an Invoice, where the payload is an object
  unfoldable pub check_order_nested : FetchKw → FetchKw → String → Payload → Result (Unit {0})
  unfolding assert_order_function_content_equiv assert_order_structure_content_equiv
      assert_order_invoice_content_equiv
  check_order_nested kw slot_kw stem (payload_json (obj fs)) =
      if stem == "function"
      then assert_order_function_content_equiv kw (obj fs)
      else if stem == "structure"
      then assert_order_structure_content_equiv kw (obj fs)
      else if stem == "invoice"
      then assert_order_invoice_content_equiv slot_kw (obj fs)
      else ok tt
  check_order_nested kw slot_kw stem _ = ok tt

  -- the input Invoice is not the one that the record cites
  unfoldable pub slot_keywords : FetchKw → String → FetchKw
  unfolding without_record
  slot_keywords kw stem = if stem == "invoice" then without_record kw else kw

  unfoldable pub check_order_stem : FetchKw → String → String → Result Payload
  unfolding check_nest check_each check_slot check_order_nested slot_keywords
  check_order_stem kw stem uri =
      if stem == "input_data_sbom"
      then check_nest kw stem uri
          (λ nest. check_each (check_slot kw false true nest) input_data_sbom_nest)
      else (do
        payload ← fetch_equiv (slot_keywords kw stem) stem uri none (some false)
        check_order_nested kw (slot_keywords kw stem) stem payload
        ok payload)

  unfoldable pub assert_order_subcomponent_equiv : FetchKw → Json → String → Result (Option Payload)
  unfolding uri_slot check_order_stem
  assert_order_subcomponent_equiv kw document stem = do
    order ← require_dict document
    elim (uri_slot order stem) [
      | none ↦ ok none
      | some uri ↦ (do payload ← check_order_stem kw stem uri; ok (some payload))
    ]

  abbrev pub order_stems : List String
  order_stems =
      "function" ∷ "structure" ∷ "invoice" ∷ "function_sbom" ∷ "structure_sbom" ∷ "input_data_sbom"
      ∷ []

  unfoldable pub assert_order_content_equiv : FetchKw → Json → Result (Unit {0})
  unfolding check_each assert_order_subcomponent_equiv checked
  assert_order_content_equiv kw document =
      check_each (λ stem. checked (assert_order_subcomponent_equiv kw document stem)) order_stems
