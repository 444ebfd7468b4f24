-- ===== src/Envelope.antt =====
-- feedback/envelope.py: the BOM of an execution, a document of references. An id or address that is
-- not given is `none`; `base_url` is the Node's own.
pub mod Used
use cats.Prelude.{String, not, ◌&&◌, Option, none, some, List, [], ◌∷◌, if◌then◌else◌}
use cats.Result.{Result, ok, ◌>>=◌}
use cats.Text.{◌<>◌, is_empty}
use cats.Json.{Json, Fields, str, obj, arr, end, field, items, set, append_fields}
use cats.ContentRef.{content_uri, is_http_uri}
use cats.Stages.{first_given}

abbrev executor_run_id : String
executor_run_id = "#executorRun"

abbrev execution_bom_context : List Json
execution_bom_context =
    str "https://www.w3.org/ns/prov#"
    ∷ obj (
        field "cats" (str "https://dynamicalsystemsgroup.github.io/cats/ns#") (
          field "invoice_uri" (str "cats:invoice_uri") (
            field "log_uri" (str "cats:log_uri") (
              field "node_did" (str "cats:node_did") (
                field "stageLineage" (str "cats:stageLineage")
                  (field "contentId" (str "cats:contentId") end))))))
    ∷ []

unfoldable pub attach_node_did : Fields → String → Fields
attach_node_did bom node_did = set "node_did" (str node_did) bom

-- the address that is given, or the Node's for a digest
unfoldable pub address : String → String → Option String → Result (Option String)
address base_url content_id (some uri) = ok (some uri)
address base_url content_id none = content_uri content_id base_url

unfoldable pub bare_entity : String → Fields
bare_entity content_id =
    if is_http_uri content_id
    then field "@id" (str content_id) end
    else field "@id" (str ("ipfs://" <> content_id)) end

unfoldable pub entity_at : String → Option String → Fields
unfolding bare_entity
entity_at content_id none = bare_entity content_id
entity_at content_id (some resolved) =
    if not (is_empty resolved) && is_http_uri resolved
    then field "@id" (str resolved) (field "contentId" (str content_id) end)
    else bare_entity content_id

unfoldable pub entity_id : String → String → Option String → Result Fields
unfolding address entity_at
entity_id base_url content_id uri = do
  resolved ← address base_url content_id uri
  ok (entity_at content_id resolved)

-- the `prov:wasDerivedFrom` field, where there is a source
unfoldable pub derivation : String → Option String → Option String → Result Fields
derivation base_url none derived_from_uri = ok end
derivation base_url (some derived_from) derived_from_uri =
    if is_empty derived_from then ok end else do
      source ← entity_id base_url derived_from derived_from_uri
      ok (field "prov:wasDerivedFrom" (obj source) end)

-- a stage that the run generated
unfoldable pub stage_entity :
    String → String → Option String → Option String → Option String → Result Fields
unfolding derivation
stage_entity base_url content_id uri derived_from derived_from_uri = do
  id ← entity_id base_url content_id uri
  derived ← derivation base_url derived_from derived_from_uri
  ok (
      append_fields id (
        field "@type" (str "prov:Entity")
          (field "prov:wasGeneratedBy" (obj (field "@id" (str executor_run_id) end)) derived)))

pub record Execution : Type 0 where
  pub log_id : String
  pub invoice_id : String
  pub node_did : Option String
  pub order_id : Option String
  pub input_data_id : Option String
  pub ingress_data_id : Option String
  pub integration_data_id : Option String
  pub data_id : Option String
  pub structure_as_executed_id : Option String
  pub invoice_uri : Option String
  pub log_uri : Option String
  pub order_uri : Option String
  pub input_data_uri : Option String
  pub ingress_data_uri : Option String
  pub integration_data_uri : Option String
  pub data_uri : Option String
  pub structure_as_executed_uri : Option String

-- `if content_id: lineage.append(_stage_entity(…))`
unfoldable pub stage_if :
    String → Option String → Option String → Option String → Option String → Result (List Json)
unfolding stage_entity
stage_if base_url none uri derived_from derived_from_uri = ok []
stage_if base_url (some content_id) uri derived_from derived_from_uri =
    if is_empty content_id then ok [] else do
      entity ← stage_entity base_url content_id uri derived_from derived_from_uri
      ok (obj entity ∷ [])

unfoldable pub join : List Json → List Json → List Json
join [] ys = ys
join (x ∷ xs) ys = x ∷ join xs ys

unfoldable pub stage_lineage : String → Execution → Result (List Json)
unfolding stage_if join
stage_lineage base_url e = do
  ingress ← stage_if base_url e.ingress_data_id e.ingress_data_uri e.input_data_id e.input_data_uri
  integration ←
      stage_if base_url e.integration_data_id e.integration_data_uri e.ingress_data_id
        e.ingress_data_uri
  egress ← stage_if base_url e.data_id e.data_uri e.integration_data_id e.integration_data_uri
  structure ← stage_if base_url e.structure_as_executed_id e.structure_as_executed_uri none none
  ok (join ingress (join integration (join egress structure)))

-- `uri or content_uri(content_id)`
unfoldable pub resolved_uri : String → String → Option String → Result (Option String)
resolved_uri base_url content_id uri = elim (first_given uri none) [
  | some u ↦ ok (some u)
  | none ↦ content_uri content_id base_url
]

unfoldable pub used_value : Option Fields → Fields → Json
used_value none invoice = obj invoice
used_value (some order) invoice = arr (items (obj order ∷ obj invoice ∷ []))

unfoldable pub order_entity : String → Option String → Option String → Result (Option Fields)
order_entity base_url none uri = ok none
order_entity base_url (some order_id) uri =
    if is_empty order_id
    then ok none
    else do order ← entity_id base_url order_id uri; ok (some order)

-- the resolved address, or the id where there is none
unfoldable pub uri_or_id : Option String → String → Json
uri_or_id none id = str id
uri_or_id (some uri) id = if is_empty uri then str id else str uri

unfoldable pub attribution : Option String → Fields
attribution none = end
attribution (some did) =
    field "node_did" (str did) (field "prov:wasAttributedTo" (obj (field "@id" (str did) end)) end)

unfoldable pub lineage_field : List Json → Fields
lineage_field [] = end
lineage_field (x ∷ xs) = field "stageLineage" (arr (items (x ∷ xs))) end

-- the document, of the entities and addresses that were resolved
unfoldable pub bom_document :
    Execution → Option String → Option String → Option Fields → Fields → List Json → Fields
unfolding used_value uri_or_id attribution lineage_field
bom_document e invoice_uri log_uri order invoice lineage =
    field "@context" (arr (items execution_bom_context)) (
      field "@type" (arr (items (str "prov:Entity" ∷ str "cats:ExecutionBom" ∷ []))) (
        field "prov:wasGeneratedBy"
          (obj (
            field "@id" (str executor_run_id) (
              field "@type" (str "prov:Activity")
                (field "prov:used" (used_value order invoice) end))))
          (field "invoice_uri" (uri_or_id invoice_uri e.invoice_id) (
            field "log_uri" (uri_or_id log_uri e.log_id)
              (append_fields (attribution e.node_did) (lineage_field lineage))))))

unfoldable pub build_execution_bom : String → Execution → Result Fields
unfolding resolved_uri order_entity bom_document
build_execution_bom base_url e = do
  invoice_uri ← resolved_uri base_url e.invoice_id e.invoice_uri
  log_uri ← resolved_uri base_url e.log_id e.log_uri
  order ← order_entity base_url e.order_id e.order_uri
  invoice ← entity_id base_url e.invoice_id invoice_uri
  lineage ← stage_lineage base_url e
  ok (bom_document e invoice_uri log_uri order invoice lineage)
