-- ===== src/Registry/Project.antt =====
-- `project_record` of registry/store.py: the record as the node serves it over HTTP.
use cats.Prelude.{String, List, [], ◌∷◌, if◌then◌else◌}
use cats.Result.{Result, ok, ◌>>=◌}
use cats.Text.{◌<>◌}
use cats.Json.{Json, Fields, null, obj, end, field, get, set, truthy, ◌or◌, opt, dict_or_empty}
use cats.Registry.{record_bom_id, record_order_id, record_data_id}

-- `if value: out[key] = value`
unfoldable pub set_if : String → Json → Fields → Fields
set_if key value out = if truthy value then set key value out else out

-- `{k: v for k, v in out.items() if v is not None}`
unfoldable pub drop_none : Fields → Fields
drop_none end = end
drop_none (field k null fs) = drop_none fs
drop_none (field k v fs) = field k v (drop_none fs)

-- the address under `uri_key`, or else the id, under `key` or its legacy name
unfoldable pub address_or_id : Fields → String → String → String → Fields → Fields
unfolding set_if
address_or_id record' uri_key key legacy out =
    if truthy (get uri_key record')
    then set uri_key (get uri_key record') out
    else set_if key (get key record' or get legacy record') out

unfoldable pub sbom_stems : Fields → List String → Fields → Fields
unfolding address_or_id
sbom_stems record' [] out = out
sbom_stems record' (stem ∷ stems) out =
    sbom_stems record' stems (address_or_id record' (stem <> "_uri") stem (stem <> "_cid") out)

unfoldable pub projected_locators : Fields → Fields → Fields
projected_locators record' loc = field "bom_ldp_uri" (get "bom_ldp_uri" loc) (
    field "bom_solid_uri" (get "bom_solid_uri" loc) (
      field "invoice_uri" (get "invoice_uri" loc or get "invoice_uri" record')
        (field "order_uri" (get "order_uri" loc or get "order_uri" record') end)))

unfoldable pub projected_head : Fields → Fields → Fields
unfolding projected_locators
projected_head record' loc = field "content_id" (opt (record_bom_id record')) (
    field "invoice_uri" (get "invoice_uri" record' or get "invoice_uri" loc) (
      field "order_uri" (get "order_uri" record' or get "order_uri" loc) (
        field "data_uri" (get "data_uri" record') (
          field "node_did" (get "node_did" record')
            (field "locators" (obj (projected_locators record' loc)) end)))))

unfoldable pub project_record : Fields → Result Fields
unfolding set_if drop_none sbom_stems projected_head
project_record record' = do
  loc ← dict_or_empty (get "locators" record')
  let out0 = projected_head record' loc
  let out1 = set_if "order" (opt (record_order_id record')) out0
  let out2 = set_if "data" (opt (record_data_id record')) out1
  let out3 = set_if "input_data" (get "input_data" record' or get "input_data_cid" record') out2
  let out4 = set_if "function" (get "function" record' or get "function_cid" record') out3
  let out5 = set_if "structure" (get "structure" record' or get "structure_cid" record') out4
  let out6 = address_or_id record' "ingress_data_uri" "ingress_data" "ingress_data_cid" out5
  let out7 =
      address_or_id record' "integration_data_uri" "integration_data" "integration_data_cid" out6
  let out8 = address_or_id record' "data_stages_uri" "data_stages" "data_stages" out7
  let out9 = address_or_id record' "seed_uri" "seed" "seed_cid" out8
  let out10 = address_or_id record' "runtime_sbom_uri" "runtime_sbom" "runtime_sbom_cid" out9
  ok (
      drop_none
        (sbom_stems record' ("function_sbom" ∷ "structure_sbom" ∷ "input_data_sbom" ∷ []) out10))
