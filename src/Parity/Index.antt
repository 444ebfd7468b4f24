-- ===== src/Parity/Index.antt =====
-- registry/parity.py: the check of one BOM's four answers, from disk and over HTTP.
use cats.Prelude.{String, Bool, some}
use cats.Result.{Result, ok, ◌>>=◌, ◌>>◌}
use cats.Text.{◌<>◌}
use cats.Json.{Json}
use cats.Locators.{LocatorIndex}
use cats.Registry.{BomRegistry}
use cats.ExecutionBind.{HttpGetJson}
use cats.Parity.{
  Answers, disk_answers, registry_path_key, body_fields, assert_registry_bom_parity,
  assert_registry_by_data_parity, assert_registry_by_order_parity, assert_locator_index_parity,
}

-- the four answers over HTTP
pub record Served : Type 0 where
  pub bom : Json
  pub by_data : Json
  pub by_order : Json
  pub by_content : Json

unfoldable pub fetch_answers : HttpGetJson → String → Answers → Result Served
fetch_answers http_get_json bom_id answers = do
  bom_key ← registry_path_key bom_id
  data_key ← registry_path_key answers.data_id
  order_key ← registry_path_key answers.order_id
  bom ← http_get_json ("/ldp/registry/boms/" <> bom_key)
  by_data ← http_get_json ("/ldp/registry/by-data/" <> data_key)
  by_order ← http_get_json ("/ldp/registry/by-order/" <> order_key)
  by_content ← http_get_json ("/ldp/registry/by-content/" <> data_key)
  ok (record { bom = bom; by_data = by_data; by_order = by_order; by_content = by_content })

unfoldable pub compare_answers : String → Answers → Served → Result (Unit {0})
compare_answers bom_id answers served = do
  http_bom ← body_fields served.bom
  assert_registry_bom_parity answers.record_ http_bom bom_id
  http_by_data ← body_fields served.by_data
  assert_registry_by_data_parity answers.bom_ids_by_data http_by_data answers.data_id
  http_by_order ← body_fields served.by_order
  assert_registry_by_order_parity answers.boms_for_order http_by_order answers.order_id
      (some bom_id)
  http_by_content ← body_fields served.by_content
  assert_locator_index_parity answers.data_locators http_by_content

unfoldable pub assert_registry_index_parity :
    BomRegistry → LocatorIndex → String → HttpGetJson → Bool → Result (Answers × Served)
unfolding fetch_answers compare_answers
assert_registry_index_parity registry index bom_id http_get_json allow_ambiguous = do
  answers ← disk_answers registry index bom_id allow_ambiguous
  served ← fetch_answers http_get_json bom_id answers
  compare_answers bom_id answers served
  ok (answers, served)
