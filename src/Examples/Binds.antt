-- ===== src/Examples/Binds.antt =====
-- A BOM that cites its Order and its Invoice.
use cats.Prelude.{String, ◌≡◌, refl, false, Option, none, some, List, [], ◌∷◌}
use cats.Result.{ok}
use cats.Text
use cats.Text.{
  strip, lstrip_by, rstrip_by, cons_unless, is_space, is_empty, lower, lower_char, starts_with,
  drop_prefix, drop_suffix, all_chars, ◌<>◌, is_char, last_segment, has_char,
}
use cats.TextList.{elem}
use cats.Digest.{is_ni_or_digest, is_hex_sha256, match_ni}
use cats.Digest.Codec.{is_hex}
use cats.Json.{
  Json, Fields, str, obj, array, items, end, field, get, text, as_dict, elements, equal,
  equal_fields, size, find,
}
use cats.ContentRef.{is_http_uri}
use cats.Lineage.{require_dict}
use cats.ExecutionBind.{
  HttpGetJson, require_uri, ref_token, uri_digest, without_ipfs, drop_seven, candidate,
  entity_agrees, used_entities, used_list, check_entities, check_payloads, fetch_payload,
  matches_expected, check_bind, has_fetch, is_given, assert_execution_bind,
}
use cats.ExecutionBind.Cites.{Bound, execution_bind-Bound}
use cats.Envelope.{
  Execution, bom_document, build_execution_bom, resolved_uri, order_entity, entity_id, address,
  entity_at, stage_lineage, stage_if, join,
}
use cats.Envelope.Used.{used_entities-build_execution_bom}
use cats.Stages.{first_given}

abbrev order_cited : Fields
order_cited = field "@id" (str "http://node/ldp/orders/AB") end

abbrev invoice_entity : Fields
invoice_entity = field "@id" (str "http://node/ldp/cas/CD") (field "contentId" (str "cd") end)

abbrev bom : Json
bom = obj (
    field "prov:wasGeneratedBy"
      (obj (field "prov:used" (array (obj order_cited ∷ obj invoice_entity ∷ [])) end)) end)

abbrev order_doc : Json
order_doc = obj (field "function_uri" (str "f") end)

unfoldable serve : HttpGetJson
serve uri = ok order_doc

abbrev bind : List Fields
bind = order_cited ∷ invoice_entity ∷ []

order_text : text (str "http://other/ldp/cas/ab/") ≡ some "http://other/ldp/cas/ab/"
unfolding text strip lstrip_by rstrip_by cons_unless is_space is_empty
order_text = refl

invoice_text : text (str " ipfs://CD") ≡ some "ipfs://CD"
unfolding text strip lstrip_by rstrip_by cons_unless is_space is_empty
invoice_text = refl

cited :
    assert_execution_bind bom
      (str "http://other/ldp/cas/ab/")
      (str " ipfs://CD")
      (some serve)
      (some order_doc)
      none
    ≡ ok bind
unfolding assert_execution_bind require_uri has_fetch is_given used_entities require_dict as_dict
    used_list check_entities check_bind entity_agrees ref_token uri_digest without_ipfs drop_seven
    candidate check_payloads fetch_payload matches_expected serve is_http_uri elem get text items
    elements equal equal_fields size find strip lstrip_by rstrip_by cons_unless is_space is_empty
    lower lower_char starts_with last_segment is_char has_char is_ni_or_digest is_hex_sha256
    match_ni drop_prefix all_chars is_hex Text.length
cited = refl

execution_bind-Bound_example :
    (used_entities bom ≡ ok bind) × Bound bind "http://other/ldp/cas/ab/" "ipfs://CD"
execution_bind-Bound_example =
    execution_bind-Bound bom (str "http://other/ldp/cas/ab/") (str " ipfs://CD") (some serve)
      (some order_doc) none bind "http://other/ldp/cas/ab/" "ipfs://CD" order_text invoice_text
      cited

abbrev execution : Execution
execution = record {
  log_id = "log";
  invoice_id = "inv";
  node_did = none;
  order_id = some "ord";
  input_data_id = none;
  ingress_data_id = none;
  integration_data_id = none;
  data_id = none;
  structure_as_executed_id = none;
  invoice_uri = some "http://node/inv";
  log_uri = some "http://node/log";
  order_uri = some "http://node/ord";
  input_data_uri = none;
  ingress_data_uri = none;
  integration_data_uri = none;
  data_uri = none;
  structure_as_executed_uri = none;
}

abbrev built_order : Fields
built_order = field "@id" (str "http://node/ord") (field "contentId" (str "ord") end)

abbrev built_invoice : Fields
built_invoice = field "@id" (str "http://node/inv") (field "contentId" (str "inv") end)

abbrev built : Fields
built =
    bom_document execution (some "http://node/inv") (some "http://node/log") (some built_order)
      built_invoice []

built_ok : build_execution_bom "http://node" execution ≡ ok built
unfolding build_execution_bom resolved_uri first_given order_entity entity_id address entity_at
    stage_lineage stage_if join bom_document is_http_uri strip lstrip_by rstrip_by cons_unless
    is_space is_empty lower lower_char starts_with
built_ok = refl

named_order : is_empty "ord" ≡ false
unfolding is_empty
named_order = refl

used_entities-build_execution_bom_example :
    (order invoice : Fields) × (invoice_uri : Option String) × (entity_id "http://node" "ord"
        (some "http://node/ord")
      ≡ ok order)
    × (resolved_uri "http://node" "inv" (some "http://node/inv") ≡ ok invoice_uri)
    × (entity_id "http://node" "inv" invoice_uri ≡ ok invoice)
    × (used_entities (obj built) ≡ ok (order ∷ invoice ∷ []))
used_entities-build_execution_bom_example =
    used_entities-build_execution_bom "http://node" execution built "ord" refl named_order built_ok
