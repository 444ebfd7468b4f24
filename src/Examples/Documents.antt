-- ===== src/Examples/Documents.antt =====
-- The documents of a run and the addresses that serve them.
use cats.Prelude.{String, ◌≡◌, refl, ◌||◌, none, List, [], ◌∷◌, ◌==◌, if◌then◌else◌}
use cats.Result.{ok, err, key_error}
use cats.Text.{
  strip, lstrip_by, rstrip_by, cons_unless, is_space, is_empty, lower, lower_char, is_char,
  last_segment, has_char,
}
use cats.Json.{
  Json, Fields, str, num, obj, end, field, array, items, get, find, text, truthy, ◌or◌,
  dict_or_empty, equal, equal_fields, size, as_dict, elements,
}
use cats.Lineage.{require_dict}
use cats.ExecutionBind.{HttpGetJson, require_uri, uri_digest}
use cats.ManifestEquiv.{
  assert_stage_lineage_payload_equiv, list_or_empty, check_hops, check_entity, check_hop, hop,
  hop_of, assert_directory_manifest_equiv, same_entries, entries_fingerprints, fingerprints,
  fingerprint, equal_lists,
}
use cats.ManifestEquiv.Chain.{Chained, stage_lineage-Chained}
use cats.Projection.{as_text}
use cats.Handoff.{
  FetchJson, Envelopes, assert_control_plane_handoff_coherence, check_locators, check_invoice,
  check_order, require_text, resolve_handoff_invoice_uri, first_text, given_is, same_digest,
  fetch_dict, load_envelopes,
}
use cats.Handoff.Slots.{IsHandedOn, IsCoherent, handoff-IsCoherent}
use cats.Reachability.{
  uri_from_record, field_text, locators_field, reached, require_json_object, bom_ldp_uri_of,
  invoice_agrees, check_bom, when_given, check_object, require_payload, require_json,
  assert_registry_claims_reachable,
}
use cats.Reachability.Claims.{IsReachable, claims-IsReachable}

abbrev doc : String → String → Json
doc key id = obj (field key (str id) end)

abbrev bom_doc : Fields
bom_doc = field "invoice_uri" (str "http://node/invoice") end

abbrev invoice_doc : Fields
invoice_doc =
    field "order_uri" (str "http://node/ldp/orders/7")
      (field "data_uri" (str "http://node/data") (field "seed_uri" (str "http://node/seed") end))

abbrev order_doc : Fields
order_doc = field "function_uri" (str "http://node/function") (
    field "structure_uri" (str "http://node/structure")
      (field "invoice_uri" (str "http://node/input") end))

-- the documents that the node serves
unfoldable serve : HttpGetJson
serve uri =
    if uri == "http://node/bom"
    then ok (obj bom_doc)
    else if uri == "http://node/invoice"
    then ok (obj invoice_doc)
    else if uri == "http://node/ldp/orders/7"
    then ok (obj order_doc)
    else err key_error

unfoldable fetch : FetchJson
fetch (str uri) = serve uri
fetch _ = err key_error

abbrev locators : Fields
locators =
    field "bom_ldp_uri" (str "http://node/bom") (field "order_uri" (str "http://node/cas/7") end)

abbrev run_record : Fields
run_record =
    field "invoice_uri" (str "http://node/invoice")
      (field "order_uri" (str "http://node/ldp/orders/7") (field "locators" (obj locators) end))

abbrev response : Fields
response = field "bom_ldp_uri" (str " http://node/bom") end

abbrev envelopes : Envelopes
envelopes = record {
  bom_ldp_uri = "http://node/bom";
  invoice_uri = "http://node/invoice";
  bom = bom_doc;
  invoice = invoice_doc;
  order = order_doc;
  locators = locators;
}

coherent : assert_control_plane_handoff_coherence response run_record fetch ≡ ok envelopes
unfolding assert_control_plane_handoff_coherence resolve_handoff_invoice_uri first_text require_text
    check_locators given_is load_envelopes fetch_dict check_invoice check_order same_digest as_text
    uri_digest last_segment fetch serve require_dict as_dict dict_or_empty get ◌or◌ truthy text
    equal strip lstrip_by rstrip_by cons_unless is_space is_empty lower lower_char is_char has_char
coherent = refl

handoff-IsCoherent_example :
    IsHandedOn response run_record envelopes × IsCoherent run_record fetch envelopes
handoff-IsCoherent_example = handoff-IsCoherent response run_record fetch envelopes coherent

claimed : assert_registry_claims_reachable run_record serve none ≡ ok tt
unfolding assert_registry_claims_reachable bom_ldp_uri_of uri_from_record field_text locators_field
    check_bom require_json_object reached require_dict invoice_agrees when_given check_object
    require_payload require_json serve as_dict dict_or_empty get ◌or◌ truthy text equal strip
    lstrip_by rstrip_by cons_unless is_space is_empty
claimed = refl

claims-IsReachable_example : IsReachable run_record serve
claims-IsReachable_example = claims-IsReachable run_record serve none claimed

abbrev stage : String → String → Json
stage id from =
    obj (field "@id" (str id) (field "prov:wasDerivedFrom" (obj (field "@id" (str from) end)) end))

-- two manifests with the same entries under different names
unfoldable manifests : HttpGetJson
manifests uri =
    if uri == "ingress" || uri == "input"
    then ok (obj (field "name" (str uri) (field "entries" (obj (field "a.csv" (num 1) end)) end)))
    else err key_error

abbrev lineage_doc : Fields
lineage_doc =
    field "stageLineage"
      (array (stage "ingress" "input" ∷ doc "@id" "structure" ∷ stage "egress" "ingress" ∷ [])) end

chain_checked : assert_stage_lineage_payload_equiv manifests (obj lineage_doc) ≡ ok tt
unfolding assert_stage_lineage_payload_equiv list_or_empty check_hops check_entity check_hop hop
    hop_of assert_directory_manifest_equiv same_entries entries_fingerprints fingerprints
    fingerprint equal_lists require_dict require_uri as_dict manifests get text elements items equal
    equal_fields size find strip lstrip_by rstrip_by cons_unless is_space is_empty
chain_checked = refl

stage_lineage-Chained_example :
    (fs : Fields) × (l : List Json) × (obj lineage_doc ≡ obj fs)
    × (list_or_empty (get "stageLineage" fs) ≡ ok l)
    × Chained manifests none l
stage_lineage-Chained_example = stage_lineage-Chained manifests (obj lineage_doc) chain_checked
