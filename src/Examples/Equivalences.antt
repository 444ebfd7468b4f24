-- ===== src/Examples/Equivalences.antt =====
-- A log that the mesh and the node both serve, and the lineage of a Structure that was executed.
use cats.Prelude.{String, ◌≡◌, refl, Option, none, some, [], ◌∷◌}
use cats.Result.{Result, ok}
use cats.Text.{
  strip, lstrip_by, rstrip_by, cons_unless, is_space, is_empty, lower, lower_char, starts_with,
  is_char, last_segment, has_char,
}
use cats.TextList.{elem}
use cats.Digest.Codec.{Bytes}
use cats.CasStore.{same_bytes}
use cats.ContentRef.{is_http_uri}
use cats.Json.{
  Json, Fields, null, str, obj, array, items, end, field, get, text, truthy, ◌or◌, as_dict, is_dict,
}
use cats.Lineage.{require_dict}
use cats.Handoff.{raw_bytes}
use cats.ExecutionBind.{
  HttpGetJson, require_uri, ref_token, uri_digest, without_ipfs, drop_seven, candidate,
  entity_agrees, has_fetch, is_given,
}
use cats.Reachability.{HttpGetBytes}
use cats.ContentEquiv.{
  FetchKw, payload_bytes, mesh_bytes, cat_bytes_of, compare_payload, same_over_http,
  assert_registry_digest_agreement, assert_fetch_equiv, locator_of, is_opaque,
}
use cats.ContentEquiv.Sound.{IsSame, assert_fetch_equiv-IsSame}
use cats.AsExecuted.{
  assert_structure_as_executed_bind, sae_lineage_entity, lineage_items, matches, keep_agreeing,
  last_observation, is_observation, require_entity, fetch_entity,
}
use cats.AsExecuted.Bind.{IsObserved, IsFetched, structure_bind-IsObserved}
use cats.Examples.Data.{cat}

unfoldable encode_text : String → Result Bytes
encode_text s = ok []

unfoldable decode_text : Bytes → Option String
decode_text b = none

unfoldable dump : Json → Result String
dump v = ok "null"

unfoldable load : String → Option Json
load s = none

unfoldable serve : HttpGetBytes
serve uri = ok cat

unfoldable no_json : HttpGetJson
no_json uri = ok null

abbrev kw : FetchKw
kw = record {
  content_mesh = record { cat_obj = none; cat_bytes = some serve; cat = λ s. ok (raw_bytes cat) };
  http_get_json = no_json;
  http_get = some serve;
  cited = none;
}

log_checked :
    assert_fetch_equiv encode_text decode_text dump load kw "log" " http://node/log" none none
    ≡ ok (payload_bytes cat)
unfolding assert_fetch_equiv mesh_bytes cat_bytes_of compare_payload same_over_http
    assert_registry_digest_agreement locator_of is_opaque serve same_bytes elem strip lstrip_by
    rstrip_by cons_unless is_space is_empty starts_with
log_checked = refl

assert_fetch_equiv-IsSame_example :
    (mesh_raw : Bytes) × (mesh_bytes encode_text decode_text dump load kw.content_mesh
        (locator_of "log" (strip " http://node/log") none none)
      ≡ ok mesh_raw)
    × IsSame encode_text decode_text dump load kw
        (strip " http://node/log")
        mesh_raw
        (payload_bytes cat)
assert_fetch_equiv-IsSame_example =
    assert_fetch_equiv-IsSame encode_text decode_text dump load kw "log" " http://node/log" none
      none (payload_bytes cat) log_checked

abbrev observed : Fields
observed = field "@id" (str "http://node/ldp/cas/CD") end

abbrev derived : Fields
derived = field "@id" (str "http://node/ldp/cas/CD") (field "prov:wasDerivedFrom" (obj end) end)

abbrev lineage_bom : Fields
lineage_bom = field "stageLineage" (array (obj observed ∷ obj derived ∷ str "x" ∷ [])) end

bind_checked :
    assert_structure_as_executed_bind (obj lineage_bom) (str "http://other/cd/") none none
    ≡ ok observed
unfolding assert_structure_as_executed_bind sae_lineage_entity lineage_items matches keep_agreeing
    last_observation is_observation require_entity fetch_entity require_uri ref_token uri_digest
    without_ipfs drop_seven candidate entity_agrees has_fetch is_given require_dict as_dict is_dict
    get text truthy ◌or◌ items elem is_http_uri strip lstrip_by rstrip_by cons_unless is_space
    is_empty lower lower_char starts_with is_char last_segment has_char
bind_checked = refl

structure_bind-IsObserved_example :
    (uri : String) × (require_uri (str "http://other/cd/") ≡ ok uri)
    × IsObserved lineage_bom uri observed
    × IsFetched none none observed
structure_bind-IsObserved_example =
    structure_bind-IsObserved lineage_bom (str "http://other/cd/") none none observed bind_checked
