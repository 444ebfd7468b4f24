-- ===== src/Examples/Parities.antt =====
-- The registry of one run, as the node serves it.
use cats.Prelude.{String, ◌≡◌, refl, true, false, [], ◌∷◌, ◌==◌, if◌then◌else◌}
use cats.Result.{ok, err}
use cats.Text.{strip, lstrip_by, rstrip_by, cons_unless, is_space, is_empty, ◌<>◌}
use cats.TextList.{elem, same_set, all_in}
use cats.Files.{read, write, without}
use cats.Json.{
  Json, str, obj, null, end, field, array, items, get, set, pop, find, text, truthy, ◌or◌, opt,
  dict_or_empty, equal, equal_items, equal_fields, size, as_dict, elements,
}
use cats.Locators.{lookup_uris, uris, locators_of}
use cats.Locators
use cats.Registry.{
  get_record, lookup_bom, lookup_by_order, resolve_unique_bom, sole, record_bom_id, record_order_id,
  record_data_id, read_list, append_index, stored_record, pop_all,
}
use cats.Registry.Project.{
  set_if, drop_none, address_or_id, sbom_stems, projected_locators, projected_head, project_record,
}
use cats.ExecutionBind.{HttpGetJson}
use cats.Projection.{same_id, ids_contain, as_text}
use cats.Parity.{
  Answers, disk_answers, require_found, order_id_of, unique_or, check_unique, registry_path_key,
  body_fields, texts, require_id, assert_registry_bom_parity, assert_registry_by_data_parity,
  assert_registry_by_order_parity, assert_locator_index_parity, names_same, check_key, check_listed,
  entries_of, entry_uris, set_of_texts, same_uris,
}
use cats.Parity.Index.{Served, fetch_answers, compare_answers, assert_registry_index_parity}
use cats.Parity.Sound.{Agrees, index_parity-Agrees}
use cats.Examples.Data.{
  digest_a, name_a, digest_b, name_b, recognised_a, recognised_b, read_a, read_b, key_a, key_b,
}
use cats.Examples.Registries.{one_bom, stored, located}

unfoldable served_bom : Json
unfolding project_record
served_bom = elim (project_record stored) [ ok fs ↦ obj fs | err _ ↦ null ]

abbrev served_list : String → Json
served_list id = obj (field "content_id" (str id) (field "bom_ids" (array (str name_a ∷ [])) end))

abbrev served_locators : Json
served_locators =
    obj (field "locators" (array (obj (field "uri" (str "http://node/cas") end) ∷ [])) end)

abbrev served : Served
served = record {
  bom = served_bom;
  by_data = served_list digest_b;
  by_order = served_list digest_b;
  by_content = served_locators;
}

unfoldable http_get_json : HttpGetJson
http_get_json path =
    if path == "/ldp/registry/boms/" <> digest_a
    then ok served_bom
    else if path == "/ldp/registry/by-content/" <> digest_b
    then ok served_locators
    else ok (served_list digest_b)

abbrev answers : Answers
answers = record {
  record_ = stored;
  data_id = name_b;
  order_id = name_b;
  bom_ids_by_data = name_a ∷ [];
  unique_bom = name_a;
  boms_for_order = name_a ∷ [];
  data_locators = "http://node/cas" ∷ [];
}

same_a : same_id name_a name_a ≡ ok true
unfolding same_id
same_a = rw (recognised_a.1, read_a.1) refl

answered : disk_answers one_bom located name_a false ≡ ok answers
unfolding disk_answers require_found order_id_of unique_or check_unique get_record lookup_bom
    lookup_by_order resolve_unique_bom sole read_list append_index read write without elem
    stored_record pop_all pop set get ◌or◌ truthy text as_text lookup_uris Locators.get uris
    locators_of strip lstrip_by rstrip_by cons_unless is_space is_empty
answered = rw (key_a.0, key_b.0, same_a) refl

path_key_a : registry_path_key name_a ≡ ok digest_a
unfolding registry_path_key strip lstrip_by rstrip_by cons_unless is_space
path_key_a = rw (recognised_a.1, read_a.1) refl

path_key_b : registry_path_key name_b ≡ ok digest_b
unfolding registry_path_key strip lstrip_by rstrip_by cons_unless is_space
path_key_b = rw (recognised_b.1, read_b.1) refl

path_key_hex : registry_path_key digest_b ≡ ok digest_b
unfolding registry_path_key strip lstrip_by rstrip_by cons_unless is_space
path_key_hex = rw (recognised_b.0, read_b.0) refl

fetched : fetch_answers http_get_json name_a answers ≡ ok served
unfolding fetch_answers http_get_json ◌<>◌
fetched = rw (path_key_a, path_key_b) refl

compared : compare_answers name_a answers served ≡ ok tt
unfolding compare_answers body_fields as_dict served_bom assert_registry_bom_parity require_id
    assert_registry_by_data_parity assert_registry_by_order_parity assert_locator_index_parity texts
    check_key names_same check_listed ids_contain entries_of entry_uris set_of_texts same_uris
    same_set all_in elem project_record projected_head projected_locators set_if drop_none
    address_or_id sbom_stems record_bom_id record_order_id record_data_id stored_record pop_all pop
    set get ◌or◌ truthy opt text dict_or_empty elements items equal equal_items equal_fields size
    find ◌<>◌ strip lstrip_by rstrip_by cons_unless is_space is_empty
compared = rw (same_a, path_key_b, path_key_hex) refl

passed :
    assert_registry_index_parity one_bom located name_a http_get_json false ≡ ok (answers, served)
unfolding assert_registry_index_parity
passed = rw (answered, fetched, compared) refl

index_parity-Agrees_example :
    (disk_answers one_bom located name_a false ≡ ok answers)
    × (fetch_answers http_get_json name_a answers ≡ ok served)
    × Agrees answers served
index_parity-Agrees_example =
    index_parity-Agrees one_bom located name_a http_get_json false answers served passed
