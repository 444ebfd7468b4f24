-- ===== src/Examples/Served.antt =====
-- What a node serves: resources that are written twice, blobs, and the lists of its registry.
use cats.Prelude.{String, false, ◌≡◌, refl, none, some, List, [], ◌∷◌}
use cats.Result.{Result, ok}
use cats.Text.{has_char, is_empty, starts_with, contains, replace_char, lstrip_by, is_char, ◌<>◌}
use cats.Digest.Codec.{Bytes}
use cats.Json.{Json, Fields, str, obj, end, field, get, equal, is_dict}
use cats.Files.{read, write, without, names}
use cats.Digest.{from_ni}
use cats.LdpStore.{JsonResourceStore, invoices}
use cats.LdpStore.Refine.{
  Operation, put_op, get_op, list_op, run, spec_run, Represents, Log, latest, recent, drop_key,
  run_refines,
}
use cats.Registry.{lookup_by_order, read_list, append_index}
use cats.TextList.{elem}
use cats.Locators.{LocatorDoc, uris, lookup_uris}
use cats.Parity.{
  assert_registry_by_data_parity, assert_registry_by_order_parity, assert_locator_index_parity,
}
use cats.Routes.Registry.{registry_by_data, registry_by_order, registry_by_content}
use cats.Manifest.{
  FetchBytes, materialize_tree, is_directory_manifest, entries_of, write_entries, safe_path,
  clean_path, is_unsafe_path,
}
use cats.Manifest.Safe.{AllBelow, materialize_tree-AllBelow}
use cats.Locators
use cats.Routes.{get_method, blob_response, cas_route}
use cats.CasStore
use cats.Routes.Served.{Passes, registry_index-parity}
use cats.Routes.Blobs.{cas_route-put}
use cats.Examples.Data.{
  digest_a, name_a, digest_b, name_b, cat, digest_of_size, digest_of_size-valid, read_b, key_b,
}
use cats.Examples.Stores.{one_blob, two_blobs, second_put, located}
use cats.Examples.Registries.{one_bom, listed_b}

abbrev log_a : Log
log_a = (digest_a, cat) ∷ []

abbrev held_a : JsonResourceStore
held_a = record { kind = invoices; files = (digest_a, cat) ∷ [] }

held_a-Represents : Represents log_a held_a
unfolding read names latest recent drop_key
held_a-Represents = record { reads = λ key. refl; lists = refl }

-- both names of the first content, and the second
abbrev requests : List Operation
requests = put_op name_b [] ∷ put_op digest_a [] ∷ get_op name_a ∷ list_op ∷ get_op "../x" ∷ []

run_refines_example : run requests held_a ≡ spec_run requests log_a
run_refines_example = run_refines requests log_a held_a held_a-Represents

read_cat : from_ni digest_b ≡ ok (digest_of_size cat)
unfolding digest_of_size
read_cat = read_b.0

one_segment : has_char 47 digest_b ≡ false
unfolding has_char
one_segment = refl

cas_route-put_example :
    (path : String) × (CasStore.cas_ldp_path digest_b ≡ ok path)
    × (cas_route get_method path two_blobs ≡ some (ok (blob_response cat)))
    × (cas_route get_method ("/ldp/cas/" <> digest_b) two_blobs ≡ some (ok (blob_response cat)))
unfolding digest_of_size
cas_route-put_example =
    cas_route-put digest_of_size digest_of_size-valid cat one_blob name_b two_blobs digest_b
      second_put read_cat one_segment

ordered_b : lookup_by_order name_b one_bom ≡ ok (name_a ∷ [])
unfolding lookup_by_order read_list read append_index elem write
ordered_b = rw key_b.0 refl

abbrev doc_b : LocatorDoc
doc_b = record {
  content_id = name_b;
  locators = record { uri = "http://node/cas"; media_type = some "text/plain" } ∷ [];
}

found_b : Locators.get name_b located ≡ ok (some doc_b)
unfolding Locators.get read
found_b = rw key_b.0 refl

registry_index-parity_example :
    Passes
      (registry_by_data get_method name_b one_bom)
      (λ served. assert_registry_by_data_parity (name_a ∷ []) served name_b)
    × Passes
        (registry_by_order get_method name_b one_bom)
        (λ served. assert_registry_by_order_parity (name_a ∷ []) served name_b none)
    × (lookup_uris name_b located ≡ ok (uris doc_b.locators))
    × Passes
        (registry_by_content get_method name_b located)
        (assert_locator_index_parity (uris doc_b.locators))
registry_index-parity_example =
    registry_index-parity name_b one_bom located (name_a ∷ []) (name_a ∷ []) doc_b listed_b
      ordered_b found_b

-- a manifest with one file in a directory
abbrev manifest_fields : Fields
manifest_fields =
    field "@type" (str "CasDirectoryManifest")
      (field "entries" (obj (field "/plant\\main.tf" (str name_b) end)) end)

unfoldable loads : Bytes → Result Json
loads raw = ok (obj manifest_fields)

unfoldable fetch_bytes : FetchBytes
fetch_bytes content_id = ok cat

written_one : materialize_tree loads fetch_bytes name_a [] ≡ ok (("plant/main.tf", cat) ∷ [])
unfolding materialize_tree is_directory_manifest entries_of write_entries safe_path clean_path
    is_unsafe_path loads fetch_bytes get equal is_dict write without is_empty starts_with contains
    replace_char lstrip_by is_char ◌<>◌
written_one = refl

materialize_tree-AllBelow_example : AllBelow (("plant/main.tf", cat) ∷ [])
materialize_tree-AllBelow_example =
    materialize_tree-AllBelow loads fetch_bytes name_a [] (("plant/main.tf", cat) ∷ []) tt
      written_one
