-- ===== src/Examples/Registries.antt =====
-- A registry that gets the record of one run, and the projection of this run.
use cats.Prelude.{
  String, ◌≡◌, ◌≢◌, ◌⊎◌, refl, arith, true, none, some, List, [], ◌∷◌, ◌==◌, if◌then◌else◌,
}
use cats.Result.{ok, err, ambiguous_bom}
use cats.Text.{strip, lstrip_by, rstrip_by, cons_unless, is_space, is_empty}
use cats.TextList.{elem}
use cats.Files.{read, write, without}
use cats.Json.{Json, Fields, str, obj, end, field, get, set, pop, text, truthy, ◌or◌, dict_or_empty}
use cats.Locators.Index.{added}
use cats.Locators.{LocatorIndex, lookup_uris, uris, locators_of}
use cats.Locators
use cats.Registry.{
  BomRegistry, normalize_content_id, record_bom_id, record_order_id, record_data_id, stored_record,
  put, read_list, append_index, pop_all, get_record, lookup_bom, lookup_by_order,
  resolve_unique_bom,
}
use cats.Registry.Index.{
  Keys, after, put-after, get_record-put, lookup_bom-put, lookup_by_order-put,
}
use cats.Registry.Coverage.{IsCovered, Listed, put-IsCovered}
use cats.Registry.Unique.{resolve_unique_bom-put}
use cats.Projection.{
  assert_handoff_projection_complete, same_id, ids_contain, as_text, require_record, is_text,
  is_stage_id, is_filled, has_locators, check_stages, stages_of, check_addresses, check_indexes,
}
use cats.Projection.Complete.{
  IsComplete, Located, stages_of_record, projection-IsComplete, projection-Located,
}
use cats.Examples.Data.{
  digest_a, name_a, digest_b, name_b, named_a, named_b, recognised_a, recognised_b, read_a, read_b,
  key_a, key_b,
}

abbrev pub entry : Fields
entry = field "content_id" (str name_a) (
    field "order" (str name_b) (
      field "data" (str name_b) (
        field "locators" (obj (field "bom_ldp_uri" (str "http://node/bom") end))
          (field "invoice_uri" (str "http://node/invoice") end))))

pub bom_of_entry : record_bom_id entry ≡ some name_a
unfolding record_bom_id get ◌or◌ truthy text strip lstrip_by rstrip_by cons_unless is_space is_empty
bom_of_entry = refl

pub order_of_entry : record_order_id entry ≡ some name_b
unfolding record_order_id get ◌or◌ truthy text strip lstrip_by rstrip_by cons_unless is_space
    is_empty
order_of_entry = refl

pub data_of_entry : record_data_id entry ≡ some name_b
unfolding record_data_id get ◌or◌ truthy text strip lstrip_by rstrip_by cons_unless is_space
    is_empty
data_of_entry = refl

pub normal_a : normalize_content_id name_a ≡ ok name_a
unfolding normalize_content_id
normal_a = rw (key_a.0, recognised_a.1, read_a.1, named_a) refl

pub normal_b : normalize_content_id name_b ≡ ok name_b
unfolding normalize_content_id
normal_b = rw (key_b.0, recognised_b.1, read_b.1, named_b) refl

abbrev pub keys : Keys entry
keys = record {
  bom = record {
    canonical = name_a;
    key = digest_a;
    normal = rw bom_of_entry normal_a;
    keyed = key_a.0;
  };
  order = record {
    canonical = name_b;
    key = digest_b;
    normal = rw order_of_entry normal_b;
    keyed = key_b.0;
  };
  data_keys = record {
    canonical = name_b;
    key = digest_b;
    normal = rw data_of_entry normal_b;
    keyed = key_b.0;
  };
}

abbrev pub no_boms : BomRegistry
no_boms = record { boms = []; by_data = []; by_order = [] }

abbrev pub one_bom : BomRegistry
one_bom = after entry keys no_boms

abbrev pub stored : Fields
stored = stored_record entry name_a name_b name_b

indexed_entry : put entry no_boms ≡ ok one_bom
indexed_entry = put-after entry keys no_boms

absent : get_record name_a no_boms ≡ ok none
unfolding get_record read
absent = rw key_a.0 refl

unlisted_data : lookup_bom name_b no_boms ≡ ok []
unfolding lookup_bom read_list read
unlisted_data = rw key_b.0 refl

unlisted_order : lookup_by_order digest_b no_boms ≡ ok []
unfolding lookup_by_order read_list read
unlisted_order = rw key_b.1 refl

get_record-put_example :
    get_record name_a one_bom ≡ ok (if digest_a == digest_a then some stored else none)
get_record-put_example =
    get_record-put entry keys no_boms one_bom indexed_entry name_a digest_a none key_a.0 absent

lookup_bom-put_example :
    lookup_bom name_b one_bom ≡ ok (if digest_b == digest_b then added name_a [] else [])
lookup_bom-put_example =
    lookup_bom-put entry keys no_boms one_bom indexed_entry name_b digest_b [] key_b.0 unlisted_data

lookup_by_order-put_example :
    lookup_by_order digest_b one_bom ≡ ok (if digest_b == digest_b then added name_a [] else [])
lookup_by_order-put_example =
    lookup_by_order-put entry keys no_boms one_bom indexed_entry digest_b digest_b [] key_b.1
      unlisted_order

no_boms-IsCovered : IsCovered no_boms
unfolding read
no_boms-IsCovered k record' found = ground arith

filed : read digest_a one_bom.boms ≡ some stored
unfolding read write without
filed = refl

put-IsCovered_example : Listed one_bom digest_a stored
put-IsCovered_example =
    put-IsCovered entry no_boms one_bom no_boms-IsCovered indexed_entry digest_a stored filed

pub listed_b : lookup_bom name_b one_bom ≡ ok (name_a ∷ [])
unfolding lookup_bom read_list append_index read write without elem
listed_b = rw key_b.0 refl

abbrev unlisted : List String
unlisted = []

resolve_unique_bom-put_example :
    ((unlisted ≡ []) ⊎ (unlisted ≡ name_a ∷ [])) × (resolve_unique_bom name_b one_bom ≡ ok name_a)
    ⊎ (unlisted ≢ [])
      × (unlisted ≢ name_a ∷ [])
      × (resolve_unique_bom name_b one_bom ≡ err ambiguous_bom)
resolve_unique_bom-put_example =
    resolve_unique_bom-put entry keys no_boms one_bom name_b unlisted indexed_entry key_b.0
      unlisted_data

abbrev pub located : LocatorIndex
located = record {
  docs =
      (
        digest_b,
        record {
          content_id = name_b;
          locators = (record { uri = "http://node/cas"; media_type = none }) ∷ [];
        },
      )
      ∷ [];
}

abbrev pub stage_ids : List Json
stage_ids = str name_b ∷ Json.null ∷ str "" ∷ []

projected :
    assert_handoff_projection_complete one_bom located name_a true (some stage_ids) ≡ ok stored
unfolding assert_handoff_projection_complete get_record require_record check_addresses check_indexes
    is_text as_text lookup_bom lookup_by_order ids_contain same_id stages_of check_stages
    is_stage_id has_locators is_filled lookup_uris Locators.get uris locators_of read read_list
    append_index write without elem stored_record pop_all pop set get ◌or◌ truthy text dict_or_empty
    strip lstrip_by rstrip_by cons_unless is_space is_empty
projected = rw (key_a.0, key_b.0, recognised_a.1, recognised_b.1, read_a.1) refl

projection-IsComplete_example : IsComplete one_bom name_a stored
projection-IsComplete_example =
    projection-IsComplete one_bom located name_a true (some stage_ids) stored projected

projection-Located_example : Located located (stages_of_record name_a stored (some stage_ids))
projection-Located_example =
    projection-Located one_bom located name_a (some stage_ids) stored projected
