-- ===== src/Examples/Results.antt =====
-- The result of a run whose BOM names its Invoice, and a leaf that names a function.
use cats.Prelude.{String, ◌≡◌, refl, none, some, Option, false, [], ◌∷◌}
use cats.Result.{Result, ok}
use cats.Text.{
  strip, lstrip_by, rstrip_by, cons_unless, is_space, is_empty, is_char, ◌<>◌, drop_suffix,
}
use cats.TextList.{elem}
use cats.Digest.Codec.{Bytes}
use cats.Digest.Names.{validate_digest_segment_self}
use cats.Files.{read, write, without}
use cats.Json.{Json, Fields, str, obj, end, field, get, set, text, as_dict}
use cats.CasStore.{digest_of}
use cats.CasStore
use cats.Refs.{ref_uri, ref_id, uri_field_name, cid_field_name, legacy_id, or_id, non_empty}
use cats.Digest.{to_ni}
use cats.ContentRef.{equality_id, content_uri}
use cats.CasStore.{cas_ldp_uri, cas_ldp_path}
use cats.NamedBinds.{named_bind_payload, with_source, named_bind_source_id, parse_named_bind_leaf}
use cats.NamedBinds.RoundTrip.{parse-named_bind_payload}
use cats.JobResult.{
  JobResult, write_job_result, require_object, ref_content_id, equality_id_of, require_id,
  read_invoice, require_blob, copy_cited, cited_content_ids, require_bom_id, job_equality_id, note,
  note_stems, note_lineage, copy_blobs, copy_blob, job_json,
}
use cats.JobResult.Copied.{IsComplete, write_job_result-IsComplete}
use cats.Examples.Data.{
  digest_a, name_a, digest_b, name_b, cat, valid_a, valid_b, named_a, named_b, recognised_a,
  recognised_b, read_a, read_b, key_a, key_b,
}
use cats.Examples.Stores.{two_blobs}

abbrev bom : Fields
bom = field "invoice_uri" (str name_a) end

abbrev response : Fields
response = field "content_id" (str name_b) (field "bom" (obj bom) end)

unfoldable loads : Bytes → Result Json
loads raw = ok (obj end)

abbrev left : JobResult
left = record {
  cas = (digest_b, cat) ∷ (digest_a, []) ∷ [];
  invoice_json = end;
  bom_json = bom;
  result_json = job_json response bom end name_a;
}

got_a : CasStore.get name_a two_blobs ≡ ok (some [])
unfolding CasStore.get digest_of read
got_a = rw (recognised_a.1, read_a.1, validate_digest_segment_self digest_a valid_a) refl

got_b : CasStore.get name_b two_blobs ≡ ok (some cat)
unfolding CasStore.get digest_of read
got_b = rw (recognised_b.1, read_b.1, validate_digest_segment_self digest_b valid_b) refl

exported : write_job_result loads response (ok []) two_blobs none [] ≡ ok (left, none)
unfolding write_job_result require_object ref_content_id equality_id_of require_id read_invoice
    require_blob copy_cited cited_content_ids require_bom_id job_equality_id note note_stems
    note_lineage copy_blobs copy_blob loads non_empty ref_uri ref_id uri_field_name cid_field_name
    legacy_id or_id get text as_dict elem write without strip lstrip_by rstrip_by cons_unless
    is_space is_empty ◌<>◌ drop_suffix
exported =
    rw
      (
        recognised_a.1, read_a.1, named_a, recognised_b.1, read_b.1, named_b, got_a, got_b, key_a.0,
        key_b.0, got_a,
      )
      refl

write_job_result-IsComplete_example : IsComplete response two_blobs none left
write_job_result-IsComplete_example =
    write_job_result-IsComplete loads response (ok []) two_blobs none [] left none exported

abbrev leaf : Fields
leaf = field "contentId" (str name_a) (
    field "module" (str "data.process") (
      field "qualname" (str "process_0")
        (field "source_uri" (str ("http://node/ldp/cas/" <> digest_a)) end)))

unfoldable read_leaf : Bytes → Option Json
read_leaf raw = some (obj leaf)

bound : named_bind_payload digest_a "data.process" "process_0" "http://node/" ≡ ok leaf
unfolding named_bind_payload with_source set equality_id content_uri cas_ldp_uri cas_ldp_path
    non_empty strip lstrip_by rstrip_by cons_unless is_space is_char is_empty ◌<>◌
bound =
    rw
      (
        recognised_a.0,
        read_a.0,
        named_a,
        recognised_a.1,
        read_a.1,
        validate_digest_segment_self digest_a valid_a,
      )
      refl

process_filled : (is_empty "data.process" ≡ false) × (is_empty "process_0" ≡ false)
unfolding is_empty
process_filled = (refl, refl)

leaf_read : read_leaf cat ≡ some (obj leaf)
unfolding read_leaf
leaf_read = refl

parse-named_bind_payload_example :
    (n : String) × (to_ni digest_a ≡ ok n)
    × (named_bind_source_id (obj leaf) ≡ ok (some n))
    × (parse_named_bind_leaf read_leaf cat ≡ ok (some leaf))
parse-named_bind_payload_example =
    parse-named_bind_payload read_leaf cat digest_a digest_a "data.process" "process_0"
      "http://node/" leaf read_a.0 process_filled.0 process_filled.1 bound leaf_read
