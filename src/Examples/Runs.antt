-- ===== src/Examples/Runs.antt =====
-- Two Invoices and a stage document whose data are one digest, written in two ways.
use cats.Prelude.{String, ◌≡◌, ◌≢◌, ◌⊎◌, refl, none, some}
use cats.Result.{ok, err, assertion_error}
use cats.Text.{
  strip, lstrip_by, rstrip_by, cons_unless, is_space, is_empty, ◌<>◌, last_segment, has_char, lower,
  lower_char, starts_with, is_char, contains, drop_suffix,
}
use cats.Digest.{to_ni}
use cats.Json.{Fields, str, obj, end, field, get, text}
use cats.ContentRef.{found_id}
use cats.Refs.{stem_ref_id, ref_id, ref_uri, uri_field_name, cid_field_name, legacy_id, or_id}
use cats.Lineage.{assert_invoice_data_chain}
use cats.Lineage.Chain.{assert_invoice_data_chain_cases}
use cats.Stages.{assert_egressed_matches_data}
use cats.Stages.Egress.{egressed_cases}
use cats.Examples.Data.{digest_b, name_b, named_b, recognised_b, read_b}

abbrev prior : Fields
prior = field "data_cid" (str digest_b) end

abbrev following : Fields
following = field "data_cid" (str name_b) end

abbrev nest : Fields
nest = field "egressed_data_cid" (str name_b) end

ids :
    (ref_id prior "data" none ≡ ok (some name_b, none))
    × (ref_id following "data" none ≡ ok (some name_b, none))
    × (ref_id nest "egressed_data" none ≡ ok (some name_b, none))
unfolding ref_id ref_uri uri_field_name cid_field_name legacy_id or_id found_id get text strip
    lstrip_by rstrip_by cons_unless is_space is_empty ◌<>◌ last_segment has_char lower lower_char
    starts_with is_char contains drop_suffix
ids = (
  rw (recognised_b.0, read_b.0, named_b) refl,
  rw (recognised_b.1, read_b.1, named_b) refl,
  rw (recognised_b.1, read_b.1, named_b) refl,
)

stems :
    (stem_ref_id prior "data" ≡ ok (some name_b))
    × (stem_ref_id following "data" ≡ ok (some name_b))
unfolding stem_ref_id
stems = (rw ids.0 refl, rw ids.1 refl)

assert_invoice_data_chain_cases_example :
    (digest_b ≡ digest_b)
      × ((n : String) × (to_ni digest_b ≡ ok n)
          × (assert_invoice_data_chain (obj prior) (obj following) ≡ ok (n, n)))
    ⊎ (digest_b ≢ digest_b)
      × (assert_invoice_data_chain (obj prior) (obj following) ≡ err assertion_error)
assert_invoice_data_chain_cases_example =
    assert_invoice_data_chain_cases prior following name_b name_b digest_b digest_b stems.0 stems.1
      read_b.1 read_b.1

egressed_cases_example :
    (digest_b ≡ digest_b) × (assert_egressed_matches_data prior nest none ≡ ok tt)
    ⊎ (digest_b ≢ digest_b) × (assert_egressed_matches_data prior nest none ≡ err assertion_error)
egressed_cases_example =
    egressed_cases prior nest none none none name_b name_b digest_b digest_b ids.0 ids.2 read_b.1
      read_b.1
