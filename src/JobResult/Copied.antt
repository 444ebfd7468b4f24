-- ===== src/JobResult/Copied.antt =====
-- The blobs of a job result are those that the store holds under the ids that are cited.
use cats.Prelude.{
  String, ◌≡◌, refl, sym, ap, ◌∙◌, inl, inr, true, Option, none, some, List, [], ◌∷◌, eq_iff, arith,
  Bool-cases,
}
use cats.Result.{Result, ok, >>=-eq-ok}
use cats.Digest.{is_ni_or_digest, from_ni, validate_digest_segment, content_id_fs_key}
use cats.Digest.Codec.{Bytes}
use cats.Digest.Names.{from_ni-valid, validate_digest_segment_self}
use cats.Digest.Keys.{content_id_fs_key-from_ni}
use cats.Files.{read, write}
use cats.Files.Laws.{read-write, read-write_self}
use cats.CasStore.{CasHttpStore, get, digest_of}
use cats.Json.{Json, Fields, as_dict}
use cats.Json
use cats.Locators.{LocatorIndex}
use cats.Refs.{non_empty}
use cats.JobResult.{
  Segments, Blobs, JobResult, copy_blob, copy_blobs, require_blob, require_object, require_id,
  ref_content_id, cited_content_ids, write_job_result, copy_cited, job_json, read_invoice,
}

validate-is_ni_or_digest :
    (x d : String) → validate_digest_segment x ≡ ok d → is_ni_or_digest x ≡ true
unfolding validate_digest_segment is_ni_or_digest
validate-is_ni_or_digest x d done = ground arith

require_blob-some : (found : Option Bytes) (b : Bytes) → require_blob found ≡ ok b → found ≡ some b
unfolding require_blob
require_blob-some none b done = ground arith
require_blob-some (some c) b done = ground arith

ok_some-eq : (found : Option Bytes) (b : Bytes) → ok found ≡ ok (some b) → found ≡ some b
ok_some-eq found b done = ground arith

-- what is got by an id stands under the file key of the id
get-read :
    (id key : String) (b : Bytes) (s : CasHttpStore)
    → get id s ≡ ok (some b)
    → content_id_fs_key id ≡ ok key
    → read key s.blobs ≡ some b
unfolding get digest_of
get-read id key b s got keyed =
    let (d, read_d, h1) = >>=-eq-ok (digest_of id) _ got in
    let (path, valid, h2) = >>=-eq-ok (validate_digest_segment d) _ h1 in
    elim (Bool-cases (is_ni_or_digest id)) [
      | inl named ↦
          let digest : from_ni id ≡ ok d = rw named at read_d in
          let same_path = validate_digest_segment_self d (from_ni-valid id d digest) in
          let same_key = content_id_fs_key-from_ni id named in
          let to_path : path ≡ d = ground arith in
          let to_key : key ≡ d = ground arith in
          rw (to_key ∙ sym to_path) (ok_some-eq (read path s.blobs) b h2)
      | inr unnamed ↦
          let digest : validate_digest_segment id ≡ ok d = rw unnamed at read_d in
          let named = validate-is_ni_or_digest id d digest in ground arith
    ]

-- the blob of an id, under its key
pub record Copied (s : CasHttpStore) (cas : Blobs) (id : String) : Type 0 where
  pub key : String
  pub blob : Bytes
  pub keyed : content_id_fs_key id ≡ ok key
  pub held : get id s ≡ ok (some blob)
  pub here : read key cas ≡ some blob

abbrev pub AllCopied : CasHttpStore → Blobs → List String → Type 0
AllCopied s cas [] = Unit {0}
AllCopied s cas (id ∷ ids) = Copied s cas id × AllCopied s cas ids

Copied-new :
    (s : CasHttpStore) (cas cas' : Blobs) (id : String)
    → copy_blob s id cas ≡ ok cas'
    → Copied s cas' id
unfolding copy_blob
Copied-new s cas cas' id done =
    let (found, got, h1) = >>=-eq-ok (get id s) _ done in
    let (blob, there, h2) = >>=-eq-ok (require_blob found) _ h1 in
    let (key, keyed, h3) = >>=-eq-ok (content_id_fs_key id) _ h2 in
    let same : cas' ≡ write key blob cas = ground arith in
    record {
      key = key;
      blob = blob;
      keyed = keyed;
      held = got ∙ ap ok (require_blob-some found blob there);
      here = rw (same, read-write_self key blob cas) refl;
    }

Copied-kept :
    (s : CasHttpStore) (cas cas' : Blobs) (id new_id : String)
    → copy_blob s new_id cas ≡ ok cas'
    → Copied s cas id
    → Copied s cas' id
unfolding copy_blob
Copied-kept s cas cas' id new_id done old =
    let (found, got, h1) = >>=-eq-ok (get new_id s) _ done in
    let (blob, there, h2) = >>=-eq-ok (require_blob found) _ h1 in
    let (key, keyed, h3) = >>=-eq-ok (content_id_fs_key new_id) _ h2 in
    let same : cas' ≡ write key blob cas = ground arith in
    let new_held : get new_id s ≡ ok (some blob) =
      got ∙ ap ok (require_blob-some found blob there) in
    let new_read = get-read new_id key blob s new_held keyed in
    let old_read = get-read id old.key old.blob s old.held old.keyed in
    let kept : read old.key cas' ≡ some old.blob =
      rw same (ground (arith, read-write key old.key blob cas, eq_iff key old.key, old.here)) in
    record { key = old.key; blob = old.blob; keyed = old.keyed; held = old.held; here = kept }

copy_blobs-Copied :
    (s : CasHttpStore) (ids : List String) (cas cas' : Blobs)
    → copy_blobs s ids cas ≡ ok cas'
    → AllCopied s cas' ids × ((id : String) → Copied s cas id → Copied s cas' id)
unfolding copy_blobs
copy_blobs-Copied s [] cas cas' done =
    let same : cas' ≡ cas = ground arith in (tt, λ id old. rw same old)
copy_blobs-Copied s (id ∷ ids) cas cas' done =
    let (cas1, first, rest) = >>=-eq-ok (copy_blob s id cas) _ done in
    let (all, keeps) = copy_blobs-Copied s ids cas1 cas' rest in
    (
      (keeps id (Copied-new s cas cas1 id first), all),
      λ other old. keeps other (Copied-kept s cas cas1 other id first old),
    )

-- what the ids were read from, and the blobs that were copied
pub record IsComplete (bom_response : Fields) (store : CasHttpStore) (index : Option LocatorIndex)
    (result : JobResult) : Type 0 where
  pub invoice_id : String
  pub index_read : Option LocatorIndex
  pub invoice_named :
      ref_content_id result.bom_json "invoice" index ≡ ok (some invoice_id, index_read)
  pub ids : List String
  pub index_after : Option LocatorIndex
  pub cited :
      cited_content_ids bom_response result.bom_json result.invoice_json invoice_id index_read
      ≡ ok (ids, index_after)
  pub copied : AllCopied store result.cas ids

require_id-some : (id : Option String) (s : String) → require_id id ≡ ok s → id ≡ some s
unfolding require_id non_empty
require_id-some none s done = ground arith
require_id-some (some t) s done = ground arith

copy_cited-IsComplete :
    (bom_response bom invoice : Fields) (invoice_id : String) (store : CasHttpStore)
    (index index1 : Option LocatorIndex) (dest_cas : Blobs) (result : JobResult)
    (index' : Option LocatorIndex)
    → ref_content_id bom "invoice" index ≡ ok (some invoice_id, index1)
    → copy_cited bom_response bom invoice invoice_id store index1 dest_cas ≡ ok (result, index')
    → IsComplete bom_response store index result
unfolding copy_cited
copy_cited-IsComplete bom_response bom invoice invoice_id store index index1 dest_cas result index'
      named done =
    let ((ids, index2), cited, h1) =
      >>=-eq-ok (cited_content_ids bom_response bom invoice invoice_id index1) _ done in
    let (cas, copied, h2) = >>=-eq-ok (copy_blobs store ids dest_cas) _ h1 in
    let made : JobResult = record {
      cas = cas;
      invoice_json = invoice;
      bom_json = bom;
      result_json = job_json bom_response bom invoice invoice_id;
    } in
    let same : result ≡ made = ground arith in
    let (all, _) = copy_blobs-Copied store ids dest_cas cas copied in
    let facts : IsComplete bom_response store index made = record {
      invoice_id = invoice_id;
      index_read = index1;
      invoice_named = named;
      ids = ids;
      index_after = index2;
      cited = cited;
      copied = all;
    } in
    rw same facts

-- A job result is written only if the BOM names an Invoice and every content id that is cited has
-- a blob in the store, and then the blob stands in the result under the file key of the id.
pub write_job_result-IsComplete :
    (loads : Bytes → Result Json) (bom_response : Fields) (dest : Result Segments)
    (store : CasHttpStore) (index : Option LocatorIndex) (dest_cas : Blobs) (result : JobResult)
    (index' : Option LocatorIndex)
    → write_job_result loads bom_response dest store index dest_cas ≡ ok (result, index')
    → IsComplete bom_response store index result
unfolding write_job_result
write_job_result-IsComplete loads bom_response dest store index dest_cas result index' done =
    let (bom, is_bom, h1) =
      >>=-eq-ok (require_object (as_dict (Json.get "bom" bom_response))) _ done in
    let (_, _, h0) = >>=-eq-ok dest _ h1 in
    let ((id, index1), named, h2) = >>=-eq-ok (ref_content_id bom "invoice" index) _ h0 in
    let (invoice_id, given, h3) = >>=-eq-ok (require_id id) _ h2 in
    let (invoice, read_back, h4) = >>=-eq-ok (read_invoice loads store invoice_id) _ h3 in
    let same_id = ap (λ x. ok (x, index1)) (require_id-some id invoice_id given) in
    copy_cited-IsComplete bom_response bom invoice invoice_id store index index1 dest_cas result
      index' (named ∙ same_id) h4
