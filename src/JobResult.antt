-- ===== src/JobResult.antt =====
-- executor/result.py: what a one-shot run leaves outside of its home: the Invoice, the BOM, and the
-- blobs that these cite. The locator index of the home is handed on, since the reading of a reference
-- may register addresses. `loads` makes a document of bytes.
pub mod Copied
use cats.Prelude.{
  String, Bool, true, false, not, ◌&&◌, ◌||◌, Option, none, some, List, [], ◌∷◌, ◌++◌, ◌==◌,
  if◌then◌else◌,
}
use mathlib.Core.Option
use cats.Result.{Result, ok, err, runtime_error, require, ◌>>=◌, ◌>>◌}
use cats.Text.{strip, is_empty}
use cats.TextList.{elem}
use cats.Digest.{to_ni, from_ni, is_ni_or_digest, content_id_fs_key}
use cats.Digest.Codec.{Bytes}
use cats.Json.{Json, Items, Fields, str, arr, obj, nil, item, end, field, get, text, as_dict, opt}
use cats.Files.{write}
use cats.CasStore.{CasHttpStore}
use cats.CasStore
use cats.Locators.{LocatorIndex}
use cats.ContentRef.{content_id_from_uri}
use cats.Refs.{ref_uri, ref_id, non_empty}

-- the segments of a resolved path
abbrev pub Segments : Type 0
Segments = List String

-- `path == home or home in path.parents`
unfoldable pub is_under : Segments → Segments → Bool
is_under [] path = true
is_under (h ∷ home) [] = false
is_under (h ∷ home) (p ∷ path) = h == p && is_under home path

-- the path without its last segment
unfoldable pub parent : Segments → Segments
parent [] = []
parent (p ∷ []) = []
parent (p ∷ q ∷ path) = p ∷ parent (q ∷ path)

-- `result_dir or os.environ.get(…) or ''`
unfoldable pub given_dir : Option String → Option String → String
unfolding non_empty
given_dir result_dir environ =
    strip (Option.get_or (non_empty result_dir) (Option.get_or (non_empty environ) ""))

-- `resolve` is `Path(…).resolve()`, `expand` the same behind `expanduser`, and `path_text` is `str`.
module _ (resolve expand : String → Segments) (path_text : Segments → String) where
  unfoldable pub resolve_result_dir : String → Option String → Option String → Result Segments
  unfolding is_under parent given_dir
  resolve_result_dir cats_home result_dir environ =
      let raw = given_dir result_dir environ in
      let sibling = path_text (parent (resolve cats_home) ++ ("cat-result" ∷ [])) in
      let path = expand (if is_empty raw then sibling else raw) in
      if is_under (resolve cats_home) path then err runtime_error else ok path

unfoldable pub equality_id_of : Option LocatorIndex → Option String → Result (Option String)
equality_id_of index none = ok none
equality_id_of index (some raw) =
    if is_ni_or_digest raw
    then (do digest ← from_ni raw; ni ← to_ni digest; ok (some ni))
    else content_id_from_uri raw index

-- `_equality_id` of a value that may be anything
unfoldable pub job_equality_id : Option LocatorIndex → Json → Result (Option String)
unfolding equality_id_of
job_equality_id index value = equality_id_of index (text value)

abbrev pub Found : Type 0
Found = List String × Option LocatorIndex

unfoldable pub ref_content_id :
    Fields → String → Option LocatorIndex → Result (Option String × Option LocatorIndex)
unfolding equality_id_of non_empty
ref_content_id document stem index = do
  own ← equality_id_of index (ref_uri document stem)
  elim (non_empty own) [ some id ↦ ok (some id, index) | none ↦ ref_id document stem index ]

unfoldable pub note : List String → Option String → List String
unfolding non_empty
note found content_id = elim (non_empty content_id) [
  | none ↦ found
  | some id ↦ if elem id found then found else found ++ (id ∷ [])
]

-- the id of one entity: its content id, which must lead to content, else its address
unfoldable pub note_own : Option LocatorIndex → Fields → List String → Result (List String)
unfolding note job_equality_id non_empty
note_own index entity found = elim (text (get "contentId" entity)) [
  | some content_id ↦ (do
    resolved ← job_equality_id index (str content_id)
    elim (non_empty resolved) [ none ↦ err runtime_error | some id ↦ ok (note found (some id)) ])
  | none ↦ (do resolved ← job_equality_id index (get "@id" entity); ok (note found resolved))
]

-- An entity, and those that it was derived from.
unfoldable mutual
  unfolding note_own

  pub note_entity : Option LocatorIndex → Json → List String → Result (List String)
  note_entity index (obj entity) found = do
    noted ← note_own index entity found
    note_derived index entity noted
  note_entity index _ found = ok found

  pub note_entities : Option LocatorIndex → Items → List String → Result (List String)
  note_entities index nil found = ok found
  note_entities index (item entity entities) found = do
    noted ← note_entity index entity found
    note_entities index entities noted

  -- the value of `prov:wasDerivedFrom`, the first of that key
  pub note_derived : Option LocatorIndex → Fields → List String → Result (List String)
  note_derived index end found = ok found
  note_derived index (field key (arr entities) rest) found =
      let here = note_entities index entities found in
      let later = note_derived index rest found in
      if key == "prov:wasDerivedFrom" then here else later
  note_derived index (field key value rest) found =
      let here = note_entity index value found in
      let later = note_derived index rest found in
      if key == "prov:wasDerivedFrom" then here else later

unfoldable pub note_stems : Fields → List String → Found → Result Found
unfolding note ref_content_id
note_stems document [] found = ok found
note_stems document (stem ∷ stems) (found, index) = do
  (id, index') ← ref_content_id document stem index
  note_stems document stems (note found id, index')

unfoldable pub note_lineage : Option LocatorIndex → Json → List String → Result (List String)
unfolding note_entity
note_lineage index (arr lineage) found = note_entities index lineage found
note_lineage index _ found = ok found

-- the content id of the answer, which must be there
unfoldable pub require_bom_id : Json → Result String
require_bom_id value = elim (text value) [ none ↦ err runtime_error | some id ↦ ok id ]

unfoldable pub cited_content_ids :
    Fields → Fields → Fields → String → Option LocatorIndex → Result Found
unfolding require_bom_id job_equality_id note note_stems note_lineage non_empty
cited_content_ids bom_response bom invoice invoice_id index = do
  bom_id ← require_bom_id (get "content_id" bom_response)
  resolved ← job_equality_id index (str bom_id)
  let bom_name = Option.get_or (non_empty resolved) bom_id
  (found, index1) ←
      note_stems bom ("data" ∷ "order" ∷ "log" ∷ []) (note (invoice_id ∷ []) (some bom_name), index)
  (found', index2) ←
      note_stems invoice ("data" ∷ "data_stages" ∷ "order" ∷ "structure_as_executed" ∷ [])
        (found, index1)
  ids ← note_lineage index2 (get "stageLineage" bom) found'
  ok (ids, index2)

abbrev pub Blobs : Type 0
Blobs = List (String × Bytes)

unfoldable pub require_blob : Option Bytes → Result Bytes
require_blob none = err runtime_error
require_blob (some blob) = ok blob

unfoldable pub copy_blob : CasHttpStore → String → Blobs → Result Blobs
unfolding require_blob
copy_blob store content_id dest_cas = do
  found ← CasStore.get content_id store
  blob ← require_blob found
  key ← content_id_fs_key content_id
  ok (write key blob dest_cas)

unfoldable pub copy_blobs : CasHttpStore → List String → Blobs → Result Blobs
unfolding copy_blob
copy_blobs store [] dest_cas = ok dest_cas
copy_blobs store (content_id ∷ ids) dest_cas = do
  dest_cas' ← copy_blob store content_id dest_cas
  copy_blobs store ids dest_cas'

-- the files under the result's directory
pub record JobResult : Type 0 where
  pub cas : Blobs
  pub invoice_json : Fields
  pub bom_json : Fields
  pub result_json : Fields

-- the dict that a value must be
unfoldable pub require_object : Option Fields → Result Fields
require_object none = err runtime_error
require_object (some fs) = ok fs

unfoldable pub require_id : Option String → Result String
unfolding non_empty
require_id id = elim (non_empty id) [ none ↦ err runtime_error | some s ↦ ok s ]

-- `a or b`
unfoldable pub first_uri : Option String → Option String → Option String
unfolding non_empty
first_uri a b = elim (non_empty a) [ none ↦ b | some s ↦ some s ]

-- `result.json`
unfoldable pub job_json : Fields → Fields → Fields → String → Fields
unfolding first_uri
job_json bom_response bom invoice invoice_id =
    let data_uri = first_uri (ref_uri bom "data") (ref_uri invoice "data") in
    let order_uri = first_uri (ref_uri bom "order") (ref_uri invoice "order") in
    field "content_id" (get "content_id" bom_response) (
      field "invoice_content_id" (str invoice_id) (
        field "invoice_uri" (opt (ref_uri bom "invoice"))
          (field "data_uri" (opt data_uri) (field "order_uri" (opt order_uri) end))))

unfoldable pub copy_cited :
    Fields
    → Fields
    → Fields
    → String
    → CasHttpStore
    → Option LocatorIndex
    → Blobs
    → Result (JobResult × Option LocatorIndex)
unfolding cited_content_ids copy_blobs job_json
copy_cited bom_response bom invoice invoice_id store index dest_cas = do
  (ids, index') ← cited_content_ids bom_response bom invoice invoice_id index
  cas ← copy_blobs store ids dest_cas
  ok (
    record {
      cas = cas;
      invoice_json = invoice;
      bom_json = bom;
      result_json = job_json bom_response bom invoice invoice_id;
    },
    index',
  )

module _ (loads : Bytes → Result Json) where
  unfoldable pub read_invoice : CasHttpStore → String → Result Fields
  unfolding require_object require_blob
  read_invoice store invoice_id = do
    stored ← CasStore.get invoice_id store
    invoice_blob ← require_blob stored
    document ← loads invoice_blob
    require_object (as_dict document)

  -- Returns the files and the index. `dest` is what `resolve_result_dir` gives or raises, and
  -- `dest_cas` holds what the directory of blobs in it holds already.
  unfoldable pub write_job_result :
      Fields
      → Result Segments
      → CasHttpStore
      → Option LocatorIndex
      → Blobs
      → Result (JobResult × Option LocatorIndex)
  unfolding require_object require_id ref_content_id read_invoice copy_cited
  write_job_result bom_response dest store index dest_cas = do
    bom ← require_object (as_dict (get "bom" bom_response))
    path ← dest
    (id, index1) ← ref_content_id bom "invoice" index
    invoice_id ← require_id id
    invoice ← read_invoice store invoice_id
    copy_cited bom_response bom invoice invoice_id store index1 dest_cas
