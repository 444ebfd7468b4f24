-- ===== src/Registry.antt =====
-- registry/store.py: the node's index of BOMs. A record file holds the document that was written; an
-- index file holds a list of BOM ids, the newest first.
pub mod Project
pub mod Build
pub mod Index
pub mod Coverage
pub mod Unique
use mathlib.Core.Option
use cats.Prelude.{
  String, Bool, true, false, not, ◌&&◌, ◌||◌, Option, none, some, List, [], ◌∷◌, ◌==◌,
  if◌then◌else◌,
}
use cats.Result.{Result, ok, err, registry_error, ambiguous_bom, ◌>>=◌}
use cats.Text.{strip, ◌<>◌, rstrip_by, is_char}
use cats.TextList.{elem}
use cats.Digest.{to_ni, from_ni, is_ni_or_digest, content_id_fs_key}
use cats.Json.{Json, Fields, str, obj, arr, end, field, items, get, set, pop, ◌or◌, text}
use cats.Files.{read, write}

unfoldable pub normalize_content_id : String → Result String
normalize_content_id value = do
  key ← content_id_fs_key value
  if is_ni_or_digest value then (do digest ← from_ni value; to_ni digest) else ok (strip value)

unfoldable pub record_bom_id : Fields → Option String
record_bom_id record' = text (get "content_id" record' or get "bom_cid" record')

unfoldable pub record_order_id : Fields → Option String
record_order_id record' = text (get "order" record' or get "order_cid" record')

unfoldable pub record_data_id : Fields → Option String
record_data_id record' = text (get "data" record' or get "data_cid" record')

pub record BomRegistry : Type 0 where
  pub boms : List (String × Fields)
  pub by_data : List (String × List String)
  pub by_order : List (String × List String)

unfoldable pub read_list : String → List (String × List String) → List String
read_list key files = Option.get_or (read key files) []

unfoldable pub append_index :
    String → String → List (String × List String) → List (String × List String)
unfolding read_list
append_index key bom_id files =
    let existing = read_list key files in
    if elem bom_id existing then files else write key (bom_id ∷ existing) files

unfoldable pub pop_all : List String → Fields → Fields
pop_all [] fs = fs
pop_all (k ∷ ks) fs = pop_all ks (pop k fs)

abbrev pub legacy_keys : List String
legacy_keys =
    "bom_cid" ∷ "invoice_cid" ∷ "order_cid" ∷ "data_cid" ∷ "input_data_cid" ∷ "function_cid"
    ∷ "structure_cid" ∷ "ingress_data_cid" ∷ "integration_data_cid" ∷ "seed_cid"
    ∷ "runtime_sbom_cid" ∷ []

-- the document that `put` writes
unfoldable pub stored_record : Fields → String → String → String → Fields
unfolding pop_all
stored_record record' bom_id order_id data_id =
    set "data" (str data_id)
      (set "order" (str order_id) (set "content_id" (str bom_id) (pop_all legacy_keys record')))

unfoldable pub put : Fields → BomRegistry → Result BomRegistry
unfolding append_index
put record' r = do
  bom_id ← normalize_content_id (Option.get_or (record_bom_id record') "")
  order_id ← normalize_content_id (Option.get_or (record_order_id record') "")
  data_id ← normalize_content_id (Option.get_or (record_data_id record') "")
  bom_key ← content_id_fs_key bom_id
  data_key ← content_id_fs_key data_id
  order_key ← content_id_fs_key order_id
  ok (record {
    boms = write bom_key (stored_record record' bom_id order_id data_id) r.boms;
    by_data = append_index data_key bom_id r.by_data;
    by_order = append_index order_key bom_id r.by_order;
  })

unfoldable pub get_record : String → BomRegistry → Result (Option Fields)
get_record content_id r = do key ← content_id_fs_key content_id; ok (read key r.boms)

unfoldable pub lookup_order : String → BomRegistry → Result (Option String)
unfolding get_record
lookup_order content_id r = do
  found ← get_record content_id r
  ok (elim found [ none ↦ none | some record' ↦ record_order_id record' ])

unfoldable pub lookup_bom : String → BomRegistry → Result (List String)
lookup_bom data_id r = do key ← content_id_fs_key data_id; ok (read_list key r.by_data)

unfoldable pub lookup_by_order : String → BomRegistry → Result (List String)
lookup_by_order order_id r = do key ← content_id_fs_key order_id; ok (read_list key r.by_order)

unfoldable pub bom_ids : List (String × Fields) → List String
bom_ids [] = []
bom_ids ((stem, record') ∷ rest) = Option.get_or (record_bom_id record') stem ∷ bom_ids rest

unfoldable pub list_boms : BomRegistry → List String
unfolding bom_ids
list_boms r = bom_ids r.boms

unfoldable pub sole : List String → Result String
sole [] = err registry_error
sole (b ∷ []) = ok b
sole (b ∷ c ∷ bs) = err ambiguous_bom

unfoldable pub resolve_unique_bom : String → BomRegistry → Result String
unfolding sole
resolve_unique_bom data_id r = do bom_ids ← lookup_bom data_id r; sole bom_ids

unfoldable pub bom_uris : String → List String → Result (List Json)
bom_uris base [] = ok []
bom_uris base (cid ∷ cids) = do
  key ← content_id_fs_key cid
  rest ← bom_uris base cids
  ok (str (base <> ("/ldp/registry/boms/" <> key)) ∷ rest)

unfoldable pub container_document : String → BomRegistry → Result Fields
unfolding bom_uris
container_document base_url r = do
  let base = rstrip_by (is_char b'/') base_url
  contains ← bom_uris base (list_boms r)
  ok (
      field "@context"
        (obj (
          field "ldp" (str "http://www.w3.org/ns/ldp#") (
            field "contains"
              (obj (field "@id" (str "ldp:contains") (field "@type" (str "@id") end))) end)))
        (field "@id" (str (base <> "/ldp/registry/")) (
          field "@type" (arr (items (str "ldp:BasicContainer" ∷ str "ldp:Container" ∷ [])))
            (field "contains" (arr (items contains)) end))))
