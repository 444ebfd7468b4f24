-- ===== src/LdpStore.antt =====
-- ldp/resource_store.py and ldp/bom_store.py: the Orders, Invoices and BOMs that a Node serves, each
-- under the file key of its content id, the file that was written last in front. `base_url` is the
-- caller's or the Node's own.
pub mod Refine
use cats.Prelude.{String, Option, none, some, List, [], ◌∷◌}
use cats.Result.{Result, ok, err, ◌>>=◌}
use cats.Text.{◌<>◌, rstrip_by, is_char}
use cats.Digest.{content_id_fs_key}
use cats.Digest.Codec.{Bytes}
use cats.Json.{Json, Fields, str, obj, arr, end, field, items}
use cats.Files.{read, write, names}

pub data ResourceKind : Type 0 where
  invoices orders : ResourceKind

unfoldable pub kind_name : ResourceKind → String
kind_name invoices = "invoices"
kind_name orders = "orders"

unfoldable pub resource_ldp_path : ResourceKind → String → Result String
unfolding kind_name
resource_ldp_path kind content_id = do
  key ← content_id_fs_key content_id
  ok ("/ldp/" <> (kind_name kind <> ("/" <> key)))

unfoldable pub resource_ldp_uri : ResourceKind → String → String → Result String
unfolding resource_ldp_path
resource_ldp_uri kind content_id base_url = do
  path ← resource_ldp_path kind content_id
  ok (rstrip_by (is_char b'/') base_url <> path)

unfoldable pub invoice_ldp_path : String → Result String
unfolding resource_ldp_path
invoice_ldp_path content_id = resource_ldp_path invoices content_id

unfoldable pub invoice_ldp_uri : String → String → Result String
unfolding resource_ldp_uri
invoice_ldp_uri content_id base_url = resource_ldp_uri invoices content_id base_url

unfoldable pub order_ldp_path : String → Result String
unfolding resource_ldp_path
order_ldp_path content_id = resource_ldp_path orders content_id

unfoldable pub order_ldp_uri : String → String → Result String
unfolding resource_ldp_uri
order_ldp_uri content_id base_url = resource_ldp_uri orders content_id base_url

unfoldable pub bom_ldp_path : String → Result String
bom_ldp_path bom_cid = do key ← content_id_fs_key bom_cid; ok ("/ldp/boms/" <> key)

unfoldable pub bom_ldp_uri : String → String → Result String
unfolding bom_ldp_path
bom_ldp_uri bom_cid base_url = do
  path ← bom_ldp_path bom_cid
  ok (rstrip_by (is_char b'/') base_url <> path)

-- the address of each stem
unfoldable pub addresses : (String → Result String) → List String → Result (List Json)
addresses address [] = ok []
addresses address (stem ∷ stems) = do
  uri ← address stem
  uris ← addresses address stems
  ok (str uri ∷ uris)

-- the listing of a container at `id`
unfoldable pub container : String → List Json → Fields
container id contains =
    field "@context"
      (obj (
        field "ldp" (str "http://www.w3.org/ns/ldp#") (
          field "contains" (obj (field "@id" (str "ldp:contains") (field "@type" (str "@id") end)))
            end)))
      (field "@id" (str id) (
        field "@type" (arr (items (str "ldp:BasicContainer" ∷ str "ldp:Container" ∷ [])))
          (field "contains" (arr (items contains)) end)))

pub record JsonResourceStore : Type 0 where
  pub kind : ResourceKind
  pub files : List (String × Bytes)

unfoldable pub put_bytes : String → Bytes → JsonResourceStore → Result JsonResourceStore
put_bytes content_id data_bytes s = do
  key ← content_id_fs_key content_id
  ok (record { kind = s.kind; files = write key data_bytes s.files })

unfoldable pub get_bytes : String → JsonResourceStore → Result (Option Bytes)
get_bytes content_id s = do key ← content_id_fs_key content_id; ok (read key s.files)

unfoldable pub list_resources : JsonResourceStore → List String
list_resources s = names s.files

unfoldable pub resource_container : String → JsonResourceStore → Result Fields
unfolding resource_ldp_uri list_resources addresses container
resource_container base_url s = do
  let base = rstrip_by (is_char b'/') base_url
  contains ← addresses (λ stem. resource_ldp_uri s.kind stem base) (list_resources s)
  ok (container (base <> ("/ldp/" <> (kind_name s.kind <> "/"))) contains)

-- `dumps` gives the bytes of a document and its newline, `loads` the document of bytes; both may
-- raise.
module _ (dumps : Json → Result Bytes) (loads : Bytes → Result Json) where
  unfoldable pub put_json : String → Json → JsonResourceStore → Result JsonResourceStore
  unfolding put_bytes
  put_json content_id document s = do data_bytes ← dumps document; put_bytes content_id data_bytes s

  unfoldable pub loaded : Option Bytes → Result (Option Json)
  loaded none = ok none
  loaded (some raw) = do document ← loads raw; ok (some document)

  unfoldable pub get_json : String → JsonResourceStore → Result (Option Json)
  unfolding get_bytes loaded
  get_json content_id s = do raw ← get_bytes content_id s; loaded raw

pub record BomLdpStore : Type 0 where
  pub boms : List (String × Fields)

unfoldable pub put_bom : String → Fields → BomLdpStore → Result BomLdpStore
put_bom bom_cid bom s = do
  key ← content_id_fs_key bom_cid
  ok (record { boms = write key bom s.boms })

unfoldable pub get_bom : String → BomLdpStore → Result (Option Fields)
get_bom bom_cid s = do key ← content_id_fs_key bom_cid; ok (read key s.boms)

unfoldable pub list_bom_cids : BomLdpStore → List String
list_bom_cids s = names s.boms

unfoldable pub bom_container : String → BomLdpStore → Result Fields
unfolding bom_ldp_uri list_bom_cids addresses container
bom_container base_url s = do
  let base = rstrip_by (is_char b'/') base_url
  contains ← addresses (λ cid. bom_ldp_uri cid base) (list_bom_cids s)
  ok (container (base <> "/ldp/boms/") contains)
