-- ===== src/AddressStore/Get.antt =====
-- AddressStore.get of address_store/store.py: what is read is written as a tree of files or as one
-- file. `loads` is json.loads of the bytes, where they decode.
use cats.Prelude.{String, Bool, false, not, ◌&&◌, Option, none, some, List, if◌then◌else◌}
use mathlib.Core.Option
use cats.Result.{Result, ok, err, value_error, runtime_error, attribute_error, ◌>>=◌}
use cats.Text.{strip}
use cats.Digest.{is_ni_or_digest}
use cats.Digest.Codec.{Bytes}
use cats.Hashlink.{is_hl, from_hl}
use cats.Json.{Json, str}
use cats.Locators.{find_content_id_for_uri}
use cats.ContentRef.{is_http_uri}
use cats.Refs.{non_empty}
use cats.Manifest.{FetchBytes, is_directory_manifest, materialize_tree}
use cats.AddressStore.{Home, cat_bytes}

module _ (sha256_hex : Bytes → String) (http_get : String → Result Bytes) where
  unfoldable pub fetch_id : Option Home → FetchBytes
  unfolding cat_bytes
  fetch_id home (str content_id) = cat_bytes sha256_hex http_get home content_id none
  fetch_id home _ = err attribute_error

-- what is written: a tree of files, or one file
pub data Materialized : Type 0 where
  tree_of : List (String × Bytes) → Materialized
  file_of : Bytes → Materialized

-- the id of the manifest: that of the index for an address, that of a hashlink, the digest that is
-- expected, or the id itself
unfoldable pub indexed_id : Option Home → String → String → Result String
unfolding non_empty
indexed_id none content_id id = ok id
indexed_id (some home) content_id id =
    if is_http_uri content_id
    then (do
      found ← find_content_id_for_uri content_id home.index
      ok (Option.get_or (non_empty found) id))
    else ok id

unfoldable pub manifest_id : Option Home → String → Option String → Result String
unfolding non_empty indexed_id
manifest_id home content_id expect_digest = do
  id ←
      if is_hl content_id
      then (do (ni, _) ← from_hl (strip content_id); ok ni)
      else ok (Option.get_or (non_empty expect_digest) content_id)
  indexed_id home content_id id

unfoldable pub is_manifest : Option Json → Bool
is_manifest none = false
is_manifest (some document) = is_directory_manifest document

unfoldable pub parsed : (Bytes → Option Json) → Bytes → Result Json
parsed loads raw = elim (loads raw) [ none ↦ err value_error | some document ↦ ok document ]

module _ (sha256_hex : Bytes → String) (http_get : String → Result Bytes)
    (loads : Bytes → Option Json) where
  -- `dest` holds the files that stand at the destination already: the tree of a manifest, else the
  -- bytes as one file.
  unfoldable pub write_out :
      Option Home → String → List (String × Bytes) → Option String → Bytes → Result Materialized
  unfolding cat_bytes fetch_id manifest_id is_manifest parsed
  write_out home content_id dest expect_digest raw =
      if is_manifest (loads raw)
      then (do
        id ← manifest_id home content_id expect_digest
        files ← materialize_tree (parsed loads) (fetch_id sha256_hex http_get home) id dest
        ok (tree_of files))
      else ok (file_of raw)

  unfoldable pub materialize :
      Option Home → String → List (String × Bytes) → Option String → Result Materialized
  unfolding cat_bytes write_out
  materialize home content_id dest expect_digest =
      if not (is_http_uri content_id)
        && (not (is_ni_or_digest content_id) && not (is_hl content_id))
      then err runtime_error
      else (do
        raw ← cat_bytes sha256_hex http_get home content_id expect_digest
        write_out home content_id dest expect_digest raw)
