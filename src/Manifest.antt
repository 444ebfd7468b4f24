-- ===== src/Manifest.antt =====
-- cas/manifest.py: directories in the CAS, as a manifest of the names of their files. A directory on
-- disk is a tree, read in the order of os.walk; what is written under the destination is a list of
-- files, and an error of the file system is left out. `dumps` gives the bytes of a document and its
-- newline, `loads` the document of bytes.
pub mod Safe
pub mod Entries
pub mod Stored
pub mod RoundTrip
use cats.Prelude.{
  ℕ, String, Char, code, Bool, true, false, not, ◌&&◌, ◌||◌, Option, none, some, List, [], ◌∷◌,
  ◌++◌, ◌==◌, ltb, eqb, if◌then◌else◌,
}
use Prim.Native.String
use cats.Result.{Result, ok, err, value_error, not_a_directory, require, ◌>>=◌, ◌>>◌}
use cats.Text.{◌<>◌, is_empty, starts_with, contains, replace_char, lstrip_by, is_char}
use cats.Digest.{is_ni_or_digest}
use cats.Digest.Codec.{Bytes}
use cats.Json.{Json, Fields, str, obj, end, field, get, equal, set, is_dict}
use cats.Files.{write}
use cats.CasStore.{CasHttpStore}
use cats.CasStore

abbrev pub manifest_type : String
manifest_type = "CasDirectoryManifest"

-- `rel.replace('\\', '/').lstrip('/')`
unfoldable pub clean_path : String → String
clean_path rel = lstrip_by (is_char b'/') (replace_char b'\\' "/" rel)

unfoldable pub is_unsafe_path : String → Bool
is_unsafe_path path =
    is_empty path || starts_with path "../" || contains ("/" <> (path <> "/")) "/../"

unfoldable pub safe_path : String → Result String
unfolding clean_path is_unsafe_path
safe_path rel =
    let path = clean_path rel in if is_unsafe_path path then err value_error else ok path

-- Python's `<` on texts
unfoldable pub before : String → String → Bool
before s String.[] = false
before String.[] (String.◌∷◌ d t) = true
before (String.◌∷◌ c s) (String.◌∷◌ d t) =
    ltb (code c) (code d) || (eqb (code c) (code d) && before s t)

unfoldable pub insert_key : String → Json → Fields → Fields
unfolding before
insert_key key value end = field key value end
insert_key key value (field k v fs) =
    if before k key then field k v (insert_key key value fs) else field key value (field k v fs)

-- `dict(sorted(d.items()))`
unfoldable pub sorted_fields : Fields → Fields
unfolding insert_key
sorted_fields end = end
sorted_fields (field k v fs) = insert_key k v (sorted_fields fs)

abbrev pub Entries : Type 0
Entries = List (String × String)

unfoldable pub clean_entries : Entries → Fields → Result Fields
unfolding safe_path
clean_entries [] cleaned = ok cleaned
clean_entries ((rel, content_id) ∷ entries) cleaned = do
  path ← safe_path rel
  require (is_ni_or_digest content_id) value_error
  clean_entries entries (set path (str content_id) cleaned)

unfoldable pub build_manifest_entries : Entries → Result Fields
unfolding clean_entries sorted_fields
build_manifest_entries entries = do
  cleaned ← clean_entries entries end
  ok (field "@type" (str manifest_type) (field "entries" (obj (sorted_fields cleaned)) end))

unfoldable pub is_directory_manifest : Json → Bool
is_directory_manifest (obj fs) =
    equal (get "@type" fs) (str manifest_type) && is_dict (get "entries" fs)
is_directory_manifest _ = false

mutual
  pub data Tree : Type 0 where
    directory : List (String × Bytes) → Trees → Tree

  pub data Trees : Type 0 where
    no_trees : Trees
    tree : String → Tree → Trees → Trees

-- the path of a name below a directory, whose own path is empty for the root
unfoldable pub rel_path : String → String → String
rel_path rel_dir name = if is_empty rel_dir then name else rel_dir <> ("/" <> name)

module _ (ignore : String → Bool) where
  unfoldable pub own_files : String → List (String × Bytes) → List (String × Bytes)
  unfolding rel_path
  own_files rel_dir [] = []
  own_files rel_dir ((name, data_bytes) ∷ files) =
      let rest = own_files rel_dir files in
      if ignore (rel_path rel_dir name) then rest else (rel_path rel_dir name, data_bytes) ∷ rest

  unfoldable mutual
    pub tree_files : String → Tree → List (String × Bytes)
    tree_files rel_dir (directory files trees) =
        own_files rel_dir files ++ trees_files rel_dir trees

    pub trees_files : String → Trees → List (String × Bytes)
    trees_files rel_dir no_trees = []
    trees_files rel_dir (tree name sub trees) =
        let rest = trees_files rel_dir trees in
        let inside = tree_files (rel_path rel_dir name) sub in
        if ignore (rel_path rel_dir name) then rest else inside ++ rest

unfoldable pub set_entry : String → String → Entries → Entries
set_entry rel content_id [] = (rel, content_id) ∷ []
set_entry rel content_id ((r, c) ∷ entries) =
    let rest = (r, c) ∷ set_entry rel content_id entries in
    if r == rel then (rel, content_id) ∷ entries else rest

module _ (sha256_hex : Bytes → String) (dumps : Json → Result Bytes) where
  unfoldable pub put_files :
      List (String × Bytes) → Entries → CasHttpStore → Result (Entries × CasHttpStore)
  unfolding set_entry
  put_files [] entries store = ok (entries, store)
  put_files ((rel, data_bytes) ∷ files) entries store = do
    (ni, store') ← CasStore.put sha256_hex data_bytes store
    put_files files (set_entry rel ni entries) store'

  -- `none` is a path that is no directory
  unfoldable pub put_tree :
      (String → Bool) → Option Tree → CasHttpStore → Result (String × CasHttpStore)
  unfolding tree_files put_files build_manifest_entries
  put_tree ignore none store = err not_a_directory
  put_tree ignore (some root) store = do
    (entries, store') ← put_files (tree_files ignore "" root) [] store
    manifest ← build_manifest_entries entries
    data_bytes ← dumps (obj manifest)
    CasStore.put sha256_hex data_bytes store'

abbrev pub FetchBytes : Type 0
FetchBytes = Json → Result Bytes

unfoldable pub entries_of : Json → Fields
entries_of (obj fs) = elim (get "entries" fs) [ obj entries ↦ entries | _ ↦ end ]
entries_of _ = end

module _ (loads : Bytes → Result Json) (fetch_bytes : FetchBytes) where
  unfoldable pub write_entries : Fields → List (String × Bytes) → Result (List (String × Bytes))
  unfolding safe_path
  write_entries end written = ok written
  write_entries (field rel file_id rest) written = do
    path ← safe_path rel
    data_bytes ← fetch_bytes file_id
    write_entries rest (write path data_bytes written)

  -- the files under the destination, from those that are there
  unfoldable pub materialize_tree : String → List (String × Bytes) → Result (List (String × Bytes))
  unfolding is_directory_manifest entries_of write_entries
  materialize_tree content_id dest = do
    raw ← fetch_bytes (str content_id)
    document ← loads raw
    require (is_directory_manifest document) value_error
    write_entries (entries_of document) dest
