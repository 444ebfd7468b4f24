-- ===== src/Examples/Trees.antt =====
-- A directory with one empty file in a directory, and the manifest of it.
use cats.Prelude.{
  String, ◌≡◌, refl, Bool, false, ◌&&◌, none, some, Option, List, [], ◌∷◌, ◌==◌, eq_iff, arith,
  if◌then◌else◌,
}
use cats.Result.{Result, ok, err, value_error}
use cats.Text.{is_empty, starts_with, contains, replace_char, lstrip_by, is_char, ◌<>◌}
use cats.Files.{read}
use cats.Digest.Codec.{Bytes}
use cats.Json.{Json, Fields, str, obj, end, field, set}
use cats.Manifest.{
  Tree, directory, tree, no_trees, Entries, manifest_type, put_tree, tree_files, own_files,
  rel_path, put_files, set_entry, build_manifest_entries, clean_entries, sorted_fields, insert_key,
  safe_path, is_unsafe_path, clean_path,
}
use cats.Manifest.Entries.{Distinct, AllClean}
use cats.AddressStore.Get.{tree_of, materialize}
use cats.AddressStore.Trees.{materialize-put_tree}
use cats.CasStore.Integrity.{IsAddressed, put-IsAddressed}
use cats.Examples.Addresses.{home_b, unreachable}
use cats.Examples.Data.{
  name_a, name_b, digest_b, read_b, cat, digest_of_size, digest_of_size-valid, recognised_a,
}
use cats.Examples.Stores.{empty_store, one_blob, two_blobs, first_put, second_put, addressed}

abbrev root : Tree
root = directory [] (tree "plant" (directory (("main.tf", []) ∷ []) no_trees) no_trees)

unfoldable keep_all : String → Bool
keep_all rel = false

abbrev manifest : Fields
manifest =
    field "@type" (str manifest_type)
      (field "entries" (obj (field "plant/main.tf" (str name_a) end)) end)

unfoldable only_file : String → String → String → String → String → Bool
only_file a t c p n =
    a == "@type"
    && (t == manifest_type && (c == "entries" && (p == "plant/main.tf" && n == name_a)))

-- knows this manifest only
unfoldable dumps : Json → Result Bytes
unfolding only_file
dumps (obj (field a (str t) (field c (obj (field p (str n) end)) end))) =
    if only_file a t c p n then ok cat else err value_error
dumps _ = err value_error

unfoldable loads : Bytes → Option Json
loads raw = some (obj manifest)

dumped : (m : Fields) (b : Bytes) → dumps (obj m) ≡ ok b → loads b ≡ some (obj m)
unfolding dumps loads only_file
dumped (field a (str t) (field c (obj (field p (str n) end)) end)) b done = ground (
  arith,
  eq_iff a "@type",
  eq_iff t manifest_type,
  eq_iff c "entries",
  eq_iff p "plant/main.tf",
  eq_iff n name_a,
)
dumped _ b done = ground arith

parses :
    (es : Entries) (m : Fields) (b : Bytes)
    → build_manifest_entries es ≡ ok m
    → dumps (obj m) ≡ ok b
    → loads b ≡ some (obj m)
parses es m b built = dumped m b

two_blobs-IsAddressed : IsAddressed digest_of_size digest_of_size-valid two_blobs
two_blobs-IsAddressed =
    put-IsAddressed digest_of_size digest_of_size-valid cat one_blob name_b two_blobs second_put
      addressed

listed : tree_files keep_all "" root ≡ ("plant/main.tf", []) ∷ []
unfolding tree_files own_files rel_path keep_all is_empty ◌<>◌
listed = refl

clean_name : safe_path "plant/main.tf" ≡ ok "plant/main.tf"
unfolding safe_path is_unsafe_path clean_path is_empty starts_with contains replace_char lstrip_by
    is_char ◌<>◌
clean_name = refl

stored_tree :
    put_tree digest_of_size dumps keep_all (some root) empty_store ≡ ok (name_b, two_blobs)
unfolding put_tree put_files set_entry build_manifest_entries clean_entries set sorted_fields
    insert_key dumps only_file
stored_tree = rw (listed, first_put, clean_name, recognised_a.1, second_put) refl

files-Distinct : Distinct (tree_files keep_all "" root)
unfolding read
files-Distinct = rw listed (refl, tt)

files-AllClean : AllClean (tree_files keep_all "" root)
files-AllClean = rw listed (clean_name, tt)

materialize-put_tree_example :
    (written : List (String × Bytes)) × (materialize digest_of_size unreachable loads
        (some home_b)
        name_b
        []
        none
      ≡ ok (tree_of written))
    × ((p : String) → read p written ≡ read p (tree_files keep_all "" root))
materialize-put_tree_example =
    materialize-put_tree digest_of_size unreachable loads digest_of_size-valid dumps keep_all root
      empty_store name_b digest_b home_b files-Distinct files-AllClean parses two_blobs-IsAddressed
      stored_tree read_b.1
