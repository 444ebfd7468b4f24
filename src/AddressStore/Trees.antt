-- ===== src/AddressStore/Trees.antt =====
-- A directory that is stored in the blobs of a home is materialized from there.
use cats.Prelude.{
  String, ◌≡◌, refl, ap, ◌∙◌, true, inl, inr, Bool, Option, none, some, List, [], Option-cases,
  arith,
}
use cats.Result.{Result, ok, ◌>>=◌, >>=-eq-ok, require, require-eq-ok}
use cats.Json.{Json, Fields, obj}
use cats.Files.{read}
use cats.Digest.{is_hex_sha256, from_ni}
use cats.Digest.Names.{from_ni-is_ni_or_digest}
use cats.Digest.Codec.{Bytes}
use cats.CasStore.{CasHttpStore}
use cats.CasStore.Integrity.{IsAddressed}
use cats.Manifest.{
  Entries, Tree, tree_files, put_tree, materialize_tree, is_directory_manifest,
  build_manifest_entries,
}
use cats.Manifest.Entries.{Distinct, AllClean}
use cats.Manifest.RoundTrip.{materialize_tree-put_tree}
use cats.AddressStore.{Home, cat_bytes}
use cats.AddressStore.Get.{
  tree_of, fetch_id, parsed, indexed_id, manifest_id, is_manifest, write_out, materialize,
}
use cats.AddressStore.Ids.{from_ni-not_http, from_ni-not_hl}
use cats.AddressStore.Stored.{cat_bytes-held}

parsed-eq-ok :
    (loads : Bytes → Option Json) (raw : Bytes) (document : Json)
    → parsed loads raw ≡ ok document
    → loads raw ≡ some document
unfolding parsed
parsed-eq-ok loads raw document done = elim (Option-cases (loads raw)) [
  | inl nothing ↦ let h = rw (parsed, nothing) at done in ground arith
  | inr (found, there) ↦ let h = rw (parsed, there) at done in ground arith
]

manifest_id-named :
    (home : Option Home) (x d : String) → from_ni x ≡ ok d → manifest_id home x none ≡ ok x
unfolding manifest_id indexed_id
manifest_id-named none x d named = rw (from_ni-not_hl x d named) refl
manifest_id-named (some home) x d named =
    rw (from_ni-not_hl x d named, from_ni-not_http x d named) refl

module _ (sha256_hex : Bytes → String) (http_get : String → Result Bytes)
    (loads : Bytes → Option Json) where
  materialize-named :
      (home : Option Home) (x d : String) (dest : List (String × Bytes))
      → from_ni x ≡ ok d
      → materialize sha256_hex http_get loads home x dest none ≡ (
          cat_bytes sha256_hex http_get home x none
          >>= write_out sha256_hex http_get loads home x dest none)
  unfolding materialize
  materialize-named home x d dest named =
      rw (from_ni-not_http x d named, from_ni-is_ni_or_digest x d named) refl

  write_out-tree :
      (home : Option Home) (x d : String) (dest files : List (String × Bytes)) (raw : Bytes)
      (document : Json)
      → from_ni x ≡ ok d
      → materialize_tree (parsed loads) (fetch_id sha256_hex http_get home) x dest ≡ ok files
      → loads raw ≡ some document
      → is_directory_manifest document ≡ true
      → write_out sha256_hex http_get loads home x dest none raw ≡ ok (tree_of files)
  unfolding write_out is_manifest
  write_out-tree home x d dest files raw document named done loaded is_dir =
      rw (loaded, is_dir, manifest_id-named home x d named, done) refl

  -- what `materialize_tree` writes for a name is what `get` writes
  materialize-tree :
      (home : Option Home) (x d : String) (dest files : List (String × Bytes))
      → from_ni x ≡ ok d
      → materialize_tree (parsed loads) (fetch_id sha256_hex http_get home) x dest ≡ ok files
      → materialize sha256_hex http_get loads home x dest none ≡ ok (tree_of files)
  unfolding materialize_tree fetch_id
  materialize-tree home x d dest files named done =
      let (raw, fetched, h1) = >>=-eq-ok (cat_bytes sha256_hex http_get home x none) _ done in
      let (document, loaded, h2) = >>=-eq-ok (parsed loads raw) _ h1 in
      let (_, passed, h3) = >>=-eq-ok (require (is_directory_manifest document) _) _ h2 in
      let is_dir = require-eq-ok (is_directory_manifest document) _ passed in
      materialize-named home x d dest named
      ∙ ap (λ r. r >>= write_out sha256_hex http_get loads home x dest none) fetched
      ∙ write_out-tree home x d dest files raw document named done
          (parsed-eq-ok loads raw document loaded) is_dir

  -- Where the hash gives 64 lowercase hex digits, the files of a directory have different paths
  -- that are clean already, the bytes of a manifest are read back as the manifest, and the blobs
  -- of a home, each under the digest of its bytes, come from a `put_tree` of that directory, `get`
  -- writes a tree to an empty destination in which each path holds what the directory holds under
  -- it, whatever is served over HTTP.
  pub materialize-put_tree :
      (hashes : (b : Bytes) → is_hex_sha256 (sha256_hex b) ≡ true) (dumps : Json → Result Bytes)
      (ignore : String → Bool) (root : Tree) (s : CasHttpStore) (ni d : String) (home : Home)
      → Distinct (tree_files ignore "" root)
      → AllClean (tree_files ignore "" root)
      → ((es : Entries) (m : Fields) (b : Bytes)
          → build_manifest_entries es ≡ ok m
          → dumps (obj m) ≡ ok b
          → loads b ≡ some (obj m))
      → IsAddressed sha256_hex hashes home.store
      → put_tree sha256_hex dumps ignore (some root) s ≡ ok (ni, home.store)
      → from_ni ni ≡ ok d
      → (written : List (String × Bytes)) × (materialize sha256_hex http_get loads
            (some home)
            ni
            []
            none
          ≡ ok (tree_of written))
        × ((p : String) → read p written ≡ read p (tree_files ignore "" root))
  unfolding parsed fetch_id
  materialize-put_tree hashes dumps ignore root s ni d home distinct clean parses addressed done
        named =
      let (written, wrote, same) =
        materialize_tree-put_tree sha256_hex hashes dumps (parsed loads)
          (fetch_id sha256_hex http_get (some home)) ignore root s ni home.store distinct clean
          (λ es m b built dumped. rw (parsed, parses es m b built dumped) refl)
          (λ id b held. cat_bytes-held sha256_hex hashes http_get home id b none addressed held)
          done in
      (written, materialize-tree (some home) ni d [] written named wrote, same)
