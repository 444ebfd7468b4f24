-- ===== src/Manifest/RoundTrip.antt =====
-- A directory that `put_tree` stores is what `materialize_tree` writes.
use cats.Prelude.{
  String, ◌≡◌, refl, sym, ◌∙◌, inl, inr, Bool, true, Option, none, some, List, [], eq_iff, eq_refl,
  arith, Option-cases,
}
use cats.Result.{Result, ok, >>=-eq-ok}
use cats.Digest.{is_hex_sha256}
use cats.Digest.Codec.{Bytes}
use cats.Files.{read}
use cats.CasStore.{CasHttpStore}
use cats.CasStore
use cats.CasStore.Integrity.{get-put, get-put_keeps}
use cats.Json.{Json, Fields, str, obj, end, field, find, get, equal, is_dict}
use cats.Manifest.{
  Entries, FetchBytes, Tree, manifest_type, safe_path, sorted_fields, clean_entries, write_entries,
  put_files, build_manifest_entries, put_tree, tree_files, materialize_tree, entries_of,
  is_directory_manifest,
}
use cats.Manifest.Stored.{AllClean-read, Held, Held-Keeps, put_files-Held}
use cats.Manifest.Entries.{
  Distinct, AllClean, DistinctFields, find-sorted_fields, sorted_fields-DistinctFields, id_under,
  clean_entries-find, AllFetch, Written, write_entries-Written,
}

module _ (loads : Bytes → Result Json) (fetch_bytes : FetchBytes) where
  -- the entry of every key is clean and leads to bytes
  abbrev AtKeys : Fields → Type 0
  AtKeys fs =
      (p : String) (v : Json)
      → find p fs ≡ some v
      → (safe_path p ≡ ok p) × ((b : Bytes) × (fetch_bytes v ≡ ok b))

  AtKeys-rest :
      (k : String) (v : Json) (fs : Fields) → find k fs ≡ none → AtKeys (field k v fs) → AtKeys fs
  unfolding find
  AtKeys-rest k v fs new at_key p w found = at_key p w (ground (arith, eq_iff k p))

  AtKeys-AllFetch : (fs : Fields) → DistinctFields fs → AtKeys fs → AllFetch loads fetch_bytes fs
  unfolding find
  AtKeys-AllFetch end d at_key = tt
  AtKeys-AllFetch (field k v fs) (new, d) at_key =
      let (clean, fetched) = at_key k v (rw (eq_refl k) refl) in
      (clean, fetched, AtKeys-AllFetch fs d (AtKeys-rest k v fs new at_key))

  -- the fetch resolves what the store holds
  abbrev Resolves : CasHttpStore → Type 0
  Resolves s =
      (id : String) (b : Bytes) → CasStore.get id s ≡ ok (some b) → fetch_bytes (str id) ≡ ok b

  Held-fetched :
      (s : CasHttpStore)
      → Resolves s
      → (file : Option Bytes) (ni : String) → Held file none (some ni) s
      → (b : Bytes) × (fetch_bytes (str ni) ≡ ok b)
  Held-fetched s resolves none ni held = ground arith
  Held-fetched s resolves (some b) ni (name, same, got) =
      let is_name : ni ≡ name = ground arith in (b, rw is_name (resolves name b got))

  Held-Written :
      (s : CasHttpStore)
      → Resolves s
      → (file : Option Bytes) (entry : Option String) (now : Option Bytes) → Held file none entry s
      → Written loads fetch_bytes (id_under entry none) none now
      → now ≡ file
  Held-Written s resolves none entry now held written = rw held at written
  Held-Written s resolves (some b) entry now (ni, same, got) written =
      let (b', fetched, here) = rw same at written in
      let as_stored = resolves ni b got in ground arith

  sorted-AtKeys :
      (s : CasHttpStore)
      → Resolves s
      → (files : List (String × Bytes)) (es : Entries) (fs : Fields) → AllClean es
      → ((p : String) → Held (read p files) none (read p es) s)
      → ((p : String) → find p fs ≡ id_under (read p es) none)
      → AtKeys (sorted_fields fs)
  sorted-AtKeys s resolves files es fs clean held entered p v found =
      let here : id_under (read p es) none ≡ some v =
        sym (entered p) ∙ sym (find-sorted_fields p fs) ∙ found in
      elim (Option-cases (read p es)) [
        | inl absent ↦ let gone = rw absent at here in ground arith
        | inr (ni, listed) ↦
            let led : some (str ni) ≡ some v = rw listed at here in
            let same : v ≡ str ni = ground arith in
            let (b, fetched) = Held-fetched s resolves (read p files) ni (rw listed at (held p)) in
            (AllClean-read es p ni clean listed, (b, rw same fetched))
      ]

module _ (sha256_hex : Bytes → String) (hashes : (b : Bytes) → is_hex_sha256 (sha256_hex b) ≡ true)
    (dumps : Json → Result Bytes) (loads : Bytes → Result Json) (fetch_bytes : FetchBytes) where
  -- the manifest of clean entries, and what is written for it
  manifest-Written :
      (s : CasHttpStore)
      → Resolves loads fetch_bytes s
      → (files : List (String × Bytes)) (es : Entries) (m : Fields) → Distinct es
      → AllClean es
      → ((p : String) → Held (read p files) none (read p es) s)
      → build_manifest_entries es ≡ ok m
      → (is_directory_manifest (obj m) ≡ true)
        × (written : List (String × Bytes)) × (write_entries loads fetch_bytes
              (entries_of (obj m))
              []
            ≡ ok written)
        × ((p : String) → read p written ≡ read p files)
  unfolding build_manifest_entries is_directory_manifest entries_of get equal is_dict read find
  manifest-Written s resolves files es m d clean held built =
      let (fs, cleaned, made) = >>=-eq-ok (clean_entries es end) _ built in
      let (df, entered) = clean_entries-find es end fs d clean tt cleaned in
      let at_keys = sorted-AtKeys loads fetch_bytes s resolves files es fs clean held entered in
      let distinct = sorted_fields-DistinctFields fs df in
      let (written, done, found) =
        write_entries-Written loads fetch_bytes (sorted_fields fs) []
          (AtKeys-AllFetch loads fetch_bytes (sorted_fields fs) distinct at_keys) distinct in
      let same : m
          ≡ field "@type" (str manifest_type) (field "entries" (obj (sorted_fields fs)) end) =
        ground arith in
      rw same (
        refl,
        written,
        done,
        λ p.
            Held-Written loads fetch_bytes s resolves (read p files) (read p es) (read p written)
              (held p) (rw (find-sorted_fields p fs ∙ entered p) at (found p)),
      )

  -- Where the hash gives 64 lowercase hex digits, the files of a directory have different paths
  -- that are clean already, the bytes of a manifest are read back as the manifest, and the fetch
  -- resolves what the store holds, a directory that `put_tree` stored is materialized at an empty
  -- destination, and there each path holds what the directory holds under it.
  pub materialize_tree-put_tree :
      (ignore : String → Bool) (root : Tree) (s : CasHttpStore) (ni : String) (s' : CasHttpStore)
      → Distinct (tree_files ignore "" root)
      → AllClean (tree_files ignore "" root)
      → ((es : Entries) (m : Fields) (b : Bytes)
          → build_manifest_entries es ≡ ok m
          → dumps (obj m) ≡ ok b
          → loads b ≡ ok (obj m))
      → ((id : String) (b : Bytes) → CasStore.get id s' ≡ ok (some b) → fetch_bytes (str id) ≡ ok b)
      → put_tree sha256_hex dumps ignore (some root) s ≡ ok (ni, s')
      → (written : List (String × Bytes)) × (materialize_tree loads fetch_bytes ni [] ≡ ok written)
        × ((p : String) → read p written ≡ read p (tree_files ignore "" root))
  unfolding put_tree materialize_tree read
  materialize_tree-put_tree ignore root s ni s' d clean parses resolves done =
      let files = tree_files ignore "" root in
      let ((es, s1), put, h1) = >>=-eq-ok (put_files sha256_hex dumps files [] s) _ done in
      let (m, built, h2) = >>=-eq-ok (build_manifest_entries es) _ h1 in
      let (b, dumped, stored) = >>=-eq-ok (dumps (obj m)) _ h2 in
      let (de, ce, keeps, held) =
        put_files-Held sha256_hex hashes dumps files [] s es s1 d clean tt tt put in
      let kept : (p : String) → Held (read p files) none (read p es) s' = λ p.
        Held-Keeps sha256_hex hashes dumps (read p files) none (read p es) s1 s'
          (λ x c h. get-put_keeps sha256_hex hashes b c s1 ni s' x stored h) (held p) in
      let (is_manifest, written, wrote, same) =
        manifest-Written s' resolves files es m de ce kept built in
      let raw = resolves ni b (get-put sha256_hex hashes b s1 ni s' stored) in
      (written, rw (raw, parses es m b built dumped, is_manifest) wrote, same)
