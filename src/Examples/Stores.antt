-- ===== src/Examples/Stores.antt =====
-- A store and a locator index that get two files.
use cats.Prelude.{
  none, String, ◌≡◌, ◌≢◌, ◌⊎◌, refl, arith, false, some, [], ◌∷◌, ◌==◌, if◌then◌else◌,
}
use cats.Result.{ok, err, runtime_error}
use cats.Text.{is_empty}
use cats.Digest.Codec.{Bytes}
use cats.Digest.Names.{validate_digest_segment_self}
use cats.Files.{read, write, without}
use cats.CasStore.{CasHttpStore, put, get, digest_of}
use cats.CasStore.Integrity.{
  IsAddressed, get-put, get-put_keeps, put-IsAddressed, get-IsAddressed, put_cases,
}
use cats.Locators
use cats.Locators.{
  LocatorIndex, canonical_id, lookup_uris, uris, locators_of, add_locator, given, has_uri,
}
use cats.Locators.Index.{added, lookup_uris-put}
use cats.Examples.Data.{
  digest_a, name_a, digest_b, name_b, cat, digest_of_size, digest_of_size-valid, valid_a, valid_b,
  named_a, named_b, recognised_a, recognised_b, read_a, read_b, key_b,
}

abbrev pub empty_store : CasHttpStore
empty_store = record { blobs = [] }

abbrev pub one_blob : CasHttpStore
one_blob = record { blobs = (digest_a, []) ∷ [] }

abbrev pub two_blobs : CasHttpStore
two_blobs = record { blobs = (digest_b, cat) ∷ (digest_a, []) ∷ [] }

pub first_put : put digest_of_size [] empty_store ≡ ok (name_a, one_blob)
unfolding put digest_of_size read write without
first_put = rw (validate_digest_segment_self digest_a valid_a, named_a) refl

pub second_put : put digest_of_size cat one_blob ≡ ok (name_b, two_blobs)
unfolding put digest_of_size read write without
second_put = rw (validate_digest_segment_self digest_b valid_b, named_b) refl

empty_store-IsAddressed : IsAddressed digest_of_size digest_of_size-valid empty_store
unfolding read
empty_store-IsAddressed k b found = ground arith

got_a : get name_a one_blob ≡ ok (some [])
unfolding get digest_of read
got_a = rw (recognised_a.1, read_a.1, validate_digest_segment_self digest_a valid_a) refl

get-put_example : get name_b two_blobs ≡ ok (some cat)
get-put_example =
    get-put digest_of_size digest_of_size-valid cat one_blob name_b two_blobs second_put

get-put_keeps_example : get name_a two_blobs ≡ ok (some [])
get-put_keeps_example =
    get-put_keeps digest_of_size digest_of_size-valid cat [] one_blob name_b two_blobs name_a
      second_put got_a

stored_a : read digest_a one_blob.blobs ≡ some []
unfolding read
stored_a = refl

put-IsAddressed_example : digest_a ≡ digest_of_size []
put-IsAddressed_example =
    put-IsAddressed digest_of_size digest_of_size-valid [] empty_store name_a one_blob first_put
      empty_store-IsAddressed digest_a [] stored_a

pub addressed : IsAddressed digest_of_size digest_of_size-valid one_blob
addressed =
    put-IsAddressed digest_of_size digest_of_size-valid [] empty_store name_a one_blob first_put
      empty_store-IsAddressed

get-IsAddressed_example : digest_of name_a ≡ ok digest_a
unfolding digest_of_size
get-IsAddressed_example =
    get-IsAddressed digest_of_size digest_of_size-valid name_a one_blob [] addressed got_a

-- a store whose file has other bytes than its name says
abbrev spoiled : CasHttpStore
spoiled = record { blobs = (digest_b, 100 ∷ []) ∷ [] }

put_cases_example :
    ((e : Bytes) × (read (digest_of_size cat) spoiled.blobs ≡ some e)
      × (e ≢ cat)
      × (put digest_of_size cat spoiled ≡ err runtime_error))
    ⊎ ((read (digest_of_size cat) spoiled.blobs ≡ none)
        ⊎ (read (digest_of_size cat) spoiled.blobs ≡ some cat))
      × (ni : String) × (s' : CasHttpStore) × (put digest_of_size cat spoiled ≡ ok (ni, s'))
      × (put digest_of_size cat s' ≡ ok (ni, s'))
put_cases_example = put_cases digest_of_size digest_of_size-valid cat spoiled

abbrev no_docs : LocatorIndex
no_docs = record { docs = [] }

abbrev pub located : LocatorIndex
located = record {
  docs =
      (
        digest_b,
        record {
          content_id = name_b;
          locators = (record { uri = "http://node/cas"; media_type = some "text/plain" }) ∷ [];
        },
      )
      ∷ [];
}

located_b : Locators.put digest_b "http://node/cas" (some "text/plain") no_docs ≡ ok located
unfolding Locators.put canonical_id locators_of add_locator given has_uri read write without
    is_empty
located_b = rw (recognised_b.0, read_b.0, named_b, key_b.0) refl

nothing_b : lookup_uris name_b no_docs ≡ ok []
unfolding lookup_uris Locators.get locators_of uris read
nothing_b = rw key_b.0 refl

filled : is_empty "http://node/cas" ≡ false
unfolding is_empty
filled = refl

lookup_uris-put_example :
    lookup_uris name_b located
    ≡ ok (if digest_b == digest_b then added "http://node/cas" [] else [])
lookup_uris-put_example =
    lookup_uris-put digest_b name_b "http://node/cas" (some "text/plain") no_docs located digest_b
      digest_b [] filled located_b key_b.1 key_b.0 nothing_b
