-- ===== src/CasStore/Integrity.antt =====
-- What is fetched is what was stored, and has the digest that it is asked for by.
use cats.Prelude.{
  String, ◌≡◌, refl, sym, ap, ◌∙◌, ◌≢◌, ◌⊎◌, inl, inr, true, none, some, [], ◌∷◌, eq_iff, arith,
  Bool-cases, Option-cases,
}
use cats.Result.{ok, err, runtime_error, Result-cases}
use cats.Digest.{is_hex_sha256, validate_digest_segment, to_ni, is_ni_or_digest}
use cats.Digest.Codec.{Bytes}
use cats.Digest.Names.{
  ni_name, validate_digest_segment_self, from_ni-to_ni, from_ni-valid, to_ni-Named,
}
use cats.Files.{read, write}
use cats.Files.Laws.{read-write, read-write_self}
use cats.CasStore.{CasHttpStore, same_bytes, put, get, digest_of}

pub same_bytes→eq : (a b : Bytes) → same_bytes a b ≡ true → a ≡ b
unfolding same_bytes
same_bytes→eq [] [] h = refl
same_bytes→eq (x ∷ a) (y ∷ b) h = ground (arith, same_bytes→eq a b)
same_bytes→eq _ _ h = cc

pub same_bytes_refl : (a : Bytes) → same_bytes a a ≡ true
unfolding same_bytes
same_bytes_refl [] = refl
same_bytes_refl (x ∷ a) = ground (arith, same_bytes_refl a)

validate_digest_segment-valid :
    (x d : String) → validate_digest_segment x ≡ ok d → is_hex_sha256 d ≡ true
unfolding validate_digest_segment
validate_digest_segment-valid x d h = ground arith

digest_of-valid : (x d : String) → digest_of x ≡ ok d → is_hex_sha256 d ≡ true
unfolding digest_of
digest_of-valid x d h = elim (Bool-cases (is_ni_or_digest x)) [
  | inl named ↦ from_ni-valid x d (ground arith)
  | inr bare ↦ validate_digest_segment-valid x d (ground arith)
]

module _ (sha256_hex : Bytes → String)
    (hashes : (b : Bytes) → is_hex_sha256 (sha256_hex b) ≡ true) where
  -- what a successful `put` leaves
  pub record Stored (b : Bytes) (s : CasHttpStore) (ni : String) (s' : CasHttpStore) : Type 0 where
    pub named : to_ni (sha256_hex b) ≡ ok ni
    pub here : read (sha256_hex b) s'.blobs ≡ some b
    pub others :
        (k : String)
        → (read k s'.blobs ≡ read k s.blobs)
          ⊎ ((k ≡ sha256_hex b) × (read k s.blobs ≡ none) × (read k s'.blobs ≡ some b))

  Stored-new :
      (b : Bytes) (s : CasHttpStore) (ni : String)
      → to_ni (sha256_hex b) ≡ ok ni
      → read (sha256_hex b) s.blobs ≡ none
      → Stored b s ni (record { blobs = write (sha256_hex b) b s.blobs })
  Stored-new b s ni named absent = record {
    named = named;
    here = read-write_self (sha256_hex b) b s.blobs;
    others = λ k. ground (arith, read-write (sha256_hex b) k b s.blobs, eq_iff (sha256_hex b) k);
  }

  pub put-Stored :
      (b : Bytes) (s : CasHttpStore) (ni : String) (s' : CasHttpStore)
      → put sha256_hex b s ≡ ok (ni, s')
      → Stored b s ni s'
  unfolding put
  put-Stored b s ni s' h =
      let r = to_ni-Named (sha256_hex b) (hashes b) in
      let v = validate_digest_segment_self (sha256_hex b) (hashes b) in
      elim (Option-cases (read (sha256_hex b) s.blobs)) [
        | inl absent ↦
            let same : s' ≡ record { blobs = write (sha256_hex b) b s.blobs } = ground arith in
            rw same (Stored-new b s ni (ground arith) absent)
        | inr (e, present) ↦
            let same : s' ≡ s = ground arith in
            let held : e ≡ b = ground (arith, same_bytes→eq e b) in
            rw same (record {
              named = ground arith;
              here = present ∙ ap some held;
              others = λ k. inl refl;
            })
      ]

  -- Where the hash gives 64 lowercase hex digits, what was put is got back by the name that `put`
  -- returned.
  pub get-put :
      (b : Bytes) (s : CasHttpStore) (ni : String) (s' : CasHttpStore)
      → put sha256_hex b s ≡ ok (ni, s')
      → get ni s' ≡ ok (some b)
  unfolding get
  get-put b s ni s' h =
      let r = put-Stored b s ni s' h in
      let (named, back) = from_ni-to_ni (sha256_hex b) ni (hashes b) r.named in
      rw (named, back, validate_digest_segment_self (sha256_hex b) (hashes b), r.here) refl

  -- Where the hash gives 64 lowercase hex digits, a blob that is got by a name is got by it after
  -- a successful `put` of any bytes.
  pub get-put_keeps :
      (b c : Bytes) (s : CasHttpStore) (ni : String) (s' : CasHttpStore) (x : String)
      → put sha256_hex b s ≡ ok (ni, s')
      → get x s ≡ ok (some c)
      → get x s' ≡ ok (some c)
  unfolding get
  get-put_keeps b c s ni s' x h g = elim (Result-cases (digest_of x)) [
    | inl (d, de) ↦ elim (Result-cases (validate_digest_segment d)) [
      | inl (k, ke) ↦
          let old : read k s.blobs ≡ some c = ground arith in
          let kept : read k s'.blobs ≡ some c = elim ((put-Stored b s ni s' h).others k) [
            | inl e ↦ e ∙ old
            | inr (_, absent, _) ↦ cc
          ] in
          rw (de, ke, kept) refl
      | inr (e, ke) ↦ ground arith
    ]
    | inr (e, de) ↦ ground arith
  ]

  -- Every blob stands under the digest of its bytes.
  abbrev pub IsAddressed : CasHttpStore → Type 0
  IsAddressed s = (k : String) (b : Bytes) → read k s.blobs ≡ some b → k ≡ sha256_hex b

  -- Where the hash gives 64 lowercase hex digits, a successful `put` keeps every blob under the
  -- digest of its bytes.
  pub put-IsAddressed :
      (b : Bytes) (s : CasHttpStore) (ni : String) (s' : CasHttpStore)
      → put sha256_hex b s ≡ ok (ni, s')
      → IsAddressed s
      → IsAddressed s'
  put-IsAddressed b s ni s' h inv k c found = elim ((put-Stored b s ni s' h).others k) [
    | inl e ↦ inv k c (sym e ∙ found)
    | inr (here, _, new) ↦ ground arith
  ]

  -- Where the hash gives 64 lowercase hex digits, in a store where every blob stands under the
  -- digest of its bytes, what is got by a name has the digest that the name spells.
  pub get-IsAddressed :
      (x : String) (s : CasHttpStore) (b : Bytes)
      → IsAddressed s
      → get x s ≡ ok (some b)
      → digest_of x ≡ ok (sha256_hex b)
  unfolding get
  get-IsAddressed x s b inv g = elim (Result-cases (digest_of x)) [
    | inl (d, de) ↦
        let valid = digest_of-valid x d de in
        let self = validate_digest_segment_self d valid in
        let found : read d s.blobs ≡ some b = ground arith in rw de (ap ok (inv d b found))
    | inr (e, de) ↦ ground arith
  ]

  -- Where the hash gives 64 lowercase hex digits, `put` raises a runtime error where other bytes
  -- stand under the digest, and otherwise succeeds, and a second `put` of the same bytes changes
  -- nothing.
  pub put_cases :
      (b : Bytes) (s : CasHttpStore)
      → ((e : Bytes) × (read (sha256_hex b) s.blobs ≡ some e)
          × (e ≢ b)
          × (put sha256_hex b s ≡ err runtime_error))
        ⊎ ((read (sha256_hex b) s.blobs ≡ none) ⊎ (read (sha256_hex b) s.blobs ≡ some b))
          × (ni : String) × (s' : CasHttpStore) × (put sha256_hex b s ≡ ok (ni, s'))
          × (put sha256_hex b s' ≡ ok (ni, s'))
  unfolding put
  put_cases b s =
      let r = to_ni-Named (sha256_hex b) (hashes b) in
      let v = validate_digest_segment_self (sha256_hex b) (hashes b) in
      elim (Option-cases (read (sha256_hex b) s.blobs)) [
        | inl absent ↦ inr (
          inl absent,
          ni_name r.bytes,
          record { blobs = write (sha256_hex b) b s.blobs },
          rw (v, absent, r.named) refl,
          rw (v, read-write_self (sha256_hex b) b s.blobs, same_bytes_refl b, r.named) refl,
        )
        | inr (e, present) ↦ elim (Bool-cases (same_bytes e b)) [
          | inl same ↦ inr (
            inr (present ∙ ap (λ x. some x) (same_bytes→eq e b same)),
            ni_name r.bytes,
            s,
            rw (v, present, same, r.named) refl,
            rw (v, present, same, r.named) refl,
          )
          | inr other ↦
              inl
                (e, present, (λ eq. ground (arith, same_bytes_refl b)), rw (v, present, other) refl)
        ]
      ]
