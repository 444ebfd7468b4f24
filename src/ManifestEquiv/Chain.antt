-- ===== src/ManifestEquiv/Chain.antt =====
-- A stage lineage that passes the check is a chain.
use cats.Prelude.{
  String, ◌≡◌, refl, sym, inl, inr, true, Option, none, some, List, [], ◌∷◌, ◌==◌, eq_iff, arith,
  Bool-cases,
}
use cats.Result.{ok, >>=-eq-ok}
use cats.Text.{strip}
use cats.Text.Laws.{strip_idem}
use cats.Json.{Json, Fields, str, obj, get, text}
use cats.ExecutionBind.{HttpGetJson, require_uri}
use cats.ManifestEquiv.{
  entries_fingerprints, equal_lists, same_entries, assert_directory_manifest_equiv, hop, hop_of,
  check_hop, check_entity, check_hops, list_or_empty, assert_stage_lineage_payload_equiv,
}
use cats.Lineage.{require_dict}
use cats.Lineage.Dicts.{require_dict-obj}

-- Two addresses are equivalent: they are one, or the documents there have the same entries.
pub data Equivalent (http_get_json : HttpGetJson) : String → String → Type 0 where
  same : (a : String) → Equivalent http_get_json a a
  entries :
      (a b : String) (body_a body_b : Json)
      → http_get_json a ≡ ok body_a
      → http_get_json b ≡ ok body_b
      → equal_lists (entries_fingerprints body_a) (entries_fingerprints body_b) ≡ true
      → Equivalent http_get_json a b

same_entries-Equivalent :
    (http_get_json : HttpGetJson) (a b : String)
    → same_entries http_get_json a b ≡ ok tt
    → Equivalent http_get_json a b
unfolding same_entries
same_entries-Equivalent http_get_json a b h =
    let (body_a, ea, h1) = >>=-eq-ok (http_get_json a) _ h in
    let (body_b, eb, h2) = >>=-eq-ok (http_get_json b) _ h1 in
    entries a b body_a body_b ea eb (ground arith)

-- The check of two manifests passes only for equivalent addresses, which it strips.
pub manifest_equiv-Equivalent :
    (http_get_json : HttpGetJson) (uri_a uri_b : Json) (a b : String)
    → text uri_a ≡ some a
    → text uri_b ≡ some b
    → assert_directory_manifest_equiv http_get_json uri_a uri_b ≡ ok tt
    → Equivalent http_get_json a b
unfolding assert_directory_manifest_equiv require_uri
manifest_equiv-Equivalent http_get_json uri_a uri_b a b ea eb h = elim (Bool-cases (a == b)) [
  | inl e ↦ rw (sym ((eq_iff a b).0 e)) (same a)
  | inr e ↦ same_entries-Equivalent http_get_json a b (ground arith)
]

-- The hops of a lineage after the address `prev`: the first entity is equivalent to what it was
-- derived from, and a later one was derived from the entity before it. Other entities are passed over.
pub data Chained (http_get_json : HttpGetJson) : Option String → List Json → Type 0 where
  done : (prev : Option String) → Chained http_get_json prev []
  pass :
      (prev : Option String) (x : Json) (l : List Json)
      → hop_of x ≡ none
      → Chained http_get_json prev l
      → Chained http_get_json prev (x ∷ l)
  first :
      (x : Json) (l : List Json) (e d : Fields) (eu du : String)
      → hop_of x ≡ some (e, d)
      → text (get "@id" e) ≡ some eu
      → text (get "@id" d) ≡ some du
      → Equivalent http_get_json eu du
      → Chained http_get_json (some eu) l
      → Chained http_get_json none (x ∷ l)
  next :
      (p : String) (x : Json) (l : List Json) (e d : Fields) (eu du : String)
      → hop_of x ≡ some (e, d)
      → text (get "@id" e) ≡ some eu
      → text (get "@id" d) ≡ some du
      → Equivalent http_get_json du p
      → Chained http_get_json (some eu) l
      → Chained http_get_json (some p) (x ∷ l)

-- an address that was read stays as it is when it is read again
text-again : (v : Json) (s : String) → text v ≡ some s → text (str s) ≡ some s
unfolding text
text-again (str t) s h =
    let e : strip t ≡ s = ground arith in rw (sym e, strip_idem t) (ground arith)
text-again Json.null s h = ground arith
text-again (Json.bool b) s h = ground arith
text-again (Json.num n) s h = ground arith
text-again (Json.arr xs) s h = ground arith
text-again (Json.obj fs) s h = ground arith

hop-parts :
    (e d : Fields) (eu du : String)
    → hop e d ≡ ok (eu, du)
    → (text (get "@id" e) ≡ some eu) × (text (get "@id" d) ≡ some du)
unfolding hop require_uri
hop-parts e d eu du h = ground arith

some-eq : (s t : String) → some s ≡ some t → s ≡ t
some-eq s t h = ground arith

chained :
    (http_get_json : HttpGetJson) (prev : Option String) (x : Json) (l : List Json) (e d : Fields)
    (eu du : String)
    → hop_of x ≡ some (e, d)
    → text (get "@id" e) ≡ some eu
    → text (get "@id" d) ≡ some du
    → ((p : String) → prev ≡ some p → text (str p) ≡ some p)
    → check_hop http_get_json prev eu du ≡ ok tt
    → Chained http_get_json (some eu) l
    → Chained http_get_json prev (x ∷ l)
unfolding check_hop
chained http_get_json none x l e d eu du eq he hd clean h rest =
    first x l e d eu du eq he hd
      (manifest_equiv-Equivalent http_get_json (str eu) (str du) eu du (text-again _ eu he)
        (text-again _ du hd) h)
      rest
chained http_get_json (some p) x l e d eu du eq he hd clean h rest =
    next p x l e d eu du eq he hd
      (manifest_equiv-Equivalent http_get_json (str du) (str p) du p (text-again _ du hd)
        (clean p refl) h)
      rest

-- what the check of one entity leaves of a chain behind it
check_entity-Chained :
    (http_get_json : HttpGetJson) (prev : Option String) (x : Json) (l : List Json)
    (found : Option (Fields × Fields)) (after : Option String)
    → hop_of x ≡ found
    → ((p : String) → prev ≡ some p → text (str p) ≡ some p)
    → check_entity http_get_json prev found ≡ ok after
    → ((p : String) → after ≡ some p → text (str p) ≡ some p)
      × (Chained http_get_json after l → Chained http_get_json prev (x ∷ l))
unfolding check_entity
check_entity-Chained http_get_json prev x l none after eq clean h =
    let same_prev : prev ≡ after = ground arith in
    rw (sym same_prev) (clean, λ rest. pass prev x l eq rest)
check_entity-Chained http_get_json prev x l (some (e, d)) after eq clean h =
    let ((eu, du), read, h1) = >>=-eq-ok (hop e d) _ h in
    let (_, checked, h2) = >>=-eq-ok (check_hop http_get_json prev eu du) _ h1 in
    let (he, hd) = hop-parts e d eu du read in
    let same_after : some eu ≡ after = ground arith in
    rw (sym same_after) (
      (λ p e_p. rw (sym (some-eq eu p e_p)) (text-again (get "@id" e) eu he)),
      λ rest. chained http_get_json prev x l e d eu du eq he hd clean checked rest,
    )

check_hops-Chained :
    (http_get_json : HttpGetJson) (prev : Option String) (l : List Json)
    → ((p : String) → prev ≡ some p → text (str p) ≡ some p)
    → check_hops http_get_json prev l ≡ ok tt
    → Chained http_get_json prev l
unfolding check_hops
check_hops-Chained http_get_json prev [] clean h = done prev
check_hops-Chained http_get_json prev (x ∷ l) clean h =
    let (after, checked, h1) = >>=-eq-ok (check_entity http_get_json prev (hop_of x)) _ h in
    let (clean', link) =
      check_entity-Chained http_get_json prev x l (hop_of x) after refl clean checked in
    link (check_hops-Chained http_get_json after l clean' h1)

-- The stage lineage of a BOM passes the check only if it is a chain from its first entity on.
pub stage_lineage-Chained :
    (http_get_json : HttpGetJson) (bom : Json)
    → assert_stage_lineage_payload_equiv http_get_json bom ≡ ok tt
    → (fs : Fields) × (l : List Json) × (bom ≡ obj fs)
      × (list_or_empty (get "stageLineage" fs) ≡ ok l)
      × Chained http_get_json none l
unfolding assert_stage_lineage_payload_equiv
stage_lineage-Chained http_get_json bom h =
    let (fs, is_dict, h1) = >>=-eq-ok (require_dict bom) _ h in
    let (l, listed, h2) = >>=-eq-ok (list_or_empty (get "stageLineage" fs)) _ h1 in
    (
      fs,
      l,
      require_dict-obj bom fs is_dict,
      listed,
      check_hops-Chained http_get_json none l (λ p e. ground arith) h2,
    )
