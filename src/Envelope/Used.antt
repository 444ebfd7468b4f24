-- ===== src/Envelope/Used.antt =====
-- The BOM that is built lists its Order and its Invoice where the bind check reads them.
use Prim.Native.String.{[], ◌∷◌}
use mathlib.Core.List.{[] as []ᴸ, ◌∷◌ as ◌∷ᴸ◌}
use cats.Prelude.{
  Char, String, ◌≡◌, refl, sym, ap, ◌∙◌, true, false, not, ◌&&◌, ◌||◌, Option, none, some, arith,
  Bool-cases, inl, inr, List,
}
use cats.Result.{ok, >>=-eq-ok}
use cats.Text.{
  strip, lower, ◌<>◌, starts_with, is_empty, is_space, lstrip_by, rstrip_by, cons_unless,
}
use cats.Json.{Json, Fields, str, obj, get, text, items, elements, as_dict}
use cats.ContentRef.{is_http_uri}
use cats.Lineage.{require_dict}
use cats.ExecutionBind.{require_uri, used_entities, used_list, check_entities}
use cats.Envelope.{
  bare_entity, entity_at, entity_id, address, order_entity, used_value, resolved_uri, stage_lineage,
  Execution, bom_document, build_execution_bom,
}

-- an address of the web is not blank
http-filled :
    (s : String)
    → starts_with (lower s) "http://" || starts_with (lower s) "https://" ≡ true
    → is_empty s ≡ false
unfolding lower starts_with is_empty
http-filled [] h = ground arith
http-filled (c ∷ s) h = refl

text-http : (u : String) → is_http_uri u ≡ true → text (str u) ≡ some (strip u)
unfolding text is_http_uri
text-http u h = rw (http-filled (strip u) h) refl

cons-filled :
    (c : Char) (t : String) → is_space c ≡ false → is_empty (cons_unless is_space c t) ≡ false
unfolding cons_unless is_empty
cons-filled c [] h = rw h refl
cons-filled c (d ∷ t) h = refl

ipfs-filled : (id : String) → is_empty (strip ("ipfs://" <> id)) ≡ false
unfolding strip lstrip_by rstrip_by is_space ◌<>◌
ipfs-filled id = cons-filled "i" (rstrip_by is_space ("pfs://" <> id)) refl

text-ipfs : (id : String) → text (str ("ipfs://" <> id)) ≡ some (strip ("ipfs://" <> id))
unfolding text
text-ipfs id = rw (ipfs-filled id) refl

require_uri-ok : (v w : Json) (s : String) → v ≡ w → text w ≡ some s → require_uri v ≡ ok s
unfolding require_uri
require_uri-ok v w s e h = ground arith

-- an entity has an `@id`
bare-read : (id : String) → (s : String) × (require_uri (get "@id" (bare_entity id)) ≡ ok s)
unfolding bare_entity get
bare-read id = elim (Bool-cases (is_http_uri id)) [
  | inl http ↦ (strip id, require_uri-ok _ (str id) _ (rw http refl) (text-http id http))
  | inr other ↦ (
    strip ("ipfs://" <> id),
    require_uri-ok _ (str ("ipfs://" <> id)) _ (rw other refl) (text-ipfs id),
  )
]

entity-read :
    (id : String) (r : Option String)
    → (s : String) × (require_uri (get "@id" (entity_at id r)) ≡ ok s)
unfolding entity_at get
entity-read id none = bare-read id
entity-read id (some u) = elim (Bool-cases (not (is_empty u) && is_http_uri u)) [
  | inl http ↦ (strip u, require_uri-ok _ (str u) _ (rw http refl) (text-http u (ground arith)))
  | inr other ↦ rw other (bare-read id)
]

-- two dicts with an `@id` pass the check of the entities
check_entities-two :
    (a b : Fields) (s t : String)
    → require_uri (get "@id" a) ≡ ok s
    → require_uri (get "@id" b) ≡ ok t
    → check_entities (obj a ∷ᴸ obj b ∷ᴸ []ᴸ) ≡ ok (a ∷ᴸ b ∷ᴸ []ᴸ)
unfolding check_entities require_dict as_dict
check_entities-two a b s t ha hb = rw (ha, hb) refl

entity_id-read :
    (base id : String) (uri : Option String) (e : Fields)
    → entity_id base id uri ≡ ok e
    → (s : String) × (require_uri (get "@id" e) ≡ ok s)
unfolding entity_id
entity_id-read base id uri e h =
    let (r, _, h1) = >>=-eq-ok (address base id uri) _ h in
    let (s, read) = entity-read id r in
    let same : entity_at id r ≡ e = ground arith in (s, rw (sym same) read)

order_entity-given :
    (base order_id : String) (uri : Option String) (found : Option Fields)
    → is_empty order_id ≡ false
    → order_entity base (some order_id) uri ≡ ok found
    → (order : Fields) × (found ≡ some order) × (entity_id base order_id uri ≡ ok order)
unfolding order_entity
order_entity-given base order_id uri found full h =
    let (order, made, h1) = >>=-eq-ok (entity_id base order_id uri) _ (rw full at h) in
    (order, ground arith, made)

used_entities-bom_document :
    (e : Execution) (iu lu : Option String) (order invoice : Fields) (lineage : List Json)
    → used_entities (obj (bom_document e iu lu (some order) invoice lineage))
      ≡ check_entities (obj order ∷ᴸ obj invoice ∷ᴸ []ᴸ)
unfolding used_entities require_dict as_dict used_list bom_document used_value get elements items
used_entities-bom_document e iu lu order invoice lineage = refl

-- The BOM that is built for an Order names exactly two used entities as the bind check reads them:
-- that of the Order, then that of the Invoice at its resolved address.
pub used_entities-build_execution_bom :
    (base : String) (e : Execution) (bom : Fields) (order_id : String)
    → e.order_id ≡ some order_id
    → is_empty order_id ≡ false
    → build_execution_bom base e ≡ ok bom
    → (order invoice : Fields) × (invoice_uri : Option String) × (entity_id base order_id
          e.order_uri
        ≡ ok order)
      × (resolved_uri base e.invoice_id e.invoice_uri ≡ ok invoice_uri)
      × (entity_id base e.invoice_id invoice_uri ≡ ok invoice)
      × (used_entities (obj bom) ≡ ok (order ∷ᴸ invoice ∷ᴸ []ᴸ))
unfolding build_execution_bom
used_entities-build_execution_bom base e bom order_id given full h =
    let (iu, ei, h1) = >>=-eq-ok (resolved_uri base e.invoice_id e.invoice_uri) _ h in
    let (lu, _, h2) = >>=-eq-ok (resolved_uri base e.log_id e.log_uri) _ h1 in
    let (found, eo, h3) = >>=-eq-ok (order_entity base e.order_id e.order_uri) _ h2 in
    let (invoice, ev, h4) = >>=-eq-ok (entity_id base e.invoice_id iu) _ h3 in
    let (lineage, _, h5) = >>=-eq-ok (stage_lineage base e) _ h4 in
    let (order, found_order, made) =
      order_entity-given base order_id e.order_uri found full (rw given at eo) in
    let (s, so) = entity_id-read base order_id e.order_uri order made in
    let (t, st) = entity_id-read base e.invoice_id iu invoice ev in
    let same : bom_document e iu lu (some order) invoice lineage ≡ bom = ground arith in
    let used : used_entities (obj (bom_document e iu lu (some order) invoice lineage))
        ≡ ok (order ∷ᴸ invoice ∷ᴸ []ᴸ) =
      used_entities-bom_document e iu lu order invoice lineage
      ∙ check_entities-two order invoice s t so st in
    (order, invoice, iu, made, ei, ev, ap (λ b. used_entities (obj b)) (sym same) ∙ used)
