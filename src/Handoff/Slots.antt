-- ===== src/Handoff/Slots.antt =====
-- What the slot checks and the handoff check promise of the envelopes that they accept.
use cats.Prelude.{
  String, ◌≡◌, refl, sym, ap, ◌∙◌, ◌↔◌, Bool, true, ◌&&◌, inl, inr, Option, none, some, List, [],
  ◌∷◌, arith,
}
use cats.Result.{ok, require, >>=-eq-ok, require-eq-ok}
use cats.Json.{Json, Fields, str, obj, get, text, dict_or_empty}
use cats.Lineage.Dicts.{require_dict-obj}
use cats.Projection.{is_text}
use cats.Projection.Ids.{dict_or_empty-cases}
use cats.Handoff.Agrees.{
  FirstText, first_text-FirstText, GivenIs, given_is-GivenIs, IsLocated, check_locators-IsLocated,
  InvoiceAgrees, check_invoice-InvoiceAgrees, OrderAgrees, check_order-OrderAgrees,
}
use cats.Handoff.{
  FetchJson, Envelopes, missing, require_none, require_str_slots, first_text,
  assert_control_plane_handoff_coherence, check_locators, check_invoice, check_order, require_text,
  resolve_handoff_invoice_uri, given_is, fetch_dict, load_envelopes,
}

-- each key of the list has a text that is not blank
unfoldable all_text : Fields → List String → Bool
unfolding is_text
all_text fs [] = true
all_text fs (key ∷ keys) = is_text (get key fs) && all_text fs keys

-- The check of the slots passes exactly if every slot has a text.
require_str_slots_iff :
    (fs : Fields) (keys : List String)
    → (require_str_slots fs keys ≡ ok tt) ↔ (all_text fs keys ≡ true)
unfolding require_str_slots missing require_none all_text
require_str_slots_iff fs [] = ground arith
require_str_slots_iff fs (key ∷ keys) = ground (arith, require_str_slots_iff fs keys)

-- The BOM, the Invoice and the Order stand at the addresses that name them, and agree with the
-- record and its locators.
pub record IsCoherent (record' : Fields) (http_get_json : FetchJson) (e : Envelopes) : Type 0 where
  pub bom_fetched : http_get_json (str e.bom_ldp_uri) ≡ ok (obj e.bom)
  pub invoice_fetched : http_get_json (str e.invoice_uri) ≡ ok (obj e.invoice)
  pub order_fetched : http_get_json (get "order_uri" e.invoice) ≡ ok (obj e.order)
  pub located : IsLocated record' e.locators e.bom_ldp_uri e.invoice_uri
  pub bound : GivenIs (get "invoice_uri" e.bom) e.invoice_uri
  pub invoice_fits : InvoiceAgrees record' e.locators e.invoice
  pub order_fits : OrderAgrees e.order

fetch_dict-obj :
    (http_get_json : FetchJson) (uri : Json) (fs : Fields)
    → fetch_dict http_get_json uri ≡ ok fs
    → http_get_json uri ≡ ok (obj fs)
unfolding fetch_dict
fetch_dict-obj http_get_json uri fs h =
    let (body, fetched, h1) = >>=-eq-ok (http_get_json uri) _ h in
    fetched ∙ ap (λ v. ok v) (require_dict-obj body fs h1)

-- the envelopes that are loaded: those of the two addresses and the locators, and coherent
record Loaded (record' locs : Fields) (b i : String) (http_get_json : FetchJson) (e : Envelopes)
    : Type 0 where
  pub same_bom_uri : e.bom_ldp_uri ≡ b
  pub same_invoice_uri : e.invoice_uri ≡ i
  pub same_locators : e.locators ≡ locs
  pub coherent : IsCoherent record' http_get_json e

load_envelopes-Loaded :
    (record' locs : Fields) (b i : String) (http_get_json : FetchJson) (e : Envelopes)
    → check_locators record' locs b i ≡ ok tt
    → load_envelopes record' locs b i http_get_json ≡ ok e
    → Loaded record' locs b i http_get_json e
unfolding load_envelopes
load_envelopes-Loaded record' locs b i http_get_json e located h =
    let (bom, fb, h1) = >>=-eq-ok (fetch_dict http_get_json (str b)) _ h in
    let (_, bound, h2) = >>=-eq-ok (require (given_is (get "invoice_uri" bom) (str i)) _) _ h1 in
    let (inv, fi, h3) = >>=-eq-ok (fetch_dict http_get_json (str i)) _ h2 in
    let (_, inv_ok, h4) = >>=-eq-ok (check_invoice record' locs inv) _ h3 in
    let (ord, fo, h5) = >>=-eq-ok (fetch_dict http_get_json (get "order_uri" inv)) _ h4 in
    let (_, ord_ok, h6) = >>=-eq-ok (check_order ord) _ h5 in
    let made : Envelopes = record {
      bom_ldp_uri = b;
      invoice_uri = i;
      bom = bom;
      invoice = inv;
      order = ord;
      locators = locs;
    } in
    let coherent : IsCoherent record' http_get_json made = record {
      bom_fetched = fetch_dict-obj http_get_json (str b) bom fb;
      invoice_fetched = fetch_dict-obj http_get_json (str i) inv fi;
      order_fetched = fetch_dict-obj http_get_json (get "order_uri" inv) ord fo;
      located = check_locators-IsLocated record' locs b i located;
      bound = given_is-GivenIs (get "invoice_uri" bom) i (require-eq-ok _ _ bound);
      invoice_fits = check_invoice-InvoiceAgrees record' locs inv inv_ok;
      order_fits = check_order-OrderAgrees ord ord_ok;
    } in
    let loaded : Loaded record' locs b i http_get_json made = record {
      same_bom_uri = refl;
      same_invoice_uri = refl;
      same_locators = refl;
      coherent = coherent;
    } in
    let same : made ≡ e = ground arith in rw (sym same) loaded

-- where the address of the Invoice is looked for
abbrev pub invoice_uris : Fields → Fields → Fields → List Json
invoice_uris response_bom record' locs =
    get "invoice_uri" response_bom ∷ get "invoice_uri" record' ∷ get "invoice_uri" locs ∷ []

ok-same : {A : Type 0} (a b : A) → ok a ≡ ok b → a ≡ b
ok-same a b h = ground arith

-- the addresses of the envelopes are those of the answer and the record
pub record IsHandedOn (cat_response record' : Fields) (e : Envelopes) : Type 0 where
  pub response_bom : Fields
  pub has_response_bom : dict_or_empty (get "bom" cat_response) ≡ ok response_bom
  pub record_locators : get "locators" record' ≡ obj e.locators
  pub bom_given : text (get "bom_ldp_uri" cat_response) ≡ some e.bom_ldp_uri
  pub invoice_given : FirstText (invoice_uris response_bom record' e.locators) e.invoice_uri

require_text-some : (o : Option String) (s : String) → require_text o ≡ ok s → o ≡ some s
unfolding require_text
require_text-some none s h = ground arith
require_text-some (some t) s h = ground arith

named_locators-obj :
    (v : Json) (locs : Fields) (b : String)
    → dict_or_empty v ≡ ok locs
    → get "bom_ldp_uri" locs ≡ str b
    → v ≡ obj locs
unfolding get
named_locators-obj v locs b h named = elim (dict_or_empty-cases v locs h) [
  | inl same ↦ same
  | inr nothing ↦ let h1 = rw nothing at named in ground arith
]

-- The handoff check returns envelopes only if they are handed on and coherent: the address of the
-- BOM is that of the answer, and the address of the Invoice the first that the BOM of the answer,
-- the record or its locators give; the BOM, the Invoice and the Order are fetched from the
-- addresses that name them; the locators name this BOM; the locators, the record and the BOM name
-- this Invoice, if they name one; the Invoice and the Order have three addresses each; the record
-- has the data address of the Invoice, if it has one; and the address of the Order in the
-- locators, or else in the record, if there is one, has the last segment of the one in the
-- Invoice.
pub handoff-IsCoherent :
    (cat_response record' : Fields) (http_get_json : FetchJson) (e : Envelopes)
    → assert_control_plane_handoff_coherence cat_response record' http_get_json ≡ ok e
    → IsHandedOn cat_response record' e × IsCoherent record' http_get_json e
unfolding assert_control_plane_handoff_coherence resolve_handoff_invoice_uri
handoff-IsCoherent cat_response record' http_get_json e h =
    let (locs, is_locs, h1) = >>=-eq-ok (dict_or_empty (get "locators" record')) _ h in
    let (found, chosen, h2) = >>=-eq-ok (resolve_handoff_invoice_uri cat_response record') _ h1 in
    let (b, is_b, h3) = >>=-eq-ok (require_text (text (get "bom_ldp_uri" cat_response))) _ h2 in
    let (i, is_i, h4) = >>=-eq-ok (require_text found) _ h3 in
    let (_, located, h5) = >>=-eq-ok (check_locators record' locs b i) _ h4 in
    let all = load_envelopes-Loaded record' locs b i http_get_json e located h5 in
    let (response_bom, is_bom, c1) = >>=-eq-ok (dict_or_empty (get "bom" cat_response)) _ chosen in
    let (locs', is_locs', c2) = >>=-eq-ok (dict_or_empty (get "locators" record')) _ c1 in
    let one : locs' ≡ locs = ground arith in
    let named = (check_locators-IsLocated record' locs b i located).bom_named in
    let handed : (l : Fields)
        → first_text (invoice_uris response_bom record' l) ≡ some i
        → l ≡ e.locators
        → FirstText (invoice_uris response_bom record' e.locators) e.invoice_uri =
      λ l picked same. first_text-FirstText _ e.invoice_uri (
        ap (λ l'. first_text (invoice_uris response_bom record' l')) (sym same)
        ∙ picked
        ∙ ap (λ u. some u) (sym all.same_invoice_uri)) in
    (
      record {
        response_bom = response_bom;
        has_response_bom = is_bom;
        record_locators =
            named_locators-obj (get "locators" record') locs b is_locs named
            ∙ ap (λ l. obj l) (sym all.same_locators);
        bom_given = require_text-some _ b is_b ∙ ap (λ u. some u) (sym all.same_bom_uri);
        invoice_given =
            handed locs' (ok-same _ found c2 ∙ require_text-some found i is_i)
              (one ∙ sym all.same_locators);
      },
      all.coherent,
    )
