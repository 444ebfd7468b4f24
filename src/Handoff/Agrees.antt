-- ===== src/Handoff/Agrees.antt =====
-- What the single checks of the handoff show.
use cats.Prelude.{
  String, ◌≡◌, ◌∙◌, true, ◌&&◌, inl, inr, none, some, List, [], ◌∷◌, ◌==◌, eq_iff, arith,
  Option-cases, if◌then◌else◌,
}
use cats.Result.{ok, require, >>=-eq-ok, require-eq-ok}
use cats.Json.{Json, Fields, str, get, text, truthy, equal, ◌or◌}
use cats.Json.Laws.{equal-str}
use cats.ExecutionBind.{uri_digest}
use cats.ExecutionBind.Segments.{SameLast, uri_digest-SameLast}
use cats.Projection.{as_text}
use cats.Projection.Complete.{as_text-str}
use cats.Handoff.{first_text, same_digest, check_locators, check_invoice, check_order, given_is}

-- the first of the values that is a text and not blank
pub data FirstText : List Json → String → Type 0 where
  here : (v : Json) (l : List Json) (s : String) → text v ≡ some s → FirstText (v ∷ l) s
  later :
      (v : Json) (l : List Json) (s : String) → text v ≡ none → FirstText l s → FirstText (v ∷ l) s

pub first_text-FirstText : (l : List Json) (s : String) → first_text l ≡ some s → FirstText l s
unfolding first_text
first_text-FirstText [] s h = ground arith
first_text-FirstText (v ∷ l) s h = elim (Option-cases (text v)) [
  | inl nothing ↦ later v l s nothing (first_text-FirstText l s (rw (first_text, nothing) at h))
  | inr (t, given) ↦
      let same : some t ≡ some s = rw (first_text, given) at h in here v l s (given ∙ same)
]

-- a value that is given is the text
abbrev pub GivenIs : Json → String → Type 0
GivenIs v s = truthy v ≡ true → v ≡ str s

pub given_is-GivenIs : (v : Json) (s : String) → given_is v (str s) ≡ true → GivenIs v s
unfolding given_is
given_is-GivenIs v s h given = equal-str v s (rw (given_is, given) at h)

-- the first value, where it is given, and the second are addresses with one last segment
abbrev pub OneLast : Json → Json → Type 0
OneLast v w = truthy v ≡ true → (a b : String) × (v ≡ str a) × (w ≡ str b) × SameLast a b

same_digest-OneLast : (v w : Json) → same_digest v w ≡ ok tt → OneLast v w
unfolding same_digest
same_digest-OneLast v w h given =
    let h0 = rw (same_digest, given) at h in
    let (a, is_a, h1) = >>=-eq-ok (as_text v) _ h0 in
    let (b, is_b, h2) = >>=-eq-ok (as_text w) _ h1 in
    let one = require-eq-ok (uri_digest a == uri_digest b) _ h2 in
    (
      a,
      b,
      as_text-str v a is_a,
      as_text-str w b is_b,
      uri_digest-SameLast a b ((eq_iff (uri_digest a) (uri_digest b)).0 one),
    )

-- the locators of the record name the BOM, and where they or the record name an Invoice, this one
pub record IsLocated (record' locs : Fields) (bom_ldp_uri invoice_uri : String) : Type 0 where
  pub bom_named : get "bom_ldp_uri" locs ≡ str bom_ldp_uri
  pub invoice_named : GivenIs (get "invoice_uri" locs) invoice_uri
  pub record_agrees : GivenIs (get "invoice_uri" record') invoice_uri

pub check_locators-IsLocated :
    (record' locs : Fields) (b i : String)
    → check_locators record' locs b i ≡ ok tt
    → IsLocated record' locs b i
unfolding check_locators
check_locators-IsLocated record' locs b i h =
    let (_, first, h1) = >>=-eq-ok (require (equal (get "bom_ldp_uri" locs) (str b)) _) _ h in
    let (_, second, third) =
      >>=-eq-ok (require (given_is (get "invoice_uri" locs) (str i)) _) _ h1 in
    record {
      bom_named = equal-str (get "bom_ldp_uri" locs) b (require-eq-ok _ _ first);
      invoice_named = given_is-GivenIs (get "invoice_uri" locs) i (require-eq-ok _ _ second);
      record_agrees = given_is-GivenIs (get "invoice_uri" record') i (require-eq-ok _ _ third);
    }

-- the Invoice has its three addresses; where the record has data, they are those of the Invoice, and
-- where the locators or else the record name an Order, its address ends as that of the Invoice
pub record InvoiceAgrees (record' locs invoice : Fields) : Type 0 where
  pub has_order : truthy (get "order_uri" invoice) ≡ true
  pub has_data : truthy (get "data_uri" invoice) ≡ true
  pub has_seed : truthy (get "seed_uri" invoice) ≡ true
  pub same_data :
      truthy (get "data_uri" record') ≡ true
      → equal (get "data_uri" invoice) (get "data_uri" record') ≡ true
  pub same_order :
      OneLast (get "order_uri" locs or get "order_uri" record') (get "order_uri" invoice)

pub check_invoice-InvoiceAgrees :
    (record' locs invoice : Fields)
    → check_invoice record' locs invoice ≡ ok tt
    → InvoiceAgrees record' locs invoice
unfolding check_invoice
check_invoice-InvoiceAgrees record' locs invoice h =
    let all_given =
      truthy (get "order_uri" invoice)
      && (truthy (get "data_uri" invoice) && truthy (get "seed_uri" invoice)) in
    let (_, first, h1) = >>=-eq-ok (require all_given _) _ h in
    let given = require-eq-ok all_given _ first in
    let agree =
      if truthy (get "data_uri" record')
      then equal (get "data_uri" invoice) (get "data_uri" record')
      else true in
    let (_, second, third) = >>=-eq-ok (require agree _) _ h1 in
    let same = require-eq-ok agree _ second in
    record {
      has_order = ground arith;
      has_data = ground arith;
      has_seed = ground arith;
      same_data = λ there. rw there at same;
      same_order =
          same_digest-OneLast (get "order_uri" locs or get "order_uri" record')
            (get "order_uri" invoice) third;
    }

-- the Order has its three addresses
pub record OrderAgrees (order : Fields) : Type 0 where
  pub has_function : truthy (get "function_uri" order) ≡ true
  pub has_structure : truthy (get "structure_uri" order) ≡ true
  pub has_invoice : truthy (get "invoice_uri" order) ≡ true

pub check_order-OrderAgrees : (order : Fields) → check_order order ≡ ok tt → OrderAgrees order
unfolding check_order
check_order-OrderAgrees order h =
    let given =
      require-eq-ok
        (truthy (get "function_uri" order)
          && (truthy (get "structure_uri" order) && truthy (get "invoice_uri" order)))
        _ h in
    record { has_function = ground arith; has_structure = ground arith; has_invoice = ground arith }
