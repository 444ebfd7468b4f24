-- ===== src/ExecutionBind/Cites.antt =====
-- What the `prov:used` list of a BOM that passes the check cites.
use cats.Prelude.{String, ◌≡◌, refl, sym, true, not, ◌||◌, Option, some, List, [], ◌∷◌, arith}
use cats.Result.{ok, assertion_error, require, >>=-eq-ok, require-eq-ok}
use cats.TextList.{elem}
use cats.Json.{Json, Fields, get, text}
use cats.ExecutionBind.{
  HttpGetJson, require_uri, ref_token, candidate, entity_agrees, used_entities, check_payloads,
  check_bind, assert_execution_bind, has_fetch, is_given,
}

-- The token of the address is that of the entity's `@id` or of its `contentId`.
pub record Cites (entity : Fields) (uri : String) : Type 0 where
  pub token : String
  pub ids : List String
  pub contents : List String
  pub spelled : ref_token uri ≡ ok token
  pub has_ids : candidate (get "@id" entity) ≡ ok ids
  pub has_contents : candidate (get "contentId" entity) ≡ ok contents
  pub named : (elem token ids || elem token contents) ≡ true

entity_agrees-Cites :
    (entity : Fields) (uri : String) → entity_agrees entity uri ≡ ok tt → Cites entity uri
unfolding entity_agrees
entity_agrees-Cites entity uri h =
    let (token, spelled, h1) = >>=-eq-ok (ref_token uri) _ h in
    let (ids, has_ids, h2) = >>=-eq-ok (candidate (get "@id" entity)) _ h1 in
    let (contents, has_contents, h3) = >>=-eq-ok (candidate (get "contentId" entity)) _ h2 in
    record {
      token = token;
      ids = ids;
      contents = contents;
      spelled = spelled;
      has_ids = has_ids;
      has_contents = has_contents;
      named = require-eq-ok (elem token ids || elem token contents) _ h3;
    }

-- The first entity cites the Order, the second the Invoice.
pub record Bound (bind : List Fields) (order_uri invoice_uri : String) : Type 0 where
  pub order : Fields
  pub invoice : Fields
  pub rest : List Fields
  pub listed : bind ≡ order ∷ invoice ∷ rest
  pub cites_order : Cites order order_uri
  pub cites_invoice : Cites invoice invoice_uri

check_bind-Bound :
    (entities : List Fields) (order_uri invoice_uri : String) (fetch : Option HttpGetJson)
    (expected_order expected_invoice : Option Json) (bind : List Fields)
    → check_bind entities order_uri invoice_uri fetch expected_order expected_invoice ≡ ok bind
    → (entities ≡ bind) × Bound entities order_uri invoice_uri
unfolding check_bind
check_bind-Bound [] order_uri invoice_uri fetch eo ei bind h = ground arith
check_bind-Bound (o ∷ []) order_uri invoice_uri fetch eo ei bind h = ground arith
check_bind-Bound (o ∷ i ∷ rest) order_uri invoice_uri fetch eo ei bind h =
    let (_, order_ok, h1) = >>=-eq-ok (entity_agrees o order_uri) _ h in
    let (_, invoice_ok, h2) = >>=-eq-ok (entity_agrees i invoice_uri) _ h1 in
    let (_, _, h3) = >>=-eq-ok (check_payloads fetch o i eo ei) _ h2 in
    (
      ground arith,
      record {
        order = o;
        invoice = i;
        rest = rest;
        listed = refl;
        cites_order = entity_agrees-Cites o order_uri order_ok;
        cites_invoice = entity_agrees-Cites i invoice_uri invoice_ok;
      },
    )

require_uri-text : (v : Json) (s : String) → require_uri v ≡ ok s → text v ≡ some s
unfolding require_uri
require_uri-text v s h = ground arith

-- what holds of two addresses holds of equal ones
retold :
    (bom : Json) (entities bind : List Fields) (o' o i' i : String)
    → entities ≡ bind
    → o' ≡ o
    → i' ≡ i
    → (used_entities bom ≡ ok entities) × Bound entities o' i'
    → (used_entities bom ≡ ok bind) × Bound bind o i
retold bom entities bind o' o i' i same same_o same_i facts =
    rw (sym same, sym same_o, sym same_i) facts

-- For an Order address and an Invoice address that are texts and not blank, the check returns the
-- `prov:used` list of the BOM only if its first entity cites the Order and its second the Invoice.
pub execution_bind-Bound :
    (bom order_uri invoice_uri : Json) (fetch : Option HttpGetJson)
    (expected_order expected_invoice : Option Json) (bind : List Fields) (o i : String)
    → text order_uri ≡ some o
    → text invoice_uri ≡ some i
    → assert_execution_bind bom order_uri invoice_uri fetch expected_order expected_invoice
      ≡ ok bind
    → (used_entities bom ≡ ok bind) × Bound bind o i
unfolding assert_execution_bind
execution_bind-Bound bom order_uri invoice_uri fetch eo ei bind o i to ti h =
    let (o', ro, h1) = >>=-eq-ok (require_uri order_uri) _ h in
    let (i', ri, h2) = >>=-eq-ok (require_uri invoice_uri) _ h1 in
    let (_, _, h3) =
      >>=-eq-ok (require (has_fetch fetch || not (is_given eo || is_given ei)) assertion_error) _
        h2 in
    let (entities, used, h4) = >>=-eq-ok (used_entities bom) _ h3 in
    let (same, bound) = check_bind-Bound entities o' i' fetch eo ei bind h4 in
    let to' = require_uri-text order_uri o' ro in
    let ti' = require_uri-text invoice_uri i' ri in
    let same_o : o' ≡ o = ground arith in
    let same_i : i' ≡ i = ground arith in
    retold bom entities bind o' o i' i same same_o same_i (used, bound)
