-- ===== src/ExecutionBind.antt =====
-- registry/execution_bind.py: the `prov:used` list of a BOM cites the Order, then the output Invoice.
-- `http_get_json` fetches a document over HTTP.
pub mod Segments
pub mod Cites
use cats.Prelude.{
  String, Bool, true, false, not, ◌||◌, Option, none, some, List, [], ◌∷◌, if◌then◌else◌,
}
use cats.Result.{Result, ok, err, assertion_error, require, ◌>>=◌, ◌>>◌}
use cats.Text.{strip, lower, starts_with, last_segment, rstrip_by, is_char}
use cats.TextList.{elem}
use cats.Digest.{from_ni, is_ni_or_digest}
use cats.Json.{Json, Fields, obj, arr, get, text, elements, equal}
use cats.ContentRef.{is_http_uri}
use cats.Lineage.{require_dict}

-- the last segment of an address, without slashes behind it
unfoldable pub uri_digest : String → String
uri_digest uri = lower (last_segment (rstrip_by (is_char b'/') uri))

-- `text[7:]`, where the text starts with `ipfs://` in any case
unfoldable pub drop_seven : String → String
drop_seven
      (String.◌∷◌ _ (
        String.◌∷◌ _
          (String.◌∷◌ _ (String.◌∷◌ _ (String.◌∷◌ _ (String.◌∷◌ _ (String.◌∷◌ _ s))))))) =
    s
drop_seven _ = ""

unfoldable pub without_ipfs : String → String
unfolding drop_seven
without_ipfs s = if starts_with (lower s) "ipfs://" then drop_seven s else s

unfoldable pub ref_token : String → Result String
unfolding uri_digest without_ipfs
ref_token value =
    let s = without_ipfs (strip value) in
    if is_http_uri s
    then ok (uri_digest s)
    else if is_ni_or_digest s
    then (do d ← from_ni s; ok (lower d))
    else ok (lower s)

unfoldable pub require_uri : Json → Result String
require_uri value = elim (text value) [ none ↦ err assertion_error | some s ↦ ok s ]

-- each entry is a dict with an `@id`
unfoldable pub check_entities : List Json → Result (List Fields)
unfolding require_uri
check_entities [] = ok []
check_entities (entity ∷ entities) = do
  fs ← require_dict entity
  id ← require_uri (get "@id" fs)
  rest ← check_entities entities
  ok (fs ∷ rest)

unfoldable pub used_list : Json → Result (List Json)
used_list (obj fs) = ok (obj fs ∷ [])
used_list (arr xs) = ok (elements xs)
used_list _ = err assertion_error

unfoldable pub used_entities : Json → Result (List Fields)
unfolding check_entities used_list
used_entities bom = do
  fs ← require_dict bom
  activity ← require_dict (get "prov:wasGeneratedBy" fs)
  entities ← used_list (get "prov:used" activity)
  check_entities entities

unfoldable pub candidate : Json → Result (List String)
unfolding ref_token
candidate raw = elim (text raw) [ none ↦ ok [] | some s ↦ (do t ← ref_token s; ok (t ∷ [])) ]

unfoldable pub entity_agrees : Fields → String → Result (Unit {0})
unfolding ref_token candidate
entity_agrees entity uri = do
  expected ← ref_token uri
  ids ← candidate (get "@id" entity)
  contents ← candidate (get "contentId" entity)
  require (elem expected ids || elem expected contents) assertion_error

abbrev pub HttpGetJson : Type 0
HttpGetJson = String → Result Json

-- `expected is not None and body != expected`
unfoldable pub matches_expected : Json → Option Json → Bool
matches_expected body none = true
matches_expected body (some expected) = equal body expected

unfoldable pub fetch_payload : Fields → HttpGetJson → Option Json → Result Fields
unfolding matches_expected require_uri
fetch_payload entity http_get_json expected = do
  entity_uri ← require_uri (get "@id" entity)
  require (is_http_uri entity_uri) assertion_error
  body ← http_get_json entity_uri
  fs ← require_dict body
  require (matches_expected body expected) assertion_error
  ok fs

unfoldable pub is_given : Option Json → Bool
is_given none = false
is_given (some _) = true

-- the fetches of the two payloads, where a fetch function is given
unfoldable pub check_payloads :
    Option HttpGetJson → Fields → Fields → Option Json → Option Json → Result (Unit {0})
unfolding is_given fetch_payload
check_payloads none order invoice expected_order expected_invoice = ok tt
check_payloads (some http_get_json) order invoice expected_order expected_invoice = do
  order_payload ← fetch_payload order http_get_json expected_order
  invoice_payload ← fetch_payload invoice http_get_json expected_invoice
  ok tt

unfoldable pub has_fetch : Option HttpGetJson → Bool
has_fetch none = false
has_fetch (some _) = true

-- the first two entities, of which there must be two
unfoldable pub check_bind :
    List Fields
    → String
    → String
    → Option HttpGetJson
    → Option Json
    → Option Json
    → Result (List Fields)
unfolding check_payloads
check_bind (order ∷ invoice ∷ rest) order_uri invoice_uri http_get_json expected_order
      expected_invoice =
    do
      entity_agrees order order_uri
      entity_agrees invoice invoice_uri
      check_payloads http_get_json order invoice expected_order expected_invoice
      ok (order ∷ invoice ∷ rest)
check_bind _ order_uri invoice_uri http_get_json expected_order expected_invoice =
    err assertion_error

unfoldable pub assert_execution_bind :
    Json → Json → Json → Option HttpGetJson → Option Json → Option Json → Result (List Fields)
unfolding check_bind has_fetch is_given require_uri
assert_execution_bind bom order_uri invoice_uri http_get_json expected_order expected_invoice = do
  order ← require_uri order_uri
  invoice ← require_uri invoice_uri
  require (has_fetch http_get_json || not (is_given expected_order || is_given expected_invoice))
      assertion_error
  bind ← used_entities bom
  check_bind bind order invoice http_get_json expected_order expected_invoice
