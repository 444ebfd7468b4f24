-- ===== src/Handoff.antt =====
-- registry/handoff.py: a run's answer, the registry record, the BOM, the Invoice and the Order name
-- each other. `http_get_json` fetches a document over HTTP, `mesh_cat` is the content mesh's `cat`,
-- and `json_loads` and `utf8_decode` are Python's; the fetch takes any JSON value as its address.
pub mod Agrees
pub mod Slots
use cats.Prelude.{
  String, Bool, true, false, not, ◌&&◌, ◌||◌, Option, none, some, List, [], ◌∷◌, ◌==◌,
  if◌then◌else◌,
}
use cats.Result.{Result, ok, err, assertion_error, attribute_error, require, ◌>>=◌, ◌>>◌}
use cats.Text.{starts_with}
use cats.TextList.{elem}
use cats.Digest.Codec.{Bytes}
use cats.Json.{Json, Fields, str, null, get, truthy, text, equal, dict_or_empty, ◌or◌}
use cats.Projection.{is_text, as_text}
use cats.Lineage.{require_dict}
use cats.ExecutionBind.{uri_digest}

abbrev pub FetchJson : Type 0
FetchJson = Json → Result Json

-- the first value that is a text and not blank
unfoldable pub first_text : List Json → Option String
first_text [] = none
first_text (value ∷ candidates) = elim (text value) [
  | none ↦ first_text candidates
  | some s ↦ some s
]

unfoldable pub resolve_handoff_invoice_uri : Fields → Fields → Result (Option String)
unfolding first_text
resolve_handoff_invoice_uri cat_response record' = do
  bom ← dict_or_empty (get "bom" cat_response)
  locs ← dict_or_empty (get "locators" record')
  ok (first_text (get "invoice_uri" bom ∷ get "invoice_uri" record' ∷ get "invoice_uri" locs ∷ []))

abbrev pub reg_stems : List String
reg_stems = "order" ∷ "data" ∷ "seed" ∷ "data_stages" ∷ "function" ∷ "structure" ∷ []

-- the key of the record for a stem: the stem itself, where it is one of them
unfoldable pub reg_stem : String → Option String
reg_stem stem = if elem stem reg_stems then some stem else none

-- what the content mesh returns
pub data Raw : Type 0 where
  raw_bytes : Bytes → Raw
  raw_text : String → Raw
  raw_json : Json → Raw

-- the record's own id of the stem, else the address
unfoldable pub locator_of : Fields → String → String → Json
unfolding reg_stem
locator_of record' stem uri =
    elim (reg_stem stem) [ none ↦ null | some reg_key ↦ get reg_key record' ] or str uri

unfoldable pub loads : (Bytes → Result String) → (String → Result Json) → Raw → Result Json
loads utf8_decode json_loads (raw_bytes b) = do s ← utf8_decode b; json_loads s
loads utf8_decode json_loads (raw_text s) = json_loads s
loads utf8_decode json_loads (raw_json v) = ok v

-- the same document over HTTP, where the address is one
unfoldable pub check_http : FetchJson → String → Json → Result (Unit {0})
check_http http_get_json uri via_mesh =
    if starts_with uri "http"
    then (do via_http ← http_get_json (str uri); require (equal via_http via_mesh) assertion_error)
    else ok tt

unfoldable pub fetch_ref :
    (Bytes → Result String)
    → (String → Result Json)
    → Fields
    → (Json → Result Raw)
    → FetchJson
    → String
    → String
    → Result Json
unfolding locator_of loads check_http
fetch_ref utf8_decode json_loads record' mesh_cat http_get_json stem uri = do
  raw ← mesh_cat (locator_of record' stem uri)
  via_mesh ← loads utf8_decode json_loads raw
  check_http http_get_json uri via_mesh
  ok via_mesh

-- the envelopes that the check returns
pub record Envelopes : Type 0 where
  pub bom_ldp_uri : String
  pub invoice_uri : String
  pub bom : Fields
  pub invoice : Fields
  pub order : Fields
  pub locators : Fields

unfoldable pub require_text : Option String → Result String
require_text none = err assertion_error
require_text (some s) = ok s

-- a value that is given is the expected one
unfoldable pub given_is : Json → Json → Bool
given_is value expected = if truthy value then equal value expected else true

-- the last segments of two addresses agree, where the first is given
unfoldable pub same_digest : Json → Json → Result (Unit {0})
same_digest reg_order_uri order_uri =
    if truthy reg_order_uri
    then (do
      a ← as_text reg_order_uri
      b ← as_text order_uri
      require (uri_digest a == uri_digest b) assertion_error)
    else ok tt

-- the answer agrees with the record
unfoldable pub check_locators : Fields → Fields → String → String → Result (Unit {0})
unfolding given_is
check_locators record' locs bom_ldp_uri invoice_uri = do
  require (equal (get "bom_ldp_uri" locs) (str bom_ldp_uri)) assertion_error
  require (given_is (get "invoice_uri" locs) (str invoice_uri)) assertion_error
  require (given_is (get "invoice_uri" record') (str invoice_uri)) assertion_error

-- the Invoice has its addresses, and they are those of the record
unfoldable pub check_invoice : Fields → Fields → Fields → Result (Unit {0})
unfolding same_digest
check_invoice record' locs invoice = do
  let order_uri = get "order_uri" invoice
  let data_uri = get "data_uri" invoice
  require (truthy order_uri && (truthy data_uri && truthy (get "seed_uri" invoice))) assertion_error
  require
      (if truthy (get "data_uri" record') then equal data_uri (get "data_uri" record') else true)
      assertion_error
  same_digest (get "order_uri" locs or get "order_uri" record') order_uri

unfoldable pub check_order : Fields → Result (Unit {0})
check_order order =
    require
      (truthy (get "function_uri" order)
        && (truthy (get "structure_uri" order) && truthy (get "invoice_uri" order)))
      assertion_error

-- the fetched document, which must be a dict
unfoldable pub fetch_dict : FetchJson → Json → Result Fields
fetch_dict http_get_json uri = do body ← http_get_json uri; require_dict body

-- the BOM, the Invoice and the Order, each fetched from the address that the one before it names
unfoldable pub load_envelopes : Fields → Fields → String → String → FetchJson → Result Envelopes
unfolding given_is fetch_dict check_invoice check_order
load_envelopes record' locs bom_ldp_uri invoice_uri http_get_json = do
  bom ← fetch_dict http_get_json (str bom_ldp_uri)
  require (given_is (get "invoice_uri" bom) (str invoice_uri)) assertion_error
  invoice ← fetch_dict http_get_json (str invoice_uri)
  check_invoice record' locs invoice
  order ← fetch_dict http_get_json (get "order_uri" invoice)
  check_order order
  ok (record {
    bom_ldp_uri = bom_ldp_uri;
    invoice_uri = invoice_uri;
    bom = bom;
    invoice = invoice;
    order = order;
    locators = locs;
  })

unfoldable pub assert_control_plane_handoff_coherence :
    Fields → Fields → FetchJson → Result Envelopes
unfolding resolve_handoff_invoice_uri require_text check_locators load_envelopes
assert_control_plane_handoff_coherence cat_response record' http_get_json = do
  locs ← dict_or_empty (get "locators" record')
  found ← resolve_handoff_invoice_uri cat_response record'
  bom_ldp_uri ← require_text (text (get "bom_ldp_uri" cat_response))
  invoice_uri ← require_text found
  check_locators record' locs bom_ldp_uri invoice_uri
  load_envelopes record' locs bom_ldp_uri invoice_uri http_get_json

-- each of the keys has a text that is not blank
unfoldable pub missing : Fields → List String → List String
unfolding is_text
missing fs [] = []
missing fs (key ∷ keys) =
    let rest = missing fs keys in if is_text (get key fs) then rest else key ∷ rest

unfoldable pub require_none : List String → Result (Unit {0})
require_none [] = ok tt
require_none (_ ∷ _) = err assertion_error

unfoldable pub require_str_slots : Fields → List String → Result (Unit {0})
unfolding missing require_none
require_str_slots fs keys = require_none (missing fs keys)

unfoldable pub assert_order_function_slots : Json → Result (Unit {0})
unfolding require_str_slots
assert_order_function_slots function = do
  fs ← require_dict function
  require_str_slots fs
      ("infrafunction_source_uri" ∷ "infrafunction_uri" ∷ "process_source_uri" ∷ "process_uri" ∷ [])

unfoldable pub assert_order_structure_slots : Json → Result (Unit {0})
unfolding require_str_slots
assert_order_structure_slots structure = do
  fs ← require_dict structure
  require_str_slots fs ("infrastructure_uri" ∷ "plant_uri" ∷ "root_uri" ∷ [])

unfoldable pub assert_input_invoice_slots : Json → Result (Unit {0})
unfolding require_str_slots
assert_input_invoice_slots invoice = do
  fs ← require_dict invoice
  require_str_slots fs ("data_uri" ∷ [])
