-- ===== src/NamedBinds.antt =====
-- named_binds.py: the leaves that name a function of a source package in place of a pickle of it.
-- `base_url` is the Node's, and `loads` gives `none` where the bytes are no JSON text.
pub mod RoundTrip
use cats.Prelude.{
  String, Bool, true, false, not, ◌&&◌, ◌||◌, Option, none, some, List, [], ◌∷◌, ◌++◌, ◌==◌,
  if◌then◌else◌,
}
use cats.Result.{Result, ok, ◌>>=◌}
use cats.Text.{strip, is_empty, starts_with}
use cats.TextList.{elem}
use cats.Digest.{is_ni_or_digest}
use cats.Digest.Codec.{Bytes}
use cats.Json.{Json, Fields, str, end, field, get, set, text, as_dict}
use cats.ContentRef.{equality_id, content_uri, content_id_from_uri}
use cats.Refs.{non_empty}
use mathlib.Core.Option

abbrev pub stock_process_slots : List String
stock_process_slots = "ingress" ∷ "egress" ∷ "integration_cache" ∷ "process_0" ∷ "process_1" ∷ []

abbrev pub stock_infrafunction_slots : List String
stock_infrafunction_slots = "infrafunction_subproc" ∷ []

-- what the code reads of a Python object
pub record Callable : Type 0 where
  pub is_function : Bool
  pub qualname : Option String
  pub module_name : Option String

-- a module, or one below it
unfoldable pub in_module : String → String → String → Bool
in_module name whole below = name == whole || starts_with name below

unfoldable pub is_stock_slot : String → String → Bool
unfolding in_module
is_stock_slot qualname name =
    if not (elem qualname (stock_process_slots ++ stock_infrafunction_slots))
    then false
    else if elem qualname stock_process_slots
    then in_module name "data.input.function.process" "data.input.function.process."
    else in_module name "data.input.function.infrafunction" "data.input.function.infrafunction."

unfoldable pub is_stock_function_callable : Callable → Bool
unfolding is_stock_slot
is_stock_function_callable c =
    if c.is_function
    then (elim c.qualname [
      | none ↦ false
      | some qualname ↦ is_stock_slot qualname (Option.get_or c.module_name "")
    ])
    else false

-- `payload['source_uri'] = uri`, where there is one
unfoldable pub with_source : Option String → Fields → Fields
with_source none payload = payload
with_source (some uri) payload = set "source_uri" (str uri) payload

unfoldable pub named_bind_payload : String → String → String → String → Result Fields
unfolding with_source non_empty
named_bind_payload source_content_id module_name qualname base_url = do
  eid ←
      if is_ni_or_digest source_content_id
      then equality_id source_content_id
      else ok (strip source_content_id)
  uri ← content_uri eid base_url
  ok (
      with_source (non_empty uri) (
        field "contentId" (str eid)
          (field "module" (str module_name) (field "qualname" (str qualname) end))))

-- the first of the keys whose value is a text that is not blank
unfoldable pub first_filled : List String → Fields → Option String
first_filled [] spec = none
first_filled (key ∷ keys) spec = elim (text (get key spec)) [
  | some value ↦ some value
  | none ↦ first_filled keys spec
]

unfoldable pub source_id_of : Option String → Fields → Result (Option String)
source_id_of (some value) spec =
    if is_ni_or_digest value then (do id ← equality_id value; ok (some id)) else ok (some value)
source_id_of none spec = elim (text (get "source_uri" spec)) [
  | none ↦ ok none
  | some uri ↦ content_id_from_uri uri none
]

unfoldable pub named_bind_source_id : Json → Result (Option String)
unfolding first_filled source_id_of
named_bind_source_id document = elim (as_dict document) [
  | none ↦ ok none
  | some spec ↦ source_id_of (first_filled ("contentId" ∷ "source_cid" ∷ []) spec) spec
]

-- `isinstance(value, str) and value`
unfoldable pub is_filled : Json → Bool
is_filled (str s) = not (is_empty s)
is_filled _ = false

unfoldable pub named_leaf : Fields → Option String → Option Fields
named_leaf spec none = none
named_leaf spec (some id) = some spec

module _ (loads : Bytes → Option Json) where
  unfoldable pub spec_of : Bytes → Option Fields
  spec_of raw = elim (loads raw) [ none ↦ none | some document ↦ as_dict document ]

  unfoldable pub parse_named_bind_leaf : Bytes → Result (Option Fields)
  unfolding spec_of is_filled named_bind_source_id named_leaf
  parse_named_bind_leaf raw = elim (spec_of raw) [
    | none ↦ ok none
    | some spec ↦
        if is_filled (get "module" spec) && is_filled (get "qualname" spec)
        then (do id ← named_bind_source_id (Json.obj spec); ok (named_leaf spec id))
        else ok none
  ]
