-- ===== src/Registry/Build.antt =====
-- `build_record` of registry/store.py: the record of a verified BOM, read from the documents that it
-- refers to. `verify` is the check of the BOM's proof and `cat` the load of a document through the
-- content mesh; the id look-ups hand on the locator index of the mesh's home.
use mathlib.Core.Option
use cats.Prelude.{String, Bool, Option, none, some}
use cats.Result.{Result, ok, err, registry_error, attribute_error, require, ◌>>=◌, ◌>>◌}
use cats.Json.{Json, Fields, str, obj, end, field, get, ◌or◌, opt, as_dict, append_fields}
use cats.Locators.{LocatorIndex}
use cats.Refs.{ref_uri, ref_id}
use cats.Stages.{DataStages, first_given, resolve_invoice_data_stages}
use cats.Registry.{normalize_content_id}

-- what was read of the Order before an error, if there was one
pub record OrderPart : Type 0 where
  pub order : Option Json
  pub function_id : Option String
  pub structure_id : Option String
  pub input_data_id : Option String
  pub index : Option LocatorIndex

-- a document that is read by `.get`
unfoldable pub fields_of : Json → Result Fields
fields_of doc = elim (as_dict doc) [ some fs ↦ ok fs | none ↦ err attribute_error ]

abbrev Cat : Type 0
Cat = String → Result Json

unfoldable pub input_data : Cat → OrderPart → Fields → Option String → OrderPart
unfolding fields_of
input_data cat part order none = part
input_data cat part order (some locator) =
    elim (do
      doc ← cat locator
      input_invoice ← fields_of doc
      ref_id input_invoice "data" part.index) [
        | err e ↦ part
        | ok (id, i) ↦ record part { input_data_id = id; index = i }
      ]

-- `ref_uri(order, 'invoice') or ref_id(order, 'invoice', …)`
unfoldable pub input_invoice : Cat → OrderPart → Fields → OrderPart
unfolding input_data
input_invoice cat part order = elim (ref_uri order "invoice") [
  | some locator ↦ input_data cat part order (some locator)
  | none ↦ elim (ref_id order "invoice" part.index) [
    | err e ↦ part
    | ok (id, i) ↦ input_data cat (record part { index = i }) order id
  ]
]

unfoldable pub order_structure : Cat → OrderPart → Fields → OrderPart
unfolding input_invoice
order_structure cat part order = elim (ref_id order "structure" part.index) [
  | err e ↦ part
  | ok (id, i) ↦ input_invoice cat (record part { structure_id = id; index = i }) order
]

unfoldable pub order_function : Cat → OrderPart → Json → OrderPart
unfolding order_structure
order_function cat part doc = elim (as_dict doc) [
  | none ↦ part
  | some order ↦ elim (ref_id order "function" part.index) [
    | err e ↦ part
    | ok (id, i) ↦ order_structure cat (record part { function_id = id; index = i }) order
  ]
]

-- The body of the `try` block; an error leaves what was read before it.
unfoldable pub read_order : Cat → String → Option LocatorIndex → OrderPart
unfolding order_function
read_order cat order_locator i =
    let start : OrderPart = record {
      order = none;
      function_id = none;
      structure_id = none;
      input_data_id = none;
      index = i;
    } in
    elim (cat order_locator) [
      | err e ↦ start
      | ok doc ↦ order_function cat (record start { order = some doc }) doc
    ]

-- a stem of the Order, where the Order is a dict
unfoldable pub order_uri_of : Option Json → String → Option String
order_uri_of none stem = none
order_uri_of (some doc) stem = elim (as_dict doc) [ none ↦ none | some o ↦ ref_uri o stem ]

unfoldable pub order_id_of :
    Option Json → String → Option LocatorIndex → Result (Option String × Option LocatorIndex)
order_id_of none stem i = ok (none, i)
order_id_of (some doc) stem i = elim (as_dict doc) [
  | none ↦ ok (none, i)
  | some o ↦ ref_id o stem i
]

-- `{key: uri} if uri else {}`
unfoldable pub slot : String → Option String → Fields
slot key none = end
slot key (some uri) = field key (str uri) end

unfoldable pub built_locators : Fields → Fields → Json → Json → DataStages → Option Json → Fields
unfolding slot order_uri_of
built_locators loc invoice invoice_uri order_uri stages order =
    append_fields
      (field "bom_ldp_uri" (get "bom_ldp_uri" loc) (
        field "bom_solid_uri" (get "bom_solid_uri" loc) (
          field "invoice_uri" (get "invoice_uri" loc or invoice_uri)
            (field "order_uri" (get "order_uri" loc or order_uri) end))))
      (append_fields (slot "data_stages_uri" stages.data_stages_uri) (
        append_fields (slot "runtime_sbom_uri" (ref_uri invoice "runtime_sbom")) (
          append_fields (slot "function_sbom_uri" (order_uri_of order "function_sbom")) (
            append_fields (slot "structure_sbom_uri" (order_uri_of order "structure_sbom"))
              (slot "input_data_sbom_uri" (order_uri_of order "input_data_sbom"))))))

unfoldable pub required : Option String → Result String
required id = elim (first_given id none) [ none ↦ err registry_error | some s ↦ ok s ]

unfoldable pub normalized : Option String → Result (Option String)
normalized none = ok none
normalized (some id) = do n ← normalize_content_id id; ok (some n)

unfoldable pub build_record :
    (Fields → Bool)
    → Cat
    → Fields
    → String
    → Fields
    → Option LocatorIndex
    → Result (Fields × Option LocatorIndex)
unfolding fields_of read_order order_uri_of order_id_of built_locators required normalized
    first_given
build_record verify cat bom content_id loc i0 = do
  bom_id ← normalize_content_id content_id
  require (verify bom) registry_error
  (invoice_id, i1) ← ref_id bom "invoice" i0
  invoice_locator ← required (first_given (ref_uri bom "invoice") invoice_id)
  doc ← elim (cat invoice_locator) [ ok d ↦ ok d | err e ↦ err registry_error ]
  invoice ← fields_of doc
  (order_ref, i2) ← ref_id invoice "order" i1
  (data_ref, i3) ← ref_id invoice "data" i2
  order_raw ← required order_ref
  data_raw ← required data_ref
  order_id ← normalize_content_id order_raw
  data_id ← normalize_content_id data_raw
  checked_invoice ← normalized (first_given invoice_id none)
  let part = read_order cat (Option.get_or (ref_uri invoice "order") order_id) i3
  let invoice_uri =
      get "invoice_uri" loc
      or (opt (ref_uri bom "invoice") or (get "invoice_uri" invoice or get "invoice_uri" bom))
  let order_uri = get "order_uri" loc or opt (ref_uri invoice "order")
  (stages, i4) ← resolve_invoice_data_stages cat invoice part.index
  (seed, i5) ← ref_id invoice "seed" i4
  (runtime_sbom, i6) ← ref_id invoice "runtime_sbom" i5
  (function_sbom, i7) ← order_id_of part.order "function_sbom" i6
  (structure_sbom, i8) ← order_id_of part.order "structure_sbom" i7
  (input_data_sbom, i9) ← order_id_of part.order "input_data_sbom" i8
  let tail = field "ingress_data" (opt stages.ingress_data_id) (
      field "ingress_data_uri" (opt stages.ingress_data_uri) (
        field "integration_data" (opt stages.integration_data_id) (
          field "integration_data_uri" (opt stages.integration_data_uri) (
            field "data_stages" (opt stages.data_stages_id) (
              field "data_stages_uri" (opt stages.data_stages_uri) (
                field "seed" (opt seed) (
                  field "seed_uri" (opt (ref_uri invoice "seed")) (
                    field "runtime_sbom" (opt runtime_sbom) (
                      field "runtime_sbom_uri" (opt (ref_uri invoice "runtime_sbom")) (
                        field "function_sbom" (opt function_sbom) (
                          field "function_sbom_uri" (opt (order_uri_of part.order "function_sbom"))
                            (field "structure_sbom" (opt structure_sbom) (
                              field "structure_sbom_uri"
                                (opt (order_uri_of part.order "structure_sbom"))
                                (field "input_data_sbom" (opt input_data_sbom) (
                                  field "input_data_sbom_uri"
                                    (opt (order_uri_of part.order "input_data_sbom"))
                                    end)))))))))))))))
  let head = field "content_id" (str bom_id) (
      field "invoice_uri" invoice_uri (
        field "order" (str order_id) (
          field "order_uri" order_uri (
            field "data" (str data_id) (
              field "data_uri" (opt (ref_uri invoice "data")) (
                field "input_data" (opt part.input_data_id) (
                  field "node_did" (get "node_did" bom) (
                    field "function" (opt part.function_id) (
                      field "structure" (opt part.structure_id) (
                        field "locators"
                          (obj (built_locators loc invoice invoice_uri order_uri stages part.order))
                          tail))))))))))
  ok (head, i9)
