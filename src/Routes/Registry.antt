-- ===== src/Routes/Registry.antt =====
-- registry/routes.py: the routes of the registry and of the locator index. `base_url` is the Node's.
use cats.Prelude.{String, Option, none, some, List, [], ◌∷◌}
use cats.Result.{Result, ok, err, value_error, ◌>>=◌}
use cats.Json.{Json, Fields, str, obj, array, end, field}
use cats.Locators.{Locator, LocatorDoc, LocatorIndex}
use cats.Locators
use cats.Parity.{texts}
use cats.Registry.{BomRegistry, get_record, lookup_bom, lookup_by_order, container_document}
use cats.Registry.Project.{project_record}
use cats.Routes.{
  Method, options_method, put_method, Response, json_error, json_resource, json_container,
  container_options, resource_options, put_not_allowed, answer, or_missing,
}

unfoldable pub registry_container : Method → String → BomRegistry → Result Response
unfolding container_options json_container
registry_container options_method base_url r = ok container_options
registry_container _ base_url r = do
  document ← container_document base_url r
  ok (json_container (obj document))

-- the record that was found is projected outside of the `try`
unfoldable pub respond_record : Result (Option Fields) → Result Response
unfolding json_error json_resource
respond_record (ok none) = ok (json_error 404 "not found" end)
respond_record (ok (some record')) = do
  projected ← project_record record'
  ok (json_resource (obj projected))
respond_record (err value_error) = ok (json_error 400 "invalid content_id" end)
respond_record (err e) = err e

unfoldable pub registry_bom_resource : Method → String → BomRegistry → Result Response
unfolding put_not_allowed resource_options respond_record
registry_bom_resource put_method bom_cid r =
    ok
      (put_not_allowed "Registry PUT not open; Node indexes via Runtime.execute (BomRegistry) only")
registry_bom_resource options_method bom_cid r = ok resource_options
registry_bom_resource _ bom_cid r = respond_record (get_record bom_cid r)

-- the BOMs that an index lists for an id
unfoldable pub listing : String → List String → Fields
unfolding texts
listing content_id bom_ids =
    field "content_id" (str content_id) (field "bom_ids" (array (texts bom_ids)) end)

unfoldable pub respond_listing : String → Result (List String) → Result Response
unfolding answer json_error json_resource listing
respond_listing content_id bom_ids =
    answer (json_error 400 "invalid content_id" end)
      (λ ids. json_resource (obj (listing content_id ids))) bom_ids

unfoldable pub registry_by_data : Method → String → BomRegistry → Result Response
unfolding resource_options respond_listing
registry_by_data options_method data_cid r = ok resource_options
registry_by_data _ data_cid r = respond_listing data_cid (lookup_bom data_cid r)

unfoldable pub registry_by_order : Method → String → BomRegistry → Result Response
unfolding resource_options respond_listing
registry_by_order options_method order_cid r = ok resource_options
registry_by_order _ order_cid r = respond_listing order_cid (lookup_by_order order_cid r)

-- an entry as the index file holds it, its keys sorted
unfoldable pub locator_json : Locator → Json
locator_json loc = elim loc.media_type [
  | none ↦ obj (field "uri" (str loc.uri) end)
  | some media_type ↦ obj (field "media_type" (str media_type) (field "uri" (str loc.uri) end))
]

unfoldable pub locators_json : List Locator → List Json
unfolding locator_json
locators_json [] = []
locators_json (loc ∷ rest) = locator_json loc ∷ locators_json rest

unfoldable pub doc_fields : LocatorDoc → Fields
unfolding locators_json
doc_fields doc =
    field "content_id" (str doc.content_id)
      (field "locators" (array (locators_json doc.locators)) end)

unfoldable pub registry_by_content : Method → String → LocatorIndex → Result Response
unfolding resource_options answer or_missing json_error json_resource doc_fields
registry_by_content options_method digest index = ok resource_options
registry_by_content _ digest index =
    answer (json_error 400 "invalid content_id" end)
      (or_missing (json_error 404 "not found" (field "content_id" (str digest) end))
        (λ doc. json_resource (obj (doc_fields doc))))
      (Locators.get digest index)
