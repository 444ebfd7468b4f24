-- ===== src/Routes/Ldp.antt =====
-- ldp/routes.py: the routes of the BOMs, the Invoices and the Orders. `base_url` is the Node's, and
-- `loads` makes a document of the bytes of a file.
use cats.Prelude.{String}
use cats.Text.{◌<>◌}
use cats.Result.{Result, ok, ◌>>=◌}
use cats.Digest.Codec.{Bytes}
use cats.Json.{Json, obj, end}
use cats.LdpStore.{
  BomLdpStore, JsonResourceStore, kind_name, get_bom, get_json, bom_container, resource_container,
}
use cats.Routes.{
  Method, options_method, put_method, Response, json_error, json_resource, json_container,
  container_options, resource_options, put_not_allowed, answer, or_missing,
}

unfoldable pub ldp_boms_container : Method → String → BomLdpStore → Result Response
unfolding container_options json_container
ldp_boms_container options_method base_url s = ok container_options
ldp_boms_container _ base_url s = do
  document ← bom_container base_url s
  ok (json_container (obj document))

unfoldable pub ldp_bom_resource : Method → String → BomLdpStore → Result Response
unfolding put_not_allowed resource_options answer or_missing json_error json_resource
ldp_bom_resource put_method bom_cid s =
    ok (put_not_allowed "LDP PUT not open; Node publishes via Runtime.execute (BomLdpStore) only")
ldp_bom_resource options_method bom_cid s = ok resource_options
ldp_bom_resource _ bom_cid s =
    answer (json_error 400 "invalid bom_cid" end)
      (or_missing (json_error 404 "not found" end) (λ bom. json_resource (obj bom)))
      (get_bom bom_cid s)

unfoldable pub ldp_json_container : Method → String → JsonResourceStore → Result Response
unfolding container_options json_container
ldp_json_container options_method base_url s = ok container_options
ldp_json_container _ base_url s = do
  document ← resource_container base_url s
  ok (json_container (obj document))

module _ (dumps : Json → Result Bytes) (loads : Bytes → Result Json) where
  unfoldable pub ldp_json_resource : Method → String → JsonResourceStore → Result Response
  unfolding put_not_allowed resource_options answer or_missing json_error json_resource kind_name
  ldp_json_resource put_method content_id s = ok (
      put_not_allowed
        ("LDP PUT not open; Node publishes " <> (kind_name s.kind <> " via Runtime/Order only")))
  ldp_json_resource options_method content_id s = ok resource_options
  ldp_json_resource _ content_id s =
      answer (json_error 400 ("invalid " <> (kind_name s.kind <> " id")) end)
        (or_missing (json_error 404 "not found" end) json_resource)
        (get_json dumps loads content_id s)
