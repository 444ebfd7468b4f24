-- ===== src/Access.antt =====
-- ldp/wac.py: the access control document of the container of BOMs. `raw` is what the environment
-- holds in `SOLID_BOM_READERS`.
pub mod Policy
use cats.Prelude.{
  Char, code, String, Bool, true, false, Option, none, some, List, [], ◌∷◌, ◌==◌, eqb,
  if◌then◌else◌,
}
use Prim.Native.String
use mathlib.Core.Option
use cats.Text.{strip, is_empty}
use cats.Json.{Json, Fields, str, obj, end, field, items, array}

-- `text.split(',')`, which is never empty
unfoldable pub put_first : Char → List String → List String
put_first c [] = []
put_first c (part ∷ parts) = (String.◌∷◌ c part) ∷ parts

unfoldable pub split_commas : String → List String
unfolding put_first
split_commas String.[] = String.[] ∷ []
split_commas (String.◌∷◌ c s) =
    let rest = split_commas s in if eqb (code c) b',' then String.[] ∷ rest else put_first c rest

unfoldable pub filled_parts : List String → List String
filled_parts [] = []
filled_parts (part ∷ parts) =
    let rest = filled_parts parts in if is_empty (strip part) then rest else strip part ∷ rest

-- everyone
abbrev pub foaf_agent : String
foaf_agent = "http://xmlns.com/foaf/0.1/Agent"

unfoldable pub reader_webids : String → List String
unfolding split_commas filled_parts
reader_webids raw =
    if is_empty (strip raw) then foaf_agent ∷ [] else filled_parts (split_commas (strip raw))

unfoldable pub id_node : String → Json
id_node id = obj (field "@id" (str id) end)

unfoldable pub agent_authorization : String → String → Json
unfolding id_node items
agent_authorization resource_uri agent_webid = obj (
    field "@type" (str "acl:Authorization") (
      field "acl:accessTo" (id_node resource_uri) (
        field "acl:default" (id_node resource_uri) (
          field "acl:agent" (id_node agent_webid) (
            field "acl:mode"
              (array (
                id_node "acl:Read"
                ∷ id_node "acl:Write"
                ∷ id_node "acl:Append"
                ∷ id_node "acl:Control"
                ∷ []))
              end)))))

unfoldable pub subject_key : String → String
subject_key reader = if reader == foaf_agent then "acl:agentClass" else "acl:agent"

unfoldable pub reader_authorization : String → String → Json
unfolding id_node items subject_key
reader_authorization resource_uri reader = obj (
    field "@type" (str "acl:Authorization") (
      field "acl:accessTo" (id_node resource_uri) (
        field "acl:default" (id_node resource_uri) (
          field "acl:mode" (array (id_node "acl:Read" ∷ []))
            (field (subject_key reader) (id_node reader) end)))))

unfoldable pub reader_authorizations : String → String → List String → List Json
unfolding reader_authorization
reader_authorizations resource_uri agent_webid [] = []
reader_authorizations resource_uri agent_webid (reader ∷ readers) =
    let rest = reader_authorizations resource_uri agent_webid readers in
    if reader == agent_webid then rest else reader_authorization resource_uri reader ∷ rest

unfoldable pub authorizations : String → String → List String → List Json
unfolding agent_authorization reader_authorizations
authorizations resource_uri agent_webid readers =
    agent_authorization resource_uri agent_webid
    ∷ reader_authorizations resource_uri agent_webid readers

unfoldable pub build_bom_container_acl : String → String → String → Option (List String) → Fields
unfolding reader_webids authorizations items
build_bom_container_acl raw resource_uri agent_webid readers =
    field "@context"
      (obj (
        field "acl" (str "http://www.w3.org/ns/auth/acl#")
          (field "foaf" (str "http://xmlns.com/foaf/0.1/") end)))
      (field "@graph"
        (array
          (authorizations resource_uri agent_webid (Option.get_or readers (reader_webids raw))))
        end)
