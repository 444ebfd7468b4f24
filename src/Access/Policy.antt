-- ===== src/Access/Policy.antt =====
-- Whom the access control document lets do what.
use cats.Prelude.{String, Bool, true, false, ◌&&◌, ◌||◌, Option, List, ◌==◌}
use mathlib.Core.Option
use cats.Json.{Json, Items, str, arr, nil, item, obj, get, equal}
use cats.TextList.{elem}
use cats.Access.{foaf_agent}

pub data Mode : Type 0 where
  read_mode : Mode
  write_mode : Mode
  append_mode : Mode
  control_mode : Mode

unfoldable pub mode_name : Mode → String
mode_name read_mode = "acl:Read"
mode_name write_mode = "acl:Write"
mode_name append_mode = "acl:Append"
mode_name control_mode = "acl:Control"

unfoldable pub is_read : Mode → Bool
is_read read_mode = true
is_read _ = false

-- the node is `{'@id': id}`
unfoldable has_id : String → Json → Bool
unfolding get equal
has_id id (obj fs) = equal (get "@id" fs) (str id)
has_id id _ = false

unfoldable any_has_id : String → Items → Bool
unfolding has_id
any_has_id id nil = false
any_has_id id (item x xs) = has_id id x || any_has_id id xs

unfoldable lists_id : String → Json → Bool
unfolding any_has_id
lists_id id (arr xs) = any_has_id id xs
lists_id id _ = false

-- an authorization gives its modes to its agent, and to everyone where its class of agents is
-- foaf:Agent
unfoldable grants : String → Mode → Json → Bool
unfolding get has_id lists_id mode_name
grants who mode (obj fs) =
    (has_id who (get "acl:agent" fs) || has_id foaf_agent (get "acl:agentClass" fs))
    && lists_id (mode_name mode) (get "acl:mode" fs)
grants who mode _ = false

unfoldable any_grants : String → Mode → Items → Bool
unfolding grants
any_grants who mode nil = false
any_grants who mode (item x xs) = grants who mode x || any_grants who mode xs

-- some authorization of the document gives the mode to this agent
unfoldable pub allows : String → Mode → Json → Bool
unfolding any_grants
allows who mode (arr xs) = any_grants who mode xs
allows who mode _ = false

-- what the entry of a reader gives: to everyone where the reader is foaf:Agent
unfoldable covers : String → String → Bool
covers who reader = reader == foaf_agent || reader == who

-- an agent reads where the readers hold everyone or the agent
unfoldable pub may_read : String → List String → Bool
unfolding elem
may_read who readers = elem foaf_agent readers || elem who readers
