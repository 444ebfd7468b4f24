-- ===== src/BomRead.antt =====
-- bom/read.py: the documents that an answer leads to, inlined or fetched. `fetch` is the caller's; the
-- locator index of the home is handed on.
use cats.Prelude.{String, Option, none, some, if◌then◌else◌}
use mathlib.Core.Option
use cats.Result.{Result, ok, err, value_error, ◌>>=◌}
use cats.Text.{strip}
use cats.Digest.{is_ni_or_digest}
use cats.Json.{Json, Fields, null, obj, end, get, text, as_dict, is_dict}
use cats.Locators.{LocatorIndex}
use cats.ContentRef.{content_id_from_uri, equality_id, is_http_uri}
use cats.Refs.{ref_id, ref_uri, non_empty}
use cats.Handoff.{resolve_handoff_invoice_uri}

abbrev pub FetchDocument : Type 0
FetchDocument = String → Result Json

abbrev pub Home : Type 0
Home = Option LocatorIndex

unfoldable pub invoice_uri_from_response : Fields → Option Fields → Result (Option String)
invoice_uri_from_response cat_response record' =
    resolve_handoff_invoice_uri cat_response (Option.get_or record' end)

unfoldable pub stem_uri : Json → String → Option String
stem_uri document stem = elim (as_dict document) [ none ↦ none | some fs ↦ ref_uri fs stem ]

unfoldable pub stem_id : Json → String → Home → Result (Option String × Home)
stem_id document stem home = elim (as_dict document) [
  | none ↦ ok (none, home)
  | some fs ↦ ref_id fs stem home
]

-- the id of an address in the home's own store, where it has one
unfoldable pub fetch_key : String → Home → Result String
unfolding non_empty
fetch_key token home =
    let raw = strip token in
    if is_http_uri raw
    then (do found ← content_id_from_uri raw home; ok (Option.get_or (non_empty found) raw))
    else ok raw

-- the dict of the stem in the bag `flat`
unfoldable pub flat_dict : Fields → String → Option Json
flat_dict parent stem = elim (as_dict (get "flat" parent)) [
  | none ↦ none
  | some bag ↦ if is_dict (get stem bag) then some (get stem bag) else none
]

-- the address of the stem, else its id
unfoldable pub stem_token : Fields → String → Home → Result (Option String × Home)
unfolding stem_uri stem_id non_empty as_dict
stem_token parent stem home = elim (non_empty (stem_uri (obj parent) stem)) [
  | some uri ↦ ok (some uri, home)
  | none ↦ (do (id, home') ← stem_id (obj parent) stem home; ok (non_empty id, home'))
]

unfoldable pub fetch_stem : Fields → String → FetchDocument → Home → Result (Json × Home)
unfolding stem_token fetch_key
fetch_stem parent stem fetch home = do
  (token, home') ← stem_token parent stem home
  elim token [
    | none ↦ ok (null, home')
    | some t ↦ (do key ← fetch_key t home'; payload ← fetch key; ok (payload, home'))
  ]

unfoldable pub flat_or_fetch :
    Fields → String → Option FetchDocument → Home → Option Json → Result (Json × Home)
unfolding fetch_stem
flat_or_fetch parent stem fetch home (some inlined) = ok (inlined, home)
flat_or_fetch parent stem none home none = ok (null, home)
flat_or_fetch parent stem (some fetch_document) home none =
    fetch_stem parent stem fetch_document home

unfoldable pub from_flat_or_fetch :
    Json → String → Option FetchDocument → Home → Result (Json × Home)
unfolding flat_or_fetch flat_dict
from_flat_or_fetch document stem fetch home = elim (as_dict document) [
  | none ↦ ok (null, home)
  | some parent ↦ flat_or_fetch parent stem fetch home (flat_dict parent stem)
]

-- the payload of the stem, where it is a dict
unfoldable pub dict_of_stem :
    String → Json → Option FetchDocument → Home → Result (Option Fields × Home)
unfolding from_flat_or_fetch
dict_of_stem stem document fetch home = do
  (payload, home') ← from_flat_or_fetch document stem fetch home
  ok (as_dict payload, home')

unfoldable pub order_from_invoice :
    Json → Option FetchDocument → Home → Result (Option Fields × Home)
unfolding dict_of_stem
order_from_invoice invoice fetch home = dict_of_stem "order" invoice fetch home

unfoldable pub function_from_order :
    Json → Option FetchDocument → Home → Result (Option Fields × Home)
unfolding dict_of_stem
function_from_order order fetch home = dict_of_stem "function" order fetch home

unfoldable pub structure_from_order :
    Json → Option FetchDocument → Home → Result (Option Fields × Home)
unfolding dict_of_stem
structure_from_order order fetch home = dict_of_stem "structure" order fetch home

unfoldable pub structure_as_executed_from_invoice :
    Json → Option FetchDocument → Home → Result (Option Fields × Home)
unfolding dict_of_stem
structure_as_executed_from_invoice invoice fetch home =
    dict_of_stem "structure_as_executed" invoice fetch home

unfoldable pub data_stages_from_invoice :
    Json → Option FetchDocument → Home → Result (Option Fields × Home)
unfolding dict_of_stem
data_stages_from_invoice invoice fetch home = dict_of_stem "data_stages" invoice fetch home

unfoldable pub runtime_sbom_from_invoice :
    Json → Option FetchDocument → Home → Result (Option Fields × Home)
unfolding dict_of_stem
runtime_sbom_from_invoice invoice fetch home = dict_of_stem "runtime_sbom" invoice fetch home

unfoldable pub seed_from_invoice :
    Json → Option FetchDocument → Home → Result (Option Fields × Home)
unfolding dict_of_stem
seed_from_invoice invoice fetch home = dict_of_stem "seed" invoice fetch home

-- the id that an address gives must be a name of a digest
unfoldable pub found_ni : Option String → Result String
unfolding non_empty
found_ni found = elim (non_empty found) [
  | none ↦ err value_error
  | some id ↦ if is_ni_or_digest id then equality_id id else err value_error
]

unfoldable pub require_ni : Json → Result String
unfolding found_ni
require_ni content_id = elim (text content_id) [
  | none ↦ err value_error
  | some token ↦
      if is_http_uri token
      then (do found ← content_id_from_uri token none; found_ni found)
      else if is_ni_or_digest token
      then equality_id token
      else err value_error
]
