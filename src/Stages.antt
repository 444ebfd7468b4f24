-- ===== src/Stages.antt =====
-- cas/invoice_stages.py: the stage references of an Invoice, from the `data_stages` document where
-- it can be read and from the Invoice's own fields otherwise. `cat` loads a document through the
-- content mesh; the id look-ups hand on the locator index.
pub mod Egress
use cats.Prelude.{String, ◌||◌, Option, none, some, ◌==◌, if◌then◌else◌}
use cats.Result.{Result, ok, err, assertion_error, require, ◌>>=◌}
use cats.Text.{strip, lower, is_empty}
use cats.Digest.{from_ni, is_ni_or_digest}
use cats.Json.{Json, Fields, as_dict}
use cats.Locators.{LocatorIndex}
use cats.Refs.{ref_uri, ref_id}

pub record DataStages : Type 0 where
  pub ingress_data_id : Option String
  pub integration_data_id : Option String
  pub egress_data_id : Option String
  pub ingress_data_uri : Option String
  pub integration_data_uri : Option String
  pub egress_data_uri : Option String
  pub data_stages_id : Option String
  pub data_stages_uri : Option String

-- `a or b` on optional texts
unfoldable pub first_given : Option String → Option String → Option String
first_given none b = b
first_given (some a) b = if is_empty a then b else some a

-- the nested document, where it is a dict; an error of the load is no nest
unfoldable pub load_nest : (String → Result Json) → Option String → Option Fields
load_nest cat none = none
load_nest cat (some locator) =
    if is_empty locator then none else (elim (cat locator) [ ok doc ↦ as_dict doc | err e ↦ none ])

unfoldable pub nested_stages :
    Fields → DataStages → Option LocatorIndex → Result (DataStages × Option LocatorIndex)
nested_stages nest out i = do
  (ingress, i1) ← ref_id nest "ingressed_data" i
  (integration, i2) ← ref_id nest "integrated_data" i1
  (egress, i3) ← ref_id nest "egressed_data" i2
  ok (
    record out {
      ingress_data_uri = ref_uri nest "ingressed_data";
      integration_data_uri = ref_uri nest "integrated_data";
      egress_data_uri = ref_uri nest "egressed_data";
      ingress_data_id = ingress;
      integration_data_id = integration;
      egress_data_id = egress;
    },
    i3,
  )

unfoldable pub flat_stages :
    Fields → DataStages → Option LocatorIndex → Result (DataStages × Option LocatorIndex)
flat_stages invoice out i = do
  (ingress, i1) ← ref_id invoice "ingress_data" i
  (integration, i2) ← ref_id invoice "integration_data" i1
  ok (
    record out {
      ingress_data_uri = ref_uri invoice "ingress_data";
      integration_data_uri = ref_uri invoice "integration_data";
      ingress_data_id = ingress;
      integration_data_id = integration;
    },
    i2,
  )

abbrev pub no_stages : DataStages
no_stages = record {
  ingress_data_id = none;
  integration_data_id = none;
  egress_data_id = none;
  ingress_data_uri = none;
  integration_data_uri = none;
  egress_data_uri = none;
  data_stages_id = none;
  data_stages_uri = none;
}

unfoldable pub resolve_invoice_data_stages :
    (String → Result Json)
    → Fields
    → Option LocatorIndex
    → Result (DataStages × Option LocatorIndex)
unfolding first_given load_nest nested_stages flat_stages
resolve_invoice_data_stages cat invoice i = do
  let data_stages_uri = ref_uri invoice "data_stages"
  (data_stages_id, i1) ← ref_id invoice "data_stages" i
  let out = record no_stages { data_stages_id = data_stages_id; data_stages_uri = data_stages_uri }
  (staged, i2) ← elim (load_nest cat (first_given data_stages_uri data_stages_id)) [
    | some nest ↦ nested_stages nest out i1
    | none ↦ flat_stages invoice out i1
  ]
  (egress_id, i3) ← ref_id invoice "data" i2
  ok (
    record staged {
      egress_data_uri = first_given (ref_uri invoice "data") staged.egress_data_uri;
      egress_data_id = first_given egress_id staged.egress_data_id;
    },
    i3,
  )

-- `none` for a missing or empty id
unfoldable pub digest_key : Option String → Result (Option String)
digest_key none = ok none
digest_key (some content_id) =
    if is_empty content_id
    then ok none
    else if is_ni_or_digest (strip content_id)
    then (do d ← from_ni (strip content_id); ok (some d))
    else ok (some (lower (strip content_id)))

unfoldable pub same_keys : Option String → Option String → Result (Unit {0})
same_keys (some a) (some b) =
    if is_empty a || is_empty b then err assertion_error else require (a == b) assertion_error
same_keys _ _ = err assertion_error

unfoldable pub assert_egressed_matches_data :
    Fields → Fields → Option LocatorIndex → Result (Unit {0})
unfolding digest_key same_keys
assert_egressed_matches_data invoice nest i = do
  (data_id, i1) ← ref_id invoice "data" i
  (egressed_id, i2) ← ref_id nest "egressed_data" i1
  data_key ← digest_key data_id
  egressed_key ← digest_key egressed_id
  same_keys data_key egressed_key
