-- ===== src/Lineage.antt =====
-- registry/lineage.py: how two executions hang together. The checks take any JSON value where the
-- source tests `isinstance`.
pub mod Chain
pub mod Dicts
use cats.Prelude.{String, Bool, true, false, not, Option, none, some, ◌==◌, if◌then◌else◌}
use cats.Result.{Result, ok, err, assertion_error, require, ◌>>=◌, ◌>>◌}
use cats.Text.{is_empty}
use cats.Json.{Json, Fields, as_dict, find, equal}
use cats.ContentRef.{equality_id}
use cats.Refs.{stem_ref_id}

unfoldable pub require_dict : Json → Result Fields
require_dict doc = elim (as_dict doc) [ some fs ↦ ok fs | none ↦ err assertion_error ]

unfoldable pub require_stem_id : Json → String → Result String
unfolding require_dict
require_stem_id doc stem = do
  fs ← require_dict doc
  value ← stem_ref_id fs stem
  elim value [
    | none ↦ err assertion_error
    | some id ↦ if is_empty id then err assertion_error else equality_id id
  ]

unfoldable pub assert_pairing : String → String → String → Result (Unit {0})
assert_pairing prior_id next_id mode =
    if mode == "mutated"
    then require (not (prior_id == next_id)) assertion_error
    else if mode == "carried"
    then require (prior_id == next_id) assertion_error
    else err assertion_error

pub record PairingIds : Type 0 where
  pub function_0 : String
  pub function_1 : String
  pub structure_0 : String
  pub structure_1 : String

-- `function` and `structure` are the modes of the two slots.
unfoldable pub assert_order_pairing_lineage : Json → Json → String → String → Result PairingIds
unfolding assert_pairing
assert_order_pairing_lineage prior_order next_order function structure = do
  fn0 ← require_stem_id prior_order "function"
  fn1 ← require_stem_id next_order "function"
  st0 ← require_stem_id prior_order "structure"
  st1 ← require_stem_id next_order "structure"
  assert_pairing fn0 fn1 function
  assert_pairing st0 st1 structure
  ok (record { function_0 = fn0; function_1 = fn1; structure_0 = st0; structure_1 = st1 })

unfoldable pub assert_invoice_data_chain : Json → Json → Result (String × String)
assert_invoice_data_chain prior_output_invoice next_input_invoice = do
  prior ← require_stem_id prior_output_invoice "data"
  nxt ← require_stem_id next_input_invoice "data"
  require (prior == nxt) assertion_error
  ok (prior, nxt)

unfoldable pub require_seed_field : Json → String → Result Json
unfolding require_dict
require_seed_field seed key = do
  fs ← require_dict seed
  elim (find key fs) [ none ↦ err assertion_error | some v ↦ ok v ]

pub record Executions : Type 0 where
  pub data_0 : String
  pub data_1 : String
  pub seed_0 : Json
  pub seed_1 : Json

unfoldable pub assert_distinct_executions : Json → Json → Json → Json → Result Executions
unfolding require_seed_field
assert_distinct_executions prior_invoice next_invoice prior_seed next_seed = do
  data0 ← require_stem_id prior_invoice "data"
  data1 ← require_stem_id next_invoice "data"
  require (not (data0 == data1)) assertion_error
  seed0 ← require_seed_field prior_seed "seed"
  seed1 ← require_seed_field next_seed "seed"
  rng0 ← require_seed_field prior_seed "rng_seed"
  rng1 ← require_seed_field next_seed "rng_seed"
  require (not (equal seed0 seed1)) assertion_error
  require (not (equal rng0 rng1)) assertion_error
  ok (record { data_0 = data0; data_1 = data1; seed_0 = seed0; seed_1 = seed1 })
