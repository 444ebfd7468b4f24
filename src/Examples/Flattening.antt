-- ===== src/Examples/Flattening.antt =====
-- A document whose reference leads back to itself.
use cats.Prelude.{String, ◌≡◌, refl, false, none, some, [], ◌∷◌, ◌==◌, arith, if◌then◌else◌}
use cats.Result.{Error, ok, err, key_error}
use cats.TextList.{elem}
use cats.Json.{Json, str, obj, end, field, text}
use cats.Flatten.{FetchRef, allowed, flatten}
use cats.Flatten.Cycle.{reference, flatten_cycle}
use cats.Text.{◌<>◌, strip, lstrip_by, rstrip_by, cons_unless, is_space, is_empty}
use cats.Flatten.Depth.{unvisited, flatten_deep}

abbrev cyclic : Json
cyclic = obj (field "order_uri" (str "http://node/order") end)

-- the one address leads to the document itself
unfoldable serve : FetchRef
serve stem uri = if "http://node/order" == uri then ok cyclic else err key_error

serve_silent :
    (stem uri : String)
    → elem uri ("http://node/order" ∷ []) ≡ false
    → (e : Error) × (serve stem uri ≡ err e)
unfolding serve elem
serve_silent stem uri unknown = (key_error, ground arith)

flatten_deep_example : flatten serve none 2 [] cyclic ≡ flatten serve none 8 [] cyclic
unfolding unvisited elem
flatten_deep_example =
    flatten_deep serve ("http://node/order" ∷ []) serve_silent none 2 8 [] cyclic (omega arith)
      (omega arith)

filled_order : text (str "http://node/order") ≡ some "http://node/order"
unfolding text strip lstrip_by rstrip_by cons_unless is_space is_empty
filled_order = refl

flatten_cycle_example :
    flatten serve none 8 [] (reference "order" "http://node/order")
    ≡ ok (obj (field "order" (reference "order" "http://node/order") end))
unfolding serve allowed elem ◌<>◌
flatten_cycle_example =
    flatten_cycle serve none "http://node/order" filled_order 7 [] "order" "order" refl refl refl
      refl
