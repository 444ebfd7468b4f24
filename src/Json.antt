-- ===== src/Json.antt =====
-- JSON documents as Python holds them: `dict`, `list`, `str`, `bool`, `None` and the numbers, of
-- which only the natural ones occur in these documents. A `dict` keeps its keys in the order of
-- their insertion.
pub mod Laws
use cats.Prelude.{
  ℕ, zero, suc, String, Bool, true, false, not, ◌&&◌, Option, none, some, List, [], ◌∷◌, ◌==◌, eqb,
  if◌then◌else◌,
}
use cats.Result.{Result, ok, err, attribute_error}
use cats.Text.{strip, is_empty}

mutual
  pub data Json : Type 0 where
    null : Json
    bool : Bool → Json
    num : ℕ → Json
    str : String → Json
    arr : Items → Json
    obj : Fields → Json

  pub data Items : Type 0 where
    nil : Items
    item : Json → Items → Items

  pub data Fields : Type 0 where
    end : Fields
    field : String → Json → Fields → Fields

unfoldable pub find : String → Fields → Option Json
find k end = none
find k (field j v fs) = if j == k then some v else find k fs

-- `d.get(k)`: `None` for a missing key
unfoldable pub get : String → Fields → Json
get k end = null
get k (field j v fs) = if j == k then v else get k fs

-- `d[k] = v`
unfoldable pub set : String → Json → Fields → Fields
set k v end = field k v end
set k v (field j w fs) = if j == k then field j v fs else field j w (set k v fs)

-- `d.pop(k, None)`
unfoldable pub pop : String → Fields → Fields
pop k end = end
pop k (field j v fs) = if j == k then fs else field j v (pop k fs)

unfoldable pub has_key : String → Fields → Bool
has_key k end = false
has_key k (field j v fs) = if j == k then true else has_key k fs

-- `{**d, **e}`
unfoldable pub update : Fields → Fields → Fields
unfolding set
update d end = d
update d (field k v e) = update (set k v d) e

-- the fields of the first dict, then those of the second, where no key stands in both
unfoldable pub append_fields : Fields → Fields → Fields
append_fields end e = e
append_fields (field k v d) e = field k v (append_fields d e)

unfoldable pub size : Fields → ℕ
size end = 0
size (field k v fs) = suc (size fs)

-- `bool(value)`
unfoldable pub truthy : Json → Bool
truthy null = false
truthy (bool b) = b
truthy (num n) = not (eqb n 0)
truthy (str s) = not (is_empty s)
truthy (arr nil) = false
truthy (arr (item x xs)) = true
truthy (obj end) = false
truthy (obj (field k v fs)) = true

infixr 30 ◌or◌
-- `a or b`
unfoldable pub ◌or◌ : Json → Json → Json
unfolding truthy
a or b = if truthy a then a else b

-- `value.strip()` where `isinstance(value, str) and value.strip()`
unfoldable pub text : Json → Option String
text (str s) = if is_empty (strip s) then none else some (strip s)
text _ = none

-- the dict that a value is, if it is one
unfoldable pub as_dict : Json → Option Fields
as_dict (obj fs) = some fs
as_dict _ = none

unfoldable pub is_dict : Json → Bool
is_dict (obj fs) = true
is_dict _ = false

-- `value or {}`, whose fields are then read by `.get`: other true values have no such method
unfoldable pub dict_or_empty : Json → Result Fields
unfolding truthy
dict_or_empty (obj fs) = ok fs
dict_or_empty v = if truthy v then err attribute_error else ok end

unfoldable pub elements : Items → List Json
elements nil = []
elements (item x xs) = x ∷ elements xs

unfoldable pub items : List Json → Items
items [] = nil
items (x ∷ xs) = item x (items xs)

abbrev pub array : List Json → Json
array xs = arr (items xs)

unfoldable pub opt : Option String → Json
opt none = null
opt (some s) = str s

-- Python's `==`: dicts without regard to order, and `True == 1`
unfoldable mutual
  pub equal : Json → Json → Bool
  equal null null = true
  equal (bool true) (bool b) = b
  equal (bool false) (bool b) = not b
  equal (bool true) (num n) = eqb n 1
  equal (bool false) (num n) = eqb n 0
  equal (num n) (bool true) = eqb n 1
  equal (num n) (bool false) = eqb n 0
  equal (num n) (num m) = eqb n m
  equal (str s) (str t) = s == t
  equal (arr xs) (arr ys) = equal_items xs ys
  equal (obj fs) (obj gs) = eqb (size fs) (size gs) && equal_fields fs gs
  equal _ _ = false

  pub equal_items : Items → Items → Bool
  equal_items nil nil = true
  equal_items (item x xs) (item y ys) = equal x y && equal_items xs ys
  equal_items _ _ = false

  pub equal_fields : Fields → Fields → Bool
  equal_fields end gs = true
  equal_fields (field k v fs) gs =
      elim (find k gs) [ none ↦ false | some w ↦ equal v w ] && equal_fields fs gs
