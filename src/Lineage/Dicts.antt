-- ===== src/Lineage/Dicts.antt =====
-- A value that passes `require_dict` is a dict.
use cats.Prelude.{◌≡◌, arith}
use cats.Result.{ok}
use cats.Json.{Json, Fields, str, obj, as_dict}
use cats.Lineage.{require_dict}

pub require_dict-obj : (v : Json) (fs : Fields) → require_dict v ≡ ok fs → v ≡ obj fs
unfolding require_dict as_dict
require_dict-obj (obj gs) fs h = ground arith
require_dict-obj (Json.arr xs) fs h = ground arith
require_dict-obj Json.null fs h = ground arith
require_dict-obj (Json.bool b) fs h = ground arith
require_dict-obj (Json.num n) fs h = ground arith
require_dict-obj (str s) fs h = ground arith
