-- ===== src/Json/Laws.antt =====
-- Laws of dicts.
use cats.Prelude.{String, ◌≡◌, refl, ap, true, false, some, arith, ◌==◌, eq_iff, if◌then◌else◌}
use cats.Json.{Json, Fields, str, field, end, find, get, set, pop, equal}

pub get-set :
    (k j : String) (v : Json) (fs : Fields) → get j (set k v fs) ≡ (if k == j then v else get j fs)
unfolding get set
get-set k j v end = refl
get-set k j v (field i w fs) = ground (arith, get-set k j v fs, eq_iff i k, eq_iff i j, eq_iff k j)

pub find-set :
    (k j : String) (v : Json) (fs : Fields)
    → find j (set k v fs) ≡ (if k == j then some v else find j fs)
unfolding find set
find-set k j v end = refl
find-set k j v (field i w fs) =
    ground (arith, find-set k j v fs, eq_iff i k, eq_iff i j, eq_iff k j)

-- A key that is popped does not change what stands under another.
pub get-pop_ne : (k j : String) (fs : Fields) → (k == j) ≡ false → get j (pop k fs) ≡ get j fs
unfolding get pop
get-pop_ne k j end h = refl
get-pop_ne k j (field i w fs) h =
    ground (arith, get-pop_ne k j fs h, eq_iff i k, eq_iff i j, eq_iff k j)

-- a value that equals a text is that text
pub equal-str : (v : Json) (s : String) → equal v (str s) ≡ true → v ≡ str s
unfolding equal
equal-str (str t) s h = ap (λ u. str u) ((eq_iff t s).0 h)
equal-str Json.null s h = ground arith
equal-str (Json.bool true) s h = ground arith
equal-str (Json.bool false) s h = ground arith
equal-str (Json.num n) s h = ground arith
equal-str (Json.arr xs) s h = ground arith
equal-str (Json.obj fs) s h = ground arith
