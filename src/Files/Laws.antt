-- ===== src/Files/Laws.antt =====
-- Laws of a directory.
use cats.Prelude.{
  String, ◌≡◌, refl, none, some, List, [], ◌∷◌, ◌==◌, eq_iff, eq_refl, arith, if◌then◌else◌,
}
use cats.Files.{read, without, write}

module _ {ℓ} {V : Type ℓ} where
  pub read-without :
      (k j : String) (fs : List (String × V))
      → read j (without k fs) ≡ (if k == j then none else read j fs)
  unfolding read without
  read-without k j [] = ground arith
  read-without k j ((i, v) ∷ fs) =
      ground (arith, read-without k j fs, eq_iff i k, eq_iff i j, eq_iff k j)

  pub read-write :
      (k j : String) (v : V) (fs : List (String × V))
      → read j (write k v fs) ≡ (if k == j then some v else read j fs)
  unfolding read write
  read-write k j v fs = ground (arith, read-without k j fs)

  pub read-write_self :
      (k : String) (v : V) (fs : List (String × V)) → read k (write k v fs) ≡ some v
  read-write_self k v fs = rw (read-write k k v fs, eq_refl k) refl
