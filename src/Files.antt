-- ===== src/Files.antt =====
-- A directory of files, as the stores keep it: file names with what was written, the file that was
-- written last in front (the order of the modification times that the listings sort by).
pub mod Laws
use cats.Prelude.{String, Bool, true, false, Option, none, some, List, [], ◌∷◌, ◌==◌, if◌then◌else◌}

module _ {ℓ} {V : Type ℓ} where
  unfoldable pub read : String → List (String × V) → Option V
  read k [] = none
  read k ((j, v) ∷ fs) = if j == k then some v else read k fs

  unfoldable pub without : String → List (String × V) → List (String × V)
  without k [] = []
  without k ((j, v) ∷ fs) = let rest = without k fs in if j == k then rest else (j, v) ∷ rest

  unfoldable pub write : String → V → List (String × V) → List (String × V)
  unfolding without
  write k v fs = (k, v) ∷ without k fs

  unfoldable pub names : List (String × V) → List String
  names [] = []
  names ((j, v) ∷ fs) = j ∷ names fs
