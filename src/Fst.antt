-- ===== src/Fst.antt =====
-- The crate fst: ordered maps from byte strings to 64-bit numbers. The code is not in this
-- repository, so the type, its operations and what the index relies on are a parameter.
use greplm.Common.{
  ℕ, ◌<◌, ◌≡◌, ◌⊎◌, Bool, true, false, ◌&&◌, Option, none, some, List, [], ◌∷◌, ◌==◌, if◌then◌else◌,
}

pub record Fst : Type 1 where
  pub Map : Type 0
  -- `MapBuilder`: the keys are inserted in order, and an insertion out of order is an error
  pub build : List (List ℕ × ℕ) → Option Map
  pub get : Map → List ℕ → Option ℕ

-- the order of byte strings
abbrev pub BytesLt : List ℕ → List ℕ → Type 0
BytesLt [] [] = ⊥
BytesLt [] (y ∷ ys) = Unit {0}
BytesLt (x ∷ xs) [] = ⊥
BytesLt (x ∷ xs) (y ∷ ys) = (x < y) ⊎ ((x ≡ y) × BytesLt xs ys)

abbrev pub KeysAscend : List (List ℕ × ℕ) → Type 0
KeysAscend [] = Unit {0}
KeysAscend (e ∷ []) = Unit {0}
KeysAscend (e ∷ f ∷ es) = BytesLt e.0 f.0 × KeysAscend (f ∷ es)

abbrev pub bytes_eq : List ℕ → List ℕ → Bool
bytes_eq [] [] = true
bytes_eq (x ∷ xs) (y ∷ ys) = x == y && bytes_eq xs ys
bytes_eq _ _ = false

unfoldable pub find : List ℕ → List (List ℕ × ℕ) → Option ℕ
find k [] = none
find k ((j, v) ∷ es) = if bytes_eq k j then some v else find k es

-- The documented behaviour: keys in ascending order are accepted, and found again.
pub record FstLaws (f : Fst) : Type 0 where
  pub built : (es : List (List ℕ × ℕ)) → KeysAscend es → f.Map
  pub build_lem : (es : List (List ℕ × ℕ)) (asc : KeysAscend es) → f.build es ≡ some (built es asc)
  pub get_lem :
      (es : List (List ℕ × ℕ)) (asc : KeysAscend es) (k : List ℕ)
      → f.get (built es asc) k ≡ find k es

-- A map as the bytes that a `MapBuilder` writes and `Map::new` reads. `verify` tests the map's
-- checksum, which `Map::new` does not.
pub record FstFile (f : Fst) : Type 0 where
  pub into_inner : f.Map → List ℕ
  pub new : List ℕ → Option f.Map
  pub verify : f.Map → Bool

pub record FstFileLaws (f : Fst) (file : FstFile f) : Type 0 where
  pub new-into_inner : (m : f.Map) → file.new (file.into_inner m) ≡ some m
  pub verify-build :
      (es : List (List ℕ × ℕ)) (m : f.Map) → f.build es ≡ some m → file.verify m ≡ true
