-- ===== src/Roaring.antt =====
-- The crate roaring: bitmaps of 32-bit numbers. The code is not in this repository, so the type, its
-- operations and what the index relies on are a parameter of the model.
use greplm.Common.{
  ℕ, ◌≡◌, Bool, true, false, not, ◌&&◌, ◌||◌, Option, some, List, ◌++◌, ◌==◌, ltb, leb, length,
}
use greplm.Common.Member.{elem, IsAscending}

pub record Roaring : Type 1 where
  pub Bitmap : Type 0
  pub empty : Bitmap
  pub contains : Bitmap → ℕ → Bool
  pub insert : Bitmap → ℕ → Bitmap
  pub remove : Bitmap → ℕ → Bitmap
  -- `insert_range(lo..hi)`
  pub insert_range : Bitmap → ℕ → ℕ → Bitmap
  pub union : Bitmap → Bitmap → Bitmap
  pub inter : Bitmap → Bitmap → Bitmap
  pub is_empty : Bitmap → Bool
  pub len : Bitmap → ℕ
  -- `into_iter`, in ascending order
  pub iter : Bitmap → List ℕ
  pub from_sorted_iter : List ℕ → Option Bitmap
  pub optimize : Bitmap → Bitmap
  pub serialize : Bitmap → List ℕ
  pub deserialize_from : List ℕ → Option Bitmap

-- The documented behaviour, member by member.
pub record RoaringLaws (r : Roaring) : Type 0 where
  pub contains-empty : (x : ℕ) → r.contains r.empty x ≡ false
  pub contains-insert :
      (b : r.Bitmap) (y x : ℕ) → r.contains (r.insert b y) x ≡ (x == y || r.contains b x)
  pub contains-remove :
      (b : r.Bitmap) (y x : ℕ) → r.contains (r.remove b y) x ≡ (not (x == y) && r.contains b x)
  pub contains-insert_range :
      (b : r.Bitmap) (lo hi x : ℕ)
      → r.contains (r.insert_range b lo hi) x ≡ (leb lo x && ltb x hi || r.contains b x)
  pub contains-union :
      (a b : r.Bitmap) (x : ℕ) → r.contains (r.union a b) x ≡ (r.contains a x || r.contains b x)
  pub contains-inter :
      (a b : r.Bitmap) (x : ℕ) → r.contains (r.inter a b) x ≡ (r.contains a x && r.contains b x)
  pub contains_of_is_empty : (b : r.Bitmap) (x : ℕ) → r.is_empty b ≡ true → r.contains b x ≡ false
  pub contains-iter : (b : r.Bitmap) (x : ℕ) → elem x (r.iter b) ≡ r.contains b x
  pub length-iter : (b : r.Bitmap) → length (r.iter b) ≡ r.len b
  pub contains-optimize : (b : r.Bitmap) (x : ℕ) → r.contains (r.optimize b) x ≡ r.contains b x
  -- a strictly ascending sequence is accepted, and its members are the bitmap's
  pub from_sorted : List ℕ → r.Bitmap
  pub from_sorted_iter_lem :
      (xs : List ℕ) → IsAscending xs → r.from_sorted_iter xs ≡ some (from_sorted xs)
  pub contains-from_sorted :
      (xs : List ℕ) (x : ℕ) → IsAscending xs → r.contains (from_sorted xs) x ≡ elem x xs
  pub len-from_sorted : (xs : List ℕ) → IsAscending xs → r.len (from_sorted xs) ≡ length xs
  -- a reader stops at the end of the bitmap, whatever follows
  pub deserialize-serialize :
      (b : r.Bitmap) (rest : List ℕ) → r.deserialize_from (r.serialize b ++ rest) ≡ some b
