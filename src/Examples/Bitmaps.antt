-- ===== src/Examples/Bitmaps.antt =====
-- Concrete bitmaps: the crate roaring's operations on the list of the members. They show that the
-- documented behaviour can hold, and let the examples run.
use greplm.Common.{
  ℕ, zero, suc, ◌+◌, ◌-◌, ◌≡◌, refl, ap, ◌∙◌, Bool, true, false, not, ◌&&◌, Option, none, some,
  List, [], ◌∷◌, ◌++◌, arith, ◌==◌, ltb, leb, if◌then◌else◌, Bool-cases, inl, inr, length, take,
  is_empty, filter, range_from,
}
use greplm.Common.Member.{elem, elem-append}
use greplm.Roaring.{Roaring, RoaringLaws}

abbrev pub read_members : List ℕ → Option (List ℕ)
read_members [] = none
read_members (n ∷ rest) = if leb n (length rest) then some (take n rest) else none

abbrev pub member_lists : Roaring
member_lists = record {
  Bitmap = List ℕ;
  empty = [];
  contains = λ b x. elem x b;
  insert = λ b y. y ∷ b;
  remove = λ b y. filter (λ x. not (x == y)) b;
  insert_range = λ b lo hi. range_from (hi - lo) lo ++ b;
  union = ◌++◌;
  inter = λ a b. filter (λ x. elem x b) a;
  is_empty = is_empty;
  len = length;
  iter = λ b. b;
  from_sorted_iter = some;
  optimize = λ b. b;
  serialize = λ b. length b ∷ b;
  deserialize_from = read_members;
}

elem-filter : (p : ℕ → Bool) (x : ℕ) (xs : List ℕ) → elem x (filter p xs) ≡ (elem x xs && p x)
unfolding elem
elem-filter p x [] = refl
elem-filter p x (y ∷ ys) = elim (Bool-cases (x == y)) [
  | inl same ↦
      let e : x ≡ y = ground arith in
      rw (← e) (elim (Bool-cases (p x)) [
        | inl kept ↦ ground (arith, kept, elem-filter p x ys)
        | inr dropped ↦ ground (arith, dropped, elem-filter p x ys)
      ])
  | inr differ ↦ ground (arith, differ, elem-filter p x ys)
]

elem-range_from : (n lo x : ℕ) → elem x (range_from n lo) ≡ (leb lo x && ltb x (n + lo))
unfolding elem
elem-range_from zero lo x = ground arith
elem-range_from (suc n) lo x = ground (arith, elem-range_from n (lo + 1) x)

take-append : (xs ys : List ℕ) → take (length xs) (xs ++ ys) ≡ xs
take-append [] ys = refl
take-append (x ∷ xs) ys = ap (◌∷◌ x) (take-append xs ys)

leb-length : (xs ys : List ℕ) → leb (length xs) (length (xs ++ ys)) ≡ true
leb-length [] ys = ground arith
leb-length (x ∷ xs) ys = ground (arith, leb-length xs ys)

elem-is_empty : (b : List ℕ) (x : ℕ) → is_empty b ≡ true → elem x b ≡ false
unfolding elem
elem-is_empty [] x h = refl
elem-is_empty (y ∷ ys) x h = cc

unfoldable pub member_lists-RoaringLaws : RoaringLaws member_lists
unfolding elem elem-filter elem-range_from elem-is_empty leb-length take-append
member_lists-RoaringLaws = record {
  contains-empty = λ x. refl;
  contains-insert = λ b y x. refl;
  contains-remove = λ b y x. elem-filter (λ z. not (z == y)) x b ∙ ground arith;
  contains-insert_range = λ b lo hi x.
      elem-append x (range_from (hi - lo) lo) b ∙ ground (arith, elem-range_from (hi - lo) lo x);
  contains-union = λ a b x. elem-append x a b;
  contains-inter = λ a b x. elem-filter (λ y. elem y b) x a;
  contains_of_is_empty = elem-is_empty;
  contains-iter = λ b x. refl;
  length-iter = λ b. refl;
  contains-optimize = λ b x. refl;
  from_sorted = λ xs. xs;
  from_sorted_iter_lem = λ xs asc. refl;
  contains-from_sorted = λ xs x asc. refl;
  len-from_sorted = λ xs asc. refl;
  deserialize-serialize = λ b rest. rw (leb-length b rest, take-append b rest) refl;
}
