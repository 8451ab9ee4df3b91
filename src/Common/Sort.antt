-- ===== src/Common/Sort.antt =====
-- The standard library's sorts. `sort_unstable` on integers has one possible result, so it is
-- modelled by insertion; `sort_unstable_by_key` leaves the order of equal keys open, and the model
-- keeps the first one first.
use Prim.Native.Nat.{ℕ, suc, ◌<◌}
use mathlib.Core.Path.{◌≡◌, refl, ◌∙◌}
use mathlib.Core.Bool.{false, ◌||◌}
use mathlib.Core.List.{List, [], ◌∷◌}
use native.Mathlib.Omega.{arith}
use mathlib.Core.Logic.{inl, inr}
use greplm.Common.Tests.{◌==◌, leb, if◌then◌else◌, Bool-cases}
use greplm.Common.Lists.{length}
use greplm.Common.Member.{elem, AllAbove, IsAscending, AllAbove-trans, AllBelow}

module _ {ℓ} {A : Type ℓ} (key : A → ℕ) where
  unfoldable pub insert_by : A → List A → List A
  insert_by x [] = x ∷ []
  insert_by x (y ∷ ys) = if leb (key x) (key y) then x ∷ y ∷ ys else y ∷ insert_by x ys

  unfoldable pub sort_by_key : List A → List A
  unfolding insert_by
  sort_by_key [] = []
  sort_by_key (x ∷ xs) = insert_by x (sort_by_key xs)

  length-insert_by : (x : A) (ys : List A) → length (insert_by x ys) ≡ suc (length ys)
  unfolding insert_by
  length-insert_by x [] = refl
  length-insert_by x (y ∷ ys) = ground (arith, length-insert_by x ys)

  pub length-sort_by_key : (xs : List A) → length (sort_by_key xs) ≡ length xs
  unfolding sort_by_key
  length-sort_by_key [] = refl
  length-sort_by_key (x ∷ xs) =
      omega (arith, length-insert_by x (sort_by_key xs), length-sort_by_key xs)

unfoldable pub sort : List ℕ → List ℕ
unfolding sort_by_key
sort xs = sort_by_key (λ x. x) xs

elem-insert_by : (v x : ℕ) (ys : List ℕ) → elem v (insert_by (λ y. y) x ys) ≡ (v == x || elem v ys)
unfolding elem insert_by
elem-insert_by v x [] = refl
elem-insert_by v x (y ∷ ys) = ground (arith, elem-insert_by v x ys)

-- Sorting keeps the members.
pub elem-sort : (v : ℕ) (xs : List ℕ) → elem v (sort xs) ≡ elem v xs
unfolding elem sort
elem-sort v [] = refl
elem-sort v (x ∷ xs) = elem-insert_by v x (sort_by_key (λ y. y) xs) ∙ ground (arith, elem-sort v xs)

-- No member stands twice.
abbrev pub IsDistinct : List ℕ → Type 0
IsDistinct [] = Unit {0}
IsDistinct (x ∷ xs) = (elem x xs ≡ false) × IsDistinct xs

AllAbove-insert_by :
    (b x : ℕ) (ys : List ℕ) → b < x → AllAbove b ys → AllAbove b (insert_by (λ y. y) x ys)
unfolding insert_by
AllAbove-insert_by b x [] h p = (h, tt)
AllAbove-insert_by b x (y ∷ ys) h p = elim (Bool-cases (leb x y)) [
  | inl e ↦ rw e (h, p)
  | inr e ↦ rw e (p.0, AllAbove-insert_by b x ys h p.1)
]

IsAscending-insert_by :
    (x : ℕ) (ys : List ℕ)
    → elem x ys ≡ false
    → IsAscending ys
    → IsAscending (insert_by (λ y. y) x ys)
unfolding insert_by elem
IsAscending-insert_by x [] h p = (tt, tt)
IsAscending-insert_by x (y ∷ ys) h p = elim (Bool-cases (leb x y)) [
  | inl e ↦ let lt : x < y = ground arith in rw e ((lt, AllAbove-trans x y ys (omega arith) p.0), p)
  | inr e ↦
      rw e (
        AllAbove-insert_by y x ys (ground arith) p.0,
        IsAscending-insert_by x ys (ground arith) p.1,
      )
]

-- Without repetitions the sorted list is strictly ascending.
pub sort-IsAscending : (xs : List ℕ) → IsDistinct xs → IsAscending (sort xs)
unfolding sort
sort-IsAscending [] h = tt
sort-IsAscending (x ∷ xs) h =
    IsAscending-insert_by x (sort_by_key (λ y. y) xs) (elem-sort x xs ∙ h.0)
      (sort-IsAscending xs h.1)

AllBelow-insert_by :
    (n x : ℕ) (ys : List ℕ) → x < n → AllBelow n ys → AllBelow n (insert_by (λ y. y) x ys)
unfolding insert_by
AllBelow-insert_by n x [] h w = (h, tt)
AllBelow-insert_by n x (y ∷ ys) h w = elim (Bool-cases (leb x y)) [
  | inl e ↦ rw e (h, w)
  | inr e ↦ rw e (w.0, AllBelow-insert_by n x ys h w.1)
]

pub AllBelow-sort : (n : ℕ) (xs : List ℕ) → AllBelow n xs → AllBelow n (sort xs)
unfolding sort
AllBelow-sort n [] w = tt
AllBelow-sort n (x ∷ xs) w =
    AllBelow-insert_by n x (sort_by_key (λ y. y) xs) w.0 (AllBelow-sort n xs w.1)
