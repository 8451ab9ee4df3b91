-- ===== src/Common/Member.antt =====
-- Membership of numbers in lists as a test, and strictly ascending lists.
use Prim.Native.Nat.{ℕ, ◌≤◌, ◌<◌}
use mathlib.Core.Path.{◌≡◌, refl}
use mathlib.Core.Bool.{Bool, true, false, ◌||◌}
use mathlib.Core.List.{List, [], ◌∷◌, ◌++◌}
use native.Mathlib.Omega.{arith}
use greplm.Common.Tests.{◌==◌}

unfoldable pub elem : ℕ → List ℕ → Bool
elem x [] = false
elem x (y ∷ ys) = x == y || elem x ys

pub elem-append : (x : ℕ) (xs ys : List ℕ) → elem x (xs ++ ys) ≡ (elem x xs || elem x ys)
unfolding elem
elem-append x [] ys = refl
elem-append x (y ∷ xs) ys = ground (arith, elem-append x xs ys)

-- Every member is above `b`.
abbrev pub AllAbove : ℕ → List ℕ → Type 0
AllAbove b [] = Unit {0}
AllAbove b (x ∷ xs) = (b < x) × AllAbove b xs

abbrev pub IsAscending : List ℕ → Type 0
IsAscending [] = Unit {0}
IsAscending (x ∷ xs) = AllAbove x xs × IsAscending xs

pub AllAbove-trans : (a b : ℕ) (xs : List ℕ) → a ≤ b → AllAbove b xs → AllAbove a xs
AllAbove-trans a b [] h p = tt
AllAbove-trans a b (x ∷ xs) h p = (omega arith, AllAbove-trans a b xs h p.1)

-- What is not above the bound is not a member.
pub elem-AllAbove : (x b : ℕ) (xs : List ℕ) → AllAbove b xs → x ≤ b → elem x xs ≡ false
unfolding elem
elem-AllAbove x b [] p h = refl
elem-AllAbove x b (y ∷ ys) p h = ground (arith, elem-AllAbove x b ys)

-- Two strictly ascending lists with the same members are one list.
abbrev pub SameMembers : List ℕ → List ℕ → Type 0
SameMembers xs ys = (v : ℕ) → elem v xs ≡ elem v ys

pub AllAbove-of_elem : (b : ℕ) (xs : List ℕ) → ((v : ℕ) → elem v xs ≡ true → b < v) → AllAbove b xs
unfolding elem
AllAbove-of_elem b [] h = tt
AllAbove-of_elem b (x ∷ xs) h =
    (h x (ground arith), AllAbove-of_elem b xs (λ v p. h v (ground arith)))

pub AllAbove-mem : (b v : ℕ) (xs : List ℕ) → AllAbove b xs → elem v xs ≡ true → b < v
unfolding elem
AllAbove-mem b v [] p h = cc
AllAbove-mem b v (x ∷ xs) p h = ground (arith, AllAbove-mem b v xs)

pub AllAbove-SameMembers :
    (b : ℕ) (xs ys : List ℕ) → SameMembers xs ys → AllAbove b ys → AllAbove b xs
AllAbove-SameMembers b xs ys same p =
    AllAbove-of_elem b xs (λ v h. AllAbove-mem b v ys p (ground (arith, same v)))

abbrev pub AllBelow : ℕ → List ℕ → Type 0
AllBelow n [] = Unit {0}
AllBelow n (x ∷ xs) = (x < n) × AllBelow n xs

pub AllBelow-mono : (m n : ℕ) (xs : List ℕ) → m ≤ n → AllBelow m xs → AllBelow n xs
AllBelow-mono m n [] h p = tt
AllBelow-mono m n (x ∷ xs) h p = (omega arith, AllBelow-mono m n xs h p.1)

-- Membership as a place in the list.
pub data OneOf {ℓ} {A : Type ℓ} : A → List A → Type ℓ where
  first : {x : A} {xs : List A} → OneOf x (x ∷ xs)
  later : {x y : A} {xs : List A} → OneOf x xs → OneOf x (y ∷ xs)
