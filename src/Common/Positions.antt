-- ===== src/Common/Positions.antt =====
-- Lists by their positions.
use Prim.Native.Nat.{ℕ, zero, suc, ◌+◌, ◌≤◌, ◌<◌}
use mathlib.Core.Path.{◌≡◌, refl, ap, ◌∙◌}
use mathlib.Core.List.{List, [], ◌∷◌, map}
use mathlib.Core.Bool.{Bool, true}
use mathlib.Core.Option.{some, some-injective}
use native.Mathlib.Omega.{arith}
use greplm.Common.Lists.{length, get_elem?, get_or, take, drop, range_from, all}

pub get_elem?-lt-length {ℓ} :
    {A : Type ℓ} (xs : List A) (i : ℕ) (x : A) → get_elem? xs i ≡ some x → i < length xs
get_elem?-lt-length [] i x h = absurd (cc h)
get_elem?-lt-length (y ∷ xs) zero x h = omega arith
get_elem?-lt-length (y ∷ xs) (suc i) x h = omega (arith, get_elem?-lt-length xs i x h)

pub get_elem?-map {ℓ κ} :
    {A : Type ℓ} {B : Type κ} (f : A → B) (xs : List A) (i : ℕ) (x : A)
    → get_elem? xs i ≡ some x
    → get_elem? (map f xs) i ≡ some (f x)
get_elem?-map f [] i x h = absurd (cc h)
get_elem?-map f (y ∷ xs) zero x h = ap some (ap f (some-injective _ _ h))
get_elem?-map f (y ∷ xs) (suc i) x h = get_elem?-map f xs i x h

pub get_or-map {ℓ κ} :
    {A : Type ℓ} {B : Type κ} (f : A → B) (xs : List A) (i : ℕ) (x : A) (d : B)
    → get_elem? xs i ≡ some x
    → get_or (map f xs) i d ≡ f x
get_or-map f [] i x d h = absurd (cc h)
get_or-map f (y ∷ xs) zero x d h = ap f (some-injective _ _ h)
get_or-map f (y ∷ xs) (suc i) x d h = get_or-map f xs i x d h

pub all-get_or {ℓ} :
    {A : Type ℓ} (p : A → Bool) (xs : List A) (i : ℕ) (d : A)
    → all p xs ≡ true
    → i < length xs
    → p (get_or xs i d) ≡ true
all-get_or p [] i d h room = absurd (omega arith)
all-get_or p (x ∷ xs) zero d h room = ground arith
all-get_or p (x ∷ xs) (suc i) d h room = all-get_or p xs i d (ground arith) (omega arith)

-- What every position of a list gives, a list gives.
pub map-range_from {ℓ κ} :
    {A : Type ℓ} {B : Type κ} (f : ℕ → B) (g : A → B) (lo : ℕ) (xs : List A)
    → ((i : ℕ) (x : A) → get_elem? xs i ≡ some x → f (lo + i) ≡ g x)
    → map f (range_from (length xs) lo) ≡ map g xs
map-range_from f g lo [] h = refl
map-range_from f g lo (x ∷ xs) h =
    let here : f lo ≡ g x = ap f (omega arith) ∙ h 0 x refl in
    let rest = map-range_from f g (lo + 1) xs (λ i y e. ap f (omega arith) ∙ h (suc i) y e) in
    rw (here, rest) refl

pub map-range_from-eq {ℓ} :
    {B : Type ℓ} (f g : ℕ → B) (count lo : ℕ)
    → ((i : ℕ) → i < lo + count → f i ≡ g i)
    → map f (range_from count lo) ≡ map g (range_from count lo)
map-range_from-eq f g zero lo h = refl
map-range_from-eq f g (suc count) lo h =
    rw (h lo (omega arith), map-range_from-eq f g count (lo + 1) (λ i below. h i (omega arith)))
      refl

pub drop-beyond {ℓ} : {A : Type ℓ} (xs : List A) (i : ℕ) → length xs ≤ i → drop i xs ≡ []
drop-beyond [] zero h = refl
drop-beyond [] (suc i) h = refl
drop-beyond (x ∷ xs) zero h = absurd (omega arith)
drop-beyond (x ∷ xs) (suc i) h = drop-beyond xs i (omega arith)

pub take-nil {ℓ} : {A : Type ℓ} (n : ℕ) → take {A = A} n [] ≡ []
take-nil zero = refl
take-nil (suc n) = refl
