-- ===== src/Common/Options.antt =====
-- `?` on `Option`, and `filter_map`.
use mathlib.Core.Path.{◌≡◌, refl, ap, ◌∙◌}
use mathlib.Core.Option.{Option, none, some}
use mathlib.Core.List.{List, [], ◌∷◌}

infixl 5 ◌>>=◌
abbrev pub ◌>>=◌ {ℓ κ} : {A : Type ℓ} {B : Type κ} → Option A → (A → Option B) → Option B
none >>= f = none
some a >>= f = f a

abbrev pub unwrap_or {ℓ} : {A : Type ℓ} → Option A → A → A
unwrap_or none d = d
unwrap_or (some a) d = a

abbrev pub push_some {ℓ} : {A : Type ℓ} → Option A → List A → List A
push_some none xs = xs
push_some (some a) xs = a ∷ xs

abbrev pub filter_map {ℓ κ} : {A : Type ℓ} {B : Type κ} → (A → Option B) → List A → List B
filter_map f [] = []
filter_map f (x ∷ xs) = push_some (f x) (filter_map f xs)

module _ {ℓ κ} {A : Type ℓ} {B : Type κ} where
  pub >>=-eq-some :
      (start : Option A) (next : A → Option B) {end : B}
      → (start >>= next) ≡ some end
      → (value : A) × (start ≡ some value) × (next value ≡ some end)
  >>=-eq-some none next chain = cc
  >>=-eq-some (some value) next chain = (value, refl, chain)

  -- A chain goes on with the value of its start.
  pub some->>= :
      {start : Option A} {value : A} (next : A → Option B) {end : Option B}
      → start ≡ some value
      → next value ≡ end
      → (start >>= next) ≡ end
  some->>= next e h = ap (λ o. o >>= next) e ∙ h
