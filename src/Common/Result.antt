-- ===== src/Common/Result.antt =====
-- crates/greplm-core/src/error.rs: the crate's `Result` and its error variants, without the
-- messages and sources that they carry.
use mathlib.Core.Path.{◌≡◌, refl, ap, ◌∙◌}
use mathlib.Core.Logic.{◌⊎◌, inl, inr}
use mathlib.Core.Bool.{Bool, true, false}
use mathlib.Core.Option.{Option, none, some, some-injective}
use greplm.Common.Tests.{if◌then◌else◌}

pub data Error : Type 0 where
  io plain_io json postcard toml_de toml_ser fst db regex index_missing corrupt other : Error

pub data Result {ℓ} (A : Type ℓ) : Type ℓ where
  ok : A → Result A
  err : Error → Result A

infixl 5 ◌>>=◌
abbrev pub ◌>>=◌ {ℓ κ} : {A : Type ℓ} {B : Type κ} → Result A → (A → Result B) → Result B
ok a >>= f = f a
err e >>= f = err e

-- `Option::ok_or_else` and `map_err`
abbrev pub ok_or {ℓ} : {A : Type ℓ} → Option A → Error → Result A
ok_or none e = err e
ok_or (some a) e = ok a

-- `Result::expect`: nothing where it panics
abbrev pub expect {ℓ} : {A : Type ℓ} → Result A → Option A
expect (ok a) = some a
expect (err e) = none

pub expect-eq-some {ℓ} : {A : Type ℓ} (m : Result A) {a : A} → expect m ≡ some a → m ≡ ok a
expect-eq-some (ok b) h = ap ok (some-injective _ _ h)
expect-eq-some (err e) h = absurd (cc h)

pub Result-cases {ℓ} :
    {A : Type ℓ} (m : Result A) → ((a : A) × (m ≡ ok a)) ⊎ ((e : Error) × (m ≡ err e))
Result-cases (ok a) = inl (a, refl)
Result-cases (err e) = inr (e, refl)

abbrev pub ok_value {ℓ} : {A : Type ℓ} → A → Result A → A
ok_value d (ok a) = a
ok_value d (err e) = d

module _ {ℓ κ} {A : Type ℓ} {B : Type κ} where
  -- The value that a chain without an error went on with.
  pub >>=-eq-ok :
      (start : Result A) (next : A → Result B) {end : B}
      → (start >>= next) ≡ ok end
      → (value : A) × (start ≡ ok value) × (next value ≡ ok end)
  >>=-eq-ok (err e) next chain = cc
  >>=-eq-ok (ok value) next chain = (value, refl, chain)

pub ok_injective {ℓ} : {A : Type ℓ} {a b : A} → ok a ≡ ok b → a ≡ b
ok_injective {a = a} e = ap (λ r. ok_value a r) e

-- A chain that went past a guard.
pub guard-eq-ok {ℓ} :
    {A : Type ℓ} (b : Bool) (e : Error) (rest : Result A) {end : A}
    → (if b then err e else rest) ≡ ok end
    → (b ≡ false) × (rest ≡ ok end)
guard-eq-ok true e rest h = absurd (cc h)
guard-eq-ok false e rest h = (refl, h)

pub ok_or-eq-ok {ℓ} :
    {A : Type ℓ} (o : Option A) (e : Error) {a : A} → ok_or o e ≡ ok a → o ≡ some a
ok_or-eq-ok none e h = absurd (cc h)
ok_or-eq-ok (some b) e h = ap some (ok_injective h)

-- A chain goes on with the value of its start.
pub ok->>= {ℓ κ} :
    {A : Type ℓ} {B : Type κ} {m : Result A} {a : A} (next : A → Result B) {end : Result B}
    → m ≡ ok a
    → next a ≡ end
    → (m >>= next) ≡ end
ok->>= next e h = ap (λ r. r >>= next) e ∙ h
