-- ===== src/Table/Builder/Kinds.antt =====
-- The interned kinds of `SymTableBuilder` in crates/greplm-core/src/table.rs.
use greplm.Common.{
  ℕ, zero, suc, ◌+◌, ◌-◌, ◌%◌, ◌^◌, ◌≤◌, ◌<◌, ◌≡◌, refl, sym, ◌∙◌, true, inl, inr, some, List, [],
  ◌∷◌, ◌++◌, arith, Bool-cases, Option-cases, length, get_elem?,
}
use mathlib.Core.List.{append-nil}
use mathlib.Core.Option.{some-injective}
use greplm.Fst.{bytes_eq}
use greplm.Segment.{Text}
use greplm.Table.Builder.{find_kind, intern}

pub bytes_eq-eq-true : (xs ys : List ℕ) → bytes_eq xs ys ≡ true → xs ≡ ys
bytes_eq-eq-true [] [] e = refl
bytes_eq-eq-true [] (y ∷ ys) e = absurd (cc e)
bytes_eq-eq-true (x ∷ xs) [] e = absurd (cc e)
bytes_eq-eq-true (x ∷ xs) (y ∷ ys) e =
    let same : x ≡ y = ground arith in rw (same, bytes_eq-eq-true xs ys (ground arith)) refl

pub get_elem?_append {ℓ} :
    {A : Type ℓ} (xs ys : List A) (i : ℕ) (x : A)
    → get_elem? xs i ≡ some x
    → get_elem? (xs ++ ys) i ≡ some x
get_elem?_append [] ys i x h = absurd (cc h)
get_elem?_append (z ∷ xs) ys zero x h = h
get_elem?_append (z ∷ xs) ys (suc i) x h = get_elem?_append xs ys i x h

get_elem?_last {ℓ} :
    {A : Type ℓ} (xs : List A) (x : A) (i : ℕ) → i ≡ length xs → get_elem? (xs ++ x ∷ []) i ≡ some x
get_elem?_last [] x zero h = refl
get_elem?_last [] x (suc i) h = absurd (omega arith)
get_elem?_last (y ∷ xs) x zero h = absurd (omega arith)
get_elem?_last (y ∷ xs) x (suc i) h = get_elem?_last xs x i (omega arith)

find_kind-eq-some :
    (i : ℕ) (kind : Text) (kinds : List Text) (id : ℕ)
    → find_kind i kind kinds ≡ some id
    → (i ≤ id) × (get_elem? kinds (id - i) ≡ some kind)
unfolding find_kind
find_kind-eq-some i kind [] id h = absurd (cc h)
find_kind-eq-some i kind (k ∷ ks) id h = elim (Bool-cases (bytes_eq kind k)) [
  | inl e ↦
      let same : i ≡ id = some-injective _ _ (sym (rw e refl) ∙ h) in
      let z : id - id ≡ 0 = omega arith in
      (omega arith, rw (same, z, bytes_eq-eq-true kind k e) refl)
  | inr e ↦
      let later : find_kind (i + 1) kind ks ≡ some id = sym (rw e refl) ∙ h in
      let (above, found) = find_kind-eq-some (i + 1) kind ks id later in
      let s : id - i ≡ suc (id - (i + 1)) = omega arith in (omega arith, rw s found)
]

pub record Interned (kinds : List Text) (kind : Text) (result : ℕ × List Text) : Type 0 where
  pub more : List Text
  pub kinds_eq : result.1 ≡ kinds ++ more
  pub more_le : length more ≤ 1
  pub found : get_elem? (kinds ++ more) result.0 ≡ some kind

Interned-old :
    (kinds : List Text) (kind : Text) (id : ℕ)
    → find_kind 0 kind kinds ≡ some id
    → Interned kinds kind (id, kinds)
Interned-old kinds kind id e =
    let at : id - 0 ≡ id = omega arith in
    record {
      more = [];
      kinds_eq = sym (append-nil kinds);
      more_le = omega arith;
      found = rw (append-nil kinds, sym at) (find_kind-eq-some 0 kind kinds id e).1;
    }

Interned-new :
    (kinds : List Text) (kind : Text)
    → length kinds < 2 ^ 32
    → Interned kinds kind (length kinds % 2 ^ 32, kinds ++ kind ∷ [])
Interned-new kinds kind room = record {
  more = kind ∷ [];
  kinds_eq = refl;
  more_le = omega arith;
  found = get_elem?_last kinds kind (length kinds % 2 ^ 32) (omega arith);
}

-- An interned kind is found at its id, and the others stay where they were.
pub intern_lem :
    (kinds : List Text) (kind : Text)
    → length kinds < 2 ^ 32
    → Interned kinds kind (intern kinds kind)
unfolding intern
intern_lem kinds kind room = elim (Option-cases (find_kind 0 kind kinds)) [
  | inl missing ↦ rw (missing, intern) (Interned-new kinds kind room)
  | inr found ↦ rw (found.1, intern) (Interned-old kinds kind found.0 found.1)
]
