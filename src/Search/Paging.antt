-- ===== src/Search/Paging.antt =====
-- `paginate` and `shared_prefix_len` of crates/greplm-core/src/search.rs.
use greplm.Common.{
  ℕ, suc, ◌≤◌, ◌≡◌, refl, sym, inl, inr, List, [], ◌∷◌, arith, ◌==◌, leb, if◌then◌else◌, Bool-cases,
  length, take, drop,
}
use greplm.Common.Positions.{take-nil, drop-beyond}
use greplm.Fst.{bytes_eq}
use greplm.Segment.{Text}

-- `drain(0..offset)` and `truncate(limit)`
unfoldable pub paginate {ℓ} : {A : Type ℓ} → List A → ℕ → ℕ → List A
paginate items offset limit =
    if leb (length items) offset then [] else take limit (drop offset items)

-- the part up to the next slash, and the parts after it, under construction
abbrev onto_first : ℕ → List Text → List Text
onto_first b [] = (b ∷ []) ∷ []
onto_first b (p ∷ ps) = (b ∷ p) ∷ ps

-- `split('/')`
unfoldable pub split_slash : Text → List Text
split_slash [] = [] ∷ []
split_slash (b ∷ bs) =
    let rest = split_slash bs in if b == b'/' then [] ∷ rest else onto_first b rest

-- `zip`, `take_while` and `count`
unfoldable pub equal_parts : List Text → List Text → ℕ
equal_parts [] ys = 0
equal_parts (x ∷ xs) [] = 0
equal_parts (x ∷ xs) (y ∷ ys) = let rest = equal_parts xs ys in if bytes_eq x y then suc rest else 0

unfoldable pub shared_prefix_len : Text → Text → ℕ
unfolding split_slash equal_parts
shared_prefix_len a b = equal_parts (split_slash a) (split_slash b)

-- A page is what the offset leaves, up to the limit, also where the offset is beyond the end.
pub paginate_lem {ℓ} :
    {A : Type ℓ} (items : List A) (offset limit : ℕ)
    → paginate items offset limit ≡ take limit (drop offset items)
unfolding paginate
paginate_lem items offset limit = elim (Bool-cases (leb (length items) offset)) [
  | inl e ↦ rw (e, drop-beyond items offset (ground arith)) (sym (take-nil limit))
  | inr e ↦ rw e refl
]

equal_parts-le :
    (xs ys : List Text) → (equal_parts xs ys ≤ length xs) × (equal_parts xs ys ≤ length ys)
unfolding equal_parts
equal_parts-le [] ys = (omega arith, omega arith)
equal_parts-le (x ∷ xs) [] = (omega arith, omega arith)
equal_parts-le (x ∷ xs) (y ∷ ys) =
    let (left, right) = equal_parts-le xs ys in (ground arith, ground arith)

-- Two paths share at most as many components as each has.
pub shared_prefix_len-le :
    (a b : Text)
    → (shared_prefix_len a b ≤ length (split_slash a))
      × (shared_prefix_len a b ≤ length (split_slash b))
unfolding shared_prefix_len
shared_prefix_len-le a b = equal_parts-le (split_slash a) (split_slash b)
