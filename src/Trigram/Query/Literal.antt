-- ===== src/Trigram/Query/Literal.antt =====
-- `from_literal` of crates/greplm-core/src/trigram.rs.
use greplm.Common.{
  ℕ, ◌≡◌, refl, sym, ◌∙◌, Bool, true, false, List, [], ◌∷◌, ◌++◌, arith, ltb, length, is_empty, all,
}
use greplm.Trigram.{Trigram, IsTrigram, IsBytes, tri_eq, windows, contains, extract}
use greplm.Trigram.Extract.{AllTrigrams, contains-extract, extract-AllTrigrams}
use greplm.Trigram.Query.{is_unconstrained, from_literal, satisfied}

pub contains-windows-cons :
    (t : Trigram) (x : ℕ) (xs : List ℕ)
    → contains t (windows xs) ≡ true
    → contains t (windows (x ∷ xs)) ≡ true
unfolding contains windows
contains-windows-cons t x [] h = cc
contains-windows-cons t x (y ∷ []) h = cc
contains-windows-cons t x (y ∷ z ∷ rest) h = ground arith

pub contains-windows-after :
    (t : Trigram) (pre xs : List ℕ)
    → contains t (windows xs) ≡ true
    → contains t (windows (pre ++ xs)) ≡ true
contains-windows-after t [] xs h = h
contains-windows-after t (x ∷ pre) xs h =
    contains-windows-cons t x (pre ++ xs) (contains-windows-after t pre xs h)

pub contains-windows-before :
    (t : Trigram) (xs post : List ℕ)
    → contains t (windows xs) ≡ true
    → contains t (windows (xs ++ post)) ≡ true
unfolding contains windows
contains-windows-before t [] post h = cc
contains-windows-before t (x ∷ []) post h = cc
contains-windows-before t (x ∷ y ∷ []) post h = cc
contains-windows-before t (x ∷ y ∷ z ∷ rest) post h =
    ground (arith, contains-windows-before t (y ∷ z ∷ rest) post)

pub contains-windows-within :
    (t : Trigram) (pre xs post : List ℕ)
    → contains t (windows xs) ≡ true
    → contains t (windows (pre ++ (xs ++ post))) ≡ true
contains-windows-within t pre xs post h =
    contains-windows-after t pre (xs ++ post) (contains-windows-before t xs post h)

pub tri_eq_refl : (t : Trigram) → tri_eq t t ≡ true
tri_eq_refl (a, b, c) = ground arith

-- A test that all members pass.
pub all_of_contains :
    (has : Trigram → Bool) (ts : List Trigram)
    → AllTrigrams ts
    → ((t : Trigram) → IsTrigram t → contains t ts ≡ true → has t ≡ true)
    → all has ts ≡ true
unfolding contains
all_of_contains has [] p h = refl
all_of_contains has (t ∷ ts) p h =
    ground
      (arith, h t p.0, tri_eq_refl t, all_of_contains has ts p.1 (λ u q e. h u q (ground arith)))

pub IsBytes-append_left : (xs ys : List ℕ) → IsBytes (xs ++ ys) → IsBytes xs
IsBytes-append_left [] ys h = tt
IsBytes-append_left (x ∷ xs) ys h = (h.0, IsBytes-append_left xs ys h.1)

pub IsBytes-append_right : (xs ys : List ℕ) → IsBytes (xs ++ ys) → IsBytes ys
IsBytes-append_right [] ys h = h
IsBytes-append_right (x ∷ xs) ys h = IsBytes-append_right xs ys h.1

-- The trigrams of a part of a document are trigrams of the document.
pub extract-within :
    (pre needle post : List ℕ)
    → IsBytes (pre ++ (needle ++ post))
    → all (λ t. contains t (extract (pre ++ (needle ++ post)))) (extract needle) ≡ true
extract-within pre needle post bytes =
    let inner : IsBytes needle =
      IsBytes-append_left needle post (IsBytes-append_right pre (needle ++ post) bytes) in
    all_of_contains _ (extract needle) (extract-AllTrigrams needle) λ t p h.
      contains-extract (pre ++ (needle ++ post)) bytes t p
      ∙ contains-windows-within t pre needle post (sym (contains-extract needle inner t p) ∙ h)

-- A document of bytes that contains the needle satisfies the query of the needle.
pub from_literal-admits :
    (pre needle post : List ℕ)
    → IsBytes (pre ++ (needle ++ post))
    → satisfied (λ t. contains t (extract (pre ++ (needle ++ post)))) (from_literal needle) ≡ true
unfolding satisfied from_literal
from_literal-admits pre needle post bytes = ground (arith, extract-within pre needle post bytes)

nonempty_of_contains :
    (t : Trigram) (ts : List Trigram) → contains t ts ≡ true → is_empty ts ≡ false
unfolding contains
nonempty_of_contains t [] h = cc
nonempty_of_contains t (u ∷ us) h = refl

is_empty-extract :
    (needle : List ℕ) → IsBytes needle → is_empty (extract needle) ≡ ltb (length needle) 3
is_empty-extract [] bytes = unfold extract in refl
is_empty-extract (x ∷ []) bytes = unfold extract in refl
is_empty-extract (x ∷ y ∷ []) bytes = unfold extract in refl
is_empty-extract (x ∷ y ∷ z ∷ rest) bytes =
    nonempty_of_contains (x, y, z) (extract (x ∷ y ∷ z ∷ rest))
      (contains-extract (x ∷ y ∷ z ∷ rest) bytes (x, y, z) (omega arith)
        ∙ (unfold contains windows in ground (arith, tri_eq_refl (x, y, z))))
    ∙ ground arith

-- The query of a needle of bytes is unconstrained exactly when the needle has fewer than three
-- bytes.
pub from_literal-is_unconstrained :
    (needle : List ℕ)
    → IsBytes needle
    → is_unconstrained (from_literal needle) ≡ ltb (length needle) 3
unfolding is_unconstrained from_literal
from_literal-is_unconstrained needle bytes = ground (arith, is_empty-extract needle bytes)
