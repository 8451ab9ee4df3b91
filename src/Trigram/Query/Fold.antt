-- ===== src/Trigram/Query/Fold.antt =====
-- `from_literal_ci` of crates/greplm-core/src/trigram.rs, by the readings that the forms of its
-- bytes allow.
use greplm.Common.{
  ℕ, ◌≡◌, refl, ◌∙◌, Bool, true, not, ◌||◌, inl, inr, List, [], ◌∷◌, ◌++◌, arith, ltb, length, any,
  all, any_mono, all_mono, Bool-cases, Option-cases,
}
use greplm.Trigram.{Trigram, IsTrigram, IsBytes, tri_eq, windows, contains, extract}
use greplm.Trigram.Extract.{AllTrigrams, windows-AllTrigrams, contains-extract}
use greplm.Trigram.Query.{
  default, dnf_filters, ci_window_trigrams, ci_dnfs, from_literal_ci, satisfied, dnf_holds,
}
use greplm.Trigram.Query.Literal.{contains-windows-after, contains-windows-within}
use greplm.Trigram.Query.Window.{Folds, listed, other, has_window, clause_holds}

Folds-tail :
    {b : ℕ} {needle text : List ℕ}
    → Folds (b ∷ needle) text
    → (f : List ℕ) × (rest : List ℕ) × (text ≡ f ++ rest) × Folds needle rest
Folds-tail (listed {text = t} fs f p m d) = (f, t, refl, d)
Folds-tail (other {text = t} f p d) = (f, t, refl, d)

dnf_holds_mono :
    (p q : Trigram → Bool) (dnf : List (List Trigram))
    → ((t : Trigram) → p t ≡ true → q t ≡ true)
    → dnf_holds p dnf ≡ true
    → dnf_holds q dnf ≡ true
dnf_holds_mono p q dnf h = any_mono (all p) (all q) dnf (λ g. all_mono p q g h)

-- Every clause of the query holds in every match of the needle.
ci_dnfs_hold :
    (needle : List ℕ) {text : List ℕ}
    → Folds needle text
    → all (dnf_holds (has_window text)) (ci_dnfs (windows needle)) ≡ true
unfolding ci_dnfs windows
ci_dnfs_hold [] d = refl
ci_dnfs_hold (x ∷ []) d = refl
ci_dnfs_hold (x ∷ y ∷ []) d = refl
ci_dnfs_hold (x ∷ y ∷ z ∷ needle) {text} d =
    let (f, rest, q, tail) = Folds-tail d in
    let below : all (dnf_holds (has_window text)) (ci_dnfs (windows (y ∷ z ∷ needle))) ≡ true =
      all_mono (dnf_holds (has_window rest)) (dnf_holds (has_window text))
        (ci_dnfs (windows (y ∷ z ∷ needle)))
        (λ dnf.
          dnf_holds_mono (has_window rest) (has_window text) dnf
            λ t h. rw q (contains-windows-after t f rest h))
        (ci_dnfs_hold (y ∷ z ∷ needle) tail) in
    elim (Option-cases (ci_window_trigrams (x, y, z))) [
      | inl e ↦ rw e below
      | inr (clause, e) ↦ rw e (ground (arith, clause_holds x y z clause e d, below))
    ]

IsTrigram-of_contains :
    (t : Trigram) (ts : List Trigram) → AllTrigrams ts → contains t ts ≡ true → IsTrigram t
unfolding contains
IsTrigram-of_contains t [] p h = cc
IsTrigram-of_contains t (u ∷ us) p h = elim (Bool-cases (tri_eq t u)) [
  | inl same ↦ ground arith
  | inr differ ↦ IsTrigram-of_contains t us p.1 (ground arith)
]

-- A window of a part of a document is extracted from the document.
pub contains-extract-within :
    (pre text post : List ℕ) (t : Trigram)
    → IsBytes (pre ++ (text ++ post))
    → contains t (windows text) ≡ true
    → contains t (extract (pre ++ (text ++ post))) ≡ true
contains-extract-within pre text post t bytes h =
    let content = pre ++ (text ++ post) in
    let found = contains-windows-within t pre text post h in
    let tri : IsTrigram t =
      IsTrigram-of_contains t (windows content) (windows-AllTrigrams content bytes) found in
    contains-extract content bytes t tri ∙ found

all-satisfied :
    (has : Trigram → Bool) (dnfs : List (List (List Trigram)))
    → all (dnf_holds has) dnfs ≡ true
    → satisfied has (record { dnfs = dnfs }) ≡ true
unfolding satisfied
all-satisfied has dnfs h =
    all_mono (dnf_holds has) (λ dnf. not (dnf_filters dnf) || dnf_holds has dnf) dnfs
      (λ dnf e. ground arith) h

-- Every document that contains a reading of the needle by its forms satisfies the query of the
-- needle.
pub from_literal_ci-admits_forms :
    (needle pre text post : List ℕ)
    → IsBytes (pre ++ (text ++ post))
    → Folds needle text
    → satisfied (λ t. contains t (extract (pre ++ (text ++ post)))) (from_literal_ci needle) ≡ true
unfolding from_literal_ci
from_literal_ci-admits_forms needle pre text post bytes d =
    let has : Trigram → Bool = λ t. contains t (extract (pre ++ (text ++ post))) in
    let held : satisfied has (record { dnfs = ci_dnfs (windows needle) }) ≡ true =
      all-satisfied has (ci_dnfs (windows needle)) (
        all_mono (dnf_holds (has_window text)) (dnf_holds has) (ci_dnfs (windows needle))
          (λ dnf.
            dnf_holds_mono (has_window text) has dnf
              λ t h. contains-extract-within pre text post t bytes h)
          (ci_dnfs_hold needle d)) in
    let nothing : satisfied has default ≡ true = unfold satisfied in refl in
    elim (Bool-cases (ltb (length needle) 3)) [
      | inl short ↦ rw short nothing
      | inr long ↦ elim (Bool-cases (any dnf_filters (ci_dnfs (windows needle)))) [
        | inl some_filter ↦ rw (long, some_filter) held
        | inr no_filter ↦ rw (long, no_filter) nothing
      ]
    ]
