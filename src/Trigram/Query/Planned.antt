-- ===== src/Trigram/Query/Planned.antt =====
-- The trigrams that `ci_window_trigrams` of crates/greplm-core/src/trigram.rs lists.
use greplm.Common.{
  ℕ, ◌<◌, ◌≡◌, subst, ◌||◌, inl, inr, Option, none, some, List, [], ◌∷◌, ◌++◌, map, arith, ◌==◌,
  leb, Bool-cases,
}
use greplm.Common.Options.{>>=-eq-some}
use greplm.Common.Sort.{sort_by_key, insert_by}
use mathlib.Core.Option.{some-injective}
use greplm.Trigram.{Trigram, IsTrigram, IsBytes, key_of, tri_eq}
use greplm.Trigram.Extract.{AllTrigrams}
use greplm.Trigram.Query.{
  FoldForm, fold_forms, to_ascii_lowercase, to_ascii_uppercase, is_ascii_uppercase,
  is_ascii_lowercase, first_three, combine_after, combine, dedup, ci_window_trigrams,
}

abbrev FormsAreBytes : List FoldForm → Type 0
FormsAreBytes [] = Unit {0}
FormsAreBytes (f ∷ fs) = IsBytes f × FormsAreBytes fs

abbrev FormsIfAny : Option (List FoldForm) → Type 0
FormsIfAny none = Unit {0}
FormsIfAny (some fs) = FormsAreBytes fs

fold_forms-FormsIfAny : (b : ℕ) → FormsIfAny (fold_forms b)
unfolding fold_forms to_ascii_lowercase to_ascii_uppercase
fold_forms-FormsIfAny b = elim (Bool-cases (leb 0x80 b)) [
  | inl beyond ↦ rw beyond tt
  | inr ascii ↦
      let lower : to_ascii_lowercase b < 256 = ground arith in
      let upper : to_ascii_uppercase b < 256 = ground arith in
      elim (Bool-cases (is_ascii_uppercase b || is_ascii_lowercase b)) [
        | inr plain ↦ rw (ascii, plain) ((ground arith, tt), tt)
        | inl letter ↦ elim (Bool-cases (to_ascii_lowercase b == b's')) [
          | inl s ↦ rw (ascii, letter, s) ((lower, tt), ((upper, tt), (omega arith, tt)))
          | inr not_s ↦ elim (Bool-cases (to_ascii_lowercase b == b'k')) [
            | inl k ↦ rw (ascii, letter, not_s, k) ((lower, tt), ((upper, tt), (omega arith, tt)))
            | inr not_k ↦ rw (ascii, letter, not_s, not_k) ((lower, tt), ((upper, tt), tt))
          ]
        ]
      ]
]

IsBytes-append : (xs ys : List ℕ) → IsBytes xs → IsBytes ys → IsBytes (xs ++ ys)
IsBytes-append [] ys p q = q
IsBytes-append (x ∷ xs) ys p q = (p.0, IsBytes-append xs ys p.1 q)

IsTrigram-first_three : (xs : List ℕ) → IsBytes xs → IsTrigram (first_three xs)
unfolding first_three
IsTrigram-first_three [] p = omega arith
IsTrigram-first_three (x ∷ []) p = omega arith
IsTrigram-first_three (x ∷ y ∷ []) p = omega arith
IsTrigram-first_three (x ∷ y ∷ z ∷ rest) p = omega arith

AllTrigrams-append :
    (ts us : List Trigram) → AllTrigrams ts → AllTrigrams us → AllTrigrams (ts ++ us)
AllTrigrams-append [] us p q = q
AllTrigrams-append (t ∷ ts) us p q = (p.0, AllTrigrams-append ts us p.1 q)

AllTrigrams-forms :
    (a b : FoldForm) (cs : List FoldForm)
    → IsBytes a
    → IsBytes b
    → FormsAreBytes cs
    → AllTrigrams (map (λ c. first_three (a ++ (b ++ c))) cs)
AllTrigrams-forms a b [] p q h = tt
AllTrigrams-forms a b (c ∷ cs) p q h = (
  IsTrigram-first_three (a ++ (b ++ c)) (IsBytes-append a (b ++ c) p (IsBytes-append b c q h.0)),
  AllTrigrams-forms a b cs p q h.1,
)

AllTrigrams-combine_after :
    (a : FoldForm) (bs cs : List FoldForm)
    → IsBytes a
    → FormsAreBytes bs
    → FormsAreBytes cs
    → AllTrigrams (combine_after a bs cs)
unfolding combine_after
AllTrigrams-combine_after a [] cs p q h = tt
AllTrigrams-combine_after a (b ∷ bs) cs p q h =
    AllTrigrams-append (map (λ c. first_three (a ++ (b ++ c))) cs) (combine_after a bs cs)
      (AllTrigrams-forms a b cs p q.0 h) (AllTrigrams-combine_after a bs cs p q.1 h)

AllTrigrams-combine :
    (fs bs cs : List FoldForm)
    → FormsAreBytes fs
    → FormsAreBytes bs
    → FormsAreBytes cs
    → AllTrigrams (combine fs bs cs)
unfolding combine
AllTrigrams-combine [] bs cs p q h = tt
AllTrigrams-combine (a ∷ fs) bs cs p q h =
    AllTrigrams-append (combine_after a bs cs) (combine fs bs cs)
      (AllTrigrams-combine_after a bs cs p.0 q h) (AllTrigrams-combine fs bs cs p.1 q h)

AllTrigrams-insert_by :
    (t : Trigram) (ts : List Trigram)
    → IsTrigram t
    → AllTrigrams ts
    → AllTrigrams (insert_by key_of t ts)
unfolding insert_by
AllTrigrams-insert_by t [] p h = (p, tt)
AllTrigrams-insert_by t (u ∷ us) p h = elim (Bool-cases (leb (key_of t) (key_of u))) [
  | inl e ↦ rw e (p, h)
  | inr e ↦ rw e (h.0, AllTrigrams-insert_by t us p h.1)
]

AllTrigrams-sort_by_key : (ts : List Trigram) → AllTrigrams ts → AllTrigrams (sort_by_key key_of ts)
unfolding sort_by_key
AllTrigrams-sort_by_key [] h = tt
AllTrigrams-sort_by_key (t ∷ ts) h =
    AllTrigrams-insert_by t (sort_by_key key_of ts) h.0 (AllTrigrams-sort_by_key ts h.1)

AllTrigrams-dedup : (ts : List Trigram) → AllTrigrams ts → AllTrigrams (dedup ts)
unfolding dedup
AllTrigrams-dedup [] h = tt
AllTrigrams-dedup (t ∷ []) h = h
AllTrigrams-dedup (t ∷ u ∷ us) h = elim (Bool-cases (tri_eq t u)) [
  | inl same ↦ rw same (AllTrigrams-dedup (u ∷ us) h.1)
  | inr differ ↦ rw differ (h.0, AllTrigrams-dedup (u ∷ us) h.1)
]

forms_of :
    (b : ℕ) (o : Option (List FoldForm)) (fs : List FoldForm)
    → FormsIfAny o
    → o ≡ some fs
    → FormsAreBytes fs
forms_of b none fs p e = cc
forms_of b (some gs) fs p e = subst FormsAreBytes (some-injective _ _ e) p

-- Whatever the window is, the trigrams of its clause are three bytes each.
pub ci_window_trigrams-AllTrigrams :
    (w : Trigram) (clause : List Trigram) → ci_window_trigrams w ≡ some clause → AllTrigrams clause
unfolding ci_window_trigrams
ci_window_trigrams-AllTrigrams (x, y, z) clause e =
    let (fs, first, e1) = >>=-eq-some (fold_forms x) _ e in
    let (bs, second, e2) = >>=-eq-some (fold_forms y) _ e1 in
    let (cs, third, e3) = >>=-eq-some (fold_forms z) _ e2 in
    subst AllTrigrams (some-injective _ _ e3) (
      AllTrigrams-dedup (sort_by_key key_of (combine fs bs cs)) (
        AllTrigrams-sort_by_key (combine fs bs cs) (
          AllTrigrams-combine fs bs cs
            (forms_of x (fold_forms x) fs (fold_forms-FormsIfAny x) first)
            (forms_of y (fold_forms y) bs (fold_forms-FormsIfAny y) second)
            (forms_of z (fold_forms z) cs (fold_forms-FormsIfAny z) third))))
