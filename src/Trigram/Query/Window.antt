-- ===== src/Trigram/Query/Window.antt =====
-- One window of a needle: the trigrams that `ci_window_trigrams` lists for it in
-- crates/greplm-core/src/trigram.rs.
use greplm.Common.{
  ℕ, ◌≡◌, refl, subst, ◌∙◌, Bool, true, ◌||◌, none, some, List, [], ◌∷◌, ◌++◌, map, arith,
}
use mathlib.Core.Option.{some-injective}
use greplm.Common.Member.{OneOf, first, later}
use greplm.Common.Options.{>>=-eq-some}
use greplm.Common.Sort.{sort_by_key, insert_by}
use greplm.Trigram.{Trigram, key_of, tri_eq, windows, contains}
use greplm.Trigram.Query.{
  FoldForm, fold_forms, first_three, combine_after, combine, dedup, ci_window_trigrams, singletons,
  dnf_holds,
}
use greplm.Trigram.Query.Literal.{tri_eq_refl}

-- A text that matches the needle without regard to case: each ASCII byte is matched by one of its
-- forms, and a byte whose forms are not enumerable by any bytes.
pub data Folds : List ℕ → List ℕ → Type 0 where
  done : Folds [] []
  listed :
      {b : ℕ} {needle text : List ℕ} (fs : List FoldForm) (f : FoldForm)
      → fold_forms b ≡ some fs
      → OneOf f fs
      → Folds needle text
      → Folds (b ∷ needle) (f ++ text)
  other :
      {b : ℕ} {needle text : List ℕ} (f : List ℕ)
      → fold_forms b ≡ none
      → Folds needle text
      → Folds (b ∷ needle) (f ++ text)

-- Every form has a byte.
abbrev NonEmptyForms : List FoldForm → Type 0
NonEmptyForms [] = Unit {0}
NonEmptyForms ([] ∷ fs) = ⊥
NonEmptyForms ((x ∷ f) ∷ fs) = NonEmptyForms fs

fold_forms-NonEmptyForms : (b : ℕ) (fs : List FoldForm) → fold_forms b ≡ some fs → NonEmptyForms fs
unfolding fold_forms
fold_forms-NonEmptyForms b [] h = tt
fold_forms-NonEmptyForms b ([] ∷ fs) h = ground arith
fold_forms-NonEmptyForms b ((x ∷ f) ∷ []) h = tt
fold_forms-NonEmptyForms b ((x ∷ f) ∷ [] ∷ fs) h = ground arith
fold_forms-NonEmptyForms b ((x ∷ f) ∷ (y ∷ g) ∷ []) h = tt
fold_forms-NonEmptyForms b ((x ∷ f) ∷ (y ∷ g) ∷ [] ∷ fs) h = ground arith
fold_forms-NonEmptyForms b ((x ∷ f) ∷ (y ∷ g) ∷ (z ∷ e) ∷ []) h = tt
fold_forms-NonEmptyForms b ((x ∷ f) ∷ (y ∷ g) ∷ (z ∷ e) ∷ w ∷ fs) h = absurd (ground arith)

OneOf-nonempty :
    {f : FoldForm} {fs : List FoldForm}
    → OneOf f fs
    → NonEmptyForms fs
    → (x : ℕ) × (xs : List ℕ) × (f ≡ x ∷ xs)
OneOf-nonempty {f = []} first h = absurd h
OneOf-nonempty {f = x ∷ xs} first h = (x, xs, refl)
OneOf-nonempty (later {y = []} m) h = absurd h
OneOf-nonempty (later {y = x ∷ g} m) h = OneOf-nonempty m h

-- The start of a match: a form of the first byte, and a match of the rest.
Folds-step :
    {b : ℕ} {needle text : List ℕ} (fs : List FoldForm)
    → fold_forms b ≡ some fs
    → Folds (b ∷ needle) text
    → (f : FoldForm) × (rest : List ℕ) × (text ≡ f ++ rest) × OneOf f fs × Folds needle rest
Folds-step fs e (listed {text = t} gs f p m d) =
    let q : gs ≡ fs = cc (p, e) in (f, t, refl, subst (OneOf f) q m, d)
Folds-step fs e (other f p d) = cc

contains-append :
    (t : Trigram) (xs ys : List Trigram) → contains t (xs ++ ys) ≡ (contains t xs || contains t ys)
unfolding contains
contains-append t [] ys = refl
contains-append t (x ∷ xs) ys = ground (arith, contains-append t xs ys)

contains_of_OneOf :
    (g : FoldForm → Trigram) {f : FoldForm} {fs : List FoldForm}
    → OneOf f fs
    → contains (g f) (map g fs) ≡ true
unfolding contains
contains_of_OneOf g {f} first = rw (tri_eq_refl (g f))
contains_of_OneOf g (later m) = ground (arith, contains_of_OneOf g m)

contains-combine_after :
    (a : FoldForm) {b c : FoldForm} {bs cs : List FoldForm}
    → OneOf b bs
    → OneOf c cs
    → contains (first_three (a ++ (b ++ c))) (combine_after a bs cs) ≡ true
unfolding combine_after
contains-combine_after a {bs = []} l m = elim l [ ]
contains-combine_after a {b} {c} {bs = _ ∷ bs} {cs} first m =
    contains-append _ (map (λ d. first_three (a ++ (b ++ d))) cs) (combine_after a bs cs)
    ∙ ground (arith, contains_of_OneOf (λ d. first_three (a ++ (b ++ d))) m)
contains-combine_after a {b} {c} {bs = e ∷ bs} {cs} (later l) m =
    contains-append _ (map (λ d. first_three (a ++ (e ++ d))) cs) (combine_after a bs cs)
    ∙ ground (arith, contains-combine_after a l m)

-- Every choice of forms is among the combinations.
contains-combine :
    {a b c : FoldForm} {lead bs cs : List FoldForm}
    → OneOf a lead
    → OneOf b bs
    → OneOf c cs
    → contains (first_three (a ++ (b ++ c))) (combine lead bs cs) ≡ true
unfolding combine
contains-combine {lead = []} k l m = elim k [ ]
contains-combine {a} {b} {c} {lead = _ ∷ lead} {bs} {cs} first l m =
    contains-append _ (combine_after a bs cs) (combine lead bs cs)
    ∙ ground (arith, contains-combine_after a l m)
contains-combine {a} {b} {c} {lead = e ∷ lead} {bs} {cs} (later k) l m =
    contains-append _ (combine_after e bs cs) (combine lead bs cs)
    ∙ ground (arith, contains-combine k l m)

contains-insert_by :
    (t u : Trigram) (ts : List Trigram)
    → contains t (insert_by key_of u ts) ≡ (tri_eq t u || contains t ts)
unfolding contains insert_by
contains-insert_by t u [] = refl
contains-insert_by t u (v ∷ ts) = ground (arith, contains-insert_by t u ts)

contains-sort_by_key :
    (t : Trigram) (ts : List Trigram) → contains t (sort_by_key key_of ts) ≡ contains t ts
unfolding contains sort_by_key
contains-sort_by_key t [] = refl
contains-sort_by_key t (u ∷ ts) =
    contains-insert_by t u (sort_by_key key_of ts) ∙ ground (arith, contains-sort_by_key t ts)

contains-dedup : (t : Trigram) (ts : List Trigram) → contains t (dedup ts) ≡ contains t ts
unfolding contains dedup
contains-dedup t [] = refl
contains-dedup t (u ∷ []) = refl
contains-dedup t (u ∷ v ∷ ts) = ground (arith, contains-dedup t (v ∷ ts))

abbrev pub has_window : List ℕ → Trigram → Bool
has_window text t = contains t (windows text)

first_three-window :
    (a b c : FoldForm) (rest : List ℕ) (xa xb xc : ℕ) (ta tb tc : List ℕ)
    → a ≡ xa ∷ ta
    → b ≡ xb ∷ tb
    → c ≡ xc ∷ tc
    → contains (first_three (a ++ (b ++ c))) (windows (a ++ (b ++ (c ++ rest)))) ≡ true
unfolding first_three windows contains
first_three-window a b c rest xa xb xc [] [] tc ea eb ec =
    rw (ea, eb, ec) (ground (arith, tri_eq_refl (xa, xb, xc)))
first_three-window a b c rest xa xb xc [] (y ∷ tb) tc ea eb ec =
    rw (ea, eb, ec) (ground (arith, tri_eq_refl (xa, xb, y)))
first_three-window a b c rest xa xb xc (y ∷ []) tb tc ea eb ec =
    rw (ea, eb, ec) (ground (arith, tri_eq_refl (xa, y, xb)))
first_three-window a b c rest xa xb xc (y ∷ z ∷ ta) tb tc ea eb ec =
    rw (ea, eb, ec) (ground (arith, tri_eq_refl (xa, y, z)))

any-singletons :
    (has : Trigram → Bool) (t : Trigram) (ts : List Trigram)
    → contains t ts ≡ true
    → has t ≡ true
    → dnf_holds has (singletons ts) ≡ true
unfolding contains
any-singletons has t [] h p = cc
any-singletons has (a, b, c) ((x, y, z) ∷ ts) h p = ground (arith, any-singletons has (a, b, c) ts)

-- The clause of three lists of forms holds in a text that begins with one form of each.
clause_holds_at :
    {fx fy fz : List FoldForm} {a b c : FoldForm} {ra rb text : List ℕ} (rc : List ℕ)
    (clause : List Trigram)
    → dedup (sort_by_key key_of (combine fx fy fz)) ≡ clause
    → OneOf a fx × OneOf b fy × OneOf c fz
    → NonEmptyForms fx × NonEmptyForms fy × NonEmptyForms fz
    → (text ≡ a ++ ra) × (ra ≡ b ++ rb) × (rb ≡ c ++ rc)
    → dnf_holds (has_window text) (singletons clause) ≡ true
clause_holds_at {fx} {fy} {fz} {a} {b} {c} rc clause e (ma, mb, mc) (na, nb, nc) (qa, qb, qc) =
    let (xa, ta, pa) = OneOf-nonempty ma na in
    let (xb, tb, pb) = OneOf-nonempty mb nb in
    let (xc, tc, pc) = OneOf-nonempty mc nc in
    let listed_in : contains (first_three (a ++ (b ++ c))) clause ≡ true =
      subst (λ cl. contains (first_three (a ++ (b ++ c))) cl ≡ true) e
        (contains-dedup _ (sort_by_key key_of (combine fx fy fz))
          ∙ contains-sort_by_key _ (combine fx fy fz)
          ∙ contains-combine ma mb mc) in
    rw (qa, qb, qc)
      (any-singletons _ (first_three (a ++ (b ++ c))) clause listed_in
        (first_three-window a b c rc xa xb xc ta tb tc pa pb pc))

-- The clause of a window holds in every text that begins with a match of it.
pub clause_holds :
    (x y z : ℕ) {needle text : List ℕ} (clause : List Trigram)
    → ci_window_trigrams (x, y, z) ≡ some clause
    → Folds (x ∷ y ∷ z ∷ needle) text
    → dnf_holds (has_window text) (singletons clause) ≡ true
unfolding ci_window_trigrams
clause_holds x y z clause e d =
    let (fx, ex, e1) = >>=-eq-some (fold_forms x) _ e in
    let (fy, ey, e2) = >>=-eq-some (fold_forms y) _ e1 in
    let (fz, ez, e3) = >>=-eq-some (fold_forms z) _ e2 in
    let (a, ra, qa, ma, da) = Folds-step fx ex d in
    let (b, rb, qb, mb, db) = Folds-step fy ey da in
    let (c, rc, qc, mc, dc) = Folds-step fz ez db in
    clause_holds_at rc clause (some-injective _ _ e3) (ma, mb, mc)
      (
        fold_forms-NonEmptyForms x fx ex,
        fold_forms-NonEmptyForms y fy ey,
        fold_forms-NonEmptyForms z fz ez,
      )
      (qa, qb, qc)
