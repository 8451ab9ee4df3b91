-- ===== src/Segment/Query/Planned.antt =====
-- The trigrams that the queries of trigram.rs give to `candidates` in
-- crates/greplm-core/src/segment.rs.
use greplm.Common.{ℕ, inl, inr, List, [], ◌∷◌, is_empty, ltb, length, any, Bool-cases, Option-cases}
use greplm.Trigram.{Trigram, extract, windows}
use greplm.Trigram.Extract.{AllTrigrams, extract-AllTrigrams}
use greplm.Trigram.Query.{
  literal_trigrams, from_literal, ci_window_trigrams, singletons, ci_dnfs, from_literal_ci,
  dnf_filters,
}
use greplm.Trigram.Query.Planned.{ci_window_trigrams-AllTrigrams}
use greplm.Segment.Query.Dnf.{IsPlanned}
use greplm.Segment.Query.Conjoin.{AllPlanned}

pub AllPlanned-from_literal : (needle : List ℕ) → AllPlanned (from_literal needle).dnfs
unfolding from_literal literal_trigrams
AllPlanned-from_literal needle = elim (Bool-cases (is_empty (extract needle))) [
  | inl short ↦ rw short tt
  | inr long ↦ rw long ((extract-AllTrigrams needle, tt), tt)
]

IsPlanned-singletons : (clause : List Trigram) → AllTrigrams clause → IsPlanned (singletons clause)
IsPlanned-singletons [] h = tt
IsPlanned-singletons (t ∷ ts) h = ((h.0, tt), IsPlanned-singletons ts h.1)

AllPlanned-ci_dnfs : (ws : List Trigram) → AllPlanned (ci_dnfs ws)
unfolding ci_dnfs
AllPlanned-ci_dnfs [] = tt
AllPlanned-ci_dnfs (w ∷ ws) = elim (Option-cases (ci_window_trigrams w)) [
  | inl nothing ↦ rw nothing (AllPlanned-ci_dnfs ws)
  | inr (clause, e) ↦ rw e (
    IsPlanned-singletons clause (ci_window_trigrams-AllTrigrams w clause e),
    AllPlanned-ci_dnfs ws,
  )
]

pub AllPlanned-from_literal_ci : (needle : List ℕ) → AllPlanned (from_literal_ci needle).dnfs
unfolding from_literal_ci
AllPlanned-from_literal_ci needle = elim (Bool-cases (ltb (length needle) 3)) [
  | inl short ↦ rw short tt
  | inr long ↦ elim (Bool-cases (any dnf_filters (ci_dnfs (windows needle)))) [
    | inl some_filter ↦ rw (long, some_filter) (AllPlanned-ci_dnfs (windows needle))
    | inr no_filter ↦ rw (long, no_filter) tt
  ]
]
