-- ===== src/Search/Targets/Filters.antt =====
-- The filters of `Searcher::search` of crates/greplm-core/src/search.rs on the language and the path
-- of a document.
use greplm.Common.{
  ℕ, ◌≡◌, refl, ap, true, inl, inr, Option, none, some, List, [], ◌∷◌, ◌++◌, arith, ==_refl,
  Bool-cases, get_elem?,
}
use greplm.Common.Member.{elem}
use greplm.Search.{SearchQuery}
use greplm.Search.Targets.{lang_passes, path_passes, filters_pass}
use greplm.Search.Verify.{starts_with, contains_str}
use greplm.Segment.{Text, DocMeta}
use greplm.Table.Builder.Kinds.{bytes_eq-eq-true}
use greplm.Table.Core.Header.{bytes_eq_refl}

-- the language that is asked for
abbrev LangIs : Option Text → Text → Type 0
LangIs none lang = Unit {0}
LangIs (some lf) lang = lang ≡ lf

-- a path in which the text that is asked for stands
abbrev PathHas : Option Text → Text → Type 0
PathHas none path = Unit {0}
PathHas (some pf) path = (pre : Text) × (post : Text) × (path ≡ pre ++ (pf ++ post))

-- A document that exists and is in the language and under the path that the query asks for.
abbrev pub Passes : SearchQuery → Option DocMeta → Type 0
Passes query none = ⊥
Passes query (some doc) = LangIs query.lang doc.lang × PathHas query.path doc.path

abbrev pub AllPass : SearchQuery → List DocMeta → List ℕ → Type 0
AllPass query metas [] = Unit {0}
AllPass query metas (d ∷ ds) = Passes query (get_elem? metas d) × AllPass query metas ds

starts_with_append : (needle post : Text) → starts_with needle (needle ++ post) ≡ true
unfolding starts_with
starts_with_append [] post = refl
starts_with_append (x ∷ needle) post = ground (arith, ==_refl x, starts_with_append needle post)

starts_with-eq-true :
    (needle hay : Text) → starts_with needle hay ≡ true → (post : Text) × (hay ≡ needle ++ post)
unfolding starts_with
starts_with-eq-true [] hay e = (hay, refl)
starts_with-eq-true (x ∷ needle) [] e = absurd (cc e)
starts_with-eq-true (x ∷ needle) (y ∷ hay) e =
    let same : x ≡ y = ground arith in
    let (post, rest) = starts_with-eq-true needle hay (ground arith) in (post, rw (same, rest) refl)

contains_str_append :
    (pre needle post : Text) → contains_str needle (pre ++ (needle ++ post)) ≡ true
unfolding contains_str
contains_str_append [] [] [] = refl
contains_str_append [] [] (y ∷ post) = rw (starts_with_append [] (y ∷ post)) refl
contains_str_append [] (x ∷ needle) post = rw (starts_with_append (x ∷ needle) post) refl
contains_str_append (y ∷ pre) needle post = ground (arith, contains_str_append pre needle post)

contains_str-eq-true :
    (needle hay : Text)
    → contains_str needle hay ≡ true
    → (pre : Text) × (post : Text) × (hay ≡ pre ++ (needle ++ post))
unfolding contains_str
contains_str-eq-true [] [] e = ([], [], refl)
contains_str-eq-true (x ∷ needle) [] e = absurd (cc e)
contains_str-eq-true needle (y ∷ hay) e = elim (Bool-cases (starts_with needle (y ∷ hay))) [
  | inl here ↦ let (post, rest) = starts_with-eq-true needle (y ∷ hay) here in ([], post, rest)
  | inr later ↦
      let (pre, post, rest) = contains_str-eq-true needle hay (ground arith) in
      (y ∷ pre, post, ap (◌∷◌ y) rest)
]

lang_passes_lem :
    (lf : Option Text) (doc : DocMeta) → LangIs lf doc.lang → lang_passes lf doc ≡ true
unfolding lang_passes
lang_passes_lem none doc h = refl
lang_passes_lem (some lf) doc h = rw h (bytes_eq_refl lf)

lang_passes-eq-true :
    (lf : Option Text) (doc : DocMeta) → lang_passes lf doc ≡ true → LangIs lf doc.lang
unfolding lang_passes
lang_passes-eq-true none doc e = tt
lang_passes-eq-true (some lf) doc e = bytes_eq-eq-true doc.lang lf e

path_passes_lem :
    (pf : Option Text) (doc : DocMeta) → PathHas pf doc.path → path_passes pf doc ≡ true
unfolding path_passes
path_passes_lem none doc h = refl
path_passes_lem (some pf) doc (pre, post, e) = rw e (contains_str_append pre pf post)

path_passes-eq-true :
    (pf : Option Text) (doc : DocMeta) → path_passes pf doc ≡ true → PathHas pf doc.path
unfolding path_passes
path_passes-eq-true none doc e = tt
path_passes-eq-true (some pf) doc e = contains_str-eq-true pf doc.path e

pub filters_pass_lem :
    (query : SearchQuery) (doc : Option DocMeta) → Passes query doc → filters_pass query doc ≡ true
unfolding filters_pass
filters_pass_lem query none h = absurd h
filters_pass_lem query (some doc) h =
    rw (lang_passes_lem query.lang doc h.0, path_passes_lem query.path doc h.1) refl

pub filters_pass-eq-true :
    (query : SearchQuery) (doc : Option DocMeta) → filters_pass query doc ≡ true → Passes query doc
unfolding filters_pass
filters_pass-eq-true query none e = absurd (cc e)
filters_pass-eq-true query (some doc) e = (
  lang_passes-eq-true query.lang doc (ground arith),
  path_passes-eq-true query.path doc (ground arith),
)

pub AllPass-of :
    (query : SearchQuery) (metas : List DocMeta) (ds : List ℕ)
    → ((d : ℕ) → elem d ds ≡ true → Passes query (get_elem? metas d))
    → AllPass query metas ds
unfolding elem
AllPass-of query metas [] h = tt
AllPass-of query metas (d ∷ ds) h = (
  h d (rw (==_refl d) refl),
  AllPass-of query metas ds (λ e inside. h e (ground (arith, inside))),
)
