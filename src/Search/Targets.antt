-- ===== src/Search/Targets.antt =====
-- The first half of `Searcher::search` of crates/greplm-core/src/search.rs: the query of trigrams, and
-- the documents that are verified.
pub mod Filters
pub mod Literal
use greplm.Common.{
  ℕ, ◌+◌, ◌≡◌, refl, sym, ap, subst, ◌∙◌, Bool, true, false, ◌&&◌, inl, inr, Option, none, some,
  List, [], ◌∷◌, ◌++◌, map, arith, ◌==◌, ==_refl, if◌then◌else◌, Bool-cases, get_elem?, filter,
  is_empty, length, ◌<◌,
}
use greplm.Common.Member.{elem}
use greplm.Common.Result.{Result, ok, ok->>=, ok_injective, >>=-eq-ok, ◌>>=◌}
use mathlib.Core.List.{append_assoc}
use greplm.Fst.{Fst, bytes_eq}
use greplm.Roaring.{Roaring, RoaringLaws}
use greplm.Segment.{Text, DocMeta}
use greplm.Segment.Disk.{is_live}
use greplm.Segment.Query.{Segment, candidates}
use greplm.Search.{SearchQuery, BytesRegex, build_matcher}
use greplm.Search.Verify.{contains_str}
use greplm.Trigram.Query.{TrigramQuery, from_literal, from_literal_ci}
use greplm.Trigram.Query.Regex.{RegexSyntax, regex_trigrams}

-- `pattern_of` is how regex_syntax takes a text.
module _ (x : RegexSyntax) (pattern_of : Text → x.Pattern) where
  unfoldable pub plan : SearchQuery → TrigramQuery
  unfolding from_literal from_literal_ci regex_trigrams
  plan query =
      if query.regex
      then regex_trigrams x (pattern_of query.pattern) query.case_insensitive
      else if query.case_insensitive
      then from_literal_ci query.pattern
      else from_literal query.pattern

unfoldable pub lang_passes : Option Text → DocMeta → Bool
lang_passes none doc = true
lang_passes (some lf) doc = bytes_eq doc.lang lf

unfoldable pub path_passes : Option Text → DocMeta → Bool
unfolding contains_str
path_passes none doc = true
path_passes (some pf) doc = contains_str pf doc.path

unfoldable pub filters_pass : SearchQuery → Option DocMeta → Bool
unfolding lang_passes path_passes
filters_pass query none = false
filters_pass query (some doc) = lang_passes query.lang doc && path_passes query.path doc

module _ {r : Roaring} {f : Fst} where
  -- `SegmentData::doc`
  unfoldable pub doc_of : Segment r f → ℕ → Option DocMeta
  doc_of seg doc_id = get_elem? seg.contents.docs doc_id

  -- the tests on a candidate, one after the other
  unfoldable pub is_target : SearchQuery → Segment r f → ℕ → Bool
  unfolding is_live doc_of filters_pass
  is_target query seg doc_id = is_live seg doc_id && filters_pass query (doc_of seg doc_id)

  -- the loop over a segment's candidates
  unfoldable pub segment_targets :
      SearchQuery → TrigramQuery → ℕ → Segment r f → Result (List (ℕ × ℕ))
  unfolding candidates is_target
  segment_targets query tq si seg = do
    found ← candidates seg tq
    ok (map (λ d. (si, d)) (filter (is_target query seg) (r.iter found)))

  -- the loop over the segments, from number `si` on
  unfoldable pub targets_from :
      SearchQuery → TrigramQuery → ℕ → List (Segment r f) → Result (List (ℕ × ℕ))
  unfolding segment_targets
  targets_from query tq si [] = ok []
  targets_from query tq si (seg ∷ segs) = do
    here ← segment_targets query tq si seg
    rest ← targets_from query tq (si + 1) segs
    ok (here ++ rest)

-- `Searcher::search` up to the documents that are verified: nothing for an empty pattern, and the
-- matcher is built before the segments are asked
module _ (x : RegexSyntax) (pattern_of : Text → x.Pattern) (re : BytesRegex) {r : Roaring}
    {f : Fst} where
  unfoldable pub search_targets : SearchQuery → List (Segment r f) → Result (List (ℕ × ℕ))
  unfolding build_matcher plan targets_from
  search_targets query segments = if is_empty query.pattern then ok [] else (do
    matcher ← build_matcher re query
    targets_from query (plan x pattern_of query) 0 segments)

elem-filter : (d : ℕ) (p : ℕ → Bool) (xs : List ℕ) → elem d (filter p xs) ≡ (elem d xs && p d)
unfolding elem
elem-filter d p [] = refl
elem-filter d p (y ∷ ys) = elim (Bool-cases (d == y)) [
  | inl e ↦
      let same : d ≡ y = ground arith in
      rw (sym same) (ground (arith, elem-filter d p ys, ==_refl d))
  | inr e ↦ ground (arith, elem-filter d p ys)
]

-- A segment's targets are its candidates that are live and pass the filters.
pub segment_targets-elem :
    {r : Roaring} {f : Fst} (laws : RoaringLaws r) (query : SearchQuery) (tq : TrigramQuery)
    (si : ℕ) (seg : Segment r f) (found : r.Bitmap)
    → candidates seg tq ≡ ok found
    → (docs : List ℕ) × (segment_targets query tq si seg ≡ ok (map (λ d. (si, d)) docs))
      × ((d : ℕ) → elem d docs ≡ (r.contains found d && is_target query seg d))
unfolding segment_targets
segment_targets-elem {r} laws query tq si seg found e = (
  filter (is_target query seg) (r.iter found),
  ok->>= _ e refl,
  λ d.
      elem-filter d (is_target query seg) (r.iter found)
      ∙ ap (λ b. b && is_target query seg d) (laws.contains-iter found d),
)

-- The targets of some segments after those of others.
pub targets_from-append :
    {r : Roaring} {f : Fst} (query : SearchQuery) (tq : TrigramQuery) (si : ℕ)
    (before after : List (Segment r f)) {xs ys : List (ℕ × ℕ)}
    → targets_from query tq si before ≡ ok xs
    → targets_from query tq (si + length before) after ≡ ok ys
    → targets_from query tq si (before ++ after) ≡ ok (xs ++ ys)
unfolding targets_from
targets_from-append query tq si [] after {xs} {ys} e h =
    let none_left : [] ≡ xs = ok_injective e in
    subst (λ zs. targets_from query tq si after ≡ ok (zs ++ ys)) none_left
      (ap (λ (n : ℕ). targets_from query tq n after) (omega arith) ∙ h)
targets_from-append query tq si (a ∷ before) after {xs} {ys} e h =
    let (here, first, e') = >>=-eq-ok (segment_targets query tq si a) _ e in
    let (rest, others, e'') = >>=-eq-ok (targets_from query tq (si + 1) before) _ e' in
    let more =
      targets_from-append query tq (si + 1) before after others
        (ap (λ (n : ℕ). targets_from query tq n after) (omega arith) ∙ h) in
    ok->>= _ first (
      ok->>= _ more
        (ap ok (sym (append_assoc here rest ys) ∙ ap (λ zs. zs ++ ys) (ok_injective e''))))

-- The targets of one segment among others.
pub targets_from_middle :
    {r : Roaring} {f : Fst} (query : SearchQuery) (tq : TrigramQuery)
    (before after : List (Segment r f)) (seg : Segment r f) {xs here ys : List (ℕ × ℕ)}
    → targets_from query tq 0 before ≡ ok xs
    → segment_targets query tq (length before) seg ≡ ok here
    → targets_from query tq (length before + 1) after ≡ ok ys
    → targets_from query tq 0 (before ++ seg ∷ after) ≡ ok (xs ++ (here ++ ys))
unfolding targets_from
targets_from_middle query tq before after seg earlier e later =
    targets_from-append query tq 0 before (seg ∷ after) earlier (
      ap (λ (n : ℕ). targets_from query tq n (seg ∷ after)) (omega arith)
      ∙ ok->>= _ e (ok->>= _ later refl))
