-- ===== src/Segment/Postings/Groups.antt =====
-- The groups of an ascending list of pairs, the runs of `build_postings_blob` in
-- crates/greplm-core/src/segment.rs.
use greplm.Common.{
  ℕ, ◌+◌, ◌*◌, ◌^◌, ◌<◌, ◌≡◌, refl, sym, subst, ◌∙◌, true, ◌&&◌, ◌||◌, inl, inr, List, [], ◌∷◌,
  ◌++◌, map, arith, ◌==◌, if◌then◌else◌, Bool-cases,
}
use greplm.Common.Member.{
  elem, elem-append, AllAbove, IsAscending, AllAbove-of_elem, AllAbove-mem, AllAbove-trans,
}
use greplm.Segment.Postings.{key32, doc32}
use greplm.Segment.Postings.Runs.{Group, add_pair, group}
use greplm.Segment.Postings.Cuts.{AllWords, group_head, group_cons}

-- the documents of all groups with a key
unfoldable pub all_docs : ℕ → List Group → List ℕ
all_docs k [] = []
all_docs k ((j, ds) ∷ gs) = let rest = all_docs k gs in if k == j then ds ++ rest else rest

elem-add_pair :
    (k d p : ℕ) (gs : List Group)
    → elem d (all_docs k (add_pair p gs)) ≡ (k == key32 p && d == doc32 p || elem d (all_docs k gs))
unfolding all_docs add_pair elem
elem-add_pair k d p [] = ground arith
elem-add_pair k d p ((j, ds) ∷ gs) = ground (arith, elem-append d ds (all_docs k gs))

pair_fields :
    (k d p : ℕ)
    → d < 2 ^ 32
    → k < 2 ^ 32
    → p < 2 ^ 64
    → (k == key32 p && d == doc32 p) ≡ (k * 2 ^ 32 + d == p)
pair_fields k d p hd hk hp = ground arith

-- A document stands under a key exactly when the pair of the two stands in the list.
pub elem-group :
    (k d : ℕ) (ps : List ℕ)
    → d < 2 ^ 32
    → k < 2 ^ 32
    → AllWords ps
    → elem d (all_docs k (group ps)) ≡ elem (k * 2 ^ 32 + d) ps
unfolding group elem
elem-group k d [] hd hk w = unfold all_docs in refl
elem-group k d (p ∷ ps) hd hk w =
    elem-add_pair k d p (group ps)
    ∙ ground (arith, pair_fields k d p hd hk w.0, elem-group k d ps hd hk w.1)

-- Keys that ascend strictly, each with documents that ascend strictly.
abbrev pub IsGrouped : List Group → Type 0
IsGrouped [] = Unit {0}
IsGrouped ((k, ds) ∷ gs) =
    IsAscending ds × AllAbove k (map (λ g. g.0) gs) × (k < 2 ^ 32) × IsGrouped gs

-- a later pair with the same key has a larger document
head_docs :
    (p k : ℕ) (ds : List ℕ) (gs : List Group) (ps : List ℕ)
    → group ps ≡ (k, ds) ∷ gs
    → key32 p ≡ k
    → AllWords (p ∷ ps)
    → AllAbove p ps
    → ((d : ℕ) → elem d ds ≡ true → d < 2 ^ 32)
    → AllAbove (doc32 p) ds
head_docs p k ds gs ps e same w above small = AllAbove-of_elem (doc32 p) ds λ d h.
    let key : k < 2 ^ 32 = omega arith in
    let stands : elem d (all_docs k (group ps)) ≡ true =
      rw e (unfold all_docs in ground (arith, elem-append d ds (all_docs k gs))) in
    let pair : elem (k * 2 ^ 32 + d) ps ≡ true =
      sym (elem-group k d ps (small d h) key w.1) ∙ stands in
    let below : p < k * 2 ^ 32 + d = AllAbove-mem p (k * 2 ^ 32 + d) ps above pair in
    omega (arith, small d h, w.0)

-- Every document is a 32-bit number.
abbrev pub IsSmall : List Group → Type 0
IsSmall [] = Unit {0}
IsSmall ((k, ds) ∷ gs) = ((d : ℕ) → elem d ds ≡ true → d < 2 ^ 32) × IsSmall gs

IsSmall-add_pair : (p : ℕ) (gs : List Group) → IsSmall gs → IsSmall (add_pair p gs)
unfolding add_pair elem
IsSmall-add_pair p [] s = (λ d h. ground arith, tt)
IsSmall-add_pair p ((k, ds) ∷ gs) s = elim (Bool-cases (key32 p == k)) [
  | inl same ↦ rw same (λ d h. ground (arith, s.0 d), s.1)
  | inr change ↦ rw change (λ d h. ground arith, s)
]

pub group-IsSmall : (ps : List ℕ) → IsSmall (group ps)
unfolding group
group-IsSmall [] = tt
group-IsSmall (p ∷ ps) = IsSmall-add_pair p (group ps) (group-IsSmall ps)

IsGrouped-add_pair :
    (p q : ℕ) (qs ds : List ℕ) (gs : List Group)
    → group (q ∷ qs) ≡ (key32 q, ds) ∷ gs
    → AllWords (p ∷ q ∷ qs)
    → AllAbove p (q ∷ qs)
    → IsSmall ((key32 q, ds) ∷ gs)
    → IsGrouped ((key32 q, ds) ∷ gs)
    → IsGrouped (add_pair p ((key32 q, ds) ∷ gs))
unfolding add_pair
IsGrouped-add_pair p q qs ds gs e w above s (asc, keys, small, more) =
    elim (Bool-cases (key32 p == key32 q)) [
      | inl same ↦
          let below = head_docs p (key32 q) ds gs (q ∷ qs) e (ground arith) w above s.0 in
          rw same ((below, asc), keys, small, more)
      | inr change ↦
          let lt : key32 p < key32 q = ground arith in
          let lower = AllAbove-trans (key32 p) (key32 q) (map (λ g. g.0) gs) (omega arith) keys in
          let bound : key32 p < 2 ^ 32 = omega arith in
          rw change ((tt, tt), (lt, lower), bound, (asc, keys, small, more))
    ]

-- Sorting before grouping gives each key once, with its documents in ascending order.
pub group-IsGrouped : (ps : List ℕ) → IsAscending ps → AllWords ps → IsGrouped (group ps)
group-IsGrouped [] a w = unfold group in tt
group-IsGrouped (p ∷ []) a w =
    let bound : key32 p < 2 ^ 32 = omega arith in unfold group add_pair in ((tt, tt), tt, bound, tt)
group-IsGrouped (p ∷ q ∷ qs) a w =
    let (ds, gs, e) = group_head q qs in
    let s = subst IsSmall e (group-IsSmall (q ∷ qs)) in
    let g = subst IsGrouped e (group-IsGrouped (q ∷ qs) a.1 w.1) in
    rw (group_cons p (q ∷ qs), e) (IsGrouped-add_pair p q qs ds gs e w a.0 s g)
