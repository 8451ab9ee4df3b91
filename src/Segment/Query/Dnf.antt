-- ===== src/Segment/Query/Dnf.antt =====
-- `group_bitmap` and `dnf_bitmap` in crates/greplm-core/src/segment.rs, over a segment that
-- answers for its trigrams.
use greplm.Common.{
  ℕ, ◌≤◌, ◌<◌, ◌^◌, ◌≡◌, refl, ◌∙◌, Bool, true, false, not, ◌||◌, Option, none, some, List, [], ◌∷◌,
  arith, length, is_empty, all,
}
use greplm.Common.Result.{Result, ok}
use greplm.Roaring.{Roaring, RoaringLaws}
use greplm.Fst.{Fst}
use greplm.Trigram.{Trigram}
use greplm.Trigram.Extract.{AllTrigrams}
use greplm.Trigram.Query.{TrigramGroup, TrigramDnf, dnf_holds, dnf_filters}
use greplm.Segment.{unpack_card, max_group_trigrams}
use greplm.Segment.Query.{
  SegmentData, posting_entry, group_entries, group_bitmap, unite, dnf_bitmap,
}
use greplm.Segment.Query.Group.{
  Covers, EntryAnswers, IsAnswering, doc_in, doc_in_read, AllRead, rarest,
}

-- Every group has at most as many trigrams as are intersected.
abbrev pub IsShort : TrigramDnf → Type 0
IsShort [] = Unit {0}
IsShort (g ∷ gs) = (length g ≤ max_group_trigrams) × IsShort gs

abbrev pub IsPlanned : TrigramDnf → Type 0
IsPlanned [] = Unit {0}
IsPlanned (g ∷ gs) = AllTrigrams g × IsPlanned gs

module _ {r : Roaring} (laws : RoaringLaws r) {f : Fst} (seg : SegmentData r f)
    (has : ℕ → Trigram → Bool) where
  -- The entries of a group, or a trigram that no document has.
  abbrev Collected : TrigramGroup → Option (List ℕ) → Type 0
  Collected g none = (d : ℕ) → d < 2 ^ 32 → all (has d) g ≡ false
  Collected g (some vs) =
      AllRead laws seg vs
      × (length vs ≡ length g)
      × ((d : ℕ) → d < 2 ^ 32 → all (doc_in laws seg d) vs ≡ all (has d) g)

  Collected-cons :
      (t : Trigram) (ts : TrigramGroup) (e : Option ℕ) (es : Option (List ℕ))
      → EntryAnswers laws seg (λ d. has d t) e
      → Collected ts es
      → Collected
          (t ∷ ts)
          (elim e [ none ↦ none | some v ↦ elim es [ none ↦ none | some vs ↦ some (v ∷ vs) ] ])
  Collected-cons t ts none es a c = λ d h. ground (arith, a d h)
  Collected-cons t ts (some v) none a c = λ d h. ground (arith, c d h)
  Collected-cons t ts (some v) (some vs) a (read, same, members) = (
    (unfold AllRead in ((a.bitmap, a.read), read)),
    omega arith,
    λ d h. ground (arith, doc_in_read laws seg d v a.bitmap a.read, a.members d h, members d h),
  )

  module _ (answers : IsAnswering laws seg has) where
    collected : (g : TrigramGroup) → AllTrigrams g → Collected g (group_entries seg g)
    unfolding group_entries
    collected [] p = (unfold AllRead in tt, refl, λ d h. refl)
    collected (t ∷ ts) p =
        Collected-cons t ts (posting_entry seg t) (group_entries seg ts) (answers t p.0)
          (collected ts p.1)

    -- A bitmap that covers a test of the documents.
    abbrev pub Covered : Type 0 → Result r.Bitmap → (ℕ → Bool) → Type 0
    Covered Short m p =
        (bm : r.Bitmap) × (m ≡ ok bm)
        × ((d : ℕ) → d < 2 ^ 32 → Covers Short (r.contains bm d) (p d))

    group_bitmap_of :
        (g : TrigramGroup) (o : Option (List ℕ))
        → 0 < length g
        → Collected g o
        → group_entries seg g ≡ o
        → Covered (length g ≤ max_group_trigrams) (group_bitmap seg g) (λ d. all (has d) g)
    unfolding group_bitmap
    group_bitmap_of g none nonempty c e = (
      r.empty,
      rw (e, group_bitmap) refl,
      λ d h. (λ p. ground (arith, c d h), λ short. laws.contains-empty d ∙ ground (arith, c d h)),
    )
    group_bitmap_of g (some vs) nonempty (read, same, members) e =
        let (bm, found, covers) = rarest laws seg 3 unpack_card vs (omega arith) read in
        (
          bm,
          rw (e, group_bitmap, found) refl,
          λ d h.
              let (cover, short) = covers d in
              (λ p. cover (members d h ∙ p), λ few. short (omega arith) ∙ members d h),
        )

    -- A group that is not empty: the bitmap has every document with all its trigrams.
    group_bitmap_lem :
        (g : TrigramGroup)
        → is_empty g ≡ false
        → AllTrigrams g
        → Covered (length g ≤ max_group_trigrams) (group_bitmap seg g) (λ d. all (has d) g)
    group_bitmap_lem [] nonempty p = cc
    group_bitmap_lem (t ∷ ts) nonempty p =
        group_bitmap_of (t ∷ ts) (group_entries seg (t ∷ ts)) (omega arith) (collected (t ∷ ts) p)
          refl

    -- The union of the groups' bitmaps.
    unite_lem :
        (acc : r.Bitmap) (gs : TrigramDnf)
        → all (λ g. not (is_empty g)) gs ≡ true
        → IsPlanned gs
        → (bm : r.Bitmap) × (unite seg acc gs ≡ ok bm)
          × ((d : ℕ)
              → d < 2 ^ 32
              → Covers (IsShort gs) (r.contains bm d) (r.contains acc d || dnf_holds (has d) gs))
    unfolding unite
    unite_lem acc [] filters p = (acc, refl, λ d h. (λ q. ground arith, λ s. ground arith))
    unite_lem acc (g ∷ gs) filters (pg, pgs) =
        let (one, e, covers) = group_bitmap_lem g (ground (arith, filters)) pg in
        let (bm, e', covers') = unite_lem (r.union acc one) gs (ground (arith, filters)) pgs in
        (
          bm,
          rw (e, unite) e',
          λ d h. (
            λ q. ground (arith, (covers d h).0, (covers' d h).0, laws.contains-union acc one d, q),
            λ s.
                ground
                  (arith, (covers d h).1 s.0, (covers' d h).1 s.1, laws.contains-union acc one d),
          ),
        )

    -- A DNF that filters: the bitmap has every document that satisfies it.
    pub dnf_bitmap_lem :
        (dnf : TrigramDnf)
        → dnf_filters dnf ≡ true
        → IsPlanned dnf
        → Covered (IsShort dnf) (dnf_bitmap seg dnf) (λ d. dnf_holds (has d) dnf)
    unfolding dnf_bitmap dnf_filters
    dnf_bitmap_lem dnf filters p =
        let (bm, e, covers) = unite_lem r.empty dnf (ground (arith, filters)) p in
        (
          bm,
          e,
          λ d h. (
            λ q. (covers d h).0 (ground (arith, laws.contains-empty d, q)),
            λ s. (covers d h).1 s ∙ ground (arith, laws.contains-empty d),
          ),
        )
