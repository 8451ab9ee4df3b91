-- ===== src/Segment/Postings/Exact.antt =====
-- `build_postings_blob` in crates/greplm-core/src/segment.rs as an inverted index of its pairs.
use mathlib.Core.List.{append-nil}
use greplm.Common.{
  ℕ, ◌+◌, ◌*◌, ◌^◌, min, ◌≤◌, ◌<◌, ◌≡◌, refl, sym, ap, subst, ◌∙◌, Bool, false, inl, inr, Option,
  none, some, List, [], ◌∷◌, map, arith, ◌==◌, Bool-cases, length, drop,
}
use greplm.Common.Member.{AllBelow, AllBelow-mono, elem, AllAbove, IsAscending}
use greplm.Common.Result.{ok}
use greplm.Common.Sort.{sort, AllBelow-sort, sort-IsAscending, elem-sort, IsDistinct}
use greplm.Roaring.{Roaring, RoaringLaws}
use greplm.Trigram.{Trigram, IsTrigram, key_of}
use greplm.Trigram.Key.{key_of-lt}
use greplm.Segment.{unpack_offset, unpack_card, card_cap}
use greplm.Segment.Postings.{key32, build_postings_blob}
use greplm.Segment.Postings.Runs.{Group, add_pair, group, encode, lay_blob}
use greplm.Segment.Postings.Cuts.{AllWords}
use greplm.Segment.Postings.Groups.{all_docs, elem-group, IsGrouped, group-IsGrouped}
use greplm.Segment.Postings.Blob.{laid, laid-eq-ok, laid-total, build_postings_blob_lem}
use greplm.Segment.Postings.Lookup.{lookup, posting, KeysFit, Agrees, push_agrees, push_keys}

-- Pairs of a trigram and a document: the key takes 24 bits.
abbrev pub AllPairs : List ℕ → Type 0
AllPairs = AllBelow (2 ^ 56)

all_docs_absent : (k : ℕ) (gs : List Group) → AllAbove k (map (λ g. g.0) gs) → all_docs k gs ≡ []
unfolding all_docs
all_docs_absent k [] h = refl
all_docs_absent k ((j, ds) ∷ gs) h = ground (arith, all_docs_absent k gs)

abbrev GroupsFit : List Group → Type 0
GroupsFit [] = Unit {0}
GroupsFit ((k, ds) ∷ gs) = (k < 2 ^ 24) × GroupsFit gs

GroupsFit-add_pair :
    (p : ℕ) (gs : List Group) → p < 2 ^ 56 → GroupsFit gs → GroupsFit (add_pair p gs)
unfolding add_pair
GroupsFit-add_pair p [] h f = (omega arith, tt)
GroupsFit-add_pair p ((k, ds) ∷ gs) h f = elim (Bool-cases (key32 p == k)) [
  | inl same ↦ rw same f
  | inr change ↦ let small : key32 p < 2 ^ 24 = omega arith in rw change (small, f)
]

group-GroupsFit : (ps : List ℕ) → AllPairs ps → GroupsFit (group ps)
unfolding group
group-GroupsFit [] h = tt
group-GroupsFit (p ∷ ps) h = GroupsFit-add_pair p (group ps) h.0 (group-GroupsFit ps h.1)

IsGrouped-keys : (gs : List Group) → IsGrouped gs → IsAscending (map (λ g. g.0) gs)
IsGrouped-keys [] g = tt
IsGrouped-keys ((k, ds) ∷ gs) (asc, keys, small, more) = (keys, IsGrouped-keys gs more)

module _ (r : Roaring) (laws : RoaringLaws r) where
  abbrev bitmap_of : List ℕ → r.Bitmap
  bitmap_of ds = r.optimize (laws.from_sorted ds)

  abbrev bitmaps_of : List Group → List (ℕ × r.Bitmap)
  bitmaps_of [] = []
  bitmaps_of ((k, ds) ∷ gs) = (k, bitmap_of ds) ∷ bitmaps_of gs

  -- Every group is accepted as a sorted sequence.
  encode_grouped : (gs : List Group) → IsGrouped gs → encode r gs ≡ ok (bitmaps_of gs)
  unfolding encode
  encode_grouped [] g = refl
  encode_grouped ((k, ds) ∷ gs) (asc, keys, small, more) =
      rw (laws.from_sorted_iter_lem ds asc, encode_grouped gs more)

  abbrev has_doc : Option r.Bitmap → ℕ → Bool
  has_doc none d = false
  has_doc (some bm) d = r.contains bm d

  posting_exact :
      (k d : ℕ) (gs : List Group)
      → IsGrouped gs
      → has_doc (posting r k (bitmaps_of gs)) d ≡ elem d (all_docs k gs)
  unfolding posting all_docs
  posting_exact k d [] g = unfold elem in refl
  posting_exact k d ((j, ds) ∷ gs) (asc, keys, small, more) = elim (Bool-cases (k == j)) [
    | inr differ ↦ rw (differ, posting_exact k d gs more)
    | inl same ↦
        let e : j ≡ k = ground arith in
        let none_later : all_docs k gs ≡ [] =
          all_docs_absent k gs (subst (λ i. AllAbove i (map (λ g. g.0) gs)) e keys) in
        rw (same, none_later, append-nil ds)
          (laws.contains-optimize (laws.from_sorted ds) d ∙ laws.contains-from_sorted ds d asc)
  ]

  KeysFit-bitmaps_of : (gs : List Group) → GroupsFit gs → KeysFit r (bitmaps_of gs)
  KeysFit-bitmaps_of [] f = tt
  KeysFit-bitmaps_of ((k, ds) ∷ gs) f = (f.0, KeysFit-bitmaps_of gs f.1)

  keys-bitmaps_of : (gs : List Group) → map (λ b. b.0) (bitmaps_of gs) ≡ map (λ g. g.0) gs
  keys-bitmaps_of [] = refl
  keys-bitmaps_of ((k, ds) ∷ gs) = ap (◌∷◌ k) (keys-bitmaps_of gs)

  -- What a lookup of a trigram must lead to, for given pairs.
  abbrev pub Answers : List ℕ → List ℕ → Trigram → Option ℕ → Type 0
  Answers blob pairs t none = (d : ℕ) → d < 2 ^ 32 → elem (key_of t * 2 ^ 32 + d) pairs ≡ false
  Answers blob pairs t (some v) =
      (bm : r.Bitmap) × (r.deserialize_from (drop (unpack_offset v) blob) ≡ some bm)
      × (unpack_offset v ≤ length blob)
      × (unpack_card v ≡ min (r.len bm) card_cap)
      × ((d : ℕ) → d < 2 ^ 32 → r.contains bm d ≡ elem (key_of t * 2 ^ 32 + d) pairs)

  module _ (pairs : List ℕ) (fit : AllPairs pairs) (distinct : IsDistinct pairs) where
    words : AllWords pairs
    words = AllBelow-mono (2 ^ 56) (2 ^ 64) pairs (omega arith) fit

    -- the posting lists that the pairs stand for
    abbrev pub postings_of : List (ℕ × r.Bitmap)
    postings_of = bitmaps_of (group (sort pairs))

    grouped : IsGrouped (group (sort pairs))
    grouped =
        group-IsGrouped (sort pairs) (sort-IsAscending pairs distinct)
          (AllBelow-sort (2 ^ 64) pairs words)

    build_lem : (parts : ℕ) → build_postings_blob r parts pairs ≡ laid r [] [] postings_of
    build_lem parts =
        build_postings_blob_lem r parts pairs words
        ∙ rw (encode_grouped (group (sort pairs)) grouped) refl

    member :
        (t : Trigram) (d : ℕ)
        → IsTrigram t
        → d < 2 ^ 32
        → has_doc (posting r (key_of t) postings_of) d ≡ elem (key_of t * 2 ^ 32 + d) pairs
    member t d p h =
        posting_exact (key_of t) d (group (sort pairs)) grouped
        ∙ elem-group (key_of t) d (sort pairs) h (omega (arith, key_of-lt t p))
            (AllBelow-sort (2 ^ 64) pairs words)
        ∙ elem-sort (key_of t * 2 ^ 32 + d) pairs

    Answers-of :
        (t : Trigram) (o : Option ℕ)
        → IsTrigram t
        → Agrees r [] postings_of t o
        → Answers (lay_blob r postings_of) pairs t o
    Answers-of t none p a = λ d h. sym (member t d p h) ∙ rw a refl
    Answers-of t (some v) p a = (
      a.bitmap,
      rw a.stored (laws.deserialize-serialize a.bitmap a.rest),
      a.inside,
      a.card,
      λ d h. rw a.found at (member t d p h),
    )

    -- If the pairs are distinct and below 2^56 and the build succeeds, a lookup of any
    -- trigram in the entries leads to a bitmap of the documents below 2^32 that the pairs
    -- give it, each of them and no other, and a trigram without an entry has no such
    -- document.
    pub build_postings_blob-exact :
        (parts : ℕ) {blob : List ℕ} {es : List (Trigram × ℕ)}
        → build_postings_blob r parts pairs ≡ ok (blob, es)
        → (t : Trigram) → IsTrigram t
        → Answers blob pairs t (lookup t es)
    build_postings_blob-exact parts {blob} {es} built t p =
        let (pushed, same) = laid-eq-ok r [] [] postings_of (sym (build_lem parts) ∙ built) in
        let (added, joined, agrees) =
          push_agrees r [] 0 postings_of [] es refl
            (KeysFit-bitmaps_of (group (sort pairs))
              (group-GroupsFit (sort pairs) (AllBelow-sort (2 ^ 56) pairs fit)))
            pushed in
        rw (← same, joined) (Answers-of t (lookup t added) p (agrees t p))

    -- If the pairs are distinct and below 2^56 and their posting lists take less than 2^40
    -- bytes together, the build succeeds, and its blob is the posting lists one after
    -- another.
    pub build_postings_blob-total :
        (parts : ℕ)
        → length (lay_blob r postings_of) < 2 ^ 40
        → (es : List (Trigram × ℕ)) × (build_postings_blob r parts pairs
            ≡ ok (lay_blob r postings_of, es))
    build_postings_blob-total parts room =
        let (es, done) = laid-total r [] [] postings_of (omega arith) in
        (es, build_lem parts ∙ done)

    -- If the pairs are distinct and below 2^56 and the build succeeds, the keys of the
    -- entries ascend strictly.
    pub build_postings_blob-IsAscending :
        (parts : ℕ) {blob : List ℕ} {es : List (Trigram × ℕ)}
        → build_postings_blob r parts pairs ≡ ok (blob, es)
        → IsAscending (map (λ e. key_of e.0) es)
    build_postings_blob-IsAscending parts {blob} {es} built =
        let (pushed, same) = laid-eq-ok r [] [] postings_of (sym (build_lem parts) ∙ built) in
        let keys =
          push_keys r 0 postings_of [] es
            (KeysFit-bitmaps_of (group (sort pairs))
              (group-GroupsFit (sort pairs) (AllBelow-sort (2 ^ 56) pairs fit)))
            pushed in
        rw (keys, keys-bitmaps_of (group (sort pairs)))
          (IsGrouped-keys (group (sort pairs)) grouped)
