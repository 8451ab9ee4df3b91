-- ===== src/Segment/Query/Conjoin.antt =====
-- The loop of `candidates` over the DNFs that filter (crates/greplm-core/src/segment.rs).
use greplm.Common.{
  ℕ, ◌<◌, ◌^◌, ◌≡◌, refl, Bool, true, false, not, ◌&&◌, ◌||◌, inl, inr, Option, none, some, List,
  [], ◌∷◌, arith, Bool-cases, all, filter,
}
use greplm.Common.Result.{ok}
use greplm.Roaring.{Roaring, RoaringLaws}
use greplm.Fst.{Fst}
use greplm.Trigram.{Trigram}
use greplm.Trigram.Query.{TrigramDnf, dnf_filters, dnf_holds}
use greplm.Segment.Query.{SegmentData, narrow, dnf_bitmap, conjoin}
use greplm.Segment.Query.Group.{Covers, IsAnswering}
use greplm.Segment.Query.Dnf.{IsShort, IsPlanned, dnf_bitmap_lem}

-- Every trigram of the query is one of three bytes.
abbrev pub AllPlanned : List TrigramDnf → Type 0
AllPlanned [] = Unit {0}
AllPlanned (d ∷ ds) = IsPlanned d × AllPlanned ds

-- No group of the query has more trigrams than are intersected.
abbrev pub AllShort : List TrigramDnf → Type 0
AllShort [] = Unit {0}
AllShort (d ∷ ds) = IsShort d × AllShort ds

pub AllPlanned-filter :
    (p : TrigramDnf → Bool) (ds : List TrigramDnf) → AllPlanned ds → AllPlanned (filter p ds)
AllPlanned-filter p [] h = tt
AllPlanned-filter p (d ∷ ds) (h, hs) = elim (Bool-cases (p d)) [
  | inl e ↦ rw (e, filter) (h, AllPlanned-filter p ds hs)
  | inr e ↦ rw (e, filter) (AllPlanned-filter p ds hs)
]

pub AllShort-filter :
    (p : TrigramDnf → Bool) (ds : List TrigramDnf) → AllShort ds → AllShort (filter p ds)
AllShort-filter p [] h = tt
AllShort-filter p (d ∷ ds) (h, hs) = elim (Bool-cases (p d)) [
  | inl e ↦ rw (e, filter) (h, AllShort-filter p ds hs)
  | inr e ↦ rw (e, filter) (AllShort-filter p ds hs)
]

pub all-filter_self : {A : Type 0} (p : A → Bool) (xs : List A) → all p (filter p xs) ≡ true
all-filter_self p [] = refl
all-filter_self p (x ∷ xs) = ground (arith, all-filter_self p xs)

pub all-filter :
    {A : Type 0} (p q : A → Bool) (xs : List A)
    → all (λ x. not (p x) || q x) xs ≡ all q (filter p xs)
all-filter p q [] = refl
all-filter p q (x ∷ xs) = ground (arith, all-filter p q xs)

module _ {r : Roaring} (laws : RoaringLaws r) {f : Fst} (contents : SegmentData r f)
    (has : ℕ → Trigram → Bool) (answers : IsAnswering laws contents has) where
  abbrev in_found : Option r.Bitmap → ℕ → Bool
  in_found none d = true
  in_found (some bm) d = r.contains bm d

  contains-narrow :
      (acc : Option r.Bitmap) (bm : r.Bitmap) (d : ℕ)
      → r.contains (narrow contents acc bm) d ≡ (in_found acc d && r.contains bm d)
  contains-narrow none bm d = refl
  contains-narrow (some a) bm d = laws.contains-inter a bm d

  -- One turn of the loop.
  narrowed :
      (acc : Option r.Bitmap) (one : r.Bitmap) (x : TrigramDnf) (d : ℕ)
      → Covers (IsShort x) (r.contains one d) (dnf_holds (has d) x)
      → Covers
          (IsShort x)
          (r.contains (narrow contents acc one) d)
          (in_found acc d && dnf_holds (has d) x)
  narrowed acc one x d (cover, short) = (
    λ q. ground (arith, contains-narrow acc one d, cover),
    λ s. ground (arith, contains-narrow acc one d, short s),
  )

  -- The bitmap that the loop over the DNFs ends with.
  abbrev Conjoined : Option r.Bitmap → List TrigramDnf → Type 0
  Conjoined acc ds =
      (bm : r.Bitmap) × (conjoin contents acc ds ≡ ok (some bm))
      × ((d : ℕ)
          → d < 2 ^ 32
          → Covers (AllShort ds) (r.contains bm d) (in_found acc d && all (dnf_holds (has d)) ds))

  -- Nothing is left: the documents that the loop leaves out are none.
  Conjoined-early :
      (acc : Option r.Bitmap) (one : r.Bitmap) (x : TrigramDnf) (ds : List TrigramDnf)
      → dnf_bitmap contents x ≡ ok one
      → ((d : ℕ) → d < 2 ^ 32 → Covers (IsShort x) (r.contains one d) (dnf_holds (has d) x))
      → r.is_empty (narrow contents acc one) ≡ true
      → Conjoined acc (x ∷ ds)
  unfolding conjoin
  Conjoined-early acc one x ds e covers nothing = (
    narrow contents acc one,
    rw (e, nothing) refl,
    λ d h.
        let (cover, short) = narrowed acc one x d (covers d h) in
        let gone = laws.contains_of_is_empty (narrow contents acc one) d nothing in
        (λ q. ground (arith, cover), λ s. ground (arith, gone, short s.0)),
  )

  Conjoined-on :
      (acc : Option r.Bitmap) (one : r.Bitmap) (x : TrigramDnf) (ds : List TrigramDnf)
      → dnf_bitmap contents x ≡ ok one
      → ((d : ℕ) → d < 2 ^ 32 → Covers (IsShort x) (r.contains one d) (dnf_holds (has d) x))
      → r.is_empty (narrow contents acc one) ≡ false
      → Conjoined (some (narrow contents acc one)) ds
      → Conjoined acc (x ∷ ds)
  unfolding conjoin
  Conjoined-on acc one x ds e covers more (bm, e', covers') = (
    bm,
    rw (e, more) e',
    λ d h.
        let (cover, short) = narrowed acc one x d (covers d h) in
        let (cover', short') = covers' d h in
        (λ q. ground (arith, cover, cover'), λ s. ground (arith, short s.0, short' s.1)),
  )

  Conjoined-step :
      (acc : Option r.Bitmap) (x : TrigramDnf) (ds : List TrigramDnf)
      → all dnf_filters (x ∷ ds) ≡ true
      → IsPlanned x
      → ((a : r.Bitmap) → Conjoined (some a) ds)
      → Conjoined acc (x ∷ ds)
  Conjoined-step acc x ds filters p rest =
      let (one, e, covers) =
        dnf_bitmap_lem laws contents has answers x (ground (arith, filters)) p in
      elim (Bool-cases (r.is_empty (narrow contents acc one))) [
        | inl nothing ↦ Conjoined-early acc one x ds e covers nothing
        | inr more ↦ Conjoined-on acc one x ds e covers more (rest (narrow contents acc one))
      ]

  conjoin_lem :
      (a : r.Bitmap) (ds : List TrigramDnf)
      → all dnf_filters ds ≡ true
      → AllPlanned ds
      → Conjoined (some a) ds
  unfolding conjoin
  conjoin_lem a [] filters p = (a, refl, λ d h. (λ q. ground arith, λ s. ground arith))
  conjoin_lem a (x ∷ ds) filters (p, ps) =
      Conjoined-step (some a) x ds filters p (λ b. conjoin_lem b ds (ground (arith, filters)) ps)

  pub conjoin_all :
      (x : TrigramDnf) (ds : List TrigramDnf)
      → all dnf_filters (x ∷ ds) ≡ true
      → AllPlanned (x ∷ ds)
      → Conjoined none (x ∷ ds)
  conjoin_all x ds filters (p, ps) =
      Conjoined-step none x ds filters p (λ a. conjoin_lem a ds (ground (arith, filters)) ps)
