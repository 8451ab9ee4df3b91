-- ===== src/Segment/Query/Group.antt =====
-- `group_bitmap` in crates/greplm-core/src/segment.rs: the intersection of the rarest posting
-- lists of a group.
use greplm.Common.{
  ℕ, zero, suc, ◌≤◌, ◌<◌, ◌^◌, ◌≡◌, refl, ◌∙◌, Bool, true, false, ◌&&◌, inl, inr, Option, none,
  some, List, [], ◌∷◌, arith, leb, Bool-cases, length, take, all,
}
use greplm.Common.Result.{ok, err}
use greplm.Common.Sort.{sort_by_key, insert_by, length-sort_by_key}
use greplm.Roaring.{Roaring, RoaringLaws}
use greplm.Fst.{Fst}
use greplm.Trigram.{Trigram, IsTrigram}
use greplm.Segment.{unpack_offset}
use greplm.Segment.Query.{SegmentData, posting_entry, posting_at, narrow, intersect}

-- `b` covers `p`, and equals it where nothing was left out.
abbrev pub Covers : Type 0 → Bool → Bool → Type 0
Covers Short b p = (p ≡ true → b ≡ true) × (Short → b ≡ p)

module _ {ℓ} {A : Type ℓ} (p : A → Bool) (key : A → ℕ) where
  all-insert_by : (x : A) (ys : List A) → all p (insert_by key x ys) ≡ (p x && all p ys)
  unfolding insert_by
  all-insert_by x [] = refl
  all-insert_by x (y ∷ ys) = ground (arith, all-insert_by x ys)

  all-sort_by_key : (xs : List A) → all p (sort_by_key key xs) ≡ all p xs
  unfolding sort_by_key
  all-sort_by_key [] = refl
  all-sort_by_key (x ∷ xs) =
      all-insert_by x (sort_by_key key xs) ∙ ground (arith, all-sort_by_key xs)

all-take {ℓ} :
    {A : Type ℓ} (p : A → Bool) (n : ℕ) (xs : List A)
    → Covers (length xs ≤ n) (all p (take n xs)) (all p xs)
all-take p zero [] = (λ h. refl, λ h. refl)
all-take p zero (x ∷ xs) = (λ h. refl, λ h. absurd (omega arith))
all-take p (suc n) [] = (λ h. refl, λ h. refl)
all-take p (suc n) (x ∷ xs) =
    let (cover, short) = all-take p n xs in (λ h. ground (arith, cover), λ h. ground (arith, short))

module _ {r : Roaring} (laws : RoaringLaws r) {f : Fst} (seg : SegmentData r f) where
  -- What an entry must lead to: a readable posting list with these documents.
  pub record Reads (v : ℕ) (p : ℕ → Bool) : Type 0 where
    pub bitmap : r.Bitmap
    pub read : posting_at seg (unpack_offset v) ≡ ok bitmap
    pub members : (d : ℕ) → d < 2 ^ 32 → r.contains bitmap d ≡ p d

  -- A segment answers for an assignment of trigrams to documents.
  abbrev pub EntryAnswers : (ℕ → Bool) → Option ℕ → Type 0
  EntryAnswers p none = (d : ℕ) → d < 2 ^ 32 → p d ≡ false
  EntryAnswers p (some v) = Reads v p

  abbrev pub IsAnswering : (ℕ → Trigram → Bool) → Type 0
  IsAnswering has = (t : Trigram) → IsTrigram t → EntryAnswers (λ d. has d t) (posting_entry seg t)

  -- Is the document in the posting list of the entry?
  pub doc_in : ℕ → ℕ → Bool
  doc_in d v = elim (posting_at seg (unpack_offset v)) [ ok bm ↦ r.contains bm d | err e ↦ false ]

  unfoldable pub AllRead : List ℕ → Type 0
  AllRead [] = Unit {0}
  AllRead (v ∷ vs) = ((bm : r.Bitmap) × (posting_at seg (unpack_offset v) ≡ ok bm)) × AllRead vs

  abbrev in_acc : Option r.Bitmap → ℕ → Bool
  in_acc none d = true
  in_acc (some bm) d = r.contains bm d

  contains-narrow :
      (acc : Option r.Bitmap) (bm : r.Bitmap) (d : ℕ)
      → r.contains (narrow seg acc bm) d ≡ (in_acc acc d && r.contains bm d)
  contains-narrow none bm d = refl
  contains-narrow (some a) bm d = laws.contains-inter a bm d

  pub doc_in_read :
      (d v : ℕ) (bm : r.Bitmap)
      → posting_at seg (unpack_offset v) ≡ ok bm
      → doc_in d v ≡ r.contains bm d
  unfolding doc_in
  doc_in_read d v bm read = rw (read, doc_in) refl

  -- The loop returns a bitmap of the documents in every posting list.
  intersect_lem :
      (acc : Option r.Bitmap) (v : ℕ) (vs : List ℕ)
      → AllRead (v ∷ vs)
      → (bm : r.Bitmap) × (intersect seg acc (v ∷ vs) ≡ ok (some bm))
        × ((d : ℕ) → r.contains bm d ≡ (in_acc acc d && all (doc_in d) (v ∷ vs)))
  unfolding intersect AllRead
  intersect_lem acc v [] ((bm, read), rest) = (
    narrow seg acc bm,
    rw read (ground arith),
    λ d. contains-narrow acc bm d ∙ ground (arith, doc_in_read d v bm read),
  )
  intersect_lem acc v (w ∷ vs) ((bm, read), rest) =
      let next = narrow seg acc bm in
      elim (Bool-cases (r.is_empty next)) [
        | inl nothing ↦ (
          next,
          rw (read, nothing) refl,
          λ d. ground (
            arith,
            laws.contains_of_is_empty next d nothing,
            contains-narrow acc bm d,
            doc_in_read d v bm read,
          ),
        )
        | inr more ↦
            let (found, e, members) = intersect_lem (some next) w vs rest in
            (
              found,
              rw (read, more) e,
              λ d. members d ∙ ground (arith, contains-narrow acc bm d, doc_in_read d v bm read),
            )
      ]

  AllRead-insert_by :
      (key : ℕ → ℕ) (v : ℕ) (vs : List ℕ) → AllRead (v ∷ vs) → AllRead (insert_by key v vs)
  unfolding AllRead insert_by
  AllRead-insert_by key v [] h = h
  AllRead-insert_by key v (w ∷ vs) (hv, (hw, rest)) = elim (Bool-cases (leb (key v) (key w))) [
    | inl e ↦ rw e (hv, (hw, rest))
    | inr e ↦ rw e (hw, AllRead-insert_by key v vs (hv, rest))
  ]

  AllRead-sort_by_key : (key : ℕ → ℕ) (vs : List ℕ) → AllRead vs → AllRead (sort_by_key key vs)
  unfolding AllRead sort_by_key
  AllRead-sort_by_key key [] h = tt
  AllRead-sort_by_key key (v ∷ vs) (hv, rest) =
      AllRead-insert_by key v (sort_by_key key vs) (hv, AllRead-sort_by_key key vs rest)

  AllRead-take : (n : ℕ) (vs : List ℕ) → AllRead vs → AllRead (take n vs)
  unfolding AllRead
  AllRead-take zero vs h = tt
  AllRead-take (suc n) [] h = tt
  AllRead-take (suc n) (v ∷ vs) (hv, rest) = (hv, AllRead-take n vs rest)

  -- The rarest entries, intersected: with at least one entry there is a bitmap.
  pub rarest :
      (n : ℕ) (key : ℕ → ℕ) (vs : List ℕ)
      → 0 < length vs
      → AllRead vs
      → (bm : r.Bitmap) × (intersect seg none (take (suc n) (sort_by_key key vs)) ≡ ok (some bm))
        × ((d : ℕ) → Covers (length vs ≤ suc n) (r.contains bm d) (all (doc_in d) vs))
  rarest n key vs some_entry read =
      go (sort_by_key key vs) (AllRead-sort_by_key key vs read) (length-sort_by_key key vs)
        (λ d. all-sort_by_key (doc_in d) key vs)
    where
      go :
          (ws : List ℕ)
          → AllRead ws
          → length ws ≡ length vs
          → ((d : ℕ) → all (doc_in d) ws ≡ all (doc_in d) vs)
          → (bm : r.Bitmap) × (intersect seg none (take (suc n) ws) ≡ ok (some bm))
            × ((d : ℕ) → Covers (length vs ≤ suc n) (r.contains bm d) (all (doc_in d) vs))
      go [] h same members = absurd (omega arith)
      go (w ∷ ws) h same members =
          let (bm, e, found) = intersect_lem none w (take n ws) (AllRead-take (suc n) (w ∷ ws) h) in
          (
            bm,
            e,
            λ d.
                let (cover, short) = all-take (doc_in d) (suc n) (w ∷ ws) in
                (
                  λ p. found d ∙ cover (members d ∙ p),
                  λ p. found d ∙ short (omega arith) ∙ members d,
                ),
          )
