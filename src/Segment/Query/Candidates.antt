-- ===== src/Segment/Query/Candidates.antt =====
-- The candidates of a query over an answering segment: `candidates` of `Segment` in
-- crates/greplm-core/src/segment.rs.
use greplm.Common.{
  ℕ, ◌<◌, ◌^◌, ◌≡◌, refl, sym, ap, ◌∙◌, Bool, true, ◌&&◌, Option, none, some, List, [], ◌∷◌, arith,
  if◌then◌else◌, is_empty, all, filter,
}
use greplm.Common.Options.{unwrap_or}
use greplm.Common.Result.{Result, ok, ◌>>=◌}
use greplm.Roaring.{Roaring, RoaringLaws}
use greplm.Fst.{Fst}
use greplm.Trigram.{Trigram}
use greplm.Trigram.Query.{TrigramDnf, TrigramQuery, dnf_filters, dnf_holds, satisfied}
use greplm.Segment.Query.{Segment, conjoin, candidates}
use greplm.Segment.Query.Group.{Covers, IsAnswering}
use greplm.Segment.Query.Conjoin.{
  AllPlanned, AllShort, AllPlanned-filter, AllShort-filter, all-filter_self, all-filter,
  conjoin_all,
}

candidates_of :
    {r : Roaring} {f : Fst} (seg : Segment r f) (q : TrigramQuery) (ds : List TrigramDnf)
    → filter dnf_filters q.dnfs ≡ ds
    → candidates seg q ≡ (
        if is_empty ds then ok seg.live else (do
          found ← conjoin seg.contents none ds
          ok (r.inter (unwrap_or found r.empty) seg.live)))
unfolding candidates
candidates_of {r} seg q ds e = rw e refl

candidates_step :
    {r : Roaring} {f : Fst} (seg : Segment r f) (found : Option r.Bitmap)
    (m : Result (Option r.Bitmap))
    → m ≡ ok found
    → (do found ← m; ok (r.inter (unwrap_or found r.empty) seg.live))
      ≡ ok (r.inter (unwrap_or found r.empty) seg.live)
candidates_step {r} seg found m e = rw e refl

module _ {r : Roaring} (laws : RoaringLaws r) {f : Fst} (seg : Segment r f)
    (has : ℕ → Trigram → Bool) (answers : IsAnswering laws seg.contents has) where
  -- What `candidates` must return for a query whose filtering DNFs are `ds`.
  abbrev pub Selected : Result r.Bitmap → List TrigramDnf → Type 0
  Selected m ds =
      (bm : r.Bitmap) × (m ≡ ok bm)
      × ((d : ℕ)
          → d < 2 ^ 32
          → Covers (AllShort ds) (r.contains bm d)
              (r.contains seg.live d && all (dnf_holds (has d)) ds))

  selected :
      (q : TrigramQuery) (ds : List TrigramDnf)
      → filter dnf_filters q.dnfs ≡ ds
      → all dnf_filters ds ≡ true
      → AllPlanned ds
      → Selected (candidates seg q) ds
  selected q [] e filters p =
      (seg.live, candidates_of seg q [] e, λ d h. (λ q. ground arith, λ s. ground arith))
  selected q (x ∷ ds) e filters p =
      let (bm, e', covers) = conjoin_all laws seg.contents has answers x ds filters p in
      (
        r.inter bm seg.live,
        candidates_of seg q (x ∷ ds) e
            ∙ candidates_step seg (some bm) (conjoin seg.contents none (x ∷ ds)) e',
        λ d h.
            let (cover, short) = covers d h in
            (
              λ q. ground (arith, cover, laws.contains-inter bm seg.live d),
              λ s. ground (arith, short s, laws.contains-inter bm seg.live d),
            ),
      )

  candidates-satisfied :
      (q : TrigramQuery)
      → AllPlanned q.dnfs
      → (bm : r.Bitmap) × (candidates seg q ≡ ok bm)
        × ((d : ℕ)
            → d < 2 ^ 32
            → ((r.contains seg.live d && satisfied (has d) q) ≡ true → r.contains bm d ≡ true)
              × (AllShort q.dnfs
                  → r.contains bm d ≡ (r.contains seg.live d && satisfied (has d) q)))
  unfolding satisfied
  candidates-satisfied q planned =
      let ds = filter dnf_filters q.dnfs in
      let (bm, e, covers) =
        selected q ds refl (all-filter_self dnf_filters q.dnfs)
          (AllPlanned-filter dnf_filters q.dnfs planned) in
      (
        bm,
        e,
        λ d h.
            let (cover, short) = covers d h in
            let same = all-filter dnf_filters (dnf_holds (has d)) q.dnfs in
            (
              λ p. cover (ap (λ b. r.contains seg.live d && b) (sym same) ∙ p),
              λ s.
                  short (AllShort-filter dnf_filters q.dnfs s)
                  ∙ ap (λ b. r.contains seg.live d && b) (sym same),
            ),
      )

  -- Over a segment that answers for its trigrams, `candidates` returns a bitmap for every
  -- query of three-byte trigrams.
  pub candidates-total :
      (q : TrigramQuery) → AllPlanned q.dnfs → (bm : r.Bitmap) × (candidates seg q ≡ ok bm)
  candidates-total q planned = let (bm, e, members) = candidates-satisfied q planned in (bm, e)

  -- Over a segment that answers for its trigrams, the candidates of a query of three-byte
  -- trigrams have every live document below 2^32 that satisfies the query.
  pub candidates-admits :
      (q : TrigramQuery) (d : ℕ) {bm : r.Bitmap}
      → AllPlanned q.dnfs
      → candidates seg q ≡ ok bm
      → d < 2 ^ 32
      → r.contains seg.live d ≡ true
      → satisfied (has d) q ≡ true
      → r.contains bm d ≡ true
  candidates-admits q d {bm} planned found small alive holds =
      let (bm', e, members) = candidates-satisfied q planned in
      let same : bm' ≡ bm = cc (e, found) in
      ap (λ b. r.contains b d) (sym same) ∙ (members d small).0 (ground (arith, alive, holds))

  -- Over a segment that answers for its trigrams, the candidates below 2^32 of a query of
  -- three-byte trigrams, with no more than four trigrams in a group, are exactly the live
  -- documents that satisfy the query.
  pub candidates-exact :
      (q : TrigramQuery) (d : ℕ) {bm : r.Bitmap}
      → AllPlanned q.dnfs
      → AllShort q.dnfs
      → candidates seg q ≡ ok bm
      → d < 2 ^ 32
      → r.contains bm d ≡ (r.contains seg.live d && satisfied (has d) q)
  candidates-exact q d {bm} planned short found small =
      let (bm', e, members) = candidates-satisfied q planned in
      let same : bm' ≡ bm = cc (e, found) in
      ap (λ b. r.contains b d) (sym same) ∙ (members d small).1 short
