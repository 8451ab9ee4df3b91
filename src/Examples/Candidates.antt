-- ===== src/Examples/Candidates.antt =====
-- The theorems on the candidates of a query at a concrete segment.
use greplm.Common.{not, ℕ, ◌*◌, ◌+◌, ◌^◌, ◌≡◌, refl, Bool, true, ◌&&◌, some, List, [], ◌∷◌, arith}
use greplm.Common.Member.{elem}
use greplm.Common.Result.{ok}
use greplm.Fst.{Fst, FstLaws, KeysAscend, find}
use greplm.Trigram.{Trigram, key_of}
use greplm.Trigram.Query.{TrigramQuery, satisfied}
use greplm.Segment.Postings.Exact.{build_postings_blob-exact}
use greplm.Segment.Query.{Segment, candidates}
use greplm.Segment.Query.Group.{IsAnswering}
use greplm.Segment.Query.Candidates.{candidates-total, candidates-admits, candidates-exact}
use greplm.Segment.Query.Built.{dictionary_of, opened, opened-IsAnswering}
use greplm.Segment.Disk.{is_live, subtract_live}
use greplm.Segment.Disk.Live.{is_live-subtract_live}
use greplm.Examples.Bitmaps.{member_lists, member_lists-RoaringLaws}
use greplm.Examples.Postings.{
  two_docs, two_docs-AllPairs, two_docs-IsDistinct, two_docs-built, two_postings, abc, bca,
}

-- Term dictionaries as lists of entries.
abbrev pub entry_lists : Fst
entry_lists = record { Map = List (List ℕ × ℕ); build = some; get = λ es k. find k es }

pub entry_lists-FstLaws : FstLaws entry_lists
entry_lists-FstLaws = record {
  built = λ es asc. es;
  build_lem = λ es asc. refl;
  get_lem = λ es asc k. refl;
}

two_entries : KeysAscend (dictionary_of two_postings.1)
two_entries = (ground arith, tt)

-- The segment of the two documents, with both alive.
abbrev two_docs_segment : Segment member_lists entry_lists
two_docs_segment = record {
  id = 1;
  contents = opened entry_lists-FstLaws two_postings.0 (7 ∷ []) two_postings.1 two_entries [];
  live = 0 ∷ 1 ∷ [];
}

abbrev has_pair : ℕ → Trigram → Bool
has_pair d t = elem (key_of t * 2 ^ 32 + d) two_docs

two_docs-answers : IsAnswering member_lists-RoaringLaws two_docs_segment.contents has_pair
two_docs-answers =
    opened-IsAnswering member_lists-RoaringLaws entry_lists-FstLaws two_postings.0 (7 ∷ [])
      two_postings.1 two_entries [] two_docs
      (build_postings_blob-exact member_lists member_lists-RoaringLaws two_docs two_docs-AllPairs
        two_docs-IsDistinct 3 two_docs-built)

abbrev both_trigrams : TrigramQuery
both_trigrams = record { dnfs = ((abc ∷ bca ∷ []) ∷ []) ∷ [] }

both_found : candidates two_docs_segment both_trigrams ≡ ok (1 ∷ [])
unfolding candidates find entry_lists-FstLaws elem
both_found = refl

candidates-total_example : (bm : List ℕ) × (candidates two_docs_segment both_trigrams ≡ ok bm)
candidates-total_example =
    candidates-total member_lists-RoaringLaws two_docs_segment has_pair two_docs-answers
      both_trigrams (omega arith)

both_hold : satisfied (has_pair 1) both_trigrams ≡ true
unfolding satisfied elem key_of
both_hold = refl

candidates-admits_example : elem 1 (1 ∷ []) ≡ true
candidates-admits_example =
    candidates-admits member_lists-RoaringLaws two_docs_segment has_pair two_docs-answers
      both_trigrams 1 (omega arith) both_found (omega arith) (unfold elem in refl) both_hold

candidates-exact_example :
    elem 0 (1 ∷ []) ≡ (elem 0 (0 ∷ 1 ∷ []) && satisfied (has_pair 0) both_trigrams)
candidates-exact_example =
    candidates-exact member_lists-RoaringLaws two_docs_segment has_pair two_docs-answers
      both_trigrams 0 (omega arith) (omega arith) both_found (omega arith)

is_live-subtract_live_example :
    is_live (subtract_live two_docs_segment (0 ∷ 5 ∷ [])) 0
    ≡ (is_live two_docs_segment 0 && not (elem 0 (0 ∷ 5 ∷ [])))
is_live-subtract_live_example =
    is_live-subtract_live member_lists-RoaringLaws two_docs_segment (0 ∷ 5 ∷ []) 0
