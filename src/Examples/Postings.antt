-- ===== src/Examples/Postings.antt =====
-- The theorems on the postings of a segment at concrete inputs.
use greplm.Common.{ℕ, ◌*◌, ◌+◌, ◌^◌, min, ◌<◌, ◌≡◌, refl, List, [], ◌∷◌, map, arith, length}
use greplm.Common.Member.{elem, IsAscending}
use greplm.Common.Sort.{sort, IsDistinct}
use greplm.Common.Result.{ok, ◌>>=◌}
use greplm.Trigram.{Trigram, key_of}
use greplm.Segment.{pack_entry, unpack_offset, unpack_card, card_cap}
use greplm.Segment.Pack.{unpack-pack_entry}
use greplm.Segment.Postings.{pair_of, build_postings_blob}
use greplm.Segment.Postings.Runs.{group, encode, lay_blob}
use greplm.Segment.Postings.Blob.{laid, build_postings_blob_lem}
use greplm.Segment.Postings.Lookup.{lookup}
use greplm.Segment.Postings.Exact.{
  AllPairs, Answers, postings_of, build_postings_blob-exact, build_postings_blob-total,
  build_postings_blob-IsAscending,
}
use greplm.Examples.Bitmaps.{member_lists, member_lists-RoaringLaws}

unpack-pack_entry_example :
    (unpack_offset 3298534883333 ≡ 5)
    × (unpack_card 3298534883333 ≡ min 3 card_cap)
    × (3298534883333 < 2 ^ 64)
unpack-pack_entry_example = unpack-pack_entry 5 3 packed_value
  where
    packed_value : pack_entry 5 3 ≡ ok 3298534883333
    packed_value = unfold pack_entry in refl

-- the pairs of two documents, of which the first has one trigram and the second has two
abbrev pub two_docs : List ℕ
two_docs = (6382179 * 2 ^ 32) ∷ (6447969 * 2 ^ 32 + 1) ∷ (6382179 * 2 ^ 32 + 1) ∷ []

abbrev pub abc : Trigram
abc = (b'a', b'b', b'c')

abbrev pub bca : Trigram
bca = (b'b', b'c', b'a')

abbrev pub two_postings : List ℕ × List (Trigram × ℕ)
two_postings = (2 ∷ 0 ∷ 1 ∷ 1 ∷ 1 ∷ [], (abc, 2 * 2 ^ 40) ∷ (bca, 2 ^ 40 + 3) ∷ [])

pair_of_test : pair_of 1 abc ≡ 6382179 * 2 ^ 32 + 1
unfolding pair_of key_of
pair_of_test = refl

pub two_docs-built : build_postings_blob member_lists 3 two_docs ≡ ok two_postings
unfolding build_postings_blob
two_docs-built = refl

pub two_docs-AllPairs : AllPairs two_docs
two_docs-AllPairs = omega arith

pub two_docs-IsDistinct : IsDistinct two_docs
unfolding elem
two_docs-IsDistinct = (refl, (refl, (refl, tt)))

build_postings_blob_lem_example :
    build_postings_blob member_lists 3 two_docs
    ≡ (encode member_lists (group (sort two_docs)) >>= laid member_lists [] [])
build_postings_blob_lem_example = build_postings_blob_lem member_lists 3 two_docs (omega arith)

build_postings_blob-exact_example :
    Answers member_lists member_lists-RoaringLaws two_postings.0 two_docs abc
      (lookup abc two_postings.1)
build_postings_blob-exact_example =
    build_postings_blob-exact member_lists member_lists-RoaringLaws two_docs two_docs-AllPairs
      two_docs-IsDistinct 3 two_docs-built abc (omega arith)

build_postings_blob-IsAscending_example : IsAscending (map (λ e. key_of e.0) two_postings.1)
build_postings_blob-IsAscending_example =
    build_postings_blob-IsAscending member_lists member_lists-RoaringLaws two_docs two_docs-AllPairs
      two_docs-IsDistinct 3 two_docs-built

small_blob :
    length (
      lay_blob member_lists (
        postings_of member_lists member_lists-RoaringLaws two_docs two_docs-AllPairs
          two_docs-IsDistinct))
    < 2 ^ 40
unfolding lay_blob group sort member_lists-RoaringLaws
small_blob = omega arith

build_postings_blob-total_example :
    (es : List (Trigram × ℕ)) × (build_postings_blob member_lists 2 two_docs
      ≡ ok (
        lay_blob member_lists (
            postings_of member_lists member_lists-RoaringLaws two_docs two_docs-AllPairs
              two_docs-IsDistinct),
        es,
      ))
build_postings_blob-total_example =
    build_postings_blob-total member_lists member_lists-RoaringLaws two_docs two_docs-AllPairs
      two_docs-IsDistinct 2 small_blob
