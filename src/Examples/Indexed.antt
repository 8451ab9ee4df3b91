-- ===== src/Examples/Indexed.antt =====
-- The theorems on a written and reopened segment at concrete documents.
use greplm.Common.{
  ℕ, ◌+◌, ◌^◌, ◌<◌, ◌≤◌, ◌≡◌, refl, true, ◌&&◌, none, some, List, [], ◌∷◌, ◌++◌, arith, length, ltb,
}
use greplm.Common.Result.{ok, err}
use greplm.Trigram.{extract, contains}
use greplm.Trigram.Query.CaseFold.{IsFoldMatch, end, step, to_lower, itself}
use greplm.Trigram.Query.{from_literal_ci, from_literal, satisfied}
use greplm.Segment.{call}
use greplm.Segment.Disk.Opening.{FilesFit, IsOpened, open_segment-write}
use greplm.Segment.Writer.Rows.{RowsAdded, symbols_from, refs_from, add_all-new}
use greplm.Examples.Codecs.{
  toy_hash, toy_hash-lt, packed_file, packed_file-FstFileLaws, codecs, codecs-CodecsLaws,
}
use greplm.Table.{file_bytes}
use greplm.Table.Core.{TableCore}
use greplm.Common.Utf8.{is_utf8, to_ascii_lowercase}
use greplm.Segment.Files.{append_checksum, verify_checksum}
use greplm.Common.Sort.{IsDistinct}
use greplm.Segment.Pairs.{AllBytes, has_trigram, pairs_from}
use greplm.Segment.Postings.Exact.{AllPairs}
use greplm.Segment.Query.Conjoin.{AllPlanned, AllShort}
use greplm.Segment.Files.Checksum.{verify_checksum-append_checksum, verify_checksum-eq-ok}
use greplm.Segment.Complete.{
  indexed-total, indexed-admits, indexed-exact, indexed-from_literal, indexed-from_literal_ci,
}
use greplm.Segment.Writer.{SegmentWriter, new}
use greplm.Segment.Writer.Adding.{Source, contents_of, metas_of, add_all, add_all_lem}
use greplm.Fst.{find}
use greplm.Common.Member.{elem}
use greplm.Segment.Query.{candidates}
use greplm.Segment.Disk.{SegmentFiles, Opened, write, open_segment}
use greplm.Examples.Bitmaps.{member_lists, member_lists-RoaringLaws}
use greplm.Examples.Candidates.{entry_lists, entry_lists-FstLaws}

abbrev source_of : ℕ → List ℕ → Source
source_of p content = record {
  meta = record { path = p ∷ []; lang = []; size = length content; hash = 0; lines = 1 };
  content = content;
  symbols =
      record {
        name = p ∷ [];
        kind = [];
        line_start = 1;
        line_end = 1;
        container = none;
        signature = none;
      }
      ∷ [];
  refs = record { name = p ∷ []; kind = call; line = 1; column = 2 } ∷ [];
}

-- `xabcd` and `bcde`
abbrev pub sources : List Source
sources =
    source_of 1 (b'x' ∷ b'a' ∷ b'b' ∷ b'c' ∷ b'd' ∷ [])
    ∷ source_of 2 (b'b' ∷ b'c' ∷ b'd' ∷ b'e' ∷ [])
    ∷ []

abbrev pub needle : List ℕ
needle = b'b' ∷ b'c' ∷ b'd' ∷ []

pub sources-AllBytes : AllBytes (contents_of sources)
sources-AllBytes = omega arith

-- The writer after the two documents, its files, and what they are opened as.
unfoldable pub writer : SegmentWriter
unfolding add_all new
writer = elim (add_all codecs new sources) [ none ↦ new | some w ↦ w ]

pub sources_added : add_all codecs new sources ≡ some writer
unfolding add_all new writer
sources_added = refl

abbrev no_files : SegmentFiles
no_files = record {
  fst_file = [];
  post_file = [];
  docs_file = [];
  syms_file = [];
  refs_file = none;
  live_file = [];
}

unfoldable pub files : SegmentFiles
unfolding write writer
files = elim (write member_lists entry_lists packed_file codecs toy_hash 2 writer) [
  | ok found ↦ found
  | err e ↦ no_files
]

pub writer_written : write member_lists entry_lists packed_file codecs toy_hash 2 writer ≡ ok files
unfolding write writer files extract
writer_written = refl

abbrev no_core : TableCore
no_core = record { mmap = []; row_count = 0; doc_count = 0; sections = [] }

abbrev not_opened : Opened member_lists entry_lists
not_opened = record {
  segment = record {
    id = 0;
    contents = record { fst = []; post = []; post_len = 0; docs = [] };
    live = [];
  };
  syms = record { core = no_core; names_fst = []; kinds = [] };
  refs = none;
}

unfoldable pub opened_files : Opened member_lists entry_lists
unfolding open_segment files write writer extract
opened_files = elim (open_segment member_lists entry_lists packed_file codecs toy_hash 1 files) [
  | ok found ↦ found
  | err e ↦ not_opened
]

pub files_opened :
    open_segment member_lists entry_lists packed_file codecs toy_hash 1 files ≡ ok opened_files
unfolding open_segment files write writer extract opened_files is_utf8 to_ascii_lowercase
files_opened = refl

pub files_fit : FilesFit files
unfolding files write writer extract file_bytes is_utf8 to_ascii_lowercase
files_fit = record { syms_fit = omega arith; refs_fit = omega arith }

pub few_symbols : length (symbols_from 0 sources) < 2 ^ 32
unfolding symbols_from
few_symbols = omega arith

pub few_refs : length (refs_from 0 sources) < 2 ^ 32
unfolding refs_from
few_refs = omega arith

writer_rows : RowsAdded codecs (symbols_from 0 sources) (refs_from 0 sources) writer
writer_rows = add_all-new codecs sources (omega arith) few_symbols few_refs sources_added

writer_room : length writer.docs < 2 ^ 32
unfolding writer
writer_room = omega arith

needle_found : candidates opened_files.segment (from_literal needle) ≡ ok (0 ∷ 1 ∷ [])
unfolding candidates from_literal opened_files open_segment files write writer find elem extract
    is_utf8 to_ascii_lowercase
needle_found = refl

needle_query : AllPlanned (from_literal needle).dnfs
unfolding from_literal extract
needle_query = omega arith

needle_short : AllShort (from_literal needle).dnfs
unfolding from_literal extract
needle_short = omega arith

needle_held : satisfied (has_trigram (contents_of sources) 1) (from_literal needle) ≡ true
unfolding from_literal extract satisfied contains
needle_held = refl

writer-AllPairs : AllPairs writer.pairs
unfolding writer extract
writer-AllPairs = omega arith

writer-IsDistinct : IsDistinct writer.pairs
unfolding writer extract elem
writer-IsDistinct = (refl, (refl, (refl, (refl, (refl, tt)))))

new_room : length new.docs + length sources ≤ 2 ^ 32
unfolding new
new_room = omega arith

footer_verified :
    verify_checksum toy_hash (b'b' ∷ b'c' ∷ b'd' ∷ 3 ∷ 0 ∷ 0 ∷ 0 ∷ 0 ∷ 0 ∷ 0 ∷ 0 ∷ []) ≡ ok needle
unfolding verify_checksum
footer_verified = refl

open_segment-write_example :
    IsOpened member_lists-RoaringLaws entry_lists-FstLaws packed_file-FstFileLaws codecs-CodecsLaws
      toy_hash-lt 1 files writer.docs writer.pairs
open_segment-write_example =
    open_segment-write member_lists-RoaringLaws entry_lists-FstLaws packed_file-FstFileLaws
      codecs-CodecsLaws toy_hash-lt 1 2 writer writer_rows writer_room writer-AllPairs
      writer-IsDistinct writer_written files_fit

indexed-total_example :
    (o : Opened member_lists entry_lists) × (bm : List ℕ) × (open_segment member_lists entry_lists
        packed_file codecs toy_hash 1 files
      ≡ ok o)
    × (candidates o.segment (from_literal needle) ≡ ok bm)
indexed-total_example =
    indexed-total member_lists-RoaringLaws entry_lists-FstLaws packed_file-FstFileLaws
      codecs-CodecsLaws toy_hash-lt 1 2 sources (omega arith) few_symbols few_refs sources-AllBytes
      sources_added writer_written files_fit (from_literal needle) needle_query

indexed-admits_example : elem 1 (0 ∷ 1 ∷ []) ≡ true
indexed-admits_example =
    indexed-admits member_lists-RoaringLaws entry_lists-FstLaws packed_file-FstFileLaws
      codecs-CodecsLaws toy_hash-lt 1 2 sources (omega arith) few_symbols few_refs sources-AllBytes
      sources_added writer_written files_fit files_opened (from_literal needle) needle_query
      needle_found 1 (omega arith) needle_held

indexed-exact_example : elem 2 (0 ∷ 1 ∷ []) ≡ (
    ltb 2 (length sources) && satisfied (has_trigram (contents_of sources) 2) (from_literal needle))
indexed-exact_example =
    indexed-exact member_lists-RoaringLaws entry_lists-FstLaws packed_file-FstFileLaws
      codecs-CodecsLaws toy_hash-lt 1 2 sources (omega arith) few_symbols few_refs sources-AllBytes
      sources_added writer_written files_fit files_opened (from_literal needle) needle_query
      needle_found 2 needle_short (omega arith)

indexed-from_literal_example : elem 0 (0 ∷ 1 ∷ []) ≡ true
indexed-from_literal_example =
    indexed-from_literal member_lists-RoaringLaws entry_lists-FstLaws packed_file-FstFileLaws
      codecs-CodecsLaws toy_hash-lt 1 2 sources (omega arith) few_symbols few_refs sources-AllBytes
      sources_added writer_written files_fit 0 (b'x' ∷ b'a' ∷ []) needle [] files_opened
      needle_found refl

add_all_lem_example :
    (writer.docs ≡ [] ++ metas_of sources)
    × (writer.pairs ≡ [] ++ pairs_from 0 (contents_of sources))
unfolding new pairs_from
add_all_lem_example = add_all_lem codecs new sources new_room sources_added

verify_checksum-append_checksum_example :
    verify_checksum toy_hash (append_checksum toy_hash needle) ≡ ok needle
verify_checksum-append_checksum_example =
    verify_checksum-append_checksum toy_hash toy_hash-lt needle

verify_checksum-eq-ok_example :
    b'b' ∷ b'c' ∷ b'd' ∷ 3 ∷ 0 ∷ 0 ∷ 0 ∷ 0 ∷ 0 ∷ 0 ∷ 0 ∷ [] ≡ append_checksum toy_hash needle
verify_checksum-eq-ok_example =
    verify_checksum-eq-ok toy_hash toy_hash-lt
      (b'b' ∷ b'c' ∷ b'd' ∷ 3 ∷ 0 ∷ 0 ∷ 0 ∷ 0 ∷ 0 ∷ 0 ∷ 0 ∷ []) (omega arith) footer_verified

-- `BcD`
abbrev mixed_case : List ℕ
mixed_case = b'B' ∷ b'c' ∷ b'D' ∷ []

mixed_case-IsFoldMatch : IsFoldMatch mixed_case needle
mixed_case-IsFoldMatch =
    step (to_lower (omega arith) (omega arith))
      (step (itself (omega arith)) (step (to_lower (omega arith) (omega arith)) end))

mixed_found : candidates opened_files.segment (from_literal_ci mixed_case) ≡ ok (0 ∷ 1 ∷ [])
unfolding candidates from_literal_ci opened_files open_segment files write writer find elem extract
    is_utf8 to_ascii_lowercase
mixed_found = refl

indexed-from_literal_ci_example : elem 0 (0 ∷ 1 ∷ []) ≡ true
indexed-from_literal_ci_example =
    indexed-from_literal_ci member_lists-RoaringLaws entry_lists-FstLaws packed_file-FstFileLaws
      codecs-CodecsLaws toy_hash-lt 1 2 sources (omega arith) few_symbols few_refs sources-AllBytes
      sources_added writer_written files_fit 0 (b'x' ∷ b'a' ∷ []) mixed_case needle []
      mixed_case-IsFoldMatch files_opened mixed_found refl
