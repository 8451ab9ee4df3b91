-- ===== src/Segment/Disk/Opening.antt =====
-- `write` and `open` in crates/greplm-core/src/segment.rs, one after the other.
use greplm.Common.{
  ℕ, ◌+◌, ◌*◌, ◌%◌, ◌^◌, ◌<◌, ◌≡◌, refl, subst, sym, ap, some, List, [], ==_refl, length,
}
use greplm.Common.Member.{elem}
use greplm.Common.Result.{ok, >>=-eq-ok, fst, ok_or, ok->>=}
use greplm.Common.Sort.{IsDistinct}
use greplm.Roaring.{Roaring, RoaringLaws}
use greplm.Fst.{Fst, FstFile, FstLaws, FstFileLaws, KeysAscend}
use greplm.Trigram.{Trigram, key_of}
use greplm.Segment.{DocMeta}
use greplm.Segment.Codecs.{Codecs, CodecsLaws}
use greplm.Segment.Writer.Rows.{RowsAdded}
use greplm.Table.{EncodedTable, file_bytes}
use greplm.Table.Builder.{finish_syms, finish_refs}
use greplm.Table.Builder.Refs.{DocRef}
use greplm.Table.Builder.Syms.{DocSym}
use greplm.Table.Reader.{SymTable, RefTable, open_syms}
use greplm.Table.Reader.Refs.{open_refs-file_bytes}
use greplm.Table.Reader.Syms.{open_syms-file_bytes}
use greplm.Common.Options.{unwrap_or}
use greplm.Segment.Postings.{build_postings_blob}
use greplm.Segment.Postings.Exact.{
  AllPairs, build_postings_blob-exact, build_postings_blob-IsAscending,
}
use greplm.Segment.Postings.Entries.{AllEntries-build_postings_blob}
use greplm.Segment.Query.Group.{IsAnswering}
use greplm.Segment.Query.Built.{dictionary_of, KeysAscend-dictionary_of, opened, opened-IsAnswering}
use greplm.Segment.Files.{
  to_le_bytes, append_checksum, verify_checksum, encode_table, read_table, write_bitmap,
  read_bitmap,
}
use greplm.Segment.Files.Checksum.{
  verify_checksum-append_checksum, read_bitmap-write_bitmap, read_table-encode_table,
}
use greplm.Segment.Writer.{SegmentWriter}
use greplm.Segment.Disk.{
  SegmentFiles, Opened, write_segment_files, write, open_fst, open_optional, open_segment,
}

-- Files whose side tables have a length of 64 bits.
pub record FilesFit (files : SegmentFiles) : Type 0 where
  pub syms_fit : length files.syms_file < 2 ^ 64
  pub refs_fit : length (unwrap_or files.refs_file []) < 2 ^ 64

module _ {r : Roaring} (laws : RoaringLaws r) {f : Fst} (terms : FstLaws f) {file : FstFile f}
    (stored : FstFileLaws f file) {c : Codecs} (decodes : CodecsLaws c) {xxh3_64 : List ℕ → ℕ}
    (word : (bytes : List ℕ) → xxh3_64 bytes < 2 ^ 64) where
  abbrev all_alive : ℕ → r.Bitmap
  all_alive n = r.insert_range r.empty 0 (n % 2 ^ 32)

  abbrev files_of :
      (es : List (Trigram × ℕ))
      → KeysAscend (dictionary_of es)
      → (blob docs_enc : List ℕ) (syms refs : EncodedTable) (n : ℕ) → SegmentFiles
  files_of es asc blob docs_enc syms refs n = record {
    fst_file = file.into_inner (terms.built (dictionary_of es) asc);
    post_file = append_checksum xxh3_64 blob;
    docs_file = docs_enc;
    syms_file = file_bytes xxh3_64 syms;
    refs_file = some (file_bytes xxh3_64 refs);
    live_file = write_bitmap xxh3_64 r (all_alive n);
  }

  write_segment_files-eq-ok :
      (docs : List DocMeta) (syms refs : EncodedTable) (es : List (Trigram × ℕ)) (blob : List ℕ)
      (asc : KeysAscend (dictionary_of es)) {files : SegmentFiles}
      → write_segment_files r f file c xxh3_64 docs syms refs es blob ≡ ok files
      → (docs_enc : List ℕ) × (encode_table c.docs xxh3_64 docs ≡ ok docs_enc)
        × (files_of es asc blob docs_enc syms refs (length docs) ≡ files)
  unfolding write_segment_files
  write_segment_files-eq-ok docs syms refs es blob asc {files} h =
      let (docs_enc, encoded, e) =
        >>=-eq-ok (encode_table c.docs xxh3_64 docs) _
          (rw (terms.build_lem (dictionary_of es) asc) at h) in
      (docs_enc, encoded, cc e)

  -- The dictionary of a segment is opened from its file.
  open_fst_built :
      (es : List (List ℕ × ℕ)) (asc : KeysAscend es)
      → open_fst r f file c xxh3_64 (file.into_inner (terms.built es asc)) ≡ ok (terms.built es asc)
  unfolding open_fst
  open_fst_built es asc =
      ok->>= _ (ap (λ o. ok_or o fst) (stored.new-into_inner (terms.built es asc)))
        (rw (stored.verify-build es (terms.built es asc) (terms.build_lem es asc)) refl)

  open_parts :
      (seg_id : ℕ) (files : SegmentFiles) (dictionary : f.Map) (payload : List ℕ)
      (docs : List DocMeta) (syms : SymTable f) (refs : RefTable f) (live : r.Bitmap)
      → open_fst r f file c xxh3_64 files.fst_file ≡ ok dictionary
      → verify_checksum xxh3_64 files.post_file ≡ ok payload
      → read_table c.docs xxh3_64 files.docs_file ≡ ok docs
      → open_syms f file xxh3_64 c.kinds files.syms_file ≡ ok syms
      → open_optional r f file c xxh3_64 files.refs_file ≡ ok (some refs)
      → syms.core.doc_count ≡ length docs
      → refs.core.doc_count ≡ length docs
      → read_bitmap xxh3_64 r files.live_file ≡ ok live
      → open_segment r f file c xxh3_64 seg_id files
        ≡ ok record {
          segment = record {
            id = seg_id;
            contents = record {
              fst = dictionary;
              post = files.post_file;
              post_len = length payload;
              docs = docs;
            };
            live = live;
          };
          syms = syms;
          refs = some refs;
        }
  unfolding open_segment
  open_parts seg_id files dictionary payload docs syms refs live found verified read opened_syms
        opened_refs n m alive =
      ok->>= _ found (
        ok->>= _ verified (
          ok->>= _ read (
            ok->>= _ opened_syms
              (ok->>= _ opened_refs (rw (n, m, ==_refl (length docs)) (ok->>= _ alive refl))))))

  -- What opening must give: the documents, all alive, and an answering term dictionary.
  abbrev pub IsOpened : ℕ → SegmentFiles → List DocMeta → List ℕ → Type 0
  IsOpened seg_id files docs pairs =
      (o : Opened r f) × (open_segment r f file c xxh3_64 seg_id files ≡ ok o)
      × (o.segment.id ≡ seg_id)
      × (o.segment.contents.docs ≡ docs)
      × (o.segment.live ≡ all_alive (length docs))
      × IsAnswering laws o.segment.contents (λ d t. elem (key_of t * 2 ^ 32 + d) pairs)

  module _ (seg_id parts : ℕ) (w : SegmentWriter) {xs : List DocSym} {ys : List DocRef}
      (rows : RowsAdded c xs ys w) (room : length w.docs < 2 ^ 32) (fit : AllPairs w.pairs)
      (distinct : IsDistinct w.pairs) where
    files_of-IsOpened :
        (es : List (Trigram × ℕ)) (asc : KeysAscend (dictionary_of es)) (blob docs_enc : List ℕ)
        (syms refs : EncodedTable)
        → build_postings_blob r parts w.pairs ≡ ok (blob, es)
        → encode_table c.docs xxh3_64 w.docs ≡ ok docs_enc
        → finish_syms f file c.kinds w.syms (length w.docs) ≡ ok syms
        → finish_refs f file w.refs (length w.docs) ≡ ok refs
        → FilesFit (files_of es asc blob docs_enc syms refs (length w.docs))
        → IsOpened seg_id (files_of es asc blob docs_enc syms refs (length w.docs)) w.docs w.pairs
    unfolding open_optional append_checksum
    files_of-IsOpened es asc blob docs_enc syms refs built encoded s x sizes =
        let (syms_table, syms_open, syms_count) =
          open_syms-file_bytes f file stored xxh3_64 word c.syms c.kinds decodes.kinds_law xs w.syms
            (length w.docs) syms rows.syms_lt room sizes.syms_fit rows.syms_hold s in
        let (refs_table, refs_open, refs_count) =
          open_refs-file_bytes f file stored xxh3_64 word c.refs ys w.refs (length w.docs) refs
            rows.refs_lt room sizes.refs_fit rows.refs_hold x in
        (
          record {
            segment = record {
              id = seg_id;
              contents = opened terms blob (to_le_bytes 8 (xxh3_64 blob)) es asc w.docs;
              live = all_alive (length w.docs);
            };
            syms = syms_table;
            refs = some refs_table;
          },
          open_parts seg_id (files_of es asc blob docs_enc syms refs (length w.docs))
              (terms.built (dictionary_of es) asc) blob w.docs syms_table refs_table
              (all_alive (length w.docs)) (open_fst_built (dictionary_of es) asc)
              (verify_checksum-append_checksum xxh3_64 word blob)
              (read_table-encode_table xxh3_64 word c.docs decodes.docs_law w.docs encoded)
              syms_open (ok->>= _ refs_open refl) syms_count refs_count
              (read_bitmap-write_bitmap xxh3_64 word laws (all_alive (length w.docs))),
          refl,
          refl,
          refl,
          opened-IsAnswering laws terms blob (to_le_bytes 8 (xxh3_64 blob)) es asc w.docs w.pairs
              (build_postings_blob-exact r laws w.pairs fit distinct parts built),
        )

    -- A writer has fewer than 2^32 documents, distinct pairs below 2^56, and side tables that
    -- took fewer than 2^32 symbols and fewer than 2^32 references one after the other. If it
    -- was written with any number of threads and the files of the side tables are shorter than
    -- 2^64 bytes, its files are opened: the segment has the given id and the documents of the
    -- writer, its live bitmap is the range from 0 to their number, and its term dictionary
    -- answers for each trigram with the documents that the pairs give it. The encoders of
    -- documents and kinds decode what they encoded, an fst map takes keys in ascending order
    -- and finds them, is read back from its bytes and verifies if it was built, and a hash has
    -- 64 bits.
    pub open_segment-write :
        {files : SegmentFiles}
        → write r f file c xxh3_64 parts w ≡ ok files
        → FilesFit files
        → IsOpened seg_id files w.docs w.pairs
    unfolding write
    open_segment-write {files} h sizes =
        let ((blob, es), built, h1) = >>=-eq-ok (build_postings_blob r parts w.pairs) _ h in
        let (syms, s, h2) = >>=-eq-ok (finish_syms f file c.kinds w.syms (length w.docs)) _ h1 in
        let (refs, x, h3) = >>=-eq-ok (finish_refs f file w.refs (length w.docs)) _ h2 in
        let asc =
          KeysAscend-dictionary_of es (AllEntries-build_postings_blob r parts w.pairs built)
            (build_postings_blob-IsAscending r laws w.pairs fit distinct parts built) in
        let (docs_enc, encoded, e) = write_segment_files-eq-ok w.docs syms refs es blob asc h3 in
        subst (λ fl. IsOpened seg_id fl w.docs w.pairs) e
          (files_of-IsOpened es asc blob docs_enc syms refs built encoded s x
            (subst FilesFit (sym e) sizes))
