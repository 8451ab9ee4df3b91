-- ===== src/Segment/Disk.antt =====
-- crates/greplm-core/src/segment.rs: the files that a writer leaves, and how they are opened. A file
-- is its bytes; the file system itself is not modelled.
pub mod Opening
pub mod Live
use greplm.Common.{
  ℕ, ◌%◌, ◌^◌, Bool, true, false, not, ◌||◌, Option, none, some, List, [], ◌∷◌, ◌++◌, ◌==◌,
  if◌then◌else◌, length, map, foldl,
}
use greplm.Common.Result.{Result, ok, err, ok_or, corrupt, fst, ◌>>=◌}
use greplm.Roaring.{Roaring}
use greplm.Fst.{Fst, FstFile}
use greplm.Trigram.{Trigram}
use greplm.Segment.{DocMeta}
use greplm.Segment.Codecs.{Codecs}
use greplm.Table.{EncodedTable, file_bytes}
use greplm.Table.Builder.{finish_syms, finish_refs}
use greplm.Table.Reader.{SymTable, RefTable, open_syms, open_refs}
use greplm.Segment.Postings.{build_postings_blob}
use greplm.Segment.Query.{SegmentData, Segment, tri_bytes}
use greplm.Segment.Files.{
  Postcard, append_checksum, verify_checksum, encode_table, read_table, write_bitmap, read_bitmap,
}
use greplm.Segment.Writer.{SegmentWriter}

-- The files of a segment; it may lack the file of the references.
pub record SegmentFiles : Type 0 where
  pub fst_file : List ℕ
  pub post_file : List ℕ
  pub docs_file : List ℕ
  pub syms_file : List ℕ
  pub refs_file : Option (List ℕ)
  pub live_file : List ℕ

-- An opened segment with its side tables.
pub record Opened (r : Roaring) (f : Fst) : Type 0 where
  pub segment : Segment r f
  pub syms : SymTable f
  pub refs : Option (RefTable f)

module _ (r : Roaring) (f : Fst) (file : FstFile f) (c : Codecs) (xxh3_64 : List ℕ → ℕ) where
  unfoldable pub write_segment_files :
      List DocMeta → EncodedTable → EncodedTable → List (Trigram × ℕ) → List ℕ → Result SegmentFiles
  unfolding append_checksum encode_table write_bitmap file_bytes
  write_segment_files docs syms refs fst_entries post_blob = do
    terms ← ok_or (f.build (map (λ e. (tri_bytes e.0, e.1)) fst_entries)) fst
    docs_enc ← encode_table c.docs xxh3_64 docs
    ok record {
      fst_file = file.into_inner terms;
      post_file = append_checksum xxh3_64 post_blob;
      docs_file = docs_enc;
      syms_file = file_bytes xxh3_64 syms;
      refs_file = some (file_bytes xxh3_64 refs);
      live_file = write_bitmap xxh3_64 r (r.insert_range r.empty 0 (length docs % 2 ^ 32));
    }

  -- `parts` is the number of threads
  unfoldable pub write : ℕ → SegmentWriter → Result SegmentFiles
  unfolding write_segment_files build_postings_blob finish_syms finish_refs
  write parts w = do
    postings ← build_postings_blob r parts w.pairs
    syms_enc ← finish_syms f file c.kinds w.syms (length w.docs)
    refs_enc ← finish_refs f file w.refs (length w.docs)
    write_segment_files w.docs syms_enc refs_enc postings.1 postings.0

  -- `Map::new` and the check of the map's own checksum
  unfoldable pub open_fst : List ℕ → Result f.Map
  open_fst bytes = do
    map ← ok_or (file.new bytes) fst
    if file.verify map then ok map else err corrupt

  -- a missing file of references is tolerated
  unfoldable pub open_optional : Option (List ℕ) → Result (Option (RefTable f))
  unfolding open_refs
  open_optional none = ok none
  open_optional (some bytes) = do refs ← open_refs f file xxh3_64 bytes; ok (some refs)

  abbrev pub refs_disagree : Option (RefTable f) → ℕ → Bool
  refs_disagree none n = false
  refs_disagree (some refs) n = not (refs.core.doc_count == n)

  unfoldable pub open_segment : ℕ → SegmentFiles → Result (Opened r f)
  unfolding verify_checksum read_table read_bitmap open_fst open_syms open_optional
  open_segment seg_id files = do
    terms ← open_fst files.fst_file
    payload ← verify_checksum xxh3_64 files.post_file
    docs ← read_table c.docs xxh3_64 files.docs_file
    syms ← open_syms f file xxh3_64 c.kinds files.syms_file
    refs ← open_optional files.refs_file
    if not (syms.core.doc_count == length docs) || refs_disagree refs (length docs)
        then err corrupt
        else (do
          live ← read_bitmap xxh3_64 r files.live_file
          ok record {
            segment = record {
              id = seg_id;
              contents = record {
                fst = terms;
                post = files.post_file;
                post_len = length payload;
                docs = docs;
              };
              live = live;
            };
            syms = syms;
            refs = refs;
          })

  -- only the live bitmap is read again
  unfoldable pub reopen : Opened r f → SegmentFiles → Result (Opened r f)
  unfolding read_bitmap
  reopen o files = do
    live ← read_bitmap xxh3_64 r files.live_file
    ok record {
      segment = record { id = o.segment.id; contents = o.segment.contents; live = live };
      syms = o.syms;
      refs = o.refs;
    }

module _ {r : Roaring} {f : Fst} where
  unfoldable pub is_live : Segment r f → ℕ → Bool
  is_live seg doc_id = r.contains seg.live doc_id

  -- the loop over the tombstones
  unfoldable pub subtract_live : Segment r f → List ℕ → Segment r f
  subtract_live seg doc_ids = record {
    id = seg.id;
    contents = seg.contents;
    live = foldl r.remove seg.live doc_ids;
  }

  unfoldable pub live_count : Segment r f → ℕ
  live_count seg = r.len seg.live
