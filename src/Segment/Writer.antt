-- ===== src/Segment/Writer.antt =====
-- crates/greplm-core/src/segment.rs: the writer of a segment, to which documents are added.
pub mod Adding
pub mod Rows
use greplm.Common.{
  ℕ, ◌%◌, ◌^◌, Bool, not, ◌||◌, Option, none, some, List, [], ◌∷◌, ◌++◌, map, ◌==◌, if◌then◌else◌,
  length, is_empty,
}
use greplm.Common.Options.{◌>>=◌}
use greplm.Trigram.{Trigram}
use greplm.Segment.{DocMeta, RawSymbol, RawRef}
use greplm.Segment.Codecs.{Codecs}
use greplm.Table.Builder.{
  SymRow, RefRow, SymTableBuilder, RefTableBuilder, new_syms, new_refs, push_sym, push_ref,
}
use greplm.Common.Result.{Result, expect}
use greplm.Segment.Files.{Postcard}
use greplm.Segment.Postings.{pair_of, build_postings_blob}

pub record SegmentWriter : Type 0 where
  pub docs : List DocMeta
  pub syms : SymTableBuilder
  pub refs : RefTableBuilder
  pub pairs : List ℕ

unfoldable pub new : SegmentWriter
new = record { docs = []; syms = new_syms; refs = new_refs; pairs = [] }

abbrev pub doc_count : SegmentWriter → ℕ
doc_count w = length w.docs

-- the loop over the symbols; nothing where the source panics
unfoldable pub push_symbols :
    Postcard SymRow → SymTableBuilder → ℕ → List RawSymbol → Option SymTableBuilder
unfolding push_sym
push_symbols codec b doc_id [] = some b
push_symbols codec b doc_id (s ∷ ss) = do
  pushed ←
      expect (push_sym codec b doc_id s.name s.kind s.line_start s.line_end s.container s.signature)
  push_symbols codec pushed doc_id ss

unfoldable pub push_refs :
    Postcard RefRow → RefTableBuilder → ℕ → List RawRef → Option RefTableBuilder
unfolding push_ref
push_refs codec b doc_id [] = some b
push_refs codec b doc_id (x ∷ xs) = do
  pushed ← expect (push_ref codec b doc_id x.name x.kind x.line x.column)
  push_refs codec pushed doc_id xs

-- the new document's id and the writer; nothing where the source panics
unfoldable pub add_doc :
    Codecs
    → SegmentWriter
    → DocMeta
    → List Trigram
    → List RawSymbol
    → List RawRef
    → Option (ℕ × SegmentWriter)
unfolding push_symbols push_refs pair_of
add_doc c w meta trigrams symbols refs =
    let doc_id = length w.docs % 2 ^ 32 in
    (do
      syms ← push_symbols c.syms w.syms doc_id symbols
      refs ← push_refs c.refs w.refs doc_id refs
      some (
        doc_id,
        record {
          docs = w.docs ++ meta ∷ [];
          syms = syms;
          refs = refs;
          pairs = w.pairs ++ map (pair_of doc_id) trigrams;
        },
      ))
