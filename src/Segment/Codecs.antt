-- ===== src/Segment/Codecs.antt =====
-- The encodings of the crate postcard that crates/greplm-core/src/segment.rs and table.rs use: of the
-- table of documents, of the rows of the side tables and of the kinds of symbols.
use greplm.Common.{List}
use greplm.Segment.{Text, DocMeta}
use greplm.Segment.Files.{Postcard, PostcardLaw}
use greplm.Table.Builder.{SymRow, RefRow}

pub record Codecs : Type 0 where
  pub docs : Postcard (List DocMeta)
  pub syms : Postcard SymRow
  pub refs : Postcard RefRow
  pub kinds : Postcard (List Text)

-- What is decoded when a segment is opened, is what was encoded.
pub record CodecsLaws (c : Codecs) : Type 0 where
  pub docs_law : PostcardLaw c.docs
  pub kinds_law : PostcardLaw c.kinds
