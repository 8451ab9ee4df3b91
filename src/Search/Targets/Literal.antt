-- ===== src/Search/Targets/Literal.antt =====
-- A plain literal in `Searcher::search` of crates/greplm-core/src/search.rs, over a segment that was
-- written and opened.
use greplm.Fst.{Fst}
use greplm.Roaring.{Roaring}
use greplm.Segment.Query.{Segment}
use greplm.Segment.Codecs.{Codecs}
