-- ===== src/Lib.antt =====
-- A verification library for greplm, a local code search engine. Text is indexed by trigrams: a
-- document is stored under every three-byte window of its content, a query is turned into a
-- formula over trigrams, and a search looks only at the documents that satisfy the formula before
-- it matches them exactly. The library models that core.
--
-- The parts:
-- * Trigram models crates/greplm-core/src/trigram.rs. `extract` runs through the thread-local
--   bitset `SEEN`, which is an explicit state here. Trigram/Query models the planners
--   `from_literal`, `from_literal_ci` and `regex_trigrams`; the loops over windows, forms and
--   literals are recursions on the lists they run over.
-- * Segment models crates/greplm-core/src/segment.rs: the packed values of the term dictionary;
--   in Segment/Writer `SegmentWriter` with `add_doc`; in Segment/Postings `build_postings_blob`,
--   which turns the flat pairs of a writer into posting lists in parallel chunks; in
--   Segment/Files the checksum footer and the encoded tables and bitmaps; in Segment/Disk
--   `write`, `write_segment_files`, `Segment::open` (`open_segment` here), `reopen` and the
--   tombstones; and in Segment/Query the search `Segment::candidates` with `posting_entry`,
--   `posting_at`, `group_bitmap` and `dnf_bitmap` of `SegmentData`. Segment/Complete follows
--   documents from the writer through the files to the candidates of a query.
-- * Table models crates/greplm-core/src/table.rs: string columns, the starts of documents' rows
--   and the name index (`build_name_fst`); in Table/Builder the builders of the symbol and the
--   reference table; in Table/Core `parse_header` and the accessors of `TableCore`; in
--   Table/Reader `SymTable` and `RefTable`. A method of one table has the table in its name:
--   `push_sym` and `push_ref` are `push`, `finish_syms` and `finish_refs` `finish`, `syms_named`
--   and `refs_named` `named`. The writer of a segment holds these builders, and an opened segment
--   these tables.
-- * Search models a part of crates/greplm-core/src/search.rs: `SearchQuery`, `Matcher` with
--   `build_matcher` for `Matcher::build` and `match_starts`; in Search/Lines `line_starts` and
--   `line_of`; in Search/Cache `ContentCache`, whose `get_or_read` is one critical section after
--   the other; in Search/Verify `verify_doc` with `path_score` and `snippet`; in Search/Targets
--   the first half of `Searcher::search`, up to the documents that are verified, as
--   `search_targets`; in Search/Paging `paginate`. What a segment has for a document is an argument
--   of `verify_doc`.
-- * Common/Result models crates/greplm-core/src/error.rs.
-- * Roaring and Fst are the crates roaring and fst, `Memchr`, `BytesRegex` and `Lru` of Search are
--   memchr, regex and lru, `F32` is the arithmetic of `f32`, `Display` how bytes are shown as
--   text, `RegexSyntax` of Trigram/Query/Regex is regex_syntax, `Postcard` of Segment/Files is
--   postcard, with the encodings of a segment in Segment/Codecs, and the hash of xxhash_rust is a
--   function: parameters with the documented behaviour as laws. Examples has concrete instances of
--   them.
--
-- Integers are natural numbers; the shifts of `u32` and `u64` keep their wrap-around, and `as
-- u8`, `as u32` are remainders. Bytes and trigrams are numbers with a bound stated where it is
-- needed. The result of a parallel sort is the sorted list, and the number of threads is an
-- argument. The run loop of `build_postings_blob` takes the length of its span as fuel, and the
-- look-ahead for the next change of key the number of pairs: each round consumes at least one
-- pair. The outer loop of `build_name_fst` takes the number of ids: each round consumes the run
-- of a name, which is not empty. The eviction of the content cache takes the number of entries:
-- each round removes one.
--
-- A file is its bytes; reading and writing them does not fail. `FstFile` is how an fst map is
-- written to bytes and read from them; `open_fst` is `Map::new` followed by `verify`, each with
-- its error. A writer panics where a side table refuses a row, which is an absent result.
--
-- Not modelled: the file system, locks, sockets and threads around this core, the merge of
-- segments, the indexer's journal and compaction, the searcher that ranks the hits of all files,
-- symbol and reference queries, and the command line.
pub mod Common
pub mod Trigram
pub mod Roaring
pub mod Segment
pub mod Fst
pub mod Examples
pub mod Table
pub mod Search
