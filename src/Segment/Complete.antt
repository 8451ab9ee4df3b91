-- ===== src/Segment/Complete.antt =====
-- From the documents to the candidates: `add_doc`, `write`, `open` and `candidates` of
-- crates/greplm-core/src/segment.rs on one another, with the planners of trigram.rs.
use greplm.Common.{
  ℕ, zero, suc, ◌+◌, ◌*◌, ◌%◌, ◌^◌, ◌<◌, ◌≡◌, refl, sym, ap, subst, ◌∙◌, Bool, true, ◌&&◌, Option,
  some, none, List, [], ◌∷◌, ◌++◌, arith, ltb, length, get_elem?,
}
use greplm.Common.Member.{elem}
use greplm.Common.Result.{ok, ok_injective}
use greplm.Common.Sort.{IsDistinct}
use greplm.Roaring.{Roaring, RoaringLaws}
use greplm.Fst.{Fst, FstFile, FstLaws, FstFileLaws}
use greplm.Trigram.{Trigram, IsBytes, key_of, contains, extract}
use greplm.Trigram.Query.{TrigramQuery, from_literal, from_literal_ci, satisfied}
use greplm.Trigram.Query.Literal.{from_literal-admits}
use mathlib.Core.Option.{some-injective}
use greplm.Common.Positions.{get_elem?-lt-length}
use greplm.Segment.Codecs.{Codecs, CodecsLaws}
use greplm.Segment.Pairs.{
  AllBytes, has_trigram, pairs_from, elem-pairs, AllBelow-pairs_from, IsDistinct-pairs_from,
}
use greplm.Segment.Postings.Exact.{AllPairs}
use greplm.Segment.Query.{SegmentData, posting_entry, candidates}
use greplm.Segment.Query.Group.{IsAnswering, EntryAnswers}
use greplm.Segment.Query.Candidates.{candidates-total, candidates-admits, candidates-exact}
use greplm.Segment.Query.Conjoin.{AllPlanned, AllShort}
use greplm.Segment.Query.Planned.{AllPlanned-from_literal, AllPlanned-from_literal_ci}
use greplm.Trigram.Query.CaseFold.{IsFoldMatch, from_literal_ci-admits}
use greplm.Segment.Writer.{SegmentWriter, new}
use greplm.Segment.Writer.Adding.{Source, contents_of, metas_of, add_all, add_all_lem}
use greplm.Segment.Disk.{SegmentFiles, Opened, write, open_segment}
use greplm.Segment.Disk.Opening.{FilesFit, IsOpened, open_segment-write}
use greplm.Segment.Writer.Rows.{RowsAdded, symbols_from, refs_from, add_all-new}

-- An answer for one assignment of trigrams is an answer for one that agrees with it.
EntryAnswers-agree :
    {r : Roaring} (laws : RoaringLaws r) {f : Fst} (seg : SegmentData r f) (p q : ℕ → Bool)
    (o : Option ℕ)
    → ((d : ℕ) → d < 2 ^ 32 → p d ≡ q d)
    → EntryAnswers laws seg p o
    → EntryAnswers laws seg q o
EntryAnswers-agree laws seg p q none agree a = λ d h. sym (agree d h) ∙ a d h
EntryAnswers-agree laws seg p q (some v) agree a = record {
  bitmap = a.bitmap;
  read = a.read;
  members = λ d h. a.members d h ∙ agree d h;
}

-- The trigrams of a document that stands in the list.
has_trigram_lem :
    (cs : List (List ℕ)) (d : ℕ) (c : List ℕ)
    → get_elem? cs d ≡ some c
    → (λ t. contains t (extract c)) ≡ has_trigram cs d
has_trigram_lem [] d c h = cc
has_trigram_lem (x ∷ cs) zero c h =
    ap {B = Trigram → Bool} (λ y t. contains t (extract y)) (sym (some-injective _ _ h))
has_trigram_lem (x ∷ cs) (suc d) c h = has_trigram_lem cs d c h

IsBytes-get_elem? :
    (cs : List (List ℕ)) (d : ℕ) (c : List ℕ) → AllBytes cs → get_elem? cs d ≡ some c → IsBytes c
IsBytes-get_elem? [] d c p h = cc
IsBytes-get_elem? (x ∷ cs) zero c p h = subst IsBytes (some-injective _ _ h) p.0
IsBytes-get_elem? (x ∷ cs) (suc d) c p h = IsBytes-get_elem? cs d c p.1 h

module _ {r : Roaring} (laws : RoaringLaws r) {f : Fst} (terms : FstLaws f) {file : FstFile f}
    (stored : FstFileLaws f file) {c : Codecs} (decodes : CodecsLaws c) {xxh3_64 : List ℕ → ℕ}
    (word : (bytes : List ℕ) → xxh3_64 bytes < 2 ^ 64) (seg_id parts : ℕ) (ss : List Source)
    (room : length ss < 2 ^ 32) (many_symbols : length (symbols_from 0 ss) < 2 ^ 32)
    (many_refs : length (refs_from 0 ss) < 2 ^ 32) (bytes : AllBytes (contents_of ss))
    {w : SegmentWriter} (added : add_all c new ss ≡ some w) {files : SegmentFiles}
    (written : write r f file c xxh3_64 parts w ≡ ok files) (sizes : FilesFit files) where
  length-contents_of : (xs : List Source) → length (contents_of xs) ≡ length xs
  length-contents_of [] = refl
  length-contents_of (x ∷ xs) = omega (arith, length-contents_of xs)

  length-metas_of : (xs : List Source) → length (metas_of xs) ≡ length xs
  length-metas_of [] = refl
  length-metas_of (x ∷ xs) = omega (arith, length-metas_of xs)

  pub writer_docs : w.docs ≡ metas_of ss
  unfolding new
  writer_docs = (add_all_lem c new ss (omega arith) added).0

  writer_pairs : w.pairs ≡ pairs_from 0 (contents_of ss)
  unfolding new
  writer_pairs = (add_all_lem c new ss (omega arith) added).1

  fit : AllPairs w.pairs
  fit =
      rw writer_pairs
        (AllBelow-pairs_from 0 (contents_of ss) (omega (arith, length-contents_of ss)))

  distinct : IsDistinct w.pairs
  distinct =
      rw writer_pairs
        (IsDistinct-pairs_from 0 (contents_of ss) (omega (arith, length-contents_of ss)) bytes)

  rows_added : RowsAdded c (symbols_from 0 ss) (refs_from 0 ss) w
  rows_added = add_all-new c ss (omega arith) many_symbols many_refs added

  docs_room : length w.docs < 2 ^ 32
  docs_room = omega (arith, ap length writer_docs, length-metas_of ss)

  pub reopened : IsOpened laws terms stored decodes word seg_id files w.docs w.pairs
  reopened =
      open_segment-write laws terms stored decodes word seg_id parts w rows_added docs_room fit
        distinct written sizes

  -- What the reopened segment answers, in terms of the documents.
  document_answers :
      (seg : SegmentData r f)
      → IsAnswering laws seg (λ d t. elem (key_of t * 2 ^ 32 + d) w.pairs)
      → IsAnswering laws seg (has_trigram (contents_of ss))
  document_answers seg answers t p =
      EntryAnswers-agree laws seg (λ d. elem (key_of t * 2 ^ 32 + d) w.pairs)
        (λ d. has_trigram (contents_of ss) d t) (posting_entry seg t)
        (λ d h.
          ap (elem (key_of t * 2 ^ 32 + d)) writer_pairs
          ∙ elem-pairs d t (contents_of ss) (omega (arith, length-contents_of ss)) h p)
        (answers t p)

  -- Fewer than 2^32 documents, all of bytes and together with fewer than 2^32 symbols and fewer
  -- than 2^32 references, were added to a new writer, the writer was written, and the files of its
  -- side tables are shorter than 2^64 bytes. The crates behave as documented: roaring's bitmaps as
  -- sets, an fst map takes keys in ascending order, finds them, is read back from its bytes and
  -- verifies if it was built, the encoders of documents and kinds decode what they encoded, and a
  -- hash has 64 bits. Then the files are opened and the candidates of every query of three-byte
  -- trigrams are computed, both without an error.
  pub indexed-total :
      (q : TrigramQuery)
      → AllPlanned q.dnfs
      → (o : Opened r f) × (bm : r.Bitmap) × (open_segment r f file c xxh3_64 seg_id files ≡ ok o)
        × (candidates o.segment q ≡ ok bm)
  indexed-total q planned =
      let (o, opened, id, docs, live, answers) = reopened in
      let (bm, found) =
        candidates-total laws o.segment (has_trigram (contents_of ss))
          (document_answers o.segment.contents answers) q planned in
      (o, bm, opened, found)

  alive_of : (n d : ℕ) → n < 2 ^ 32 → r.contains (r.insert_range r.empty 0 (n % 2 ^ 32)) d ≡ ltb d n
  alive_of n d h =
      laws.contains-insert_range r.empty 0 (n % 2 ^ 32) d ∙ ground (arith, laws.contains-empty d)

  pub alive :
      (d : ℕ) → r.contains (r.insert_range r.empty 0 (length w.docs % 2 ^ 32)) d ≡ ltb d (length ss)
  alive d =
      let count : length w.docs ≡ length ss = ap length writer_docs ∙ length-metas_of ss in
      rw count (alive_of (length ss) d room)

  -- Whatever the files were opened as: the documents are alive, and the segment answers for them.
  abbrev Holds : Opened r f → Type 0
  Holds o =
      ((d : ℕ) → r.contains o.segment.live d ≡ ltb d (length ss))
      × IsAnswering laws o.segment.contents (has_trigram (contents_of ss))

  Holds-of : {o : Opened r f} → open_segment r f file c xxh3_64 seg_id files ≡ ok o → Holds o
  Holds-of {o} opened =
      let (o', opened', id, docs, live, answers) = reopened in
      subst Holds (ok_injective (sym opened' ∙ opened))
        (λ d. ap (λ b. r.contains b d) live ∙ alive d, document_answers o'.segment.contents answers)

  module _ {o : Opened r f} (opened : open_segment r f file c xxh3_64 seg_id files ≡ ok o)
      (q : TrigramQuery) (planned : AllPlanned q.dnfs) {bm : r.Bitmap}
      (found : candidates o.segment q ≡ ok bm) (d : ℕ) where
    -- Fewer than 2^32 documents, all of bytes and together with fewer than 2^32 symbols and fewer
    -- than 2^32 references, were added to a new writer, the writer was written, and the files of
    -- its side tables are shorter than 2^64 bytes. The crates behave as documented: roaring's
    -- bitmaps as sets, an fst map takes keys in ascending order, finds them, is read back from its
    -- bytes and verifies if it was built, the encoders of documents and kinds decode what they
    -- encoded, and a hash has 64 bits. If the files are opened and the candidates of a query of
    -- three-byte trigrams are computed, every added document whose trigrams satisfy the query is
    -- among them.
    pub indexed-admits :
        d < length ss → satisfied (has_trigram (contents_of ss) d) q ≡ true → r.contains bm d ≡ true
    indexed-admits inside satisfies =
        let (live, answers) = Holds-of opened in
        candidates-admits laws o.segment (has_trigram (contents_of ss)) answers q d planned found
          (omega (arith, room)) (live d ∙ ground arith) satisfies

    -- Fewer than 2^32 documents, all of bytes and together with fewer than 2^32 symbols and fewer
    -- than 2^32 references, were added to a new writer, the writer was written, and the files of
    -- its side tables are shorter than 2^64 bytes. The crates behave as documented: roaring's
    -- bitmaps as sets, an fst map takes keys in ascending order, finds them, is read back from its
    -- bytes and verifies if it was built, the encoders of documents and kinds decode what they
    -- encoded, and a hash has 64 bits. If the files are opened and the candidates of a query of
    -- three-byte trigrams are computed, and no group of the query has more than four trigrams, the
    -- candidates below 2^32 are exactly the added documents whose trigrams satisfy the query.
    pub indexed-exact :
        AllShort q.dnfs
        → d < 2 ^ 32
        → r.contains bm d ≡ (ltb d (length ss) && satisfied (has_trigram (contents_of ss) d) q)
    indexed-exact short small =
        let (live, answers) = Holds-of opened in
        candidates-exact laws o.segment (has_trigram (contents_of ss)) answers q d planned short
          found small
        ∙ ap (λ b. b && satisfied (has_trigram (contents_of ss) d) q) (live d)

  -- Fewer than 2^32 documents, all of bytes and together with fewer than 2^32 symbols and fewer
  -- than 2^32 references, were added to a new writer, the writer was written, and the files of its
  -- side tables are shorter than 2^64 bytes. The crates behave as documented: roaring's bitmaps as
  -- sets, an fst map takes keys in ascending order, finds them, is read back from its bytes and
  -- verifies if it was built, the encoders of documents and kinds decode what they encoded, and a
  -- hash has 64 bits. If the files are opened and the candidates for `from_literal` of a needle are
  -- computed, every added document whose content contains the needle is among them.
  pub indexed-from_literal :
      {o : Opened r f} {bm : r.Bitmap} (d : ℕ) (pre needle post : List ℕ)
      → open_segment r f file c xxh3_64 seg_id files ≡ ok o
      → candidates o.segment (from_literal needle) ≡ ok bm
      → get_elem? (contents_of ss) d ≡ some (pre ++ (needle ++ post))
      → r.contains bm d ≡ true
  indexed-from_literal d pre needle post opened found stands =
      let content = pre ++ (needle ++ post) in
      indexed-admits opened (from_literal needle) (AllPlanned-from_literal needle) found d
        (omega
          (arith, get_elem?-lt-length (contents_of ss) d content stands, length-contents_of ss))
        (subst (λ (has : Trigram → Bool). satisfied has (from_literal needle) ≡ true)
          (has_trigram_lem (contents_of ss) d content stands)
          (from_literal-admits pre needle post
            (IsBytes-get_elem? (contents_of ss) d content bytes stands)))

  -- Fewer than 2^32 documents, all of bytes and together with fewer than 2^32 symbols and fewer
  -- than 2^32 references, were added to a new writer, the writer was written, and the files of its
  -- side tables are shorter than 2^64 bytes. The crates behave as documented: roaring's bitmaps as
  -- sets, an fst map takes keys in ascending order, finds them, is read back from its bytes and
  -- verifies if it was built, the encoders of documents and kinds decode what they encoded, and a
  -- hash has 64 bits. If the files are opened and the candidates for `from_literal_ci` of a needle
  -- are computed, every added document whose content contains a match of the needle under case
  -- folding is among them.
  pub indexed-from_literal_ci :
      {o : Opened r f} {bm : r.Bitmap} (d : ℕ) (pre needle text post : List ℕ)
      → IsFoldMatch needle text
      → open_segment r f file c xxh3_64 seg_id files ≡ ok o
      → candidates o.segment (from_literal_ci needle) ≡ ok bm
      → get_elem? (contents_of ss) d ≡ some (pre ++ (text ++ post))
      → r.contains bm d ≡ true
  indexed-from_literal_ci d pre needle text post fold opened found stands =
      let content = pre ++ (text ++ post) in
      indexed-admits opened (from_literal_ci needle) (AllPlanned-from_literal_ci needle) found d
        (omega
          (arith, get_elem?-lt-length (contents_of ss) d content stands, length-contents_of ss))
        (subst (λ (has : Trigram → Bool). satisfied has (from_literal_ci needle) ≡ true)
          (has_trigram_lem (contents_of ss) d content stands)
          (from_literal_ci-admits needle pre text post
            (IsBytes-get_elem? (contents_of ss) d content bytes stands) fold))
