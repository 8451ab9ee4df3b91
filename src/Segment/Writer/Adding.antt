-- ===== src/Segment/Writer/Adding.antt =====
-- `add_doc` of `SegmentWriter` in crates/greplm-core/src/segment.rs, called for documents one
-- after another.
use greplm.Common.{
  ℕ, ◌+◌, ◌%◌, ◌^◌, ◌≤◌, ◌<◌, ◌≡◌, sym, ap, ◌∙◌, Option, some, List, [], ◌∷◌, ◌++◌, map, arith,
  length, length-append,
}
use mathlib.Core.List.{append_assoc, append-nil}
use mathlib.Core.Option.{some-injective}
use greplm.Common.Options.{◌>>=◌, >>=-eq-some}
use greplm.Trigram.{Trigram, extract}
use greplm.Segment.{DocMeta, RawSymbol, RawRef}
use greplm.Segment.Codecs.{Codecs}
use greplm.Segment.Postings.{pair_of}
use greplm.Segment.Pairs.{pairs_from}
use greplm.Segment.Writer.{SegmentWriter, push_symbols, push_refs, add_doc}

-- A document as the indexer hands it over: it is added under the trigrams of its content.
pub record Source : Type 0 where
  pub meta : DocMeta
  pub content : List ℕ
  pub symbols : List RawSymbol
  pub refs : List RawRef

abbrev pub contents_of : List Source → List (List ℕ)
contents_of = map (λ s. s.content)

abbrev pub metas_of : List Source → List DocMeta
metas_of = map (λ s. s.meta)

module _ (c : Codecs) where
  unfoldable pub add_all : SegmentWriter → List Source → Option (SegmentWriter)
  unfolding add_doc
  add_all w [] = some w
  add_all w (s ∷ ss) = do
    added ← add_doc c w s.meta (extract s.content) s.symbols s.refs
    add_all added.1 ss

  -- One document more: its id is the number of documents before it.
  pub add_doc_lem :
      (w : SegmentWriter) (meta : DocMeta) (trigrams : List Trigram) (symbols : List RawSymbol)
      (refs : List RawRef) {id : ℕ} {w' : SegmentWriter}
      → length w.docs < 2 ^ 32
      → add_doc c w meta trigrams symbols refs ≡ some (id, w')
      → (id ≡ length w.docs)
        × (w'.docs ≡ w.docs ++ meta ∷ [])
        × (w'.pairs ≡ w.pairs ++ map (pair_of (length w.docs)) trigrams)
  unfolding add_doc
  add_doc_lem w meta trigrams symbols refs room h =
      let (ss, pushed, h') =
        >>=-eq-some (push_symbols c.syms w.syms (length w.docs % 2 ^ 32) symbols) _ h in
      let (rs, pushed', h'') =
        >>=-eq-some (push_refs c.refs w.refs (length w.docs % 2 ^ 32) refs) _ h' in
      let e = some-injective _ _ h'' in
      let small : length w.docs % 2 ^ 32 ≡ length w.docs = omega arith in
      (
        ap (λ p. p.0) (sym e) ∙ small,
        ap (λ p. p.1.docs) (sym e),
        ap (λ p. p.1.pairs) (sym e) ∙ ap (λ (i : ℕ). w.pairs ++ map (pair_of i) trigrams) small,
      )

  -- If documents are added to a writer one after another and there are at most 2^32 in the
  -- end, the records of the writer are followed by theirs, and its pairs by their pairs under
  -- consecutive ids.
  pub add_all_lem :
      (w : SegmentWriter) (ss : List Source) {w' : SegmentWriter}
      → length w.docs + length ss ≤ 2 ^ 32
      → add_all w ss ≡ some w'
      → (w'.docs ≡ w.docs ++ metas_of ss)
        × (w'.pairs ≡ w.pairs ++ pairs_from (length w.docs) (contents_of ss))
  unfolding add_all pairs_from
  add_all_lem w [] room h =
      let e = some-injective _ _ h in
      (
        ap (λ u. u.docs) (sym e) ∙ sym (append-nil w.docs),
        ap (λ u. u.pairs) (sym e) ∙ sym (append-nil w.pairs),
      )
  add_all_lem w (s ∷ ss) room h =
      let (added, one, rest) =
        >>=-eq-some (add_doc c w s.meta (extract s.content) s.symbols s.refs) _ h in
      let (id, docs, pairs) =
        add_doc_lem w s.meta (extract s.content) s.symbols s.refs (omega arith) one in
      let more : length added.1.docs ≡ length w.docs + 1 =
        ap length docs ∙ length-append w.docs (s.meta ∷ []) in
      let (docs', pairs') = add_all_lem added.1 ss (omega arith) rest in
      (
        docs' ∙ ap (λ ds. ds ++ metas_of ss) docs ∙ append_assoc w.docs (s.meta ∷ []) (metas_of ss),
        pairs'
            ∙ rw (pairs, more)
                (append_assoc w.pairs (map (pair_of (length w.docs)) (extract s.content))
                  (pairs_from (length w.docs + 1) (contents_of ss))),
      )
