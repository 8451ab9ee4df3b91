-- ===== src/Segment/Writer/Rows.antt =====
-- The rows of the side tables after `add_doc` of `SegmentWriter` in crates/greplm-core/src/segment.rs
-- was called for documents one after another.
use greplm.Common.{
  ℕ, ◌+◌, ◌%◌, ◌^◌, ◌≤◌, ◌<◌, ◌≡◌, sym, ap, subst, ◌∙◌, some, List, [], ◌∷◌, ◌++◌, map, arith,
  length, length-append, length-map,
}
use mathlib.Core.List.{append_assoc, append-nil}
use mathlib.Core.Option.{some-injective}
use greplm.Common.Options.{>>=-eq-some}
use greplm.Common.Result.{ok, ok->>=, expect, expect-eq-some}
use greplm.Segment.{RawSymbol, RawRef, DocMeta}
use greplm.Segment.Codecs.{Codecs}
use greplm.Segment.Files.{Postcard}
use greplm.Segment.Writer.{SegmentWriter, new, push_symbols, push_refs, add_doc}
use greplm.Segment.Writer.Adding.{Source, add_all, add_doc_lem}
use greplm.Table.Builder.{SymRow, RefRow, SymTableBuilder, RefTableBuilder, push_sym, push_ref}
use greplm.Table.Builder.Refs.{
  DocRef, push_refs as push_all_refs, RefsHold, new_refs_hold, push_refs_hold,
}
use greplm.Table.Builder.Syms.{DocSym, push_syms, SymsHold, new_syms_hold, push_syms_hold}
use greplm.Trigram.{Trigram, extract}

abbrev tag {ℓ} : {A : Type ℓ} → ℕ → A → ℕ × A
tag d x = (d, x)

-- The symbols of documents with consecutive ids.
unfoldable pub symbols_from : ℕ → List Source → List DocSym
symbols_from n [] = []
symbols_from n (s ∷ ss) = map (tag n) s.symbols ++ symbols_from (n + 1) ss

unfoldable pub refs_from : ℕ → List Source → List DocRef
refs_from n [] = []
refs_from n (s ∷ ss) = map (tag n) s.refs ++ refs_from (n + 1) ss

push_symbols-push_syms :
    (codec : Postcard SymRow) (ss : List RawSymbol) (b : SymTableBuilder) (d : ℕ)
    {after : SymTableBuilder}
    → push_symbols codec b d ss ≡ some after
    → push_syms codec b (map (tag d) ss) ≡ ok after
unfolding push_symbols push_syms
push_symbols-push_syms codec [] b d h = ap ok (some-injective _ _ h)
push_symbols-push_syms codec (s ∷ ss) b d h =
    let one = push_sym codec b d s.name s.kind s.line_start s.line_end s.container s.signature in
    let (next, first, rest) = >>=-eq-some (expect one) _ h in
    ok->>= _ (expect-eq-some one first) (push_symbols-push_syms codec ss next d rest)

push_refs-push_refs :
    (codec : Postcard RefRow) (xs : List RawRef) (b : RefTableBuilder) (d : ℕ)
    {after : RefTableBuilder}
    → push_refs codec b d xs ≡ some after
    → push_all_refs codec b (map (tag d) xs) ≡ ok after
unfolding push_refs push_all_refs
push_refs-push_refs codec [] b d h = ap ok (some-injective _ _ h)
push_refs-push_refs codec (x ∷ xs) b d h =
    let one = push_ref codec b d x.name x.kind x.line x.column in
    let (next, first, rest) = >>=-eq-some (expect one) _ h in
    ok->>= _ (expect-eq-some one first) (push_refs-push_refs codec xs next d rest)

module _ (c : Codecs) where
  -- A writer whose side tables took these rows.
  pub record RowsAdded (xs : List DocSym) (ys : List DocRef) (w : SegmentWriter) : Type 0 where
    pub syms_hold : SymsHold c.syms xs w.syms
    pub refs_hold : RefsHold c.refs ys w.refs
    pub syms_lt : length xs < 2 ^ 32
    pub refs_lt : length ys < 2 ^ 32

  new-RowsAdded : RowsAdded [] [] new
  unfolding new
  new-RowsAdded = record {
    syms_hold = new_syms_hold c.syms;
    refs_hold = new_refs_hold c.refs;
    syms_lt = omega arith;
    refs_lt = omega arith;
  }

  add_doc-RowsAdded :
      (xs : List DocSym) (ys : List DocRef) (w : SegmentWriter) (meta : DocMeta)
      (trigrams : List Trigram) (ss : List RawSymbol) (rs : List RawRef) {id : ℕ}
      {w' : SegmentWriter}
      → length w.docs < 2 ^ 32
      → length xs + length ss < 2 ^ 32
      → length ys + length rs < 2 ^ 32
      → add_doc c w meta trigrams ss rs ≡ some (id, w')
      → RowsAdded xs ys w
      → RowsAdded (xs ++ map (tag (length w.docs)) ss) (ys ++ map (tag (length w.docs)) rs) w'
  unfolding add_doc
  add_doc-RowsAdded xs ys w meta trigrams ss rs {w' = w'} room many_ss many_rs h held =
      let d = length w.docs % 2 ^ 32 in
      let small : d ≡ length w.docs = omega arith in
      let (b, pushed, h') = >>=-eq-some (push_symbols c.syms w.syms d ss) _ h in
      let (a, pushed', h'') = >>=-eq-some (push_refs c.refs w.refs d rs) _ h' in
      let e = ap (λ p. p.1) (some-injective _ _ h'') in
      let syms =
        push_syms_hold c.syms (map (tag d) ss) xs w.syms b (omega (arith, length-map (tag d) ss))
          (push_symbols-push_syms c.syms ss w.syms d pushed) held.syms_hold in
      let refs =
        push_refs_hold c.refs (map (tag d) rs) ys w.refs a (omega (arith, length-map (tag d) rs))
          (push_refs-push_refs c.refs rs w.refs d pushed') held.refs_hold in
      subst (λ (i : ℕ). RowsAdded (xs ++ map (tag i) ss) (ys ++ map (tag i) rs) w') small
        record {
          syms_hold =
              subst (λ (u : SegmentWriter). SymsHold c.syms (xs ++ map (tag d) ss) u.syms) e syms;
          refs_hold =
              subst (λ (u : SegmentWriter). RefsHold c.refs (ys ++ map (tag d) rs) u.refs) e refs;
          syms_lt = omega (arith, length-append xs (map (tag d) ss), length-map (tag d) ss);
          refs_lt = omega (arith, length-append ys (map (tag d) rs), length-map (tag d) rs);
        }

  add_all-RowsAdded :
      (xs : List DocSym) (ys : List DocRef) (w : SegmentWriter) (ss : List Source)
      {w' : SegmentWriter}
      → length w.docs + length ss ≤ 2 ^ 32
      → length xs + length (symbols_from (length w.docs) ss) < 2 ^ 32
      → length ys + length (refs_from (length w.docs) ss) < 2 ^ 32
      → add_all c w ss ≡ some w'
      → RowsAdded xs ys w
      → RowsAdded (xs ++ symbols_from (length w.docs) ss) (ys ++ refs_from (length w.docs) ss) w'
  unfolding add_all symbols_from refs_from
  add_all-RowsAdded xs ys w [] {w'} room many_ss many_rs h held =
      rw (append-nil xs, append-nil ys) (subst (RowsAdded xs ys) (some-injective _ _ h) held)
  add_all-RowsAdded xs ys w (s ∷ ss) {w'} room many_ss many_rs h held =
      let n = length w.docs in
      let (added, one, rest) =
        >>=-eq-some (add_doc c w s.meta (extract s.content) s.symbols s.refs) _ h in
      let (id, docs, pairs) =
        add_doc_lem c w s.meta (extract s.content) s.symbols s.refs (omega arith) one in
      let more : length added.1.docs ≡ n + 1 =
        ap length docs ∙ length-append w.docs (s.meta ∷ []) in
      let here = map (tag n) s.symbols in
      let called = map (tag n) s.refs in
      let split : length xs + (length here + length (symbols_from (n + 1) ss)) < 2 ^ 32 =
        omega (arith, length-append here (symbols_from (n + 1) ss)) in
      let split' : length ys + (length called + length (refs_from (n + 1) ss)) < 2 ^ 32 =
        omega (arith, length-append called (refs_from (n + 1) ss)) in
      let next =
        add_doc-RowsAdded xs ys w s.meta (extract s.content) s.symbols s.refs (omega arith)
          (omega (arith, length-map (tag n) s.symbols)) (omega (arith, length-map (tag n) s.refs))
          one held in
      rw
        (
          sym (append_assoc xs here (symbols_from (n + 1) ss)),
          sym (append_assoc ys called (refs_from (n + 1) ss)),
          sym more,
        )
        (add_all-RowsAdded (xs ++ here) (ys ++ called) added.1 ss (omega arith)
          (rw more (omega (arith, length-append xs here)))
          (rw more (omega (arith, length-append ys called))) rest next)

  -- The rows of a new writer to which documents were added.
  pub add_all-new :
      (ss : List Source) {w : SegmentWriter}
      → length ss ≤ 2 ^ 32
      → length (symbols_from 0 ss) < 2 ^ 32
      → length (refs_from 0 ss) < 2 ^ 32
      → add_all c new ss ≡ some w
      → RowsAdded (symbols_from 0 ss) (refs_from 0 ss) w
  unfolding new
  add_all-new ss room many_ss many_rs h =
      add_all-RowsAdded [] [] new ss (omega arith) (omega arith) (omega arith) h new-RowsAdded
