-- ===== src/Table/Builder/Refs.antt =====
-- `RefTableBuilder` of crates/greplm-core/src/table.rs after some pushes.
use greplm.Common.{
  ℕ, ◌+◌, ◌^◌, ◌<◌, ◌≡◌, refl, sym, subst, List, [], ◌∷◌, ◌++◌, map, arith, length, length-append,
  length-map,
}
use mathlib.Core.List.{append_assoc, append-nil, map-append}
use greplm.Common.Result.{Result, ok, postcard, ok_or, ok_injective, ok_or-eq-ok, >>=-eq-ok, ◌>>=◌}
use greplm.Segment.{Text, RawRef}
use greplm.Segment.Files.{Postcard}
use greplm.Table.{push_doc}
use greplm.Table.Builder.{RefRow, RefTableBuilder, new_refs, push_ref}
use greplm.Table.Builder.Columns.{
  StringsHold, empty_column_hold, push_str_hold, RowsHold, no-RowsHold, RowsHold-snoc,
}
use greplm.Table.Builder.Starts.{StartsHold, new_starts_hold, push_doc_hold}

-- A reference with its document.
abbrev pub DocRef : Type 0
DocRef = ℕ × RawRef

abbrev pub ref_row : DocRef → RefRow
ref_row (d, r) = record { doc_id = d; kind = r.kind; line = r.line; column = r.column }

abbrev pub ref_name : DocRef → Text
ref_name (d, r) = r.name

abbrev pub ref_doc : DocRef → ℕ
ref_doc (d, r) = d

module _ (codec : Postcard RefRow) where
  abbrev pub push_one : RefTableBuilder → DocRef → Result RefTableBuilder
  push_one b (d, r) = push_ref codec b d r.name r.kind r.line r.column

  -- references pushed one after the other
  unfoldable pub push_refs : RefTableBuilder → List DocRef → Result RefTableBuilder
  unfolding push_ref
  push_refs b [] = ok b
  push_refs b (x ∷ xs) = push_one b x >>= λ after. push_refs after xs

  -- A builder that took these references.
  pub record RefsHold (done : List DocRef) (b : RefTableBuilder) : Type 0 where
    pub rows_hold : RowsHold codec (map ref_row done) b.row_offsets b.row_bytes
    pub csr_hold : StartsHold (map ref_doc done) b.csr
    pub names_hold : StringsHold (map ref_name done) b.names
    pub rows_eq : b.rows ≡ length done

  pub new_refs_hold : RefsHold [] new_refs
  new_refs_hold = record {
    rows_hold = no-RowsHold codec;
    csr_hold = new_starts_hold;
    names_hold = empty_column_hold;
    rows_eq = refl;
  }

  push_one_hold :
      (done : List DocRef) (b after : RefTableBuilder) (x : DocRef)
      → length done + 1 < 2 ^ 32
      → push_one b x ≡ ok after
      → RefsHold done b
      → RefsHold (done ++ x ∷ []) after
  unfolding push_ref
  push_one_hold done b after (d, r) room pushed h =
      let (csr, csr_eq, rest) = >>=-eq-ok (push_doc b.csr d) _ pushed in
      let (encoded, encoded_eq, last) =
        >>=-eq-ok (ok_or (codec.to_allocvec (ref_row (d, r))) postcard) _ rest in
      subst (RefsHold (done ++ (d, r) ∷ [])) (ok_injective last) record {
        rows_hold = rw (map-append ref_row done ((d, r) ∷ [])) (
            RowsHold-snoc codec (map ref_row done) b.row_offsets b.row_bytes (ref_row (d, r))
              encoded (ok_or-eq-ok _ postcard encoded_eq) h.rows_hold);
        csr_hold = rw (map-append ref_doc done ((d, r) ∷ [])) (
            push_doc_hold (map ref_doc done) b.csr csr d (omega (arith, length-map ref_doc done))
              csr_eq h.csr_hold);
        names_hold =
            rw (map-append ref_name done ((d, r) ∷ []))
              (push_str_hold (map ref_name done) b.names r.name h.names_hold);
        rows_eq = rw h.rows_eq (omega (arith, length-append done ((d, r) ∷ [])));
      }

  pub push_refs_hold :
      (xs done : List DocRef) (b after : RefTableBuilder)
      → length done + length xs < 2 ^ 32
      → push_refs b xs ≡ ok after
      → RefsHold done b
      → RefsHold (done ++ xs) after
  unfolding push_refs
  push_refs_hold [] done b after room pushed h =
      rw (append-nil done) (subst (RefsHold done) (ok_injective pushed) h)
  push_refs_hold (x ∷ xs) done b after room pushed h =
      let (next, first, rest) = >>=-eq-ok (push_one b x) _ pushed in
      rw (sym (append_assoc done (x ∷ []) xs)) (
        push_refs_hold xs (done ++ x ∷ []) next after (omega (arith, length-append done (x ∷ [])))
          rest (push_one_hold done b next x (omega arith) first h))
