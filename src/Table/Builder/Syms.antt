-- ===== src/Table/Builder/Syms.antt =====
-- `SymTableBuilder` of crates/greplm-core/src/table.rs after some pushes.
use greplm.Common.{
  ℕ, ◌+◌, ◌^◌, ◌≤◌, ◌<◌, ◌≡◌, refl, sym, ap, subst, ◌∙◌, some, List, [], ◌∷◌, ◌++◌, map, arith,
  length, length-append, length-map, get_elem?,
}
use mathlib.Core.List.{append_assoc, append-nil, map-append}
use greplm.Common.Result.{Result, ok, postcard, ok_or, ok_injective, ok_or-eq-ok, >>=-eq-ok, ◌>>=◌}
use greplm.Common.Utf8.{ascii_lower}
use greplm.Segment.{Text, RawSymbol}
use greplm.Segment.Files.{Postcard}
use greplm.Table.{push_doc}
use greplm.Table.Builder.{SymRow, SymTableBuilder, new_syms, intern, push_sym}
use greplm.Table.Builder.Columns.{
  StringsHold, empty_column_hold, push_str_hold, push_ascii_lower_hold, RowsHold, no-RowsHold,
  RowsHold-snoc,
}
use greplm.Table.Builder.Kinds.{intern_lem, get_elem?_append}
use greplm.Table.Builder.Starts.{StartsHold, new_starts_hold, push_doc_hold}

-- A symbol with its document.
abbrev pub DocSym : Type 0
DocSym = ℕ × RawSymbol

abbrev pub sym_row : ℕ × DocSym → SymRow
sym_row (kind_id, (d, s)) = record {
  doc_id = d;
  kind_id = kind_id;
  line_start = s.line_start;
  line_end = s.line_end;
  container = s.container;
  signature = s.signature;
}

abbrev pub symbol_name : DocSym → Text
symbol_name (d, s) = s.name

abbrev pub symbol_lower : DocSym → Text
symbol_lower (d, s) = ascii_lower s.name

abbrev pub symbol_doc : DocSym → ℕ
symbol_doc (d, s) = d

abbrev pub untag : ℕ × DocSym → DocSym
untag (kind_id, x) = x

-- Every symbol's kind stands at its id.
abbrev pub KindsHold : List Text → List (ℕ × DocSym) → Type 0
KindsHold kinds [] = Unit {0}
KindsHold kinds ((id, (d, s)) ∷ xs) = (get_elem? kinds id ≡ some s.kind) × KindsHold kinds xs

pub KindsHold-append :
    (kinds more : List Text) (xs : List (ℕ × DocSym))
    → KindsHold kinds xs
    → KindsHold (kinds ++ more) xs
KindsHold-append kinds more [] h = tt
KindsHold-append kinds more ((id, (d, s)) ∷ xs) h =
    (get_elem?_append kinds more id s.kind h.0, KindsHold-append kinds more xs h.1)

pub KindsHold-snoc :
    (kinds : List Text) (xs : List (ℕ × DocSym)) (id : ℕ) (x : DocSym)
    → get_elem? kinds id ≡ some x.1.kind
    → KindsHold kinds xs
    → KindsHold kinds (xs ++ (id, x) ∷ [])
KindsHold-snoc kinds [] id x e h = (e, tt)
KindsHold-snoc kinds ((id', (d, s)) ∷ xs) id x e h = (h.0, KindsHold-snoc kinds xs id x e h.1)

module _ (codec : Postcard SymRow) where
  abbrev pub push_one : SymTableBuilder → DocSym → Result SymTableBuilder
  push_one b (d, s) =
      push_sym codec b d s.name s.kind s.line_start s.line_end s.container s.signature

  -- symbols pushed one after the other
  unfoldable pub push_syms : SymTableBuilder → List DocSym → Result SymTableBuilder
  unfolding push_sym
  push_syms b [] = ok b
  push_syms b (x ∷ xs) = push_one b x >>= λ after. push_syms after xs

  -- A builder that took these symbols.
  pub record SymsHold (done : List DocSym) (b : SymTableBuilder) : Type 0 where
    pub tagged : List (ℕ × DocSym)
    pub tagged_eq : map untag tagged ≡ done
    pub kinds_hold : KindsHold b.kinds tagged
    pub kinds_le : length b.kinds ≤ length done
    pub rows_hold : RowsHold codec (map sym_row tagged) b.row_offsets b.row_bytes
    pub csr_hold : StartsHold (map symbol_doc done) b.csr
    pub names_hold : StringsHold (map symbol_name done) b.names
    pub lowers_hold : StringsHold (map symbol_lower done) b.lowers
    pub rows_eq : b.rows ≡ length done

  pub new_syms_hold : SymsHold [] new_syms
  new_syms_hold = record {
    tagged = [];
    tagged_eq = refl;
    kinds_hold = tt;
    kinds_le = omega arith;
    rows_hold = no-RowsHold codec;
    csr_hold = new_starts_hold;
    names_hold = empty_column_hold;
    lowers_hold = empty_column_hold;
    rows_eq = refl;
  }

  push_one_hold :
      (done : List DocSym) (b after : SymTableBuilder) (x : DocSym)
      → length done + 1 < 2 ^ 32
      → push_one b x ≡ ok after
      → SymsHold done b
      → SymsHold (done ++ x ∷ []) after
  unfolding push_sym
  push_one_hold done b after (d, s) room pushed h =
      let id = (intern b.kinds s.kind).0 in
      let i = intern_lem b.kinds s.kind (omega (arith, h.kinds_le)) in
      let (csr, csr_eq, rest) = >>=-eq-ok (push_doc b.csr d) _ pushed in
      let (encoded, encoded_eq, last) =
        >>=-eq-ok (ok_or (codec.to_allocvec (sym_row (id, (d, s)))) postcard) _ rest in
      subst (SymsHold (done ++ (d, s) ∷ [])) (ok_injective last) record {
        tagged = h.tagged ++ (id, (d, s)) ∷ [];
        tagged_eq =
            map-append untag h.tagged ((id, (d, s)) ∷ [])
            ∙ ap (λ xs. xs ++ (d, s) ∷ []) h.tagged_eq;
        kinds_hold =
            subst (λ ks. KindsHold ks (h.tagged ++ (id, (d, s)) ∷ [])) (sym i.kinds_eq)
              (KindsHold-snoc (b.kinds ++ i.more) h.tagged id (d, s) i.found
                (KindsHold-append b.kinds i.more h.tagged h.kinds_hold));
        kinds_le = omega (
          arith,
          ap length i.kinds_eq,
          length-append b.kinds i.more,
          i.more_le,
          h.kinds_le,
          length-append done ((d, s) ∷ []),
        );
        rows_hold = rw (map-append sym_row h.tagged ((id, (d, s)) ∷ [])) (
            RowsHold-snoc codec (map sym_row h.tagged) b.row_offsets b.row_bytes
              (sym_row (id, (d, s))) encoded (ok_or-eq-ok _ postcard encoded_eq) h.rows_hold);
        csr_hold = rw (map-append symbol_doc done ((d, s) ∷ [])) (
            push_doc_hold (map symbol_doc done) b.csr csr d
              (omega (arith, length-map symbol_doc done)) csr_eq h.csr_hold);
        names_hold =
            rw (map-append symbol_name done ((d, s) ∷ []))
              (push_str_hold (map symbol_name done) b.names s.name h.names_hold);
        lowers_hold =
            rw (map-append symbol_lower done ((d, s) ∷ []))
              (push_ascii_lower_hold (map symbol_lower done) b.lowers s.name h.lowers_hold);
        rows_eq = rw h.rows_eq (omega (arith, length-append done ((d, s) ∷ [])));
      }

  pub push_syms_hold :
      (xs done : List DocSym) (b after : SymTableBuilder)
      → length done + length xs < 2 ^ 32
      → push_syms b xs ≡ ok after
      → SymsHold done b
      → SymsHold (done ++ xs) after
  unfolding push_syms
  push_syms_hold [] done b after room pushed h =
      rw (append-nil done) (subst (SymsHold done) (ok_injective pushed) h)
  push_syms_hold (x ∷ xs) done b after room pushed h =
      let (next, first, rest) = >>=-eq-ok (push_one b x) _ pushed in
      rw (sym (append_assoc done (x ∷ []) xs)) (
        push_syms_hold xs (done ++ x ∷ []) next after (omega (arith, length-append done (x ∷ [])))
          rest (push_one_hold done b next x (omega arith) first h))
