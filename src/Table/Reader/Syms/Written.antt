-- ===== src/Table/Reader/Syms/Written.antt =====
-- What `SymTable` of crates/greplm-core/src/table.rs reads from a table that was written.
use greplm.Common.{
  ℕ, zero, suc, ◌^◌, ◌<◌, ◌≡◌, refl, sym, ap, subst, ◌∙◌, true, some, List, [], ◌∷◌, map, arith,
  length, length-map, concat, get_or, get_elem?, all,
}
use mathlib.Core.Option.{some-injective}
use greplm.Common.Options.{some->>=}
use greplm.Common.Positions.{get_elem?-lt-length, get_elem?-map, get_or-map}
use greplm.Common.Result.{ok, fst, postcard, ok_or, ok->>=}
use greplm.Common.Utf8.{is_utf8, is_utf8-ascii_lower}
use greplm.Fst.{Fst, FstFile, FstLaws, FstFileLaws}
use greplm.Segment.{Text, SymbolEntry}
use greplm.Segment.Files.{Postcard, PostcardLaw}
use greplm.Table.{EncodedTable, file_bytes, get_str, sym_magic}
use greplm.Table.Builder.{SymRow, SymTableBuilder, finish_syms}
use greplm.Table.Builder.Columns.{into_sections_hold, Encodes, Encodes-length, Encodes-get_elem?}
use greplm.Table.Builder.Finish.{finish_syms-eq-ok, build_name_fst-eq-ok}
use greplm.Table.Builder.Starts.{finish_starts_hold}
use greplm.Table.Builder.Syms.{
  DocSym, sym_row, symbol_name, symbol_lower, symbol_doc, untag, KindsHold, SymsHold,
}
use greplm.Table.Core.{
  TableCore, open_core, check_stride, section, sec_row_offsets, sec_doc_starts, sec_name_offsets,
  sec_name_bytes,
}
use greplm.Table.Core.Packed.{numbers, ends}
use greplm.Table.Core.Written.{written_core}
use greplm.Table.Reader.{
  sym_sections, sym_sec_lower_offsets, sym_sec_lower_bytes, sym_sec_fst, sym_sec_fst_rows,
  syms_named, sym_sec_kinds, SymTable, open_syms, get_sym, sym_name, sym_name_lower,
}
use greplm.Table.Reader.Named.{NamesMap, NamesMap-lookup, ids_named}
use greplm.Table.Reader.Shared.{
  HasRows, Small, row_bytes_written, str_at_written, row_offsets_framed, column_framed,
  doc_starts_framed, open_core_written, section_at,
}

-- the symbol that a row stands for
abbrev pub symbol_entry : DocSym → SymbolEntry
symbol_entry (d, s) = record {
  doc_id = d;
  name = s.name;
  kind = s.kind;
  line_start = s.line_start;
  line_end = s.line_end;
  container = s.container;
  signature = s.signature;
}

-- The id that a symbol was tagged with, and its kind.
KindsHold-get_elem? :
    (kinds : List Text) (tagged : List (ℕ × DocSym)) (i : ℕ) (x : DocSym)
    → KindsHold kinds tagged
    → get_elem? (map untag tagged) i ≡ some x
    → (id : ℕ) × (get_elem? tagged i ≡ some (id, x)) × (get_elem? kinds id ≡ some x.1.kind)
KindsHold-get_elem? kinds [] i x h at = absurd (cc at)
KindsHold-get_elem? kinds ((id, (d, s)) ∷ ts) zero x h at =
    let e : (d, s) ≡ x = some-injective _ _ at in
    (id, ap (λ y. some (id, y)) e, h.0 ∙ ap (λ y. some y.1.kind) e)
KindsHold-get_elem? kinds ((id, (d, s)) ∷ ts) (suc i) x h at =
    KindsHold-get_elem? kinds ts i x h.1 at

all-ascii_lower :
    (xs : List DocSym)
    → all is_utf8 (map symbol_name xs) ≡ true
    → all is_utf8 (map symbol_lower xs) ≡ true
all-ascii_lower [] h = h
all-ascii_lower ((d, s) ∷ xs) h = ground (arith, is_utf8-ascii_lower s.name, all-ascii_lower xs)

module _ (f : Fst) (file : FstFile f) (laws : FstFileLaws f file) (xxh3_64 : List ℕ → ℕ)
    (word : (bytes : List ℕ) → xxh3_64 bytes < 2 ^ 64) (codec : Postcard SymRow)
    (kinds_codec : Postcard (List Text)) where
  open_syms_parts :
      (mmap : List ℕ) (core : TableCore) (m : f.Map) (kinds : List Text)
      → open_core xxh3_64 mmap sym_magic sym_sections ≡ ok core
      → check_stride core sec_row_offsets 8 core.row_count ≡ ok tt
      → check_stride core sec_doc_starts 4 core.doc_count ≡ ok tt
      → check_stride core sec_name_offsets 8 core.row_count ≡ ok tt
      → check_stride core sym_sec_lower_offsets 8 core.row_count ≡ ok tt
      → section core sym_sec_fst ≡ file.into_inner m
      → kinds_codec.from_bytes (section core sym_sec_kinds) ≡ some kinds
      → open_syms f file xxh3_64 kinds_codec mmap
        ≡ ok record { core = core; names_fst = m; kinds = kinds }
  unfolding open_syms
  open_syms_parts mmap core m kinds opened rows docs names lowers index decoded = ok->>= _ opened (
      ok->>= _ rows (
        ok->>= _ docs (
          ok->>= _ names (
            ok->>= _ lowers (
              ok->>= _
                (ap (λ bs. ok_or (file.new bs) fst) index
                  ∙ ap (λ o. ok_or o fst) (laws.new-into_inner m))
                (ok->>= _ (ap (λ o. ok_or o postcard) decoded) refl))))))

  -- What a written table of symbols is read as.
  pub record Written (xs : List DocSym) (doc_count : ℕ) (t : EncodedTable) : Type 0 where
    pub parts : List (List ℕ)
    pub tagged : List (ℕ × DocSym)
    pub tagged_eq : map untag tagged ≡ xs
    pub encoded : Encodes codec (map sym_row tagged) parts
    pub names_fst : f.Map
    pub kinds : List Text
    pub kinds_hold : KindsHold kinds tagged
    pub has_rows : HasRows parts (map symbol_doc xs) (map symbol_name xs) doc_count t
    pub magic_eq : t.magic ≡ sym_magic
    pub ten : length t.sections ≡ 10
    pub lower_offsets_eq : get_or t.sections 5 [] ≡ numbers 8 (ends 0 (map symbol_lower xs))
    pub lower_bytes_eq : get_or t.sections 6 [] ≡ concat (map symbol_lower xs)
    pub fst_eq : get_or t.sections 7 [] ≡ file.into_inner names_fst
    pub names_map : NamesMap f (map symbol_lower xs) t.row_count names_fst (get_or t.sections 8 [])
    pub kinds_eq : kinds_codec.to_allocvec kinds ≡ some (get_or t.sections 9 [])

  pub finish_syms-Written :
      (xs : List DocSym) (b : SymTableBuilder) (doc_count : ℕ) (t : EncodedTable)
      → doc_count < 2 ^ 32
      → finish_syms f file kinds_codec b doc_count ≡ ok t
      → SymsHold codec xs b
      → Written xs doc_count t
  finish_syms-Written xs b doc_count t small finished h =
      let (doc_starts, index, kinds_bytes, starts, built, kinds_eq, e) =
        finish_syms-eq-ok f file kinds_codec b doc_count t finished in
      let (names_fst, made, index_eq) =
        build_name_fst-eq-ok f file b.rows (get_str b.lowers) index built in
      let columns = into_sections_hold (map symbol_name xs) b.names h.names_hold in
      let lowers = into_sections_hold (map symbol_lower xs) b.lowers h.lowers_hold in
      let counted : length (map sym_row h.tagged) ≡ length (map symbol_name xs) =
        length-map sym_row h.tagged
        ∙ sym (length-map untag h.tagged)
        ∙ ap length h.tagged_eq
        ∙ sym (length-map symbol_name xs) in
      subst (Written xs doc_count) e record {
        parts = h.rows_hold.parts;
        tagged = h.tagged;
        tagged_eq = h.tagged_eq;
        encoded = h.rows_hold.encoded;
        names_fst = names_fst;
        kinds = b.kinds;
        kinds_hold = h.kinds_hold;
        has_rows = record {
          magic_four = refl;
          row_count_eq = h.rows_eq ∙ sym (length-map symbol_name xs);
          doc_count_eq = omega arith;
          parts_eq = Encodes-length codec _ _ h.rows_hold.encoded ∙ counted;
          docs_eq = length-map symbol_doc xs ∙ sym (length-map symbol_name xs);
          row_offsets_eq = h.rows_hold.offsets_eq;
          rows_eq = h.rows_hold.row_bytes_eq;
          doc_starts_eq =
              finish_starts_hold (map symbol_doc xs) b.csr doc_count doc_starts starts h.csr_hold;
          name_offsets_eq = ap (λ c. c.0) columns;
          name_bytes_eq = ap (λ c. c.1) columns;
        };
        magic_eq = refl;
        ten = refl;
        lower_offsets_eq = ap (λ c. c.0) lowers;
        lower_bytes_eq = ap (λ c. c.1) lowers;
        fst_eq = sym (ap (λ c. c.0) index_eq);
        names_map = record {
          column = b.lowers;
          column_hold = h.lowers_hold;
          made = made;
          ids_eq = sym (ap (λ c. c.1) index_eq);
        };
        kinds_eq = kinds_eq;
      }

  pub Small-of :
      (xs : List DocSym) (doc_count : ℕ) (t : EncodedTable)
      → length xs < 2 ^ 32
      → doc_count < 2 ^ 32
      → length (file_bytes xxh3_64 t) < 2 ^ 64
      → Small xxh3_64 (length (map symbol_name xs)) doc_count t
  Small-of xs doc_count t many docs size = record {
    rows_small = rw (length-map symbol_name xs) many;
    docs_small = docs;
    file_small = size;
  }

  module _ {xs : List DocSym} {doc_count : ℕ} {t : EncodedTable} (w : Written xs doc_count t)
      (small : Small xxh3_64 (length (map symbol_name xs)) doc_count t) where
    abbrev pub opened : SymTable f
    opened = record { core = written_core xxh3_64 t; names_fst = w.names_fst; kinds = w.kinds }

    pub sym_name_written :
        all is_utf8 (map symbol_name xs) ≡ true
        → (i : ℕ) (x : DocSym) → get_elem? xs i ≡ some x
        → sym_name {f = f} opened i ≡ symbol_name x
    unfolding sym_name
    sym_name_written names i x at =
        let inside : i < length (map symbol_name xs) =
          omega (arith, get_elem?-lt-length xs i x at, length-map symbol_name xs) in
        str_at_written xxh3_64 w.has_rows small sec_name_offsets sec_name_bytes i
          (map symbol_name xs) w.has_rows.name_offsets_eq w.has_rows.name_bytes_eq names inside
        ∙ get_or-map symbol_name xs i x [] at

    pub sym_name_lower_written :
        all is_utf8 (map symbol_name xs) ≡ true
        → (i : ℕ) (x : DocSym) → get_elem? xs i ≡ some x
        → sym_name_lower {f = f} opened i ≡ symbol_lower x
    unfolding sym_name_lower
    sym_name_lower_written names i x at =
        let inside : i < length (map symbol_lower xs) =
          omega (arith, get_elem?-lt-length xs i x at, length-map symbol_lower xs) in
        str_at_written xxh3_64 w.has_rows small sym_sec_lower_offsets sym_sec_lower_bytes i
          (map symbol_lower xs) w.lower_offsets_eq w.lower_bytes_eq (all-ascii_lower xs names)
          inside
        ∙ get_or-map symbol_lower xs i x [] at

    pub get_sym_written :
        PostcardLaw codec
        → all is_utf8 (map symbol_name xs) ≡ true
        → (i : ℕ) (x : DocSym) → get_elem? xs i ≡ some x
        → get_sym {f = f} opened codec i ≡ some (symbol_entry x)
    unfolding get_sym
    get_sym_written law names i x at =
        let inside : i < length (map symbol_name xs) =
          omega (arith, get_elem?-lt-length xs i x at, length-map symbol_name xs) in
        let (id, place, kind) =
          KindsHold-get_elem? w.kinds w.tagged i x w.kinds_hold
            (ap (λ ys. get_elem? ys i) w.tagged_eq ∙ at) in
        let decoded = law (sym_row (id, x)) (get_or w.parts i []) (
          Encodes-get_elem? codec (map sym_row w.tagged) w.parts i (sym_row (id, x)) w.encoded
            (get_elem?-map sym_row w.tagged i (id, x) place)) in
        some->>= _ (row_bytes_written xxh3_64 w.has_rows small i inside)
          (some->>= _ decoded (rw (sym_name_written names i x at, kind) refl))

    pub opens :
        PostcardLaw kinds_codec
        → open_syms f file xxh3_64 kinds_codec (file_bytes xxh3_64 t) ≡ ok opened
    unfolding written_core
    opens law =
        let h = w.has_rows in
        open_syms_parts (file_bytes xxh3_64 t) opened.core w.names_fst w.kinds
          (open_core_written xxh3_64 h small word sym_magic sym_sections w.magic_eq w.ten)
          (row_offsets_framed xxh3_64 h small) (doc_starts_framed xxh3_64 h small)
          (column_framed xxh3_64 h small sec_name_offsets (map symbol_name xs) h.name_offsets_eq
            refl)
          (column_framed xxh3_64 h small sym_sec_lower_offsets (map symbol_lower xs)
            w.lower_offsets_eq (length-map symbol_lower xs ∙ sym (length-map symbol_name xs)))
          (section_at xxh3_64 h small sym_sec_fst _ w.fst_eq)
          (law w.kinds _
            (w.kinds_eq ∙ ap some (sym (section_at xxh3_64 h small sym_sec_kinds _ refl))))

    pub syms_named_written :
        (laws : FstLaws f) (names : all is_utf8 (map symbol_name xs) ≡ true) (lower : Text)
        → syms_named {f = f} opened lower ≡ ids_named (map symbol_lower xs) lower
    unfolding syms_named
    syms_named_written laws names lower =
        let h = w.has_rows in
        let count = h.row_count_eq ∙ length-map symbol_name xs ∙ sym (length-map symbol_lower xs) in
        NamesMap-lookup f file laws (map symbol_lower xs) t.row_count w.names_fst
          (get_or t.sections 8 []) opened.core sym_sec_fst_rows lower w.names_map count
          (rw h.row_count_eq small.rows_small) (all-ascii_lower xs names)
          (section_at xxh3_64 h small sym_sec_fst_rows _ refl)
