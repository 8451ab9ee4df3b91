-- ===== src/Table/Reader/Syms.antt =====
-- `SymTable` of crates/greplm-core/src/table.rs over the bytes that `SymTableBuilder` finishes.
pub mod Written
use greplm.Common.{
  ℕ, zero, suc, ◌+◌, ◌^◌, ◌<◌, ◌≡◌, refl, sym, ap, subst, ◌∙◌, true, some, List, [], ◌∷◌, map,
  arith, length, length-map, concat, get_or, get_elem?, range_from, all,
}
use mathlib.Core.Option.{some-injective}
use greplm.Common.Options.{some->>=}
use greplm.Common.Positions.{get_elem?-lt-length, get_elem?-map, get_or-map, map-range_from}
use greplm.Common.Result.{ok, fst, postcard, ok_or, ok->>=}
use greplm.Common.Utf8.{is_utf8, is_utf8-ascii_lower}
use greplm.Fst.{Fst, FstFile, FstLaws, FstFileLaws}
use greplm.Segment.{Text, SymbolEntry}
use greplm.Segment.Files.{Postcard, PostcardLaw}
use greplm.Table.{EncodedTable, file_bytes, get_str, sym_magic}
use greplm.Table.Builder.{SymRow, SymTableBuilder, new_syms, finish_syms}
use greplm.Table.Builder.Columns.{into_sections_hold, Encodes, Encodes-length, Encodes-get_elem?}
use greplm.Table.Builder.Finish.{finish_syms-eq-ok, build_name_fst-eq-ok}
use greplm.Table.Builder.Starts.{finish_starts_hold, below}
use greplm.Table.Builder.Syms.{
  DocSym, sym_row, symbol_name, symbol_lower, symbol_doc, untag, KindsHold, push_syms, SymsHold,
  new_syms_hold, push_syms_hold,
}
use greplm.Table.Core.{
  TableCore, open_core, check_stride, section, doc_range, sec_row_offsets, sec_doc_starts,
  sec_name_offsets, sec_name_bytes,
}
use greplm.Table.Core.Packed.{numbers, ends}
use greplm.Table.Core.Written.{written_core}
use greplm.Table.Reader.{
  sym_sections, sym_sec_lower_offsets, sym_sec_lower_bytes, sym_sec_fst, sym_sec_fst_rows,
  syms_named, sym_sec_kinds, SymTable, open_syms, get_sym, sym_name, sym_name_lower,
}
use greplm.Table.Reader.Named.{NamesMap, NamesMap-lookup, ids_named}
use greplm.Table.Reader.Shared.{
  HasRows, Small, row_bytes_written, str_at_written, row_offsets_framed, column_framed,
  doc_starts_framed, doc_ranges_written, open_core_written, section_at,
}
use greplm.Table.Reader.Syms.Written.{
  symbol_entry, finish_syms-Written, Small-of, opened, opens, get_sym_written, sym_name_written,
  sym_name_lower_written, syms_named_written,
}

module _ (f : Fst) (file : FstFile f) (laws : FstFileLaws f file) (xxh3_64 : List ℕ → ℕ)
    (word : (bytes : List ℕ) → xxh3_64 bytes < 2 ^ 64) (codec : Postcard SymRow)
    (kinds_codec : Postcard (List Text)) where
  -- The file of a finished table is opened, for the same number of documents.
  pub open_syms-file_bytes :
      PostcardLaw kinds_codec
      → (xs : List DocSym) (b : SymTableBuilder) (doc_count : ℕ) (t : EncodedTable)
      → length xs < 2 ^ 32
      → doc_count < 2 ^ 32
      → length (file_bytes xxh3_64 t) < 2 ^ 64
      → SymsHold codec xs b
      → finish_syms f file kinds_codec b doc_count ≡ ok t
      → (table : SymTable f) × (open_syms f file xxh3_64 kinds_codec (file_bytes xxh3_64 t)
          ≡ ok table)
        × (table.core.doc_count ≡ doc_count)
  unfolding written_core
  open_syms-file_bytes law xs b doc_count t many docs size held finished =
      let w =
        finish_syms-Written f file laws xxh3_64 word codec kinds_codec xs b doc_count t docs
          finished held in
      let small =
        Small-of f file laws xxh3_64 word codec kinds_codec xs doc_count t many docs size in
      (
        opened f file laws xxh3_64 word codec kinds_codec w small,
        opens f file laws xxh3_64 word codec kinds_codec w small law,
        w.has_rows.doc_count_eq,
      )

  -- Symbols that are pushed one after the other, finished, written to a file and opened again are the
  -- rows of the table, in their order and with their kinds, as are their names and their names in
  -- lower case, and the range of a document's rows is the range of the symbols of that document: from
  -- the number of symbols of earlier documents to the number of those of documents up to it. The
  -- names are UTF-8, the counts have 32 bits and the file's length 64. The encoders of rows and kinds
  -- decode what they encoded, an fst map is read back from its bytes, and a hash has 64 bits.
  pub open_syms-finish_syms :
      PostcardLaw codec
      → PostcardLaw kinds_codec
      → (xs : List DocSym) (b : SymTableBuilder) (doc_count : ℕ) (t : EncodedTable)
      → length xs < 2 ^ 32
      → doc_count < 2 ^ 32
      → length (file_bytes xxh3_64 t) < 2 ^ 64
      → all is_utf8 (map symbol_name xs) ≡ true
      → push_syms codec new_syms xs ≡ ok b
      → finish_syms f file kinds_codec b doc_count ≡ ok t
      → (table : SymTable f) × (open_syms f file xxh3_64 kinds_codec (file_bytes xxh3_64 t)
          ≡ ok table)
        × (map (get_sym table codec) (range_from (length xs) 0)
            ≡ map (λ x. some (symbol_entry x)) xs)
        × (map (sym_name table) (range_from (length xs) 0) ≡ map symbol_name xs)
        × (map (sym_name_lower table) (range_from (length xs) 0) ≡ map symbol_lower xs)
        × (map (doc_range table.core) (range_from doc_count 0)
            ≡ map
                (λ d. (below d (map symbol_doc xs), below (d + 1) (map symbol_doc xs)))
                (range_from doc_count 0))
  open_syms-finish_syms law kinds_law xs b doc_count t many docs size names pushed finished =
      let held = push_syms_hold codec xs [] new_syms b (omega arith) pushed (new_syms_hold codec) in
      let w =
        finish_syms-Written f file laws xxh3_64 word codec kinds_codec xs b doc_count t docs
          finished held in
      let small =
        Small-of f file laws xxh3_64 word codec kinds_codec xs doc_count t many docs size in
      let table = opened f file laws xxh3_64 word codec kinds_codec w small in
      let at0 : (i : ℕ) → 0 + i ≡ i = λ i. omega arith in
      (
        table,
        opens f file laws xxh3_64 word codec kinds_codec w small kinds_law,
        map-range_from (get_sym table codec) (λ x. some (symbol_entry x)) 0 xs
            (λ i x at.
              ap (get_sym table codec) (at0 i)
              ∙ get_sym_written f file laws xxh3_64 word codec kinds_codec w small law names i x
                  at),
        map-range_from (sym_name table) symbol_name 0 xs (λ i x at.
            ap (sym_name table) (at0 i)
            ∙ sym_name_written f file laws xxh3_64 word codec kinds_codec w small names i x at),
        map-range_from (sym_name_lower table) symbol_lower 0 xs (λ i x at.
            ap (sym_name_lower table) (at0 i)
            ∙ sym_name_lower_written f file laws xxh3_64 word codec kinds_codec w small names i x
                at),
        doc_ranges_written xxh3_64 w.has_rows small,
      )

  -- In the table that symbols were pushed to, and that was finished, written and opened again, a name
  -- is looked up to the ids of the symbols whose name, with its ASCII letters in lower case, it is,
  -- each once and in ascending order; any other name, to none. The names are UTF-8, the counts have 32
  -- bits and the file's length 64. The encoder of kinds decodes what it encoded, an fst map takes keys
  -- in ascending order and finds them, and is read back from its bytes, and a hash has 64 bits.
  pub syms_named-finish_syms :
      FstLaws f
      → PostcardLaw kinds_codec
      → (xs : List DocSym) (b : SymTableBuilder) (doc_count : ℕ) (t : EncodedTable) (lower : Text)
      → length xs < 2 ^ 32
      → doc_count < 2 ^ 32
      → length (file_bytes xxh3_64 t) < 2 ^ 64
      → all is_utf8 (map symbol_name xs) ≡ true
      → push_syms codec new_syms xs ≡ ok b
      → finish_syms f file kinds_codec b doc_count ≡ ok t
      → (table : SymTable f) × (open_syms f file xxh3_64 kinds_codec (file_bytes xxh3_64 t)
          ≡ ok table)
        × (syms_named table lower ≡ ids_named (map symbol_lower xs) lower)
  syms_named-finish_syms fst_laws kinds_law xs b doc_count t lower many docs size names pushed
        finished =
      let held = push_syms_hold codec xs [] new_syms b (omega arith) pushed (new_syms_hold codec) in
      let w =
        finish_syms-Written f file laws xxh3_64 word codec kinds_codec xs b doc_count t docs
          finished held in
      let small =
        Small-of f file laws xxh3_64 word codec kinds_codec xs doc_count t many docs size in
      (
        opened f file laws xxh3_64 word codec kinds_codec w small,
        opens f file laws xxh3_64 word codec kinds_codec w small kinds_law,
        syms_named_written f file laws xxh3_64 word codec kinds_codec w small fst_laws names lower,
      )
