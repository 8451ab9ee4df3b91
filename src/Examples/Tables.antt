-- ===== src/Examples/Tables.antt =====
-- The theorems on written and reopened side tables at concrete symbols and references.
use greplm.Common.{
  ℕ, ◌+◌, ◌*◌, ◌%◌, ◌^◌, ◌<◌, ◌≡◌, refl, true, none, some, List, [], ◌∷◌, map, arith, length, all,
  concat, range_from,
}
use greplm.Common.Result.{Result, ok, err}
use greplm.Common.Utf8.{is_utf8, to_ascii_lowercase}
use greplm.Segment.{Text, call, import, RawSymbol}
use greplm.Table.{EncodedTable, file_bytes, ref_magic, build_name_fst}
use greplm.Table.Builder.{
  RefTableBuilder, SymTableBuilder, new_refs, new_syms, finish_refs, finish_syms,
}
use greplm.Table.Builder.Refs.{DocRef, ref_name, ref_doc, push_refs}
use greplm.Table.Builder.Syms.{DocSym, symbol_name, symbol_lower, symbol_doc, push_syms}
use greplm.Table.Builder.Starts.{below}
use greplm.Table.Core.{doc_range, parse_header}
use greplm.Table.Core.Header.{frames_from, parse_header-file_bytes}
use greplm.Table.Core.Inside.{FramesInside, parse_header-FramesInside}
use greplm.Table.Reader.{
  RefTable, SymTable, open_refs, open_syms, get_ref, get_sym, refs_named, syms_named, sym_name,
  sym_name_lower,
}
use greplm.Table.Reader.Named.{build_name_fst-total}
use greplm.Table.Reader.Refs.{ref_entry, open_refs-finish_refs, refs_named-finish_refs}
use greplm.Table.Reader.Syms.Written.{symbol_entry}
use greplm.Table.Reader.Syms.{open_syms-finish_syms, syms_named-finish_syms}
use greplm.Examples.Candidates.{entry_lists, entry_lists-FstLaws}
use greplm.Examples.Codecs.{
  toy_hash, toy_hash-lt, packed_file, packed_file-FstFileLaws, refs_codec, refs_codec-PostcardLaw,
  syms_codec, syms_codec-PostcardLaw, kinds_codec, kinds_codec-PostcardLaw,
}

-- Three calls: of `run` in document 0, and of `get` and `run` in document 2.
abbrev references : List DocRef
references =
    (0, record { name = b'r' ∷ b'u' ∷ b'n' ∷ []; kind = call; line = 3; column = 5 })
    ∷ (2, record { name = b'g' ∷ b'e' ∷ b't' ∷ []; kind = call; line = 1; column = 1 })
    ∷ (2, record { name = b'r' ∷ b'u' ∷ b'n' ∷ []; kind = import; line = 9; column = 2 })
    ∷ []

abbrev no_table : EncodedTable
no_table = record { magic = []; row_count = 0; doc_count = 0; sections = [] }

abbrev refs_or : Result RefTableBuilder → RefTableBuilder
refs_or (ok b) = b
refs_or (err e) = new_refs

abbrev table_or : Result EncodedTable → EncodedTable
table_or (ok t) = t
table_or (err e) = no_table

ref_builder : RefTableBuilder
unfolding push_refs
ref_builder = refs_or (push_refs refs_codec new_refs references)

ref_builder_pushed : push_refs refs_codec new_refs references ≡ ok ref_builder
unfolding push_refs ref_builder
ref_builder_pushed = refl

ref_table : EncodedTable
unfolding finish_refs ref_builder
ref_table = table_or (finish_refs entry_lists packed_file ref_builder 3)

ref_table_finished : finish_refs entry_lists packed_file ref_builder 3 ≡ ok ref_table
unfolding finish_refs ref_builder ref_table
ref_table_finished = refl

ref_table_small : length (file_bytes toy_hash ref_table) < 2 ^ 64
unfolding file_bytes ref_table finish_refs ref_builder is_utf8
ref_table_small = omega arith

references_are_utf8 : all is_utf8 (map ref_name references) ≡ true
unfolding is_utf8
references_are_utf8 = refl

open_refs-finish_refs_example :
    (table : RefTable entry_lists) × (open_refs entry_lists packed_file toy_hash
        (file_bytes toy_hash ref_table)
      ≡ ok table)
    × (map (get_ref table refs_codec) (range_from 3 0) ≡ map (λ x. some (ref_entry x)) references)
    × (map (doc_range table.core) (range_from 3 0)
        ≡ map
            (λ d. (below d (map ref_doc references), below (d + 1) (map ref_doc references)))
            (range_from 3 0))
open_refs-finish_refs_example =
    open_refs-finish_refs entry_lists packed_file packed_file-FstFileLaws toy_hash toy_hash-lt
      refs_codec refs_codec-PostcardLaw references ref_builder 3 ref_table (omega arith)
      (omega arith) ref_table_small references_are_utf8 ref_builder_pushed ref_table_finished

refs_named-finish_refs_example :
    (table : RefTable entry_lists) × (open_refs entry_lists packed_file toy_hash
        (file_bytes toy_hash ref_table)
      ≡ ok table)
    × (refs_named table (b'r' ∷ b'u' ∷ b'n' ∷ []) ≡ 0 ∷ 2 ∷ [])
refs_named-finish_refs_example =
    refs_named-finish_refs entry_lists packed_file packed_file-FstFileLaws toy_hash toy_hash-lt
      refs_codec entry_lists-FstLaws references ref_builder 3 ref_table (b'r' ∷ b'u' ∷ b'n' ∷ [])
      (omega arith) (omega arith) ref_table_small references_are_utf8 ref_builder_pushed
      ref_table_finished

-- `Run` and `get`, a function and a method.
abbrev symbol_of : Text → Text → RawSymbol
symbol_of name kind = record {
  name = name;
  kind = kind;
  line_start = 1;
  line_end = 4;
  container = none;
  signature = none;
}

abbrev symbols : List DocSym
symbols =
    (0, symbol_of (b'R' ∷ b'u' ∷ b'n' ∷ []) (b'f' ∷ b'n' ∷ []))
    ∷ (1, symbol_of (b'g' ∷ b'e' ∷ b't' ∷ []) (b'm' ∷ []))
    ∷ (1, symbol_of (b'r' ∷ b'u' ∷ b'n' ∷ []) (b'f' ∷ b'n' ∷ []))
    ∷ []

abbrev syms_or : Result SymTableBuilder → SymTableBuilder
syms_or (ok b) = b
syms_or (err e) = new_syms

sym_builder : SymTableBuilder
unfolding push_syms
sym_builder = syms_or (push_syms syms_codec new_syms symbols)

sym_builder_pushed : push_syms syms_codec new_syms symbols ≡ ok sym_builder
unfolding push_syms sym_builder
sym_builder_pushed = refl

sym_table : EncodedTable
unfolding finish_syms sym_builder
sym_table = table_or (finish_syms entry_lists packed_file kinds_codec sym_builder 2)

sym_table_finished : finish_syms entry_lists packed_file kinds_codec sym_builder 2 ≡ ok sym_table
unfolding finish_syms sym_builder sym_table
sym_table_finished = refl

sym_table_small : length (file_bytes toy_hash sym_table) < 2 ^ 64
unfolding file_bytes sym_table finish_syms sym_builder is_utf8 to_ascii_lowercase
sym_table_small = omega arith

symbols_are_utf8 : all is_utf8 (map symbol_name symbols) ≡ true
unfolding is_utf8
symbols_are_utf8 = refl

open_syms-finish_syms_example :
    (table : SymTable entry_lists) × (open_syms entry_lists packed_file toy_hash kinds_codec
        (file_bytes toy_hash sym_table)
      ≡ ok table)
    × (map (get_sym table syms_codec) (range_from 3 0) ≡ map (λ x. some (symbol_entry x)) symbols)
    × (map (sym_name table) (range_from 3 0) ≡ map symbol_name symbols)
    × (map (sym_name_lower table) (range_from 3 0) ≡ map symbol_lower symbols)
    × (map (doc_range table.core) (range_from 2 0)
        ≡ map
            (λ d. (below d (map symbol_doc symbols), below (d + 1) (map symbol_doc symbols)))
            (range_from 2 0))
open_syms-finish_syms_example =
    open_syms-finish_syms entry_lists packed_file packed_file-FstFileLaws toy_hash toy_hash-lt
      syms_codec kinds_codec syms_codec-PostcardLaw kinds_codec-PostcardLaw symbols sym_builder 2
      sym_table (omega arith) (omega arith) sym_table_small symbols_are_utf8 sym_builder_pushed
      sym_table_finished

syms_named-finish_syms_example :
    (table : SymTable entry_lists) × (open_syms entry_lists packed_file toy_hash kinds_codec
        (file_bytes toy_hash sym_table)
      ≡ ok table)
    × (syms_named table (b'r' ∷ b'u' ∷ b'n' ∷ []) ≡ 0 ∷ 2 ∷ [])
unfolding to_ascii_lowercase
syms_named-finish_syms_example =
    syms_named-finish_syms entry_lists packed_file packed_file-FstFileLaws toy_hash toy_hash-lt
      syms_codec kinds_codec entry_lists-FstLaws kinds_codec-PostcardLaw symbols sym_builder 2
      sym_table (b'r' ∷ b'u' ∷ b'n' ∷ []) (omega arith) (omega arith) sym_table_small
      symbols_are_utf8 sym_builder_pushed sym_table_finished

build_name_fst-total_example :
    (index : List ℕ × List ℕ) × (build_name_fst entry_lists packed_file 3 (λ i. i % 2 ∷ [])
      ≡ ok index)
build_name_fst-total_example =
    build_name_fst-total entry_lists packed_file entry_lists-FstLaws 3 (λ i. i % 2 ∷ [])

-- A table with two sections.
abbrev two_sections : EncodedTable
two_sections = record {
  magic = ref_magic;
  row_count = 1;
  doc_count = 2;
  sections = (7 ∷ []) ∷ (8 ∷ 9 ∷ []) ∷ [];
}

two_sections_small :
    12 + length two_sections.sections * 24 + length (concat two_sections.sections) < 2 ^ 64
two_sections_small = omega arith

parse_header-file_bytes_example :
    parse_header toy_hash (file_bytes toy_hash two_sections) ref_magic 2
    ≡ ok (1, 2, frames_from 60 two_sections.sections)
parse_header-file_bytes_example =
    parse_header-file_bytes toy_hash toy_hash-lt two_sections refl (omega arith) (omega arith)
      two_sections_small

parse_header-FramesInside_example :
    (length (frames_from 60 two_sections.sections) ≡ 2)
    × FramesInside
        (length (file_bytes toy_hash two_sections))
        (frames_from 60 two_sections.sections)
parse_header-FramesInside_example =
    parse_header-FramesInside toy_hash (file_bytes toy_hash two_sections) ref_magic 2 1 2
      (frames_from 60 two_sections.sections)
      (parse_header-file_bytes toy_hash toy_hash-lt two_sections refl (omega arith) (omega arith)
        two_sections_small)
