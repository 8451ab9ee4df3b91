-- ===== src/Table/Reader.antt =====
-- crates/greplm-core/src/table.rs: the read-only symbol table and reference table.
pub mod Shared
pub mod Named
pub mod Refs
pub mod Syms
use greplm.Common.{
  ℕ, ◌+◌, ◌-◌, Bool, Option, none, some, List, [], ◌∷◌, map, if◌then◌else◌, get_elem?, range_from,
}
use greplm.Common.Options.{◌>>=◌ as ◌>>=?◌, unwrap_or}
use greplm.Common.Result.{Result, ok, err, fst, postcard, ok_or, ◌>>=◌}
use greplm.Fst.{Fst, FstFile}
use greplm.Segment.{Text, SymbolEntry, RefEntry}
use greplm.Segment.Files.{Postcard}
use greplm.Table.{sym_magic, ref_magic}
use greplm.Table.Builder.{SymRow, RefRow}
use greplm.Table.Core.{
  TableCore, open_core, check_stride, section, row_bytes, str_at, doc_range, fst_row_ids,
  sec_row_offsets, sec_doc_starts, sec_name_offsets, sec_name_bytes,
}

abbrev pub sym_sec_lower_offsets : ℕ
sym_sec_lower_offsets = 5

abbrev pub sym_sec_lower_bytes : ℕ
sym_sec_lower_bytes = 6

abbrev pub sym_sec_fst : ℕ
sym_sec_fst = 7

abbrev pub sym_sec_fst_rows : ℕ
sym_sec_fst_rows = 8

abbrev pub sym_sec_kinds : ℕ
sym_sec_kinds = 9

abbrev pub sym_sections : ℕ
sym_sections = 10

abbrev pub ref_sec_fst : ℕ
ref_sec_fst = 5

abbrev pub ref_sec_fst_rows : ℕ
ref_sec_fst_rows = 6

abbrev pub ref_sections : ℕ
ref_sections = 7

pub record SymTable (f : Fst) : Type 0 where
  pub core : TableCore
  pub names_fst : f.Map
  pub kinds : List Text

pub record RefTable (f : Fst) : Type 0 where
  pub core : TableCore
  pub names_fst : f.Map

module _ (f : Fst) (file : FstFile f) (xxh3_64 : List ℕ → ℕ) where
  unfoldable pub open_syms : Postcard (List Text) → List ℕ → Result (SymTable f)
  unfolding open_core check_stride section
  open_syms kinds_codec mmap = do
    core ← open_core xxh3_64 mmap sym_magic sym_sections
    rows_framed ← check_stride core sec_row_offsets 8 core.row_count
    docs_framed ← check_stride core sec_doc_starts 4 core.doc_count
    names_framed ← check_stride core sec_name_offsets 8 core.row_count
    lowers_framed ← check_stride core sym_sec_lower_offsets 8 core.row_count
    names_fst ← ok_or (file.new (section core sym_sec_fst)) fst
    kinds ← ok_or (kinds_codec.from_bytes (section core sym_sec_kinds)) postcard
    ok record { core = core; names_fst = names_fst; kinds = kinds }

  unfoldable pub open_refs : List ℕ → Result (RefTable f)
  unfolding open_core check_stride section
  open_refs mmap = do
    core ← open_core xxh3_64 mmap ref_magic ref_sections
    rows_framed ← check_stride core sec_row_offsets 8 core.row_count
    docs_framed ← check_stride core sec_doc_starts 4 core.doc_count
    names_framed ← check_stride core sec_name_offsets 8 core.row_count
    names_fst ← ok_or (file.new (section core ref_sec_fst)) fst
    ok record { core = core; names_fst = names_fst }

module _ {f : Fst} (t : SymTable f) where
  unfoldable pub sym_name : ℕ → Text
  unfolding str_at
  sym_name i = str_at t.core sec_name_offsets sec_name_bytes i

  unfoldable pub sym_name_lower : ℕ → Text
  unfolding str_at
  sym_name_lower i = str_at t.core sym_sec_lower_offsets sym_sec_lower_bytes i

  unfoldable pub get_sym : Postcard SymRow → ℕ → Option SymbolEntry
  unfolding row_bytes sym_name
  get_sym rows_codec i = row_bytes t.core i >>=? λ bytes. rows_codec.from_bytes bytes >>=? λ row.
      some record {
        doc_id = row.doc_id;
        name = sym_name i;
        kind = unwrap_or (get_elem? t.kinds row.kind_id) [];
        line_start = row.line_start;
        line_end = row.line_end;
        container = row.container;
        signature = row.signature;
      }

  unfoldable pub sym_names : List (ℕ × Text × Text)
  unfolding sym_name sym_name_lower
  sym_names = map (λ i. (i, sym_name i, sym_name_lower i)) (range_from t.core.row_count 0)

  unfoldable pub syms_named : Text → List ℕ
  unfolding fst_row_ids
  syms_named lower = elim (f.get t.names_fst lower) [
    | none ↦ []
    | some v ↦ fst_row_ids t.core sym_sec_fst_rows v
  ]

module _ {f : Fst} (t : RefTable f) where
  unfoldable pub get_ref : Postcard RefRow → ℕ → Option RefEntry
  unfolding row_bytes str_at
  get_ref refs_codec i = row_bytes t.core i >>=? λ bytes. refs_codec.from_bytes bytes >>=? λ row.
      some record {
        doc_id = row.doc_id;
        name = str_at t.core sec_name_offsets sec_name_bytes i;
        kind = row.kind;
        line = row.line;
        column = row.column;
      }

  unfoldable pub refs_named : Text → List ℕ
  unfolding fst_row_ids
  refs_named name = elim (f.get t.names_fst name) [
    | none ↦ []
    | some v ↦ fst_row_ids t.core ref_sec_fst_rows v
  ]
