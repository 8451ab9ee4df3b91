-- ===== src/Table/Builder.antt =====
-- crates/greplm-core/src/table.rs: the builders of the symbol table and of the reference table. The
-- encoder of rows is the crate postcard, a parameter.
pub mod Columns
pub mod Finish
pub mod Kinds
pub mod Order
pub mod Entries
pub mod Names
pub mod Refs
pub mod Syms
pub mod Starts
use greplm.Common.{
  ℕ, ◌+◌, ◌%◌, ◌^◌, Bool, Option, none, some, List, [], ◌∷◌, ◌++◌, if◌then◌else◌, length,
}
use greplm.Common.Result.{Result, ok, err, other, postcard, ok_or, ◌>>=◌}
use greplm.Fst.{Fst, FstFile, bytes_eq}
use greplm.Segment.{Text, RefKind}
use greplm.Segment.Files.{Postcard, to_le_bytes}
use greplm.Table.{
  EncodedTable, StrColBuilder, empty_column, push_str, push_ascii_lower, get_str, into_sections,
  DocStartsBuilder, new_starts, push_doc, finish_starts, build_name_fst, sym_magic, ref_magic,
}

pub record SymRow : Type 0 where
  pub doc_id : ℕ
  pub kind_id : ℕ
  pub line_start : ℕ
  pub line_end : ℕ
  pub container : Option Text
  pub signature : Option Text

pub record RefRow : Type 0 where
  pub doc_id : ℕ
  pub kind : RefKind
  pub line : ℕ
  pub column : ℕ

-- `kind_ids` maps every kind to its first index in `kinds`, and is not kept beside it.
pub record SymTableBuilder : Type 0 where
  pub row_offsets : List ℕ
  pub row_bytes : List ℕ
  pub csr : DocStartsBuilder
  pub names : StrColBuilder
  pub lowers : StrColBuilder
  pub kinds : List Text
  pub rows : ℕ

pub record RefTableBuilder : Type 0 where
  pub row_offsets : List ℕ
  pub row_bytes : List ℕ
  pub csr : DocStartsBuilder
  pub names : StrColBuilder
  pub rows : ℕ

abbrev pub new_syms : SymTableBuilder
new_syms = record {
  row_offsets = 0 ∷ 0 ∷ 0 ∷ 0 ∷ 0 ∷ 0 ∷ 0 ∷ 0 ∷ [];
  row_bytes = [];
  csr = new_starts;
  names = empty_column;
  lowers = empty_column;
  kinds = [];
  rows = 0;
}

abbrev pub new_refs : RefTableBuilder
new_refs = record {
  row_offsets = 0 ∷ 0 ∷ 0 ∷ 0 ∷ 0 ∷ 0 ∷ 0 ∷ 0 ∷ [];
  row_bytes = [];
  csr = new_starts;
  names = empty_column;
  rows = 0;
}

-- `kind_ids.get(kind)`
unfoldable pub find_kind : ℕ → Text → List Text → Option ℕ
find_kind i kind [] = none
find_kind i kind (k ∷ ks) = if bytes_eq kind k then some i else find_kind (i + 1) kind ks

-- the kind's id and the kinds, with the kind added if it is new
unfoldable pub intern : List Text → Text → ℕ × List Text
unfolding find_kind
intern kinds kind = elim (find_kind 0 kind kinds) [
  | some id ↦ (id, kinds)
  | none ↦ (length kinds % 2 ^ 32, kinds ++ kind ∷ [])
]

module _ (rows_codec : Postcard SymRow) where
  unfoldable pub push_sym :
      SymTableBuilder → ℕ → Text → Text → ℕ → ℕ → Option Text → Option Text → Result SymTableBuilder
  unfolding push_doc intern to_le_bytes push_str push_ascii_lower
  push_sym b doc_id name kind line_start line_end container signature =
      let (kind_id, kinds) = intern b.kinds kind in
      (do
        csr ← push_doc b.csr doc_id
        encoded ←
            ok_or
              (rows_codec.to_allocvec record {
                doc_id = doc_id;
                kind_id = kind_id;
                line_start = line_start;
                line_end = line_end;
                container = container;
                signature = signature;
              })
              postcard
        ok record {
          row_offsets = b.row_offsets ++ to_le_bytes 8 (length (b.row_bytes ++ encoded));
          row_bytes = b.row_bytes ++ encoded;
          csr = csr;
          names = push_str b.names name;
          lowers = push_ascii_lower b.lowers name;
          kinds = kinds;
          rows = (b.rows + 1) % 2 ^ 32;
        })

module _ (refs_codec : Postcard RefRow) where
  unfoldable pub push_ref : RefTableBuilder → ℕ → Text → RefKind → ℕ → ℕ → Result RefTableBuilder
  unfolding push_doc to_le_bytes push_str
  push_ref b doc_id name kind line column = do
    csr ← push_doc b.csr doc_id
    encoded ←
        ok_or
          (refs_codec.to_allocvec
            record { doc_id = doc_id; kind = kind; line = line; column = column })
          postcard
    ok record {
      row_offsets = b.row_offsets ++ to_le_bytes 8 (length (b.row_bytes ++ encoded));
      row_bytes = b.row_bytes ++ encoded;
      csr = csr;
      names = push_str b.names name;
      rows = (b.rows + 1) % 2 ^ 32;
    }

module _ (f : Fst) (file : FstFile f) where
  unfoldable pub finish_syms : Postcard (List Text) → SymTableBuilder → ℕ → Result EncodedTable
  unfolding finish_starts build_name_fst get_str into_sections
  finish_syms kinds_codec b doc_count = do
    doc_starts ← finish_starts b.csr doc_count
    index ← build_name_fst f file b.rows (get_str b.lowers)
    kinds_bytes ← ok_or (kinds_codec.to_allocvec b.kinds) postcard
    ok record {
      magic = sym_magic;
      row_count = b.rows;
      doc_count = doc_count % 2 ^ 32;
      sections =
          b.row_offsets
          ∷ b.row_bytes
          ∷ doc_starts
          ∷ (into_sections b.names).0
          ∷ (into_sections b.names).1
          ∷ (into_sections b.lowers).0
          ∷ (into_sections b.lowers).1
          ∷ index.0
          ∷ index.1
          ∷ kinds_bytes
          ∷ [];
    }

  unfoldable pub finish_refs : RefTableBuilder → ℕ → Result EncodedTable
  unfolding finish_starts build_name_fst get_str into_sections
  finish_refs b doc_count = do
    doc_starts ← finish_starts b.csr doc_count
    index ← build_name_fst f file b.rows (get_str b.names)
    ok record {
      magic = ref_magic;
      row_count = b.rows;
      doc_count = doc_count % 2 ^ 32;
      sections =
          b.row_offsets
          ∷ b.row_bytes
          ∷ doc_starts
          ∷ (into_sections b.names).0
          ∷ (into_sections b.names).1
          ∷ index.0
          ∷ index.1
          ∷ [];
    }
