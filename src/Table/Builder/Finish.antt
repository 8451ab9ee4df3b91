-- ===== src/Table/Builder/Finish.antt =====
-- `finish` of the builders of crates/greplm-core/src/table.rs, where it returns a table.
use greplm.Common.{ℕ, ◌%◌, ◌^◌, ◌≡◌, some, List, [], ◌∷◌, map, length, concat, range_from}
use greplm.Common.Result.{ok, other, postcard, ok_or, ok_injective, ok_or-eq-ok, >>=-eq-ok}
use greplm.Fst.{Fst, FstFile}
use greplm.Segment.{Text}
use greplm.Segment.Files.{Postcard, to_le_bytes}
use greplm.Table.{
  EncodedTable, get_str, into_sections, finish_starts, build_name_fst, sort_ids, name_entries,
  ref_magic, sym_magic,
}
use greplm.Table.Builder.{RefTableBuilder, SymTableBuilder, finish_refs, finish_syms}

-- The name index that was built is read back.
pub build_name_fst-eq-ok :
    (f : Fst) (file : FstFile f) (n : ℕ) (name_of : ℕ → Text) (index : List ℕ × List ℕ)
    → build_name_fst f file n name_of ≡ ok index
    → (built : f.Map) × (f.build (
          name_entries name_of
            (length (sort_ids name_of (range_from n 0)))
            0
            (sort_ids name_of (range_from n 0)))
        ≡ some built)
      × ((file.into_inner built, concat (map (to_le_bytes 4) (sort_ids name_of (range_from n 0))))
          ≡ index)
unfolding build_name_fst
build_name_fst-eq-ok f file n name_of index h =
    let (built, first, last) = >>=-eq-ok (ok_or (f.build _) other) _ h in
    (built, ok_or-eq-ok _ other first, ok_injective last)

abbrev pub ref_table_of : RefTableBuilder → ℕ → List ℕ → List ℕ × List ℕ → EncodedTable
ref_table_of b doc_count doc_starts index = record {
  magic = ref_magic;
  row_count = b.rows;
  doc_count = doc_count % 2 ^ 32;
  sections =
      b.row_offsets
      ∷ b.row_bytes
      ∷ doc_starts
      ∷ (into_sections b.names).0
      ∷ (into_sections b.names).1
      ∷ index.0
      ∷ index.1
      ∷ [];
}

pub finish_refs-eq-ok :
    (f : Fst) (file : FstFile f) (b : RefTableBuilder) (doc_count : ℕ) (t : EncodedTable)
    → finish_refs f file b doc_count ≡ ok t
    → (doc_starts : List ℕ) × (index : List ℕ × List ℕ) × (finish_starts b.csr doc_count
        ≡ ok doc_starts)
      × (build_name_fst f file b.rows (get_str b.names) ≡ ok index)
      × (ref_table_of b doc_count doc_starts index ≡ t)
unfolding finish_refs
finish_refs-eq-ok f file b doc_count t h =
    let (doc_starts, first, rest) = >>=-eq-ok (finish_starts b.csr doc_count) _ h in
    let (index, second, last) = >>=-eq-ok (build_name_fst f file b.rows (get_str b.names)) _ rest in
    (doc_starts, index, first, second, ok_injective last)

abbrev pub sym_table_of : SymTableBuilder → ℕ → List ℕ → List ℕ × List ℕ → List ℕ → EncodedTable
sym_table_of b doc_count doc_starts index kinds_bytes = record {
  magic = sym_magic;
  row_count = b.rows;
  doc_count = doc_count % 2 ^ 32;
  sections =
      b.row_offsets
      ∷ b.row_bytes
      ∷ doc_starts
      ∷ (into_sections b.names).0
      ∷ (into_sections b.names).1
      ∷ (into_sections b.lowers).0
      ∷ (into_sections b.lowers).1
      ∷ index.0
      ∷ index.1
      ∷ kinds_bytes
      ∷ [];
}

pub finish_syms-eq-ok :
    (f : Fst) (file : FstFile f) (kinds_codec : Postcard (List Text)) (b : SymTableBuilder)
    (doc_count : ℕ) (t : EncodedTable)
    → finish_syms f file kinds_codec b doc_count ≡ ok t
    → (doc_starts : List ℕ) × (index : List ℕ × List ℕ) × (kinds_bytes : List ℕ) × (finish_starts
          b.csr doc_count
        ≡ ok doc_starts)
      × (build_name_fst f file b.rows (get_str b.lowers) ≡ ok index)
      × (kinds_codec.to_allocvec b.kinds ≡ some kinds_bytes)
      × (sym_table_of b doc_count doc_starts index kinds_bytes ≡ t)
unfolding finish_syms
finish_syms-eq-ok f file kinds_codec b doc_count t h =
    let (doc_starts, first, rest) = >>=-eq-ok (finish_starts b.csr doc_count) _ h in
    let (index, second, more) =
      >>=-eq-ok (build_name_fst f file b.rows (get_str b.lowers)) _ rest in
    let (kinds_bytes, third, last) =
      >>=-eq-ok (ok_or (kinds_codec.to_allocvec b.kinds) postcard) _ more in
    (doc_starts, index, kinds_bytes, first, second, ok_or-eq-ok _ postcard third, ok_injective last)
