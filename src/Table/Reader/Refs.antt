-- ===== src/Table/Reader/Refs.antt =====
-- `RefTable` of crates/greplm-core/src/table.rs over the bytes that `RefTableBuilder` finishes.
use greplm.Common.{
  ℕ, ◌+◌, ◌^◌, ◌<◌, ◌≡◌, refl, sym, ap, subst, ◌∙◌, true, some, List, [], map, arith, length,
  length-map, get_or, get_elem?, range_from, all,
}
use greplm.Common.Options.{some->>=}
use greplm.Common.Positions.{get_elem?-lt-length, get_elem?-map, get_or-map, map-range_from}
use greplm.Common.Result.{ok, fst, ok_or, ok->>=}
use greplm.Common.Utf8.{is_utf8}
use greplm.Fst.{Fst, FstFile, FstLaws, FstFileLaws}
use greplm.Segment.{Text, RefEntry}
use greplm.Segment.Files.{Postcard, PostcardLaw}
use greplm.Table.{EncodedTable, file_bytes, get_str, ref_magic}
use greplm.Table.Builder.{RefRow, RefTableBuilder, new_refs, finish_refs}
use greplm.Table.Builder.Columns.{into_sections_hold, Encodes, Encodes-length, Encodes-get_elem?}
use greplm.Table.Builder.Finish.{finish_refs-eq-ok, build_name_fst-eq-ok}
use greplm.Table.Builder.Refs.{
  DocRef, ref_row, ref_name, ref_doc, push_refs, RefsHold, new_refs_hold, push_refs_hold,
}
use greplm.Table.Builder.Starts.{finish_starts_hold, below}
use greplm.Table.Core.{
  TableCore, open_core, check_stride, section, str_at, doc_range, sec_row_offsets, sec_doc_starts,
  sec_name_offsets, sec_name_bytes,
}
use greplm.Table.Core.Written.{written_core}
use greplm.Table.Reader.{
  ref_sections, ref_sec_fst, ref_sec_fst_rows, refs_named, RefTable, open_refs, get_ref,
}
use greplm.Table.Reader.Named.{NamesMap, NamesMap-lookup, ids_named}
use greplm.Table.Reader.Shared.{
  HasRows, Small, row_bytes_written, str_at_written, row_offsets_framed, column_framed,
  doc_starts_framed, doc_ranges_written, open_core_written, section_at,
}

-- the reference that a row stands for
abbrev pub ref_entry : DocRef → RefEntry
ref_entry (d, r) = record {
  doc_id = d;
  name = r.name;
  kind = r.kind;
  line = r.line;
  column = r.column;
}

module _ (f : Fst) (file : FstFile f) (laws : FstFileLaws f file) (xxh3_64 : List ℕ → ℕ)
    (word : (bytes : List ℕ) → xxh3_64 bytes < 2 ^ 64) (codec : Postcard RefRow) where
  open_refs_parts :
      (mmap : List ℕ) (core : TableCore) (m : f.Map)
      → open_core xxh3_64 mmap ref_magic ref_sections ≡ ok core
      → check_stride core sec_row_offsets 8 core.row_count ≡ ok tt
      → check_stride core sec_doc_starts 4 core.doc_count ≡ ok tt
      → check_stride core sec_name_offsets 8 core.row_count ≡ ok tt
      → section core ref_sec_fst ≡ file.into_inner m
      → open_refs f file xxh3_64 mmap ≡ ok record { core = core; names_fst = m }
  unfolding open_refs
  open_refs_parts mmap core m opened rows docs names index = ok->>= _ opened (
      ok->>= _ rows (
        ok->>= _ docs (
          ok->>= _ names (
            ok->>= _
              (ap (λ bs. ok_or (file.new bs) fst) index
                ∙ ap (λ o. ok_or o fst) (laws.new-into_inner m))
              refl))))

  -- What a written table of references is read as.
  pub record Written (xs : List DocRef) (doc_count : ℕ) (t : EncodedTable) : Type 0 where
    pub parts : List (List ℕ)
    pub encoded : Encodes codec (map ref_row xs) parts
    pub names_fst : f.Map
    pub has_rows : HasRows parts (map ref_doc xs) (map ref_name xs) doc_count t
    pub magic_eq : t.magic ≡ ref_magic
    pub seven : length t.sections ≡ 7
    pub fst_eq : get_or t.sections 5 [] ≡ file.into_inner names_fst
    pub names_map : NamesMap f (map ref_name xs) t.row_count names_fst (get_or t.sections 6 [])

  finish_refs-Written :
      (xs : List DocRef) (b : RefTableBuilder) (doc_count : ℕ) (t : EncodedTable)
      → doc_count < 2 ^ 32
      → finish_refs f file b doc_count ≡ ok t
      → RefsHold codec xs b
      → Written xs doc_count t
  finish_refs-Written xs b doc_count t small finished h =
      let (doc_starts, index, starts, built, e) = finish_refs-eq-ok f file b doc_count t finished in
      let (names_fst, made, index_eq) =
        build_name_fst-eq-ok f file b.rows (get_str b.names) index built in
      let columns = into_sections_hold (map ref_name xs) b.names h.names_hold in
      subst (Written xs doc_count) e record {
        parts = h.rows_hold.parts;
        encoded = h.rows_hold.encoded;
        names_fst = names_fst;
        has_rows = record {
          magic_four = refl;
          row_count_eq = h.rows_eq ∙ sym (length-map ref_name xs);
          doc_count_eq = omega arith;
          parts_eq =
              Encodes-length codec _ _ h.rows_hold.encoded
              ∙ length-map ref_row xs
              ∙ sym (length-map ref_name xs);
          docs_eq = length-map ref_doc xs ∙ sym (length-map ref_name xs);
          row_offsets_eq = h.rows_hold.offsets_eq;
          rows_eq = h.rows_hold.row_bytes_eq;
          doc_starts_eq =
              finish_starts_hold (map ref_doc xs) b.csr doc_count doc_starts starts h.csr_hold;
          name_offsets_eq = ap (λ c. c.0) columns;
          name_bytes_eq = ap (λ c. c.1) columns;
        };
        magic_eq = refl;
        seven = refl;
        fst_eq = sym (ap (λ c. c.0) index_eq);
        names_map = record {
          column = b.names;
          column_hold = h.names_hold;
          made = made;
          ids_eq = sym (ap (λ c. c.1) index_eq);
        };
      }

  Small-of :
      (xs : List DocRef) (doc_count : ℕ) (t : EncodedTable)
      → length xs < 2 ^ 32
      → doc_count < 2 ^ 32
      → length (file_bytes xxh3_64 t) < 2 ^ 64
      → Small xxh3_64 (length (map ref_name xs)) doc_count t
  Small-of xs doc_count t many docs size = record {
    rows_small = rw (length-map ref_name xs) many;
    docs_small = docs;
    file_small = size;
  }

  module _ {xs : List DocRef} {doc_count : ℕ} {t : EncodedTable} (w : Written xs doc_count t)
      (small : Small xxh3_64 (length (map ref_name xs)) doc_count t) where
    abbrev opened : RefTable f
    opened = record { core = written_core xxh3_64 t; names_fst = w.names_fst }

    get_ref_written :
        (law : PostcardLaw codec) (names : all is_utf8 (map ref_name xs) ≡ true) (i : ℕ)
        (x : DocRef)
        → get_elem? xs i ≡ some x
        → get_ref {f = f} opened codec i ≡ some (ref_entry x)
    unfolding get_ref
    get_ref_written law names i x at =
        let room = get_elem?-lt-length xs i x at in
        let inside : i < length (map ref_name xs) = omega (arith, room, length-map ref_name xs) in
        let decoded = law (ref_row x) (get_or w.parts i []) (
          Encodes-get_elem? codec (map ref_row xs) w.parts i (ref_row x) w.encoded
            (get_elem?-map ref_row xs i x at)) in
        let name : str_at opened.core sec_name_offsets sec_name_bytes i ≡ ref_name x =
          str_at_written xxh3_64 w.has_rows small sec_name_offsets sec_name_bytes i
            (map ref_name xs) w.has_rows.name_offsets_eq w.has_rows.name_bytes_eq names inside
          ∙ get_or-map ref_name xs i x [] at in
        some->>= _ (row_bytes_written xxh3_64 w.has_rows small i inside)
          (some->>= _ decoded (rw name refl))

    opens : open_refs f file xxh3_64 (file_bytes xxh3_64 t) ≡ ok opened
    unfolding written_core
    opens =
        let h = w.has_rows in
        open_refs_parts (file_bytes xxh3_64 t) opened.core w.names_fst
          (open_core_written xxh3_64 h small word ref_magic ref_sections w.magic_eq w.seven)
          (row_offsets_framed xxh3_64 h small) (doc_starts_framed xxh3_64 h small)
          (column_framed xxh3_64 h small sec_name_offsets (map ref_name xs) h.name_offsets_eq refl)
          (section_at xxh3_64 h small ref_sec_fst _ w.fst_eq)

    refs_named_written :
        (laws : FstLaws f) (names : all is_utf8 (map ref_name xs) ≡ true) (name : Text)
        → refs_named {f = f} opened name ≡ ids_named (map ref_name xs) name
    unfolding refs_named
    refs_named_written laws names name =
        let h = w.has_rows in
        NamesMap-lookup f file laws (map ref_name xs) t.row_count w.names_fst
          (get_or t.sections 6 []) opened.core ref_sec_fst_rows name w.names_map h.row_count_eq
          (rw h.row_count_eq small.rows_small) names
          (section_at xxh3_64 h small ref_sec_fst_rows _ refl)

  -- The file of a finished table is opened, for the same number of documents.
  pub open_refs-file_bytes :
      (xs : List DocRef) (b : RefTableBuilder) (doc_count : ℕ) (t : EncodedTable)
      → length xs < 2 ^ 32
      → doc_count < 2 ^ 32
      → length (file_bytes xxh3_64 t) < 2 ^ 64
      → RefsHold codec xs b
      → finish_refs f file b doc_count ≡ ok t
      → (table : RefTable f) × (open_refs f file xxh3_64 (file_bytes xxh3_64 t) ≡ ok table)
        × (table.core.doc_count ≡ doc_count)
  unfolding written_core
  open_refs-file_bytes xs b doc_count t many docs size held finished =
      let w = finish_refs-Written xs b doc_count t docs finished held in
      let small = Small-of xs doc_count t many docs size in
      (opened w small, opens w small, w.has_rows.doc_count_eq)

  -- References that are pushed one after the other, finished, written to a file and opened again are
  -- the rows of the table, in their order, and the range of a document's rows is the range of the
  -- references of that document: from the number of references of earlier documents to the number of
  -- those of documents up to it. The names are UTF-8, the counts have 32 bits and the file's length 64.
  -- The row encoder decodes what it encoded, an fst map is read back from its bytes, and a hash has
  -- 64 bits.
  pub open_refs-finish_refs :
      PostcardLaw codec
      → (xs : List DocRef) (b : RefTableBuilder) (doc_count : ℕ) (t : EncodedTable)
      → length xs < 2 ^ 32
      → doc_count < 2 ^ 32
      → length (file_bytes xxh3_64 t) < 2 ^ 64
      → all is_utf8 (map ref_name xs) ≡ true
      → push_refs codec new_refs xs ≡ ok b
      → finish_refs f file b doc_count ≡ ok t
      → (table : RefTable f) × (open_refs f file xxh3_64 (file_bytes xxh3_64 t) ≡ ok table)
        × (map (get_ref table codec) (range_from (length xs) 0) ≡ map (λ x. some (ref_entry x)) xs)
        × (map (doc_range table.core) (range_from doc_count 0)
            ≡ map
                (λ d. (below d (map ref_doc xs), below (d + 1) (map ref_doc xs)))
                (range_from doc_count 0))
  open_refs-finish_refs law xs b doc_count t many docs size names pushed finished =
      let held = push_refs_hold codec xs [] new_refs b (omega arith) pushed (new_refs_hold codec) in
      let w = finish_refs-Written xs b doc_count t docs finished held in
      let small = Small-of xs doc_count t many docs size in
      (
        opened w small,
        opens w small,
        map-range_from (get_ref (opened w small) codec) (λ x. some (ref_entry x)) 0 xs
            (λ i x at.
              ap (get_ref (opened w small) codec) (omega arith)
              ∙ get_ref_written w small law names i x at),
        doc_ranges_written xxh3_64 w.has_rows small,
      )

  -- In the table that references were pushed to, and that was finished, written and opened again, a
  -- name is looked up to the ids of the references with this name, each once and in ascending order;
  -- a name without references, to none. The names are UTF-8, the counts have 32 bits and the file's
  -- length 64. An fst map takes keys in ascending order and finds them, and is read back from its
  -- bytes, and a hash has 64 bits.
  pub refs_named-finish_refs :
      FstLaws f
      → (xs : List DocRef) (b : RefTableBuilder) (doc_count : ℕ) (t : EncodedTable) (name : Text)
      → length xs < 2 ^ 32
      → doc_count < 2 ^ 32
      → length (file_bytes xxh3_64 t) < 2 ^ 64
      → all is_utf8 (map ref_name xs) ≡ true
      → push_refs codec new_refs xs ≡ ok b
      → finish_refs f file b doc_count ≡ ok t
      → (table : RefTable f) × (open_refs f file xxh3_64 (file_bytes xxh3_64 t) ≡ ok table)
        × (refs_named table name ≡ ids_named (map ref_name xs) name)
  refs_named-finish_refs fst_laws xs b doc_count t name many docs size names pushed finished =
      let held = push_refs_hold codec xs [] new_refs b (omega arith) pushed (new_refs_hold codec) in
      let w = finish_refs-Written xs b doc_count t docs finished held in
      let small = Small-of xs doc_count t many docs size in
      (opened w small, opens w small, refs_named_written w small fst_laws names name)
