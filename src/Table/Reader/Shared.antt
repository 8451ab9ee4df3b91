-- ===== src/Table/Reader/Shared.antt =====
-- The sections that the symbol table and the reference table of crates/greplm-core/src/table.rs have
-- in common (rows, documents and names), read from the bytes of a written table.
use greplm.Common.{
  ℕ, suc, ◌+◌, ◌*◌, ◌^◌, ◌<◌, ◌≡◌, refl, sym, ap, ◌∙◌, true, false, max, leb, some, List, [], map,
  arith, length, concat, get_or, range_from, all,
}
use greplm.Common.Positions.{all-get_or, map-range_from-eq}
use greplm.Common.Result.{ok}
use greplm.Common.Utf8.{is_utf8}
use greplm.Segment.{Text}
use greplm.Table.{EncodedTable, file_bytes}
use greplm.Table.Builder.Starts.{
  below, below_mono, below-le-length, starts_of, length-starts_of, get_or-starts_of,
}
use greplm.Table.Core.{
  TableCore, check_stride, section, u32_entry, row_bytes, str_at, doc_range, open_core,
  sec_row_offsets, sec_doc_starts,
}
use greplm.Table.Core.Packed.{
  numbers, ends, length-ends, length-numbers, row_bytes-packed, str_at-packed, u32_entry-numbers,
}
use greplm.Table.Core.Written.{
  written_core, Fits, Fits-of, get_or-le-concat, section-written_core, check_stride-written_core,
  open_core-file_bytes,
}

-- An encoded table of rows with these bytes, documents and names.
pub record HasRows (parts : List (List ℕ)) (docs : List ℕ) (names : List Text) (doc_count : ℕ)
    (t : EncodedTable) : Type 0 where
  pub magic_four : length t.magic ≡ 4
  pub row_count_eq : t.row_count ≡ length names
  pub doc_count_eq : t.doc_count ≡ doc_count
  pub parts_eq : length parts ≡ length names
  pub docs_eq : length docs ≡ length names
  pub row_offsets_eq : get_or t.sections 0 [] ≡ numbers 8 (ends 0 parts)
  pub rows_eq : get_or t.sections 1 [] ≡ concat parts
  pub doc_starts_eq : get_or t.sections 2 [] ≡ numbers 4 (starts_of docs (suc doc_count))
  pub name_offsets_eq : get_or t.sections 3 [] ≡ numbers 8 (ends 0 names)
  pub name_bytes_eq : get_or t.sections 4 [] ≡ concat names

-- The sizes for which a table is read back.
pub record Small (xxh3_64 : List ℕ → ℕ) (rows doc_count : ℕ) (t : EncodedTable) : Type 0 where
  pub rows_small : rows < 2 ^ 32
  pub docs_small : doc_count < 2 ^ 32
  pub file_small : length (file_bytes xxh3_64 t) < 2 ^ 64

pub length-numbers-ends :
    (ps : List (List ℕ)) (n : ℕ) → length ps ≡ n → length (numbers 8 (ends 0 ps)) ≡ 8 * (n + 1)
length-numbers-ends ps n h = omega (arith, h, length-numbers 8 (ends 0 ps), length-ends 0 ps)

module _ (xxh3_64 : List ℕ → ℕ) {parts : List (List ℕ)} {docs : List ℕ} {names : List Text}
    {doc_count : ℕ} {t : EncodedTable} (h : HasRows parts docs names doc_count t)
    (small : Small xxh3_64 (length names) doc_count t) where
  abbrev core : TableCore
  core = written_core xxh3_64 t

  pub HasRows-Fits : Fits xxh3_64 t
  HasRows-Fits =
      Fits-of xxh3_64 t h.magic_four (rw h.row_count_eq small.rows_small)
        (rw h.doc_count_eq small.docs_small) small.file_small

  pub section_small :
      (i : ℕ) (bytes : List ℕ) → get_or t.sections i [] ≡ bytes → length bytes < 2 ^ 64
  section_small i bytes e =
      omega (arith, get_or-le-concat i t.sections, ap length e, HasRows-Fits.size_fits)

  pub section_at :
      (i : ℕ) (bytes : List ℕ) → get_or t.sections i [] ≡ bytes → section core i ≡ bytes
  section_at i bytes e = section-written_core xxh3_64 t i h.magic_four ∙ e

  pub row_bytes_written : (i : ℕ) → i < length names → row_bytes core i ≡ some (get_or parts i [])
  unfolding written_core
  row_bytes_written i room =
      row_bytes-packed core i parts (section_at 0 _ h.row_offsets_eq) (section_at 1 _ h.rows_eq)
        (h.row_count_eq ∙ sym h.parts_eq) (omega (arith, h.parts_eq)) (section_small 1 _ h.rows_eq)

  -- A string of a column.
  pub str_at_written :
      (s b i : ℕ) (column : List Text)
      → get_or t.sections s [] ≡ numbers 8 (ends 0 column)
      → get_or t.sections b [] ≡ concat column
      → all is_utf8 column ≡ true
      → i < length column
      → str_at core s b i ≡ get_or column i []
  str_at_written s b i column offsets bytes valid room =
      str_at-packed core s b i column (section_at s _ offsets) (section_at b _ bytes) room
        (section_small b _ bytes) (all-get_or is_utf8 column i [] valid room)

  pub row_offsets_framed : check_stride core sec_row_offsets 8 t.row_count ≡ ok tt
  row_offsets_framed = check_stride-written_core xxh3_64 t 0 8 t.row_count (
      ap length h.row_offsets_eq
      ∙ length-numbers-ends parts t.row_count (h.parts_eq ∙ sym h.row_count_eq))

  -- The offsets of a column of strings, one for each row.
  pub column_framed :
      (s : ℕ) (column : List Text)
      → get_or t.sections s [] ≡ numbers 8 (ends 0 column)
      → length column ≡ length names
      → check_stride core s 8 t.row_count ≡ ok tt
  column_framed s column offsets size =
      check_stride-written_core xxh3_64 t s 8 t.row_count
        (ap length offsets ∙ length-numbers-ends column t.row_count (size ∙ sym h.row_count_eq))

  pub doc_starts_framed : check_stride core sec_doc_starts 4 t.doc_count ≡ ok tt
  doc_starts_framed = check_stride-written_core xxh3_64 t 2 4 t.doc_count (
      ap length h.doc_starts_eq
      ∙ omega (
        arith,
        length-numbers 4 (starts_of docs (suc doc_count)),
        length-starts_of docs (suc doc_count),
        h.doc_count_eq,
      ))

  starts_entry : (i : ℕ) → i < suc doc_count → u32_entry core sec_doc_starts i ≡ some (below i docs)
  starts_entry i room =
      let value = get_or-starts_of docs (suc doc_count) i room in
      u32_entry-numbers core sec_doc_starts i (starts_of docs (suc doc_count))
        (section_at 2 _ h.doc_starts_eq) (omega (arith, length-starts_of docs (suc doc_count)))
        (omega (arith, value, below-le-length i docs, h.docs_eq, small.rows_small))
      ∙ ap some value

  doc_range_written :
      (d : ℕ) → d < doc_count → doc_range core d ≡ (below d docs, below (d + 1) docs)
  unfolding doc_range written_core
  doc_range_written d inside =
      let before : leb core.doc_count d ≡ false = ground (arith, h.doc_count_eq) in
      let top : max (below (d + 1) docs) (below d docs) ≡ below (d + 1) docs =
        omega (arith, below_mono d docs) in
      rw (before, starts_entry d (omega arith), starts_entry (d + 1) (omega arith), top) refl

  pub doc_ranges_written :
      map (doc_range core) (range_from doc_count 0)
      ≡ map (λ d. (below d docs, below (d + 1) docs)) (range_from doc_count 0)
  doc_ranges_written =
      map-range_from-eq (doc_range core) (λ d. (below d docs, below (d + 1) docs)) doc_count 0
        (λ d inside. doc_range_written d (omega arith))

  -- The header, with a magic and a number of sections as the reader has them.
  pub open_core_written :
      ((bytes : List ℕ) → xxh3_64 bytes < 2 ^ 64)
      → (magic : List ℕ) (n : ℕ) → t.magic ≡ magic
      → length t.sections ≡ n
      → open_core xxh3_64 (file_bytes xxh3_64 t) magic n ≡ ok core
  open_core_written word magic n e count =
      ap (λ m. open_core xxh3_64 (file_bytes xxh3_64 t) m n) (sym e)
      ∙ ap (λ (k : ℕ). open_core xxh3_64 (file_bytes xxh3_64 t) t.magic k) (sym count)
      ∙ open_core-file_bytes xxh3_64 t word HasRows-Fits
