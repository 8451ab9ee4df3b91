-- ===== src/Table/Core/Written.antt =====
-- `open_core`, `section` and `check_stride` of crates/greplm-core/src/table.rs on the bytes that
-- `EncodedTable::write_atomic` writes.
use greplm.Common.{
  ℕ, zero, suc, ◌+◌, ◌*◌, ◌^◌, ◌≤◌, ◌<◌, ◌≡◌, refl, List, [], ◌∷◌, ◌++◌, arith, ==_refl, length,
  length-append, concat, get_or,
}
use greplm.Common.Result.{ok}
use greplm.Segment.Files.{to_le_bytes}
use greplm.Segment.Files.Checksum.{length-to_le_bytes}
use greplm.Table.{EncodedTable, section_table, header, file_bytes}
use greplm.Table.Core.{TableCore, open_core, frame, section, check_stride}
use greplm.Table.Core.Header.{
  frames_from, frames_from-slice, frames_from-length, length-section_table, parse_header-file_bytes,
}

module _ (xxh3_64 : List ℕ → ℕ) (t : EncodedTable) where
  abbrev pub header_size : ℕ
  header_size = 12 + length t.sections * 24

  -- what a written table is opened as
  unfoldable pub written_core : TableCore
  unfolding file_bytes frames_from
  written_core = record {
    mmap = file_bytes xxh3_64 t;
    row_count = t.row_count;
    doc_count = t.doc_count;
    sections = frames_from header_size t.sections;
  }

  -- A table whose counts and sizes fit.
  pub record Fits : Type 0 where
    pub magic_four : length t.magic ≡ 4
    pub rows_fit : t.row_count < 2 ^ 32
    pub docs_fit : t.doc_count < 2 ^ 32
    pub size_fits : header_size + length (concat t.sections) < 2 ^ 64

  length-header : length t.magic ≡ 4 → length (header xxh3_64 t) ≡ header_size
  unfolding header
  length-header four =
      let table = section_table xxh3_64 header_size t.sections in
      omega (
        arith,
        four,
        length-append t.magic (to_le_bytes 4 t.row_count ++ (to_le_bytes 4 t.doc_count ++ table)),
        length-append (to_le_bytes 4 t.row_count) (to_le_bytes 4 t.doc_count ++ table),
        length-append (to_le_bytes 4 t.doc_count) table,
        length-to_le_bytes 4 t.row_count,
        length-to_le_bytes 4 t.doc_count,
        length-section_table xxh3_64 header_size t.sections,
      )

  pub section-written_core :
      (i : ℕ) → length t.magic ≡ 4 → section written_core i ≡ get_or t.sections i []
  unfolding section frame written_core file_bytes
  section-written_core i four =
      frames_from-slice i header_size t.sections (header xxh3_64 t) (length-header four)

  pub check_stride-written_core :
      (sec elem count : ℕ)
      → length (get_or t.sections sec []) ≡ elem * (count + 1)
      → check_stride written_core sec elem count ≡ ok tt
  unfolding check_stride frame written_core
  check_stride-written_core sec elem count h =
      rw (frames_from-length sec header_size t.sections, h, ==_refl (elem * (count + 1))) refl

  pub open_core-file_bytes :
      ((bytes : List ℕ) → xxh3_64 bytes < 2 ^ 64)
      → Fits
      → open_core xxh3_64 (file_bytes xxh3_64 t) t.magic (length t.sections) ≡ ok written_core
  unfolding open_core written_core
  open_core-file_bytes word fits =
      rw
        (parse_header-file_bytes xxh3_64 word t fits.magic_four fits.rows_fit fits.docs_fit
          fits.size_fits)
        refl

  pub Fits-of :
      length t.magic ≡ 4
      → t.row_count < 2 ^ 32
      → t.doc_count < 2 ^ 32
      → length (file_bytes xxh3_64 t) < 2 ^ 64
      → Fits
  unfolding file_bytes
  Fits-of four rows docs size = record {
    magic_four = four;
    rows_fit = rows;
    docs_fit = docs;
    size_fits =
        omega
          (arith, size, length-header four, length-append (header xxh3_64 t) (concat t.sections));
  }

pub get_or-le-concat : (i : ℕ) (ss : List (List ℕ)) → length (get_or ss i []) ≤ length (concat ss)
get_or-le-concat i [] = omega arith
get_or-le-concat zero (s ∷ ss) = omega (arith, length-append s (concat ss))
get_or-le-concat (suc i) (s ∷ ss) =
    omega (arith, length-append s (concat ss), get_or-le-concat i ss)
