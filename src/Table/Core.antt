-- ===== src/Table/Core.antt =====
-- crates/greplm-core/src/table.rs: the header of a table file, and the accessors over it.
pub mod Header
pub mod Packed
pub mod Inside
pub mod Written
use greplm.Common.{
  ℕ, zero, suc, ◌+◌, ◌-◌, ◌*◌, ◌%◌, ◌^◌, bit_and, max, Bool, true, false, not, ◌&&◌, ◌||◌, Option,
  none, some, List, [], ◌∷◌, ◌++◌, map, ◌==◌, ltb, leb, if◌then◌else◌, length, get_or, slice,
  get_range, range_from,
}
use greplm.Common.Bits.{shr}
use greplm.Common.Options.{◌>>=◌ as ◌>>=?◌, unwrap_or, filter_map}
use greplm.Common.Result.{Result, ok, err, corrupt, ok_or, ◌>>=◌}
use greplm.Common.Utf8.{from_utf8}
use greplm.Fst.{bytes_eq}
use greplm.Segment.{Text}
use greplm.Segment.Files.{from_le_bytes}

abbrev pub sec_row_offsets : ℕ
sec_row_offsets = 0

abbrev pub sec_rows : ℕ
sec_rows = 1

abbrev pub sec_doc_starts : ℕ
sec_doc_starts = 2

abbrev pub sec_name_offsets : ℕ
sec_name_offsets = 3

abbrev pub sec_name_bytes : ℕ
sec_name_bytes = 4

-- the range of a section
abbrev pub Frame : Type 0
Frame = ℕ × ℕ

module _ (xxh3_64 : List ℕ → ℕ) where
  -- the loop over the entries of the section table, from entry `i` on; `usize` has 64 bits
  unfoldable pub parse_sections : List ℕ → List ℕ → ℕ → ℕ → Result (List Frame)
  unfolding from_le_bytes
  parse_sections mmap head i zero = ok []
  parse_sections mmap head i (suc n) =
      let e = 12 + i * 24 in
      let offset = from_le_bytes (slice e (e + 8) head) in
      let len = from_le_bytes (slice (e + 8) (e + 8 + 8) head) in
      let sum = from_le_bytes (slice (e + 16) (e + 16 + 8) head) in
      let rest = parse_sections mmap head (i + 1) n in
      if leb (2 ^ 64) (offset + len) then err corrupt else (do
        bytes ← ok_or (get_range offset (offset + len) mmap) corrupt
        if not (i == sec_rows) && not (xxh3_64 bytes == sum)
            then err corrupt
            else (do frames ← rest; ok ((offset, offset + len) ∷ frames)))

  unfoldable pub parse_header : List ℕ → List ℕ → ℕ → Result (ℕ × ℕ × List Frame)
  unfolding parse_sections
  parse_header mmap magic n_sections = do
    head ← ok_or (get_range 0 (12 + n_sections * 24) mmap) corrupt
    if not (bytes_eq (slice 0 4 head) magic) then err corrupt else (do
      sections ← parse_sections mmap head 0 n_sections
      ok (from_le_bytes (slice 4 (4 + 4) head), from_le_bytes (slice 8 (8 + 4) head), sections))

pub record TableCore : Type 0 where
  pub mmap : List ℕ
  pub row_count : ℕ
  pub doc_count : ℕ
  pub sections : List Frame

unfoldable pub open_core : (List ℕ → ℕ) → List ℕ → List ℕ → ℕ → Result TableCore
unfolding parse_header
open_core xxh3_64 mmap magic n_sections = do
  parsed ← parse_header xxh3_64 mmap magic n_sections
  ok record { mmap = mmap; row_count = parsed.0; doc_count = parsed.1; sections = parsed.2 }

module _ (c : TableCore) where
  -- The callers' section numbers are below the number of sections that were parsed.
  unfoldable pub frame : ℕ → Frame
  frame i = get_or c.sections i (0, 0)

  unfoldable pub section : ℕ → List ℕ
  unfolding frame
  section i = slice (frame i).0 (frame i).1 c.mmap

  unfoldable pub check_stride : ℕ → ℕ → ℕ → Result (Unit {0})
  unfolding frame
  check_stride sec elem count =
      if not ((frame sec).1 - (frame sec).0 == elem * (count + 1)) then err corrupt else ok tt

  unfoldable pub u64_entry : ℕ → ℕ → Option ℕ
  unfolding section from_le_bytes
  u64_entry sec i = get_range (i * 8) (i * 8 + 8) (section sec) >>=? λ b. some (from_le_bytes b)

  unfoldable pub u32_entry : ℕ → ℕ → Option ℕ
  unfolding section from_le_bytes
  u32_entry sec i = get_range (i * 4) (i * 4 + 4) (section sec) >>=? λ b. some (from_le_bytes b)

  unfoldable pub row_bytes : ℕ → Option (List ℕ)
  unfolding u64_entry
  row_bytes i =
      if leb c.row_count i
      then none
      else (u64_entry sec_row_offsets i >>=? λ lo.
          u64_entry sec_row_offsets (i + 1) >>=? λ hi. get_range lo hi (section sec_rows))

  unfoldable pub str_at : ℕ → ℕ → ℕ → Text
  unfolding u64_entry
  str_at off_sec bytes_sec i =
      let lo = unwrap_or (u64_entry off_sec i) 0 in
      let hi = unwrap_or (u64_entry off_sec (i + 1)) 0 in
      unwrap_or (get_range lo hi (section bytes_sec) >>=? from_utf8) []

  -- the range of rows, as its ends
  unfoldable pub doc_range : ℕ → ℕ × ℕ
  unfolding u32_entry
  doc_range doc_id =
      if leb c.doc_count doc_id
      then (0, 0)
      else (let lo = unwrap_or (u32_entry sec_doc_starts doc_id) 0 in
          let hi = unwrap_or (u32_entry sec_doc_starts (doc_id + 1)) lo in (lo, max hi lo))

  unfoldable pub fst_row_ids : ℕ → ℕ → List ℕ
  unfolding u32_entry
  fst_row_ids ids_sec value =
      filter_map (u32_entry ids_sec) (range_from (bit_and value (2 ^ 32 - 1)) (shr value 32))
