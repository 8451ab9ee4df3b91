-- ===== src/Table.antt =====
-- crates/greplm-core/src/table.rs: the columns of a side table under construction, and the table as
-- sections of bytes. The `u32` and `u64` counters keep their wrap-around.
pub mod Builder
pub mod Core
pub mod Reader
use greplm.Common.{
  ℕ, zero, suc, ◌+◌, ◌-◌, ◌*◌, ◌/◌, ◌%◌, ◌^◌, bit_or, Bool, true, false, not, ◌&&◌, ◌||◌, Option,
  none, some, List, [], ◌∷◌, ◌++◌, map, ◌==◌, ltb, leb, if◌then◌else◌, length, get_or, slice,
  range_from, concat,
}
use greplm.Common.Bits.{shl, shr}
use greplm.Common.Options.{unwrap_or}
use greplm.Common.Result.{Result, ok, err, other, ok_or, ◌>>=◌}
use greplm.Common.Utf8.{from_utf8, ascii_lower}
use greplm.Fst.{Fst, FstFile, bytes_eq}
use greplm.Segment.{Text}
use greplm.Segment.Files.{to_le_bytes}

abbrev pub sym_magic : List ℕ
sym_magic = b'G' ∷ b'L' ∷ b'S' ∷ b'1' ∷ []

abbrev pub ref_magic : List ℕ
ref_magic = b'G' ∷ b'L' ∷ b'R' ∷ b'1' ∷ []

-- An encoded table, as its sections.
pub record EncodedTable : Type 0 where
  pub magic : List ℕ
  pub row_count : ℕ
  pub doc_count : ℕ
  pub sections : List (List ℕ)

module _ (xxh3_64 : List ℕ → ℕ) where
  -- the loop of `header`: offset, length and checksum of each section
  unfoldable pub section_table : ℕ → List (List ℕ) → List ℕ
  unfolding to_le_bytes
  section_table offset [] = []
  section_table offset (s ∷ ss) =
      to_le_bytes 8 offset
      ++ (to_le_bytes 8 (length s)
          ++ (to_le_bytes 8 (xxh3_64 s) ++ section_table (offset + length s) ss))

  unfoldable pub header : EncodedTable → List ℕ
  unfolding section_table
  header t =
      t.magic
      ++ (to_le_bytes 4 t.row_count
          ++ (to_le_bytes 4 t.doc_count ++ section_table (12 + length t.sections * 24) t.sections))

  -- what `write_atomic` writes
  unfoldable pub file_bytes : EncodedTable → List ℕ
  unfolding header
  file_bytes t = header t ++ concat t.sections

-- A packed string column: the end offset of every string after a first 0, and the bytes.
pub record StrColBuilder : Type 0 where
  pub bounds : List ℕ
  pub bytes : List ℕ

abbrev pub empty_column : StrColBuilder
empty_column = record { bounds = 0 ∷ []; bytes = [] }

unfoldable pub push_str : StrColBuilder → Text → StrColBuilder
push_str c s = record { bounds = c.bounds ++ length (c.bytes ++ s) ∷ []; bytes = c.bytes ++ s }

unfoldable pub push_ascii_lower : StrColBuilder → Text → StrColBuilder
push_ascii_lower c s = record {
  bounds = c.bounds ++ length (c.bytes ++ ascii_lower s) ∷ [];
  bytes = c.bytes ++ ascii_lower s;
}

-- `get`; out of bounds the source panics, and the bounds are read as 0 here
unfoldable pub get_str : StrColBuilder → ℕ → Text
get_str c i =
    unwrap_or (from_utf8 (slice (get_or c.bounds i 0) (get_or c.bounds (i + 1) 0) c.bytes)) []

unfoldable pub into_sections : StrColBuilder → List ℕ × List ℕ
unfolding to_le_bytes
into_sections c = (concat (map (to_le_bytes 8) c.bounds), c.bytes)

-- The starts of the documents' rows, under construction.
pub record DocStartsBuilder : Type 0 where
  pub starts : List ℕ
  pub cur_doc : ℕ
  pub rows : ℕ

abbrev pub new_starts : DocStartsBuilder
new_starts = record { starts = 0 ∷ 0 ∷ 0 ∷ 0 ∷ []; cur_doc = 0; rows = 0 }

-- the `while` that closes documents: one round for each
unfoldable pub close_docs : ℕ → ℕ → List ℕ → List ℕ
unfolding to_le_bytes
close_docs zero rows starts = starts
close_docs (suc n) rows starts = close_docs n rows (starts ++ to_le_bytes 4 rows)

unfoldable pub push_doc : DocStartsBuilder → ℕ → Result DocStartsBuilder
unfolding close_docs
push_doc b doc_id =
    if ltb doc_id b.cur_doc
    then err other
    else ok record {
      starts = close_docs (doc_id - b.cur_doc) b.rows b.starts;
      cur_doc = doc_id;
      rows = (b.rows + 1) % 2 ^ 32;
    }

unfoldable pub finish_starts : DocStartsBuilder → ℕ → Result (List ℕ)
unfolding close_docs
finish_starts b doc_count =
    if ltb 0 b.rows && leb doc_count b.cur_doc
    then err other
    else ok (close_docs (doc_count - b.cur_doc) b.rows b.starts)

-- The order of strings, by their bytes.
unfoldable pub text_ltb : Text → Text → Bool
text_ltb [] [] = false
text_ltb [] (y ∷ ys) = true
text_ltb (x ∷ xs) [] = false
text_ltb (x ∷ xs) (y ∷ ys) = ltb x y || (x == y && text_ltb xs ys)

-- `name_of(a).cmp(name_of(b)).then(a.cmp(&b))` is not `Greater`
unfoldable pub name_leb : (ℕ → Text) → ℕ → ℕ → Bool
unfolding text_ltb
name_leb name_of a b =
    text_ltb (name_of a) (name_of b) || (bytes_eq (name_of a) (name_of b) && leb a b)

-- The sort of the row ids. No two ids are equal, so there is one sorted order.
unfoldable pub insert_id : (ℕ → Text) → ℕ → List ℕ → List ℕ
unfolding name_leb
insert_id name_of x [] = x ∷ []
insert_id name_of x (y ∷ ys) =
    if name_leb name_of x y then x ∷ y ∷ ys else y ∷ insert_id name_of x ys

unfoldable pub sort_ids : (ℕ → Text) → List ℕ → List ℕ
unfolding insert_id
sort_ids name_of [] = []
sort_ids name_of (x ∷ xs) = insert_id name_of x (sort_ids name_of xs)

-- the inner `while`: the run of a name, and the ids after it
unfoldable pub name_run : (ℕ → Text) → Text → List ℕ → List ℕ × List ℕ
name_run name_of name [] = ([], [])
name_run name_of name (x ∷ xs) =
    let (run, rest) = name_run name_of name xs in
    if bytes_eq (name_of x) name then (x ∷ run, rest) else ([], x ∷ xs)

-- the outer `while` from position `i` on: the FST entries; the number of ids is enough fuel
unfoldable pub name_entries : (ℕ → Text) → ℕ → ℕ → List ℕ → List (Text × ℕ)
unfolding name_run
name_entries name_of fuel i [] = []
name_entries name_of zero i (x ∷ xs) = []
name_entries name_of (suc fuel) i (x ∷ xs) =
    let (run, rest) = name_run name_of (name_of x) (x ∷ xs) in
    (name_of x, bit_or (shl 64 i 32) (length run)) ∷ name_entries name_of fuel (i + length run) rest

unfoldable pub build_name_fst : (f : Fst) → FstFile f → ℕ → (ℕ → Text) → Result (List ℕ × List ℕ)
unfolding sort_ids name_entries to_le_bytes
build_name_fst f file n name_of =
    let order = sort_ids name_of (range_from n 0) in
    (do
      built ← ok_or (f.build (name_entries name_of (length order) 0 order)) other
      ok (file.into_inner built, concat (map (to_le_bytes 4) order)))
