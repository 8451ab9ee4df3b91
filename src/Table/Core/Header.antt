-- ===== src/Table/Core/Header.antt =====
-- `EncodedTable::header` and `parse_header` of crates/greplm-core/src/table.rs, one after the other.
use greplm.Common.{
  ℕ, zero, suc, ◌+◌, ◌-◌, ◌*◌, ◌^◌, ◌<◌, ◌≡◌, refl, sym, ap, subst, ◌∙◌, true, false, some, List,
  [], ◌∷◌, ◌++◌, arith, ==_refl, leb, length, length-append, slice, slice-append, get_range,
  get_range-append, concat, get_or,
}
use mathlib.Core.List.{append_assoc}
use greplm.Common.Result.{ok}
use greplm.Fst.{bytes_eq}
use greplm.Segment.Files.{to_le_bytes, from_le_bytes}
use greplm.Segment.Files.Checksum.{length-to_le_bytes, from_le_bytes-to_le_bytes}
use greplm.Table.{EncodedTable, section_table, file_bytes}
use greplm.Table.Core.{Frame, parse_sections, parse_header}

-- where the sections stand, from an offset on
unfoldable pub frames_from : ℕ → List (List ℕ) → List Frame
frames_from offset [] = []
frames_from offset (s ∷ ss) = (offset, offset + length s) ∷ frames_from (offset + length s) ss

pub length-section_table :
    (xxh3_64 : List ℕ → ℕ) (offset : ℕ) (ss : List (List ℕ))
    → length (section_table xxh3_64 offset ss) ≡ length ss * 24
unfolding section_table
length-section_table xxh3_64 offset [] = refl
length-section_table xxh3_64 offset (s ∷ ss) = omega (
  arith,
  length-append (to_le_bytes 8 offset) (
      to_le_bytes 8 (length s)
      ++ (to_le_bytes 8 (xxh3_64 s) ++ section_table xxh3_64 (offset + length s) ss)),
  length-append (to_le_bytes 8 (length s))
      (to_le_bytes 8 (xxh3_64 s) ++ section_table xxh3_64 (offset + length s) ss),
  length-append (to_le_bytes 8 (xxh3_64 s)) (section_table xxh3_64 (offset + length s) ss),
  length-to_le_bytes 8 offset,
  length-to_le_bytes 8 (length s),
  length-to_le_bytes 8 (xxh3_64 s),
  length-section_table xxh3_64 (offset + length s) ss,
)

-- A number that was written is read where it stands.
read_at :
    (e : ℕ) (n x : ℕ) (pre post : List ℕ)
    → e ≡ length pre
    → from_le_bytes (to_le_bytes n x) ≡ x
    → from_le_bytes (slice e (e + n) (pre ++ (to_le_bytes n x ++ post))) ≡ x
read_at e n x pre post h back =
    ap from_le_bytes
      (slice-append e (e + n) pre (to_le_bytes n x) post h (omega (arith, length-to_le_bytes n x)))
    ∙ back

read_second :
    (e n x : ℕ) (pre first post : List ℕ)
    → e ≡ length pre + length first
    → from_le_bytes (to_le_bytes n x) ≡ x
    → from_le_bytes (slice e (e + n) (pre ++ (first ++ (to_le_bytes n x ++ post)))) ≡ x
read_second e n x pre first post h back =
    ap (λ bs. from_le_bytes (slice e (e + n) bs))
      (sym (append_assoc pre first (to_le_bytes n x ++ post)))
    ∙ read_at e n x (pre ++ first) post (h ∙ sym (length-append pre first)) back

read_third :
    (e n x : ℕ) (pre first second post : List ℕ)
    → e ≡ length pre + length first + length second
    → from_le_bytes (to_le_bytes n x) ≡ x
    → from_le_bytes (slice e (e + n) (pre ++ (first ++ (second ++ (to_le_bytes n x ++ post))))) ≡ x
read_third e n x pre first second post h back =
    ap (λ bs. from_le_bytes (slice e (e + n) bs))
      (sym (append_assoc pre first (second ++ (to_le_bytes n x ++ post))))
    ∙ read_second e n x (pre ++ first) second post (omega (arith, length-append pre first)) back

pub from_le_bytes-to_le_bytes_4 : (x : ℕ) → x < 2 ^ 32 → from_le_bytes (to_le_bytes 4 x) ≡ x
unfolding to_le_bytes from_le_bytes
from_le_bytes-to_le_bytes_4 x h = omega arith

pub bytes_eq_refl : (bs : List ℕ) → bytes_eq bs bs ≡ true
bytes_eq_refl [] = refl
bytes_eq_refl (b ∷ bs) = ground (arith, bytes_eq_refl bs)

module _ (xxh3_64 : List ℕ → ℕ) (word : (bytes : List ℕ) → xxh3_64 bytes < 2 ^ 64) where
  parse_step :
      (mmap head : List ℕ) (i n offset len sum : ℕ) (s : List ℕ) (frames : List Frame)
      → from_le_bytes (slice (12 + i * 24) (12 + i * 24 + 8) head) ≡ offset
      → from_le_bytes (slice (12 + i * 24 + 8) (12 + i * 24 + 8 + 8) head) ≡ len
      → from_le_bytes (slice (12 + i * 24 + 16) (12 + i * 24 + 16 + 8) head) ≡ sum
      → leb (2 ^ 64) (offset + len) ≡ false
      → get_range offset (offset + len) mmap ≡ some s
      → xxh3_64 s ≡ sum
      → parse_sections xxh3_64 mmap head (i + 1) n ≡ ok frames
      → parse_sections xxh3_64 mmap head i (suc n) ≡ ok ((offset, offset + len) ∷ frames)
  unfolding parse_sections
  parse_step mmap head i n offset len sum s frames e1 e2 e3 small found hash rest =
      rw (e1, e2, e3, small, found, hash, ==_refl sum, rest) (ground arith)

  -- one entry of the section table
  abbrev entry_of : ℕ → List ℕ → List ℕ
  entry_of offset s =
      to_le_bytes 8 offset ++ (to_le_bytes 8 (length s) ++ to_le_bytes 8 (xxh3_64 s))

  section_table-cons :
      (offset : ℕ) (s : List ℕ) (ss : List (List ℕ)) (pre : List ℕ)
      → (pre ++ entry_of offset s) ++ section_table xxh3_64 (offset + length s) ss
        ≡ pre ++ section_table xxh3_64 offset (s ∷ ss)
  unfolding section_table
  section_table-cons offset s ss pre = simp append_assoc

  length-entry_of : (offset : ℕ) (s : List ℕ) → length (entry_of offset s) ≡ 24
  length-entry_of offset s = omega (
    arith,
    length-append (to_le_bytes 8 offset) (to_le_bytes 8 (length s) ++ to_le_bytes 8 (xxh3_64 s)),
    length-append (to_le_bytes 8 (length s)) (to_le_bytes 8 (xxh3_64 s)),
    length-to_le_bytes 8 offset,
    length-to_le_bytes 8 (length s),
    length-to_le_bytes 8 (xxh3_64 s),
  )

  -- The section table is parsed back, entry by entry.
  parse_sections-section_table :
      (i offset : ℕ) (ss : List (List ℕ)) (pre before : List ℕ)
      → length pre ≡ 12 + i * 24
      → length before ≡ offset
      → offset + length (concat ss) < 2 ^ 64
      → parse_sections xxh3_64
          (before ++ concat ss)
          (pre ++ section_table xxh3_64 offset ss)
          i
          (length ss)
        ≡ ok (frames_from offset ss)
  unfolding frames_from
  parse_sections-section_table i offset [] pre before p q room = unfold parse_sections in refl
  parse_sections-section_table i offset (s ∷ ss) pre before p q room =
      let table = section_table xxh3_64 (offset + length s) ss in
      let size = length-append s (concat ss) in
      let pre' = length-append pre (entry_of offset s) in
      let before' = length-append before s in
      let rest =
        parse_sections-section_table (i + 1) (offset + length s) ss (pre ++ entry_of offset s)
          (before ++ s) (omega (arith, pre', length-entry_of offset s)) (omega (arith, before'))
          (omega (arith, size)) in
      parse_step (before ++ (s ++ concat ss)) (pre ++ section_table xxh3_64 offset (s ∷ ss)) i
        (length ss) offset (length s) (xxh3_64 s) s (frames_from (offset + length s) ss)
        (unfold section_table in
          read_at (12 + i * 24) 8 offset pre _ (sym p)
            (from_le_bytes-to_le_bytes offset (omega (arith, size))))
        (unfold section_table in
          read_second (12 + i * 24 + 8) 8 (length s) pre (to_le_bytes 8 offset) _
            (omega (arith, length-to_le_bytes 8 offset))
            (from_le_bytes-to_le_bytes (length s) (omega (arith, size))))
        (unfold section_table in
          read_third (12 + i * 24 + 16) 8 (xxh3_64 s) pre (to_le_bytes 8 offset)
            (to_le_bytes 8 (length s)) table
            (omega (arith, length-to_le_bytes 8 offset, length-to_le_bytes 8 (length s)))
            (from_le_bytes-to_le_bytes (xxh3_64 s) (word s)))
        (ground (arith, size))
        (get_range-append offset (offset + length s) before s (concat ss) (sym q) (omega arith))
        refl
        (subst
          (λ h.
            parse_sections xxh3_64 (before ++ (s ++ concat ss)) h (i + 1) (length ss)
            ≡ ok (frames_from (offset + length s) ss))
          (section_table-cons offset s ss pre)
          (subst
            (λ m.
              parse_sections xxh3_64 m ((pre ++ entry_of offset s) ++ table) (i + 1) (length ss)
              ≡ ok (frames_from (offset + length s) ss))
            (append_assoc before s (concat ss)) rest))

  header_parts :
      (mmap head magic : List ℕ) (rows docs n : ℕ) (frames : List Frame)
      → get_range 0 (12 + n * 24) mmap ≡ some head
      → slice 0 4 head ≡ magic
      → from_le_bytes (slice 4 (4 + 4) head) ≡ rows
      → from_le_bytes (slice 8 (8 + 4) head) ≡ docs
      → parse_sections xxh3_64 mmap head 0 n ≡ ok frames
      → parse_header xxh3_64 mmap magic n ≡ ok (rows, docs, frames)
  unfolding parse_header
  header_parts mmap head magic rows docs n frames found magic_read rows_read docs_read parsed =
      rw (found, magic_read, bytes_eq_refl magic, parsed, rows_read, docs_read) refl

  parse_header-append :
      (magic : List ℕ) (rows docs : ℕ) (ss : List (List ℕ))
      → length magic ≡ 4
      → rows < 2 ^ 32
      → docs < 2 ^ 32
      → 12 + length ss * 24 + length (concat ss) < 2 ^ 64
      → let head =
          magic
          ++ (to_le_bytes 4 rows
              ++ (to_le_bytes 4 docs ++ section_table xxh3_64 (12 + length ss * 24) ss)) in
        parse_header xxh3_64 (head ++ concat ss) magic (length ss)
        ≡ ok (rows, docs, frames_from (12 + length ss * 24) ss)
  parse_header-append magic rows docs ss four hr hd room =
      let at = 12 + length ss * 24 in
      let table = section_table xxh3_64 at ss in
      let start = magic ++ (to_le_bytes 4 rows ++ to_le_bytes 4 docs) in
      let head = magic ++ (to_le_bytes 4 rows ++ (to_le_bytes 4 docs ++ table)) in
      let regroup : start ++ table ≡ head = simp append_assoc in
      let short : length start ≡ 12 = omega (
        arith,
        length-append magic (to_le_bytes 4 rows ++ to_le_bytes 4 docs),
        length-append (to_le_bytes 4 rows) (to_le_bytes 4 docs),
        length-to_le_bytes 4 rows,
        length-to_le_bytes 4 docs,
      ) in
      let long : length head ≡ at =
        ap length (sym regroup)
        ∙ omega (arith, length-append start table, length-section_table xxh3_64 at ss, short) in
      let found : get_range 0 at (head ++ concat ss) ≡ some head =
        get_range-append 0 at [] head (concat ss) refl (omega (arith, long)) in
      let magic_read : slice 0 4 head ≡ magic = slice-append 0 4 [] magic _ refl (omega arith) in
      let rows_read : from_le_bytes (slice 4 (4 + 4) head) ≡ rows =
        read_at 4 4 rows magic _ (sym four) (from_le_bytes-to_le_bytes_4 rows hr) in
      let docs_read : from_le_bytes (slice 8 (8 + 4) head) ≡ docs =
        read_second 8 4 docs magic (to_le_bytes 4 rows) table
          (omega (arith, length-to_le_bytes 4 rows)) (from_le_bytes-to_le_bytes_4 docs hd) in
      let parsed : parse_sections xxh3_64 (head ++ concat ss) head 0 (length ss)
          ≡ ok (frames_from at ss) =
        subst
          (λ h. parse_sections xxh3_64 (head ++ concat ss) h 0 (length ss) ≡ ok (frames_from at ss))
          regroup
          (parse_sections-section_table 0 at ss start head (omega (arith, short)) long room) in
      header_parts (head ++ concat ss) head magic rows docs (length ss) (frames_from at ss) found
        magic_read rows_read docs_read parsed

  -- A table that was written is parsed back: its counts, and where its sections stand. Its magic has
  -- four bytes, its counts have 32 bits and its size 64, and a hash has 64 bits.
  pub parse_header-file_bytes :
      (t : EncodedTable)
      → length t.magic ≡ 4
      → t.row_count < 2 ^ 32
      → t.doc_count < 2 ^ 32
      → 12 + length t.sections * 24 + length (concat t.sections) < 2 ^ 64
      → parse_header xxh3_64 (file_bytes xxh3_64 t) t.magic (length t.sections)
        ≡ ok (t.row_count, t.doc_count, frames_from (12 + length t.sections * 24) t.sections)
  unfolding file_bytes
  parse_header-file_bytes t four hr hd room =
      parse_header-append t.magic t.row_count t.doc_count t.sections four hr hd room

-- The bytes that a frame of the sections stands for.
pub frames_from-slice :
    (i offset : ℕ) (ss : List (List ℕ)) (before : List ℕ)
    → length before ≡ offset
    → slice
        (get_or (frames_from offset ss) i (0, 0)).0
        (get_or (frames_from offset ss) i (0, 0)).1
        (before ++ concat ss)
      ≡ get_or ss i []
unfolding frames_from
frames_from-slice i offset [] before h = refl
frames_from-slice zero offset (s ∷ ss) before h =
    slice-append offset (offset + length s) before s (concat ss) (sym h) (omega arith)
frames_from-slice (suc i) offset (s ∷ ss) before h =
    ap
      (λ bs.
        slice (get_or (frames_from (offset + length s) ss) i (0, 0)).0
          (get_or (frames_from (offset + length s) ss) i (0, 0)).1 bs)
      (sym (append_assoc before s (concat ss)))
    ∙ frames_from-slice i (offset + length s) ss (before ++ s)
        (omega (arith, length-append before s))

pub frames_from-length :
    (i offset : ℕ) (ss : List (List ℕ))
    → (get_or (frames_from offset ss) i (0, 0)).1 - (get_or (frames_from offset ss) i (0, 0)).0
      ≡ length (get_or ss i [])
unfolding frames_from
frames_from-length i offset [] = refl
frames_from-length zero offset (s ∷ ss) = omega arith
frames_from-length (suc i) offset (s ∷ ss) = frames_from-length i (offset + length s) ss
