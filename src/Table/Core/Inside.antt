-- ===== src/Table/Core/Inside.antt =====
-- `parse_header` of crates/greplm-core/src/table.rs on the bytes of any file.
use greplm.Common.{
  ℕ, zero, suc, ◌+◌, ◌*◌, ◌≤◌, ◌^◌, ◌≡◌, refl, sym, ap, subst, ◌∙◌, not, ◌&&◌, inl, inr, some, none,
  List, [], ◌∷◌, arith, ◌==◌, leb, Bool-cases, length, slice, get_range,
}
use greplm.Common.Result.{ok, corrupt, ok_or, ok_injective, ok_or-eq-ok, guard-eq-ok, >>=-eq-ok}
use greplm.Fst.{bytes_eq}
use greplm.Segment.Files.{from_le_bytes}
use greplm.Table.Core.{Frame, parse_sections, parse_header, sec_rows}

-- Every frame lies in the file.
abbrev pub FramesInside : ℕ → List Frame → Type 0
FramesInside size [] = Unit {0}
FramesInside size (f ∷ fs) = (f.0 ≤ f.1) × (f.1 ≤ size) × FramesInside size fs

get_range-inside :
    (lo hi : ℕ) (bytes found : List ℕ)
    → get_range lo hi bytes ≡ some found
    → (lo ≤ hi) × (hi ≤ length bytes)
get_range-inside lo hi bytes found h = elim (Bool-cases (leb lo hi && leb hi (length bytes))) [
  | inl e ↦ (ground arith, ground arith)
  | inr e ↦ let missing : none ≡ some found = sym (rw e refl) ∙ h in absurd (cc missing)
]

module _ (xxh3_64 : List ℕ → ℕ) where
  parse_sections-FramesInside :
      (mmap head : List ℕ) (i n : ℕ) (frames : List Frame)
      → parse_sections xxh3_64 mmap head i n ≡ ok frames
      → (length frames ≡ n) × FramesInside (length mmap) frames
  unfolding parse_sections
  parse_sections-FramesInside mmap head i zero frames h =
      let e : [] ≡ frames = ok_injective h in
      (ap length (sym e), subst (FramesInside (length mmap)) e tt)
  parse_sections-FramesInside mmap head i (suc n) frames h =
      let e = 12 + i * 24 in
      let offset = from_le_bytes (slice e (e + 8) head) in
      let len = from_le_bytes (slice (e + 8) (e + 8 + 8) head) in
      let sum = from_le_bytes (slice (e + 16) (e + 16 + 8) head) in
      let (fits, past) = guard-eq-ok (leb (2 ^ 64) (offset + len)) corrupt _ h in
      let (bytes, found, checked) =
        >>=-eq-ok (ok_or (get_range offset (offset + len) mmap) corrupt) _ past in
      let (matches, last) =
        guard-eq-ok (not (i == sec_rows) && not (xxh3_64 bytes == sum)) corrupt _ checked in
      let (rest, parsed, made) = >>=-eq-ok (parse_sections xxh3_64 mmap head (i + 1) n) _ last in
      let (count, inside) = parse_sections-FramesInside mmap head (i + 1) n rest parsed in
      let (low, high) =
        get_range-inside offset (offset + len) mmap bytes (ok_or-eq-ok _ corrupt found) in
      let same : (offset, offset + len) ∷ rest ≡ frames = ok_injective made in
      (
        ap length (sym same) ∙ ap suc count,
        subst (FramesInside (length mmap)) same (low, high, inside),
      )

  -- If the header of a file is accepted, whatever the file's bytes are, it names as many sections as
  -- the caller asked for, and each of them lies in the file, its start not after its end.
  pub parse_header-FramesInside :
      (mmap magic : List ℕ) (n rows docs : ℕ) (frames : List Frame)
      → parse_header xxh3_64 mmap magic n ≡ ok (rows, docs, frames)
      → (length frames ≡ n) × FramesInside (length mmap) frames
  unfolding parse_header
  parse_header-FramesInside mmap magic n rows docs frames h =
      let (head, found, past) = >>=-eq-ok (ok_or (get_range 0 (12 + n * 24) mmap) corrupt) _ h in
      let (matches, checked) = guard-eq-ok (not (bytes_eq (slice 0 4 head) magic)) corrupt _ past in
      let (sections, parsed, last) = >>=-eq-ok (parse_sections xxh3_64 mmap head 0 n) _ checked in
      let same : sections ≡ frames = ap (λ r. r.2) (ok_injective last) in
      subst (λ fs. (length fs ≡ n) × FramesInside (length mmap) fs) same
        (parse_sections-FramesInside mmap head 0 n sections parsed)
