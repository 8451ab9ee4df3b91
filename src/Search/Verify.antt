-- ===== src/Search/Verify.antt =====
-- `verify_doc` of crates/greplm-core/src/search.rs: the hits of a file. Numbers of type `f32` and the
-- display of a line are parameters.
pub mod Hits
use greplm.Common.{
  ℕ, zero, suc, ◌+◌, ◌-◌, ◌%◌, ◌^◌, Bool, true, false, not, ◌&&◌, ◌||◌, Option, none, some, List,
  [], ◌∷◌, ◌++◌, ◌==◌, ltb, leb, if◌then◌else◌, length, get_or, take, any, is_empty, filter,
}
use greplm.Common.Utf8.{ascii_lower}
use greplm.Segment.{Text, DocMeta}
use greplm.Search.{Memchr, BytesRegex, Matcher, match_starts, line_starts, line_of, line_slice}
use greplm.Search.Cache.{Lru, ContentCache, get_or_read}

-- The arithmetic of `f32` that the scores use, with the constants of the source.
pub record F32 : Type 1 where
  pub Num : Type 0
  pub of_nat : ℕ → Num
  pub five_hundredths : Num
  pub three_halves : Num
  pub add : Num → Num → Num
  pub sub : Num → Num → Num
  pub mul : Num → Num → Num
  pub gt : Num → Num → Bool

pub record SearchHit (f : F32) : Type 0 where
  pub path : Text
  pub lang : Text
  pub line : ℕ
  pub column : ℕ
  pub text : Text
  pub score : f.Num

abbrev pub per_file_match_cap : ℕ
per_file_match_cap = 4096

unfoldable pub starts_with : Text → Text → Bool
starts_with [] hay = true
starts_with (x ∷ needle) [] = false
starts_with (x ∷ needle) (y ∷ hay) = x == y && starts_with needle hay

-- `str::contains`
unfoldable pub contains_str : Text → Text → Bool
unfolding starts_with
contains_str needle [] = is_empty needle
contains_str needle (y ∷ hay) = starts_with needle (y ∷ hay) || contains_str needle hay

-- the words of `path_score`
abbrev test : Text
test = b't' ∷ b'e' ∷ b's' ∷ b't' ∷ []

abbrev tests_dir : Text
tests_dir = b'/' ∷ b't' ∷ b'e' ∷ b's' ∷ b't' ∷ b's' ∷ b'/' ∷ []

abbrev tests_word : Text
tests_word = b'_' ∷ b'_' ∷ b't' ∷ b'e' ∷ b's' ∷ b't' ∷ b's' ∷ b'_' ∷ b'_' ∷ []

abbrev dot_test : Text
dot_test = b'.' ∷ b't' ∷ b'e' ∷ b's' ∷ b't' ∷ b'.' ∷ []

abbrev dot_spec : Text
dot_spec = b'.' ∷ b's' ∷ b'p' ∷ b'e' ∷ b'c' ∷ b'.' ∷ []

abbrev vendor_dir : Text
vendor_dir = b'/' ∷ b'v' ∷ b'e' ∷ b'n' ∷ b'd' ∷ b'o' ∷ b'r' ∷ b'/' ∷ []

abbrev generated_dir : Text
generated_dir = b'/' ∷ b'g' ∷ b'e' ∷ b'n' ∷ b'e' ∷ b'r' ∷ b'a' ∷ b't' ∷ b'e' ∷ b'd' ∷ b'/' ∷ []

abbrev dot_min : Text
dot_min = b'.' ∷ b'm' ∷ b'i' ∷ b'n' ∷ b'.' ∷ []

module _ (f : F32) where
  unfoldable pub path_score : Text → f.Num
  unfolding contains_str
  path_score path =
      let s =
        f.sub (f.of_nat 0)
          (f.mul (f.of_nat (length (filter (λ b. b == b'/') path))) f.five_hundredths) in
      let lower = ascii_lower path in
      let tests =
        contains_str test lower
        || contains_str tests_dir lower
        || contains_str tests_word lower
        || contains_str dot_test lower
        || contains_str dot_spec lower in
      let s' = if tests then f.sub s (f.of_nat 1) else s in
      let generated =
        contains_str vendor_dir lower
        || contains_str generated_dir lower
        || contains_str dot_min lower in
      if generated then f.sub s' f.three_halves else s'

-- What a line is shown as: `String::from_utf8_lossy`, and `trim_end` after it.
pub record Display : Type 0 where
  pub lossy : List ℕ → Text
  pub trim_end : Text → Text

-- `str::is_char_boundary`, on UTF-8
unfoldable pub is_char_boundary : Text → ℕ → Bool
is_char_boundary s i =
    i == 0
    || i == length s
    || (ltb i (length s) && not (leb 0x80 (get_or s i 0) && leb (get_or s i 0) 0xBF))

-- the `while` that steps back to a boundary; 0 is one
unfoldable pub floor_boundary : Text → ℕ → ℕ
unfolding is_char_boundary
floor_boundary s zero = 0
floor_boundary s (suc n) =
    let before = floor_boundary s n in if is_char_boundary s (suc n) then suc n else before

unfoldable pub snippet : Display → List ℕ → Text
unfolding floor_boundary
snippet d line =
    let trimmed = d.trim_end (d.lossy line) in
    if ltb 320 (length trimmed)
    then take (floor_boundary trimmed 320) trimmed ++ 0xE2 ∷ 0x80 ∷ 0xA6 ∷ []
    else trimmed

module _ (f : F32) (d : Display) (doc : DocMeta) (sym_lines : List ℕ) (bytes : List ℕ)
    (starts : List ℕ) where
  unfoldable pub line_no_of : ℕ → ℕ
  unfolding line_of
  line_no_of start = (line_of start starts % 2 ^ 32 + 1) % 2 ^ 32

  -- the hit of a match
  unfoldable pub hit_at : ℕ → SearchHit f
  unfolding line_no_of snippet path_score line_slice
  hit_at start =
      let li = line_of start starts in
      let score = f.add (f.of_nat 1) (path_score f doc.path) in
      record {
        path = doc.path;
        lang = doc.lang;
        line = line_no_of start;
        column = ((start - get_or starts li 0) % 2 ^ 32 + 1) % 2 ^ 32;
        text = snippet d (line_slice bytes starts li);
        score =
            if any (λ l. l == line_no_of start) sym_lines then f.add score (f.of_nat 3) else score;
      }

  -- the loop over the matches: one hit per line
  unfoldable pub hits_from : ℕ → List (ℕ × ℕ) → List (SearchHit f)
  unfolding hit_at
  hits_from last_line [] = []
  hits_from last_line ((start, end) ∷ ps) =
      let same_line = hits_from last_line ps in
      let next_line = hits_from (line_no_of start) ps in
      if line_no_of start == last_line then same_line else hit_at start ∷ next_line

-- The order that a file's hits are ranked in; the sort is stable.
unfoldable pub ranks_before : (f : F32) → SearchHit f → SearchHit f → Bool
ranks_before f a b = f.gt a.score b.score || (not (f.gt b.score a.score) && leb a.line b.line)

unfoldable pub insert_hit : (f : F32) → SearchHit f → List (SearchHit f) → List (SearchHit f)
unfolding ranks_before
insert_hit f x [] = x ∷ []
insert_hit f x (y ∷ ys) =
    let rest = insert_hit f x ys in if ranks_before f x y then x ∷ y ∷ ys else y ∷ rest

unfoldable pub sort_hits : (f : F32) → List (SearchHit f) → List (SearchHit f)
unfolding insert_hit
sort_hits f [] = []
sort_hits f (x ∷ xs) = insert_hit f x (sort_hits f xs)

-- What is kept of a file's hits.
unfoldable pub keep_best : (f : F32) → Bool → ℕ → List (SearchHit f) → List (SearchHit f)
unfolding sort_hits
keep_best f exhaustive max_per_file out =
    if not exhaustive && ltb max_per_file (length out)
    then take max_per_file (sort_hits f out)
    else out

module _ (f : F32) (d : Display) (m : Memchr) (r : BytesRegex) (matcher : Matcher r) where
  -- from the bytes of the file on
  unfoldable pub hits_of_bytes : DocMeta → List ℕ → ℕ → Bool → Bool → List ℕ → List (SearchHit f)
  unfolding match_starts line_starts hits_from keep_best
  hits_of_bytes doc sym_lines max_per_file whole_word exhaustive bytes =
      let cap = if exhaustive then 2 ^ 64 - 1 else per_file_match_cap in
      let matches = match_starts m r matcher bytes whole_word cap in
      if is_empty matches
      then []
      else keep_best f exhaustive max_per_file
          (hits_from f d doc sym_lines bytes (line_starts m bytes) 0 matches)

  -- `doc` and `sym_lines` are what the segment has for the document; `read` is what reading its path
  -- gives. The cache is returned as well.
  unfoldable pub verify_doc :
      (l : Lru)
      → ContentCache l
      → Option DocMeta
      → List ℕ
      → Option (List ℕ)
      → ℕ
      → Bool
      → Bool
      → List (SearchHit f) × ContentCache l
  unfolding get_or_read hits_of_bytes
  verify_doc l content none sym_lines read max_per_file whole_word exhaustive = ([], content)
  verify_doc l content (some doc) sym_lines read max_per_file whole_word exhaustive =
      let found = get_or_read l content doc.hash read in
      elim found.0 [
        | none ↦ ([], found.1)
        | some bytes ↦
            (hits_of_bytes doc sym_lines max_per_file whole_word exhaustive bytes, found.1)
      ]
