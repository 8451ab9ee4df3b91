-- ===== src/Search.antt =====
-- crates/greplm-core/src/search.rs: queries, and how the bytes of a file are searched. The crates
-- memchr and regex are parameters.
pub mod Cache
pub mod Lines
pub mod Verify
pub mod Targets
pub mod Matching
pub mod Paging
use greplm.Common.{
  ℕ, zero, suc, ◌+◌, ◌-◌, ◌*◌, ◌^◌, ◌≡◌, min, Bool, true, false, not, ◌&&◌, ◌||◌, Option, none,
  some, List, [], ◌∷◌, ◌++◌, map, ◌==◌, ltb, leb, if◌then◌else◌, length, get_or, slice, take, drop,
  filter, is_empty,
}
use greplm.Common.Result.{Result, ok, err, regex, ok_or, ◌>>=◌}
use greplm.Common.Utf8.{is_ascii_alphanumeric}
use greplm.Segment.{Text}

pub record SearchQuery : Type 0 where
  pub pattern : Text
  pub regex : Bool
  pub case_insensitive : Bool
  pub whole_word : Bool
  pub lang : Option Text
  pub path : Option Text
  pub limit : ℕ
  pub offset : ℕ
  pub max_per_file : ℕ
  pub exhaustive : Bool

-- `SearchQuery::default`
abbrev pub default_query : SearchQuery
default_query = record {
  pattern = [];
  regex = false;
  case_insensitive = false;
  whole_word = false;
  lang = none;
  path = none;
  limit = 50;
  offset = 0;
  max_per_file = 20;
  exhaustive = false;
}

-- `memchr::memchr_iter` and `memmem::find_iter`, as the positions that they give.
pub record Memchr : Type 0 where
  pub memchr_iter : ℕ → List ℕ → List ℕ
  pub find_iter : List ℕ → List ℕ → List ℕ

-- where a byte stands, in a text that starts at a position
unfoldable pub positions_from : ℕ → ℕ → List ℕ → List ℕ
positions_from i b [] = []
positions_from i b (x ∷ xs) =
    let rest = positions_from (i + 1) b xs in if x == b then i ∷ rest else rest

-- The documented behaviour of `memchr_iter`: all positions of the byte, in order.
pub record MemchrLaws (m : Memchr) : Type 0 where
  pub memchr_iter_lem : (b : ℕ) (hay : List ℕ) → m.memchr_iter b hay ≡ positions_from 0 b hay

module _ (m : Memchr) where
  unfoldable pub line_starts : List ℕ → List ℕ
  line_starts bytes = 0 ∷ map (λ p. p + 1) (m.memchr_iter b'\n' bytes)

-- `slice::partition_point` on a list whose elements that pass stand in front
unfoldable pub partition_point : (ℕ → Bool) → List ℕ → ℕ
partition_point p [] = 0
partition_point p (x ∷ xs) = let rest = partition_point p xs in if p x then suc rest else 0

unfoldable pub line_of : ℕ → List ℕ → ℕ
unfolding partition_point
line_of off starts = partition_point (λ s. leb s off) starts - 1

unfoldable pub line_slice : List ℕ → List ℕ → ℕ → List ℕ
line_slice bytes starts li =
    let end = if ltb (li + 1) (length starts) then get_or starts (li + 1) 0 - 1 else length bytes in
    slice (get_or starts li 0) (min end (length bytes)) bytes

unfoldable pub is_ident_byte : ℕ → Bool
is_ident_byte b = b == b'_' || is_ascii_alphanumeric b || leb 0x80 b

unfoldable pub boundary_ok : List ℕ → ℕ → ℕ → Bool
unfolding is_ident_byte
boundary_ok line start end =
    let left = start == 0 || not (is_ident_byte (get_or line (start - 1) 0)) in
    let right = leb (length line) end || not (is_ident_byte (get_or line end 0)) in left && right

-- The crate regex: compiled expressions, and the matches of one in a text, as start and end.
pub record BytesRegex : Type 1 where
  pub Regex : Type 0
  pub build : Text → Bool → Option Regex
  pub escape : Text → Text
  pub find_iter : Regex → List ℕ → List (ℕ × ℕ)

pub data Matcher (r : BytesRegex) : Type 0 where
  literal : List ℕ → Matcher r
  regex_matcher : r.Regex → Matcher r

module _ (r : BytesRegex) where
  unfoldable pub build_matcher : SearchQuery → Result (Matcher r)
  build_matcher query =
      if query.regex
      then (do
        re ← ok_or (r.build query.pattern query.case_insensitive) regex
        ok (regex_matcher re))
      else if query.case_insensitive
      then (do re ← ok_or (r.build (r.escape query.pattern) true) regex; ok (regex_matcher re))
      else ok (literal query.pattern)

-- The loops of `match_starts` from some matches on: a match that is kept is pushed, and the loop ends
-- when `cap` matches were pushed.
unfoldable pub collect : (ℕ × ℕ → Bool) → ℕ → List (ℕ × ℕ) → List (ℕ × ℕ) → List (ℕ × ℕ)
collect keep cap out [] = out
collect keep cap out (p ∷ ps) =
    let skipped = collect keep cap out ps in
    let pushed = collect keep cap (out ++ p ∷ []) ps in
    if keep p then (if leb cap (length (out ++ p ∷ [])) then out ++ p ∷ [] else pushed) else skipped

-- the test on a match in the loops
abbrev pub counts : List ℕ → Bool → ℕ × ℕ → Bool
counts hay whole_word (start, end) = not whole_word || boundary_ok hay start end

module _ (m : Memchr) (r : BytesRegex) where
  unfoldable pub match_starts : Matcher r → List ℕ → Bool → ℕ → List (ℕ × ℕ)
  unfolding collect boundary_ok
  match_starts (literal needle) hay whole_word cap =
      if is_empty needle
      then []
      else collect (counts hay whole_word) cap []
          (map (λ pos. (pos, pos + length needle)) (m.find_iter needle hay))
  match_starts (regex_matcher re) hay whole_word cap =
      collect (λ p. not (p.0 == p.1) && counts hay whole_word p) cap [] (r.find_iter re hay)
