-- ===== src/Examples/Searching.antt =====
-- The theorems on the search of a file and on the content cache at concrete inputs.
use greplm.Common.{
  ℕ, zero, suc, ◌+◌, ◌-◌, ◌≤◌, ◌<◌, ◌^◌, ◌≡◌, refl, sym, ap, subst, max, true, false, not, inl, inr,
  Option, none, some, List, [], ◌∷◌, ◌++◌, map, arith, ltb, if◌then◌else◌, Bool-cases, length,
  get_or, take, drop, all,
}
use greplm.Common.Member.{elem, IsAscending}
use greplm.Segment.{Text, DocMeta}
use greplm.Search.{
  Memchr, MemchrLaws, BytesRegex, Matcher, literal, positions_from, line_starts, line_of,
  match_starts, boundary_ok,
}
use greplm.Search.Cache.{Lru, LruLaws, lookup, remove, touch, new_cache, get_or_read}
use greplm.Search.Cache.Budget.{Request, total, after, after-new_cache}
use greplm.Search.Cache.Content.{get_or_read-after}
use greplm.Search.Lines.{newline, line_of-line_starts}
use greplm.Search.Matching.{InOrder, IterLaws, all_matches, match_starts_lem}
use greplm.Search.Verify.{F32, Display, starts_with, hits_of_bytes}
use greplm.Search.Verify.Hits.{line_number, hits_of_bytes-lines}

-- The occurrences of a needle, from position `i` on and after `skip` more bytes, without overlaps.
abbrev occurrences : ℕ → ℕ → List ℕ → List ℕ → List ℕ
unfolding starts_with
occurrences skip i needle [] = []
occurrences (suc skip) i needle (x ∷ xs) = occurrences skip (i + 1) needle xs
occurrences zero i needle (x ∷ xs) =
    let found = occurrences (length needle - 1) (i + 1) needle xs in
    let missed = occurrences zero (i + 1) needle xs in
    if starts_with needle (x ∷ xs) then i ∷ found else missed

abbrev span : ℕ → ℕ → ℕ × ℕ
span n pos = (pos, pos + n)

occurrences-InOrder :
    (skip i lo n : ℕ) (needle hay : List ℕ)
    → lo ≤ i
    → InOrder lo (i + length hay) (map (span n) (occurrences skip i needle hay))
unfolding occurrences
occurrences-InOrder skip i lo n needle [] h = tt
occurrences-InOrder (suc skip) i lo n needle (x ∷ xs) h =
    let e : i + 1 + length xs ≡ i + suc (length xs) = omega arith in
    rw (sym e) (occurrences-InOrder skip (i + 1) lo n needle xs (omega arith))
occurrences-InOrder zero i lo n needle (x ∷ xs) h =
    let e : i + 1 + length xs ≡ i + suc (length xs) = omega arith in
    elim (Bool-cases (starts_with needle (x ∷ xs))) [
      | inl found ↦
          rw (found, sym e)
            (
              h,
              omega arith,
              occurrences-InOrder (length needle - 1) (i + 1) i n needle xs (omega arith),
            )
      | inr missed ↦
          rw (missed, sym e) (occurrences-InOrder zero (i + 1) lo n needle xs (omega arith))
    ]

abbrev scans : Memchr
unfolding occurrences positions_from
scans = record {
  memchr_iter = λ b hay. positions_from 0 b hay;
  find_iter = λ needle hay. occurrences 0 0 needle hay;
}

scans-MemchrLaws : MemchrLaws scans
unfolding scans
scans-MemchrLaws = record { memchr_iter_lem = λ b hay. refl }

-- Expressions that are literals.
abbrev pub literals : BytesRegex
unfolding occurrences
literals = record {
  Regex = Text;
  build = λ p ci. some p;
  escape = λ p. p;
  find_iter = λ needle hay. map (span (length needle)) (occurrences 0 0 needle hay);
}

in_order :
    (needle hay : List ℕ)
    → InOrder 0 (length hay) (map (span (length needle)) (occurrences 0 0 needle hay))
in_order needle hay =
    let e : 0 + length hay ≡ length hay = omega arith in
    subst (λ (n : ℕ). InOrder 0 n (map (span (length needle)) (occurrences 0 0 needle hay))) e
      (occurrences-InOrder 0 0 0 (length needle) needle hay (omega arith))

scans-IterLaws : IterLaws scans literals
unfolding scans literals
scans-IterLaws = record {
  literal_in_order = λ needle hay. in_order needle hay;
  regex_in_order = λ needle hay. in_order needle hay;
}

-- `ab`, a newline, `xab`
abbrev two_lines : List ℕ
two_lines = b'a' ∷ b'b' ∷ b'\n' ∷ b'x' ∷ b'a' ∷ b'b' ∷ []

line_of-line_starts_example :
    (line_of 4 (line_starts scans two_lines) ≡ 1)
    × (get_or (line_starts scans two_lines) (line_of 4 (line_starts scans two_lines)) 0 ≤ 4)
    × (all
          (λ b. not (newline b))
          (drop
            (get_or (line_starts scans two_lines) (line_of 4 (line_starts scans two_lines)) 0)
            (take 4 two_lines))
        ≡ true)
line_of-line_starts_example = line_of-line_starts scans scans-MemchrLaws 4 two_lines (omega arith)

abbrev ab : Matcher literals
unfolding literals
ab = literal (b'a' ∷ b'b' ∷ [])

match_starts_lem_example :
    match_starts scans literals ab two_lines true 5
    ≡ take 5 (all_matches scans literals ab two_lines true)
match_starts_lem_example =
    match_starts_lem scans literals scans-IterLaws ab two_lines true 5 (omega arith)

-- Numbers for scores, all of them natural.
abbrev naturals : F32
naturals = record {
  Num = ℕ;
  of_nat = λ n. n;
  five_hundredths = 0;
  three_halves = 1;
  add = λ a b. a + b;
  sub = λ a b. a - b;
  mul = λ a b. a;
  gt = λ a b. ltb b a;
}

abbrev plain : Display
plain = record { lossy = λ line. line; trim_end = λ line. line }

abbrev one_file : DocMeta
one_file = record { path = b'a' ∷ []; lang = []; size = 6; hash = 7; lines = 2 }

few_matches : length (all_matches scans literals ab two_lines false) < 2 ^ 64
unfolding all_matches ab scans occurrences boundary_ok starts_with
few_matches = omega arith

hits_of_bytes-lines_example :
    IsAscending (
      map
        (λ h. h.line)
        (hits_of_bytes naturals plain scans literals ab one_file [] 20 false true two_lines))
    × (elem 2 (
          map
            (λ h. h.line)
            (hits_of_bytes naturals plain scans literals ab one_file [] 20 false true two_lines))
        ≡ elem 2
            (map (λ p. line_number two_lines p.0) (all_matches scans literals ab two_lines false)))
hits_of_bytes-lines_example =
    hits_of_bytes-lines naturals plain scans scans-MemchrLaws one_file [] two_lines (omega arith)
      literals scans-IterLaws ab 20 false 2 few_matches

-- Entries from the most to the least recently used.
abbrev onto :
    ℕ × List ℕ
    → Option ((ℕ × List ℕ) × List (ℕ × List ℕ))
    → Option ((ℕ × List ℕ) × List (ℕ × List ℕ))
onto e none = some (e, [])
onto e (some (last, rest)) = some (last, e ∷ rest)

abbrev pop_last : List (ℕ × List ℕ) → Option ((ℕ × List ℕ) × List (ℕ × List ℕ))
pop_last [] = none
pop_last (e ∷ es) = onto e (pop_last es)

onto-some : (e : ℕ × List ℕ) (o : Option ((ℕ × List ℕ) × List (ℕ × List ℕ))) → onto e o ≡ none → ⊥
onto-some e none h = cc h
onto-some e (some (last, rest)) h = cc h

pop_last-none : (es : List (ℕ × List ℕ)) → pop_last es ≡ none → es ≡ []
pop_last-none [] h = refl
pop_last-none (e ∷ es) h = absurd (onto-some e (pop_last es) h)

abbrev Split : List (ℕ × List ℕ) → Option ((ℕ × List ℕ) × List (ℕ × List ℕ)) → Type 0
Split es none = es ≡ []
Split es (some (last, rest)) = es ≡ rest ++ last ∷ []

onto-Split :
    (e : ℕ × List ℕ) (es : List (ℕ × List ℕ)) (o : Option ((ℕ × List ℕ) × List (ℕ × List ℕ)))
    → Split es o
    → Split (e ∷ es) (onto e o)
onto-Split e es none h = ap (◌∷◌ e) h
onto-Split e es (some (last, rest)) h = ap (◌∷◌ e) h

pop_last-Split : (es : List (ℕ × List ℕ)) → Split es (pop_last es)
pop_last-Split [] = refl
pop_last-Split (e ∷ es) = onto-Split e es (pop_last es) (pop_last-Split es)

abbrev used_lists : Lru
used_lists = record {
  Map = List (ℕ × List ℕ);
  unbounded = [];
  len = λ es. length es;
  get = λ es k. (lookup k es, touch k (lookup k es) es);
  put = λ es k v. (lookup k es, (k, v) ∷ remove k es);
  pop_lru = pop_last;
}

used_lists-LruLaws : LruLaws used_lists
used_lists-LruLaws = record {
  entries = λ es. es;
  unbounded_lem = refl;
  len_lem = λ es. refl;
  get_value = λ es k. refl;
  get_entries = λ es k. refl;
  put_value = λ es k v. refl;
  put_entries = λ es k v. refl;
  pop_none = λ es h. pop_last-none es h;
  pop_some = λ es rest e h. subst (Split es) h (pop_last-Split es);
}

-- Three requests, of which the last evicts the first file.
abbrev requests : List Request
requests = (1, some two_lines) ∷ (2, none) ∷ (3, some (b'z' ∷ [])) ∷ []

after-new_cache_example :
    ((after used_lists (new_cache used_lists 6) requests).inner.bytes
      ≡ total (
          used_lists-LruLaws.entries
            (after used_lists (new_cache used_lists 6) requests).inner.map))
    × (total (
          used_lists-LruLaws.entries (after used_lists (new_cache used_lists 6) requests).inner.map)
        ≤ max 6 1)
after-new_cache_example = after-new_cache used_lists used_lists-LruLaws 6 requests (omega arith)

-- The files by their hashes.
abbrev source : ℕ → Option (List ℕ)
source (suc zero) = some two_lines
source (suc (suc (suc zero))) = some (b'z' ∷ [])
source _ = none

get_or_read-after_example :
    (get_or_read used_lists
      (after used_lists (new_cache used_lists 6) requests)
      3
      (some (b'z' ∷ []))).0
    ≡ some (b'z' ∷ [])
get_or_read-after_example =
    get_or_read-after used_lists used_lists-LruLaws source 6 requests 3 (b'z' ∷ [])
      (refl, (refl, tt)) refl
