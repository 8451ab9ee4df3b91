-- ===== src/Search/Lines.antt =====
-- `line_starts`, `line_of` and `line_slice` of crates/greplm-core/src/search.rs.
use greplm.Common.{
  ℕ, zero, suc, ◌+◌, ◌-◌, ◌≤◌, ◌<◌, ◌≡◌, refl, sym, ap, subst, ◌∙◌, Bool, true, false, not, inl,
  inr, List, [], ◌∷◌, ◌++◌, map, arith, ◌==◌, leb, Bool-cases, length, length-append, get_or, take,
  drop, filter, all, all-append,
}
use mathlib.Core.List.{append_assoc, append-nil}
use greplm.Common.Positions.{drop-beyond}
use greplm.Search.{Memchr, MemchrLaws, positions_from, line_starts, partition_point, line_of}

abbrev pub newline : ℕ → Bool
newline b = b == b'\n'

abbrev other : ℕ → Bool
other b = not (newline b)

-- the lines that begin after position `i`
abbrev later : ℕ → List ℕ → List ℕ
later i bytes = map (λ p. p + 1) (positions_from i b'\n' bytes)

abbrev upto : ℕ → List ℕ → ℕ
upto off starts = partition_point (λ s. leb s off) starts

-- The line of an offset, and where it starts: how many newlines are before the offset, and none is
-- between the start and the offset.
record StartHolds (off line start : ℕ) (before : List ℕ) : Type 0 where
  pub line_eq : line ≡ length (filter newline before)
  pub start_le : start ≤ off
  pub none_between : all other (drop start before) ≡ true

filter-append : (p : ℕ → Bool) (xs ys : List ℕ) → filter p (xs ++ ys) ≡ filter p xs ++ filter p ys
filter-append p [] ys = refl
filter-append p (x ∷ xs) ys = ground (arith, filter-append p xs ys)

drop-append-le : (n : ℕ) (xs ys : List ℕ) → n ≤ length xs → drop n (xs ++ ys) ≡ drop n xs ++ ys
drop-append-le zero xs ys h = refl
drop-append-le (suc n) [] ys h = absurd (omega arith)
drop-append-le (suc n) (x ∷ xs) ys h = drop-append-le n xs ys (omega arith)

none_upto : (i off : ℕ) (bytes : List ℕ) → off ≤ i → upto off (later i bytes) ≡ 0
unfolding partition_point positions_from
none_upto i off [] h = refl
none_upto i off (b ∷ bytes) h = elim (Bool-cases (newline b)) [
  | inl e ↦ rw e (ground arith)
  | inr e ↦ rw e (none_upto (i + 1) off bytes (omega arith))
]

-- The search for the line, from position `i` on: `first` lines began before, the last one at `start`.
abbrev Found : ℕ → ℕ → ℕ → ℕ → List ℕ → List ℕ → Type 0
Found first start off i before bytes =
    StartHolds off (first + upto off (later i bytes))
      (get_or (start ∷ later i bytes) (upto off (later i bytes)) 0) (before ++ take (off - i) bytes)

Found-here :
    (first start off i : ℕ) (before bytes : List ℕ)
    → i ≡ length before
    → first ≡ length (filter newline before)
    → start ≤ i
    → all other (drop start before) ≡ true
    → off ≡ i
    → Found first start off i before bytes
Found-here first start off i before bytes at count low clean here =
    let zero_left : off - i ≡ 0 = omega arith in
    rw (none_upto i off bytes (omega arith), zero_left, append-nil before)
      record { line_eq = omega (arith, count); start_le = omega arith; none_between = clean }

Found-newline :
    (first start off i b : ℕ) (before bytes : List ℕ)
    → newline b ≡ true
    → i < off
    → Found (first + 1) (i + 1) off (i + 1) (before ++ b ∷ []) bytes
    → Found first start off i before (b ∷ bytes)
unfolding positions_from partition_point
Found-newline first start off i b before bytes e inside h =
    let u = upto off (later (i + 1) bytes) in
    let reached : leb (i + 1) off ≡ true = ground arith in
    let count : first + suc u ≡ first + 1 + u = omega arith in
    let left : off - i ≡ suc (off - (i + 1)) = omega arith in
    rw (e, reached, left, count, sym (append_assoc before (b ∷ []) (take (off - (i + 1)) bytes))) h

Found-other :
    (first start off i b : ℕ) (before bytes : List ℕ)
    → newline b ≡ false
    → i < off
    → Found first start off (i + 1) (before ++ b ∷ []) bytes
    → Found first start off i before (b ∷ bytes)
unfolding positions_from partition_point
Found-other first start off i b before bytes e inside h =
    let left : off - i ≡ suc (off - (i + 1)) = omega arith in
    rw (e, left, sym (append_assoc before (b ∷ []) (take (off - (i + 1)) bytes))) h

lines_from :
    (first start off i : ℕ) (before bytes : List ℕ)
    → i ≡ length before
    → first ≡ length (filter newline before)
    → start ≤ i
    → all other (drop start before) ≡ true
    → i ≤ off
    → off ≤ i + length bytes
    → Found first start off i before bytes
lines_from first start off i before [] at count low clean above inside =
    Found-here first start off i before [] at count low clean (omega arith)
lines_from first start off i before (b ∷ bytes) at count low clean above inside =
    elim (Bool-cases (off == i)) [
      | inl here ↦ Found-here first start off i before (b ∷ bytes) at count low clean (ground arith)
      | inr there ↦
          let further : i < off = ground arith in
          let at' : i + 1 ≡ length (before ++ b ∷ []) =
            omega (arith, length-append before (b ∷ [])) in
          let counted : length (filter newline (before ++ b ∷ []))
              ≡ first + length (filter newline (b ∷ [])) =
            ap length (filter-append newline before (b ∷ []))
            ∙ omega
                (arith, length-append (filter newline before) (filter newline (b ∷ [])), count) in
          elim (Bool-cases (newline b)) [
            | inl e ↦ Found-newline first start off i b before bytes e further (
                lines_from (first + 1) (i + 1) off (i + 1) (before ++ b ∷ []) bytes at'
                  (ground (arith, counted)) (omega arith)
                  (rw (drop-beyond (before ++ b ∷ []) (i + 1) (omega arith)) refl) (omega arith)
                  (omega arith))
            | inr e ↦ Found-other first start off i b before bytes e further (
                lines_from first start off (i + 1) (before ++ b ∷ []) bytes at'
                  (ground (arith, counted)) (omega arith)
                  (rw (drop-append-le start before (b ∷ []) (omega arith))
                    (ground (arith, all-append other (drop start before) (b ∷ []))))
                  (omega arith) (omega arith))
          ]
    ]

line_starts_lem :
    (m : Memchr) → MemchrLaws m → (bytes : List ℕ) → line_starts m bytes ≡ 0 ∷ later 0 bytes
unfolding line_starts
line_starts_lem m laws bytes = rw (laws.memchr_iter_lem b'\n' bytes) refl

line_of_first : (off : ℕ) (starts : List ℕ) → line_of off (0 ∷ starts) ≡ upto off starts
unfolding line_of partition_point
line_of_first off starts = ground arith

-- The line of an offset in a file is the number of newlines before the offset, and the start that
-- `line_starts` has for it is not after the offset, with no newline between the two. The offset is in
-- the file or at its end, and `memchr_iter` gives the positions of a byte in order.
pub line_of-line_starts :
    (m : Memchr)
    → MemchrLaws m
    → (off : ℕ) (bytes : List ℕ) → off ≤ length bytes
    → (line_of off (line_starts m bytes) ≡ length (filter newline (take off bytes)))
      × (get_or (line_starts m bytes) (line_of off (line_starts m bytes)) 0 ≤ off)
      × (all
            (λ b. not (newline b))
            (drop
              (get_or (line_starts m bytes) (line_of off (line_starts m bytes)) 0)
              (take off bytes))
          ≡ true)
line_of-line_starts m laws off bytes inside =
    let u = upto off (later 0 bytes) in
    let whole : off - 0 ≡ off = omega arith in
    let h : StartHolds off (0 + u) (get_or (0 ∷ later 0 bytes) u 0) (take off bytes) =
      subst (λ (n : ℕ). StartHolds off (0 + u) (get_or (0 ∷ later 0 bytes) u 0) (take n bytes))
        whole
        (lines_from 0 0 off 0 [] bytes refl refl (omega arith) refl (omega arith) (omega arith)) in
    rw (line_starts_lem m laws bytes, line_of_first off (later 0 bytes))
      (omega (arith, h.line_eq), h.start_le, h.none_between)
