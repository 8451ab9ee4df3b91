-- ===== src/Search/Matching.antt =====
-- `Matcher::match_starts` of crates/greplm-core/src/search.rs.
pub mod Words
use greplm.Common.{
  ℕ, zero, suc, ◌+◌, ◌≤◌, ◌<◌, ◌≡◌, ◌||◌, refl, sym, ap, ◌∙◌, Bool, true, false, not, ◌&&◌, inl,
  inr, List, [], ◌∷◌, ◌++◌, map, arith, ◌==◌, leb, if◌then◌else◌, Bool-cases, length, length-append,
  take, filter, is_empty,
}
use mathlib.Core.List.{append_assoc, append-nil}
use greplm.Common.Positions.{take-nil}
use greplm.Search.Matching.Words.{word_bounded, boundary_ok-word_bounded}
use greplm.Search.{
  Memchr, BytesRegex, Matcher, literal, regex_matcher, collect, counts, match_starts,
}

-- One match that is kept, with room for `left` more.
push_kept :
    (keep : ℕ × ℕ → Bool) (cap left : ℕ) (out : List (ℕ × ℕ)) (p : ℕ × ℕ) (ps : List (ℕ × ℕ))
    → length out + suc left ≡ cap
    → ((n : ℕ)
        → left ≡ suc n
        → collect keep cap (out ++ p ∷ []) ps ≡ (out ++ p ∷ []) ++ take left (filter keep ps))
    → (if leb cap (length (out ++ p ∷ []))
        then out ++ p ∷ []
        else collect keep cap (out ++ p ∷ []) ps)
      ≡ out ++ (p ∷ take left (filter keep ps))
push_kept keep cap zero out p ps h rest =
    let full : leb cap (length (out ++ p ∷ [])) ≡ true =
      ground (arith, length-append out (p ∷ [])) in
    rw full refl
push_kept keep cap (suc left) out p ps h rest =
    let room : leb cap (length (out ++ p ∷ [])) ≡ false =
      ground (arith, length-append out (p ∷ [])) in
    rw room (rest left refl ∙ append_assoc out (p ∷ []) (take (suc left) (filter keep ps)))

collect-take_from :
    (keep : ℕ × ℕ → Bool) (cap left : ℕ) (out ps : List (ℕ × ℕ))
    → length out + suc left ≡ cap
    → collect keep cap out ps ≡ out ++ take (suc left) (filter keep ps)
unfolding collect
collect-take_from keep cap left out [] h = sym (append-nil out)
collect-take_from keep cap left out (p ∷ ps) h = elim (Bool-cases (keep p)) [
  | inr e ↦ rw e (collect-take_from keep cap left out ps h)
  | inl e ↦ rw e (
      push_kept keep cap left out p ps h (λ n more. rw more (
        collect-take_from keep cap n (out ++ p ∷ []) ps
          (omega (arith, length-append out (p ∷ []))))))
]

collect-take :
    (keep : ℕ × ℕ → Bool) (cap : ℕ) (ps : List (ℕ × ℕ))
    → 0 < cap
    → collect keep cap [] ps ≡ take cap (filter keep ps)
collect-take keep zero ps h = absurd (omega arith)
collect-take keep (suc left) ps h = collect-take_from keep (suc left) left [] ps (omega arith)

-- Matches whose starts do not descend, from one position up to another.
abbrev pub InOrder : ℕ → ℕ → List (ℕ × ℕ) → Type 0
InOrder lo hi [] = Unit {0}
InOrder lo hi (p ∷ ps) = (lo ≤ p.0) × (p.0 ≤ hi) × InOrder p.0 hi ps

InOrder-mono : (lo lo' hi : ℕ) (ps : List (ℕ × ℕ)) → lo' ≤ lo → InOrder lo hi ps → InOrder lo' hi ps
InOrder-mono lo lo' hi [] h o = tt
InOrder-mono lo lo' hi (p ∷ ps) h o = (omega (arith, o.0), o.1, o.2)

filter-InOrder :
    (keep : ℕ × ℕ → Bool) (lo hi : ℕ) (ps : List (ℕ × ℕ))
    → InOrder lo hi ps
    → InOrder lo hi (filter keep ps)
filter-InOrder keep lo hi [] o = tt
filter-InOrder keep lo hi (p ∷ ps) o =
    let rest = filter-InOrder keep p.0 hi ps o.2 in
    elim (Bool-cases (keep p)) [
      | inl e ↦ rw e (o.0, o.1, rest)
      | inr e ↦ rw e (InOrder-mono p.0 lo hi (filter keep ps) o.0 rest)
    ]

-- The documented behaviour of the iterators over matches: in order, and in the text.
pub record IterLaws (m : Memchr) (r : BytesRegex) : Type 0 where
  pub literal_in_order :
      (needle hay : List ℕ)
      → InOrder 0 (length hay) (map (λ pos. (pos, pos + length needle)) (m.find_iter needle hay))
  pub regex_in_order : (re : r.Regex) (hay : List ℕ) → InOrder 0 (length hay) (r.find_iter re hay)

-- the test of a whole word, on the text around the match
abbrev is_bounded : List ℕ → Bool → ℕ × ℕ → Bool
is_bounded hay whole_word p = not whole_word || word_bounded hay p

-- all matches that count: those of an empty literal and those without a byte do not, and with
-- `whole_word` those next to a byte of a word do not
unfoldable pub all_matches :
    (m : Memchr) (r : BytesRegex) → Matcher r → List ℕ → Bool → List (ℕ × ℕ)
all_matches m r (literal needle) hay whole_word =
    if is_empty needle
    then []
    else filter (is_bounded hay whole_word)
        (map (λ pos. (pos, pos + length needle)) (m.find_iter needle hay))
all_matches m r (regex_matcher re) hay whole_word =
    filter (is_bounded hay whole_word) (filter (λ p. not (p.0 == p.1)) (r.find_iter re hay))

filter-filter :
    (p q : ℕ × ℕ → Bool) (xs : List (ℕ × ℕ)) → filter q (filter p xs) ≡ filter (λ x. p x && q x) xs
filter-filter p q [] = refl
filter-filter p q (x ∷ xs) = ground (arith, filter-filter p q xs)

pub all_matches-InOrder :
    (m : Memchr) (r : BytesRegex) (laws : IterLaws m r) (matcher : Matcher r) (hay : List ℕ)
    (whole_word : Bool)
    → InOrder 0 (length hay) (all_matches m r matcher hay whole_word)
unfolding all_matches
all_matches-InOrder m r laws (literal needle) hay whole_word = elim (Bool-cases (is_empty needle)) [
  | inl e ↦ rw e tt
  | inr e ↦ rw e (
      filter-InOrder (is_bounded hay whole_word) 0 (length hay) _
        (laws.literal_in_order needle hay))
]
all_matches-InOrder m r laws (regex_matcher re) hay whole_word =
    filter-InOrder (is_bounded hay whole_word) 0 (length hay) _
      (filter-InOrder (λ p. not (p.0 == p.1)) 0 (length hay) _ (laws.regex_in_order re hay))

counts-is_bounded :
    (hay : List ℕ) (whole_word : Bool) (lo : ℕ) (ps : List (ℕ × ℕ))
    → InOrder lo (length hay) ps
    → filter (counts hay whole_word) ps ≡ filter (is_bounded hay whole_word) ps
counts-is_bounded hay whole_word lo [] o = refl
counts-is_bounded hay whole_word lo ((start, end) ∷ ps) o =
    rw (boundary_ok-word_bounded hay start end o.1, counts-is_bounded hay whole_word start ps o.2)
      refl

-- If the cap is not zero, the loops over the matches of a file return the first matches that count,
-- as many as the cap, where a match counts if it is not empty and, for a whole word, if neither the
-- text before it ends in nor the text after it starts with a letter, a digit, an underscore or a byte
-- beyond ASCII; an empty literal has no match. The iterators over matches give them in order and in
-- the text.
pub match_starts_lem :
    (m : Memchr) (r : BytesRegex) (laws : IterLaws m r) (matcher : Matcher r) (hay : List ℕ)
    (whole_word : Bool) (cap : ℕ)
    → 0 < cap
    → match_starts m r matcher hay whole_word cap
      ≡ take cap (all_matches m r matcher hay whole_word)
unfolding match_starts all_matches
match_starts_lem m r laws (literal needle) hay whole_word cap some_cap =
    elim (Bool-cases (is_empty needle)) [
      | inl e ↦ rw e (sym (take-nil cap))
      | inr e ↦ rw e (
          collect-take (counts hay whole_word) cap
            (map (λ pos. (pos, pos + length needle)) (m.find_iter needle hay)) some_cap
          ∙ ap (take cap) (counts-is_bounded hay whole_word 0 _ (laws.literal_in_order needle hay)))
    ]
match_starts_lem m r laws (regex_matcher re) hay whole_word cap some_cap =
    collect-take (λ p. not (p.0 == p.1) && counts hay whole_word p) cap (r.find_iter re hay)
      some_cap
    ∙ ap (take cap) (
        sym (filter-filter (λ p. not (p.0 == p.1)) (counts hay whole_word) (r.find_iter re hay))
        ∙ counts-is_bounded hay whole_word 0 _
            (filter-InOrder (λ p. not (p.0 == p.1)) 0 (length hay) _ (laws.regex_in_order re hay)))
