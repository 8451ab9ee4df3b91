-- ===== src/Search/Matching/Words.antt =====
-- `boundary_ok` and `is_ident_byte` of crates/greplm-core/src/search.rs against the words of a text: a
-- byte of a word is one of a list, or beyond ASCII.
use greplm.Common.{
  ℕ, zero, suc, ◌+◌, ◌-◌, ◌≤◌, ◌<◌, ◌≡◌, refl, sym, ap, ◌∙◌, Bool, false, not, ◌&&◌, ◌||◌, List, [],
  ◌∷◌, ◌++◌, arith, ◌==◌, leb, ltb, length, get_or, take, drop, range_from,
}
use greplm.Common.Member.{elem, elem-append}
use greplm.Search.{is_ident_byte, boundary_ok}

-- the letters, the digits and the underscore
abbrev word_bytes : List ℕ
word_bytes = range_from 26 b'a' ++ (range_from 26 b'A' ++ (range_from 10 b'0' ++ b'_' ∷ []))

unfoldable pub word_byte : ℕ → Bool
unfolding elem
word_byte b = elem b word_bytes || leb 128 b

unfoldable starts_in_word : List ℕ → Bool
unfolding word_byte
starts_in_word [] = false
starts_in_word (b ∷ bs) = word_byte b

unfoldable ends_in_word : List ℕ → Bool
unfolding word_byte
ends_in_word [] = false
ends_in_word (b ∷ []) = word_byte b
ends_in_word (b ∷ c ∷ bs) = ends_in_word (c ∷ bs)

-- The text before a match does not end in a byte of a word, and the text after it does not start
-- with one.
unfoldable pub word_bounded : List ℕ → ℕ × ℕ → Bool
unfolding starts_in_word ends_in_word
word_bounded hay (start, end) =
    not (ends_in_word (take start hay)) && not (starts_in_word (drop end hay))

elem-range_from : (b count lo : ℕ) → elem b (range_from count lo) ≡ (leb lo b && ltb b (lo + count))
unfolding elem
elem-range_from b zero lo = ground arith
elem-range_from b (suc count) lo = ground (arith, elem-range_from b count (lo + 1))

or_cong : {p p' q q' : Bool} → p ≡ p' → q ≡ q' → (p || q) ≡ (p' || q')
or_cong e h = rw (e, h) refl

elem_one : (x y : ℕ) → elem x (y ∷ []) ≡ (x == y)
unfolding elem
elem_one x y = ground arith

elem-word_bytes :
    (b : ℕ)
    → elem b word_bytes ≡ (
        (leb b'a' b && ltb b (b'a' + 26))
        || ((leb b'A' b && ltb b (b'A' + 26)) || ((leb b'0' b && ltb b (b'0' + 10)) || b == b'_')))
elem-word_bytes b =
    elem-append b (range_from 26 b'a') (range_from 26 b'A' ++ (range_from 10 b'0' ++ b'_' ∷ []))
    ∙ or_cong (elem-range_from b 26 b'a') (
        elem-append b (range_from 26 b'A') (range_from 10 b'0' ++ b'_' ∷ [])
        ∙ or_cong (elem-range_from b 26 b'A') (
            elem-append b (range_from 10 b'0') (b'_' ∷ [])
            ∙ or_cong (elem-range_from b 10 b'0') (elem_one b b'_')))

is_ident_byte_ranges :
    (b : ℕ)
    → is_ident_byte b ≡ (
        ((leb b'a' b && ltb b (b'a' + 26))
          || ((leb b'A' b && ltb b (b'A' + 26))
              || ((leb b'0' b && ltb b (b'0' + 10)) || b == b'_')))
        || leb 128 b)
unfolding is_ident_byte
is_ident_byte_ranges b = ground arith

is_ident_byte-word_byte : (b : ℕ) → is_ident_byte b ≡ word_byte b
unfolding word_byte
is_ident_byte-word_byte b =
    is_ident_byte_ranges b ∙ ap (λ p. p || leb 128 b) (sym (elem-word_bytes b))

starts_in_word-drop :
    (end : ℕ) (hay : List ℕ)
    → starts_in_word (drop end hay) ≡ (ltb end (length hay) && word_byte (get_or hay end 0))
unfolding starts_in_word
starts_in_word-drop zero [] = refl
starts_in_word-drop (suc end) [] = ground arith
starts_in_word-drop zero (b ∷ hay) = ground arith
starts_in_word-drop (suc end) (b ∷ hay) =
    starts_in_word-drop end hay ∙ ap (λ b. b && word_byte (get_or hay end 0)) (ground arith)

ends_in_word-take :
    (before : ℕ) (hay : List ℕ)
    → before < length hay
    → ends_in_word (take (suc before) hay) ≡ word_byte (get_or hay before 0)
unfolding ends_in_word
ends_in_word-take before [] h = absurd (omega arith)
ends_in_word-take zero (b ∷ hay) h = refl
ends_in_word-take (suc before) (b ∷ []) h = absurd (omega arith)
ends_in_word-take (suc before) (b ∷ c ∷ hay) h = ends_in_word-take before (c ∷ hay) (omega arith)

both_sides :
    (start end n : ℕ) (p q : Bool)
    → ((suc start == 0 || not p) && (leb n end || not q)) ≡ (not p && not (ltb end n && q))
both_sides start end n p q = ground arith

-- A match that starts in the text is between non-identifier bytes if it is bounded.
pub boundary_ok-word_bounded :
    (hay : List ℕ) (start end : ℕ)
    → start ≤ length hay
    → boundary_ok hay start end ≡ word_bounded hay (start, end)
unfolding boundary_ok word_bounded
boundary_ok-word_bounded hay zero end h =
    let after = starts_in_word-drop end hay in
    let same = is_ident_byte-word_byte (get_or hay end 0) in rw (after, same) (ground arith)
boundary_ok-word_bounded hay (suc start) end h =
    let after = starts_in_word-drop end hay in
    let same = is_ident_byte-word_byte (get_or hay end 0) in
    let before = ends_in_word-take start hay (omega arith) in
    let same' = is_ident_byte-word_byte (get_or hay start 0) in
    let place : suc start - 1 ≡ start = omega arith in
    rw (before, after, same, place, same')
      (both_sides start end (length hay) (word_byte (get_or hay start 0))
        (word_byte (get_or hay end 0)))
