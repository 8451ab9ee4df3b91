-- ===== src/Search/Verify/Hits.antt =====
-- The lines of the hits that `verify_doc` of crates/greplm-core/src/search.rs returns.
use greplm.Common.{
  ℕ, zero, suc, ◌+◌, ◌-◌, ◌^◌, ◌≤◌, ◌<◌, ◌≡◌, refl, sym, ap, ◌∙◌, Bool, true, ◌||◌, inl, inr, List,
  [], ◌∷◌, map, arith, ◌==◌, leb, if◌then◌else◌, Bool-cases, length, take, filter, is_empty,
}
use greplm.Common.Member.{elem, elem-AllAbove, AllAbove, AllAbove-trans, IsAscending}
use greplm.Segment.{DocMeta}
use greplm.Search.{
  Memchr, MemchrLaws, BytesRegex, Matcher, partition_point, match_starts, line_starts, line_of,
}
use greplm.Search.Lines.{newline, line_of-line_starts}
use greplm.Search.Matching.{InOrder, IterLaws, all_matches, all_matches-InOrder, match_starts_lem}
use greplm.Search.Verify.{F32, Display, SearchHit, line_no_of, hit_at, hits_from, hits_of_bytes}

take-all {ℓ} : {A : Type ℓ} (n : ℕ) (xs : List A) → length xs ≤ n → take n xs ≡ xs
take-all zero [] h = refl
take-all zero (x ∷ xs) h = absurd (omega arith)
take-all (suc n) [] h = refl
take-all (suc n) (x ∷ xs) h = ap (◌∷◌ x) (take-all n xs (omega arith))

partition_point_mono :
    (lo hi : ℕ) (starts : List ℕ)
    → lo ≤ hi
    → partition_point (λ s. leb s lo) starts ≤ partition_point (λ s. leb s hi) starts
unfolding partition_point
partition_point_mono lo hi [] h = omega arith
partition_point_mono lo hi (s ∷ starts) h = ground (arith, partition_point_mono lo hi starts h)

line_of_mono : (lo hi : ℕ) (starts : List ℕ) → lo ≤ hi → line_of lo starts ≤ line_of hi starts
unfolding line_of
line_of_mono lo hi starts h = omega (arith, partition_point_mono lo hi starts h)

length-filter-take :
    (p : ℕ → Bool) (n : ℕ) (xs : List ℕ) → length (filter p (take n xs)) ≤ length xs
length-filter-take p zero xs = omega arith
length-filter-take p (suc n) [] = omega arith
length-filter-take p (suc n) (x ∷ xs) = ground (arith, length-filter-take p n xs)

-- the line of a position, counted from 1
abbrev pub line_number : List ℕ → ℕ → ℕ
line_number bytes off = length (filter newline (take off bytes)) + 1

module _ (f : F32) (d : Display) (m : Memchr) (laws : MemchrLaws m) (doc : DocMeta)
    (sym_lines : List ℕ) (bytes : List ℕ) (small : length bytes + 1 < 2 ^ 32) where
  abbrev lines : List (SearchHit f) → List ℕ
  lines hits = map (λ h. h.line) hits

  abbrev line_no : ℕ → ℕ
  line_no = line_no_of f d doc sym_lines bytes (line_starts m bytes)

  line_no_lem : (off : ℕ) → off ≤ length bytes → line_no off ≡ line_number bytes off
  unfolding line_no_of
  line_no_lem off inside =
      let h = line_of-line_starts m laws off bytes inside in
      omega (arith, h.0, length-filter-take newline off bytes)

  line_number_mono :
      (lo hi : ℕ) → lo ≤ hi → hi ≤ length bytes → line_number bytes lo ≤ line_number bytes hi
  line_number_mono lo hi h inside = omega (
    arith,
    (line_of-line_starts m laws lo bytes (omega arith)).0,
    (line_of-line_starts m laws hi bytes inside).0,
    line_of_mono lo hi (line_starts m bytes) h,
  )

  abbrev numbers_of : List (ℕ × ℕ) → List ℕ
  numbers_of ps = map (λ p. line_number bytes p.0) ps

  -- The lines of the hits after a line, which is not after the next match.
  record LinesHold (last lo : ℕ) (ps : List (ℕ × ℕ)) (ls : List ℕ) : Type 0 where
    pub above : AllAbove last ls
    pub ascend : IsAscending ls
    pub members : (n : ℕ) → (elem n ls || n == last) ≡ (elem n (numbers_of ps) || n == last)

  abbrev hits : ℕ → List (ℕ × ℕ) → List (SearchHit f)
  hits last ps = hits_from f d doc sym_lines bytes (line_starts m bytes) last ps

  same_line :
      (n last lo : ℕ) (ls : List ℕ) (p : ℕ × ℕ) (ps : List (ℕ × ℕ))
      → n ≡ line_number bytes p.0
      → n ≡ last
      → LinesHold last p.0 ps ls
      → LinesHold last lo (p ∷ ps) ls
  unfolding elem
  same_line n last lo ls p ps e same h = record {
    above = h.above;
    ascend = h.ascend;
    members = λ k. ground (arith, h.members k);
  }

  next_line :
      (n last lo : ℕ) (ls : List ℕ) (p : ℕ × ℕ) (ps : List (ℕ × ℕ))
      → n ≡ line_number bytes p.0
      → last < n
      → LinesHold n p.0 ps ls
      → LinesHold last lo (p ∷ ps) (n ∷ ls)
  unfolding elem
  next_line n last lo ls p ps e later h = record {
    above = (later, AllAbove-trans last n ls (omega arith) h.above);
    ascend = (h.above, h.ascend);
    members = λ k. ground (arith, h.members k);
  }

  hits_hold :
      (last lo : ℕ) (ps : List (ℕ × ℕ))
      → InOrder lo (length bytes) ps
      → last ≤ line_number bytes lo
      → LinesHold last lo ps (lines (hits last ps))
  unfolding hits_from hit_at
  hits_hold last lo [] o low = record { above = tt; ascend = tt; members = λ k. refl }
  hits_hold last lo ((start, end) ∷ ps) o low =
      let n = line_no start in
      let number = line_no_lem start o.1 in
      let further : last ≤ line_number bytes start =
        omega (arith, low, line_number_mono lo start o.0 o.1) in
      elim (Bool-cases (n == last)) [
        | inl e ↦ rw e (
            same_line n last lo (lines (hits last ps)) (start, end) ps number (ground arith)
              (hits_hold last start ps o.2 further))
        | inr e ↦ rw e (
            next_line n last lo (lines (hits n ps)) (start, end) ps number (ground (arith, number))
              (hits_hold n start ps o.2 (omega (arith, number))))
      ]

  numbers_above : (ps : List (ℕ × ℕ)) → AllAbove 0 (numbers_of ps)
  numbers_above [] = tt
  numbers_above (p ∷ ps) = (omega arith, numbers_above ps)

  or_hits : (ps : List (ℕ × ℕ)) → (if is_empty ps then [] else hits 0 ps) ≡ hits 0 ps
  unfolding hits_from
  or_hits [] = refl
  or_hits (p ∷ ps) = refl

  all_lines :
      (n : ℕ) (ps : List (ℕ × ℕ))
      → InOrder 0 (length bytes) ps
      → IsAscending (lines (hits 0 ps)) × (elem n (lines (hits 0 ps)) ≡ elem n (numbers_of ps))
  all_lines n ps o =
      let h = hits_hold 0 0 ps o (omega arith) in
      (
        h.ascend,
        elim (Bool-cases (n == 0)) [
          | inl e ↦
              let low : n ≤ 0 = ground arith in
              elem-AllAbove n 0 (lines (hits 0 ps)) h.above low
              ∙ sym (elem-AllAbove n 0 (numbers_of ps) (numbers_above ps) low)
          | inr e ↦ ground (arith, h.members n)
        ],
      )

  module _ (r : BytesRegex) (iter : IterLaws m r) (matcher : Matcher r) (max_per_file : ℕ)
      (whole_word : Bool) where
    -- The exhaustive hits of a file have strictly ascending lines, and a line has a hit exactly when a
    -- match that counts starts in it, where the line of a position is one more than the number of
    -- newlines before it. The file has fewer than 2^32 - 1 bytes, its matches fewer than 2^64, `memchr_iter`
    -- gives the positions of a byte in order, and the iterators over matches give them in order.
    pub hits_of_bytes-lines :
        (n : ℕ)
        → length (all_matches m r matcher bytes whole_word) < 2 ^ 64
        → IsAscending (
            map
              (λ h. h.line)
              (hits_of_bytes f d m r matcher doc sym_lines max_per_file whole_word true bytes))
          × (elem n (
                map
                  (λ h. h.line)
                  (hits_of_bytes f d m r matcher doc sym_lines max_per_file whole_word true bytes))
              ≡ elem n
                  (map (λ p. line_number bytes p.0) (all_matches m r matcher bytes whole_word)))
    unfolding hits_of_bytes
    hits_of_bytes-lines n few =
        let found = all_matches m r matcher bytes whole_word in
        let cap_free : match_starts m r matcher bytes whole_word (2 ^ 64 - 1) ≡ found =
          match_starts_lem m r iter matcher bytes whole_word (2 ^ 64 - 1) (omega arith)
          ∙ take-all (2 ^ 64 - 1) found (omega arith) in
        rw (cap_free, or_hits found)
          (all_lines n found (all_matches-InOrder m r iter matcher bytes whole_word))
