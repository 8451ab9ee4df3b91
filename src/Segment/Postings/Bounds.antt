-- ===== src/Segment/Postings/Bounds.antt =====
-- `build_postings_blob` in crates/greplm-core/src/segment.rs: where it puts its bounds.
use greplm.Common.{
  ℕ, zero, suc, ◌+◌, ◌-◌, ◌*◌, ◌/◌, max, ◌≤◌, ◌<◌, ◌≡◌, refl, ◌∙◌, true, not, ◌&&◌, inl, inr, List,
  [], ◌∷◌, ◌++◌, arith, ◌==◌, ltb, Bool-cases, length, get_or, foldl, range_from,
}
use greplm.Common.Bits.{shr}
use greplm.Segment.Postings.{advance, last, push_bound, bounds_of, spans}
use greplm.Segment.Postings.Runs.{group}
use greplm.Segment.Postings.Cuts.{AllWords, cut_ok, IsCuts, groups_of, groups_of-spans}

cut_ok-get :
    (xs : List ℕ) (i : ℕ)
    → suc i < length xs
    → cut_ok xs (suc i) ≡ not (shr (get_or xs i 0) 32 == shr (get_or xs (suc i) 0) 32)
unfolding cut_ok
cut_ok-get [] i h = absurd (omega arith)
cut_ok-get (p ∷ []) i h = absurd (omega arith)
cut_ok-get (p ∷ q ∷ qs) zero h = refl
cut_ok-get (p ∷ q ∷ qs) (suc i) h = cut_ok-get (q ∷ qs) i (omega arith)

cut_ok-end : (xs : List ℕ) (b : ℕ) → length xs ≤ b → cut_ok xs b ≡ true
unfolding cut_ok
cut_ok-end [] b h = refl
cut_ok-end (p ∷ []) zero h = refl
cut_ok-end (p ∷ q ∷ qs) zero h = refl
cut_ok-end (p ∷ []) (suc zero) h = refl
cut_ok-end (p ∷ q ∷ qs) (suc zero) h = absurd (omega arith)
cut_ok-end (p ∷ []) (suc (suc b)) h = refl
cut_ok-end (p ∷ q ∷ qs) (suc (suc b)) h = cut_ok-end (q ∷ qs) (suc b) (omega arith)

-- With a round for each later index the inner loop stops at a change of trigram.
cut_ok-advance :
    (fuel : ℕ) (xs : List ℕ) (i : ℕ)
    → length xs ≤ suc i + fuel
    → cut_ok xs (advance fuel xs (suc i)) ≡ true
unfolding advance
cut_ok-advance zero xs i h = cut_ok-end xs (suc i) (omega arith)
cut_ok-advance (suc fuel) xs i h =
    let back : suc i - 1 ≡ i = omega arith in
    let next : suc i + 1 ≡ suc (suc i) = omega arith in
    rw (back, next)
      (elim (Bool-cases (ltb (suc i) (length xs))) [
        | inr done ↦ rw done (cut_ok-end xs (suc i) (ground arith))
        | inl more ↦ elim (Bool-cases (shr (get_or xs i 0) 32 == shr (get_or xs (suc i) 0) 32)) [
          | inl same ↦ rw (more, same) (cut_ok-advance fuel xs (suc i) (omega arith))
          | inr change ↦ rw (more, change) (cut_ok-get xs i (ground arith) ∙ rw change refl)
        ]
      ])

-- The bounds so far: they begin at 0, are cuts up to the last one, and that lies in the list.
abbrev IsOpen : List ℕ → List ℕ → Type 0
IsOpen xs [] = ⊥
IsOpen xs (b ∷ bs) = (b ≡ 0) × IsCuts xs b bs (last (b ∷ bs)) × (last (b ∷ bs) < length xs)

last-snoc : (b : ℕ) (bs : List ℕ) (c : ℕ) → last (b ∷ (bs ++ c ∷ [])) ≡ c
last-snoc b [] c = refl
last-snoc b (x ∷ bs) c = last-snoc x bs c

IsCuts-snoc :
    (xs : List ℕ) (lo : ℕ) (bs : List ℕ) (c : ℕ)
    → IsCuts xs lo bs (last (lo ∷ bs))
    → last (lo ∷ bs) < c
    → cut_ok xs c ≡ true
    → IsCuts xs lo (bs ++ c ∷ []) c
IsCuts-snoc xs lo [] c h lt cut = (lt, cut, refl)
IsCuts-snoc xs lo (b ∷ bs) c (h, k, more) lt cut = (h, k, IsCuts-snoc xs b bs c more lt cut)

cut_ok-bound : (xs : List ℕ) (m : ℕ) → cut_ok xs (advance (length xs) xs (max m 1)) ≡ true
cut_ok-bound xs zero = cut_ok-advance (length xs) xs 0 (omega arith)
cut_ok-bound xs (suc m) =
    let e : max (suc m) 1 ≡ suc m = omega arith in
    rw e (cut_ok-advance (length xs) xs m (omega arith))

push_bound-IsOpen :
    (xs : List ℕ) (parts : ℕ) (bounds : List ℕ) (p : ℕ)
    → IsOpen xs bounds
    → IsOpen xs (push_bound xs parts bounds p)
unfolding push_bound
push_bound-IsOpen xs parts [] p h = absurd h
push_bound-IsOpen xs parts (b ∷ bs) p (e, cuts, inside) =
    let at = advance (length xs) xs (max (length xs * p / parts) 1) in
    elim (Bool-cases (ltb (last (b ∷ bs)) at && ltb at (length xs))) [
      | inr skip ↦ rw (push_bound, skip) (e, cuts, inside)
      | inl push ↦
          let lt : last (b ∷ bs) < at = ground arith in
          let fits : at < length xs = ground arith in
          let cut = cut_ok-bound xs (length xs * p / parts) in
          rw (push_bound, push)
            (e, rw last-snoc (IsCuts-snoc xs b bs at cuts lt cut), rw last-snoc fits)
    ]

foldl-IsOpen :
    (xs : List ℕ) (parts : ℕ) (ps bounds : List ℕ)
    → IsOpen xs bounds
    → IsOpen xs (foldl (push_bound xs parts) bounds ps)
foldl-IsOpen xs parts [] bounds h = h
foldl-IsOpen xs parts (p ∷ ps) bounds h =
    foldl-IsOpen xs parts ps (push_bound xs parts bounds p) (push_bound-IsOpen xs parts bounds p h)

-- what closes the bounds
groups_of_open :
    (xs : List ℕ) (bounds : List ℕ)
    → AllWords xs
    → IsOpen xs bounds
    → groups_of (spans xs (bounds ++ length xs ∷ [])) ≡ group xs
groups_of_open xs [] w h = absurd h
groups_of_open xs (b ∷ bs) w (e, cuts, inside) =
    groups_of-spans xs b (bs ++ length xs ∷ []) w
      (IsCuts-snoc xs b bs (length xs) cuts inside (cut_ok-end xs (length xs) (omega arith)))
    ∙ rw e refl

-- However many parts, the groups of the chunks are, in order, the groups of the whole list.
pub groups_of-bounds_of :
    (xs : List ℕ) (parts : ℕ)
    → AllWords xs
    → 0 < length xs
    → groups_of (spans xs (bounds_of xs parts)) ≡ group xs
unfolding bounds_of
groups_of-bounds_of xs parts w h =
    groups_of_open xs (foldl (push_bound xs parts) (0 ∷ []) (range_from (parts - 1) 1)) w
      (foldl-IsOpen xs parts (range_from (parts - 1) 1) (0 ∷ []) (refl, refl, h))
