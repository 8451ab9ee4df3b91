-- ===== src/Segment/Postings/Cuts.antt =====
-- `build_postings_blob` in crates/greplm-core/src/segment.rs: cutting a list of pairs at its
-- chunk boundaries.
use mathlib.Core.List.{append-nil}
use greplm.Common.{
  ℕ, zero, suc, ◌+◌, ◌-◌, ◌^◌, ◌<◌, ◌≡◌, refl, sym, ap, subst, ◌∙◌, Bool, true, false, not, inl,
  inr, List, [], ◌∷◌, ◌++◌, arith, ◌==◌, Bool-cases, length, take, drop, drop-drop, slice,
}
use greplm.Common.Bits.{shr}
use greplm.Common.Member.{AllBelow}
use greplm.Segment.Postings.{key32, doc32, spans}
use greplm.Segment.Postings.Runs.{Group, add_pair, group}

abbrev pub AllWords : List ℕ → Type 0
AllWords = AllBelow (2 ^ 64)

-- The trigram changes at index `b`, or there is nothing on one side of it.
unfoldable pub cut_ok : List ℕ → ℕ → Bool
cut_ok (p ∷ q ∷ ps) (suc zero) = not (shr p 32 == shr q 32)
cut_ok (p ∷ ps) (suc (suc b)) = cut_ok ps (suc b)
cut_ok _ _ = true

add_pair-append :
    (p : ℕ) (g : Group) (gs hs : List Group)
    → add_pair p ((g ∷ gs) ++ hs) ≡ add_pair p (g ∷ gs) ++ hs
unfolding add_pair
add_pair-append p (k, ds) gs hs = ground arith

-- The groups of a list that begins with `p` begin with the key of `p`.
pub group_head :
    (p : ℕ) (ps : List ℕ)
    → (ds : List ℕ) × (gs : List Group) × (group (p ∷ ps) ≡ (key32 p, ds) ∷ gs)
unfolding group
group_head p [] = (doc32 p ∷ [], [], refl)
group_head p (q ∷ qs) =
    let (ds, gs, e) = group_head q qs in
    elim (Bool-cases (key32 p == key32 q)) [
      | inl same ↦ (doc32 p ∷ ds, gs, ap (add_pair p) e ∙ ground arith)
      | inr change ↦
          (doc32 p ∷ [], (key32 q, ds) ∷ gs, ap (add_pair p) e ∙ rw (change, add_pair) refl)
    ]

group_cut_one :
    (p q : ℕ) (qs : List ℕ)
    → p < 2 ^ 64
    → q < 2 ^ 64
    → (shr p 32 == shr q 32) ≡ false
    → group (p ∷ q ∷ qs) ≡ group (p ∷ []) ++ group (q ∷ qs)
unfolding group
group_cut_one p q qs hp hq change =
    let (ds, gs, e) = group_head q qs in
    let differ : (key32 p == key32 q) ≡ false = ground arith in
    ap (add_pair p) e
    ∙ rw (differ, add_pair) refl
    ∙ ap (λ (hs : List Group). group (p ∷ []) ++ hs) (sym e)

pub group_cons : (p : ℕ) (ps : List ℕ) → group (p ∷ ps) ≡ add_pair p (group ps)
unfolding group
group_cons p ps = refl

group_cut :
    (xs : List ℕ) (b : ℕ)
    → AllWords xs
    → cut_ok xs b ≡ true
    → group xs ≡ group (take b xs) ++ group (drop b xs)
unfolding cut_ok
group_cut xs zero w h = unfold group in refl
group_cut [] (suc b) w h = unfold group in refl
group_cut (p ∷ []) (suc zero) w h = sym (unfold group in append-nil (group (p ∷ [])))
group_cut (p ∷ q ∷ qs) (suc zero) w h = group_cut_one p q qs w.0 w.1.0 (ground arith)
group_cut (p ∷ []) (suc (suc b)) w h = sym (unfold group in append-nil (group (p ∷ [])))
group_cut (p ∷ q ∷ qs) (suc (suc b)) w h =
    let (ds, gs, e) = group_head q (take b qs) in
    let tail = group (drop b qs) in
    group_cons p (q ∷ qs)
    ∙ ap (add_pair p) (group_cut (q ∷ qs) (suc b) w.1 h)
    ∙ subst (λ hs. add_pair p (hs ++ tail) ≡ add_pair p hs ++ tail) (sym e)
        (add_pair-append p (key32 q, ds) gs tail)
    ∙ ap (λ (hs : List Group). hs ++ tail) (sym (group_cons p (q ∷ take b qs)))

cut_ok-drop : (lo b : ℕ) (xs : List ℕ) → cut_ok (drop lo xs) (suc b) ≡ cut_ok xs (suc (lo + b))
unfolding cut_ok
cut_ok-drop zero b xs = ap (λ (k : ℕ). cut_ok xs (suc k)) (omega arith)
cut_ok-drop (suc lo) b [] = refl
cut_ok-drop (suc lo) b (p ∷ ps) =
    let e : suc (suc lo + b) ≡ suc (suc (lo + b)) = omega arith in
    rw e (cut_ok-drop lo b ps ∙ skip_head p ps (lo + b))
  where
    skip_head : (p : ℕ) (ps : List ℕ) (k : ℕ) → cut_ok ps (suc k) ≡ cut_ok (p ∷ ps) (suc (suc k))
    skip_head p [] k = refl
    skip_head p (q ∷ qs) k = refl

AllWords-drop : (n : ℕ) (xs : List ℕ) → AllWords xs → AllWords (drop n xs)
AllWords-drop zero xs w = w
AllWords-drop (suc n) [] w = tt
AllWords-drop (suc n) (x ∷ xs) w = AllWords-drop n xs w.1

-- Bounds from `lo` to `end` that ascend strictly, each at a change of trigram.
abbrev pub IsCuts : List ℕ → ℕ → List ℕ → ℕ → Type 0
IsCuts xs lo [] end = lo ≡ end
IsCuts xs lo (b ∷ bs) end = (lo < b) × (cut_ok xs b ≡ true) × IsCuts xs b bs end

unfoldable pub groups_of : List (List ℕ) → List Group
groups_of [] = []
groups_of (s ∷ ss) = group s ++ groups_of ss

drop-length : (xs : List ℕ) → drop (length xs) xs ≡ []
drop-length [] = refl
drop-length (x ∷ xs) = drop-length xs

pub groups_of-spans :
    (xs : List ℕ) (lo : ℕ) (bs : List ℕ)
    → AllWords xs
    → IsCuts xs lo bs (length xs)
    → groups_of (spans xs (lo ∷ bs)) ≡ group (drop lo xs)
unfolding spans groups_of
groups_of-spans xs lo [] w e = rw (e, drop-length xs) (unfold group in refl)
groups_of-spans xs lo (hi ∷ bs) w (lt, cut, more) =
    let width : hi ≡ suc (lo + (hi - lo - 1)) = omega arith in
    let size : hi - lo ≡ suc (hi - lo - 1) = omega arith in
    let whole : lo + (hi - lo) ≡ hi = omega arith in
    let here : cut_ok (drop lo xs) (hi - lo) ≡ true =
      rw (size, cut_ok-drop lo (hi - lo - 1) xs, ← width) cut in
    ap (λ (gs : List Group). group (slice lo hi xs) ++ gs) (groups_of-spans xs hi bs w more)
    ∙ sym (
        group_cut (drop lo xs) (hi - lo) (AllWords-drop lo xs w) here
        ∙ rw (drop-drop (hi - lo) lo xs, whole) refl)
