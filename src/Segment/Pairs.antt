-- ===== src/Segment/Pairs.antt =====
-- The flat pairs that `add_doc` in crates/greplm-core/src/segment.rs pushes for documents one
-- after another.
use greplm.Common.{
  ℕ, zero, suc, ◌+◌, ◌-◌, ◌*◌, ◌%◌, ◌^◌, ◌≤◌, ◌<◌, ◌≡◌, refl, ap, ◌∙◌, Bool, true, false, not, ◌&&◌,
  ◌||◌, inl, inr, List, [], ◌∷◌, ◌++◌, map, arith, ◌==◌, leb, Bool-cases, length, all, all-append,
  all_mono,
}
use greplm.Common.Bits.{bit_or-shift}
use greplm.Common.Member.{elem, elem-append, AllBelow, AllAbove, IsAscending}
use greplm.Common.Sort.{IsDistinct}
use greplm.Trigram.{Trigram, IsTrigram, IsBytes, key_of, contains, extract}
use greplm.Trigram.Key.{key_of-lt, key_of-tri_eq}
use greplm.Trigram.Extract.{AllTrigrams, extract-AllTrigrams, extract-IsAscending}
use greplm.Segment.Postings.{pair_of}

pub pair_of_lem :
    (i : ℕ) (t : Trigram) → i < 2 ^ 32 → IsTrigram t → pair_of i t ≡ key_of t * 2 ^ 32 + i
unfolding pair_of
pair_of_lem i t h p =
    let fits : key_of t * 2 ^ 32 % 2 ^ 64 ≡ key_of t * 2 ^ 32 = omega (arith, key_of-lt t p) in
    rw fits (bit_or-shift 32 (key_of t) i h)

-- the pairs of one document
abbrev pub pairs_of : ℕ → List Trigram → List ℕ
pairs_of i ts = map (pair_of i) ts

elem-pairs_of :
    (i d : ℕ) (t : Trigram) (ts : List Trigram)
    → i < 2 ^ 32
    → d < 2 ^ 32
    → IsTrigram t
    → AllTrigrams ts
    → elem (key_of t * 2 ^ 32 + d) (pairs_of i ts) ≡ (d == i && contains t ts)
unfolding elem contains
elem-pairs_of i d t [] hi hd p ps = ground arith
elem-pairs_of i d t (u ∷ us) hi hd p ps =
    rw (pair_of_lem i u hi ps.0)
      (ground (arith, key_of-tri_eq t u p ps.0, elem-pairs_of i d t us hi hd p ps.1))

-- Every pair names this document.
all-pairs_of :
    (i : ℕ) (ts : List Trigram)
    → i < 2 ^ 32
    → AllTrigrams ts
    → all (λ v. v % 2 ^ 32 == i) (pairs_of i ts) ≡ true
all-pairs_of i [] h ps = refl
all-pairs_of i (u ∷ us) h ps =
    let low : (pair_of i u % 2 ^ 32 == i) ≡ true = rw (pair_of_lem i u h ps.0) (ground arith) in
    ground (arith, low, all-pairs_of i us h ps.1)

AllBelow-pairs_of :
    (i : ℕ) (ts : List Trigram) → i < 2 ^ 32 → AllTrigrams ts → AllBelow (2 ^ 56) (pairs_of i ts)
AllBelow-pairs_of i [] h ps = tt
AllBelow-pairs_of i (u ∷ us) h ps =
    (omega (arith, pair_of_lem i u h ps.0, key_of-lt u ps.0), AllBelow-pairs_of i us h ps.1)

elem-pairs_of_above :
    (i k : ℕ) (ts : List Trigram)
    → i < 2 ^ 32
    → AllTrigrams ts
    → AllAbove k (map key_of ts)
    → elem (k * 2 ^ 32 + i) (pairs_of i ts) ≡ false
unfolding elem
elem-pairs_of_above i k [] h ps above = refl
elem-pairs_of_above i k (u ∷ us) h ps above =
    rw (pair_of_lem i u h ps.0) (ground (arith, elem-pairs_of_above i k us h ps.1))

IsDistinct-pairs_of :
    (i : ℕ) (ts : List Trigram)
    → i < 2 ^ 32
    → AllTrigrams ts
    → IsAscending (map key_of ts)
    → IsDistinct (pairs_of i ts)
IsDistinct-pairs_of i [] h ps asc = tt
IsDistinct-pairs_of i (u ∷ us) h ps (above, asc) = (
  rw (pair_of_lem i u h ps.0) (elem-pairs_of_above i (key_of u) us h ps.1 above),
  IsDistinct-pairs_of i us h ps.1 asc,
)

-- The pairs of documents that are numbered from `i` on, given their contents.
unfoldable pub pairs_from : ℕ → List (List ℕ) → List ℕ
pairs_from i [] = []
pairs_from i (c ∷ cs) = pairs_of i (extract c) ++ pairs_from (i + 1) cs

abbrev pub AllBytes : List (List ℕ) → Type 0
AllBytes [] = Unit {0}
AllBytes (c ∷ cs) = IsBytes c × AllBytes cs

-- Does document `d` of the list have the trigram?
abbrev pub has_trigram : List (List ℕ) → ℕ → Trigram → Bool
has_trigram [] d t = false
has_trigram (c ∷ cs) zero t = contains t (extract c)
has_trigram (c ∷ cs) (suc d) t = has_trigram cs d t

has_trigram-cons :
    (c : List ℕ) (cs : List (List ℕ)) (i d : ℕ) (t : Trigram)
    → ((d == i && contains t (extract c)) || (leb (i + 1) d && has_trigram cs (d - (i + 1)) t))
      ≡ (leb i d && has_trigram (c ∷ cs) (d - i) t)
has_trigram-cons c cs i d t = go (d - i) refl
  where
    go :
        (n : ℕ)
        → n ≡ d - i
        → ((d == i && contains t (extract c)) || (leb (i + 1) d && has_trigram cs (d - (i + 1)) t))
          ≡ (leb i d && has_trigram (c ∷ cs) n t)
    go zero e = ground arith
    go (suc n) e = let later : d - (i + 1) ≡ n = omega arith in rw later (ground arith)

elem-pairs_from :
    (i d : ℕ) (t : Trigram) (cs : List (List ℕ))
    → i + length cs ≤ 2 ^ 32
    → d < 2 ^ 32
    → IsTrigram t
    → elem (key_of t * 2 ^ 32 + d) (pairs_from i cs) ≡ (leb i d && has_trigram cs (d - i) t)
unfolding pairs_from
elem-pairs_from i d t [] room h p = unfold elem in ground arith
elem-pairs_from i d t (c ∷ cs) room h p =
    elem-append (key_of t * 2 ^ 32 + d) (pairs_of i (extract c)) (pairs_from (i + 1) cs)
    ∙ rw
        (
          elem-pairs_of i d t (extract c) (omega arith) h p (extract-AllTrigrams c),
          elem-pairs_from (i + 1) d t cs (omega arith) h p,
        )
        (has_trigram-cons c cs i d t)

-- Every pair names a document from `i` on.
all-pairs_from :
    (i : ℕ) (cs : List (List ℕ))
    → i + length cs ≤ 2 ^ 32
    → all (λ v. leb i (v % 2 ^ 32)) (pairs_from i cs) ≡ true
unfolding pairs_from
all-pairs_from i [] room = refl
all-pairs_from i (c ∷ cs) room =
    all-append (λ v. leb i (v % 2 ^ 32)) (pairs_of i (extract c)) (pairs_from (i + 1) cs)
    ∙ rw
        (
          all_mono (λ v. v % 2 ^ 32 == i) (λ v. leb i (v % 2 ^ 32)) (pairs_of i (extract c))
              (λ v e. ground arith)
              (all-pairs_of i (extract c) (omega arith) (extract-AllTrigrams c)),
          all_mono (λ v. leb (i + 1) (v % 2 ^ 32)) (λ v. leb i (v % 2 ^ 32)) (pairs_from (i + 1) cs)
              (λ v e. ground arith) (all-pairs_from (i + 1) cs (omega arith)),
        )
        refl

AllBelow-append : (n : ℕ) (xs ys : List ℕ) → AllBelow n xs → AllBelow n ys → AllBelow n (xs ++ ys)
AllBelow-append n [] ys p q = q
AllBelow-append n (x ∷ xs) ys p q = (p.0, AllBelow-append n xs ys p.1 q)

pub AllBelow-pairs_from :
    (i : ℕ) (cs : List (List ℕ)) → i + length cs ≤ 2 ^ 32 → AllBelow (2 ^ 56) (pairs_from i cs)
unfolding pairs_from
AllBelow-pairs_from i [] room = tt
AllBelow-pairs_from i (c ∷ cs) room =
    AllBelow-append (2 ^ 56) (pairs_of i (extract c)) (pairs_from (i + 1) cs)
      (AllBelow-pairs_of i (extract c) (omega arith) (extract-AllTrigrams c))
      (AllBelow-pairs_from (i + 1) cs (omega arith))

-- A test that all members pass, and no member of another list.
elem_of_all :
    (p : ℕ → Bool) (v : ℕ) (xs : List ℕ) → all p xs ≡ true → p v ≡ false → elem v xs ≡ false
unfolding elem
elem_of_all p v [] h q = refl
elem_of_all p v (x ∷ xs) h q = elim (Bool-cases (v == x)) [
  | inl same ↦ let e : v ≡ x = ground arith in absurd (ground (arith, ap p e))
  | inr differ ↦ ground (arith, elem_of_all p v xs)
]

IsDistinct-append :
    (p : ℕ → Bool) (xs ys : List ℕ)
    → IsDistinct xs
    → IsDistinct ys
    → all (λ v. not (p v)) xs ≡ true
    → all p ys ≡ true
    → IsDistinct (xs ++ ys)
IsDistinct-append p [] ys dx dy hx hy = dy
IsDistinct-append p (x ∷ xs) ys dx dy hx hy = (
  elem-append x xs ys ∙ ground (arith, dx.0, elem_of_all p x ys hy),
  IsDistinct-append p xs ys dx.1 dy (ground (arith, hx)) hy,
)

pub IsDistinct-pairs_from :
    (i : ℕ) (cs : List (List ℕ))
    → i + length cs ≤ 2 ^ 32
    → AllBytes cs
    → IsDistinct (pairs_from i cs)
unfolding pairs_from
IsDistinct-pairs_from i [] room bytes = tt
IsDistinct-pairs_from i (c ∷ cs) room bytes =
    IsDistinct-append (λ v. leb (i + 1) (v % 2 ^ 32)) (pairs_of i (extract c))
      (pairs_from (i + 1) cs)
      (IsDistinct-pairs_of i (extract c) (omega arith) (extract-AllTrigrams c)
        (extract-IsAscending c bytes.0))
      (IsDistinct-pairs_from (i + 1) cs (omega arith) bytes.1)
      (all_mono (λ v. v % 2 ^ 32 == i) (λ v. not (leb (i + 1) (v % 2 ^ 32)))
        (pairs_of i (extract c)) (λ v e. ground arith)
        (all-pairs_of i (extract c) (omega arith) (extract-AllTrigrams c)))
      (all-pairs_from (i + 1) cs (omega arith))

-- The pairs of all documents: a trigram is paired with a document that has it, and with no other.
pub elem-pairs :
    (d : ℕ) (t : Trigram) (cs : List (List ℕ))
    → length cs ≤ 2 ^ 32
    → d < 2 ^ 32
    → IsTrigram t
    → elem (key_of t * 2 ^ 32 + d) (pairs_from 0 cs) ≡ has_trigram cs d t
elem-pairs d t cs room h p = elem-pairs_from 0 d t cs (omega arith) h p ∙ ground arith
