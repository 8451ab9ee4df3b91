-- ===== src/Table/Builder/Order.antt =====
-- The order of names that `build_name_fst` of crates/greplm-core/src/table.rs sorts by, and the sort.
use greplm.Common.{
  ℕ, zero, suc, ◌+◌, ◌≤◌, ◌≡◌, refl, ap, subst, ◌∙◌, Bool, true, false, not, ◌&&◌, inl, inr, List,
  [], ◌∷◌, arith, ltb, leb, Bool-cases, length, filter, all, all_mono, range_from,
}
use greplm.Fst.{bytes_eq, BytesLt}
use greplm.Segment.{Text}
use greplm.Table.{text_ltb, name_leb, insert_id, sort_ids}
use greplm.Table.Builder.Kinds.{bytes_eq-eq-true}

pub text_ltb_irrefl : (a : Text) → text_ltb a a ≡ false
unfolding text_ltb
text_ltb_irrefl [] = refl
text_ltb_irrefl (x ∷ a) = ground (arith, text_ltb_irrefl a)

pub text_ltb_trans :
    (a b c : Text) → text_ltb b a ≡ false → text_ltb c b ≡ false → text_ltb c a ≡ false
unfolding text_ltb
text_ltb_trans [] [] c h k = k
text_ltb_trans [] (y ∷ b) [] h k = refl
text_ltb_trans [] (y ∷ b) (z ∷ c) h k = refl
text_ltb_trans (x ∷ a) [] c h k = absurd (cc h)
text_ltb_trans (x ∷ a) (y ∷ b) [] h k = absurd (cc k)
text_ltb_trans (x ∷ a) (y ∷ b) (z ∷ c) h k = ground (arith, text_ltb_trans a b c)

pub text_ltb_asym : (a b : Text) → text_ltb a b ≡ true → text_ltb b a ≡ false
unfolding text_ltb
text_ltb_asym [] [] h = refl
text_ltb_asym [] (y ∷ b) h = refl
text_ltb_asym (x ∷ a) [] h = absurd (cc h)
text_ltb_asym (x ∷ a) (y ∷ b) h = ground (arith, text_ltb_asym a b)

pub text_ltb_total :
    (a b : Text) → text_ltb a b ≡ false → bytes_eq a b ≡ false → text_ltb b a ≡ true
unfolding text_ltb
text_ltb_total [] [] h k = absurd (cc k)
text_ltb_total [] (y ∷ b) h k = absurd (cc h)
text_ltb_total (x ∷ a) [] h k = refl
text_ltb_total (x ∷ a) (y ∷ b) h k = ground (arith, text_ltb_total a b)

pub bytes_eq_comm : (a b : Text) → bytes_eq a b ≡ bytes_eq b a
bytes_eq_comm [] [] = refl
bytes_eq_comm [] (y ∷ b) = refl
bytes_eq_comm (x ∷ a) [] = refl
bytes_eq_comm (x ∷ a) (y ∷ b) = ground (arith, bytes_eq_comm a b)

pub text_ltb-bytes_eq : (a b : Text) → text_ltb a b ≡ true → bytes_eq a b ≡ false
unfolding text_ltb
text_ltb-bytes_eq [] [] h = absurd (cc h)
text_ltb-bytes_eq [] (y ∷ b) h = refl
text_ltb-bytes_eq (x ∷ a) [] h = refl
text_ltb-bytes_eq (x ∷ a) (y ∷ b) h = ground (arith, text_ltb-bytes_eq a b)

pub BytesLt-of : (a b : Text) → text_ltb a b ≡ true → BytesLt a b
unfolding text_ltb
BytesLt-of [] [] h = absurd (cc h)
BytesLt-of [] (y ∷ b) h = tt
BytesLt-of (x ∷ a) [] h = absurd (cc h)
BytesLt-of (x ∷ a) (y ∷ b) h = elim (Bool-cases (ltb x y)) [
  | inl less ↦ inl (ground arith)
  | inr same ↦ inr (ground arith, BytesLt-of a b (ground arith))
]

apart_names : (a b name : Text) → text_ltb b a ≡ true → (bytes_eq a name && bytes_eq b name) ≡ false
apart_names a b name lt = elim (Bool-cases (bytes_eq a name)) [
  | inl e ↦
      let other : bytes_eq b name ≡ false =
        subst (λ n. bytes_eq b n ≡ false) (bytes_eq-eq-true a name e) (text_ltb-bytes_eq b a lt) in
      ground arith
  | inr e ↦ ground arith
]

module _ (name_of : ℕ → Text) where
  -- No name is before the names that precede it.
  abbrev pub NotBefore : Text → List ℕ → Type 0
  NotBefore name ids = all (λ y. not (text_ltb (name_of y) name)) ids ≡ true

  abbrev pub NamesSorted : List ℕ → Type 0
  NamesSorted [] = Unit {0}
  NamesSorted (x ∷ xs) = NotBefore (name_of x) xs × NamesSorted xs

  pub NotBefore-trans :
      (a b : Text) (ids : List ℕ) → text_ltb b a ≡ false → NotBefore b ids → NotBefore a ids
  NotBefore-trans a b ids h k =
      all_mono _ _ ids (λ y p. ground (arith, text_ltb_trans a b (name_of y) h)) k

  NotBefore-insert_id :
      (name : Text) (x : ℕ) (ids : List ℕ)
      → text_ltb (name_of x) name ≡ false
      → NotBefore name ids
      → NotBefore name (insert_id name_of x ids)
  unfolding insert_id
  NotBefore-insert_id name x [] h k = ground arith
  NotBefore-insert_id name x (y ∷ ys) h k = elim (Bool-cases (name_leb name_of x y)) [
    | inl e ↦ rw e (ground arith)
    | inr e ↦ rw e (ground (arith, NotBefore-insert_id name x ys h))
  ]

  name_leb-true : (x y : ℕ) → name_leb name_of x y ≡ true → text_ltb (name_of y) (name_of x) ≡ false
  unfolding name_leb
  name_leb-true x y e = ground (
    arith,
    text_ltb_asym (name_of x) (name_of y),
    text_ltb-bytes_eq (name_of y) (name_of x),
    bytes_eq_comm (name_of x) (name_of y),
  )

  name_leb-false :
      (x y : ℕ) → x ≤ y → name_leb name_of x y ≡ false → text_ltb (name_of y) (name_of x) ≡ true
  unfolding name_leb
  name_leb-false x y below e = ground (arith, text_ltb_total (name_of x) (name_of y))

  insert_id-NamesSorted :
      (x : ℕ) (ids : List ℕ)
      → all (leb x) ids ≡ true
      → NamesSorted ids
      → NamesSorted (insert_id name_of x ids)
  unfolding insert_id
  insert_id-NamesSorted x [] low h = (refl, tt)
  insert_id-NamesSorted x (y ∷ ys) low h = elim (Bool-cases (name_leb name_of x y)) [
    | inl e ↦
        let le = name_leb-true x y e in
        rw e (ground (arith, NotBefore-trans (name_of x) (name_of y) ys le h.0), h)
    | inr e ↦
        let lt = name_leb-false x y (ground arith) e in
        rw e (
          NotBefore-insert_id (name_of y) x ys (text_ltb_asym (name_of y) (name_of x) lt) h.0,
          insert_id-NamesSorted x ys (ground arith) h.1,
        )
  ]

  -- The ids with a name are in the order in which they were given.
  filter-insert_id :
      (name : Text) (x : ℕ) (ids : List ℕ)
      → all (leb x) ids ≡ true
      → filter (λ i. bytes_eq (name_of i) name) (insert_id name_of x ids)
        ≡ filter (λ i. bytes_eq (name_of i) name) (x ∷ ids)
  unfolding insert_id
  filter-insert_id name x [] low = refl
  filter-insert_id name x (y ∷ ys) low = elim (Bool-cases (name_leb name_of x y)) [
    | inl e ↦ rw e refl
    | inr e ↦
        let lt = name_leb-false x y (ground arith) e in
        let apart : (bytes_eq (name_of x) name && bytes_eq (name_of y) name) ≡ false =
          apart_names (name_of x) (name_of y) name lt in
        let ih = filter-insert_id name x ys (ground arith) in rw e (ground (arith, ih))
  ]

  all-insert_id :
      (p : ℕ → Bool) (x : ℕ) (ids : List ℕ) → all p (insert_id name_of x ids) ≡ (p x && all p ids)
  unfolding insert_id
  all-insert_id p x [] = refl
  all-insert_id p x (y ∷ ys) = elim (Bool-cases (name_leb name_of x y)) [
    | inl e ↦ rw e refl
    | inr e ↦ rw e (ground (arith, all-insert_id p x ys))
  ]

  pub all-sort_ids : (p : ℕ → Bool) (ids : List ℕ) → all p (sort_ids name_of ids) ≡ all p ids
  unfolding sort_ids
  all-sort_ids p [] = refl
  all-sort_ids p (x ∷ xs) =
      all-insert_id p x (sort_ids name_of xs) ∙ ap (λ b. p x && b) (all-sort_ids p xs)

  length-insert_id : (x : ℕ) (ids : List ℕ) → length (insert_id name_of x ids) ≡ suc (length ids)
  unfolding insert_id
  length-insert_id x [] = refl
  length-insert_id x (y ∷ ys) = elim (Bool-cases (name_leb name_of x y)) [
    | inl e ↦ rw e refl
    | inr e ↦ rw e (ap suc (length-insert_id x ys))
  ]

  pub length-sort_ids : (ids : List ℕ) → length (sort_ids name_of ids) ≡ length ids
  unfolding sort_ids
  length-sort_ids [] = refl
  length-sort_ids (x ∷ xs) = length-insert_id x (sort_ids name_of xs) ∙ ap suc (length-sort_ids xs)

all-leb-range_from : (x n lo : ℕ) → x ≤ lo → all (leb x) (range_from n lo) ≡ true
all-leb-range_from x zero lo h = refl
all-leb-range_from x (suc n) lo h = ground (arith, all-leb-range_from x n (lo + 1))

module _ (name_of : ℕ → Text) where
  pub sort_ids-NamesSorted : (n lo : ℕ) → NamesSorted name_of (sort_ids name_of (range_from n lo))
  unfolding sort_ids
  sort_ids-NamesSorted zero lo = tt
  sort_ids-NamesSorted (suc n) lo =
      insert_id-NamesSorted name_of lo (sort_ids name_of (range_from n (lo + 1)))
        (all-sort_ids name_of (leb lo) (range_from n (lo + 1))
          ∙ all-leb-range_from lo n (lo + 1) (omega arith))
        (sort_ids-NamesSorted n (lo + 1))

  pub filter-sort_ids :
      (name : Text) (n lo : ℕ)
      → filter (λ i. bytes_eq (name_of i) name) (sort_ids name_of (range_from n lo))
        ≡ filter (λ i. bytes_eq (name_of i) name) (range_from n lo)
  unfolding sort_ids
  filter-sort_ids name zero lo = refl
  filter-sort_ids name (suc n) lo =
      filter-insert_id name_of name lo (sort_ids name_of (range_from n (lo + 1))) (
        all-sort_ids name_of (leb lo) (range_from n (lo + 1))
        ∙ all-leb-range_from lo n (lo + 1) (omega arith))
      ∙ rw (filter-sort_ids name n (lo + 1)) refl
