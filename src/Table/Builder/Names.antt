-- ===== src/Table/Builder/Names.antt =====
-- The runs of equal names that `build_name_fst` of crates/greplm-core/src/table.rs makes entries of.
use greplm.Common.{
  ℕ, ◌+◌, ◌-◌, ◌*◌, ◌^◌, ◌<◌, ◌≡◌, refl, sym, ap, subst, ◌∙◌, bit_or, bit_and, true, false, inl,
  inr, Option, some, none, List, [], ◌∷◌, ◌++◌, arith, if◌then◌else◌, Bool-cases, slice, filter,
  all, all_mono,
}
use greplm.Common.Bits.{shl, shr, bit_or-shift, bit_and_mask}
use greplm.Fst.{bytes_eq}
use greplm.Segment.{Text}
use greplm.Table.{text_ltb, name_run}
use greplm.Table.Builder.Kinds.{bytes_eq-eq-true}
use greplm.Table.Builder.Order.{
  text_ltb_irrefl, text_ltb_total, text_ltb-bytes_eq, bytes_eq_comm, NotBefore, NamesSorted,
}

text_ltb_le_trans :
    (a b c : Text) → text_ltb a b ≡ true → text_ltb c b ≡ false → text_ltb a c ≡ true
unfolding text_ltb
text_ltb_le_trans [] [] c h k = absurd (cc h)
text_ltb_le_trans [] (y ∷ b) [] h k = absurd (cc k)
text_ltb_le_trans [] (y ∷ b) (z ∷ c) h k = refl
text_ltb_le_trans (x ∷ a) [] c h k = absurd (cc h)
text_ltb_le_trans (x ∷ a) (y ∷ b) [] h k = absurd (cc k)
text_ltb_le_trans (x ∷ a) (y ∷ b) (z ∷ c) h k = ground (arith, text_ltb_le_trans a b c)

-- the ids with a name
abbrev pub named : (ℕ → Text) → Text → List ℕ → List ℕ
named name_of name = filter (λ i. bytes_eq (name_of i) name)

module _ (name_of : ℕ → Text) where
  abbrev pub After : Text → List ℕ → Type 0
  After name ids = all (λ y. text_ltb name (name_of y)) ids ≡ true

  named-After : (name : Text) (ids : List ℕ) → After name ids → named name_of name ids ≡ []
  named-After name [] h = refl
  named-After name (y ∷ ys) h = ground (
    arith,
    named-After name ys,
    text_ltb-bytes_eq name (name_of y),
    bytes_eq_comm name (name_of y),
  )

  -- A run of a name at the front of sorted ids.
  pub record RunHolds (name : Text) (ids : List ℕ) (result : List ℕ × List ℕ) : Type 0 where
    pub split : result.0 ++ result.1 ≡ ids
    pub run_eq : named name_of name ids ≡ result.0
    pub rest_after : After name result.1
    pub rest_sorted : NamesSorted name_of result.1
    pub others :
        (k : Text) → bytes_eq name k ≡ false → named name_of k ids ≡ named name_of k result.1

  run_here :
      (name : Text) (x : ℕ) (xs run rest : List ℕ)
      → bytes_eq (name_of x) name ≡ true
      → RunHolds name xs (run, rest)
      → RunHolds name (x ∷ xs) (x ∷ run, rest)
  run_here name x xs run rest e h = record {
    split = ap (◌∷◌ x) h.split;
    run_eq = rw (e, h.run_eq) refl;
    rest_after = h.rest_after;
    rest_sorted = h.rest_sorted;
    others = λ k apart.
        let x_apart : bytes_eq (name_of x) k ≡ false =
          subst (λ n. bytes_eq n k ≡ false) (sym (bytes_eq-eq-true (name_of x) name e)) apart in
        rw (x_apart, h.others k apart) refl;
  }

  run_over :
      (name : Text) (x : ℕ) (xs : List ℕ)
      → bytes_eq (name_of x) name ≡ false
      → NotBefore name_of name (x ∷ xs)
      → NamesSorted name_of (x ∷ xs)
      → RunHolds name (x ∷ xs) ([], x ∷ xs)
  run_over name x xs e later sorted =
      let lt : text_ltb name (name_of x) ≡ true = ground (arith, text_ltb_total (name_of x) name) in
      let after : After name (x ∷ xs) = ground (
        arith,
        all_mono _ (λ y. text_ltb name (name_of y)) xs
            (λ y p. text_ltb_le_trans name (name_of x) (name_of y) lt (ground arith)) sorted.0,
      ) in
      record {
        split = refl;
        run_eq = named-After name (x ∷ xs) after;
        rest_after = after;
        rest_sorted = sorted;
        others = λ k apart. refl;
      }

  name_run_step :
      (name : Text) (x : ℕ) (xs run rest : List ℕ)
      → NotBefore name_of name (x ∷ xs)
      → NamesSorted name_of (x ∷ xs)
      → RunHolds name xs (run, rest)
      → RunHolds name (x ∷ xs) (if bytes_eq (name_of x) name then (x ∷ run, rest) else ([], x ∷ xs))
  name_run_step name x xs run rest later sorted h = elim (Bool-cases (bytes_eq (name_of x) name)) [
    | inl e ↦ rw e (run_here name x xs run rest e h)
    | inr e ↦ rw e (run_over name x xs e later sorted)
  ]

  name_run_lem :
      (name : Text) (ids : List ℕ)
      → NotBefore name_of name ids
      → NamesSorted name_of ids
      → RunHolds name ids (name_run name_of name ids)
  unfolding name_run
  name_run_lem name [] later sorted = record {
    split = refl;
    run_eq = refl;
    rest_after = refl;
    rest_sorted = tt;
    others = λ k apart. refl;
  }
  name_run_lem name (x ∷ xs) later sorted =
      name_run_step name x xs (name_run name_of name xs).0 (name_run name_of name xs).1 later sorted
        (name_run_lem name xs (ground arith) sorted.1)

  -- The run of the first name takes the first id, and what is left is shorter.
  pub first_run :
      (x : ℕ) (xs : List ℕ)
      → NamesSorted name_of (x ∷ xs)
      → RunHolds (name_of x) (x ∷ xs) (name_run name_of (name_of x) (x ∷ xs))
  first_run x xs sorted =
      name_run_lem (name_of x) (x ∷ xs) (ground (arith, text_ltb_irrefl (name_of x), sorted.0))
        sorted

-- the ids that an entry's value stands for
abbrev pub ids_of : Option ℕ → List ℕ → List ℕ
ids_of none ids = []
ids_of (some v) ids = slice (shr v 32) (shr v 32 + bit_and v (2 ^ 32 - 1)) ids

pub unpack_run :
    (i n : ℕ)
    → i < 2 ^ 32
    → n < 2 ^ 32
    → (shr (bit_or (shl 64 i 32) n) 32 ≡ i) × (bit_and (bit_or (shl 64 i 32) n) (2 ^ 32 - 1) ≡ n)
unpack_run i n hi hn =
    let fits : shl 64 i 32 ≡ i * 2 ^ 32 = omega arith in
    let value : bit_or (shl 64 i 32) n ≡ i * 2 ^ 32 + n = rw fits (bit_or-shift 32 i n hn) in
    (rw value (omega arith), bit_and_mask 32 _ ∙ rw value (omega arith))
