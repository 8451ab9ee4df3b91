-- ===== src/Table/Core/Packed.antt =====
-- Packed columns, as `StrColBuilder` and the row columns of crates/greplm-core/src/table.rs keep
-- them, and the accessors `u64_entry`, `row_bytes` and `str_at` over them.
use greplm.Common.{
  ℕ, zero, suc, ◌+◌, ◌*◌, ◌^◌, ◌≤◌, ◌<◌, ◌≡◌, refl, sym, ap, ◌∙◌, true, false, some, List, [], ◌∷◌,
  ◌++◌, map, arith, leb, length, length-append, get_range, get_range-append, concat, get_or,
}
use mathlib.Core.List.{append_assoc, append-nil}
use greplm.Common.Options.{◌>>=◌ as ◌>>=?◌}
use greplm.Common.Utf8.{is_utf8}
use greplm.Segment.{Text}
use greplm.Segment.Files.{to_le_bytes, from_le_bytes}
use greplm.Segment.Files.Checksum.{length-to_le_bytes, from_le_bytes-to_le_bytes}
use greplm.Table.Core.{
  TableCore, section, u64_entry, u32_entry, row_bytes, str_at, sec_row_offsets, sec_rows,
}
use greplm.Table.Core.Header.{from_le_bytes-to_le_bytes_4}

-- a column of numbers of `n` bytes each
abbrev pub numbers : ℕ → List ℕ → List ℕ
numbers n xs = concat (map (to_le_bytes n) xs)

-- where the parts start, and where the last one ends
unfoldable pub ends : ℕ → List (List ℕ) → List ℕ
ends o [] = o ∷ []
ends o (p ∷ ps) = o ∷ ends (o + length p) ps

pub length-ends : (o : ℕ) (ps : List (List ℕ)) → length (ends o ps) ≡ suc (length ps)
unfolding ends
length-ends o [] = refl
length-ends o (p ∷ ps) = ap suc (length-ends (o + length p) ps)

pub concat-append : (ps qs : List (List ℕ)) → concat (ps ++ qs) ≡ concat ps ++ concat qs
concat-append [] qs = refl
concat-append (p ∷ ps) qs = rw (concat-append ps qs, append_assoc p (concat ps) (concat qs)) refl

pub concat_snoc : (ps : List (List ℕ)) (p : List ℕ) → concat (ps ++ p ∷ []) ≡ concat ps ++ p
concat_snoc ps p = concat-append ps (p ∷ []) ∙ ap (◌++◌ (concat ps)) (append-nil p)

ends_snoc :
    (o : ℕ) (ps : List (List ℕ)) (p : List ℕ)
    → ends o (ps ++ p ∷ []) ≡ ends o ps ++ (o + length (concat ps ++ p)) ∷ []
unfolding ends
ends_snoc o [] p = refl
ends_snoc o (q ∷ ps) p =
    let e : o + length q + length (concat ps ++ p) ≡ o + length ((q ++ concat ps) ++ p) = omega (
      arith,
      length-append (concat ps) p,
      length-append (q ++ concat ps) p,
      length-append q (concat ps),
    ) in
    rw (ends_snoc (o + length q) ps p, e) refl

pub ends_push :
    (ps : List (List ℕ)) (p : List ℕ)
    → ends 0 (ps ++ p ∷ []) ≡ ends 0 ps ++ length (concat ps ++ p) ∷ []
ends_push ps p = ends_snoc 0 ps p ∙ ap (λ (n : ℕ). ends 0 ps ++ n ∷ []) (omega arith)

pub numbers_snoc :
    (n : ℕ) (xs : List ℕ) (x : ℕ) → numbers n (xs ++ x ∷ []) ≡ numbers n xs ++ to_le_bytes n x
numbers_snoc n [] x = append-nil (to_le_bytes n x)
numbers_snoc n (y ∷ xs) x =
    rw (numbers_snoc n xs x, append_assoc (to_le_bytes n y) (numbers n xs) (to_le_bytes n x)) refl

pub length-numbers : (n : ℕ) (xs : List ℕ) → length (numbers n xs) ≡ n * length xs
length-numbers n [] = omega arith
length-numbers n (x ∷ xs) = omega (
  arith,
  length-append (to_le_bytes n x) (numbers n xs),
  length-to_le_bytes n x,
  length-numbers n xs,
)

-- A number of a column is found at its place.
pub get_range-numbers :
    (n at i : ℕ) (pre xs : List ℕ)
    → at ≡ length pre + i * n
    → i < length xs
    → get_range at (at + n) (pre ++ numbers n xs) ≡ some (to_le_bytes n (get_or xs i 0))
get_range-numbers n at i pre [] h room = absurd (omega arith)
get_range-numbers n at zero pre (x ∷ xs) h room =
    get_range-append at (at + n) pre (to_le_bytes n x) (numbers n xs) (omega arith)
      (omega (arith, length-to_le_bytes n x))
get_range-numbers n at (suc i) pre (x ∷ xs) h room =
    rw (sym (append_assoc pre (to_le_bytes n x) (numbers n xs))) (
      get_range-numbers n at i (pre ++ to_le_bytes n x) xs
        (omega (arith, length-append pre (to_le_bytes n x), length-to_le_bytes n x)) (omega arith))

-- A part is found between the ends that enclose it.
pub get_range-ends :
    (o i : ℕ) (pre : List ℕ) (ps : List (List ℕ))
    → length pre ≡ o
    → i < length ps
    → get_range (get_or (ends o ps) i 0) (get_or (ends o ps) (suc i) 0) (pre ++ concat ps)
      ≡ some (get_or ps i [])
unfolding ends
get_range-ends o i pre [] h room = absurd (omega arith)
get_range-ends o zero pre (p ∷ []) h room =
    get_range-append o (o + length p) pre p [] (sym h) (omega arith)
get_range-ends o zero pre (p ∷ q ∷ ps) h room =
    get_range-append o (o + length p) pre p (q ++ concat ps) (sym h) (omega arith)
get_range-ends o (suc i) pre (p ∷ ps) h room = rw (sym (append_assoc pre p (concat ps))) (
    get_range-ends (o + length p) i (pre ++ p) ps (omega (arith, length-append pre p))
      (omega arith))

pub ends-le : (o i : ℕ) (ps : List (List ℕ)) → get_or (ends o ps) i 0 ≤ o + length (concat ps)
unfolding ends
ends-le o zero [] = omega arith
ends-le o (suc i) [] = omega arith
ends-le o zero (p ∷ ps) = omega arith
ends-le o (suc i) (p ∷ ps) = omega (arith, ends-le (o + length p) i ps, length-append p (concat ps))

module _ (c : TableCore) where
  pub u64_entry-numbers :
      (s i : ℕ) (xs : List ℕ)
      → section c s ≡ numbers 8 xs
      → i < length xs
      → get_or xs i 0 < 2 ^ 64
      → u64_entry c s i ≡ some (get_or xs i 0)
  unfolding u64_entry
  u64_entry-numbers s i xs e room small = rw e (
      ap (λ o. o >>=? λ b. some (from_le_bytes b))
        (get_range-numbers 8 (i * 8) i [] xs (omega arith) room)
      ∙ ap some (from_le_bytes-to_le_bytes (get_or xs i 0) small))

  pub u32_entry-numbers :
      (s i : ℕ) (xs : List ℕ)
      → section c s ≡ numbers 4 xs
      → i < length xs
      → get_or xs i 0 < 2 ^ 32
      → u32_entry c s i ≡ some (get_or xs i 0)
  unfolding u32_entry
  u32_entry-numbers s i xs e room small = rw e (
      ap (λ o. o >>=? λ b. some (from_le_bytes b))
        (get_range-numbers 4 (i * 4) i [] xs (omega arith) room)
      ∙ ap some (from_le_bytes-to_le_bytes_4 (get_or xs i 0) small))

  -- Both ends of a part, and the part.
  packed_at :
      (s b i : ℕ) (ps : List (List ℕ))
      → section c s ≡ numbers 8 (ends 0 ps)
      → section c b ≡ concat ps
      → i < length ps
      → length (concat ps) < 2 ^ 64
      → (lo : ℕ) × (hi : ℕ) × (u64_entry c s i ≡ some lo)
        × (u64_entry c s (i + 1) ≡ some hi)
        × (get_range lo hi (section c b) ≡ some (get_or ps i []))
  packed_at s b i ps e f room small =
      let at = λ (j : ℕ) (below : j < suc (length ps)).
        u64_entry-numbers s j (ends 0 ps) e (omega (arith, length-ends 0 ps))
          (omega (arith, ends-le 0 j ps)) in
      let next : i + 1 ≡ suc i = omega arith in
      (
        get_or (ends 0 ps) i 0,
        get_or (ends 0 ps) (suc i) 0,
        at i (omega arith),
        rw next (at (suc i) (omega arith)),
        rw f (get_range-ends 0 i [] ps refl room),
      )

  pub row_bytes-packed :
      (i : ℕ) (ps : List (List ℕ))
      → section c sec_row_offsets ≡ numbers 8 (ends 0 ps)
      → section c sec_rows ≡ concat ps
      → c.row_count ≡ length ps
      → i < length ps
      → length (concat ps) < 2 ^ 64
      → row_bytes c i ≡ some (get_or ps i [])
  unfolding row_bytes
  row_bytes-packed i ps e f count room small =
      let (lo, hi, first, second, found) = packed_at sec_row_offsets sec_rows i ps e f room small in
      let inside : leb c.row_count i ≡ false = ground arith in rw (inside, first, second) found

  pub str_at-packed :
      (s b i : ℕ) (ps : List Text)
      → section c s ≡ numbers 8 (ends 0 ps)
      → section c b ≡ concat ps
      → i < length ps
      → length (concat ps) < 2 ^ 64
      → is_utf8 (get_or ps i []) ≡ true
      → str_at c s b i ≡ get_or ps i []
  unfolding str_at
  str_at-packed s b i ps e f room small valid =
      let (lo, hi, first, second, found) = packed_at s b i ps e f room small in
      rw (first, second, found, valid) refl
