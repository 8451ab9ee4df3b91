-- ===== src/Table/Reader/Named.antt =====
-- The name index of crates/greplm-core/src/table.rs: `build_name_fst`, and `fst_row_ids` over the
-- section of ids that it returns.
use greplm.Common.{
  ℕ, zero, suc, ◌+◌, ◌-◌, ◌*◌, ◌≤◌, ◌<◌, ◌^◌, ◌≡◌, refl, sym, ap, ◌∙◌, bit_and, Bool, true, false,
  ◌&&◌, inl, inr, Option, some, none, List, [], ◌∷◌, arith, ltb, leb, if◌then◌else◌, Bool-cases,
  length, slice, take, drop, concat, get_or, get_elem?, get_range, get_range-beyond, filter, all,
  range_from,
}
use mathlib.Core.Option.{some-injective}
use greplm.Common.Bits.{shr}
use greplm.Common.Options.{◌>>=◌ as ◌>>=?◌, filter_map}
use greplm.Common.Positions.{take-nil, all-get_or, drop-beyond}
use greplm.Common.Result.{ok, other, ok_or, ok->>=}
use greplm.Common.Utf8.{is_utf8}
use greplm.Fst.{Fst, FstFile, FstLaws, bytes_eq, find}
use greplm.Segment.{Text}
use greplm.Segment.Files.{from_le_bytes}
use greplm.Table.{StrColBuilder, get_str, name_entries, sort_ids, build_name_fst}
use greplm.Table.Builder.Columns.{StringsHold}
use greplm.Table.Builder.Entries.{find-name_entries, name_entries-KeysAscend}
use greplm.Table.Builder.Names.{named, ids_of}
use greplm.Table.Builder.Order.{
  sort_ids-NamesSorted, length-sort_ids, all-sort_ids, filter-sort_ids,
}
use greplm.Table.Core.{TableCore, section, u32_entry, fst_row_ids}
use greplm.Table.Core.Packed.{numbers, length-numbers, ends, get_range-ends, u32_entry-numbers}

length-range_from : (n lo : ℕ) → length (range_from n lo) ≡ n
length-range_from zero lo = refl
length-range_from (suc n) lo = ap suc (length-range_from n (lo + 1))

get_elem?-get_or : (xs : List ℕ) (i : ℕ) → i < length xs → get_elem? xs i ≡ some (get_or xs i 0)
get_elem?-get_or [] i h = absurd (omega arith)
get_elem?-get_or (x ∷ xs) zero h = refl
get_elem?-get_or (x ∷ xs) (suc i) h = get_elem?-get_or xs i (omega arith)

get_elem?-beyond : (xs : List ℕ) (i : ℕ) → length xs ≤ i → get_elem? xs i ≡ none
get_elem?-beyond [] i h = refl
get_elem?-beyond (x ∷ xs) zero h = absurd (omega arith)
get_elem?-beyond (x ∷ xs) (suc i) h = get_elem?-beyond xs i (omega arith)

drop-get_elem? : (xs : List ℕ) (i x : ℕ) → get_elem? xs i ≡ some x → drop i xs ≡ x ∷ drop (suc i) xs
drop-get_elem? [] i x h = absurd (cc h)
drop-get_elem? (y ∷ xs) zero x h = ap (λ z. z ∷ xs) (some-injective _ _ h)
drop-get_elem? (y ∷ xs) (suc i) x h = drop-get_elem? xs i x h

filter_map-get_elem? :
    (g : ℕ → Option ℕ) (xs : List ℕ) (n lo : ℕ)
    → ((i : ℕ) → g i ≡ get_elem? xs i)
    → filter_map g (range_from n lo) ≡ take n (drop lo xs)
filter_map-get_elem? g xs zero lo h = refl
filter_map-get_elem? g xs (suc n) lo h =
    let next : lo + 1 ≡ suc lo = omega arith in
    let rest = filter_map-get_elem? g xs n (lo + 1) h ∙ ap (λ (k : ℕ). take n (drop k xs)) next in
    elim (Bool-cases (ltb lo (length xs))) [
      | inl e ↦
          let at = get_elem?-get_or xs lo (ground arith) in
          rw (h lo ∙ at, drop-get_elem? xs lo (get_or xs lo 0) at, rest) refl
      | inr e ↦
          rw
            (
              h lo ∙ get_elem?-beyond xs lo (ground arith),
              rest,
              drop-beyond xs lo (ground arith),
              drop-beyond xs (suc lo) (ground arith),
            )
            (take-nil n)
    ]

module _ (c : TableCore) (s : ℕ) (ids : List ℕ) (e : section c s ≡ numbers 4 ids)
    (small : all (λ x. ltb x (2 ^ 32)) ids ≡ true) where
  u32_entry-get_elem? : (i : ℕ) → u32_entry c s i ≡ get_elem? ids i
  unfolding u32_entry
  u32_entry-get_elem? i = elim (Bool-cases (ltb i (length ids))) [
    | inl inside ↦
        let room : i < length ids = ground arith in
        let fits : ltb (get_or ids i 0) (2 ^ 32) ≡ true =
          all-get_or (λ x. ltb x (2 ^ 32)) ids i 0 small room in
        u32_entry-numbers c s i ids e room (ground arith) ∙ sym (get_elem?-get_or ids i room)
    | inr beyond ↦
        let outside : length ids ≤ i = ground arith in
        ap (λ bs. get_range (i * 4) (i * 4 + 4) bs >>=? λ b. some (from_le_bytes b)) e
        ∙ ap (λ o. o >>=? λ b. some (from_le_bytes b))
            (get_range-beyond (i * 4) (i * 4 + 4) (numbers 4 ids)
              (omega (arith, length-numbers 4 ids)))
        ∙ sym (get_elem?-beyond ids i outside)
  ]

  fst_row_ids-ids_of : (v : ℕ) → fst_row_ids c s v ≡ ids_of (some v) ids
  unfolding fst_row_ids
  fst_row_ids-ids_of v =
      let lo = shr v 32 in
      let n = bit_and v (2 ^ 32 - 1) in
      let size : lo + n - lo ≡ n = omega arith in
      filter_map-get_elem? (u32_entry c s) ids n lo u32_entry-get_elem?
      ∙ ap (λ (k : ℕ). take k (drop lo ids)) (sym size)

  pub looked_up :
      (o : Option ℕ)
      → (elim o as (λ x. List ℕ) [ none ↦ [] | some v ↦ fst_row_ids c s v ]) ≡ ids_of o ids
  looked_up none = refl
  looked_up (some v) = fst_row_ids-ids_of v

all-range_from : (n lo : ℕ) → lo + n ≤ 2 ^ 32 → all (λ x. ltb x (2 ^ 32)) (range_from n lo) ≡ true
all-range_from zero lo h = refl
all-range_from (suc n) lo h = ground (arith, all-range_from n (lo + 1))

filter-eq :
    (p q : ℕ → Bool) (n lo : ℕ)
    → ((i : ℕ) → lo ≤ i → i < lo + n → p i ≡ q i)
    → filter p (range_from n lo) ≡ filter q (range_from n lo)
filter-eq p q zero lo h = refl
filter-eq p q (suc n) lo h =
    let rest = filter-eq p q n (lo + 1) (λ i above below. h i (omega arith) (omega arith)) in
    rw (h lo (omega arith) (omega arith), rest) refl

if-eq-some :
    (b : Bool) (xs : List ℕ) {ys : List ℕ} → (if b then some xs else none) ≡ some ys → xs ≡ ys
if-eq-some true xs h = some-injective _ _ h
if-eq-some false xs h = absurd (cc h)

get_range-eq-some :
    (lo hi : ℕ) (xs ys : List ℕ) → get_range lo hi xs ≡ some ys → slice lo hi xs ≡ ys
get_range-eq-some lo hi xs ys h = if-eq-some (leb lo hi && leb hi (length xs)) (slice lo hi xs) h

pub get_str_hold :
    (names : List Text) (c : StrColBuilder) (i : ℕ)
    → StringsHold names c
    → all is_utf8 names ≡ true
    → i < length names
    → get_str c i ≡ get_or names i []
unfolding get_str
get_str_hold names c i h valid room =
    let next : i + 1 ≡ suc i = omega arith in
    let found =
      get_range-eq-some (get_or (ends 0 names) i 0) (get_or (ends 0 names) (suc i) 0) (concat names)
        (get_or names i []) (get_range-ends 0 i [] names refl room) in
    rw (h.bounds_eq, h.bytes_eq, next, found, all-get_or is_utf8 names i [] valid room) refl

-- the ids by name
abbrev pub order_of : ℕ → (ℕ → Text) → List ℕ
order_of n name_of = sort_ids name_of (range_from n 0)

-- the ids of a name, from the list of the names
abbrev pub ids_named : List Text → Text → List ℕ
ids_named names name = filter (λ i. bytes_eq (get_or names i []) name) (range_from (length names) 0)

-- The map that was built for these names.
pub record NamesMap (f : Fst) (names : List Text) (rows : ℕ) (m : f.Map) (ids : List ℕ)
    : Type 0 where
  pub column : StrColBuilder
  pub column_hold : StringsHold names column
  pub made :
      f.build (
        name_entries
          (get_str column)
          (length (order_of rows (get_str column)))
          0
          (order_of rows (get_str column)))
      ≡ some m
  pub ids_eq : ids ≡ numbers 4 (order_of rows (get_str column))

module _ (f : Fst) (file : FstFile f) (laws : FstLaws f) (n : ℕ) (name_of : ℕ → Text) where
  abbrev order : List ℕ
  order = order_of n name_of

  -- The index of any names is built: an fst map takes keys in ascending order, and the keys are
  -- inserted so.
  pub build_name_fst-total :
      (index : List ℕ × List ℕ) × (build_name_fst f file n name_of ≡ ok index)
  unfolding build_name_fst
  build_name_fst-total =
      let asc =
        name_entries-KeysAscend name_of (length order) 0 order (omega arith)
          (sort_ids-NamesSorted name_of n 0) in
      let es = name_entries name_of (length order) 0 order in
      (
        (file.into_inner (laws.built es asc), numbers 4 order),
        ok->>= _ (ap (λ o. ok_or o other) (laws.build_lem es asc)) refl,
      )

  -- What a core that has the ids in a section finds by a name in the map that was built.
  pub named_written :
      (built : f.Map) (c : TableCore) (s : ℕ) (k : Text)
      → n < 2 ^ 32
      → f.build (name_entries name_of (length order) 0 order) ≡ some built
      → section c s ≡ numbers 4 order
      → (elim (f.get built k) as (λ x. List ℕ) [ none ↦ [] | some v ↦ fst_row_ids c s v ])
        ≡ named name_of k (range_from n 0)
  named_written built c s k small made e =
      let asc =
        name_entries-KeysAscend name_of (length order) 0 order (omega arith)
          (sort_ids-NamesSorted name_of n 0) in
      let es = name_entries name_of (length order) 0 order in
      let same : laws.built es asc ≡ built =
        some-injective _ _ (sym (laws.build_lem es asc) ∙ made) in
      let got : f.get built k ≡ find k es =
        ap (λ m. f.get m k) (sym same) ∙ laws.get_lem es asc k in
      let size : length order ≡ n =
        length-sort_ids name_of (range_from n 0) ∙ length-range_from n 0 in
      let fits : all (λ x. ltb x (2 ^ 32)) order ≡ true =
        all-sort_ids name_of (λ x. ltb x (2 ^ 32)) (range_from n 0)
        ∙ all-range_from n 0 (omega arith) in
      looked_up c s order e fits (f.get built k)
      ∙ ap (λ o. ids_of o order) got
      ∙ find-name_entries name_of k (length order) 0 [] order (omega arith) refl
          (omega (arith, size)) (sort_ids-NamesSorted name_of n 0)
      ∙ filter-sort_ids name_of k n 0

pub NamesMap-lookup :
    (f : Fst) (file : FstFile f) (laws : FstLaws f) (names : List Text) (rows : ℕ) (m : f.Map)
    (ids : List ℕ) (c : TableCore) (s : ℕ) (k : Text)
    → NamesMap f names rows m ids
    → rows ≡ length names
    → rows < 2 ^ 32
    → all is_utf8 names ≡ true
    → section c s ≡ ids
    → (elim (f.get m k) as (λ x. List ℕ) [ none ↦ [] | some v ↦ fst_row_ids c s v ])
      ≡ ids_named names k
NamesMap-lookup f file laws names rows m ids c s k h count small valid e =
    named_written f file laws rows (get_str h.column) m c s k small h.made (e ∙ h.ids_eq)
    ∙ filter-eq (λ i. bytes_eq (get_str h.column i) k) (λ i. bytes_eq (get_or names i []) k) rows 0
        (λ i above below.
          ap (λ name. bytes_eq name k)
            (get_str_hold names h.column i h.column_hold valid (omega (arith, count))))
    ∙ ap (λ (n : ℕ). filter (λ i. bytes_eq (get_or names i []) k) (range_from n 0)) count
