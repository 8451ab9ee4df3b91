-- ===== src/Table/Builder/Columns.antt =====
-- `StrColBuilder` and the row columns of crates/greplm-core/src/table.rs: what they hold after some
-- pushes, and how they are cut into sections.
use greplm.Common.{
  ℕ, zero, suc, ◌≡◌, refl, sym, ap, some, List, [], ◌∷◌, ◌++◌, length, concat, get_or, get_elem?,
}
use mathlib.Core.Option.{some-injective}
use greplm.Common.Utf8.{ascii_lower}
use greplm.Segment.{Text}
use greplm.Segment.Files.{Postcard, to_le_bytes}
use greplm.Table.{StrColBuilder, empty_column, push_str, push_ascii_lower, into_sections}
use greplm.Table.Core.Packed.{numbers, numbers_snoc, ends, ends_push, concat_snoc}

-- A column of these strings.
pub record StringsHold (names : List Text) (c : StrColBuilder) : Type 0 where
  pub bounds_eq : c.bounds ≡ ends 0 names
  pub bytes_eq : c.bytes ≡ concat names

pub empty_column_hold : StringsHold [] empty_column
empty_column_hold = record { bounds_eq = unfold ends in refl; bytes_eq = refl }

pub push_str_hold :
    (names : List Text) (c : StrColBuilder) (s : Text)
    → StringsHold names c
    → StringsHold (names ++ s ∷ []) (push_str c s)
unfolding push_str
push_str_hold names c s h = record {
  bounds_eq = rw (ends_push names s, h.bounds_eq, h.bytes_eq) refl;
  bytes_eq = rw (concat_snoc names s, h.bytes_eq) refl;
}

pub push_ascii_lower_hold :
    (names : List Text) (c : StrColBuilder) (s : Text)
    → StringsHold names c
    → StringsHold (names ++ ascii_lower s ∷ []) (push_ascii_lower c s)
unfolding push_ascii_lower push_str
push_ascii_lower_hold names c s h = push_str_hold names c (ascii_lower s) h

pub into_sections_hold :
    (names : List Text) (c : StrColBuilder)
    → StringsHold names c
    → into_sections c ≡ (numbers 8 (ends 0 names), concat names)
unfolding into_sections
into_sections_hold names c h = rw (h.bounds_eq, h.bytes_eq) refl

-- The bytes of rows, each encoded.
abbrev pub Encodes : {A : Type 0} → Postcard A → List A → List (List ℕ) → Type 0
Encodes codec [] [] = Unit {0}
Encodes codec (r ∷ rs) (p ∷ ps) = (codec.to_allocvec r ≡ some p) × Encodes codec rs ps
Encodes codec _ _ = ⊥

module _ {A : Type 0} (codec : Postcard A) where
  pub Encodes-snoc :
      (rows : List A) (parts : List (List ℕ)) (r : A) (p : List ℕ)
      → Encodes codec rows parts
      → codec.to_allocvec r ≡ some p
      → Encodes codec (rows ++ r ∷ []) (parts ++ p ∷ [])
  Encodes-snoc [] [] r p e h = (h, tt)
  Encodes-snoc [] (q ∷ ps) r p e h = absurd e
  Encodes-snoc (s ∷ rows) [] r p e h = absurd e
  Encodes-snoc (s ∷ rows) (q ∷ ps) r p e h = (e.0, Encodes-snoc rows ps r p e.1 h)

  pub Encodes-length :
      (rows : List A) (parts : List (List ℕ))
      → Encodes codec rows parts
      → length parts ≡ length rows
  Encodes-length [] [] e = refl
  Encodes-length [] (q ∷ ps) e = absurd e
  Encodes-length (s ∷ rows) [] e = absurd e
  Encodes-length (s ∷ rows) (q ∷ ps) e = ap suc (Encodes-length rows ps e.1)

  pub Encodes-get_elem? :
      (rows : List A) (parts : List (List ℕ)) (i : ℕ) (r : A)
      → Encodes codec rows parts
      → get_elem? rows i ≡ some r
      → codec.to_allocvec r ≡ some (get_or parts i [])
  Encodes-get_elem? [] parts i r e h = absurd (cc h)
  Encodes-get_elem? (s ∷ rows) [] i r e h = absurd e
  Encodes-get_elem? (s ∷ rows) (q ∷ ps) zero r e h = rw (sym (some-injective _ _ h)) e.0
  Encodes-get_elem? (s ∷ rows) (q ∷ ps) (suc i) r e h = Encodes-get_elem? rows ps i r e.1 h

-- The rows' bytes, and the section of their offsets.
pub record RowsHold {A : Type 0} (codec : Postcard A) (rows : List A) (offsets bytes : List ℕ)
    : Type 0 where
  pub parts : List (List ℕ)
  pub encoded : Encodes codec rows parts
  pub offsets_eq : offsets ≡ numbers 8 (ends 0 parts)
  pub row_bytes_eq : bytes ≡ concat parts

pub no-RowsHold :
    {A : Type 0} (codec : Postcard A) → RowsHold codec [] (0 ∷ 0 ∷ 0 ∷ 0 ∷ 0 ∷ 0 ∷ 0 ∷ 0 ∷ []) []
no-RowsHold codec = record {
  parts = [];
  encoded = tt;
  offsets_eq = unfold ends to_le_bytes in refl;
  row_bytes_eq = refl;
}

pub RowsHold-snoc :
    {A : Type 0} (codec : Postcard A) (rows : List A) (offsets bytes : List ℕ) (r : A) (p : List ℕ)
    → codec.to_allocvec r ≡ some p
    → RowsHold codec rows offsets bytes
    → RowsHold codec (rows ++ r ∷ []) (offsets ++ to_le_bytes 8 (length (bytes ++ p))) (bytes ++ p)
RowsHold-snoc codec rows offsets bytes r p e h = record {
  parts = h.parts ++ p ∷ [];
  encoded = Encodes-snoc codec rows h.parts r p h.encoded e;
  offsets_eq =
      rw
        (
          ends_push h.parts p,
          numbers_snoc 8 (ends 0 h.parts) (length (concat h.parts ++ p)),
          h.offsets_eq,
          h.row_bytes_eq,
        )
        refl;
  row_bytes_eq = rw (concat_snoc h.parts p, h.row_bytes_eq) refl;
}
