-- ===== src/Trigram/Query/CaseFold.antt =====
-- The matches of a needle without regard to case, described by Unicode's simple case folding
-- and not by the planner's forms, and `from_literal_ci` of crates/greplm-core/src/trigram.rs.
use greplm.Common.{
  ℕ, ◌+◌, ◌-◌, ◌≤◌, ◌<◌, ◌≡◌, refl, ◌⊎◌, inl, inr, true, Option, none, some, List, [], ◌∷◌, ◌++◌,
  arith, Bool-cases, false, ◌==◌, leb, ◌||◌,
}
use greplm.Common.Member.{OneOf, first, later}
use greplm.Trigram.{IsBytes, contains, extract}
use greplm.Trigram.Query.{
  FoldForm, fold_forms, to_ascii_lowercase, to_ascii_uppercase, is_ascii_uppercase,
  is_ascii_lowercase, from_literal_ci, satisfied,
}
use greplm.Trigram.Query.Fold.{from_literal_ci-admits_forms}
use greplm.Trigram.Query.Window.{Folds, done, listed, other}

-- The bytes that a byte of the needle matches. An ASCII byte matches itself and, if it is a letter,
-- its other case; s and k also match U+017F and U+212A, each as its UTF-8 bytes. What a byte of a
-- character outside ASCII matches is left open.
pub data FoldsTo : ℕ → List ℕ → Type 0 where
  itself : {b : ℕ} → b < 128 → FoldsTo b (b ∷ [])
  to_lower : {b : ℕ} → b'A' ≤ b → b ≤ b'Z' → FoldsTo b ((b + 32) ∷ [])
  to_upper : {b : ℕ} → b'A' + 32 ≤ b → b ≤ b'Z' + 32 → FoldsTo b ((b - 32) ∷ [])
  long_s : {b : ℕ} → (b ≡ b's') ⊎ (b ≡ b'S') → FoldsTo b (0xC5 ∷ 0xBF ∷ [])
  kelvin : {b : ℕ} → (b ≡ b'k') ⊎ (b ≡ b'K') → FoldsTo b (0xE2 ∷ 0x84 ∷ 0xAA ∷ [])
  beyond : {b : ℕ} {f : List ℕ} → 128 ≤ b → FoldsTo b f

pub data IsFoldMatch : List ℕ → List ℕ → Type 0 where
  end : IsFoldMatch [] []
  step :
      {b : ℕ} {f needle text : List ℕ}
      → FoldsTo b f
      → IsFoldMatch needle text
      → IsFoldMatch (b ∷ needle) (f ++ text)

-- Is the form among the forms, if the byte has any?
abbrev Listed : List ℕ → Option (List FoldForm) → Type 0
Listed f none = Unit {0}
Listed f (some fs) = OneOf f fs

-- Both cases of a letter are among its forms.
letter-Listed :
    (b c : ℕ)
    → leb 128 b ≡ false
    → (is_ascii_uppercase b || is_ascii_lowercase b) ≡ true
    → (c ≡ to_ascii_lowercase b) ⊎ (c ≡ to_ascii_uppercase b)
    → Listed (c ∷ []) (fold_forms b)
unfolding fold_forms
letter-Listed b c ascii letter e = elim (Bool-cases (to_ascii_lowercase b == b's')) [
  | inl s ↦ rw (ascii, letter, s) (one_of _ e)
  | inr not_s ↦ elim (Bool-cases (to_ascii_lowercase b == b'k')) [
    | inl k ↦ rw (ascii, letter, not_s, k) (one_of _ e)
    | inr not_k ↦ rw (ascii, letter, not_s, not_k) (one_of _ e)
  ]
]
  where
    one_of :
        (more : List FoldForm)
        → (c ≡ to_ascii_lowercase b) ⊎ (c ≡ to_ascii_uppercase b)
        → OneOf (c ∷ []) ((to_ascii_lowercase b ∷ []) ∷ (to_ascii_uppercase b ∷ []) ∷ more)
    one_of more (inl e) = rw e first
    one_of more (inr e) = rw e (later first)

-- The forms that the planner lists are all that a byte matches.
fold_forms-Listed : {b : ℕ} {f : List ℕ} → FoldsTo b f → Listed f (fold_forms b)
unfolding fold_forms to_ascii_lowercase to_ascii_uppercase
fold_forms-Listed {b} (itself h) =
    let ascii : leb 128 b ≡ false = ground arith in
    elim (Bool-cases (is_ascii_uppercase b || is_ascii_lowercase b)) [
      | inl letter ↦ letter-Listed b b ascii letter (ground arith)
      | inr plain ↦ rw (ascii, plain) first
    ]
fold_forms-Listed {b} (to_lower lo hi) =
    letter-Listed b (b + 32) (ground arith) (ground arith) (inl (ground arith))
fold_forms-Listed {b} (to_upper lo hi) =
    letter-Listed b (b - 32) (ground arith) (ground arith) (inr (ground arith))
fold_forms-Listed (long_s (inl e)) = rw e (later (later first))
fold_forms-Listed (long_s (inr e)) = rw e (later (later first))
fold_forms-Listed (kelvin (inl e)) = rw e (later (later first))
fold_forms-Listed (kelvin (inr e)) = rw e (later (later first))
fold_forms-Listed {b} (beyond h) = let e : leb 128 b ≡ true = ground arith in rw e tt

Folds-step_of :
    {b : ℕ} {needle text : List ℕ} (f : List ℕ) (o : Option (List FoldForm))
    → fold_forms b ≡ o
    → Listed f o
    → Folds needle text
    → Folds (b ∷ needle) (f ++ text)
Folds-step_of f none e m d = other f e d
Folds-step_of f (some fs) e m d = listed fs f e m d

IsFoldMatch-Folds : {needle text : List ℕ} → IsFoldMatch needle text → Folds needle text
IsFoldMatch-Folds end = done
IsFoldMatch-Folds (step {b} {f} m d) =
    Folds-step_of f (fold_forms b) refl (fold_forms-Listed m) (IsFoldMatch-Folds d)

-- A document of bytes that contains a match of the needle under case folding satisfies the
-- case-insensitive query of the needle. U+017F for an s and U+212A for a k are matches too.
pub from_literal_ci-admits :
    (needle pre text post : List ℕ)
    → IsBytes (pre ++ (text ++ post))
    → IsFoldMatch needle text
    → satisfied (λ t. contains t (extract (pre ++ (text ++ post)))) (from_literal_ci needle) ≡ true
from_literal_ci-admits needle pre text post bytes m =
    from_literal_ci-admits_forms needle pre text post bytes (IsFoldMatch-Folds m)
