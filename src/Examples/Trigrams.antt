-- ===== src/Examples/Trigrams.antt =====
-- The theorems on trigrams and their queries at concrete inputs.
use mathlib.Core.List.{append-nil}
use mathlib.Core.Option.{some-injective}
use greplm.Common.{
  ℕ, ◌<◌, ◌≡◌, refl, inl, sym, ◌∙◌, ◌↔◌, subst, true, false, some, List, [], ◌∷◌, ◌++◌, map, arith,
  ltb, length,
}
use greplm.Common.Member.{IsAscending, OneOf, first}
use greplm.Trigram.{Trigram, IsTrigram, IsBytes, fresh, key_of, tri_of, windows, contains, extract}
use greplm.Trigram.Key.{LexLt, tri_of-key_of, key_of-lt-iff_LexLt}
use greplm.Trigram.Extract.{extract_each, contains-extract, extract-IsAscending, extract_each_lem}
use greplm.Trigram.Query.{is_unconstrained, from_literal, from_literal_ci, satisfied}
use greplm.Trigram.Query.Literal.{from_literal-admits, from_literal-is_unconstrained}
use greplm.Trigram.Query.CaseFold.{
  IsFoldMatch, end, step, long_s, kelvin, to_upper, from_literal_ci-admits,
}
use greplm.Trigram.Query.Regex.{RegexSyntax, Extracts, regex_trigrams, regex_trigrams-admits}

abbrev abcabc : List ℕ
abcabc = b'a' ∷ b'b' ∷ b'c' ∷ b'a' ∷ b'b' ∷ b'c' ∷ []

abcabc-IsBytes : IsBytes abcabc
abcabc-IsBytes = omega arith

abbrev bca : Trigram
bca = (b'b', b'c', b'a')

bca-IsTrigram : IsTrigram bca
bca-IsTrigram = omega arith

extract-abcabc : extract abcabc ≡ (b'a', b'b', b'c') ∷ bca ∷ (b'c', b'a', b'b') ∷ []
unfolding extract
extract-abcabc = refl

tri_of-key_of_example : tri_of (key_of bca) ≡ bca
tri_of-key_of_example = tri_of-key_of bca bca-IsTrigram

key_of-lt-iff_LexLt_example :
    (key_of bca < key_of (b'b', b'd', b'a')) ↔ LexLt bca (b'b', b'd', b'a')
key_of-lt-iff_LexLt_example = key_of-lt-iff_LexLt bca (b'b', b'd', b'a') bca-IsTrigram (omega arith)

contains-extract_example : contains bca (extract abcabc) ≡ contains bca (windows abcabc)
contains-extract_example = contains-extract abcabc abcabc-IsBytes bca bca-IsTrigram

extract-IsAscending_example : IsAscending (map key_of (extract abcabc))
extract-IsAscending_example = extract-IsAscending abcabc abcabc-IsBytes

extract_each_lem_example :
    extract_each fresh (abcabc ∷ [] ∷ abcabc ∷ []) ≡ map extract (abcabc ∷ [] ∷ abcabc ∷ [])
extract_each_lem_example = extract_each_lem (abcabc ∷ [] ∷ abcabc ∷ [])

from_literal-admits_example :
    satisfied (λ t. contains t (extract (b'x' ∷ (abcabc ++ b'y' ∷ [])))) (from_literal abcabc)
    ≡ true
from_literal-admits_example = from_literal-admits (b'x' ∷ []) abcabc (b'y' ∷ []) (omega arith)

from_literal-is_unconstrained_example :
    is_unconstrained (from_literal abcabc) ≡ ltb (length abcabc) 3
from_literal-is_unconstrained_example = from_literal-is_unconstrained abcabc abcabc-IsBytes

abbrev sky : List ℕ
sky = b's' ∷ b'k' ∷ b'y' ∷ []

-- the bytes of U+017F, U+212A and Y
abbrev folded : List ℕ
folded = (0xC5 ∷ 0xBF ∷ []) ++ ((0xE2 ∷ 0x84 ∷ 0xAA ∷ []) ++ ((b'Y' ∷ []) ++ []))

sky-IsFoldMatch : IsFoldMatch sky folded
sky-IsFoldMatch =
    step (long_s (inl refl))
      (step (kelvin (inl refl)) (step (to_upper (omega arith) (omega arith)) end))

from_literal_ci-admits_example :
    satisfied (λ t. contains t (extract (b'x' ∷ (folded ++ b'.' ∷ [])))) (from_literal_ci sky)
    ≡ true
from_literal_ci-admits_example =
    from_literal_ci-admits sky (b'x' ∷ []) folded (b'.' ∷ []) (omega arith) sky-IsFoldMatch

-- Patterns without operators: a pattern is parsed to its literal, which is prefix and suffix.
abbrev pub plain_patterns : RegexSyntax
plain_patterns = record {
  Pattern = List ℕ;
  Hir = List ℕ;
  parse = λ case_insensitive p. some p;
  prefixes = λ hir. some (hir ∷ []);
  suffixes = λ hir. some (hir ∷ []);
}

abbrev IsMatch : List ℕ → List ℕ → Type 0
IsMatch hir text = text ≡ hir

plain_patterns-Extracts : Extracts plain_patterns IsMatch
plain_patterns-Extracts = record {
  prefix_of = λ hir lits text e m.
      (hir, [], subst (OneOf hir) (some-injective _ _ e) first, m ∙ sym (append-nil hir));
  suffix_of = λ hir lits text e m. ([], hir, subst (OneOf hir) (some-injective _ _ e) first, m);
}

regex_trigrams-admits_example :
    satisfied
      (λ t. contains t (extract (b'x' ∷ (abcabc ++ b'.' ∷ []))))
      (regex_trigrams plain_patterns abcabc false)
    ≡ true
regex_trigrams-admits_example =
    regex_trigrams-admits plain_patterns plain_patterns-Extracts (b'x' ∷ []) abcabc (b'.' ∷ [])
      (omega arith) abcabc false abcabc refl refl
