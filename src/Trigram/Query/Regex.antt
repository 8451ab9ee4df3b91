-- ===== src/Trigram/Query/Regex.antt =====
-- `regex_trigrams` of crates/greplm-core/src/trigram.rs. The parser and the extractor of
-- literals are the crate regex_syntax, taken as a parameter.
use greplm.Common.{
  ℕ, ◌≡◌, refl, sym, subst, Bool, true, false, ◌&&◌, inl, inr, Option, none, some, List, [], ◌∷◌,
  ◌++◌, arith, if◌then◌else◌, is_empty, all, Bool-cases, Option-cases,
}
use greplm.Common.Member.{OneOf, first, later}
use greplm.Common.Options.{◌>>=◌}
use mathlib.Core.List.{append_assoc}
use greplm.Trigram.{Trigram, IsBytes, tri_eq, contains, extract}
use greplm.Trigram.Query.{TrigramDnf, TrigramQuery, default, literal_trigrams, satisfied, dnf_holds}
use greplm.Trigram.Query.Literal.{extract-within}

-- `Seq::literals`: no list when the extractor gives up.
pub record RegexSyntax : Type 1 where
  pub Pattern : Type 0
  pub Hir : Type 0
  pub parse : Bool → Pattern → Option Hir
  pub prefixes : Hir → Option (List (List ℕ))
  pub suffixes : Hir → Option (List (List ℕ))

-- `PartialEq` of DNFs
abbrev list_eq {ℓ} : {A : Type ℓ} → (A → A → Bool) → List A → List A → Bool
list_eq eq [] [] = true
list_eq eq (x ∷ xs) (y ∷ ys) = eq x y && list_eq eq xs ys
list_eq eq _ _ = false

unfoldable pub dnf_eq : TrigramDnf → TrigramDnf → Bool
dnf_eq = list_eq (list_eq tri_eq)

-- the loop of `dnf_of`: `None` as soon as a literal is too short
unfoldable pub groups_of : List (List ℕ) → Option TrigramDnf
unfolding literal_trigrams
groups_of [] = some []
groups_of (lit ∷ lits) =
    let tris = literal_trigrams lit in
    if is_empty tris then none else (do rest ← groups_of lits; some (tris ∷ rest))

unfoldable pub dnf_of : Option (List (List ℕ)) → Option TrigramDnf
unfolding groups_of
dnf_of seq = do lits ← seq; dnf ← groups_of lits; if is_empty dnf then none else some dnf

-- `if dnfs.first() != Some(&s) { dnfs.push(s) }`
abbrev push_suffix : Option TrigramDnf → List TrigramDnf → List TrigramDnf
push_suffix none dnfs = dnfs
push_suffix (some s) [] = s ∷ []
push_suffix (some s) (p ∷ dnfs) = if dnf_eq p s then p ∷ dnfs else p ∷ (dnfs ++ s ∷ [])

abbrev push_prefix : Option TrigramDnf → List TrigramDnf
push_prefix none = []
push_prefix (some p) = p ∷ []

abbrev query_of : List TrigramDnf → TrigramQuery
query_of dnfs = if is_empty dnfs then default else record { dnfs = dnfs }

unfoldable pub regex_trigrams : (r : RegexSyntax) → r.Pattern → Bool → TrigramQuery
unfolding dnf_of dnf_eq
regex_trigrams r pattern case_insensitive = elim (r.parse case_insensitive pattern) [
  | none ↦ default
  | some hir ↦
      query_of (push_suffix (dnf_of (r.suffixes hir)) (push_prefix (dnf_of (r.prefixes hir))))
]

-- What the crate documents of the extracted literals: every match begins with one of the prefixes,
-- and ends with one of the suffixes.
pub record Extracts (r : RegexSyntax) (Matches : r.Hir → List ℕ → Type 0) : Type 0 where
  pub prefix_of :
      (hir : r.Hir) (lits : List (List ℕ)) (text : List ℕ)
      → r.prefixes hir ≡ some lits
      → Matches hir text
      → (lit : List ℕ) × (rest : List ℕ) × OneOf lit lits × (text ≡ lit ++ rest)
  pub suffix_of :
      (hir : r.Hir) (lits : List (List ℕ)) (text : List ℕ)
      → r.suffixes hir ≡ some lits
      → Matches hir text
      → (start : List ℕ) × (lit : List ℕ) × OneOf lit lits × (text ≡ start ++ lit)

-- The group of a literal that a document contains makes the DNF hold.
groups_of_hold :
    (has : Trigram → Bool) {lit : List ℕ} {lits : List (List ℕ)} (dnf : TrigramDnf)
    → OneOf lit lits
    → groups_of lits ≡ some dnf
    → all has (extract lit) ≡ true
    → dnf_holds has dnf ≡ true
unfolding groups_of
groups_of_hold has {lits = []} dnf m e h = elim m [ ]
groups_of_hold has {lits = lit ∷ lits} dnf first e h = elim (Bool-cases (is_empty (extract lit))) [
  | inl short ↦ absurd (ground arith)
  | inr long ↦ elim (Option-cases (groups_of lits)) [
    | inl nothing ↦ absurd (ground arith)
    | inr (rest, found) ↦ ground arith
  ]
]
groups_of_hold has {lits = other ∷ lits} dnf (later m) e h =
    elim (Bool-cases (is_empty (extract other))) [
      | inl short ↦ absurd (ground arith)
      | inr long ↦ elim (Option-cases (groups_of lits)) [
        | inl nothing ↦ absurd (ground arith)
        | inr (rest, found) ↦ ground (arith, groups_of_hold has rest m found h)
      ]
    ]

dnf_of_hold :
    (has : Trigram → Bool) {lit : List ℕ} {lits : List (List ℕ)} (seq : Option (List (List ℕ)))
    (dnf : TrigramDnf)
    → dnf_of seq ≡ some dnf
    → seq ≡ some lits
    → OneOf lit lits
    → all has (extract lit) ≡ true
    → dnf_holds has dnf ≡ true
unfolding dnf_of
dnf_of_hold has {lits} seq dnf e same m h = elim (Option-cases (groups_of lits)) [
  | inl nothing ↦ absurd (ground arith)
  | inr (found, g) ↦ ground (arith, groups_of_hold has found m g h)
]

dnf_of-some :
    (seq : Option (List (List ℕ))) (dnf : TrigramDnf)
    → dnf_of seq ≡ some dnf
    → (lits : List (List ℕ)) × (seq ≡ some lits)
unfolding dnf_of
dnf_of-some none dnf e = cc
dnf_of-some (some lits) dnf e = (lits, refl)

extract-within_at :
    (content pre lit post : List ℕ)
    → content ≡ pre ++ (lit ++ post)
    → IsBytes content
    → all (λ t. contains t (extract content)) (extract lit) ≡ true
extract-within_at content pre lit post e =
    subst (λ c. IsBytes c → all (λ t. contains t (extract c)) (extract lit) ≡ true) (sym e)
      (extract-within pre lit post)

regroup_prefix :
    (pre text post lit rest : List ℕ)
    → text ≡ lit ++ rest
    → pre ++ (text ++ post) ≡ pre ++ (lit ++ (rest ++ post))
regroup_prefix pre text post lit rest q = rw (q, append_assoc)

regroup_suffix :
    (pre text post start lit : List ℕ)
    → text ≡ start ++ lit
    → pre ++ (text ++ post) ≡ (pre ++ start) ++ (lit ++ post)
regroup_suffix pre text post start lit q = rw q (simp append_assoc)

module _ (has : Trigram → Bool) where
  -- the DNF, if there is one, holds
  abbrev HoldsIfAny : Option TrigramDnf → Type 0
  HoldsIfAny none = Unit {0}
  HoldsIfAny (some dnf) = dnf_holds has dnf ≡ true

  satisfied_of_hold :
      (p s : Option TrigramDnf)
      → HoldsIfAny p
      → HoldsIfAny s
      → satisfied has (query_of (push_suffix s (push_prefix p))) ≡ true
  unfolding satisfied
  satisfied_of_hold none none hp hs = refl
  satisfied_of_hold none (some s) hp hs = ground arith
  satisfied_of_hold (some p) none hp hs = ground arith
  satisfied_of_hold (some p) (some s) hp hs = ground arith

module _ (r : RegexSyntax) {Matches : r.Hir → List ℕ → Type 0} (laws : Extracts r Matches)
    (pre text post : List ℕ) (bytes : IsBytes (pre ++ (text ++ post))) where
  abbrev has_trigram : Trigram → Bool
  has_trigram t = contains t (extract (pre ++ (text ++ post)))

  prefix_hold :
      (hir : r.Hir) (o : Option TrigramDnf)
      → dnf_of (r.prefixes hir) ≡ o
      → Matches hir text
      → HoldsIfAny has_trigram o
  prefix_hold hir none e m = tt
  prefix_hold hir (some dnf) e m =
      let (lits, same) = dnf_of-some (r.prefixes hir) dnf e in
      let (lit, rest, one, q) = laws.prefix_of hir lits text same m in
      dnf_of_hold has_trigram (r.prefixes hir) dnf e same one
        (extract-within_at _ pre lit (rest ++ post) (regroup_prefix pre text post lit rest q) bytes)

  suffix_hold :
      (hir : r.Hir) (o : Option TrigramDnf)
      → dnf_of (r.suffixes hir) ≡ o
      → Matches hir text
      → HoldsIfAny has_trigram o
  suffix_hold hir none e m = tt
  suffix_hold hir (some dnf) e m =
      let (lits, same) = dnf_of-some (r.suffixes hir) dnf e in
      let (start, lit, one, q) = laws.suffix_of hir lits text same m in
      dnf_of_hold has_trigram (r.suffixes hir) dnf e same one (
        extract-within_at _ (pre ++ start) lit post (regroup_suffix pre text post start lit q)
          bytes)

  -- If the pattern is parsed, a document of bytes that contains a match of it satisfies the
  -- query of the pattern.
  pub regex_trigrams-admits :
      (pattern : r.Pattern) (case_insensitive : Bool) (hir : r.Hir)
      → r.parse case_insensitive pattern ≡ some hir
      → Matches hir text
      → satisfied has_trigram (regex_trigrams r pattern case_insensitive) ≡ true
  unfolding regex_trigrams
  regex_trigrams-admits pattern case_insensitive hir parsed m =
      rw (parsed, regex_trigrams)
        (satisfied_of_hold has_trigram (dnf_of (r.prefixes hir)) (dnf_of (r.suffixes hir))
          (prefix_hold hir _ refl m) (suffix_hold hir _ refl m))
