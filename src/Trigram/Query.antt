-- ===== src/Trigram/Query.antt =====
-- crates/greplm-core/src/trigram.rs: the queries that the planner builds for a literal, for a
-- literal without regard to case, and for a regular expression.
pub mod Literal
pub mod Window
pub mod Fold
pub mod CaseFold
pub mod Planned
pub mod Regex
use greplm.Common.{
  ℕ, ◌+◌, ◌-◌, Bool, true, false, not, ◌&&◌, ◌||◌, Option, none, some, List, [], ◌∷◌, ◌++◌, map,
  ◌==◌, ltb, leb, if◌then◌else◌, length, is_empty, any, all,
}
pub use greplm.Common.Utf8.{is_ascii_uppercase, is_ascii_lowercase}
unfoldable pub use greplm.Common.Utf8.{to_ascii_lowercase}
use greplm.Common.Options.{◌>>=◌, filter_map}
use greplm.Common.Sort.{sort_by_key}
use greplm.Trigram.{Trigram, key_of, tri_eq, windows, extract}

abbrev pub TrigramGroup : Type 0
TrigramGroup = List Trigram

abbrev pub TrigramDnf : Type 0
TrigramDnf = List TrigramGroup

pub record TrigramQuery : Type 0 where
  pub dnfs : List TrigramDnf

-- `TrigramQuery::default()`: scan everything
abbrev pub default : TrigramQuery
default = record { dnfs = [] }

unfoldable pub literal_trigrams : List ℕ → List Trigram
literal_trigrams needle = extract needle

unfoldable pub dnf_filters : TrigramDnf → Bool
dnf_filters dnf = not (is_empty dnf) && all (λ g. not (is_empty g)) dnf

unfoldable pub is_unconstrained : TrigramQuery → Bool
unfolding dnf_filters
is_unconstrained q = not (any dnf_filters q.dnfs)

unfoldable pub from_literal : List ℕ → TrigramQuery
unfolding literal_trigrams
from_literal needle =
    let tris = literal_trigrams needle in
    if is_empty tris then default else record { dnfs = (tris ∷ []) ∷ [] }

-- `([u8; 3], usize)`: the bytes of a form up to its length
abbrev pub FoldForm : Type 0
FoldForm = List ℕ

unfoldable pub to_ascii_uppercase : ℕ → ℕ
to_ascii_uppercase b = if is_ascii_lowercase b then b - 32 else b

-- the forms that are written to `out`, up to the returned count
unfoldable pub fold_forms : ℕ → Option (List FoldForm)
unfolding to_ascii_lowercase to_ascii_uppercase
fold_forms b =
    if leb 0x80 b
    then none
    else if not (is_ascii_uppercase b || is_ascii_lowercase b)
    then some ((b ∷ []) ∷ [])
    else if to_ascii_lowercase b == b's'
    then some ((to_ascii_lowercase b ∷ []) ∷ (to_ascii_uppercase b ∷ []) ∷ (0xC5 ∷ 0xBF ∷ []) ∷ [])
    else if to_ascii_lowercase b == b'k'
    then some
        ((to_ascii_lowercase b ∷ []) ∷ (to_ascii_uppercase b ∷ []) ∷ (0xE2 ∷ 0x84 ∷ 0xAA ∷ []) ∷ [])
    else some ((to_ascii_lowercase b ∷ []) ∷ (to_ascii_uppercase b ∷ []) ∷ [])

-- `[buf[0], buf[1], buf[2]]`; the forms fill three bytes of the buffer, which begins as zeros
unfoldable pub first_three : List ℕ → Trigram
first_three (x ∷ y ∷ z ∷ rest) = (x, y, z)
first_three _ = (0, 0, 0)

-- the two inner loops over the forms, for one form of the first byte
unfoldable pub combine_after : FoldForm → List FoldForm → List FoldForm → List Trigram
unfolding first_three
combine_after a [] cs = []
combine_after a (b ∷ bs) cs = map (λ c. first_three (a ++ (b ++ c))) cs ++ combine_after a bs cs

unfoldable pub combine : List FoldForm → List FoldForm → List FoldForm → List Trigram
unfolding combine_after
combine [] bs cs = []
combine (a ∷ forms) bs cs = combine_after a bs cs ++ combine forms bs cs

-- `Vec::dedup`: equal neighbours are kept once
unfoldable pub dedup : List Trigram → List Trigram
dedup (t ∷ u ∷ ts) = let rest = dedup (u ∷ ts) in if tri_eq t u then rest else t ∷ rest
dedup ts = ts

-- `sort_unstable` on byte arrays is in the order of the keys
unfoldable pub ci_window_trigrams : Trigram → Option (List Trigram)
unfolding fold_forms combine dedup sort_by_key key_of
ci_window_trigrams (x, y, z) = do
  first ← fold_forms x
  second ← fold_forms y
  third ← fold_forms z
  some (dedup (sort_by_key key_of (combine first second third)))

-- `clause.into_iter().map(|t| vec![t])`
abbrev pub singletons : List Trigram → TrigramDnf
singletons = map (λ t. t ∷ [])

-- the clauses that the loop over the windows pushes
unfoldable pub ci_dnfs : List Trigram → List TrigramDnf
unfolding ci_window_trigrams
ci_dnfs ws = filter_map (λ w. ci_window_trigrams w >>= λ clause. some (singletons clause)) ws

unfoldable pub from_literal_ci : List ℕ → TrigramQuery
unfolding ci_dnfs windows dnf_filters
from_literal_ci needle =
    if ltb (length needle) 3
    then default
    else (let dnfs = ci_dnfs (windows needle) in
        if any dnf_filters dnfs then record { dnfs = dnfs } else default)

-- What a query asks of a document, given by the trigrams that it has.
abbrev pub dnf_holds : (Trigram → Bool) → TrigramDnf → Bool
dnf_holds has dnf = any (all has) dnf

-- A clause that cannot filter is ignored.
unfoldable pub satisfied : (Trigram → Bool) → TrigramQuery → Bool
unfolding dnf_filters
satisfied has q = all (λ dnf. not (dnf_filters dnf) || dnf_holds has dnf) q.dnfs
