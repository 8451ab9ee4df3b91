-- ===== src/Trigram/Extract.antt =====
-- `extract` of crates/greplm-core/src/trigram.rs: its result, and calls in turn on one thread.
use greplm.Common.{
  ℕ, ◌<◌, ◌≡◌, refl, sym, ap, ◌∙◌, true, inl, inr, List, [], ◌∷◌, map, arith, ltb, Bool-cases,
  length,
}
use greplm.Common.Member.{elem, IsAscending}
use greplm.Common.Sort.{sort, elem-sort, sort-IsAscending}
use greplm.Trigram.{
  Trigram, IsTrigram, IsBytes, Seen, fresh, key_of, tri_of, windows, contains, scan, extract_with,
  extract,
}
use greplm.Trigram.Key.{key_of-lt, key_of-tri_of, key_of-tri_eq, IsTrigram-tri_of}
use greplm.Trigram.Seen.{fresh-IsMarked, scan-IsMarked, elem-scan, clear-eq-fresh}

abbrev pub AllTrigrams : List Trigram → Type 0
AllTrigrams [] = Unit {0}
AllTrigrams (t ∷ ts) = IsTrigram t × AllTrigrams ts

pub windows-AllTrigrams : (content : List ℕ) → IsBytes content → AllTrigrams (windows content)
unfolding windows
windows-AllTrigrams (x ∷ y ∷ z ∷ rest) h =
    ((h.0, h.1.0, h.1.1.0), windows-AllTrigrams (y ∷ z ∷ rest) h.1)
windows-AllTrigrams _ h = tt

pub contains-elem :
    (t : Trigram) (ts : List Trigram)
    → IsTrigram t
    → AllTrigrams ts
    → contains t ts ≡ elem (key_of t) (map key_of ts)
unfolding contains elem
contains-elem t [] p h = refl
contains-elem t (u ∷ us) p h = ground (arith, key_of-tri_eq t u p h.0, contains-elem t us p h.1)

-- the keys that the scan of a document collects
abbrev keys_of : List ℕ → List ℕ
keys_of content = (scan (fresh, []) (windows content)).1

extract_lem : (content : List ℕ) → extract content ≡ map tri_of (sort (keys_of content))
unfolding extract scan windows sort
extract_lem [] = refl
extract_lem (x ∷ []) = refl
extract_lem (x ∷ y ∷ []) = refl
extract_lem (x ∷ y ∷ z ∷ rest) = ground arith

-- Every member is a key.
abbrev AllKeys : List ℕ → Type 0
AllKeys [] = Unit {0}
AllKeys (k ∷ ks) = (k < 16777216) × AllKeys ks

AllKeys-of_elem : (ks : List ℕ) → ((k : ℕ) → elem k ks ≡ true → k < 16777216) → AllKeys ks
unfolding elem
AllKeys-of_elem [] h = tt
AllKeys-of_elem (k ∷ ks) h = (h k (ground arith), AllKeys-of_elem ks (λ j p. h j (ground arith)))

key-lt_of_elem :
    (k : ℕ) (ts : List Trigram) → AllTrigrams ts → elem k (map key_of ts) ≡ true → k < 16777216
unfolding elem
key-lt_of_elem k [] h p = cc
key-lt_of_elem k (t ∷ ts) h p = ground (arith, key_of-lt t h.0, key-lt_of_elem k ts h.1)

map-key_of-tri_of : (ks : List ℕ) → AllKeys ks → map key_of (map tri_of ks) ≡ ks
map-key_of-tri_of [] h = refl
map-key_of-tri_of (k ∷ ks) h = rw (key_of-tri_of k h.0, map-key_of-tri_of ks h.1)

AllTrigrams-tri_of : (ks : List ℕ) → AllTrigrams (map tri_of ks)
AllTrigrams-tri_of [] = tt
AllTrigrams-tri_of (k ∷ ks) = (IsTrigram-tri_of k, AllTrigrams-tri_of ks)

module _ (content : List ℕ) (bytes : IsBytes content) where
  elem-keys_of : (k : ℕ) → elem k (sort (keys_of content)) ≡ elem k (map key_of (windows content))
  unfolding elem
  elem-keys_of k =
      elem-sort k (keys_of content) ∙ elem-scan fresh [] (windows content) k fresh-IsMarked

  map-key_of-extract : map key_of (extract content) ≡ sort (keys_of content)
  map-key_of-extract = rw (extract_lem content) (
      map-key_of-tri_of (sort (keys_of content)) (
        AllKeys-of_elem (sort (keys_of content)) λ k p.
          key-lt_of_elem k (windows content) (windows-AllTrigrams content bytes)
            (sym (elem-keys_of k) ∙ p)))

  -- A trigram is extracted from a content of bytes exactly when it is a window of the
  -- content.
  pub contains-extract :
      (t : Trigram) → IsTrigram t → contains t (extract content) ≡ contains t (windows content)
  contains-extract t p =
      contains-elem t (extract content) p
        (rw (extract_lem content) (AllTrigrams-tri_of (sort (keys_of content))))
      ∙ rw map-key_of-extract (elem-keys_of (key_of t))
      ∙ sym (contains-elem t (windows content) p (windows-AllTrigrams content bytes))

  -- The trigrams extracted from a content of bytes ascend strictly by their keys: they are
  -- sorted and none stands twice.
  pub extract-IsAscending : IsAscending (map key_of (extract content))
  extract-IsAscending = rw map-key_of-extract (
      sort-IsAscending (keys_of content)
        (scan-IsMarked (fresh, []) (windows content) fresh-IsMarked).distinct)

pub extract-AllTrigrams : (content : List ℕ) → AllTrigrams (extract content)
extract-AllTrigrams content = rw (extract_lem content) (AllTrigrams-tri_of (sort (keys_of content)))

-- A call leaves the bitset of its thread as it found it.
pub extract_with-fresh : (content : List ℕ) → (extract_with fresh content).1 ≡ fresh
unfolding extract_with
extract_with-fresh content = elim (Bool-cases (ltb (length content) 3)) [
  | inl short ↦ rw short refl
  | inr long ↦
      let s = scan (fresh, []) (windows content) in
      rw long (clear-eq-fresh s.0 s.1 (scan-IsMarked (fresh, []) (windows content) fresh-IsMarked))
]

-- the calls of one thread in turn, each on the bitset that the one before has left
pub extract_each : Seen → List (List ℕ) → List (List Trigram)
extract_each seen [] = []
extract_each seen (d ∷ ds) = let (tris, seen') = extract_with seen d in tris ∷ extract_each seen' ds

-- Any sequence of calls on one thread returns for each document what a first call returns.
pub extract_each_lem : (docs : List (List ℕ)) → extract_each fresh docs ≡ map extract docs
unfolding extract_each extract
extract_each_lem [] = refl
extract_each_lem (d ∷ ds) =
    rw (extract_with-fresh d, extract_each)
      (ap (◌∷◌ (extract_with fresh d).0) (extract_each_lem ds))
