-- ===== src/Segment/Query/Built.antt =====
-- The entries of `build_postings_blob` in crates/greplm-core/src/segment.rs as a term
-- dictionary, and a segment that is opened on them.
use greplm.Common.{
  ℕ, zero, suc, ◌+◌, ◌-◌, ◌*◌, ◌^◌, ◌≤◌, ◌≡◌, refl, ◌∙◌, true, Option, none, some, List, [], ◌∷◌,
  ◌++◌, map, arith, leb, length, length-append, take, drop, take_append,
}
use greplm.Common.Member.{elem, IsAscending}
use greplm.Common.Result.{ok}
use greplm.Roaring.{Roaring, RoaringLaws}
use greplm.Fst.{Fst, FstLaws, BytesLt, KeysAscend, bytes_eq, find}
use greplm.Trigram.{Trigram, IsTrigram, key_of, tri_eq}
use greplm.Trigram.Key.{LexLt, key_of-lt-iff_LexLt}
use greplm.Segment.{DocMeta, unpack_offset}
use greplm.Segment.Postings.Lookup.{lookup}
use greplm.Segment.Postings.Exact.{Answers}
use greplm.Segment.Postings.Entries.{AllEntries}
use greplm.Segment.Query.{SegmentData, tri_bytes, posting_entry, posting_at}
use greplm.Segment.Query.Group.{EntryAnswers, IsAnswering}

-- the entries as the term dictionary takes them
abbrev pub dictionary_of : List (Trigram × ℕ) → List (List ℕ × ℕ)
dictionary_of = map (λ e. (tri_bytes e.0, e.1))

bytes_eq-tri_bytes : (t u : Trigram) → bytes_eq (tri_bytes t) (tri_bytes u) ≡ tri_eq t u
bytes_eq-tri_bytes (a, b, c) (x, y, z) = ground arith

find-dictionary_of :
    (t : Trigram) (es : List (Trigram × ℕ)) → find (tri_bytes t) (dictionary_of es) ≡ lookup t es
unfolding find lookup
find-dictionary_of t [] = refl
find-dictionary_of t ((u, v) ∷ es) = rw (bytes_eq-tri_bytes t u, find-dictionary_of t es) refl

-- Ascending keys are byte strings in order.
pub KeysAscend-dictionary_of :
    (es : List (Trigram × ℕ))
    → AllEntries es
    → IsAscending (map (λ e. key_of e.0) es)
    → KeysAscend (dictionary_of es)
KeysAscend-dictionary_of [] p asc = tt
KeysAscend-dictionary_of (e ∷ []) p asc = tt
KeysAscend-dictionary_of (e ∷ g ∷ es) (pe, (pg, p)) asc = (
  bytes_lt e.0 g.0 ((key_of-lt-iff_LexLt e.0 g.0 pe pg).0 asc.0.0),
  KeysAscend-dictionary_of (g ∷ es) (pg, p) asc.1,
)
  where
    bytes_lt : (t u : Trigram) → LexLt t u → BytesLt (tri_bytes t) (tri_bytes u)
    bytes_lt (a, b, c) (x, y, z) h = ground (arith, h)

take-drop :
    (n : ℕ) (xs ys : List ℕ) → n ≤ length xs → take (length xs - n) (drop n (xs ++ ys)) ≡ drop n xs
take-drop zero xs ys h = take_append (length xs - 0) xs ys (omega arith)
take-drop (suc n) [] ys h = absurd (omega arith)
take-drop (suc n) (x ∷ xs) ys h =
    let e : length (x ∷ xs) - suc n ≡ length xs - n = omega arith in
    rw e (take-drop n xs ys (omega arith))

-- What the files of such a segment are opened as: the blob is followed by its footer.
abbrev pub opened :
    {r : Roaring} {f : Fst} (terms : FstLaws f) (blob footer : List ℕ) (es : List (Trigram × ℕ))
    → KeysAscend (dictionary_of es)
    → List DocMeta
    → SegmentData r f
opened terms blob footer es asc docs = record {
  fst = terms.built (dictionary_of es) asc;
  post = blob ++ footer;
  post_len = length blob;
  docs = docs;
}

module _ {r : Roaring} (laws : RoaringLaws r) {f : Fst} (terms : FstLaws f) (blob footer : List ℕ)
    (es : List (Trigram × ℕ)) (asc : KeysAscend (dictionary_of es)) (docs : List DocMeta) where
  abbrev data_of : SegmentData r f
  data_of = opened terms blob footer es asc docs

  posting_entry_lem : (t : Trigram) → posting_entry data_of t ≡ lookup t es
  unfolding posting_entry
  posting_entry_lem t = terms.get_lem (dictionary_of es) asc (tri_bytes t) ∙ find-dictionary_of t es

  posting_at_lem :
      (offset : ℕ) (bm : r.Bitmap)
      → offset ≤ length blob
      → r.deserialize_from (drop offset blob) ≡ some bm
      → posting_at data_of offset ≡ ok bm
  unfolding posting_at
  posting_at_lem offset bm h e =
      let low : leb offset (length blob) ≡ true = ground arith in
      let high : leb (length blob) (length (blob ++ footer)) ≡ true =
        ground (arith, length-append blob footer) in
      rw (low, high, take-drop offset blob footer h, e) refl

  answer :
      (pairs : List ℕ) (t : Trigram) (o : Option ℕ)
      → Answers r laws blob pairs t o
      → EntryAnswers laws data_of (λ d. elem (key_of t * 2 ^ 32 + d) pairs) o
  answer pairs t none a = a
  answer pairs t (some v) (bm, stored, inside, card, members) = record {
    bitmap = bm;
    read = posting_at_lem (unpack_offset v) bm inside stored;
    members = members;
  }

  pub opened-IsAnswering :
      (pairs : List ℕ)
      → ((t : Trigram) → IsTrigram t → Answers r laws blob pairs t (lookup t es))
      → IsAnswering laws data_of (λ d t. elem (key_of t * 2 ^ 32 + d) pairs)
  opened-IsAnswering pairs answers t p =
      rw (posting_entry_lem t) (answer pairs t (lookup t es) (answers t p))
