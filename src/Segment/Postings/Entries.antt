-- ===== src/Segment/Postings/Entries.antt =====
-- The term-dictionary entries of `build_postings_blob` in crates/greplm-core/src/segment.rs.
use greplm.Common.{ℕ, ◌+◌, ◌≡◌, inl, inr, List, [], ◌∷◌, ◌++◌, Bool-cases, is_empty, length}
use greplm.Common.Result.{ok, >>=-eq-ok}
use greplm.Common.Sort.{sort}
use greplm.Roaring.{Roaring}
use greplm.Trigram.{Trigram, IsTrigram, tri_of}
use greplm.Trigram.Key.{IsTrigram-tri_of}
use greplm.Segment.{pack_entry}
use greplm.Segment.Postings.{
  Entry, Chunk, push_entries, stitch, chunks_of, spans, bounds_of, build_postings_blob,
}

abbrev pub AllEntries : List (Trigram × ℕ) → Type 0
AllEntries [] = Unit {0}
AllEntries (e ∷ es) = IsTrigram e.0 × AllEntries es

AllEntries-append :
    (es fs : List (Trigram × ℕ)) → AllEntries es → AllEntries fs → AllEntries (es ++ fs)
AllEntries-append [] fs p q = q
AllEntries-append (e ∷ es) fs p q = (p.0, AllEntries-append es fs p.1 q)

AllEntries-push_entries :
    (base : ℕ) (es : List Entry) (out : List (Trigram × ℕ)) {res : List (Trigram × ℕ)}
    → AllEntries out
    → push_entries base es out ≡ ok res
    → AllEntries res
unfolding push_entries
AllEntries-push_entries base [] out {res} p h = let same : out ≡ res = cc h in rw (← same) p
AllEntries-push_entries base ((key, offset, card) ∷ es) out p h =
    let (v, packed, rest) = >>=-eq-ok (pack_entry (base + offset) card) _ h in
    AllEntries-push_entries base es (out ++ (tri_of key, v) ∷ [])
      (AllEntries-append out ((tri_of key, v) ∷ []) p (IsTrigram-tri_of key, tt)) rest

AllEntries-stitch :
    (chunks : List Chunk) (blob : List ℕ) (out : List (Trigram × ℕ))
    {res : List ℕ × List (Trigram × ℕ)}
    → AllEntries out
    → stitch chunks (blob, out) ≡ ok res
    → AllEntries res.1
unfolding stitch
AllEntries-stitch [] blob out {res} p h = let same : (blob, out) ≡ res = cc h in rw (← same) p
AllEntries-stitch ((local, es) ∷ chunks) blob out p h =
    let (pushed, one, rest) = >>=-eq-ok (push_entries (length blob) es out) _ h in
    AllEntries-stitch chunks (blob ++ local) pushed
      (AllEntries-push_entries (length blob) es out p one) rest

pub AllEntries-build_postings_blob :
    (r : Roaring) (parts : ℕ) (pairs : List ℕ) {res : List ℕ × List (Trigram × ℕ)}
    → build_postings_blob r parts pairs ≡ ok res
    → AllEntries res.1
unfolding build_postings_blob
AllEntries-build_postings_blob r parts pairs {res} h = elim (Bool-cases (is_empty (sort pairs))) [
  | inl nothing ↦ let same : ([], []) ≡ res = cc (rw nothing at h) in rw (← same) tt
  | inr filled ↦
      let (chunks, one, rest) =
        >>=-eq-ok (chunks_of r (spans (sort pairs) (bounds_of (sort pairs) parts))) _
          (rw filled at h) in
      AllEntries-stitch chunks [] [] tt rest
]
