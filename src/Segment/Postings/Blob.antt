-- ===== src/Segment/Postings/Blob.antt =====
-- `build_postings_blob` in crates/greplm-core/src/segment.rs: the stitching of the chunks.
use mathlib.Core.List.{append_assoc, append-nil}
use greplm.Common.{
  ℕ, ◌+◌, ◌^◌, ◌*◌, min, ◌<◌, ◌≡◌, refl, ap, ◌∙◌, true, false, inl, inr, List, [], ◌∷◌, ◌++◌, map,
  arith, Bool-cases, Option-cases, length, length-append, is_empty,
}
use greplm.Common.Result.{Result, ok, ◌>>=◌, Result-cases}
use greplm.Common.Sort.{sort, AllBelow-sort}
use greplm.Roaring.{Roaring}
use greplm.Trigram.{Trigram, tri_of}
use greplm.Segment.{pack_entry, card_cap}
use greplm.Segment.Pack.{pack_entry_lem}
use greplm.Segment.Postings.{
  Entry, spans, bounds_of, chunks_of, push_entries, stitch, build_postings_blob,
}
use greplm.Segment.Postings.Runs.{Group, group, encode, lay_blob, lay_entries, lay, chunk_loop_lem}
use greplm.Segment.Postings.Cuts.{AllWords, groups_of}
use greplm.Segment.Postings.Bounds.{groups_of-bounds_of}

push_entries-append :
    (base : ℕ) (xs ys : List Entry) (out : List (Trigram × ℕ))
    → push_entries base (xs ++ ys) out ≡ (push_entries base xs out >>= λ o. push_entries base ys o)
unfolding push_entries
push_entries-append base [] ys out = refl
push_entries-append base ((k, o, c) ∷ xs) ys out = elim (Result-cases (pack_entry (base + o) c)) [
  | inl (v, e) ↦ rw e (push_entries-append base xs ys (out ++ (tri_of k, v) ∷ []))
  | inr (x, e) ↦ rw e refl
]

filled_length : (xs : List ℕ) → is_empty xs ≡ false → 0 < length xs
filled_length [] h = cc
filled_length (x ∷ xs) h = omega arith

module _ (r : Roaring) where
  abbrev Postings : Type 0
  Postings = List (ℕ × r.Bitmap)

  lay_blob-append : (a b : Postings) → lay_blob r (a ++ b) ≡ lay_blob r a ++ lay_blob r b
  unfolding lay_blob
  lay_blob-append [] b = refl
  lay_blob-append ((k, bm) ∷ a) b = rw (lay_blob-append a b, append_assoc)

  lay_entries-append :
      (base : ℕ) (a b : Postings)
      → lay_entries r base (a ++ b)
        ≡ lay_entries r base a ++ lay_entries r (base + length (lay_blob r a)) b
  unfolding lay_blob lay_entries
  lay_entries-append base [] b = ap (λ (n : ℕ). lay_entries r n b) (omega arith)
  lay_entries-append base ((k, bm) ∷ a) b =
      let seam : base + length (r.serialize bm) + length (lay_blob r a)
          ≡ base + length (r.serialize bm ++ lay_blob r a) =
        omega (arith, length-append (r.serialize bm) (lay_blob r a)) in
      ap (λ (es : List Entry). (k, base, r.len bm) ∷ es)
        (lay_entries-append (base + length (r.serialize bm)) a b
          ∙ ap (λ (n : ℕ). lay_entries r (base + length (r.serialize bm)) a ++ lay_entries r n b)
              seam)

  push_entries-base :
      (base off : ℕ) (bms : Postings) (out : List (Trigram × ℕ))
      → push_entries base (lay_entries r off bms) out
        ≡ push_entries 0 (lay_entries r (base + off) bms) out
  unfolding push_entries lay_entries
  push_entries-base base off [] out = refl
  push_entries-base base off ((k, bm) ∷ bms) out =
      let same : 0 + (base + off) ≡ base + off = omega arith in
      let next : base + (off + length (r.serialize bm)) ≡ base + off + length (r.serialize bm) =
        omega arith in
      elim (Result-cases (pack_entry (base + off) (r.len bm))) [
        | inl (v, e) ↦
            rw (same, e)
              (push_entries-base base (off + length (r.serialize bm)) bms
                  (out ++ (tri_of k, v) ∷ [])
                ∙ rw next refl)
        | inr (x, e) ↦ rw (same, e) refl
      ]

  -- the posting lists laid out behind a blob, with their entries packed
  unfoldable pub laid :
      List ℕ → List (Trigram × ℕ) → Postings → Result (List ℕ × List (Trigram × ℕ))
  laid blob out bms = do
    pushed ← push_entries 0 (lay_entries r (length blob) bms) out
    ok (blob ++ lay_blob r bms, pushed)

  pub laid-eq-ok :
      (blob : List ℕ) (out : List (Trigram × ℕ)) (bms : Postings) {b : List ℕ}
      {es : List (Trigram × ℕ)}
      → laid blob out bms ≡ ok (b, es)
      → (push_entries 0 (lay_entries r (length blob) bms) out ≡ ok es)
        × (blob ++ lay_blob r bms ≡ b)
  unfolding laid
  laid-eq-ok blob out bms h =
      elim (Result-cases (push_entries 0 (lay_entries r (length blob) bms) out)) [
        | inl (o, e) ↦ ground arith
        | inr (x, e) ↦ absurd (ground arith)
      ]

  push_entries-total :
      (base : ℕ) (bms : Postings) (out : List (Trigram × ℕ))
      → base + length (lay_blob r bms) < 2 ^ 40
      → (es : List (Trigram × ℕ)) × (push_entries 0 (lay_entries r base bms) out ≡ ok es)
  unfolding push_entries lay_entries lay_blob
  push_entries-total base [] out room = (out, refl)
  push_entries-total base ((k, bm) ∷ bms) out room =
      let size = length-append (r.serialize bm) (lay_blob r bms) in
      let value = min (r.len bm) card_cap * 2 ^ 40 + (0 + base) in
      let packed : pack_entry (0 + base) (r.len bm) ≡ ok value =
        pack_entry_lem (0 + base) (r.len bm) ∙ ground arith in
      let (es, e) =
        push_entries-total (base + length (r.serialize bm)) bms (out ++ (tri_of k, value) ∷ [])
          (omega (arith, size)) in
      (es, rw packed e)

  pub laid-total :
      (blob : List ℕ) (out : List (Trigram × ℕ)) (bms : Postings)
      → length blob + length (lay_blob r bms) < 2 ^ 40
      → (es : List (Trigram × ℕ)) × (laid blob out bms ≡ ok (blob ++ lay_blob r bms, es))
  unfolding laid
  laid-total blob out bms room =
      let (es, e) = push_entries-total (length blob) bms out room in (es, rw e refl)

  laid-append :
      (blob : List ℕ) (out : List (Trigram × ℕ)) (a b : Postings)
      → laid blob out (a ++ b) ≡ (laid blob out a >>= λ done. laid done.0 done.1 b)
  unfolding laid
  laid-append blob out a b =
      let entries = lay_entries r (length blob) a in
      let seam : length blob + length (lay_blob r a) ≡ length (blob ++ lay_blob r a) =
        omega (arith, length-append blob (lay_blob r a)) in
      rw
        (
          lay_entries-append (length blob) a b,
          seam,
          push_entries-append 0 entries (lay_entries r (length (blob ++ lay_blob r a)) b) out,
          lay_blob-append a b,
          ← append_assoc,
        )
        (elim (Result-cases (push_entries 0 entries out)) [
          | inl (o, e) ↦ rw e refl
          | inr (x, e) ↦ rw e refl
        ])

  abbrev flat : List Postings → Postings
  flat [] = []
  flat (a ∷ as') = a ++ flat as'

  stitch_lem :
      (parts : List Postings) (blob : List ℕ) (out : List (Trigram × ℕ))
      → stitch (map (lay r ([], [])) parts) (blob, out) ≡ laid blob out (flat parts)
  unfolding stitch laid
  stitch_lem [] blob out = unfold laid push_entries lay_entries lay_blob in rw append-nil
  stitch_lem (a ∷ parts) blob out =
      let here : length blob + 0 ≡ length blob = omega arith in
      let joined : push_entries (length blob) (lay_entries r 0 a) out
          ≡ push_entries 0 (lay_entries r (length blob) a) out =
        push_entries-base (length blob) 0 a out ∙ rw here refl in
      rw (joined, laid-append blob out a (flat parts), laid)
        (elim (Result-cases (push_entries 0 (lay_entries r (length blob) a) out)) [
          | inl (o, e) ↦ rw e (stitch_lem parts (blob ++ lay_blob r a) o)
          | inr (x, e) ↦ rw e refl
        ])

  -- the posting lists of each span
  unfoldable encode_each : List (List Group) → Result (List Postings)
  encode_each [] = ok []
  encode_each (gs ∷ rest) = do bms ← encode r gs; more ← encode_each rest; ok (bms ∷ more)

  encode-append :
      (gs hs : List Group)
      → encode r (gs ++ hs) ≡ (do a ← encode r gs; b ← encode r hs; ok (a ++ b))
  unfolding encode
  encode-append [] hs = elim (Result-cases (encode r hs)) [
    | inl (b, e) ↦ rw e refl
    | inr (x, e) ↦ rw e refl
  ]
  encode-append ((k, ds) ∷ gs) hs = elim (Option-cases (r.from_sorted_iter ds)) [
    | inl unsorted ↦ rw unsorted refl
    | inr (bm, found) ↦ elim (Result-cases (encode r gs)) [
      | inr (x, e) ↦ rw (found, encode-append gs hs, e) refl
      | inl (a, e) ↦ elim (Result-cases (encode r hs)) [
        | inl (b, f) ↦ rw (found, encode-append gs hs, e, f) refl
        | inr (x, f) ↦ rw (found, encode-append gs hs, e, f) refl
      ]
    ]
  ]

  chunks_of_lem :
      (ss : List (List ℕ))
      → chunks_of r ss ≡ (encode_each (map group ss) >>= λ parts. ok (map (lay r ([], [])) parts))
  unfolding chunks_of encode_each
  chunks_of_lem [] = refl
  chunks_of_lem (span ∷ ss) =
      rw (chunk_loop_lem r (length span) span ([], []) (omega arith), chunks_of_lem ss)
        (elim (Result-cases (encode r (group span))) [
          | inr (x, e) ↦ rw e refl
          | inl (bms, e) ↦ elim (Result-cases (encode_each (map group ss))) [
            | inl (more, f) ↦ rw (e, f) refl
            | inr (x, f) ↦ rw (e, f) refl
          ]
        ])

  encode-groups_of :
      (ss : List (List ℕ))
      → encode r (groups_of ss) ≡ (encode_each (map group ss) >>= λ parts. ok (flat parts))
  unfolding encode_each groups_of
  encode-groups_of [] = unfold encode in refl
  encode-groups_of (span ∷ ss) =
      rw (encode-append (group span) (groups_of ss), encode-groups_of ss)
        (elim (Result-cases (encode r (group span))) [
          | inr (x, e) ↦ rw e refl
          | inl (bms, e) ↦ elim (Result-cases (encode_each (map group ss))) [
            | inl (more, f) ↦ rw (e, f) refl
            | inr (x, f) ↦ rw (e, f) refl
          ]
        ])

  stitched :
      (ss : List (List ℕ))
      → (do chunks ← chunks_of r ss; stitch chunks ([], []))
        ≡ (encode r (groups_of ss) >>= laid [] [])
  stitched ss =
      rw (chunks_of_lem ss, encode-groups_of ss)
        (elim (Result-cases (encode_each (map group ss))) [
          | inl (parts, e) ↦ rw e (stitch_lem parts [] [])
          | inr (x, e) ↦ rw e refl
        ])

  nothing_lem :
      (xs : List ℕ) → is_empty xs ≡ true → ok ([], []) ≡ (encode r (group xs) >>= laid [] [])
  unfolding encode group laid lay_entries lay_blob push_entries
  nothing_lem [] h = refl
  nothing_lem (x ∷ xs) h = cc

  -- For any number of parts and pairs of 64 bits, the build gives what the sorted pairs give
  -- in one piece: the groups of the sorted list, encoded one after another, with the packed
  -- offset and cardinality of each.
  pub build_postings_blob_lem :
      (parts : ℕ) (pairs : List ℕ)
      → AllWords pairs
      → build_postings_blob r parts pairs ≡ (encode r (group (sort pairs)) >>= laid [] [])
  unfolding build_postings_blob
  build_postings_blob_lem parts pairs w = elim (Bool-cases (is_empty (sort pairs))) [
    | inl nothing ↦ rw nothing (nothing_lem (sort pairs) nothing)
    | inr filled ↦
        rw
          (
            filled,
            stitched (spans (sort pairs) (bounds_of (sort pairs) parts)),
            groups_of-bounds_of (sort pairs) parts (AllBelow-sort (2 ^ 64) pairs w)
                (filled_length (sort pairs) filled),
          )
          refl
  ]
