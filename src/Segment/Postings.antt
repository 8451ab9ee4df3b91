-- ===== src/Segment/Postings.antt =====
-- crates/greplm-core/src/segment.rs: `build_postings_blob` inverts the flat pairs of a writer into
-- posting lists and term-dictionary entries, in chunks that are cut where the trigram changes.
pub mod Runs
pub mod Cuts
pub mod Bounds
pub mod Blob
pub mod Groups
pub mod Lookup
pub mod Exact
pub mod Entries
use greplm.Common.{
  ℕ, zero, suc, ◌+◌, ◌-◌, ◌*◌, ◌/◌, ◌%◌, ◌^◌, max, bit_or, Bool, true, false, ◌&&◌, List, [], ◌∷◌,
  ◌++◌, map, ◌==◌, ltb, if◌then◌else◌, length, get_or, slice, range_from, foldl, is_empty,
}
use greplm.Common.Bits.{shl, shr}
use greplm.Common.Result.{Result, ok, err, other, ok_or, ◌>>=◌}
use greplm.Common.Sort.{sort}
use greplm.Roaring.{Roaring}
use greplm.Trigram.{Trigram, key_of, tri_of}
use greplm.Segment.{pack_entry}

-- `(u64::from(trigram::key_of(t)) << 32) | u64::from(doc_id)`
unfoldable pub pair_of : ℕ → Trigram → ℕ
pair_of doc_id t = bit_or (shl 64 (key_of t) 32) doc_id

-- `(span[i] >> 32) as u32`
abbrev pub key32 : ℕ → ℕ
key32 p = shr p 32 % 2 ^ 32

-- `p as u32`
abbrev pub doc32 : ℕ → ℕ
doc32 p = p % 2 ^ 32

-- the `while` over one run of a key: the run, and what is left of the span
unfoldable pub run_end : ℕ → List ℕ → List ℕ × List ℕ
run_end key [] = ([], [])
run_end key (p ∷ ps) =
    let (run, rest) = run_end key ps in if key32 p == key then (p ∷ run, rest) else ([], p ∷ ps)

-- the `while` that finds the next change of key at or after `at`, with `n - at` rounds at most
unfoldable pub advance : ℕ → List ℕ → ℕ → ℕ
advance zero pairs at = at
advance (suc fuel) pairs at =
    let next = advance fuel pairs (at + 1) in
    if ltb at (length pairs) && shr (get_or pairs (at - 1) 0) 32 == shr (get_or pairs at 0) 32
    then next
    else at

abbrev pub last : List ℕ → ℕ
last [] = 0
last (b ∷ []) = b
last (b ∷ c ∷ bs) = last (c ∷ bs)

-- one round of the loop over the parts
unfoldable pub push_bound : List ℕ → ℕ → List ℕ → ℕ → List ℕ
unfolding advance
push_bound pairs parts bounds p =
    let n = length pairs in
    let at = advance n pairs (max (n * p / parts) 1) in
    if ltb (last bounds) at && ltb at n then bounds ++ at ∷ [] else bounds

unfoldable pub bounds_of : List ℕ → ℕ → List ℕ
unfolding push_bound
bounds_of pairs parts =
    foldl (push_bound pairs parts) (0 ∷ []) (range_from (parts - 1) 1) ++ length pairs ∷ []

-- `bounds.par_windows(2)`
unfoldable pub spans : List ℕ → List ℕ → List (List ℕ)
spans pairs (lo ∷ hi ∷ bs) = slice lo hi pairs ∷ spans pairs (hi ∷ bs)
spans pairs _ = []

-- (key, offset, cardinality)
abbrev pub Entry : Type 0
Entry = ℕ × ℕ × ℕ

abbrev pub Chunk : Type 0
Chunk = List ℕ × List Entry

-- the inner loop of the stitching
unfoldable pub push_entries : ℕ → List Entry → List (Trigram × ℕ) → Result (List (Trigram × ℕ))
unfolding pack_entry tri_of
push_entries base [] out = ok out
push_entries base ((key, offset, card) ∷ es) out = do
  value ← pack_entry (base + offset) card
  push_entries base es (out ++ (tri_of key, value) ∷ [])

unfoldable pub stitch :
    List Chunk → List ℕ × List (Trigram × ℕ) → Result (List ℕ × List (Trigram × ℕ))
unfolding push_entries
stitch [] out = ok out
stitch ((blob, entries) ∷ chunks) (post_blob, fst_entries) = do
  pushed ← push_entries (length post_blob) entries fst_entries
  stitch chunks (post_blob ++ blob, pushed)

module _ (r : Roaring) where
  -- the `while` over a span, with one round for each run; the length of the span is enough fuel
  unfoldable pub chunk_loop : ℕ → List ℕ → Chunk → Result Chunk
  unfolding run_end
  chunk_loop fuel [] chunk = ok chunk
  chunk_loop zero (p ∷ ps) chunk = err other
  chunk_loop (suc fuel) (p ∷ ps) (blob, entries) =
      let key = key32 p in
      let (run, rest) = run_end key (p ∷ ps) in
      (do
        found ← ok_or (r.from_sorted_iter (map doc32 run)) other
        let bm = r.optimize found
        chunk_loop fuel rest (blob ++ r.serialize bm, entries ++ (key, length blob, r.len bm) ∷ []))

  -- `.map(|w| …).collect::<Result<_>>()`
  unfoldable pub chunks_of : List (List ℕ) → Result (List Chunk)
  unfolding chunk_loop
  chunks_of [] = ok []
  chunks_of (span ∷ rest) = do
    chunk ← chunk_loop (length span) span ([], [])
    chunks ← chunks_of rest
    ok (chunk ∷ chunks)

  -- `parts` is the number of threads, clamped to 1..=64
  unfoldable pub build_postings_blob : ℕ → List ℕ → Result (List ℕ × List (Trigram × ℕ))
  unfolding sort bounds_of spans chunks_of stitch
  build_postings_blob parts pairs =
      let sorted = sort pairs in
      if is_empty sorted
      then ok ([], [])
      else (do chunks ← chunks_of (spans sorted (bounds_of sorted parts)); stitch chunks ([], []))
