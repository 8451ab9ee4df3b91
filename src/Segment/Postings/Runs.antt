-- ===== src/Segment/Postings/Runs.antt =====
-- `build_postings_blob` in crates/greplm-core/src/segment.rs: the runs of a sorted list of
-- pairs, and one chunk.
use mathlib.Core.List.{append_assoc, append-nil}
use greplm.Common.{
  ℕ, zero, suc, ◌+◌, ◌≤◌, ◌≡◌, refl, ap, ◌∙◌, true, false, inl, inr, List, [], ◌∷◌, ◌++◌, map,
  arith, ◌==◌, if◌then◌else◌, Bool-cases, Option-cases, ==_refl, length, length-append,
}
use greplm.Common.Result.{Result, ok, other, ok_or, ◌>>=◌, Result-cases}
use greplm.Roaring.{Roaring}
use greplm.Segment.Postings.{key32, doc32, run_end, Entry, Chunk, chunk_loop}

-- The pairs gathered by key: each run of a key with its documents.
abbrev pub Group : Type 0
Group = ℕ × List ℕ

unfoldable pub add_pair : ℕ → List Group → List Group
add_pair p [] = (key32 p, doc32 p ∷ []) ∷ []
add_pair p ((k, ds) ∷ gs) =
    if key32 p == k then (k, doc32 p ∷ ds) ∷ gs else (key32 p, doc32 p ∷ []) ∷ (k, ds) ∷ gs

add_pair_change :
    (p q : ℕ) (gs : List Group)
    → (key32 p == key32 q) ≡ false
    → add_pair p (add_pair q gs) ≡ (key32 p, doc32 p ∷ []) ∷ add_pair q gs
unfolding add_pair
add_pair_change p q [] h = ground arith
add_pair_change p q ((k, ds) ∷ gs) h = ground arith

unfoldable pub group : List ℕ → List Group
unfolding add_pair
group [] = []
group (p ∷ ps) = add_pair p (group ps)

module _ (key : ℕ) where
  run_end_same :
      (p : ℕ) (ps : List ℕ)
      → (key32 p == key) ≡ true
      → run_end key (p ∷ ps) ≡ (p ∷ (run_end key ps).0, (run_end key ps).1)
  unfolding run_end
  run_end_same p ps h = rw h refl

  run_end_change :
      (p : ℕ) (ps : List ℕ) → (key32 p == key) ≡ false → run_end key (p ∷ ps) ≡ ([], p ∷ ps)
  unfolding run_end
  run_end_change p ps h = rw h refl

  -- what the inner loop makes of a list that begins with the key
  abbrev first_run : List ℕ → List Group
  first_run ps = (key, map doc32 (run_end key ps).0) ∷ group (run_end key ps).1

  -- The source finds the first run by its inner loop.
  group_run : (p : ℕ) (ps : List ℕ) → (key32 p == key) ≡ true → group (p ∷ ps) ≡ first_run (p ∷ ps)
  unfolding group
  group_run p [] h = rw (run_end_same p [] h) (unfold run_end in ground arith)
  group_run p (q ∷ qs) h = elim (Bool-cases (key32 q == key)) [
    | inl same ↦
        rw (run_end_same p (q ∷ qs) h) (ap (add_pair p) (group_run q qs same) ∙ ground arith)
    | inr change ↦
        rw (run_end_same p (q ∷ qs) h, run_end_change q qs change)
          (add_pair_change p q (group qs) (ground arith) ∙ ground arith)
  ]

  length-run_end : (ps : List ℕ) → length (run_end key ps).1 ≤ length ps
  unfolding run_end
  length-run_end [] = omega arith
  length-run_end (p ∷ ps) = ground (arith, length-run_end ps)

  length-run_end_self :
      (p : ℕ) (ps : List ℕ) → (key32 p == key) ≡ true → length (run_end key (p ∷ ps)).1 ≤ length ps
  length-run_end_self p ps h = rw (run_end_same p ps h) (length-run_end ps)

module _ (r : Roaring) where
  -- the posting lists of the groups, in order
  unfoldable pub encode : List Group → Result (List (ℕ × r.Bitmap))
  encode [] = ok []
  encode ((key, docs) ∷ gs) = do
    bm ← ok_or (r.from_sorted_iter docs) other
    bms ← encode gs
    ok ((key, r.optimize bm) ∷ bms)

  unfoldable pub lay_blob : List (ℕ × r.Bitmap) → List ℕ
  lay_blob [] = []
  lay_blob ((key, bm) ∷ bms) = r.serialize bm ++ lay_blob bms

  unfoldable pub lay_entries : ℕ → List (ℕ × r.Bitmap) → List Entry
  lay_entries base [] = []
  lay_entries base ((key, bm) ∷ bms) =
      (key, base, r.len bm) ∷ lay_entries (base + length (r.serialize bm)) bms

  abbrev pub lay : Chunk → List (ℕ × r.Bitmap) → Chunk
  lay (blob, entries) bms = (blob ++ lay_blob bms, entries ++ lay_entries (length blob) bms)

  lay_cons :
      (blob : List ℕ) (entries : List Entry) (key : ℕ) (bm : r.Bitmap) (bms : List (ℕ × r.Bitmap))
      → lay (blob ++ r.serialize bm, entries ++ (key, length blob, r.len bm) ∷ []) bms
        ≡ lay (blob, entries) ((key, bm) ∷ bms)
  unfolding lay_blob lay_entries
  lay_cons blob entries key bm bms = simp (append_assoc, length-append)

  -- one round of the loop, given what the later rounds make of the rest
  chunk_step :
      (key : ℕ) (docs rest : List ℕ) (fuel : ℕ) (blob : List ℕ) (entries : List Entry)
      → ((chunk : Chunk)
          → chunk_loop r fuel rest chunk ≡ (encode (group rest) >>= λ bms. ok (lay chunk bms)))
      → (ok_or (r.from_sorted_iter docs) other >>= λ found. chunk_loop r fuel rest (
        blob ++ r.serialize (r.optimize found),
        entries ++ (key, length blob, r.len (r.optimize found)) ∷ [],
      ))
        ≡ (encode ((key, docs) ∷ group rest) >>= λ bms. ok (lay (blob, entries) bms))
  unfolding encode
  chunk_step key docs rest fuel blob entries later = elim (Option-cases (r.from_sorted_iter docs)) [
    | inl unsorted ↦ rw unsorted refl
    | inr (bm, e) ↦ elim (Result-cases (encode (group rest))) [
      | inl (bms, g) ↦ rw (e, later, g) (ap ok (lay_cons blob entries key (r.optimize bm) bms))
      | inr (x, g) ↦ rw (e, later, g) refl
    ]
  ]

  -- With fuel for its length a span becomes the posting lists of its groups, one after another.
  pub chunk_loop_lem :
      (fuel : ℕ) (ps : List ℕ) (chunk : Chunk)
      → length ps ≤ fuel
      → chunk_loop r fuel ps chunk ≡ (encode (group ps) >>= λ bms. ok (lay chunk bms))
  unfolding chunk_loop
  chunk_loop_lem fuel [] (blob, entries) h =
      unfold group encode lay_blob lay_entries in simp append-nil
  chunk_loop_lem zero (p ∷ ps) chunk h = absurd (omega arith)
  chunk_loop_lem (suc fuel) (p ∷ ps) (blob, entries) h =
      let (run, rest) = run_end (key32 p) (p ∷ ps) in
      let shorter = length-run_end_self (key32 p) p ps (==_refl (key32 p)) in
      rw (group_run (key32 p) p ps (==_refl (key32 p))) (
        chunk_step (key32 p) (map doc32 run) rest fuel blob entries
          λ chunk. chunk_loop_lem fuel rest chunk (omega arith))
