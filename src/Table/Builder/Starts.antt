-- ===== src/Table/Builder/Starts.antt =====
-- `DocStartsBuilder` of crates/greplm-core/src/table.rs: where the rows of each document start.
use greplm.Common.{
  ℕ, zero, suc, ◌+◌, ◌-◌, ◌%◌, ◌^◌, ◌≤◌, ◌<◌, ◌≡◌, refl, sym, ap, subst, ◌∙◌, ◌&&◌, ◌⊎◌, inl, inr,
  List, [], ◌∷◌, ◌++◌, arith, ltb, leb, if◌then◌else◌, Bool-cases, length, length-append, get_or,
}
use greplm.Common.Result.{ok, other, ok_injective, guard-eq-ok}
use greplm.Segment.Files.{to_le_bytes}
use greplm.Table.{DocStartsBuilder, new_starts, close_docs, push_doc, finish_starts}
use greplm.Table.Core.Packed.{numbers, numbers_snoc}

-- how many of the rows' documents come before a document
unfoldable pub below : ℕ → List ℕ → ℕ
below d [] = 0
below d (x ∷ xs) = let rest = below d xs in if ltb x d then suc rest else rest

-- the starts of the first `count` documents
unfoldable pub starts_of : List ℕ → ℕ → List ℕ
unfolding below
starts_of docs zero = []
starts_of docs (suc d) = starts_of docs d ++ below d docs ∷ []

pub length-starts_of : (docs : List ℕ) (count : ℕ) → length (starts_of docs count) ≡ count
unfolding starts_of
length-starts_of docs zero = refl
length-starts_of docs (suc d) =
    omega (arith, length-append (starts_of docs d) (below d docs ∷ []), length-starts_of docs d)

get_or_snoc :
    (xs : List ℕ) (x i : ℕ)
    → get_or (xs ++ x ∷ []) i 0
      ≡ (if ltb i (length xs) then get_or xs i 0 else get_or (x ∷ []) (i - length xs) 0)
get_or_snoc [] x i = let e : i - 0 ≡ i = omega arith in rw e (ground arith)
get_or_snoc (y ∷ xs) x zero = ground arith
get_or_snoc (y ∷ xs) x (suc i) =
    let e : suc i - suc (length xs) ≡ i - length xs = omega arith in
    rw (e, get_or_snoc xs x i) (ground arith)

pub get_or-starts_of :
    (docs : List ℕ) (count i : ℕ) → i < count → get_or (starts_of docs count) i 0 ≡ below i docs
unfolding starts_of
get_or-starts_of docs zero i h = absurd (omega arith)
get_or-starts_of docs (suc d) i h =
    get_or_snoc (starts_of docs d) (below d docs) i ∙ elim (Bool-cases (ltb i d)) [
      | inl early ↦ rw (length-starts_of docs d, early) (get_or-starts_of docs d i (ground arith))
      | inr late ↦
          let e : i ≡ d = ground arith in
          let z : d - d ≡ 0 = omega arith in rw (length-starts_of docs d, late, e, z) refl
    ]

pub below_append : (d : ℕ) (xs ys : List ℕ) → below d (xs ++ ys) ≡ below d xs + below d ys
unfolding below
below_append d [] ys = omega arith
below_append d (x ∷ xs) ys = ground (arith, below_append d xs ys)

pub below-le-length : (d : ℕ) (xs : List ℕ) → below d xs ≤ length xs
unfolding below
below-le-length d [] = omega arith
below-le-length d (x ∷ xs) = ground (arith, below-le-length d xs)

pub below_mono : (d : ℕ) (xs : List ℕ) → below d xs ≤ below (d + 1) xs
unfolding below
below_mono d [] = omega arith
below_mono d (x ∷ xs) = ground (arith, below_mono d xs)

-- No row at a document after `top`.
abbrev pub UpTo : ℕ → List ℕ → Type 0
UpTo top docs = (d : ℕ) → top < d → below d docs ≡ length docs

-- A builder that took rows of these documents.
pub record StartsHold (docs : List ℕ) (b : DocStartsBuilder) : Type 0 where
  pub starts_eq : b.starts ≡ numbers 4 (starts_of docs (suc b.cur_doc))
  pub rows_eq : b.rows ≡ length docs
  pub up_to : UpTo b.cur_doc docs
  pub fresh_or_used : (docs ≡ []) × (b.cur_doc ≡ 0) ⊎ (0 < length docs)

close_docs_hold :
    (docs : List ℕ) (n top : ℕ)
    → UpTo top docs
    → close_docs n (length docs) (numbers 4 (starts_of docs (suc top)))
      ≡ numbers 4 (starts_of docs (suc (top + n)))
unfolding close_docs
close_docs_hold docs zero top up = ap (λ (k : ℕ). numbers 4 (starts_of docs (suc k))) (omega arith)
close_docs_hold docs (suc n) top up =
    let e : suc top + n ≡ top + suc n = omega arith in
    let next : numbers 4 (starts_of docs (suc top)) ++ to_le_bytes 4 (length docs)
        ≡ numbers 4 (starts_of docs (suc (suc top))) =
      ap (λ (x : ℕ). numbers 4 (starts_of docs (suc top)) ++ to_le_bytes 4 x)
        (sym (up (suc top) (omega arith)))
      ∙ sym (numbers_snoc 4 (starts_of docs (suc top)) (below (suc top) docs))
      ∙ unfold starts_of in refl in
    ap (λ s. close_docs n (length docs) s) next
    ∙ close_docs_hold docs n (suc top) (λ d above. up d (omega arith))
    ∙ ap (λ (k : ℕ). numbers 4 (starts_of docs (suc k))) e

pub new_starts_hold : StartsHold [] new_starts
new_starts_hold = record {
  starts_eq = unfold starts_of below to_le_bytes in refl;
  rows_eq = refl;
  up_to = λ d above. unfold below in refl;
  fresh_or_used = inl (refl, refl);
}

starts_of_snoc :
    (docs : List ℕ) (x count : ℕ)
    → count ≤ suc x
    → starts_of (docs ++ x ∷ []) count ≡ starts_of docs count
unfolding starts_of
starts_of_snoc docs x zero h = refl
starts_of_snoc docs x (suc d) h =
    let same : below d (docs ++ x ∷ []) ≡ below d docs =
      below_append d docs (x ∷ []) ∙ unfold below in ground arith in
    rw (starts_of_snoc docs x d (omega arith), same) refl

-- the builder after an accepted row
unfoldable pub accepted : DocStartsBuilder → ℕ → DocStartsBuilder
unfolding close_docs
accepted b doc_id = record {
  starts = close_docs (doc_id - b.cur_doc) b.rows b.starts;
  cur_doc = doc_id;
  rows = (b.rows + 1) % 2 ^ 32;
}

pub push_doc-eq-ok :
    (b after : DocStartsBuilder) (doc_id : ℕ)
    → push_doc b doc_id ≡ ok after
    → (b.cur_doc ≤ doc_id) × (accepted b doc_id ≡ after)
unfolding push_doc accepted
push_doc-eq-ok b after doc_id pushed =
    let (late, taken) = guard-eq-ok (ltb doc_id b.cur_doc) other (ok (accepted b doc_id)) pushed in
    (ground arith, ok_injective taken)

accepted_hold :
    (docs : List ℕ) (b : DocStartsBuilder) (doc_id : ℕ)
    → length docs + 1 < 2 ^ 32
    → b.cur_doc ≤ doc_id
    → StartsHold docs b
    → StartsHold (docs ++ doc_id ∷ []) (accepted b doc_id)
unfolding accepted
accepted_hold docs b doc_id room later h =
    let top : b.cur_doc + (doc_id - b.cur_doc) ≡ doc_id = omega arith in
    let up : UpTo doc_id (docs ++ doc_id ∷ []) = λ d above.
      below_append d docs (doc_id ∷ [])
      ∙ unfold below in ground (arith, h.up_to d, length-append docs (doc_id ∷ [])) in
    record {
      starts_eq =
          rw (h.rows_eq, h.starts_eq, starts_of_snoc docs doc_id (suc doc_id) (omega arith))
            (close_docs_hold docs (doc_id - b.cur_doc) b.cur_doc h.up_to
              ∙ ap (λ (k : ℕ). numbers 4 (starts_of docs (suc k))) top);
      rows_eq = rw h.rows_eq (omega (arith, length-append docs (doc_id ∷ [])));
      up_to = up;
      fresh_or_used = inr (omega (arith, length-append docs (doc_id ∷ [])));
    }

-- Pushing a row keeps it so.
pub push_doc_hold :
    (docs : List ℕ) (b after : DocStartsBuilder) (doc_id : ℕ)
    → length docs + 1 < 2 ^ 32
    → push_doc b doc_id ≡ ok after
    → StartsHold docs b
    → StartsHold (docs ++ doc_id ∷ []) after
push_doc_hold docs b after doc_id room pushed h =
    let (later, e) = push_doc-eq-ok b after doc_id pushed in
    subst (StartsHold (docs ++ doc_id ∷ [])) e (accepted_hold docs b doc_id room later h)

-- The starts of all documents, and the number of rows after them.
pub finish_starts_hold :
    (docs : List ℕ) (b : DocStartsBuilder) (doc_count : ℕ) (bytes : List ℕ)
    → finish_starts b doc_count ≡ ok bytes
    → StartsHold docs b
    → bytes ≡ numbers 4 (starts_of docs (suc doc_count))
unfolding finish_starts
finish_starts_hold docs b doc_count bytes finished h =
    let (late, closed) =
      guard-eq-ok (ltb 0 b.rows && leb doc_count b.cur_doc) other
        (ok (close_docs (doc_count - b.cur_doc) b.rows b.starts)) finished in
    let top : b.cur_doc + (doc_count - b.cur_doc) ≡ doc_count = elim h.fresh_or_used [
      | inl fresh ↦ omega (arith, fresh.1)
      | inr used ↦ ground (arith, h.rows_eq)
    ] in
    let e : numbers 4 (starts_of docs (suc (b.cur_doc + (doc_count - b.cur_doc)))) ≡ bytes =
      sym (close_docs_hold docs (doc_count - b.cur_doc) b.cur_doc h.up_to)
      ∙ rw (sym h.rows_eq, sym h.starts_eq) (ok_injective closed) in
    sym e ∙ ap (λ (k : ℕ). numbers 4 (starts_of docs (suc k))) top
