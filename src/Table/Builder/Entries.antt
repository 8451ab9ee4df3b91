-- ===== src/Table/Builder/Entries.antt =====
-- The entries that `build_name_fst` of crates/greplm-core/src/table.rs inserts, looked up by name.
use greplm.Common.{
  ℕ, zero, suc, ◌+◌, ◌-◌, ◌≤◌, ◌<◌, ◌^◌, ◌≡◌, refl, sym, ap, subst, ◌∙◌, bit_or, bit_and, true,
  false, inl, inr, List, [], ◌∷◌, ◌++◌, arith, Bool-cases, length, length-append, slice,
  slice-append, all,
}
use mathlib.Core.List.{append_assoc}
use greplm.Common.Bits.{shl, shr}
use greplm.Fst.{bytes_eq, KeysAscend, find}
use greplm.Segment.{Text}
use greplm.Table.{text_ltb, name_run, name_entries}
use greplm.Table.Builder.Kinds.{bytes_eq-eq-true}
use greplm.Table.Builder.Names.{named, first_run, ids_of, unpack_run}
use greplm.Table.Builder.Order.{bytes_eq_comm, BytesLt-of, NamesSorted}
use greplm.Table.Core.Header.{bytes_eq_refl}

module _ (name_of : ℕ → Text) where
  abbrev run_of : ℕ → List ℕ → List ℕ × List ℕ
  run_of x xs = name_run name_of (name_of x) (x ∷ xs)

  abbrev entry_value : ℕ → ℕ → ℕ
  entry_value i n = bit_or (shl 64 i 32) n

  name_entries_step :
      (fuel i x : ℕ) (xs : List ℕ)
      → name_entries name_of (suc fuel) i (x ∷ xs)
        ≡ (name_of x, entry_value i (length (run_of x xs).0))
          ∷ name_entries name_of fuel (i + length (run_of x xs).0) (run_of x xs).1
  unfolding name_entries
  name_entries_step fuel i x xs = refl

  -- A run and what is left, by length.
  length-run :
      (x : ℕ) (xs : List ℕ)
      → NamesSorted name_of (x ∷ xs)
      → (length (run_of x xs).0 + length (run_of x xs).1 ≡ suc (length xs))
        × (0 < length (run_of x xs).0)
  length-run x xs sorted =
      let h = first_run name_of x xs sorted in
      let first : named name_of (name_of x) (x ∷ xs) ≡ x ∷ named name_of (name_of x) xs =
        rw (bytes_eq_refl (name_of x)) refl in
      (
        sym (length-append (run_of x xs).0 (run_of x xs).1) ∙ ap length h.split,
        omega (arith, ap length (sym first ∙ h.run_eq)),
      )

  find-name_entries_step :
      (k : Text) (pre : List ℕ) (i x : ℕ) (xs : List ℕ) (es : List (Text × ℕ))
      → length pre ≡ i
      → i + suc (length xs) < 2 ^ 32
      → NamesSorted name_of (x ∷ xs)
      → ids_of (find k es) ((pre ++ (run_of x xs).0) ++ (run_of x xs).1)
        ≡ named name_of k (run_of x xs).1
      → ids_of (find k ((name_of x, entry_value i (length (run_of x xs).0)) ∷ es)) (pre ++ (x ∷ xs))
        ≡ named name_of k (x ∷ xs)
  unfolding find
  find-name_entries_step k pre i x xs es at room sorted rest =
      let h = first_run name_of x xs sorted in
      let (sizes, some_run) = length-run x xs sorted in
      let n = length (run_of x xs).0 in
      elim (Bool-cases (bytes_eq k (name_of x))) [
        | inl e ↦
            let (offset, count) = unpack_run i n (omega arith) (omega (arith, sizes)) in
            let same : name_of x ≡ k = sym (bytes_eq-eq-true k (name_of x) e) in
            let value = entry_value i n in
            let lo : shr value 32 ≡ length pre = offset ∙ sym at in
            let hi : shr value 32 + bit_and value (2 ^ 32 - 1) ≡ length pre + n =
              omega (arith, lo, count) in
            rw e (
              ap
                (λ ids.
                  slice (shr value 32) (shr value 32 + bit_and value (2 ^ 32 - 1)) (pre ++ ids))
                (sym h.split)
              ∙ slice-append (shr value 32) (shr value 32 + bit_and value (2 ^ 32 - 1)) pre
                  (run_of x xs).0 (run_of x xs).1 lo hi
              ∙ sym h.run_eq
              ∙ ap (λ name. named name_of name (x ∷ xs)) same)
        | inr e ↦
            let apart : bytes_eq (name_of x) k ≡ false = bytes_eq_comm (name_of x) k ∙ e in
            rw e (
              ap (λ ids. ids_of (find k es) (pre ++ ids)) (sym h.split)
              ∙ ap (ids_of (find k es)) (sym (append_assoc pre (run_of x xs).0 (run_of x xs).1))
              ∙ rest
              ∙ sym (h.others k apart))
      ]

  -- The entry of a name stands for the ids with that name.
  pub find-name_entries :
      (k : Text) (fuel i : ℕ) (pre ids : List ℕ)
      → length ids ≤ fuel
      → length pre ≡ i
      → i + length ids < 2 ^ 32
      → NamesSorted name_of ids
      → ids_of (find k (name_entries name_of fuel i ids)) (pre ++ ids) ≡ named name_of k ids
  find-name_entries k fuel i pre [] enough at room sorted = unfold name_entries find in refl
  find-name_entries k zero i pre (x ∷ xs) enough at room sorted = absurd (omega arith)
  find-name_entries k (suc fuel) i pre (x ∷ xs) enough at room sorted =
      let (sizes, some_run) = length-run x xs sorted in
      let n = length (run_of x xs).0 in
      ap (λ es. ids_of (find k es) (pre ++ (x ∷ xs))) (name_entries_step fuel i x xs)
      ∙ find-name_entries_step k pre i x xs (name_entries name_of fuel (i + n) (run_of x xs).1) at
          room sorted
          (find-name_entries k fuel (i + n) (pre ++ (run_of x xs).0) (run_of x xs).1
            (omega (arith, sizes, some_run)) (omega (arith, length-append pre (run_of x xs).0))
            (omega (arith, sizes)) (first_run name_of x xs sorted).rest_sorted)

  ascend_step :
      (k : Text) (v fuel i : ℕ) (ids : List ℕ)
      → length ids ≤ fuel
      → all (λ y. text_ltb k (name_of y)) ids ≡ true
      → KeysAscend (name_entries name_of fuel i ids)
      → KeysAscend ((k, v) ∷ name_entries name_of fuel i ids)
  ascend_step k v fuel i [] enough later asc = unfold name_entries in tt
  ascend_step k v zero i (x ∷ xs) enough later asc = absurd (omega arith)
  ascend_step k v (suc fuel) i (x ∷ xs) enough later asc =
      subst (λ es. KeysAscend ((k, v) ∷ es)) (sym (name_entries_step fuel i x xs))
        (
          BytesLt-of k (name_of x) (ground arith),
          subst KeysAscend (name_entries_step fuel i x xs) asc,
        )

  -- The names are inserted in ascending order.
  pub name_entries-KeysAscend :
      (fuel i : ℕ) (ids : List ℕ)
      → length ids ≤ fuel
      → NamesSorted name_of ids
      → KeysAscend (name_entries name_of fuel i ids)
  name_entries-KeysAscend fuel i [] enough sorted = unfold name_entries in tt
  name_entries-KeysAscend zero i (x ∷ xs) enough sorted = absurd (omega arith)
  name_entries-KeysAscend (suc fuel) i (x ∷ xs) enough sorted =
      let (sizes, some_run) = length-run x xs sorted in
      let h = first_run name_of x xs sorted in
      let n = length (run_of x xs).0 in
      subst KeysAscend (sym (name_entries_step fuel i x xs)) (
        ascend_step (name_of x) (entry_value i n) fuel (i + n) (run_of x xs).1
          (omega (arith, sizes, some_run)) h.rest_after
          (name_entries-KeysAscend fuel (i + n) (run_of x xs).1 (omega (arith, sizes, some_run))
            h.rest_sorted))
