-- ===== src/Segment/Postings/Lookup.antt =====
-- What a reader of the entries of `build_postings_blob` in crates/greplm-core/src/segment.rs
-- finds.
use mathlib.Core.List.{append_assoc, append-nil, map-append}
use greplm.Common.{
  ℕ, ◌+◌, ◌^◌, min, ◌≤◌, ◌<◌, ◌≡◌, refl, sym, ap, subst, ◌∙◌, true, false, inl, inr, Option, none,
  some, List, [], ◌∷◌, ◌++◌, map, arith, ◌==◌, if◌then◌else◌, Bool-cases, length, length-append,
  drop, drop_append,
}
use greplm.Common.Result.{ok, ◌>>=◌, >>=-eq-ok}
use greplm.Roaring.{Roaring}
use greplm.Trigram.{Trigram, IsTrigram, tri_eq, key_of, tri_of}
use greplm.Trigram.Key.{key_of-tri_of, key_of-tri_eq, IsTrigram-tri_of}
use greplm.Segment.{pack_entry, unpack_offset, unpack_card, card_cap}
use greplm.Segment.Pack.{unpack-pack_entry}
use greplm.Segment.Postings.{push_entries}
use greplm.Segment.Postings.Runs.{lay_blob, lay_entries}

-- The value of a trigram among the entries.
unfoldable pub lookup : Trigram → List (Trigram × ℕ) → Option ℕ
lookup t [] = none
lookup t ((u, v) ∷ es) = if tri_eq t u then some v else lookup t es

lookup-cons :
    (t u : Trigram) (v : ℕ) (es : List (Trigram × ℕ))
    → lookup t ((u, v) ∷ es) ≡ (if tri_eq t u then some v else lookup t es)
unfolding lookup
lookup-cons t u v es = refl

module _ (r : Roaring) where
  -- the posting list of a key
  unfoldable pub posting : ℕ → List (ℕ × r.Bitmap) → Option r.Bitmap
  posting k [] = none
  posting k ((j, bm) ∷ bms) = if k == j then some bm else posting k bms

  abbrev pub KeysFit : List (ℕ × r.Bitmap) → Type 0
  KeysFit [] = Unit {0}
  KeysFit ((k, bm) ∷ bms) = (k < 2 ^ 24) × KeysFit bms

  -- What an entry that is found says of the blob that follows `prefix`.
  pub record Found (prefix : List ℕ) (bms : List (ℕ × r.Bitmap)) (t : Trigram) (v : ℕ)
      : Type 0 where
    pub bitmap : r.Bitmap
    pub found : posting (key_of t) bms ≡ some bitmap
    pub card : unpack_card v ≡ min (r.len bitmap) card_cap
    pub rest : List ℕ
    pub stored : drop (unpack_offset v) (prefix ++ lay_blob r bms) ≡ r.serialize bitmap ++ rest
    pub inside : unpack_offset v ≤ length (prefix ++ lay_blob r bms)

  -- The outcome of a lookup, whichever it is, agrees with the posting lists.
  abbrev pub Agrees : List ℕ → List (ℕ × r.Bitmap) → Trigram → Option ℕ → Type 0
  Agrees prefix bms t none = posting (key_of t) bms ≡ none
  Agrees prefix bms t (some v) = Found prefix bms t v

  later_found :
      (prefix : List ℕ) (k : ℕ) (bm : r.Bitmap) (bms : List (ℕ × r.Bitmap)) (t : Trigram)
      (o : Option ℕ)
      → (key_of t == k) ≡ false
      → Agrees (prefix ++ r.serialize bm) bms t o
      → Agrees prefix ((k, bm) ∷ bms) t o
  unfolding posting lay_blob
  later_found prefix k bm bms t none h a = rw h a
  later_found prefix k bm bms t (some v) h a = record {
    bitmap = a.bitmap;
    found = rw h a.found;
    card = a.card;
    rest = a.rest;
    stored = rw (← append_assoc) a.stored;
    inside = rw (← append_assoc) a.inside;
  }

  here-Found :
      (prefix : List ℕ) (k : ℕ) (bm : r.Bitmap) (bms : List (ℕ × r.Bitmap)) (t : Trigram) (v : ℕ)
      → (key_of t == k) ≡ true
      → pack_entry (length prefix) (r.len bm) ≡ ok v
      → Found prefix ((k, bm) ∷ bms) t v
  unfolding posting lay_blob
  here-Found prefix k bm bms t v h e =
      let (offset, card, _) = unpack-pack_entry (length prefix) (r.len bm) e in
      record {
        bitmap = bm;
        found = rw h;
        card = card;
        rest = lay_blob r bms;
        stored = drop_append (unpack_offset v) prefix (r.serialize bm ++ lay_blob r bms) offset;
        inside = omega (arith, length-append prefix (r.serialize bm ++ lay_blob r bms));
      }

  -- the entries that a push adds, and what lookups among them find
  abbrev pub Pushed :
      List ℕ → List (ℕ × r.Bitmap) → List (Trigram × ℕ) → List (Trigram × ℕ) → Type 0
  Pushed prefix bms out es =
      (added : List (Trigram × ℕ)) × (es ≡ out ++ added)
      × ((t : Trigram) → IsTrigram t → Agrees prefix bms t (lookup t added))

  push_none :
      (base : ℕ) (out : List (Trigram × ℕ)) → push_entries 0 (lay_entries r base []) out ≡ ok out
  unfolding push_entries lay_entries
  push_none base out = refl

  push_step :
      (base k : ℕ) (bm : r.Bitmap) (bms : List (ℕ × r.Bitmap)) (out : List (Trigram × ℕ))
      → push_entries 0 (lay_entries r base ((k, bm) ∷ bms)) out ≡ (do
        value ← pack_entry (0 + base) (r.len bm)
        push_entries 0
            (lay_entries r (base + length (r.serialize bm)) bms)
            (out ++ (tri_of k, value) ∷ []))
  unfolding push_entries lay_entries
  push_step base k bm bms out = refl

  Agrees-cons :
      (prefix : List ℕ) (k : ℕ) (bm : r.Bitmap) (bms : List (ℕ × r.Bitmap)) (t : Trigram) (v : ℕ)
      (added : List (Trigram × ℕ))
      → k < 2 ^ 24
      → IsTrigram t
      → pack_entry (length prefix) (r.len bm) ≡ ok v
      → Agrees (prefix ++ r.serialize bm) bms t (lookup t added)
      → Agrees prefix ((k, bm) ∷ bms) t (lookup t ((tri_of k, v) ∷ added))
  Agrees-cons prefix k bm bms t v added small p packed later =
      let test : tri_eq t (tri_of k) ≡ (key_of t == k) =
        sym (key_of-tri_eq t (tri_of k) p (IsTrigram-tri_of k))
        ∙ ap (λ (j : ℕ). key_of t == j) (key_of-tri_of k small) in
      let step : lookup t ((tri_of k, v) ∷ added)
          ≡ (if key_of t == k then some v else lookup t added) =
        lookup-cons t (tri_of k) v added ∙ ap (λ b. if b then some v else lookup t added) test in
      elim (Bool-cases (key_of t == k)) [
        | inl same ↦ rw (step, same) (here-Found prefix k bm bms t v same packed)
        | inr differ ↦
            rw (step, differ) (later_found prefix k bm bms t (lookup t added) differ later)
      ]

  pub push_agrees :
      (prefix : List ℕ) (base : ℕ) (bms : List (ℕ × r.Bitmap)) (out es : List (Trigram × ℕ))
      → length prefix ≡ base
      → KeysFit bms
      → push_entries 0 (lay_entries r base bms) out ≡ ok es
      → Pushed prefix bms out es
  push_agrees prefix base [] out es same fit e =
      let same_out : ok out ≡ ok es = sym (push_none base out) ∙ e in
      let kept : es ≡ out = cc same_out in
      ([], kept ∙ sym (append-nil out), λ t p. unfold lookup posting in refl)
  push_agrees prefix base ((k, bm) ∷ bms) out es same fit e =
      let (v, packed, more) =
        >>=-eq-ok (pack_entry (0 + base) (r.len bm)) _ (sym (push_step base k bm bms out) ∙ e) in
      let next : length (prefix ++ r.serialize bm) ≡ base + length (r.serialize bm) =
        omega (arith, length-append prefix (r.serialize bm)) in
      let (added, joined, agrees) =
        push_agrees (prefix ++ r.serialize bm) (base + length (r.serialize bm)) bms
          (out ++ (tri_of k, v) ∷ []) es next fit.1 more in
      let at : pack_entry (length prefix) (r.len bm) ≡ ok v =
        subst (λ n. pack_entry n (r.len bm) ≡ ok v) (omega arith) packed in
      (
        (tri_of k, v) ∷ added,
        joined ∙ append_assoc out ((tri_of k, v) ∷ []) added,
        λ t p. Agrees-cons prefix k bm bms t v added fit.0 p at (agrees t p),
      )

  -- The entries that a push adds carry the keys of the posting lists, in order.
  pub push_keys :
      (base : ℕ) (bms : List (ℕ × r.Bitmap)) (out es : List (Trigram × ℕ))
      → KeysFit bms
      → push_entries 0 (lay_entries r base bms) out ≡ ok es
      → map (λ e. key_of e.0) es ≡ map (λ e. key_of e.0) out ++ map (λ b. b.0) bms
  push_keys base [] out es fit e =
      let same_out : ok out ≡ ok es = sym (push_none base out) ∙ e in
      let kept : es ≡ out = cc same_out in rw kept (sym (append-nil (map (λ f. key_of f.0) out)))
  push_keys base ((k, bm) ∷ bms) out es fit e =
      let (v, packed, more) =
        >>=-eq-ok (pack_entry (0 + base) (r.len bm)) _ (sym (push_step base k bm bms out) ∙ e) in
      push_keys (base + length (r.serialize bm)) bms (out ++ (tri_of k, v) ∷ []) es fit.1 more
      ∙ rw (map-append, append_assoc)
          (ap (λ (j : ℕ). map (λ f. key_of f.0) out ++ (j ∷ map (λ b. b.0) bms))
            (key_of-tri_of k fit.0))
