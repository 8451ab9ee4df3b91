-- ===== src/Search/Cache/Budget.antt =====
-- The bytes that `ContentCache` of crates/greplm-core/src/search.rs counts, and its budget.
use greplm.Common.{
  ℕ, zero, suc, ◌+◌, ◌-◌, ◌%◌, ◌^◌, ◌≤◌, ◌<◌, ◌≡◌, refl, sym, ap, ◌∙◌, max, inl, inr, Option, none,
  some, List, [], ◌∷◌, ◌++◌, arith, ◌==◌, leb, Bool-cases, length, length-append,
}
use greplm.Search.Cache.{
  Lru, LruLaws, CacheInner, ContentCache, lookup, remove, touch, size_of, new_cache, evict,
  put_done, store, seen, hit_or_read, get_or_read,
}

-- how many bytes some entries have
unfoldable pub total : List (ℕ × List ℕ) → ℕ
total [] = 0
total ((k, v) ∷ es) = length v + total es

total-append : (xs ys : List (ℕ × List ℕ)) → total (xs ++ ys) ≡ total xs + total ys
unfolding total
total-append [] ys = omega arith
total-append ((k, v) ∷ xs) ys = omega (arith, total-append xs ys)

total-remove :
    (k : ℕ) (es : List (ℕ × List ℕ)) → total (remove k es) + size_of (lookup k es) ≡ total es
unfolding total
total-remove k [] = refl
total-remove k ((j, v) ∷ es) = elim (Bool-cases (k == j)) [
  | inl e ↦ rw e (omega arith)
  | inr e ↦ rw e (omega (arith, total-remove k es))
]

total-touch :
    (k : ℕ) (o : Option (List ℕ)) (es : List (ℕ × List ℕ))
    → o ≡ lookup k es
    → total (touch k o es) ≡ total es
unfolding total
total-touch k none es h = refl
total-touch k (some v) es h = omega (arith, total-remove k es, ap size_of h)

no_bytes : (es : List (ℕ × List ℕ)) → length es ≤ 0 → total es ≡ 0
unfolding total
no_bytes [] h = refl
no_bytes (e ∷ es) h = absurd (omega arith)

module _ (l : Lru) (laws : LruLaws l) where
  -- The counter is the number of bytes of the entries.
  abbrev pub Counted : CacheInner l → Type 0
  Counted i = i.bytes ≡ total (laws.entries i.map)

  -- The counter is right and in the budget.
  pub record CacheHolds (c : ContentCache l) : Type 0 where
    pub counted : c.inner.bytes ≡ total (laws.entries c.inner.map)
    pub in_budget : c.inner.bytes ≤ c.budget

  abbrev Evicted : ℕ → CacheInner l → Type 0
  Evicted budget i = Counted i × (i.bytes ≤ budget)

  popped :
      (fuel budget : ℕ) (i : CacheInner l) (o : Option ((ℕ × List ℕ) × l.Map))
      → l.pop_lru i.map ≡ o
      → length (laws.entries i.map) ≤ suc fuel
      → Counted i
      → budget < i.bytes
      → ((j : CacheInner l)
          → length (laws.entries j.map) ≤ fuel
          → Counted j
          → Evicted budget (evict l fuel budget j))
      → Evicted budget (elim o [
        | none ↦ i
        | some p ↦ evict l fuel budget record { map = p.1; bytes = i.bytes - length p.0.1 }
      ])
  popped fuel budget i none e enough h over rest =
      let empty : total (laws.entries i.map) ≡ 0 =
        ap total (laws.pop_none i.map e) ∙ unfold total in refl in
      absurd (omega (arith, h, empty))
  popped fuel budget i (some ((k, v), left)) e enough h over rest =
      let es = laws.pop_some i.map left (k, v) e in
      let size : total (laws.entries i.map) ≡ total (laws.entries left) + length v =
        ap total es
        ∙ total-append (laws.entries left) ((k, v) ∷ [])
        ∙ unfold total in omega arith in
      rest record { map = left; bytes = i.bytes - length v }
        (omega (arith, ap length es, length-append (laws.entries left) ((k, v) ∷ [])))
        (omega (arith, h, size))

  -- Evicting leaves a right counter, in the budget.
  evict_holds :
      (fuel budget : ℕ) (i : CacheInner l)
      → length (laws.entries i.map) ≤ fuel
      → Counted i
      → Evicted budget (evict l fuel budget i)
  unfolding evict
  evict_holds zero budget i enough h =
      let empty : total (laws.entries i.map) ≡ 0 = no_bytes (laws.entries i.map) enough in
      (h, omega (arith, h, empty))
  evict_holds (suc fuel) budget i enough h = elim (Bool-cases (leb i.bytes budget)) [
    | inl e ↦ rw e (h, ground arith)
    | inr e ↦ rw e (
        popped fuel budget i (l.pop_lru i.map) refl enough h (ground arith)
          (evict_holds fuel budget))
  ]

  put_done_holds :
      (c : ContentCache l) (hash : ℕ) (arc : List ℕ)
      → c.budget < 2 ^ 63
      → length arc ≤ c.budget
      → CacheHolds c
      → CacheHolds (put_done l c arc (l.put c.inner.map hash arc))
  unfolding put_done
  put_done_holds c hash arc small fits h =
      let r = l.put c.inner.map hash arc in
      let prev : size_of r.0 ≡ size_of (lookup hash (laws.entries c.inner.map)) =
        ap size_of (laws.put_value c.inner.map hash arc) in
      let size : total (laws.entries r.1)
          ≡ length arc + total (remove hash (laws.entries c.inner.map)) =
        ap total (laws.put_entries c.inner.map hash arc) ∙ unfold total in refl in
      let removed = total-remove hash (laws.entries c.inner.map) in
      let counter : (c.inner.bytes - size_of r.0 + length arc) % 2 ^ 64 ≡ total (laws.entries r.1) =
        omega (arith, prev, size, removed, h.counted, h.in_budget) in
      let done =
        evict_holds (l.len r.1) c.budget
          record { map = r.1; bytes = (c.inner.bytes - size_of r.0 + length arc) % 2 ^ 64 }
          (omega (arith, laws.len_lem r.1)) counter in
      record { counted = done.0; in_budget = done.1 }

  store_holds :
      (c : ContentCache l) (hash : ℕ) (arc : List ℕ)
      → c.budget < 2 ^ 63
      → CacheHolds c
      → CacheHolds (store l c hash arc)
  unfolding store
  store_holds c hash arc small h = elim (Bool-cases (leb (length arc) c.budget)) [
    | inl e ↦ rw e (put_done_holds c hash arc small (ground arith) h)
    | inr e ↦ rw e h
  ]

  store_budget :
      (c : ContentCache l) (hash : ℕ) (arc : List ℕ) → (store l c hash arc).budget ≡ c.budget
  unfolding store put_done
  store_budget c hash arc = elim (Bool-cases (leb (length arc) c.budget)) [
    | inl e ↦ rw e refl
    | inr e ↦ rw e refl
  ]

  hit_or_read_holds :
      (c : ContentCache l) (hash : ℕ) (read cached : Option (List ℕ))
      → c.budget < 2 ^ 63
      → CacheHolds c
      → CacheHolds (hit_or_read l c hash read cached).1
        × ((hit_or_read l c hash read cached).1.budget ≡ c.budget)
  unfolding hit_or_read
  hit_or_read_holds c hash read (some v) small h = (h, refl)
  hit_or_read_holds c hash none none small h = (h, refl)
  hit_or_read_holds c hash (some arc) none small h =
      (store_holds c hash arc small h, store_budget c hash arc)

  pub get_or_read_holds :
      (c : ContentCache l) (hash : ℕ) (read : Option (List ℕ))
      → c.budget < 2 ^ 63
      → CacheHolds c
      → CacheHolds (get_or_read l c hash read).1 × ((get_or_read l c hash read).1.budget ≡ c.budget)
  unfolding get_or_read
  get_or_read_holds c hash read small h =
      let same : total (laws.entries (l.get c.inner.map hash).1)
          ≡ total (laws.entries c.inner.map) =
        ap total (laws.get_entries c.inner.map hash)
        ∙ total-touch hash (lookup hash (laws.entries c.inner.map)) (laws.entries c.inner.map)
            refl in
      hit_or_read_holds (seen l c hash) hash read (l.get c.inner.map hash).0 small
        record { counted = h.counted ∙ sym same; in_budget = h.in_budget }

-- A request: the hash, and what reading the path would give.
abbrev pub Request : Type 0
Request = ℕ × Option (List ℕ)

-- the cache after some requests
abbrev pub after : (l : Lru) → ContentCache l → List Request → ContentCache l
after l c [] = c
after l c ((hash, read) ∷ qs) = after l (get_or_read l c hash read).1 qs

after_holds :
    (l : Lru) (laws : LruLaws l) (c : ContentCache l) (qs : List Request)
    → c.budget < 2 ^ 63
    → CacheHolds l laws c
    → CacheHolds l laws (after l c qs) × ((after l c qs).budget ≡ c.budget)
after_holds l laws c [] small h = (h, refl)
after_holds l laws c ((hash, read) ∷ qs) small h =
    let (next, same) = get_or_read_holds l laws c hash read small h in
    let (last, same') = after_holds l laws (get_or_read l c hash read).1 qs (rw same small) next in
    (last, same' ∙ same)

-- After any requests to a new cache, the bytes that it counts are those of its entries, and within
-- the budget that it was made with, which is at least one byte. The budget is below half of the
-- range of 64 bits, and the map is a least-recently-used map.
pub after-new_cache :
    (l : Lru) (laws : LruLaws l) (budget : ℕ) (qs : List Request)
    → budget < 2 ^ 63
    → ((after l (new_cache l budget) qs).inner.bytes
        ≡ total (laws.entries (after l (new_cache l budget) qs).inner.map))
      × (total (laws.entries (after l (new_cache l budget) qs).inner.map) ≤ max budget 1)
unfolding new_cache
after-new_cache l laws budget qs small =
    let empty : 0 ≡ total (laws.entries l.unbounded) =
      sym (ap total laws.unbounded_lem ∙ unfold total in refl) in
    let (h, same) =
      after_holds l laws (new_cache l budget) qs (omega arith)
        record { counted = empty; in_budget = omega arith } in
    (h.counted, omega (arith, h.counted, h.in_budget, same))
