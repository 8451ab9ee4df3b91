-- ===== src/Search/Cache/Content.antt =====
-- What `ContentCache` of crates/greplm-core/src/search.rs returns for a hash.
use greplm.Common.{
  ℕ, zero, suc, ◌-◌, ◌≡◌, refl, sym, subst, ◌∙◌, inl, inr, Option, none, some, List, [], ◌∷◌, ◌++◌,
  arith, ◌==◌, leb, Bool-cases, length,
}
use greplm.Search.Cache.{
  Lru, LruLaws, CacheInner, ContentCache, lookup, remove, touch, new_cache, evict, put_done, store,
  seen, hit_or_read, get_or_read,
}
use greplm.Search.Cache.Budget.{Request, after}

-- Every entry is the content that its hash names.
abbrev pub AllFrom : (ℕ → Option (List ℕ)) → List (ℕ × List ℕ) → Type 0
AllFrom source [] = Unit {0}
AllFrom source ((k, v) ∷ es) = (source k ≡ some v) × AllFrom source es

-- Every read that succeeds gives the content that its hash names.
abbrev pub ReadsAgree : (ℕ → Option (List ℕ)) → List Request → Type 0
ReadsAgree source [] = Unit {0}
ReadsAgree source ((hash, none) ∷ qs) = ReadsAgree source qs
ReadsAgree source ((hash, some v) ∷ qs) = (source hash ≡ some v) × ReadsAgree source qs

module _ (source : ℕ → Option (List ℕ)) where
  AllFrom-append : (xs ys : List (ℕ × List ℕ)) → AllFrom source (xs ++ ys) → AllFrom source xs
  AllFrom-append [] ys h = tt
  AllFrom-append ((k, v) ∷ xs) ys h = (h.0, AllFrom-append xs ys h.1)

  remove-AllFrom :
      (k : ℕ) (es : List (ℕ × List ℕ)) → AllFrom source es → AllFrom source (remove k es)
  remove-AllFrom k [] h = tt
  remove-AllFrom k ((j, v) ∷ es) h = elim (Bool-cases (k == j)) [
    | inl e ↦ rw e h.1
    | inr e ↦ rw e (h.0, remove-AllFrom k es h.1)
  ]

  lookup-AllFrom :
      (k : ℕ) (es : List (ℕ × List ℕ)) (v : List ℕ)
      → AllFrom source es
      → lookup k es ≡ some v
      → source k ≡ some v
  lookup-AllFrom k [] v h e = absurd (cc e)
  lookup-AllFrom k ((j, w) ∷ es) v h e = elim (Bool-cases (k == j)) [
    | inl same ↦
        let key : k ≡ j = ground arith in
        let value : some w ≡ some v = sym (rw same refl) ∙ e in rw key (h.0 ∙ value)
    | inr other ↦ lookup-AllFrom k es v h.1 (sym (rw other refl) ∙ e)
  ]

  touch-AllFrom :
      (k : ℕ) (o : Option (List ℕ)) (es : List (ℕ × List ℕ))
      → o ≡ lookup k es
      → AllFrom source es
      → AllFrom source (touch k o es)
  touch-AllFrom k none es e h = h
  touch-AllFrom k (some v) es e h = (lookup-AllFrom k es v h (sym e), remove-AllFrom k es h)

module _ (l : Lru) (laws : LruLaws l) (source : ℕ → Option (List ℕ)) where
  abbrev Right : l.Map → Type 0
  Right m = AllFrom source (laws.entries m)

  popped-Right :
      (fuel budget : ℕ) (i : CacheInner l) (o : Option ((ℕ × List ℕ) × l.Map))
      → l.pop_lru i.map ≡ o
      → Right i.map
      → ((j : CacheInner l) → Right j.map → Right (evict l fuel budget j).map)
      → Right
          (elim o as (λ x. CacheInner l) [
            | none ↦ i
            | some p ↦ evict l fuel budget record { map = p.1; bytes = i.bytes - length p.0.1 }
          ]).map
  popped-Right fuel budget i none e h rest = h
  popped-Right fuel budget i (some ((k, v), left)) e h rest =
      rest record { map = left; bytes = i.bytes - length v }
        (AllFrom-append source (laws.entries left) ((k, v) ∷ [])
          (subst (AllFrom source) (laws.pop_some i.map left (k, v) e) h))

  evict-Right :
      (fuel budget : ℕ) (i : CacheInner l) → Right i.map → Right (evict l fuel budget i).map
  unfolding evict
  evict-Right zero budget i h = h
  evict-Right (suc fuel) budget i h = elim (Bool-cases (leb i.bytes budget)) [
    | inl e ↦ rw e h
    | inr e ↦ rw e (popped-Right fuel budget i (l.pop_lru i.map) refl h (evict-Right fuel budget))
  ]

  store-Right :
      (c : ContentCache l) (hash : ℕ) (arc : List ℕ)
      → source hash ≡ some arc
      → Right c.inner.map
      → Right (store l c hash arc).inner.map
  unfolding store put_done
  store-Right c hash arc e h = elim (Bool-cases (leb (length arc) c.budget)) [
    | inr big ↦ rw big h
    | inl fits ↦ rw fits (
        evict-Right _ c.budget _ (
          subst (AllFrom source) (sym (laws.put_entries c.inner.map hash arc))
            (e, remove-AllFrom source hash (laws.entries c.inner.map) h)))
  ]

  seen-Right : (c : ContentCache l) (hash : ℕ) → Right c.inner.map → Right (seen l c hash).inner.map
  seen-Right c hash h = subst (AllFrom source) (sym (laws.get_entries c.inner.map hash)) (
      touch-AllFrom source hash (lookup hash (laws.entries c.inner.map)) (laws.entries c.inner.map)
        refl h)

  hit-Right :
      (c : ContentCache l) (hash : ℕ) (read cached : Option (List ℕ))
      → ReadsAgree source ((hash, read) ∷ [])
      → Right c.inner.map
      → Right (hit_or_read l c hash read cached).1.inner.map
  unfolding hit_or_read
  hit-Right c hash read (some v) agree h = h
  hit-Right c hash none none agree h = h
  hit-Right c hash (some arc) none agree h = store-Right c hash arc agree.0 h

  after-Right :
      (c : ContentCache l) (qs : List Request)
      → ReadsAgree source qs
      → Right c.inner.map
      → Right (after l c qs).inner.map
  unfolding get_or_read
  after-Right c [] agree h = h
  after-Right c ((hash, none) ∷ qs) agree h =
      after-Right (get_or_read l c hash none).1 qs agree
        (hit-Right (seen l c hash) hash none (l.get c.inner.map hash).0 tt (seen-Right c hash h))
  after-Right c ((hash, some v) ∷ qs) agree h =
      after-Right (get_or_read l c hash (some v)).1 qs agree.1 (
        hit-Right (seen l c hash) hash (some v) (l.get c.inner.map hash).0 (agree.0, tt)
          (seen-Right c hash h))

  found_right :
      (c : ContentCache l) (hash : ℕ) (v : List ℕ) (cached : Option (List ℕ))
      → source hash ≡ some v
      → ((w : List ℕ) → cached ≡ some w → source hash ≡ some w)
      → (hit_or_read l c hash (some v) cached).0 ≡ some v
  unfolding hit_or_read
  found_right c hash v none e h = refl
  found_right c hash v (some w) e h = sym (h w refl) ∙ e

  -- If every read that succeeds gives the content that its hash names, then after any requests to a
  -- new cache a read that would succeed gives that content, from the cache or from the file. The map
  -- is a least-recently-used map.
  pub get_or_read-after :
      (budget : ℕ) (qs : List Request) (hash : ℕ) (v : List ℕ)
      → ReadsAgree source qs
      → source hash ≡ some v
      → (get_or_read l (after l (new_cache l budget) qs) hash (some v)).0 ≡ some v
  unfolding get_or_read new_cache
  get_or_read-after budget qs hash v agree e =
      let c = after l (new_cache l budget) qs in
      let right =
        after-Right (new_cache l budget) qs agree
          (subst (AllFrom source) (sym laws.unbounded_lem) tt) in
      found_right (seen l c hash) hash v (l.get c.inner.map hash).0 e (λ w found.
        lookup-AllFrom source hash (laws.entries c.inner.map) w right
          (sym (laws.get_value c.inner.map hash) ∙ found))
