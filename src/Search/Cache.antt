-- ===== src/Search/Cache.antt =====
-- `ContentCache` of crates/greplm-core/src/search.rs. The crate lru is a parameter; the file system is
-- the result of a read, and the lock is never poisoned.
pub mod Budget
pub mod Content
use greplm.Common.{
  ℕ, zero, suc, ◌+◌, ◌-◌, ◌%◌, ◌^◌, ◌≡◌, max, Bool, true, false, Option, none, some, List, [], ◌∷◌,
  ◌++◌, ◌==◌, ltb, leb, if◌then◌else◌, length,
}

-- `lru::LruCache`: the operations return the map that they leave.
pub record Lru : Type 1 where
  pub Map : Type 0
  pub unbounded : Map
  pub len : Map → ℕ
  pub get : Map → ℕ → Option (List ℕ) × Map
  pub put : Map → ℕ → List ℕ → Option (List ℕ) × Map
  pub pop_lru : Map → Option ((ℕ × List ℕ) × Map)

abbrev pub lookup : ℕ → List (ℕ × List ℕ) → Option (List ℕ)
lookup k [] = none
lookup k ((j, v) ∷ es) = if k == j then some v else lookup k es

abbrev pub remove : ℕ → List (ℕ × List ℕ) → List (ℕ × List ℕ)
remove k [] = []
remove k ((j, v) ∷ es) = if k == j then es else (j, v) ∷ remove k es

abbrev pub touch : ℕ → Option (List ℕ) → List (ℕ × List ℕ) → List (ℕ × List ℕ)
touch k none es = es
touch k (some v) es = (k, v) ∷ remove k es

-- The documented behaviour, by the entries from the most to the least recently used.
pub record LruLaws (l : Lru) : Type 0 where
  pub entries : l.Map → List (ℕ × List ℕ)
  pub unbounded_lem : entries l.unbounded ≡ []
  pub len_lem : (m : l.Map) → l.len m ≡ length (entries m)
  pub get_value : (m : l.Map) (k : ℕ) → (l.get m k).0 ≡ lookup k (entries m)
  pub get_entries :
      (m : l.Map) (k : ℕ) → entries (l.get m k).1 ≡ touch k (lookup k (entries m)) (entries m)
  pub put_value : (m : l.Map) (k : ℕ) (v : List ℕ) → (l.put m k v).0 ≡ lookup k (entries m)
  pub put_entries :
      (m : l.Map) (k : ℕ) (v : List ℕ) → entries (l.put m k v).1 ≡ (k, v) ∷ remove k (entries m)
  pub pop_none : (m : l.Map) → l.pop_lru m ≡ none → entries m ≡ []
  pub pop_some :
      (m rest : l.Map) (e : ℕ × List ℕ)
      → l.pop_lru m ≡ some (e, rest)
      → entries m ≡ entries rest ++ e ∷ []

pub record CacheInner (l : Lru) : Type 0 where
  pub map : l.Map
  pub bytes : ℕ

pub record ContentCache (l : Lru) : Type 0 where
  pub inner : CacheInner l
  pub budget : ℕ

abbrev pub size_of : Option (List ℕ) → ℕ
size_of none = 0
size_of (some v) = length v

module _ (l : Lru) where
  unfoldable pub new_cache : ℕ → ContentCache l
  new_cache budget_bytes = record {
    inner = record { map = l.unbounded; bytes = 0 };
    budget = max budget_bytes 1;
  }

  -- the `while` that evicts: the number of entries is enough fuel
  unfoldable pub evict : ℕ → ℕ → CacheInner l → CacheInner l
  evict zero budget inner = inner
  evict (suc fuel) budget inner =
      if leb inner.bytes budget then inner else elim (l.pop_lru inner.map) [
        | none ↦ inner
        | some p ↦ evict fuel budget record { map = p.1; bytes = inner.bytes - length p.0.1 }
      ]

  -- the cache after `put`, with the entry that it replaced and the map that it left
  unfoldable pub put_done : ContentCache l → List ℕ → Option (List ℕ) × l.Map → ContentCache l
  unfolding evict
  put_done c arc (prev, map) = record {
    inner =
        evict (l.len map) c.budget
          record { map = map; bytes = (c.inner.bytes - size_of prev + length arc) % 2 ^ 64 };
    budget = c.budget;
  }

  -- the second critical section: the file that was read is put, and others are evicted
  unfoldable pub store : ContentCache l → ℕ → List ℕ → ContentCache l
  unfolding put_done
  store c hash arc =
      if leb (length arc) c.budget then put_done c arc (l.put c.inner.map hash arc) else c

  -- after the first critical section: what was cached, or else what is read
  unfoldable pub hit_or_read :
      ContentCache l → ℕ → Option (List ℕ) → Option (List ℕ) → Option (List ℕ) × ContentCache l
  unfolding store
  hit_or_read c hash read (some v) = (some v, c)
  hit_or_read c hash none none = (none, c)
  hit_or_read c hash (some arc) none = (some arc, store c hash arc)

  -- the cache with the map that `get` left
  abbrev pub seen : ContentCache l → ℕ → ContentCache l
  seen c hash = record {
    inner = record { map = (l.get c.inner.map hash).1; bytes = c.inner.bytes };
    budget = c.budget;
  }

  -- `get_or_read`; `read` is what reading the path gives
  unfoldable pub get_or_read :
      ContentCache l → ℕ → Option (List ℕ) → Option (List ℕ) × ContentCache l
  unfolding hit_or_read
  get_or_read c hash read = hit_or_read (seen c hash) hash read (l.get c.inner.map hash).0
