-- ===== src/Cache.antt =====
-- tools/cache/cache.py: the cache that stores nothing and the in-process LRU cache. An OrderedDict is
-- the list of its items, the first one least recently used.
pub mod Recency
use vector_retrieval_optimiz.Prelude.{
  ℕ, ◌+◌, ◌*◌, suc, Bool, true, false, not, String, List, [], ◌∷◌, ◌++◌, Option, none, some, Result,
  ok, value_error, guard, ◌>>=◌, ◌>>◌, ltb, if◌then◌else◌, length, str_eq,
}

-- VECTOR_BYTES
abbrev pub vector_bytes : ℕ
vector_bytes = 384 * 4

pub record Stats : Type 0 where
  pub hits : ℕ
  pub misses : ℕ
  pub evictions : ℕ
  pub entries : ℕ
  pub bytes : ℕ

pub record NoCache : Type 0 where
  pub missed : ℕ

unfoldable pub miss_always : NoCache → NoCache
miss_always cache = record { missed = cache.missed + 1 }

unfoldable pub no_stats : NoCache → Stats
no_stats cache = record { hits = 0; misses = cache.missed; evictions = 0; entries = 0; bytes = 0 }

module _ {V : Type 0} where
  -- data.get(key)
  unfoldable pub find : String → List (String × V) → Option V
  find key [] = none
  find key ((k, v) ∷ items) = if str_eq k key then some v else find key items

  unfoldable pub without : String → List (String × V) → List (String × V)
  without key [] = []
  without key ((k, v) ∷ items) =
      let rest = without key items in if str_eq k key then rest else (k, v) ∷ rest

  -- data.move_to_end(key), for a key that may be there
  unfoldable pub move_to_end : String → List (String × V) → List (String × V)
  move_to_end key items = elim (find key items) [
    | none ↦ items
    | some v ↦ without key items ++ (key, v) ∷ []
  ]

  -- data[key] = vector
  unfoldable pub assign : String → V → List (String × V) → List (String × V)
  assign key vector [] = (key, vector) ∷ []
  assign key vector ((k, v) ∷ items) =
      let rest = assign key vector items in
      if str_eq k key then (k, vector) ∷ items else (k, v) ∷ rest

  -- the loop that pops first items, with the number that it pops
  unfoldable pub evict : ℕ → List (String × V) → List (String × V) × ℕ
  evict capacity [] = ([], 0)
  evict capacity (item ∷ items) =
      let (rest, popped) = evict capacity items in
      if ltb capacity (suc (length items)) then (rest, suc popped) else (item ∷ items, 0)

pub record LruCache (V : Type 0) : Type 0 where
  pub capacity : ℕ
  pub items : List (String × V)
  pub hits : ℕ
  pub misses : ℕ
  pub evictions : ℕ

module _ {V : Type 0} where
  unfoldable pub new_lru : ℕ → Result (LruCache V)
  new_lru capacity = do
    guard (not (ltb capacity 1)) value_error
    ok (record { capacity = capacity; items = []; hits = 0; misses = 0; evictions = 0 })

  unfoldable pub get : LruCache V → String → Option V × LruCache V
  get cache key = elim (find key cache.items) [
    | none ↦ (none, record cache { misses = cache.misses + 1 })
    | some v ↦ (some v, record cache { items = move_to_end key cache.items; hits = cache.hits + 1 })
  ]

  -- `as_float32` is `np.asarray(vector, dtype=np.float32)`, from whatever the caller gives
  unfoldable pub put : {W : Type 0} → (W → V) → LruCache V → String → W → LruCache V
  put as_float32 cache key vector =
      let (kept, popped) =
        evict cache.capacity (assign key (as_float32 vector) (move_to_end key cache.items)) in
      record cache { items = kept; evictions = cache.evictions + popped }

  unfoldable pub stats : LruCache V → Stats
  stats cache = record {
    hits = cache.hits;
    misses = cache.misses;
    evictions = cache.evictions;
    entries = length cache.items;
    bytes = length cache.items * vector_bytes;
  }
