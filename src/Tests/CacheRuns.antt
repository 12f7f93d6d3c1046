-- ===== src/Tests/CacheRuns.antt =====
-- An LRU cache of two vectors.
use vector_retrieval_optimiz.Prelude.{
  ℕ, ◌+◌, ◌/◌, ◌≤◌, ◌≡◌, refl, [], ◌∷◌, ◌++◌, some, length, drop, arith,
}
use vector_retrieval_optimiz.Cache.{find, without, move_to_end, assign, evict, LruCache, get, put}
use vector_retrieval_optimiz.Cache.Recency.{excess, put-recency, get-put}

-- a conversion that loses a part of its argument
abbrev halved : ℕ → ℕ
halved x = x / 2

abbrev full : LruCache ℕ
full = record {
  capacity = 2;
  items = ("a", 1) ∷ ("b", 2) ∷ [];
  hits = 0;
  misses = 2;
  evictions = 0;
}

-- "a" was used last, so that "b" goes
put_test : (put halved (get full "a").1 "c" 7).items ≡ ("a", 1) ∷ ("c", 3) ∷ []
unfolding get put find without move_to_end assign evict
put_test = refl

put-recency_example : put halved full "c" 7 ≡ record full {
  items = drop (excess full "c") (without "c" full.items) ++ ("c", 3) ∷ [];
  evictions = full.evictions + excess full "c";
}
put-recency_example = put-recency halved full "c" 7 (omega arith)

get-put_example :
    (length (put halved full "c" 7).items ≤ full.capacity)
    × ((get (put halved full "c" 7) "c").0 ≡ some 3)
get-put_example = get-put halved full "c" 7 (omega arith)
