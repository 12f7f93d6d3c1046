-- ===== src/Cache/Recency.antt =====
-- What the LRU cache keeps: the items in order of their last use, cut to the capacity from the front.
use vector_retrieval_optimiz.Prelude.{
  ℕ, ◌+◌, ◌-◌, zero, suc, ◌≤◌, ◌≡◌, refl, sym, ◌∙◌, false, String, List, [], ◌∷◌, ◌++◌, none, some,
  ltb, length, length-append, length-drop, drop, str_eq, eq_iff, arith, Option-cases, Bool-cases,
  inl, inr,
}
use vector_retrieval_optimiz.Cache.{find, without, move_to_end, assign, evict, LruCache, get, put}

module _ {V : Type 0} where
  find-without : (key : String) (items : List (String × V)) → find key (without key items) ≡ none
  unfolding find without
  find-without key [] = refl
  find-without key ((k, v) ∷ items) = ground (arith, find-without key items)

  without_absent :
      (key : String) (items : List (String × V)) → find key items ≡ none → without key items ≡ items
  unfolding find without
  without_absent key [] h = refl
  without_absent key ((k, v) ∷ items) h = ground (arith, without_absent key items)

  assign_last :
      (key : String) (vector w : V) (items : List (String × V))
      → find key items ≡ none
      → assign key vector (items ++ (key, w) ∷ []) ≡ items ++ (key, vector) ∷ []
  unfolding find assign
  assign_last key vector w [] h = ground (arith, eq_iff key key)
  assign_last key vector w ((k, v) ∷ items) h = ground (arith, assign_last key vector w items)

  assign_new :
      (key : String) (vector : V) (items : List (String × V))
      → find key items ≡ none
      → assign key vector items ≡ items ++ (key, vector) ∷ []
  unfolding find assign
  assign_new key vector [] h = refl
  assign_new key vector ((k, v) ∷ items) h = ground (arith, assign_new key vector items)

  assigned :
      (key : String) (vector : V) (items : List (String × V))
      → assign key vector (move_to_end key items) ≡ without key items ++ (key, vector) ∷ []
  unfolding move_to_end assign without
  assigned key vector items = elim (Option-cases (find key items)) [
    | inl new ↦
        rw (move_to_end, new, without_absent key items new) (assign_new key vector items new)
    | inr (w, old) ↦
        rw (move_to_end, old)
          (assign_last key vector w (without key items) (find-without key items))
  ]

  evict-drop :
      (capacity : ℕ) (items : List (String × V))
      → evict capacity items ≡ (drop (length items - capacity) items, length items - capacity)
  unfolding evict
  evict-drop capacity [] = let z : 0 - capacity ≡ 0 = omega arith in rw z refl
  evict-drop capacity (item ∷ items) = elim (Bool-cases (ltb capacity (suc (length items)))) [
    | inl over ↦
        let e : suc (length items) - capacity ≡ suc (length items - capacity) = ground arith in
        rw (over, e, evict-drop capacity items) refl
    | inr fits ↦ let z : suc (length items) - capacity ≡ 0 = ground arith in rw (fits, z) refl
  ]

  drop-append :
      (n : ℕ) (xs ys : List (String × V)) → n ≤ length xs → drop n (xs ++ ys) ≡ drop n xs ++ ys
  drop-append zero xs ys h = refl
  drop-append (suc n) [] ys h = absurd (omega arith)
  drop-append (suc n) (x ∷ xs) ys h = drop-append n xs ys (omega arith)

  find-drop :
      (key : String) (n : ℕ) (items : List (String × V))
      → find key items ≡ none
      → find key (drop n items) ≡ none
  unfolding find
  find-drop key zero items h = h
  find-drop key (suc n) [] h = refl
  find-drop key (suc n) ((k, v) ∷ items) h = find-drop key n items (ground arith)

  find-last :
      (key : String) (v : V) (items : List (String × V))
      → find key items ≡ none
      → find key (items ++ (key, v) ∷ []) ≡ some v
  unfolding find
  find-last key v [] h = ground (arith, eq_iff key key)
  find-last key v ((k, w) ∷ items) h = ground (arith, find-last key v items)

  -- how many items a `put` evicts
  abbrev pub excess : LruCache V → String → ℕ
  excess cache key = suc (length (without key cache.items)) - cache.capacity

  -- After a `put` of capacity at least one, the items are those of the other keys in their order of
  -- use, less the least recently used ones in excess of the capacity, with the new item at the end;
  -- the evicted items are counted and the hits and misses stay.
  pub put-recency :
      {W : Type 0} (as_float32 : W → V) (cache : LruCache V) (key : String) (vector : W)
      → 1 ≤ cache.capacity
      → put as_float32 cache key vector ≡ record cache {
        items = drop (excess cache key) (without key cache.items) ++ (key, as_float32 vector) ∷ [];
        evictions = cache.evictions + excess cache key;
      }
  unfolding put
  put-recency as_float32 cache key vector h =
      let others = without key cache.items in
      let last = (key, as_float32 vector) ∷ [] in
      let l : length (others ++ last) ≡ suc (length others) =
        omega (arith, length-append others last) in
      rw
        (
          assigned key (as_float32 vector) cache.items,
          evict-drop cache.capacity (others ++ last),
          l,
          drop-append (excess cache key) others last (omega arith),
        )
        refl

  find-append_other :
      (key other : String) (v : V) (items : List (String × V))
      → str_eq key other ≡ false
      → find other (items ++ (key, v) ∷ []) ≡ find other items
  unfolding find
  find-append_other key other v [] h = ground arith
  find-append_other key other v ((k, w) ∷ items) h =
      ground (arith, find-append_other key other v items h)

  find-without_other :
      (key other : String) (items : List (String × V))
      → str_eq key other ≡ false
      → find other (without key items) ≡ find other items
  unfolding find without
  find-without_other key other [] h = refl
  find-without_other key other ((k, v) ∷ items) h =
      ground (arith, find-without_other key other items h, eq_iff k key)

  find-move_to_end :
      (key other : String) (items : List (String × V))
      → find other (move_to_end key items) ≡ find other items
  unfolding move_to_end find
  find-move_to_end key other items = elim (Option-cases (find key items)) [
    | inl new ↦ rw (move_to_end, new) refl
    | inr (v, old) ↦ elim (Bool-cases (str_eq key other)) [
      | inl same ↦
          let e : key ≡ other = (eq_iff key other).0 same in
          rw (move_to_end, old, ← e)
            (find-last key v (without key items) (find-without key items) ∙ sym old)
      | inr apart ↦
          rw (move_to_end, old)
            (find-append_other key other v (without key items) apart
              ∙ find-without_other key other items apart)
    ]
  ]

  get-find : (cache : LruCache V) (key : String) → (get cache key).0 ≡ find key cache.items
  unfolding get
  get-find cache key = elim (Option-cases (find key cache.items)) [
    | inl new ↦ rw (get, new) refl
    | inr (v, old) ↦ rw (get, old) refl
  ]

  items-get :
      (cache : LruCache V) (key other : String)
      → find other (get cache key).1.items ≡ find other cache.items
  unfolding get
  items-get cache key other = elim (Option-cases (find key cache.items)) [
    | inl new ↦ rw (get, new) refl
    | inr (v, old) ↦ rw (get, old) (find-move_to_end key other cache.items)
  ]

  counts-get :
      (cache : LruCache V) (key : String)
      → (get cache key).1.hits + (get cache key).1.misses ≡ cache.hits + cache.misses + 1
  unfolding get
  counts-get cache key = elim (Option-cases (find key cache.items)) [
    | inl new ↦ rw (get, new) (omega arith)
    | inr (v, old) ↦ rw (get, old) (omega arith)
  ]

  -- A `get` returns what is stored under the key, changes only the order of the items, so that a
  -- later `get` of any key returns the same as without it, and counts one hit or one miss.
  pub get-contents :
      (cache : LruCache V) (key other : String)
      → ((get cache key).0 ≡ find key cache.items)
        × ((get (get cache key).1 other).0 ≡ (get cache other).0)
        × ((get cache key).1.hits + (get cache key).1.misses ≡ cache.hits + cache.misses + 1)
  get-contents cache key other = (
    get-find cache key,
    get-find (get cache key).1 other ∙ items-get cache key other ∙ sym (get-find cache other),
    counts-get cache key,
  )

  -- A `put` of capacity at least one never leaves more items than the capacity, and a `get` of the
  -- same key then returns the vector as a float32 array.
  pub get-put :
      {W : Type 0} (as_float32 : W → V) (cache : LruCache V) (key : String) (vector : W)
      → 1 ≤ cache.capacity
      → (length (put as_float32 cache key vector).items ≤ cache.capacity)
        × ((get (put as_float32 cache key vector) key).0 ≡ some (as_float32 vector))
  get-put as_float32 cache key vector h =
      let others = without key cache.items in
      let kept = drop (excess cache key) others in
      let found =
        find-last key (as_float32 vector) kept
          (find-drop key (excess cache key) others (find-without key cache.items)) in
      rw (put-recency as_float32 cache key vector h) (
        omega (
          arith,
          length-append kept ((key, as_float32 vector) ∷ []),
          length-drop (excess cache key) others,
        ),
        get-find _ key ∙ found,
      )
