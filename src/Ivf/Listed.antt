-- ===== src/Ivf/Listed.antt =====
-- `build` and `_set_lists` give listed indexes: the labels that the offsets stand for are those of the
-- IDs, list by list.
use vector_retrieval_optimiz.Prelude.{
  ℕ, ◌+◌, ◌-◌, zero, suc, ◌<◌, ◌≤◌, ◌≡◌, refl, sym, ap, ◌∙◌, Bool, true, false, List, [], ◌∷◌, map,
  ltb, ◌==◌, ◌||◌, ◌&&◌, length, length-map, get_or, filter, All, All-map, All-everywhere, arith,
  range_from, dec_lt, ==_iff,
}
use vector_retrieval_optimiz.Prelude.Arrays.{
  cumsum_from, bincount_from, diff, repeat_from, filter-map, get_or-map,
}
use vector_retrieval_optimiz.Prelude.Ranges.{range_from-bound}
use vector_retrieval_optimiz.Prelude.Sorting.{Sorted}
use vector_retrieval_optimiz.Numpy.{label_id_lt}
use vector_retrieval_optimiz.Ivf.{Index, offsets_of, labels_of}
use vector_retrieval_optimiz.Ivf.Lists.{count_at}

pub diff-cumsum_from : (a : ℕ) (xs : List ℕ) → diff (a ∷ cumsum_from a xs) ≡ xs
diff-cumsum_from a [] = refl
diff-cumsum_from a (x ∷ xs) = cc (diff-cumsum_from (a + x) xs, omega-step)
  where
    omega-step : a + x - a ≡ x
    omega-step = omega arith

bincount_from-skip :
    (b n x : ℕ) (xs : List ℕ) → x < b → bincount_from b n (x ∷ xs) ≡ bincount_from b n xs
unfolding bincount_from
bincount_from-skip b zero x xs h = refl
bincount_from-skip b (suc n) x xs h =
    ground (arith, bincount_from-skip (suc b) n x xs (omega arith))

bincount_from-cong :
    (b n : ℕ) (xs ys : List ℕ)
    → ((p : ℕ → Bool) → length (filter p xs) ≡ length (filter p ys))
    → bincount_from b n xs ≡ bincount_from b n ys
unfolding bincount_from
bincount_from-cong b zero xs ys h = refl
bincount_from-cong b (suc n) xs ys h = cc (h (λ l. l == b), bincount_from-cong (suc b) n xs ys h)

repeat_from-none : (b n : ℕ) → repeat_from b (bincount_from b n []) ≡ []
unfolding bincount_from
repeat_from-none b zero = refl
repeat_from-none b (suc n) = repeat_from-none (suc b) n

none_equal :
    (b x : ℕ) (xs : List ℕ)
    → b < x
    → All (λ y. ltb y x ≡ false) xs
    → length (filter (λ l. l == b) xs) ≡ 0
none_equal b x [] h k = refl
none_equal b x (y ∷ ys) h k = ground (arith, k.0, none_equal b x ys h k.1)

-- Repeating every label by its count gives back a sorted list of labels.
repeat_from-bincount :
    (b n : ℕ) (xs : List ℕ)
    → Sorted (λ x y. ltb x y) xs
    → All (λ x. b ≤ x) xs
    → All (λ x. x < b + n) xs
    → repeat_from b (bincount_from b n xs) ≡ xs
unfolding bincount_from
repeat_from-bincount b n [] s l u = repeat_from-none b n
repeat_from-bincount b zero (x ∷ xs) s l u = absurd (omega (arith, l.0, u.0))
repeat_from-bincount b (suc n) (x ∷ xs) s l u = elim (dec_lt b x) [
  | yes above ↦
      let none : length (filter (λ y. y == b) (x ∷ xs)) ≡ 0 =
        none_equal b x (x ∷ xs) above (ground arith, s.0) in
      rw none (
        repeat_from-bincount (suc b) n (x ∷ xs) s
          (omega arith, All-map (λ y k. ground (arith)) xs s.0)
          (omega (arith, u.0), All-map (λ y k. omega arith) xs u.1))
  | no same ↦
      let e : x ≡ b = omega (arith, l.0) in
      let t : (x == b) ≡ true = (==_iff x b).1 e in
      rw (t, bincount_from-skip (suc b) n x xs (omega (arith, e)))
        (cc (e, repeat_from-bincount b (suc n) xs s.1 l.1 u.1))
]

All-map_of : (P : ℕ → Type 0) (f : ℕ → ℕ) (xs : List ℕ) → All (λ x. P (f x)) xs → All P (map f xs)
All-map_of P f [] h = tt
All-map_of P f (x ∷ xs) h = (h.0, All-map_of P f xs h.1)

Sorted-map :
    (lt : ℕ → ℕ → Bool) (f : ℕ → ℕ) (xs : List ℕ)
    → Sorted (λ i j. lt (f i) (f j)) xs
    → Sorted lt (map f xs)
Sorted-map lt f [] h = tt
Sorted-map lt f (x ∷ xs) h = (All-map_of (λ y. lt y (f x) ≡ false) f xs h.0, Sorted-map lt f xs h.1)

Sorted-mono :
    (lt lt' : ℕ → ℕ → Bool) (xs : List ℕ)
    → ((i j : ℕ) → lt i j ≡ false → lt' i j ≡ false)
    → Sorted lt xs
    → Sorted lt' xs
Sorted-mono lt lt' [] f h = tt
Sorted-mono lt lt' (x ∷ xs) f h = (All-map (λ y k. f y x k) xs h.0, Sorted-mono lt lt' xs f h.1)

-- A sorted list, read through its positions.
All-positions :
    (P : ℕ → Type 0) (f : ℕ → ℕ) (a : ℕ) (xs : List ℕ)
    → ((j : ℕ) → j < length xs → f (a + j) ≡ get_or xs j 0)
    → All P xs
    → All (λ i. P (f i)) (range_from a (length xs))
All-positions P f a [] e h = tt
All-positions P f a (x ∷ xs) e h =
    let here : f a ≡ x = ap f (omega arith) ∙ e 0 (omega arith) in
    (
      rw here h.0,
      All-positions P f (suc a) xs (λ j k. ap f (omega arith) ∙ e (suc j) (omega arith)) h.1,
    )

Sorted-positions :
    (lt : ℕ → ℕ → Bool) (f : ℕ → ℕ) (a : ℕ) (xs : List ℕ)
    → ((j : ℕ) → j < length xs → f (a + j) ≡ get_or xs j 0)
    → Sorted lt xs
    → Sorted (λ i j. lt (f i) (f j)) (range_from a (length xs))
Sorted-positions lt f a [] e h = tt
Sorted-positions lt f a (x ∷ xs) e h =
    let here : f a ≡ x = ap f (omega arith) ∙ e 0 (omega arith) in
    let next =
      λ (j : ℕ) (k : j < length xs). ap f {y = a + suc j} (omega arith) ∙ e (suc j) (omega arith) in
    (
      rw here (All-positions (λ y. lt y x ≡ false) f (suc a) xs next h.0),
      Sorted-positions lt f (suc a) xs next h.1,
    )

module _ (lt lt' : ℕ → ℕ → Bool) (m : ℕ) (same : (i j : ℕ) → i < m → j < m → lt i j ≡ lt' i j) where
  All-below :
      (x : ℕ) (xs : List ℕ)
      → x < m
      → All (λ i. i < m) xs
      → All (λ y. lt y x ≡ false) xs
      → All (λ y. lt' y x ≡ false) xs
  All-below x [] h k s = tt
  All-below x (y ∷ ys) h k s = (sym (same y x k.0 h) ∙ s.0, All-below x ys h k.1 s.1)

  Sorted-below : (xs : List ℕ) → All (λ i. i < m) xs → Sorted lt xs → Sorted lt' xs
  Sorted-below [] k s = tt
  Sorted-below (x ∷ xs) k s = (All-below x xs k.0 k.1 s.0, Sorted-below xs k.1 s.1)

-- An order of the rows that is sorted by (label, ID), cut at the counts of the labels, is listed.
module _ (V : Type 0) (index : Index V) (labels order : List ℕ) (id : ℕ → ℕ)
    (counts : (p : ℕ → Bool)
      → length (filter p order) ≡ length (filter p (range_from 0 (length labels))))
    (in_range : All (λ l. l < index.nlist) (map (λ i. get_or labels i 0) order))
    (sorted : Sorted
      (λ i j.
        ltb (get_or labels i 0) (get_or labels j 0)
        || (get_or labels i 0 == get_or labels j 0 && ltb (id i) (id j)))
      order) where
  abbrev pub of_order : List ℕ
  of_order = map (λ i. get_or labels i 0) order

  same_counts : bincount_from 0 index.nlist labels ≡ bincount_from 0 index.nlist of_order
  same_counts = bincount_from-cong 0 index.nlist labels of_order (λ p.
      sym (count_at p labels)
      ∙ sym (counts (λ i. p (get_or labels i 0)))
      ∙ sym (length-map (λ i. get_or labels i 0) (filter (λ i. p (get_or labels i 0)) order))
      ∙ ap (length {A = ℕ}) (sym (filter-map p (λ i. get_or labels i 0) order)))

  pub offsets_of_order : offsets_of index.nlist labels ≡ offsets_of index.nlist of_order
  unfolding offsets_of
  offsets_of_order = ap (λ (counted : List ℕ). 0 ∷ cumsum_from 0 counted) same_counts

  pub labels_of_order : labels_of (offsets_of index.nlist labels) ≡ of_order
  unfolding labels_of offsets_of
  labels_of_order =
      ap (repeat_from 0) (diff-cumsum_from 0 (bincount_from 0 index.nlist labels) ∙ same_counts)
      ∙ repeat_from-bincount 0 index.nlist of_order
          (Sorted-map (λ x y. ltb x y) (λ i. get_or labels i 0) order
            (Sorted-mono _ _ order (λ i j h. ground arith) sorted))
          (All-everywhere _ (λ l. omega arith) of_order)
          (All-map (λ l h. omega arith) of_order in_range)

  pub Sorted-order : Sorted (label_id_lt (map id order) of_order) (range_from 0 (length order))
  Sorted-order =
      let at = λ (j : ℕ). get_or order j 0 in
      let r = range_from 0 (length order) in
      Sorted-below _ _ (length order)
        (λ i j h k. cc (
          get_or-map (λ i. get_or labels i 0) order i 0 0 h,
          get_or-map (λ i. get_or labels i 0) order j 0 0 k,
          get_or-map id order i 0 0 h,
          get_or-map id order j 0 0 k,
        ))
        r (range_from-bound 0 (length order) (length order) (omega arith))
        (Sorted-positions _ at 0 order (λ j h. ap at (omega arith)) sorted)
