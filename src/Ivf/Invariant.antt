-- ===== src/Ivf/Invariant.antt =====
-- `build`, `_set_lists` and `compact` give listed indexes.
use vector_retrieval_optimiz.Prelude.{
  ℕ, ◌+◌, zero, suc, ◌<◌, ◌≤◌, ◌≡◌, refl, sym, ap, ◌∙◌, Bool, true, false, List, [], ◌∷◌, map,
  Option, none, some, ltb, ◌==◌, ◌||◌, ◌&&◌, if◌then◌else◌, length, length-map, get_or, filter,
  replicate, All, All-map, All-append, arith, range_from,
}
use vector_retrieval_optimiz.Prelude.Arrays.{
  compress, bincount_from, repeat_from, length-filter-perm, map_id,
}
use vector_retrieval_optimiz.Prelude.Ranges.{range_from-bound}
use vector_retrieval_optimiz.Prelude.Sorting.{
  StrictWeak, Sorted, insert_by, sort_by, sort_by-perm, sort_by-Sorted, All-sort_by,
}
use vector_retrieval_optimiz.Numpy.{Numpy, label_lt, label_id_lt}
use vector_retrieval_optimiz.Ivf.{
  Index, offsets_of, labels_of, assign_all, build_lists, set_lists, drop_listed, compact,
}
use vector_retrieval_optimiz.Ivf.Lists.{label_id_lt-StrictWeak}
use vector_retrieval_optimiz.Ivf.Compaction.{IsListed}
use vector_retrieval_optimiz.Ivf.Search.{labels_bound}
use vector_retrieval_optimiz.Ivf.Listed.{
  offsets_of_order, labels_of_order, Sorted-order, diff-cumsum_from,
}

All-get_or : (P : ℕ → Type 0) (xs : List ℕ) (i : ℕ) → i < length xs → All P xs → P (get_or xs i 0)
All-get_or P [] i h a = elim h [ ]
All-get_or P (x ∷ xs) zero h a = a.0
All-get_or P (x ∷ xs) (suc i) h a = All-get_or P xs i (omega arith) a.1

All-read :
    (P : ℕ → Type 0) (xs is : List ℕ)
    → All P xs
    → All (λ i. i < length xs) is
    → All P (map (λ i. get_or xs i 0) is)
All-read P xs [] a h = tt
All-read P xs (i ∷ is) a h = (All-get_or P xs i h.0 a, All-read P xs is a h.1)

All-compress : (P : ℕ → Type 0) (xs : List ℕ) (ms : List Bool) → All P xs → All P (compress xs ms)
All-compress P [] ms a = tt
All-compress P (x ∷ xs) [] a = tt
All-compress P (x ∷ xs) (m ∷ ms) a =
    elim m as (λ b. All P (if b then x ∷ compress xs ms else compress xs ms)) [
      | true ↦ (a.0, All-compress P xs ms a.1)
      | false ↦ All-compress P xs ms a.1
    ]

All-replicate_lt : (n c k : ℕ) → c < k → All (λ l. l < k) (replicate n c)
All-replicate_lt zero c k h = tt
All-replicate_lt (suc n) c k h = (h, All-replicate_lt n c k h)

repeat_from-bound :
    (c k : ℕ) (ns : List ℕ) → c + length ns ≤ k → All (λ l. l < k) (repeat_from c ns)
repeat_from-bound c k [] h = tt
repeat_from-bound c k (n ∷ ns) h =
    All-append (λ l. l < k) (replicate n c) (repeat_from (suc c) ns)
      (All-replicate_lt n c k (omega arith)) (repeat_from-bound (suc c) k ns (omega arith))

length-bincount_from : (c n : ℕ) (labels : List ℕ) → length (bincount_from c n labels) ≡ n
unfolding bincount_from
length-bincount_from c zero labels = refl
length-bincount_from c (suc n) labels = ap suc (length-bincount_from (suc c) n labels)

labels_of-bound :
    (nlist : ℕ) (labels : List ℕ) → All (λ l. l < nlist) (labels_of (offsets_of nlist labels))
unfolding labels_of offsets_of
labels_of-bound nlist labels = rw (diff-cumsum_from 0 (bincount_from 0 nlist labels)) (
    repeat_from-bound 0 nlist (bincount_from 0 nlist labels)
      (omega (arith, length-bincount_from 0 nlist labels)))

-- A listed index from an order of the rows that is sorted by (label, ID).
module _ (np : Numpy) (index : Index np.Vec) (labels order : List ℕ) (id : ℕ → ℕ) where
  IsListed-order :
      index.list_ids ≡ map id order
      → index.offsets ≡ offsets_of index.nlist labels
      → ((p : ℕ → Bool)
          → length (filter p order) ≡ length (filter p (range_from 0 (length labels))))
      → All (λ i. i < length labels) order
      → All (λ l. l < index.nlist) labels
      → Sorted
          (λ i j.
            ltb (get_or labels i 0) (get_or labels j 0)
            || (get_or labels i 0 == get_or labels j 0 && ltb (id i) (id j)))
          order
      → IsListed np index
  IsListed-order ids offs counts bound low sorted =
      let inside = All-read (λ l. l < index.nlist) labels order low bound in
      let e = labels_of_order np.Vec index labels order id counts inside sorted in
      let labelled_as = ap labels_of offs ∙ e in
      record {
        labels_fit =
            rw (labelled_as, ids)
              (length-map (λ i. get_or labels i 0) order ∙ sym (length-map id order));
        offsets_fit =
            rw labelled_as
              (offs ∙ offsets_of_order np.Vec index labels order id counts inside sorted);
        sorted =
            rw (labelled_as, ids, length-map id order)
              (Sorted-order np.Vec index labels order id counts inside sorted);
      }

abbrev row_lt : List ℕ → ℕ → ℕ → Bool
row_lt labels i j = label_lt labels i j || (get_or labels i 0 == get_or labels j 0 && ltb i j)

later_row :
    (labels : List ℕ) (x : ℕ) (ys : List ℕ)
    → All (λ y. x < y) ys
    → insert_by (label_lt labels) x ys ≡ insert_by (row_lt labels) x ys
unfolding insert_by
later_row labels x [] h = refl
later_row labels x (y ∷ ys) h = ground (arith, h.0, later_row labels x ys h.1)

range_from-above : (a n k : ℕ) → k ≤ a → All (λ i. k ≤ i) (range_from a n)
range_from-above a zero k h = tt
range_from-above a (suc n) k h = (h, range_from-above (suc a) n k (omega arith))

-- A stable sort of ascending positions by label sorts them by (label, position).
stable_sort :
    (labels : List ℕ) (a n : ℕ)
    → sort_by (label_lt labels) (range_from a n) ≡ sort_by (row_lt labels) (range_from a n)
unfolding sort_by
stable_sort labels a zero = refl
stable_sort labels a (suc n) =
    later_row labels a (sort_by (label_lt labels) (range_from (suc a) n)) (
      All-map (λ i h. omega arith) _
        (All-sort_by (label_lt labels) (λ i. suc a ≤ i) (range_from (suc a) n)
          (range_from-above (suc a) n (suc a) (omega arith))))
    ∙ ap (insert_by (row_lt labels) a) (stable_sort labels (suc a) n)

row_order-StrictWeak : (labels : List ℕ) → StrictWeak (row_lt labels)
row_order-StrictWeak labels = record {
  asym = λ a b h. ground arith;
  negtrans = λ a b c h k. ground arith;
}

length-compress :
    (xs ys : List ℕ) (keep : List Bool)
    → length xs ≡ length ys
    → length (compress xs keep) ≡ length (compress ys keep)
length-compress [] [] keep e = refl
length-compress [] (y ∷ ys) keep e = absurd (omega (arith, e))
length-compress (x ∷ xs) [] keep e = absurd (omega (arith, e))
length-compress (x ∷ xs) (y ∷ ys) [] e = refl
length-compress (x ∷ xs) (y ∷ ys) (true ∷ keep) e =
    ap suc (length-compress xs ys keep (omega (arith, e)))
length-compress (x ∷ xs) (y ∷ ys) (false ∷ keep) e = length-compress xs ys keep (omega (arith, e))

module _ (np : Numpy) where
  open np use {Vec}

  -- `_set_lists` with one label of an existing list for each ID gives a listed index.
  pub set_lists-IsListed :
      (index : Index Vec) (ids labels : List ℕ)
      → length ids ≡ length labels
      → All (λ l. l < index.nlist) labels
      → IsListed np (set_lists np index ids labels)
  unfolding set_lists
  set_lists-IsListed index ids labels same low =
      let n = length labels in
      let r = range_from 0 n in
      let lt = label_id_lt ids labels in
      IsListed-order np (set_lists np index ids labels) labels (sort_by lt r) (λ i. get_or ids i 0)
        (rw (np.lexsort_ids-sorts ids labels same) refl) refl
        (λ p. length-filter-perm p (sort_by-perm lt r))
        (All-sort_by lt (λ i. i < n) r (range_from-bound 0 n n (omega arith))) low
        (sort_by-Sorted (label_id_lt-StrictWeak ids labels) r)

  -- `build` with at least one center gives a listed index.
  pub build_lists-IsListed :
      (vectors centers : List Vec)
      → 0 < length centers
      → IsListed np (build_lists np (length centers) vectors centers)
  unfolding build_lists
  build_lists-IsListed vectors centers some_center =
      let labels = assign_all np vectors centers in
      let n = length labels in
      let r = range_from 0 n in
      let lt = label_lt labels in
      IsListed-order np (build_lists np (length centers) vectors centers) labels (sort_by lt r)
        (λ i. i) (np.argsort-sorts labels ∙ sym (map_id (sort_by lt r))) refl
        (λ p. length-filter-perm p (sort_by-perm lt r))
        (All-sort_by lt (λ i. i < n) r (range_from-bound 0 n n (omega arith)))
        (labels_bound np vectors centers some_center)
        (rw (stable_sort labels 0 n) (sort_by-Sorted (row_order-StrictWeak labels) r))

  drop_listed-IsListed :
      (index : Index Vec) (dead : Option (List Bool))
      → IsListed np index
      → IsListed np (drop_listed np index dead)
  unfolding drop_listed
  drop_listed-IsListed index none v = v
  drop_listed-IsListed index (some dead) v =
      let low = labels_of-bound index.nlist (labels_of index.offsets) in
      let bounded : All (λ l. l < index.nlist) (labels_of index.offsets) = rw v.offsets_fit low in
      set_lists-IsListed (record index { deleted = none }) (compress index.list_ids _)
        (compress (labels_of index.offsets) _)
        (length-compress index.list_ids (labels_of index.offsets) _ (sym v.labels_fit))
        (All-compress (λ l. l < index.nlist) (labels_of index.offsets) _ bounded)

  -- Compaction of a listed index gives a listed index.
  pub compact-IsListed : (index : Index Vec) → IsListed np index → IsListed np (compact np index)
  unfolding compact
  compact-IsListed index v = drop_listed-IsListed index index.deleted v
