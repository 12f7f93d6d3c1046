-- ===== src/Ivf/Lists.antt =====
-- The inverted lists in CSR layout: what `build` and `_set_lists` put into each list.
use vector_retrieval_optimiz.Prelude.{
  ℕ, ◌+◌, ◌-◌, zero, suc, ◌≤◌, ◌<◌, ◌≡◌, refl, sym, ap, ◌∙◌, Bool, false, List, [], ◌∷◌, map, ◌==◌,
  length, length-map, get_or, take, drop, filter, filter_none, map-take, All, All-map,
  All-filter_self, arith, range_from,
}
use vector_retrieval_optimiz.Prelude.Arrays.{
  cumsum_from, bincount_from, gather, filter-map, length-filter-perm,
}
use vector_retrieval_optimiz.Prelude.Ranges.{gather_range}
use vector_retrieval_optimiz.Prelude.Sorting.{
  StrictWeak, Sorted, sort_by, sort_by-perm, sort_by-Sorted, filter-sort_by,
}
use vector_retrieval_optimiz.Numpy.{Numpy, label_lt, label_id_lt}
use vector_retrieval_optimiz.Ivf.{Index, members, offsets_of, assign_all, build_lists, set_lists}
use vector_retrieval_optimiz.Ivf.Buckets.{
  is_below, is_at, segment, sort_by_at, get_or-cumsum, count_below_suc,
}

-- the positions of the rows with a label
abbrev pub labelled : List ℕ → ℕ → List ℕ
labelled labels c = filter (λ i. get_or labels i 0 == c) (range_from 0 (length labels))

pub count_at :
    (p : ℕ → Bool) (labels : List ℕ)
    → length (filter (λ i. p (get_or labels i 0)) (range_from 0 (length labels)))
      ≡ length (filter p labels)
count_at p labels =
    let r = range_from 0 (length labels) in
    sym (length-map (λ i. get_or labels i 0) (filter (λ i. p (get_or labels i 0)) r))
    ∙ ap (length {A = ℕ}) (sym (filter-map p (λ i. get_or labels i 0) r))
    ∙ ap (λ (xs : List ℕ). length (filter p xs)) (gather_range 0 labels)

offset_at :
    (nlist c : ℕ) (labels : List ℕ)
    → c ≤ nlist
    → get_or (offsets_of nlist labels) c 0 ≡ length (filter (is_below (λ l. l) c) labels)
unfolding offsets_of
offset_at nlist c labels h =
    get_or-cumsum 0 0 nlist c labels h (sym (none_below_zero labels))
    ∙ ap (λ (k : ℕ). length (filter (is_below (λ l. l) k) labels)) {x = 0 + c} (omega arith)
  where
    none_below_zero : (ls : List ℕ) → length (filter (is_below (λ l. l) 0) ls) ≡ 0
    none_below_zero [] = refl
    none_below_zero (l ∷ ls) = ground (arith, none_below_zero ls)

get_or-cumsum_out :
    (a b n j : ℕ) (labels : List ℕ)
    → n ≤ j
    → get_or (cumsum_from a (bincount_from b n labels)) j 0 ≡ 0
unfolding bincount_from
get_or-cumsum_out a b zero j labels h = refl
get_or-cumsum_out a b (suc n) zero labels h = absurd (omega arith)
get_or-cumsum_out a b (suc n) (suc j) labels h =
    get_or-cumsum_out (a + length (filter (λ l. l == b) labels)) (suc b) n j labels (omega arith)

no_label : (c : ℕ) (labels : List ℕ) → All (λ l. l < c) labels → filter (λ l. l == c) labels ≡ []
no_label c labels h =
    filter_none (λ l. l == c) labels
      (All-map {Q = λ l. (l == c) ≡ false} (λ l k. ground arith) labels h)

labelled_none : (c : ℕ) (labels : List ℕ) → All (λ l. l < c) labels → labelled labels c ≡ []
labelled_none c labels h =
    empty (labelled labels c)
      (count_at (λ l. l == c) labels ∙ ap (length {A = ℕ}) (no_label c labels h))
  where
    empty : (xs : List ℕ) → length xs ≡ 0 → xs ≡ []
    empty [] e = refl
    empty (x ∷ xs) e = absurd (omega (arith, e))

-- A list that is not there has no members.
pub members_out :
    (nlist c : ℕ) (labels xs : List ℕ)
    → nlist ≤ c
    → All (λ l. l < nlist) labels
    → members xs (offsets_of nlist labels) c ≡ labelled labels c
unfolding members offsets_of
members_out nlist c labels xs h k =
    let small = All-map {Q = λ l. l < c} (λ l m. omega arith) labels k in
    rw (labelled_none c labels small, get_or-cumsum_out 0 0 nlist c labels h)
      (ap (λ (n : ℕ). take n (drop (get_or (offsets_of nlist labels) c 0) xs)) {y = 0}
        (omega arith))

-- Any order of the rows that is sorted by label is cut by the offsets into the rows of each label.
pub members_of_Sorted :
    (nlist c : ℕ) (labels xs : List ℕ)
    → c < nlist
    → Sorted (label_lt labels) xs
    → ((p : ℕ → Bool) → length (filter p xs) ≡ length (filter p (range_from 0 (length labels))))
    → members xs (offsets_of nlist labels) c ≡ filter (λ i. get_or labels i 0 == c) xs
unfolding members
members_of_Sorted nlist c labels xs h sorted same =
    let key = λ (i : ℕ). get_or labels i 0 in
    let lo = offset_at nlist c labels (omega arith) in
    let hi = offset_at nlist (suc c) labels (omega arith) in
    let below = same (is_below key c) ∙ count_at (is_below (λ l. l) c) labels in
    let at = same (is_at key c) ∙ count_at (is_at (λ l. l) c) labels in
    let both = count_below_suc c labels in
    rw (lo, hi, ← below)
      (ap (λ (n : ℕ). take n (drop (length (filter (is_below key c) xs)) xs)) (omega arith)
        ∙ segment key c xs sorted)

label_lt-StrictWeak : (labels : List ℕ) → StrictWeak (label_lt labels)
label_lt-StrictWeak labels = record {
  asym = λ a b h. ground arith;
  negtrans = λ a b c h k. ground arith;
}

pub label_id_lt-StrictWeak : (ids labels : List ℕ) → StrictWeak (label_id_lt ids labels)
label_id_lt-StrictWeak ids labels = record {
  asym = λ a b h. ground arith;
  negtrans = λ a b c h k. ground arith;
}

pub by_label :
    (ids labels xs : List ℕ) → Sorted (label_id_lt ids labels) xs → Sorted (label_lt labels) xs
by_label ids labels [] h = tt
by_label ids labels (x ∷ xs) h = (All-map (λ y k. ground arith) xs h.0, by_label ids labels xs h.1)

map-drop {ℓ κ} :
    {A : Type ℓ} {B : Type κ} (f : A → B) (n : ℕ) (xs : List A)
    → map f (drop n xs) ≡ drop n (map f xs)
map-drop f zero xs = refl
map-drop f (suc n) [] = refl
map-drop f (suc n) (x ∷ xs) = map-drop f n xs

pub members-map :
    (f : ℕ → ℕ) (xs offsets : List ℕ) (c : ℕ)
    → members (map f xs) offsets c ≡ map f (members xs offsets c)
unfolding members
members-map f xs offsets c =
    let lo = get_or offsets c 0 in
    let hi = get_or offsets (suc c) 0 in
    sym (map-take f (hi - lo) (drop lo xs) ∙ ap (take (hi - lo)) (map-drop f lo xs))

module _ (np : Numpy) where
  open np use {Vec, argsort, lexsort_ids}

  members-argsort :
      (nlist c : ℕ) (labels : List ℕ)
      → c < nlist
      → members (argsort labels) (offsets_of nlist labels) c ≡ labelled labels c
  members-argsort nlist c labels h =
      let r = range_from 0 (length labels) in
      let o = label_lt-StrictWeak labels in
      rw (np.argsort-sorts labels) (
        members_of_Sorted nlist c labels (sort_by (label_lt labels) r) h (sort_by-Sorted o r)
          (λ p. length-filter-perm p (sort_by-perm (label_lt labels) r))
        ∙ filter-sort_by o (λ i. get_or labels i 0 == c) r
        ∙ sort_by_at (λ (i : ℕ). get_or labels i 0) c (labelled labels c)
            (All-filter_self (λ i. get_or labels i 0 == c) r))

  -- After `build`, list c, for c below nlist, holds exactly the rows whose nearest center is c, in ascending order.
  pub members-build_lists :
      (nlist c : ℕ) (vectors centers : List Vec)
      → c < nlist
      → let index = build_lists np nlist vectors centers in
        members index.list_ids index.offsets c ≡ labelled (assign_all np vectors centers) c
  unfolding build_lists
  members-build_lists nlist c vectors centers h =
      members-argsort nlist c (assign_all np vectors centers) h

  pub members-set_lists_fit :
      (index : Index Vec) (ids labels : List ℕ) (c : ℕ)
      → length ids ≡ length labels
      → c < index.nlist
      → let index' = set_lists np index ids labels in
        members index'.list_ids index'.offsets c
        ≡ gather 0 ids (sort_by (label_id_lt ids labels) (labelled labels c))
  unfolding set_lists
  members-set_lists_fit index ids labels c same h =
      let r = range_from 0 (length labels) in
      let o = label_id_lt-StrictWeak ids labels in
      let p = λ (i : ℕ). get_or labels i 0 == c in
      let sorted = sort_by (label_id_lt ids labels) r in
      rw
        (
          np.lexsort_ids-sorts ids labels same,
          members-map (λ i. get_or ids i 0) sorted (offsets_of index.nlist labels) c,
        )
        (ap (gather 0 ids) (
          members_of_Sorted index.nlist c labels sorted h
            (by_label ids labels sorted (sort_by-Sorted o r))
            (λ q. length-filter-perm q (sort_by-perm (label_id_lt ids labels) r))
          ∙ filter-sort_by o p r))

  -- After `_set_lists` with one label of a list for each ID, list c, for c below nlist, holds exactly the
  -- given IDs with the label c, sorted by ID.
  pub members-set_lists :
      (index : Index Vec) (ids labels : List ℕ) (c : ℕ)
      → length ids ≡ length labels
      → All (λ l. l < index.nlist) labels
      → c < index.nlist
      → let index' = set_lists np index ids labels in
        members index'.list_ids index'.offsets c
        ≡ gather 0 ids (sort_by (label_id_lt ids labels) (labelled labels c))
  members-set_lists index ids labels c same low h = members-set_lists_fit index ids labels c same h
