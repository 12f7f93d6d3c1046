-- ===== src/Ivf/Compaction.antt =====
-- `compact` of the inverted file index keeps exactly the live members of every list.
use vector_retrieval_optimiz.Prelude.{
  ℕ, suc, ◌<◌, ◌≡◌, refl, sym, ap, ◌∙◌, Bool, false, not, ◌&&◌, List, [], ◌∷◌, map, ltb, ◌==◌, ◌||◌,
  none, some, length, length-map, get_or, filter, All-everywhere, Bool-cases, inl, inr, arith,
  range_from,
}
use vector_retrieval_optimiz.Prelude.Arrays.{gather, compress, filter-map, get_or-map}
use vector_retrieval_optimiz.Prelude.Ranges.{map-map, range_from-suc, gather_range}
use vector_retrieval_optimiz.Prelude.Sorting.{
  Sorted, sort_by, map-sort_by, Sorted-filter, sort_by_unchanged,
}
use vector_retrieval_optimiz.Numpy.{Numpy, label_id_lt}
use vector_retrieval_optimiz.Flat.Selection.{is_live}
use vector_retrieval_optimiz.Flat.Compaction.{through_live, filter-filter, filter_cong_All}
use vector_retrieval_optimiz.Ivf.{Index, members, offsets_of, labels_of, drop_listed, compact}
use vector_retrieval_optimiz.Ivf.Lists.{
  labelled, members-map, by_label, members_of_Sorted, members-set_lists_fit,
}

compress-through {ℓ} :
    {A : Type ℓ} (p : ℕ → Bool) (d : A) (xs : List A) (ys : List ℕ)
    → length xs ≡ length ys
    → compress xs (map p ys)
      ≡ map (λ i. get_or xs i d) (filter (λ i. p (get_or ys i 0)) (range_from 0 (length ys)))
compress-through p d [] [] e = refl
compress-through p d [] (y ∷ ys) e = absurd (omega arith)
compress-through p d (x ∷ xs) [] e = absurd (omega arith)
compress-through p d (x ∷ xs) (y ∷ ys) e =
    let r = range_from 0 (length ys) in
    let q = λ (i : ℕ). p (get_or (y ∷ ys) i 0) in
    let at = λ (i : ℕ). get_or (x ∷ xs) i d in
    let rest : map at (filter q (range_from 1 (length ys))) ≡ compress xs (map p ys) =
      rw
        (
          range_from-suc 0 (length ys),
          filter-map q suc r,
          map-map at suc (filter (λ i. q (suc i)) r),
        )
        (sym (compress-through p d xs ys (omega arith))) in
    elim (Bool-cases (p y)) [
      | inl kept ↦ rw kept (ap (◌∷◌ x) (sym rest))
      | inr dropped ↦ rw dropped (sym rest)
    ]

-- a label with an ID, and the order of (label, ID)
abbrev Pair : Type 0
Pair = ℕ × ℕ

abbrev pair_lt : Pair → Pair → Bool
pair_lt a b = ltb a.0 b.0 || (a.0 == b.0 && ltb a.1 b.1)

abbrev pair_at : List ℕ → List ℕ → ℕ → Pair
pair_at ids labels i = (get_or labels i 0, get_or ids i 0)

and_comm : (a b : Bool) → (a && b) ≡ (b && a)
and_comm a b = ground arith

filter_comm : (p q : ℕ → Bool) (xs : List ℕ) → filter p (filter q xs) ≡ filter q (filter p xs)
filter_comm p q xs =
    filter-filter p q xs
    ∙ filter_cong_All (λ x. p x && q x) (λ x. q x && p x) xs
        (All-everywhere _ (λ x. and_comm (p x) (q x)) xs)
    ∙ sym (filter-filter q p xs)

module _ (ids labels : List ℕ) (p : ℕ → Bool) (c : ℕ)
    (sorted : Sorted (label_id_lt ids labels) (range_from 0 (length ids))) where
  abbrev kept_positions : List ℕ
  kept_positions = filter (λ i. p (get_or ids i 0)) (range_from 0 (length ids))

  abbrev kept_ids : List ℕ
  kept_ids = gather 0 ids kept_positions

  abbrev kept_labels : List ℕ
  kept_labels = gather 0 labels kept_positions

  abbrev with_label : List ℕ
  with_label = filter (λ i. get_or labels i 0 == c) kept_positions

  pairs :
      map (pair_at kept_ids kept_labels) (labelled kept_labels c)
      ≡ map (pair_at ids labels) with_label
  pairs = rw (length-map (λ i. get_or labels i 0) kept_positions) (
      through_live (pair_at ids labels) (λ i. get_or labels i 0 == c) kept_positions
        (pair_at kept_ids kept_labels) (λ j. get_or kept_labels j 0 == c)
        (λ j h. cc (
          get_or-map (λ i. get_or ids i 0) kept_positions j 0 0 h,
          get_or-map (λ i. get_or labels i 0) kept_positions j 0 0 h,
        ))
        (λ j h. ap (λ l. l == c) (get_or-map (λ i. get_or labels i 0) kept_positions j 0 0 h)))

  sorted_pairs :
      map
        (pair_at kept_ids kept_labels)
        (sort_by (label_id_lt kept_ids kept_labels) (labelled kept_labels c))
      ≡ map (pair_at ids labels) with_label
  sorted_pairs =
      let lt = label_id_lt ids labels in
      map-sort_by pair_lt (pair_at kept_ids kept_labels) (labelled kept_labels c)
      ∙ ap (sort_by pair_lt) pairs
      ∙ sym (map-sort_by pair_lt (pair_at ids labels) with_label)
      ∙ ap (map (pair_at ids labels)) (
          sort_by_unchanged lt with_label (
            Sorted-filter lt _ kept_positions
              (Sorted-filter lt _ (range_from 0 (length ids)) sorted)))

  -- Sorting what is kept of a sorted list again gives what is kept of the list.
  kept_members :
      length labels ≡ length ids
      → gather 0 kept_ids (sort_by (label_id_lt kept_ids kept_labels) (labelled kept_labels c))
        ≡ filter p (gather 0 ids (labelled labels c))
  kept_members fit =
      let r = range_from 0 (length ids) in
      let id = λ (i : ℕ). get_or ids i 0 in
      let of_label = λ (i : ℕ). get_or labels i 0 == c in
      sym (map-map (λ (q : Pair). q.1) (pair_at kept_ids kept_labels) _)
      ∙ ap (map (λ (q : Pair). q.1)) sorted_pairs
      ∙ map-map (λ (q : Pair). q.1) (pair_at ids labels) with_label
      ∙ ap (map id) (filter_comm of_label (λ i. p (id i)) r)
      ∙ sym (filter-map p id (filter of_label r))
      ∙ ap (λ (n : ℕ). filter p (gather 0 ids (filter of_label (range_from 0 n)))) (sym fit)

module _ (np : Numpy) where
  open np use {Vec}

  -- The lists hold as many IDs as the offsets say, and the IDs of each list ascend.
  pub record IsListed (index : Index Vec) : Type 0 where
    pub labels_fit : length (labels_of index.offsets) ≡ length index.list_ids
    pub offsets_fit : index.offsets ≡ offsets_of index.nlist (labels_of index.offsets)
    pub sorted :
        Sorted
          (label_id_lt index.list_ids (labels_of index.offsets))
          (range_from 0 (length index.list_ids))

  -- each list of a listed index, read off the labels
  members-IsListed :
      (index : Index Vec) (c : ℕ)
      → IsListed index
      → c < index.nlist
      → members index.list_ids index.offsets c
        ≡ gather 0 index.list_ids (labelled (labels_of index.offsets) c)
  members-IsListed index c v h =
      let labels = labels_of index.offsets in
      let ids = index.list_ids in
      let r = range_from 0 (length labels) in
      let sorted : Sorted (label_id_lt ids labels) r = rw v.labels_fit v.sorted in
      ap (λ xs. members xs index.offsets c) (sym (gather_range 0 ids))
      ∙ ap (λ off. members (gather 0 ids (range_from 0 (length ids))) off c) v.offsets_fit
      ∙ members-map (λ i. get_or ids i 0) (range_from 0 (length ids))
          (offsets_of index.nlist labels) c
      ∙ ap (λ (n : ℕ). gather 0 ids (members (range_from 0 n) (offsets_of index.nlist labels) c))
          (sym v.labels_fit)
      ∙ ap (gather 0 ids)
          (members_of_Sorted index.nlist c labels r h (by_label ids labels r sorted) (λ p. refl))

  -- Compaction keeps exactly the live members of every list: where the lists hold what the offsets
  -- say and the IDs of each list ascend, list c of the compacted index holds the members of list c
  -- that are not deleted, in their order.
  pub members-compact :
      (index : Index Vec) (dead : List Bool) (c : ℕ)
      → IsListed index
      → index.deleted ≡ some dead
      → c < index.nlist
      → members (compact np index).list_ids (compact np index).offsets c
        ≡ filter (is_live (some dead)) (members index.list_ids index.offsets c)
  unfolding compact drop_listed
  members-compact index dead c v e h =
      let ids = index.list_ids in
      let labels = labels_of index.offsets in
      let p = is_live (some dead) in
      rw
        (
          e,
          members-IsListed index c v h,
          map-map not (λ (i : ℕ). get_or dead i false) ids,
          compress-through p 0 ids ids refl,
          compress-through p 0 labels ids v.labels_fit,
        )
        (members-set_lists_fit np (record index { deleted = none })
            (kept_ids ids labels p c v.sorted) (kept_labels ids labels p c v.sorted) c
            (length-map (λ (i : ℕ). get_or ids i 0) (kept_positions ids labels p c v.sorted)
              ∙ sym (
                  length-map (λ (i : ℕ). get_or labels i 0)
                    (kept_positions ids labels p c v.sorted)))
            h
          ∙ kept_members ids labels p c v.sorted v.labels_fit)
