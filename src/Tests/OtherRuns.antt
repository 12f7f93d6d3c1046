-- ===== src/Tests/OtherRuns.antt =====
-- The inverted file index over four rows and two centers, and the generator.
use vector_retrieval_optimiz.Prelude.{
  ℕ, Result, ok, raise, ◌≡◌, ◌≢◌, refl, Bool, true, false, List, [], ◌∷◌, none, some, filter, map,
  min, max, arith,
}
use vector_retrieval_optimiz.Prelude.Arrays.{gather}
use vector_retrieval_optimiz.Prelude.Sorting.{sort_by}
use vector_retrieval_optimiz.Numpy.{label_id_lt}
use vector_retrieval_optimiz.Numpy.Reference.{reference, dot, argsort, lexsort_ids}
use vector_retrieval_optimiz.Distance.{scores}
use vector_retrieval_optimiz.Distance.Best.{best, hits}
use vector_retrieval_optimiz.Ivf.{
  Index, members, build_lists, set_lists, delete, update, relabelled, compact, search_masked,
}
use vector_retrieval_optimiz.Ivf.Nearest.{AreNearest}
use vector_retrieval_optimiz.Ivf.Lists.{labelled, members-set_lists}
use vector_retrieval_optimiz.Ivf.Search.{passes, probed_rows, row_hit, search_masked-build_lists}
use vector_retrieval_optimiz.Flat.Selection.{is_live}
use vector_retrieval_optimiz.Ivf.Compaction.{IsListed, members-compact}
use vector_retrieval_optimiz.Ivf.Invariant.{build_lists-IsListed}
use vector_retrieval_optimiz.Splitmix.{new, next_u64}
use vector_retrieval_optimiz.Splitmix.Bounds.{after, after-distinct}

abbrev four_rows : List (List ℕ)
four_rows = (1 ∷ 0 ∷ []) ∷ (0 ∷ 5 ∷ []) ∷ (3 ∷ 1 ∷ []) ∷ (1 ∷ 4 ∷ []) ∷ []

abbrev two_centers : List (List ℕ)
two_centers = (1 ∷ 0 ∷ []) ∷ (0 ∷ 1 ∷ []) ∷ []

abbrev small_index : Index (List ℕ)
small_index = build_lists reference 2 four_rows two_centers

build_test : (small_index.list_ids ≡ 0 ∷ 2 ∷ 1 ∷ 3 ∷ []) × (small_index.offsets ≡ 0 ∷ 2 ∷ 4 ∷ [])
unfolding build_lists argsort dot
build_test = (refl, refl)

members-set_lists_example :
    members
      (set_lists reference small_index (7 ∷ 3 ∷ 5 ∷ []) (1 ∷ 0 ∷ 1 ∷ [])).list_ids
      (set_lists reference small_index (7 ∷ 3 ∷ 5 ∷ []) (1 ∷ 0 ∷ 1 ∷ [])).offsets
      1
    ≡ gather 0
        (7 ∷ 3 ∷ 5 ∷ [])
        (sort_by (label_id_lt (7 ∷ 3 ∷ 5 ∷ []) (1 ∷ 0 ∷ 1 ∷ [])) (labelled (1 ∷ 0 ∷ 1 ∷ []) 1))
unfolding build_lists
members-set_lists_example =
    members-set_lists reference small_index (7 ∷ 3 ∷ 5 ∷ []) (1 ∷ 0 ∷ 1 ∷ []) 1 refl
      (omega arith, (omega arith, (omega arith, tt))) (omega arith)

abbrev second_dead : List Bool
second_dead = false ∷ true ∷ false ∷ false ∷ []

search_masked-build_lists_example :
    (labels : List ℕ) × AreNearest reference two_centers four_rows labels
    × ((search_masked reference (delete reference small_index second_dead) (0 ∷ 1 ∷ []) 2 1 none).0
        ≡ best 2 (
            map (row_hit reference four_rows (0 ∷ 1 ∷ [])) (
              filter (passes none (some second_dead)) (
                probed_rows labels
                  (best
                    (max 1 (min 1 2))
                    (hits none (scores reference (0 ∷ 1 ∷ []) two_centers))).ids))))
search_masked-build_lists_example =
    search_masked-build_lists reference four_rows two_centers second_dead (0 ∷ 1 ∷ []) 2 1 none
      (omega arith) refl tt

small_index-IsListed : IsListed reference small_index
small_index-IsListed = build_lists-IsListed reference four_rows two_centers (omega arith)

thinned-IsListed : IsListed reference (delete reference small_index second_dead)
unfolding delete
thinned-IsListed = record {
  labels_fit = small_index-IsListed.labels_fit;
  offsets_fit = small_index-IsListed.offsets_fit;
  sorted = small_index-IsListed.sorted;
}

members-compact_example :
    members
      (compact reference (delete reference small_index second_dead)).list_ids
      (compact reference (delete reference small_index second_dead)).offsets
      1
    ≡ filter (is_live (some second_dead)) (
        members
          (delete reference small_index second_dead).list_ids
          (delete reference small_index second_dead).offsets
          1)
unfolding delete build_lists
members-compact_example =
    members-compact reference (delete reference small_index second_dead) second_dead 1
      thinned-IsListed refl (omega arith)

abbrev lists_of : Result (Index (List ℕ)) → List ℕ × List ℕ
lists_of (ok index) = (index.list_ids, index.offsets)
lists_of (raise e) = ([], [])

-- row 2 moves from the first list to the second
update_test :
    lists_of (update reference small_index (2 ∷ []) ((0 ∷ 9 ∷ []) ∷ []))
    ≡ (0 ∷ 1 ∷ 2 ∷ 3 ∷ [], 0 ∷ 1 ∷ 4 ∷ [])
unfolding update build_lists argsort lexsort_ids dot relabelled set_lists
update_test = refl

next_u64_test : (next_u64 (new 42)).1 ≡ 13679457532755275413
unfolding next_u64 new
next_u64_test = refl

after-distinct_example : (after 0 (new 42)).s ≢ (after 3 (new 42)).s
after-distinct_example = after-distinct 42 0 3 (omega arith) (omega arith) (λ e. omega (arith, e))
