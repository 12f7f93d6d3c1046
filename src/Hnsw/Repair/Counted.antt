-- ===== src/Hnsw/Repair/Counted.antt =====
-- `reachable0` of hnsw.py counts the rows that `_unreachable0` leaves out.
use vector_retrieval_optimiz.Prelude.{
  ℕ, suc, ◌+◌, ◌<◌, ◌≡◌, refl, ◌∙◌, sym, ap, Bool, true, false, not, List, [], ◌∷◌, none, length,
  length-map, get_or, length-replicate, length-set, set, filter, arith, replicate, range_from,
}
use vector_retrieval_optimiz.Prelude.Arrays.{filter-map}
use vector_retrieval_optimiz.Prelude.Ranges.{range_from-suc}
use vector_retrieval_optimiz.Hnsw.Layer.Unvisited.{unvisited, unvisited-set}
use vector_retrieval_optimiz.Hnsw.Repair.{Sweep, sweep_from, reachable0, unreachable0}
use vector_retrieval_optimiz.Hnsw.Repair.Sweeps.{sweep-count, sweep-size}
use vector_retrieval_optimiz.Hnsw.Repair.Unreachable.{get_or-replicate, unvisited-replicate}

-- The positions of the rows that are not seen are as many as those rows.
positions :
    (seen : List Bool)
    → length (filter (λ i. not (get_or seen i false)) (range_from 0 (length seen))) ≡ unvisited seen
positions [] = refl
positions (b ∷ seen) =
    let later =
      ap (filter (λ i. not (get_or (b ∷ seen) i false))) (range_from-suc 0 (length seen))
      ∙ filter-map (λ i. not (get_or (b ∷ seen) i false)) suc (range_from 0 (length seen)) in
    let count =
      ap (length {A = ℕ}) later
      ∙ length-map suc (filter (λ i. not (get_or seen i false)) (range_from 0 (length seen)))
      ∙ positions seen in
    ground (arith, count)

filter_same : (p r : ℕ → Bool) (xs : List ℕ) → ((i : ℕ) → p i ≡ r i) → filter p xs ≡ filter r xs
filter_same p r [] h = refl
filter_same p r (x ∷ xs) h = ground (arith, h x, filter_same p r xs h)

-- Every row is counted by `reachable0` or listed by `_unreachable0`, and none by both.
pub reachable0-unreachable0 :
    (nbr : ℕ → List ℕ) (n entry : ℕ)
    → entry < n
    → reachable0 nbr n entry + length (unreachable0 nbr n entry none) ≡ n
unfolding reachable0 unreachable0 sweep_from
reachable0-unreachable0 nbr n entry entry_in =
    let before : Sweep = record {
      seen = set (replicate n false) entry true;
      stack = entry ∷ [];
      count = 1;
    } in
    let end = sweep_from nbr n entry in
    let size : length end.seen ≡ n =
      sweep-size nbr n before
      ∙ length-set (replicate n false) entry true
      ∙ length-replicate n false in
    let listed : length (unreachable0 nbr n entry none) ≡ unvisited end.seen =
      ap (length {A = ℕ})
        (filter_same _ (λ i. not (get_or end.seen i false)) (range_from 0 n) (λ i. ground arith))
      ∙ ap (λ (k : ℕ). length (filter (λ i. not (get_or end.seen i false)) (range_from 0 k)))
          (sym size)
      ∙ positions end.seen in
    ground (
      arith,
      listed,
      sweep-count nbr n before,
      unvisited-set (replicate n false) entry (get_or-replicate n entry entry_in),
      unvisited-replicate n,
    )
