-- ===== src/Diskann/Prune/Nearest.antt =====
-- The order in which `prune` of diskann.py goes through the candidates.
use mathlib.Core.Path.{subst}
use vector_retrieval_optimiz.Prelude.{
  ℕ, ◌<◌, ◌≡◌, refl, ap, ◌∙◌, sym, Bool, not, ◌&&◌, List, map, ltb, ◌==◌, length, length-map,
  get_or, filter, range_from, elem, arith,
}
use vector_retrieval_optimiz.Prelude.Arrays.{gather, get_or-map, map_id, unique}
use vector_retrieval_optimiz.Prelude.Ranges.{
  Nodup, Nodup-filter, elem-filter, gather_range, range_from-bound,
}
use vector_retrieval_optimiz.Prelude.Sorting.{
  StrictWeak, Sorted, sort_by, map-sort_by, sort_by-Sorted,
}
use vector_retrieval_optimiz.Prelude.Distinct.{
  sort_by_cong, elem-sort_by, Nodup-sort_by, elem-unique, unique-Nodup,
}
use vector_retrieval_optimiz.Numpy.{Numpy, Score, neg_inf}
use vector_retrieval_optimiz.Diskann.{Metric, higher_at}
use vector_retrieval_optimiz.Diskann.Prune.{dot_of, others, nearest_first}

module _ (np : Numpy) (mt : Metric) (v : List np.Vec) (p : ℕ) where
  open mt use {argsort_neg-sorts}

  -- a is nearer to p than b
  abbrev pub nearer : ℕ → ℕ → Bool
  nearer a b = ltb (dot_of np mt v b p) (dot_of np mt v a p)

  nearer-StrictWeak : StrictWeak nearer
  nearer-StrictWeak = record { asym = λ a b h. ground arith; negtrans = λ a b c h k. ground arith }

  pub nearest_first-sorts : (ids : List ℕ) → nearest_first np mt v p ids ≡ sort_by nearer ids
  unfolding nearest_first
  nearest_first-sorts ids =
      let key : ℕ → Score = λ i. dot_of np mt v i p in
      let s = map key ids in
      let at : ℕ → ℕ = λ i. get_or ids i 0 in
      let range = range_from 0 (length ids) in
      let agree : (i j : ℕ)
          → i < length ids
          → j < length ids
          → higher_at s i j ≡ nearer (at i) (at j) =
        λ i j hi hj.
          rw (get_or-map key ids i 0 neg_inf hi, get_or-map key ids j 0 neg_inf hj) refl in
      ap (gather 0 ids) (argsort_neg-sorts s)
      ∙ ap (λ (n : ℕ). gather 0 ids (sort_by (higher_at s) (range_from 0 n))) (length-map key ids)
      ∙ ap (gather 0 ids) (
          sort_by_cong (λ i. i < length ids) (higher_at s) (λ i j. nearer (at i) (at j)) agree range
            (range_from-bound 0 (length ids) (length ids) (omega arith)))
      ∙ map-sort_by nearer at range
      ∙ ap (sort_by nearer) (gather_range 0 ids)

  pub elem-others :
      (c : ℕ) (cands : List ℕ) → elem c (others np mt v p cands) ≡ (elem c cands && not (c == p))
  unfolding others
  elem-others c cands =
      elem-filter (λ i. not (i == p)) c (unique cands)
      ∙ ap (λ b. b && not (c == p)) (elem-unique c cands)

  -- The candidates in order: nearest first, each once, and none is p.
  pub nearest_first-others :
      (cands : List ℕ)
      → let ids = nearest_first np mt v p (others np mt v p cands) in
        Sorted nearer ids × Nodup ids × ((c : ℕ) → elem c ids ≡ (elem c cands && not (c == p)))
  unfolding others
  nearest_first-others cands =
      let ids = filter (λ i. not (i == p)) (unique cands) in
      let once = Nodup-filter (λ i. not (i == p)) (unique cands) (unique-Nodup cands) in
      rw (nearest_first-sorts ids) (
        sort_by-Sorted nearer-StrictWeak ids,
        subst Nodup (map_id (sort_by nearer ids))
            (Nodup-sort_by nearer (λ i. i) ids (subst Nodup (sym (map_id ids)) once)),
        λ c.
            elem-sort_by nearer c ids
            ∙ elem-filter (λ i. not (i == p)) c (unique cands)
            ∙ ap (λ b. b && not (c == p)) (elem-unique c cands),
      )
