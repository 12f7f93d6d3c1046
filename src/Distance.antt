-- ===== src/Distance.antt =====
-- indexes/python/distance.py: dot-product scores and top-k selection.
pub mod Best
pub mod Selection
use vector_retrieval_optimiz.Prelude.{
  ℕ, ◌-◌, List, [], ◌++◌, map, Option, none, some, ltb, leb, ◌==◌, if◌then◌else◌, length, get_or,
  take, replicate, range_from, min,
}
use vector_retrieval_optimiz.Prelude.Arrays.{gather, flatnonzero}
use vector_retrieval_optimiz.Numpy.{Numpy, Score, neg_inf}

-- The arrays that a search returns: IDs, where `none` is the padding -1, and scores.
pub record Ranking : Type 0 where
  pub ids : List (Option ℕ)
  pub scores : List Score

-- ids[pos], or pos itself without an ID array
abbrev pub rows_at : Option (List ℕ) → List ℕ → List ℕ
rows_at none pos = pos
rows_at (some ids) pos = gather 0 ids pos

module _ (np : Numpy) where
  open np use {Vec, dot, argpartition, lexsort}

  -- matrix @ query
  unfoldable pub scores : Vec → List Vec → List Score
  scores query matrix = map (dot query) matrix

  -- The positions that are sorted: none, those at or above the kk-th best score, or all.
  unfoldable pub candidates : List Score → ℕ → List ℕ
  candidates s kk =
      if kk == 0
      then []
      else if ltb kk (length s)
      then (let threshold = get_or s (get_or (argpartition s (kk - 1)) (kk - 1) 0) neg_inf in
          flatnonzero (map (leb threshold) s))
      else range_from 0 (length s)

  unfoldable pub top_k : List Score → ℕ → Option (List ℕ) → Ranking
  unfolding candidates
  top_k s k ids =
      let kk = min k (length s) in
      let pos = candidates s kk in
      let row_ids = rows_at ids pos in
      let best = take kk (gather 0 pos (lexsort row_ids (gather neg_inf s pos))) in
      record {
        ids = map some (rows_at ids best) ++ replicate (k - kk) none;
        scores = gather neg_inf s best ++ replicate (k - kk) neg_inf;
      }
