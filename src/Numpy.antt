-- ===== src/Numpy.antt =====
-- The parts of numpy that the indexes call and whose algorithms are not in the repository: the dot
-- product of float32 rows, and the sorts and partitions.
-- A score is the position of a float32 value in their order; -inf has position 0. The indexes only
-- compare scores, so every test on scores keeps its meaning.
pub mod Reference
use mathlib.Core.List.{Perm}
use vector_retrieval_optimiz.Prelude.{
  ℕ, suc, ◌≤◌, ◌<◌, ◌≡◌, Bool, List, [], ◌∷◌, map, ◌&&◌, ◌||◌, ltb, ◌==◌, length, get_or, take, All,
  range_from,
}
use vector_retrieval_optimiz.Prelude.Sorting.{sort_by}

abbrev pub Score : Type 0
Score = ℕ

abbrev pub neg_inf : Score
neg_inf = 0

-- A row ID with its score.
pub record Hit : Type 0 where
  pub row : ℕ
  pub score : Score

-- Best score first, lower ID first on ties: the sort key (-score, id).
abbrev pub better : Hit → Hit → Bool
better a b = ltb b.score a.score || (a.score == b.score && ltb a.row b.row)

-- The rows of two parallel arrays, at the position i.
abbrev pub hit_at : List ℕ → List Score → ℕ → Hit
hit_at ids s i = record { row = get_or ids i 0; score = get_or s i neg_inf }

-- The order of positions by a label, and by (label, ID).
abbrev pub label_lt : List ℕ → ℕ → ℕ → Bool
label_lt labels i j = ltb (get_or labels i 0) (get_or labels j 0)

abbrev pub label_id_lt : List ℕ → List ℕ → ℕ → ℕ → Bool
label_id_lt ids labels i j =
    ltb (get_or labels i 0) (get_or labels j 0)
    || (get_or labels i 0 == get_or labels j 0 && ltb (get_or ids i 0) (get_or ids j 0))

pub record Numpy : Type 1 where
  -- a float32 row
  pub Vec : Type 0
  -- np.zeros of one row
  pub zero_vec : Vec
  -- the dot product of two rows, as `@` computes it
  pub dot : Vec → Vec → Score
  -- np.argpartition(-s, j)
  pub argpartition : List Score → ℕ → List ℕ
  pub argpartition-perm :
      (s : List Score) (j : ℕ) → j < length s → Perm (argpartition s j) (range_from 0 (length s))
  -- the values in front of the j-th are at least as good as the j-th
  pub argpartition-front :
      (s : List Score) (j : ℕ)
      → j < length s
      → All
          (λ i. get_or s (get_or (argpartition s j) j 0) neg_inf ≤ get_or s i neg_inf)
          (take (suc j) (argpartition s j))
  -- np.lexsort((ids, -s)): the positions in order of the keys; the sort is stable
  pub lexsort : List ℕ → List Score → List ℕ
  pub lexsort-in_range : (ids : List ℕ) (s : List Score) → All (λ i. i < length s) (lexsort ids s)
  pub lexsort-sorts :
      (ids : List ℕ) (s : List Score)
      → length ids ≡ length s
      → map (hit_at ids s) (lexsort ids s)
        ≡ sort_by better (map (hit_at ids s) (range_from 0 (length s)))
  -- np.argsort(labels, kind="stable")
  pub argsort : List ℕ → List ℕ
  pub argsort-sorts :
      (labels : List ℕ) → argsort labels ≡ sort_by (label_lt labels) (range_from 0 (length labels))
  -- np.lexsort((ids, labels))
  pub lexsort_ids : List ℕ → List ℕ → List ℕ
  pub lexsort_ids-sorts :
      (ids labels : List ℕ)
      → length ids ≡ length labels
      → lexsort_ids ids labels ≡ sort_by (label_id_lt ids labels) (range_from 0 (length labels))
