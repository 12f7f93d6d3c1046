-- ===== src/Diskann.antt =====
-- The build of diskann.py up to the file: the medoid, the random first graph, and the graph in the
-- slots that `_Builder` keeps. A slot of -1 is `none`.
mod Rows
pub mod Greedy
pub mod Prune
pub mod Passes
pub mod Disk
pub mod Index
pub mod Search
use vector_retrieval_optimiz.Prelude.{
  ℕ, zero, suc, ◌+◌, ◌-◌, ◌≤◌, ◌≡◌, Bool, List, [], ◌∷◌, ◌++◌, map, Option, none, some, ltb, leb,
  if◌then◌else◌, length, get_or, set, take, replicate, range_from, elem, min,
}
use vector_retrieval_optimiz.Prelude.Arrays.{argmax}
use vector_retrieval_optimiz.Prelude.Sorting.{sort_by}
use vector_retrieval_optimiz.Numpy.{Numpy, Score, neg_inf}
use vector_retrieval_optimiz.Splitmix.{Rng, new, next_below}
use vector_retrieval_optimiz.Kmeans.{Arith}
use vector_retrieval_optimiz.Pq.{present}

-- The order of positions by the scores there, the highest first.
abbrev pub higher_at : List Score → ℕ → ℕ → Bool
higher_at s i j = ltb (get_or s j neg_inf) (get_or s i neg_inf)

-- What `prune` calls of numpy: its stable sort, and arithmetic of float32 values with the parameter alpha.
pub record Metric : Type 1 where
  -- a float of Python
  pub Factor : Type 0
  -- 1.0, and `alpha < 1.0`
  pub one : Factor
  pub below_one : Factor → Bool
  -- np.argsort(-s, kind="stable")
  pub argsort_neg : List Score → List ℕ
  pub argsort_neg-sorts :
      (s : List Score) → argsort_neg s ≡ sort_by (higher_at s) (range_from 0 (length s))
  -- 2.0 - 2.0 * s, the squared distance of two unit rows from their dot product
  pub distance : Score → Score
  -- alpha * d
  pub scale : Factor → Score → Score

abbrev pub Slots : Type 0
Slots = List (Option ℕ)

-- the arrays e and d, and the marks of the searches
pub record Builder : Type 0 where
  pub edges : List Slots
  pub counts : List ℕ
  pub mark : List ℕ
  pub gen : ℕ

-- e[c, : d[c]]
unfoldable pub out_of : Builder → ℕ → List ℕ
unfolding present
out_of b c = present (take (get_or b.counts c 0) (get_or b.edges c []))

-- a row of a number of slots, with IDs in front
unfoldable pub filled : ℕ → List ℕ → Slots
filled slots ids = map some ids ++ replicate (slots - length ids) none

-- The loop of one row for at most a number of draws: the row's edges, or `none` if the draws ran out.
unfoldable pub draw_edges : ℕ → ℕ → ℕ → ℕ → Rng → List ℕ → Option (Rng × List ℕ)
draw_edges zero n deg i rng out = if leb deg (length out) then some (rng, out) else none
draw_edges (suc draws) n deg i rng out =
    let (rng', j) = next_below rng n in
    let rest = draw_edges draws n deg i rng' (if elem j (i ∷ out) then out else out ++ j ∷ []) in
    if leb deg (length out) then some (rng, out) else rest

-- the rows from i on, each with r + 1 slots
unfoldable pub init_rows : ℕ → ℕ → ℕ → ℕ → ℕ → ℕ → Rng → Option (List Slots)
init_rows draws n r deg i zero rng = some []
init_rows draws n r deg i (suc rows) rng = elim (draw_edges draws n deg i rng []) [
  | none ↦ none
  | some (rng', out) ↦ elim (init_rows draws n r deg (suc i) rows rng') [
    | none ↦ none
    | some edges ↦ some (filled (suc r) out ∷ edges)
  ]
]

unfoldable pub init_graph : ℕ → ℕ → ℕ → ℕ → Option (List Slots × List ℕ)
init_graph draws n r seed =
    let deg = min r (n - 1) in
    elim (init_rows draws n r deg 0 n (new seed)) [
      | none ↦ none
      | some edges ↦ some (edges, replicate n deg)
    ]

module _ (np : Numpy) (arith_ops : Arith np) where
  open np use {Vec, dot}

  -- the first row of the greatest dot product with the mean
  unfoldable pub medoid : List Vec → ℕ
  medoid vectors = let mean = arith_ops.mean vectors in argmax (map (λ x. dot x mean) vectors)
