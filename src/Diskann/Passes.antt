-- ===== src/Diskann/Passes.antt =====
-- `_Builder.pass_` of diskann.py, and the two passes that build the graph.
pub mod Bounded
mod Grown
pub mod Kept
pub mod Random
use vector_retrieval_optimiz.Prelude.{
  ℕ, zero, suc, ◌+◌, ◌-◌, ◌≤◌, ◌<◌, ◌≡◌, Bool, List, [], ◌∷◌, ◌++◌, map, foldl, some, ltb,
  if◌then◌else◌, length, get_or, set, elem, replicate, range_from,
}
use vector_retrieval_optimiz.Numpy.{Numpy}
use vector_retrieval_optimiz.Diskann.{Metric, Slots, Builder, out_of}
use vector_retrieval_optimiz.Diskann.Greedy.{greedy}
use vector_retrieval_optimiz.Diskann.Prune.{prune}

module _ (np : Numpy) (mt : Metric) (v : List np.Vec) (r : ℕ) where
  open np use {Vec, zero_vec}
  open mt use {Factor}

  -- `e[j, dj] = i; d[j] = dj + 1`
  unfoldable pub append_edge : Builder → ℕ → ℕ → Builder
  append_edge b i j =
      let dj = get_or b.counts j 0 in
      record b {
        edges = set b.edges j (set (get_or b.edges j []) dj (some i));
        counts = set b.counts j (suc dj);
      }

  -- the body of the loop over the out-edges of i
  unfoldable pub add_back : Factor → ℕ → Builder → ℕ → Builder
  add_back alpha i b j =
      let b' = append_edge b i j in
      if elem i (out_of b j)
      then b
      else if ltb r (get_or b'.counts j 0)
      then prune np mt v r b' j (out_of b' j) alpha
      else b'

  -- the body of the loop over the rows
  unfoldable pub pass_row : ℕ → ℕ → Factor → Builder → ℕ → Builder
  pass_row entry l alpha b i =
      let (b1, visited) = greedy np v b (get_or v i zero_vec) entry l in
      let b2 = prune np mt v r b1 i (visited ++ out_of b1 i) alpha in
      foldl (add_back alpha i) b2 (out_of b2 i)

  unfoldable pub pass : ℕ → ℕ → Factor → Builder → Builder
  pass entry l alpha b = foldl (pass_row entry l alpha) b (range_from 0 (length v))
