-- ===== src/Hnsw/Graph.antt =====
-- The graph of hnsw.py while it is built: levels, lists, and `insert`.
pub mod Bounded
pub mod Inserted
use vector_retrieval_optimiz.Prelude.{
  ℕ, zero, suc, ◌+◌, ◌-◌, false, List, [], ◌∷◌, ◌++◌, map, foldl, none, some, ltb, leb,
  if◌then◌else◌, length, get_or, replicate, range_from, min, max,
}
use vector_retrieval_optimiz.Numpy.{Numpy, Hit}
use vector_retrieval_optimiz.Splitmix.{Rng, new, next_f64}
use vector_retrieval_optimiz.Hnsw.{Layer, Adjacency, links, set_links, cap}
use vector_retrieval_optimiz.Hnsw.Select.{select}
use vector_retrieval_optimiz.Hnsw.Layer.{hit, greedy, search_layer}

-- floor(-ln(u) / ln(m)), for the float u = j / 2 ^ 53 with j > 0: the arithmetic of floats is a
-- parameter.
abbrev pub LevelOf : Type 0
LevelOf = ℕ → ℕ → ℕ

-- the loop of `draw_levels`
unfoldable pub levels_from : LevelOf → ℕ → ℕ → Rng → List ℕ
levels_from level_of m zero rng = []
levels_from level_of m (suc n) rng =
    let (rng', u) = next_f64 rng in
    (if ltb 0 u then level_of m u else 64) ∷ levels_from level_of m n rng'

unfoldable pub draw_levels : LevelOf → ℕ → ℕ → ℕ → List ℕ
draw_levels level_of n m seed = levels_from level_of m n (new seed)

-- the greatest of a list of levels
unfoldable pub max_of : List ℕ → ℕ
max_of [] = 0
max_of (x ∷ xs) = max x (max_of xs)

-- `__init__`: an empty list on every layer of a node's level
unfoldable pub empty_layer : List ℕ → ℕ → Layer
empty_layer levels layer = map (λ (l : ℕ). if leb layer l then some [] else none) levels

unfoldable pub empty_adjacency : List ℕ → Adjacency
empty_adjacency levels = map (empty_layer levels) (range_from 0 (suc (max_of levels)))

-- range(top, lvl, -1), and range(top, -1, -1) for a count of layers
unfoldable pub down_to : ℕ → ℕ → List ℕ
down_to top zero = []
down_to top (suc n) = top ∷ down_to (top - 1) n

module _ (np : Numpy) (v : List np.Vec) (m : ℕ) where
  open np use {Vec, zero_vec, dot}

  -- `greedy` on each of the layers, from the top down
  unfoldable pub descend : (ℕ → ℕ → List ℕ) → Vec → List ℕ → Hit → Hit × ℕ
  descend nbr q [] ep = (ep, 0)
  descend nbr q (layer ∷ layers) ep =
      let (ep', count) = greedy np v (nbr layer) (length v) q ep in
      let (end, count') = descend nbr q layers ep' in (end, count + count')

  -- the scores of rows to a row: `(v[ids] @ v[e]).tolist()`, zipped with the rows
  unfoldable pub scored_to : ℕ → List ℕ → List Hit
  scored_to e ids = map (hit np v (get_or v e zero_vec)) ids

  -- the body of the loop over the chosen neighbors
  unfoldable pub link_back : ℕ → ℕ → Adjacency → ℕ → Adjacency
  link_back i layer adj e =
      let nb = links adj layer e in
      set_links adj layer e (
        if ltb (length nb) (cap m layer)
        then nb ++ i ∷ []
        else select np v (scored_to e (nb ++ i ∷ [])) (cap m layer) [])

  -- the body of the loop over the layers, and the entry points of the next layer
  unfoldable pub insert_at : ℕ → ℕ → Adjacency × List Hit → ℕ → Adjacency × List Hit
  insert_at i ef_c (adj, eps) layer =
      let w =
        (search_layer np v (links adj layer) (replicate (length v) false) (get_or v i zero_vec) eps
          ef_c).res in
      let chosen = select np v w m [] in
      (foldl (link_back i layer) (set_links adj layer i chosen) chosen, w)

  unfoldable pub insert : List ℕ → ℕ → Adjacency → ℕ → ℕ → ℕ → Adjacency
  insert levels ef_c adj i ep top =
      let q = get_or v i zero_vec in
      let lvl = get_or levels i 0 in
      let (ep', count) = descend (links adj) q (down_to top (top - lvl)) (hit np v q ep) in
      (foldl (insert_at i ef_c) (adj, ep' ∷ []) (down_to (min lvl top) (suc (min lvl top)))).0
