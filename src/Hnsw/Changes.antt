-- ===== src/Hnsw/Changes.antt =====
-- `_pick_entry`, `_update_nodes` and `_refill` of hnsw.py, on the lists of a thawed graph.
pub mod Refilled
pub mod Cleaned
pub mod Entry
use vector_retrieval_optimiz.Prelude.{
  ℕ, zero, suc, ◌+◌, ◌-◌, Bool, true, false, not, ◌&&◌, ◌||◌, List, [], ◌∷◌, ◌++◌, map, foldl,
  Option, none, some, Result, ok, guard, value_error, ◌>>=◌, ◌>>◌, ltb, ◌==◌, if◌then◌else◌, length,
  get_or, set, filter, replicate, range_from, any, elem,
}
use vector_retrieval_optimiz.Prelude.Arrays.{gather, flatnonzero, fill_at}
use vector_retrieval_optimiz.Numpy.{Numpy}
use vector_retrieval_optimiz.Hnsw.{Layer, Adjacency, list_of, links, set_links, cap}
use vector_retrieval_optimiz.Hnsw.Select.{select}
use vector_retrieval_optimiz.Hnsw.Graph.{max_of, scored_to, insert}
use vector_retrieval_optimiz.Hnsw.Repair.{is_dead}

-- the first position of a value
unfoldable pub first_at : ℕ → List ℕ → ℕ
first_at x [] = 0
first_at x (y ∷ ys) = if y == x then 0 else suc (first_at x ys)

-- The live node of the highest level, ties to the lowest row, and its level. Without a live node,
-- the maximum of an empty array raises.
unfoldable pub pick_entry : List ℕ → List Bool → Result (ℕ × ℕ)
pick_entry levels live =
    let cand = flatnonzero live in
    let lv = gather 0 levels cand in
    let best = get_or cand (first_at (max_of lv) lv) 0 in
    do guard (ltb 0 (length cand)) value_error; ok (best, get_or levels best 0)

-- Step 1 of an update: the node's list without the updated nodes, empty if it is updated itself.
unfoldable pub unlinked : List ℕ → ℕ → Option (List ℕ) → Option (List ℕ)
unlinked pend node none = none
unlinked pend node (some nb) =
    if elem node pend then some [] else some (filter (λ e. not (elem e pend)) nb)

unfoldable pub unlink_from : List ℕ → ℕ → Layer → Layer
unlink_from pend node [] = []
unlink_from pend node (nb ∷ nodes) = unlinked pend node nb ∷ unlink_from pend (suc node) nodes

-- the body of the innermost loop of `_refill`: the candidates, and the nodes already seen
unfoldable pub gather_one : List Bool → List ℕ × List ℕ → ℕ → List ℕ × List ℕ
gather_one dead (cands, seen) e =
    if get_or dead e false || elem e seen then (cands, seen) else (cands ++ e ∷ [], e ∷ seen)

-- the loop over the neighbors: the lists of the deleted ones are gathered
unfoldable pub gather_dead : List Bool → Layer → List ℕ × List ℕ → ℕ → List ℕ × List ℕ
gather_dead dead nodes found d =
    if get_or dead d false
    then foldl (gather_one dead) found (list_of (get_or nodes d none))
    else found

-- the last loop: deleted nodes lose their lists
unfoldable pub cleared_node : List Bool → ℕ → Option (List ℕ) → Option (List ℕ)
cleared_node dead x none = none
cleared_node dead x (some nb) = if get_or dead x false then some [] else some nb

unfoldable pub clear_from : List Bool → ℕ → Layer → Layer
clear_from dead x [] = []
clear_from dead x (nb ∷ nodes) = cleared_node dead x nb ∷ clear_from dead (suc x) nodes

module _ (np : Numpy) (v : List np.Vec) (m : ℕ) where
  -- the body of the loop of step 2: the lists, and the entry point that is used
  unfoldable pub reinsert : List ℕ → ℕ → ℕ → ℕ → Adjacency × ℕ × ℕ → ℕ → Adjacency × ℕ × ℕ
  reinsert levels ef_c ep top (adj, start, s_top) i =
      let adj' = insert np v m levels ef_c adj i start s_top in
      if i == ep then (adj', ep, top) else (adj', start, s_top)

  -- the live nodes, for the temporary entry point
  abbrev pub start_of : List ℕ → ℕ → List ℕ → ℕ → ℕ → Result (ℕ × ℕ)
  start_of levels n pend ep top =
      if elem ep pend
      then pick_entry levels (fill_at (replicate n true) pend false)
      else ok (ep, top)

  -- `_update_nodes`, of IDs of rows of the graph
  unfoldable pub update_nodes : List ℕ → ℕ → ℕ → Adjacency → List ℕ → ℕ → ℕ → Result Adjacency
  update_nodes levels n ef_c adj pend ep top = do
    (start, s_top) ← start_of levels n pend ep top
    ok (
        (foldl (reinsert levels ef_c ep top) (map (unlink_from pend 0) adj, start, s_top)
          (filter (λ i. elem i pend) (range_from 0 n))).0)

  -- the new list of a live node, from its list nb
  unfoldable pub refilled : List Bool → ℕ → Layer → ℕ → List ℕ → List ℕ
  refilled dead layer nodes x nb =
      let cands = filter (λ e. not (get_or dead e false)) nb in
      let found = foldl (gather_dead dead nodes) (cands, x ∷ cands) nb in
      elim found.0 [ [] ↦ [] | c ∷ cs ↦ select np v (scored_to np v m x (c ∷ cs)) (cap m layer) [] ]

  -- the body of the loop over the nodes of a layer
  unfoldable pub refill_node : List Bool → ℕ → Layer → ℕ → Layer
  refill_node dead layer nodes x = elim (get_or nodes x none) [
    | none ↦ nodes
    | some nb ↦
        if not (get_or dead x false) && any (λ e. get_or dead e false) nb
        then set nodes x (some (refilled dead layer nodes x nb))
        else nodes
  ]

  unfoldable pub refill_layers : List Bool → ℕ → Adjacency → Adjacency
  refill_layers dead layer [] = []
  refill_layers dead layer (nodes ∷ adj) =
      foldl (refill_node dead layer) nodes (range_from 0 (length nodes))
      ∷ refill_layers dead (suc layer) adj

  -- `_refill`
  unfoldable pub refill : List Bool → Adjacency → Adjacency
  refill dead adj = map (clear_from dead 0) (refill_layers dead 0 adj)
