-- ===== src/Hnsw/Graph/Inserted.antt =====
-- `insert` of hnsw.py, layer by layer, keeps the lists within their caps and the rows.
use vector_retrieval_optimiz.Prelude.{
  ℕ, suc, ◌-◌, ◌≤◌, ◌<◌, refl, false, List, [], ◌∷◌, foldl, length, get_or, All, All-map, arith,
  replicate, min,
}
use vector_retrieval_optimiz.Numpy.{Numpy, Hit}
use vector_retrieval_optimiz.Hnsw.{Adjacency, links, set_links}
use vector_retrieval_optimiz.Hnsw.Select.{select}
use vector_retrieval_optimiz.Hnsw.Select.Picks.{select_bounds}
use vector_retrieval_optimiz.Hnsw.Layer.{hit, IsHit, search_layer, greedy}
use vector_retrieval_optimiz.Hnsw.Layer.Results.{search_layer-IsHit}
use vector_retrieval_optimiz.Hnsw.Layer.Greedy.{greedy-IsHit}
use vector_retrieval_optimiz.Hnsw.Graph.{down_to, descend, insert_at, insert}
use vector_retrieval_optimiz.Hnsw.Graph.Bounded.{
  AllBounded, set_links-AllBounded, cap-ge, foldl-link_back-AllBounded,
}

-- On every layer, the descent ends at a hit of a row of the index.
pub descend-IsHit :
    (np : Numpy) (v : List np.Vec) (m : ℕ) (nbr : ℕ → ℕ → List ℕ) (q : np.Vec)
    → ((layer i : ℕ) → All (λ j. j < length v) (nbr layer i))
    → (layers : List ℕ) (ep : Hit) → IsHit np v q ep
    → IsHit np v q (descend np v m nbr q layers ep).0
unfolding descend
descend-IsHit np v m nbr q in_range [] ep h = h
descend-IsHit np v m nbr q in_range (layer ∷ layers) ep h =
    descend-IsHit np v m nbr q in_range layers (greedy np v (nbr layer) (length v) q ep).0
      ((greedy-IsHit np v (nbr layer) q (in_range layer) ep h).0)

module _ (np : Numpy) (v : List np.Vec) (m ef_c i : ℕ) (pos : 1 ≤ m) (ef_pos : 1 ≤ ef_c)
    (row : i < length v) where
  -- the graph between two layers of an insert, and the entry points for the next
  abbrev Between : Adjacency × List Hit → Type 0
  Between (adj, eps) = AllBounded np v m adj × All (IsHit np v (get_or v i np.zero_vec)) eps

  insert_at-Between :
      (state : Adjacency × List Hit) (layer : ℕ)
      → Between state
      → Between (insert_at np v m i ef_c state layer)
  unfolding insert_at
  insert_at-Between (adj, eps) layer b =
      let q = get_or v i np.zero_vec in
      let found =
        search_layer-IsHit np v (links adj layer) q (λ x. (b.0 layer x).1)
          (replicate (length v) false) eps ef_c ef_pos b.1 in
      let w = (search_layer np v (links adj layer) (replicate (length v) false) q eps ef_c).res in
      let chosen = select np v w m [] in
      let bounds =
        select_bounds np v (λ j. j < length v) w m [] pos (All-map (λ h k. k.1) w found.1) in
      (
        foldl-link_back-AllBounded np v m i layer chosen (set_links adj layer i chosen) pos row (
            set_links-AllBounded np v m adj layer i chosen b.0
              (omega (arith, bounds.0, cap-ge np v m layer), bounds.1)),
        found.1,
      )

  foldl-insert_at-Between :
      (layers : List ℕ) (state : Adjacency × List Hit)
      → Between state
      → Between (foldl (insert_at np v m i ef_c) state layers)
  foldl-insert_at-Between [] state b = b
  foldl-insert_at-Between (layer ∷ layers) state b =
      foldl-insert_at-Between layers (insert_at np v m i ef_c state layer)
        (insert_at-Between state layer b)

  -- With m and ef_construct of at least 1, a new row and an entry point of the index: where every list
  -- is at most as long as the cap of its layer and names rows of the index, so it is after `insert`.
  pub insert-AllBounded :
      (levels : List ℕ) (adj : Adjacency) (ep top : ℕ)
      → ep < length v
      → AllBounded np v m adj
      → AllBounded np v m (insert np v m levels ef_c adj i ep top)
  unfolding insert
  insert-AllBounded levels adj ep top le b =
      let q = get_or v i np.zero_vec in
      let lvl = get_or levels i 0 in
      let start =
        descend-IsHit np v m (links adj) q (λ layer x. (b layer x).1) (down_to top (top - lvl))
          (hit np v q ep) (refl, le) in
      (foldl-insert_at-Between (down_to (min lvl top) (suc (min lvl top)))
        (adj, (descend np v m (links adj) q (down_to top (top - lvl)) (hit np v q ep)).0 ∷ [])
        (b, (start, tt))).0
