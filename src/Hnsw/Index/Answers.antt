-- ===== src/Hnsw/Index/Answers.antt =====
-- What `search` of hnsw.py answers: sorted hits of rows that pass the mask.
use vector_retrieval_optimiz.Prelude.{
  ℕ, ◌-◌, ◌≤◌, ◌<◌, ◌≡◌, refl, Bool, true, false, List, [], ◌∷◌, ◌++◌, map, Option, none, some,
  length, length-take, get_or, take, replicate, All, All-map, All-take, arith, max,
}
use vector_retrieval_optimiz.Prelude.Sorting.{
  Sorted, Sorted-take, sort_by, sort_by-Sorted, All-sort_by,
}
use vector_retrieval_optimiz.Numpy.{Numpy, Hit, better, neg_inf}
use vector_retrieval_optimiz.Distance.{Ranking}
use vector_retrieval_optimiz.Distance.Best.{better-StrictWeak}
use vector_retrieval_optimiz.Hnsw.Layer.{hit, IsHit}
use vector_retrieval_optimiz.Hnsw.Layer.Results.{search_layer_filtered-IsHit, search_layer-IsHit}
use vector_retrieval_optimiz.Hnsw.Graph.{down_to}
use vector_retrieval_optimiz.Hnsw.Graph.Inserted.{descend-IsHit}
use vector_retrieval_optimiz.Hnsw.Frozen.{neighbors}
use vector_retrieval_optimiz.Hnsw.Index.{Index, row_id, walk0, ranking, search_masked}

-- does a row pass the mask?
abbrev pub passes : Option (List Bool) → ℕ → Bool
passes none i = true
passes (some mask) i = get_or mask i false

-- the lists of the graph name rows of the index, and so does the entry point
abbrev pub InRange : (np : Numpy) → Index np.Vec → Type 0
InRange np index =
    ((layer i : ℕ) → All (λ j. j < length index.v) (neighbors index.store layer i))
    × (index.entry < length index.v)

module _ (np : Numpy) (index : Index np.Vec) (query : np.Vec) where
  -- The answer is the row IDs and scores of at most k sorted hits of rows that pass, then padding.
  pub record IsAnswer (k : ℕ) (mask : Option (List Bool)) (out : Ranking) : Type 0 where
    pub best : List Hit
    pub few : length best ≤ k
    pub sorted : Sorted better best
    pub hits : All (λ (h : Hit). IsHit np index.v query h × (passes mask h.row ≡ true)) best
    pub ids_eq :
        out.ids
        ≡ map (λ (h : Hit). some (row_id index.id_map h.row)) best
          ++ replicate (k - length best) none
    pub scores_eq :
        out.scores ≡ map (λ (h : Hit). h.score) best ++ replicate (k - length best) neg_inf

  walk0-hits :
      InRange np index
      → (ep : Hit) (ef : ℕ) (mask : Option (List Bool)) → 1 ≤ ef
      → IsHit np index.v query ep
      → All
          (λ (h : Hit). IsHit np index.v query h × (passes mask h.row ≡ true))
          ((walk0 np index query ep ef mask).0.res)
  unfolding walk0
  walk0-hits ok_rows ep ef none pos h =
      All-map (λ x k. (k, refl)) _
        ((search_layer-IsHit np index.v (neighbors index.store 0) query (ok_rows.0 0)
          (replicate (length index.v) false) (ep ∷ []) ef pos (h, tt)).1)
  walk0-hits ok_rows ep ef (some mask) pos h =
      (search_layer_filtered-IsHit np index.v (neighbors index.store 0) query (ok_rows.0 0)
        (λ i. get_or mask i false) (replicate (length index.v) false) (ep ∷ []) ef pos (h, tt)).1

  ranking-IsAnswer :
      (k : ℕ) (mask : Option (List Bool)) (res : List Hit)
      → All (λ (h : Hit). IsHit np index.v query h × (passes mask h.row ≡ true)) res
      → IsAnswer k mask (ranking index.id_map k res)
  unfolding ranking
  ranking-IsAnswer k mask res ok_hits = record {
    best = take k (sort_by better res);
    few = omega (arith, length-take k (sort_by better res));
    sorted = Sorted-take better k (sort_by better res) (sort_by-Sorted better-StrictWeak res);
    hits = All-take _ k (sort_by better res) (All-sort_by better _ res ok_hits);
    ids_eq = refl;
    scores_eq = refl;
  }

  -- Where the lists and the entry point name rows of the index, and k is not 0, `search` with a mask
  -- answers with at most k hits in the order of the scores, each a row that passes the mask with its own
  -- score for the query, and with padding.
  pub search_masked-IsAnswer :
      InRange np index
      → (k ef : ℕ) (mask : Option (List Bool)) → 1 ≤ k
      → IsAnswer k mask ((search_masked np index query k ef mask).0)
  unfolding search_masked
  search_masked-IsAnswer ok_rows k ef mask pos = ranking-IsAnswer k mask _ (
      walk0-hits ok_rows _ (max ef k) mask (omega arith) (
        descend-IsHit np index.v index.m (neighbors index.store) query ok_rows.0
          (down_to index.top index.top) (hit np index.v query index.entry) (refl, ok_rows.1)))
