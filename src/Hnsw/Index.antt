-- ===== src/Hnsw/Index.antt =====
-- `build`, `search` and `index_bytes` of hnsw.py. A build without `n_build` is a build of all rows. A
-- call that raises returns no index. `filters.count` of a mask stands for its number of passing rows;
-- Filters.count has its memo.
pub mod Answers
pub mod Built
use vector_retrieval_optimiz.Prelude.{
  ℕ, zero, suc, ◌+◌, ◌-◌, ◌*◌, Bool, true, false, not, ◌&&◌, ◌||◌, String, List, [], ◌∷◌, ◌++◌, map,
  foldl, Option, none, some, Result, ok, raise, value_error, index_error, Error, guard, ◌>>=◌, ◌>>◌,
  ltb, leb, ◌==◌, if◌then◌else◌, length, get_or, set, filter, take, replicate, range_from, max,
  str_eq,
}
use vector_retrieval_optimiz.Prelude.Arrays.{gather, scatter, flatnonzero, sum}
use vector_retrieval_optimiz.Prelude.Sorting.{sort_by}
use vector_retrieval_optimiz.Numpy.{Numpy, Score, Hit, better, neg_inf}
use vector_retrieval_optimiz.Distance.{Ranking, rows_at}
use vector_retrieval_optimiz.Files.{Files}
use vector_retrieval_optimiz.Filters.{ones}
use vector_retrieval_optimiz.Filters.Memo.{mask_of}
use vector_retrieval_optimiz.Changes.{tombstone_bytes}
use vector_retrieval_optimiz.Flat.{cached, is_some, or_else, all_below, through, without_dead}
use vector_retrieval_optimiz.Hnsw.{Adjacency, links}
use vector_retrieval_optimiz.Hnsw.Layer.{Walk, hit, search_layer, search_layer_filtered}
use vector_retrieval_optimiz.Hnsw.Graph.{
  LevelOf, draw_levels, empty_adjacency, max_of, down_to, descend, insert,
}
use vector_retrieval_optimiz.Hnsw.Repair.{Repair, reachable0, repair}
use vector_retrieval_optimiz.Hnsw.Frozen.{Store, neighbors, freeze, thaw, insert_frozen}
use vector_retrieval_optimiz.Hnsw.Changes.{pick_entry, update_nodes, refill}

-- the numbers that a repair pass adds to `extra`
abbrev pub Added : Type 0
Added = ℕ × ℕ

pub record Index (V : Type 0) : Type 0 where
  -- `graph`: rows, the published row count, m, levels and arrays
  pub v : List V
  pub n : ℕ
  pub m : ℕ
  pub levels : List ℕ
  pub store : Store
  -- `ept`
  pub entry : ℕ
  pub top : ℕ
  pub ef_construct : ℕ
  pub seed : ℕ
  pub n_orig : ℕ
  pub owned : Bool
  pub deleted : Option (List Bool)
  pub id_map : Option (List ℕ)
  pub allow : List (String × List Bool)
  -- `extra`
  pub nodes_per_layer : List ℕ
  pub unreachable : ℕ
  pub repair_added : Added
  pub update_added : Option Added
  pub compact_added : Option Added
  -- `distance_computations` and `search_extra`
  pub dist : ℕ
  pub filter_rows : ℕ
  pub visited : ℕ

abbrev pub added_of : Repair → Added
added_of r = (r.added_a, r.added_b)

-- the row of the entry point with its level, and the lists
abbrev pub Built : Type 0
Built = Adjacency × ℕ × ℕ

-- the row IDs of nodes
abbrev pub row_id : Option (List ℕ) → ℕ → ℕ
row_id none i = i
row_id (some ids) i = get_or ids i 0

-- w.sort, w[:k], and the output arrays with their padding
unfoldable pub ranking : Option (List ℕ) → ℕ → List Hit → Ranking
ranking ids k res =
    let w = take k (sort_by better res) in
    record {
      ids = map (λ (h : Hit). some (row_id ids h.row)) w ++ replicate (k - length w) none;
      scores = map (λ (h : Hit). h.score) w ++ replicate (k - length w) neg_inf;
    }

module _ (np : Numpy) (level_of : LevelOf) where
  open np use {Vec, zero_vec}

  -- the body of the loop over the rows in `build`
  unfoldable pub build_row : List Vec → ℕ → List ℕ → ℕ → Built → ℕ → Built
  build_row v m levels ef_c (adj, ep, top) i =
      let adj' = insert np v m levels ef_c adj i ep top in
      let lvl = get_or levels i 0 in if ltb top lvl then (adj', i, lvl) else (adj', ep, top)

  -- the lists of the first n rows and the entry point, before the repair pass
  unfoldable pub build_graph : List Vec → ℕ → ℕ → List ℕ → ℕ → Built
  build_graph v m ef_c levels n =
      foldl (build_row v m levels ef_c)
        (empty_adjacency (take n levels), 0, if n == 0 then 0 else get_or levels 0 0)
        (range_from 1 (n - 1))

  unfoldable pub build : List Vec → ℕ → ℕ → ℕ → ℕ → Result (Index Vec)
  build v m ef_c seed n = do
    guard (leb 2 m && leb 1 ef_c) value_error
    let levels = draw_levels level_of (length v) m seed
    let (adj, ep, top) = build_graph v m ef_c levels n
    let r = repair np v m adj n ep top ef_c none
    store ← freeze m levels n r.adj
    ok (record {
      v = v;
      n = n;
      m = m;
      levels = levels;
      store = store;
      entry = ep;
      top = top;
      ef_construct = ef_c;
      seed = seed;
      n_orig = length v;
      owned = false;
      deleted = none;
      id_map = none;
      allow = [];
      nodes_per_layer =
          map (λ layer. length (filter (λ l. leb layer l) (take n levels)))
            (range_from 0 (suc top));
      unreachable = n - reachable0 (links adj 0) n ep;
      repair_added = added_of r;
      update_added = none;
      compact_added = none;
      dist = 0;
      filter_rows = 0;
      visited = 0;
    })

module _ (np : Numpy) where
  open np use {Vec, zero_vec}

  -- the mask that `_allow` stores when its cache has no entry, from the filter's mask on
  unfoldable pub allow_mask : Index Vec → Option (List Bool) → List Bool
  allow_mask index fm =
      without_dead index.deleted
        (or_else (through index.id_map fm) (replicate (length index.v) true))

  unfoldable pub filter_of : Files Vec → Index Vec → String → Result (Option (List Bool))
  filter_of files index name =
      if str_eq name "none" then ok none else mask_of files name index.n_orig

  -- `_allow`
  unfoldable pub allow : Files Vec → Index Vec → String → Result (Option (List Bool) × Index Vec)
  allow files index name =
      if str_eq name "none" && not (is_some index.deleted)
      then ok (none, index)
      else elim (cached name index.allow) [
        | some mask ↦ ok (some mask, index)
        | none ↦ do
          fm ← filter_of files index name
          let mask = allow_mask index fm
          ok (some mask, record index { allow = (name, mask) ∷ index.allow })
      ]

  -- the layer-0 walk of `search`, and the reported number of filter rows
  unfoldable pub walk0 : Index Vec → Vec → Hit → ℕ → Option (List Bool) → Walk × ℕ
  walk0 index query ep ef none = (
    search_layer np index.v (neighbors index.store 0) (replicate (length index.v) false) query
        (ep ∷ []) ef,
    length index.v,
  )
  walk0 index query ep ef (some mask) = (
    search_layer_filtered np index.v (neighbors index.store 0) (λ i. get_or mask i false)
        (replicate (length index.v) false) query (ep ∷ []) ef,
    ones mask,
  )

  -- `search`, from the mask on
  unfoldable pub search_masked : Index Vec → Vec → ℕ → ℕ → Option (List Bool) → Ranking × Index Vec
  search_masked index query k ef mask =
      let (ep, count) =
        descend np index.v index.m (neighbors index.store) query (down_to index.top index.top)
          (hit np index.v query index.entry) in
      let (w, rows) = walk0 index query ep (max ef k) mask in
      (
        ranking index.id_map k w.res,
        record index { dist = 1 + count + w.dist; filter_rows = rows; visited = w.expanded },
      )

  unfoldable pub search :
      Files Vec → Index Vec → Vec → ℕ → ℕ → String → Result (Ranking × Index Vec)
  search files index query k ef name =
      if length index.v == 0
      then ok (ranking none k [], record index { dist = 0 })
      else do (mask, index') ← allow files index name; ok (search_masked index' query k ef mask)

  unfoldable pub index_bytes : Index Vec → ℕ
  index_bytes index =
      let n = length index.v in
      let total_up = sum index.levels in
      4 * (n * 2 * index.m + total_up * index.m)
      + 4 * (n + total_up)
      + 4 * n
      + 4 * n
      + elim index.deleted [ none ↦ 0 | some dead ↦ tombstone_bytes (length dead) ]
      + elim index.id_map [ none ↦ 0 | some ids ↦ 8 * length ids ]
