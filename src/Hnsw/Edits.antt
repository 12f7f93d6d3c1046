-- ===== src/Hnsw/Edits.antt =====
-- The operations of hnsw.py that change an index: `delete`, `update`, `compact`, `insert` and
-- `repair`. `insert` is called without the check copy of its vectors, as `vectors=None`. A call
-- that raises returns no index.
pub mod Live
pub mod Emptied
use vector_retrieval_optimiz.Prelude.{
  ℕ, zero, suc, ◌+◌, ◌-◌, ◌*◌, Bool, true, false, not, ◌&&◌, ◌||◌, String, List, [], ◌∷◌, ◌++◌, map,
  foldl, Option, none, some, Result, ok, raise, value_error, index_error, Error, guard, ◌>>=◌, ◌>>◌,
  ltb, leb, ◌==◌, if◌then◌else◌, length, get_or, set, filter, take, replicate, range_from, max,
  str_eq,
}
use vector_retrieval_optimiz.Prelude.Arrays.{gather, scatter, flatnonzero, sum}
use vector_retrieval_optimiz.Prelude.Sorting.{sort_by}
use vector_retrieval_optimiz.Numpy.{Numpy, Score, Hit, better, neg_inf}
use vector_retrieval_optimiz.Distance.{Ranking, rows_at}
use vector_retrieval_optimiz.Files.{Files}
use vector_retrieval_optimiz.Filters.{ones}
use vector_retrieval_optimiz.Filters.Memo.{mask_of}
use vector_retrieval_optimiz.Changes.{tombstone_bytes}
use vector_retrieval_optimiz.Flat.{cached, is_some, or_else, all_below, through, without_dead}
use vector_retrieval_optimiz.Hnsw.{Adjacency, links}
use vector_retrieval_optimiz.Hnsw.Layer.{Walk, hit, search_layer, search_layer_filtered}
use vector_retrieval_optimiz.Hnsw.Graph.{
  LevelOf, draw_levels, empty_adjacency, max_of, down_to, descend, insert,
}
use vector_retrieval_optimiz.Hnsw.Repair.{Repair, reachable0, repair}
use vector_retrieval_optimiz.Hnsw.Frozen.{Store, neighbors, freeze, thaw, insert_frozen}
use vector_retrieval_optimiz.Hnsw.Changes.{pick_entry, update_nodes, refill}
use vector_retrieval_optimiz.Hnsw.Index.{Added, Index, added_of, build}

unfoldable pub delete : {V : Type 0} → Index V → List Bool → Index V
delete index mask = record index { deleted = some mask; allow = [] }

module _ (np : Numpy) (level_of : LevelOf) where
  open np use {Vec, zero_vec}

  unfoldable pub update : Index Vec → List ℕ → List Vec → Result (Index Vec)
  update index ids vectors = do
    guard (not (is_some index.id_map)) value_error
    guard (all_below (length index.v) ids) index_error
    let v = scatter index.v ids vectors
    adj ←
        update_nodes np v index.m index.levels index.n index.ef_construct
          (thaw index.levels index.n index.store) ids index.entry index.top
    let r = repair np v index.m adj index.n index.entry index.top index.ef_construct none
    store ← freeze index.m index.levels index.n r.adj
    ok (record index {
      v = v;
      owned = true;
      store = store;
      update_added = some (added_of r);
      allow = [];
    })

  -- the live rows of a rebuild
  abbrev pub live_rows : Index Vec → List ℕ
  live_rows index = elim index.deleted [
    | none ↦ range_from 0 index.n
    | some dead ↦ flatnonzero (map not (take index.n dead))
  ]

  -- compact(mode="rebuild")
  unfoldable pub rebuild : Index Vec → Result (Index Vec)
  rebuild index = do
    let live = live_rows index
    new ←
        build np level_of (gather zero_vec index.v live) index.m index.ef_construct index.seed
          (length live)
    ok (record new {
      id_map = some (rows_at index.id_map live);
      n_orig = index.n_orig;
      owned = true;
    })

  -- the entry point that a repair compaction keeps or picks
  unfoldable pub live_entry : Index Vec → List Bool → Result (ℕ × ℕ)
  live_entry index dead =
      if get_or dead index.entry false
      then pick_entry (take index.n index.levels) (map not dead)
      else ok (index.entry, index.top)

  -- compact(mode="repair"), of an index with tombstones. With fewer of these than rows `refill`
  -- raises.
  unfoldable pub compact_repair : Index Vec → List Bool → Result (Index Vec)
  compact_repair index dead = do
    let adj = refill np index.v index.m dead (thaw index.levels index.n index.store)
    guard (leb index.n (length dead)) index_error
    (ep, top) ← live_entry index dead
    let r = repair np index.v index.m adj index.n ep top index.ef_construct (some dead)
    store ← freeze index.m index.levels index.n r.adj
    ok (record index {
      store = store;
      entry = ep;
      top = top;
      compact_added = some (added_of r);
      deleted = none;
      allow = [];
    })

  unfoldable pub compact : Index Vec → String → Result (Index Vec)
  compact index mode = if str_eq mode "rebuild" then rebuild index else do
    guard (str_eq mode "repair") value_error
    elim index.deleted [ none ↦ ok index | some dead ↦ compact_repair index (take index.n dead) ]

  -- the body of the loop of `insert`, for the next row
  unfoldable pub insert_row : Index Vec → ℕ → Index Vec
  insert_row index i =
      let store =
        insert_frozen np index.v index.m index.levels index.ef_construct index.store i index.entry
          index.top in
      let lvl = get_or index.levels i 0 in
      let higher = ltb index.top lvl in
      record index {
        store = store;
        entry = if higher then i else index.entry;
        top = if higher then lvl else index.top;
        n = suc i;
      }

  -- `insert`: the index, with the error that stopped it, if one did
  unfoldable pub insert_rows : Index Vec → List ℕ → Index Vec × Option Error
  insert_rows index [] = (index, none)
  insert_rows index (i ∷ ids) = elim (not (i == index.n) || leb (length index.v) i) [
    | true ↦ (index, some value_error)
    | false ↦ insert_rows (insert_row index i) ids
  ]

  -- the module's `repair`
  unfoldable pub repair_index : Index Vec → Result (Added × Index Vec)
  repair_index index =
      let r =
        repair np index.v index.m (thaw index.levels index.n index.store) index.n index.entry
          index.top index.ef_construct none in
      do
        store ← freeze index.m index.levels index.n r.adj
        ok (added_of r, record index { store = store })
