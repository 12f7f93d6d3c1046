-- ===== src/Flat.antt =====
-- indexes/python/flat.py: exact search by scanning every row, with tombstones, updates, compaction
-- and the two caches of filtered rows. A missing key of the index is `none`. The copies that `_own`
-- and `delete` make are invisible here: arrays are values. A call that raises returns no index: of an
-- update that is refused, the `_own` before it is not shown.
pub mod Selection
pub mod Valid
pub mod Allowed
pub mod Scanned
pub mod Search
pub mod Compaction
pub mod Changes
pub mod Effects
pub mod Saved
use vector_retrieval_optimiz.Prelude.{
  ℕ, ◌+◌, ◌*◌, zero, suc, Bool, true, false, not, ◌&&◌, String, List, [], ◌∷◌, map, Option, none,
  some, Result, ok, raise, value_error, index_error, guard, ltb, ◌>>=◌, ◌==◌, ◌>>◌, if◌then◌else◌,
  length, replicate, get_or, str_eq,
}
use vector_retrieval_optimiz.Prelude.Arrays.{gather, scatter, flatnonzero}
use vector_retrieval_optimiz.Numpy.{Numpy}
use vector_retrieval_optimiz.Distance.{Ranking, scores, top_k, rows_at}
use vector_retrieval_optimiz.Files.{Files}
use vector_retrieval_optimiz.Filters.Memo.{mask_of}
use vector_retrieval_optimiz.Changes.{tombstone_bytes}

-- The entries of `filtered` and `filtered_rows`: a filter name with what was stored for it.
unfoldable pub cached {ℓ} : {A : Type ℓ} → String → List (String × A) → Option A
cached name [] = none
cached name ((n, a) ∷ c) = if str_eq n name then some a else cached name c

pub record Index (V : Type 0) : Type 0 where
  pub vectors : List V
  pub owned : Bool
  pub n_orig : Option ℕ
  pub id_map : Option (List ℕ)
  pub deleted : Option (List Bool)
  pub filtered : List (String × (List ℕ × List ℕ))
  pub filtered_rows : List (String × List V)
  pub distance_computations : ℕ
  pub filter_rows : ℕ

-- Readings of the optional keys.
abbrev pub or_else {ℓ} : {A : Type ℓ} → Option A → A → A
or_else none d = d
or_else (some a) d = a

abbrev pub is_some {ℓ} : {A : Type ℓ} → Option A → Bool
is_some none = false
is_some (some a) = true

-- allow &= ~dead
abbrev pub and_not : List Bool → List Bool → List Bool
and_not [] ds = []
and_not (a ∷ bs) [] = a ∷ bs
and_not (a ∷ bs) (d ∷ ds) = (a && not d) ∷ and_not bs ds

abbrev pub without_dead : Option (List Bool) → List Bool → List Bool
without_dead none allow = allow
without_dead (some dead) allow = and_not allow dead

-- are all the positions those of an array of this length?
abbrev pub all_below : ℕ → List ℕ → Bool
all_below n [] = true
all_below n (i ∷ is) = ltb i n && all_below n is

-- `fmask[id_map]` where both are there: the filter's mask over the rows of the index
abbrev pub through : Option (List ℕ) → Option (List Bool) → Option (List Bool)
through ids none = none
through none (some f) = some f
through (some ids) (some f) = some (gather false f ids)

module _ (np : Numpy) (files : Files np.Vec) where
  open np use {Vec, zero_vec}

  unfoldable pub build : List Vec → Index Vec
  build vectors = record {
    vectors = vectors;
    owned = false;
    n_orig = none;
    id_map = none;
    deleted = none;
    filtered = [];
    filtered_rows = [];
    distance_computations = 0;
    filter_rows = 0;
  }

  -- The filter's mask over the rows of the index: the original rows' mask, through the ID map.
  unfoldable pub filter_mask : Index Vec → String → Result (Option (List Bool))
  filter_mask index name = if str_eq name "none" then ok none else do
    m ← mask_of files name (or_else index.n_orig (length index.vectors))
    ok (through index.id_map m)

  -- The (positions, ids) that `_allowed` computes when its cache has no entry.
  unfoldable pub select : Index Vec → Option (List Bool) → List ℕ × List ℕ
  select index fmask =
      let allow = or_else fmask (replicate (length index.vectors) true) in
      let live = without_dead index.deleted allow in
      let pos = flatnonzero live in (pos, rows_at index.id_map pos)

  -- `_allowed`, from the filter's mask on
  unfoldable pub allowed_by :
      Index Vec → String → Option (List Bool) → Option (List ℕ × List ℕ) × Index Vec
  allowed_by index name fmask =
      if not (is_some fmask) && not (is_some index.deleted)
      then (none, index)
      else elim (cached name index.filtered) [
        | some sel ↦ (some sel, index)
        | none ↦
            let sel = select index fmask in
            (some sel, record index { filtered = (name, sel) ∷ index.filtered })
      ]

  unfoldable pub allowed : Index Vec → String → Result (Option (List ℕ × List ℕ) × Index Vec)
  allowed index name = do fmask ← filter_mask index name; ok (allowed_by index name fmask)

  -- the rows that `filtered_rows` holds for the filter, stored on first use
  unfoldable pub filtered_vectors : Index Vec → String → List ℕ → List Vec × Index Vec
  filtered_vectors index name pos = elim (cached name index.filtered_rows) [
    | some rows ↦ (rows, index)
    | none ↦
        let rows = gather zero_vec index.vectors pos in
        (rows, record index { filtered_rows = (name, rows) ∷ index.filtered_rows })
  ]

  -- `search`, from the selected positions on
  unfoldable pub search_selected :
      Index Vec → Vec → ℕ → String → Option (List ℕ × List ℕ) → Ranking × Index Vec
  unfolding scores
  search_selected index query k name none = (
    top_k np (scores np query index.vectors) k index.id_map,
    record index {
      distance_computations = length index.vectors;
      filter_rows = length index.vectors;
    },
  )
  search_selected index query k name (some (pos, ids)) =
      if is_some index.deleted
      then (
        top_k np (gather 0 (scores np query index.vectors) pos) k (some ids),
        record index { distance_computations = length index.vectors; filter_rows = length ids },
      )
      else (let (rows, index') = filtered_vectors index name pos in
          (
            top_k np (scores np query rows) k (some ids),
            record index' { distance_computations = length ids; filter_rows = length ids },
          ))

  unfoldable pub search : Index Vec → Vec → ℕ → String → Result (Ranking × Index Vec)
  search index query k name = do
    (sel, index') ← allowed index name
    ok (search_selected index' query k name sel)

  unfoldable pub own : Index Vec → Index Vec
  own index =
      if index.owned
      then index
      else record index { owned = true; n_orig = some (length index.vectors) }

  -- the two `pop` calls that end every change
  abbrev pub drop_caches : Index Vec → Index Vec
  drop_caches index = record index { filtered = []; filtered_rows = [] }

  unfoldable pub delete : Index Vec → List Bool → Index Vec
  unfolding own
  delete index mask = drop_caches (record (own index) { deleted = some mask })

  -- the rows that numpy writes at n positions: one for each, or the same one for all
  unfoldable pub fitted : ℕ → List Vec → Result (List Vec)
  fitted n [] = if n == 0 then ok [] else raise value_error
  fitted n (x ∷ []) = ok (replicate n x)
  fitted n (x ∷ y ∷ xs) = if length (x ∷ y ∷ xs) == n then ok (x ∷ y ∷ xs) else raise value_error

  unfoldable pub update : Index Vec → List ℕ → List Vec → Result (Index Vec)
  unfolding own fitted
  update index ids vectors =
      let owned = own index in
      do
        guard (not (is_some owned.id_map)) value_error
        rows ← fitted (length ids) vectors
        guard (all_below (length owned.vectors) ids) index_error
        ok (drop_caches (record owned { vectors = scatter owned.vectors ids rows }))

  -- the body of `if dead is not None`
  unfoldable pub drop_dead : Index Vec → Option (List Bool) → Index Vec
  drop_dead index none = index
  drop_dead index (some dead) =
      let live = flatnonzero (map not dead) in
      record index {
        vectors = gather zero_vec index.vectors live;
        id_map = some (rows_at index.id_map live);
        deleted = none;
      }

  unfoldable pub compact : Index Vec → Index Vec
  unfolding own drop_dead
  compact index = let owned = own index in drop_caches (drop_dead owned owned.deleted)

  -- dim is the number of float32 values of a row
  unfoldable pub index_bytes : ℕ → Index Vec → ℕ
  unfolding tombstone_bytes
  index_bytes dim index =
      if index.owned
      then length index.vectors * dim * 4
        + elim index.id_map [ none ↦ 0 | some ids ↦ 8 * length ids ]
        + elim index.deleted [ none ↦ 0 | some dead ↦ tombstone_bytes (length dead) ]
      else 0
