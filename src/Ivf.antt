-- ===== src/Ivf.antt =====
-- indexes/python/ivf.py: the inverted file index in CSR layout, with tombstones, updates and
-- compaction. The centers are an argument of `build_lists`. A mask is to have an entry for every row: a
-- shorter one, at which the source raises IndexError, is read as not set behind its end.
pub mod Buckets
pub mod Lists
pub mod Nearest
pub mod Search
pub mod Compaction
pub mod Listed
pub mod Invariant
pub mod Saved
use vector_retrieval_optimiz.Prelude.{
  ℕ, ◌+◌, ◌-◌, ◌*◌, suc, Bool, true, false, not, ◌&&◌, String, List, [], ◌∷◌, ◌++◌, map, Option,
  none, some, Result, ok, index_error, guard, ◌>>◌, ◌>>=◌, if◌then◌else◌, length, replicate, get_or,
  take, drop, filter, range_from, set, min, max,
}
use vector_retrieval_optimiz.Prelude.Arrays.{
  gather, scatter, compress, cumsum_from, bincount_from, diff, repeat_from, argmax,
}
use vector_retrieval_optimiz.Numpy.{Numpy}
use vector_retrieval_optimiz.Distance.{Ranking, scores, top_k}
use vector_retrieval_optimiz.Files.{Files}
use vector_retrieval_optimiz.Filters.{ones}
use vector_retrieval_optimiz.Flat.{is_some, or_else, all_below}
use vector_retrieval_optimiz.Filters.Memo.{mask_of}
use vector_retrieval_optimiz.Changes.{tombstone_bytes}

pub record Index (V : Type 0) : Type 0 where
  pub vectors : List V
  pub owned : Bool
  pub centers : List V
  pub list_ids : List ℕ
  pub offsets : List ℕ
  pub nlist : ℕ
  pub deleted : Option (List Bool)
  pub distance_computations : ℕ
  pub filter_rows : ℕ

-- offsets = zeros(nlist + 1); cumsum(counts, out=offsets[1:])
unfoldable pub offsets_of : ℕ → List ℕ → List ℕ
unfolding bincount_from
offsets_of nlist labels = 0 ∷ cumsum_from 0 (bincount_from 0 nlist labels)

-- list_ids[offsets[c] : offsets[c + 1]]
unfoldable pub members : List ℕ → List ℕ → ℕ → List ℕ
members list_ids offsets c =
    let lo = get_or offsets c 0 in
    let hi = get_or offsets (suc c) 0 in take (hi - lo) (drop lo list_ids)

-- np.concatenate over the probed lists
unfoldable pub concat_members : List ℕ → List ℕ → List (Option ℕ) → List ℕ
unfolding members
concat_members list_ids offsets [] = []
concat_members list_ids offsets (none ∷ probe) = concat_members list_ids offsets probe
concat_members list_ids offsets (some c ∷ probe) =
    members list_ids offsets c ++ concat_members list_ids offsets probe

-- ids[mask[ids]] and ids[~dead[ids]]
abbrev pub passing : Option (List Bool) → List ℕ → List ℕ
passing none ids = ids
passing (some m) ids = compress ids (gather false m ids)

abbrev pub alive : Option (List Bool) → List ℕ → List ℕ
alive none ids = ids
alive (some dead) ids = compress ids (map not (gather false dead ids))

-- `filter_rows`. The masks of a filter stay in the memo of `mask`, so that the count that `count`
-- keeps for the address of a mask is its number of passing rows.
abbrev pub rows_passing : ℕ → Option (List Bool) → ℕ
rows_passing n none = n
rows_passing n (some m) = ones m

-- `_labels`
unfoldable pub labels_of : List ℕ → List ℕ
labels_of offsets = repeat_from 0 (diff offsets)

module _ (np : Numpy) where
  open np use {Vec, zero_vec, dot, argsort, lexsort_ids}

  -- np.argmax(vectors @ centers.T, axis=1)
  unfoldable pub assign_all : List Vec → List Vec → List ℕ
  assign_all vectors centers = map (λ v. argmax (map (λ c. dot v c) centers)) vectors

  -- the part of `build` that follows the training of the centers
  unfoldable pub build_lists : ℕ → List Vec → List Vec → Index Vec
  unfolding assign_all offsets_of
  build_lists nlist vectors centers =
      let labels = assign_all vectors centers in
      record {
        vectors = vectors;
        owned = false;
        centers = centers;
        list_ids = argsort labels;
        offsets = offsets_of nlist labels;
        nlist = nlist;
        deleted = none;
        distance_computations = 0;
        filter_rows = 0;
      }

  -- `_set_lists`, which its callers give one label below nlist for each ID
  unfoldable pub set_lists : Index Vec → List ℕ → List ℕ → Index Vec
  unfolding offsets_of
  set_lists index ids labels = record index {
    list_ids = gather 0 ids (lexsort_ids ids labels);
    offsets = offsets_of index.nlist labels;
  }

  -- `by_id` after the updates: the list of every ID, none where the ID is in no list
  unfoldable pub relabelled : Index Vec → List ℕ → List ℕ → List (Option ℕ)
  unfolding labels_of
  relabelled index ids new =
      let by_id =
        scatter (replicate (length index.vectors) none) index.list_ids
          (map some (labels_of index.offsets)) in
      let present = map (λ (i : ℕ). is_some (get_or by_id i none)) ids in
      scatter by_id (compress ids present) (map some (compress new present))

  unfoldable pub update : Index Vec → List ℕ → List Vec → Result (Index Vec)
  update index ids vectors = do
    guard (all_below (length index.vectors) ids) index_error
    let by_id = relabelled index ids (assign_all vectors index.centers)
    let labels = map (λ (i : ℕ). or_else (get_or by_id i none) 0) index.list_ids
    ok (
        set_lists (record index { owned = true; vectors = scatter index.vectors ids vectors })
          index.list_ids labels)

  unfoldable pub delete : Index Vec → List Bool → Index Vec
  delete index mask = record index { deleted = some mask }

  -- the body of `if dead is not None`
  unfoldable pub drop_listed : Index Vec → Option (List Bool) → Index Vec
  drop_listed index none = index
  drop_listed index (some dead) =
      let keep = map not (gather false dead index.list_ids) in
      set_lists (record index { deleted = none }) (compress index.list_ids keep)
        (compress (labels_of index.offsets) keep)

  unfoldable pub compact : Index Vec → Index Vec
  compact index = drop_listed index index.deleted

  unfoldable pub index_bytes : ℕ → Index Vec → ℕ
  unfolding tombstone_bytes
  index_bytes dim index =
      length index.centers * dim * 4
      + 8 * length index.list_ids
      + elim index.deleted [ none ↦ 0 | some dead ↦ tombstone_bytes (length dead) ]

  -- the IDs that `search` scores: those of the probed lists that pass the filter and are not deleted
  unfoldable pub scanned : Index Vec → Vec → ℕ → Option (List Bool) → List ℕ
  scanned index query nprobe mask =
      let probe =
        (top_k np (scores np query index.centers) (max 1 (min nprobe index.nlist)) none).ids in
      alive index.deleted (passing mask (concat_members index.list_ids index.offsets probe))

  unfoldable pub search_masked : Index Vec → Vec → ℕ → ℕ → Option (List Bool) → Ranking × Index Vec
  search_masked index query k nprobe mask =
      let ids = scanned index query nprobe mask in
      (
        top_k np (scores np query (gather zero_vec index.vectors ids)) k (some ids),
        record index {
          distance_computations = index.nlist + length ids;
          filter_rows = rows_passing (length index.vectors) mask;
        },
      )

  unfoldable pub search :
      Files Vec → Index Vec → Vec → ℕ → ℕ → String → Result (Ranking × Index Vec)
  search files index query k nprobe name = do
    mask ← mask_of files name (length index.vectors)
    ok (search_masked index query k nprobe mask)
