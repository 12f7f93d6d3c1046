-- ===== src/Flat/Search.antt =====
-- `search` of the flat index returns the k best of the rows that it is to see, whatever its caches
-- hold, and keeps the index valid.
use vector_retrieval_optimiz.Prelude.{ℕ, ◌≡◌, ap, Bool, String, List, Option, ok}
use vector_retrieval_optimiz.Numpy.{Numpy}
use vector_retrieval_optimiz.Distance.{Ranking}
use vector_retrieval_optimiz.Files.{Files}
use vector_retrieval_optimiz.Flat.{Index, select, allowed, search_selected, search}
use vector_retrieval_optimiz.Flat.Selection.{flat_best}
use vector_retrieval_optimiz.Flat.Valid.{original_mask, IsValid, SameRows}
use vector_retrieval_optimiz.Flat.Allowed.{filter_mask-through, allowed_by-Allowed}
use vector_retrieval_optimiz.Flat.Scanned.{search_selected-best, search_selected-Kept}

module _ (np : Numpy) (files : Files np.Vec) where
  open np use {Vec}

  -- On a valid index, a search whose filter mask can be read returns exactly the k best of the rows
  -- that pass the filter and are not deleted, under their original row IDs, best first, ties to the
  -- lower ID, whatever earlier searches left in the two caches; the index stays valid and keeps its
  -- rows, IDs and tombstones.
  pub search-flat_best :
      (index : Index Vec) (query : Vec) (k : ℕ) (name : String) (m : Option (List Bool))
      → IsValid np files index
      → original_mask np files index name ≡ ok m
      → (index' : Index Vec) × (search np files index query k name
          ≡ ok (flat_best np files index query k m, index'))
        × IsValid np files index'
        × SameRows np files index' index
  unfolding search allowed select
  search-flat_best index query k name m v got =
      let a = allowed_by-Allowed np files index name m got v in
      let index' = record index { filtered = a.cache } in
      let r = search_selected np files index' query k name a.sel in
      let b =
        search_selected-best np files index' name m got query k a.valid a.sel a.is_selection in
      let kept =
        search_selected-Kept np files index' name m got query k a.valid a.sel a.is_selection in
      let same = kept.1 in
      (
        r.1,
        rw (filter_mask-through np files index name m got, a.shape)
            (ap (λ (t : Ranking). ok (t, r.1)) b),
        kept.0,
        record {
          vectors = same.vectors;
          owned = same.owned;
          n_orig = same.n_orig;
          id_map = same.id_map;
          deleted = same.deleted;
        },
      )
