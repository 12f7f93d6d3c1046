-- ===== src/Ivf/Search.antt =====
-- `search` of the inverted file index: the best of the rows in the probed lists.
use vector_retrieval_optimiz.Prelude.{
  ℕ, ◌+◌, suc, ◌≤◌, ◌<◌, ◌≡◌, refl, sym, ap, ◌∙◌, Bool, true, false, not, ◌&&◌, List, [], ◌∷◌, ◌++◌,
  map, if◌then◌else◌, Option, none, some, length, length-map, get_or, filter, All, arith, dec_lt,
  min, max,
}
use vector_retrieval_optimiz.Prelude.Arrays.{gather, compress, argmax, argmax_from, map_id}
use vector_retrieval_optimiz.Prelude.Ranges.{map-map}
use vector_retrieval_optimiz.Numpy.{Numpy, Hit}
use vector_retrieval_optimiz.Distance.{Ranking, scores, top_k}
use vector_retrieval_optimiz.Distance.Best.{best, hits, hits-map}
use vector_retrieval_optimiz.Distance.Selection.{top_k-best}
use vector_retrieval_optimiz.Flat.Selection.{in_mask, is_live}
use vector_retrieval_optimiz.Ivf.{
  Index, members, concat_members, passing, alive, assign_all, build_lists, delete, scanned,
  search_masked, rows_passing,
}
use vector_retrieval_optimiz.Flat.Valid.{DeadFits}
use vector_retrieval_optimiz.Ivf.Nearest.{AreNearest, assign_all-AreNearest}
use vector_retrieval_optimiz.Ivf.Lists.{labelled, members-build_lists, members_out}

filter-filter {ℓ} :
    {A : Type ℓ} (p q : A → Bool) (xs : List A)
    → filter q (filter p xs) ≡ filter (λ x. p x && q x) xs
filter-filter p q [] = refl
filter-filter p q (x ∷ xs) = ground (arith, filter-filter p q xs)

compress-map {ℓ} : {A : Type ℓ} (p : A → Bool) (xs : List A) → compress xs (map p xs) ≡ filter p xs
compress-map p [] = refl
compress-map p (x ∷ xs) = ap (λ rest. if p x then x ∷ rest else rest) (compress-map p xs)

filter-true : (xs : List ℕ) → filter (λ i. true) xs ≡ xs
filter-true [] = refl
filter-true (x ∷ xs) = ap (◌∷◌ x) (filter-true xs)

passing-filter : (m : Option (List Bool)) (ids : List ℕ) → passing m ids ≡ filter (in_mask m) ids
passing-filter none ids = sym (filter-true ids)
passing-filter (some m) ids = compress-map (λ (i : ℕ). get_or m i false) ids

alive-filter :
    (dead : Option (List Bool)) (ids : List ℕ) → alive dead ids ≡ filter (is_live dead) ids
alive-filter none ids = sym (filter-true ids)
alive-filter (some dead) ids =
    rw (map-map not (λ (i : ℕ). get_or dead i false) ids)
      (compress-map (λ (i : ℕ). not (get_or dead i false)) ids)

-- does the row pass the filter, and is it not deleted?
abbrev pub passes : Option (List Bool) → Option (List Bool) → ℕ → Bool
passes m dead i = in_mask m i && is_live dead i

-- The rows whose label is one of the probed lists, list by list.
abbrev pub probed_rows : List ℕ → List (Option ℕ) → List ℕ
probed_rows labels [] = []
probed_rows labels (none ∷ probe) = probed_rows labels probe
probed_rows labels (some c ∷ probe) = labelled labels c ++ probed_rows labels probe

argmax_from-bound :
    (n b v i : ℕ) (xs : List ℕ) → b < n → i + length xs ≤ n → argmax_from b v i xs < n
argmax_from-bound n b v i [] h le = h
argmax_from-bound n b v i (x ∷ xs) h le = elim (dec_lt v x) [
  | yes l ↦ ground (arith, argmax_from-bound n i x (suc i) xs)
  | no l ↦ ground (arith, argmax_from-bound n b v (suc i) xs)
]

argmax-bound : (xs : List ℕ) → 0 < length xs → argmax xs < length xs
argmax-bound [] h = elim h [ ]
argmax-bound (x ∷ xs) h = argmax_from-bound (suc (length xs)) 0 x 1 xs (omega arith) (omega arith)

module _ (np : Numpy) where
  open np use {Vec, zero_vec, dot}

  -- the hit of a row
  abbrev pub row_hit : List Vec → Vec → ℕ → Hit
  row_hit vectors query i = record { row = i; score = dot query (get_or vectors i zero_vec) }

  -- the lists that a search probes: the nearest centers, in order of their scores
  abbrev pub probe_of : Index Vec → Vec → ℕ → List (Option ℕ)
  probe_of index query nprobe =
      (best (max 1 (min nprobe index.nlist)) (hits none (scores np query index.centers))).ids

  pub labels_bound :
      (vectors centers : List Vec)
      → 0 < length centers
      → All (λ l. l < length centers) (assign_all np vectors centers)
  unfolding assign_all
  labels_bound [] centers h = tt
  labels_bound (v ∷ vectors) centers h =
      let s = map (λ c. dot v c) centers in
      let e = length-map (λ c. dot v c) centers in
      (rw e at (argmax-bound s (omega (arith, e))), labels_bound vectors centers h)

  scanned-filter :
      (index : Index Vec) (query : Vec) (nprobe : ℕ) (m : Option (List Bool))
      → scanned np index query nprobe m
        ≡ filter
            (passes m index.deleted)
            (concat_members index.list_ids index.offsets (probe_of index query nprobe))
  unfolding scanned
  scanned-filter index query nprobe m =
      rw (top_k-best np (scores np query index.centers) (max 1 (min nprobe index.nlist)) none) (
        let ids = concat_members index.list_ids index.offsets (probe_of index query nprobe) in
        alive-filter index.deleted (passing m ids)
        ∙ ap (filter (is_live index.deleted)) (passing-filter m ids)
        ∙ filter-filter (in_mask m) (is_live index.deleted) ids)

  top_k-rows :
      (vectors : List Vec) (query : Vec) (k : ℕ) (ids : List ℕ)
      → top_k np (scores np query (gather zero_vec vectors ids)) k (some ids)
        ≡ best k (map (row_hit vectors query) ids)
  unfolding scores
  top_k-rows vectors query k ids =
      let at = λ (i : ℕ). dot query (get_or vectors i zero_vec) in
      rw (map-map (dot query) (λ (i : ℕ). get_or vectors i zero_vec) ids) (
        top_k-best np (map at ids) k (some ids)
        ∙ ap (best k) (rw (map_id ids) at (hits-map (λ i. i) at ids)))

  -- A search returns the k best of the rows of the probed lists that pass the filter and are not
  -- deleted, and counts the centers and these rows, and the rows that pass the filter.
  pub search_masked-best :
      (index : Index Vec) (query : Vec) (k nprobe : ℕ) (m : Option (List Bool))
      → let rows =
          filter
            (passes m index.deleted)
            (concat_members index.list_ids index.offsets (probe_of index query nprobe)) in
        search_masked np index query k nprobe m ≡ (
          best k (map (row_hit index.vectors query) rows),
          record index {
            distance_computations = index.nlist + length rows;
            filter_rows = rows_passing (length index.vectors) m;
          },
        )
  unfolding search_masked
  search_masked-best index query k nprobe m = rw (scanned-filter index query nprobe m) (
      ap
        (λ (r : Ranking). (
          r,
          record index {
            distance_computations =
                index.nlist
                + length (
                    filter (passes m index.deleted)
                      (concat_members index.list_ids index.offsets (probe_of index query nprobe)));
            filter_rows = rows_passing (length index.vectors) m;
          },
        ))
        (top_k-rows index.vectors query k _))

  module _ (vectors centers : List Vec) (some_center : 0 < length centers) where
    abbrev built : Index Vec
    built = build_lists np (length centers) vectors centers

    members_at :
        (c : ℕ)
        → members built.list_ids built.offsets c ≡ labelled (assign_all np vectors centers) c
    unfolding build_lists
    members_at c = elim (dec_lt c (length centers)) [
      | yes h ↦ members-build_lists np (length centers) c vectors centers h
      | no h ↦
          members_out (length centers) c (assign_all np vectors centers)
            (np.argsort (assign_all np vectors centers)) (omega arith)
            (labels_bound vectors centers some_center)
    ]

    concat_members-probed :
        (probe : List (Option ℕ))
        → concat_members built.list_ids built.offsets probe
          ≡ probed_rows (assign_all np vectors centers) probe
    unfolding concat_members
    concat_members-probed [] = refl
    concat_members-probed (none ∷ probe) = concat_members-probed probe
    concat_members-probed (some c ∷ probe) = cc (members_at c, concat_members-probed probe)

  -- On an index built with at least one center and then given a tombstone for each row, a search
  -- with a filter mask for each row, or none, returns exactly the k best of the rows whose nearest
  -- center, the lowest on ties, is one of the probed ones, that pass the filter and are not
  -- deleted; the probed centers are the max(1, min(nprobe, nlist)) best for the query.
  pub search_masked-build_lists :
      (vectors centers : List Vec) (dead : List Bool) (query : Vec) (k nprobe : ℕ)
      (m : Option (List Bool))
      → 0 < length centers
      → length dead ≡ length vectors
      → DeadFits m (length vectors)
      → let probe =
          (best (max 1 (min nprobe (length centers))) (hits none (scores np query centers))).ids in
        (labels : List ℕ) × AreNearest np centers vectors labels
        × ((search_masked np
              (delete np (build_lists np (length centers) vectors centers) dead)
              query
              k
              nprobe
              m).0
            ≡ best k (
                map
                  (row_hit vectors query)
                  (filter (passes m (some dead)) (probed_rows labels probe))))
  unfolding delete build_lists
  search_masked-build_lists vectors centers dead query k nprobe m h dead_fits mask_fits =
      let index = delete np (build_lists np (length centers) vectors centers) dead in
      (
        assign_all np vectors centers,
        assign_all-AreNearest np centers vectors h,
        ap (λ (r : Ranking × Index Vec). r.0) (search_masked-best index query k nprobe m)
            ∙ ap
                (λ (rows : List ℕ).
                  best k (map (row_hit vectors query) (filter (passes m (some dead)) rows)))
                (concat_members-probed vectors centers h (probe_of index query nprobe)),
      )
