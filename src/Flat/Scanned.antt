-- ===== src/Flat/Scanned.antt =====
-- The scan that follows the selection in `search` of the flat index: its ranking, and what it caches.
use vector_retrieval_optimiz.Prelude.{
  ℕ, ◌<◌, ◌≡◌, refl, sym, ap, ◌∙◌, Bool, true, String, List, ◌∷◌, map, Option, none, some, ok,
  length, get_or, range_from, arith, length-map, if◌then◌else◌, str_eq, eq_iff, Bool-cases,
  Option-cases, inl, inr, All, All-everywhere, All-map, All-filter, filter-All,
}
use vector_retrieval_optimiz.Prelude.Arrays.{gather, get_or-map, map_cong_All}
use vector_retrieval_optimiz.Prelude.Ranges.{map-map, range_from-bound}
use vector_retrieval_optimiz.Numpy.{Numpy, Score, neg_inf}
use vector_retrieval_optimiz.Distance.{scores, rows_at, top_k}
use vector_retrieval_optimiz.Distance.Best.{id_at, best, hits, hits-map}
use vector_retrieval_optimiz.Distance.Selection.{top_k-best, rows_at-map}
use vector_retrieval_optimiz.Files.{Files}
use vector_retrieval_optimiz.Flat.{
  Index, cached, is_some, select, filtered_vectors, search_selected,
}
use vector_retrieval_optimiz.Flat.Selection.{sees, seen, row_hit, flat_best, select-seen}
use vector_retrieval_optimiz.Flat.Valid.{original_mask, selection, IsValid, SameRows}
use vector_retrieval_optimiz.Flat.Allowed.{mask_fits, IsSelection}

module _ (np : Numpy) (files : Files np.Vec) (index : Index np.Vec) (name : String)
    (m : Option (List Bool)) (got : original_mask np files index name ≡ ok m) (query : np.Vec)
    (k : ℕ) (v : IsValid np files index) where
  open np use {Vec, zero_vec}

  selected : (selection np files index m).0 ≡ seen np files index m
  selected =
      select-seen np files index m v.ids_fit (mask_fits np files index name m got v.orig_fits)

  -- scores of rows read off positions
  hits_selected :
      (pos : List ℕ)
      → hits
          (some (rows_at index.id_map pos))
          (map (λ i. np.dot query (get_or index.vectors i zero_vec)) pos)
        ≡ map (row_hit np files index query) pos
  hits_selected pos =
      rw (rows_at-map index.id_map pos)
        (hits-map (id_at index.id_map) (λ i. np.dot query (get_or index.vectors i zero_vec)) pos)

  hits_all :
      hits index.id_map (scores np query index.vectors)
      ≡ map (row_hit np files index query) (range_from 0 (length index.vectors))
  unfolding scores
  hits_all =
      let n = length index.vectors in
      rw (length-map (np.dot query) index.vectors) (
        map_cong_All _ _ (range_from 0 n) (
          All-map (λ i h. cc (get_or-map (np.dot query) index.vectors i zero_vec neg_inf h))
            (range_from 0 n) (range_from-bound 0 n n (omega arith))))

  scores_at :
      (pos : List ℕ)
      → All (λ i. i < length index.vectors) pos
      → gather 0 (scores np query index.vectors) pos
        ≡ map (λ i. np.dot query (get_or index.vectors i zero_vec)) pos
  unfolding scores
  scores_at pos h =
      map_cong_All _ _ pos
        (All-map (λ i l. get_or-map (np.dot query) index.vectors i zero_vec 0 l) pos h)

  seen_in_range : All (λ i. i < length index.vectors) (seen np files index m)
  seen_in_range =
      let n = length index.vectors in
      All-filter (λ i. i < n) (sees np files index m) (range_from 0 n)
        (range_from-bound 0 n n (omega arith))

  seen_all :
      m ≡ none → index.deleted ≡ none → seen np files index m ≡ range_from 0 (length index.vectors)
  seen_all e d = filter-All (sees np files index m) _ (All-everywhere _ (λ i. sees_all i) _)
    where
      sees_all : (i : ℕ) → sees np files index m i ≡ true
      sees_all i = ground arith

  ranked :
      (pos ids : List ℕ) (sc : List Score)
      → pos ≡ seen np files index m
      → ids ≡ rows_at index.id_map pos
      → sc ≡ map (λ i. np.dot query (get_or index.vectors i zero_vec)) pos
      → top_k np sc k (some ids) ≡ flat_best np files index query k m
  ranked pos ids sc p i e =
      top_k-best np sc k (some ids)
      ∙ ap (best k) (rw (i, e) (hits_selected pos ∙ ap (map (row_hit np files index query)) p))

  filtered_vectors-gather :
      (filtered_vectors np files index name (selection np files index m).0).0
      ≡ gather zero_vec index.vectors (selection np files index m).0
  unfolding filtered_vectors
  filtered_vectors-gather = elim (Option-cases (cached name index.filtered_rows)) [
    | inl new ↦ ground arith
    | inr (rows, old) ↦ ground (arith, v.rows_fit name rows m old got)
  ]

  selection_ids :
      (selection np files index m).1 ≡ rows_at index.id_map (selection np files index m).0
  unfolding select
  selection_ids = refl

  search_all :
      m ≡ none
      → index.deleted ≡ none
      → top_k np (scores np query index.vectors) k index.id_map ≡ flat_best np files index query k m
  search_all e d =
      top_k-best np (scores np query index.vectors) k index.id_map
      ∙ ap (best k) (hits_all ∙ ap (map (row_hit np files index query)) (sym (seen_all e d)))

  search_tombstones :
      top_k np
        (gather 0 (scores np query index.vectors) (selection np files index m).0)
        k
        (some (selection np files index m).1)
      ≡ flat_best np files index query k m
  search_tombstones = ranked _ _ _ selected selection_ids (scores_at _ (rw selected seen_in_range))

  search_filtered :
      top_k np
        (scores np query (filtered_vectors np files index name (selection np files index m).0).0)
        k
        (some (selection np files index m).1)
      ≡ flat_best np files index query k m
  unfolding scores
  search_filtered = rw filtered_vectors-gather (
      ranked _ _ _ selected selection_ids (
        map-map (np.dot query) (λ i. get_or index.vectors i zero_vec)
          (selection np files index m).0))

  pub search_selected-best :
      (sel : Option (List ℕ × List ℕ))
      → IsSelection np files index name m got sel
      → (search_selected np files index query k name sel).0 ≡ flat_best np files index query k m
  unfolding search_selected
  search_selected-best sel (inl e) = rw e (elim (Bool-cases (is_some index.deleted)) [
    | inl d ↦ rw d search_tombstones
    | inr d ↦ rw d search_filtered
  ])
  search_selected-best sel (inr (e, h, d)) = rw e (search_all h d)

  rows_now :
      (j : String) (rows : List Vec) (f : Option (List Bool))
      → (if str_eq name j
          then some (gather zero_vec index.vectors (selection np files index m).0)
          else cached j index.filtered_rows)
        ≡ some rows
      → original_mask np files index j ≡ ok f
      → rows ≡ gather zero_vec index.vectors (selection np files index f).0
  rows_now j rows f c e = elim (Bool-cases (str_eq name j)) [
    | inl h ↦
        let c' : some (gather zero_vec index.vectors (selection np files index m).0) ≡ some rows =
          rw h at c in
        let n : name ≡ j = (eq_iff name j).0 h in
        let g : original_mask np files index j ≡ ok m = rw n at got in cc
    | inr h ↦ v.rows_fit j rows f (rw h at c) e
  ]

  counted :
      (d r : ℕ) → IsValid np files (record index { distance_computations = d; filter_rows = r })
  unfolding select
  counted d r = record {
    ids_fit = v.ids_fit;
    orig_fits = v.orig_fits;
    dead_fits = v.dead_fits;
    owned_fits = v.owned_fits;
    filtered_fits = v.filtered_fits;
    rows_fit = v.rows_fit;
  }

  rows_remembered :
      (d r : ℕ)
      → IsValid np files (record index {
        filtered_rows =
            (name, gather zero_vec index.vectors (selection np files index m).0)
            ∷ index.filtered_rows;
        distance_computations = d;
        filter_rows = r;
      })
  unfolding select cached
  rows_remembered d r = record {
    ids_fit = v.ids_fit;
    orig_fits = v.orig_fits;
    dead_fits = v.dead_fits;
    owned_fits = v.owned_fits;
    filtered_fits = v.filtered_fits;
    rows_fit = λ j rows f c e. rows_now j rows f c e;
  }

  abbrev pub Kept : Index Vec → Type 0
  Kept index' = IsValid np files index' × SameRows np files index' index

  Kept-filtered :
      (d r : ℕ)
      → Kept (record (filtered_vectors np files index name (selection np files index m).0).1 {
        distance_computations = d;
        filter_rows = r;
      })
  unfolding filtered_vectors
  Kept-filtered d r = elim (Option-cases (cached name index.filtered_rows)) [
    | inl new ↦
        rw (new, filtered_vectors)
          (
            rows_remembered d r,
            record { vectors = refl; owned = refl; n_orig = refl; id_map = refl; deleted = refl },
          )
    | inr (rows, old) ↦
        rw (old, filtered_vectors)
          (
            counted d r,
            record { vectors = refl; owned = refl; n_orig = refl; id_map = refl; deleted = refl },
          )
  ]

  Kept-counted : (d r : ℕ) → Kept (record index { distance_computations = d; filter_rows = r })
  Kept-counted d r = (
    counted d r,
    record { vectors = refl; owned = refl; n_orig = refl; id_map = refl; deleted = refl },
  )

  pub search_selected-Kept :
      (sel : Option (List ℕ × List ℕ))
      → IsSelection np files index name m got sel
      → Kept (search_selected np files index query k name sel).1
  unfolding search_selected
  search_selected-Kept sel (inr (e, h, d)) = rw e (Kept-counted _ _)
  search_selected-Kept sel (inl e) = rw e (elim (Bool-cases (is_some index.deleted)) [
    | inl d ↦ rw d (Kept-counted _ _)
    | inr d ↦ rw d (Kept-filtered _ _)
  ])
