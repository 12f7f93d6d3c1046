-- ===== src/Flat/Compaction.antt =====
-- `compact` of the flat index drops the deleted rows and changes no search.
use vector_retrieval_optimiz.Prelude.{
  ℕ, ◌<◌, ◌≡◌, refl, sym, ap, ◌∙◌, Bool, true, false, not, ◌&&◌, List, [], ◌∷◌, map, Option, none,
  some, length, get_or, filter, range_from, arith, length-map, Option-cases, inl, inr, All, All-map,
  All-filter,
}
use vector_retrieval_optimiz.Prelude.Arrays.{
  flatnonzero, flatnonzero_from-filter, get_or-map, map_cong_All, filter-map,
}
use vector_retrieval_optimiz.Prelude.Ranges.{map-map, range_from-bound, gather_range}
use vector_retrieval_optimiz.Numpy.{Numpy, Hit}
use vector_retrieval_optimiz.Distance.{rows_at}
use vector_retrieval_optimiz.Distance.Selection.{rows_at-map}
use vector_retrieval_optimiz.Distance.Best.{id_at, best}
use vector_retrieval_optimiz.Files.{Files}
use vector_retrieval_optimiz.Flat.{Index, or_else, is_some, own, drop_dead, drop_caches, compact}
use vector_retrieval_optimiz.Flat.Selection.{IdsFit, in_mask, is_live, seen, row_hit, flat_best}
use vector_retrieval_optimiz.Flat.Valid.{
  IsValid, DeadFits, OrigFits, OrigFits-own, drop_caches-IsValid,
}

module _ {ℓ} {A : Type ℓ} where
  pub filter-filter :
      (p q : A → Bool) (xs : List A) → filter p (filter q xs) ≡ filter (λ x. p x && q x) xs
  filter-filter p q [] = refl
  filter-filter p q (x ∷ xs) = ground (arith, filter-filter p q xs)

  pub filter_cong_All :
      (p q : A → Bool) (xs : List A) → All (λ x. p x ≡ q x) xs → filter p xs ≡ filter q xs
  filter_cong_All p q [] h = refl
  filter_cong_All p q (x ∷ xs) h = ground (arith, filter_cong_All p q xs)

and_true : (b : Bool) → (b && true) ≡ b
and_true b = ground arith

-- Reading rows through a list of positions is filtering that list.
module _ {ℓ} {B : Type ℓ} (f : ℕ → B) (p : ℕ → Bool) (live : List ℕ) (f' : ℕ → B) (p' : ℕ → Bool)
    (same : (j : ℕ) → j < length live → f' j ≡ f (get_or live j 0))
    (same_test : (j : ℕ) → j < length live → p' j ≡ p (get_or live j 0)) where
  pub through_live : map f' (filter p' (range_from 0 (length live))) ≡ map f (filter p live)
  through_live =
      let r = range_from 0 (length live) in
      let bound = range_from-bound 0 (length live) (length live) (omega arith) in
      let g = λ (j : ℕ). get_or live j 0 in
      ap (map f') (filter_cong_All p' (λ j. p (g j)) r (All-map same_test r bound))
      ∙ map_cong_All f' (λ j. f (g j)) (filter (λ j. p (g j)) r)
          (All-map same _ (All-filter (λ j. j < length live) (λ j. p (g j)) r bound))
      ∙ sym (map-map f g (filter (λ j. p (g j)) r))
      ∙ ap (map f) (sym (filter-map p g r) ∙ ap (filter p) (gather_range 0 live))

module _ (np : Numpy) (files : Files np.Vec) where
  open np use {Vec, zero_vec}

  pub own-shape :
      (index : Index Vec)
      → IsValid np files index
      → own np files index
        ≡ record index { owned = true; n_orig = some (or_else index.n_orig (length index.vectors)) }
  unfolding own
  own-shape index v = ground (arith, v.owned_fits, v.orig_fits)

  -- the positions that are not deleted
  live-filter :
      (dead : List Bool) (n : ℕ)
      → length dead ≡ n
      → flatnonzero (map not dead) ≡ filter (is_live (some dead)) (range_from 0 n)
  live-filter dead n e =
      let f = flatnonzero_from-filter 0 (map not dead) (is_live (some dead)) (λ i h.
        get_or-map not dead i false false (rw (length-map not dead) at h)
        ∙ ap (is_live (some dead)) (omega arith)) in
      rw (length-map not dead, e) at f

  module _ (index : Index Vec) (query : Vec) (m : Option (List Bool)) where
    -- the hits of the rows that a search sees
    abbrev seen_hits : List Hit
    seen_hits = map (row_hit np files index query) (seen np files index m)

    id_read :
        (live : List ℕ) (j : ℕ)
        → j < length live
        → get_or (rows_at index.id_map live) j 0 ≡ id_at index.id_map (get_or live j 0)
    id_read live j l =
        rw (rows_at-map index.id_map live) (get_or-map (id_at index.id_map) live j 0 0 l)

    -- dropping the deleted rows keeps the hits, in order
    drop_dead-hits :
        (dead : Option (List Bool))
        → index.deleted ≡ dead
        → DeadFits dead (length index.vectors)
        → map
            (row_hit np files (drop_dead np files index dead) query)
            (seen np files (drop_dead np files index dead) m)
          ≡ seen_hits
    unfolding drop_dead
    drop_dead-hits none e h = refl
    drop_dead-hits (some dead) e h =
        let n = length index.vectors in
        let live = flatnonzero (map not dead) in
        let p = λ (i : ℕ). in_mask m (id_at index.id_map i) in
        let ids = rows_at index.id_map live in
        let at = λ (j : ℕ) (l : j < length live). id_read live j l in
        rw (length-map (λ i. get_or index.vectors i zero_vec) live) (
          through_live (row_hit np files index query) p live _ _
            (λ j l.
              cc (at j l, get_or-map (λ i. get_or index.vectors i zero_vec) live j 0 zero_vec l))
            (λ j l. and_true (in_mask m (get_or ids j 0)) ∙ ap (in_mask m) (at j l))
          ∙ ap (λ xs. map (row_hit np files index query) (filter p xs)) (live-filter dead n h)
          ∙ ap (map (row_hit np files index query)) (
              filter-filter p (is_live (some dead)) (range_from 0 n)
              ∙ ap (λ d. filter (λ i. p i && is_live d i) (range_from 0 n)) (sym e)))

  compact-hits :
      (index : Index Vec) (query : Vec) (m : Option (List Bool))
      → IsValid np files index
      → seen_hits (compact np files index) query m ≡ seen_hits index query m
  unfolding compact
  compact-hits index query m v =
      rw (own-shape index v) (drop_dead-hits _ query m index.deleted refl v.dead_fits)

  deleted-compact :
      (index : Index Vec) → IsValid np files index → (compact np files index).deleted ≡ none
  unfolding compact drop_dead
  deleted-compact index v =
      rw (own-shape index v)
        (elim (Option-cases index.deleted) [ inl e ↦ ground arith | inr (dead, e) ↦ ground arith ])

  drop_dead-IsValid :
      (b : Index Vec) (dead : Option (List Bool))
      → b.deleted ≡ dead
      → IdsFit b.id_map (length b.vectors)
      → OrigFits b.id_map b.n_orig (length b.vectors)
      → (b.owned ≡ true) × (is_some b.n_orig ≡ true)
      → IsValid np files (drop_caches np files (drop_dead np files b dead))
  unfolding drop_dead
  drop_dead-IsValid b none e i o w = drop_caches-IsValid np files b i o (rw e tt) (rw w.0 w.1)
  drop_dead-IsValid b (some dead) e i o w =
      let live = flatnonzero (map not dead) in
      drop_caches-IsValid np files (drop_dead np files b (some dead))
        (rw (rows_at-map b.id_map live) (
          length-map (id_at b.id_map) live
          ∙ sym (length-map (λ i. get_or b.vectors i zero_vec) live)))
        tt tt (rw w.0 w.1)

  -- Compaction keeps a valid index valid.
  pub compact-IsValid :
      (index : Index Vec) → IsValid np files index → IsValid np files (compact np files index)
  unfolding compact
  compact-IsValid index v = rw (own-shape index v) (
      drop_dead-IsValid _ index.deleted refl v.ids_fit
        (OrigFits-own index.id_map index.n_orig (length index.vectors) v.orig_fits) (refl, refl))

  -- Compaction changes no search: on a valid index, for every query, k and filter mask, the rows
  -- that a search of the compacted index is to return are those of the index before, under the same
  -- row IDs and with the same scores; the compacted index has no tombstones.
  pub flat_best-compact :
      (index : Index Vec) (query : Vec) (k : ℕ) (m : Option (List Bool))
      → IsValid np files index
      → (flat_best np files (compact np files index) query k m ≡ flat_best np files index query k m)
        × ((compact np files index).deleted ≡ none)
  flat_best-compact index query k m v =
      (ap (best k) (compact-hits index query m v), deleted-compact index v)
