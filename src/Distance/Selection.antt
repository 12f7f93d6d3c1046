-- ===== src/Distance/Selection.antt =====
-- `top_k` against the full sort: the shortcut through `argpartition` loses no row.
use vector_retrieval_optimiz.Prelude.{
  ℕ, zero, suc, ◌-◌, ◌≤◌, ◌<◌, ◌≡◌, refl, sym, ap, ◌∙◌, false, List, ◌++◌, map, Option, none, some,
  leb, length, get_or, take, filter, All-map, range_from, min, arith, length-take, length-map,
  map-take, le→leb, replicate, take_of_length-le,
}
use vector_retrieval_optimiz.Prelude.Arrays.{
  gather, get_or-map, map_cong_All, filter-map, map_id, length-filter-perm, length-perm,
  length-filter-ge, flatnonzero_from-filter,
}
use native.Mathlib.Decide.{dec_lt}
use vector_retrieval_optimiz.Prelude.Ranges.{
  map-map, range_from-bound, length-range_from, gather_range,
}
use vector_retrieval_optimiz.Prelude.Sorting.{sort_by, take-sort_by-filter, length-sort_by}
use vector_retrieval_optimiz.Numpy.{Numpy, Score, neg_inf, Hit, better, hit_at}
use vector_retrieval_optimiz.Distance.{rows_at, candidates, top_k, Ranking}
use vector_retrieval_optimiz.Distance.Best.{id_at, hits, padded, best, better-StrictWeak}

pub rows_at-map : (ids : Option (List ℕ)) (pos : List ℕ) → rows_at ids pos ≡ map (id_at ids) pos
rows_at-map none pos = sym (map_id pos)
rows_at-map (some ids) pos = refl

take-min {ℓ} :
    {A : Type ℓ} (k : ℕ) (xs : List A) (n : ℕ) → length xs ≡ n → take (min k n) xs ≡ take k xs
take-min k xs n e = elim (dec_lt k n) [
  | yes h ↦ ap (λ (j : ℕ). take j xs) (omega arith)
  | no h ↦ take_of_length-le (min k n) xs (omega arith) ∙ sym (take_of_length-le k xs (omega arith))
]

module _ (np : Numpy) (s : List Score) where
  open np use {
    argpartition, argpartition-perm, argpartition-front, lexsort, lexsort-in_range, lexsort-sorts,
  }

  abbrev hit : Option (List ℕ) → ℕ → Hit
  hit ids i = record { row = id_at ids i; score = get_or s i neg_inf }

  agree :
      (ids : Option (List ℕ)) (pos : List ℕ) (i : ℕ)
      → i < length pos
      → hit ids (get_or pos i 0) ≡ hit_at (map (id_at ids) pos) (gather neg_inf s pos) i
  agree ids pos i h =
      cc
        (get_or-map (id_at ids) pos i 0 0 h, get_or-map (λ i. get_or s i neg_inf) pos i 0 neg_inf h)

  positions :
      (ids : Option (List ℕ)) (pos : List ℕ)
      → map (hit_at (map (id_at ids) pos) (gather neg_inf s pos)) (range_from 0 (length pos))
        ≡ map (hit ids) pos
  positions ids pos =
      let r = range_from 0 (length pos) in
      sym (
        map_cong_All _ _ r
          (All-map (agree ids pos) r (range_from-bound 0 (length pos) (length pos) (omega arith))))
      ∙ sym (map-map (hit ids) (λ i. get_or pos i 0) r)
      ∙ ap (map (hit ids)) (gather_range 0 pos)

  length-sorted : (ids : Option (List ℕ)) → length (sort_by better (hits ids s)) ≡ length s
  length-sorted ids =
      length-sort_by better (hits ids s)
      ∙ length-map (hit ids) (range_from 0 (length s))
      ∙ length-range_from 0 (length s)

  -- sorting positions by `lexsort` sorts their rows
  ordered :
      (ids : Option (List ℕ)) (pos : List ℕ)
      → map (hit ids) (gather 0 pos (lexsort (rows_at ids pos) (gather neg_inf s pos)))
        ≡ sort_by better (map (hit ids) pos)
  ordered ids pos =
      let rows = map (id_at ids) pos in
      let sc = gather neg_inf s pos in
      let at = agree ids pos in
      let order = lexsort rows sc in
      rw (rows_at-map ids pos) (
        map-map (hit ids) (λ i. get_or pos i 0) order
        ∙ map_cong_All _ _ order (
            All-map (λ i h. at i (omega (arith, length-map (λ i. get_or s i neg_inf) pos))) order
              (lexsort-in_range rows sc))
        ∙ lexsort-sorts rows sc
            (length-map (id_at ids) pos ∙ sym (length-map (λ i. get_or s i neg_inf) pos))
        ∙ ap (sort_by better) (rw (length-map (λ i. get_or s i neg_inf) pos) (positions ids pos)))

  -- at least kk rows have the threshold's score
  enough :
      (j : ℕ)
      → j < length s
      → suc j
        ≤ length (
            filter
              (λ i. leb (get_or s (get_or (argpartition s j) j 0) neg_inf) (get_or s i neg_inf))
              (range_from 0 (length s)))
  enough j h =
      let p = argpartition s j in
      let t = get_or s (get_or p j 0) neg_inf in
      let f = λ (i : ℕ). leb t (get_or s i neg_inf) in
      let e = length-filter-perm f (argpartition-perm s j h) in
      rw (← e) (
        length-filter-ge f (suc j) p
          (omega (arith, length-perm (argpartition-perm s j h), length-range_from 0 (length s)))
          (All-map (λ i k. le→leb t (get_or s i neg_inf) k) (take (suc j) p)
            (argpartition-front s j h)))

  abbrev threshold : ℕ → Score
  threshold j = get_or s (get_or (argpartition s j) j 0) neg_inf

  candidates_some :
      (j : ℕ)
      → suc j < length s
      → candidates np s (suc j)
        ≡ filter (λ i. leb (threshold j) (get_or s i neg_inf)) (range_from 0 (length s))
  unfolding candidates
  candidates_some j h =
      let e : suc j - 1 ≡ j = omega arith in
      let f =
        flatnonzero_from-filter 0 (map (leb (threshold j)) s)
          (λ i. leb (threshold j) (get_or s i neg_inf))
          (λ i l.
            get_or-map (leb (threshold j)) s i neg_inf false
              (rw (length-map (leb (threshold j)) s) at l)
            ∙ ap (λ (x : ℕ). leb (threshold j) (get_or s x neg_inf)) (omega arith)) in
      let g = rw (length-map (leb (threshold j)) s) at f in rw e (ground (arith, g))

  candidates_all : (kk : ℕ) → kk ≡ length s → candidates np s kk ≡ range_from 0 (length s)
  unfolding candidates
  candidates_all zero h = rw (← h)
  candidates_all (suc j) h = ground arith

  -- the sorted candidates begin with the kk best rows
  candidates-best :
      (ids : Option (List ℕ)) (kk : ℕ)
      → kk ≤ length s
      → take kk (sort_by better (map (hit ids) (candidates np s kk)))
        ≡ take kk (sort_by better (hits ids s))
  candidates-best ids zero le = refl
  candidates-best ids (suc j) le = elim (dec_lt (suc j) (length s)) [
    | yes h ↦
        let t = threshold j in
        let p = λ (x : Hit). leb t x.score in
        let r = range_from 0 (length s) in
        let e = filter-map p (hit ids) r in
        rw (candidates_some j h) (
          rw (← e) (
            take-sort_by-filter better-StrictWeak p (λ a b x y. ground arith) (suc j) (hits ids s)
              (rw e (
                rw (length-map (hit ids) (filter (λ i. p (hit ids i)) r))
                  (enough j (omega arith))))))
    | no h ↦ rw (candidates_all (suc j) (omega arith))
  ]

  abbrev chosen : Option (List ℕ) → ℕ → List ℕ
  chosen ids kk =
      let pos = candidates np s kk in
      take kk (gather 0 pos (lexsort (rows_at ids pos) (gather neg_inf s pos)))

  -- the positions that `top_k` keeps hold the k best rows, in order
  chosen-best :
      (ids : Option (List ℕ)) (k : ℕ)
      → map (hit ids) (chosen ids (min k (length s))) ≡ take k (sort_by better (hits ids s))
  chosen-best ids k =
      let kk = min k (length s) in
      map-take (hit ids) kk _
      ∙ ap (take kk) (ordered ids (candidates np s kk))
      ∙ candidates-best ids kk (omega arith)
      ∙ take-min k (sort_by better (hits ids s)) (length s) (length-sorted ids)

  length-best :
      (ids : Option (List ℕ)) (k : ℕ)
      → min k (length s) ≡ length (take k (sort_by better (hits ids s)))
  length-best ids k = omega (arith, length-take k (sort_by better (hits ids s)), length-sorted ids)

  assemble :
      (ids : Option (List ℕ)) (k kk : ℕ) (pos : List ℕ) (hs : List Hit)
      → map (hit ids) pos ≡ hs
      → kk ≡ length hs
      → ◌≡◌ {A = Ranking}
          (record {
            ids = map some (rows_at ids pos) ++ replicate (k - kk) none;
            scores = gather neg_inf s pos ++ replicate (k - kk) neg_inf;
          })
          (padded k hs)
  assemble ids k kk pos hs e l =
      let m = map-map (λ (h : Hit). some h.row) (hit ids) pos in
      let m' = map-map (λ (h : Hit). h.score) (hit ids) pos in
      let r = ap (map some) (rows_at-map ids pos) ∙ map-map some (id_at ids) pos in
      rw (l, ← e) (cc (m, m', r))

-- `top_k` returns the k best of all rows in order, best score first and lower ID first on ties,
-- padded to k: the cut at the threshold that `argpartition` finds drops no row that counts.
pub top_k-best :
    (np : Numpy) (s : List Score) (k : ℕ) (ids : Option (List ℕ))
    → top_k np s k ids ≡ best k (hits ids s)
unfolding top_k best
top_k-best np s k ids =
    assemble np s ids k (min k (length s)) (chosen np s ids (min k (length s))) _
      (chosen-best np s ids k) (length-best np s ids k)
