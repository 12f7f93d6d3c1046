-- ===== src/Hnsw/Layer/Ends.antt =====
-- The loop `while cand` of `search_layer` and `search_layer_filtered` ends by its own tests: the run
-- without fuel as a relation, and the measure that each round lowers.
use vector_retrieval_optimiz.Prelude.{
  ℕ, zero, suc, ◌+◌, ◌≤◌, ◌<◌, ◌≡◌, refl, ap, Bool, true, false, not, List, [], ◌∷◌, ◌++◌, map,
  length, get_or, filter, All, All-filter_self, arith, Bool-cases, List-cases, inl, inr, length-map,
}
use vector_retrieval_optimiz.Prelude.Arrays.{fill_at}
use vector_retrieval_optimiz.Numpy.{Numpy, Hit}
use vector_retrieval_optimiz.Hnsw.Layer.{
  Walk, hit, start, offer, offer_filtered, expand, stops, walk, rounds, cleared, search_layer,
  search_layer_filtered,
}
use vector_retrieval_optimiz.Prelude.Ranges.{Nodup, Nodup-filter}
use vector_retrieval_optimiz.Hnsw.Layer.Unvisited.{
  unvisited, unvisited-fill_at, fresh, IsOffer, offer-IsOffer, offer_filtered-IsOffer,
  foldl-IsOffer, start-measure,
}

module _ (np : Numpy) (v : List np.Vec) (offer_one : Walk → Hit → Walk) (nbr : ℕ → List ℕ)
    (q : np.Vec) where
  -- one round, after the best candidate left the heap
  abbrev pub round : Walk → Hit → List Hit → Walk
  round w c cs = expand np v offer_one nbr q (record w { cand = cs }) c.row

  -- The run of the loop, without fuel.
  pub data Runs (ef : ℕ) : Walk → Walk → Type 0 where
    empties : (w : Walk) → w.cand ≡ [] → Runs ef w w
    breaks :
        (w : Walk) (c : Hit) (cs : List Hit)
        → w.cand ≡ c ∷ cs
        → stops ef w c ≡ true
        → Runs ef w (record w { cand = cs })
    goes :
        (w end : Walk) (c : Hit) (cs : List Hit)
        → w.cand ≡ c ∷ cs
        → stops ef w c ≡ false
        → Runs ef (round w c cs) end
        → Runs ef w end

  measure : Walk → ℕ
  measure w = unvisited w.visited + length w.cand

  round-measure :
      (o : IsOffer offer_one) (plain : (i : ℕ) → Nodup (nbr i)) (w : Walk) (c : Hit) (cs : List Hit)
      → w.cand ≡ c ∷ cs
      → unvisited (round w c cs).visited + length (round w c cs).cand
        < unvisited w.visited + length w.cand
  unfolding expand
  round-measure o plain w c cs e =
      let open_test : ℕ → Bool = λ e. not (get_or w.visited e true) in
      let nb = filter open_test (nbr c.row) in
      let kept = foldl-IsOffer offer_one o (map (hit np v q) nb) (record w {
        cand = cs;
        visited = fill_at w.visited nb true;
        touched = w.touched ++ nb;
        dist = w.dist + length nb;
        expanded = suc w.expanded;
      }) in
      let count =
        unvisited-fill_at nb w.visited (Nodup-filter open_test (nbr c.row) (plain c.row))
          (fresh w.visited nb (All-filter_self open_test (nbr c.row))) in
      omega (
        arith,
        kept.0,
        ap unvisited kept.1,
        ap (length {A = Hit}) e,
        length-map (hit np v q) nb,
        count,
      )

  walk-zero : (ef : ℕ) (w : Walk) → walk np v offer_one nbr ef q zero w ≡ w
  unfolding walk
  walk-zero ef w = refl

  walk_empty :
      (ef fuel : ℕ) (w : Walk) → w.cand ≡ [] → walk np v offer_one nbr ef q (suc fuel) w ≡ w
  unfolding walk
  walk_empty ef fuel w e =
      let with_cand : List Hit → Walk = λ cs. record w { cand = cs } in
      rw (walk, e) (ap with_cand e)

  walk_stop :
      (ef fuel : ℕ) (w : Walk) (c : Hit) (cs : List Hit)
      → w.cand ≡ c ∷ cs
      → stops ef w c ≡ true
      → walk np v offer_one nbr ef q (suc fuel) w ≡ record w { cand = cs }
  unfolding walk
  walk_stop ef fuel w c cs e stop = rw (walk, e, stop) refl

  walk_go :
      (ef fuel : ℕ) (w : Walk) (c : Hit) (cs : List Hit)
      → w.cand ≡ c ∷ cs
      → stops ef w c ≡ false
      → walk np v offer_one nbr ef q (suc fuel) w ≡ walk np v offer_one nbr ef q fuel (round w c cs)
  unfolding walk
  walk_go ef fuel w c cs e on = rw (walk, e, on) refl

  pub walk-Runs :
      (o : IsOffer offer_one) (plain : (i : ℕ) → Nodup (nbr i)) (ef fuel : ℕ) (w : Walk)
      → unvisited w.visited + length w.cand ≤ fuel
      → Runs ef w (walk np v offer_one nbr ef q fuel w)
  walk-Runs o plain ef zero w le =
      rw (walk-zero ef w) (Runs.empties w (none_left w.cand (omega arith)))
    where
      none_left : (cs : List Hit) → length cs ≤ 0 → cs ≡ []
      none_left [] h = refl
      none_left (c ∷ cs) h = absurd (omega arith)
  walk-Runs o plain ef (suc fuel) w le = elim (List-cases w.cand) [
    | inl e ↦ rw (walk_empty ef fuel w e) (Runs.empties w e)
    | inr (c, cs, e) ↦ elim (Bool-cases (stops ef w c)) [
      | inl stop ↦ rw (walk_stop ef fuel w c cs e stop) (Runs.breaks w c cs e stop)
      | inr on ↦
          let rest =
            walk-Runs o plain ef fuel (round w c cs)
              (omega (arith, round-measure o plain w c cs e)) in
          rw (walk_go ef fuel w c cs e on) (Runs.goes w _ c cs e on rest)
    ]
  ]

module _ (np : Numpy) (v : List np.Vec) (nbr : ℕ → List ℕ) (q : np.Vec) where
  -- With ef at least 1, and lists and entry points of rows that have a byte in `visited` (which has
  -- none beyond the vectors), where no list names a row twice, the loop of `search_layer` leaves by
  -- its own tests within one round for each row and each entry point, and what it leaves is what
  -- `search_layer` clears.
  pub search_layer-Runs :
      (visited : List Bool) (eps : List Hit) (ef : ℕ)
      → 1 ≤ ef
      → length visited ≤ length v
      → All (λ (h : Hit). h.row < length visited) eps
      → ((i : ℕ) → All (λ j. j < length visited) (nbr i))
      → ((i : ℕ) → Nodup (nbr i))
      → (end : Walk) × Runs np v (offer ef) nbr q ef (start (λ i. true) visited eps ef) end
        × (search_layer np v nbr visited q eps ef ≡ cleared end)
  unfolding search_layer
  search_layer-Runs visited eps ef pos fits rows below plain = (
    _,
    walk-Runs np v (offer ef) nbr q (offer-IsOffer ef) plain ef (rounds visited eps)
        (start (λ i. true) visited eps ef) (start-measure (λ i. true) visited eps ef),
    refl,
  )

  -- With ef at least 1, and lists and entry points of rows that have a byte in `visited` (which has
  -- none beyond the vectors), where no list names a row twice, the loop of `search_layer_filtered`
  -- leaves by its own tests, for every filter, within one round for each row and each entry point,
  -- and what it leaves is what `search_layer_filtered` clears.
  pub search_layer_filtered-Runs :
      (allow : ℕ → Bool) (visited : List Bool) (eps : List Hit) (ef : ℕ)
      → 1 ≤ ef
      → length visited ≤ length v
      → All (λ (h : Hit). h.row < length visited) eps
      → ((i : ℕ) → All (λ j. j < length visited) (nbr i))
      → ((i : ℕ) → Nodup (nbr i))
      → (end : Walk) × Runs np v (offer_filtered allow ef) nbr q ef (start allow visited eps ef) end
        × (search_layer_filtered np v nbr allow visited q eps ef ≡ cleared end)
  unfolding search_layer_filtered
  search_layer_filtered-Runs allow visited eps ef pos fits rows below plain = (
    _,
    walk-Runs np v (offer_filtered allow ef) nbr q (offer_filtered-IsOffer allow ef) plain ef
        (rounds visited eps) (start allow visited eps ef) (start-measure allow visited eps ef),
    refl,
  )
