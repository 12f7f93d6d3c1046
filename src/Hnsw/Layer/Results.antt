-- ===== src/Hnsw/Layer/Results.antt =====
-- What `search_layer` and `search_layer_filtered` return: at most ef hits of rows that pass the filter.
use mathlib.Core.Path.{fun_ext}
use vector_retrieval_optimiz.Prelude.{
  ℕ, zero, suc, ◌+◌, ◌-◌, ◌≤◌, ◌<◌, ◌≡◌, refl, ap, Bool, true, not, ◌&&◌, List, [], ◌∷◌, map, foldl,
  leb, length, get_or, filter, drop, length-drop, All, All-map, All-filter, arith, Bool-cases,
  List-cases, inl, inr,
}
use vector_retrieval_optimiz.Prelude.Sorting.{insert_by-All, length-insert_by}
use vector_retrieval_optimiz.Numpy.{Numpy, Hit}
use vector_retrieval_optimiz.Hnsw.Layer.{
  Walk, worse, replace_worst, hit, enter, start, offer, offer_filtered, expand, stops, walk, rounds,
  cleared, search_layer, search_layer_filtered, worst_score, IsHit,
}

-- With a filter that every row passes, the two walks take every neighbor alike.
offer_filtered-offer :
    (ef : ℕ) (w : Walk) (h : Hit) → offer_filtered (λ i. true) ef w h ≡ offer ef w h
unfolding offer offer_filtered
offer_filtered-offer ef w h = ground arith

module _ (np : Numpy) (v : List np.Vec) (nbr : ℕ → List ℕ) (q : np.Vec) where
  -- The walk without a filter is the walk with a filter that every row passes.
  pub search_layer_filtered-search_layer :
      (visited : List Bool) (eps : List Hit) (ef : ℕ)
      → search_layer_filtered np v nbr (λ i. true) visited q eps ef
        ≡ search_layer np v nbr visited q eps ef
  unfolding search_layer search_layer_filtered
  search_layer_filtered-search_layer visited eps ef =
      let same : offer_filtered (λ i. true) ef ≡ offer ef =
        fun_ext (λ w. fun_ext (λ h. offer_filtered-offer ef w h)) in
      ap
        (λ (o : Walk → Hit → Walk).
          cleared (walk np v o nbr ef q (rounds visited eps) (start (λ i. true) visited eps ef)))
        same

replace_worst-All {κ} :
    (P : Hit → Type κ) (h : Hit) (res : List Hit) → P h → All P res → All P (replace_worst h res)
unfolding replace_worst
replace_worst-All P h [] p a = (p, tt)
replace_worst-All P h (w ∷ res) p a = insert_by-All worse P h res p a.1

length-replace_worst :
    (h : Hit) (res : List Hit) → length (replace_worst h res) ≤ length res + (1 - length res)
unfolding replace_worst
length-replace_worst h [] = omega arith
length-replace_worst h (w ∷ res) = omega (arith, length-insert_by worse h res)

All-drop {κ} : (P : Hit → Type κ) (n : ℕ) (xs : List Hit) → All P xs → All P (drop n xs)
All-drop P zero xs a = a
All-drop P (suc n) [] a = a
All-drop P (suc n) (x ∷ xs) a = All-drop P n xs a.1

-- At most ef results, all of them of rows with the property P.
abbrev Holds : (Hit → Type 0) → ℕ → Walk → Type 0
Holds P ef w = (length w.res ≤ ef) × All P w.res

offer_filtered-Holds :
    (P : Hit → Type 0) (allow : ℕ → Bool) (ef : ℕ)
    → 1 ≤ ef
    → (w : Walk) (h : Hit) → (allow h.row ≡ true → P h)
    → Holds P ef w
    → Holds P ef (offer_filtered allow ef w h)
unfolding offer_filtered
offer_filtered-Holds P allow ef pos w h p inv =
    elim (Bool-cases (leb ef (length w.res) && leb h.score (worst_score w.res))) [
      | inl skip ↦ rw (offer_filtered, skip) inv
      | inr take ↦ elim (Bool-cases (allow h.row)) [
        | inl ok_row ↦ elim (Bool-cases (leb ef (length w.res))) [
          | inl full ↦
              rw (offer_filtered, take, ok_row, full)
                (
                  omega (arith, inv.0, length-replace_worst h w.res),
                  replace_worst-All P h w.res (p ok_row) inv.1,
                )
          | inr room ↦
              rw (offer_filtered, take, ok_row, room)
                (
                  ground (arith, length-insert_by worse h w.res),
                  insert_by-All worse P h w.res (p ok_row) inv.1,
                )
        ]
        | inr bad_row ↦ rw (offer_filtered, take, bad_row) inv
      ]
    ]

foldl-Holds :
    (P : Hit → Type 0) (allow : ℕ → Bool) (ef : ℕ)
    → 1 ≤ ef
    → (hs : List Hit) (w : Walk) → All (λ (h : Hit). allow h.row ≡ true → P h) hs
    → Holds P ef w
    → Holds P ef (foldl (offer_filtered allow ef) w hs)
foldl-Holds P allow ef pos [] w p inv = inv
foldl-Holds P allow ef pos (h ∷ hs) w p inv =
    foldl-Holds P allow ef pos hs (offer_filtered allow ef w h) p.1
      (offer_filtered-Holds P allow ef pos w h p.0 inv)

enter-All :
    (P : Hit → Type 0) (allow : ℕ → Bool) (eps : List Hit) (w : Walk)
    → All (λ (h : Hit). allow h.row ≡ true → P h) eps
    → All P w.res
    → All P (foldl (enter allow) w eps).res
unfolding enter
enter-All P allow [] w p inv = inv
enter-All P allow (h ∷ eps) w p inv = elim (Bool-cases (allow h.row)) [
  | inl ok_row ↦
      let entered = insert_by-All worse P h w.res (p.0 ok_row) inv in
      enter-All P allow eps (enter allow w h) p.1 (rw (enter, ok_row) entered)
  | inr bad_row ↦ enter-All P allow eps (enter allow w h) p.1 (rw (enter, bad_row) inv)
]

start-Holds :
    (P : Hit → Type 0) (allow : ℕ → Bool) (visited : List Bool) (eps : List Hit) (ef : ℕ)
    → All (λ (h : Hit). allow h.row ≡ true → P h) eps
    → Holds P ef (start allow visited eps ef)
unfolding start
start-Holds P allow visited eps ef p =
    let blank : Walk = record {
      visited = visited;
      touched = [];
      cand = [];
      res = [];
      dist = 0;
      expanded = 0;
    } in
    let res = (foldl (enter allow) blank eps).res in
    (
      omega (arith, length-drop (length res - ef) res),
      All-drop P (length res - ef) res (enter-All P allow eps blank p tt),
    )

module _ (np : Numpy) (v : List np.Vec) (nbr : ℕ → List ℕ) (q : np.Vec)
    (in_range : (i : ℕ) → All (λ j. j < length v) (nbr i)) (P : Hit → Type 0) (allow : ℕ → Bool)
    (ef : ℕ) (pos : 1 ≤ ef) (enough : (h : Hit) → IsHit np v q h → allow h.row ≡ true → P h) where
  hits :
      (rows : List ℕ)
      → All (λ j. j < length v) rows
      → All (λ (h : Hit). allow h.row ≡ true → P h) (map (hit np v q) rows)
  hits [] h = tt
  hits (j ∷ rows) h = (enough (hit np v q j) (refl, h.0), hits rows h.1)

  walk-Holds :
      (fuel : ℕ) (w : Walk)
      → Holds P ef w
      → Holds P ef (walk np v (offer_filtered allow ef) nbr ef q fuel w)
  unfolding walk expand
  walk-Holds zero w inv = inv
  walk-Holds (suc fuel) w inv = elim (List-cases w.cand) [
    | inl e ↦ rw (walk, e) inv
    | inr (c, cs, e) ↦ elim (Bool-cases (stops ef w c)) [
      | inl stop ↦ rw (walk, e, stop) inv
      | inr on ↦
          let w' = expand np v (offer_filtered allow ef) nbr q (record w { cand = cs }) c.row in
          let nb = filter (λ e. not (get_or w.visited e true)) (nbr c.row) in
          rw (walk, e, on)
            (walk-Holds fuel w' (
              foldl-Holds P allow ef pos (map (hit np v q) nb) _
                (hits nb (All-filter _ _ (nbr c.row) (in_range c.row))) inv))
    ]
  ]

-- From hits of rows of the index, a walk with a filter returns at most ef hits, each the row's own
-- score for the query, of rows of the index that pass the filter.
pub search_layer_filtered-IsHit :
    (np : Numpy) (v : List np.Vec) (nbr : ℕ → List ℕ) (q : np.Vec)
    (in_range : (i : ℕ) → All (λ j. j < length v) (nbr i)) (allow : ℕ → Bool) (visited : List Bool)
    (eps : List Hit) (ef : ℕ)
    → 1 ≤ ef
    → All (IsHit np v q) eps
    → let res = (search_layer_filtered np v nbr allow visited q eps ef).res in
      (length res ≤ ef) × All (λ (h : Hit). IsHit np v q h × (allow h.row ≡ true)) res
unfolding search_layer_filtered
search_layer_filtered-IsHit np v nbr q in_range allow visited eps ef pos ok_eps =
    let P : Hit → Type 0 = λ h. IsHit np v q h × (allow h.row ≡ true) in
    walk-Holds np v nbr q in_range P allow ef pos (λ h is_hit ok_row. (is_hit, ok_row))
      (rounds visited eps) (start allow visited eps ef)
      (start-Holds P allow visited eps ef
        (All-map (λ h is_hit ok_row. (is_hit, ok_row)) eps ok_eps))

pub search_layer-IsHit :
    (np : Numpy) (v : List np.Vec) (nbr : ℕ → List ℕ) (q : np.Vec)
    (in_range : (i : ℕ) → All (λ j. j < length v) (nbr i)) (visited : List Bool) (eps : List Hit)
    (ef : ℕ)
    → 1 ≤ ef
    → All (IsHit np v q) eps
    → let res = (search_layer np v nbr visited q eps ef).res in
      (length res ≤ ef) × All (IsHit np v q) res
search_layer-IsHit np v nbr q in_range visited eps ef pos ok_eps =
    let found =
      search_layer_filtered-IsHit np v nbr q in_range (λ i. true) visited eps ef pos ok_eps in
    rw (← search_layer_filtered-search_layer np v nbr q visited eps ef)
      (found.0, All-map (λ h p. p.0) _ found.1)
