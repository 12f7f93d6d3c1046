-- ===== src/Hnsw/Layer/Visited.antt =====
-- The bytes `visited` that the walks of hnsw.py share: a walk sets them and resets them when it ends.
use vector_retrieval_optimiz.Prelude.{
  ℕ, zero, suc, ◌+◌, ◌≤◌, ◌<◌, ◌≡◌, ◌≢◌, refl, ◌∙◌, sym, ap, Bool, true, false, not, List, [], ◌∷◌,
  ◌++◌, map, foldl, length, get_or, set, filter, All, All-map, All-filter_self, arith, Bool-cases,
  inl, inr, ◌==◌, List-cases,
}
use vector_retrieval_optimiz.Prelude.Arrays.{fill_at}
use vector_retrieval_optimiz.Numpy.{Numpy, Hit}
use vector_retrieval_optimiz.Hnsw.Layer.{
  Walk, hit, enter, start, offer_filtered, expand, stops, walk, rounds, search_layer_filtered,
}
use vector_retrieval_optimiz.Hnsw.Layer.Unvisited.{
  IsOffer, offer_filtered-IsOffer, foldl-IsOffer, fresh,
}

set-set_self : (vis : List Bool) (r : ℕ) (a b : Bool) → set (set vis r a) r b ≡ set vis r b
set-set_self [] r a b = refl
set-set_self (x ∷ vis) zero a b = refl
set-set_self (x ∷ vis) (suc r) a b = ap (◌∷◌ x) (set-set_self vis r a b)

set-set_comm :
    (vis : List Bool) (i r : ℕ) (a b : Bool) → i ≢ r → set (set vis r b) i a ≡ set (set vis i a) r b
set-set_comm [] i r a b ne = refl
set-set_comm (x ∷ vis) zero zero a b ne = absurd (ne refl)
set-set_comm (x ∷ vis) zero (suc r) a b ne = refl
set-set_comm (x ∷ vis) (suc i) zero a b ne = refl
set-set_comm (x ∷ vis) (suc i) (suc r) a b ne =
    ap (◌∷◌ x) (set-set_comm vis i r a b (λ e. ne (ap suc e)))

set_same : (vis : List Bool) (r : ℕ) → get_or vis r true ≡ false → set vis r false ≡ vis
set_same [] r h = refl
set_same (x ∷ vis) zero h = cc
set_same (x ∷ vis) (suc r) h = ap (◌∷◌ x) (set_same vis r h)

fill_at-append :
    (vis : List Bool) (t s : List ℕ) (b : Bool)
    → fill_at vis (t ++ s) b ≡ fill_at (fill_at vis t b) s b
fill_at-append vis [] s b = refl
fill_at-append vis (i ∷ t) s b = fill_at-append (set vis i b) t s b

fill_at-kept :
    (vis : List Bool) (t : List ℕ) (r : ℕ)
    → get_or vis r true ≡ false
    → get_or (fill_at vis t false) r true ≡ false
fill_at-kept vis [] r h = h
fill_at-kept vis (i ∷ t) r h = fill_at-kept (set vis i false) t r (set-kept vis i r h)
  where
    set-kept :
        (vis : List Bool) (i r : ℕ)
        → get_or vis r true ≡ false
        → get_or (set vis i false) r true ≡ false
    set-kept [] i r h = h
    set-kept (x ∷ vis) zero zero h = refl
    set-kept (x ∷ vis) zero (suc r) h = h
    set-kept (x ∷ vis) (suc i) zero h = h
    set-kept (x ∷ vis) (suc i) (suc r) h = set-kept vis i r h

set-fill_at :
    (t : List ℕ) (vis : List Bool) (r : ℕ) (b : Bool)
    → set (fill_at (set vis r b) t false) r false ≡ set (fill_at vis t false) r false
set-fill_at [] vis r b = set-set_self vis r b false
set-fill_at (i ∷ t) vis r b = elim (Bool-cases (i == r)) [
  | inl e ↦
      let same : i ≡ r = ground arith in
      rw same (ap (λ (x : List Bool). set (fill_at x t false) r false) (set-set_self vis r b false))
  | inr e ↦
      ap (λ (x : List Bool). set (fill_at x t false) r false)
        (set-set_comm vis i r false b (λ same. ground arith))
      ∙ set-fill_at t (set vis i false) r b
]

-- what the walk has set is what it will reset
Restores : List Bool → List Bool → List ℕ → Type 0
Restores before visited touched = fill_at visited touched false ≡ before

mark-Restores :
    (before visited : List Bool) (touched : List ℕ) (r : ℕ)
    → Restores before visited touched
    → get_or before r true ≡ false
    → Restores before (set visited r true) (touched ++ r ∷ [])
unfolding Restores
mark-Restores before visited touched r h free =
    fill_at-append (set visited r true) touched (r ∷ []) false
    ∙ set-fill_at touched visited r true
    ∙ ap (λ (x : List Bool). set x r false) h
    ∙ set_same before r free

marks-Restores :
    (before : List Bool) (nb : List ℕ) (visited : List Bool) (touched : List ℕ)
    → Restores before visited touched
    → All (λ r. get_or before r true ≡ false) nb
    → Restores before (fill_at visited nb true) (touched ++ nb)
marks-Restores before [] visited touched h free = rw (append_nil touched) h
  where
    append_nil : (xs : List ℕ) → xs ++ [] ≡ xs
    append_nil [] = refl
    append_nil (x ∷ xs) = ap (◌∷◌ x) (append_nil xs)
marks-Restores before (r ∷ nb) visited touched h free = rw (← append_one touched) (
    marks-Restores before nb (set visited r true) (touched ++ r ∷ [])
      (mark-Restores before visited touched r h free.0) free.1)
  where
    append_one : (xs : List ℕ) → (xs ++ r ∷ []) ++ nb ≡ xs ++ r ∷ nb
    append_one [] = refl
    append_one (x ∷ xs) = ap (◌∷◌ x) (append_one xs)

-- A row that is not visited now was not visited before the walk.
opened :
    (before visited : List Bool) (touched : List ℕ) (r : ℕ)
    → Restores before visited touched
    → get_or visited r true ≡ false
    → get_or before r true ≡ false
unfolding Restores
opened before visited touched r h free =
    ap (λ (x : List Bool). get_or x r true) (sym h) ∙ fill_at-kept visited touched r free

enter-Restores :
    (before : List Bool) (enters : ℕ → Bool) (eps : List Hit) (w : Walk)
    → Restores before w.visited w.touched
    → let w' = foldl (enter enters) w eps in Restores before w'.visited w'.touched
unfolding enter Restores
enter-Restores before enters [] w h = h
enter-Restores before enters (e ∷ eps) w h =
    enter-Restores before enters eps (enter enters w e) (entered e w h)
  where
    entered :
        (e : Hit) (w : Walk)
        → Restores before w.visited w.touched
        → Restores before (enter enters w e).visited (enter enters w e).touched
    entered e w h = elim (Bool-cases (get_or w.visited e.row true)) [
      | inl seen ↦ rw (enter, seen) h
      | inr free ↦
          rw (enter, free)
            (mark-Restores before w.visited w.touched e.row h
              (opened before w.visited w.touched e.row h free))
    ]

module _ (np : Numpy) (v : List np.Vec) (nbr : ℕ → List ℕ) (q : np.Vec) (before : List Bool)
    (offer_one : Walk → Hit → Walk) (o : IsOffer offer_one) where
  expand-Restores :
      (w : Walk) (c : ℕ)
      → Restores before w.visited w.touched
      → let w' = expand np v offer_one nbr q w c in Restores before w'.visited w'.touched
  unfolding expand
  expand-Restores w c h =
      let open_test : ℕ → Bool = λ e. not (get_or w.visited e true) in
      let nb = filter open_test (nbr c) in
      let free = fresh w.visited nb (All-filter_self open_test (nbr c)) in
      let marked =
        marks-Restores before nb w.visited w.touched h
          (All-map (λ r k. opened before w.visited w.touched r h k) nb free) in
      let kept = foldl-IsOffer offer_one o (map (hit np v q) nb) (record w {
        visited = fill_at w.visited nb true;
        touched = w.touched ++ nb;
        dist = w.dist + length nb;
        expanded = suc w.expanded;
      }) in
      rw (kept.1, kept.2) marked

  walk-Restores :
      (ef fuel : ℕ) (w : Walk)
      → Restores before w.visited w.touched
      → let w' = walk np v offer_one nbr ef q fuel w in Restores before w'.visited w'.touched
  unfolding walk
  walk-Restores ef zero w h = h
  walk-Restores ef (suc fuel) w h = elim (List-cases w.cand) [
    | inl e ↦ rw (walk, e) h
    | inr (c, cs, e) ↦ elim (Bool-cases (stops ef w c)) [
      | inl stop ↦ rw (walk, e, stop) h
      | inr on ↦
          let w' = expand np v offer_one nbr q (record w { cand = cs }) c.row in
          rw (walk, e, on)
            (walk-Restores ef fuel w' (expand-Restores (record w { cand = cs }) c.row h))
    ]
  ]

-- With ef at least 1, and lists and entry points of rows that have a byte in `visited` (which has
-- none beyond the vectors), a walk of `search_layer_filtered` leaves the bytes `visited` as they
-- were at its start, whatever it visits.
pub search_layer_filtered-visited :
    (np : Numpy) (v : List np.Vec) (nbr : ℕ → List ℕ) (allow : ℕ → Bool) (visited : List Bool)
    (q : np.Vec) (eps : List Hit) (ef : ℕ)
    → 1 ≤ ef
    → length visited ≤ length v
    → All (λ (h : Hit). h.row < length visited) eps
    → ((i : ℕ) → All (λ j. j < length visited) (nbr i))
    → (search_layer_filtered np v nbr allow visited q eps ef).visited ≡ visited
unfolding search_layer_filtered start Restores
search_layer_filtered-visited np v nbr allow visited q eps ef pos fits rows below =
    walk-Restores np v nbr q visited (offer_filtered allow ef) (offer_filtered-IsOffer allow ef) ef
      (rounds visited eps) (start allow visited eps ef)
      (enter-Restores visited allow eps
        (record { visited = visited; touched = []; cand = []; res = []; dist = 0; expanded = 0 })
        refl)
