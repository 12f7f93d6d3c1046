-- ===== src/Hnsw/Layer/Unvisited.antt =====
-- The rows that a walk over a layer has not visited: each round of `search_layer` lowers their
-- number and the number of candidates together.
use vector_retrieval_optimiz.Prelude.{
  ℕ, zero, suc, ◌+◌, ◌≤◌, ◌≡◌, ◌≢◌, refl, ◌∙◌, Bool, true, false, not, List, [], ◌∷◌, foldl, length,
  get_or, get_or-set_ne, set, filter, All, All-map, arith, Bool-cases, inl, inr, length-filter-le,
}
use vector_retrieval_optimiz.Prelude.Ranges.{Nodup}
use vector_retrieval_optimiz.Prelude.Arrays.{fill_at}
use vector_retrieval_optimiz.Prelude.Sorting.{length-insert_by}
use vector_retrieval_optimiz.Numpy.{Hit, better}
use vector_retrieval_optimiz.Hnsw.Layer.{Walk, enter, start, offer, offer_filtered, rounds}

-- the rows that are not visited yet
abbrev pub unvisited : List Bool → ℕ
unvisited visited = length (filter not visited)

pub unvisited-set :
    (vis : List Bool) (e : ℕ)
    → get_or vis e true ≡ false
    → suc (unvisited (set vis e true)) ≡ unvisited vis
unvisited-set [] e h = cc
unvisited-set (b ∷ vis) zero h = rw h refl
unvisited-set (b ∷ vis) (suc e) h = ground (arith, unvisited-set vis e h)

-- A visit of rows that are not visited lowers the count by one each.
pub unvisited-fill_at :
    (nb : List ℕ) (vis : List Bool)
    → Nodup nb
    → All (λ e. get_or vis e true ≡ false) nb
    → unvisited (fill_at vis nb true) + length nb ≡ unvisited vis
unvisited-fill_at [] vis d h = omega arith
unvisited-fill_at (e ∷ nb) vis d h =
    let others = All-zip vis e nb d.0 h.1 in
    omega (arith, unvisited-fill_at nb (set vis e true) d.1 others, unvisited-set vis e h.0)
  where
    All-zip :
        (vis : List Bool) (e : ℕ) (nb : List ℕ)
        → All (λ y. e ≢ y) nb
        → All (λ y. get_or vis y true ≡ false) nb
        → All (λ y. get_or (set vis e true) y true ≡ false) nb
    All-zip vis e [] d h = tt
    All-zip vis e (y ∷ nb) d h =
        (get_or-set_ne vis e y true true d.0 ∙ h.0, All-zip vis e nb d.1 h.1)

pub fresh :
    (vis : List Bool) (nb : List ℕ)
    → All (λ e. not (get_or vis e true) ≡ true) nb
    → All (λ e. get_or vis e true ≡ false) nb
fresh vis = All-map (λ e k. ground arith)

-- What one neighbor does to the candidates: at most one more, and no visit.
pub record IsOffer (offer_one : Walk → Hit → Walk) : Type 0 where
  pub cand_le : (w : Walk) (h : Hit) → length (offer_one w h).cand ≤ suc (length w.cand)
  pub visited_eq : (w : Walk) (h : Hit) → (offer_one w h).visited ≡ w.visited
  pub touched_eq : (w : Walk) (h : Hit) → (offer_one w h).touched ≡ w.touched

pub offer-IsOffer : (ef : ℕ) → IsOffer (offer ef)
unfolding offer
offer-IsOffer ef = record {
  cand_le = λ w h. ground (arith, length-insert_by better h w.cand);
  visited_eq = λ w h. ground arith;
  touched_eq = λ w h. ground arith;
}

pub offer_filtered-IsOffer : (allow : ℕ → Bool) (ef : ℕ) → IsOffer (offer_filtered allow ef)
unfolding offer_filtered
offer_filtered-IsOffer allow ef = record {
  cand_le = λ w h. ground (arith, length-insert_by better h w.cand);
  visited_eq = λ w h. ground arith;
  touched_eq = λ w h. ground arith;
}

pub foldl-IsOffer :
    (offer_one : Walk → Hit → Walk)
    → IsOffer offer_one
    → (hs : List Hit) (w : Walk)
    → (length (foldl offer_one w hs).cand ≤ length w.cand + length hs)
      × ((foldl offer_one w hs).visited ≡ w.visited)
      × ((foldl offer_one w hs).touched ≡ w.touched)
foldl-IsOffer offer_one o [] w = (omega arith, refl, refl)
foldl-IsOffer offer_one o (h ∷ hs) w =
    let rest = foldl-IsOffer offer_one o hs (offer_one w h) in
    (omega (arith, rest.0, o.cand_le w h), rest.1 ∙ o.visited_eq w h, rest.2 ∙ o.touched_eq w h)

enter-measure :
    (enters : ℕ → Bool) (w : Walk) (h : Hit)
    → unvisited (enter enters w h).visited + length (enter enters w h).cand
      ≤ unvisited w.visited + suc (length w.cand)
unfolding enter
enter-measure enters w h = elim (Bool-cases (get_or w.visited h.row true)) [
  | inl e ↦ ground (arith, length-insert_by better h w.cand)
  | inr e ↦ ground (arith, length-insert_by better h w.cand, unvisited-set w.visited h.row e)
]

foldl-enter-measure :
    (enters : ℕ → Bool) (eps : List Hit) (w : Walk)
    → unvisited (foldl (enter enters) w eps).visited + length (foldl (enter enters) w eps).cand
      ≤ unvisited w.visited + (length w.cand + length eps)
foldl-enter-measure enters [] w = omega arith
foldl-enter-measure enters (h ∷ eps) w =
    omega (arith, foldl-enter-measure enters eps (enter enters w h), enter-measure enters w h)

pub start-measure :
    (enters : ℕ → Bool) (visited : List Bool) (eps : List Hit) (ef : ℕ)
    → let w = start enters visited eps ef in
      unvisited w.visited + length w.cand ≤ rounds visited eps
unfolding start
start-measure enters visited eps ef =
    let blank : Walk = record {
      visited = visited;
      touched = [];
      cand = [];
      res = [];
      dist = 0;
      expanded = 0;
    } in
    omega (arith, foldl-enter-measure enters eps blank, length-filter-le not visited)
