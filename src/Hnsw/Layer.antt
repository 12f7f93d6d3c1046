-- ===== src/Hnsw/Layer.antt =====
-- `greedy`, `search_layer` and `search_layer_filtered` of hnsw.py, over the neighbor lists of a
-- layer. The loops run on fuel: Layer.Greedy and Layer.Ends prove that they leave by their own
-- tests.
pub mod Greedy
pub mod Unvisited
pub mod Ends
pub mod Results
pub mod Visited
use vector_retrieval_optimiz.Prelude.{
  ℕ, zero, suc, ◌+◌, ◌-◌, ◌<◌, ◌≡◌, Bool, true, false, not, ◌&&◌, List, [], ◌∷◌, ◌++◌, map, foldl,
  Option, none, some, ltb, leb, if◌then◌else◌, length, get_or, set, filter, drop, replicate,
}
use vector_retrieval_optimiz.Prelude.Arrays.{fill_at}
use vector_retrieval_optimiz.Prelude.Sorting.{insert_by, sort_by}
use vector_retrieval_optimiz.Numpy.{Numpy, Score, Hit, better}

-- The order in which the result heap pops: the worst score first, then the highest ID.
abbrev pub worse : Hit → Hit → Bool
worse a b = better b a

-- the best of a list of hits; `np.argmax` and `max` by (score, -ID)
unfoldable pub best_of : Hit → List Hit → Hit
best_of h [] = h
best_of h (x ∷ xs) = best_of (if better x h then x else h) xs

-- np.argmax: the first hit of the greatest score
unfoldable pub first_best : Hit → List Hit → Hit
first_best h [] = h
first_best h (x ∷ xs) = first_best (if ltb h.score x.score then x else h) xs

-- One round of the loop of `greedy`: the best neighbor, if it is better than the entry point.
unfoldable pub better_than : Hit → List Hit → Option Hit
better_than ep [] = none
better_than ep (h ∷ hs) = let b = first_best h hs in if ltb ep.score b.score then some b else none

-- the state of one walk over a layer
pub record Walk : Type 0 where
  pub visited : List Bool
  pub touched : List ℕ
  pub cand : List Hit
  pub res : List Hit
  pub dist : ℕ
  pub expanded : ℕ

-- res[0][0]. It is read where at least ef results are held, so that it raises only with ef = 0.
abbrev pub worst_score : List Hit → Score
worst_score [] = 0
worst_score (h ∷ res) = h.score

-- heapq.heapreplace
unfoldable pub replace_worst : Hit → List Hit → List Hit
replace_worst h [] = h ∷ []
replace_worst h (w ∷ res) = insert_by worse h res

-- The body of the loop over `eps`; `enters` says which rows may enter the results.
unfoldable pub enter : (ℕ → Bool) → Walk → Hit → Walk
enter enters w h =
    let seen = get_or w.visited h.row true in
    record w {
      visited = if seen then w.visited else set w.visited h.row true;
      touched = if seen then w.touched else w.touched ++ h.row ∷ [];
      cand = insert_by better h w.cand;
      res = if enters h.row then insert_by worse h w.res else w.res;
    }

-- the walk before the loop, over the bytes `visited`; the results are cut to the ef best
unfoldable pub start : (ℕ → Bool) → List Bool → List Hit → ℕ → Walk
start enters visited eps ef =
    let blank : Walk = record {
      visited = visited;
      touched = [];
      cand = [];
      res = [];
      dist = 0;
      expanded = 0;
    } in
    let w = foldl (enter enters) blank eps in record w { res = drop (length w.res - ef) w.res }

-- the body of the loop over the scored neighbors in `search_layer`
unfoldable pub offer : ℕ → Walk → Hit → Walk
offer ef w h =
    if ltb (length w.res) ef
    then record w { cand = insert_by better h w.cand; res = insert_by worse h w.res }
    else if ltb (worst_score w.res) h.score
    then record w { cand = insert_by better h w.cand; res = replace_worst h w.res }
    else w

-- the same in `search_layer_filtered`
unfoldable pub offer_filtered : (ℕ → Bool) → ℕ → Walk → Hit → Walk
offer_filtered allow ef w h =
    let full = leb ef (length w.res) in
    if full && leb h.score (worst_score w.res) then w else record w {
      cand = insert_by better h w.cand;
      res =
          if allow h.row
          then if full then replace_worst h w.res else insert_by worse h w.res
          else w.res;
    }

-- `if len(res) >= ef and -ns < res[0][0]: break`
abbrev pub stops : ℕ → Walk → Hit → Bool
stops ef w c = leb ef (length w.res) && ltb c.score (worst_score w.res)

-- `for i in touched: visited[i] = 0`
abbrev pub cleared : Walk → Walk
cleared w = record w { visited = fill_at w.visited w.touched false }

-- enough rounds for one row each
abbrev pub rounds : List Bool → List Hit → ℕ
rounds visited eps = length visited + length eps

module _ (np : Numpy) (v : List np.Vec) where
  open np use {Vec, zero_vec, dot}

  -- a row with its score for the query
  abbrev pub hit : Vec → ℕ → Hit
  hit q i = record { row = i; score = dot (get_or v i zero_vec) q }

  unfoldable pub climb : (ℕ → List ℕ) → Vec → Hit → Option Hit
  climb nbr q ep = better_than ep (map (hit q) (nbr ep.row))

  -- `greedy`: the entry point that it ends at, and the number of scores it computed
  unfoldable pub greedy : (ℕ → List ℕ) → ℕ → Vec → Hit → Hit × ℕ
  greedy nbr zero q ep = (ep, 0)
  greedy nbr (suc fuel) q ep = elim (climb nbr q ep) [
    | none ↦ (ep, length (nbr ep.row))
    | some b ↦ let (end, count) = greedy nbr fuel q b in (end, length (nbr ep.row) + count)
  ]

  -- a hit of a row of the index
  abbrev pub IsHit : Vec → Hit → Type 0
  IsHit q h = (h.score ≡ dot (get_or v h.row zero_vec) q) × (h.row < length v)

  -- The rest of a round after c left the candidate heap.
  unfoldable pub expand : (Walk → Hit → Walk) → (ℕ → List ℕ) → Vec → Walk → ℕ → Walk
  expand offer_one nbr q w c =
      let nb = filter (λ e. not (get_or w.visited e true)) (nbr c) in
      foldl offer_one
        (record w {
          visited = fill_at w.visited nb true;
          touched = w.touched ++ nb;
          dist = w.dist + length nb;
          expanded = suc w.expanded;
        })
        (map (hit q) nb)

  -- `while cand`
  unfoldable pub walk : (Walk → Hit → Walk) → (ℕ → List ℕ) → ℕ → Vec → ℕ → Walk → Walk
  walk offer_one nbr ef q zero w = w
  walk offer_one nbr ef q (suc fuel) w = elim w.cand [
    | [] ↦ w
    | c ∷ cs ↦ elim (stops ef w c) [
      | true ↦ record w { cand = cs }
      | false ↦ walk offer_one nbr ef q fuel (expand offer_one nbr q (record w { cand = cs }) c.row)
    ]
  ]

  unfoldable pub search_layer : (ℕ → List ℕ) → List Bool → Vec → List Hit → ℕ → Walk
  search_layer nbr visited q eps ef =
      cleared (walk (offer ef) nbr ef q (rounds visited eps) (start (λ i. true) visited eps ef))

  unfoldable pub search_layer_filtered :
      (ℕ → List ℕ) → (ℕ → Bool) → List Bool → Vec → List Hit → ℕ → Walk
  search_layer_filtered nbr allow visited q eps ef =
      cleared
        (walk (offer_filtered allow ef) nbr ef q (rounds visited eps) (start allow visited eps ef))
