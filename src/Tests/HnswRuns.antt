-- ===== src/Tests/HnswRuns.antt =====
-- Layers and lists of hnsw.py at four rows of one value.
use vector_retrieval_optimiz.Prelude.{
  ℕ, zero, suc, ◌≤◌, ◌<◌, ◌≡◌, ◌⊎◌, ◌↔◌, refl, Bool, true, false, List, [], ◌∷◌, none, some, length,
  All, arith, elem, get_or, ok, raise, value_error,
}
use vector_retrieval_optimiz.Prelude.Sorting.{sort_by}
use vector_retrieval_optimiz.Numpy.{Score, Hit}
use vector_retrieval_optimiz.Hnsw.Graph.{max_of, scored_to}
use vector_retrieval_optimiz.Numpy.Reference.{reference, dot}
use vector_retrieval_optimiz.Hnsw.{Adjacency, links}
use vector_retrieval_optimiz.Hnsw.Select.{select, ordered, pick, pruned_by}
use vector_retrieval_optimiz.Hnsw.Select.Picks.{IsSpread, select-IsSpread}
use vector_retrieval_optimiz.Hnsw.Layer.{
  Walk, hit, IsHit, greedy, climb, better_than, first_best, start, offer_filtered, cleared,
  search_layer, search_layer_filtered,
}
use vector_retrieval_optimiz.Prelude.Ranges.{Nodup}
use vector_retrieval_optimiz.Hnsw.Layer.Greedy.{greedy-IsHit}
use vector_retrieval_optimiz.Hnsw.Layer.Ends.{Runs, search_layer_filtered-Runs}
use vector_retrieval_optimiz.Hnsw.Layer.Results.{
  search_layer_filtered-search_layer, search_layer_filtered-IsHit,
}
use vector_retrieval_optimiz.Hnsw.Layer.Visited.{search_layer_filtered-visited}
use vector_retrieval_optimiz.Hnsw.Repair.{sweep_from, sweep, reach_one, is_dead, unreachable0}
use vector_retrieval_optimiz.Hnsw.Repair.Reached.{Reach}
use vector_retrieval_optimiz.Hnsw.Repair.Unreachable.{unreachable0-Reach}
use vector_retrieval_optimiz.Hnsw.Changes.{
  pick_entry, first_at, refill, refill_layers, clear_from, refill_node, cleared_node, refilled,
  gather_dead, gather_one,
}
use vector_retrieval_optimiz.Hnsw.Changes.Refilled.{IsLive}
use vector_retrieval_optimiz.Hnsw.Changes.Cleaned.{refill-IsLive}
use vector_retrieval_optimiz.Hnsw.Changes.Entry.{IsEntry, pick_entry-IsEntry}

abbrev pub rows : List (List ℕ)
rows = (1 ∷ []) ∷ (5 ∷ []) ∷ (3 ∷ []) ∷ (4 ∷ []) ∷ []

abbrev pub asked : List ℕ
asked = 2 ∷ []

-- a line of rows, and the row 3 that only leads away
abbrev sample : Adjacency
sample = (some (1 ∷ 2 ∷ []) ∷ some (0 ∷ []) ∷ some (0 ∷ 1 ∷ []) ∷ some (2 ∷ []) ∷ []) ∷ []

abbrev near : ℕ → List ℕ
near i = links sample 0 i

near-in_range : (i : ℕ) → All (λ j. j < 4) (near i)
near-in_range zero = (omega arith, (omega arith, tt))
near-in_range (suc zero) = (omega arith, tt)
near-in_range (suc (suc zero)) = (omega arith, (omega arith, tt))
near-in_range (suc (suc (suc zero))) = (omega arith, tt)
near-in_range (suc (suc (suc (suc i)))) = tt

near-Nodup : (i : ℕ) → Nodup (near i)
near-Nodup zero = (((λ e. omega arith), tt), (tt, tt))
near-Nodup (suc zero) = (tt, tt)
near-Nodup (suc (suc zero)) = (((λ e. omega arith), tt), (tt, tt))
near-Nodup (suc (suc (suc zero))) = (tt, tt)
near-Nodup (suc (suc (suc (suc i)))) = tt

abbrev begin : Hit
begin = hit reference rows asked 3

begin-IsHit : IsHit reference rows asked begin
begin-IsHit = (refl, omega arith)

abbrev blank : List Bool
blank = false ∷ false ∷ false ∷ false ∷ []

abbrev evens : ℕ → Bool
evens i = get_or (true ∷ false ∷ true ∷ false ∷ []) i false

-- The descent from row 3 does not move: its only neighbor is worse.
greedy_run : (greedy reference rows near 4 asked begin).0.row ≡ 3
unfolding greedy dot climb better_than first_best
greedy_run = refl

greedy_moves : (greedy reference rows near 4 asked (hit reference rows asked 0)).0.row ≡ 1
unfolding greedy dot climb better_than first_best
greedy_moves = refl

unreachable0_run : unreachable0 near 4 0 none ≡ 3 ∷ []
unfolding unreachable0 sweep_from sweep reach_one
unreachable0_run = refl

greedy-IsHit_example :
    let end = (greedy reference rows near 4 asked begin).0 in
    IsHit reference rows asked end
    × (begin.score ≤ end.score)
    × All (λ j. (hit reference rows asked j).score ≤ end.score) (near end.row)
greedy-IsHit_example = greedy-IsHit reference rows near asked near-in_range begin begin-IsHit

search_layer_filtered-Runs_example :
    (end : Walk) × Runs reference rows
      (offer_filtered evens 2)
      near
      asked
      2
      (start evens blank (begin ∷ []) 2)
      end
    × (search_layer_filtered reference rows near evens blank asked (begin ∷ []) 2 ≡ cleared end)
search_layer_filtered-Runs_example =
    search_layer_filtered-Runs reference rows near asked evens blank (begin ∷ []) 2 (omega arith)
      (omega arith) (omega arith, tt) near-in_range near-Nodup

search_layer_filtered-search_layer_example :
    search_layer_filtered reference rows near (λ i. true) blank asked (begin ∷ []) 2
    ≡ search_layer reference rows near blank asked (begin ∷ []) 2
search_layer_filtered-search_layer_example =
    search_layer_filtered-search_layer reference rows near asked blank (begin ∷ []) 2

search_layer_filtered-IsHit_example :
    let res = (search_layer_filtered reference rows near evens blank asked (begin ∷ []) 2).res in
    (length res ≤ 2) × All (λ (h : Hit). IsHit reference rows asked h × (evens h.row ≡ true)) res
search_layer_filtered-IsHit_example =
    search_layer_filtered-IsHit reference rows near asked near-in_range evens blank (begin ∷ []) 2
      (omega arith) (begin-IsHit, tt)

search_layer_filtered-visited_example :
    (search_layer_filtered reference rows near evens blank asked (begin ∷ []) 2).visited ≡ blank
search_layer_filtered-visited_example =
    search_layer_filtered-visited reference rows near evens blank asked (begin ∷ []) 2 (omega arith)
      (omega arith) (omega arith, tt) near-in_range

unreachable0-Reach_example :
    (elem 3 (unreachable0 near 4 0 none) ≡ true) ↔ ((¬ Reach near 0 3) × (is_dead none 3 ≡ false))
unreachable0-Reach_example =
    unreachable0-Reach near 0 4 near-in_range (omega arith) none 3 (omega arith)

abbrev gone : List Bool
gone = false ∷ true ∷ false ∷ false ∷ []

refill_run : links (refill reference rows 2 gone sample) 0 0 ≡ 2 ∷ []
unfolding refill dot refill_layers clear_from refill_node cleared_node refilled gather_dead
    gather_one select ordered sort_by scored_to
refill_run = refl

refill-IsLive_example :
    All
      (IsLive reference rows 2 (omega arith) gone)
      (links (refill reference rows 2 gone sample) 0 0)
    × (get_or gone 0 false ≡ true → links (refill reference rows 2 gone sample) 0 0 ≡ [])
refill-IsLive_example = refill-IsLive reference rows 2 (omega arith) gone sample 0 0

abbrev heights : List ℕ
heights = 1 ∷ 2 ∷ 0 ∷ 1 ∷ []

abbrev live : List Bool
live = true ∷ false ∷ true ∷ true ∷ []

pick_entry_run : pick_entry heights live ≡ ok (0, 1)
unfolding pick_entry first_at max_of
pick_entry_run = refl

pick_entry-IsEntry_example :
    ((j : ℕ) × (get_or live j false ≡ true)
      × (best : ℕ) × (pick_entry heights live ≡ ok (best, get_or heights best 0))
      × IsEntry heights live best)
    ⊎ (((j : ℕ) → get_or live j false ≡ false) × (pick_entry heights live ≡ raise value_error))
pick_entry-IsEntry_example = pick_entry-IsEntry heights live

-- candidates of the base row 1, out of order
abbrev scored : List Hit
scored = hit reference rows (5 ∷ []) 0 ∷ hit reference rows (5 ∷ []) 2 ∷ []

abbrev to_base : ℕ → Score
to_base i = (hit reference rows (5 ∷ []) i).score

select_run : select reference rows scored 2 [] ≡ 2 ∷ 0 ∷ []
unfolding select dot ordered sort_by pick pruned_by
select_run = refl

select-IsSpread_example : IsSpread reference rows to_base (select reference rows scored 2 [])
select-IsSpread_example = select-IsSpread reference rows to_base scored 2 (refl, (refl, tt))
