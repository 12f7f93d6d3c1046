-- ===== src/Tests/HnswIndexRuns.antt =====
-- A small index of hnsw.py: four rows on layer 0, from searches to the errors of an emptied index.
use vector_retrieval_optimiz.Prelude.{
  ℕ, zero, suc, ◌+◌, ◌-◌, ◌<◌, ◌≡◌, refl, Bool, true, false, List, [], ◌∷◌, none, some, All, arith,
  elem, get_or, ok, raise, value_error, take, ◌==◌, if◌then◌else◌,
}
use vector_retrieval_optimiz.Numpy.Reference.{reference, dot}
use vector_retrieval_optimiz.Distance.{Ranking}
use vector_retrieval_optimiz.Hnsw.Frozen.{Store, Slots, neighbors, read_slots}
use vector_retrieval_optimiz.Hnsw.Graph.{LevelOf, descend, down_to}
use vector_retrieval_optimiz.Hnsw.Index.{
  Index, allow, filter_of, ranking, allow_mask, walk0, search_masked, search,
}
use vector_retrieval_optimiz.Flat.{cached}
use vector_retrieval_optimiz.Filters.{ones}
use vector_retrieval_optimiz.Prelude.Sorting.{sort_by}
use vector_retrieval_optimiz.Hnsw.Layer.{
  search_layer_filtered, walk, start, enter, expand, offer_filtered,
}
use vector_retrieval_optimiz.Hnsw.Index.{build}
use vector_retrieval_optimiz.Hnsw.Index.Built.{build-ok}
use vector_retrieval_optimiz.Hnsw.Index.Answers.{IsAnswer, InRange, search_masked-IsAnswer}
use vector_retrieval_optimiz.Hnsw.Edits.{delete, update, compact}
use vector_retrieval_optimiz.Hnsw.Edits.Live.{Spares, search-delete-IsAnswer}
use vector_retrieval_optimiz.Hnsw.Edits.Emptied.{compact-all_dead, update-every_row}
use vector_retrieval_optimiz.Tests.HnswRuns.{rows, asked}
use vector_retrieval_optimiz.Tests.FlatRuns.{sample_files}

abbrev slots : ℕ → ℕ → Slots
slots a b = some a ∷ some b ∷ none ∷ none ∷ []

abbrev store : Store
store = record {
  nbr0 = slots 1 2 ∷ slots 0 2 ∷ slots 0 1 ∷ slots 2 1 ∷ [];
  cnt0 = 2 ∷ 2 ∷ 2 ∷ 2 ∷ [];
  up_off = 0 ∷ 0 ∷ 0 ∷ 0 ∷ [];
  up = (none ∷ none ∷ []) ∷ [];
  up_cnt = 0 ∷ [];
}

abbrev index : Index (List ℕ)
index = record {
  v = rows;
  n = 4;
  m = 2;
  levels = 0 ∷ 0 ∷ 0 ∷ 0 ∷ [];
  store = store;
  entry = 0;
  top = 0;
  ef_construct = 2;
  seed = 42;
  n_orig = 4;
  owned = false;
  deleted = none;
  id_map = none;
  allow = [];
  nodes_per_layer = 4 ∷ [];
  unreachable = 1;
  repair_added = (0, 0);
  update_added = none;
  compact_added = none;
  dist = 0;
  filter_rows = 0;
  visited = 0;
}

index-InRange : InRange reference index
unfolding neighbors
index-InRange = (by_layer, omega arith)
  where
    on_layer0 :
        (i : ℕ)
        → All (λ j. j < 4) (read_slots (take (get_or store.cnt0 i 0) (get_or store.nbr0 i [])))
    on_layer0 zero = (omega arith, (omega arith, tt))
    on_layer0 (suc zero) = (omega arith, (omega arith, tt))
    on_layer0 (suc (suc zero)) = (omega arith, (omega arith, tt))
    on_layer0 (suc (suc (suc zero))) = (omega arith, (omega arith, tt))
    on_layer0 (suc (suc (suc (suc i)))) = tt

    above :
        (r : ℕ)
        → All (λ j. j < 4) (read_slots (take (get_or store.up_cnt r 0) (get_or store.up r [])))
    above zero = tt
    above (suc r) = tt

    by_layer : (layer i : ℕ) → All (λ j. j < 4) (neighbors store layer i)
    by_layer layer i =
        elim (layer == 0)
          as (λ b.
            All (λ j. j < 4)
              (if b
                then read_slots (take (get_or store.cnt0 i 0) (get_or store.nbr0 i []))
                else read_slots (
                    take (get_or store.up_cnt (get_or store.up_off i 0 + layer - 1) 0)
                      (get_or store.up (get_or store.up_off i 0 + layer - 1) [])))) [
                        | true ↦ on_layer0 i
                        | false ↦ above (get_or store.up_off i 0 + layer - 1)
                      ]

abbrev level_of : LevelOf
level_of m j = 0

search_masked-IsAnswer_example :
    IsAnswer reference index asked 2
      (some (true ∷ false ∷ true ∷ false ∷ []))
      ((search_masked reference index asked 2 3 (some (true ∷ false ∷ true ∷ false ∷ []))).0)
search_masked-IsAnswer_example =
    search_masked-IsAnswer reference index asked index-InRange 2 3
      (some (true ∷ false ∷ true ∷ false ∷ [])) (omega arith)

abbrev dead : List Bool
dead = false ∷ true ∷ false ∷ false ∷ []

abbrev answer : Ranking
answer = record { ids = some 2 ∷ some 0 ∷ []; scores = 7 ∷ 3 ∷ [] }

abbrev asked_index : Index (List ℕ)
asked_index = record (delete index dead) {
  allow = ("none", true ∷ false ∷ true ∷ true ∷ []) ∷ [];
  dist = 3;
  filter_rows = 3;
  visited = 3;
}

search_run :
    search reference sample_files (delete index dead) asked 2 2 "none" ≡ ok (answer, asked_index)
unfolding search delete allow cached filter_of search_masked ranking allow_mask descend walk0
    sort_by down_to ones search_layer_filtered walk start enter expand neighbors offer_filtered dot
search_run = refl

search-delete-IsAnswer_example :
    (mask : List Bool) × Spares dead mask × IsAnswer reference index asked 2 (some mask) answer
search-delete-IsAnswer_example =
    search-delete-IsAnswer reference sample_files index dead index-InRange asked 2 2 "none" answer
      asked_index (omega arith) search_run

abbrev all_dead : List Bool
all_dead = true ∷ true ∷ true ∷ true ∷ []

each_dead : (i : ℕ) → i < 4 → get_or all_dead i false ≡ true
each_dead zero h = refl
each_dead (suc zero) h = refl
each_dead (suc (suc zero)) h = refl
each_dead (suc (suc (suc zero))) h = refl
each_dead (suc (suc (suc (suc i)))) h = absurd (omega arith)

compact-all_dead_example :
    compact reference level_of (delete index all_dead) "repair" ≡ raise value_error
unfolding delete
compact-all_dead_example =
    compact-all_dead reference level_of (delete index all_dead) all_dead refl refl (omega arith)
      refl (omega arith) each_dead

abbrev every_id : List ℕ
every_id = 2 ∷ 0 ∷ 1 ∷ 3 ∷ []

each_listed : (i : ℕ) → i < 4 → elem i every_id ≡ true
each_listed zero h = refl
each_listed (suc zero) h = refl
each_listed (suc (suc zero)) h = refl
each_listed (suc (suc (suc zero))) h = refl
each_listed (suc (suc (suc (suc i)))) h = absurd (omega arith)

update-every_row_example : update reference level_of index every_id rows ≡ raise value_error
update-every_row_example =
    update-every_row reference level_of index every_id rows refl refl (omega arith) each_listed

build-ok_example : (built : Index (List ℕ)) × (build reference level_of rows 2 2 42 4 ≡ ok built)
build-ok_example =
    build-ok reference level_of rows 2 2 (omega arith) (omega arith) 42 4 (omega arith)
      (omega arith) (omega arith)
