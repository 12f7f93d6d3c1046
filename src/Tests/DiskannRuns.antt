-- ===== src/Tests/DiskannRuns.antt =====
-- Two rows in a graph of one edge each: the graph, its file, and searches of it.
use vector_retrieval_optimiz.Prelude.{
  ℕ, zero, suc, ◌+◌, ◌-◌, ◌*◌, ◌<◌, ◌≡◌, refl, true, false, List, [], ◌∷◌, none, some, ok, raise,
  value_error, ltb, length, get_or, take, range_from, All, arith,
}
use vector_retrieval_optimiz.Prelude.Arrays.{unique, add_unique, gather}
use vector_retrieval_optimiz.Prelude.Sorting.{sort_by}
use vector_retrieval_optimiz.Numpy.{Hit}
use vector_retrieval_optimiz.Numpy.Reference.{reference, dot}
use vector_retrieval_optimiz.Splitmix.{new, next_below, next_u64}
use vector_retrieval_optimiz.Bytes.{Floats}
use vector_retrieval_optimiz.Diskann.{
  Metric, Slots, Builder, higher_at, out_of, filled, draw_edges, init_rows, init_graph, medoid,
}
use vector_retrieval_optimiz.Diskann.Prune.{
  first_alive, masked_from, pick_from, others, nearest_first, survives, chosen, prune,
}
use vector_retrieval_optimiz.Diskann.Greedy.{
  Descent, is_full, ends_at, take_in, above_worst, expand, descend, entered, greedy,
}
use vector_retrieval_optimiz.Diskann.Greedy.Runs.{Runs, greedy-Runs}
use vector_retrieval_optimiz.Prelude.Ranges.{Nodup}
use vector_retrieval_optimiz.Diskann.Passes.{append_edge, add_back, pass_row, pass}
use vector_retrieval_optimiz.Pq.{present}
use vector_retrieval_optimiz.Diskann.Prune.Robust.{IsRobust, prune-IsRobust}
use vector_retrieval_optimiz.Diskann.Disk.{Shape, write_file, read_mmap, read_nocache}
use vector_retrieval_optimiz.Diskann.Disk.Roundtrip.{read-write_file}
use vector_retrieval_optimiz.Diskann.Index.{
  Index, opened, mmap_reader, index_of, graph, added, reader,
}
use vector_retrieval_optimiz.Diskann.Index.Graphs.{IsWritten, graph-IsWritten}
use vector_retrieval_optimiz.Diskann.Index.Readers.{reader_refused}
use vector_retrieval_optimiz.Diskann.Search.{Beam, search, search_with, padded}
use vector_retrieval_optimiz.Diskann.Search.Listed.{SlotBelow}
use vector_retrieval_optimiz.Diskann.Search.Answers.{IsAnswer, search_with-IsAnswer}
use vector_retrieval_optimiz.Diskann.Search.Built.{IsSearched, search-added}
use vector_retrieval_optimiz.Tests.KmeansRuns.{whole}

-- whole numbers below 256 in place of float32 values, as four of them for each
abbrev pub plain_floats : Floats reference
plain_floats = record {
  to_bytes = λ x. x;
  of_bytes = λ bytes. bytes;
  of_bytes-to_bytes = λ x. refl;
}

abbrev simple : Metric
simple = record {
  Factor = ℕ;
  one = 1;
  below_one = λ a. ltb a 1;
  argsort_neg = λ s. sort_by (higher_at s) (range_from 0 (length s));
  argsort_neg-sorts = λ s. refl;
  distance = λ s. 100 - s;
  scale = λ a d. a * d;
}

abbrev pub two_rows : List (List ℕ)
two_rows = (1 ∷ 0 ∷ 0 ∷ 2 ∷ []) ∷ (3 ∷ 0 ∷ 0 ∷ 1 ∷ []) ∷ []

abbrev two_slots : List Slots
two_slots = (some 1 ∷ none ∷ []) ∷ (some 0 ∷ none ∷ []) ∷ []

-- the first graph and the passes over it
graph_test : graph reference whole simple plain_floats 20 two_rows 1 2 1 7 0 ≡ some two_slots
unfolding graph init_graph init_rows draw_edges new next_below next_u64 filled pass pass_row
    add_back append_edge greedy entered descend expand ends_at above_worst take_in is_full prune
    others unique add_unique nearest_first chosen pick_from first_alive masked_from survives gather
    out_of present sort_by dot
graph_test = refl

graph-IsWritten_example :
    (length two_slots ≡ length two_rows)
    × ((j : ℕ)
        → j < length two_rows
        → IsWritten (length two_rows) 1 j (take 1 (get_or two_slots j [])))
graph-IsWritten_example =
    graph-IsWritten reference whole simple plain_floats 20 two_rows 1 2 1 7 0 two_slots
      (omega arith) graph_test

abbrev codebooks : List (List (List ℕ))
codebooks = two_rows ∷ []

abbrev index : Index (List ℕ)
index =
    index_of reference whole simple plain_floats two_rows 1 1 1 "ip" 0 codebooks
      ((some 1 ∷ []) ∷ (some 0 ∷ []) ∷ [])

added_test :
    added reference whole simple plain_floats 20 two_rows 1 1 2 1 1 "ip" 7 codebooks ≡ some index
unfolding added medoid graph init_graph init_rows draw_edges new next_below next_u64 filled pass
    pass_row add_back append_edge greedy entered descend expand ends_at above_worst take_in is_full
    prune others unique add_unique nearest_first chosen pick_from first_alive masked_from survives
    gather out_of present sort_by dot
added_test = refl

search-added_example :
    (index' : Index (List ℕ)) × (hits : List Hit) × (search reference whole simple plain_floats
        index
        (2 ∷ 0 ∷ 0 ∷ 5 ∷ [])
        2
        2
        1
        1
        "mmap"
      ≡ some (index', ok (padded 2 hits)))
    × IsSearched reference whole simple plain_floats two_rows (2 ∷ 0 ∷ 0 ∷ 5 ∷ []) 2 index' hits
search-added_example =
    search-added reference whole simple plain_floats 20 two_rows 1 1 2 1 1 "ip" 7 codebooks index
      added_test (omega arith) (refl, (refl, tt)) (omega arith) mmap_reader (2 ∷ 0 ∷ 0 ∷ 5 ∷ []) 2 2
      1 0 (omega arith)

read_small : ℕ → List ℕ × Slots
read_small zero = (1 ∷ 0 ∷ 0 ∷ 2 ∷ [], some 1 ∷ none ∷ [])
read_small (suc c) = (3 ∷ 0 ∷ 0 ∷ 1 ∷ [], some 0 ∷ some 1 ∷ [])

read_small-inside : (c : ℕ) → c < 2 → All (SlotBelow 2) (read_small c).1
unfolding read_small
read_small-inside zero h = (omega arith, (tt, tt))
read_small-inside (suc c) h = (omega arith, (omega arith, tt))

search_with-IsAnswer_example :
    (out : List Hit × Beam (List ℕ)) × (search_with reference read_small
        (λ c. 5 + c)
        2
        0
        (2 ∷ 0 ∷ 0 ∷ 5 ∷ [])
        2
        1
        1
        1
      ≡ some (ok out))
    × IsAnswer reference read_small
        (λ c. 5 + c)
        2
        read_small-inside
        (2 ∷ 0 ∷ 0 ∷ 5 ∷ [])
        2
        1
        out.0
        out.1
search_with-IsAnswer_example =
    search_with-IsAnswer reference read_small (λ c. 5 + c) 2 read_small-inside (2 ∷ 0 ∷ 0 ∷ 5 ∷ [])
      0 2 1 1 1 (omega arith) (omega arith)

abbrev three_rows : List (List ℕ)
three_rows = (1 ∷ 0 ∷ []) ∷ (3 ∷ 0 ∷ []) ∷ (1 ∷ 2 ∷ []) ∷ []

abbrev small_builder : Builder
small_builder = record {
  edges = (some 1 ∷ none ∷ []) ∷ (some 2 ∷ none ∷ []) ∷ (some 1 ∷ none ∷ []) ∷ [];
  counts = 1 ∷ 1 ∷ 1 ∷ [];
  mark = 0 ∷ 0 ∷ 0 ∷ [];
  gen = 0;
}

prune-IsRobust_example :
    IsRobust reference simple three_rows 1 0 2
      (2 ∷ 0 ∷ 1 ∷ 1 ∷ [])
      (out_of (prune reference simple three_rows 1 small_builder 0 (2 ∷ 0 ∷ 1 ∷ 1 ∷ []) 2) 0)
prune-IsRobust_example =
    prune-IsRobust reference simple three_rows 1 0 2 small_builder (2 ∷ 0 ∷ 1 ∷ 1 ∷ []) 2
      (omega arith) (omega arith) refl (omega arith)

small-below : (c : ℕ) → All (λ j. j < 3) (out_of small_builder c)
unfolding out_of present
small-below zero = (omega arith, tt)
small-below (suc zero) = (omega arith, tt)
small-below (suc (suc zero)) = (omega arith, tt)
small-below (suc (suc (suc c))) = tt

small-Nodup : (c : ℕ) → Nodup (out_of small_builder c)
unfolding out_of present
small-Nodup zero = (tt, tt)
small-Nodup (suc zero) = (tt, tt)
small-Nodup (suc (suc zero)) = (tt, tt)
small-Nodup (suc (suc (suc c))) = tt

greedy-Runs_example :
    let b' : Builder = record small_builder { gen = 1 } in
    (end : Descent) × Runs reference three_rows b' 2
      (1 ∷ 1 ∷ [])
      (entered reference three_rows b' (1 ∷ 1 ∷ []) 0)
      end
    × (greedy reference three_rows small_builder (1 ∷ 1 ∷ []) 0 2
        ≡ (record b' { mark = end.mark }, end.expanded))
greedy-Runs_example =
    greedy-Runs reference three_rows small_builder 2 0 (1 ∷ 1 ∷ []) small-below small-Nodup refl
      (omega arith) refl

-- the nearest row alone has a place
prune_test :
    out_of (prune reference simple three_rows 1 small_builder 0 (2 ∷ 0 ∷ 1 ∷ 1 ∷ []) 2) 0 ≡ 1 ∷ []
unfolding prune others unique add_unique nearest_first sort_by gather chosen pick_from first_alive
    masked_from survives out_of present filled dot
prune_test = refl

abbrev shape : Shape
shape = record { dim = 1; r = 2; rec = 16 }

read-write_file_example :
    (read_nocache reference plain_floats shape
        (write_file reference plain_floats 16 two_rows two_slots)
        1
      ≡ (3 ∷ 0 ∷ 0 ∷ 1 ∷ [], some 0 ∷ none ∷ []))
    × (read_mmap reference plain_floats shape
          (write_file reference plain_floats 16 two_rows two_slots)
          1
        ≡ (3 ∷ 0 ∷ 0 ∷ 1 ∷ [], some 0 ∷ none ∷ []))
read-write_file_example =
    read-write_file reference plain_floats shape (omega arith) two_rows two_slots 1
      (refl, (refl, tt)) ((refl, (omega arith, (tt, tt))), ((refl, (omega arith, (tt, tt))), tt))
      refl (omega arith) refl

-- the index after a search with the memory map
abbrev mapped : Index (List ℕ)
mapped = record index { readers = ("mmap", mmap_reader) ∷ []; last_io = some "mmap" }

reader_refused_example :
    let call = reader reference whole simple plain_floats mapped "direct" in
    ((reader reference whole simple plain_floats mapped "nocache").1 ≡ true)
    × (call.2 ≡ raise value_error)
    × ((reader reference whole simple plain_floats call.0 "nocache").1 ≡ false)
unfolding opened
reader_refused_example =
    reader_refused reference whole simple plain_floats mapped "direct" refl refl refl refl
