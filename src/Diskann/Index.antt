-- ===== src/Diskann/Index.antt =====
-- `build`, `_reader` and `index_bytes` of diskann.py. The file is its content; the timings, the threads
-- and the pages of the operating system are left out.
pub mod Graphs
pub mod Readers
use vector_retrieval_optimiz.Prelude.{
  ℕ, zero, suc, ◌+◌, ◌-◌, ◌*◌, ◌/◌, ◌≡◌, Bool, true, false, not, ◌&&◌, ◌||◌, String, List, [], ◌∷◌,
  map, Option, none, some, Result, ok, raise, value_error, guard, ◌>>=◌, ◌>>◌, ltb, leb,
  if◌then◌else◌, length, take, min, max, replicate, foldl, any, filter, str_eq,
}
use vector_retrieval_optimiz.Prelude.Arrays.{sum}
use vector_retrieval_optimiz.Numpy.{Numpy, Score}
use vector_retrieval_optimiz.Kmeans.{Arith}
use vector_retrieval_optimiz.Pq.{checked, train_from, encode, squares, present}
use vector_retrieval_optimiz.Diskann.{Metric, Slots, Builder, init_graph, medoid}
use vector_retrieval_optimiz.Diskann.Passes.{pass}
use vector_retrieval_optimiz.Bytes.{Floats}
use vector_retrieval_optimiz.Diskann.Disk.{Shape, record_size, write_file, read_mmap, read_nocache}

pub data Reader : Type 0 where
  mmap_reader nocache_reader : Reader

-- the entries of `extra` that are numbers of the graph and the file
pub record Extra : Type 0 where
  pub disk_bytes : ℕ
  pub record_bytes : ℕ
  pub entry_point : ℕ
  pub min_out_degree : ℕ
  pub max_out_degree : ℕ

-- the dict; `file` is the content of the file at `path`
pub record Index (V : Type 0) : Type 0 where
  pub file : List ℕ
  pub n : ℕ
  pub dim : ℕ
  pub r : ℕ
  pub rec : ℕ
  pub entry : ℕ
  pub codebooks : List (List V)
  pub codebook_sq : List (List Score)
  pub codes : List (List ℕ)
  pub sub : ℕ
  pub metric : String
  pub readers : List (String × Reader)
  pub last_io : Option String
  pub extra : Extra
  pub distance_computations : ℕ
  pub disk_reads : ℕ
  pub disk_bytes_read : ℕ

-- deg.min() and deg.max(), from a first value
abbrev pub least : ℕ → List ℕ → ℕ
least = foldl min

abbrev pub greatest : ℕ → List ℕ → ℕ
greatest = foldl max

-- the number of edges of each row
abbrev pub degrees : List Slots → List ℕ
degrees = map (λ (row : Slots). length (present row))

-- index["readers"].pop
unfoldable pub without : String → List (String × Reader) → List (String × Reader)
without io = filter (λ entry. not (str_eq entry.0 io))

unfoldable pub opened : String → List (String × Reader) → Option Reader
opened io [] = none
opened io ((name, rd) ∷ readers) = if str_eq name io then some rd else opened io readers

-- `io == "nocache" and index.get("last_io") == "mmap"`
abbrev pub was_mapped : Option String → Bool
was_mapped none = false
was_mapped (some io) = str_eq io "mmap"

module _ (np : Numpy) (arith_ops : Arith np) (mt : Metric) (fl : Floats np) where
  open np use {Vec}
  open mt use {Factor, one, below_one}

  -- b.e after both passes
  unfoldable pub graph : ℕ → List Vec → ℕ → ℕ → Factor → ℕ → ℕ → Option (List Slots)
  unfolding init_graph
  graph draws vectors r l_build alpha seed entry = elim (init_graph draws (length vectors) r seed) [
    | none ↦ none
    | some (edges, counts) ↦
        let b : Builder = record {
          edges = edges;
          counts = counts;
          mark = replicate (length vectors) 0;
          gen = 0;
        } in
        let b1 = pass np mt vectors r entry l_build one b in
        let b2 = pass np mt vectors r entry l_build alpha b1 in some b2.edges
  ]

  -- the dict that `build` returns, from the codebooks and the graph; `edges` are the first r slots
  unfoldable pub index_of :
      List Vec → ℕ → ℕ → ℕ → String → ℕ → List (List Vec) → List Slots → Index Vec
  unfolding record_size write_file squares encode medoid
  index_of vectors dim r sub metric entry codebooks edges =
      let rec = record_size dim r in
      let file = write_file np fl rec vectors edges in
      let deg = degrees edges in
      record {
        file = file;
        n = length vectors;
        dim = dim;
        r = r;
        rec = rec;
        entry = entry;
        codebooks = codebooks;
        codebook_sq = squares np arith_ops codebooks;
        codes = encode np arith_ops vectors sub codebooks metric;
        sub = sub;
        metric = metric;
        readers = [];
        last_io = none;
        extra = record {
          disk_bytes = length file;
          record_bytes = rec;
          entry_point = entry;
          min_out_degree = least r deg;
          max_out_degree = greatest 0 deg;
        };
        distance_computations = 0;
        disk_reads = 0;
        disk_bytes_read = 0;
      }

  -- the checks of the parameters, and the codebooks
  unfoldable pub trained :
      ℕ → List Vec → ℕ → ℕ → ℕ → Factor → ℕ → String → ℕ → Result (List (List Vec))
  unfolding checked train_from
  trained train_draws vectors dim r l_build alpha pq_m metric seed = do
    guard (leb 2 (length vectors) && leb 1 r && leb 1 l_build && not (below_one alpha)) value_error
    (m, metric') ← checked pq_m 8 metric dim
    train_from np arith_ops train_draws vectors (dim / m) 20 seed metric' 0 m

  -- the graph, the codes and the file; `none` if the draws of the first graph ran out
  unfoldable pub added :
      ℕ → List Vec → ℕ → ℕ → ℕ → Factor → ℕ → String → ℕ → List (List Vec) → Option (Index Vec)
  added draws vectors dim r l_build alpha sub metric seed codebooks =
      let entry = medoid np arith_ops vectors in
      elim (graph draws vectors r l_build alpha seed entry) [
        | none ↦ none
        | some slots ↦ some (index_of vectors dim r sub metric entry codebooks (map (take r) slots))
      ]

  -- `build`
  unfoldable pub build :
      ℕ → ℕ → List Vec → ℕ → ℕ → ℕ → Factor → ℕ → String → ℕ → Option (Result (Index Vec))
  unfolding trained added
  build train_draws draws vectors dim r l_build alpha pq_m metric seed =
      elim (trained train_draws vectors dim r l_build alpha pq_m metric seed) [
        | raise error ↦ some (raise error)
        | ok codebooks ↦
            elim (added draws vectors dim r l_build alpha (dim / pq_m) metric seed codebooks) [
              | none ↦ none
              | some index ↦ some (ok index)
            ]
      ]

  -- `_reader`: the index after the call, whether it evicts the file's pages, and the reader
  unfoldable pub reader : Index Vec → String → Index Vec × Bool × Result Reader
  unfolding opened without
  reader index io =
      let evicts = str_eq io "nocache" && was_mapped index.last_io in
      let readers = if evicts then without "mmap" index.readers else index.readers in
      let index' : Index Vec = record index { readers = readers; last_io = some io } in
      let keep = λ (rd : Reader). record index' { readers = (io, rd) ∷ readers } in
      elim (opened io readers) [
        | some rd ↦ (index', evicts, ok rd)
        | none ↦
            if str_eq io "mmap"
            then (keep mmap_reader, evicts, ok mmap_reader)
            else if str_eq io "nocache"
            then (keep nocache_reader, evicts, ok nocache_reader)
            else (index', evicts, raise value_error)
      ]

  -- `read` of a reader
  unfoldable pub read_record : Index Vec → Reader → ℕ → Vec × Slots
  read_record index mmap_reader i =
      read_mmap np fl (record { dim = index.dim; r = index.r; rec = index.rec }) index.file i
  read_record index nocache_reader i =
      read_nocache np fl (record { dim = index.dim; r = index.r; rec = index.rec }) index.file i

  -- a byte for each code, 4 bytes for each value of the centroids, and the entry point
  unfoldable pub index_bytes : Index Vec → ℕ
  index_bytes index =
      sum (map (λ (codes : List ℕ). length codes) index.codes)
      + sum (map (λ (book : List Vec). length book) index.codebooks) * index.sub * 4
      + 4
