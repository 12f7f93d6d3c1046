-- ===== src/Diskann/Search/Fresh.antt =====
-- A fresh index of diskann.py: its entry point, its readers and its records.
use vector_retrieval_optimiz.Prelude.{
  ℕ, zero, suc, ◌-◌, ◌^◌, ◌≤◌, ◌<◌, ◌≡◌, refl, ◌∙◌, false, String, List, [], ◌∷◌, map, Option, none,
  some, ok, leb, leb→le, length, length-map, length-replicate, length-append, get_or, replicate,
  All, All-map, All-append, Bool-cases, inl, inr, arith,
}
use vector_retrieval_optimiz.Prelude.Distinct.{All_to_map}
use vector_retrieval_optimiz.Numpy.{Numpy}
use vector_retrieval_optimiz.Kmeans.{Arith}
use vector_retrieval_optimiz.Kmeans.Returns.{argmax-lt}
use vector_retrieval_optimiz.Bytes.{Floats}
use vector_retrieval_optimiz.Bytes.Slots.{IsInt32, IsRow, IsWide}
use vector_retrieval_optimiz.Diskann.{Metric, Slots, filled, medoid}
use vector_retrieval_optimiz.Diskann.Disk.{record_size}
use vector_retrieval_optimiz.Diskann.Disk.Roundtrip.{
  record_size_bounds, read_nocache-write_file, read_mmap-write_file,
}
use vector_retrieval_optimiz.Diskann.Index.{
  Reader, mmap_reader, nocache_reader, index_of, trained, reader, read_record,
}
use vector_retrieval_optimiz.Diskann.Index.Graphs.{IsWritten}
use vector_retrieval_optimiz.Diskann.Search.Listed.{rows, SlotBelow}

-- the parameter `io` of a reader
abbrev pub io_of : Reader → String
io_of mmap_reader = "mmap"
io_of nocache_reader = "nocache"

pub All_at {ℓ} :
    {A : Type ℓ} (P : A → Type 0) (d : A) (xs : List A)
    → ((i : ℕ) → i < length xs → P (get_or xs i d))
    → All P xs
All_at P d [] h = tt
All_at P d (x ∷ xs) h = (h 0 (omega arith), All_at P d xs (λ i k. h (suc i) (omega arith)))

-- what is written for a row fits an int32, and names rows of the index
pub written-IsRow :
    (n r j : ℕ) (slots : Slots)
    → n ≤ 2 ^ 31
    → IsWritten n r j slots
    → IsRow r slots × All (SlotBelow n) slots
unfolding filled
written-IsRow n r j slots small w =
    let int : (i : ℕ) → i < n → i < 2 ^ 31 = λ i k. omega arith in
    let size : length (filled r w.ids) ≡ r =
      length-append (map some w.ids) (replicate (r - length w.ids) none)
      ∙ omega (
        arith,
        length-map (λ (i : ℕ). some i) w.ids,
        length-replicate {A = Option ℕ} (r - length w.ids) none,
        w.few,
      ) in
    rw w.slots_eq (
      (
        size,
        All-append IsInt32 (map some w.ids) (replicate (r - length w.ids) none)
            (All_to_map (λ i. some i) IsInt32 w.ids (All-map int w.ids w.below))
            (All_none IsInt32 tt (r - length w.ids)),
      ),
      All-append (SlotBelow n) (map some w.ids) (replicate (r - length w.ids) none)
          (All_to_map (λ i. some i) (SlotBelow n) w.ids w.below)
          (All_none (SlotBelow n) tt (r - length w.ids)),
    )
  where
    All_none : (P : Option ℕ → Type 0) → P none → (k : ℕ) → All P (replicate k none)
    All_none P h zero = tt
    All_none P h (suc k) = (h, All_none P h k)

module _ (np : Numpy) (arith_ops : Arith np) (mt : Metric) (fl : Floats np) where
  open np use {Vec, zero_vec, dot}
  open mt use {Factor}

  pub trained-rows :
      (train_draws : ℕ) (vectors : List Vec) (dim r l_build : ℕ) (alpha : Factor) (pq_m : ℕ)
      (metric : String) (seed : ℕ) (codebooks : List (List Vec))
      → trained np arith_ops mt fl train_draws vectors dim r l_build alpha pq_m metric seed
        ≡ ok codebooks
      → 2 ≤ length vectors
  unfolding trained
  trained-rows train_draws vectors dim r l_build alpha pq_m metric seed codebooks e =
      elim (Bool-cases (leb 2 (length vectors))) [
        | inl enough ↦ leb→le 2 (length vectors) enough
        | inr few ↦ absurd (let e' = rw (trained, few) at e in cc)
      ]

  pub medoid-lt :
      (vectors : List Vec) → 1 ≤ length vectors → medoid np arith_ops vectors < length vectors
  unfolding medoid
  medoid-lt vectors h =
      let mean = arith_ops.mean vectors in
      let s = map (λ x. dot x mean) vectors in
      omega (
        arith,
        argmax-lt s (omega (arith, length-map (λ x. dot x mean) vectors)),
        length-map (λ x. dot x mean) vectors,
      )

  -- A search of a fresh index opens its reader.
  pub reader-fresh :
      (vectors : List Vec) (dim r sub : ℕ) (metric : String) (entry : ℕ)
      (codebooks : List (List Vec)) (edges : List Slots) (rd : Reader)
      → let index = index_of np arith_ops mt fl vectors dim r sub metric entry codebooks edges in
        reader np arith_ops mt fl index (io_of rd)
        ≡ (record index { readers = (io_of rd, rd) ∷ []; last_io = some (io_of rd) }, false, ok rd)
  unfolding reader index_of
  reader-fresh vectors dim r sub metric entry codebooks edges mmap_reader = refl
  reader-fresh vectors dim r sub metric entry codebooks edges nocache_reader = refl

  -- the record of a row of a fresh index, read through either reader
  pub read_record-fresh :
      (vectors : List Vec) (dim r sub : ℕ) (metric : String) (entry : ℕ)
      (codebooks : List (List Vec)) (edges : List Slots) (rd : Reader)
      (readers : List (String × Reader)) (last : Option String) (c : ℕ)
      → All (IsWide np fl dim) vectors
      → All (IsRow r) edges
      → length edges ≡ length vectors
      → c < length vectors
      → let index = index_of np arith_ops mt fl vectors dim r sub metric entry codebooks edges in
        read_record np arith_ops mt fl (record index { readers = readers; last_io = last }) rd c
        ≡ (get_or vectors c zero_vec, get_or edges c [])
  unfolding read_record index_of
  read_record-fresh vectors dim r sub metric entry codebooks edges mmap_reader readers last c wide
        rows size h =
      let bounds = record_size_bounds dim r in
      read_mmap-write_file np fl (record { dim = dim; r = r; rec = record_size dim r }) bounds.0
        vectors edges c wide rows size h (omega (arith, bounds.2))
  read_record-fresh vectors dim r sub metric entry codebooks edges nocache_reader readers last c
        wide rows size h =
      let bounds = record_size_bounds dim r in
      read_nocache-write_file np fl (record { dim = dim; r = r; rec = record_size dim r }) bounds.0
        vectors edges c wide rows size h
