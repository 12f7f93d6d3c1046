-- ===== src/Diskann/Search/Built.antt =====
-- The parts of diskann.py together: an index that `build` returns, and a search of it.
use mathlib.Core.Path.{subst}
use vector_retrieval_optimiz.Prelude.{
  ℕ, suc, ◌*◌, ◌/◌, ◌^◌, ◌≤◌, ◌<◌, ◌≡◌, refl, ap, ◌∙◌, sym, false, String, List, [], ◌∷◌, map,
  Option, some, ok, length, length-map, get_or, take, max, All, All-map, Option-cases, Result-cases,
  inl, inr, arith,
}
use vector_retrieval_optimiz.Prelude.Arrays.{get_or-map}
use vector_retrieval_optimiz.Prelude.Ranges.{Nodup}
use vector_retrieval_optimiz.Prelude.Sorting.{Sorted}
use vector_retrieval_optimiz.Numpy.{Numpy, Hit, better}
use vector_retrieval_optimiz.Kmeans.{Arith}
use vector_retrieval_optimiz.Bytes.{Floats}
use vector_retrieval_optimiz.Bytes.Slots.{IsRow, IsWide}
use vector_retrieval_optimiz.Diskann.{Metric, Slots, medoid}
use vector_retrieval_optimiz.Diskann.Index.{
  Index, Reader, graph, index_of, trained, added, build, read_record,
}
use vector_retrieval_optimiz.Diskann.Index.Graphs.{IsWritten, graph-IsWritten}
use vector_retrieval_optimiz.Diskann.Search.{
  Beam, search, search_opened, code_score, search_with, padded,
}
use vector_retrieval_optimiz.Diskann.Search.Listed.{rows, SlotBelow}
use vector_retrieval_optimiz.Diskann.Search.Fresh.{
  io_of, All_at, written-IsRow, trained-rows, medoid-lt, reader-fresh, read_record-fresh,
}
use vector_retrieval_optimiz.Diskann.Search.Answers.{search_with-IsAnswer}

module _ (np : Numpy) (arith_ops : Arith np) (mt : Metric) (fl : Floats np) where
  open np use {Vec, zero_vec, dot}
  open mt use {Factor}

  -- The search of an index: what it answers with, and the reads that it counts.
  pub record IsSearched (vectors : List Vec) (query : Vec) (k : ℕ) (index' : Index Vec)
      (hits : List Hit) : Type 0 where
    pub few : length hits ≤ k
    pub sorted : Sorted better hits
    pub distinct : Nodup (rows hits)
    pub exact :
        All
          (λ h. (h.score ≡ dot (get_or vectors h.row zero_vec) query) × (h.row < length vectors))
          hits
    pub reads_le : index'.disk_reads ≤ length vectors

  searched :
      (query : Vec) (k l beam rerank : ℕ) (opened : Index Vec) (rd : Reader) (hits : List Hit)
      (s : Beam Vec)
      → search_with np
          (read_record np arith_ops mt fl opened rd)
          (code_score np arith_ops mt fl opened query)
          opened.n
          opened.entry
          query
          k
          l
          beam
          rerank
        ≡ some (ok (hits, s))
      → search_opened np arith_ops mt fl query k l beam rerank (opened, false, ok rd)
        ≡ some (
          record opened {
            distance_computations = s.ndist;
            disk_reads = s.reads;
            disk_bytes_read = s.reads * opened.rec;
          },
          ok (padded k hits),
        )
  unfolding search_opened
  searched query k l beam rerank opened rd hits s e = rw (search_opened, e) refl

  search-index_of :
      (vectors : List Vec) (dim r sub : ℕ) (metric : String) (entry : ℕ)
      (codebooks : List (List Vec)) (slots : List Slots) (rd : Reader) (query : Vec)
      (k l beam rerank : ℕ)
      → All (IsWide np fl dim) vectors
      → length vectors ≤ 2 ^ 31
      → entry < length vectors
      → 0 < max l k
      → length slots ≡ length vectors
      → ((j : ℕ) → j < length vectors → IsWritten (length vectors) r j (take r (get_or slots j [])))
      → (index' : Index Vec) × (hits : List Hit) × (search np arith_ops mt fl
            (index_of np arith_ops mt fl vectors dim r sub metric entry codebooks
              (map (take r) slots))
            query
            k
            l
            beam
            (suc rerank)
            (io_of rd)
          ≡ some (index', ok (padded k hits)))
        × IsSearched vectors query k index' hits
  unfolding search index_of
  search-index_of vectors dim r sub metric entry codebooks slots rd query k l beam rerank wide small
        lt pos size written =
      let n = length vectors in
      let edges = map (take r) slots in
      let index = index_of np arith_ops mt fl vectors dim r sub metric entry codebooks edges in
      let opened : Index Vec = record index {
        readers = (io_of rd, rd) ∷ [];
        last_io = some (io_of rd);
      } in
      let read = read_record np arith_ops mt fl opened rd in
      let edges_size : length edges ≡ n = length-map (take r) slots ∙ size in
      let row : (j : ℕ) → j < n → get_or edges j [] ≡ take r (get_or slots j []) =
        λ j h. get_or-map (take r) slots j [] [] (omega (arith, size)) in
      let good : (j : ℕ)
          → j < n
          → IsRow r (get_or edges j []) × All (SlotBelow n) (get_or edges j []) =
        λ j h.
          subst (λ t. IsRow r t × All (SlotBelow n) t) (sym (row j h))
            (written-IsRow n r j (take r (get_or slots j [])) small (written j h)) in
      let fit : All (IsRow r) edges =
        All_at (IsRow r) [] edges (λ j h. (good j (omega (arith, edges_size))).0) in
      let reads : (c : ℕ) → c < n → read c ≡ (get_or vectors c zero_vec, get_or edges c []) = λ c h.
        read_record-fresh np arith_ops mt fl vectors dim r sub metric entry codebooks edges rd
          ((io_of rd, rd) ∷ []) (some (io_of rd)) c wide fit edges_size h in
      let inside : (c : ℕ) → c < n → All (SlotBelow n) (read c).1 =
        λ c h. subst (λ (t : Vec × Slots). All (SlotBelow n) t.1) (sym (reads c h)) (good c h).1 in
      let answer =
        search_with-IsAnswer np read (code_score np arith_ops mt fl opened query) n inside query
          entry k l beam (suc rerank) lt pos in
      let hits = answer.0.0 in
      let s = answer.0.1 in
      (
        record opened {
          distance_computations = s.ndist;
          disk_reads = s.reads;
          disk_bytes_read = s.reads * opened.rec;
        },
        hits,
        ap (search_opened np arith_ops mt fl query k l beam (suc rerank))
              (reader-fresh np arith_ops mt fl vectors dim r sub metric entry codebooks edges rd)
            ∙ searched query k l beam (suc rerank) opened rd hits s answer.1,
        record {
          few = answer.2.few;
          sorted = answer.2.sorted;
          distinct = answer.2.distinct;
          exact =
              All-map
                (λ h w. (w.0 ∙ ap (λ (t : Vec × Slots). dot t.0 query) (reads h.row w.1), w.1)) hits
                answer.2.exact;
          reads_le = answer.2.reads_le;
        },
      )

  -- Of an index that the second part of `build` makes with any codebooks, for float32 rows of dim values,
  -- of which there is one at least and 2 ^ 31 at most, a search with a positive rerank, through either
  -- reader, ends and raises nothing where l or k is positive. It returns at most k distinct rows of the
  -- corpus with their dot products with the query, best first and lower ID first on ties, then padding,
  -- and counts no more reads than there are rows.
  pub search-added :
      (draws : ℕ) (vectors : List Vec) (dim r l_build : ℕ) (alpha : Factor) (sub : ℕ)
      (metric : String) (seed : ℕ) (codebooks : List (List Vec)) (index : Index Vec)
      → added np arith_ops mt fl draws vectors dim r l_build alpha sub metric seed codebooks
        ≡ some index
      → 1 ≤ length vectors
      → All (IsWide np fl dim) vectors
      → length vectors ≤ 2 ^ 31
      → (rd : Reader) (query : Vec) (k l beam rerank : ℕ) → 0 < max l k
      → (index' : Index Vec) × (hits : List Hit) × (search np arith_ops mt fl index query k l beam
            (suc rerank)
            (io_of rd)
          ≡ some (index', ok (padded k hits)))
        × IsSearched vectors query k index' hits
  unfolding added
  search-added draws vectors dim r l_build alpha sub metric seed codebooks index e enough wide small
        rd query k l beam rerank pos =
      let entry = medoid np arith_ops vectors in
      let entry_lt = medoid-lt np arith_ops mt fl vectors enough in
      elim (Option-cases (graph np arith_ops mt fl draws vectors r l_build alpha seed entry)) [
        | inl out_of_draws ↦ absurd (let e' = rw (added, out_of_draws) at e in cc)
        | inr (slots, made) ↦
            let written =
              graph-IsWritten np arith_ops mt fl draws vectors r l_build alpha seed entry slots
                entry_lt made in
            let e' = rw (added, made) at e in
            let same : index_of np arith_ops mt fl vectors dim r sub metric entry codebooks
                  (map (take r) slots)
                ≡ index =
              cc in
            subst
              (λ (x : Index Vec).
                (index' : Index Vec) × (hits : List Hit) × (search np arith_ops mt fl x query k l
                    beam (suc rerank) (io_of rd)
                  ≡ some (index', ok (padded k hits)))
                × IsSearched vectors query k index' hits)
              same
              (search-index_of vectors dim r sub metric entry codebooks slots rd query k l beam
                rerank wide small entry_lt pos written.0 written.1)
      ]

  -- What `build` returns is such an index, of two rows at least.
  pub build-added :
      (train_draws draws : ℕ) (vectors : List Vec) (dim r l_build : ℕ) (alpha : Factor) (pq_m : ℕ)
      (metric : String) (seed : ℕ) (index : Index Vec)
      → build np arith_ops mt fl train_draws draws vectors dim r l_build alpha pq_m metric seed
        ≡ some (ok index)
      → (codebooks : List (List Vec)) × (added np arith_ops mt fl draws vectors dim r l_build alpha
            (dim / pq_m)
            metric
            seed
            codebooks
          ≡ some index)
        × (2 ≤ length vectors)
  unfolding build
  build-added train_draws draws vectors dim r l_build alpha pq_m metric seed index e =
      elim (Result-cases
        (trained np arith_ops mt fl train_draws vectors dim r l_build alpha pq_m metric seed)) [
          | inl (error, failed) ↦ absurd (let e' = rw (build, failed) at e in cc)
          | inr (codebooks, done) ↦
              let enough =
                trained-rows np arith_ops mt fl train_draws vectors dim r l_build alpha pq_m metric
                  seed codebooks done in
              elim (Option-cases (
                added np arith_ops mt fl draws vectors dim r l_build alpha (dim / pq_m) metric seed
                  codebooks)) [
                    | inl out_of_draws ↦ absurd (let e' = rw (build, done, out_of_draws) at e in cc)
                    | inr (made_index, made) ↦
                        let e' = rw (build, done, made) at e in
                        let same : made_index ≡ index = cc in
                        (
                          codebooks,
                          made
                              ∙ ap (λ (x : Index Vec). let o : Option (Index Vec) = some x in o)
                                  same,
                          enough,
                        )
                  ]
        ]
