-- ===== src/Diskann/Passes/Kept.antt =====
-- Every step of the passes of diskann.py keeps the rows of the graph bounded.
use mathlib.Core.Path.{subst}
use vector_retrieval_optimiz.Prelude.{
  ℕ, ◌<◌, ◌≡◌, ◌≢◌, ap, ◌∙◌, sym, true, false, List, [], ◌∷◌, ◌++◌, foldl, length, get_or,
  range_from, elem, All, All-append, ==_iff, Bool-cases, inl, inr, arith,
}
use vector_retrieval_optimiz.Prelude.Ranges.{range_from-bound}
use vector_retrieval_optimiz.Prelude.Distinct.{AllIn-ne, AllIn_self, Nodup-append_one}
use vector_retrieval_optimiz.Numpy.{Numpy}
use vector_retrieval_optimiz.Diskann.{Metric, Builder, out_of}
use vector_retrieval_optimiz.Diskann.Greedy.{greedy}
use vector_retrieval_optimiz.Diskann.Greedy.Ends.{greedy-below}
use vector_retrieval_optimiz.Diskann.Prune.{prune}
use vector_retrieval_optimiz.Diskann.Passes.{add_back, pass_row, pass}
use vector_retrieval_optimiz.Diskann.Passes.Bounded.{IsBounded, out_of-ids}
use vector_retrieval_optimiz.Diskann.Passes.Grown.{
  lists-below, prune-IsBounded, append_edge-with_row, grown-IsBounded,
}

module _ (n r : ℕ) (np : Numpy) (mt : Metric) (v : List np.Vec) where
  add_back-IsBounded :
      (alpha : mt.Factor) (i j : ℕ) (b : Builder)
      → i < n
      → j < n
      → i ≢ j
      → IsBounded n r b
      → IsBounded n r (add_back np mt v r alpha i b j)
  unfolding add_back
  add_back-IsBounded alpha i j b hi hj ne w =
      let row = w.rows j hj in
      let same = out_of-ids n r r b j row in
      elim (Bool-cases (elem i (out_of b j))) [
        | inl old ↦ rw old w
        | inr new ↦
            let fresh : elem i row.ids ≡ false = ap (elem i) (sym same) ∙ new in
            let distinct = AllIn-ne i row.ids row.ids (AllIn_self row.ids) fresh in
            rw (new, append_edge-with_row n r np mt v b i j row)
              (grown-IsBounded n r np mt v b j (row.ids ++ i ∷ []) alpha i w hj
                (All-append (λ x. x < n) row.ids (i ∷ []) row.below (hi, tt))
                (All-append (λ x. x ≢ j) row.ids (i ∷ []) row.apart (ne, tt))
                (Nodup-append_one i row.ids row.once distinct) (elem-last i row.ids) ne)
      ]
    where
      elem-last : (i : ℕ) (xs : List ℕ) → elem i (xs ++ i ∷ []) ≡ true
      elem-last i [] = ground (arith, ==_iff i i)
      elem-last i (x ∷ xs) = ground (arith, elem-last i xs)

  add_all-IsBounded :
      (alpha : mt.Factor) (i : ℕ) (js : List ℕ) (b : Builder)
      → i < n
      → All (λ j. (j < n) × (j ≢ i)) js
      → IsBounded n r b
      → IsBounded n r (foldl (add_back np mt v r alpha i) b js)
  add_all-IsBounded alpha i [] b hi h w = w
  add_all-IsBounded alpha i (j ∷ js) b hi h w =
      add_all-IsBounded alpha i js (add_back np mt v r alpha i b j) hi h.1
        (add_back-IsBounded alpha i j b hi h.0.0 (λ e. h.0.1 (sym e)) w)

  greedy-IsBounded :
      (b : Builder) (q : np.Vec) (entry l : ℕ)
      → IsBounded n r b
      → IsBounded n r (greedy np v b q entry l).0
  unfolding greedy
  greedy-IsBounded b q entry l w = record {
    edges_size = w.edges_size;
    counts_size = w.counts_size;
    rows = λ j hj.
        let row = w.rows j hj in
        record {
          ids = row.ids;
          slots_eq = row.slots_eq;
          count_eq = row.count_eq;
          few = row.few;
          below = row.below;
          apart = row.apart;
          once = row.once;
        };
  }

  pass_row-IsBounded :
      (entry l : ℕ) (alpha : mt.Factor) (b : Builder) (i : ℕ)
      → entry < n
      → i < n
      → IsBounded n r b
      → IsBounded n r (pass_row np mt v r entry l alpha b i)
  unfolding pass_row
  pass_row-IsBounded entry l alpha b i he hi w =
      let q = get_or v i np.zero_vec in
      let b1 = (greedy np v b q entry l).0 in
      let visited = (greedy np v b q entry l).1 in
      let w1 = greedy-IsBounded b q entry l w in
      let cands =
        All-append (λ c. c < n) visited (out_of b1 i)
          (greedy-below n np v b (lists-below n r np mt v b w) q entry l he)
          (lists-below n r np mt v b1 w1 i) in
      let b2 = prune np mt v r b1 i (visited ++ out_of b1 i) alpha in
      let w2 = prune-IsBounded n r np mt v b1 i (visited ++ out_of b1 i) alpha hi cands w1 in
      let row = w2.rows i hi in
      add_all-IsBounded alpha i (out_of b2 i) b2 hi
        (subst (All (λ j. (j < n) × (j ≢ i))) (sym (out_of-ids n r r b2 i row))
          (All-both row.ids row.below row.apart))
        w2
    where
      All-both :
          (xs : List ℕ)
          → All (λ c. c < n) xs
          → All (λ c. c ≢ i) xs
          → All (λ j. (j < n) × (j ≢ i)) xs
      All-both [] p q = tt
      All-both (x ∷ xs) p q = ((p.0, q.0), All-both xs p.1 q.1)

  pass_rows-IsBounded :
      (entry l : ℕ) (alpha : mt.Factor) (is : List ℕ) (b : Builder)
      → entry < n
      → All (λ i. i < n) is
      → IsBounded n r b
      → IsBounded n r (foldl (pass_row np mt v r entry l alpha) b is)
  pass_rows-IsBounded entry l alpha [] b he h w = w
  pass_rows-IsBounded entry l alpha (i ∷ is) b he h w =
      pass_rows-IsBounded entry l alpha is (pass_row np mt v r entry l alpha b i) he h.1
        (pass_row-IsBounded entry l alpha b i he h.0 w)

  -- A pass from a row of the index keeps every row of the graph bounded: it has at most r edges, to
  -- other rows of the index, each once, and the slots behind them are empty.
  pub pass-IsBounded :
      (entry l : ℕ) (alpha : mt.Factor) (b : Builder)
      → length v ≡ n
      → entry < n
      → IsBounded n r b
      → IsBounded n r (pass np mt v r entry l alpha b)
  unfolding pass
  pass-IsBounded entry l alpha b size he w =
      pass_rows-IsBounded entry l alpha (range_from 0 (length v)) b he
        (range_from-bound 0 (length v) n (omega (arith, size))) w
