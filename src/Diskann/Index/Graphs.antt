-- ===== src/Diskann/Index/Graphs.antt =====
-- The graph that `build` of diskann.py writes.
use mathlib.Core.Path.{subst}
use vector_retrieval_optimiz.Prelude.{
  ℕ, zero, suc, ◌-◌, ◌≤◌, ◌<◌, ◌≡◌, ◌≢◌, refl, ap, ◌∙◌, List, [], ◌∷◌, ◌++◌, map, Option, none,
  some, length, get_or, take, replicate, All, Option-cases, inl, inr, arith,
}
use vector_retrieval_optimiz.Prelude.Ranges.{Nodup}
use vector_retrieval_optimiz.Numpy.{Numpy}
use vector_retrieval_optimiz.Kmeans.{Arith}
use vector_retrieval_optimiz.Bytes.{Floats}
use vector_retrieval_optimiz.Diskann.{Metric, Slots, Builder, filled, init_graph}
use vector_retrieval_optimiz.Diskann.Passes.{pass}
use vector_retrieval_optimiz.Diskann.Passes.Bounded.{IsRow}
use vector_retrieval_optimiz.Diskann.Passes.Kept.{pass-IsBounded}
use vector_retrieval_optimiz.Diskann.Passes.Random.{init_graph-IsBounded}
use vector_retrieval_optimiz.Diskann.Index.{graph}

-- The slots that are written for row j: at most r edges to other rows of the index, each once, and
-- -1 behind them.
pub record IsWritten (n r j : ℕ) (slots : Slots) : Type 0 where
  pub ids : List ℕ
  pub slots_eq : slots ≡ filled r ids
  pub few : length ids ≤ r
  pub below : All (λ c. c < n) ids
  pub apart : All (λ c. c ≢ j) ids
  pub once : Nodup ids

take-slots : (r : ℕ) (ids : List ℕ) → length ids ≤ r → take r (filled (suc r) ids) ≡ filled r ids
unfolding filled
take-slots r [] h =
    ap (λ (k : ℕ). take r (replicate k none)) {x = suc r - 0} {y = suc r} (omega arith)
    ∙ take-replicate r
    ∙ ap (λ (k : ℕ). replicate k none) {x = r} {y = r - 0} (omega arith)
  where
    take-replicate : (r : ℕ) → take r (replicate (suc r) none) ≡ replicate {A = Option ℕ} r none
    take-replicate zero = refl
    take-replicate (suc r) = ap (◌∷◌ none) (take-replicate r)
take-slots zero (i ∷ ids) h = absurd (omega arith)
take-slots (suc r) (i ∷ ids) h =
    let left : suc (suc r) - suc (length ids) ≡ suc r - length ids = omega arith in
    let right : r - length ids ≡ suc r - suc (length ids) = omega arith in
    ap (λ (k : ℕ). some i ∷ take r (map some ids ++ replicate k none)) left
    ∙ ap (◌∷◌ (some i)) (take-slots r ids (omega arith))
    ∙ ap (λ (k : ℕ). some i ∷ (map some ids ++ replicate k none)) right

module _ (np : Numpy) (arith_ops : Arith np) (mt : Metric) (fl : Floats np) where
  -- If the draws of the first graph last, the graph after both passes has a row for each row of the
  -- index. The first r slots of a row, which are written, hold all its edges: they are at most r, to
  -- other rows of the index, each once, with -1 behind them.
  pub graph-IsWritten :
      (draws : ℕ) (vectors : List np.Vec) (r l_build : ℕ) (alpha : mt.Factor) (seed entry : ℕ)
      (slots : List Slots)
      → entry < length vectors
      → graph np arith_ops mt fl draws vectors r l_build alpha seed entry ≡ some slots
      → (length slots ≡ length vectors)
        × ((j : ℕ)
            → j < length vectors
            → IsWritten (length vectors) r j (take r (get_or slots j [])))
  unfolding graph
  graph-IsWritten draws vectors r l_build alpha seed entry slots he e =
      let n = length vectors in
      elim (Option-cases (init_graph draws n r seed)) [
        | inl out_of_draws ↦ absurd (let e' = rw (graph, out_of_draws) at e in cc)
        | inr ((edges, counts), drawn) ↦
            let b : Builder = record {
              edges = edges;
              counts = counts;
              mark = replicate n 0;
              gen = 0;
            } in
            let b1 = pass np mt vectors r entry l_build mt.one b in
            let b2 = pass np mt vectors r entry l_build alpha b1 in
            let w =
              init_graph-IsBounded n (omega arith) draws r seed 0 (replicate n 0) edges counts
                drawn in
            let w1 = pass-IsBounded n r np mt vectors entry l_build mt.one b refl he w in
            let w2 = pass-IsBounded n r np mt vectors entry l_build alpha b1 refl he w1 in
            let e' = rw (graph, drawn) at e in
            let same : b2.edges ≡ slots = cc in
            subst
              (λ (es : List Slots).
                (length es ≡ n) × ((j : ℕ) → j < n → IsWritten n r j (take r (get_or es j []))))
              same (w2.edges_size, λ j hj. written b2 j (w2.rows j hj))
      ]
    where
      written :
          (b : Builder) (j : ℕ)
          → IsRow (length vectors) r r b j
          → IsWritten (length vectors) r j (take r (get_or b.edges j []))
      written b j row = record {
        ids = row.ids;
        slots_eq = ap (take r) row.slots_eq ∙ take-slots r row.ids row.few;
        few = row.few;
        below = row.below;
        apart = row.apart;
        once = row.once;
      }
