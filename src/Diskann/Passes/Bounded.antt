-- ===== src/Diskann/Passes/Bounded.antt =====
-- The graph that the passes of diskann.py leave: every row has at most r edges, to other rows, each once,
-- and the slots behind them are empty.
use mathlib.Core.Path.{subst}
use vector_retrieval_optimiz.Prelude.{
  ℕ, suc, ◌≤◌, ◌<◌, ◌≡◌, ◌≢◌, ◌∙◌, true, List, [], ◌∷◌, length, length-set, get_or, get_or-set_self,
  get_or-set_ne, elem, All, All-map, ◌==◌, ==_iff, Bool-cases, inl, inr, arith,
}
use vector_retrieval_optimiz.Prelude.Ranges.{Nodup}
use vector_retrieval_optimiz.Prelude.Distinct.{elem-All}
use vector_retrieval_optimiz.Numpy.{Numpy}
use vector_retrieval_optimiz.Diskann.{Metric, Slots, Builder, out_of, filled}
use vector_retrieval_optimiz.Diskann.Rows.{present-take, with_row}
use vector_retrieval_optimiz.Diskann.Prune.Picked.{Pairs}
use vector_retrieval_optimiz.Diskann.Prune.Robust.{InOrder, edges_of, edges_of-IsRobust}

module _ (n r : ℕ) where
  -- The row j holds at most k edges to other rows of the index, each once, in front of empty slots.
  pub record IsRow (k : ℕ) (b : Builder) (j : ℕ) : Type 0 where
    pub ids : List ℕ
    pub slots_eq : get_or b.edges j [] ≡ filled (suc r) ids
    pub count_eq : get_or b.counts j 0 ≡ length ids
    pub few : length ids ≤ k
    pub below : All (λ c. c < n) ids
    pub apart : All (λ c. c ≢ j) ids
    pub once : Nodup ids

  pub record IsBounded (b : Builder) : Type 0 where
    pub edges_size : length b.edges ≡ n
    pub counts_size : length b.counts ≡ n
    pub rows : (j : ℕ) → j < n → IsRow r b j

  pub out_of-ids : (k : ℕ) (b : Builder) (j : ℕ) (w : IsRow k b j) → out_of b j ≡ w.ids
  unfolding out_of filled
  out_of-ids k b j w = rw (w.slots_eq, w.count_eq) (present-take w.ids _)

  -- a written row, and the other rows
  filled-IsRow :
      (k : ℕ) (b : Builder) (j : ℕ) (ids : List ℕ)
      → j < length b.edges
      → j < length b.counts
      → length ids ≤ k
      → All (λ c. c < n) ids
      → All (λ c. c ≢ j) ids
      → Nodup ids
      → IsRow k (with_row b j (filled (suc r) ids) (length ids)) j
  filled-IsRow k b j ids he hc few below apart once = record {
    ids = ids;
    slots_eq = get_or-set_self b.edges j (filled (suc r) ids) [] he;
    count_eq = get_or-set_self b.counts j (length ids) 0 hc;
    few = few;
    below = below;
    apart = apart;
    once = once;
  }

  pub kept-IsRow :
      (k : ℕ) (b : Builder) (p j : ℕ) (row : Slots) (count : ℕ)
      → p ≢ j
      → IsRow k b j
      → IsRow k (with_row b p row count) j
  kept-IsRow k b p j row count other w = record {
    ids = w.ids;
    slots_eq = get_or-set_ne b.edges p j row [] other ∙ w.slots_eq;
    count_eq = get_or-set_ne b.counts p j count 0 other ∙ w.count_eq;
    few = w.few;
    below = w.below;
    apart = w.apart;
    once = w.once;
  }

  -- A builder with one row replaced by a bounded one is bounded.
  pub with_row-IsBounded :
      (b : Builder) (p : ℕ) (ids : List ℕ)
      → length b.edges ≡ n
      → length b.counts ≡ n
      → p < n
      → length ids ≤ r
      → All (λ c. c < n) ids
      → All (λ c. c ≢ p) ids
      → Nodup ids
      → ((j : ℕ) → j < n → p ≢ j → IsRow r b j)
      → IsBounded (with_row b p (filled (suc r) ids) (length ids))
  with_row-IsBounded b p ids es cs lt few below apart once rest = record {
    edges_size = length-set b.edges p (filled (suc r) ids) ∙ es;
    counts_size = length-set b.counts p (length ids) ∙ cs;
    rows = λ j hj. elim (Bool-cases (p == j)) [
      | inl same ↦
          subst (IsRow r (with_row b p (filled (suc r) ids) (length ids))) ((==_iff p j).0 same) (
            filled-IsRow r b p ids (omega (arith, lt, es)) (omega (arith, lt, cs)) few below apart
              once)
      | inr other ↦
          let ne : p ≢ j = λ e. let same = (==_iff p j).1 e in ground arith in
          kept-IsRow r b p j (filled (suc r) ids) (length ids) ne (rest j hj ne)
    ];
  }

  Pairs-Nodup :
      (np : Numpy) (mt : Metric) (v : List np.Vec) (p : ℕ) (alpha : mt.Factor) (xs : List ℕ)
      → Pairs (InOrder np mt v r p alpha) xs
      → Nodup xs
  Pairs-Nodup np mt v p alpha [] h = tt
  Pairs-Nodup np mt v p alpha (x ∷ xs) h =
      (All-map (λ y k. k.1) xs h.0, Pairs-Nodup np mt v p alpha xs h.1)

  module _ (np : Numpy) (mt : Metric) (v : List np.Vec) where
    -- A prune with candidates of the index, one of them other than p, bounds the row p.
    pub pruned-IsBounded :
        (b : Builder) (p : ℕ) (cands : List ℕ) (alpha : mt.Factor) (c : ℕ)
        → length b.edges ≡ n
        → length b.counts ≡ n
        → p < n
        → ((j : ℕ) → j < n → p ≢ j → IsRow r b j)
        → All (λ c. c < n) cands
        → elem c cands ≡ true
        → c ≢ p
        → IsBounded (
            with_row b p
              (filled (suc r) (edges_of np mt v r p alpha cands))
              (length (edges_of np mt v r p alpha cands)))
    pruned-IsBounded b p cands alpha c es cs lt rest below h other =
        let ids = edges_of np mt v r p alpha cands in
        let robust = edges_of-IsRobust np mt v r p alpha cands c h other in
        with_row-IsBounded b p ids es cs lt robust.few
          (All-map (λ x k. elem-All (λ c. c < n) x cands below k.0) ids robust.from)
          (All-map (λ x k. k.1) ids robust.from) (Pairs-Nodup np mt v p alpha ids robust.pairs) rest
