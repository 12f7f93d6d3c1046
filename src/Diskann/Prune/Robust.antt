-- ===== src/Diskann/Prune/Robust.antt =====
-- `prune` of diskann.py is RobustPrune: what the out-edges of p are afterwards.
use mathlib.Core.Path.{subst}
use vector_retrieval_optimiz.Prelude.{
  ℕ, suc, ◌≤◌, ◌<◌, ◌≡◌, ◌≢◌, ◌⊎◌, refl, ap, ◌∙◌, sym, Bool, true, false, not, ◌&&◌, List, [], ◌∷◌,
  length, length-map, get_or, replicate, elem, any, All, All-map, ◌==◌, ==_iff, List-cases, inl,
  inr, arith,
}
use vector_retrieval_optimiz.Prelude.Arrays.{gather}
use vector_retrieval_optimiz.Prelude.Ranges.{Nodup}
use vector_retrieval_optimiz.Prelude.Sorting.{Sorted, sort_by}
use vector_retrieval_optimiz.Prelude.Distinct.{All_to_map}
use vector_retrieval_optimiz.Numpy.{Numpy}
use vector_retrieval_optimiz.Diskann.{Metric, Builder, out_of, filled}
use vector_retrieval_optimiz.Diskann.Prune.{
  dot_of, others, nearest_first, survives, chosen, pick_from, prune,
}
use vector_retrieval_optimiz.Diskann.Prune.Picked.{Pairs, pick_from-Pairs, pick_from-covers}
use vector_retrieval_optimiz.Diskann.Prune.Places.{
  Pairs-map, Pairs-weaken, Nodup-at, Sorted-at, position_of, elem-at, elem-gather, any-gather,
  replicate-at, at-lt,
}
use vector_retrieval_optimiz.Diskann.Prune.Nearest.{
  nearer, nearest_first-sorts, nearest_first-others,
}
use vector_retrieval_optimiz.Diskann.Rows.{with_row, out_of-filled}

module _ (np : Numpy) (mt : Metric) (v : List np.Vec) (r p : ℕ) (alpha : mt.Factor) where
  -- Of a before b among the edges: a is no farther from p than b, they differ, and b survived a.
  abbrev pub InOrder : ℕ → ℕ → Type 0
  InOrder a b =
      (dot_of np mt v b p ≤ dot_of np mt v a p) × (a ≢ b) × (survives np mt v alpha p a b ≡ true)

  -- The result of RobustPrune(p, cands, alpha, r).
  pub record IsRobust (cands out : List ℕ) : Type 0 where
    pub few : length out ≤ r
    pub from : All (λ c. (elem c cands ≡ true) × (c ≢ p)) out
    pub pairs : Pairs InOrder out
    -- a candidate that is left out was pruned by an edge, or there was no place left
    pub complete :
        (c : ℕ)
        → elem c cands ≡ true
        → c ≢ p
        → (elem c out ≡ true)
          ⊎ (any (λ a. not (survives np mt v alpha p a c)) out ≡ true)
          ⊎ (length out ≡ r)

  module _ (cands ids : List ℕ) (sorted : Sorted (nearer np mt v p) ids) (once : Nodup ids)
      (known : (c : ℕ) → elem c ids ≡ (elem c cands && not (c == p))) (pos : 0 < length ids) where
    abbrev at : ℕ → ℕ
    at i = get_or ids i 0

    abbrev keep : ℕ → ℕ → Bool
    keep a b = survives np mt v alpha p (at a) (at b)

    abbrev picked : List ℕ
    picked = pick_from keep r 0 (replicate (length ids) true)

    first :
        (get_or (replicate (length ids) true) 0 false ≡ true)
        × ((b : ℕ) → get_or (replicate (length ids) true) b false ≡ true → 0 ≤ b)
    first = (replicate-at (length ids) 0 pos, λ b h. omega arith)

    chosen-IsRobust : IsRobust cands (gather 0 ids picked)
    chosen-IsRobust =
        let (live, pairs, few) = pick_from-Pairs keep r 0 (replicate (length ids) true) first in
        let inside : All (λ i. i < length ids) picked =
          All-map (λ i k. at-lt (length ids) i k.0) picked live in
        record {
          few = omega (arith, few, length-map at picked);
          from =
              All_to_map at (λ c. (elem c cands ≡ true) × (c ≢ p)) picked
                (All-map (λ i h. is_candidate (at i) (sym (known (at i)) ∙ elem-at ids i h)) picked
                  inside);
          pairs = Pairs-map at InOrder picked (
              Pairs-weaken (λ i. i < length ids) (λ a b. (a < b) × (keep a b ≡ true))
                (λ a b. InOrder (at a) (at b))
                (λ a b ha hb k. (
                  not_nearer (at a) (at b) (Sorted-at (nearer np mt v p) ids a b k.0 hb sorted),
                  Nodup-at ids a b k.0 hb once,
                  k.1,
                ))
                picked inside pairs);
          complete = λ c h other.
              let at_c = position_of c ids (known c ∙ ground (arith, h, ==_iff c p, other)) in
              let i = at_c.0 in
              let lost : ℕ → Bool = λ a. not (survives np mt v alpha p a c) in
              elim (pick_from-covers keep r 0 (replicate (length ids) true) first i
                (replicate-at (length ids) i at_c.1)) [
                  | inl there ↦ inl (
                      subst (λ x. elem x (gather 0 ids picked) ≡ true) at_c.2
                        (elem-gather ids picked i there))
                  | inr (inl pruned) ↦ inr (
                      inl (
                        sym (any-gather ids lost picked)
                        ∙ subst
                            (λ x. any (λ a. not (survives np mt v alpha p (at a) x)) picked ≡ true)
                            at_c.2 pruned))
                  | inr (inr full) ↦ inr (inr (omega (arith, full, length-map at picked)))
                ];
        }
      where
        is_candidate :
            (c : ℕ) → (elem c cands && not (c == p)) ≡ true → (elem c cands ≡ true) × (c ≢ p)
        is_candidate c h = (ground arith, λ e. let same = (==_iff c p).1 e in ground arith)

        not_nearer :
            (a b : ℕ) → nearer np mt v p b a ≡ false → dot_of np mt v b p ≤ dot_of np mt v a p
        not_nearer a b h = ground arith

  -- the edges that `prune` writes
  abbrev pub edges_of : List ℕ → List ℕ
  edges_of cands = chosen np mt v r p alpha (nearest_first np mt v p (others np mt v p cands))

  pub prune_written :
      (b : Builder) (cands : List ℕ) (i : ℕ) (ids : List ℕ)
      → others np mt v p cands ≡ i ∷ ids
      → prune np mt v r b p cands alpha
        ≡ with_row b p (filled (suc r) (edges_of cands)) (length (edges_of cands))
  unfolding prune
  prune_written b cands i ids e = rw (prune, e) refl

  pub prune_skipped :
      (b : Builder) (cands : List ℕ)
      → others np mt v p cands ≡ []
      → prune np mt v r b p cands alpha ≡ b
  unfolding prune
  prune_skipped b cands e = rw (prune, e) refl

  pub edges_of-IsRobust :
      (cands : List ℕ) (c : ℕ) → elem c cands ≡ true → c ≢ p → IsRobust cands (edges_of cands)
  unfolding chosen
  edges_of-IsRobust cands c h other =
      let (sorted, once, known) = nearest_first-others np mt v p cands in
      let ids = nearest_first np mt v p (others np mt v p cands) in
      let found = position_of c ids (known c ∙ ground (arith, h, ==_iff c p, other)) in
      chosen-IsRobust cands ids sorted once known (omega (arith, found.1))

  -- Where a candidate differs from p, the edges of p after `prune` are at most r candidates other than
  -- p, nearest to p first and each once; each is left alive by every edge before it, and a candidate
  -- that is not among them is pruned by one of them, unless there are r edges.
  pub prune-IsRobust :
      (b : Builder) (cands : List ℕ) (c : ℕ)
      → p < length b.edges
      → p < length b.counts
      → elem c cands ≡ true
      → c ≢ p
      → IsRobust cands (out_of (prune np mt v r b p cands alpha) p)
  unfolding sort_by
  prune-IsRobust b cands c in_edges in_counts h other =
      let robust = edges_of-IsRobust cands c h other in
      elim (List-cases (others np mt v p cands)) [
        | inl empty ↦
            let none_left : elem c [] ≡ true =
              subst (λ xs. elem c xs ≡ true)
                (nearest_first-sorts np mt v p (others np mt v p cands)
                  ∙ ap (sort_by (nearer np mt v p)) empty)
                ((nearest_first-others np mt v p cands).2 c
                  ∙ ground (arith, h, ==_iff c p, other)) in
            absurd (cc none_left)
        | inr (i, ids, e) ↦ rw (prune_written b cands i ids e) (
            subst (IsRobust cands)
              (sym (out_of-filled b p (suc r) (edges_of cands) in_edges in_counts)) robust)
      ]
