-- ===== src/Diskann/Prune.antt =====
-- `_Builder.prune` of diskann.py: RobustPrune.
pub mod Picked
pub mod Nearest
mod Places
pub mod Robust
use vector_retrieval_optimiz.Prelude.{
  ℕ, zero, suc, ◌+◌, ◌-◌, ◌≤◌, ◌<◌, ◌≡◌, Bool, true, false, not, ◌&&◌, List, [], ◌∷◌, ◌++◌, map,
  ltb, ◌==◌, if◌then◌else◌, length, get_or, set, filter, replicate, range_from,
}
use vector_retrieval_optimiz.Prelude.Arrays.{gather, unique}
use vector_retrieval_optimiz.Numpy.{Numpy, Score, neg_inf}
use vector_retrieval_optimiz.Diskann.{Metric, Builder, filled}

-- `int(alive.argmax())`: the first position that is true from i on, or 0 if there is none
unfoldable pub first_alive : ℕ → List Bool → ℕ
first_alive i [] = 0
first_alive i (a ∷ alive) = if a then i else first_alive (suc i) alive

-- `alive &= keep[pos]`, for the row of `keep` as a test on positions from i on
unfoldable pub masked_from : (ℕ → Bool) → ℕ → List Bool → List Bool
masked_from keep i [] = []
masked_from keep i (a ∷ alive) = (a && keep i) ∷ masked_from keep (suc i) alive

-- `while len(out) < r`, for the number of places left: the positions chosen from pos on
unfoldable pub pick_from : (ℕ → ℕ → Bool) → ℕ → ℕ → List Bool → List ℕ
pick_from keep zero pos alive = []
pick_from keep (suc left) pos alive =
    let alive' = set (masked_from (keep pos) 0 alive) pos false in
    let pos' = first_alive 0 alive' in
    let rest = pick_from keep left pos' alive' in
    if get_or alive' pos' false then pos ∷ rest else pos ∷ []

module _ (np : Numpy) (mt : Metric) (v : List np.Vec) where
  open np use {Vec, zero_vec, dot}
  open mt use {Factor, argsort_neg, distance, scale}

  -- the dot product of two rows of the index
  abbrev pub dot_of : ℕ → ℕ → Score
  dot_of a b = dot (get_or v a zero_vec) (get_or v b zero_vec)

  -- `ids` before the sort, in ascending order
  unfoldable pub others : ℕ → List ℕ → List ℕ
  unfolding unique
  others p cands = filter (λ i. not (i == p)) (unique cands)

  -- `ids[order]`: nearest first, lower ID first on ties
  unfoldable pub nearest_first : ℕ → List ℕ → List ℕ
  nearest_first p ids = gather 0 ids (argsort_neg (map (λ i. dot_of i p) ids))

  -- Does c survive the choice of a? A row of `keep`, on IDs.
  unfoldable pub survives : Factor → ℕ → ℕ → ℕ → Bool
  survives alpha p a c = ltb (distance (dot_of c p)) (scale alpha (distance (dot_of a c)))

  -- `out_ids`, for at most r edges
  unfoldable pub chosen : ℕ → ℕ → Factor → List ℕ → List ℕ
  unfolding pick_from first_alive masked_from survives
  chosen r p alpha ids = gather 0 ids (
      pick_from (λ a b. survives alpha p (get_or ids a 0) (get_or ids b 0)) r 0
        (replicate (length ids) true))

  unfoldable pub prune : ℕ → Builder → ℕ → List ℕ → Factor → Builder
  unfolding others nearest_first chosen
  prune r b p cands alpha = elim (others p cands) [
    | [] ↦ b
    | i ∷ ids ↦
        let out = chosen r p alpha (nearest_first p (i ∷ ids)) in
        record b {
          edges = set b.edges p (filled (suc r) out);
          counts = set b.counts p (length out);
        }
  ]
