-- ===== src/Hnsw/Select.antt =====
-- `select` of hnsw.py: the neighbor selection heuristic.
pub mod Picks
use vector_retrieval_optimiz.Prelude.{
  ℕ, ◌≤◌, Bool, true, false, not, List, [], ◌∷◌, ◌++◌, map, Option, none, some, leb, if◌then◌else◌,
  length, get_or, filter, any, elem,
}
use vector_retrieval_optimiz.Prelude.Sorting.{sort_by}
use vector_retrieval_optimiz.Numpy.{Numpy, Score, Hit, better}

-- A candidate: a row, and its score to the base, where `none` is the infinity of a protected row.
pub record Scored : Type 0 where
  pub base : Option Score
  pub row : ℕ

abbrev pub plain : Hit → Scored
plain h = record { base = some h.score; row = h.row }

abbrev pub protected_row : Hit → Scored
protected_row h = record { base = none; row = h.row }

-- `row[r] >= s`
abbrev pub reaches : Score → Option Score → Bool
reaches d none = false
reaches d (some s) = leb s d

-- sorted(scored), with the rows of `keep` in front
unfoldable pub ordered : List Hit → List ℕ → List Scored
ordered scored keep =
    let sorted = sort_by better scored in
    map protected_row (filter (λ h. elem h.row keep) sorted)
    ++ map plain (filter (λ h. not (elem h.row keep)) sorted)

module _ (np : Numpy) (v : List np.Vec) where
  -- the loop over the selected rows: is the candidate closer to one of them than to the base?
  unfoldable pub pruned_by : List ℕ → Scored → Bool
  pruned_by out c =
      any (λ r. reaches (np.dot (get_or v c.row np.zero_vec) (get_or v r np.zero_vec)) c.base) out

  -- the loop over the candidates
  unfoldable pub pick : ℕ → List Scored → List ℕ → List ℕ
  pick limit [] out = out
  pick limit (c ∷ cs) out = elim (leb limit (length out)) [
    | true ↦ out
    | false ↦ elim (pruned_by out c) [
      | true ↦ pick limit cs out
      | false ↦ pick limit cs (out ++ c.row ∷ [])
    ]
  ]

  unfoldable pub select : List Hit → ℕ → List ℕ → List ℕ
  select scored limit keep =
      let candidates = ordered scored keep in
      if leb (length candidates) 1
      then map (λ (c : Scored). c.row) candidates
      else pick limit candidates []
