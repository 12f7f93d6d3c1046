-- ===== src/Diskann/Greedy.antt =====
-- `_Builder.greedy` of diskann.py. The loop runs on fuel of one round for each row, which is the most
-- that it makes: a row enters the candidates when it is marked, and it is marked once.
pub mod Ends
pub mod Runs
use vector_retrieval_optimiz.Prelude.{
  ℕ, zero, suc, ◌+◌, ◌<◌, ◌≡◌, Bool, true, false, not, ◌&&◌, List, [], ◌∷◌, ◌++◌, map, foldl, ltb,
  leb, ◌==◌, if◌then◌else◌, length, get_or, set, filter,
}
use vector_retrieval_optimiz.Prelude.Arrays.{fill_at}
use vector_retrieval_optimiz.Prelude.Sorting.{insert_by}
use vector_retrieval_optimiz.Numpy.{Numpy, Score, Hit, better}
use vector_retrieval_optimiz.Hnsw.Layer.{worse, worst_score, replace_worst, hit}
use vector_retrieval_optimiz.Diskann.{Builder, out_of}

-- the state of the loop
pub record Descent : Type 0 where
  pub mark : List ℕ
  pub cand : List Hit
  pub res : List Hit
  pub expanded : List ℕ

-- `len(res) >= l`
abbrev pub is_full : ℕ → Descent → Bool
is_full l s = leb l (length s.res)

-- `if len(res) >= l and -ns < res[0][0]: break`
abbrev pub ends_at : ℕ → Descent → Hit → Bool
ends_at l s c = is_full l s && ltb c.score (worst_score s.res)

-- the body of the loop over the scored neighbors
unfoldable pub take_in : ℕ → Descent → Hit → Descent
take_in l s h =
    if ltb (length s.res) l
    then record s { cand = insert_by better h s.cand; res = insert_by worse h s.res }
    else if ltb (worst_score s.res) h.score
    then record s { cand = insert_by better h s.cand; res = replace_worst h s.res }
    else s

-- Of the scored neighbors, those that can still enter a full list.
unfoldable pub above_worst : ℕ → Descent → List Hit → List Hit
above_worst l s hs = if is_full l s then filter (λ h. ltb (worst_score s.res) h.score) hs else hs

module _ (np : Numpy) (v : List np.Vec) where
  open np use {Vec, zero_vec, dot}

  -- the rest of a round, after c left the candidates; b holds the graph
  unfoldable pub expand : Builder → ℕ → Vec → Descent → ℕ → Descent
  expand b l q s c =
      let nb = filter (λ e. not (get_or s.mark e 0 == b.gen)) (out_of b c) in
      let s' : Descent = record s {
        mark = fill_at s.mark nb b.gen;
        expanded = s.expanded ++ c ∷ [];
      } in
      foldl (take_in l) s' (above_worst l s' (map (hit np v q) nb))

  -- `while cand`
  unfoldable pub descend : Builder → ℕ → Vec → ℕ → Descent → Descent
  descend b l q zero s = s
  descend b l q (suc fuel) s = elim s.cand [
    | [] ↦ s
    | c ∷ cs ↦ elim (ends_at l s c) [
      | true ↦ record s { cand = cs }
      | false ↦ descend b l q fuel (expand b l q (record s { cand = cs }) c.row)
    ]
  ]

  -- the state before the loop, with the entry point marked
  unfoldable pub entered : Builder → Vec → ℕ → Descent
  entered b q entry = record {
    mark = set b.mark entry b.gen;
    cand = hit np v q entry ∷ [];
    res = hit np v q entry ∷ [];
    expanded = [];
  }

  -- `greedy`: the expanded rows
  unfoldable pub greedy : Builder → Vec → ℕ → ℕ → Builder × List ℕ
  greedy b q entry l =
      let b' : Builder = record b { gen = suc b.gen } in
      let s = descend b' l q (length v) (entered b' q entry) in
      (record b' { mark = s.mark }, s.expanded)
