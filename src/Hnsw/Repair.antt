-- ===== src/Hnsw/Repair.antt =====
-- The repair pass of hnsw.py, and what it reads of the graph.
pub mod Sweeps
pub mod Reached
pub mod Unreachable
pub mod Counted
pub mod Bounds
use vector_retrieval_optimiz.Prelude.{
  ℕ, zero, suc, ◌+◌, ◌-◌, Bool, true, false, not, ◌&&◌, ◌||◌, List, [], ◌∷◌, ◌++◌, map, foldl,
  Option, none, some, ltb, leb, ◌==◌, if◌then◌else◌, length, get_or, set, filter, replicate,
  range_from, any, elem,
}
use vector_retrieval_optimiz.Prelude.Arrays.{flatnonzero}
use vector_retrieval_optimiz.Prelude.Sorting.{sort_by}
use vector_retrieval_optimiz.Numpy.{Numpy, Hit, better}
use vector_retrieval_optimiz.Hnsw.{Layer, Adjacency, list_of, links, set_links, cap}
use vector_retrieval_optimiz.Hnsw.Select.{select}
use vector_retrieval_optimiz.Hnsw.Layer.{Walk, hit, best_of, search_layer}
use vector_retrieval_optimiz.Hnsw.Graph.{down_to, descend, scored_to}

-- deg[e] += 1 for every edge
unfoldable pub bump : List ℕ → ℕ → List ℕ
bump deg e = set deg e (suc (get_or deg e 0))

unfoldable pub in_degree0 : Layer → ℕ → List ℕ
in_degree0 layer n = foldl (λ deg nb. foldl bump deg (list_of nb)) (replicate n 0) layer

-- The search of `reachable0` and of `_unreachable0`: the bytes `seen`, and the stack, top first.
pub record Sweep : Type 0 where
  pub seen : List Bool
  pub stack : List ℕ
  pub count : ℕ

-- the body of the loop over the neighbors
unfoldable pub reach_one : Sweep → ℕ → Sweep
reach_one s e =
    if get_or s.seen e true
    then s
    else record { seen = set s.seen e true; stack = e ∷ s.stack; count = suc s.count }

-- `while stack`
unfoldable pub sweep : (ℕ → List ℕ) → ℕ → Sweep → Sweep
sweep nbr zero s = s
sweep nbr (suc fuel) s = elim s.stack [
  | [] ↦ s
  | c ∷ stack ↦ sweep nbr fuel (foldl reach_one (record s { stack = stack }) (nbr c))
]

-- the search from the entry point, which ends within a round for every row
unfoldable pub sweep_from : (ℕ → List ℕ) → ℕ → ℕ → Sweep
sweep_from nbr n entry =
    sweep nbr n
      (record { seen = set (replicate n false) entry true; stack = entry ∷ []; count = 1 })

unfoldable pub reachable0 : (ℕ → List ℕ) → ℕ → ℕ → ℕ
reachable0 nbr n entry = if n == 0 then 0 else (sweep_from nbr n entry).count

abbrev pub is_dead : Option (List Bool) → ℕ → Bool
is_dead none i = false
is_dead (some dead) i = get_or dead i false

unfoldable pub unreachable0 : (ℕ → List ℕ) → ℕ → ℕ → Option (List Bool) → List ℕ
unreachable0 nbr n entry dead =
    filter (λ i. not (get_or (sweep_from nbr n entry).seen i false) && not (is_dead dead i))
      (range_from 0 n)

-- The edges that the repair protects: the pairs (u, x) of the sets `protected[u]`.
abbrev pub Edges : Type 0
Edges = List (ℕ × ℕ)

unfoldable pub kept_of : Edges → ℕ → List ℕ
kept_of [] u = []
kept_of ((w, x) ∷ es) u = if w == u then x ∷ kept_of es u else kept_of es u

pub record Repair : Type 0 where
  pub adj : Adjacency
  pub protected : Edges
  pub added_a : ℕ
  pub added_b : ℕ

module _ (np : Numpy) (v : List np.Vec) (m : ℕ) where
  open np use {Vec, zero_vec}

  unfoldable pub nearest_from_entry : Adjacency → ℕ → ℕ → ℕ → ℕ → List ℕ
  nearest_from_entry adj x entry top ef_c =
      let q = get_or v x zero_vec in
      let (ep, count) = descend np v m (links adj) q (down_to top top) (hit np v q entry) in
      let w = (search_layer np v (links adj 0) (replicate (length v) false) q (ep ∷ []) ef_c).res in
      map (λ (h : Hit). h.row) (sort_by better (filter (λ h. not (h.row == x)) w))

  -- whether an edge was added, the lists, and the protected edges
  unfoldable pub add_protected : Adjacency → Edges → ℕ → ℕ → Bool × Adjacency × Edges
  add_protected adj protected u x =
      let nb = links adj 0 u in
      let protected' = (u, x) ∷ protected in
      if elem x nb then (false, adj, protected') else (
        true,
        set_links adj 0 u (
            if ltb (length nb) (cap m 0)
            then nb ++ x ∷ []
            else select np v (scored_to np v m u (nb ++ x ∷ [])) (cap m 0) (kept_of protected' u)),
        protected',
      )

  -- the source of the edge that step A adds, if there is one
  unfoldable pub source_a : Adjacency → ℕ → ℕ → ℕ → ℕ → Option ℕ
  source_a adj entry top ef_c x = elim (scored_to np v m x (links adj 0 x)) [
    | [] ↦ elim (nearest_from_entry adj x entry top ef_c) [ [] ↦ none | u ∷ near ↦ some u ]
    | h ∷ hs ↦ some ((best_of h hs).row)
  ]

  abbrev pub one_if : Bool → ℕ
  one_if true = 1
  one_if false = 0

  -- the body of the loop of step A
  unfoldable pub repair_a : ℕ → ℕ → ℕ → Option (List Bool) → Repair → ℕ → Repair
  repair_a entry top ef_c dead r x =
      if x == entry || is_dead dead x then r else elim (source_a r.adj entry top ef_c x) [
        | none ↦ r
        | some u ↦
            let (added, adj, protected) = add_protected r.adj r.protected u x in
            record r { adj = adj; protected = protected; added_a = r.added_a + one_if added }
      ]

  -- next((c for c in near if len(adj[c]) < cap), near[0])
  unfoldable pub free_or_first : Adjacency → ℕ → List ℕ → ℕ
  free_or_first adj first [] = first
  free_or_first adj first (c ∷ near) =
      let rest = free_or_first adj first near in
      if ltb (length (links adj 0 c)) (cap m 0) then c else rest

  -- the body of the loop of step B
  unfoldable pub repair_b : ℕ → ℕ → ℕ → Repair → ℕ → Repair
  repair_b entry top ef_c r x = elim (nearest_from_entry r.adj x entry top ef_c) [
    | [] ↦ r
    | u ∷ near ↦
        let source = free_or_first r.adj u (u ∷ near) in
        let (added, adj, protected) = add_protected r.adj r.protected source x in
        record r { adj = adj; protected = protected; added_b = r.added_b + one_if added }
  ]

  unfoldable pub step_a : ℕ → ℕ → ℕ → ℕ → Option (List Bool) → Repair → Repair
  step_a n entry top ef_c dead r =
      foldl (repair_a entry top ef_c dead) r
        (flatnonzero (map (λ d. d == 0) (in_degree0 (get_or r.adj 0 []) n)))

  -- one pass, and the rows that its step B found
  unfoldable pub repair_pass : ℕ → ℕ → ℕ → ℕ → Option (List Bool) → Repair → Repair × List ℕ
  repair_pass n entry top ef_c dead r =
      let r' = step_a n entry top ef_c dead r in
      let unreached = unreachable0 (links r'.adj 0) n entry dead in
      (foldl (repair_b entry top ef_c) r' unreached, unreached)

  -- the loop of `repair`: at most a number of passes, until step B finds nothing
  unfoldable pub repair_passes : ℕ → ℕ → ℕ → ℕ → ℕ → Option (List Bool) → Repair → Repair
  repair_passes zero n entry top ef_c dead r = r
  repair_passes (suc passes) n entry top ef_c dead r =
      let (r', unreached) = repair_pass n entry top ef_c dead r in
      elim unreached [ [] ↦ r' | x ∷ xs ↦ repair_passes passes n entry top ef_c dead r' ]

  unfoldable pub repair : Adjacency → ℕ → ℕ → ℕ → ℕ → Option (List Bool) → Repair
  repair adj n entry top ef_c dead =
      let blank : Repair = record { adj = adj; protected = []; added_a = 0; added_b = 0 } in
      if n == 0 then blank else repair_passes 3 n entry top ef_c dead blank
