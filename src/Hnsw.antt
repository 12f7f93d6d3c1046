-- ===== src/Hnsw.antt =====
-- indexes/python/hnsw.py: the HNSW graph index.
-- `adj[layer][node]` is a list of layers of optional neighbor lists: `none` for a node that is not on
-- the layer. A binary heap of heapq is the sorted list of its items: what pops first is its head. The
-- order in which a heap's own list is read is never used, since every reader sorts it. The work
-- counters `dist` and `expanded` are set to 0 by `search` and read only there, so that the building
-- operations do not show them. Timings and locks are left out.
pub mod Select
pub mod Layer
pub mod Graph
pub mod Repair
pub mod Frozen
pub mod Changes
pub mod Index
pub mod Edits
pub mod Saved
use vector_retrieval_optimiz.Prelude.{
  ℕ, ◌*◌, List, [], Option, none, some, if◌then◌else◌, ◌==◌, get_or, set,
}

-- the neighbor lists of the nodes of one layer
abbrev pub Layer : Type 0
Layer = List (Option (List ℕ))

abbrev pub Adjacency : Type 0
Adjacency = List Layer

abbrev pub list_of : Option (List ℕ) → List ℕ
list_of none = []
list_of (some ids) = ids

-- adj[layer][node], of a graph that is not frozen
abbrev pub links : Adjacency → ℕ → ℕ → List ℕ
links adj layer node = list_of (get_or (get_or adj layer []) node none)

-- adj[layer][node] = ids
abbrev pub set_links : Adjacency → ℕ → ℕ → List ℕ → Adjacency
set_links adj layer node ids = set adj layer (set (get_or adj layer []) node (some ids))

-- 2 * m on layer 0, m above
abbrev pub cap : ℕ → ℕ → ℕ
cap m layer = if layer == 0 then 2 * m else m
