-- ===== src/Hnsw/Frozen.antt =====
-- The fixed-slot arrays of hnsw.py: `freeze`, `thaw`, `_write`, and inserts into the arrays.
-- A slot of -1 is `none`. A list that is longer than its row of slots, where numpy raises ValueError,
-- is refused by `freeze` before its first write.
use vector_retrieval_optimiz.Prelude.{
  ℕ, suc, ◌+◌, ◌-◌, ◌*◌, Bool, true, false, ◌&&◌, List, [], ◌∷◌, ◌++◌, map, foldl, Option, none,
  some, Result, ok, value_error, guard, ◌>>◌, ltb, leb, ◌==◌, if◌then◌else◌, length, get_or, set,
  drop, take, replicate, range_from, elem, max, min,
}
use vector_retrieval_optimiz.Prelude.Arrays.{cumsum_from, sum}
use vector_retrieval_optimiz.Numpy.{Numpy, Hit}
use vector_retrieval_optimiz.Hnsw.{Layer, Adjacency, list_of, links, cap}
use vector_retrieval_optimiz.Hnsw.Select.{select}
use vector_retrieval_optimiz.Hnsw.Layer.{hit, search_layer}
use vector_retrieval_optimiz.Hnsw.Graph.{max_of, down_to, descend, scored_to}

abbrev pub Slots : Type 0
Slots = List (Option ℕ)

pub record Store : Type 0 where
  pub nbr0 : List Slots
  pub cnt0 : List ℕ
  pub up_off : List ℕ
  pub up : List Slots
  pub up_cnt : List ℕ

-- row[: len(ids)] = ids
abbrev pub write_slots : List ℕ → Slots → Slots
write_slots ids row = map some ids ++ drop (length ids) row

-- the IDs in slots
abbrev pub read_slots : Slots → List ℕ
read_slots [] = []
read_slots (none ∷ row) = read_slots row
read_slots (some i ∷ row) = i ∷ read_slots row

-- the row of `up` of a node on a layer
abbrev pub row_of : Store → ℕ → ℕ → ℕ
row_of s node layer = get_or s.up_off node 0 + layer - 1

-- `_write`
unfoldable pub write : Store → ℕ → ℕ → List ℕ → Store
write s node layer ids =
    let r = row_of s node layer in
    if layer == 0
    then record s {
      nbr0 = set s.nbr0 node (write_slots ids (get_or s.nbr0 node []));
      cnt0 = set s.cnt0 node (length ids);
    }
    else record s {
      up = set s.up r (write_slots ids (get_or s.up r []));
      up_cnt = set s.up_cnt r (length ids);
    }

-- `neighbors` of a frozen graph
unfoldable pub neighbors : Store → ℕ → ℕ → List ℕ
neighbors s layer node =
    let r = row_of s node layer in
    if layer == 0
    then read_slots (take (get_or s.cnt0 node 0) (get_or s.nbr0 node []))
    else read_slots (take (get_or s.up_cnt r 0) (get_or s.up r []))

-- the arrays before the copy, for the levels of all rows
unfoldable pub empty_store : ℕ → List ℕ → Store
empty_store m levels =
    let n = length levels in
    let total = max (sum levels) 1 in
    record {
      nbr0 = replicate n (replicate (2 * m) none);
      cnt0 = replicate n 0;
      up_off = take n (0 ∷ cumsum_from 0 levels);
      up = replicate total (replicate m none);
      up_cnt = replicate total 0;
    }

-- the copy of one node's lists, layer by layer
unfoldable pub copy_node : Adjacency → List ℕ → Store → ℕ → Store
copy_node adj levels s i =
    foldl (λ t layer. write t i layer (links adj layer i)) s
      (range_from 0 (suc (get_or levels i 0)))

-- do the lists fit their slots?
unfoldable pub all_fit_slots : ℕ → ℕ → Layer → Bool
all_fit_slots m layer [] = true
all_fit_slots m layer (nb ∷ nodes) =
    leb (length (list_of nb)) (cap m layer) && all_fit_slots m layer nodes

unfoldable pub layers_fit : ℕ → ℕ → Adjacency → Bool
layers_fit m layer [] = true
layers_fit m layer (nodes ∷ adj) = all_fit_slots m layer nodes && layers_fit m (suc layer) adj

-- `freeze`, of the first n rows
unfoldable pub freeze : ℕ → List ℕ → ℕ → Adjacency → Result Store
freeze m levels n adj = do
  guard (layers_fit m 0 adj) value_error
  ok (foldl (copy_node adj levels) (empty_store m levels) (range_from 0 n))

-- `thaw`
unfoldable pub thaw_layer : List ℕ → ℕ → Store → ℕ → Layer
thaw_layer levels n s layer =
    map (λ (i : ℕ). if leb layer (get_or levels i 0) then some (neighbors s layer i) else none)
      (range_from 0 n)

unfoldable pub thaw : List ℕ → ℕ → Store → Adjacency
thaw levels n s = map (thaw_layer levels n s) (range_from 0 (suc (max_of (take n levels))))

module _ (np : Numpy) (v : List np.Vec) (m : ℕ) where
  open np use {Vec, zero_vec}

  -- the body of the loop over the chosen neighbors in `insert_frozen`
  unfoldable pub link_back_frozen : ℕ → ℕ → Store → ℕ → Store
  link_back_frozen i layer s e =
      let nb = neighbors s layer e in
      if elem i nb
      then s
      else if ltb (length nb) (cap m layer)
      then write s e layer (nb ++ i ∷ [])
      else write s e layer (select np v (scored_to np v m e (nb ++ i ∷ [])) (cap m layer) [])

  unfoldable pub insert_frozen_at : ℕ → ℕ → Store × List Hit → ℕ → Store × List Hit
  insert_frozen_at i ef_c (s, eps) layer =
      let w =
        (search_layer np v (neighbors s layer) (replicate (length v) false) (get_or v i zero_vec)
          eps ef_c).res in
      let chosen = select np v w m [] in
      (foldl (link_back_frozen i layer) (write s i layer chosen) chosen, w)

  unfoldable pub insert_frozen : List ℕ → ℕ → Store → ℕ → ℕ → ℕ → Store
  insert_frozen levels ef_c s i ep top =
      let q = get_or v i zero_vec in
      let lvl = get_or levels i 0 in
      let (ep', count) = descend np v m (neighbors s) q (down_to top (top - lvl)) (hit np v q ep) in
      (foldl (insert_frozen_at i ef_c) (s, ep' ∷ []) (down_to (min lvl top) (suc (min lvl top)))).0
