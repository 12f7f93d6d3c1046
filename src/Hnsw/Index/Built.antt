-- ===== src/Hnsw/Index/Built.antt =====
-- `build` of hnsw.py: its lists fit their slots, so that `freeze` raises no error.
use vector_retrieval_optimiz.Prelude.{
  ℕ, zero, suc, ◌+◌, ◌-◌, ◌≤◌, ◌<◌, ◌≡◌, refl, ap, true, ◌&&◌, List, [], ◌∷◌, map, foldl, none, ltb,
  leb, Result, ok, ◌>>=◌, length, get_or, take, All, arith, Bool-cases, inl, inr, range_from,
}
use vector_retrieval_optimiz.Prelude.Ranges.{range_from-bound}
use vector_retrieval_optimiz.Numpy.{Numpy}
use vector_retrieval_optimiz.Hnsw.{Layer, Adjacency, list_of, links, cap}
use vector_retrieval_optimiz.Hnsw.Graph.{LevelOf, draw_levels, max_of, empty_layer, empty_adjacency}
use vector_retrieval_optimiz.Hnsw.Graph.Bounded.{AllBounded}
use vector_retrieval_optimiz.Hnsw.Graph.Inserted.{insert-AllBounded}
use vector_retrieval_optimiz.Hnsw.Repair.{repair}
use vector_retrieval_optimiz.Hnsw.Repair.Bounds.{repair-AllBounded}
use vector_retrieval_optimiz.Hnsw.Frozen.{all_fit_slots, layers_fit, empty_store, copy_node, freeze}
use vector_retrieval_optimiz.Hnsw.Index.{Index, Built, build_row, build_graph, build}

-- A call that returns, and what is made of its value.
returns {ℓ κ} :
    {A : Type ℓ} {B : Type κ} (first : Result A) (f : A → B) (a : A)
    → first ≡ ok a
    → (b : B) × ((first >>= λ x. ok (f x)) ≡ ok b)
returns first f a e = (f a, rw e refl)

all_fit_slots-cap :
    (m layer : ℕ) (nodes : Layer)
    → ((x : ℕ) → length (list_of (get_or nodes x none)) ≤ cap m layer)
    → all_fit_slots m layer nodes ≡ true
unfolding all_fit_slots
all_fit_slots-cap m layer [] h = refl
all_fit_slots-cap m layer (nb ∷ nodes) h =
    ground (arith, h 0, all_fit_slots-cap m layer nodes (λ x. h (suc x)))

layers_fit-cap :
    (m layer : ℕ) (adj : Adjacency)
    → ((l x : ℕ) → length (links adj l x) ≤ cap m (layer + l))
    → layers_fit m layer adj ≡ true
unfolding layers_fit
layers_fit-cap m layer [] h = refl
layers_fit-cap m layer (nodes ∷ adj) h =
    let here =
      all_fit_slots-cap m layer nodes
        (λ x. omega (arith, h 0 x, ap (cap m) {x = layer + 0} {y = layer} (omega arith))) in
    let above = layers_fit-cap m (suc layer) adj (λ l x.
      omega
        (arith, h (suc l) x, ap (cap m) {x = layer + suc l} {y = suc layer + l} (omega arith))) in
    ground (arith, here, above)

empty_layer-list :
    (levels : List ℕ) (layer x : ℕ) → list_of (get_or (empty_layer levels layer) x none) ≡ []
unfolding empty_layer
empty_layer-list [] layer x = refl
empty_layer-list (l ∷ levels) layer zero = ground arith
empty_layer-list (l ∷ levels) layer (suc x) = empty_layer-list levels layer x

map-empty_layer-links :
    (levels layers : List ℕ) (l x : ℕ) → links (map (empty_layer levels) layers) l x ≡ []
map-empty_layer-links levels [] l x = refl
map-empty_layer-links levels (layer ∷ layers) zero x = empty_layer-list levels layer x
map-empty_layer-links levels (layer ∷ layers) (suc l) x = map-empty_layer-links levels layers l x

module _ (np : Numpy) (level_of : LevelOf) (v : List np.Vec) (m ef_c : ℕ) (pos : 1 ≤ m)
    (ef_pos : 1 ≤ ef_c) where
  empty_adjacency-AllBounded : (levels : List ℕ) → AllBounded np v m (empty_adjacency levels)
  unfolding empty_adjacency
  empty_adjacency-AllBounded levels l x =
      rw (map-empty_layer-links levels (range_from 0 (suc (max_of levels))) l x) (omega arith, tt)

  -- the lists are bounded, and the entry point is a row
  abbrev IsGrown : Built → Type 0
  IsGrown (adj, ep, top) = AllBounded np v m adj × (ep < length v)

  build_row-IsGrown :
      (levels : List ℕ) (b : Built) (i : ℕ)
      → i < length v
      → IsGrown b
      → IsGrown (build_row np level_of v m levels ef_c b i)
  unfolding build_row
  build_row-IsGrown levels (adj, ep, top) i li g =
      let kept = insert-AllBounded np v m ef_c i pos ef_pos li levels adj ep top g.1 g.0 in
      elim (Bool-cases (ltb top (get_or levels i 0))) [
        | inl higher ↦ rw (build_row, higher) (kept, li)
        | inr same ↦ rw (build_row, same) (kept, g.1)
      ]

  foldl-build_row-IsGrown :
      (levels rows : List ℕ) (b : Built)
      → All (λ i. i < length v) rows
      → IsGrown b
      → IsGrown (foldl (build_row np level_of v m levels ef_c) b rows)
  foldl-build_row-IsGrown levels [] b a g = g
  foldl-build_row-IsGrown levels (i ∷ rows) b a g =
      foldl-build_row-IsGrown levels rows (build_row np level_of v m levels ef_c b i) a.1
        (build_row-IsGrown levels b i a.0 g)

  -- The graph that `build` grows from at least one row has every list within its cap and the rows, and
  -- an entry point among the rows.
  pub build_graph-AllBounded :
      (levels : List ℕ) (n : ℕ)
      → 1 ≤ n
      → n ≤ length v
      → let (adj, ep, top) = build_graph np level_of v m ef_c levels n in
        AllBounded np v m adj × (ep < length v)
  unfolding build_graph
  build_graph-AllBounded levels n some_row within =
      foldl-build_row-IsGrown levels (range_from 1 (n - 1)) _
        (range_from-bound 1 (n - 1) (length v) (omega arith))
        (empty_adjacency-AllBounded (take n levels), omega arith)

  -- With m of at least 2, ef_construct of at least 1 and at least one of the rows given, `build` raises
  -- no error: after the repair pass every list still fits its slots.
  pub build-ok :
      (seed n : ℕ)
      → 2 ≤ m
      → 1 ≤ n
      → n ≤ length v
      → (index : Index np.Vec) × (build np level_of v m ef_c seed n ≡ ok index)
  unfolding build freeze
  build-ok seed n two some_row within =
      let levels = draw_levels level_of (length v) m seed in
      let g = build_graph np level_of v m ef_c levels n in
      let grown = build_graph-AllBounded levels n some_row within in
      let r = repair np v m g.0 n g.1 g.2 ef_c none in
      let fit : layers_fit m 0 r.adj ≡ true = layers_fit-cap m 0 r.adj (λ l x. omega (
        arith,
        (repair-AllBounded np v m pos g.1 g.2 ef_c g.0 n none within grown.0 l x).0,
        ap (cap m) {x = 0 + l} {y = l} (omega arith),
      )) in
      let params : leb 2 m && leb 1 ef_c ≡ true = ground arith in
      let store = foldl (copy_node r.adj levels) (empty_store m levels) (range_from 0 n) in
      let frozen : freeze m levels n r.adj ≡ ok store = rw (freeze, fit) refl in
      rw (build, params) (returns (freeze m levels n r.adj) _ store frozen)
