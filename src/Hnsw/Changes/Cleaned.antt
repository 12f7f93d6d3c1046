-- ===== src/Hnsw/Changes/Cleaned.antt =====
-- `_refill` of hnsw.py on all layers.
use vector_retrieval_optimiz.Prelude.{
  ℕ, zero, suc, ◌+◌, ◌≤◌, ◌≡◌, refl, ◌∙◌, sym, ap, Bool, true, false, List, [], ◌∷◌, map, foldl,
  Option, none, some, length, get_or, All, arith, Bool-cases, inl, inr, range_from, dec_lt,
}
use vector_retrieval_optimiz.Numpy.{Numpy}
use vector_retrieval_optimiz.Hnsw.{Layer, Adjacency, list_of, links}
use vector_retrieval_optimiz.Hnsw.Changes.{
  refill_node, refill_layers, cleared_node, clear_from, refill,
}
use vector_retrieval_optimiz.Hnsw.Changes.Refilled.{
  IsLive, Clean, foldl-refill_node-Clean, foldl-refill_node-beyond, get_or-clear_from,
}

get_or-map_nil :
    (f : Layer → Layer) (adj : Adjacency) (layer : ℕ)
    → f [] ≡ []
    → get_or (map f adj) layer [] ≡ f (get_or adj layer [])
get_or-map_nil f [] layer e = sym e
get_or-map_nil f (nodes ∷ adj) zero e = refl
get_or-map_nil f (nodes ∷ adj) (suc layer) e = get_or-map_nil f adj layer e

get_or_beyond : (nodes : Layer) (y : ℕ) → length nodes ≤ y → get_or nodes y none ≡ none
get_or_beyond [] y h = refl
get_or_beyond (o ∷ nodes) zero h = absurd (omega arith)
get_or_beyond (o ∷ nodes) (suc y) h = get_or_beyond nodes y (omega arith)

cleared_node-dead :
    (dead : List Bool) (x : ℕ) (o : Option (List ℕ))
    → get_or dead x false ≡ true
    → list_of (cleared_node dead x o) ≡ []
unfolding cleared_node
cleared_node-dead dead x none e = refl
cleared_node-dead dead x (some nb) e = ground arith

cleared_node-live :
    (dead : List Bool) (x : ℕ) (o : Option (List ℕ))
    → get_or dead x false ≡ false
    → cleared_node dead x o ≡ o
unfolding cleared_node
cleared_node-live dead x none e = refl
cleared_node-live dead x (some nb) e = ground arith

module _ (np : Numpy) (v : List np.Vec) (m : ℕ) (pos : 1 ≤ m) (dead : List Bool) where
  -- the lists of a layer after the loop over its nodes
  abbrev refilled_layer : ℕ → Layer → Layer
  refilled_layer layer nodes =
      foldl (refill_node np v m dead layer) nodes (range_from 0 (length nodes))

  get_or-refill_layers :
      (l : ℕ) (adj : Adjacency) (layer : ℕ)
      → get_or (refill_layers np v m dead l adj) layer []
        ≡ refilled_layer (l + layer) (get_or adj layer [])
  unfolding refill_layers
  get_or-refill_layers l [] layer = refl
  get_or-refill_layers l (nodes ∷ adj) zero =
      ap (λ (k : ℕ). refilled_layer k nodes) {x = l} {y = l + zero} (omega arith)
  get_or-refill_layers l (nodes ∷ adj) (suc layer) =
      get_or-refill_layers (suc l) adj layer
      ∙ ap (λ (k : ℕ). refilled_layer k (get_or adj layer [])) {x = suc l + layer}
          {y = l + suc layer} (omega arith)

  refilled_layer-Clean :
      (layer : ℕ) (nodes : Layer) (x : ℕ) → Clean np v m pos dead (refilled_layer layer nodes) x
  unfolding Clean
  refilled_layer-Clean layer nodes x = elim (dec_lt x (length nodes)) [
    | yes within ↦
        foldl-refill_node-Clean np v m pos dead layer 0 (length nodes) nodes x (omega arith)
          (omega arith)
    | no beyond ↦ λ live.
        rw
          (
            foldl-refill_node-beyond np v m pos dead layer 0 (length nodes) nodes x (omega arith),
            get_or_beyond nodes x (omega arith),
          )
          tt
  ]

  links-refill :
      (adj : Adjacency) (layer x : ℕ)
      → links (refill np v m dead adj) layer x
        ≡ list_of (cleared_node dead x (get_or (refilled_layer layer (get_or adj layer [])) x none))
  unfolding refill clear_from
  links-refill adj layer x =
      ap (λ (nodes : Layer). list_of (get_or nodes x none))
        (get_or-map_nil (clear_from dead 0) (refill_layers np v m dead 0 adj) layer refl)
      ∙ ap list_of (
          get_or-clear_from np v m pos dead 0 (get_or (refill_layers np v m dead 0 adj) layer []) x)
      ∙ ap
          (λ (k : ℕ). list_of (
            cleared_node dead k
              (get_or (get_or (refill_layers np v m dead 0 adj) layer []) x none)))
          {x = 0 + x} {y = x} (omega arith)
      ∙ ap (λ (nodes : Layer). list_of (cleared_node dead x (get_or nodes x none)))
          (get_or-refill_layers 0 adj layer)
      ∙ ap
          (λ (k : ℕ).
            list_of (cleared_node dead x (get_or (refilled_layer k (get_or adj layer [])) x none)))
          {x = 0 + layer} {y = layer} (omega arith)

  -- For m of at least 1, after `_refill` no list on any layer names a deleted node, and the list of a
  -- deleted node is empty.
  pub refill-IsLive :
      (adj : Adjacency) (layer x : ℕ)
      → All (IsLive np v m pos dead) (links (refill np v m dead adj) layer x)
        × (get_or dead x false ≡ true → links (refill np v m dead adj) layer x ≡ [])
  unfolding Clean
  refill-IsLive adj layer x =
      let empty : get_or dead x false ≡ true → links (refill np v m dead adj) layer x ≡ [] =
        λ gone. links-refill adj layer x ∙ cleared_node-dead dead x _ gone in
      elim (Bool-cases (get_or dead x false)) [
        | inl gone ↦ (rw (empty gone) tt, empty)
        | inr live ↦ (
          rw
              (
                links-refill adj layer x,
                cleared_node-live dead x
                    (get_or (refilled_layer layer (get_or adj layer [])) x none) live,
              )
              (refilled_layer-Clean layer (get_or adj layer []) x live),
          empty,
        )
      ]
