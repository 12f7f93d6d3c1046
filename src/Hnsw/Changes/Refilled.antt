-- ===== src/Hnsw/Changes/Refilled.antt =====
-- `_refill` of hnsw.py: no list keeps a deleted node, and no deleted node keeps a list.
use mathlib.Core.Path.{subst}
use vector_retrieval_optimiz.Prelude.{
  ℕ, zero, suc, ◌+◌, ◌≤◌, ◌<◌, ◌≡◌, ◌≢◌, refl, ◌∙◌, ap, Bool, false, not, ◌&&◌, ◌||◌, List, [], ◌∷◌,
  foldl, none, some, length, get_or, get_or-set_self, get_or-set_ne, filter, All, All-map,
  All-append, All-filter_self, arith, Bool-cases, Option-cases, List-cases, inl, inr, range_from,
  any, elem, dec_lt,
}
use vector_retrieval_optimiz.Numpy.{Numpy, Hit}
use vector_retrieval_optimiz.Hnsw.{Layer, list_of, cap}
use vector_retrieval_optimiz.Hnsw.Select.Picks.{select_bounds}
use vector_retrieval_optimiz.Hnsw.Graph.{scored_to}
use vector_retrieval_optimiz.Hnsw.Changes.{
  gather_one, gather_dead, refilled, refill_node, cleared_node, clear_from,
}

in_bounds : (nodes : Layer) (x : ℕ) (nb : List ℕ) → get_or nodes x none ≡ some nb → x < length nodes
in_bounds [] x nb e = cc
in_bounds (o ∷ nodes) zero nb e = omega arith
in_bounds (o ∷ nodes) (suc x) nb e = omega (arith, in_bounds nodes x nb e)

none_dead :
    (dead : List Bool) (nb : List ℕ)
    → any (λ e. get_or dead e false) nb ≡ false
    → All (λ e. get_or dead e false ≡ false) nb
none_dead dead [] h = tt
none_dead dead (e ∷ nb) h = (ground arith, none_dead dead nb (ground arith))

module _ (np : Numpy) (v : List np.Vec) (m : ℕ) (pos : 1 ≤ m) (dead : List Bool) where
  -- a row that is not deleted
  abbrev pub IsLive : ℕ → Type 0
  IsLive e = get_or dead e false ≡ false

  gather_one-IsLive :
      (found : List ℕ × List ℕ) (e : ℕ)
      → All IsLive found.0
      → All IsLive (gather_one dead found e).0
  unfolding gather_one
  gather_one-IsLive (cands, seen) e a = elim (Bool-cases (get_or dead e false || elem e seen)) [
    | inl skip ↦ rw (gather_one, skip) a
    | inr take ↦ rw (gather_one, take) (All-append IsLive cands (e ∷ []) a (ground arith, tt))
  ]

  foldl-gather_one-IsLive :
      (es : List ℕ) (found : List ℕ × List ℕ)
      → All IsLive found.0
      → All IsLive (foldl (gather_one dead) found es).0
  foldl-gather_one-IsLive [] found a = a
  foldl-gather_one-IsLive (e ∷ es) found a =
      foldl-gather_one-IsLive es (gather_one dead found e) (gather_one-IsLive found e a)

  gather_dead-IsLive :
      (nodes : Layer) (found : List ℕ × List ℕ) (d : ℕ)
      → All IsLive found.0
      → All IsLive (gather_dead dead nodes found d).0
  unfolding gather_dead
  gather_dead-IsLive nodes found d a = elim (Bool-cases (get_or dead d false)) [
    | inl gone ↦
        rw (gather_dead, gone) (foldl-gather_one-IsLive (list_of (get_or nodes d none)) found a)
    | inr live ↦ rw (gather_dead, live) a
  ]

  foldl-gather_dead-IsLive :
      (nodes : Layer) (ds : List ℕ) (found : List ℕ × List ℕ)
      → All IsLive found.0
      → All IsLive (foldl (gather_dead dead nodes) found ds).0
  foldl-gather_dead-IsLive nodes [] found a = a
  foldl-gather_dead-IsLive nodes (d ∷ ds) found a =
      foldl-gather_dead-IsLive nodes ds (gather_dead dead nodes found d)
        (gather_dead-IsLive nodes found d a)

  scored_to-IsLive :
      (x : ℕ) (ids : List ℕ)
      → All IsLive ids
      → All (λ (h : Hit). IsLive h.row) (scored_to np v m x ids)
  unfolding scored_to
  scored_to-IsLive x [] a = tt
  scored_to-IsLive x (i ∷ ids) a = (a.0, scored_to-IsLive x ids a.1)

  -- a list of live rows that fits its slots
  abbrev pub IsRefilled : ℕ → List ℕ → Type 0
  IsRefilled layer nb = (length nb ≤ cap m layer) × All IsLive nb

  refilled-IsRefilled :
      (layer : ℕ) (nodes : Layer) (x : ℕ) (nb : List ℕ)
      → IsRefilled layer (refilled np v m dead layer nodes x nb)
  unfolding refilled
  refilled-IsRefilled layer nodes x nb =
      let cands = filter (λ e. not (get_or dead e false)) nb in
      let found = foldl (gather_dead dead nodes) (cands, x ∷ cands) nb in
      let live : All IsLive found.0 =
        foldl-gather_dead-IsLive nodes nb (cands, x ∷ cands)
          (All-map (λ e k. ground arith) cands
            (All-filter_self (λ e. not (get_or dead e false)) nb)) in
      elim (List-cases found.0) [
        | inl e ↦ rw (refilled, e) (omega arith, tt)
        | inr (c, cs, e) ↦
            rw (refilled, e)
              (select_bounds np v IsLive (scored_to np v m x (c ∷ cs)) (cap m layer) []
                (cap_pos layer)
                (scored_to-IsLive x (c ∷ cs) (subst (λ (xs : List ℕ). All IsLive xs) e live)))
      ]
    where
      cap_pos : (layer : ℕ) → 1 ≤ cap m layer
      cap_pos layer = ground arith

  -- The list of x names no deleted row, unless x is deleted.
  unfoldable pub Clean : Layer → ℕ → Type 0
  Clean nodes x = IsLive x → All IsLive (list_of (get_or nodes x none))

  refill_node-Clean :
      (layer : ℕ) (nodes : Layer) (x : ℕ) → Clean (refill_node np v m dead layer nodes x) x
  unfolding refill_node Clean
  refill_node-Clean layer nodes x live = elim (Option-cases (get_or nodes x none)) [
    | inl e ↦ rw (refill_node, e) (rw e tt)
    | inr (nb, e) ↦
        elim (Bool-cases (not (get_or dead x false) && any (λ e. get_or dead e false) nb)) [
          | inl change ↦
              rw (refill_node, e, change)
                (rw
                  (get_or-set_self nodes x (some (refilled np v m dead layer nodes x nb)) none
                    (in_bounds nodes x nb e))
                  (refilled-IsRefilled layer nodes x nb).1)
          | inr keep ↦
              rw (refill_node, e, keep) (rw e (none_dead dead nb (ground (arith, live, keep))))
        ]
  ]

  -- The other lists stay.
  refill_node-other :
      (layer : ℕ) (nodes : Layer) (x y : ℕ)
      → x ≢ y
      → get_or (refill_node np v m dead layer nodes x) y none ≡ get_or nodes y none
  unfolding refill_node
  refill_node-other layer nodes x y ne = elim (Option-cases (get_or nodes x none)) [
    | inl e ↦ rw (refill_node, e) refl
    | inr (nb, e) ↦
        elim (Bool-cases (not (get_or dead x false) && any (λ e. get_or dead e false) nb)) [
          | inl change ↦
              rw (refill_node, e, change)
                (get_or-set_ne nodes x y (some (refilled np v m dead layer nodes x nb)) none ne)
          | inr keep ↦ rw (refill_node, e, keep) refl
        ]
  ]

  foldl-refill_node-other :
      (layer : ℕ) (a n : ℕ) (nodes : Layer) (y : ℕ)
      → y < a
      → get_or (foldl (refill_node np v m dead layer) nodes (range_from a n)) y none
        ≡ get_or nodes y none
  foldl-refill_node-other layer a zero nodes y l = refl
  foldl-refill_node-other layer a (suc n) nodes y l =
      foldl-refill_node-other layer (suc a) n (refill_node np v m dead layer nodes a) y
        (omega arith)
      ∙ refill_node-other layer nodes a y (λ e. omega arith)

  pub foldl-refill_node-beyond :
      (layer : ℕ) (a n : ℕ) (nodes : Layer) (y : ℕ)
      → a + n ≤ y
      → get_or (foldl (refill_node np v m dead layer) nodes (range_from a n)) y none
        ≡ get_or nodes y none
  foldl-refill_node-beyond layer a zero nodes y l = refl
  foldl-refill_node-beyond layer a (suc n) nodes y l =
      foldl-refill_node-beyond layer (suc a) n (refill_node np v m dead layer nodes a) y
        (omega arith)
      ∙ refill_node-other layer nodes a y (λ e. omega arith)

  pub foldl-refill_node-Clean :
      (layer : ℕ) (a n : ℕ) (nodes : Layer) (y : ℕ)
      → a ≤ y
      → y < a + n
      → Clean (foldl (refill_node np v m dead layer) nodes (range_from a n)) y
  unfolding Clean
  foldl-refill_node-Clean layer a zero nodes y l u = absurd (omega arith)
  foldl-refill_node-Clean layer a (suc n) nodes y l u =
      let next = refill_node np v m dead layer nodes a in
      elim (dec_lt a y) [
        | yes later ↦ foldl-refill_node-Clean layer (suc a) n next y (omega arith) (omega arith)
        | no here ↦
            let same : y ≡ a = omega arith in
            rw (foldl-refill_node-other layer (suc a) n next y (omega arith), same)
              (refill_node-Clean layer nodes a)
      ]

  pub get_or-clear_from :
      (x : ℕ) (nodes : Layer) (y : ℕ)
      → get_or (clear_from dead x nodes) y none ≡ cleared_node dead (x + y) (get_or nodes y none)
  unfolding clear_from cleared_node
  get_or-clear_from x [] y = refl
  get_or-clear_from x (nb ∷ nodes) zero =
      ap (λ (k : ℕ). cleared_node dead k nb) {x = x} {y = x + zero} (omega arith)
  get_or-clear_from x (nb ∷ nodes) (suc y) =
      get_or-clear_from (suc x) nodes y
      ∙ ap (λ (k : ℕ). cleared_node dead k (get_or nodes y none)) {x = suc x + y} {y = x + suc y}
          (omega arith)
