-- ===== src/Hnsw/Graph/Bounded.antt =====
-- `insert` of hnsw.py keeps the lists of the graph within their caps and the rows.
use mathlib.Core.Path.{subst}
use vector_retrieval_optimiz.Prelude.{
  ℕ, zero, suc, ◌≤◌, ◌<◌, ◌≡◌, ◌⊎◌, refl, ◌∙◌, ap, List, [], ◌∷◌, ◌++◌, foldl, none, some, ltb,
  length, length-append, get_or, set, All, All-append, arith, Bool-cases, inl, inr,
}
use vector_retrieval_optimiz.Numpy.{Numpy, Hit}
use vector_retrieval_optimiz.Hnsw.{Layer, Adjacency, list_of, links, set_links, cap}
use vector_retrieval_optimiz.Hnsw.Select.Picks.{select_bounds}
use vector_retrieval_optimiz.Hnsw.Graph.{scored_to, link_back}

get_or-set_cases {ℓ} :
    {A : Type ℓ} (xs : List A) (i j : ℕ) (v d : A)
    → ((i ≡ j) × (get_or (set xs i v) j d ≡ v)) ⊎ (get_or (set xs i v) j d ≡ get_or xs j d)
get_or-set_cases [] i j v d = inr refl
get_or-set_cases (x ∷ xs) zero zero v d = inl (refl, refl)
get_or-set_cases (x ∷ xs) zero (suc j) v d = inr refl
get_or-set_cases (x ∷ xs) (suc i) zero v d = inr refl
get_or-set_cases (x ∷ xs) (suc i) (suc j) v d = elim (get_or-set_cases xs i j v d) [
  | inl (same, e) ↦ inl (ap suc same, e)
  | inr e ↦ inr e
]

-- A write changes one list at most.
links-set_links :
    (adj : Adjacency) (layer node : ℕ) (ids : List ℕ) (l x : ℕ)
    → ((layer ≡ l) × (links (set_links adj layer node ids) l x ≡ ids))
      ⊎ (links (set_links adj layer node ids) l x ≡ links adj l x)
links-set_links adj layer node ids l x =
    let nodes = set (get_or adj layer []) node (some ids) in
    elim (get_or-set_cases adj layer l nodes []) [
      | inl (same, e) ↦ elim (get_or-set_cases (get_or adj layer []) node x (some ids) none) [
        | inl (here, k) ↦
            inl (same, ap (λ (ns : Layer). list_of (get_or ns x none)) e ∙ ap list_of k)
        | inr k ↦ inr (
            ap (λ (ns : Layer). list_of (get_or ns x none)) e
            ∙ ap list_of k
            ∙ ap (λ (i : ℕ). links adj i x) same)
      ]
      | inr e ↦ inr (ap (λ (ns : Layer). list_of (get_or ns x none)) e)
    ]

module _ (np : Numpy) (v : List np.Vec) (m : ℕ) where
  open np use {Vec, zero_vec}

  -- a list of a layer: at most as long as its cap, and of rows of the index
  abbrev pub IsBounded : ℕ → List ℕ → Type 0
  IsBounded layer nb = (length nb ≤ cap m layer) × All (λ j. j < length v) nb

  abbrev pub AllBounded : Adjacency → Type 0
  AllBounded adj = (layer x : ℕ) → IsBounded layer (links adj layer x)

  pub set_links-AllBounded :
      (adj : Adjacency) (layer node : ℕ) (ids : List ℕ)
      → AllBounded adj
      → IsBounded layer ids
      → AllBounded (set_links adj layer node ids)
  set_links-AllBounded adj layer node ids b new l x =
      elim (links-set_links adj layer node ids l x) [
        | inl (same, e) ↦ rw e (subst (λ (k : ℕ). IsBounded k ids) same new)
        | inr e ↦ rw e (b l x)
      ]

  pub scored_to-rows :
      (e : ℕ) (ids : List ℕ)
      → All (λ j. j < length v) ids
      → All (λ (h : Hit). h.row < length v) (scored_to np v m e ids)
  unfolding scored_to
  scored_to-rows e [] a = tt
  scored_to-rows e (j ∷ ids) a = (a.0, scored_to-rows e ids a.1)

  pub cap-pos : (layer : ℕ) → 1 ≤ m → 1 ≤ cap m layer
  cap-pos layer pos = ground arith

  pub cap-ge : (layer : ℕ) → m ≤ cap m layer
  cap-ge layer = ground arith

  link_back-AllBounded :
      (i layer : ℕ) (adj : Adjacency) (e : ℕ)
      → 1 ≤ m
      → i < length v
      → AllBounded adj
      → AllBounded (link_back np v m i layer adj e)
  unfolding link_back
  link_back-AllBounded i layer adj e pos li b =
      let nb = links adj layer e in
      let grown : All (λ j. j < length v) (nb ++ i ∷ []) =
        All-append (λ j. j < length v) nb (i ∷ []) (b layer e).1 (li, tt) in
      elim (Bool-cases (ltb (length nb) (cap m layer))) [
        | inl room ↦
            rw (link_back, room)
              (set_links-AllBounded adj layer e (nb ++ i ∷ []) b
                (ground (arith, length-append nb (i ∷ []), room), grown))
        | inr full ↦
            rw (link_back, full)
              (set_links-AllBounded adj layer e _ b (
                select_bounds np v (λ j. j < length v) (scored_to np v m e (nb ++ i ∷ []))
                  (cap m layer) [] (cap-pos layer pos) (scored_to-rows e (nb ++ i ∷ []) grown)))
      ]

  pub foldl-link_back-AllBounded :
      (i layer : ℕ) (es : List ℕ) (adj : Adjacency)
      → 1 ≤ m
      → i < length v
      → AllBounded adj
      → AllBounded (foldl (link_back np v m i layer) adj es)
  foldl-link_back-AllBounded i layer [] adj pos li b = b
  foldl-link_back-AllBounded i layer (e ∷ es) adj pos li b =
      foldl-link_back-AllBounded i layer es (link_back np v m i layer adj e) pos li
        (link_back-AllBounded i layer adj e pos li b)
