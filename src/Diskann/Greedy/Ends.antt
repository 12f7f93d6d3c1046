-- ===== src/Diskann/Greedy/Ends.antt =====
-- What the greedy search of diskann.py expands are rows of the index.
use vector_retrieval_optimiz.Prelude.{
  ℕ, zero, suc, ◌<◌, Bool, true, false, not, List, [], ◌∷◌, ◌++◌, map, foldl, ltb, ◌==◌, length,
  get_or, filter, All, All-append, All-filter, if◌then◌else◌, Bool-cases, inl, inr,
}
use vector_retrieval_optimiz.Prelude.Arrays.{fill_at}
use vector_retrieval_optimiz.Prelude.Sorting.{insert_by-All}
use vector_retrieval_optimiz.Prelude.Distinct.{All_to_map}
use vector_retrieval_optimiz.Numpy.{Numpy, Hit, better}
use vector_retrieval_optimiz.Hnsw.Layer.{hit, worst_score}
use vector_retrieval_optimiz.Diskann.{Builder, out_of}
use vector_retrieval_optimiz.Diskann.Greedy.{
  Descent, is_full, ends_at, take_in, above_worst, expand, descend, entered, greedy,
}

module _ (n : ℕ) where
  -- the candidates and the expanded rows are rows of the index
  abbrev Inside : Descent → Type 0
  Inside s = All (λ (h : Hit). h.row < n) s.cand × All (λ c. c < n) s.expanded

  take_in-Inside : (l : ℕ) (s : Descent) (h : Hit) → h.row < n → Inside s → Inside (take_in l s h)
  unfolding take_in
  take_in-Inside l s h lt k =
      let more = insert_by-All better (λ (h : Hit). h.row < n) h s.cand lt k.0 in
      elim (Bool-cases (ltb (length s.res) l)) [
        | inl space ↦ rw space (more, k.1)
        | inr full ↦ elim (Bool-cases (ltb (worst_score s.res) h.score)) [
          | inl above ↦ rw (full, above) (more, k.1)
          | inr below ↦ rw (full, below) k
        ]
      ]

  take_all-Inside :
      (l : ℕ) (hs : List Hit) (s : Descent)
      → All (λ (h : Hit). h.row < n) hs
      → Inside s
      → Inside (foldl (take_in l) s hs)
  take_all-Inside l [] s lt k = k
  take_all-Inside l (h ∷ hs) s lt k =
      take_all-Inside l hs (take_in l s h) lt.1 (take_in-Inside l s h lt.0 k)

  above_worst-All :
      (l : ℕ) (s : Descent) (hs : List Hit)
      → All (λ (h : Hit). h.row < n) hs
      → All (λ (h : Hit). h.row < n) (above_worst l s hs)
  unfolding above_worst
  above_worst-All l s hs h =
      elim (is_full l s)
        as (λ b.
          All (λ (h : Hit). h.row < n)
            (if b then filter (λ h. ltb (worst_score s.res) h.score) hs else hs)) [
              | true ↦ All-filter (λ (h : Hit). h.row < n) _ hs h
              | false ↦ h
            ]

  module _ (np : Numpy) (v : List np.Vec) (b : Builder)
      (lists : (c : ℕ) → All (λ j. j < n) (out_of b c)) (l : ℕ) (q : np.Vec) where
    expand-Inside : (s : Descent) (c : ℕ) → c < n → Inside s → Inside (expand np v b l q s c)
    unfolding expand
    expand-Inside s c lt k =
        let open_test : ℕ → Bool = λ e. not (get_or s.mark e 0 == b.gen) in
        let nb = filter open_test (out_of b c) in
        let rows = All-filter (λ j. j < n) open_test (out_of b c) (lists c) in
        let s' : Descent = record s {
          mark = fill_at s.mark nb b.gen;
          expanded = s.expanded ++ c ∷ [];
        } in
        take_all-Inside l (above_worst l s' (map (hit np v q) nb)) s'
          (above_worst-All l s' (map (hit np v q) nb)
            (All_to_map (hit np v q) (λ (h : Hit). h.row < n) nb rows))
          (k.0, All-append (λ j. j < n) s.expanded (c ∷ []) k.1 (lt, tt))

    descend-Inside : (fuel : ℕ) (s : Descent) → Inside s → Inside (descend np v b l q fuel s)
    unfolding descend
    descend-Inside zero s k = k
    descend-Inside (suc fuel) s k = go (λ t j. descend-Inside fuel t j) s.cand k.0
      where
        go :
            ((t : Descent) → Inside t → Inside (descend np v b l q fuel t))
            → (cand : List Hit) → All (λ (h : Hit). h.row < n) cand
            → Inside (elim cand [
              | [] ↦ s
              | c ∷ cs ↦ elim (ends_at l s c) [
                | true ↦ record s { cand = cs }
                | false ↦ descend np v b l q fuel (expand np v b l q (record s { cand = cs }) c.row)
              ]
            ])
        go rest [] h = k
        go rest (c ∷ cs) h =
            elim (ends_at l s c)
              as (λ t. Inside (elim t [
                | true ↦ record s { cand = cs }
                | false ↦ descend np v b l q fuel (expand np v b l q (record s { cand = cs }) c.row)
              ])) [
                | true ↦ (h.1, k.1)
                | false ↦
                    rest (expand np v b l q (record s { cand = cs }) c.row)
                      (expand-Inside (record s { cand = cs }) c.row h.0 (h.1, k.1))
              ]

  -- Where the lists name rows of the index, `greedy` from one of its rows expands rows of the index.
  pub greedy-below :
      (np : Numpy) (v : List np.Vec) (b : Builder)
      → ((c : ℕ) → All (λ j. j < n) (out_of b c))
      → (q : np.Vec) (entry l : ℕ) → entry < n
      → All (λ c. c < n) (greedy np v b q entry l).1
  unfolding greedy entered out_of
  greedy-below np v b lists q entry l lt =
      let b' : Builder = record b { gen = suc b.gen } in
      (descend-Inside np v b' lists l q (length v) (entered np v b' q entry) ((lt, tt), tt)).1
