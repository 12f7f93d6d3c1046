-- ===== src/Diskann/Passes/Grown.antt =====
-- A row of the graph of diskann.py that gets one edge more, and is pruned where it has too many.
use mathlib.Core.Path.{subst}
use vector_retrieval_optimiz.Prelude.{
  ℕ, zero, suc, ◌-◌, ◌≤◌, ◌<◌, ◌≡◌, ◌≢◌, refl, ap, ◌∙◌, sym, true, not, ◌&&◌, List, [], ◌∷◌, ◌++◌,
  map, none, some, ltb, length, length-append, length-set, get_or, set, replicate, elem,
  if◌then◌else◌, All, ◌==◌, ==_iff, Bool-cases, List-cases, inl, inr, arith, get_or-set_self,
}
use vector_retrieval_optimiz.Prelude.Ranges.{Nodup}
use vector_retrieval_optimiz.Numpy.{Numpy}
use vector_retrieval_optimiz.Pq.{present}
use vector_retrieval_optimiz.Diskann.{Metric, Slots, Builder, out_of, filled}
use vector_retrieval_optimiz.Diskann.Rows.{with_row, out_of-filled}
use vector_retrieval_optimiz.Diskann.Prune.{others, prune}
use vector_retrieval_optimiz.Diskann.Prune.Nearest.{elem-others}
use vector_retrieval_optimiz.Diskann.Prune.Robust.{prune_written, prune_skipped}
use vector_retrieval_optimiz.Diskann.Passes.{append_edge}
use vector_retrieval_optimiz.Diskann.Passes.Bounded.{
  IsRow, IsBounded, out_of-ids, kept-IsRow, with_row-IsBounded, pruned-IsBounded,
}

set_slot :
    (xs : List ℕ) (row : Slots) (i : ℕ)
    → set (map some xs ++ none ∷ row) (length xs) (some i) ≡ map some (xs ++ i ∷ []) ++ row
set_slot [] row i = refl
set_slot (x ∷ xs) row i = ap (◌∷◌ (some x)) (set_slot xs row i)

-- The first empty slot of a row is written.
pub set-filled :
    (r i : ℕ) (ids : List ℕ)
    → length ids ≤ r
    → set (filled (suc r) ids) (length ids) (some i) ≡ filled (suc r) (ids ++ i ∷ [])
unfolding filled
set-filled r i ids h =
    let left : suc r - length ids ≡ suc (r - length ids) = omega arith in
    let right : r - length ids ≡ suc r - length (ids ++ i ∷ []) =
      omega (arith, length-append ids (i ∷ [])) in
    ap (λ (k : ℕ). set (map some ids ++ replicate k none) (length ids) (some i)) left
    ∙ set_slot ids (replicate (r - length ids) none) i
    ∙ ap (λ (k : ℕ). map some (ids ++ i ∷ []) ++ replicate k none) right

get_or_beyond {ℓ} : {A : Type ℓ} (xs : List A) (c : ℕ) (d : A) → length xs ≤ c → get_or xs c d ≡ d
get_or_beyond [] c d h = refl
get_or_beyond (x ∷ xs) zero d h = absurd (omega arith)
get_or_beyond (x ∷ xs) (suc c) d h = get_or_beyond xs c d (omega arith)

module _ (n r : ℕ) (np : Numpy) (mt : Metric) (v : List np.Vec) where
  pub lists-below : (b : Builder) → IsBounded n r b → (c : ℕ) → All (λ j. j < n) (out_of b c)
  unfolding out_of present
  lists-below b w c = elim (Bool-cases (ltb c n)) [
    | inl inside ↦
        let row = w.rows c (ground arith) in
        subst (All (λ j. j < n)) (sym (out_of-ids n r r b c row)) row.below
    | inr outside ↦
        rw
          (
            get_or_beyond b.edges c [] (ground (arith, w.edges_size)),
            get_or_beyond b.counts c 0 (ground (arith, w.counts_size)),
          )
          tt
  ]

  pub prune-IsBounded :
      (b : Builder) (p : ℕ) (cands : List ℕ) (alpha : mt.Factor)
      → p < n
      → All (λ c. c < n) cands
      → IsBounded n r b
      → IsBounded n r (prune np mt v r b p cands alpha)
  prune-IsBounded b p cands alpha lt below w = elim (List-cases (others np mt v p cands)) [
    | inl empty ↦ rw (prune_skipped np mt v r p alpha b cands empty) w
    | inr (i, ids, e) ↦
        let listed : (elem i cands && not (i == p)) ≡ true =
          sym (elem-others np mt v p i cands) ∙ ap (elem i) e ∙ ground (arith, ==_iff i i) in
        let other : i ≢ p = λ k. let same = (==_iff i p).1 k in ground arith in
        rw (prune_written np mt v r p alpha b cands i ids e) (
          pruned-IsBounded n r np mt v b p cands alpha i w.edges_size w.counts_size lt
            (λ j hj ne. w.rows j hj) below (ground arith) other)
  ]

  pub append_edge-with_row :
      (b : Builder) (i j : ℕ) (row : IsRow n r r b j)
      → append_edge np mt v r b i j
        ≡ with_row b j (filled (suc r) (row.ids ++ i ∷ [])) (length (row.ids ++ i ∷ []))
  unfolding append_edge
  append_edge-with_row b i j row =
      let size : suc (length row.ids) ≡ length (row.ids ++ i ∷ []) =
        omega (arith, length-append row.ids (i ∷ [])) in
      rw (row.slots_eq, row.count_eq, set-filled r i row.ids row.few)
        (ap (λ (k : ℕ). with_row b j (filled (suc r) (row.ids ++ i ∷ [])) k) size)

  -- A row with one edge more is cut back to r, if it has more.
  pub grown-IsBounded :
      (b : Builder) (j : ℕ) (ids : List ℕ) (alpha : mt.Factor) (c : ℕ)
      → IsBounded n r b
      → j < n
      → All (λ x. x < n) ids
      → All (λ x. x ≢ j) ids
      → Nodup ids
      → elem c ids ≡ true
      → c ≢ j
      → let b' = with_row b j (filled (suc r) ids) (length ids) in
        IsBounded n r
          (if ltb r (get_or b'.counts j 0) then prune np mt v r b' j (out_of b' j) alpha else b')
  grown-IsBounded b j ids alpha c w lt below apart once h other =
      let b' = with_row b j (filled (suc r) ids) (length ids) in
      let es = length-set b.edges j (filled (suc r) ids) ∙ w.edges_size in
      let cs = length-set b.counts j (length ids) ∙ w.counts_size in
      let in_edges : j < length b.edges = omega (arith, lt, w.edges_size) in
      let in_counts : j < length b.counts = omega (arith, lt, w.counts_size) in
      let count : get_or b'.counts j 0 ≡ length ids =
        get_or-set_self b.counts j (length ids) 0 in_counts in
      let kept : (x : ℕ) → x < n → j ≢ x → IsRow n r r b' x =
        λ x hx ne. kept-IsRow n r r b j x (filled (suc r) ids) (length ids) ne (w.rows x hx) in
      elim (Bool-cases (ltb r (length ids))) [
        | inl many ↦
            rw (count, many, out_of-filled b j (suc r) ids in_edges in_counts)
              (overfull b' kept es cs)
        | inr fits ↦
            rw (count, fits)
              (with_row-IsBounded n r b j ids w.edges_size w.counts_size lt (ground arith) below
                apart once (λ x hx ne. w.rows x hx))
      ]
    where
      overfull :
          (t : Builder)
          → ((x : ℕ) → x < n → j ≢ x → IsRow n r r t x)
          → length t.edges ≡ n
          → length t.counts ≡ n
          → IsBounded n r (prune np mt v r t j ids alpha)
      overfull t kept es cs = elim (List-cases (others np mt v j ids)) [
        | inl empty ↦
            let listed : elem c [] ≡ true =
              ap (elem c) (sym empty)
              ∙ elem-others np mt v j c ids
              ∙ ground (arith, h, ==_iff c j, other) in
            absurd (cc listed)
        | inr (i, more, e) ↦
            rw (prune_written np mt v r j alpha t ids i more e)
              (pruned-IsBounded n r np mt v t j ids alpha c es cs lt kept below h other)
      ]
