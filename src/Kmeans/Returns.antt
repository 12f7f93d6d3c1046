-- ===== src/Kmeans/Returns.antt =====
-- The loop of `kmeans` in kmeans.py returns as many centers as it got.
use vector_retrieval_optimiz.Prelude.{
  ℕ, zero, suc, ◌+◌, ◌≤◌, ◌<◌, ◌≡◌, refl, ◌∙◌, sym, Bool, not, String, List, [], ◌∷◌, map, ◌==◌,
  Option, some, ok, if◌then◌else◌, ltb, length, length-map, get_or, any, arith, Bool-cases, inl,
  inr, range_from,
}
use vector_retrieval_optimiz.Prelude.Arrays.{argmax, argmax_from, bincount_from, get_or-map}
use vector_retrieval_optimiz.Prelude.Ranges.{length-range_from}
use vector_retrieval_optimiz.Numpy.{Numpy}
use vector_retrieval_optimiz.Kmeans.{
  Arith, center_score, label_of, fit_of, assign, without_empty, update_centers, is_previous,
  iterate,
}
use vector_retrieval_optimiz.Kmeans.NoEmpty.{fix_empty-filled}

argmax_from-lt :
    (best value i : ℕ) (xs : List ℕ) → best < i → argmax_from best value i xs < i + length xs
argmax_from-lt best value i [] h = omega arith
argmax_from-lt best value i (x ∷ xs) h =
    let later = ltb value x in
    omega (
      arith,
      argmax_from-lt (if later then i else best) (if later then x else value) (suc i) xs
          (ground arith),
    )

pub argmax-lt : (xs : List ℕ) → 1 ≤ length xs → argmax xs < length xs
argmax-lt [] h = absurd (omega arith)
argmax-lt (x ∷ xs) h = omega (arith, argmax_from-lt 0 x 1 xs (omega arith))

module _ (np : Numpy) (arith_ops : Arith np) (train : List np.Vec) (k : ℕ) (metric : String)
    (some_center : 1 ≤ k) (enough : k ≤ length train) where
  label_of-lt :
      (centers : List np.Vec) (p : np.Vec)
      → length centers ≡ k
      → label_of np arith_ops metric centers p < length centers
  unfolding label_of
  label_of-lt centers p e =
      let s = map (center_score np arith_ops metric p) centers in
      let same = length-map (center_score np arith_ops metric p) centers in
      omega (arith, argmax-lt s (omega (arith, same)), same)

  without_empty-ok :
      (centers : List np.Vec)
      → length centers ≡ k
      → let (labels, fit) = assign np arith_ops train centers metric in
        (moved : List ℕ) × (without_empty np arith_ops train k centers labels fit ≡ ok moved)
  unfolding without_empty assign
  without_empty-ok centers e =
      let labels = map (label_of np arith_ops metric centers) train in
      let fit = map (fit_of np arith_ops metric centers) train in
      let size = length-map (label_of np arith_ops metric centers) train in
      elim (Bool-cases (not (any (λ n. n == 0) (bincount_from 0 k labels)))) [
        | inl full ↦ (labels, rw (without_empty, full) refl)
        | inr some_empty ↦
            let (end, done, size_eq, below, filled) =
              fix_empty-filled np arith_ops train centers labels fit (omega (arith, size))
                (sym size) (length-map (fit_of np arith_ops metric centers) train ∙ sym size)
                (λ p lp. in_range centers e p (omega (arith, lp, size))) in
            (end.labels, rw (without_empty, some_empty, done) refl)
      ]
    where
      in_range :
          (centers : List np.Vec)
          → length centers ≡ k
          → (p : ℕ) → p < length train
          → get_or (map (label_of np arith_ops metric centers) train) p 0 < length centers
      in_range centers e p lp =
          rw (get_or-map (label_of np arith_ops metric centers) train p np.zero_vec 0 lp)
            (label_of-lt centers (get_or train p np.zero_vec) e)

  length-update_centers :
      (normalize : Bool) (moved : List ℕ)
      → length (update_centers np arith_ops train moved k normalize) ≡ k
  unfolding update_centers
  length-update_centers normalize moved = length-map _ (range_from 0 k) ∙ length-range_from 0 k

  -- With at least one center and as many points as centers, the loop of `kmeans` returns k centers: no
  -- round raises, whatever the metric and the normalization.
  pub iterate-ok :
      (normalize : Bool) (iters : ℕ) (centers : List np.Vec) (prev : Option (List ℕ))
      → length centers ≡ k
      → (end : List np.Vec) × (iterate np arith_ops iters train k metric normalize centers prev
          ≡ ok end)
        × (length end ≡ k)
  unfolding iterate
  iterate-ok normalize zero centers prev e = (centers, refl, e)
  iterate-ok normalize (suc iters) centers prev e =
      let labels = (assign np arith_ops train centers metric).0 in
      elim (Bool-cases (is_previous prev labels)) [
        | inl same ↦ (centers, rw (iterate, same) refl, e)
        | inr changed ↦
            let (moved, done) = without_empty-ok centers e in
            let next = update_centers np arith_ops train moved k normalize in
            let (end, rest, size) =
              iterate-ok normalize iters next (some labels)
                (length-update_centers normalize moved) in
            (end, rw (iterate, changed, done) rest, size)
      ]
