-- ===== src/Ivf/Nearest.antt =====
-- The assignment of rows to centers in ivf.py, by what it is to be: the nearest center, the lowest
-- on ties.
use vector_retrieval_optimiz.Prelude.{
  ℕ, suc, ◌+◌, ◌≤◌, ◌<◌, ◌≡◌, refl, ◌∙◌, ap, ltb, ◌==◌, List, [], ◌∷◌, map, length, length-map,
  get_or, arith, Bool-cases, inl, inr,
}
use vector_retrieval_optimiz.Prelude.Arrays.{argmax, argmax_from, get_or-map}
use vector_retrieval_optimiz.Numpy.{Numpy}
use vector_retrieval_optimiz.Ivf.{assign_all}

-- the first position of the greatest value
pub record IsFirstMax (xs : List ℕ) (r : ℕ) : Type 0 where
  pub inside : r < length xs
  pub greatest : (j : ℕ) → j < length xs → get_or xs j 0 ≤ get_or xs r 0
  pub first : (j : ℕ) → j < r → get_or xs j 0 < get_or xs r 0

-- `best` is that of the positions below i, and the values from i on are `rest`
record IsFirstMaxBelow (xs : List ℕ) (best value i : ℕ) (rest : List ℕ) : Type 0 where
  inside : best < i
  at_best : get_or xs best 0 ≡ value
  size : length xs ≡ i + length rest
  later : (j : ℕ) → get_or xs (i + j) 0 ≡ get_or rest j 0
  greatest : (j : ℕ) → j < i → get_or xs j 0 ≤ value
  first : (j : ℕ) → j < best → get_or xs j 0 < value

up_to :
    (xs : List ℕ) (i m : ℕ)
    → ((j : ℕ) → j < i → get_or xs j 0 ≤ m)
    → get_or xs i 0 ≤ m
    → (j : ℕ) → j < suc i
    → get_or xs j 0 ≤ m
up_to xs i m low last j k = elim (Bool-cases (j == i)) [
  | inl same ↦ let e : j ≡ i = ground arith in rw e last
  | inr other ↦ low j (ground (arith, k, other))
]

argmax_from-IsFirstMax :
    (xs : List ℕ) (best value i : ℕ) (rest : List ℕ)
    → IsFirstMaxBelow xs best value i rest
    → IsFirstMax xs (argmax_from best value i rest)
argmax_from-IsFirstMax xs best value i [] h = record {
  inside = omega (arith, h.inside, h.size);
  greatest = λ j k. omega (arith, h.greatest j (omega (arith, k, h.size)), h.at_best);
  first = λ j k. omega (arith, h.first j k, h.at_best);
}
argmax_from-IsFirstMax xs best value i (x ∷ rest) h =
    let here : get_or xs i 0 ≡ x =
      ap (λ (k : ℕ). get_or xs k 0) {x = i} {y = i + 0} (omega arith) ∙ h.later 0 in
    let later : (j : ℕ) → get_or xs (suc i + j) 0 ≡ get_or rest j 0 = λ j.
      ap (λ (k : ℕ). get_or xs k 0) {x = suc i + j} {y = i + suc j} (omega arith)
      ∙ h.later (suc j) in
    elim (Bool-cases (ltb value x)) [
      | inl above ↦
          let more : value < x = ground arith in
          rw above (
            argmax_from-IsFirstMax xs i x (suc i) rest (record {
              inside = omega arith;
              at_best = here;
              size = omega (arith, h.size);
              later = later;
              greatest =
                  up_to xs i x (λ j l. omega (arith, h.greatest j l, more)) (omega (arith, here));
              first = λ j k. omega (arith, h.greatest j k, more);
            }))
      | inr below ↦
          let less : x ≤ value = ground arith in
          rw below (
            argmax_from-IsFirstMax xs best value (suc i) rest (record {
              inside = omega (arith, h.inside);
              at_best = h.at_best;
              size = omega (arith, h.size);
              later = later;
              greatest = up_to xs i value h.greatest (omega (arith, here, less));
              first = h.first;
            }))
    ]

pub argmax-IsFirstMax : (xs : List ℕ) → 0 < length xs → IsFirstMax xs (argmax xs)
argmax-IsFirstMax [] h = absurd (omega arith)
argmax-IsFirstMax (x ∷ xs) h = argmax_from-IsFirstMax (x ∷ xs) 0 x 1 xs (record {
  inside = omega arith;
  at_best = refl;
  size = omega arith;
  later = λ j. ap (λ (k : ℕ). get_or (x ∷ xs) k 0) {x = 1 + j} {y = suc j} (omega arith);
  greatest = up_to (x ∷ xs) 0 x (λ j k. absurd (omega arith)) (omega arith);
  first = λ j k. absurd (omega (arith, k));
})

module _ (np : Numpy) (centers : List np.Vec) where
  open np use {Vec, zero_vec, dot}

  -- the dot product of a row with a center
  abbrev pub fit_at : Vec → ℕ → ℕ
  fit_at x c = dot x (get_or centers c zero_vec)

  -- No center has a greater dot product with the row, and each center before it a lower one.
  pub record IsNearest (x : Vec) (c : ℕ) : Type 0 where
    pub inside : c < length centers
    pub greatest : (j : ℕ) → j < length centers → fit_at x j ≤ fit_at x c
    pub first : (j : ℕ) → j < c → fit_at x j < fit_at x c

  -- a label for each row, that of its nearest center
  pub record AreNearest (vectors : List Vec) (labels : List ℕ) : Type 0 where
    pub size : length labels ≡ length vectors
    pub nearest :
        (i : ℕ) → i < length vectors → IsNearest (get_or vectors i zero_vec) (get_or labels i 0)

  argmax-IsNearest :
      (x : Vec) → 0 < length centers → IsNearest x (argmax (map (λ c. dot x c) centers))
  argmax-IsNearest x some_center =
      let s = map (λ c. dot x c) centers in
      let size = length-map (λ c. dot x c) centers in
      let at : (j : ℕ) → j < length centers → get_or s j 0 ≡ fit_at x j =
        λ j h. get_or-map (λ c. dot x c) centers j zero_vec 0 h in
      let m = argmax-IsFirstMax s (omega (arith, size)) in
      let here = at (argmax s) (omega (arith, m.inside, size)) in
      record {
        inside = omega (arith, m.inside, size);
        greatest = λ j h. omega (arith, m.greatest j (omega (arith, h, size)), at j h, here);
        first = λ j h. omega (arith, m.first j h, at j (omega (arith, h, m.inside, size)), here);
      }

  -- with at least one center
  pub assign_all-AreNearest :
      (vectors : List Vec) → 0 < length centers → AreNearest vectors (assign_all np vectors centers)
  unfolding assign_all
  assign_all-AreNearest vectors some_center =
      let label = λ (x : Vec). argmax (map (λ c. dot x c) centers) in
      record {
        size = length-map label vectors;
        nearest = λ i h.
            rw (get_or-map label vectors i zero_vec 0 h)
              (argmax-IsNearest (get_or vectors i zero_vec) some_center);
      }
