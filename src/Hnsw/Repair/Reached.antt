-- ===== src/Hnsw/Repair/Reached.antt =====
-- The search of `reachable0` and `_unreachable0` of hnsw.py, against reachability along the lists.
use mathlib.Core.Path.{subst}
use vector_retrieval_optimiz.Prelude.{
  ℕ, zero, suc, ◌≤◌, ◌<◌, ◌≡◌, refl, ◌∙◌, sym, ap, true, List, [], ◌∷◌, foldl, ◌==◌, ◌⊎◌, length,
  get_or, get_or-set_ne, length-set, All, All-map, arith, Bool-cases, List-cases, inl, inr, elem,
}
use vector_retrieval_optimiz.Hnsw.Repair.{Sweep, reach_one, sweep}
use vector_retrieval_optimiz.Hnsw.Repair.Sweeps.{
  Seen, set-true_kept, foldl-reach_one-Seen, foldl-reach_one-measure, measure,
}

-- The rows that the lists lead to from the entry point.
pub data Reach (nbr : ℕ → List ℕ) (entry : ℕ) : ℕ → Type 0 where
  begins : Reach nbr entry entry
  follows : (c e : ℕ) → Reach nbr entry c → elem e (nbr c) ≡ true → Reach nbr entry e

module _ (nbr : ℕ → List ℕ) (entry n : ℕ) (in_range : (i : ℕ) → All (λ j. j < n) (nbr i)) where
  -- Every row seen is reached, the rows of the stack too, and the lists of the seen rows that have left
  -- the stack hold seen rows; c is the row that is being expanded.
  record Partial (c : ℕ) (s : Sweep) : Type 0 where
    size : length s.seen ≡ n
    sound : (i : ℕ) → i < n → Seen s i → Reach nbr entry i
    waiting : All (λ i. Reach nbr entry i) s.stack
    closed :
        (i : ℕ)
        → i < n
        → Seen s i
        → (i ≡ c) ⊎ ((elem i s.stack ≡ true) ⊎ All (λ e. Seen s e) (nbr i))

  reach_one-Partial :
      (c e : ℕ) (s : Sweep) → Reach nbr entry e → Partial c s → Partial c (reach_one s e)
  unfolding reach_one
  reach_one-Partial c e s re p = elim (Bool-cases (get_or s.seen e true)) [
    | inl seen ↦ rw (reach_one, seen) p
    | inr free ↦
        rw (reach_one, free)
          (record {
            size = length-set s.seen e true ∙ p.size;
            sound = λ i l h. elim (Bool-cases (e == i)) [
              | inl same ↦ let eq : e ≡ i = ground arith in rw (← eq) re
              | inr other ↦
                  p.sound i l (sym (get_or-set_ne s.seen e i true true (λ eq. ground arith)) ∙ h)
            ];
            waiting = (re, p.waiting);
            closed = λ i l h. elim (Bool-cases (e == i)) [
              | inl same ↦ inr (inl (ground arith))
              | inr other ↦
                  elim (p.closed i l
                    (sym (get_or-set_ne s.seen e i true true (λ eq. ground arith)) ∙ h)) [
                      | inl here ↦ inl here
                      | inr (inl stacked) ↦ inr (inl (ground arith))
                      | inr (inr done) ↦
                          inr (inr (All-map (λ x k. set-true_kept s.seen e x k) (nbr i) done))
                    ]
            ];
          })
  ]

  foldl-reach_one-Partial :
      (c : ℕ) (es : List ℕ) (s : Sweep)
      → All (λ e. Reach nbr entry e) es
      → Partial c s
      → Partial c (foldl reach_one s es)
  foldl-reach_one-Partial c [] s r p = p
  foldl-reach_one-Partial c (e ∷ es) s r p =
      foldl-reach_one-Partial c es (reach_one s e) r.1 (reach_one-Partial c e s r.0 p)

  -- The same between two rounds, where no row is being expanded.
  pub record Full (s : Sweep) : Type 0 where
    pub size : length s.seen ≡ n
    pub sound : (i : ℕ) → i < n → Seen s i → Reach nbr entry i
    pub waiting : All (λ i. Reach nbr entry i) s.stack
    pub closed : (i : ℕ) → i < n → Seen s i → (elem i s.stack ≡ true) ⊎ All (λ e. Seen s e) (nbr i)

  pub all_elem : (es : List ℕ) → All (λ e. elem e es ≡ true) es
  all_elem [] = tt
  all_elem (e ∷ es) = (ground arith, All-map (λ x k. ground arith) es (all_elem es))

  top_or_below :
      (i c : ℕ) (stack : List ℕ) → elem i (c ∷ stack) ≡ true → (i ≡ c) ⊎ (elem i stack ≡ true)
  top_or_below i c stack h = elim (Bool-cases (c == i)) [
    | inl same ↦ inl (ground arith)
    | inr other ↦ inr (ground arith)
  ]

  -- The row c leaves the stack.
  popped :
      (s : Sweep) (c : ℕ) (stack : List ℕ)
      → s.stack ≡ c ∷ stack
      → Full s
      → Partial c (record s { stack = stack })
  popped s c stack e f = record {
    size = f.size;
    sound = f.sound;
    waiting = (subst (λ (xs : List ℕ). All (λ i. Reach nbr entry i) xs) e f.waiting).1;
    closed = λ i l h. elim (f.closed i l h) [
      | inl stacked ↦ elim (top_or_below i c stack (ap (elem i) (sym e) ∙ stacked)) [
        | inl here ↦ inl here
        | inr below ↦ inr (inl below)
      ]
      | inr done ↦ inr (inr done)
    ];
  }

  -- The whole list of c has been looked at.
  expanded : (c : ℕ) (s : Sweep) → All (λ e. Seen s e) (nbr c) → Partial c s → Full s
  expanded c s done p = record {
    size = p.size;
    sound = p.sound;
    waiting = p.waiting;
    closed = λ i l h. elim (p.closed i l h) [ inl here ↦ inr (rw here done) | inr rest ↦ rest ];
  }

  round-Full :
      (s : Sweep) (c : ℕ) (stack : List ℕ)
      → s.stack ≡ c ∷ stack
      → Full s
      → Full (foldl reach_one (record s { stack = stack }) (nbr c))
  round-Full s c stack e f =
      let t : Sweep = record s { stack = stack } in
      let rc : Reach nbr entry c =
        (subst (λ (xs : List ℕ). All (λ i. Reach nbr entry i) xs) e f.waiting).0 in
      expanded c (foldl reach_one t (nbr c)) (foldl-reach_one-Seen (nbr c) t) (
        foldl-reach_one-Partial c (nbr c) t
          (All-map (λ x k. Reach.follows c x rc k) (nbr c) (all_elem (nbr c)))
          (popped s c stack e f))

  -- The loop ends with an empty stack.
  pub sweep-Full :
      (fuel : ℕ) (s : Sweep)
      → measure s ≤ fuel
      → Full s
      → Full (sweep nbr fuel s) × ((sweep nbr fuel s).stack ≡ [])
  unfolding sweep
  sweep-Full zero s le f = (f, none_left s.stack (omega arith))
    where
      none_left : (cs : List ℕ) → length cs ≤ 0 → cs ≡ []
      none_left [] h = refl
      none_left (c ∷ cs) h = absurd (omega arith)
  sweep-Full (suc fuel) s le f = elim (List-cases s.stack) [
    | inl e ↦ rw (sweep, e) (f, e)
    | inr (c, stack, e) ↦
        let t : Sweep = record s { stack = stack } in
        let fewer = foldl-reach_one-measure (nbr c) t in
        rw (sweep, e)
          (sweep-Full fuel (foldl reach_one t (nbr c))
            (omega (arith, le, fewer, ap (length {A = ℕ}) e)) (round-Full s c stack e f))
  ]
