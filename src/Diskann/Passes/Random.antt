-- ===== src/Diskann/Passes/Random.antt =====
-- The random first graph of diskann.py, and the graph that both passes make of it.
use mathlib.Core.Path.{subst}
use vector_retrieval_optimiz.Prelude.{
  ℕ, zero, suc, ◌+◌, ◌-◌, ◌≤◌, ◌<◌, ◌≡◌, ◌≢◌, refl, ◌∙◌, sym, false, List, [], ◌∷◌, ◌++◌, some, leb,
  length, length-append, length-replicate, get_or, replicate, elem, min, All, All-append, ==_iff,
  Bool-cases, Option-cases, inl, inr, arith, if◌then◌else◌,
}
use vector_retrieval_optimiz.Prelude.Ranges.{Nodup}
use vector_retrieval_optimiz.Prelude.Distinct.{AllIn-ne, AllIn_self, Nodup-append_one}
use vector_retrieval_optimiz.Splitmix.{Rng, new, next_below}
use vector_retrieval_optimiz.Splitmix.Bounds.{next-in_range}
use vector_retrieval_optimiz.Diskann.{Slots, filled, draw_edges, init_rows, init_graph}
use vector_retrieval_optimiz.Diskann.Passes.Bounded.{IsBounded}

module _ (n : ℕ) (pos : 0 < n) where
  -- at most deg edges of the row i
  abbrev IsDrawn : ℕ → ℕ → List ℕ → Type 0
  IsDrawn deg i out = (length out ≤ deg) × All (λ c. c < n) out × All (λ c. c ≢ i) out × Nodup out

  more-IsDrawn :
      (deg i j : ℕ) (out : List ℕ)
      → j < n
      → leb deg (length out) ≡ false
      → IsDrawn deg i out
      → IsDrawn deg i (if elem j (i ∷ out) then out else out ++ j ∷ [])
  more-IsDrawn deg i j out lt space w = elim (Bool-cases (elem j (i ∷ out))) [
    | inl old ↦ rw old w
    | inr new ↦
        let other : j ≢ i = λ e. let same = (==_iff i j).1 (sym e) in cc in
        let fresh : elem j out ≡ false = ground arith in
        rw new (
          ground (arith, length-append out (j ∷ [])),
          All-append (λ c. c < n) out (j ∷ []) w.1 (lt, tt),
          All-append (λ c. c ≢ i) out (j ∷ []) w.2 (other, tt),
          Nodup-append_one j out w.3 (AllIn-ne j out out (AllIn_self out) fresh),
        )
  ]

  draw_edges-IsDrawn :
      (draws deg i : ℕ) (rng rng' : Rng) (out out' : List ℕ)
      → IsDrawn deg i out
      → draw_edges draws n deg i rng out ≡ some (rng', out')
      → (length out' ≡ deg) × IsDrawn deg i out'
  unfolding draw_edges
  draw_edges-IsDrawn zero deg i rng rng' out out' w e = elim (Bool-cases (leb deg (length out))) [
    | inl full ↦
        let same : out ≡ out' = ground (arith, full) in
        subst (λ xs. (length xs ≡ deg) × IsDrawn deg i xs) same (ground (arith, w.0), w)
    | inr space ↦ absurd (ground (arith, space))
  ]
  draw_edges-IsDrawn (suc draws) deg i rng rng' out out' w e =
      elim (Bool-cases (leb deg (length out))) [
        | inl full ↦
            let same : out ≡ out' = ground (arith, full) in
            subst (λ xs. (length xs ≡ deg) × IsDrawn deg i xs) same (ground (arith, w.0), w)
        | inr space ↦
            let j = (next_below rng n).1 in
            draw_edges-IsDrawn draws deg i (next_below rng n).0 rng'
              (if elem j (i ∷ out) then out else out ++ j ∷ []) out'
              (more-IsDrawn deg i j out (next-in_range rng n pos).2 space w) (rw space at e)
      ]

  -- one row of the first graph
  abbrev IsFirstRow : ℕ → ℕ → ℕ → Slots → Type 0
  IsFirstRow r deg i row =
      (ids : List ℕ) × (row ≡ filled (suc r) ids) × (length ids ≡ deg) × IsDrawn deg i ids

  init_rows-IsFirstRow :
      (draws r deg i rows : ℕ) (rng : Rng) (edges : List Slots)
      → init_rows draws n r deg i rows rng ≡ some edges
      → (length edges ≡ rows) × ((k : ℕ) → k < rows → IsFirstRow r deg (i + k) (get_or edges k []))
  unfolding init_rows
  init_rows-IsFirstRow draws r deg i zero rng edges e =
      let same : [] ≡ edges = cc in
      (subst (λ (xs : List Slots). length xs ≡ 0) same refl, λ k h. absurd (omega arith))
  init_rows-IsFirstRow draws r deg i (suc rows) rng edges e =
      elim (Option-cases (draw_edges draws n deg i rng [])) [
        | inl out_of_draws ↦ absurd (let e' = rw (init_rows, out_of_draws) at e in cc)
        | inr ((rng', out), drawn) ↦
            elim (Option-cases (init_rows draws n r deg (suc i) rows rng')) [
              | inl out_of_draws ↦ absurd (let e' = rw (init_rows, drawn, out_of_draws) at e in cc)
              | inr (rest, made) ↦
                  let same : filled (suc r) out ∷ rest ≡ edges =
                    let e' = rw (init_rows, drawn, made) at e in cc in
                  let ih = init_rows-IsFirstRow draws r deg (suc i) rows rng' rest made in
                  let here =
                    draw_edges-IsDrawn draws deg i rng rng' [] out (omega arith, tt, tt, tt)
                      drawn in
                  subst
                    (λ (xs : List Slots).
                      (length xs ≡ suc rows)
                      × ((k : ℕ) → k < suc rows → IsFirstRow r deg (i + k) (get_or xs k [])))
                    same (omega (arith, ih.0), at_row out rest here ih.1)
            ]
      ]
    where
      at_row :
          (out : List ℕ) (rest : List Slots)
          → (length out ≡ deg) × IsDrawn deg i out
          → ((k : ℕ) → k < rows → IsFirstRow r deg (suc i + k) (get_or rest k []))
          → (k : ℕ) → k < suc rows
          → IsFirstRow r deg (i + k) (get_or (filled (suc r) out ∷ rest) k [])
      at_row out rest here later zero h =
          subst (λ (x : ℕ). IsFirstRow r deg x (filled (suc r) out)) {x = i} {y = i + 0}
            (omega arith) (out, refl, here.0, here.1)
      at_row out rest here later (suc k) h =
          subst (λ (x : ℕ). IsFirstRow r deg x (get_or rest k [])) {x = suc i + k} {y = i + suc k}
            (omega arith) (later k (omega arith))

  get_or-replicate : (k j x : ℕ) → j < k → get_or (replicate k x) j 0 ≡ x
  get_or-replicate zero j x h = absurd (omega arith)
  get_or-replicate (suc k) zero x h = refl
  get_or-replicate (suc k) (suc j) x h = get_or-replicate k j x (omega arith)

  -- If the draws last, the random first graph has min(r, n - 1) edges in each row, to other rows, each
  -- once.
  pub init_graph-IsBounded :
      (draws r seed gen : ℕ) (mark : List ℕ) (edges : List Slots) (counts : List ℕ)
      → init_graph draws n r seed ≡ some (edges, counts)
      → IsBounded n r (record { edges = edges; counts = counts; mark = mark; gen = gen })
  unfolding init_graph
  init_graph-IsBounded draws r seed gen mark edges counts e =
      let deg = min r (n - 1) in
      elim (Option-cases (init_rows draws n r deg 0 n (new seed))) [
        | inl out_of_draws ↦ absurd (let e' = rw (init_graph, out_of_draws) at e in cc)
        | inr (made, drawn) ↦
            let e' = rw (init_graph, drawn) at e in
            let same : made ≡ edges = cc in
            let same_counts : replicate n deg ≡ counts = cc in
            let rows = init_rows-IsFirstRow draws r deg 0 n (new seed) made drawn in
            subst
              (λ (cs : List ℕ).
                IsBounded n r (record { edges = edges; counts = cs; mark = mark; gen = gen }))
              same_counts
              (subst
                (λ (es : List Slots).
                  IsBounded n r
                    (record { edges = es; counts = replicate n deg; mark = mark; gen = gen }))
                same (bounded deg (omega arith) made rows.0 rows.1))
      ]
    where
      bounded :
          (deg : ℕ)
          → deg ≤ r
          → (es : List Slots) → length es ≡ n
          → ((k : ℕ) → k < n → IsFirstRow r deg (0 + k) (get_or es k []))
          → IsBounded n r (record { edges = es; counts = replicate n deg; mark = mark; gen = gen })
      bounded deg le es size rows = record {
        edges_size = size;
        counts_size = length-replicate n deg;
        rows = λ j hj.
            let row = rows j hj in
            let zero_j : 0 + j ≡ j = omega arith in
            record {
              ids = row.0;
              slots_eq = row.1;
              count_eq = get_or-replicate n j deg hj ∙ sym row.2;
              few = omega (arith, row.2);
              below = row.3.1;
              apart = subst (λ (x : ℕ). All (λ c. c ≢ x) row.0) zero_j row.3.2;
              once = row.3.3;
            };
      }
