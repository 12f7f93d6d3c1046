-- ===== src/Hnsw/Select/Picks.antt =====
-- What `select` chooses: at most the limit, only candidates, spread out, protected ones kept.
use vector_retrieval_optimiz.Prelude.{
  ℕ, ◌≤◌, ◌<◌, ◌≡◌, ap, Bool, true, false, not, List, [], ◌∷◌, ◌++◌, map, some, leb, length,
  length-append, length-map, get_or, filter, elem, All, All-map, All-append, All-filter, ◌||◌,
  arith, Bool-cases, inl, inr,
}
use vector_retrieval_optimiz.Prelude.Sorting.{sort_by, All-sort_by}
use vector_retrieval_optimiz.Numpy.{Numpy, Score, Hit, better}
use vector_retrieval_optimiz.Hnsw.Select.{
  Scored, plain, protected_row, reaches, ordered, pruned_by, pick, select,
}

All-of_map {ℓ} :
    {A : Type ℓ} {B : Type ℓ} (P : B → Type 0) (f : A → B) (xs : List A)
    → All (λ x. P (f x)) xs
    → All P (map f xs)
All-of_map P f [] h = tt
All-of_map P f (x ∷ xs) h = (h.0, All-of_map P f xs h.1)

-- what holds of the rows of all hits holds of the rows of the ordered candidates
All-ordered :
    (P : ℕ → Type 0) (scored : List Hit) (keep : List ℕ)
    → All (λ (h : Hit). P h.row) scored
    → All (λ (c : Scored). P c.row) (ordered scored keep)
unfolding ordered
All-ordered P scored keep h =
    let sorted = sort_by better scored in
    let all = All-sort_by better (λ (h : Hit). P h.row) scored h in
    All-append (λ (c : Scored). P c.row) _ _
      (All-of_map (λ (c : Scored). P c.row) protected_row _
        (All-filter (λ (h : Hit). P h.row) (λ h. elem h.row keep) sorted all))
      (All-of_map (λ (c : Scored). P c.row) plain _
        (All-filter (λ (h : Hit). P h.row) (λ h. not (elem h.row keep)) sorted all))

none_protected :
    (P : Scored → Type 0) (hs : List Hit)
    → All P (map protected_row (filter (λ h. elem h.row []) hs))
none_protected P [] = tt
none_protected P (h ∷ hs) = none_protected P hs

-- the candidates without protected rows
All-unprotected :
    (P : Scored → Type 0) (scored : List Hit)
    → All (λ (h : Hit). P (plain h)) scored
    → All P (ordered scored [])
unfolding ordered
All-unprotected P scored h =
    let sorted = sort_by better scored in
    All-append P _ _ (none_protected P sorted) (
      All-of_map P plain _ (
        All-filter (λ (h : Hit). P (plain h)) (λ h. not (elem h.row [])) sorted
          (All-sort_by better (λ (h : Hit). P (plain h)) scored h)))

module _ (np : Numpy) (v : List np.Vec) where
  All-pick :
      (P : ℕ → Type 0) (limit : ℕ) (cs : List Scored) (out : List ℕ)
      → All (λ (c : Scored). P c.row) cs
      → All P out
      → All P (pick np v limit cs out)
  unfolding pick
  All-pick P limit [] out h k = k
  All-pick P limit (c ∷ cs) out h k =
      elim (leb limit (length out))
        as (λ b. All P (elim b [
          | true ↦ out
          | false ↦ elim (pruned_by np v out c) [
            | true ↦ pick np v limit cs out
            | false ↦ pick np v limit cs (out ++ c.row ∷ [])
          ]
        ])) [
          | true ↦ k
          | false ↦
              elim (pruned_by np v out c)
                as (λ b. All P (elim b [
                  | true ↦ pick np v limit cs out
                  | false ↦ pick np v limit cs (out ++ c.row ∷ [])
                ])) [
                  | true ↦ All-pick P limit cs out h.1 k
                  | false ↦
                      All-pick P limit cs (out ++ c.row ∷ []) h.1
                        (All-append P out (c.row ∷ []) k (h.0, tt))
                ]
        ]

  length-pick :
      (limit : ℕ) (cs : List Scored) (out : List ℕ)
      → length out ≤ limit
      → length (pick np v limit cs out) ≤ limit
  unfolding pick
  length-pick limit [] out h = h
  length-pick limit (c ∷ cs) out h = ground (
    arith,
    length-append out (c.row ∷ []),
    length-pick limit cs out,
    length-pick limit cs (out ++ c.row ∷ []),
  )

  -- each row is closer to the base, by the score sc, than to every row in front of it
  abbrev pub IsSpread : (ℕ → Score) → List ℕ → Type 0
  IsSpread sc [] = Unit
  IsSpread sc (r ∷ rest) =
      All (λ e. np.dot (get_or v e np.zero_vec) (get_or v r np.zero_vec) < sc e) rest
      × IsSpread sc rest

  IsSpread-append :
      (sc : ℕ → Score) (out : List ℕ) (e : ℕ)
      → IsSpread sc out
      → All (λ r. np.dot (get_or v e np.zero_vec) (get_or v r np.zero_vec) < sc e) out
      → IsSpread sc (out ++ e ∷ [])
  IsSpread-append sc [] e h k = (tt, tt)
  IsSpread-append sc (r ∷ rest) e h k =
      (All-append _ rest (e ∷ []) h.0 (k.0, tt), IsSpread-append sc rest e h.1 k.1)

  -- a candidate whose base score is the score of its row
  abbrev HasScore : (ℕ → Score) → Scored → Type 0
  HasScore sc c = c.base ≡ some (sc c.row)

  not_pruned :
      (sc : ℕ → Score) (c : Scored) (out : List ℕ)
      → HasScore sc c
      → pruned_by np v out c ≡ false
      → All (λ r. np.dot (get_or v c.row np.zero_vec) (get_or v r np.zero_vec) < sc c.row) out
  unfolding pruned_by
  not_pruned sc c [] e h = tt
  not_pruned sc c (r ∷ out) e h =
      let d = np.dot (get_or v c.row np.zero_vec) (get_or v r np.zero_vec) in
      let both = or_false (reaches d c.base) (pruned_by np v out c) h in
      let here : reaches d c.base ≡ false = both.0 in
      (not_reached d (sc c.row) (rw e at here), not_pruned sc c out e both.1)
    where
      or_false : (a b : Bool) → (a || b) ≡ false → (a ≡ false) × (b ≡ false)
      or_false a b k = ground arith

      not_reached : (d s : ℕ) → reaches d (some s) ≡ false → d < s
      not_reached d s k = ground arith

  IsSpread-pick :
      (sc : ℕ → Score) (limit : ℕ) (cs : List Scored) (out : List ℕ)
      → All (HasScore sc) cs
      → IsSpread sc out
      → IsSpread sc (pick np v limit cs out)
  unfolding pick
  IsSpread-pick sc limit [] out h k = k
  IsSpread-pick sc limit (c ∷ cs) out h k = elim (Bool-cases (leb limit (length out))) [
    | inl full ↦ rw (pick, full) k
    | inr room ↦ elim (Bool-cases (pruned_by np v out c)) [
      | inl pruned ↦ rw (pick, room, pruned) (IsSpread-pick sc limit cs out h.1 k)
      | inr kept ↦
          rw (pick, room, kept)
            (IsSpread-pick sc limit cs (out ++ c.row ∷ []) h.1
              (IsSpread-append sc out c.row k (not_pruned sc c out h.0 kept)))
    ]
  ]

  -- The selection holds at most the limit, for a limit of at least one, and only candidates.
  pub select_bounds :
      (P : ℕ → Type 0) (scored : List Hit) (limit : ℕ) (keep : List ℕ)
      → 1 ≤ limit
      → All (λ (h : Hit). P h.row) scored
      → (length (select np v scored limit keep) ≤ limit) × All P (select np v scored limit keep)
  unfolding select
  select_bounds P scored limit keep h all =
      let cs = ordered scored keep in
      let rows = All-ordered P scored keep all in
      elim (Bool-cases (leb (length cs) 1)) [
        | inl few ↦ rw few (
          omega (arith, length-map (λ (c : Scored). c.row) cs, few_lem (length cs) few),
          All-of_map P (λ (c : Scored). c.row) cs rows,
        )
        | inr many ↦ rw many (length-pick limit cs [] (omega arith), All-pick P limit cs [] rows tt)
      ]
    where
      few_lem : (n : ℕ) → leb n 1 ≡ true → n ≤ 1
      few_lem n e = ground arith

  -- The selection from candidates with the scores sc to the base is spread out: each selected row is
  -- strictly closer to the base than to every row that was selected before it.
  pub select-IsSpread :
      (sc : ℕ → Score) (scored : List Hit) (limit : ℕ)
      → All (λ (h : Hit). h.score ≡ sc h.row) scored
      → IsSpread sc (select np v scored limit [])
  unfolding select
  select-IsSpread sc scored limit all =
      let cs = ordered scored [] in
      let has : All (HasScore sc) cs =
        All-unprotected (HasScore sc) scored (All-map (λ h e. ap some e) scored all) in
      elim (Bool-cases (leb (length cs) 1)) [
        | inl few ↦ rw few (IsSpread_few cs few)
        | inr many ↦ rw many (IsSpread-pick sc limit cs [] has tt)
      ]
    where
      IsSpread_few :
          (cs : List Scored)
          → leb (length cs) 1 ≡ true
          → IsSpread sc (map (λ (c : Scored). c.row) cs)
      IsSpread_few [] e = tt
      IsSpread_few (c ∷ []) e = (tt, tt)
      IsSpread_few (c ∷ d ∷ cs) e = absurd (ground arith)
