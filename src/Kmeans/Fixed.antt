-- ===== src/Kmeans/Fixed.antt =====
-- `fix_empty` of kmeans.py ends, without an error, with no empty center.
use vector_retrieval_optimiz.Prelude.{
  ℕ, suc, ◌-◌, ◌≤◌, ◌<◌, ◌≡◌, ◌≢◌, ◌∙◌, sym, ap, List, [], ◌∷◌, ◌==◌, some, length, length-set,
  get_or, get_or-set_self, get_or-set_ne, set, All, arith, Bool-cases, Option-cases, inl, inr,
  dec_lt,
}
use vector_retrieval_optimiz.Kmeans.{Fix, seek}
use vector_retrieval_optimiz.Kmeans.Counts.{times, times-set, times-label, times-find, pigeonhole}
use vector_retrieval_optimiz.Kmeans.Moves.{seek-none, IsSought, IsFix}

points-All :
    (k : ℕ) (labels : List ℕ)
    → ((p : ℕ) → p < length labels → get_or labels p 0 < k)
    → All (λ l. l < k) labels
points-All k [] h = tt
points-All k (l ∷ labels) h =
    (h 0 (omega arith), points-All k labels (λ p l'. h (suc p) (omega arith)))

-- What a move to the empty center c changes in the clusters.
pub record Moved (c : ℕ) (before after : List ℕ) : Type 0 where
  pub filled : times c after ≡ 1
  pub used : (x : ℕ) → 1 ≤ times x before → 1 ≤ times x after
  pub empty : (x : ℕ) → x ≢ c → times x before ≡ 0 → times x after ≡ 0

pub move-Moved :
    (labels : List ℕ) (c p : ℕ)
    → p < length labels
    → times c labels ≡ 0
    → 2 ≤ times (get_or labels p 0) labels
    → Moved c labels (set labels p c)
move-Moved labels c p l e company =
    let old = get_or labels p 0 in
    let change = λ (x : ℕ). times-set x c p labels l in
    record {
      filled = elim (Bool-cases (old == c)) [
        | inl same ↦
            let eq : old ≡ c = ground arith in
            absurd (omega (arith, ap (λ (i : ℕ). times i labels) eq))
        | inr other ↦ ground (arith, change c, other, e)
      ];
      used = λ x h. elim (Bool-cases (old == x)) [
        | inl same ↦
            let eq : old ≡ x = ground arith in
            ground (arith, change x, same, ap (λ (i : ℕ). times i labels) eq)
        | inr other ↦ ground (arith, change x, other, h)
      ];
      empty = λ x ne h. elim (Bool-cases (c == x)) [
        | inl same ↦ absurd (ne (ground arith))
        | inr other ↦ ground (arith, change x, other, h)
      ];
    }

still_alone :
    (labels : List ℕ) (c p x : ℕ)
    → p < length labels
    → times c labels ≡ 0
    → 1 ≤ times x labels
    → times x labels ≤ 1
    → times x (set labels p c) ≤ 1
still_alone labels c p x lp e some_point few = elim (Bool-cases (c == x)) [
  | inl same ↦
      let eq : c ≡ x = ground arith in absurd (omega (arith, ap (λ (i : ℕ). times i labels) eq))
  | inr other ↦ ground (arith, times-set x c p labels lp, other)
]

counts-move :
    (k : ℕ) (counts labels : List ℕ) (c p x : ℕ)
    → let old = get_or labels p 0 in
      length counts ≡ k
      → ((x : ℕ) → x < k → get_or counts x 0 ≡ times x labels)
      → p < length labels
      → old < k
      → c < k
      → old ≢ c
      → times c labels ≡ 0
      → x < k
      → get_or (set (set counts old (get_or counts old 0 - 1)) c 1) x 0 ≡ times x (set labels p c)
counts-move k counts labels c p x size eqs lp lo lc apart e lx =
    let old = get_or labels p 0 in
    let less = set counts old (get_or counts old 0 - 1) in
    let change = times-set x c p labels lp in
    elim (Bool-cases (c == x)) [
      | inl here ↦
          let eq : c ≡ x = ground arith in
          let one : get_or (set less c 1) x 0 ≡ 1 =
            ap (λ (i : ℕ). get_or (set less c 1) i 0) (sym eq)
            ∙ get_or-set_self less c 1 0
                (omega (arith, length-set counts old (get_or counts old 0 - 1))) in
          one ∙ ground (arith, change, here, eq, apart, e, ap (λ (i : ℕ). times i labels) eq)
      | inr other ↦ get_or-set_ne less c x 1 0 (λ eq. ground arith) ∙ elim (Bool-cases (old == x)) [
        | inl same ↦
            let eq : old ≡ x = ground arith in
            let dropped : get_or less x 0 ≡ get_or counts old 0 - 1 =
              ap (λ (i : ℕ). get_or less i 0) (sym eq)
              ∙ get_or-set_self counts old (get_or counts old 0 - 1) 0 (omega arith) in
            dropped
            ∙ ground (arith, change, other, same, eqs old lo, ap (λ (i : ℕ). times i labels) eq)
        | inr stays ↦
            get_or-set_ne counts old x (get_or counts old 0 - 1) 0 (λ eq. ground arith)
            ∙ ground (arith, change, other, stays, eqs x lx)
      ]
    ]

module _ {V : Type 0} (k n : ℕ) (le : k ≤ n) where
  -- The search finds a point, as long as a center is empty.
  pub seek-finds :
      (s : Fix V) (c : ℕ)
      → IsFix k n s
      → c < k
      → times c s.labels ≡ 0
      → (p : ℕ) × (rest : List ℕ) × (seek s.counts s.labels s.order ≡ some (p, rest))
  seek-finds s c f l e = elim (Option-cases (seek s.counts s.labels s.order)) [
    | inr ((p, rest), found) ↦ (p, rest, found)
    | inl nothing ↦
        let alone : (q : ℕ) → q < n → times (get_or s.labels q 0) s.labels ≤ 1 = λ q lq.
          elim (f.rest q lq) [
            | inl listed ↦ omega (
              arith,
              seek-none s.counts s.labels s.order nothing q listed,
              f.counts_eq (get_or s.labels q 0) (f.below q lq),
            )
            | inr few ↦ few
          ] in
        absurd (
          pigeonhole k c s.labels
            (points-All k s.labels (λ p lp. f.below p (omega (arith, lp, f.points))))
            (omega (arith, f.points)) l e
            (λ x. at_most s.labels x (λ q lq. alone q (omega (arith, lq, f.points)))))
  ]
    where
      at_most :
          (labels : List ℕ) (x : ℕ)
          → ((q : ℕ) → q < length labels → times (get_or labels q 0) labels ≤ 1)
          → times x labels ≤ 1
      at_most labels x alone = elim (dec_lt 0 (times x labels)) [
        | yes used ↦
            let (p, lp, same) = times-find x labels (omega arith) in
            omega (arith, alone p lp, ap (λ (i : ℕ). times i labels) same)
        | no unused ↦ omega arith
      ]

  -- The record after a move.
  pub move-IsFix :
      (s : Fix V) (c p : ℕ) (rest : List ℕ) (centers : List V)
      → IsFix k n s
      → c < k
      → times c s.labels ≡ 0
      → IsSought s.counts s.labels s.order p rest
      → let old = get_or s.labels p 0 in
        IsFix k n (record {
          counts = set (set s.counts old (get_or s.counts old 0 - 1)) c 1;
          labels = set s.labels p c;
          centers = centers;
          order = rest;
        })
  move-IsFix s c p rest centers f l e sought =
      let old = get_or s.labels p 0 in
      let lp : p < length s.labels = omega (arith, f.in_range p sought.listed, f.points) in
      let lo : old < k = f.below p (f.in_range p sought.listed) in
      let company : 2 ≤ times old s.labels = omega (arith, sought.company, f.counts_eq old lo) in
      let change = λ (x : ℕ). times-set x c p s.labels lp in
      let alone : (q : ℕ)
          → q < n
          → q ≢ p
          → times (get_or s.labels q 0) s.labels ≤ 1
          → times (get_or (set s.labels p c) q 0) (set s.labels p c) ≤ 1 =
        λ q lq ne few. rw (get_or-set_ne s.labels p q c 0 (λ eq. ne (sym eq))) (
          still_alone s.labels c p (get_or s.labels q 0) lp e
            (times-label s.labels q (omega (arith, lq, f.points))) few) in
      let apart : old ≢ c = λ eq. omega (arith, ap (λ (i : ℕ). times i s.labels) eq, e, company) in
      record {
        points = length-set s.labels p c ∙ f.points;
        below = λ q lq. elim (Bool-cases (p == q)) [
          | inl same ↦
              let eq : p ≡ q = ground arith in
              rw (← eq) (omega (arith, l, get_or-set_self s.labels p c 0 lp))
          | inr other ↦
              omega (arith, f.below q lq, get_or-set_ne s.labels p q c 0 (λ eq. ground arith))
        ];
        counted =
            length-set (set s.counts old (get_or s.counts old 0 - 1)) c 1
            ∙ length-set s.counts old (get_or s.counts old 0 - 1)
            ∙ f.counted;
        counts_eq =
            λ x lx. counts-move k s.counts s.labels c p x f.counted f.counts_eq lp lo l apart e lx;
        in_range = λ q m. f.in_range q (sought.inner q m);
        rest = λ q lq. elim (Bool-cases (p == q)) [
          | inl same ↦
              let eq : p ≡ q = ground arith in
              inr (
                rw (← eq, get_or-set_self s.labels p c 0 lp)
                  (omega (arith, (move-Moved s.labels c p lp e company).filled)))
          | inr other ↦
              let ne : q ≢ p = λ eq. ground arith in
              elim (f.rest q lq) [
                | inl listed ↦ elim (sought.passed q listed) [
                  | inl same ↦ absurd (ne same)
                  | inr (inl later) ↦ inl later
                  | inr (inr few) ↦ inr (
                      alone q lq ne
                        (omega (arith, few, f.counts_eq (get_or s.labels q 0) (f.below q lq))))
                ]
                | inr few ↦ inr (alone q lq ne few)
              ]
        ];
      }
