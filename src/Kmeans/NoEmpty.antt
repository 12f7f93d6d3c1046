-- ===== src/Kmeans/NoEmpty.antt =====
-- `fix_empty` of kmeans.py: it raises no error and leaves no center without points.
use vector_retrieval_optimiz.Prelude.{
  ℕ, zero, suc, ◌+◌, ◌-◌, ◌≤◌, ◌<◌, ◌≡◌, ◌≢◌, ◌⊎◌, refl, ◌∙◌, sym, ap, Bool, true, false, ◌||◌,
  List, [], ◌∷◌, ◌==◌, ok, map, length, length-map, get_or, set, filter, All, arith, Bool-cases,
  inl, inr, elem, range_from,
}
use vector_retrieval_optimiz.Prelude.Arrays.{
  bincount_from, flatnonzero, flatnonzero_from-filter, get_or-map,
}
use vector_retrieval_optimiz.Prelude.Sorting.{insert_by, sort_by}
use vector_retrieval_optimiz.Prelude.Ranges.{
  Nodup, Nodup-filter, range_from-Nodup, range_from-bound, elem-filter, elem-range_from,
}
use vector_retrieval_optimiz.Numpy.{Numpy, Score, label_lt}
use vector_retrieval_optimiz.Kmeans.{Arith, Fix, row_at, fix_one, fix_all, fix_empty}
use vector_retrieval_optimiz.Kmeans.Counts.{times, length-bincount_from, get_or-bincount_from}
use vector_retrieval_optimiz.Kmeans.Moves.{IsFix, seek-some}
use vector_retrieval_optimiz.Kmeans.Fixed.{Moved, move-Moved, move-IsFix, seek-finds}

elem-insert_by :
    (lt : ℕ → ℕ → Bool) (q x : ℕ) (ys : List ℕ) → elem q (insert_by lt x ys) ≡ (x == q || elem q ys)
unfolding insert_by
elem-insert_by lt q x [] = refl
elem-insert_by lt q x (y ∷ ys) = ground (arith, elem-insert_by lt q x ys)

elem-sort_by : (lt : ℕ → ℕ → Bool) (q : ℕ) (xs : List ℕ) → elem q (sort_by lt xs) ≡ elem q xs
unfolding sort_by
elem-sort_by lt q [] = refl
elem-sort_by lt q (x ∷ xs) =
    elem-insert_by lt q x (sort_by lt xs) ∙ ap (λ (b : Bool). x == q || b) (elem-sort_by lt q xs)

elem-range_from-lt : (q a n : ℕ) → elem q (range_from a n) ≡ true → q < a + n
elem-range_from-lt q a zero h = cc
elem-range_from-lt q a (suc n) h = elim (Bool-cases (a == q)) [
  | inl same ↦ ground arith
  | inr other ↦ omega (arith, elem-range_from-lt q (suc a) n (ground (arith, h, other)))
]

row_at-get_or :
    {V : Type 0} (xs : List V) (p : ℕ) (d : V) → p < length xs → row_at xs p ≡ ok (get_or xs p d)
unfolding row_at
row_at-get_or [] p d h = absurd (omega arith)
row_at-get_or (x ∷ xs) zero d h = refl
row_at-get_or (x ∷ xs) (suc p) d h = row_at-get_or xs p d (omega arith)

module _ {V : Type 0} (k n : ℕ) (le : k ≤ n) (zero_row : V) (train : List V)
    (points : length train ≡ n) where
  -- the centers that are still to be filled
  abbrev AllEmpty : List ℕ → List ℕ → Type 0
  AllEmpty labels cs = All (λ c. (c < k) × (times c labels ≡ 0)) cs

  still_empty :
      (c : ℕ) (before after cs : List ℕ)
      → Moved c before after
      → All (λ x. c ≢ x) cs
      → AllEmpty before cs
      → AllEmpty after cs
  still_empty c before after [] m ne a = tt
  still_empty c before after (x ∷ cs) m ne a =
      ((a.0.0, m.empty x (λ e. ne.0 (sym e)) a.0.1), still_empty c before after cs m ne.1 a.1)

  fix_all-filled :
      (cs : List ℕ) (s : Fix V)
      → IsFix k n s
      → AllEmpty s.labels cs
      → Nodup cs
      → (end : Fix V) × (fix_all train cs s ≡ ok end)
        × IsFix k n end
        × ((x : ℕ) → (1 ≤ times x s.labels) ⊎ (elem x cs ≡ true) → 1 ≤ times x end.labels)
  unfolding fix_all fix_one
  fix_all-filled [] s f a d = (s, refl, f, λ x h. elim h [ inl used ↦ used | inr none_left ↦ cc ])
  fix_all-filled (c ∷ cs) s f a d =
      let (p, rest, found) = seek-finds k n le s c f a.0.0 a.0.1 in
      let sought = seek-some s.counts s.labels s.order p rest found in
      let old = get_or s.labels p 0 in
      let lp = f.in_range p sought.listed in
      let company : 2 ≤ times old s.labels =
        omega (arith, sought.company, f.counts_eq old (f.below p lp)) in
      let moved = move-Moved s.labels c p (omega (arith, lp, f.points)) a.0.1 company in
      let s' : Fix V = record {
        counts = set (set s.counts old (get_or s.counts old 0 - 1)) c 1;
        labels = set s.labels p c;
        centers = set s.centers c (get_or train p zero_row);
        order = rest;
      } in
      let one : fix_one train s c ≡ ok s' =
        rw (fix_one, found, row_at-get_or train p zero_row (omega (arith, lp, points))) refl in
      let (end, done, fixed, filled) =
        fix_all-filled cs s'
          (move-IsFix k n le s c p rest (set s.centers c (get_or train p zero_row)) f a.0.0 a.0.1
            sought)
          (still_empty c s.labels (set s.labels p c) cs moved d.0 a.1) d.1 in
      (
        end,
        rw one done,
        fixed,
        λ x h. elim h [
          | inl used ↦ filled x (inl (moved.used x used))
          | inr listed ↦ elim (Bool-cases (c == x)) [
            | inl same ↦
                let eq : c ≡ x = ground arith in
                filled x (inl (rw (← eq) (omega (arith, moved.filled))))
            | inr other ↦ filled x (inr (ground (arith, listed, other)))
          ]
        ],
      )

-- the centers that no point has, in order
empty_centers :
    (k : ℕ) (labels : List ℕ)
    → flatnonzero (map (λ n. n == 0) (bincount_from 0 k labels))
      ≡ filter (λ c. times c labels == 0) (range_from 0 k)
empty_centers k labels =
    let counts = bincount_from 0 k labels in
    flatnonzero_from-filter 0 (map (λ n. n == 0) counts) (λ c. times c labels == 0)
      (λ j l.
        let lj : j < length counts = omega (arith, l, length-map (λ n. n == 0) counts) in
        get_or-map (λ n. n == 0) counts j 0 false lj
        ∙ ap (λ (n : ℕ). n == 0)
            (get_or-bincount_from 0 k labels j
              (omega (arith, lj, length-bincount_from 0 k labels))))
    ∙ ap (λ (n : ℕ). filter (λ c. times c labels == 0) (range_from 0 n))
        (length-map (λ n. n == 0) counts ∙ length-bincount_from 0 k labels)

module _ (np : Numpy) (arith_ops : Arith np) (train centers : List np.Vec) (labels : List ℕ)
    (fit : List Score) where
  -- With at least as many points as centers, and a label of a center and a fit for each point, `fix_empty`
  -- returns, every label is still that of a center, and every center has a point.
  pub fix_empty-filled :
      length centers ≤ length labels
      → length train ≡ length labels
      → length fit ≡ length labels
      → ((p : ℕ) → p < length labels → get_or labels p 0 < length centers)
      → (end : Fix np.Vec) × (fix_empty np arith_ops train centers labels fit ≡ ok end)
        × (length end.labels ≡ length labels)
        × ((p : ℕ) → p < length labels → get_or end.labels p 0 < length centers)
        × ((c : ℕ) → c < length centers → 1 ≤ times c end.labels)
  unfolding fix_empty
  fix_empty-filled le points same_length below =
      let k = length centers in
      let n = length labels in
      let counts = bincount_from 0 k labels in
      let first : Fix np.Vec = record {
        counts = counts;
        labels = labels;
        centers = centers;
        order = np.argsort fit;
      } in
      let ordered : (q : ℕ) → elem q (np.argsort fit) ≡ elem q (range_from 0 n) = λ q.
        ap (elem q) (np.argsort-sorts fit)
        ∙ elem-sort_by (label_lt fit) q (range_from 0 (length fit))
        ∙ ap (λ (i : ℕ). elem q (range_from 0 i)) same_length in
      let fixable : IsFix k n first = record {
        points = refl;
        below = below;
        counted = length-bincount_from 0 k labels;
        counts_eq = λ x lx.
            get_or-bincount_from 0 k labels x lx
            ∙ ap (λ (i : ℕ). times i labels) {x = 0 + x} {y = x} (omega arith);
        in_range = λ q m. omega (arith, elem-range_from-lt q 0 n (sym (ordered q) ∙ m));
        rest = λ q lq. inl (ordered q ∙ elem-range_from q 0 n (omega arith) (omega arith));
      } in
      let is_empty : ℕ → Bool = λ c. times c labels == 0 in
      let (end, done, fixed, filled) =
        fix_all-filled k n le np.zero_vec train points (filter is_empty (range_from 0 k)) first
          fixable (All-both (λ c. c < k) (range_from 0 k) (range_from-bound 0 k k (omega arith)))
          (Nodup-filter is_empty (range_from 0 k) (range_from-Nodup 0 k)) in
      (
        end,
        rw (empty_centers k labels) done,
        fixed.points,
        fixed.below,
        λ c lc. filled c (elim (Bool-cases (is_empty c)) [
          | inl none_yet ↦ inr (
              elem-filter is_empty c (range_from 0 k)
              ∙ ground (arith, elem-range_from c 0 k (omega arith) (omega arith), none_yet))
          | inr some_point ↦ inl (ground arith)
        ]),
      )
    where
      All-both :
          (P : ℕ → Type 0) (xs : List ℕ)
          → All P xs
          → All (λ c. P c × (times c labels ≡ 0)) (filter (λ c. times c labels == 0) xs)
      All-both P [] a = tt
      All-both P (x ∷ xs) a = elim (Bool-cases (times x labels == 0)) [
        | inl e ↦ rw e ((a.0, ground arith), All-both P xs a.1)
        | inr e ↦ rw e (All-both P xs a.1)
      ]
