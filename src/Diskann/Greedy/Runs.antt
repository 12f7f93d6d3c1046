-- ===== src/Diskann/Greedy/Runs.antt =====
-- The loop `while cand` of `_Builder.greedy` in diskann.py ends by its own tests: the run without fuel as
-- a relation, and the rows that are not marked yet, of which each round has fewer, together with the
-- candidates.
use vector_retrieval_optimiz.Prelude.{
  ℕ, zero, suc, ◌+◌, ◌≤◌, ◌<◌, ◌≡◌, ◌≢◌, refl, ap, ◌∙◌, Bool, true, false, not, List, [], ◌∷◌, ◌++◌,
  map, foldl, ltb, leb, ◌==◌, ==_iff, length, length-map, length-set, get_or, get_or-set_ne, set,
  filter, length-filter-le, All, All-map, All-filter, All-filter_self, if◌then◌else◌, Bool-cases,
  List-cases, inl, inr, arith,
}
use vector_retrieval_optimiz.Prelude.Ranges.{Nodup, Nodup-filter}
use vector_retrieval_optimiz.Prelude.Arrays.{fill_at}
use vector_retrieval_optimiz.Prelude.Sorting.{length-insert_by}
use vector_retrieval_optimiz.Numpy.{Numpy, Hit, better}
use vector_retrieval_optimiz.Hnsw.Layer.{hit, worst_score}
use vector_retrieval_optimiz.Diskann.{Builder, out_of}
use vector_retrieval_optimiz.Diskann.Greedy.{
  Descent, ends_at, take_in, above_worst, expand, descend, entered, greedy,
}

-- the rows that this search has not marked
abbrev unmarked : ℕ → List ℕ → ℕ
unmarked g mark = length (filter (λ m. not (m == g)) mark)

unmarked-set :
    (g : ℕ) (mark : List ℕ) (e : ℕ)
    → e < length mark
    → (get_or mark e 0 == g) ≡ false
    → suc (unmarked g (set mark e g)) ≡ unmarked g mark
unmarked-set g [] e lt h = absurd (omega arith)
unmarked-set g (m ∷ mark) zero lt h =
    let self : (g == g) ≡ true = (==_iff g g).1 refl in rw (h, self) refl
unmarked-set g (m ∷ mark) (suc e) lt h = ground (arith, unmarked-set g mark e (omega arith) h)

unmarked-fill_at :
    (g : ℕ) (nb mark : List ℕ)
    → Nodup nb
    → All (λ e. e < length mark) nb
    → All (λ e. not (get_or mark e 0 == g) ≡ true) nb
    → (unmarked g (fill_at mark nb g) + length nb ≡ unmarked g mark)
      × (length (fill_at mark nb g) ≡ length mark)
unmarked-fill_at g [] mark d lt h = (omega arith, refl)
unmarked-fill_at g (e ∷ nb) mark d lt h =
    let size = length-set mark e g in
    let below = All-map (λ x k. omega (arith, k, size)) nb lt.1 in
    let rest = unmarked-fill_at g nb (set mark e g) d.1 below (others nb d.0 h.1) in
    (omega (arith, rest.0, unmarked-set g mark e lt.0 (ground (arith, h.0))), rest.1 ∙ size)
  where
    others :
        (nb : List ℕ)
        → All (λ y. e ≢ y) nb
        → All (λ y. not (get_or mark y 0 == g) ≡ true) nb
        → All (λ y. not (get_or (set mark e g) y 0 == g) ≡ true) nb
    others [] d h = tt
    others (y ∷ nb) d h =
        (ap (λ m. not (m == g)) (get_or-set_ne mark e y g 0 d.0) ∙ h.0, others nb d.1 h.1)

take_in_cand :
    (l : ℕ) (s : Descent) (h : Hit)
    → (length (take_in l s h).cand ≤ suc (length s.cand)) × ((take_in l s h).mark ≡ s.mark)
unfolding take_in
take_in_cand l s h = elim (Bool-cases (ltb (length s.res) l)) [
  | inl space ↦ rw space (omega (arith, length-insert_by better h s.cand), refl)
  | inr full ↦ elim (Bool-cases (ltb (worst_score s.res) h.score)) [
    | inl above ↦ rw (full, above) (omega (arith, length-insert_by better h s.cand), refl)
    | inr below ↦ rw (full, below) (omega arith, refl)
  ]
]

take_all :
    (l : ℕ) (hs : List Hit) (s : Descent)
    → (length (foldl (take_in l) s hs).cand ≤ length s.cand + length hs)
      × ((foldl (take_in l) s hs).mark ≡ s.mark)
take_all l [] s = (omega arith, refl)
take_all l (h ∷ hs) s =
    let rest = take_all l hs (take_in l s h) in
    let one = take_in_cand l s h in (omega (arith, rest.0, one.0), rest.1 ∙ one.1)

length-above_worst : (l : ℕ) (s : Descent) (hs : List Hit) → length (above_worst l s hs) ≤ length hs
unfolding above_worst
length-above_worst l s hs =
    elim (leb l (length s.res))
      as (λ b.
        length (if b then filter (λ h. ltb (worst_score s.res) h.score) hs else hs) ≤ length hs) [
          | true ↦ length-filter-le (λ h. ltb (worst_score s.res) h.score) hs
          | false ↦ omega arith
        ]

module _ (np : Numpy) (v : List np.Vec) (b : Builder) (l : ℕ) (q : np.Vec) where
  -- one round, after the best candidate left the heap
  abbrev pub round : Descent → Hit → List Hit → Descent
  round s c cs = expand np v b l q (record s { cand = cs }) c.row

  -- The run of the loop, without fuel.
  pub data Runs : Descent → Descent → Type 0 where
    empties : (s : Descent) → s.cand ≡ [] → Runs s s
    breaks :
        (s : Descent) (c : Hit) (cs : List Hit)
        → s.cand ≡ c ∷ cs
        → ends_at l s c ≡ true
        → Runs s (record s { cand = cs })
    goes :
        (s end : Descent) (c : Hit) (cs : List Hit)
        → s.cand ≡ c ∷ cs
        → ends_at l s c ≡ false
        → Runs (round s c cs) end
        → Runs s end

  descend-zero : (s : Descent) → descend np v b l q 0 s ≡ s
  unfolding descend
  descend-zero s = refl

  descend_empty : (fuel : ℕ) (s : Descent) → s.cand ≡ [] → descend np v b l q (suc fuel) s ≡ s
  unfolding descend
  descend_empty fuel s e =
      let with_cand : List Hit → Descent = λ cs. record s { cand = cs } in
      rw (descend, e) (ap with_cand e)

  descend_stop :
      (fuel : ℕ) (s : Descent) (c : Hit) (cs : List Hit)
      → s.cand ≡ c ∷ cs
      → ends_at l s c ≡ true
      → descend np v b l q (suc fuel) s ≡ record s { cand = cs }
  unfolding descend
  descend_stop fuel s c cs e stop = rw (descend, e, stop) refl

  descend_go :
      (fuel : ℕ) (s : Descent) (c : Hit) (cs : List Hit)
      → s.cand ≡ c ∷ cs
      → ends_at l s c ≡ false
      → descend np v b l q (suc fuel) s ≡ descend np v b l q fuel (round s c cs)
  unfolding descend
  descend_go fuel s c cs e on = rw (descend, e, on) refl

  module _ (below : (c : ℕ) → All (λ j. j < length v) (out_of b c))
      (plain : (c : ℕ) → Nodup (out_of b c)) where
    round-measure :
        (s : Descent) (c : Hit) (cs : List Hit)
        → s.cand ≡ c ∷ cs
        → length s.mark ≡ length v
        → (unmarked b.gen (round s c cs).mark + length (round s c cs).cand
            < unmarked b.gen s.mark + length s.cand)
          × (length (round s c cs).mark ≡ length v)
    unfolding expand
    round-measure s c cs e size =
        let open_test : ℕ → Bool = λ e. not (get_or s.mark e 0 == b.gen) in
        let nb = filter open_test (out_of b c.row) in
        let inside =
          All-map (λ x k. omega (arith, k, size)) nb
            (All-filter (λ j. j < length v) open_test (out_of b c.row) (below c.row)) in
        let filled_in =
          unmarked-fill_at b.gen nb s.mark (Nodup-filter open_test (out_of b c.row) (plain c.row))
            inside (All-filter_self open_test (out_of b c.row)) in
        let s' : Descent = record s {
          cand = cs;
          mark = fill_at s.mark nb b.gen;
          expanded = s.expanded ++ c.row ∷ [];
        } in
        let hs = map (hit np v q) nb in
        let taken = take_all l (above_worst l s' hs) s' in
        (
          omega (
            arith,
            taken.0,
            ap (unmarked b.gen) taken.1,
            length-above_worst l s' hs,
            length-map (hit np v q) nb,
            ap (length {A = Hit}) e,
            filled_in.0,
          ),
          ap (length {A = ℕ}) taken.1 ∙ filled_in.1 ∙ size,
        )

    descend-Runs :
        (fuel : ℕ) (s : Descent)
        → length s.mark ≡ length v
        → unmarked b.gen s.mark + length s.cand ≤ fuel
        → Runs s (descend np v b l q fuel s)
    descend-Runs zero s size le =
        rw (descend-zero s) (Runs.empties s (none_left s.cand (omega arith)))
      where
        none_left : (cs : List Hit) → length cs ≤ 0 → cs ≡ []
        none_left [] h = refl
        none_left (c ∷ cs) h = absurd (omega arith)
    descend-Runs (suc fuel) s size le = elim (List-cases s.cand) [
      | inl e ↦ rw (descend_empty fuel s e) (Runs.empties s e)
      | inr (c, cs, e) ↦ elim (Bool-cases (ends_at l s c)) [
        | inl stop ↦ rw (descend_stop fuel s c cs e stop) (Runs.breaks s c cs e stop)
        | inr on ↦
            let less = round-measure s c cs e size in
            let rest = descend-Runs fuel (round s c cs) less.1 (omega (arith, less.0)) in
            rw (descend_go fuel s c cs e on) (Runs.goes s _ c cs e on rest)
      ]
    ]

-- Where the lists name rows of the index, none of them twice, the loop of `greedy` from a row that does not
-- have the mark of this search yet leaves by its own tests within one round for each row of the index,
-- and `greedy` returns what the loop has expanded and keeps its marks.
pub greedy-Runs :
    (np : Numpy) (v : List np.Vec) (b : Builder) (l entry : ℕ) (q : np.Vec)
    → ((c : ℕ) → All (λ j. j < length v) (out_of b c))
    → ((c : ℕ) → Nodup (out_of b c))
    → length b.mark ≡ length v
    → entry < length v
    → (get_or b.mark entry 0 == suc b.gen) ≡ false
    → let b' = record b { gen = suc b.gen } in
      (end : Descent) × Runs np v b' l q (entered np v b' q entry) end
      × (greedy np v b q entry l ≡ (record b' { mark = end.mark }, end.expanded))
unfolding greedy entered out_of
greedy-Runs np v b l entry q below plain size lt unset =
    let b' : Builder = record b { gen = suc b.gen } in
    let start = entered np v b' q entry in
    let marked = unmarked-set (suc b.gen) b.mark entry (omega (arith, size)) unset in
    let few = length-filter-le (λ m. not (m == suc b.gen)) b.mark in
    (
      descend np v b' l q (length v) start,
      descend-Runs np v b' l q below plain (length v) start
          (length-set b.mark entry (suc b.gen) ∙ size) (omega (arith, marked, few, size)),
      refl,
    )
