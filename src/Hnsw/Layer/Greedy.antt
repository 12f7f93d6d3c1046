-- ===== src/Hnsw/Layer/Greedy.antt =====
-- `greedy` ends at a row that no neighbor is better than.
use vector_retrieval_optimiz.Prelude.{
  ℕ, zero, suc, ◌+◌, ◌≤◌, ◌<◌, ◌≡◌, refl, ap, List, [], ◌∷◌, map, none, some, ltb, if◌then◌else◌,
  length, length-filter-le, filter, range_from, dec_lt, All, arith, Option-cases, Bool-cases, inl,
  inr,
}
use vector_retrieval_optimiz.Prelude.Ranges.{length-range_from}
use vector_retrieval_optimiz.Numpy.{Numpy, Score, Hit}
use vector_retrieval_optimiz.Hnsw.Layer.{first_best, hit, better_than, climb, greedy, IsHit}

first_best-max :
    (s : Score) (h : Hit) (xs : List Hit)
    → (first_best h xs).score ≤ s
    → (h.score ≤ s) × All (λ (x : Hit). x.score ≤ s) xs
unfolding first_best
first_best-max s h [] le = (le, tt)
first_best-max s h (x ∷ xs) le =
    let m = first_best-max s (if ltb h.score x.score then x else h) xs le in
    (ground (arith, m.0), (ground (arith, m.0), m.1))

first_best-All : (P : Hit → Type 0) (h : Hit) (xs : List Hit) → P h → All P xs → P (first_best h xs)
unfolding first_best
first_best-All P h [] p a = p
first_best-All P h (x ∷ xs) p a = elim (Bool-cases (ltb h.score x.score)) [
  | inl e ↦ rw (first_best, e) (first_best-All P x xs a.0 a.1)
  | inr e ↦ rw (first_best, e) (first_best-All P h xs p a.1)
]

better_than-none :
    (ep : Hit) (hs : List Hit) → better_than ep hs ≡ none → All (λ (h : Hit). h.score ≤ ep.score) hs
unfolding better_than
better_than-none ep [] e = tt
better_than-none ep (h ∷ hs) e = let m = first_best-max ep.score h hs (ground arith) in (m.0, m.1)

better_than-some :
    (P : Hit → Type 0) (ep : Hit) (hs : List Hit) (b : Hit)
    → All P hs
    → better_than ep hs ≡ some b
    → P b × (ep.score < b.score)
unfolding better_than
better_than-some P ep [] b a e = cc
better_than-some P ep (h ∷ hs) b a e = elim (Bool-cases (ltb ep.score (first_best h hs).score)) [
  | inl up ↦
      let same : first_best h hs ≡ b = ground arith in
      rw (← same) (first_best-All P h hs a.0 a.1, ground arith)
  | inr down ↦ absurd (ground arith)
]

-- how many of the rows score higher
abbrev higher : (ℕ → Score) → Score → List ℕ → ℕ
higher sc s rows = length (filter (λ i. ltb s (sc i)) rows)

higher_mono :
    (sc : ℕ → Score) (s t : Score) (rows : List ℕ) → s ≤ t → higher sc t rows ≤ higher sc s rows
higher_mono sc s t [] h = omega arith
higher_mono sc s t (i ∷ rows) h = ground (arith, higher_mono sc s t rows h)

higher_strict :
    (sc : ℕ → Score) (s : Score) (a n b : ℕ)
    → a ≤ b
    → b < a + n
    → s < sc b
    → higher sc (sc b) (range_from a n) < higher sc s (range_from a n)
higher_strict sc s a zero b l u h = absurd (omega arith)
higher_strict sc s a (suc n) b l u h = elim (dec_lt a b) [
  | yes later ↦ ground (arith, higher_strict sc s (suc a) n b (omega arith) (omega arith) h)
  | no here ↦
      let e : a ≡ b = omega arith in
      let rest = higher_mono sc s (sc b) (range_from (suc a) n) (omega arith) in ground (arith, e)
]

higher_bound :
    (sc : ℕ → Score) (s : Score) (a n b : ℕ)
    → a ≤ b
    → b < a + n
    → sc b ≤ s
    → higher sc s (range_from a n) < n
higher_bound sc s a zero b l u h = absurd (omega arith)
higher_bound sc s a (suc n) b l u h = elim (dec_lt a b) [
  | yes later ↦ ground (arith, higher_bound sc s (suc a) n b (omega arith) (omega arith) h)
  | no here ↦
      let e : a ≡ b = omega arith in
      ground (
        arith,
        ap sc e,
        length-filter-le (λ i. ltb s (sc i)) (range_from (suc a) n),
        length-range_from (suc a) n,
      )
]

module _ (np : Numpy) (v : List np.Vec) (nbr : ℕ → List ℕ) (q : np.Vec)
    (in_range : (i : ℕ) → All (λ j. j < length v) (nbr i)) where
  abbrev score : ℕ → Score
  score i = (hit np v q i).score

  IsHit-nbr :
      (rows : List ℕ) → All (λ j. j < length v) rows → All (IsHit np v q) (map (hit np v q) rows)
  IsHit-nbr [] h = tt
  IsHit-nbr (j ∷ rows) h = ((refl, h.0), IsHit-nbr rows h.1)

  unmap :
      (s : Score) (rows : List ℕ)
      → All (λ (h : Hit). h.score ≤ s) (map (hit np v q) rows)
      → All (λ j. score j ≤ s) rows
  unmap s [] h = tt
  unmap s (j ∷ rows) h = (h.0, unmap s rows h.1)

  greedy_from :
      (fuel : ℕ) (ep : Hit)
      → IsHit np v q ep
      → higher score ep.score (range_from 0 (length v)) < fuel
      → let end = (greedy np v nbr fuel q ep).0 in
        IsHit np v q end × (ep.score ≤ end.score) × All (λ j. score j ≤ end.score) (nbr end.row)
  unfolding climb greedy
  greedy_from zero ep h f = absurd (omega arith)
  greedy_from (suc fuel) ep h f = elim (Option-cases (climb np v nbr q ep)) [
    | inl top ↦
        rw (greedy, top) (h, omega arith, unmap ep.score (nbr ep.row) (better_than-none ep _ top))
    | inr (b, e) ↦
        let found =
          better_than-some (IsHit np v q) ep (map (hit np v q) (nbr ep.row)) b
            (IsHit-nbr (nbr ep.row) (in_range ep.row)) e in
        let is_hit = found.0 in
        let fewer =
          higher_strict score ep.score 0 (length v) b.row (omega arith) (omega (arith, is_hit.1))
            (rw is_hit.0 at found.1) in
        let rest = greedy_from fuel b is_hit (rw is_hit.0 (omega (arith))) in
        rw (greedy, e) (rest.0, omega (arith, rest.1, found.1), rest.2)
  ]

  -- One round for every row is enough: the walk ends at a row that no neighbor is better than, and
  -- never below its entry point.
  pub greedy-IsHit :
      (ep : Hit)
      → IsHit np v q ep
      → let end = (greedy np v nbr (length v) q ep).0 in
        IsHit np v q end × (ep.score ≤ end.score) × All (λ j. score j ≤ end.score) (nbr end.row)
  greedy-IsHit ep h = greedy_from (length v) ep h (
      higher_bound score ep.score 0 (length v) ep.row (omega arith) (omega (arith, h.1))
        (omega (arith, h.0)))
