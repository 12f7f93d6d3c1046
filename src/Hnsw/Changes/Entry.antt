-- ===== src/Hnsw/Changes/Entry.antt =====
-- `_pick_entry` of hnsw.py: the live node of the highest level, ties to the lowest row.
use mathlib.Core.Path.{subst}
use vector_retrieval_optimiz.Prelude.{
  ℕ, zero, suc, ◌+◌, ◌≤◌, ◌<◌, ◌≡◌, ◌≢◌, ◌⊎◌, refl, ◌∙◌, sym, ap, Bool, true, false, List, [], ◌∷◌,
  map, ok, raise, value_error, max, length, get_or, filter, All, All-map, All-filter, arith, ◌==◌,
  if◌then◌else◌, Bool-cases, List-cases, inl, inr, range_from, elem, ltb,
}
use vector_retrieval_optimiz.Prelude.Arrays.{flatnonzero, flatnonzero_from-filter}
use vector_retrieval_optimiz.Hnsw.Graph.{max_of}
use vector_retrieval_optimiz.Prelude.Distinct.{elem-All}
use vector_retrieval_optimiz.Prelude.Ranges.{elem-filter, elem-range_from}
use vector_retrieval_optimiz.Hnsw.Changes.{first_at, pick_entry}

max_of-max : (xs : List ℕ) → All (λ x. x ≤ max_of xs) xs
unfolding max_of
max_of-max [] = tt
max_of-max (x ∷ xs) = (omega arith, All-map (λ y k. omega arith) xs (max_of-max xs))

max_of-elem : (x : ℕ) (xs : List ℕ) → elem (max_of (x ∷ xs)) (x ∷ xs) ≡ true
unfolding max_of
max_of-elem x [] = ground arith
max_of-elem x (y ∷ xs) = elim (Bool-cases (ltb x (max_of (y ∷ xs)))) [
  | inl later ↦
      let same : max x (max_of (y ∷ xs)) ≡ max_of (y ∷ xs) = ground arith in
      ap (λ (k : ℕ). elem k (x ∷ y ∷ xs)) same ∙ ground (arith, max_of-elem y xs)
  | inr first ↦
      let same : max x (max_of (y ∷ xs)) ≡ x = ground arith in
      ap (λ (k : ℕ). elem k (x ∷ y ∷ xs)) same ∙ ground arith
]

Ascending : List ℕ → Type 0
Ascending [] = Unit
Ascending (x ∷ xs) = All (λ y. x < y) xs × Ascending xs

Ascending-filter : (p : ℕ → Bool) (xs : List ℕ) → Ascending xs → Ascending (filter p xs)
unfolding Ascending
Ascending-filter p [] a = tt
Ascending-filter p (x ∷ xs) a =
    elim (p x) as (λ b. Ascending (if b then x ∷ filter p xs else filter p xs)) [
      | true ↦ (All-filter (λ y. x < y) p xs a.0, Ascending-filter p xs a.1)
      | false ↦ Ascending-filter p xs a.1
    ]

range_from-above : (x a n : ℕ) → x < a → All (λ y. x < y) (range_from a n)
range_from-above x a zero h = tt
range_from-above x a (suc n) h = (h, range_from-above x (suc a) n (omega arith))

range_from-Ascending : (a n : ℕ) → Ascending (range_from a n)
unfolding Ascending
range_from-Ascending a zero = tt
range_from-Ascending a (suc n) =
    (range_from-above a (suc a) n (omega arith), range_from-Ascending (suc a) n)

-- The first node of a level.
first_at-first :
    (f : ℕ → ℕ) (top : ℕ) (cand : List ℕ) (b : ℕ)
    → Ascending cand
    → elem top (map f cand) ≡ true
    → get_or cand (first_at top (map f cand)) 0 ≡ b
    → (elem b cand ≡ true) × (f b ≡ top) × All (λ j. j < b → f j ≢ top) cand
unfolding first_at Ascending
first_at-first f top [] b a h e = cc
first_at-first f top (c ∷ cand) b a h e = elim (Bool-cases (f c == top)) [
  | inl here ↦
      let same : c ≡ b = ground (arith, here, e) in
      (
        ground arith,
        rw (← same) (ground arith),
        ((λ l. absurd (omega arith)), All-map (λ j above l. absurd (omega arith)) cand a.0),
      )
  | inr later ↦
      let rest = first_at-first f top cand b a.1 (ground arith) (ground (arith, later, e)) in
      (ground (arith, rest.0), rest.1, ((λ l k. ground arith), rest.2))
]

unmap :
    (f : ℕ → ℕ) (top : ℕ) (xs : List ℕ) → All (λ x. x ≤ top) (map f xs) → All (λ j. f j ≤ top) xs
unmap f top [] a = tt
unmap f top (x ∷ xs) a = (a.0, unmap f top xs a.1)

some_row : (n : ℕ) → ltb 0 (suc n) ≡ true
some_row n = ground arith

module _ (levels : List ℕ) (live : List Bool) where
  -- the level of a row
  abbrev level : ℕ → ℕ
  level j = get_or levels j 0

  flatnonzero-live :
      flatnonzero live ≡ filter (λ j. get_or live j false) (range_from 0 (length live))
  flatnonzero-live =
      flatnonzero_from-filter 0 live (λ j. get_or live j false)
        (λ j l. ap (λ (k : ℕ). get_or live k false) {x = j} {y = 0 + j} (omega arith))

  -- a live row of the highest level, and the lowest of these rows
  pub record IsEntry (best : ℕ) : Type 0 where
    pub is_live : get_or live best false ≡ true
    pub highest : (j : ℕ) → get_or live j false ≡ true → level j ≤ level best
    pub lowest : (j : ℕ) → get_or live j false ≡ true → j < best → level j < level best

  elem-flatnonzero-live : (j : ℕ) → get_or live j false ≡ true → elem j (flatnonzero live) ≡ true
  elem-flatnonzero-live j h =
      ap (elem j) flatnonzero-live
      ∙ elem-filter (λ j. get_or live j false) j (range_from 0 (length live))
      ∙ ground (
        arith,
        elem-range_from j 0 (length live) (omega arith) (omega (arith, within live j h)),
        h,
      )
    where
      within : (bs : List Bool) (j : ℕ) → get_or bs j false ≡ true → j < length bs
      within [] j h = cc
      within (b ∷ bs) zero h = omega arith
      within (b ∷ bs) (suc j) h = omega (arith, within bs j h)

  picked-IsEntry :
      (c : ℕ) (cs : List ℕ)
      → flatnonzero live ≡ c ∷ cs
      → (best : ℕ)
      → get_or (c ∷ cs) (first_at (max_of (map level (c ∷ cs))) (map level (c ∷ cs))) 0 ≡ best
      → IsEntry best
  unfolding Ascending
  picked-IsEntry c cs e best got =
      let ascends : Ascending (c ∷ cs) = subst Ascending (sym flatnonzero-live ∙ e) (
        Ascending-filter (λ j. get_or live j false) (range_from 0 (length live))
          (range_from-Ascending 0 (length live))) in
      let first =
        first_at-first level (max_of (map level (c ∷ cs))) (c ∷ cs) best ascends
          (max_of-elem (level c) (map level cs)) got in
      let listed : (j : ℕ) → get_or live j false ≡ true → elem j (c ∷ cs) ≡ true =
        λ j h. ap (elem j) (sym e) ∙ elem-flatnonzero-live j h in
      let top = max_of (map level (c ∷ cs)) in
      let below : All (λ j. level j ≤ top) (c ∷ cs) =
        unmap level top (c ∷ cs) (max_of-max (map level (c ∷ cs))) in
      record {
        is_live = ground (
          arith,
          first.0,
          ap (elem best) (sym flatnonzero-live ∙ e),
          elem-filter (λ j. get_or live j false) best (range_from 0 (length live)),
        );
        highest = λ j h.
            omega (arith, first.1, elem-All (λ j. level j ≤ top) j (c ∷ cs) below (listed j h));
        lowest = λ j h l.
            let least = elem-All (λ j. level j ≤ top) j (c ∷ cs) below (listed j h) in
            let other =
              elem-All (λ j. j < best → level j ≢ top) j (c ∷ cs) first.2 (listed j h) l in
            omega (arith, first.1, least, other);
      }

  -- If a row is live, `_pick_entry` returns the live row of the highest level, the lowest of those if
  -- there are several, with its level; if none is, it raises ValueError.
  pub pick_entry-IsEntry :
      ((j : ℕ) × (get_or live j false ≡ true)
        × (best : ℕ) × (pick_entry levels live ≡ ok (best, level best))
        × IsEntry best)
      ⊎ (((j : ℕ) → get_or live j false ≡ false) × (pick_entry levels live ≡ raise value_error))
  unfolding pick_entry
  pick_entry-IsEntry = elim (List-cases (flatnonzero live)) [
    | inl e ↦ inr (
      (λ j. elim (Bool-cases (get_or live j false)) [
        | inl h ↦ absurd (ground (arith, elem-flatnonzero-live j h, ap (elem j) e))
        | inr h ↦ h
      ]),
      rw (pick_entry, e) refl,
    )
    | inr (c, cs, e) ↦
        let best =
          get_or (c ∷ cs) (first_at (max_of (map level (c ∷ cs))) (map level (c ∷ cs))) 0 in
        let right = picked-IsEntry c cs e best refl in
        inl (best, right.is_live, best, rw (pick_entry, e, some_row (length cs)) refl, right)
  ]
