-- ===== src/Hnsw/Repair/Sweeps.antt =====
-- The rounds of the search of `reachable0` and `_unreachable0` of hnsw.py: what stays seen, and the
-- measure that a round lowers.
use vector_retrieval_optimiz.Prelude.{
  ℕ, zero, suc, ◌+◌, ◌≡◌, refl, ◌∙◌, Bool, true, List, [], ◌∷◌, foldl, length, get_or, length-set,
  set, All, arith, Bool-cases, List-cases, inl, inr,
}
use vector_retrieval_optimiz.Hnsw.Layer.Unvisited.{unvisited, unvisited-set}
use vector_retrieval_optimiz.Hnsw.Repair.{Sweep, reach_one, sweep}

abbrev pub Seen : Sweep → ℕ → Type 0
Seen s i = get_or s.seen i true ≡ true

pub set-true_kept :
    (seen : List Bool) (e i : ℕ)
    → get_or seen i true ≡ true
    → get_or (set seen e true) i true ≡ true
set-true_kept [] e i h = h
set-true_kept (b ∷ seen) zero zero h = refl
set-true_kept (b ∷ seen) zero (suc i) h = h
set-true_kept (b ∷ seen) (suc e) zero h = h
set-true_kept (b ∷ seen) (suc e) (suc i) h = set-true_kept seen e i h

reach_one-kept : (s : Sweep) (e i : ℕ) → Seen s i → Seen (reach_one s e) i
unfolding reach_one
reach_one-kept s e i h = elim (Bool-cases (get_or s.seen e true)) [
  | inl seen ↦ rw (reach_one, seen) h
  | inr free ↦ rw (reach_one, free) (set-true_kept s.seen e i h)
]

reach_one_self : (s : Sweep) (e : ℕ) → Seen (reach_one s e) e
unfolding reach_one
reach_one_self s e = elim (Bool-cases (get_or s.seen e true)) [
  | inl seen ↦ rw (reach_one, seen) seen
  | inr free ↦ rw (reach_one, free) (set_seen s.seen e)
]
  where
    set_seen : (seen : List Bool) (e : ℕ) → get_or (set seen e true) e true ≡ true
    set_seen [] e = refl
    set_seen (b ∷ seen) zero = refl
    set_seen (b ∷ seen) (suc e) = set_seen seen e

pub foldl-reach_one-kept :
    (es : List ℕ) (s : Sweep) (i : ℕ) → Seen s i → Seen (foldl reach_one s es) i
foldl-reach_one-kept [] s i h = h
foldl-reach_one-kept (e ∷ es) s i h =
    foldl-reach_one-kept es (reach_one s e) i (reach_one-kept s e i h)

pub foldl-reach_one-Seen : (es : List ℕ) (s : Sweep) → All (λ e. Seen (foldl reach_one s es) e) es
foldl-reach_one-Seen [] s = tt
foldl-reach_one-Seen (e ∷ es) s = (
  foldl-reach_one-kept es (reach_one s e) e (reach_one_self s e),
  foldl-reach_one-Seen es (reach_one s e),
)

pub sweep-kept :
    (nbr : ℕ → List ℕ) (fuel : ℕ) (s : Sweep) (i : ℕ) → Seen s i → Seen (sweep nbr fuel s) i
unfolding sweep
sweep-kept nbr zero s i h = h
sweep-kept nbr (suc fuel) s i h = elim (List-cases s.stack) [
  | inl e ↦ rw (sweep, e) h
  | inr (c, stack, e) ↦
      let t : Sweep = record s { stack = stack } in
      rw (sweep, e)
        (sweep-kept nbr fuel (foldl reach_one t (nbr c)) i (foldl-reach_one-kept (nbr c) t i h))
]

abbrev pub measure : Sweep → ℕ
measure s = unvisited s.seen + length s.stack

reach_one-measure : (s : Sweep) (e : ℕ) → measure (reach_one s e) ≡ measure s
unfolding reach_one
reach_one-measure s e = elim (Bool-cases (get_or s.seen e true)) [
  | inl seen ↦ rw (reach_one, seen) refl
  | inr free ↦ rw (reach_one, free) (omega (arith, unvisited-set s.seen e free))
]

reach_one-count :
    (s : Sweep) (e : ℕ)
    → (reach_one s e).count + unvisited (reach_one s e).seen ≡ s.count + unvisited s.seen
unfolding reach_one
reach_one-count s e = elim (Bool-cases (get_or s.seen e true)) [
  | inl seen ↦ rw (reach_one, seen) refl
  | inr free ↦ rw (reach_one, free) (omega (arith, unvisited-set s.seen e free))
]

foldl-reach_one-count :
    (es : List ℕ) (s : Sweep)
    → (foldl reach_one s es).count + unvisited (foldl reach_one s es).seen
      ≡ s.count + unvisited s.seen
foldl-reach_one-count [] s = refl
foldl-reach_one-count (e ∷ es) s = foldl-reach_one-count es (reach_one s e) ∙ reach_one-count s e

-- A row is counted when it is seen.
pub sweep-count :
    (nbr : ℕ → List ℕ) (fuel : ℕ) (s : Sweep)
    → (sweep nbr fuel s).count + unvisited (sweep nbr fuel s).seen ≡ s.count + unvisited s.seen
unfolding sweep
sweep-count nbr zero s = refl
sweep-count nbr (suc fuel) s = elim (List-cases s.stack) [
  | inl e ↦ rw (sweep, e) refl
  | inr (c, stack, e) ↦
      let t : Sweep = record s { stack = stack } in
      rw (sweep, e)
        (sweep-count nbr fuel (foldl reach_one t (nbr c)) ∙ foldl-reach_one-count (nbr c) t)
]

pub foldl-reach_one-measure : (es : List ℕ) (s : Sweep) → measure (foldl reach_one s es) ≡ measure s
foldl-reach_one-measure [] s = refl
foldl-reach_one-measure (e ∷ es) s =
    foldl-reach_one-measure es (reach_one s e) ∙ reach_one-measure s e

reach_one-size : (s : Sweep) (e : ℕ) → length (reach_one s e).seen ≡ length s.seen
unfolding reach_one
reach_one-size s e = ground (arith, length-set s.seen e true)

foldl-reach_one-size :
    (es : List ℕ) (s : Sweep) → length (foldl reach_one s es).seen ≡ length s.seen
foldl-reach_one-size [] s = refl
foldl-reach_one-size (e ∷ es) s = foldl-reach_one-size es (reach_one s e) ∙ reach_one-size s e

pub sweep-size :
    (nbr : ℕ → List ℕ) (fuel : ℕ) (s : Sweep) → length (sweep nbr fuel s).seen ≡ length s.seen
unfolding sweep
sweep-size nbr zero s = refl
sweep-size nbr (suc fuel) s = elim (List-cases s.stack) [
  | inl e ↦ rw (sweep, e) refl
  | inr (c, stack, e) ↦
      let t : Sweep = record s { stack = stack } in
      rw (sweep, e)
        (sweep-size nbr fuel (foldl reach_one t (nbr c)) ∙ foldl-reach_one-size (nbr c) t)
]
