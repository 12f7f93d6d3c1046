-- ===== src/Hnsw/Repair/Unreachable.antt =====
-- `_unreachable0` of hnsw.py finds the live rows that the lists of layer 0 do not reach.
use vector_retrieval_optimiz.Prelude.Distinct.{elem-All}
use vector_retrieval_optimiz.Prelude.{
  ℕ, zero, suc, ◌<◌, ◌≡◌, refl, ◌∙◌, sym, ap, Bool, true, false, not, ◌&&◌, List, [], ◌∷◌, Option,
  ◌==◌, ◌↔◌, length, get_or, get_or-set_self, get_or-set_ne, length-set, length-replicate, set, All,
  arith, Bool-cases, inl, inr, replicate, range_from, elem,
}
use vector_retrieval_optimiz.Prelude.Ranges.{elem-filter, elem-range_from}
use vector_retrieval_optimiz.Hnsw.Layer.Unvisited.{unvisited, unvisited-set}
use vector_retrieval_optimiz.Hnsw.Repair.{Sweep, sweep_from, is_dead, unreachable0}
use vector_retrieval_optimiz.Hnsw.Repair.Sweeps.{Seen, sweep-kept}
use vector_retrieval_optimiz.Hnsw.Repair.Reached.{Reach, Full, sweep-Full}

pub get_or-replicate : (n i : ℕ) → i < n → get_or (replicate n false) i true ≡ false
get_or-replicate zero i h = absurd (omega arith)
get_or-replicate (suc n) zero h = refl
get_or-replicate (suc n) (suc i) h = get_or-replicate n i (omega arith)

pub unvisited-replicate : (n : ℕ) → unvisited (replicate n false) ≡ n
unvisited-replicate zero = refl
unvisited-replicate (suc n) = ap suc (unvisited-replicate n)

get_or_default :
    (seen : List Bool) (i : ℕ) → i < length seen → get_or seen i false ≡ get_or seen i true
get_or_default [] i h = absurd (omega arith)
get_or_default (b ∷ seen) zero h = refl
get_or_default (b ∷ seen) (suc i) h = get_or_default seen i (omega arith)

module _ (nbr : ℕ → List ℕ) (entry n : ℕ) (in_range : (i : ℕ) → All (λ j. j < n) (nbr i))
    (entry_in : entry < n) where
  before : Sweep
  before = record { seen = set (replicate n false) entry true; stack = entry ∷ []; count = 1 }

  before-Full : Full nbr entry n in_range before
  unfolding before
  before-Full = record {
    size = length-set (replicate n false) entry true ∙ length-replicate n false;
    sound = λ i l h. elim (Bool-cases (entry == i)) [
      | inl same ↦ let eq : entry ≡ i = ground arith in rw (← eq) Reach.begins
      | inr other ↦ absurd (
          ground (
            arith,
            get_or-set_ne (replicate n false) entry i true true (λ eq. ground arith),
            get_or-replicate n i l,
          ))
    ];
    waiting = (Reach.begins, tt);
    closed = λ i l h. elim (Bool-cases (entry == i)) [
      | inl same ↦ inl (ground arith)
      | inr other ↦ absurd (
          ground (
            arith,
            get_or-set_ne (replicate n false) entry i true true (λ eq. ground arith),
            get_or-replicate n i l,
          ))
    ];
  }

  swept : Full nbr entry n in_range (sweep_from nbr n entry) × ((sweep_from nbr n entry).stack ≡ [])
  unfolding sweep_from before
  swept =
      sweep-Full nbr entry n in_range n before
        (omega (
          arith,
          unvisited-set (replicate n false) entry (get_or-replicate n entry entry_in),
          unvisited-replicate n,
        ))
        before-Full

  Reach-lt : (i : ℕ) → Reach nbr entry i → i < n
  Reach-lt _ Reach.begins = entry_in
  Reach-lt _ (Reach.follows c e rc k) = elem-All (λ j. j < n) e (nbr c) (in_range c) k

  Reach-Seen : (i : ℕ) → Reach nbr entry i → Seen (sweep_from nbr n entry) i
  unfolding sweep_from before
  Reach-Seen _ Reach.begins = sweep-kept nbr n before entry entry_seen
    where
      entry_seen : get_or (set (replicate n false) entry true) entry true ≡ true
      entry_seen =
          get_or-set_self (replicate n false) entry true true
            (omega (arith, entry_in, length-replicate n false))
  Reach-Seen _ (Reach.follows c e rc k) =
      elim (swept.0.closed c (Reach-lt c rc) (Reach-Seen c rc)) [
        | inl stacked ↦ absurd (ground (arith, ap (elem c) swept.1))
        | inr done ↦ elem-All (λ x. Seen (sweep_from nbr n entry) x) e (nbr c) done k
      ]

  Seen-false :
      (i : ℕ)
      → i < n
      → get_or (sweep_from nbr n entry).seen i false ≡ get_or (sweep_from nbr n entry).seen i true
  Seen-false i l = get_or_default (sweep_from nbr n entry).seen i (omega (arith, swept.0.size, l))

  -- The search ends within one round for every row, and `_unreachable0` lists exactly the rows that no
  -- path along the lists joins to the entry point and that are not deleted.
  pub unreachable0-Reach :
      (dead : Option (List Bool)) (i : ℕ)
      → i < n
      → (elem i (unreachable0 nbr n entry dead) ≡ true)
        ↔ ((¬ Reach nbr entry i) × (is_dead dead i ≡ false))
  unfolding unreachable0
  unreachable0-Reach dead i l =
      let listed =
        elem-filter
          (λ i. not (get_or (sweep_from nbr n entry).seen i false) && not (is_dead dead i)) i
          (range_from 0 n) in
      let all_in = elem-range_from i 0 n (omega arith) (omega arith) in
      (
        λ e.
            let both = sym e ∙ listed in
            (
              λ r. ground (arith, both, all_in, Seen-false i l, Reach-Seen i r),
              ground (arith, both, all_in),
            ),
        λ p. elim (Bool-cases (get_or (sweep_from nbr n entry).seen i true)) [
          | inl seen ↦ absurd (p.0 (swept.0.sound i l seen))
          | inr free ↦ listed ∙ ground (arith, all_in, Seen-false i l, free, p.1)
        ],
      )
