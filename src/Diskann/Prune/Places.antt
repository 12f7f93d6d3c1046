-- ===== src/Diskann/Prune/Places.antt =====
-- Lists read through positions: what holds of the positions that `prune` of diskann.py chooses holds of
-- the candidates there.
use vector_retrieval_optimiz.Prelude.{
  ℕ, zero, suc, ◌<◌, ◌≡◌, ◌≢◌, refl, ap, Bool, true, false, List, [], ◌∷◌, map, length, get_or,
  replicate, elem, any, All, ◌==◌, ==_iff, Bool-cases, inl, inr, arith,
}
use vector_retrieval_optimiz.Prelude.Arrays.{gather}
use vector_retrieval_optimiz.Prelude.Ranges.{Nodup}
use vector_retrieval_optimiz.Prelude.Sorting.{Sorted}
use vector_retrieval_optimiz.Prelude.Distinct.{All_to_map}
use vector_retrieval_optimiz.Diskann.Prune.Picked.{Pairs}

pub Pairs-map :
    {A B : Type 0} (f : A → B) (R : B → B → Type 0) (xs : List A)
    → Pairs (λ a b. R (f a) (f b)) xs
    → Pairs R (map f xs)
Pairs-map f R [] h = tt
Pairs-map f R (x ∷ xs) h = (All_to_map f (R (f x)) xs h.0, Pairs-map f R xs h.1)

pub Pairs-weaken :
    {A : Type 0} (P : A → Type 0) (R S : A → A → Type 0)
    → ((a b : A) → P a → P b → R a b → S a b)
    → (xs : List A) → All P xs
    → Pairs R xs
    → Pairs S xs
Pairs-weaken P R S f [] p h = tt
Pairs-weaken P R S f (x ∷ xs) p h = (zipped xs p.1 h.0, Pairs-weaken P R S f xs p.1 h.1)
  where
    zipped : (ys : List _) → All P ys → All (R x) ys → All (S x) ys
    zipped [] q k = tt
    zipped (y ∷ ys) q k = (f x y p.0 q.0 k.0, zipped ys q.1 k.1)

pub All-at : (P : ℕ → Type 0) (xs : List ℕ) (i : ℕ) → i < length xs → All P xs → P (get_or xs i 0)
All-at P [] i h a = absurd (omega arith)
All-at P (x ∷ xs) zero h a = a.0
All-at P (x ∷ xs) (suc i) h a = All-at P xs i (omega arith) a.1

pub Nodup-at :
    (xs : List ℕ) (a b : ℕ) → a < b → b < length xs → Nodup xs → get_or xs a 0 ≢ get_or xs b 0
Nodup-at [] a b lt h d = absurd (omega arith)
Nodup-at (x ∷ xs) zero zero lt h d = absurd (omega arith)
Nodup-at (x ∷ xs) (suc a) zero lt h d = absurd (omega arith)
Nodup-at (x ∷ xs) zero (suc b) lt h d = All-at (λ y. x ≢ y) xs b (omega arith) d.0
Nodup-at (x ∷ xs) (suc a) (suc b) lt h d = Nodup-at xs a b (omega arith) (omega arith) d.1

pub Sorted-at :
    (lt : ℕ → ℕ → Bool) (xs : List ℕ) (a b : ℕ)
    → a < b
    → b < length xs
    → Sorted lt xs
    → lt (get_or xs b 0) (get_or xs a 0) ≡ false
Sorted-at lt [] a b l h s = absurd (omega arith)
Sorted-at lt (x ∷ xs) zero zero l h s = absurd (omega arith)
Sorted-at lt (x ∷ xs) (suc a) zero l h s = absurd (omega arith)
Sorted-at lt (x ∷ xs) zero (suc b) l h s = All-at (λ y. lt y x ≡ false) xs b (omega arith) s.0
Sorted-at lt (x ∷ xs) (suc a) (suc b) l h s = Sorted-at lt xs a b (omega arith) (omega arith) s.1

-- where a value stands in a list
pub position_of :
    (c : ℕ) (xs : List ℕ) → elem c xs ≡ true → (i : ℕ) × (i < length xs) × (get_or xs i 0 ≡ c)
position_of c [] h = absurd (cc h)
position_of c (x ∷ xs) h = elim (Bool-cases (x == c)) [
  | inl same ↦ (0, omega arith, (==_iff x c).0 same)
  | inr other ↦ let (i, lt, e) = position_of c xs (ground arith) in (suc i, omega arith, e)
]

pub elem-at : (xs : List ℕ) (i : ℕ) → i < length xs → elem (get_or xs i 0) xs ≡ true
elem-at [] i h = absurd (omega arith)
elem-at (x ∷ xs) zero h = ground (arith, ==_iff x x)
elem-at (x ∷ xs) (suc i) h = ground (arith, elem-at xs i (omega arith))

pub elem-gather :
    (xs ps : List ℕ) (i : ℕ) → elem i ps ≡ true → elem (get_or xs i 0) (gather 0 xs ps) ≡ true
elem-gather xs [] i h = absurd (cc h)
elem-gather xs (q ∷ ps) i h = elim (Bool-cases (q == i)) [
  | inl same ↦
      let e : q ≡ i = (==_iff q i).0 same in
      ground (arith, ap (λ (k : ℕ). get_or xs k 0) e, ==_iff (get_or xs q 0) (get_or xs i 0))
  | inr other ↦ ground (arith, elem-gather xs ps i (ground arith))
]

pub any-gather :
    (xs : List ℕ) (f : ℕ → Bool) (ps : List ℕ)
    → any (λ a. f (get_or xs a 0)) ps ≡ any f (gather 0 xs ps)
any-gather xs f [] = refl
any-gather xs f (q ∷ ps) = ground (arith, any-gather xs f ps)

pub replicate-at : (n i : ℕ) → i < n → get_or (replicate n true) i false ≡ true
replicate-at zero i h = absurd (omega arith)
replicate-at (suc n) zero h = refl
replicate-at (suc n) (suc i) h = replicate-at n i (omega arith)

pub at-lt : (n i : ℕ) → get_or (replicate n true) i false ≡ true → i < n
at-lt zero i h = absurd (cc h)
at-lt (suc n) zero h = omega arith
at-lt (suc n) (suc i) h = omega (arith, at-lt n i h)
