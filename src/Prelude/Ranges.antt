-- ===== src/Prelude/Ranges.antt =====
-- Ranges of positions, and arrays read through all their positions.
use mathlib.Core.List.{List, [], ◌∷◌, map}
use mathlib.Core.Path.{◌≡◌, refl, ap, ◌∙◌}
use mathlib.Core.Bool.{Bool, true, false, ◌&&◌}
use mathlib.Core.Logic.{◌≢◌, inl, inr}
use Prim.Native.Nat.{ℕ, zero, suc, ◌+◌, ◌≤◌, ◌<◌}
use native.Mathlib.Omega.{arith}
use vector_retrieval_optimiz.Prelude.Lists.{
  length, get_or, filter, All, All-filter, elem, range_from,
}
use vector_retrieval_optimiz.Prelude.Tests.{if◌then◌else◌, ◌==◌, Bool-cases}

pub map-map {ℓ κ μ} :
    {A : Type ℓ} {B : Type κ} {C : Type μ} (g : B → C) (f : A → B) (xs : List A)
    → map g (map f xs) ≡ map (λ x. g (f x)) xs
map-map g f [] = refl
map-map g f (x ∷ xs) = rw (map-map g f xs)

pub range_from-bound : (a n k : ℕ) → a + n ≤ k → All (λ i. i < k) (range_from a n)
range_from-bound a zero k h = tt
range_from-bound a (suc n) k h = (omega arith, range_from-bound (suc a) n k (omega arith))

pub length-range_from : (a n : ℕ) → length (range_from a n) ≡ n
length-range_from a zero = refl
length-range_from a (suc n) = ap suc (length-range_from (suc a) n)

pub range_from-suc : (a n : ℕ) → range_from (suc a) n ≡ map suc (range_from a n)
range_from-suc a zero = refl
range_from-suc a (suc n) = ap (◌∷◌ (suc a)) (range_from-suc (suc a) n)

-- Reading an array at every position gives the array.
pub gather_range {ℓ} :
    {A : Type ℓ} (d : A) (xs : List A) → map (λ i. get_or xs i d) (range_from 0 (length xs)) ≡ xs
gather_range d [] = refl
gather_range d (x ∷ xs) = ap (◌∷◌ x) (
    ap (map (λ i. get_or (x ∷ xs) i d)) (range_from-suc 0 (length xs))
    ∙ map-map (λ i. get_or (x ∷ xs) i d) suc (range_from 0 (length xs))
    ∙ gather_range d xs)

-- no entry stands twice
abbrev pub Nodup : List ℕ → Type 0
Nodup [] = Unit
Nodup (x ∷ xs) = All (λ y. x ≢ y) xs × Nodup xs

pub Nodup-filter : (p : ℕ → Bool) (xs : List ℕ) → Nodup xs → Nodup (filter p xs)
Nodup-filter p [] d = tt
Nodup-filter p (x ∷ xs) d =
    elim (p x) as (λ b. Nodup (if b then x ∷ filter p xs else filter p xs)) [
      | true ↦ (All-filter (λ y. x ≢ y) p xs d.0, Nodup-filter p xs d.1)
      | false ↦ Nodup-filter p xs d.1
    ]

pub elem-filter : (p : ℕ → Bool) (i : ℕ) (xs : List ℕ) → elem i (filter p xs) ≡ (elem i xs && p i)
elem-filter p i [] = refl
elem-filter p i (x ∷ xs) = elim (Bool-cases (x == i)) [
  | inl same ↦ let eq : x ≡ i = ground arith in ground (arith, ap p eq, elem-filter p i xs)
  | inr other ↦ ground (arith, elem-filter p i xs)
]

pub elem-range_from : (i a n : ℕ) → a ≤ i → i < a + n → elem i (range_from a n) ≡ true
elem-range_from i a zero l u = absurd (omega arith)
elem-range_from i a (suc n) l u = elim (Bool-cases (a == i)) [
  | inl same ↦ ground arith
  | inr other ↦ ground (arith, elem-range_from i (suc a) n (ground arith) (omega arith))
]

range_from-other : (x a n : ℕ) → x < a → All (λ y. x ≢ y) (range_from a n)
range_from-other x a zero h = tt
range_from-other x a (suc n) h = ((λ e. omega arith), range_from-other x (suc a) n (omega arith))

pub range_from-Nodup : (a n : ℕ) → Nodup (range_from a n)
range_from-Nodup a zero = tt
range_from-Nodup a (suc n) =
    (range_from-other a (suc a) n (omega arith), range_from-Nodup (suc a) n)
