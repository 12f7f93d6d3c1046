-- ===== src/Prelude/Sorting.antt =====
-- Stable sorting by a strict weak order given as a Boolean test: Python's `sorted`, and the order in
-- which numpy's stable sorts leave the rows.
use Prim.Native.Nat.{ℕ, zero, suc, ◌≤◌}
use mathlib.Core.Bool.{Bool, true, false}
use mathlib.Core.List.{List, [], ◌∷◌, map}
use mathlib.Core.List.Perm
use mathlib.Core.List.{Perm}
use mathlib.Core.Path.{◌≡◌, refl, ap, ◌∙◌}
use native.Mathlib.Omega.{arith}
use vector_retrieval_optimiz.Prelude.Tests.{if◌then◌else◌, Bool-cases}
use vector_retrieval_optimiz.Prelude.Lists.{
  length, take, filter, All, All-map, All-filter, All-take,
}
use mathlib.Core.Logic.{inl, inr}

-- `lt a b`: a stands strictly before b.
pub record StrictWeak {ℓ} {A : Type ℓ} (lt : A → A → Bool) : Type ℓ where
  pub asym : (a b : A) → lt a b ≡ true → lt b a ≡ false
  pub negtrans : (a b c : A) → lt a b ≡ false → lt b c ≡ false → lt a c ≡ false

module _ {ℓ} {A : Type ℓ} (lt : A → A → Bool) where
  abbrev pub Sorted : List A → Type 0
  Sorted [] = Unit
  Sorted (x ∷ xs) = All (λ y. lt y x ≡ false) xs × Sorted xs

  -- x goes in front of the first entry that is not strictly before it.
  unfoldable pub insert_by : A → List A → List A
  insert_by x [] = x ∷ []
  insert_by x (y ∷ ys) = if lt y x then y ∷ insert_by x ys else x ∷ y ∷ ys

  unfoldable pub sort_by : List A → List A
  unfolding insert_by
  sort_by [] = []
  sort_by (x ∷ xs) = insert_by x (sort_by xs)

  pub insert_by_front :
      (x : A) (ys : List A) → All (λ y. lt y x ≡ false) ys → insert_by x ys ≡ x ∷ ys
  unfolding insert_by
  insert_by_front x [] h = refl
  insert_by_front x (y ∷ ys) h = rw h.0

  pub length-insert_by : (x : A) (ys : List A) → length (insert_by x ys) ≡ suc (length ys)
  unfolding insert_by
  length-insert_by x [] = refl
  length-insert_by x (y ∷ ys) = ground (arith, length-insert_by x ys)

  pub length-sort_by : (xs : List A) → length (sort_by xs) ≡ length xs
  unfolding sort_by
  length-sort_by [] = refl
  length-sort_by (x ∷ xs) = length-insert_by x (sort_by xs) ∙ ap suc (length-sort_by xs)

  pub insert_by-All {κ} :
      (P : A → Type κ) (x : A) (ys : List A) → P x → All P ys → All P (insert_by x ys)
  unfolding insert_by
  insert_by-All P x [] px h = (px, tt)
  insert_by-All P x (y ∷ ys) px h =
      elim (lt y x) as (λ b. All P (if b then y ∷ insert_by x ys else x ∷ y ∷ ys)) [
        | true ↦ (h.0, insert_by-All P x ys px h.1)
        | false ↦ (px, h)
      ]

  pub All-sort_by {κ} : (P : A → Type κ) (xs : List A) → All P xs → All P (sort_by xs)
  unfolding sort_by
  All-sort_by P [] h = tt
  All-sort_by P (x ∷ xs) h = insert_by-All P x (sort_by xs) h.0 (All-sort_by P xs h.1)

  insert_by-perm : (x : A) (ys : List A) → Perm (insert_by x ys) (x ∷ ys)
  unfolding insert_by
  insert_by-perm x [] = Perm.refl (x ∷ [])
  insert_by-perm x (y ∷ ys) =
      elim (lt y x) as (λ b. Perm (if b then y ∷ insert_by x ys else x ∷ y ∷ ys) (x ∷ y ∷ ys)) [
        | true ↦ Perm.trans (Perm.cons y (insert_by-perm x ys)) (Perm.swap x y ys)
        | false ↦ Perm.refl (x ∷ y ∷ ys)
      ]

  pub sort_by-perm : (xs : List A) → Perm (sort_by xs) xs
  unfolding sort_by
  sort_by-perm [] = Perm.refl []
  sort_by-perm (x ∷ xs) = Perm.trans (insert_by-perm x (sort_by xs)) (Perm.cons x (sort_by-perm xs))

module _ {ℓ} {A : Type ℓ} {lt : A → A → Bool} (o : StrictWeak lt) where
  insert_by-Sorted : (x : A) (ys : List A) → Sorted lt ys → Sorted lt (insert_by lt x ys)
  unfolding insert_by
  insert_by-Sorted x [] h = (tt, tt)
  insert_by-Sorted x (y ∷ ys) h = elim (Bool-cases (lt y x)) [
    | inl e ↦ rw e (insert_by-All lt _ x ys (o.asym y x e) h.0, insert_by-Sorted x ys h.1)
    | inr e ↦ rw e ((e, All-map (λ z k. o.negtrans z y x k e) ys h.0), h)
  ]

  -- The sort is sorted.
  pub sort_by-Sorted : (xs : List A) → Sorted lt (sort_by lt xs)
  unfolding sort_by
  sort_by-Sorted [] = tt
  sort_by-Sorted (x ∷ xs) = insert_by-Sorted x (sort_by lt xs) (sort_by-Sorted xs)

  filter-insert_by :
      (p : A → Bool) (x : A) (ys : List A)
      → Sorted lt ys
      → filter p (insert_by lt x ys) ≡ (if p x then insert_by lt x (filter p ys) else filter p ys)
  unfolding insert_by
  filter-insert_by p x [] h = ground arith
  filter-insert_by p x (y ∷ ys) h = elim (Bool-cases (lt y x)) [
    | inl e ↦ ground (arith, filter-insert_by p x ys h.1)
    | inr e ↦ ground (
      arith,
      insert_by_front lt x (filter p ys)
          (All-filter (λ z. lt z x ≡ false) p ys (All-map (λ z k. o.negtrans z y x k e) ys h.0)),
    )
  ]

  -- Filtering and stable sorting commute.
  pub filter-sort_by :
      (p : A → Bool) (xs : List A) → filter p (sort_by lt xs) ≡ sort_by lt (filter p xs)
  unfolding sort_by
  filter-sort_by p [] = refl
  filter-sort_by p (x ∷ xs) =
      ground (arith, filter-insert_by p x (sort_by lt xs) (sort_by-Sorted xs), filter-sort_by p xs)

  -- An entry that stands no later than one that passes, passes.
  abbrev pub IsUpper : (A → Bool) → Type ℓ
  IsUpper p = (a b : A) → lt b a ≡ false → p b ≡ true → p a ≡ true

  filter_upper_none :
      (p : A → Bool)
      → IsUpper p
      → (x : A) (xs : List A) → All (λ y. lt y x ≡ false) xs
      → p x ≡ false
      → filter p xs ≡ []
  filter_upper_none p up x [] h e = refl
  filter_upper_none p up x (y ∷ ys) h e =
      ground (arith, up x y h.0, filter_upper_none p up x ys h.1 e)

  -- Of a sorted list, an upper filter is a prefix.
  pub take-filter_upper :
      (p : A → Bool)
      → IsUpper p
      → (n : ℕ) (xs : List A) → Sorted lt xs
      → n ≤ length (filter p xs)
      → take n (filter p xs) ≡ take n xs
  take-filter_upper p up zero xs h le = refl
  take-filter_upper p up (suc n) [] h le = refl
  take-filter_upper p up (suc n) (x ∷ xs) h le = elim (Bool-cases (p x)) [
    | inl e ↦ ground (arith, take-filter_upper p up n xs h.1)
    | inr e ↦ absurd (ground (arith, filter_upper_none p up x xs h.0 e))
  ]

  -- The first n of the sort are found among the entries that pass an upper filter.
  pub take-sort_by-filter :
      (p : A → Bool)
      → IsUpper p
      → (n : ℕ) (xs : List A) → n ≤ length (filter p xs)
      → take n (sort_by lt (filter p xs)) ≡ take n (sort_by lt xs)
  take-sort_by-filter p up n xs le = rw (← filter-sort_by p xs) (
      take-filter_upper p up n (sort_by lt xs) (sort_by-Sorted xs)
        (omega (arith, ap (length {A = A}) (filter-sort_by p xs), length-sort_by lt (filter p xs))))

module _ {ℓ κ} {A : Type ℓ} {B : Type κ} (lt : B → B → Bool) (f : A → B) where
  map-insert_by :
      (x : A) (ys : List A)
      → map f (insert_by (λ a b. lt (f a) (f b)) x ys) ≡ insert_by lt (f x) (map f ys)
  unfolding insert_by
  map-insert_by x [] = refl
  map-insert_by x (y ∷ ys) = ground (arith, map-insert_by x ys)

  pub map-sort_by :
      (xs : List A) → map f (sort_by (λ a b. lt (f a) (f b)) xs) ≡ sort_by lt (map f xs)
  unfolding sort_by
  map-sort_by [] = refl
  map-sort_by (x ∷ xs) = rw (map-insert_by x (sort_by (λ a b. lt (f a) (f b)) xs), map-sort_by xs)

module _ {ℓ} {A : Type ℓ} (lt : A → A → Bool) where
  pub Sorted-filter : (p : A → Bool) (xs : List A) → Sorted lt xs → Sorted lt (filter p xs)
  Sorted-filter p [] h = tt
  Sorted-filter p (x ∷ xs) h =
      elim (p x) as (λ b. Sorted lt (if b then x ∷ filter p xs else filter p xs)) [
        | true ↦ (All-filter (λ y. lt y x ≡ false) p xs h.0, Sorted-filter p xs h.1)
        | false ↦ Sorted-filter p xs h.1
      ]

  pub Sorted-take : (n : ℕ) (xs : List A) → Sorted lt xs → Sorted lt (take n xs)
  Sorted-take zero xs s = tt
  Sorted-take (suc n) [] s = tt
  Sorted-take (suc n) (x ∷ xs) s = (All-take (λ y. lt y x ≡ false) n xs s.0, Sorted-take n xs s.1)

  -- Sorting a sorted list changes nothing.
  pub sort_by_unchanged : (xs : List A) → Sorted lt xs → sort_by lt xs ≡ xs
  unfolding sort_by
  sort_by_unchanged [] h = refl
  sort_by_unchanged (x ∷ xs) h = rw (sort_by_unchanged xs h.1) (insert_by_front lt x xs h.0)
