-- ===== src/Prelude/Distinct.antt =====
-- Lists of distinct numbers: `Nodup` under sorting, cutting and joining, and their length when they are
-- bounded.
use mathlib.Core.List.{List, [], ◌∷◌, ◌++◌, map}
use mathlib.Core.Path.{◌≡◌, refl, ap, ◌∙◌, sym, subst}
use mathlib.Core.Bool.{Bool, true, false, not, ◌||◌}
use mathlib.Core.Logic.{◌≢◌, inl, inr}
use Prim.Native.Nat.{ℕ, zero, suc, ◌≤◌, ◌<◌}
use native.Mathlib.Omega.{arith}
use vector_retrieval_optimiz.Prelude.Lists.{
  length, get_or, filter, filter-All, take, All, All-map, All-take, All-append, elem,
}
use vector_retrieval_optimiz.Prelude.Tests.{ltb, ◌==◌, ==_iff, Bool-cases}
use vector_retrieval_optimiz.Prelude.Ranges.{Nodup, Nodup-filter}
use vector_retrieval_optimiz.Prelude.Arrays.{add_unique, unique}
use vector_retrieval_optimiz.Prelude.Sorting.{insert_by, insert_by-All, sort_by, All-sort_by}

-- all of the first are among the second
abbrev pub AllIn : List ℕ → List ℕ → Type 0
AllIn xs seen = All (λ x. elem x seen ≡ true) xs

pub elem-All : (P : ℕ → Type 0) (e : ℕ) (es : List ℕ) → All P es → elem e es ≡ true → P e
elem-All P e [] a h = cc
elem-All P e (x ∷ es) a h = elim (Bool-cases (x == e)) [
  | inl same ↦ let eq : x ≡ e = ground arith in rw (← eq) a.0
  | inr other ↦ elem-All P e es a.1 (ground arith)
]

pub All_of_elem : (P : ℕ → Type 0) (es : List ℕ) → ((e : ℕ) → elem e es ≡ true → P e) → All P es
All_of_elem P [] h = tt
All_of_elem P (x ∷ es) h =
    (h x (ground (arith, ==_iff x x)), All_of_elem P es (λ e k. h e (ground arith)))

pub AllIn_self : (xs : List ℕ) → AllIn xs xs
AllIn_self xs = All_of_elem (λ x. elem x xs ≡ true) xs (λ e k. k)

pub AllIn-cons : (e : ℕ) (xs seen : List ℕ) → AllIn xs seen → AllIn xs (e ∷ seen)
AllIn-cons e xs seen = All-map (λ x k. ground arith) xs

-- What is not among the second differs from all of the first.
pub AllIn-ne :
    (e : ℕ) (xs seen : List ℕ) → AllIn xs seen → elem e seen ≡ false → All (λ x. x ≢ e) xs
AllIn-ne e xs seen h unseen =
    All-map (λ x k same. let kept : elem e seen ≡ true = rw (← same) k in cc) xs h

pub Nodup-append_one : (e : ℕ) (xs : List ℕ) → Nodup xs → All (λ x. x ≢ e) xs → Nodup (xs ++ e ∷ [])
Nodup-append_one e [] d h = (tt, tt)
Nodup-append_one e (x ∷ xs) d h =
    (All-append (λ y. x ≢ y) xs (e ∷ []) d.0 (h.0, tt), Nodup-append_one e xs d.1 h.1)

pub Nodup-take : (n : ℕ) (xs : List ℕ) → Nodup xs → Nodup (take n xs)
Nodup-take zero xs d = tt
Nodup-take (suc n) [] d = tt
Nodup-take (suc n) (x ∷ xs) d = (All-take (λ y. x ≢ y) n xs d.0, Nodup-take n xs d.1)

length-without :
    (n : ℕ) (xs : List ℕ) → Nodup xs → length xs ≤ suc (length (filter (λ x. not (x == n)) xs))
length-without n [] d = omega arith
length-without n (x ∷ xs) d = elim (Bool-cases (x == n)) [
  | inl same ↦
      let eq : x ≡ n = ground arith in
      let rest : All (λ y. not (y == n) ≡ true) xs = All-map (λ y k. ground arith) xs d.0 in
      ground (arith, filter-All (λ y. not (y == n)) xs rest)
  | inr other ↦ ground (arith, length-without n xs d.1)
]

below-without :
    (n : ℕ) (xs : List ℕ)
    → All (λ x. x < suc n) xs
    → All (λ x. x < n) (filter (λ x. not (x == n)) xs)
below-without n [] h = tt
below-without n (x ∷ xs) h = elim (Bool-cases (x == n)) [
  | inl same ↦ rw same (below-without n xs h.1)
  | inr other ↦ rw other (ground arith, below-without n xs h.1)
]

-- Distinct numbers below n are at most n.
pub length-le_of_Nodup : (n : ℕ) (xs : List ℕ) → Nodup xs → All (λ x. x < n) xs → length xs ≤ n
length-le_of_Nodup zero [] d h = omega arith
length-le_of_Nodup zero (x ∷ xs) d h = absurd (omega arith)
length-le_of_Nodup (suc n) xs d h =
    let rest =
      length-le_of_Nodup n _ (Nodup-filter (λ x. not (x == n)) xs d) (below-without n xs h) in
    omega (arith, rest, length-without n xs d)

-- A predicate on the images, and on what they are the images of.
module _ {ℓ κ μ} {A : Type ℓ} {B : Type κ} (f : A → B) (P : B → Type μ) where
  pub All_of_map : (zs : List A) → All P (map f zs) → All (λ z. P (f z)) zs
  All_of_map [] k = tt
  All_of_map (z ∷ zs) k = (k.0, All_of_map zs k.1)

  pub All_to_map : (zs : List A) → All (λ z. P (f z)) zs → All P (map f zs)
  All_to_map [] k = tt
  All_to_map (z ∷ zs) k = (k.0, All_to_map zs k.1)

module _ {ℓ κ} {A : Type ℓ} (P : A → Type κ) where
  pub All-get_or : (d : A) (xs : List A) (i : ℕ) → i < length xs → All P xs → P (get_or xs i d)
  All-get_or d [] i h a = absurd (omega arith)
  All-get_or d (x ∷ xs) zero h a = a.0
  All-get_or d (x ∷ xs) (suc i) h a = All-get_or d xs i (omega arith) a.1

  pub All-append_left : (xs ys : List A) → All P (xs ++ ys) → All P xs
  All-append_left [] ys h = tt
  All-append_left (x ∷ xs) ys h = (h.0, All-append_left xs ys h.1)

  pub All-append_right : (xs ys : List A) → All P (xs ++ ys) → All P ys
  All-append_right [] ys h = h
  All-append_right (x ∷ xs) ys h = All-append_right xs ys h.1

module _ {ℓ} {A : Type ℓ} (lt : A → A → Bool) (f : A → ℕ) where
  Nodup-insert_by :
      (x : A) (ys : List A)
      → All (λ y. f x ≢ f y) ys
      → Nodup (map f ys)
      → Nodup (map f (insert_by lt x ys))
  unfolding insert_by
  Nodup-insert_by x [] h d = (tt, tt)
  Nodup-insert_by x (y ∷ ys) h d = elim (Bool-cases (lt y x)) [
    | inl before ↦ rw before (
      All_to_map f (λ k. f y ≢ k) _
          (insert_by-All lt (λ z. f y ≢ f z) x ys (λ e. h.0 (sym e))
            (All_of_map f (λ k. f y ≢ k) ys d.0)),
      Nodup-insert_by x ys h.1 d.1,
    )
    | inr after ↦ rw after (All_to_map f (λ k. f x ≢ k) (y ∷ ys) h, d)
  ]

  -- Sorting keeps keys distinct.
  pub Nodup-sort_by : (xs : List A) → Nodup (map f xs) → Nodup (map f (sort_by lt xs))
  unfolding sort_by
  Nodup-sort_by [] d = tt
  Nodup-sort_by (x ∷ xs) d =
      Nodup-insert_by x (sort_by lt xs)
        (All-sort_by lt (λ y. f x ≢ f y) xs (All_of_map f (λ k. f x ≢ k) xs d.0))
        (Nodup-sort_by xs d.1)

module _ {ℓ} {A : Type ℓ} (P : A → Type 0) (lt le : A → A → Bool)
    (agree : (a b : A) → P a → P b → lt a b ≡ le a b) where
  insert_by_cong : (x : A) (ys : List A) → P x → All P ys → insert_by lt x ys ≡ insert_by le x ys
  unfolding insert_by
  insert_by_cong x [] px h = refl
  insert_by_cong x (y ∷ ys) px h =
      let same = agree y x h.0 px in let rest = insert_by_cong x ys px h.1 in rw (same, rest) refl

  -- Two tests that agree on the entries sort alike.
  pub sort_by_cong : (xs : List A) → All P xs → sort_by lt xs ≡ sort_by le xs
  unfolding sort_by
  sort_by_cong [] h = refl
  sort_by_cong (x ∷ xs) h =
      insert_by_cong x (sort_by lt xs) h.0 (All-sort_by lt P xs h.1)
      ∙ ap (insert_by le x) (sort_by_cong xs h.1)

elem-insert_by :
    (lt : ℕ → ℕ → Bool) (c x : ℕ) (ys : List ℕ) → elem c (insert_by lt x ys) ≡ (x == c || elem c ys)
unfolding insert_by
elem-insert_by lt c x [] = refl
elem-insert_by lt c x (y ∷ ys) = ground (arith, elem-insert_by lt c x ys)

pub elem-sort_by : (lt : ℕ → ℕ → Bool) (c : ℕ) (xs : List ℕ) → elem c (sort_by lt xs) ≡ elem c xs
unfolding sort_by
elem-sort_by lt c [] = refl
elem-sort_by lt c (x ∷ xs) =
    elem-insert_by lt c x (sort_by lt xs) ∙ ap (λ b. x == c || b) (elem-sort_by lt c xs)

-- The values of an array in ascending order.
abbrev Ascending : List ℕ → Type 0
Ascending [] = Unit
Ascending (x ∷ xs) = All (λ y. x < y) xs × Ascending xs

elem-add_unique : (c x : ℕ) (ys : List ℕ) → elem c (add_unique x ys) ≡ (x == c || elem c ys)
unfolding add_unique
elem-add_unique c x [] = refl
elem-add_unique c x (y ∷ ys) = ground (arith, elem-add_unique c x ys)

-- np.unique keeps exactly the values.
pub elem-unique : (c : ℕ) (xs : List ℕ) → elem c (unique xs) ≡ elem c xs
unfolding unique
elem-unique c [] = refl
elem-unique c (x ∷ xs) = elem-add_unique c x (unique xs) ∙ ap (λ b. x == c || b) (elem-unique c xs)

add_unique-All : (P : ℕ → Type 0) (x : ℕ) (ys : List ℕ) → P x → All P ys → All P (add_unique x ys)
add_unique-All P x ys px h = All_of_elem P (add_unique x ys) (λ e k. elim (Bool-cases (x == e)) [
  | inl same ↦ let eq : x ≡ e = ground arith in subst P eq px
  | inr other ↦
      elem-All P e ys h (sym (elem-add_unique e x ys ∙ ap (λ b. b || elem e ys) other) ∙ k)
])

add_unique-Ascending : (x : ℕ) (ys : List ℕ) → Ascending ys → Ascending (add_unique x ys)
unfolding add_unique
add_unique-Ascending x [] a = (tt, tt)
add_unique-Ascending x (y ∷ ys) a = elim (Bool-cases (ltb x y)) [
  | inl before ↦ rw before ((ground arith, All-map (λ z k. ground (arith, before)) ys a.0), a)
  | inr after ↦ elim (Bool-cases (x == y)) [
    | inl same ↦ rw (after, same) a
    | inr other ↦
        rw (after, other)
          (
            add_unique-All (λ z. y < z) x ys (ground (arith, after)) a.0,
            add_unique-Ascending x ys a.1,
          )
  ]
]

-- np.unique keeps each value once.
pub unique-Nodup : (xs : List ℕ) → Nodup (unique xs)
unfolding unique
unique-Nodup xs = distinct (unique xs) (ascending xs)
  where
    ascending : (xs : List ℕ) → Ascending (unique xs)
    ascending [] = tt
    ascending (x ∷ xs) = add_unique-Ascending x (unique xs) (ascending xs)

    distinct : (xs : List ℕ) → Ascending xs → Nodup xs
    distinct [] a = tt
    distinct (x ∷ xs) a = (All-map (λ y k e. omega arith) xs a.0, distinct xs a.1)
