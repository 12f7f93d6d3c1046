-- ===== src/Prelude/Arrays.antt =====
-- One-dimensional numpy arrays as lists: fancy indexing, masks, and assignment through indices.
-- A read out of range, where numpy raises IndexError, gives the default: every caller indexes with
-- positions of the array itself.
use mathlib.Core.List.{Perm, Permᴰ}
use mathlib.Core.Logic.{∥∥₁_elim}
use native.Mathlib.Nat.{ℕ_set}
use Prim.Native.Nat.{ℕ, zero, suc, ◌+◌, ◌-◌, ◌≤◌, ◌<◌}
use mathlib.Core.Bool.{Bool, true, false}
use mathlib.Core.List.{List, [], ◌∷◌, ◌++◌, map}
use mathlib.Core.Path.{◌≡◌, refl, ap, ◌∙◌}
use native.Mathlib.Omega.{arith}
use vector_retrieval_optimiz.Prelude.Tests.{if◌then◌else◌, ltb, ◌==◌}
use vector_retrieval_optimiz.Prelude.Lists.{
  length, get_or, take, filter, All, range_from, set, replicate,
}

module _ {ℓ} {A : Type ℓ} where
  -- a[idx], for an array of positions
  abbrev pub gather : A → List A → List ℕ → List A
  gather d a idx = map (λ i. get_or a i d) idx

  -- a[mask]
  abbrev pub compress : List A → List Bool → List A
  compress [] ms = []
  compress (x ∷ xs) [] = []
  compress (x ∷ xs) (m ∷ ms) = let rest = compress xs ms in if m then x ∷ rest else rest

  -- a[idx] = vals, in order: the last write to a position stays
  abbrev pub scatter : List A → List ℕ → List A → List A
  scatter a [] vs = a
  scatter a (i ∷ is) [] = a
  scatter a (i ∷ is) (v ∷ vs) = scatter (set a i v) is vs

  -- a[idx] = v
  abbrev pub fill_at : List A → List ℕ → A → List A
  fill_at a [] v = a
  fill_at a (i ∷ is) v = fill_at (set a i v) is v

-- np.flatnonzero, counting from i
abbrev pub flatnonzero_from : ℕ → List Bool → List ℕ
flatnonzero_from i [] = []
flatnonzero_from i (m ∷ ms) = let rest = flatnonzero_from (suc i) ms in if m then i ∷ rest else rest

abbrev pub flatnonzero : List Bool → List ℕ
flatnonzero = flatnonzero_from 0

-- np.cumsum, from a start
abbrev pub cumsum_from : ℕ → List ℕ → List ℕ
cumsum_from a [] = []
cumsum_from a (x ∷ xs) = (a + x) ∷ cumsum_from (a + x) xs

-- np.bincount(labels, minlength=k), for labels below k: the counts of the labels from c on
unfoldable pub bincount_from : ℕ → ℕ → List ℕ → List ℕ
bincount_from c zero labels = []
bincount_from c (suc k) labels =
    length (filter (λ l. l == c) labels) ∷ bincount_from (suc c) k labels

-- np.diff
abbrev pub diff : List ℕ → List ℕ
diff [] = []
diff (a ∷ []) = []
diff (a ∷ b ∷ xs) = (b - a) ∷ diff (b ∷ xs)

-- np.repeat(np.arange(c, ...), counts)
abbrev pub repeat_from : ℕ → List ℕ → List ℕ
repeat_from c [] = []
repeat_from c (n ∷ ns) = replicate n c ++ repeat_from (suc c) ns

-- np.argmax: the first position of the greatest value
abbrev pub argmax_from : ℕ → ℕ → ℕ → List ℕ → ℕ
argmax_from best value i [] = best
argmax_from best value i (x ∷ xs) =
    let later = ltb value x in
    argmax_from (if later then i else best) (if later then x else value) (suc i) xs

abbrev pub argmax : List ℕ → ℕ
argmax [] = 0
argmax (x ∷ xs) = argmax_from 0 x 1 xs

-- np.unique: the values in ascending order, each once
unfoldable pub add_unique : ℕ → List ℕ → List ℕ
add_unique x [] = x ∷ []
add_unique x (y ∷ ys) =
    if ltb x y then x ∷ y ∷ ys else if x == y then y ∷ ys else y ∷ add_unique x ys

unfoldable pub unique : List ℕ → List ℕ
unfolding add_unique
unique [] = []
unique (x ∷ xs) = add_unique x (unique xs)

abbrev pub sum : List ℕ → ℕ
sum [] = 0
sum (x ∷ xs) = x + sum xs

module _ {ℓ κ} {A : Type ℓ} {B : Type κ} where
  pub get_or-map :
      (f : A → B) (xs : List A) (i : ℕ) (a : A) (b : B)
      → i < length xs
      → get_or (map f xs) i b ≡ f (get_or xs i a)
  get_or-map f [] i a b h = elim h [ ]
  get_or-map f (x ∷ xs) zero a b h = refl
  get_or-map f (x ∷ xs) (suc i) a b h = get_or-map f xs i a b (omega arith)

  pub map_cong_All : (f g : A → B) (xs : List A) → All (λ x. f x ≡ g x) xs → map f xs ≡ map g xs
  map_cong_All f g [] h = refl
  map_cong_All f g (x ∷ xs) h = cc (h.0, map_cong_All f g xs h.1)

  pub filter-map :
      (p : B → Bool) (f : A → B) (xs : List A)
      → filter p (map f xs) ≡ map f (filter (λ x. p (f x)) xs)
  filter-map p f [] = refl
  filter-map p f (x ∷ xs) = ground (arith, filter-map p f xs)

module _ {ℓ} {A : Type ℓ} where
  pub map_id : (xs : List A) → map (λ x. x) xs ≡ xs
  map_id [] = refl
  map_id (x ∷ xs) = ap (◌∷◌ x) (map_id xs)

  length-filter-permᴰ :
      (p : A → Bool) {xs ys : List A} → Permᴰ xs ys → length (filter p xs) ≡ length (filter p ys)
  length-filter-permᴰ p Permᴰ.nil = refl
  length-filter-permᴰ p (Permᴰ.cons e h) = ground (arith, length-filter-permᴰ p h)
  length-filter-permᴰ p (Permᴰ.swap e e') = ground arith
  length-filter-permᴰ p (Permᴰ.trans h k) = length-filter-permᴰ p h ∙ length-filter-permᴰ p k

  pub length-filter-perm :
      (p : A → Bool) {xs ys : List A} → Perm xs ys → length (filter p xs) ≡ length (filter p ys)
  length-filter-perm p h = ∥∥₁_elim h (ℕ_set _ _) (length-filter-permᴰ p)

  length-permᴰ : {xs ys : List A} → Permᴰ xs ys → length xs ≡ length ys
  length-permᴰ Permᴰ.nil = refl
  length-permᴰ (Permᴰ.cons e h) = ap suc (length-permᴰ h)
  length-permᴰ (Permᴰ.swap e e') = refl
  length-permᴰ (Permᴰ.trans h k) = length-permᴰ h ∙ length-permᴰ k

  pub length-perm : {xs ys : List A} → Perm xs ys → length xs ≡ length ys
  length-perm h = ∥∥₁_elim h (ℕ_set _ _) length-permᴰ

  -- At least the first n pass.
  pub length-filter-ge :
      (p : A → Bool) (n : ℕ) (xs : List A)
      → n ≤ length xs
      → All (λ x. p x ≡ true) (take n xs)
      → n ≤ length (filter p xs)
  length-filter-ge p zero xs le h = omega arith
  length-filter-ge p (suc n) [] le h = absurd (omega arith)
  length-filter-ge p (suc n) (x ∷ xs) le h =
      rw h.0 (omega (arith, length-filter-ge p n xs (omega arith) h.1))

-- The positions of the true entries are the positions that pass.
pub flatnonzero_from-filter :
    (i : ℕ) (ms : List Bool) (f : ℕ → Bool)
    → ((j : ℕ) → j < length ms → get_or ms j false ≡ f (i + j))
    → flatnonzero_from i ms ≡ filter f (range_from i (length ms))
flatnonzero_from-filter i [] f h = refl
flatnonzero_from-filter i (m ∷ ms) f h =
    let e : m ≡ f i = h 0 (omega arith) ∙ ap f (omega arith) in
    let ih =
      flatnonzero_from-filter (suc i) ms f (λ j l. h (suc j) (omega arith) ∙ ap f (omega arith)) in
    rw (← e) (rw ih)
