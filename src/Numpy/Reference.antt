-- ===== src/Numpy/Reference.antt =====
-- A value of the numpy interface: rows of natural numbers, and sorts by insertion. It shows that the
-- laws can be met, and runs the model on concrete inputs.
use mathlib.Core.List.{Perm}
use vector_retrieval_optimiz.Prelude.{
  ℕ, zero, suc, ◌+◌, ◌*◌, ◌≤◌, ◌<◌, ◌≡◌, refl, List, [], ◌∷◌, map, Bool, false, ltb, length, get_or,
  take, All, All-map, range_from, arith,
}
use vector_retrieval_optimiz.Prelude.Ranges.{range_from-bound, length-range_from}
use vector_retrieval_optimiz.Prelude.Sorting.{
  StrictWeak, Sorted, map-sort_by, sort_by, sort_by-perm, sort_by-Sorted, All-sort_by,
  length-sort_by,
}
use vector_retrieval_optimiz.Numpy.{Numpy, Score, neg_inf, better, hit_at, label_lt, label_id_lt}

module _ {ℓ} {A : Type ℓ} {lt : A → A → Bool} (o : StrictWeak lt) (d : A) where
  All-get_or : (P : A → Type 0) (xs : List A) (j : ℕ) → j < length xs → All P xs → P (get_or xs j d)
  All-get_or P [] j h a = elim h [ ]
  All-get_or P (x ∷ xs) zero h a = a.0
  All-get_or P (x ∷ xs) (suc j) h a = All-get_or P xs j (omega arith) a.1

  -- nothing in front of the j-th entry of a sorted list is strictly behind it
  Sorted-front :
      (xs : List A) (j : ℕ)
      → j < length xs
      → Sorted lt xs
      → All (λ x. lt (get_or xs j d) x ≡ false) (take (suc j) xs)
  Sorted-front [] j h s = elim h [ ]
  Sorted-front (x ∷ xs) zero h s = (irrefl x, tt)
    where
      irrefl : (a : A) → lt a a ≡ false
      irrefl a = ground (arith, o.asym a a)
  Sorted-front (x ∷ xs) (suc j) h s =
      (All-get_or (λ y. lt y x ≡ false) xs j (omega arith) s.0, Sorted-front xs j (omega arith) s.1)

unfoldable pub dot : List ℕ → List ℕ → Score
dot (x ∷ xs) (y ∷ ys) = x * y + dot xs ys
dot [] ys = 1
dot (x ∷ xs) [] = 1

abbrev worse_at : List Score → ℕ → ℕ → Bool
worse_at s i j = ltb (get_or s j neg_inf) (get_or s i neg_inf)

worse_at-StrictWeak : (s : List Score) → StrictWeak (worse_at s)
worse_at-StrictWeak s = record {
  asym = λ a b h. ground arith;
  negtrans = λ a b c h k. ground arith;
}

unfoldable pub argpartition : List Score → ℕ → List ℕ
unfolding sort_by
argpartition s j = sort_by (worse_at s) (range_from 0 (length s))

unfoldable pub lexsort : List ℕ → List Score → List ℕ
unfolding sort_by
lexsort ids s = sort_by (λ i j. better (hit_at ids s i) (hit_at ids s j)) (range_from 0 (length s))

pub argpartition-perm_lem :
    (s : List Score) (j : ℕ) → j < length s → Perm (argpartition s j) (range_from 0 (length s))
unfolding argpartition
argpartition-perm_lem s j h = sort_by-perm (worse_at s) (range_from 0 (length s))

pub argpartition-front_lem :
    (s : List Score) (j : ℕ)
    → j < length s
    → All
        (λ i. get_or s (get_or (argpartition s j) j 0) neg_inf ≤ get_or s i neg_inf)
        (take (suc j) (argpartition s j))
unfolding argpartition
argpartition-front_lem s j h =
    let r = range_from 0 (length s) in
    All-map (λ i k. ground arith) _
      (Sorted-front (worse_at-StrictWeak s) 0 (sort_by (worse_at s) r) j
        (omega (arith, length-sort_by (worse_at s) r, length-range_from 0 (length s)))
        (sort_by-Sorted (worse_at-StrictWeak s) r))

pub lexsort-in_range_lem : (ids : List ℕ) (s : List Score) → All (λ i. i < length s) (lexsort ids s)
unfolding lexsort
lexsort-in_range_lem ids s =
    All-sort_by _ _ _ (range_from-bound 0 (length s) (length s) (omega arith))

pub lexsort-sorts_lem :
    (ids : List ℕ) (s : List Score)
    → length ids ≡ length s
    → map (hit_at ids s) (lexsort ids s)
      ≡ sort_by better (map (hit_at ids s) (range_from 0 (length s)))
unfolding lexsort
lexsort-sorts_lem ids s h = map-sort_by better (hit_at ids s) (range_from 0 (length s))

unfoldable pub argsort : List ℕ → List ℕ
unfolding sort_by
argsort labels = sort_by (label_lt labels) (range_from 0 (length labels))

unfoldable pub lexsort_ids : List ℕ → List ℕ → List ℕ
unfolding sort_by
lexsort_ids ids labels = sort_by (label_id_lt ids labels) (range_from 0 (length labels))

pub argsort_lem :
    (labels : List ℕ) → argsort labels ≡ sort_by (label_lt labels) (range_from 0 (length labels))
unfolding argsort
argsort_lem labels = refl

pub lexsort_ids_lem :
    (ids labels : List ℕ)
    → length ids ≡ length labels
    → lexsort_ids ids labels ≡ sort_by (label_id_lt ids labels) (range_from 0 (length labels))
unfolding lexsort_ids
lexsort_ids_lem ids labels same = refl

abbrev pub reference : Numpy
reference = record {
  Vec = List ℕ;
  zero_vec = [];
  dot = dot;
  argpartition = argpartition;
  argpartition-perm = argpartition-perm_lem;
  argpartition-front = argpartition-front_lem;
  lexsort = lexsort;
  lexsort-in_range = lexsort-in_range_lem;
  lexsort-sorts = lexsort-sorts_lem;
  argsort = argsort;
  argsort-sorts = argsort_lem;
  lexsort_ids = lexsort_ids;
  lexsort_ids-sorts = lexsort_ids_lem;
}
