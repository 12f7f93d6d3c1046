-- ===== src/Tests/KmeansRuns.antt =====
-- k-means of three points with an empty center, and the flat lookup of a table.
use vector_retrieval_optimiz.Prelude.{
  ℕ, zero, suc, ◌+◌, ◌-◌, ◌*◌, ◌≤◌, ◌<◌, ◌≡◌, refl, List, [], ◌∷◌, ok, length, get_or, take, drop,
  arith,
}
use vector_retrieval_optimiz.Prelude.Arrays.{sum, bincount_from}
use vector_retrieval_optimiz.Numpy.{Score}
use vector_retrieval_optimiz.Numpy.Reference.{reference, dot, argsort}
use vector_retrieval_optimiz.Kmeans.{Arith, Fix, seek, fix_one, fix_all, fix_empty}
use vector_retrieval_optimiz.Kmeans.Counts.{times}
use vector_retrieval_optimiz.Kmeans.NoEmpty.{fix_empty-filled}

abbrev first_of : List (List ℕ) → List ℕ
first_of [] = []
first_of (x ∷ xs) = x

-- whole numbers in place of float32 values
abbrev pub whole : Arith reference
whole = record {
  plus = λ a b. a + b;
  minus = λ a b. a - b;
  twice = λ a. 2 * a;
  neg = λ a. 100 - a;
  total = sum;
  product = dot;
  diff_rows = λ x y. x;
  mean = first_of;
  unit = λ x. x;
  columns = λ a b x. take (b - a) (drop a x);
}

abbrev points : List (List ℕ)
points = (4 ∷ []) ∷ (1 ∷ []) ∷ (6 ∷ []) ∷ []

abbrev centers : List (List ℕ)
centers = (5 ∷ []) ∷ (0 ∷ []) ∷ []

abbrev labels : List ℕ
labels = 0 ∷ 0 ∷ 0 ∷ []

abbrev fits : List Score
fits = 20 ∷ 5 ∷ 30 ∷ []

-- The point 1 fits worst and moves to the empty center.
fix_empty_run :
    fix_empty reference whole points centers labels fits
    ≡ ok (record {
      counts = 2 ∷ 1 ∷ [];
      labels = 0 ∷ 1 ∷ 0 ∷ [];
      centers = (5 ∷ []) ∷ (1 ∷ []) ∷ [];
      order = 0 ∷ 2 ∷ [];
    })
unfolding fix_empty fix_all bincount_from fix_one seek argsort
fix_empty_run = refl

labels-below : (p : ℕ) → p < 3 → get_or labels p 0 < 2
labels-below zero h = omega arith
labels-below (suc zero) h = omega arith
labels-below (suc (suc zero)) h = omega arith
labels-below (suc (suc (suc p))) h = absurd (omega arith)

fix_empty-filled_example :
    (end : Fix (List ℕ)) × (fix_empty reference whole points centers labels fits ≡ ok end)
    × (length end.labels ≡ 3)
    × ((p : ℕ) → p < 3 → get_or end.labels p 0 < 2)
    × ((c : ℕ) → c < 2 → 1 ≤ times c end.labels)
fix_empty-filled_example =
    fix_empty-filled reference whole points centers labels fits (omega arith) refl refl labels-below
