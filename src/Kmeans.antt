-- ===== src/Kmeans.antt =====
-- indexes/python/kmeans.py: the k-means that the inverted files and the codebooks share.
-- The arithmetic of float32 values and rows is a parameter.
pub mod Counts
pub mod Moves
pub mod Fixed
pub mod NoEmpty
pub mod Returns
use vector_retrieval_optimiz.Prelude.{
  ℕ, zero, suc, ◌+◌, ◌-◌, ◌*◌, Bool, true, false, not, ◌&&◌, String, List, [], ◌∷◌, ◌++◌, map,
  Option, none, some, Result, ok, raise, value_error, index_error, guard, ◌>>=◌, ◌>>◌, ltb, leb,
  ◌==◌, if◌then◌else◌, length, get_or, set, filter, take, range_from, min, max, str_eq, any, elem,
}
use vector_retrieval_optimiz.Prelude.Arrays.{argmax, bincount_from, flatnonzero, gather}
use vector_retrieval_optimiz.Numpy.{Numpy, Score, neg_inf}
use vector_retrieval_optimiz.Splitmix.{Rng, new, next_below}

pub record Arith (np : Numpy) : Type 0 where
  -- sums, differences, doubles and negatives of float32 values, and the sum of an array
  pub plus : Score → Score → Score
  pub minus : Score → Score → Score
  pub twice : Score → Score
  pub neg : Score → Score
  pub total : List Score → Score
  -- the product of two rows, as np.einsum computes it
  pub product : np.Vec → np.Vec → Score
  -- the difference of two rows
  pub diff_rows : np.Vec → np.Vec → np.Vec
  -- the mean of rows, summed in float64
  pub mean : List np.Vec → np.Vec
  -- a row over its norm
  pub unit : np.Vec → np.Vec
  -- row[a : b]
  pub columns : ℕ → ℕ → np.Vec → np.Vec

abbrev pub default_train_size : ℕ → ℕ → ℕ
default_train_size n k = max k (min n (256 * k))

-- The loop of `init_centers` for at most a number of draws: the rows chosen, in order.
unfoldable pub draw_rows : ℕ → ℕ → ℕ → Rng → List ℕ → List ℕ
draw_rows zero n k rng chosen = chosen
draw_rows (suc draws) n k rng chosen = elim (leb k (length chosen)) [
  | true ↦ chosen
  | false ↦
      let (rng', i) = next_below rng n in
      draw_rows draws n k rng' (if elem i chosen then chosen else chosen ++ i ∷ [])
]

-- The arrays that `fix_empty` changes, and the points from `order[used]` on.
pub record Fix (V : Type 0) : Type 0 where
  pub counts : List ℕ
  pub labels : List ℕ
  pub centers : List V
  pub order : List ℕ

-- the inner loop: the next worst point whose cluster does not become empty, and the points behind it
unfoldable pub seek : List ℕ → List ℕ → List ℕ → Option (ℕ × List ℕ)
seek counts labels [] = none
seek counts labels (p ∷ order) = elim (leb (get_or counts (get_or labels p 0) 0) 1) [
  | true ↦ seek counts labels order
  | false ↦ some (p, order)
]

-- train[p]
unfoldable pub row_at : {V : Type 0} → List V → ℕ → Result V
row_at [] p = raise index_error
row_at (x ∷ xs) zero = ok x
row_at (x ∷ xs) (suc p) = row_at xs p

-- the body of the loop over the empty centers; past the last point, a read raises
unfoldable pub fix_one : {V : Type 0} → List V → Fix V → ℕ → Result (Fix V)
unfolding row_at
fix_one train s c = elim (seek s.counts s.labels s.order) [
  | none ↦ raise index_error
  | some (p, order) ↦
      let old = get_or s.labels p 0 in
      do
        row ← row_at train p
        ok (record {
          counts = set (set s.counts old (get_or s.counts old 0 - 1)) c 1;
          labels = set s.labels p c;
          centers = set s.centers c row;
          order = order;
        })
]

unfoldable pub fix_all : {V : Type 0} → List V → List ℕ → Fix V → Result (Fix V)
fix_all train [] s = ok s
fix_all train (c ∷ cs) s = do s' ← fix_one train s c; fix_all train cs s'

-- np.array_equal
unfoldable pub same_labels : List ℕ → List ℕ → Bool
same_labels [] [] = true
same_labels (a ∷ as') (b ∷ bs) = a == b && same_labels as' bs
same_labels [] (b ∷ bs) = false
same_labels (a ∷ as') [] = false

abbrev pub is_previous : Option (List ℕ) → List ℕ → Bool
is_previous none labels = false
is_previous (some prev) labels = same_labels labels prev

module _ (np : Numpy) (arith_ops : Arith np) where
  open np use {Vec, zero_vec, dot, argsort}

  unfoldable pub init_centers : ℕ → List Vec → ℕ → ℕ → Result (List Vec)
  init_centers draws train k seed = do
    guard (leb k (length train)) value_error
    ok (gather zero_vec train (draw_rows draws (length train) k (new seed) []))

  -- the score of a point for a center
  unfoldable pub center_score : String → Vec → Vec → Score
  center_score metric p c =
      if str_eq metric "l2"
      then arith_ops.minus (arith_ops.twice (dot p c)) (arith_ops.product c c)
      else dot p c

  unfoldable pub label_of : String → List Vec → Vec → ℕ
  label_of metric centers p = argmax (map (center_score metric p) centers)

  unfoldable pub fit_of : String → List Vec → Vec → Score
  fit_of metric centers p =
      let s = get_or (map (center_score metric p) centers) (label_of metric centers p) neg_inf in
      if str_eq metric "l2" then arith_ops.minus s (arith_ops.product p p) else s

  -- the labels and the fits
  unfoldable pub assign : List Vec → List Vec → String → List ℕ × List Score
  assign points centers metric =
      (map (label_of metric centers) points, map (fit_of metric centers) points)

  unfoldable pub fix_empty : List Vec → List Vec → List ℕ → List Score → Result (Fix Vec)
  fix_empty train centers labels fit =
      let counts = bincount_from 0 (length centers) labels in
      fix_all train (flatnonzero (map (λ n. n == 0) counts))
        (record { counts = counts; labels = labels; centers = centers; order = argsort fit })

  -- the rows with a label
  unfoldable pub cluster : List Vec → List ℕ → ℕ → List Vec
  cluster train labels c =
      gather zero_vec train (filter (λ i. get_or labels i 0 == c) (range_from 0 (length train)))

  unfoldable pub update_centers : List Vec → List ℕ → ℕ → Bool → List Vec
  update_centers train labels k normalize =
      map
        (λ c.
          let center = arith_ops.mean (cluster train labels c) in
          if normalize then arith_ops.unit center else center)
        (range_from 0 k)

  -- the labels and centers that `update_centers` gets
  unfoldable pub without_empty : List Vec → ℕ → List Vec → List ℕ → List Score → Result (List ℕ)
  without_empty train k centers labels fit =
      if not (any (λ n. n == 0) (bincount_from 0 k labels))
      then ok labels
      else do s ← fix_empty train centers labels fit; ok s.labels

  -- the loop of `kmeans`
  unfoldable pub iterate :
      ℕ → List Vec → ℕ → String → Bool → List Vec → Option (List ℕ) → Result (List Vec)
  iterate zero train k metric normalize centers prev = ok centers
  iterate (suc iters) train k metric normalize centers prev =
      let (labels, fit) = assign train centers metric in
      elim (is_previous prev labels) [
        | true ↦ ok centers
        | false ↦ do
          moved ← without_empty train k centers labels fit
          iterate iters train k metric normalize (update_centers train moved k normalize)
              (some labels)
      ]

  unfoldable pub kmeans : ℕ → List Vec → ℕ → ℕ → ℕ → Option ℕ → String → Bool → Result (List Vec)
  kmeans draws points k iters seed train_size metric normalize =
      let size : ℕ = elim train_size [ none ↦ default_train_size (length points) k | some t ↦ t ] in
      let train = take (max k size) points in
      do
        centers ← init_centers draws train k seed
        iterate iters train k metric normalize centers none
