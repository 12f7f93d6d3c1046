-- ===== src/Kmeans/Counts.antt =====
-- How often a label occurs, as `np.bincount` counts it.
use vector_retrieval_optimiz.Prelude.{
  ℕ, zero, suc, ◌+◌, ◌≤◌, ◌<◌, ◌≡◌, refl, ◌∙◌, ap, Bool, true, false, List, [], ◌∷◌, ◌==◌, length,
  get_or, set, filter, All, arith, Bool-cases, inl, inr, dec_lt,
}
use vector_retrieval_optimiz.Prelude.Arrays.{bincount_from}

-- the number of points with the label c
abbrev pub times : ℕ → List ℕ → ℕ
times c labels = length (filter (λ l. l == c) labels)

abbrev pub one_where : Bool → ℕ
one_where true = 1
one_where false = 0

-- A point that moves from its label to c.
pub times-set :
    (x c p : ℕ) (labels : List ℕ)
    → p < length labels
    → times x (set labels p c) + one_where (get_or labels p 0 == x)
      ≡ times x labels + one_where (c == x)
times-set x c p [] h = absurd (omega arith)
times-set x c zero (l ∷ labels) h = ground arith
times-set x c (suc p) (l ∷ labels) h = ground (arith, times-set x c p labels (omega arith))

pub length-bincount_from : (c k : ℕ) (labels : List ℕ) → length (bincount_from c k labels) ≡ k
unfolding bincount_from
length-bincount_from c zero labels = refl
length-bincount_from c (suc k) labels = ap suc (length-bincount_from (suc c) k labels)

pub get_or-bincount_from :
    (c k : ℕ) (labels : List ℕ) (x : ℕ)
    → x < k
    → get_or (bincount_from c k labels) x 0 ≡ times (c + x) labels
unfolding bincount_from
get_or-bincount_from c zero labels x h = absurd (omega arith)
get_or-bincount_from c (suc k) labels zero h =
    ap (λ (i : ℕ). times i labels) {x = c} {y = c + zero} (omega arith)
get_or-bincount_from c (suc k) labels (suc x) h =
    get_or-bincount_from (suc c) k labels x (omega arith)
    ∙ ap (λ (i : ℕ). times i labels) {x = suc c + x} {y = c + suc x} (omega arith)

-- the sum of the counts of the labels from c on
abbrev tally : ℕ → ℕ → List ℕ → ℕ
tally c zero labels = 0
tally c (suc k) labels = times c labels + tally (suc c) k labels

tally-below : (c k l : ℕ) (labels : List ℕ) → l < c → tally c k (l ∷ labels) ≡ tally c k labels
tally-below c zero l labels h = refl
tally-below c (suc k) l labels h = ground (arith, tally-below (suc c) k l labels (omega arith))

tally-within :
    (c k l : ℕ) (labels : List ℕ)
    → c ≤ l
    → l < c + k
    → tally c k (l ∷ labels) ≡ suc (tally c k labels)
tally-within c zero l labels h u = absurd (omega arith)
tally-within c (suc k) l labels h u = elim (dec_lt c l) [
  | yes later ↦ ground (arith, tally-within (suc c) k l labels (omega arith) (omega arith))
  | no here ↦ ground (arith, tally-below (suc c) k l labels (omega arith))
]

tally-nil : (c k : ℕ) → tally c k [] ≡ 0
tally-nil c zero = refl
tally-nil c (suc k) = omega (arith, tally-nil (suc c) k)

-- The counts of labels below k add up to the number of points.
tally-length :
    (k : ℕ) (labels : List ℕ) → All (λ l. l < k) labels → tally 0 k labels ≡ length labels
tally-length k [] a = tally-nil 0 k
tally-length k (l ∷ labels) a =
    omega (
      arith,
      tally-within 0 k l labels (omega arith) (omega (arith, a.0)),
      tally-length k labels a.1,
    )

tally-le : (c k : ℕ) (labels : List ℕ) → ((x : ℕ) → times x labels ≤ 1) → tally c k labels ≤ k
tally-le c zero labels h = omega arith
tally-le c (suc k) labels h = omega (arith, h c, tally-le (suc c) k labels h)

tally-lt :
    (c k x : ℕ) (labels : List ℕ)
    → ((x : ℕ) → times x labels ≤ 1)
    → c ≤ x
    → x < c + k
    → times x labels ≡ 0
    → tally c k labels < k
tally-lt c zero x labels h l u e = absurd (omega arith)
tally-lt c (suc k) x labels h l u e = elim (dec_lt c x) [
  | yes later ↦ omega (arith, h c, tally-lt (suc c) k x labels h (omega arith) (omega arith) e)
  | no here ↦
      let same : c ≡ x = omega arith in
      omega (arith, ap (λ (i : ℕ). times i labels) same, e, tally-le (suc c) k labels h)
]

-- With as many points as labels, an unused label leaves some label used twice.
pub pigeonhole :
    (k x : ℕ) (labels : List ℕ)
    → All (λ l. l < k) labels
    → k ≤ length labels
    → x < k
    → times x labels ≡ 0
    → ((c : ℕ) → times c labels ≤ 1)
    → ⊥
pigeonhole k x labels a le u e h =
    omega (arith, tally-length k labels a, tally-lt 0 k x labels h (omega arith) (omega arith) e)

-- A label that is counted is the label of some point.
pub times-find :
    (c : ℕ) (labels : List ℕ)
    → 1 ≤ times c labels
    → (p : ℕ) × (p < length labels) × (get_or labels p 0 ≡ c)
times-find c [] h = absurd (omega arith)
times-find c (l ∷ labels) h = elim (Bool-cases (l == c)) [
  | inl same ↦ (0, omega arith, ground arith)
  | inr other ↦
      let (p, l', e) = times-find c labels (ground (arith, h, other)) in (suc p, omega arith, e)
]

-- The label of a point is counted.
pub times-label :
    (labels : List ℕ) (p : ℕ) → p < length labels → 1 ≤ times (get_or labels p 0) labels
times-label [] p h = absurd (omega arith)
times-label (l ∷ labels) zero h = ground arith
times-label (l ∷ labels) (suc p) h = ground (arith, times-label labels p (omega arith))
