-- ===== src/Kmeans/Moves.antt =====
-- One round of `fix_empty` of kmeans.py: a point moves to the empty center c.
use vector_retrieval_optimiz.Prelude.{
  ℕ, ◌≤◌, ◌<◌, ◌≡◌, ◌⊎◌, ap, true, List, [], ◌∷◌, ◌==◌, none, some, leb, length, get_or, arith,
  Bool-cases, inl, inr, elem,
}
use vector_retrieval_optimiz.Kmeans.{Fix, seek}
use vector_retrieval_optimiz.Kmeans.Counts.{times}

-- the count of the cluster of a point
abbrev pub size_at : List ℕ → List ℕ → ℕ → ℕ
size_at counts labels p = get_or counts (get_or labels p 0) 0

-- If the search finds no point, no point that it passed has company in its cluster.
pub seek-none :
    (counts labels order : List ℕ)
    → seek counts labels order ≡ none
    → (q : ℕ) → elem q order ≡ true
    → size_at counts labels q ≤ 1
unfolding seek
seek-none counts labels [] e q m = cc
seek-none counts labels (p ∷ order) e q m = elim (Bool-cases (leb (size_at counts labels p) 1)) [
  | inl few ↦ elim (Bool-cases (p == q)) [
    | inl same ↦ let eq : p ≡ q = ground arith in rw (← eq) (ground arith)
    | inr other ↦
        seek-none counts labels order (ground (arith, e, few)) q (ground (arith, m, other))
  ]
  | inr many ↦ absurd (ground (arith, e, many))
]

-- What the search finds has company, and it passed only points that have none.
pub record IsSought (counts labels order : List ℕ) (p : ℕ) (rest : List ℕ) : Type 0 where
  pub company : 2 ≤ size_at counts labels p
  pub listed : elem p order ≡ true
  pub inner : (q : ℕ) → elem q rest ≡ true → elem q order ≡ true
  pub passed :
      (q : ℕ)
      → elem q order ≡ true
      → (q ≡ p) ⊎ ((elem q rest ≡ true) ⊎ (size_at counts labels q ≤ 1))

pub seek-some :
    (counts labels order : List ℕ) (p : ℕ) (rest : List ℕ)
    → seek counts labels order ≡ some (p, rest)
    → IsSought counts labels order p rest
unfolding seek
seek-some counts labels [] p rest e = cc
seek-some counts labels (o ∷ order) p rest e = elim (Bool-cases (leb (size_at counts labels o) 1)) [
  | inl few ↦
      let s = seek-some counts labels order p rest (ground (arith, e, few)) in
      record {
        company = s.company;
        listed = ground (arith, s.listed);
        inner = λ q m. ground (arith, s.inner q m);
        passed = λ q m. elim (Bool-cases (o == q)) [
          | inl same ↦ let eq : o ≡ q = ground arith in inr (inr (rw (← eq) (ground arith)))
          | inr other ↦ s.passed q (ground (arith, m, other))
        ];
      }
  | inr many ↦
      let pair : (o, order) ≡ (p, rest) = some-inj (o, order) (p, rest) (ground (arith, e, many)) in
      let same : o ≡ p = ap (λ (x : ℕ × List ℕ). x.0) pair in
      let tail : order ≡ rest = ap (λ (x : ℕ × List ℕ). x.1) pair in
      record {
        company = rw (← same) (ground arith);
        listed = ground arith;
        inner = λ q m. ground (arith, ap (elem q) tail);
        passed = λ q m. elim (Bool-cases (o == q)) [
          | inl here ↦ inl (ground arith)
          | inr other ↦ inr (inl (ground (arith, m, other, ap (elem q) tail)))
        ];
      }
]
  where
    some-inj : (a b : ℕ × List ℕ) → some a ≡ some b → a ≡ b
    some-inj a b e = cc

-- The counts are those of the labels, and a point that is not in `order` any more is alone in its
-- cluster.
pub record IsFix {V : Type 0} (k n : ℕ) (s : Fix V) : Type 0 where
  pub points : length s.labels ≡ n
  pub below : (p : ℕ) → p < n → get_or s.labels p 0 < k
  pub counted : length s.counts ≡ k
  pub counts_eq : (x : ℕ) → x < k → get_or s.counts x 0 ≡ times x s.labels
  pub in_range : (q : ℕ) → elem q s.order ≡ true → q < n
  pub rest : (q : ℕ) → q < n → (elem q s.order ≡ true) ⊎ (times (get_or s.labels q 0) s.labels ≤ 1)
