-- ===== src/Ivf/Buckets.antt =====
-- Cutting a list that is sorted by label at the counts of the labels gives the rows of each label.
use vector_retrieval_optimiz.Prelude.{
  ℕ, ◌+◌, zero, suc, ◌≤◌, ◌<◌, ◌≡◌, refl, ap, ◌∙◌, Bool, true, false, List, [], ◌∷◌, ltb, ◌==◌,
  length, get_or, take, drop, filter, All, All-map, arith, dec_lt,
}
use vector_retrieval_optimiz.Prelude.Arrays.{cumsum_from, bincount_from}
use vector_retrieval_optimiz.Prelude.Sorting.{Sorted, sort_by, insert_by_front}

module _ {ℓ} {A : Type ℓ} (key : A → ℕ) where
  abbrev pub key_lt : A → A → Bool
  key_lt a b = ltb (key a) (key b)

  abbrev pub is_below : ℕ → A → Bool
  is_below c a = ltb (key a) c

  abbrev pub is_at : ℕ → A → Bool
  is_at c a = key a == c

  none_below :
      (c : ℕ) (x : A) (xs : List A)
      → All (λ y. key_lt y x ≡ false) xs
      → c ≤ key x
      → length (filter (is_below c) xs) ≡ 0
  none_below c x [] h le = refl
  none_below c x (y ∷ ys) h le = ground (arith, h.0, none_below c x ys h.1 le)

  none_at :
      (c : ℕ) (x : A) (xs : List A)
      → All (λ y. key_lt y x ≡ false) xs
      → c < key x
      → filter (is_at c) xs ≡ []
  none_at c x [] h le = refl
  none_at c x (y ∷ ys) h le = ground (arith, h.0, none_at c x ys h.1 le)

  -- In a sorted list the entries with one key are a segment, behind those with a lower key.
  pub segment :
      (c : ℕ) (xs : List A)
      → Sorted key_lt xs
      → take (length (filter (is_at c) xs)) (drop (length (filter (is_below c) xs)) xs)
        ≡ filter (is_at c) xs
  segment c [] h = refl
  segment c (x ∷ xs) h = elim (dec_lt (key x) c) [
    | yes l ↦ ground (arith, segment c xs h.1)
    | no l ↦ elim (dec_lt c (key x)) [
      | yes g ↦ ground (arith, none_at c x xs h.0 g)
      | no g ↦ ground (arith, segment c xs h.1, none_below c x xs h.0 (omega arith))
    ]
  ]

  -- A stable sort of entries with one key changes nothing.
  pub sort_by_at : (c : ℕ) (xs : List A) → All (λ x. is_at c x ≡ true) xs → sort_by key_lt xs ≡ xs
  unfolding sort_by
  sort_by_at c [] h = refl
  sort_by_at c (x ∷ xs) h =
      rw (sort_by_at c xs h.1)
        (insert_by_front key_lt x xs (All-map (λ y k. ground (arith, h.0)) xs h.1))

pub count_below_suc :
    (c : ℕ) (labels : List ℕ)
    → length (filter (is_below (λ l. l) (suc c)) labels)
      ≡ length (filter (is_below (λ l. l) c) labels) + length (filter (is_at (λ l. l) c) labels)
count_below_suc c [] = refl
count_below_suc c (l ∷ labels) = ground (arith, count_below_suc c labels)

-- The offset of a label is the number of entries with a lower label.
pub get_or-cumsum :
    (a b n j : ℕ) (labels : List ℕ)
    → j ≤ n
    → a ≡ length (filter (is_below (λ l. l) b) labels)
    → get_or (a ∷ cumsum_from a (bincount_from b n labels)) j 0
      ≡ length (filter (is_below (λ l. l) (b + j)) labels)
unfolding bincount_from
get_or-cumsum a b n zero labels h e =
    e ∙ ap (λ (c : ℕ). length (filter (is_below (λ l. l) c) labels)) (omega arith)
get_or-cumsum a b zero (suc j) labels h e = absurd (omega arith)
get_or-cumsum a b (suc n) (suc j) labels h e =
    get_or-cumsum (a + length (filter (is_at (λ l. l) b) labels)) (suc b) n j labels (omega arith)
      (omega (arith, e, count_below_suc b labels))
    ∙ ap (λ (c : ℕ). length (filter (is_below (λ l. l) c) labels)) {x = suc b + j} (omega arith)
