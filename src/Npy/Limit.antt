-- ===== src/Npy/Limit.antt =====
-- The argument `limit` of `read_npy`.
use vector_retrieval_optimiz.Prelude.{
  ℕ, zero, suc, ◌*◌, ◌≤◌, ◌≡◌, refl, ap, ◌∙◌, sym, true, List, [], ◌∷◌, none, some, Result, ok,
  ◌==◌, ==_iff, leb, le→leb, length, length-take, take, drop, min, Bool-cases, Result-cases, inl,
  inr, arith,
}
use vector_retrieval_optimiz.Vro.{count_of}
use vector_retrieval_optimiz.Npy.{Head, Dtype, itemsize, parse_header, read_items, read_npy}

take-take : (m n : ℕ) (xs : List ℕ) → m ≤ n → take m (take n xs) ≡ take m xs
take-take zero n xs h = refl
take-take (suc m) zero xs h = absurd (omega arith)
take-take (suc m) (suc n) [] h = refl
take-take (suc m) (suc n) (x ∷ xs) h = ap (◌∷◌ x) (take-take m n xs (omega arith))

scaled_le : (a b c k : ℕ) → a ≤ b → a * c * k ≤ b * c * k
scaled_le a b c k h = grind arith

read_items_limit :
    (file : List ℕ) (limit : ℕ) (found dtype : Dtype) (shape : List ℕ) (offset d : ℕ)
    (ds items : List ℕ)
    → read_items file none (found, shape, offset) ≡ ok (dtype, d ∷ ds, items)
    → read_items file (some limit) (found, shape, offset)
      ≡ ok (dtype, min d limit ∷ ds, take (min d limit * count_of ds * itemsize dtype) items)
unfolding read_items
read_items_limit file limit found dtype [] offset d ds items e =
    let size : ℕ = 1 * 1 * itemsize found in
    elim (Bool-cases (length (take size (drop offset file)) == size)) [
      | inl whole ↦ absurd (let e' = rw whole at e in cc)
      | inr short ↦ absurd (let e' = rw short at e in cc)
    ]
read_items_limit file limit found dtype (n ∷ ns) offset d ds items e =
    let size = n * count_of ns * itemsize found in
    let size' = min n limit * count_of ns * itemsize found in
    let content = drop offset file in
    elim (Bool-cases (length (take size content) == size)) [
      | inl whole ↦
          let shaped : leb 1 (suc (length ns)) ≡ true = le→leb 1 (suc (length ns)) (omega arith) in
          let e' = rw (whole, shaped) at e in
          let less : size' ≤ size =
            scaled_le (min n limit) n (count_of ns) (itemsize found) (omega arith) in
          let enough : (length (take size' content) == size') ≡ true =
            (==_iff (length (take size' content)) size').1 (
              omega (
                arith,
                (==_iff (length (take size content)) size).0 whole,
                length-take size content,
                length-take size' content,
              )) in
          let same_d : n ≡ d = cc in
          let same_ds : ns ≡ ds = cc in
          let same_dtype : found ≡ dtype = cc in
          let same_items : take size content ≡ items = cc in
          rw (enough, shaped)
            (ap
                (λ (xs : List ℕ).
                  let r : Result (Dtype × List ℕ × List ℕ) = ok (found, min n limit ∷ ns, xs) in r)
                (sym (take-take size' size content less) ∙ ap (take size') same_items)
              ∙ cc (same_d, same_ds, same_dtype))
      | inr short ↦ absurd (let e' = rw short at e in cc)
    ]

-- Where a whole array of rows is read, a read with a limit gives the same dtype, the first rows up to the
-- limit, and the shape of those.
pub read_npy_limit :
    (literal_eval : List ℕ → Result Head) (file : List ℕ) (limit : ℕ) (dtype : Dtype) (d : ℕ)
    (ds items : List ℕ)
    → read_npy literal_eval file none ≡ ok (dtype, d ∷ ds, items)
    → read_npy literal_eval file (some limit)
      ≡ ok (dtype, min d limit ∷ ds, take (min d limit * count_of ds * itemsize dtype) items)
unfolding read_npy
read_npy_limit literal_eval file limit dtype d ds items e =
    elim (Result-cases (parse_header literal_eval (take 65536 file))) [
      | inl (error, failed) ↦ absurd (let e' = rw (read_npy, failed) at e in cc)
      | inr ((found, shape, offset), parsed) ↦
          rw (read_npy, parsed)
            (read_items_limit file limit found dtype shape offset d ds items
              (rw (read_npy, parsed) at e))
    ]
