-- ===== src/Pq/Lookup.antt =====
-- The flat lookup of pq.py's `search` against the table by sub-vector and code.
use vector_retrieval_optimiz.Prelude.{
  ℕ, zero, suc, ◌+◌, ◌*◌, ◌≤◌, ◌<◌, ◌≡◌, refl, ◌∙◌, ap, List, [], ◌∷◌, ◌++◌, length, get_or, All,
  arith,
}
use vector_retrieval_optimiz.Numpy.{Score, neg_inf}
use vector_retrieval_optimiz.Pq.{ravel, taken}

get_or-append_in :
    (xs ys : List Score) (i : ℕ) → i < length xs → get_or (xs ++ ys) i neg_inf ≡ get_or xs i neg_inf
get_or-append_in [] ys i h = absurd (omega arith)
get_or-append_in (x ∷ xs) ys zero h = refl
get_or-append_in (x ∷ xs) ys (suc i) h = get_or-append_in xs ys i (omega arith)

get_or-append_behind :
    (xs ys : List Score) (i : ℕ) → get_or (xs ++ ys) (length xs + i) neg_inf ≡ get_or ys i neg_inf
get_or-append_behind [] ys i = ap (λ (j : ℕ). get_or ys j neg_inf) {x = 0 + i} {y = i} (omega arith)
get_or-append_behind (x ∷ xs) ys i =
    ap (λ (j : ℕ). get_or (x ∷ xs ++ ys) j neg_inf) {x = suc (length xs) + i}
      {y = suc (length xs + i)} (omega arith)
    ∙ get_or-append_behind xs ys i

-- every row of the table has an entry for each of the 256 codes
abbrev pub IsTable : List (List Score) → Type 0
IsTable rows = All (λ row. length row ≡ 256) rows

get_or-ravel :
    (rows : List (List Score)) (j code : ℕ)
    → IsTable rows
    → j < length rows
    → code < 256
    → get_or (ravel rows) (code + j * 256) neg_inf ≡ get_or (get_or rows j []) code neg_inf
unfolding ravel
get_or-ravel [] j code t l h = absurd (omega arith)
get_or-ravel (row ∷ rows) zero code t l h =
    ap (λ (i : ℕ). get_or (row ++ ravel rows) i neg_inf) {x = code + zero * 256} {y = code}
      (omega arith)
    ∙ get_or-append_in row (ravel rows) code (omega (arith, t.0))
get_or-ravel (row ∷ rows) (suc j) code t l h =
    ap (λ (i : ℕ). get_or (row ++ ravel rows) i neg_inf) {x = code + suc j * 256}
      {y = length row + (code + j * 256)} (omega (arith, t.0))
    ∙ get_or-append_behind row (ravel rows) (code + j * 256)
    ∙ get_or-ravel rows j code t.1 (omega arith) h

-- T[j, code] for the codes of a row, from the sub-vector j on
abbrev pub looked_up : List (List Score) → ℕ → List ℕ → List Score
looked_up rows j [] = []
looked_up rows j (code ∷ codes) =
    get_or (get_or rows j []) code neg_inf ∷ looked_up rows (suc j) codes

-- For a table of 256 entries in each row, and no more codes than rows, all of them below 256, the flat
-- positions j * 256 + code hold the entries T[j, code].
pub taken-ravel :
    (rows : List (List Score)) (j : ℕ) (codes : List ℕ)
    → IsTable rows
    → j + length codes ≤ length rows
    → All (λ code. code < 256) codes
    → taken (ravel rows) j codes ≡ looked_up rows j codes
unfolding taken
taken-ravel rows j [] t l h = refl
taken-ravel rows j (code ∷ codes) t l h = cc (
  get_or-ravel rows j code t (omega arith) h.0,
  taken-ravel rows (suc j) codes t (omega arith) h.1,
)
