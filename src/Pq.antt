-- ===== src/Pq.antt =====
-- indexes/python/pq.py: product quantization. The codebooks are trained one after the other, since each
-- has a seed and columns of its own. The blocks of rows of `encode` only bound its memory.
pub mod Lookup
use vector_retrieval_optimiz.Prelude.{
  ℕ, zero, suc, ◌+◌, ◌-◌, ◌*◌, ◌/◌, ◌%◌, Bool, true, false, not, ◌&&◌, ◌||◌, String, List, [], ◌∷◌,
  ◌++◌, map, Option, none, some, Result, ok, raise, value_error, guard, ◌>>=◌, ◌>>◌, ltb, ◌==◌,
  if◌then◌else◌, length, get_or, take, range_from, min, str_eq,
}
use vector_retrieval_optimiz.Prelude.Arrays.{gather, sum}
use vector_retrieval_optimiz.Numpy.{Numpy, Score, neg_inf}
use vector_retrieval_optimiz.Distance.{Ranking, top_k}
use vector_retrieval_optimiz.Kmeans.{Arith, label_of, kmeans}

-- `_check`, for the parameters m, nbits and metric
unfoldable pub checked : ℕ → ℕ → String → ℕ → Result (ℕ × String)
checked m nbits metric dim = do
  guard (nbits == 8) value_error
  guard (str_eq metric "ip" || str_eq metric "l2") value_error
  guard (ltb 0 m && dim % m == 0) value_error
  ok (m, metric)

-- The rows before the padding of a ranking: `cand[cand >= 0]`.
unfoldable pub present : List (Option ℕ) → List ℕ
present [] = []
present (none ∷ ids) = present ids
present (some i ∷ ids) = i ∷ present ids

-- t.ravel()
unfoldable pub ravel : List (List Score) → List Score
ravel [] = []
ravel (row ∷ rows) = row ++ ravel rows

-- np.take(flat, codes + offsets) for the codes of one row, from the sub-vector j on
unfoldable pub taken : List Score → ℕ → List ℕ → List Score
taken flat j [] = []
taken flat j (code ∷ codes) = get_or flat (code + j * 256) neg_inf ∷ taken flat (suc j) codes

pub record Index (V : Type 0) : Type 0 where
  pub vectors : List V
  pub codebooks : List (List V)
  pub codebook_sq : List (List Score)
  pub codes : List (List ℕ)
  pub sub : ℕ
  pub metric : String
  pub distance_computations : ℕ

module _ (np : Numpy) (arith_ops : Arith np) where
  open np use {Vec, zero_vec, dot}

  -- a row's values of the sub-vector j
  unfoldable pub sub_row : ℕ → ℕ → Vec → Vec
  sub_row sub j x = arith_ops.columns (j * sub) (suc j * sub) x

  unfoldable pub train_codebook : ℕ → List Vec → ℕ → ℕ → String → Result (List Vec)
  train_codebook draws train iters seed metric =
      kmeans np arith_ops draws train 256 iters seed (some (length train)) metric false

  -- the codebooks of the sub-vectors from j on
  unfoldable pub train_from : ℕ → List Vec → ℕ → ℕ → ℕ → String → ℕ → ℕ → Result (List (List Vec))
  train_from draws train sub iters seed metric j zero = ok []
  train_from draws train sub iters seed metric j (suc m) = do
    book ← train_codebook draws (map (sub_row sub j) train) iters (seed + j) metric
    books ← train_from draws train sub iters seed metric (suc j) m
    ok (book ∷ books)

  -- the codes of one row
  unfoldable pub encode_from : ℕ → String → ℕ → List (List Vec) → Vec → List ℕ
  encode_from sub metric j [] x = []
  encode_from sub metric j (book ∷ books) x =
      label_of np arith_ops metric book (sub_row sub j x) ∷ encode_from sub metric (suc j) books x

  unfoldable pub encode : List Vec → ℕ → List (List Vec) → String → List (List ℕ)
  encode vectors sub codebooks metric = map (encode_from sub metric 0 codebooks) vectors

  -- np.einsum("jcs,jcs->jc", codebooks, codebooks)
  unfoldable pub squares : List (List Vec) → List (List Score)
  squares codebooks = map (map (λ c. arith_ops.product c c)) codebooks

  unfoldable pub build : ℕ → List Vec → ℕ → ℕ → ℕ → String → ℕ → ℕ → ℕ → Result (Index Vec)
  build draws vectors dim m nbits metric train_size iters seed = do
    (m', metric') ← checked m nbits metric dim
    let sub = dim / m'
    codebooks ←
        train_from draws (take (min (length vectors) train_size) vectors) sub iters seed metric' 0
          m'
    ok (record {
      vectors = vectors;
      codebooks = codebooks;
      codebook_sq = squares codebooks;
      codes = encode vectors sub codebooks metric';
      sub = sub;
      metric = metric';
      distance_computations = 0;
    })

  -- one entry of the table, for a centroid with its square
  unfoldable pub table_entry : String → Vec → Vec → Score → Score
  table_entry metric q c c_sq =
      if str_eq metric "ip"
      then arith_ops.product c q
      else arith_ops.neg (
          arith_ops.plus
            (arith_ops.minus (arith_ops.product q q) (arith_ops.twice (arith_ops.product c q)))
            c_sq)

  -- the row of the table for one sub-vector of the query
  unfoldable pub table_row : String → Vec → List Vec → List Score → List Score
  table_row metric q [] sqs = []
  table_row metric q (c ∷ book) [] = []
  table_row metric q (c ∷ book) (c_sq ∷ sqs) =
      table_entry metric q c c_sq ∷ table_row metric q book sqs

  -- the rows of the table from the sub-vector j on
  unfoldable pub table_rows_from :
      String → ℕ → Vec → ℕ → List (List Vec) → List (List Score) → List (List Score)
  table_rows_from metric sub query j [] sqs = []
  table_rows_from metric sub query j (book ∷ books) [] = []
  table_rows_from metric sub query j (book ∷ books) (sq ∷ sqs) =
      table_row metric (sub_row sub j query) book sq
      ∷ table_rows_from metric sub query (suc j) books sqs

  unfoldable pub table : Index Vec → Vec → List (List Score)
  table index query =
      table_rows_from index.metric index.sub query 0 index.codebooks index.codebook_sq

  -- the scores of the rows that are ranked again
  unfoldable pub exact_scores : String → List Vec → Vec → List Score
  exact_scores metric x query =
      if str_eq metric "ip"
      then map (dot query) x
      else map
          (λ row.
            arith_ops.neg
              (arith_ops.product (arith_ops.diff_rows row query) (arith_ops.diff_rows row query)))
          x

  unfoldable pub search : Index Vec → Vec → ℕ → ℕ → Ranking × Index Vec
  search index query k rerank =
      let n = length index.codes in
      let flat = ravel (table index query) in
      let s = map (λ codes. arith_ops.total (taken flat 0 codes)) index.codes in
      let cand = present (top_k np s rerank none).ids in
      if rerank == 0 then (top_k np s k none, record index { distance_computations = n }) else (
        top_k np (exact_scores index.metric (gather zero_vec index.vectors cand) query) k
            (some cand),
        record index { distance_computations = n + length cand },
      )

  -- sub values of 4 bytes in each centroid, and a byte for each code
  unfoldable pub index_bytes : Index Vec → ℕ
  index_bytes index =
      sum (map (λ (book : List Vec). length book) index.codebooks) * index.sub * 4
      + sum (map (λ (codes : List ℕ). length codes) index.codes)
