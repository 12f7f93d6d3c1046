-- ===== src/IvfPq.antt =====
-- indexes/python/ivf_pq.py: an inverted file whose lists hold the codes of residuals. The codebooks are
-- trained one after the other; the blocks of rows only bound the memory of temporary arrays.
use vector_retrieval_optimiz.Prelude.{
  ℕ, suc, ◌+◌, ◌-◌, ◌*◌, ◌/◌, true, String, List, [], ◌∷◌, ◌++◌, map, none, some, Result, ok, ◌>>=◌,
  ◌==◌, if◌then◌else◌, length, get_or, take, range_from, min, max, str_eq,
}
use vector_retrieval_optimiz.Prelude.Arrays.{gather, sum}
use vector_retrieval_optimiz.Numpy.{Numpy, Score, neg_inf}
use vector_retrieval_optimiz.Distance.{Ranking, scores, top_k}
use vector_retrieval_optimiz.Kmeans.{Arith, kmeans}
use vector_retrieval_optimiz.Ivf.{offsets_of, assign_all}
use vector_retrieval_optimiz.Pq.{
  checked, present, ravel, taken, train_from, encode, squares, table_rows_from, exact_scores,
}

pub record Index (V : Type 0) : Type 0 where
  pub vectors : List V
  pub centers : List V
  pub codebooks : List (List V)
  pub codebook_sq : List (List Score)
  pub list_ids : List ℕ
  pub codes : List (List ℕ)
  pub offsets : List ℕ
  pub nlist : ℕ
  pub m : ℕ
  pub sub : ℕ
  pub metric : String
  pub distance_computations : ℕ

-- np.arange(offsets[c], offsets[c + 1])
unfoldable pub list_range : List ℕ → ℕ → List ℕ
list_range offsets c =
    range_from (get_or offsets c 0) (get_or offsets (suc c) 0 - get_or offsets c 0)

-- np.concatenate(ranges)
unfoldable pub probed_rows : List ℕ → List ℕ → List ℕ
probed_rows offsets [] = []
probed_rows offsets (c ∷ probe) = list_range offsets c ++ probed_rows offsets probe

module _ (np : Numpy) (arith_ops : Arith np) where
  open np use {Vec, zero_vec, argsort}

  -- rows - centers[labels]
  unfoldable pub residuals : List Vec → List Vec → List ℕ → List Vec
  residuals centers [] labels = []
  residuals centers (x ∷ rows) [] = []
  residuals centers (x ∷ rows) (l ∷ labels) =
      arith_ops.diff_rows x (get_or centers l zero_vec) ∷ residuals centers rows labels

  unfoldable pub build : ℕ → List Vec → ℕ → ℕ → ℕ → ℕ → String → ℕ → ℕ → ℕ → Result (Index Vec)
  build draws vectors dim nlist m nbits metric train_size iters seed = do
    (m', metric') ← checked m nbits metric dim
    let sub = dim / m'
    let train_n = max nlist (min (length vectors) train_size)
    centers ← kmeans np arith_ops draws vectors nlist iters seed (some train_n) "ip" true
    let train = take train_n vectors
    let resid = residuals centers train (assign_all np train centers)
    codebooks ← train_from np arith_ops draws resid sub iters seed metric' 0 m'
    let labels = assign_all np vectors centers
    let codes_by_row = encode np arith_ops (residuals centers vectors labels) sub codebooks metric'
    ok (record {
      vectors = vectors;
      centers = centers;
      codebooks = codebooks;
      codebook_sq = squares np arith_ops codebooks;
      list_ids = argsort labels;
      codes = gather [] codes_by_row (argsort labels);
      offsets = offsets_of nlist labels;
      nlist = nlist;
      m = m';
      sub = sub;
      metric = metric';
      distance_computations = 0;
    })

  -- the sum of the table entries of a row's codes, from the row of tables j on
  unfoldable pub code_score : Index Vec → List Score → ℕ → ℕ → Score
  code_score index flat j row = arith_ops.total (taken flat j (get_or index.codes row []))

  -- metric ip: base + one table
  unfoldable pub scores_ip : Index Vec → List Score → List Score → List ℕ → List Score
  scores_ip index center_scores flat [] = []
  scores_ip index center_scores flat (c ∷ probe) =
      map (λ row. arith_ops.plus (get_or center_scores c neg_inf) (code_score index flat 0 row))
        (list_range index.offsets c)
      ++ scores_ip index center_scores flat probe

  -- metric l2: the tables of the probed lists, one behind the other
  unfoldable pub tables_l2 : Index Vec → Vec → List ℕ → List (List Score)
  tables_l2 index query [] = []
  tables_l2 index query (c ∷ probe) =
      table_rows_from np arith_ops "l2" index.sub
        (arith_ops.diff_rows query (get_or index.centers c zero_vec)) 0 index.codebooks
        index.codebook_sq
      ++ tables_l2 index query probe

  -- metric l2: the lists from the probe `which` on
  unfoldable pub scores_l2 : Index Vec → List Score → ℕ → List ℕ → List Score
  scores_l2 index flat which [] = []
  scores_l2 index flat which (c ∷ probe) =
      map (code_score index flat (which * index.m)) (list_range index.offsets c)
      ++ scores_l2 index flat (suc which) probe

  -- the scores of the rows of the probed lists
  unfoldable pub probed_scores : Index Vec → Vec → List Score → List ℕ → List Score
  probed_scores index query center_scores probe =
      if str_eq index.metric "ip"
      then scores_ip index center_scores
          (ravel
            (table_rows_from np arith_ops "ip" index.sub query 0 index.codebooks index.codebook_sq))
          probe
      else scores_l2 index (ravel (tables_l2 index query probe)) 0 probe

  unfoldable pub search : Index Vec → Vec → ℕ → ℕ → ℕ → Ranking × Index Vec
  search index query k nprobe rerank =
      let center_scores = scores np query index.centers in
      let probe = present (top_k np center_scores (max 1 (min nprobe index.nlist)) none).ids in
      let ids = gather 0 index.list_ids (probed_rows index.offsets probe) in
      let s = probed_scores index query center_scores probe in
      let cand = present (top_k np s rerank (some ids)).ids in
      if rerank == 0
      then (
        top_k np s k (some ids),
        record index { distance_computations = index.nlist + length ids },
      )
      else (
        top_k np (exact_scores np arith_ops index.metric (gather zero_vec index.vectors cand) query)
            k (some cand),
        record index { distance_computations = index.nlist + length ids + length cand },
      )

  unfoldable pub index_bytes : ℕ → Index Vec → ℕ
  index_bytes dim index =
      length index.centers * dim * 4
      + 8 * length index.list_ids
      + 8 * length index.offsets
      + sum (map (λ (book : List Vec). length book) index.codebooks) * index.sub * 4
      + sum (map (λ (codes : List ℕ). length codes) index.codes)
