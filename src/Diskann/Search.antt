-- ===== src/Diskann/Search.antt =====
-- `search` of diskann.py: the beam search over the records of the file. The loop runs on fuel of one
-- round more than there are rows.
pub mod Rounds
pub mod Listed
pub mod Answers
pub mod Fresh
pub mod Built
use vector_retrieval_optimiz.Prelude.{
  ℕ, zero, suc, ◌+◌, ◌-◌, ◌*◌, ◌≡◌, Bool, true, false, not, List, [], ◌∷◌, ◌++◌, map, foldl, Option,
  none, some, String, Result, ok, raise, value_error, ◌==◌, if◌then◌else◌, length, get_or, take,
  filter, replicate, elem, max,
}
use vector_retrieval_optimiz.Prelude.Sorting.{sort_by}
use vector_retrieval_optimiz.Numpy.{Numpy, Score, Hit, better, neg_inf}
use vector_retrieval_optimiz.Distance.{Ranking}
use vector_retrieval_optimiz.Kmeans.{Arith}
use vector_retrieval_optimiz.Pq.{taken, ravel, table_rows_from}
use vector_retrieval_optimiz.Diskann.{Metric, Slots}
use vector_retrieval_optimiz.Bytes.{Floats}
use vector_retrieval_optimiz.Diskann.Index.{Index, Reader, reader, read_record}

-- the variables of the loop; `vecs` is a dict, its last entry first
pub record Beam (V : Type 0) : Type 0 where
  pub seen : List ℕ
  pub cand : List Hit
  pub expanded : List ℕ
  pub vecs : List (ℕ × V)
  pub ndist : ℕ
  pub reads : ℕ

-- vecs[c], where it is set
unfoldable pub vec_of {ℓ} : {V : Type ℓ} → List (ℕ × V) → ℕ → Option V
vec_of [] c = none
vec_of ((i, x) ∷ vecs) c = if i == c then some x else vec_of vecs c

-- the out-neighbors of one record that are not seen: `seen`, and `new`
unfoldable pub collect : List ℕ × List ℕ → Slots → List ℕ × List ℕ
collect (seen, new) [] = (seen, new)
collect (seen, new) (none ∷ nb) = collect (seen, new) nb
collect (seen, new) (some e ∷ nb) =
    collect (if elem e seen then (seen, new) else (e ∷ seen, new ++ e ∷ [])) nb

-- the first `beam` candidates that are not expanded
unfoldable pub batch_of : ℕ → List ℕ → List Hit → List ℕ
batch_of beam expanded cand =
    take beam (filter (λ c. not (elem c expanded)) (map (λ (h : Hit). h.row) cand))

-- the arrays that are returned, for at most k hits
unfoldable pub padded : ℕ → List Hit → Ranking
padded k hits = record {
  ids = map (λ (h : Hit). some h.row) hits ++ replicate (k - length hits) none;
  scores = map (λ (h : Hit). h.score) hits ++ replicate (k - length hits) neg_inf;
}

module _ {V : Type 0} (read : ℕ → V × Slots) where
  -- the body of the loop over the batch
  unfoldable pub visit : Beam V × List ℕ → ℕ → Beam V × List ℕ
  unfolding collect
  visit (s, new) c =
      let (vec, nb) = read c in
      let (seen, new') = collect (s.seen, new) nb in
      (
        record s {
          seen = seen;
          expanded = c ∷ s.expanded;
          vecs = (c, vec) ∷ s.vecs;
          reads = suc s.reads;
        },
        new',
      )

  -- the rest of a round: the new rows are scored and join the candidates
  unfoldable pub admit : (ℕ → Score) → ℕ → Beam V × List ℕ → Beam V
  admit score l (s, []) = s
  admit score l (s, c ∷ new) = record s {
    ndist = s.ndist + length (c ∷ new);
    cand =
        take l
          (sort_by better (s.cand ++ map (λ i. record { row = i; score = score i }) (c ∷ new)));
  }

  -- `while True`; `none` if the rounds ran out
  unfoldable pub rounds : (ℕ → Score) → ℕ → ℕ → ℕ → Beam V → Option (Beam V)
  rounds score l beam zero s = none
  rounds score l beam (suc fuel) s = elim (batch_of beam s.expanded s.cand) [
    | [] ↦ some s
    | c ∷ batch ↦ rounds score l beam fuel (admit score l (foldl visit (s, []) (c ∷ batch)))
  ]

  -- the state before the loop
  unfoldable pub entered : (ℕ → Score) → ℕ → Beam V
  entered score entry = record {
    seen = entry ∷ [];
    cand = record { row = entry; score = score entry } ∷ [];
    expanded = [];
    vecs = [];
    ndist = 1;
    reads = 0;
  }

  -- the body of the loop over `top`
  unfoldable pub fetch : Beam V → ℕ → Beam V
  fetch s c = elim (vec_of s.vecs c) [
    | some x ↦ s
    | none ↦ record s { vecs = (c, (read c).0) ∷ s.vecs; reads = suc s.reads }
  ]

module _ (np : Numpy) where
  open np use {Vec, zero_vec, dot}

  -- a listed row with its exact score
  abbrev pub exact_hit : List (ℕ × Vec) → Vec → ℕ → Hit
  exact_hit vecs query c = record {
    row = c;
    score = dot (elim (vec_of vecs c) [ none ↦ zero_vec | some x ↦ x ]) query;
  }

  -- `ranked` and the counters; np.stack of no rows raises
  unfoldable pub rank : (ℕ → Vec × Slots) → Vec → ℕ → ℕ → Beam Vec → Result (List Hit × Beam Vec)
  unfolding fetch
  rank read query k zero s = ok (take k s.cand, s)
  rank read query k (suc rerank) s = elim (map (λ (h : Hit). h.row) (take (suc rerank) s.cand)) [
    | [] ↦ raise value_error
    | c ∷ top ↦
        let s' = foldl (fetch read) s (c ∷ top) in
        ok (
          take k (sort_by better (map (exact_hit s'.vecs query) (c ∷ top))),
          record s' { ndist = s'.ndist + length (c ∷ top) },
        )
  ]

  -- the loop from the entry point, then the ranking
  unfoldable pub search_with :
      (ℕ → Vec × Slots)
      → (ℕ → Score)
      → ℕ
      → ℕ
      → Vec
      → ℕ
      → ℕ
      → ℕ
      → ℕ
      → Option (Result (List Hit × Beam Vec))
  unfolding rounds rank
  search_with read score n entry query k l beam rerank =
      elim (rounds read score (max l k) (max 1 beam) (suc n) (entered read score entry)) [
        | none ↦ none
        | some s ↦ some (rank read query k rerank s)
      ]

module _ (np : Numpy) (arith_ops : Arith np) (mt : Metric) (fl : Floats np) where
  open np use {Vec}

  -- the PQ score of a row, from the table of the query
  unfoldable pub code_score : Index Vec → Vec → ℕ → Score
  unfolding taken ravel table_rows_from
  code_score index query i =
      let t = ravel (
        table_rows_from np arith_ops index.metric index.sub query 0 index.codebooks
          index.codebook_sq) in
      arith_ops.total (taken t 0 (get_or index.codes i []))

  -- the rest of `search`, after the call of `_reader`
  unfoldable pub search_opened :
      Vec → ℕ → ℕ → ℕ → ℕ → Index Vec × Bool × Result Reader → Option (Index Vec × Result Ranking)
  unfolding search_with
  search_opened query k l beam rerank (index', evicts, opened) = elim opened [
    | raise error ↦ some (index', raise error)
    | ok rd ↦
        elim (search_with np (read_record np arith_ops mt fl index' rd) (code_score index' query)
          index'.n index'.entry query k l beam rerank) [
            | none ↦ none
            | some (raise error) ↦ some (index', raise error)
            | some (ok (hits, s)) ↦ some (
              record index' {
                distance_computations = s.ndist;
                disk_reads = s.reads;
                disk_bytes_read = s.reads * index'.rec;
              },
              ok (padded k hits),
            )
          ]
  ]

  -- `search`: the index after the call, and the arrays or the error
  unfoldable pub search :
      Index Vec → Vec → ℕ → ℕ → ℕ → ℕ → String → Option (Index Vec × Result Ranking)
  unfolding reader search_opened
  search index query k l beam rerank io =
      search_opened query k l beam rerank (reader np arith_ops mt fl index io)
