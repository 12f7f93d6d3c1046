-- ===== src/Distance/Best.antt =====
-- What `top_k` promises: all rows sorted by (score, ID), cut to k, and padded.
use vector_retrieval_optimiz.Prelude.{
  ℕ, ◌-◌, ◌≡◌, ap, sym, ◌∙◌, All-map, length-map, List, ◌++◌, map, Option, none, some, length,
  get_or, take, replicate, range_from, arith,
}
use vector_retrieval_optimiz.Prelude.Arrays.{get_or-map, map_cong_All}
use vector_retrieval_optimiz.Prelude.Ranges.{map-map, range_from-bound, gather_range}
use vector_retrieval_optimiz.Prelude.Sorting.{StrictWeak, sort_by}
use vector_retrieval_optimiz.Numpy.{Score, neg_inf, Hit, better}
use vector_retrieval_optimiz.Distance.{Ranking}

-- The ID of a position.
abbrev pub id_at : Option (List ℕ) → ℕ → ℕ
id_at none i = i
id_at (some ids) i = get_or ids i 0

-- Every position as a row with its score.
abbrev pub hits : Option (List ℕ) → List Score → List Hit
hits ids s =
    map (λ i. record { row = id_at ids i; score = get_or s i neg_inf }) (range_from 0 (length s))

abbrev pub padded : ℕ → List Hit → Ranking
padded k hs = record {
  ids = map (λ (h : Hit). some h.row) hs ++ replicate (k - length hs) none;
  scores = map (λ (h : Hit). h.score) hs ++ replicate (k - length hs) neg_inf;
}

-- The k best of the rows.
unfoldable pub best : ℕ → List Hit → Ranking
best k hs = padded k (take k (sort_by better hs))

pub better-StrictWeak : StrictWeak better
better-StrictWeak = record { asym = λ a b h. ground arith; negtrans = λ a b c h k. ground arith }

-- Rows read off a list of positions.
pub hits-map :
    (f g : ℕ → ℕ) (pos : List ℕ)
    → hits (some (map f pos)) (map g pos) ≡ map (λ i. record { row = f i; score = g i }) pos
hits-map f g pos =
    let r = range_from 0 (length pos) in
    rw (length-map g pos) (
      map_cong_All _ _ r (
        All-map (λ j h. cc (get_or-map f pos j 0 0 h, get_or-map g pos j 0 neg_inf h)) r
          (range_from-bound 0 (length pos) (length pos) (omega arith)))
      ∙ sym (map-map (λ i. record { row = f i; score = g i }) (λ j. get_or pos j 0) r)
      ∙ ap (map (λ i. record { row = f i; score = g i })) (gather_range 0 pos))
