-- ===== src/Tests/FlatRuns.antt =====
-- A flat index of four rows of one value, with the filter `top50` and a delete mask.
use vector_retrieval_optimiz.Prelude.{
  ℕ, ◌≡◌, refl, Bool, true, false, String, List, [], ◌∷◌, ◌++◌, none, some, Result, ok, raise,
  value_error, get_or, All, arith,
}
use vector_retrieval_optimiz.Prelude.Sorting.{sort_by}
use vector_retrieval_optimiz.Numpy.Reference.{reference, dot, argpartition, lexsort}
use vector_retrieval_optimiz.Distance.{Ranking, top_k}
use vector_retrieval_optimiz.Distance.Best.{best, hits}
use vector_retrieval_optimiz.Distance.Selection.{top_k-best}
use vector_retrieval_optimiz.Files.{DataFile, filter_file, delete_file, MaskArray, Files}
use vector_retrieval_optimiz.Filters.{Memo, is_filter, recall, read, mask, count}
use vector_retrieval_optimiz.Filters.Memo.{
  mask_of, read_in, IsFaithful, mask-mask_of, counted, count_stale,
}
use vector_retrieval_optimiz.Flat.{Index, build, delete, update, compact, search}
use vector_retrieval_optimiz.Flat.Selection.{flat_best}
use vector_retrieval_optimiz.Flat.Valid.{IsValid, SameRows, original_mask}
use vector_retrieval_optimiz.Flat.Search.{search-flat_best}
use vector_retrieval_optimiz.Flat.Changes.{build-IsValid, delete-IsValid, update-last}
use vector_retrieval_optimiz.Flat.Effects.{Slot, IsKept, search-delete, search-compact}

abbrev four_rows : List (List ℕ)
four_rows = (1 ∷ []) ∷ (5 ∷ []) ∷ (3 ∷ []) ∷ (5 ∷ []) ∷ []

abbrev query : List ℕ
query = 2 ∷ []

abbrev passing_rows : List Bool
passing_rows = true ∷ true ∷ true ∷ false ∷ []

abbrev dead_rows : List Bool
dead_rows = false ∷ true ∷ false ∷ false ∷ []

abbrev load_sample : String → DataFile → Result MaskArray
load_sample dir (filter_file name) = ok (record { is_bool = true; ndim = 1; items = passing_rows })
load_sample dir (delete_file name) = ok (record { is_bool = true; ndim = 1; items = dead_rows })

abbrev pub sample_files : Files (List ℕ)
sample_files = record {
  data_dir = some "data";
  load = load_sample;
  load_update = λ dir name. raise value_error;
}

abbrev plain : Index (List ℕ)
plain = build reference sample_files four_rows

plain-IsValid : IsValid reference sample_files plain
plain-IsValid = build-IsValid reference sample_files four_rows

abbrev thinned : Index (List ℕ)
thinned = delete reference sample_files plain dead_rows

thinned-IsValid : IsValid reference sample_files thinned
unfolding build
thinned-IsValid = delete-IsValid reference sample_files plain dead_rows plain-IsValid refl

mask_plain : original_mask reference sample_files plain "top50" ≡ ok (some passing_rows)
unfolding mask_of is_filter read_in read build
mask_plain = refl

mask_thinned : original_mask reference sample_files thinned "top50" ≡ ok (some passing_rows)
unfolding mask_of is_filter read_in read build delete
mask_thinned = refl

search-flat_best_example :
    (index' : Index (List ℕ)) × (search reference sample_files thinned query 3 "top50"
      ≡ ok (flat_best reference sample_files thinned query 3 (some passing_rows), index'))
    × IsValid reference sample_files index'
    × SameRows reference sample_files index' thinned
search-flat_best_example =
    search-flat_best reference sample_files thinned query 3 "top50" (some passing_rows)
      thinned-IsValid mask_thinned

-- row 2 beats row 0, row 1 is deleted, row 3 does not pass, and the third place is padded
search_test :
    flat_best reference sample_files thinned query 3 (some passing_rows)
    ≡ record { ids = some 2 ∷ some 0 ∷ none ∷ []; scores = 7 ∷ 3 ∷ 0 ∷ [] }
unfolding best sort_by dot delete build
search_test = refl

search-compact_example :
    (r : Ranking) × (before after : Index (List ℕ)) × (search reference sample_files thinned query 2
        "top50"
      ≡ ok (r, before))
    × (search reference sample_files (compact reference sample_files thinned) query 2 "top50"
        ≡ ok (r, after))
search-compact_example =
    search-compact reference sample_files thinned query 2 "top50" (some passing_rows)
      thinned-IsValid mask_thinned

search-delete_example :
    (r : Ranking) × (index' : Index (List ℕ)) × (search reference sample_files
        (delete reference sample_files plain dead_rows)
        query
        2
        "top50"
      ≡ ok (r, index'))
    × All (Slot (IsKept reference sample_files plain dead_rows (some passing_rows))) r.ids
unfolding build
search-delete_example =
    search-delete reference sample_files plain dead_rows query 2 "top50" (some passing_rows)
      plain-IsValid refl mask_plain

top_k-best_example :
    top_k reference (11 ∷ 7 ∷ 11 ∷ []) 2 (some (9 ∷ 8 ∷ 4 ∷ []))
    ≡ best 2 (hits (some (9 ∷ 8 ∷ 4 ∷ [])) (11 ∷ 7 ∷ 11 ∷ []))
top_k-best_example = top_k-best reference (11 ∷ 7 ∷ 11 ∷ []) 2 (some (9 ∷ 8 ∷ 4 ∷ []))

-- a tie goes to the lower row ID
top_k_test :
    top_k reference (11 ∷ 7 ∷ 11 ∷ []) 2 (some (9 ∷ 8 ∷ 4 ∷ []))
    ≡ record { ids = some 4 ∷ some 9 ∷ []; scores = 11 ∷ 11 ∷ [] }
unfolding top_k argpartition lexsort
top_k_test = refl

-- row 0 is written twice: the second vector stays
update-last_example :
    (index' : Index (List ℕ)) × (update reference sample_files plain
        ((0 ∷ []) ++ 0 ∷ [])
        (((8 ∷ []) ∷ []) ++ (9 ∷ []) ∷ [])
      ≡ ok index')
    × IsValid reference sample_files index'
    × (get_or index'.vectors 0 [] ≡ 9 ∷ [])
unfolding build
update-last_example =
    update-last reference sample_files plain (0 ∷ []) [] ((8 ∷ []) ∷ []) [] 0 (9 ∷ []) plain-IsValid
      refl refl refl (omega arith, (omega arith, tt)) tt

mask_of_sample : mask_of sample_files "top50" 4 ≡ ok (some passing_rows)
unfolding mask_of is_filter read_in read
mask_of_sample = refl

empty-IsFaithful : IsFaithful sample_files []
unfolding recall
empty-IsFaithful = record { at_key = λ dir name n m e. cc }

mask-mask_of_example :
    (memo' : Memo) × (mask sample_files "top50" 4 [] ≡ ok (some passing_rows, memo'))
    × IsFaithful sample_files memo'
mask-mask_of_example = mask-mask_of sample_files "top50" 4 [] empty-IsFaithful mask_of_sample

count_stale_example :
    (count 77 dead_rows (counted (count 77 passing_rows []).1 ((78, dead_rows) ∷ []))).0
    ≡ (count 77 passing_rows []).0
count_stale_example = count_stale 77 passing_rows dead_rows [] ((78, dead_rows) ∷ [])
