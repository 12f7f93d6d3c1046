-- ===== src/Filters.antt =====
-- indexes/python/filters.py: metadata filter masks, with the memo of `mask`.
pub mod Memo
use vector_retrieval_optimiz.Prelude.{
  ℕ, Bool, String, List, [], ◌∷◌, ◌&&◌, ◌||◌, ◌+◌, Option, none, some, Result, ok, raise,
  value_error, guard, ◌>>=◌, ◌>>◌, leb, ◌==◌, if◌then◌else◌, length, take, str_eq,
}
use vector_retrieval_optimiz.Files.{Files, filter_file}

-- NAMES
unfoldable pub is_filter : String → Bool
is_filter name =
    str_eq name "none"
    || str_eq name "top50"
    || str_eq name "top10"
    || str_eq name "top1"
    || str_eq name "top01"

-- `_cache`: (data_dir, name, n) to the mask
abbrev pub Memo : Type 0
Memo = List ((String × String × ℕ) × List Bool)

abbrev pub same_key : String × String × ℕ → String × String × ℕ → Bool
same_key a b = str_eq a.0 b.0 && str_eq a.1 b.1 && a.2 == b.2

unfoldable pub recall : String × String × ℕ → Memo → Option (List Bool)
recall key [] = none
recall key ((k, m) ∷ memo) = if same_key k key then some m else recall key memo

module _ {ℓ} {V : Type ℓ} (files : Files V) where
  -- the array of one filter, checked and cut to the first n rows
  unfoldable pub read : String → String → ℕ → Result (List Bool)
  read dir name n = do
    m ← files.load dir (filter_file name)
    guard (m.is_bool && m.ndim == 1 && leb n (length m.items)) value_error
    ok (take n m.items)

  -- `if key not in _cache: ...`, and the entry
  unfoldable pub remember : String → String → ℕ → Memo → Result (List Bool × Memo)
  unfolding recall read
  remember dir name n memo = elim (recall (dir, name, n) memo) [
    | some m ↦ ok (m, memo)
    | none ↦ do m ← read dir name n; ok (m, ((dir, name, n), m) ∷ memo)
  ]

  unfoldable pub with_dir : Option String → String → ℕ → Memo → Result (Option (List Bool) × Memo)
  unfolding remember
  with_dir none name n memo = raise value_error
  with_dir (some dir) name n memo = do (m, memo') ← remember dir name n memo; ok (some m, memo')

  unfoldable pub mask : String → ℕ → Memo → Result (Option (List Bool) × Memo)
  mask name n memo = do
    guard (is_filter name) value_error
    if str_eq name "none" then ok (none, memo) else with_dir files.data_dir name n memo

-- `count`, with the memo `_counts` from id(m) to the number of passing rows. A mask comes with the
-- address of its array.
abbrev pub Counts : Type 0
Counts = List (ℕ × ℕ)

unfoldable pub lookup_count : ℕ → Counts → Option ℕ
lookup_count a [] = none
lookup_count a ((b, c) ∷ cs) = if b == a then some c else lookup_count a cs

unfoldable pub ones : List Bool → ℕ
ones [] = 0
ones (b ∷ bs) = if b then 1 + ones bs else ones bs

unfoldable pub count : ℕ → List Bool → Counts → ℕ × Counts
unfolding lookup_count ones
count address m counts = elim (lookup_count address counts) [
  | some c ↦ (c, counts)
  | none ↦ (ones m, (address, ones m) ∷ counts)
]
