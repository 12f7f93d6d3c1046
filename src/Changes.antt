-- ===== src/Changes.antt =====
-- indexes/python/changes.py: delete masks and update sets, cut to the first n rows.
use vector_retrieval_optimiz.Prelude.{
  ℕ, ◌+◌, ◌/◌, Bool, String, List, map, ◌&&◌, ◌||◌, Result, ok, value_error, guard, ◌>>=◌, ◌>>◌,
  ltb, leb, ◌==◌, length, take, str_eq,
}
use vector_retrieval_optimiz.Prelude.Arrays.{compress}
use vector_retrieval_optimiz.Files.{Files, delete_file}

-- DELETES, UPDATES
unfoldable pub is_delete_set : String → Bool
is_delete_set name = str_eq name "del10" || str_eq name "del30" || str_eq name "del50"

unfoldable pub is_update_set : String → Bool
is_update_set name = str_eq name "upd10"

module _ {ℓ} {V : Type ℓ} (files : Files V) where
  unfoldable pub delete_mask : String → String → ℕ → Result (List Bool)
  unfolding is_delete_set
  delete_mask dir name n = do
    guard (is_delete_set name) value_error
    m ← files.load dir (delete_file name)
    guard (m.is_bool && m.ndim == 1 && leb n (length m.items)) value_error
    ok (take n m.items)

  unfoldable pub update_set : String → String → ℕ → Result (List ℕ × List V)
  unfolding is_update_set
  update_set dir name n = do
    guard (is_update_set name) value_error
    u ← files.load_update dir name
    guard (u.ids_are_int64 && u.vectors_are_float32 && length u.ids == length u.vectors) value_error
    let keep = map (λ i. ltb i n) u.ids
    ok (compress u.ids keep, compress u.vectors keep)

unfoldable pub tombstone_bytes : ℕ → ℕ
tombstone_bytes n = (n + 7) / 8
