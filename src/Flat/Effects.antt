-- ===== src/Flat/Effects.antt =====
-- Searches of the flat index after `delete` and after `compact`, through the functions themselves.
use vector_retrieval_optimiz.Prelude.{
  ℕ, zero, suc, ◌<◌, ◌≡◌, refl, ◌∙◌, Bool, true, false, not, ◌&&◌, String, List, [], ◌∷◌, map,
  Option, none, some, ok, length, get_or, filter, replicate, range_from, arith, All, All-append,
  All-take, All-filter, All-filter_self,
}
use vector_retrieval_optimiz.Prelude.Ranges.{range_from-bound}
use vector_retrieval_optimiz.Prelude.Sorting.{All-sort_by}
use vector_retrieval_optimiz.Numpy.{Numpy, Hit, better}
use vector_retrieval_optimiz.Distance.{Ranking}
use vector_retrieval_optimiz.Distance.Best.{id_at, best}
use vector_retrieval_optimiz.Files.{Files}
use vector_retrieval_optimiz.Flat.{Index, delete, drop_dead, compact, search}
use vector_retrieval_optimiz.Flat.Selection.{in_mask, is_live, seen, row_hit}
use vector_retrieval_optimiz.Flat.Valid.{IsValid, original_mask}
use vector_retrieval_optimiz.Flat.Compaction.{own-shape, compact-IsValid, flat_best-compact}
use vector_retrieval_optimiz.Flat.Changes.{delete-IsValid}
use vector_retrieval_optimiz.Flat.Search.{search-flat_best}

-- the padding, or a row with the property
abbrev pub Slot : (ℕ → Type 0) → Option ℕ → Type 0
Slot P none = Unit
Slot P (some row) = P row

All-map_of {ℓ κ} :
    {A B : Type ℓ} (P : B → Type κ) (f : A → B) (xs : List A)
    → All (λ x. P (f x)) xs
    → All P (map f xs)
All-map_of P f [] h = tt
All-map_of P f (x ∷ xs) h = (h.0, All-map_of P f xs h.1)

All-replicate {ℓ κ} : {A : Type ℓ} (P : A → Type κ) (n : ℕ) (a : A) → P a → All P (replicate n a)
All-replicate P zero a h = tt
All-replicate P (suc n) a h = (h, All-replicate P n a h)

All-both {ℓ} :
    {A : Type ℓ} (P Q R : A → Type 0)
    → ((x : A) → P x → Q x → R x)
    → (xs : List A) → All P xs
    → All Q xs
    → All R xs
All-both P Q R f [] h k = tt
All-both P Q R f (x ∷ xs) h k = (f x h.0 k.0, All-both P Q R f xs h.1 k.1)

kept_of_seen : (a b : Bool) → (a && not b) ≡ true → (b ≡ false) × (a ≡ true)
kept_of_seen a b h = ground arith

-- Every ID that `best` returns is that of one of its rows.
pub best-Slot :
    (P : ℕ → Type 0) (k : ℕ) (hs : List Hit)
    → All (λ (h : Hit). P h.row) hs
    → All (Slot P) (best k hs).ids
unfolding best
best-Slot P k hs h =
    All-append (Slot P) _ _
      (All-map_of (Slot P) (λ (h : Hit). some h.row) _
        (All-take _ k _ (All-sort_by better (λ (h : Hit). P h.row) hs h)))
      (All-replicate (Slot P) _ none tt)

module _ (np : Numpy) (files : Files np.Vec) where
  open np use {Vec}

  -- a row of the index that the mask keeps and the filter passes
  abbrev pub IsKept : Index Vec → List Bool → Option (List Bool) → ℕ → Type 0
  IsKept index mask m row =
      (i : ℕ) × (i < length index.vectors)
      × (row ≡ id_at index.id_map i)
      × (get_or mask i false ≡ false)
      × (in_mask m row ≡ true)

  original_mask-delete :
      (index : Index Vec) (mask : List Bool) (name : String)
      → IsValid np files index
      → original_mask np files (delete np files index mask) name ≡ original_mask np files index name
  unfolding delete
  original_mask-delete index mask name v = rw (own-shape np files index v)

  IsKept-hits :
      (index : Index Vec) (mask : List Bool) (query : Vec) (m : Option (List Bool))
      → IsValid np files index
      → All
          (λ (h : Hit). IsKept index mask m h.row)
          (map
            (row_hit np files (delete np files index mask) query)
            (seen np files (delete np files index mask) m))
  unfolding delete
  IsKept-hits index mask query m v =
      let n = length index.vectors in
      let p = λ (i : ℕ). in_mask m (id_at index.id_map i) && is_live (some mask) i in
      rw (own-shape np files index v) (
        All-map_of (λ (h : Hit). IsKept index mask m h.row) _ _
          (All-both (λ i. i < n) (λ i. p i ≡ true) _
            (λ i l t.
              let (d, f) =
                kept_of_seen (in_mask m (id_at index.id_map i)) (get_or mask i false) t in
              (i, l, refl, d, f))
            (filter p (range_from 0 n))
            (All-filter (λ i. i < n) p (range_from 0 n) (range_from-bound 0 n n (omega arith)))
            (All-filter_self p (range_from 0 n))))

  -- On a valid index, after a delete by a mask with an entry for every row, a search whose filter mask
  -- can be read succeeds and returns only rows that the delete mask keeps and that pass the filter,
  -- each under its row ID.
  pub search-delete :
      (index : Index Vec) (mask : List Bool) (query : Vec) (k : ℕ) (name : String)
      (m : Option (List Bool))
      → IsValid np files index
      → length mask ≡ length index.vectors
      → original_mask np files index name ≡ ok m
      → (r : Ranking) × (index' : Index Vec) × (search np files
            (delete np files index mask)
            query
            k
            name
          ≡ ok (r, index'))
        × All (Slot (IsKept index mask m)) r.ids
  search-delete index mask query k name m v e got =
      let (index', found, valid, same) =
        search-flat_best np files (delete np files index mask) query k name m
          (delete-IsValid np files index mask v e) (original_mask-delete index mask name v ∙ got) in
      (_, index', found, best-Slot (IsKept index mask m) k _ (IsKept-hits index mask query m v))

  original_mask-drop_dead :
      (b : Index Vec) {orig : ℕ} (name : String) (dead : Option (List Bool))
      → b.n_orig ≡ some orig
      → original_mask np files (drop_dead np files b dead) name ≡ original_mask np files b name
  unfolding drop_dead
  original_mask-drop_dead b name none e = refl
  original_mask-drop_dead b name (some dead) e = rw e

  original_mask-compact :
      (index : Index Vec) (name : String)
      → IsValid np files index
      → original_mask np files (compact np files index) name ≡ original_mask np files index name
  unfolding compact
  original_mask-compact index name v =
      rw (own-shape np files index v) (original_mask-drop_dead _ name index.deleted refl)

  -- On a valid index, where the filter mask can be read, a search of the compacted index succeeds and
  -- returns the same IDs and scores as a search of the index before compaction, which succeeds too.
  pub search-compact :
      (index : Index Vec) (query : Vec) (k : ℕ) (name : String) (m : Option (List Bool))
      → IsValid np files index
      → original_mask np files index name ≡ ok m
      → (r : Ranking) × (before after : Index Vec) × (search np files index query k name
          ≡ ok (r, before))
        × (search np files (compact np files index) query k name ≡ ok (r, after))
  search-compact index query k name m v got =
      let (before, found, _, _) = search-flat_best np files index query k name m v got in
      let (after, found', _, _) =
        search-flat_best np files (compact np files index) query k name m
          (compact-IsValid np files index v) (original_mask-compact index name v ∙ got) in
      let same = (flat_best-compact np files index query k m v).0 in
      (_, before, after, found, rw same at found')
