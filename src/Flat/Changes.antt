-- ===== src/Flat/Changes.antt =====
-- `build`, `delete` and `update` of the flat index keep it valid, and what they change.
use vector_retrieval_optimiz.Prelude.{
  ℕ, ◌<◌, ◌≡◌, refl, ◌∙◌, Bool, true, List, [], ◌∷◌, ◌++◌, none, some, length, length-append,
  get_or, arith, ok, ◌==◌, ==_iff, set, length-set, ◌≢◌, get_or-set_self, get_or-set_ne, All,
}
use vector_retrieval_optimiz.Prelude.Arrays.{scatter}
use vector_retrieval_optimiz.Numpy.{Numpy}
use vector_retrieval_optimiz.Files.{Files}
use vector_retrieval_optimiz.Flat.{
  Index, cached, or_else, drop_caches, all_below, fitted, build, delete, update,
}
use vector_retrieval_optimiz.Flat.Valid.{IsValid, OrigFits-own, drop_caches-IsValid}
use vector_retrieval_optimiz.Flat.Compaction.{own-shape}

module _ {ℓ} {A : Type ℓ} where
  length-scatter : (a : List A) (is : List ℕ) (vs : List A) → length (scatter a is vs) ≡ length a
  length-scatter a [] vs = refl
  length-scatter a (i ∷ is) [] = refl
  length-scatter a (i ∷ is) (v ∷ vs) = length-scatter (set a i v) is vs ∙ length-set a i v

  -- a position that is not written keeps its value
  get_or-scatter_ne :
      (a : List A) (is : List ℕ) (vs : List A) (j : ℕ) (d : A)
      → All (λ i. i ≢ j) is
      → get_or (scatter a is vs) j d ≡ get_or a j d
  get_or-scatter_ne a [] vs j d h = refl
  get_or-scatter_ne a (i ∷ is) [] j d h = refl
  get_or-scatter_ne a (i ∷ is) (v ∷ vs) j d h =
      get_or-scatter_ne (set a i v) is vs j d h.1 ∙ get_or-set_ne a i j v d h.0

  -- a position holds the last value that is written to it
  get_or-scatter_last :
      (a : List A) (before after : List ℕ) (us vs : List A) (j : ℕ) (v d : A)
      → length before ≡ length us
      → j < length a
      → All (λ i. i ≢ j) after
      → get_or (scatter a (before ++ j ∷ after) (us ++ v ∷ vs)) j d ≡ v
  get_or-scatter_last a [] after [] vs j v d e h k =
      get_or-scatter_ne (set a j v) after vs j d k ∙ get_or-set_self a j v d h
  get_or-scatter_last a [] after (u ∷ us) vs j v d e h k = absurd (omega arith)
  get_or-scatter_last a (i ∷ before) after [] vs j v d e h k = absurd (omega arith)
  get_or-scatter_last a (i ∷ before) after (u ∷ us) vs j v d e h k =
      get_or-scatter_last (set a i u) before after us vs j v d (omega arith)
        (rw (length-set a i u) h) k

all_below-All : (n : ℕ) (is : List ℕ) → All (λ i. i < n) is → all_below n is ≡ true
all_below-All n [] h = refl
all_below-All n (i ∷ is) h = ground (arith, h.0, all_below-All n is h.1)

All-middle : (P : ℕ → Type 0) (before after : List ℕ) (j : ℕ) → All P (before ++ j ∷ after) → P j
All-middle P [] after j h = h.0
All-middle P (i ∷ before) after j h = All-middle P before after j h.1

module _ (np : Numpy) (files : Files np.Vec) where
  open np use {Vec, zero_vec}

  -- A new index is valid.
  pub build-IsValid : (vectors : List Vec) → IsValid np files (build np files vectors)
  unfolding build cached
  build-IsValid vectors = record {
    ids_fit = tt;
    orig_fits = refl;
    dead_fits = tt;
    owned_fits = refl;
    filtered_fits = λ name sel m c e. cc;
    rows_fit = λ name rows m c e. cc;
  }

  abbrev with_owner : Index Vec → List Bool → Index Vec
  with_owner index mask = record index {
    owned = true;
    n_orig = some (or_else index.n_orig (length index.vectors));
    deleted = some mask;
  }

  -- Tombstones with an entry for every row keep a valid index valid.
  pub delete-IsValid :
      (index : Index Vec) (mask : List Bool)
      → IsValid np files index
      → length mask ≡ length index.vectors
      → IsValid np files (delete np files index mask)
  unfolding delete
  delete-IsValid index mask v e = rw (own-shape np files index v) (
      drop_caches-IsValid np files (with_owner index mask) v.ids_fit
        (OrigFits-own index.id_map index.n_orig (length index.vectors) v.orig_fits) e refl)

  fitted_all : (n : ℕ) (rows : List Vec) → n ≡ length rows → fitted np files n rows ≡ ok rows
  unfolding fitted
  fitted_all n [] e = rw e refl
  fitted_all n (x ∷ []) e = rw e refl
  fitted_all n (x ∷ y ∷ rows) e =
      let same : (length (x ∷ y ∷ rows) == n) ≡ true =
        (==_iff (length (x ∷ y ∷ rows)) n).1 (omega (arith, e)) in
      rw same refl

  updated : Index Vec → List ℕ → List Vec → Index Vec
  updated index ids vectors = drop_caches np files (record index {
    owned = true;
    n_orig = some (or_else index.n_orig (length index.vectors));
    vectors = scatter index.vectors ids vectors;
  })

  updated-IsValid :
      (index : Index Vec) (ids : List ℕ) (vectors : List Vec)
      → IsValid np files index
      → IsValid np files (updated index ids vectors)
  unfolding updated
  updated-IsValid index ids vectors v =
      let l = length-scatter index.vectors ids vectors in
      drop_caches-IsValid np files (updated index ids vectors) (rw l v.ids_fit)
        (rw l (OrigFits-own index.id_map index.n_orig (length index.vectors) v.orig_fits))
        (rw l v.dead_fits) refl

  updated-made :
      (index : Index Vec) (ids : List ℕ) (vectors : List Vec)
      → IsValid np files index
      → index.id_map ≡ none
      → length ids ≡ length vectors
      → All (λ i. i < length index.vectors) ids
      → update np files index ids vectors ≡ ok (updated index ids vectors)
  unfolding update updated
  updated-made index ids vectors v e size h =
      let b = all_below-All (length index.vectors) ids h in
      rw (update, own-shape np files index v, e, fitted_all (length ids) vectors size, b) refl

  -- On a valid index that is not compacted, an update of rows of the index with a vector for each
  -- succeeds and keeps the index valid, and a row holds the last vector that the update writes to
  -- it.
  pub update-last :
      (index : Index Vec) (before after : List ℕ) (us vs : List Vec) (j : ℕ) (w : Vec)
      → IsValid np files index
      → index.id_map ≡ none
      → length before ≡ length us
      → length after ≡ length vs
      → All (λ i. i < length index.vectors) (before ++ j ∷ after)
      → All (λ i. i ≢ j) after
      → (index' : Index Vec) × (update np files index (before ++ j ∷ after) (us ++ w ∷ vs)
          ≡ ok index')
        × IsValid np files index'
        × (get_or index'.vectors j zero_vec ≡ w)
  unfolding updated
  update-last index before after us vs j w v e l l' h k =
      let ids = before ++ j ∷ after in
      let new = us ++ w ∷ vs in
      (
        updated index ids new,
        updated-made index ids new v e
            (omega (arith, length-append before (j ∷ after), length-append us (w ∷ vs), l, l')) h,
        updated-IsValid index ids new v,
        get_or-scatter_last index.vectors before after us vs j w zero_vec l
            (All-middle (λ i. i < length index.vectors) before after j h) k,
      )

  -- On a valid index that is not compacted, an update of rows of the index with a vector for each
  -- succeeds and keeps the index valid, and a row that the update does not name keeps its vector.
  pub update-kept :
      (index : Index Vec) (ids : List ℕ) (vectors : List Vec) (j : ℕ)
      → IsValid np files index
      → index.id_map ≡ none
      → length ids ≡ length vectors
      → All (λ i. i < length index.vectors) ids
      → All (λ i. i ≢ j) ids
      → (index' : Index Vec) × (update np files index ids vectors ≡ ok index')
        × IsValid np files index'
        × (get_or index'.vectors j zero_vec ≡ get_or index.vectors j zero_vec)
  unfolding updated
  update-kept index ids vectors j v e size h k = (
    updated index ids vectors,
    updated-made index ids vectors v e size h,
    updated-IsValid index ids vectors v,
    get_or-scatter_ne index.vectors ids vectors j zero_vec k,
  )
