-- ===== src/Flat/Saved/Restored.antt =====
-- What `save` of flat.py writes for an index, by what it is to be: all original rows, with a
-- tombstone for each row that the index has dropped.
use mathlib.Core.Path.{subst}
use vector_retrieval_optimiz.Prelude.{
  ℕ, zero, suc, ◌<◌, ◌≡◌, ◌≢◌, refl, ◌∙◌, sym, ap, Bool, true, false, List, [], ◌∷◌, Option, none,
  some, ok, length, length-replicate, length-set, get_or, get_or-set_self, get_or-set_ne, set,
  replicate, All, elem, ==_iff, Option-cases, inl, inr, arith,
}
use vector_retrieval_optimiz.Prelude.Arrays.{scatter, fill_at}
use vector_retrieval_optimiz.Prelude.Ranges.{Nodup}
use vector_retrieval_optimiz.Numpy.{Numpy}
use vector_retrieval_optimiz.Bytes.{Floats}
use vector_retrieval_optimiz.Vro.{Json}
use vector_retrieval_optimiz.Flat.{Index, or_else}
use vector_retrieval_optimiz.Flat.Valid.{DeadFits}
use vector_retrieval_optimiz.Flat.Saved.{dead_through, expanded}

-- is the row at a position deleted?
abbrev pub is_deleted : Option (List Bool) → ℕ → Bool
is_deleted none p = false
is_deleted (some dead) p = get_or dead p false

-- an ID map with a different original row for each of n rows
abbrev pub IsMapped : Option (List ℕ) → Option ℕ → ℕ → Type 0
IsMapped none orig n = Unit
IsMapped (some ids) orig n = (length ids ≡ n) × Nodup ids × All (λ i. i < or_else orig 0) ids

unlisted : (i : ℕ) (is : List ℕ) → All (λ y. i ≢ y) is → elem i is ≡ false
unlisted i [] h = refl
unlisted i (y ∷ is) h = ground (arith, h.0, ==_iff y i, unlisted i is h.1)

module _ {ℓ} {A : Type ℓ} where
  length-scatter : (a : List A) (is : List ℕ) (vs : List A) → length (scatter a is vs) ≡ length a
  length-scatter a [] vs = refl
  length-scatter a (i ∷ is) [] = refl
  length-scatter a (i ∷ is) (v ∷ vs) = length-scatter (set a i v) is vs ∙ length-set a i v

  scatter_unlisted :
      (a : List A) (is : List ℕ) (vs : List A) (j : ℕ) (d : A)
      → elem j is ≡ false
      → get_or (scatter a is vs) j d ≡ get_or a j d
  scatter_unlisted a [] vs j d h = refl
  scatter_unlisted a (i ∷ is) [] j d h = refl
  scatter_unlisted a (i ∷ is) (v ∷ vs) j d h =
      scatter_unlisted (set a i v) is vs j d (ground (arith, h))
      ∙ get_or-set_ne a i j v d (λ e. ground (arith, h, ==_iff i j, e))

  -- the value that is written at each of different positions
  scatter_listed :
      (a : List A) (is : List ℕ) (vs : List A) (p : ℕ) (d : A)
      → Nodup is
      → All (λ i. i < length a) is
      → length is ≡ length vs
      → p < length is
      → get_or (scatter a is vs) (get_or is p 0) d ≡ get_or vs p d
  scatter_listed a [] vs p d once lt size h = absurd (omega arith)
  scatter_listed a (i ∷ is) [] p d once lt size h = absurd (omega (arith, size))
  scatter_listed a (i ∷ is) (v ∷ vs) zero d once lt size h =
      scatter_unlisted (set a i v) is vs i d (unlisted i is once.0) ∙ get_or-set_self a i v d lt.0
  scatter_listed a (i ∷ is) (v ∷ vs) (suc p) d once lt size h =
      scatter_listed (set a i v) is vs p d once.1 (rw (length-set a i v) lt.1) (omega (arith, size))
        (omega arith)

  fill_at-scatter :
      (a : List A) (is : List ℕ) (v : A) → fill_at a is v ≡ scatter a is (replicate (length is) v)
  fill_at-scatter a [] v = refl
  fill_at-scatter a (i ∷ is) v = fill_at-scatter (set a i v) is v

  replicate_at : (n : ℕ) (x : A) (i : ℕ) (d : A) → i < n → get_or (replicate n x) i d ≡ x
  replicate_at zero x i d h = absurd (omega arith)
  replicate_at (suc n) x zero d h = refl
  replicate_at (suc n) x (suc i) d h = replicate_at n x i d (omega arith)

-- the tombstones of all rows as one write
dead_through-scatter :
    (n : ℕ) (ids : List ℕ) (dead : Option (List Bool))
    → DeadFits dead (length ids)
    → (marks : List Bool) × (dead_through (replicate n true) ids dead
        ≡ scatter (replicate n true) ids marks)
      × (length ids ≡ length marks)
      × ((p : ℕ) → p < length ids → get_or marks p false ≡ is_deleted dead p)
unfolding dead_through
dead_through-scatter n ids none fit = (
  replicate (length ids) false,
  fill_at-scatter (replicate n true) ids false,
  sym (length-replicate (length ids) false),
  λ p h. replicate_at (length ids) false p false h,
)
dead_through-scatter n ids (some dead) fit = (dead, refl, sym fit, λ p h. refl)

module _ (np : Numpy) (fl : Floats np) (json : Json) where
  open np use {Vec, zero_vec}

  -- Of an index with an ID map: the row at each position stands with its tombstone at its original
  -- row, and every other row is a zero row with its tombstone set.
  pub record IsSpread (ids : List ℕ) (index : Index Vec) (v : List Vec) (dead : List Bool)
      : Type 0 where
    pub rows_size : index.n_orig ≡ some (length v)
    pub dead_size : length dead ≡ length v
    pub row_eq :
        (p : ℕ)
        → p < length ids
        → get_or v (get_or ids p 0) zero_vec ≡ get_or index.vectors p zero_vec
    pub dead_eq :
        (p : ℕ) → p < length ids → get_or dead (get_or ids p 0) false ≡ is_deleted index.deleted p
    pub dropped_row : (i : ℕ) → i < length v → elem i ids ≡ false → get_or v i zero_vec ≡ zero_vec
    pub dropped_dead : (i : ℕ) → i < length v → elem i ids ≡ false → get_or dead i false ≡ true

  -- The rows and tombstones of all original rows.
  abbrev pub AreOriginal : Option (List ℕ) → Index Vec → List Vec → Option (List Bool) → Type 0
  AreOriginal none index v dead = (v ≡ index.vectors) × (dead ≡ index.deleted)
  AreOriginal (some ids) index v none = ⊥
  AreOriginal (some ids) index v (some dead) = IsSpread ids index v dead

  scatter-IsSpread :
      (ids : List ℕ) (index : Index Vec) (n : ℕ)
      → index.n_orig ≡ some n
      → (length ids ≡ length index.vectors) × Nodup ids × All (λ i. i < n) ids
      → DeadFits index.deleted (length index.vectors)
      → IsSpread ids index
          (scatter (replicate n zero_vec) ids index.vectors)
          (dead_through (replicate n true) ids index.deleted)
  scatter-IsSpread ids index n orig mapped fits =
      let (marks, written, marks_size, marks_eq) =
        dead_through-scatter n ids index.deleted (rw mapped.0 fits) in
      let rows = length-replicate n zero_vec in
      let trues = length-replicate n true in
      let v_size = length-scatter (replicate n zero_vec) ids index.vectors ∙ rows in
      rw written (record {
        rows_size = orig ∙ ap (λ (k : ℕ). let o : Option ℕ = some k in o) (sym v_size);
        dead_size = length-scatter (replicate n true) ids marks ∙ trues ∙ sym v_size;
        row_eq = λ p h.
            scatter_listed (replicate n zero_vec) ids index.vectors p zero_vec mapped.1
              (rw rows mapped.2) mapped.0 h;
        dead_eq = λ p h.
            scatter_listed (replicate n true) ids marks p false mapped.1 (rw trues mapped.2)
              marks_size h
            ∙ marks_eq p h;
        dropped_row = λ i h e.
            scatter_unlisted (replicate n zero_vec) ids index.vectors i zero_vec e
            ∙ replicate_at n zero_vec i zero_vec (omega (arith, h, v_size));
        dropped_dead = λ i h e.
            scatter_unlisted (replicate n true) ids marks i false e
            ∙ replicate_at n true i false (omega (arith, h, v_size));
      })

  -- what `save` writes, for an index whose ID map and tombstones fit its rows
  pub expanded-AreOriginal :
      (index : Index Vec) (v : List Vec) (dead : Option (List Bool))
      → IsMapped index.id_map index.n_orig (length index.vectors)
      → DeadFits index.deleted (length index.vectors)
      → expanded np fl json index ≡ ok (v, dead)
      → AreOriginal index.id_map index v dead
  unfolding expanded
  expanded-AreOriginal index v dead mapped fits e = elim (Option-cases index.id_map) [
    | inl plain ↦
        let e' = rw (expanded, plain) at e in
        let same_v : v ≡ index.vectors = cc in
        let same_dead : dead ≡ index.deleted = cc in
        subst (λ (m : Option (List ℕ)). AreOriginal m index v dead) (sym plain) (same_v, same_dead)
    | inr (ids, has) ↦ elim (Option-cases index.n_orig) [
      | inl missing ↦ absurd (let e' = rw (expanded, has, missing) at e in cc)
      | inr (n, orig) ↦
          let e' = rw (expanded, has, orig) at e in
          let rows = scatter (replicate n zero_vec) ids index.vectors in
          let marks = dead_through (replicate n true) ids index.deleted in
          let same_v : rows ≡ v = cc in
          let same_dead : some marks ≡ dead = cc in
          let there = scatter-IsSpread ids index n orig (rw (has, orig) at mapped) fits in
          subst (λ (m : Option (List ℕ)). AreOriginal m index v dead) (sym has)
            (subst (λ (d : Option (List Bool)). AreOriginal (some ids) index v d) same_dead
              (subst (λ (x : List Vec). IsSpread ids index x marks) same_v there))
    ]
  ]
