-- ===== src/Flat/Valid.antt =====
-- When a flat index is well-formed: its ID map fits, and its caches hold what would be computed.
use vector_retrieval_optimiz.Prelude.{
  ℕ, ◌≡◌, refl, Bool, true, false, not, ◌&&◌, String, List, Option, none, some, Result, ok, length,
}
use vector_retrieval_optimiz.Prelude.Arrays.{gather}
use vector_retrieval_optimiz.Numpy.{Numpy}
use vector_retrieval_optimiz.Files.{Files}
use vector_retrieval_optimiz.Filters.Memo.{mask_of}
use vector_retrieval_optimiz.Flat.{Index, through, cached, or_else, is_some, select, drop_caches}
use vector_retrieval_optimiz.Flat.Selection.{IdsFit}

-- an index that is not compacted still has its original rows
abbrev pub OrigFits : Option (List ℕ) → Option ℕ → ℕ → Type 0
OrigFits none orig n = or_else orig n ≡ n
OrigFits (some ids) orig n = Unit

pub both_none {ℓ κ} :
    {A : Type ℓ} {B : Type κ} (a : Option A) (b : Option B)
    → (not (is_some a) && not (is_some b)) ≡ true
    → (a ≡ none) × (b ≡ none)
both_none none none h = (refl, refl)
both_none none (some b) h = cc
both_none (some a) b h = cc

pub through-none :
    (ids : Option (List ℕ)) (m : Option (List Bool)) → through ids m ≡ none → m ≡ none
through-none ids none h = refl
through-none none (some f) h = cc
through-none (some ids) (some f) h = cc

-- a tombstone for every row
abbrev pub DeadFits : Option (List Bool) → ℕ → Type 0
DeadFits none n = Unit
DeadFits (some dead) n = length dead ≡ n

-- the first change sets `n_orig`, and no index has an ID map before its first change
abbrev pub OwnedFits : Bool → Option ℕ → Option (List ℕ) → Type 0
OwnedFits true orig ids = is_some orig ≡ true
OwnedFits false orig ids = ids ≡ none

pub OrigFits-own :
    (ids : Option (List ℕ)) (orig : Option ℕ) (n : ℕ)
    → OrigFits ids orig n
    → OrigFits ids (some (or_else orig n)) n
OrigFits-own none orig n h = h
OrigFits-own (some ids) orig n h = tt

module _ (np : Numpy) (files : Files np.Vec) where
  open np use {Vec, zero_vec}

  -- the filter's mask over the original rows
  abbrev pub original_mask : Index Vec → String → Result (Option (List Bool))
  original_mask index name = mask_of files name (or_else index.n_orig (length index.vectors))

  -- what `select` gives for a filter's mask over the original rows
  abbrev pub selection : Index Vec → Option (List Bool) → List ℕ × List ℕ
  selection index m = select np files index (through index.id_map m)

  -- The ID map, the tombstones and the original row count fit the rows, and the caches hold what
  -- would be computed.
  pub record IsValid (index : Index Vec) : Type 0 where
    pub ids_fit : IdsFit index.id_map (length index.vectors)
    pub orig_fits : OrigFits index.id_map index.n_orig (length index.vectors)
    pub dead_fits : DeadFits index.deleted (length index.vectors)
    pub owned_fits : OwnedFits index.owned index.n_orig index.id_map
    pub filtered_fits :
        (name : String) (sel : List ℕ × List ℕ) (m : Option (List Bool))
        → cached name index.filtered ≡ some sel
        → original_mask index name ≡ ok m
        → sel ≡ selection index m
    pub rows_fit :
        (name : String) (rows : List Vec) (m : Option (List Bool))
        → cached name index.filtered_rows ≡ some rows
        → original_mask index name ≡ ok m
        → rows ≡ gather zero_vec index.vectors (selection index m).0

  -- the rows and their IDs, tombstones and counts are those of the other index
  pub record SameRows (a b : Index Vec) : Type 0 where
    pub vectors : a.vectors ≡ b.vectors
    pub owned : a.owned ≡ b.owned
    pub n_orig : a.n_orig ≡ b.n_orig
    pub id_map : a.id_map ≡ b.id_map
    pub deleted : a.deleted ≡ b.deleted

  -- an index whose parts fit is valid once its caches are dropped
  pub drop_caches-IsValid :
      (b : Index Vec)
      → IdsFit b.id_map (length b.vectors)
      → OrigFits b.id_map b.n_orig (length b.vectors)
      → DeadFits b.deleted (length b.vectors)
      → OwnedFits b.owned b.n_orig b.id_map
      → IsValid (drop_caches np files b)
  unfolding cached
  drop_caches-IsValid b i o d w = record {
    ids_fit = i;
    orig_fits = o;
    dead_fits = d;
    owned_fits = w;
    filtered_fits = λ name sel m c e. cc;
    rows_fit = λ name rows m c e. cc;
  }
