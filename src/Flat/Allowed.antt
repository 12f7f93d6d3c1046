-- ===== src/Flat/Allowed.antt =====
-- What `_allowed` of the flat index returns: the selection for the filter, from the cache or afresh.
use vector_retrieval_optimiz.Prelude.{
  ℕ, ◌≡◌, refl, ap, ◌∙◌, ◌⊎◌, Bool, false, not, ◌&&◌, String, List, ◌∷◌, Option, none, some, ok,
  length, if◌then◌else◌, str_eq, eq_iff, Bool-cases, Option-cases, inl, inr,
}
use vector_retrieval_optimiz.Numpy.{Numpy}
use vector_retrieval_optimiz.Files.{Files}
use vector_retrieval_optimiz.Filters.Memo.{length-mask_of, mask_of_unfiltered}
use vector_retrieval_optimiz.Flat.{Index, through, cached, is_some, select, filter_mask, allowed_by}
use vector_retrieval_optimiz.Flat.Selection.{MaskFits}
use vector_retrieval_optimiz.Flat.Valid.{
  OrigFits, both_none, through-none, original_mask, selection, IsValid,
}

module _ (np : Numpy) (files : Files np.Vec) (index : Index np.Vec) (name : String)
    (m : Option (List Bool)) (got : original_mask np files index name ≡ ok m) where
  open np use {Vec, zero_vec}

  pub mask_fits :
      OrigFits index.id_map index.n_orig (length index.vectors)
      → MaskFits index.id_map m (length index.vectors)
  mask_fits h = go index.id_map m h got
    where
      go :
          (ids : Option (List ℕ)) (f : Option (List Bool))
          → OrigFits ids index.n_orig (length index.vectors)
          → original_mask np files index name ≡ ok f
          → MaskFits ids f (length index.vectors)
      go none none h e = tt
      go none (some f) h e = length-mask_of files name _ f e ∙ h
      go (some ids) none h e = tt
      go (some ids) (some f) h e = tt

  pub filter_mask-through : filter_mask np files index name ≡ ok (through index.id_map m)
  unfolding filter_mask
  filter_mask-through = elim (Bool-cases (str_eq name "none")) [
    | inl e ↦ rw (e, mask_of_unfiltered files name _ m e got)
    | inr e ↦ rw (e, got)
  ]

  -- the selection, or nothing where every row is to be seen
  abbrev pub IsSelection : Option (List ℕ × List ℕ) → Type 0
  IsSelection sel =
      (sel ≡ some (selection np files index m))
      ⊎ ((sel ≡ none) × (m ≡ none) × (index.deleted ≡ none))

  -- What `_allowed` returns.
  pub record Allowed (r : Option (List ℕ × List ℕ) × Index Vec) : Type 0 where
    pub sel : Option (List ℕ × List ℕ)
    pub cache : List (String × (List ℕ × List ℕ))
    pub shape : r ≡ (sel, record index { filtered = cache })
    pub is_selection : IsSelection sel
    pub valid : IsValid np files (record index { filtered = cache })

  fits_now :
      (j : String) (sel : List ℕ × List ℕ) (f : Option (List Bool))
      → IsValid np files index
      → (if str_eq name j then some (selection np files index m) else cached j index.filtered)
        ≡ some sel
      → original_mask np files index j ≡ ok f
      → sel ≡ selection np files index f
  fits_now j sel f v c e = elim (Bool-cases (str_eq name j)) [
    | inl h ↦
        let c' : some (selection np files index m) ≡ some sel = rw h at c in
        let n : name ≡ j = (eq_iff name j).0 h in
        let g : original_mask np files index j ≡ ok m = rw n at got in cc
    | inr h ↦ v.filtered_fits j sel f (rw h at c) e
  ]

  remembered :
      IsValid np files index
      → IsValid np files
          (record index { filtered = (name, selection np files index m) ∷ index.filtered })
  unfolding cached select
  remembered v = record {
    ids_fit = v.ids_fit;
    orig_fits = v.orig_fits;
    dead_fits = v.dead_fits;
    owned_fits = v.owned_fits;
    filtered_fits = λ j sel f c e. fits_now j sel f v c e;
    rows_fit = v.rows_fit;
  }

  allowed_by_all :
      (t : Option (List Bool))
      → t ≡ none
      → index.deleted ≡ none
      → allowed_by np files index name t ≡ (none, index)
  unfolding allowed_by
  allowed_by_all t e h = rw (e, h)

  allowed_by-some :
      (t : Option (List Bool))
      → (not (is_some t) && not (is_some index.deleted)) ≡ false
      → allowed_by np files index name t ≡ elim (cached name index.filtered) [
        | some sel ↦ (some sel, index)
        | none ↦ (
          some (select np files index t),
          record index { filtered = (name, select np files index t) ∷ index.filtered },
        )
      ]
  unfolding allowed_by
  allowed_by-some t h = rw h

  pub allowed_by-Allowed :
      IsValid np files index → Allowed (allowed_by np files index name (through index.id_map m))
  allowed_by-Allowed v =
      elim (Bool-cases (not (is_some (through index.id_map m)) && not (is_some index.deleted))) [
        | inl h ↦
            let (t, d) = both_none (through index.id_map m) index.deleted h in
            record {
              sel = none;
              cache = index.filtered;
              shape = allowed_by_all _ t d;
              is_selection = inr (refl, through-none index.id_map m t, d);
              valid = v;
            }
        | inr h ↦ rw (allowed_by-some _ h) (elim (Option-cases (cached name index.filtered)) [
          | inl new ↦ rw new (record {
            sel = some (selection np files index m);
            cache = (name, selection np files index m) ∷ index.filtered;
            shape = refl;
            is_selection = inl refl;
            valid = remembered v;
          })
          | inr (sel, old) ↦ rw old (record {
            sel = some sel;
            cache = index.filtered;
            shape = refl;
            is_selection = inl (ap some (v.filtered_fits name sel m old got));
            valid = v;
          })
        ])
      ]
