-- ===== src/Flat/Selection.antt =====
-- The rows that a search of the flat index sees: an independent description, and `select` against it.
use vector_retrieval_optimiz.Prelude.{
  ℕ, zero, suc, ◌<◌, ◌≡◌, refl, ap, ◌∙◌, Bool, true, false, not, ◌&&◌, List, [], ◌∷◌, map, Option,
  none, some, length, get_or, filter, replicate, range_from, arith, length-map, length-replicate,
}
use vector_retrieval_optimiz.Prelude.Arrays.{flatnonzero_from-filter, get_or-map}
use vector_retrieval_optimiz.Numpy.{Numpy, Hit}
use vector_retrieval_optimiz.Distance.{Ranking}
use vector_retrieval_optimiz.Distance.Best.{id_at, best}
use vector_retrieval_optimiz.Files.{Files}
use vector_retrieval_optimiz.Flat.{Index, and_not, without_dead, or_else, through, select}

-- does the original row pass the filter's mask?
abbrev pub in_mask : Option (List Bool) → ℕ → Bool
in_mask none r = true
in_mask (some f) r = get_or f r false

abbrev pub is_live : Option (List Bool) → ℕ → Bool
is_live none i = true
is_live (some dead) i = not (get_or dead i false)

get_or-and_not :
    (bs ds : List Bool) (i : ℕ)
    → get_or (and_not bs ds) i false ≡ (get_or bs i false && not (get_or ds i false))
get_or-and_not [] ds i = refl
get_or-and_not (a ∷ bs) [] zero = ground arith
get_or-and_not (a ∷ bs) [] (suc i) = ground arith
get_or-and_not (a ∷ bs) (d ∷ ds) zero = refl
get_or-and_not (a ∷ bs) (d ∷ ds) (suc i) = get_or-and_not bs ds i

length-and_not : (bs ds : List Bool) → length (and_not bs ds) ≡ length bs
length-and_not [] ds = refl
length-and_not (a ∷ bs) [] = refl
length-and_not (a ∷ bs) (d ∷ ds) = ap suc (length-and_not bs ds)

get_or-replicate : (n i : ℕ) → i < n → get_or (replicate n true) i false ≡ true
get_or-replicate zero i h = elim h [ ]
get_or-replicate (suc n) zero h = refl
get_or-replicate (suc n) (suc i) h = get_or-replicate n i (omega arith)

length-without_dead :
    (dead : Option (List Bool)) (bs : List Bool) → length (without_dead dead bs) ≡ length bs
length-without_dead none bs = refl
length-without_dead (some dead) bs = length-and_not bs dead

get_or-without_dead :
    (dead : Option (List Bool)) (bs : List Bool) (i : ℕ)
    → get_or (without_dead dead bs) i false ≡ (get_or bs i false && is_live dead i)
get_or-without_dead none bs i = ground arith
get_or-without_dead (some dead) bs i = get_or-and_not bs dead i

-- an ID for every row
abbrev pub IdsFit : Option (List ℕ) → ℕ → Type 0
IdsFit none n = Unit
IdsFit (some ids) n = length ids ≡ n

-- on an index that is not compacted, a mask has an entry for every row
abbrev pub MaskFits : Option (List ℕ) → Option (List Bool) → ℕ → Type 0
MaskFits none (some f) n = length f ≡ n
MaskFits _ _ n = Unit

abbrev allow_of : Option (List ℕ) → Option (List Bool) → ℕ → List Bool
allow_of ids m n = or_else (through ids m) (replicate n true)

length-allow :
    (ids : Option (List ℕ)) (m : Option (List Bool)) (n : ℕ)
    → IdsFit ids n
    → MaskFits ids m n
    → length (allow_of ids m n) ≡ n
length-allow none none n h k = length-replicate n true
length-allow (some ids) none n h k = length-replicate n true
length-allow none (some f) n h k = k
length-allow (some ids) (some f) n h k = length-map (λ i. get_or f i false) ids ∙ h

allow-at :
    (ids : Option (List ℕ)) (m : Option (List Bool)) (n i : ℕ)
    → i < n
    → IdsFit ids n
    → get_or (allow_of ids m n) i false ≡ in_mask m (id_at ids i)
allow-at none none n i h k = get_or-replicate n i h
allow-at (some ids) none n i h k = get_or-replicate n i h
allow-at none (some f) n i h k = refl
allow-at (some ids) (some f) n i h k =
    get_or-map (λ (r : ℕ). get_or f r false) ids i 0 false (omega arith)

module _ (np : Numpy) (files : Files np.Vec) (index : Index np.Vec) where
  -- A position is seen if its row passes the filter and is not deleted.
  abbrev pub sees : Option (List Bool) → ℕ → Bool
  sees m i = in_mask m (id_at index.id_map i) && is_live index.deleted i

  abbrev pub seen : Option (List Bool) → List ℕ
  seen m = filter (sees m) (range_from 0 (length index.vectors))

  abbrev pub row_hit : np.Vec → ℕ → Hit
  row_hit query i = record {
    row = id_at index.id_map i;
    score = np.dot query (get_or index.vectors i np.zero_vec);
  }

  -- What a search is to return: the k best of the rows that are seen, under their row IDs.
  abbrev pub flat_best : np.Vec → ℕ → Option (List Bool) → Ranking
  flat_best query k m = best k (map (row_hit query) (seen m))

  pub select-seen :
      (m : Option (List Bool))
      → IdsFit index.id_map (length index.vectors)
      → MaskFits index.id_map m (length index.vectors)
      → (select np files index (through index.id_map m)).0 ≡ seen m
  unfolding select
  select-seen m fit mask_fit =
      let n = length index.vectors in
      let allow = allow_of index.id_map m n in
      let e =
        length-without_dead index.deleted allow ∙ length-allow index.id_map m n fit mask_fit in
      let f = flatnonzero_from-filter 0 (without_dead index.deleted allow) (sees m) (λ i h.
        get_or-without_dead index.deleted allow i
        ∙ ap (λ b. b && is_live index.deleted i) (allow-at index.id_map m n i (rw e at h) fit)
        ∙ ap (sees m) (omega arith)) in
      rw e at f
