-- ===== src/Hnsw/Edits/Emptied.antt =====
-- An index of hnsw.py without a live row: `compact` in mode "repair" and `update` look for an entry
-- point among the live rows.
use vector_retrieval_optimiz.Prelude.{
  ℕ, zero, suc, ◌≤◌, ◌<◌, ◌≡◌, refl, ◌∙◌, Bool, true, false, not, List, [], ◌∷◌, map, none, some,
  raise, value_error, length, length-take, length-replicate, get_or, take, set, replicate, arith,
  leb, ◌==◌, Bool-cases, inl, inr, elem, dec_lt,
}
use vector_retrieval_optimiz.Prelude.Arrays.{fill_at}
use vector_retrieval_optimiz.Numpy.{Numpy}
use vector_retrieval_optimiz.Flat.{all_below}
use vector_retrieval_optimiz.Hnsw.Graph.{LevelOf}
use vector_retrieval_optimiz.Hnsw.Changes.{pick_entry, update_nodes}
use vector_retrieval_optimiz.Hnsw.Changes.Entry.{pick_entry-IsEntry}
use vector_retrieval_optimiz.Hnsw.Index.{Index}
use vector_retrieval_optimiz.Hnsw.Edits.{live_entry, compact_repair, compact, update}

get_or-take :
    (n : ℕ) (bs : List Bool) (i : ℕ) → i < n → get_or (take n bs) i false ≡ get_or bs i false
get_or-take zero bs i h = absurd (omega arith)
get_or-take (suc n) [] i h = refl
get_or-take (suc n) (b ∷ bs) zero h = refl
get_or-take (suc n) (b ∷ bs) (suc i) h = get_or-take n bs i (omega arith)

all_dead-not :
    (dead : List Bool) (i : ℕ)
    → ((i : ℕ) → i < length dead → get_or dead i false ≡ true)
    → get_or (map not dead) i false ≡ false
all_dead-not [] i h = refl
all_dead-not (d ∷ dead) zero h = ground (arith, h 0 (omega arith))
all_dead-not (d ∷ dead) (suc i) h = all_dead-not dead i (λ j l. h (suc j) (omega arith))

pick_entry_none :
    (levels : List ℕ) (live : List Bool)
    → ((j : ℕ) → get_or live j false ≡ false)
    → pick_entry levels live ≡ raise value_error
pick_entry_none levels live h = elim (pick_entry-IsEntry levels live) [
  | inl (j, is_live, best, picked, right) ↦ absurd (ground (arith, h j, is_live))
  | inr (nothing, e) ↦ e
]

set-false :
    (bs : List Bool) (i j : ℕ) → get_or bs j false ≡ false → get_or (set bs i false) j false ≡ false
set-false [] i j h = h
set-false (b ∷ bs) zero zero h = refl
set-false (b ∷ bs) zero (suc j) h = h
set-false (b ∷ bs) (suc i) zero h = h
set-false (b ∷ bs) (suc i) (suc j) h = set-false bs i j h

set-false_self : (bs : List Bool) (i : ℕ) → get_or (set bs i false) i false ≡ false
set-false_self [] i = refl
set-false_self (b ∷ bs) zero = refl
set-false_self (b ∷ bs) (suc i) = set-false_self bs i

fill_at-false :
    (ids : List ℕ) (bs : List Bool) (j : ℕ)
    → get_or bs j false ≡ false
    → get_or (fill_at bs ids false) j false ≡ false
fill_at-false [] bs j h = h
fill_at-false (i ∷ ids) bs j h = fill_at-false ids (set bs i false) j (set-false bs i j h)

fill_at-listed :
    (ids : List ℕ) (bs : List Bool) (j : ℕ)
    → elem j ids ≡ true
    → get_or (fill_at bs ids false) j false ≡ false
fill_at-listed [] bs j h = cc
fill_at-listed (i ∷ ids) bs j h = elim (Bool-cases (i == j)) [
  | inl same ↦
      let eq : i ≡ j = ground arith in
      fill_at-false ids (set bs i false) j (rw eq (set-false_self bs j))
  | inr other ↦ fill_at-listed ids (set bs i false) j (ground (arith, h, other))
]

get_or_outside : (bs : List Bool) (j : ℕ) → length bs ≤ j → get_or bs j false ≡ false
get_or_outside [] j h = refl
get_or_outside (b ∷ bs) zero h = absurd (omega arith)
get_or_outside (b ∷ bs) (suc j) h = get_or_outside bs j (omega arith)

no_live :
    (n : ℕ) (ids : List ℕ) (j : ℕ)
    → ((i : ℕ) → i < n → elem i ids ≡ true)
    → get_or (fill_at (replicate n true) ids false) j false ≡ false
no_live n ids j every = elim (dec_lt j n) [
  | yes within ↦ fill_at-listed ids (replicate n true) j (every j within)
  | no beyond ↦
      fill_at-false ids (replicate n true) j
        (get_or_outside (replicate n true) j (omega (arith, length-replicate n true)))
]

module _ (np : Numpy) (level_of : LevelOf) (index : Index np.Vec) where
  -- Compaction in mode "repair" raises ValueError for an index with a level and a tombstone for
  -- each of its rows, whose entry point is one of them, where every row is deleted.
  pub compact-all_dead :
      (dead : List Bool)
      → index.deleted ≡ some dead
      → length dead ≡ length index.v
      → index.n ≤ length index.v
      → length index.levels ≡ length index.v
      → index.entry < index.n
      → ((i : ℕ) → i < index.n → get_or dead i false ≡ true)
      → compact np level_of index "repair" ≡ raise value_error
  unfolding compact compact_repair live_entry
  compact-all_dead dead some_dead size fits levels_size entry_in every_dead =
      let gone = take index.n dead in
      let gone_size : length gone ≡ index.n = omega (arith, length-take index.n dead, size) in
      let all_dead : (i : ℕ) → i < length gone → get_or gone i false ≡ true = λ i h.
        get_or-take index.n dead i (omega (arith, h, gone_size))
        ∙ every_dead i (omega (arith, h, gone_size)) in
      let inside : index.entry < length gone = omega (arith, gone_size) in
      let within : leb index.n (length gone) ≡ true = ground arith in
      rw
        (
          compact,
          some_dead,
          compact_repair,
          within,
          live_entry,
          all_dead index.entry inside,
          pick_entry_none (take index.n index.levels) (map not gone)
              (λ i. all_dead-not gone i all_dead),
        )
        refl

  -- An update of every row of an index that is not compacted raises ValueError: the entry point is
  -- updated, and no other row is left to start the inserts from.
  pub update-every_row :
      (ids : List ℕ) (vectors : List np.Vec)
      → index.id_map ≡ none
      → all_below (length index.v) ids ≡ true
      → index.entry < index.n
      → ((i : ℕ) → i < index.n → elem i ids ≡ true)
      → update np level_of index ids vectors ≡ raise value_error
  unfolding update update_nodes
  update-every_row ids vectors plain below entry_in every =
      rw
        (
          update,
          plain,
          below,
          update_nodes,
          every index.entry entry_in,
          pick_entry_none index.levels (fill_at (replicate index.n true) ids false)
              (λ j. no_live index.n ids j every),
        )
        refl
