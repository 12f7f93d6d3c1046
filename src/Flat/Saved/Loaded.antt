-- ===== src/Flat/Saved/Loaded.antt =====
-- An index that flat.py saves is loaded with the rows and tombstones that it was saved with.
use vector_retrieval_optimiz.Prelude.{
  ℕ, zero, suc, ◌+◌, ◌/◌, ◌≡◌, refl, ap, ◌∙◌, Bool, true, false, String, List, [], ◌∷◌, Option,
  none, some, ok, length, length-replicate, length-take, take, drop, replicate, All, ◌==◌, ==_iff,
  if◌then◌else◌, arith,
}
use vector_retrieval_optimiz.Numpy.{Numpy}
use vector_retrieval_optimiz.Bytes.{Floats, rows_bytes}
use vector_retrieval_optimiz.Bytes.Slots.{IsWide, length-rows_bytes, rows_of-rows_bytes}
use vector_retrieval_optimiz.Vro.{f32, u8, Value, Header, Json, align, header_at, table_from, write}
use vector_retrieval_optimiz.Vro.Reader.{
  Opened, dtype_eq, params_match, find_section, open_file, check, read, array,
}
use vector_retrieval_optimiz.Vro.Sections.{list_eq_self, array_lem, write-opened}
use vector_retrieval_optimiz.Vro.Layout.{text_length}
use vector_retrieval_optimiz.Vro.Roundtrip.{Stored, IsSized}
use vector_retrieval_optimiz.Vro.Tombstones.{any_set, packbits, pack_tombstones, unpack_tombstones}
use vector_retrieval_optimiz.Vro.Tombstones.Roundtrip.{unpack-pack}
use vector_retrieval_optimiz.Flat.{Index, is_some}
use vector_retrieval_optimiz.Flat.Valid.{DeadFits}
use vector_retrieval_optimiz.Flat.Saved.Restored.{IsMapped, AreOriginal, expanded-AreOriginal}
use vector_retrieval_optimiz.Flat.Saved.{expanded, sections_of, header_of, save, load}

length-packbits : (c : ℕ) (bs : List Bool) → length (packbits c bs) ≡ c
unfolding packbits
length-packbits zero bs = refl
length-packbits (suc c) bs = ap suc (length-packbits c (drop 8 bs))

-- tombstones for n rows
abbrev pub IsFor : ℕ → Option (List Bool) → Type 0
IsFor n none = Unit
IsFor n (some dead) = length dead ≡ n

-- what the loader makes of tombstones: none with no bit set
abbrev pub kept : Option (List Bool) → Option (List Bool)
kept none = none
kept (some dead) = if any_set dead then some dead else none

pub length-pack_tombstones :
    (dead : Option (List Bool)) (n : ℕ)
    → IsFor n dead
    → length (pack_tombstones dead n) ≡ (n + 7) / 8
unfolding pack_tombstones
length-pack_tombstones none n h = length-replicate ((n + 7) / 8) zero
length-pack_tombstones (some dead) n h =
    let size : length (take n dead) ≡ n = omega (arith, h, length-take n dead) in
    length-packbits ((length (take n dead) + 7) / 8) (take n dead)
    ∙ ap (λ (k : ℕ). (k + 7) / 8) size

pub unpack-kept :
    (dead : Option (List Bool)) (n : ℕ)
    → IsFor n dead
    → unpack_tombstones (pack_tombstones dead n) n ≡ kept dead
unpack-kept none n h = (unpack-pack (replicate n false) n (length-replicate n false)).1
unpack-kept (some dead) n h = (unpack-pack dead n h).0

module _ (np : Numpy) (fl : Floats np) (json : Json) where
  open np use {Vec}

  -- the index that `load` makes of rows and tombstones
  abbrev pub loaded : List Vec → Option (List Bool) → Index Vec
  loaded v dead = record {
    vectors = v;
    owned = is_some dead;
    n_orig = elim dead [ none ↦ none | some d ↦ some (length v) ];
    id_map = none;
    deleted = dead;
    filtered = [];
    filtered_rows = [];
    distance_computations = 0;
    filter_rows = 0;
  }

  sections-IsSized :
      (dim : ℕ) (v : List Vec) (dead : Option (List Bool))
      → All (IsWide np fl dim) v
      → IsFor (length v) dead
      → All IsSized (sections_of np fl json dim v dead)
  unfolding sections_of
  sections-IsSized dim v dead wide fit = (
    (refl, grind (arith, length-rows_bytes np fl dim v wide)),
    ((refl, omega (arith, length-pack_tombstones dead (length v) fit)), tt),
  )

  -- The checks and the sections of a file with these two sections.
  load-opened :
      (dim seed start : ℕ) (v : List Vec) (dead : Option (List Bool))
      (params asked : List (String × Value)) (file : List ℕ)
      → All (IsWide np fl dim) v
      → IsFor (length v) dead
      → params_match params asked ≡ true
      → let header =
          header_at
            (header_of np fl json dim v params seed)
            (sections_of np fl json dim v dead)
            start in
        open_file json file ≡ ok (record { header = header; file = file })
        → Stored file header.sections (sections_of np fl json dim v dead)
        → load np fl json file asked (some dim) ≡ ok (loaded v (kept dead), header)
  unfolding load read check find_section header_at table_from sections_of header_of dtype_eq
  load-opened dim seed start v dead params asked file wide fit agree opened stored =
      let n = length v in
      let header =
        header_at (header_of np fl json dim v params seed) (sections_of np fl json dim v dead)
          start in
      let r : Opened = record { header = header; file = file } in
      let shape = n ∷ dim ∷ [] in
      let off = align (8 + 4 + start) in
      let next = align (off + length (rows_bytes np fl v)) in
      let same_dim : (dim == dim) ≡ true = (==_iff dim dim).1 refl in
      let sized = sections-IsSized dim v dead wide fit in
      let vectors : array r "vectors" f32 (some shape) ≡ ok (rows_bytes np fl v) =
        array_lem r "vectors" f32 (some shape) _ (rows_bytes np fl v) refl refl (list_eq_self shape)
          (ap (λ (k : ℕ). take k (drop off file)) sized.0.1 ∙ stored.0) in
      let bits : array r "tombstones" u8 (some ((n + 7) / 8 ∷ [])) ≡ ok (pack_tombstones dead n) =
        array_lem r "tombstones" u8 (some ((n + 7) / 8 ∷ [])) _ (pack_tombstones dead n) refl refl
          (list_eq_self ((n + 7) / 8 ∷ []))
          (ap (λ (k : ℕ). take k (drop next file)) sized.1.0.1 ∙ stored.2.0) in
      rw (opened, same_dim, agree, list_eq_self shape, vectors, bits)
        (rw (unpack-kept dead n fit, rows_of-rows_bytes np fl dim v wide) refl)

  -- An index that `save` writes, `load` reads: for an ID map of different original rows, if there
  -- is one, tombstones for every row, if there are any, float32 rows of dim values, a JSON text of
  -- the header that reads back, and parameters that agree with the stored ones, it returns rows and
  -- tombstones (none, where no bit is set) with no ID map and no caches. Without an ID map they are
  -- those of the index; with one, each row of the index stands with its tombstone at its original
  -- row, and every other original row is a zero row that is deleted.
  pub load-save :
      (fuel : ℕ) (index : Index Vec) (dim seed : ℕ) (params asked : List (String × Value))
      (v : List Vec) (dead : Option (List Bool)) (file : List ℕ)
      → IsMapped index.id_map index.n_orig (length index.vectors)
      → DeadFits index.deleted (length index.vectors)
      → expanded np fl json index ≡ ok (v, dead)
      → All (IsWide np fl dim) v
      → IsFor (length v) dead
      → (let h = header_of np fl json dim v params seed in
          let sections = sections_of np fl json dim v dead in
          (s : ℕ)
          → text_length json h sections s ≡ s
          → json.loads (json.dumps (header_at h sections s)) ≡ some (header_at h sections s))
      → params_match params asked ≡ true
      → save np fl json fuel index dim params seed ≡ some (ok file)
      → (header : Header) × (load np fl json file asked (some dim)
          ≡ ok (loaded v (kept dead), header))
        × (header.n ≡ length v)
        × AreOriginal np fl json index.id_map index v dead
  unfolding save header_at header_of
  load-save fuel index dim seed params asked v dead file mapped fits rows wide fit reads_back agree
        saved =
      let sections = sections_of np fl json dim v dead in
      let h = header_of np fl json dim v params seed in
      let written : write json fuel h sections ≡ some (ok file) = rw (save, rows) at saved in
      let (start, opened, stored) =
        write-opened json fuel h sections file reads_back (sections-IsSized dim v dead wide fit)
          written in
      (
        header_at h sections start,
        load-opened dim seed start v dead params asked file wide fit agree opened stored,
        refl,
        expanded-AreOriginal np fl json index v dead mapped fits rows,
      )
