-- ===== src/Flat/Saved.antt =====
-- `save` and `load` of flat.py, over the .vro file. `dim` is v.shape[1]. The fuel is that of vro.write.
pub mod Restored
pub mod Loaded
use vector_retrieval_optimiz.Prelude.{
  ℕ, zero, ◌+◌, ◌/◌, ◌*◌, Bool, true, false, String, List, [], ◌∷◌, Option, none, some, Result, ok,
  raise, key_error, ◌>>=◌, length, replicate,
}
use vector_retrieval_optimiz.Prelude.Arrays.{scatter, fill_at}
use vector_retrieval_optimiz.Numpy.{Numpy}
use vector_retrieval_optimiz.Bytes.{Floats, rows_bytes, rows_of}
use vector_retrieval_optimiz.Vro.{f32, u8, Section, Value, Header, Json, write}
use vector_retrieval_optimiz.Vro.Reader.{read, array}
use vector_retrieval_optimiz.Vro.Tombstones.{pack_tombstones, unpack_tombstones}
use vector_retrieval_optimiz.Flat.{Index, is_some}

-- `full_dead[id_map] = False if dead is None else dead`
unfoldable pub dead_through : List Bool → List ℕ → Option (List Bool) → List Bool
dead_through full ids none = fill_at full ids false
dead_through full ids (some dead) = scatter full ids dead

module _ (np : Numpy) (fl : Floats np) (json : Json) where
  open np use {Vec, zero_vec}

  -- the rows and the tombstones of all original rows
  unfoldable pub expanded : Index Vec → Result (List Vec × Option (List Bool))
  unfolding dead_through
  expanded index = elim index.id_map [
    | none ↦ ok (index.vectors, index.deleted)
    | some ids ↦ elim index.n_orig [
      | none ↦ raise key_error
      | some n ↦ ok (
        scatter (replicate n zero_vec) ids index.vectors,
        some (dead_through (replicate n true) ids index.deleted),
      )
    ]
  ]

  -- the sections of the file
  unfoldable pub sections_of : ℕ → List Vec → Option (List Bool) → List Section
  sections_of dim v dead =
      record {
        name = "vectors";
        dtype = f32;
        shape = length v ∷ dim ∷ [];
        content = rows_bytes np fl v;
      }
      ∷ record {
        name = "tombstones";
        dtype = u8;
        shape = (length v + 7) / 8 ∷ [];
        content = pack_tombstones dead (length v);
      }
      ∷ []

  -- the keys of the header that `save` gives to `write`
  unfoldable pub header_of : ℕ → List Vec → List (String × Value) → ℕ → Header
  header_of dim v params seed = record {
    index = "flat";
    n = length v;
    dim = dim;
    build_params = params;
    seed = seed;
    sections = [];
  }

  unfoldable pub save : ℕ → Index Vec → ℕ → List (String × Value) → ℕ → Option (Result (List ℕ))
  unfolding expanded write header_of sections_of
  save fuel index dim params seed = elim (expanded index) [
    | raise error ↦ some (raise error)
    | ok (v, dead) ↦ write json fuel (header_of dim v params seed) (sections_of dim v dead)
  ]

  -- the index and its entry `header`
  unfoldable pub load : List ℕ → List (String × Value) → Option ℕ → Result (Index Vec × Header)
  unfolding read array
  load file params dim = do
    r ← read json file "flat" dim params
    let n = r.header.n
    vectors ← array r "vectors" f32 (some (n ∷ r.header.dim ∷ []))
    bits ← array r "tombstones" u8 (some ((n + 7) / 8 ∷ []))
    let dead = unpack_tombstones bits n
    ok (
      record {
        vectors = rows_of np fl r.header.dim n vectors;
        owned = is_some dead;
        n_orig = elim dead [ none ↦ none | some d ↦ some n ];
        id_map = none;
        deleted = dead;
        filtered = [];
        filtered_rows = [];
        distance_computations = 0;
        filter_rows = 0;
      },
      r.header,
    )
