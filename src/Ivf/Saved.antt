-- ===== src/Ivf/Saved.antt =====
-- `save` and `load` of ivf.py, over the .vro file. `dim` is v.shape[1]. The fuel is that of vro.write.
-- A negative ID in `list_ids`, which `save` never writes and `load` keeps, is refused in the model.
use vector_retrieval_optimiz.Prelude.{
  ℕ, suc, ◌+◌, ◌/◌, ◌^◌, Bool, true, false, ◌&&◌, ◌||◌, String, List, [], ◌∷◌, Option, none, some,
  Result, ok, raise, key_error, value_error, format_error, guard, ◌>>=◌, ◌>>◌, leb, ◌==◌, length,
  replicate, get_or,
}
use vector_retrieval_optimiz.Prelude.Arrays.{fill_at}
use vector_retrieval_optimiz.Numpy.{Numpy}
use vector_retrieval_optimiz.Bytes.{Floats, rows_bytes, rows_of, ints_bytes, slots_of, naturals}
use vector_retrieval_optimiz.Vro.{
  f32, int32, u8, Section, Value, number, string, null, Header, Json, write,
}
use vector_retrieval_optimiz.Vro.Reader.{read, array, find_param, or_format_error}
use vector_retrieval_optimiz.Vro.Tombstones.{pack_tombstones, unpack_tombstones}
use vector_retrieval_optimiz.Ivf.{Index}

-- `dead |= deleted`
unfoldable pub also_dead : List Bool → Option (List Bool) → List Bool
also_dead dead none = dead
also_dead [] (some ds) = []
also_dead (a ∷ dead) (some []) = a ∷ dead
also_dead (a ∷ dead) (some (d ∷ ds)) = (a || d) ∷ also_dead dead (some ds)

-- `(np.diff(offsets) < 0).any()` is false
unfoldable pub ascends : List ℕ → Bool
ascends [] = true
ascends (a ∷ []) = true
ascends (a ∷ b ∷ xs) = leb a b && ascends (b ∷ xs)

abbrev pub last_of : List ℕ → ℕ
last_of [] = 0
last_of (x ∷ []) = x
last_of (x ∷ y ∷ xs) = last_of (y ∷ xs)

-- int(header["build_params"][key])
unfoldable pub int_param : String → List (String × Value) → Result ℕ
unfolding find_param
int_param key params = elim (find_param key params) [
  | some (number x) ↦ ok x
  | some (string s) ↦ raise value_error
  | some null ↦ raise value_error
  | none ↦ raise key_error
]

module _ (np : Numpy) (fl : Floats np) (json : Json) where
  open np use {Vec}

  -- the rows that are in no list, or deleted
  unfoldable pub dead_rows : Index Vec → List Bool
  unfolding also_dead
  dead_rows index =
      also_dead (fill_at (replicate (length index.vectors) true) index.list_ids false) index.deleted

  unfoldable pub sections_of : ℕ → Index Vec → List Section
  unfolding dead_rows
  sections_of dim index =
      let v = index.vectors in
      let n = length v in
      record { name = "vectors"; dtype = f32; shape = n ∷ dim ∷ []; content = rows_bytes np fl v }
      ∷ record {
        name = "tombstones";
        dtype = u8;
        shape = (n + 7) / 8 ∷ [];
        content = pack_tombstones (some (dead_rows index)) n;
      }
      ∷ record {
        name = "centers";
        dtype = f32;
        shape = length index.centers ∷ dim ∷ [];
        content = rows_bytes np fl index.centers;
      }
      ∷ record {
        name = "list_ids";
        dtype = int32;
        shape = length index.list_ids ∷ [];
        content = ints_bytes index.list_ids;
      }
      ∷ record {
        name = "list_offsets";
        dtype = int32;
        shape = length index.offsets ∷ [];
        content = ints_bytes index.offsets;
      }
      ∷ []

  -- the keys of the header that `save` gives to `write`
  unfoldable pub header_of : ℕ → Index Vec → Option (List (String × Value)) → ℕ → Header
  header_of dim index params seed = record {
    index = "ivf";
    n = length index.vectors;
    dim = dim;
    build_params = elim params [ none ↦ ("nlist", number index.nlist) ∷ [] | some bp ↦ bp ];
    seed = seed;
    sections = [];
  }

  unfoldable pub save :
      ℕ → Index Vec → ℕ → Option (List (String × Value)) → ℕ → Option (Result (List ℕ))
  unfolding write header_of sections_of
  save fuel index dim params seed = elim (leb (2 ^ 31) (length index.vectors)) [
    | true ↦ some (raise value_error)
    | false ↦ write json fuel (header_of dim index params seed) (sections_of dim index)
  ]

  -- the index and its entry `header`
  unfoldable pub load : List ℕ → List (String × Value) → Option ℕ → Result (Index Vec × Header)
  unfolding read array int_param
  load file params dim = do
    r ← read json file "ivf" dim params
    let n = r.header.n
    let d = r.header.dim
    nlist ← int_param "nlist" r.header.build_params
    offset_bytes ← array r "list_offsets" int32 (some (suc nlist ∷ []))
    id_bytes ← array r "list_ids" int32 none
    offsets ← or_format_error (naturals (slots_of offset_bytes))
    list_ids ← or_format_error (naturals (slots_of id_bytes))
    guard (length list_ids == last_of offsets && (get_or offsets 0 0 == 0 && ascends offsets))
        format_error
    vectors ← array r "vectors" f32 (some (n ∷ d ∷ []))
    centers ← array r "centers" f32 (some (nlist ∷ d ∷ []))
    bits ← array r "tombstones" u8 (some ((n + 7) / 8 ∷ []))
    ok (
      record {
        vectors = rows_of np fl d n vectors;
        owned = false;
        centers = rows_of np fl d nlist centers;
        list_ids = list_ids;
        offsets = offsets;
        nlist = nlist;
        deleted = unpack_tombstones bits n;
        distance_computations = 0;
        filter_rows = 0;
      },
      r.header,
    )
