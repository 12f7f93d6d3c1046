-- ===== src/Hnsw/Saved.antt =====
-- `_masked`, `save`, `load` and `clone` of hnsw.py, over the .vro file. `dim` is v.shape[1]. The fuel is
-- that of vro.write. An entry point below 0, which `save` never writes and `load` takes from the end, is
-- refused in the model.
use vector_retrieval_optimiz.Prelude.{
  ℕ, zero, suc, ◌+◌, ◌-◌, ◌/◌, ◌*◌, Bool, true, false, ◌&&◌, ◌||◌, String, List, [], ◌∷◌, ◌++◌, map,
  Option, none, some, Result, ok, raise, value_error, index_error, format_error, guard, ◌>>=◌, ◌>>◌,
  ltb, leb, ◌==◌, length, replicate, get_or, take, max, range_from, filter,
}
use vector_retrieval_optimiz.Prelude.Arrays.{scatter, cumsum_from, diff, sum}
use vector_retrieval_optimiz.Numpy.{Numpy}
use vector_retrieval_optimiz.Bytes.{
  Floats, rows_bytes, rows_of, ints_bytes, slots_of, naturals, slot_rows_bytes, slot_rows_of,
}
use vector_retrieval_optimiz.Vro.{f32, int32, u8, Section, Value, number, Header, Json, write}
use vector_retrieval_optimiz.Vro.Reader.{Opened, list_eq, read, array, or_format_error}
use vector_retrieval_optimiz.Vro.Tombstones.{pack_tombstones, unpack_tombstones}
use vector_retrieval_optimiz.Flat.Saved.{dead_through}
use vector_retrieval_optimiz.Hnsw.Graph.{max_of}
use vector_retrieval_optimiz.Hnsw.Frozen.{Slots, Store}
use vector_retrieval_optimiz.Hnsw.Index.{Index}
use vector_retrieval_optimiz.Ivf.Saved.{int_param}

-- `_masked`
unfoldable pub masked_row : Slots → ℕ → Slots
masked_row slots count = take count slots ++ replicate (length slots - count) none

unfoldable pub masked : List Slots → List ℕ → List Slots
unfolding masked_row
masked [] counts = []
masked (slots ∷ rows) [] = []
masked (slots ∷ rows) (count ∷ counts) = masked_row slots count ∷ masked rows counts

-- `remap`: `lut[slots]`
abbrev pub remap_slot : List ℕ → Option ℕ → Option ℕ
remap_slot ids none = none
remap_slot ids (some j) = some (get_or ids j 0)

unfoldable pub remap : List ℕ → List Slots → List Slots
remap ids = map (map (remap_slot ids))

-- `(np.diff(id_map) <= 0).any()` is false
unfoldable pub ascends_strictly : List ℕ → Bool
ascends_strictly [] = true
ascends_strictly (a ∷ []) = true
ascends_strictly (a ∷ b ∷ xs) = ltb a b && ascends_strictly (b ∷ xs)

-- the arrays of all rows, as they are written
pub record Full (V : Type 0) : Type 0 where
  pub v : List V
  pub levels : List ℕ
  pub dead : Option (List Bool)
  pub slots0 : List Slots
  pub cnt0 : List ℕ
  pub up_slots : List Slots
  pub up_cnt : List ℕ
  pub ep : ℕ

-- are all counts at most this?
unfoldable pub all_at_most : ℕ → List ℕ → Bool
all_at_most m [] = true
all_at_most m (c ∷ counts) = leb c m && all_at_most m counts

module _ (np : Numpy) (fl : Floats np) (json : Json) where
  open np use {Vec, zero_vec}

  -- the arrays of a graph whose nodes are the rows
  unfoldable pub in_place : Index Vec → Full Vec
  unfolding masked
  in_place index =
      let blocks = sum index.levels in
      let up_cnt = take blocks index.store.up_cnt in
      record {
        v = index.v;
        levels = index.levels;
        dead = index.deleted;
        slots0 = masked index.store.nbr0 index.store.cnt0;
        cnt0 = index.store.cnt0;
        up_slots = masked (take blocks index.store.up) up_cnt;
        up_cnt = up_cnt;
        ep = index.entry;
      }

  -- the arrays with each node j moved to the row ids[j]
  unfoldable pub moved : ℕ → ℕ → List ℕ → Full Vec → Full Vec
  unfolding remap dead_through
  moved n m ids f = record {
    v = scatter (replicate n zero_vec) ids f.v;
    levels = scatter (replicate n 0) ids f.levels;
    dead = some (dead_through (replicate n true) ids f.dead);
    slots0 = scatter (replicate n (replicate (2 * m) none)) ids (remap ids f.slots0);
    cnt0 = scatter (replicate n 0) ids f.cnt0;
    up_slots = remap ids f.up_slots;
    up_cnt = f.up_cnt;
    ep = get_or ids f.ep 0;
  }

  unfoldable pub full_of : Index Vec → Result (Full Vec)
  unfolding in_place moved
  full_of index = do
    guard (index.n == length index.v) value_error
    guard (leb (max_of index.levels) 255) value_error
    elim index.id_map [
      | none ↦ ok (in_place index)
      | some ids ↦
          guard (ascends_strictly ids) value_error
          >> ok (moved index.n_orig index.m ids (in_place index))
    ]

  unfoldable pub sections_of : ℕ → ℕ → Full Vec → List Section
  sections_of dim m f =
      let n = length f.v in
      let blocks = sum f.levels in
      let ints = λ (name : String) (xs : List ℕ).
        let s : Section = record {
          name = name;
          dtype = int32;
          shape = length xs ∷ [];
          content = ints_bytes xs;
        } in
        s in
      record { name = "vectors"; dtype = f32; shape = n ∷ dim ∷ []; content = rows_bytes np fl f.v }
      ∷ record {
        name = "tombstones";
        dtype = u8;
        shape = (n + 7) / 8 ∷ [];
        content = pack_tombstones f.dead n;
      }
      ∷ record { name = "levels"; dtype = u8; shape = length f.levels ∷ []; content = f.levels }
      ∷ ints "entry" (f.ep ∷ [])
      ∷ record {
        name = "layer0_slots";
        dtype = int32;
        shape = length f.slots0 ∷ 2 * m ∷ [];
        content = slot_rows_bytes f.slots0;
      }
      ∷ ints "layer0_counts" f.cnt0
      ∷ record {
        name = "upper_slots";
        dtype = int32;
        shape = length f.up_slots ∷ m ∷ [];
        content = slot_rows_bytes f.up_slots;
      }
      ∷ ints "upper_counts" f.up_cnt
      ∷ ints "upper_offsets" (0 ∷ cumsum_from 0 f.levels)
      ∷ []

  -- the keys of the header that `save` gives to `write`
  unfoldable pub header_of :
      ℕ → Index Vec → Full Vec → Option (List (String × Value)) → Option ℕ → Header
  header_of dim index f params seed = record {
    index = "hnsw";
    n = length f.v;
    dim = dim;
    build_params = elim params [
      | none ↦ ("m", number index.m) ∷ ("ef_construct", number index.ef_construct) ∷ []
      | some bp ↦ bp
    ];
    seed = elim seed [ none ↦ index.seed | some s ↦ s ];
    sections = [];
  }

  unfoldable pub save :
      ℕ → Index Vec → ℕ → Option (List (String × Value)) → Option ℕ → Option (Result (List ℕ))
  unfolding full_of write header_of sections_of
  save fuel index dim params seed = elim (full_of index) [
    | raise error ↦ some (raise error)
    | ok f ↦ write json fuel (header_of dim index f params seed) (sections_of dim index.m f)
  ]

  -- an int32 array of numbers that are not negative
  unfoldable pub ints : Opened → String → ℕ → Result (List ℕ)
  unfolding array
  ints r name size = do
    bytes ← array r name int32 (some (size ∷ []))
    or_format_error (naturals (slots_of bytes))

  -- the arrays `nbr0`, `cnt0`, `up_off`, `up` and `up_cnt`
  unfoldable pub load_store : Opened → ℕ → List ℕ → Result Store
  unfolding ints array
  load_store r m levels = do
    let n = length levels
    let blocks = sum levels
    up_off ← ints r "upper_offsets" (suc n)
    guard
        (n == 0
          || (get_or up_off 0 0 == 0
              && (get_or up_off n 0 == blocks && list_eq (diff up_off) levels)))
        format_error
    slots0 ← array r "layer0_slots" int32 (some (n ∷ 2 * m ∷ []))
    cnt0 ← ints r "layer0_counts" n
    up ← array r "upper_slots" int32 (some (blocks ∷ m ∷ []))
    up_cnt ← ints r "upper_counts" blocks
    guard (all_at_most (2 * m) cnt0 && all_at_most m up_cnt) format_error
    let spare : ℕ = max blocks 1 - blocks
    ok (record {
      nbr0 = slot_rows_of (2 * m) n slots0;
      cnt0 = cnt0;
      up_off = take n up_off;
      up = slot_rows_of m blocks up ++ replicate spare (replicate m none);
      up_cnt = up_cnt ++ replicate spare 0;
    })

  -- ep, or 0 without rows
  unfoldable pub load_entry : Opened → ℕ → Result ℕ
  unfolding array
  load_entry r zero = ok 0
  load_entry r (suc n) = do
    bytes ← array r "entry" int32 (some (1 ∷ []))
    elim (naturals (slots_of bytes)) [
      | none ↦ raise index_error
      | some eps ↦ guard (ltb (get_or eps 0 0) (suc n)) index_error >> ok (get_or eps 0 0)
    ]

  -- the index and its entry `header`
  unfoldable pub load : List ℕ → List (String × Value) → Option ℕ → Result (Index Vec × Header)
  unfolding read array int_param load_store load_entry
  load file params dim = do
    r ← read json file "hnsw" dim params
    let n = r.header.n
    m ← int_param "m" r.header.build_params
    ef_c ← int_param "ef_construct" r.header.build_params
    levels ← array r "levels" u8 (some (n ∷ []))
    vectors ← array r "vectors" f32 (some (n ∷ r.header.dim ∷ []))
    store ← load_store r m levels
    ep ← load_entry r n
    bits ← array r "tombstones" u8 (some ((n + 7) / 8 ∷ []))
    let top = get_or levels ep 0
    ok (
      record {
        v = rows_of np fl r.header.dim n vectors;
        n = n;
        m = m;
        levels = levels;
        store = store;
        entry = ep;
        top = top;
        ef_construct = ef_c;
        seed = r.header.seed;
        n_orig = n;
        owned = false;
        deleted = unpack_tombstones bits n;
        id_map = none;
        allow = [];
        nodes_per_layer = map (λ (l : ℕ). length (filter (leb l) levels)) (range_from 0 (suc top));
        unreachable = 0;
        repair_added = (0, 0);
        update_added = none;
        compact_added = none;
        dist = 0;
        filter_rows = 0;
        visited = 0;
      },
      r.header,
    )

  -- `clone`: the cached masks are left out
  unfoldable pub clone : Index Vec → Index Vec
  clone index = record index { allow = [] }
