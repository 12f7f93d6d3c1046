-- ===== src/Npy.antt =====
-- indexes/python/npy.py: the reader of .npy files. A file is its list of bytes. `ast.literal_eval` on the
-- text of the header is a parameter; the items of an array stay bytes.
pub mod Limit
use vector_retrieval_optimiz.Prelude.{
  ℕ, zero, suc, ◌+◌, ◌*◌, Bool, true, false, not, ◌&&◌, ◌||◌, String, Option, none, some, List, [],
  ◌∷◌, Result, ok, raise, value_error, index_error, struct_error, guard, ◌>>=◌, ◌>>◌, ◌==◌, leb,
  ltb, length, take, drop, get_or, min, str_eq,
}
use vector_retrieval_optimiz.Vro.{count_of}
use vector_retrieval_optimiz.Vro.Reader.{list_eq}

-- b"\x93NUMPY"
abbrev pub magic : List ℕ
magic = 0x93 ∷ b'N' ∷ b'U' ∷ b'M' ∷ b'P' ∷ b'Y' ∷ []

-- The dict of a header. `shape` is `none` where it is missing or no tuple of numbers from 0 up.
pub record Head : Type 0 where
  pub descr : Option String
  pub fortran_order : Option Bool
  pub shape : Option (List ℕ)

-- the values of DTYPES
pub data Dtype : Type 0 where
  float32 int64 : Dtype

abbrev pub itemsize : Dtype → ℕ
itemsize float32 = 4
itemsize int64 = 8

-- DTYPES[descr]
unfoldable pub dtype_of : Option String → Result Dtype
dtype_of none = raise value_error
dtype_of (some d) = elim (str_eq d "<f4") [
  | true ↦ ok float32
  | false ↦ elim (str_eq d "<i8") [ true ↦ ok int64 | false ↦ raise value_error ]
]

abbrev pub is_false : Option Bool → Bool
is_false none = false
is_false (some b) = not b

-- `.decode("ascii")`
unfoldable pub is_ascii : List ℕ → Bool
is_ascii [] = true
is_ascii (c ∷ cs) = ltb c 128 && is_ascii cs

unfoldable pub parse_header : (List ℕ → Result Head) → List ℕ → Result (Dtype × List ℕ × ℕ)
unfolding list_eq dtype_of is_ascii
parse_header literal_eval raw = do
  guard (list_eq (take 6 raw) magic) value_error
  guard (ltb 6 (length raw)) index_error
  guard (get_or raw 6 0 == 1) value_error
  guard (ltb 7 (length raw)) index_error
  guard (get_or raw 7 0 == 0) value_error
  guard (leb 10 (length raw)) struct_error
  let hlen = get_or raw 8 0 + 256 * get_or raw 9 0
  let text = take hlen (drop 10 raw)
  guard (is_ascii text) value_error
  header ← literal_eval text
  dtype ← dtype_of header.descr
  guard (is_false header.fortran_order) value_error
  elim header.shape [ none ↦ raise value_error | some shape ↦ ok (dtype, shape, 10 + hlen) ]

-- the rows to read
abbrev pub rows_of : List ℕ → Option ℕ → ℕ
rows_of [] none = 1
rows_of (d ∷ ds) none = d
rows_of [] (some limit) = min 1 limit
rows_of (d ∷ ds) (some limit) = min d limit

-- np.prod(shape[1:]), for a product that an int64 holds
abbrev pub row_items : List ℕ → ℕ
row_items [] = 1
row_items (d ∷ ds) = count_of ds

-- the shape of the array that is returned
abbrev pub limited : List ℕ → ℕ → List ℕ
limited [] rows = []
limited (d ∷ ds) rows = rows ∷ ds

-- The rest of `read_npy`, after the header. An empty read of a shape () cannot be reshaped, which raises.
unfoldable pub read_items :
    List ℕ → Option ℕ → Dtype × List ℕ × ℕ → Result (Dtype × List ℕ × List ℕ)
read_items file limit (dtype, shape, offset) = do
  let rows = rows_of shape limit
  let size = rows * row_items shape * itemsize dtype
  let items = take size (drop offset file)
  guard (length items == size) value_error
  guard (leb 1 (length shape) || rows == 1) value_error
  ok (dtype, limited shape rows, items)

-- `read_npy`: the dtype, the shape, and the bytes of the items
unfoldable pub read_npy :
    (List ℕ → Result Head) → List ℕ → Option ℕ → Result (Dtype × List ℕ × List ℕ)
unfolding parse_header read_items
read_npy literal_eval file limit = do
  header ← parse_header literal_eval (take 65536 file)
  read_items file limit header
