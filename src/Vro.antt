-- ===== src/Vro.antt =====
-- indexes/python/vro.py: the .vro index file. Tombstone bit sets, the layout of the sections, the
-- writer and the reader. A file is its list of bytes. `json.dumps` and `json.loads` of the header are
-- an argument of the model.
pub mod Tombstones
pub mod Layout
pub mod Reader
pub mod Roundtrip
pub mod Sections
use vector_retrieval_optimiz.Prelude.{
  ℕ, zero, suc, ◌+◌, ◌-◌, ◌*◌, ◌/◌, ◌%◌, ◌^◌, Bool, true, false, ◌&&◌, Option, none, some, List, [],
  ◌∷◌, ◌++◌, map, String, Result, ok, raise, struct_error, guard, ◌>>=◌, ◌>>◌, ◌≡◌, ltb, ◌==◌,
  length, replicate, if◌then◌else◌,
}

-- b"VROIDX01"
abbrev pub magic : List ℕ
magic = b'V' ∷ b'R' ∷ b'O' ∷ b'I' ∷ b'D' ∷ b'X' ∷ b'0' ∷ b'1' ∷ []

-- the names in DTYPES, and any other name in a header
pub data Dtype : Type 0 where
  f32 int32 u8 : Dtype
  unknown : String → Dtype

abbrev pub itemsize : Dtype → ℕ
itemsize f32 = 4
itemsize int32 = 4
itemsize u8 = 1
itemsize (unknown s) = 0

abbrev pub is_known : Dtype → Bool
is_known (unknown s) = false
is_known f32 = true
is_known int32 = true
is_known u8 = true

-- an array to write: its name, dtype, shape, and its little-endian bytes in C order
pub record Section : Type 0 where
  pub name : String
  pub dtype : Dtype
  pub shape : List ℕ
  pub content : List ℕ

-- one row of the section table
pub record Entry : Type 0 where
  pub name : String
  pub dtype : Dtype
  pub shape : List ℕ
  pub offset : ℕ
  pub bytes : ℕ

-- a build parameter: a JSON number, string or null
pub data Value : Type 0 where
  number : ℕ → Value
  string : String → Value
  null : Value

pub record Header : Type 0 where
  pub index : String
  pub n : ℕ
  pub dim : ℕ
  pub build_params : List (String × Value)
  pub seed : ℕ
  pub sections : List Entry

-- The JSON text of a header, with the two keys that are the same in every file; `loads` is `none` on
-- text that is no JSON or lacks a required key.
pub record Json : Type 0 where
  pub dumps : Header → List ℕ
  pub loads : List ℕ → Option Header

unfoldable pub align : ℕ → ℕ
align x = (x + 64 - 1) / 64 * 64

-- np.prod(shape)
abbrev pub count_of : List ℕ → ℕ
count_of [] = 1
count_of (d ∷ ds) = d * count_of ds

-- the table of `write`, from a first offset on
unfoldable pub table_from : ℕ → List Section → List Entry
table_from off [] = []
table_from off (s ∷ ss) =
    record {
      name = s.name;
      dtype = s.dtype;
      shape = s.shape;
      offset = off;
      bytes = length s.content;
    }
    ∷ table_from (align (off + length s.content)) ss

-- the header of one round of the loop, for a header text of a supposed length
unfoldable pub header_at : Header → List Section → ℕ → Header
header_at h sections start = record h { sections = table_from (align (8 + 4 + start)) sections }

-- `while True`: the round that reproduces its supposed length, within a number of rounds
unfoldable pub settle : Json → ℕ → Header → List Section → ℕ → Option (Header × List ℕ)
settle json zero h sections start = none
settle json (suc fuel) h sections start =
    let header = header_at h sections start in
    let text = json.dumps header in
    let rest = settle json fuel h sections (length text) in
    if length text == start then some (header, text) else rest

-- struct.pack("<I", x)
unfoldable pub pack_u32 : ℕ → Result (List ℕ)
pack_u32 x =
    if ltb x (2 ^ 32)
    then ok (x % 256 ∷ x / 256 % 256 ∷ x / 256 ^ 2 % 256 ∷ x / 256 ^ 3 % 256 ∷ [])
    else raise struct_error

-- the writes of the sections, from a position of the file on
unfoldable pub body_from : ℕ → List Entry → List Section → List ℕ
body_from pos [] ss = []
body_from pos (e ∷ es) [] = []
body_from pos (e ∷ es) (s ∷ ss) =
    let pad = e.offset - pos in
    replicate pad 0 ++ s.content ++ body_from (pos + pad + length s.content) es ss

unfoldable pub file_of : Header → List ℕ → List Section → Result (List ℕ)
file_of header text sections = do
  len ← pack_u32 (length text)
  let head = magic ++ len ++ text
  ok (head ++ body_from (length head) header.sections sections)

-- `write`: the bytes of the file, or `none` if the loop did not end within the rounds
unfoldable pub write : Json → ℕ → Header → List Section → Option (Result (List ℕ))
unfolding settle
write json fuel h sections = elim (settle json fuel h sections 0) [
  | none ↦ none
  | some (header, text) ↦ some (file_of header text sections)
]
