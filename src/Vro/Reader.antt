-- ===== src/Vro/Reader.antt =====
-- `Reader` and `read` of vro.py: opening a file, the checks, and one section's bytes.
use vector_retrieval_optimiz.Prelude.{
  ℕ, ◌+◌, ◌*◌, ◌%◌, ◌^◌, Bool, true, false, not, ◌&&◌, Option, none, some, List, [], ◌∷◌, String,
  Result, ok, raise, format_error, guard, ◌>>=◌, ◌>>◌, ltb, leb, ◌==◌, length, take, drop, str_eq,
  if◌then◌else◌,
}
use vector_retrieval_optimiz.Vro.{
  magic, Dtype, f32, int32, u8, unknown, itemsize, is_known, Entry, Value, number, string, null,
  Header, Json, count_of,
}

pub record Opened : Type 0 where
  pub header : Header
  pub file : List ℕ

unfoldable pub list_eq : List ℕ → List ℕ → Bool
list_eq [] [] = true
list_eq (x ∷ xs) (y ∷ ys) = x == y && list_eq xs ys
list_eq _ _ = false

unfoldable pub dtype_eq : Dtype → Dtype → Bool
dtype_eq f32 f32 = true
dtype_eq int32 int32 = true
dtype_eq u8 u8 = true
dtype_eq (unknown s) (unknown t) = str_eq s t
dtype_eq _ _ = false

unfoldable pub value_eq : Value → Value → Bool
value_eq (number a) (number b) = a == b
value_eq (string s) (string t) = str_eq s t
value_eq null null = true
value_eq _ _ = false

-- struct.unpack("<I", bytes)
unfoldable pub unpack_u32 : List ℕ → ℕ
unpack_u32 (a ∷ b ∷ c ∷ d ∷ []) = a + 256 * b + 256 ^ 2 * c + 256 ^ 3 * d
unpack_u32 _ = 0

abbrev pub or_format_error {ℓ} : {A : Type ℓ} → Option A → Result A
or_format_error none = raise format_error
or_format_error (some a) = ok a

-- the tests on one row of the section table
unfoldable pub fits_file : ℕ → Entry → Bool
fits_file size e =
    is_known e.dtype
    && (e.offset % 64 == 0
        && (count_of e.shape * itemsize e.dtype == e.bytes && leb (e.offset + e.bytes) size))

unfoldable pub all_fit : ℕ → List Entry → Bool
all_fit size [] = true
all_fit size (e ∷ es) = fits_file size e && all_fit size es

-- `Reader.__init__`
unfoldable pub open_file : Json → List ℕ → Result Opened
open_file json file = do
  let head = take 12 file
  guard (not (ltb (length head) 12) && list_eq (take 8 head) magic) format_error
  let hlen = unpack_u32 (drop 8 head)
  let text = take hlen (drop 12 file)
  guard (length text == hlen) format_error
  header ← or_format_error (json.loads text)
  guard (all_fit (length file) header.sections) format_error
  ok (record { header = header; file = file })

-- the dictionary of sections: of two with one name, the later
unfoldable pub find_section : String → List Entry → Option Entry
find_section name [] = none
find_section name (e ∷ es) = elim (find_section name es) [
  | some later ↦ some later
  | none ↦ if str_eq e.name name then some e else none
]

unfoldable pub find_param : String → List (String × Value) → Option Value
find_param key [] = none
find_param key ((k, v) ∷ ps) = if str_eq k key then some v else find_param key ps

abbrev pub same_value : Option Value → Value → Bool
same_value none v = false
same_value (some w) v = value_eq w v

-- the loop over the caller's build parameters: one that is None is not compared
unfoldable pub params_match : List (String × Value) → List (String × Value) → Bool
params_match stored [] = true
params_match stored ((key, null) ∷ ps) = params_match stored ps
params_match stored ((key, value) ∷ ps) =
    same_value (find_param key stored) value && params_match stored ps

abbrev pub dim_matches : Option ℕ → ℕ → Bool
dim_matches none d = true
dim_matches (some e) d = d == e

abbrev pub has_shape : Option Entry → List ℕ → Bool
has_shape none shape = false
has_shape (some e) shape = list_eq e.shape shape

unfoldable pub check : Header → String → Option ℕ → List (String × Value) → Result (Unit {0})
check h index dim params = do
  guard (str_eq h.index index) format_error
  guard (dim_matches dim h.dim) format_error
  guard (params_match h.build_params params) format_error
  guard (has_shape (find_section "vectors" h.sections) (h.n ∷ h.dim ∷ [])) format_error

-- the bytes of one section; a shape of None is not compared
unfoldable pub array : Opened → String → Dtype → Option (List ℕ) → Result (List ℕ)
array r name dtype shape = do
  e ← or_format_error (find_section name r.header.sections)
  guard (dtype_eq e.dtype dtype) format_error
  guard (elim shape [ none ↦ true | some s ↦ list_eq s e.shape ]) format_error
  ok (take (count_of e.shape * itemsize e.dtype) (drop e.offset r.file))

unfoldable pub read : Json → List ℕ → String → Option ℕ → List (String × Value) → Result Opened
read json file index dim params = do r ← open_file json file; check r.header index dim params; ok r
