-- ===== src/Tests/SampleJson.antt =====
-- A header text for the examples: every number in four bytes, every list and string behind its length.
-- Characters are those of an identifier.
use Prim.Native.Char.{Char, code, nul}
use Prim.Native.String.{String, [] as empty, ◌∷◌ as ◌∷ₛ◌}
use vector_retrieval_optimiz.Prelude.{
  ℕ, zero, suc, ◌+◌, ◌*◌, ◌/◌, ◌%◌, ◌^◌, List, [], ◌∷◌, ◌++◌, Option, none, some, ◌==◌,
  if◌then◌else◌, length, take, drop,
}
use vector_retrieval_optimiz.Vro.{
  Dtype, f32, int32, u8, unknown, Value, number, string, null, Entry, Header, Json,
}

unfoldable put : ℕ → List ℕ
put x = x % 256 ∷ x / 256 % 256 ∷ x / 256 ^ 2 % 256 ∷ x / 256 ^ 3 % 256 ∷ []

unfoldable codes : String → List ℕ
codes empty = []
codes (c ∷ₛ s) = code c ∷ codes s

unfoldable find_char : ℕ → String → Char
find_char n empty = nul
find_char n (c ∷ₛ s) = if code c == n then c else find_char n s

unfoldable text_of : List ℕ → String
unfolding find_char
text_of [] = empty
text_of (n ∷ ns) = find_char n "abcdefghijklmnopqrstuvwxyz_0123456789" ∷ₛ text_of ns

unfoldable put_text : String → List ℕ
unfolding put codes
put_text s = put (length (codes s)) ++ codes s

unfoldable put_dtype : Dtype → List ℕ
unfolding put_text
put_dtype f32 = 0 ∷ []
put_dtype int32 = 1 ∷ []
put_dtype u8 = 2 ∷ []
put_dtype (unknown s) = 3 ∷ put_text s

unfoldable put_value : Value → List ℕ
unfolding put_text
put_value (number n) = 0 ∷ put n
put_value (string s) = 1 ∷ put_text s
put_value null = 2 ∷ []

unfoldable put_all {ℓ} : {A : Type ℓ} → (A → List ℕ) → List A → List ℕ
put_all f [] = []
put_all f (x ∷ xs) = f x ++ put_all f xs

unfoldable put_list {ℓ} : {A : Type ℓ} → (A → List ℕ) → List A → List ℕ
unfolding put_all put
put_list f xs = put (length xs) ++ put_all f xs

unfoldable put_entry : Entry → List ℕ
unfolding put_text put_dtype put_list
put_entry e =
    put_text e.name ++ put_dtype e.dtype ++ put_list put e.shape ++ put e.offset ++ put e.bytes

unfoldable put_param : String × Value → List ℕ
unfolding put_text put_value
put_param (key, value) = put_text key ++ put_value value

unfoldable pub dumps : Header → List ℕ
unfolding put_entry put_param
dumps h =
    put_text h.index
    ++ put h.n
    ++ put h.dim
    ++ put_list put_param h.build_params
    ++ put h.seed
    ++ put_list put_entry h.sections

-- A reading: the value and the rest of the text.
abbrev Reading {ℓ} : Type ℓ → Type ℓ
Reading A = List ℕ → Option (A × List ℕ)

abbrev and_then {ℓ κ} :
    {A : Type ℓ} {B : Type κ} → Option (A × List ℕ) → (A → Reading B) → Option (B × List ℕ)
and_then none f = none
and_then (some (a, rest)) f = f a rest

unfoldable get : Reading ℕ
get (a ∷ b ∷ c ∷ d ∷ rest) = some (a + 256 * b + 256 ^ 2 * c + 256 ^ 3 * d, rest)
get _ = none

unfoldable get_text : Reading String
unfolding get text_of
get_text t = and_then (get t) (λ n rest. some (text_of (take n rest), drop n rest))

unfoldable get_dtype : Reading Dtype
unfolding get_text
get_dtype (zero ∷ rest) = some (f32, rest)
get_dtype (suc zero ∷ rest) = some (int32, rest)
get_dtype (suc (suc zero) ∷ rest) = some (u8, rest)
get_dtype (suc (suc (suc n)) ∷ rest) = and_then (get_text rest) (λ s rest'. some (unknown s, rest'))
get_dtype [] = none

unfoldable get_value : Reading Value
unfolding get_text
get_value (zero ∷ rest) = and_then (get rest) (λ n rest'. some (number n, rest'))
get_value (suc zero ∷ rest) = and_then (get_text rest) (λ s rest'. some (string s, rest'))
get_value (suc (suc n) ∷ rest) = some (null, rest)
get_value [] = none

unfoldable get_all {ℓ} : {A : Type ℓ} → Reading A → ℕ → Reading (List A)
get_all f zero t = some ([], t)
get_all f (suc n) t =
    and_then (f t)
      (λ a rest. and_then (get_all f n rest) (λ others rest'. some (a ∷ others, rest')))

unfoldable get_list {ℓ} : {A : Type ℓ} → Reading A → Reading (List A)
unfolding get get_all
get_list f t = and_then (get t) (λ n rest. get_all f n rest)

unfoldable get_entry : Reading Entry
unfolding get_text get_dtype get_list
get_entry t = and_then (get_text t) (λ name r. and_then (get_dtype r) (λ dtype r'.
    and_then (get_list get r') (λ shape r''. and_then (get r'') (λ offset r₃.
      and_then (get r₃) (λ bytes r₄. some (
        record { name = name; dtype = dtype; shape = shape; offset = offset; bytes = bytes },
        r₄,
      ))))))

unfoldable get_param : Reading (String × Value)
unfolding get_text get_value
get_param t =
    and_then (get_text t) (λ key r. and_then (get_value r) (λ value r'. some ((key, value), r')))

unfoldable get_header : Reading Header
unfolding get_entry get_param
get_header t = and_then (get_text t) (λ index r. and_then (get r) (λ n r₁.
    and_then (get r₁) (λ dim r₂. and_then (get_list get_param r₂) (λ params r₃.
      and_then (get r₃) (λ seed r₄. and_then (get_list get_entry r₄) (λ sections r₅. some (
        record {
          index = index;
          n = n;
          dim = dim;
          build_params = params;
          seed = seed;
          sections = sections;
        },
        r₅,
      )))))))

abbrev value_of : Option (Header × List ℕ) → Option Header
value_of none = none
value_of (some (h, rest)) = some h

unfoldable pub loads : List ℕ → Option Header
unfolding get_header
loads t = value_of (get_header t)

abbrev pub sample_json : Json
sample_json = record { dumps = dumps; loads = loads }
