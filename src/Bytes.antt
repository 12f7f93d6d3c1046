-- ===== src/Bytes.antt =====
-- Arrays as bytes, little-endian and in C order, as they stand in the files of the indexes: float32 rows,
-- whose bytes are a parameter, and int32 values, where a negative value is `none`.
pub mod Slots
use vector_retrieval_optimiz.Prelude.{
  ℕ, zero, suc, ◌+◌, ◌*◌, ◌/◌, ◌%◌, ◌^◌, ◌≡◌, List, [], ◌∷◌, ◌++◌, map, Option, none, some, ltb,
  if◌then◌else◌, take, drop,
}
use vector_retrieval_optimiz.Numpy.{Numpy}

-- a row as little-endian float32 values, and back
pub record Floats (np : Numpy) : Type 0 where
  pub to_bytes : np.Vec → List ℕ
  pub of_bytes : List ℕ → np.Vec
  pub of_bytes-to_bytes : (x : np.Vec) → of_bytes (to_bytes x) ≡ x

-- one int32 value; -1 is written for `none`
unfoldable pub int_bytes : Option ℕ → List ℕ
int_bytes none = 255 ∷ 255 ∷ 255 ∷ 255 ∷ []
int_bytes (some i) = i % 256 ∷ i / 256 % 256 ∷ i / 256 ^ 2 % 256 ∷ i / 256 ^ 3 % 256 ∷ []

unfoldable pub int_of : ℕ → ℕ → ℕ → ℕ → Option ℕ
int_of a b c d =
    let i = a + 256 * b + 256 ^ 2 * c + 256 ^ 3 * d in if ltb i (2 ^ 31) then some i else none

unfoldable pub slots_bytes : List (Option ℕ) → List ℕ
unfolding int_bytes
slots_bytes [] = []
slots_bytes (slot ∷ slots) = int_bytes slot ++ slots_bytes slots

unfoldable pub slots_of : List ℕ → List (Option ℕ)
unfolding int_of
slots_of (a ∷ b ∷ c ∷ d ∷ bytes) = int_of a b c d ∷ slots_of bytes
slots_of (a ∷ b ∷ c ∷ []) = []
slots_of (a ∷ b ∷ []) = []
slots_of (a ∷ []) = []
slots_of [] = []

-- an array of numbers that are not negative
abbrev pub ints_bytes : List ℕ → List ℕ
ints_bytes xs = slots_bytes (map some xs)

-- the numbers of an int32 array, or `none` if one is negative
unfoldable pub naturals : List (Option ℕ) → Option (List ℕ)
naturals [] = some []
naturals (none ∷ slots) = none
naturals (some i ∷ slots) = elim (naturals slots) [ none ↦ none | some is ↦ some (i ∷ is) ]

-- the rows of an int32 matrix of a width
unfoldable pub slot_rows_bytes : List (List (Option ℕ)) → List ℕ
unfolding slots_bytes
slot_rows_bytes [] = []
slot_rows_bytes (row ∷ rows) = slots_bytes row ++ slot_rows_bytes rows

unfoldable pub slot_rows_of : ℕ → ℕ → List ℕ → List (List (Option ℕ))
unfolding slots_of
slot_rows_of width zero bytes = []
slot_rows_of width (suc n) bytes =
    slots_of (take (width * 4) bytes) ∷ slot_rows_of width n (drop (width * 4) bytes)

module _ (np : Numpy) (fl : Floats np) where
  open np use {Vec}
  open fl use {to_bytes, of_bytes}

  unfoldable pub rows_bytes : List Vec → List ℕ
  rows_bytes [] = []
  rows_bytes (x ∷ xs) = to_bytes x ++ rows_bytes xs

  -- n rows of dim values
  unfoldable pub rows_of : ℕ → ℕ → List ℕ → List Vec
  rows_of dim zero bytes = []
  rows_of dim (suc n) bytes = of_bytes (take (dim * 4) bytes) ∷ rows_of dim n (drop (dim * 4) bytes)
