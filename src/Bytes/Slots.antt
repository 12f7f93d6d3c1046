-- ===== src/Bytes/Slots.antt =====
-- What is written as bytes is read back.
use vector_retrieval_optimiz.Prelude.{
  ℕ, ◌*◌, ◌/◌, ◌%◌, ◌^◌, ◌<◌, ◌≡◌, refl, ap, ◌∙◌, List, [], ◌∷◌, ◌++◌, map, Option, none, some,
  length, take, drop, take-append_self, drop-append_self, length-append, All, arith,
}
use vector_retrieval_optimiz.Numpy.{Numpy}
use vector_retrieval_optimiz.Bytes.{
  Floats, int_bytes, int_of, slots_bytes, slots_of, naturals, slot_rows_bytes, slot_rows_of,
  rows_bytes, rows_of,
}

-- -1, or a number that an int32 holds
abbrev pub IsInt32 : Option ℕ → Type 0
IsInt32 none = Unit
IsInt32 (some i) = i < 2 ^ 31

pub length-slots_bytes : (slots : List (Option ℕ)) → length (slots_bytes slots) ≡ length slots * 4
unfolding slots_bytes int_bytes
length-slots_bytes [] = omega arith
length-slots_bytes (none ∷ slots) = omega (arith, length-slots_bytes slots)
length-slots_bytes (some i ∷ slots) = omega (arith, length-slots_bytes slots)

int_of_lem :
    (i : ℕ)
    → i < 2 ^ 31
    → int_of (i % 256) (i / 256 % 256) (i / 256 ^ 2 % 256) (i / 256 ^ 3 % 256) ≡ some i
unfolding int_of
int_of_lem i h = ground arith

pub slots_of-slots_bytes :
    (slots : List (Option ℕ)) → All IsInt32 slots → slots_of (slots_bytes slots) ≡ slots
unfolding slots_of slots_bytes int_bytes
slots_of-slots_bytes [] h = refl
slots_of-slots_bytes (none ∷ slots) h = ap (◌∷◌ none) (slots_of-slots_bytes slots h.1)
slots_of-slots_bytes (some i ∷ slots) h = cc (int_of_lem i h.0, slots_of-slots_bytes slots h.1)

pub naturals-map : (xs : List ℕ) → naturals (map some xs) ≡ some xs
unfolding naturals
naturals-map [] = refl
naturals-map (x ∷ xs) = rw (naturals-map xs) refl

-- The front and the rest of bytes that start with a known part.
pub take_part {ℓ} : {A : Type ℓ} (xs ys : List A) (n : ℕ) → length xs ≡ n → take n (xs ++ ys) ≡ xs
take_part xs ys n h = rw (← h) (take-append_self xs ys)

pub drop_part {ℓ} : {A : Type ℓ} (xs ys : List A) (n : ℕ) → length xs ≡ n → drop n (xs ++ ys) ≡ ys
drop_part xs ys n h = rw (← h) (drop-append_self xs ys)

-- rows of a width
abbrev pub IsRow : ℕ → List (Option ℕ) → Type 0
IsRow width row = (length row ≡ width) × All IsInt32 row

pub slot_rows_of-bytes :
    (width : ℕ) (rows : List (List (Option ℕ)))
    → All (IsRow width) rows
    → slot_rows_of width (length rows) (slot_rows_bytes rows) ≡ rows
unfolding slot_rows_of slot_rows_bytes
slot_rows_of-bytes width [] h = refl
slot_rows_of-bytes width (row ∷ rows) h =
    let len = length-slots_bytes row ∙ ap (λ (k : ℕ). k * 4) h.0.0 in
    cc (
      take_part (slots_bytes row) (slot_rows_bytes rows) (width * 4) len,
      drop_part (slots_bytes row) (slot_rows_bytes rows) (width * 4) len,
      slots_of-slots_bytes row h.0.1,
      slot_rows_of-bytes width rows h.1,
    )

module _ (np : Numpy) (fl : Floats np) where
  open np use {Vec}
  open fl use {to_bytes, of_bytes, of_bytes-to_bytes}

  -- a row of dim float32 values
  abbrev pub IsWide : ℕ → Vec → Type 0
  IsWide dim x = length (to_bytes x) ≡ dim * 4

  pub length-rows_bytes :
      (dim : ℕ) (xs : List Vec)
      → All (IsWide dim) xs
      → length (rows_bytes np fl xs) ≡ length xs * (dim * 4)
  unfolding rows_bytes
  length-rows_bytes dim [] h = omega arith
  length-rows_bytes dim (x ∷ xs) h =
      grind
        (arith, length-append (to_bytes x) (rows_bytes np fl xs), h.0, length-rows_bytes dim xs h.1)

  pub rows_of-rows_bytes :
      (dim : ℕ) (xs : List Vec)
      → All (IsWide dim) xs
      → rows_of np fl dim (length xs) (rows_bytes np fl xs) ≡ xs
  unfolding rows_of rows_bytes
  rows_of-rows_bytes dim [] h = refl
  rows_of-rows_bytes dim (x ∷ xs) h = cc (
    take_part (to_bytes x) (rows_bytes np fl xs) (dim * 4) h.0,
    drop_part (to_bytes x) (rows_bytes np fl xs) (dim * 4) h.0,
    of_bytes-to_bytes x,
    rows_of-rows_bytes dim xs h.1,
  )
