-- ===== src/Diskann/Disk/Roundtrip.antt =====
-- What `write_file` of diskann.py writes, both readers read.
use vector_retrieval_optimiz.Prelude.{
  ℕ, zero, suc, ◌+◌, ◌-◌, ◌*◌, ◌/◌, ◌%◌, ◌≤◌, ◌<◌, ◌≡◌, ap, ◌∙◌, List, [], ◌∷◌, ◌++◌, length,
  length-append, length-replicate, get_or, take, drop, replicate, All, arith,
}
use vector_retrieval_optimiz.Prelude.Distinct.{All-get_or}
use vector_retrieval_optimiz.Numpy.{Numpy}
use vector_retrieval_optimiz.Bytes.{Floats, slots_bytes, slots_of}
use vector_retrieval_optimiz.Bytes.Slots.{
  IsRow, IsWide, length-slots_bytes, slots_of-slots_bytes, take_part, drop_part,
}
use vector_retrieval_optimiz.Diskann.{Slots}
use vector_retrieval_optimiz.Diskann.Disk.{
  block, record_size, Shape, record_bytes, write_file, read_mmap, read_nocache,
}
use mathlib.Core.List.{append_assoc}

-- The size of a record is a multiple of the block that has room for the row and its slots.
pub record_size_bounds :
    (dim r : ℕ)
    → (dim * 4 + r * 4 ≤ record_size dim r)
      × (record_size dim r < dim * 4 + r * 4 + block)
      × (record_size dim r % block ≡ 0)
unfolding record_size
record_size_bounds dim r = omega arith

module _ (np : Numpy) (fl : Floats np) (s : Shape) (room : s.dim * 4 + s.r * 4 ≤ s.rec) where
  open np use {Vec, zero_vec}
  open fl use {to_bytes, of_bytes, of_bytes-to_bytes}

  length-record_bytes :
      (x : Vec) (slots : Slots)
      → IsWide np fl s.dim x
      → IsRow s.r slots
      → length (record_bytes np fl s.rec x slots) ≡ s.rec
  unfolding record_bytes
  length-record_bytes x slots wide row =
      let written = to_bytes x ++ slots_bytes slots in
      omega (
        arith,
        length-append written (replicate (s.rec - length written) 0),
        length-replicate (s.rec - length written) zero,
        length-append (to_bytes x) (slots_bytes slots),
        wide,
        length-slots_bytes slots,
        row.0,
      )

  -- the record of a row of the file
  record_at :
      (xs : List Vec) (edges : List Slots) (i : ℕ)
      → All (IsWide np fl s.dim) xs
      → All (IsRow s.r) edges
      → length edges ≡ length xs
      → i < length xs
      → take s.rec (drop (i * s.rec) (write_file np fl s.rec xs edges))
        ≡ record_bytes np fl s.rec (get_or xs i zero_vec) (get_or edges i [])
  unfolding write_file
  record_at [] edges i wide rows size h = absurd (omega arith)
  record_at (x ∷ xs) [] i wide rows size h = absurd (omega arith)
  record_at (x ∷ xs) (slots ∷ edges) zero wide rows size h =
      ap
        (λ (k : ℕ).
          take s.rec (drop k (record_bytes np fl s.rec x slots ++ write_file np fl s.rec xs edges)))
        {x = 0 * s.rec} {y = 0} (omega arith)
      ∙ take_part (record_bytes np fl s.rec x slots) (write_file np fl s.rec xs edges) s.rec
          (length-record_bytes x slots wide.0 rows.0)
  record_at (x ∷ xs) (slots ∷ edges) (suc i) wide rows size h =
      ap
        (λ (k : ℕ).
          take s.rec (drop k (record_bytes np fl s.rec x slots ++ write_file np fl s.rec xs edges)))
        {x = suc i * s.rec} {y = s.rec + i * s.rec} (grind arith)
      ∙ ap (take s.rec) (
          drop-add (record_bytes np fl s.rec x slots) (write_file np fl s.rec xs edges) s.rec
            (i * s.rec) (length-record_bytes x slots wide.0 rows.0))
      ∙ record_at xs edges i wide.1 rows.1 (omega (arith, size)) (omega arith)
    where
      drop-add : (xs ys : List ℕ) (n m : ℕ) → length xs ≡ n → drop (n + m) (xs ++ ys) ≡ drop m ys
      drop-add [] ys n m e = ap (λ (k : ℕ). drop k ys) {x = n + m} {y = m} (omega (arith, e))
      drop-add (x ∷ xs) ys zero m e = absurd (omega (arith, e))
      drop-add (x ∷ xs) ys (suc n) m e =
          ap (λ (k : ℕ). drop k (x ∷ xs ++ ys)) {x = suc n + m} {y = suc (n + m)} (omega arith)
          ∙ drop-add xs ys n m (omega (arith, e))

  record_parts :
      (x : Vec) (slots : Slots)
      → IsWide np fl s.dim x
      → IsRow s.r slots
      → let bytes = record_bytes np fl s.rec x slots in
        (of_bytes (take (s.dim * 4) bytes) ≡ x)
        × (slots_of (take (s.r * 4) (drop (s.dim * 4) bytes)) ≡ slots)
  unfolding record_bytes
  record_parts x slots wide row =
      let pad = replicate (s.rec - length (to_bytes x ++ slots_bytes slots)) 0 in
      let rest = slots_bytes slots ++ pad in
      let split = append_assoc (to_bytes x) (slots_bytes slots) pad in
      let len = length-slots_bytes slots ∙ ap (λ (k : ℕ). k * 4) row.0 in
      (
        rw split (ap of_bytes (take_part (to_bytes x) rest (s.dim * 4) wide) ∙ of_bytes-to_bytes x),
        rw split (
            ap (λ bytes. slots_of (take (s.r * 4) bytes))
              (drop_part (to_bytes x) rest (s.dim * 4) wide)
            ∙ ap slots_of (take_part (slots_bytes slots) pad (s.r * 4) len)
            ∙ slots_of-slots_bytes slots row.1),
      )

  module _ (xs : List Vec) (edges : List Slots) (i : ℕ) (wide : All (IsWide np fl s.dim) xs)
      (rows : All (IsRow s.r) edges) (size : length edges ≡ length xs)
      (inside : i < length xs) where
    pub read_nocache-write_file :
        read_nocache np fl s (write_file np fl s.rec xs edges) i
        ≡ (get_or xs i zero_vec, get_or edges i [])
    unfolding read_nocache
    read_nocache-write_file =
        let parts =
          record_parts (get_or xs i zero_vec) (get_or edges i [])
            (All-get_or (IsWide np fl s.dim) zero_vec xs i inside wide)
            (All-get_or (IsRow s.r) [] edges i (omega (arith, size)) rows) in
        rw (record_at xs edges i wide rows size inside) (cc (parts.0, parts.1))

    pub read_mmap-write_file :
        s.rec % 4 ≡ 0
        → read_mmap np fl s (write_file np fl s.rec xs edges) i
          ≡ (get_or xs i zero_vec, get_or edges i [])
    unfolding read_mmap read_nocache
    read_mmap-write_file whole =
        let width : s.rec / 4 * 4 ≡ s.rec = omega (arith, whole) in rw width read_nocache-write_file

    -- For rows of dim values, slots that an int32 holds, and records of whole float32 values, `read` of
    -- either reader gives a row of the file and its slots back.
    pub read-write_file :
        s.rec % 4 ≡ 0
        → (read_nocache np fl s (write_file np fl s.rec xs edges) i
            ≡ (get_or xs i zero_vec, get_or edges i []))
          × (read_mmap np fl s (write_file np fl s.rec xs edges) i
              ≡ (get_or xs i zero_vec, get_or edges i []))
    read-write_file whole = (read_nocache-write_file, read_mmap-write_file whole)
