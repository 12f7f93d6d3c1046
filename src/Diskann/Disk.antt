-- ===== src/Diskann/Disk.antt =====
-- The file of diskann.py: one record for each node, and the two ways to read a record. The chunks of
-- `write_file` only bound its memory.
pub mod Roundtrip
use vector_retrieval_optimiz.Prelude.{
  ℕ, zero, suc, ◌+◌, ◌-◌, ◌*◌, ◌/◌, ◌%◌, ◌^◌, ◌≡◌, List, [], ◌∷◌, ◌++◌, Option, none, some, ltb,
  if◌then◌else◌, length, take, drop, replicate,
}
use vector_retrieval_optimiz.Numpy.{Numpy}
use vector_retrieval_optimiz.Bytes.{Floats, slots_bytes, slots_of}
use vector_retrieval_optimiz.Diskann.{Slots}

-- BLOCK
abbrev pub block : ℕ
block = 4096

-- `rec`: the bytes of one record, a multiple of the block
unfoldable pub record_size : ℕ → ℕ → ℕ
record_size dim r = (dim * 4 + r * 4 + block - 1) / block * block

-- what a reader keeps of the index
pub record Shape : Type 0 where
  pub dim : ℕ
  pub r : ℕ
  pub rec : ℕ

module _ (np : Numpy) (fl : Floats np) where
  open np use {Vec}
  open fl use {to_bytes, of_bytes}

  -- one row of `buf`
  unfoldable pub record_bytes : ℕ → Vec → Slots → List ℕ
  unfolding slots_bytes
  record_bytes rec x slots =
      let written = to_bytes x ++ slots_bytes slots in written ++ replicate (rec - length written) 0

  -- the content of the file, for the first r slots of each row
  unfoldable pub write_file : ℕ → List Vec → List Slots → List ℕ
  unfolding record_bytes
  write_file rec [] edges = []
  write_file rec (x ∷ xs) [] = []
  write_file rec (x ∷ xs) (slots ∷ edges) = record_bytes rec x slots ++ write_file rec xs edges

  -- `_MmapReader.read`: the row of a map of float32 values
  unfoldable pub read_mmap : Shape → List ℕ → ℕ → Vec × Slots
  unfolding slots_of
  read_mmap s file i =
      let width = s.rec / 4 * 4 in
      let row = take width (drop (i * width) file) in
      (of_bytes (take (s.dim * 4) row), slots_of (take (s.r * 4) (drop (s.dim * 4) row)))

  -- `_NoCacheReader.read`: the bytes of one record
  unfoldable pub read_nocache : Shape → List ℕ → ℕ → Vec × Slots
  unfolding slots_of
  read_nocache s file i =
      let content = take s.rec (drop (i * s.rec) file) in
      (of_bytes (take (s.dim * 4) content), slots_of (take (s.r * 4) (drop (s.dim * 4) content)))
