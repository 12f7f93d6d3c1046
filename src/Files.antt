-- ===== src/Files.antt =====
-- The arrays that the prepared data directory holds, as `np.load` returns them. The directory is an
-- argument of the model: a read gives an array with its type, or raises.
use vector_retrieval_optimiz.Prelude.{ℕ, Bool, String, Option, List, Result}

-- filter_<name>.npy, delete_<name>.npy
pub data DataFile : Type 0 where
  filter_file : String → DataFile
  delete_file : String → DataFile

-- what the readers test of an array, beside its items
pub record MaskArray : Type 0 where
  pub is_bool : Bool
  pub ndim : ℕ
  pub items : List Bool

-- update_<name>_ids.npy and update_<name>_vectors.npy
pub record UpdateArrays {ℓ} (V : Type ℓ) : Type ℓ where
  pub ids_are_int64 : Bool
  pub vectors_are_float32 : Bool
  pub ids : List ℕ
  pub vectors : List V

pub record Files {ℓ} (V : Type ℓ) : Type ℓ where
  -- the module's DATA_DIR, set by bench
  pub data_dir : Option String
  pub load : String → DataFile → Result MaskArray
  pub load_update : String → String → Result (UpdateArrays V)
