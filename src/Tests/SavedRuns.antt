-- ===== src/Tests/SavedRuns.antt =====
-- A flat index of two of three rows, saved and loaded, and a read of the first row of an .npy file.
use mathlib.Core.Path.{subst}
use vector_retrieval_optimiz.Prelude.{
  arith, ℕ, ◌≡◌, refl, sym, ◌∙◌, Bool, true, false, String, List, [], ◌∷◌, ◌++◌, Option, none, some,
  Result, ok,
}
use vector_retrieval_optimiz.Numpy.Reference.{reference}
use vector_retrieval_optimiz.Numpy.{Numpy}
use vector_retrieval_optimiz.Bytes.{Floats, rows_bytes}
use vector_retrieval_optimiz.Vro.{
  Value, Header, number, header_at, table_from, align, write, settle, file_of, body_from, pack_u32,
}
use vector_retrieval_optimiz.Vro.Layout.{text_length}
use vector_retrieval_optimiz.Vro.Reader.{params_match, find_param, value_eq}
use vector_retrieval_optimiz.Vro.Tombstones.{pack_tombstones, packbits, byte_of}
use vector_retrieval_optimiz.Flat.{Index}
use vector_retrieval_optimiz.Flat.Saved.{dead_through, expanded, sections_of, header_of, save, load}
use vector_retrieval_optimiz.Flat.Saved.Restored.{AreOriginal}
use vector_retrieval_optimiz.Flat.Saved.Loaded.{kept, loaded, load-save}
use vector_retrieval_optimiz.Npy.{
  Head, float32, magic, is_ascii, dtype_of, parse_header, read_items, read_npy,
}
use vector_retrieval_optimiz.Npy.Limit.{read_npy_limit}
use vector_retrieval_optimiz.Tests.SampleJson.{sample_json, dumps, loads}
use vector_retrieval_optimiz.Tests.DiskannRuns.{two_rows}

-- rows of four numbers, the zero row among them
abbrev four_wide : Numpy
four_wide = record reference { zero_vec = 0 ∷ 0 ∷ 0 ∷ 0 ∷ [] }

-- whole numbers below 256 as the bytes of float32 values
abbrev wide_floats : Floats four_wide
wide_floats = record { to_bytes = λ x. x; of_bytes = λ bytes. bytes; of_bytes-to_bytes = λ x. refl }

abbrev index : Index (List ℕ)
index = record {
  vectors = two_rows;
  owned = true;
  n_orig = some 3;
  id_map = some (0 ∷ 2 ∷ []);
  deleted = none;
  filtered = [];
  filtered_rows = [];
  distance_computations = 0;
  filter_rows = 0;
}

abbrev rows : List (List ℕ)
rows = (1 ∷ 0 ∷ 0 ∷ 2 ∷ []) ∷ (0 ∷ 0 ∷ 0 ∷ 0 ∷ []) ∷ (3 ∷ 0 ∷ 0 ∷ 1 ∷ []) ∷ []

abbrev params : List (String × Value)
params = ("nlist", number 4) ∷ []

abbrev dead : Option (List Bool)
dead = some (false ∷ true ∷ false ∷ [])

abbrev header : Header
header = header_of four_wide wide_floats sample_json 1 rows params 42

abbrev bytes_of : Option (Result (List ℕ)) → List ℕ
bytes_of (some (ok file)) = file
bytes_of _ = []

abbrev file : List ℕ
file = bytes_of (save four_wide wide_floats sample_json 200 index 1 params 42)

text_length_same :
    (s : ℕ)
    → text_length sample_json header (sections_of four_wide wide_floats sample_json 1 rows dead) s
      ≡ 105
unfolding header_at table_from dumps header_of sections_of
text_length_same s = refl

expanded_test : expanded four_wide wide_floats sample_json index ≡ ok (rows, dead)
unfolding expanded dead_through
expanded_test = refl

save_test : save four_wide wide_floats sample_json 200 index 1 params 42 ≡ some (ok file)
unfolding save expanded dead_through write settle header_of sections_of header_at table_from dumps
    align file_of body_from pack_u32 pack_tombstones packbits byte_of rows_bytes
save_test = refl

match_test : params_match params params ≡ true
unfolding params_match find_param value_eq
match_test = refl

abbrev ReadsBack : ℕ → Type 0
ReadsBack s =
    let sections = sections_of four_wide wide_floats sample_json 1 rows dead in
    loads (dumps (header_at header sections s)) ≡ some (header_at header sections s)

ReadsBack-settled : ReadsBack 105
unfolding loads dumps header_at table_from align header_of sections_of rows_bytes pack_tombstones
    packbits
ReadsBack-settled = refl

reads_back :
    (s : ℕ)
    → text_length sample_json header (sections_of four_wide wide_floats sample_json 1 rows dead) s
      ≡ s
    → ReadsBack s
reads_back s e = subst ReadsBack (sym (text_length_same s) ∙ e) ReadsBack-settled

-- The deleted row, which is none of the index, is kept as a tombstone.
load-save_example :
    (h : Header) × (load four_wide wide_floats sample_json file params (some 1)
      ≡ ok (loaded four_wide wide_floats sample_json rows (kept dead), h))
    × (h.n ≡ 3)
    × AreOriginal four_wide wide_floats sample_json (some (0 ∷ 2 ∷ [])) index rows dead
load-save_example =
    load-save four_wide wide_floats sample_json 200 index 1 42 params params rows dead file
      (refl, (((λ e. omega (arith, e)), tt), (tt, tt)), (omega arith, (omega arith, tt))) tt
      expanded_test (refl, (refl, (refl, tt))) refl reads_back match_test save_test

abbrev header_read : List ℕ → Result Head
header_read text =
    ok (record { descr = some "<f4"; fortran_order = some false; shape = some (2 ∷ 1 ∷ []) })

abbrev npy_file : List ℕ
npy_file = magic ++ 1 ∷ 0 ∷ 2 ∷ 0 ∷ 123 ∷ 125 ∷ 10 ∷ 11 ∷ 12 ∷ 13 ∷ 20 ∷ 21 ∷ 22 ∷ 23 ∷ []

npy_test :
    read_npy header_read npy_file none
    ≡ ok (float32, 2 ∷ 1 ∷ [], 10 ∷ 11 ∷ 12 ∷ 13 ∷ 20 ∷ 21 ∷ 22 ∷ 23 ∷ [])
unfolding read_npy parse_header read_items is_ascii dtype_of
npy_test = refl

read_npy_limit_example :
    read_npy header_read npy_file (some 1) ≡ ok (float32, 1 ∷ 1 ∷ [], 10 ∷ 11 ∷ 12 ∷ 13 ∷ [])
read_npy_limit_example =
    read_npy_limit header_read npy_file 1 float32 2 (1 ∷ [])
      (10 ∷ 11 ∷ 12 ∷ 13 ∷ 20 ∷ 21 ∷ 22 ∷ 23 ∷ []) npy_test
