-- ===== src/Tests/VroRuns.antt =====
-- A small .vro file: two rows of one value, and their tombstones.
use vector_retrieval_optimiz.Prelude.{
  ℕ, ◌≡◌, refl, true, false, List, [], ◌∷◌, none, some, Result, ok, if◌then◌else◌, arith,
}
use vector_retrieval_optimiz.Vro.{
  Section, f32, u8, number, Header, align, table_from, header_at, settle, file_of, body_from,
  pack_u32,
}
use vector_retrieval_optimiz.Vro.Layout.{text_length, settle_ends}
use vector_retrieval_optimiz.Vro.Reader.{open_file}
use vector_retrieval_optimiz.Vro.Roundtrip.{Stored, open_file-file_of}
use vector_retrieval_optimiz.Vro.Tombstones.{
  any_set, packbits, byte_of, pack_tombstones, unpack_tombstones,
}
use vector_retrieval_optimiz.Vro.Tombstones.Roundtrip.{unpack-pack}
use vector_retrieval_optimiz.Tests.SampleJson.{sample_json, dumps, loads}

abbrev two_sections : List Section
two_sections =
    record {
      name = "vectors";
      dtype = f32;
      shape = 2 ∷ 1 ∷ [];
      content = 0 ∷ 0 ∷ 128 ∷ 63 ∷ 0 ∷ 0 ∷ 0 ∷ 64 ∷ [];
    }
    ∷ record { name = "tombstones"; dtype = u8; shape = 1 ∷ []; content = 2 ∷ [] }
    ∷ []

abbrev small_header : Header
small_header = record {
  index = "flat";
  n = 2;
  dim = 1;
  build_params = ("nlist", number 4) ∷ [];
  seed = 42;
  sections = [];
}

text_length_same : (a : ℕ) → text_length sample_json small_header two_sections a ≡ 105
unfolding header_at table_from dumps
text_length_same a = refl

settle_ends_example :
    (start : ℕ) × (settle sample_json 106 small_header two_sections 0
      ≡ some (
        header_at small_header two_sections start,
        sample_json.dumps (header_at small_header two_sections start),
      ))
    × (text_length sample_json small_header two_sections start ≡ start)
settle_ends_example =
    settle_ends sample_json small_header two_sections 105
      (λ a b h. omega (arith, text_length_same a, text_length_same b))
      (λ a h. omega (arith, text_length_same a))

-- the header that the loop settles on, and the file
abbrev small_settled : Header
small_settled = header_at small_header two_sections 105

offsets_test :
    small_settled.sections
    ≡ record { name = "vectors"; dtype = f32; shape = 2 ∷ 1 ∷ []; offset = 128; bytes = 8 }
      ∷ record { name = "tombstones"; dtype = u8; shape = 1 ∷ []; offset = 192; bytes = 1 }
      ∷ []
unfolding header_at table_from align
offsets_test = refl

abbrev bytes_of : Result (List ℕ) → List ℕ
bytes_of (ok file) = file
bytes_of _ = []

abbrev small_file : List ℕ
small_file = bytes_of (file_of small_settled (sample_json.dumps small_settled) two_sections)

open_file-file_of_example :
    (open_file sample_json small_file ≡ ok (record { header = small_settled; file = small_file }))
    × Stored small_file small_settled.sections two_sections
unfolding file_of dumps header_at table_from align body_from pack_u32 loads
open_file-file_of_example =
    open_file-file_of sample_json small_header two_sections 105 ((refl, refl), ((refl, refl), tt))
      refl refl refl

unpack-pack_example :
    (unpack_tombstones (pack_tombstones (some (false ∷ true ∷ [])) 2) 2
      ≡ (if any_set (false ∷ true ∷ []) then some (false ∷ true ∷ []) else none))
    × (unpack_tombstones (pack_tombstones none 2) 2 ≡ none)
unpack-pack_example = unpack-pack (false ∷ true ∷ []) 2 refl

pack_test : pack_tombstones (some (false ∷ true ∷ [])) 2 ≡ 2 ∷ []
unfolding pack_tombstones packbits byte_of
pack_test = refl
