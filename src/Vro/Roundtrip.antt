-- ===== src/Vro/Roundtrip.antt =====
-- A file that `write` makes is opened with the header that was written, and every section's bytes
-- stand at its offset.
use mathlib.Core.List.{append_assoc}
use mathlib.Core.Path.{subst}
use vector_retrieval_optimiz.Prelude.{
  ℕ, zero, ◌+◌, ◌-◌, ◌*◌, ◌/◌, ◌%◌, ◌^◌, ◌≤◌, ◌<◌, ◌≡◌, refl, ap, true, List, [], ◌∷◌, ◌++◌, some,
  ok, arith, length, take, drop, replicate, length-append, length-replicate, take-append_self,
  drop-append_self, ltb, ◌==◌, ==_iff, ltb→lt, Bool-cases, inl, inr, All,
}
use vector_retrieval_optimiz.Vro.{
  magic, is_known, itemsize, Section, Entry, Header, Json, count_of, align, table_from, header_at,
  pack_u32, body_from, file_of,
}
use vector_retrieval_optimiz.Vro.Layout.{align_bounds}
use vector_retrieval_optimiz.Vro.Reader.{list_eq, unpack_u32, fits_file, all_fit, open_file}

-- Each section's bytes stand in the file at the offset of its entry.
abbrev pub Stored : List ℕ → List Entry → List Section → Type 0
Stored file [] ss = Unit
Stored file (e ∷ es) [] = Unit
Stored file (e ∷ es) (s ∷ ss) =
    (take (length s.content) (drop e.offset file) ≡ s.content)
    × (e.offset + length s.content ≤ length file)
    × Stored file es ss

slice :
    (pre mid post file : List ℕ) (off : ℕ)
    → file ≡ pre ++ (mid ++ post)
    → length pre ≡ off
    → (take (length mid) (drop off file) ≡ mid) × (off + length mid ≤ length file)
slice pre mid post file off f e =
    let d : drop off file ≡ mid ++ post = rw (f, ← e) (drop-append_self pre (mid ++ post)) in
    (
      rw d (take-append_self mid post),
      omega (arith, ap (length {A = ℕ}) f, length-append pre (mid ++ post), length-append mid post),
    )

body-Stored :
    (pre : List ℕ) (pos off : ℕ) (ss : List Section)
    → length pre ≡ pos
    → pos ≤ off
    → Stored (pre ++ body_from pos (table_from off ss) ss) (table_from off ss) ss
unfolding body_from table_from
body-Stored pre pos off [] e h = tt
body-Stored pre pos off (s ∷ ss) e h =
    let z : List ℕ = replicate (off - pos) 0 in
    let c = s.content in
    let off' = align (off + length c) in
    let pos' = pos + (off - pos) + length c in
    let body = body_from pos' (table_from off' ss) ss in
    let file : List ℕ = pre ++ (z ++ c ++ body) in
    let lz = length-replicate (off - pos) (zero) in
    let f : file ≡ (pre ++ z) ++ (c ++ body) = simp append_assoc in
    let g : pre ++ z ++ c ++ body ≡ file = simp append_assoc in
    let here = slice (pre ++ z) c body file off f (omega (arith, length-append pre z, lz)) in
    let there =
      body-Stored (pre ++ z ++ c) pos' off' ss
        (omega (arith, length-append (pre ++ z) c, length-append pre z, lz))
        (omega (arith, align_bounds (off + length c))) in
    (here.0, here.1, subst (λ t. Stored t (table_from off' ss) ss) g there)

-- the four bytes of a 32-bit number
abbrev bytes4 : ℕ → List ℕ
bytes4 x = x % 256 ∷ x / 256 % 256 ∷ x / 256 ^ 2 % 256 ∷ x / 256 ^ 3 % 256 ∷ []

unpack_u32-bytes4 : (x : ℕ) → x < 2 ^ 32 → unpack_u32 (bytes4 x) ≡ x
unfolding unpack_u32
unpack_u32-bytes4 x h = omega arith

open_file_parts :
    (json : Json) (h : Header) (body : List ℕ)
    → json.loads (json.dumps h) ≡ some h
    → length (json.dumps h) < 2 ^ 32
    → all_fit (length (magic ++ bytes4 (length (json.dumps h)) ++ json.dumps h ++ body)) h.sections
      ≡ true
    → open_file json (magic ++ bytes4 (length (json.dumps h)) ++ json.dumps h ++ body)
      ≡ ok (record {
        header = h;
        file = magic ++ bytes4 (length (json.dumps h)) ++ json.dumps h ++ body;
      })
unfolding open_file list_eq
open_file_parts json h body read_back small fits =
    let text = json.dumps h in
    let u = unpack_u32-bytes4 (length text) small in
    let t = take-append_self text body in
    let same : (length text == length text) ≡ true = (==_iff (length text) (length text)).1 refl in
    rw (u, t, same, read_back, fits) refl

-- a section whose bytes are those of its shape and dtype
abbrev pub IsSized : Section → Type 0
IsSized s = (is_known s.dtype ≡ true) × (count_of s.shape * itemsize s.dtype ≡ length s.content)

all_fit-table :
    (file : List ℕ) (off : ℕ) (ss : List Section)
    → off % 64 ≡ 0
    → All IsSized ss
    → Stored file (table_from off ss) ss
    → all_fit (length file) (table_from off ss) ≡ true
unfolding all_fit fits_file table_from
all_fit-table file off [] h k st = refl
all_fit-table file off (s ∷ ss) h k st =
    let rest =
      all_fit-table file (align (off + length s.content)) ss
        (align_bounds (off + length s.content)).2 k.1 st.2 in
    ground (arith, k.0, st.1, rest)

abbrev head_of : List ℕ → List ℕ
head_of text = magic ++ bytes4 (length text) ++ text

file_of_parts :
    (hd : Header) (text : List ℕ) (sections : List Section) {file : List ℕ}
    → file_of hd text sections ≡ ok file
    → (length text < 2 ^ 32)
      × (file ≡ head_of text ++ body_from (length (head_of text)) hd.sections sections)
unfolding file_of pack_u32
file_of_parts hd text sections made = elim (Bool-cases (ltb (length text) (2 ^ 32))) [
  | inl small ↦ (ltb→lt _ _ small, cc (rw small at made))
  | inr large ↦ absurd (ground arith)
]

-- What `write` writes for a settled header, `Reader` opens: where the bytes of every section are those
-- of its shape and dtype, and the JSON text of the header reads back as the header, it gives back the
-- header, and every section's bytes stand at the offset of its entry.
pub open_file-file_of :
    (json : Json) (h : Header) (sections : List Section) (start : ℕ) {file : List ℕ}
    → All IsSized sections
    → json.loads (json.dumps (header_at h sections start)) ≡ some (header_at h sections start)
    → length (json.dumps (header_at h sections start)) ≡ start
    → file_of (header_at h sections start) (json.dumps (header_at h sections start)) sections
      ≡ ok file
    → (open_file json file ≡ ok (record { header = header_at h sections start; file = file }))
      × Stored file (header_at h sections start).sections sections
unfolding header_at
open_file-file_of json h sections start sized read_back settled made =
    let hd = header_at h sections start in
    let text = json.dumps hd in
    let off = align (8 + 4 + start) in
    let body = body_from (length (head_of text)) hd.sections sections in
    let (small, e) = file_of_parts hd text sections made in
    let b = align_bounds (8 + 4 + start) in
    let stored =
      body-Stored (head_of text) (length (head_of text)) off sections refl (omega arith) in
    let fits = all_fit-table (head_of text ++ body) off sections b.2 sized stored in
    rw e (open_file_parts json hd body read_back small fits, stored)
