-- ===== src/Vro/Sections.antt =====
-- A file that `write` of vro.py returns, read section by section.
use vector_retrieval_optimiz.Prelude.{
  ℕ, zero, suc, ◌*◌, ◌≡◌, refl, ap, true, String, List, [], ◌∷◌, Option, none, some, ok, take, drop,
  ◌==◌, ==_iff, All, Bool-cases, Option-cases, inl, inr, arith,
}
use vector_retrieval_optimiz.Vro.{
  Dtype, itemsize, Section, Entry, Header, Json, count_of, header_at, settle, file_of, write,
}
use vector_retrieval_optimiz.Vro.Layout.{text_length}
use vector_retrieval_optimiz.Vro.Reader.{Opened, list_eq, dtype_eq, find_section, open_file, array}
use vector_retrieval_optimiz.Vro.Roundtrip.{Stored, IsSized, open_file-file_of}

pub list_eq_self : (xs : List ℕ) → list_eq xs xs ≡ true
unfolding list_eq
list_eq_self [] = refl
list_eq_self (x ∷ xs) = ground (arith, list_eq_self xs)

-- A section that the header names is read as the bytes at its offset.
pub array_lem :
    (r : Opened) (name : String) (dtype : Dtype) (shape : Option (List ℕ)) (e : Entry)
    (content : List ℕ)
    → find_section name r.header.sections ≡ some e
    → dtype_eq e.dtype dtype ≡ true
    → elim shape [ none ↦ true | some s ↦ list_eq s e.shape ] ≡ true
    → take (count_of e.shape * itemsize e.dtype) (drop e.offset r.file) ≡ content
    → array r name dtype shape ≡ ok content
unfolding array
array_lem r name dtype shape e content found dtype_ok shape_ok bytes =
    rw (array, found) (rw (dtype_ok, shape_ok) (ap ok bytes))

module _ (json : Json) where
  settled :
      (fuel : ℕ) (h : Header) (sections : List Section) (start : ℕ) (header : Header)
      (text : List ℕ)
      → settle json fuel h sections start ≡ some (header, text)
      → (s : ℕ) × (header ≡ header_at h sections s)
        × (text ≡ json.dumps (header_at h sections s))
        × (text_length json h sections s ≡ s)
  unfolding settle
  settled zero h sections start header text e = absurd (cc e)
  settled (suc fuel) h sections start header text e =
      elim (Bool-cases (text_length json h sections start == start)) [
        | inl done ↦
            let e' = rw done at e in
            (start, cc, cc, (==_iff (text_length json h sections start) start).0 done)
        | inr more ↦
            settled fuel h sections (text_length json h sections start) header text (rw more at e)
      ]

  -- What `write` returns is opened with the header for some length of its text, and holds the sections.
  pub write-opened :
      (fuel : ℕ) (h : Header) (sections : List Section) (file : List ℕ)
      → ((s : ℕ)
          → text_length json h sections s ≡ s
          → json.loads (json.dumps (header_at h sections s)) ≡ some (header_at h sections s))
      → All IsSized sections
      → write json fuel h sections ≡ some (ok file)
      → (start : ℕ) × (open_file json file
          ≡ ok (record { header = header_at h sections start; file = file }))
        × Stored file (header_at h sections start).sections sections
  unfolding write
  write-opened fuel h sections file reads_back sized e =
      elim (Option-cases (settle json fuel h sections 0)) [
        | inl stuck ↦ absurd (let e' = rw (write, stuck) at e in cc)
        | inr ((header, text), ended) ↦
            let (s, same_header, same_text, length_s) =
              settled fuel h sections 0 header text ended in
            let made : file_of header text sections ≡ ok file =
              let e' = rw (write, ended) at e in cc in
            let opened =
              open_file-file_of json h sections s sized (reads_back s length_s) length_s
                (rw (same_header, same_text) at made) in
            (s, opened.0, opened.1)
      ]
