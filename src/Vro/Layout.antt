-- ===== src/Vro/Layout.antt =====
-- The section table: aligned, ordered and disjoint; and the loop that settles the header.
use vector_retrieval_optimiz.Prelude.{
  ℕ, zero, suc, ◌+◌, ◌%◌, ◌≤◌, ◌<◌, ◌≡◌, some, List, [], ◌∷◌, length, ◌==◌, arith, Bool-cases, inl,
  inr, ==_iff,
}
use vector_retrieval_optimiz.Vro.{
  Section, Entry, Header, Json, align, table_from, header_at, settle,
}

-- the next multiple of 64
pub align_bounds : (x : ℕ) → (x ≤ align x) × (align x < x + 64) × (align x % 64 ≡ 0)
unfolding align
align_bounds x = (omega arith, omega arith, omega arith)

-- Every entry starts at a multiple of 64, at or after the end of the one before it.
abbrev pub IsLaidOut : ℕ → List Entry → Type 0
IsLaidOut pos [] = Unit
IsLaidOut pos (e ∷ es) = (pos ≤ e.offset) × (e.offset % 64 ≡ 0) × IsLaidOut (e.offset + e.bytes) es

-- From any aligned first offset the table is laid out: the sections start at multiples of 64, in
-- order, and no two overlap.
pub table_from-IsLaidOut :
    (pos off : ℕ) (sections : List Section)
    → pos ≤ off
    → off % 64 ≡ 0
    → IsLaidOut pos (table_from off sections)
unfolding table_from
table_from-IsLaidOut pos off [] h k = tt
table_from-IsLaidOut pos off (s ∷ ss) h k =
    let b = align_bounds (off + length s.content) in
    (h, k, table_from-IsLaidOut (off + length s.content) _ ss b.0 b.2)

module _ (json : Json) (h : Header) (sections : List Section) where
  abbrev pub text_length : ℕ → ℕ
  text_length start = length (json.dumps (header_at h sections start))

  settle-from :
      (bound : ℕ)
      → ((a b : ℕ) → a ≤ b → text_length a ≤ text_length b)
      → ((a : ℕ) → a ≤ bound → text_length a ≤ bound)
      → (fuel start : ℕ) → start ≤ bound
      → start ≤ text_length start
      → bound < fuel + start
      → (s : ℕ) × (settle json fuel h sections start
          ≡ some (header_at h sections s, json.dumps (header_at h sections s)))
        × (text_length s ≡ s)
  unfolding settle
  settle-from bound mono bounded zero start b up le = absurd (omega arith)
  settle-from bound mono bounded (suc fuel) start b up le =
      elim (Bool-cases (text_length start == start)) [
        | inl e ↦ (start, rw e, (==_iff (text_length start) start).0 e)
        | inr e ↦
            let lt : start < text_length start = ground arith in
            rw e (
              settle-from bound mono bounded fuel (text_length start) (bounded start b)
                (mono start (text_length start) up) (omega arith))
      ]

  -- The loop ends: if the text for a larger supposed length is never shorter, and a text of at most
  -- `bound` bytes comes of every supposed length up to `bound`, then `bound + 1` rounds suffice, and
  -- the header text that is written has the length that its own offsets were computed from.
  pub settle_ends :
      (bound : ℕ)
      → ((a b : ℕ) → a ≤ b → text_length a ≤ text_length b)
      → ((a : ℕ) → a ≤ bound → text_length a ≤ bound)
      → (start : ℕ) × (settle json (bound + 1) h sections 0
          ≡ some (header_at h sections start, json.dumps (header_at h sections start)))
        × (text_length start ≡ start)
  settle_ends bound mono bounded =
      settle-from bound mono bounded (bound + 1) 0 (omega arith) (omega arith) (omega arith)
