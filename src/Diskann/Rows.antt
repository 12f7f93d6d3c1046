-- ===== src/Diskann/Rows.antt =====
-- The out-edges in the slots of the builder of diskann.py after a row is written.
use vector_retrieval_optimiz.Prelude.{
  ℕ, ◌<◌, ◌≡◌, ◌≢◌, refl, ap, ◌∙◌, List, [], ◌∷◌, ◌++◌, map, some, length, set, take,
  get_or-set_self, get_or-set_ne,
}
use vector_retrieval_optimiz.Diskann.{Slots, Builder, out_of, filled}
use vector_retrieval_optimiz.Pq.{present}

-- IDs in front of a row, up to their number
pub present-take :
    (xs : List ℕ) (row : Slots) → present (take (length xs) (map some xs ++ row)) ≡ xs
unfolding present
present-take [] row = refl
present-take (x ∷ xs) row = ap (◌∷◌ x) (present-take xs row)

-- the builder with a row's slots and its count replaced
abbrev pub with_row : Builder → ℕ → Slots → ℕ → Builder
with_row b p row count = record b { edges = set b.edges p row; counts = set b.counts p count }

pub out_of-with_row :
    (b : Builder) (p : ℕ) (row : Slots) (count : ℕ)
    → p < length b.edges
    → p < length b.counts
    → out_of (with_row b p row count) p ≡ present (take count row)
unfolding out_of
out_of-with_row b p row count he hc =
    rw (get_or-set_self b.edges p row [] he, get_or-set_self b.counts p count 0 hc) refl

pub out_of-with_row_ne :
    (b : Builder) (p j : ℕ) (row : Slots) (count : ℕ)
    → p ≢ j
    → out_of (with_row b p row count) j ≡ out_of b j
unfolding out_of
out_of-with_row_ne b p j row count other =
    rw (get_or-set_ne b.edges p j row [] other, get_or-set_ne b.counts p j count 0 other) refl

pub out_of-filled :
    (b : Builder) (p slots : ℕ) (out : List ℕ)
    → p < length b.edges
    → p < length b.counts
    → out_of (with_row b p (filled slots out) (length out)) p ≡ out
unfolding filled
out_of-filled b p slots out he hc =
    out_of-with_row b p (filled slots out) (length out) he hc ∙ present-take out _
