-- ===== src/Diskann/Search/Listed.antt =====
-- The rows that the beam search of diskann.py has seen: what `collect` and `admit` keep of them.
use mathlib.Core.List.{map-append, append_assoc, append-nil}
use mathlib.Core.Path.{subst}
use vector_retrieval_optimiz.Prelude.{
  ℕ, ◌<◌, ◌≡◌, ap, ◌∙◌, true, false, List, [], ◌∷◌, ◌++◌, map, Option, none, some, ==_iff, elem,
  length, length-take, length-append, All, All-append, All-take, map-take, Bool-cases, inl, inr,
  arith,
}
use vector_retrieval_optimiz.Prelude.Ranges.{Nodup, map-map}
use vector_retrieval_optimiz.Prelude.Arrays.{map_id}
use vector_retrieval_optimiz.Prelude.Sorting.{
  Sorted, Sorted-take, sort_by, sort_by-Sorted, length-sort_by, All-sort_by,
}
use vector_retrieval_optimiz.Distance.Best.{better-StrictWeak}
use vector_retrieval_optimiz.Prelude.Distinct.{
  AllIn, AllIn-cons, AllIn-ne, Nodup-append_one, Nodup-take, Nodup-sort_by,
}
use vector_retrieval_optimiz.Numpy.{Score, Hit, better}
use vector_retrieval_optimiz.Diskann.{Slots}
use vector_retrieval_optimiz.Diskann.Search.{Beam, collect, admit}

abbrev pub rows : List Hit → List ℕ
rows = map (λ (h : Hit). h.row)

-- the row IDs of slots are below n
abbrev pub SlotBelow : ℕ → Option ℕ → Type 0
SlotBelow n none = Unit
SlotBelow n (some i) = i < n

-- The listed rows are distinct and seen, and the seen rows are rows of the index.
pub record IsListed (n : ℕ) (listed seen : List ℕ) : Type 0 where
  pub below : All (λ e. e < n) seen
  pub known : AllIn listed seen
  pub once : Nodup listed

IsListed-add :
    (n : ℕ) (listed seen : List ℕ) (e : ℕ)
    → e < n
    → elem e seen ≡ false
    → IsListed n listed seen
    → IsListed n (listed ++ e ∷ []) (e ∷ seen)
IsListed-add n listed seen e lt fresh l = record {
  below = (lt, l.below);
  known =
      All-append (λ x. elem x (e ∷ seen) ≡ true) listed (e ∷ []) (AllIn-cons e listed seen l.known)
        (ground (arith, ==_iff e e), tt);
  once = Nodup-append_one e listed l.once (AllIn-ne e listed seen l.known fresh);
}

-- Reading one record adds rows that were not seen, and forgets none.
pub collect-IsListed :
    (n : ℕ) (listed : List ℕ) (nb : Slots) (seen new : List ℕ)
    → All (SlotBelow n) nb
    → IsListed n (listed ++ new) seen
    → IsListed n (listed ++ (collect (seen, new) nb).1) (collect (seen, new) nb).0
      × ((c : ℕ) → elem c seen ≡ true → elem c (collect (seen, new) nb).0 ≡ true)
unfolding collect
collect-IsListed n listed [] seen new below l = (l, λ c k. k)
collect-IsListed n listed (none ∷ nb) seen new below l =
    collect-IsListed n listed nb seen new below.1 l
collect-IsListed n listed (some e ∷ nb) seen new below l = elim (Bool-cases (elem e seen)) [
  | inl old ↦ rw old (collect-IsListed n listed nb seen new below.1 l)
  | inr fresh ↦
      let assoc : (listed ++ new) ++ e ∷ [] ≡ listed ++ (new ++ e ∷ []) =
        append_assoc listed new (e ∷ []) in
      let more =
        subst (λ xs. IsListed n xs (e ∷ seen)) assoc
          (IsListed-add n (listed ++ new) seen e below.0 fresh l) in
      let rest = collect-IsListed n listed nb (e ∷ seen) (new ++ e ∷ []) below.1 more in
      rw fresh (rest.0, λ c k. rest.1 c (ground arith))
]

-- a new row with its score
abbrev pub scored : (ℕ → Score) → ℕ → Hit
scored score i = record { row = i; score = score i }

rows-append :
    (score : ℕ → Score) (cand : List Hit) (new : List ℕ)
    → rows (cand ++ map (scored score) new) ≡ rows cand ++ new
rows-append score cand new =
    map-append (λ (h : Hit). h.row) cand (map (scored score) new)
    ∙ ap (λ xs. rows cand ++ xs) (map-map (λ (h : Hit). h.row) (scored score) new ∙ map_id new)

-- Sorting and cutting the candidates keeps them distinct.
pub admit-once :
    {V : Type 0} (read : ℕ → V × Slots) (score : ℕ → Score) (l : ℕ) (s : Beam V) (new : List ℕ)
    → Nodup (rows s.cand ++ new)
    → Nodup (rows (admit read score l (s, new)).cand)
unfolding admit
admit-once read score l s [] d = subst Nodup (append-nil (rows s.cand)) d
admit-once read score l s (c ∷ new) d = rw (map-take (λ (h : Hit). h.row) l) (
    Nodup-take l _ (
      Nodup-sort_by better (λ (h : Hit). h.row) (s.cand ++ map (scored score) (c ∷ new))
        (rw (rows-append score s.cand (c ∷ new)) d)))

-- What holds of the candidates and of the new rows holds of the candidates after the round.
pub admit-All :
    {V : Type 0} (read : ℕ → V × Slots) (score : ℕ → Score) (l : ℕ) (s : Beam V) (new : List ℕ)
    (P : Hit → Type 0)
    → All P s.cand
    → All P (map (scored score) new)
    → All P (admit read score l (s, new)).cand
unfolding admit
admit-All read score l s [] P h k = h
admit-All read score l s (c ∷ new) P h k =
    All-take P l _ (All-sort_by better P _ (All-append P s.cand (map (scored score) (c ∷ new)) h k))

pub admit-Sorted :
    {V : Type 0} (read : ℕ → V × Slots) (score : ℕ → Score) (l : ℕ) (s : Beam V) (new : List ℕ)
    → Sorted better s.cand
    → Sorted better (admit read score l (s, new)).cand
unfolding admit
admit-Sorted read score l s [] h = h
admit-Sorted read score l s (c ∷ new) h =
    let all = s.cand ++ map (scored score) (c ∷ new) in
    Sorted-take better l (sort_by better all) (sort_by-Sorted better-StrictWeak all)

-- A list of at least one place keeps a candidate.
pub admit-some :
    {V : Type 0} (read : ℕ → V × Slots) (score : ℕ → Score) (l : ℕ) (s : Beam V) (new : List ℕ)
    → 0 < l
    → 0 < length s.cand
    → 0 < length (admit read score l (s, new)).cand
unfolding admit
admit-some read score l s [] pos h = h
admit-some read score l s (c ∷ new) pos h =
    let all = s.cand ++ map (scored score) (c ∷ new) in
    omega (
      arith,
      length-take l (sort_by better all),
      length-sort_by better all,
      length-append s.cand (map (scored score) (c ∷ new)),
    )
