-- ===== src/Diskann/Prune/Picked.antt =====
-- The positions that the loop of `prune` in diskann.py chooses.
use mathlib.Core.Path.{subst}
use vector_retrieval_optimiz.Prelude.{
  ℕ, zero, suc, ◌+◌, ◌≤◌, ◌<◌, ◌≡◌, ◌≢◌, ◌⊎◌, refl, ap, ◌∙◌, sym, Bool, true, false, not, ◌&&◌,
  List, [], ◌∷◌, length, get_or, get_or-set_ne, get_or-set_self, length-set, set, All, All-map, any,
  elem, ◌==◌, ==_iff, Bool-cases, inl, inr, arith,
}
use vector_retrieval_optimiz.Diskann.Prune.{first_alive, masked_from, pick_from}

-- Each entry stands in a relation to all later ones.
abbrev pub Pairs {ℓ} : {A : Type ℓ} → (A → A → Type 0) → List A → Type 0
Pairs R [] = Unit
Pairs R (x ∷ xs) = All (R x) xs × Pairs R xs

abbrev IsAlive : List Bool → ℕ → Type 0
IsAlive alive b = get_or alive b false ≡ true

IsAlive-lt : (alive : List Bool) (b : ℕ) → IsAlive alive b → b < length alive
IsAlive-lt [] b h = absurd (cc h)
IsAlive-lt (a ∷ alive) zero h = omega arith
IsAlive-lt (a ∷ alive) (suc b) h = omega (arith, IsAlive-lt alive b h)

length-masked_from :
    (keep : ℕ → Bool) (i : ℕ) (alive : List Bool) → length (masked_from keep i alive) ≡ length alive
unfolding masked_from
length-masked_from keep i [] = refl
length-masked_from keep i (a ∷ alive) = ap suc (length-masked_from keep (suc i) alive)

get_or-masked_from :
    (keep : ℕ → Bool) (i : ℕ) (alive : List Bool) (b : ℕ)
    → get_or (masked_from keep i alive) b false ≡ (get_or alive b false && keep (i + b))
unfolding masked_from
get_or-masked_from keep i [] b = refl
get_or-masked_from keep i (a ∷ alive) zero = ap (λ (k : ℕ). a && keep k) {x = i} (omega arith)
get_or-masked_from keep i (a ∷ alive) (suc b) =
    get_or-masked_from keep (suc i) alive b
    ∙ ap (λ (k : ℕ). get_or alive b false && keep k) {x = suc i + b} (omega arith)

-- The first position that is alive is alive, and none before it is.
first_alive-IsAlive :
    (i : ℕ) (alive : List Bool) (b : ℕ)
    → IsAlive alive b
    → (k : ℕ) × (first_alive i alive ≡ i + k) × IsAlive alive k × (k ≤ b)
unfolding first_alive
first_alive-IsAlive i [] b h = absurd (cc h)
first_alive-IsAlive i (true ∷ alive) b h = (0, omega arith, refl, omega arith)
first_alive-IsAlive i (false ∷ alive) zero h = absurd (cc h)
first_alive-IsAlive i (false ∷ alive) (suc b) h =
    let (k, e, a, le) = first_alive-IsAlive (suc i) alive b h in
    (suc k, omega (arith, e), a, omega arith)

module _ (keep : ℕ → ℕ → Bool) where
  abbrev after : ℕ → List Bool → List Bool
  after pos alive = set (masked_from (keep pos) 0 alive) pos false

  after-IsAlive :
      (pos : ℕ) (alive : List Bool) (b : ℕ)
      → IsAlive (after pos alive) b
      → (b ≢ pos) × (keep pos b ≡ true) × IsAlive alive b
  after-IsAlive pos alive b h =
      let lt = IsAlive-lt (after pos alive) b h in
      let size = length-set (masked_from (keep pos) 0 alive) pos false in
      let apart : b ≢ pos = λ e.
        let dead =
          get_or-set_self (masked_from (keep pos) 0 alive) pos false false
            (omega (arith, lt, size, e)) in
        let now = subst (λ (k : ℕ). get_or (after pos alive) k false ≡ true) e h in cc in
      let same =
        get_or-set_ne (masked_from (keep pos) 0 alive) pos b false false (λ e. apart (sym e))
        ∙ get_or-masked_from (keep pos) 0 alive b
        ∙ ap (λ (k : ℕ). get_or alive b false && keep pos k) {x = 0 + b} {y = b} (omega arith) in
      (apart, ground (arith, same), ground (arith, same))

  IsAlive-after :
      (pos : ℕ) (alive : List Bool) (b : ℕ)
      → b ≢ pos
      → keep pos b ≡ true
      → IsAlive alive b
      → IsAlive (after pos alive) b
  IsAlive-after pos alive b apart kept h =
      get_or-set_ne (masked_from (keep pos) 0 alive) pos b false false (λ e. apart (sym e))
      ∙ get_or-masked_from (keep pos) 0 alive b
      ∙ ap (λ (k : ℕ). get_or alive b false && keep pos k) {x = 0 + b} {y = b} (omega arith)
      ∙ ground (arith, kept, h)

  -- The first of the positions that are alive.
  abbrev IsFirst : ℕ → List Bool → Type 0
  IsFirst pos alive = IsAlive alive pos × ((b : ℕ) → IsAlive alive b → pos ≤ b)

  first_alive-IsFirst :
      (alive : List Bool) (b : ℕ) → IsAlive alive b → IsFirst (first_alive 0 alive) alive
  first_alive-IsFirst alive b h =
      let found = first_alive-IsAlive 0 alive b h in
      let e : first_alive 0 alive ≡ found.0 = omega (arith, found.1) in
      (
        rw e found.2,
        λ c k. let other = first_alive-IsAlive 0 alive c k in omega (arith, other.1, other.3),
      )

  -- What is chosen is alive, in ascending order, and each chosen position keeps the later ones.
  pub pick_from-Pairs :
      (left pos : ℕ) (alive : List Bool)
      → IsFirst pos alive
      → All (λ b. IsAlive alive b × (pos ≤ b)) (pick_from keep left pos alive)
        × Pairs (λ a b. (a < b) × (keep a b ≡ true)) (pick_from keep left pos alive)
        × (length (pick_from keep left pos alive) ≤ left)
  unfolding pick_from
  pick_from-Pairs zero pos alive f = (tt, tt, omega arith)
  pick_from-Pairs (suc left) pos alive f =
      let next = after pos alive in
      let pos' = first_alive 0 next in
      elim (Bool-cases (get_or next pos' false)) [
        | inl more ↦
            let rest = pick_from-Pairs left pos' next (first_alive-IsFirst next pos' more) in
            let found = pick_from keep left pos' next in
            rw (pick_from, more)
              (
                (
                  (f.0, omega arith),
                  All-map (λ b k. let old = after-IsAlive pos alive b k.0 in (old.2, f.1 b old.2))
                      found rest.0,
                ),
                (
                  All-map
                      (λ b k.
                        let old = after-IsAlive pos alive b k.0 in
                        (omega (arith, f.1 b old.2, λ (e : pos ≡ b). old.0 (sym e)), old.1))
                      found rest.0,
                  rest.1,
                ),
                omega (arith, rest.2),
              )
        | inr done ↦ rw (pick_from, done) (((f.0, omega arith), tt), (tt, tt), omega arith)
      ]

  -- A position that is alive is chosen, or a chosen one does not keep it, or all places are taken.
  pub pick_from-covers :
      (left pos : ℕ) (alive : List Bool)
      → IsFirst pos alive
      → (j : ℕ) → IsAlive alive j
      → (elem j (pick_from keep left pos alive) ≡ true)
        ⊎ (any (λ a. not (keep a j)) (pick_from keep left pos alive) ≡ true)
        ⊎ (length (pick_from keep left pos alive) ≡ left)
  unfolding pick_from
  pick_from-covers zero pos alive f j h = inr (inr refl)
  pick_from-covers (suc left) pos alive f j h =
      let next = after pos alive in
      let pos' = first_alive 0 next in
      elim (Bool-cases (pos == j)) [
        | inl here ↦ elim (Bool-cases (get_or next pos' false)) [
          | inl more ↦ rw (pick_from, more, here) (inl refl)
          | inr done ↦ rw (pick_from, done, here) (inl refl)
        ]
        | inr other ↦ elim (Bool-cases (keep pos j)) [
          | inl kept ↦
              let still =
                IsAlive-after pos alive j (λ e. let same = (==_iff pos j).1 (sym e) in cc) kept h in
              let f' = first_alive-IsFirst next j still in
              elim (pick_from-covers left pos' next f' j still) [
                | inl a ↦ rw (pick_from, f'.0, other) (inl a)
                | inr (inl b) ↦ rw (pick_from, f'.0, kept) (inr (inl b))
                | inr (inr c) ↦ rw (pick_from, f'.0) (inr (inr (ap suc c)))
              ]
          | inr lost ↦ elim (Bool-cases (get_or next pos' false)) [
            | inl more ↦ rw (pick_from, more, lost) (inr (inl refl))
            | inr done ↦ rw (pick_from, done, lost) (inr (inl refl))
          ]
        ]
      ]
