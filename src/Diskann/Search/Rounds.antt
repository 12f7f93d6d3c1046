-- ===== src/Diskann/Search/Rounds.antt =====
-- The loop of `search` in diskann.py ends with every listed row expanded: each round expands rows that
-- were not expanded before, and there are n rows.
use mathlib.Core.List.{append-nil}
use mathlib.Core.Path.{subst}
use vector_retrieval_optimiz.Prelude.{
  ℕ, zero, suc, ◌+◌, ◌<◌, ◌≡◌, ◌≢◌, refl, ap, sym, Bool, true, false, not, List, [], ◌∷◌, ◌++◌,
  foldl, some, ◌==◌, length, filter, take, elem, All, All-map, All-filter, All-take,
  All-filter_self, All-everywhere, Bool-cases, List-cases, inl, inr, arith,
}
use vector_retrieval_optimiz.Prelude.Ranges.{Nodup, Nodup-filter}
use vector_retrieval_optimiz.Prelude.Distinct.{
  AllIn, AllIn_self, AllIn-ne, elem-All, Nodup-take, length-le_of_Nodup, All_of_map, All_to_map,
  All-append_left, All-append_right,
}
use vector_retrieval_optimiz.Prelude.Sorting.{Sorted}
use vector_retrieval_optimiz.Numpy.{Score, Hit, better}
use vector_retrieval_optimiz.Diskann.{Slots}
use vector_retrieval_optimiz.Diskann.Search.{Beam, vec_of, batch_of, visit, admit, rounds}
use vector_retrieval_optimiz.Diskann.Search.Listed.{
  rows, SlotBelow, IsListed, collect-IsListed, admit-once, admit-All, admit-Sorted, admit-some,
  scored,
}

module _ {V : Type 0} (read : ℕ → V × Slots) (score : ℕ → Score) (n : ℕ) where
  -- What holds before each round, for the new rows that a round has collected.
  pub record Sound (s : Beam V) (new : List ℕ) : Type 0 where
    pub listed : IsListed n (rows s.cand ++ new) s.seen
    pub opened : AllIn s.expanded s.seen
    pub once : Nodup s.expanded
    pub counted : s.reads ≡ length s.expanded
    pub stored : (c : ℕ) → elem c s.expanded ≡ true → vec_of s.vecs c ≡ some (read c).0
    pub exact : All (λ h. h.score ≡ score h.row) s.cand
    pub ordered : Sorted better s.cand
    pub some_listed : 0 < length s.cand

  module _ (inside : (c : ℕ) → c < n → All (SlotBelow n) (read c).1) where
    visit-Sound :
        (s : Beam V) (new : List ℕ) (c : ℕ)
        → elem c s.seen ≡ true
        → elem c s.expanded ≡ false
        → Sound s new
        → let r = visit read (s, new) c in
          Sound r.0 r.1
          × ((x : ℕ) → elem x s.seen ≡ true → elem x r.0.seen ≡ true)
          × (r.0.expanded ≡ c ∷ s.expanded)
    unfolding visit vec_of
    visit-Sound s new c known fresh t =
        let lt = elem-All (λ e. e < n) c s.seen t.listed.below known in
        let more = collect-IsListed n (rows s.cand) (read c).1 s.seen new (inside c lt) t.listed in
        let other = AllIn-ne c s.expanded s.expanded (AllIn_self s.expanded) fresh in
        (
          record {
            listed = more.0;
            opened = (more.1 c known, All-map (λ x k. more.1 x k) s.expanded t.opened);
            once = (All-map (λ x k e. k (sym e)) s.expanded other, t.once);
            counted = ap suc t.counted;
            stored = λ x k. elim (Bool-cases (c == x)) [
              | inl same ↦ let eq : c ≡ x = ground arith in rw same (ap (λ i. some (read i).0) eq)
              | inr diff ↦ rw diff (t.stored x (ground arith))
            ];
            exact = t.exact;
            ordered = t.ordered;
            some_listed = t.some_listed;
          },
          more.1,
          refl,
        )

    visits-Sound :
        (batch : List ℕ) (s : Beam V) (new : List ℕ)
        → AllIn batch s.seen
        → All (λ c. elem c s.expanded ≡ false) batch
        → Nodup batch
        → Sound s new
        → let r = foldl (visit read) (s, new) batch in
          Sound r.0 r.1 × (length r.0.expanded ≡ length batch + length s.expanded)
    visits-Sound [] s new known fresh d t = (t, omega arith)
    visits-Sound (c ∷ batch) s new known fresh d t =
        let (here, grows, more) = visit-Sound s new c known.0 fresh.0 t in
        let r = visit read (s, new) c in
        let fresh' : All (λ x. elem x r.0.expanded ≡ false) batch =
          rw more (unseen batch d.0 fresh.1) in
        let rest =
          visits-Sound batch r.0 r.1 (All-map (λ x k. grows x k) batch known.1) fresh' d.1 here in
        (rest.0, omega (arith, rest.1, ap (length {A = ℕ}) more))
      where
        unseen :
            (xs : List ℕ)
            → All (λ y. c ≢ y) xs
            → All (λ x. elem x s.expanded ≡ false) xs
            → All (λ x. elem x (c ∷ s.expanded) ≡ false) xs
        unseen [] p q = tt
        unseen (x ∷ xs) p q = (ground (arith, p.0), unseen xs p.1 q.1)

    admit-kept :
        (l : ℕ) (s : Beam V) (new : List ℕ)
        → let s' = admit read score l (s, new) in
          (s'.seen ≡ s.seen)
          × (s'.expanded ≡ s.expanded)
          × (s'.reads ≡ s.reads)
          × (s'.vecs ≡ s.vecs)
    unfolding admit
    admit-kept l s [] = (refl, refl, refl, refl)
    admit-kept l s (c ∷ new) = (refl, refl, refl, refl)

    admit-Sound :
        (l : ℕ) (pos_l : 0 < l) (s : Beam V) (new : List ℕ)
        → Sound s new
        → Sound (admit read score l (s, new)) []
    admit-Sound l pos_l s new t =
        let s' = admit read score l (s, new) in
        let kept = admit-kept l s new in
        let row_id : Hit → ℕ = λ h. h.row in
        let IsSeen : ℕ → Type 0 = λ x. elem x s.seen ≡ true in
        record {
          listed =
              subst (λ xs. IsListed n xs s'.seen) (sym (append-nil (rows s'.cand)))
                (record {
                  below = rw kept.0 t.listed.below;
                  known = rw kept.0 (
                      All_to_map row_id IsSeen s'.cand (
                        admit-All read score l s new (λ h. IsSeen h.row)
                          (All_of_map row_id IsSeen s.cand
                            (All-append_left IsSeen (rows s.cand) new t.listed.known))
                          (All_to_map (scored score) (λ h. IsSeen h.row) new
                            (All-append_right IsSeen (rows s.cand) new t.listed.known))));
                  once = admit-once read score l s new t.listed.once;
                });
          opened = rw (kept.1, kept.0) t.opened;
          once = rw kept.1 t.once;
          counted = rw (kept.1, kept.2) t.counted;
          stored = rw (kept.1, kept.3) t.stored;
          exact =
              admit-All read score l s new (λ h. h.score ≡ score h.row) t.exact
                (All_to_map (scored score) (λ h. h.score ≡ score h.row) new
                  (All-everywhere _ (λ i. refl) new));
          ordered = admit-Sorted read score l s new t.ordered;
          some_listed = admit-some read score l s new pos_l t.some_listed;
        }

    batch-facts :
        (beam : ℕ) (s : Beam V)
        → Sound s []
        → let batch = batch_of beam s.expanded s.cand in
          AllIn batch s.seen × All (λ c. elem c s.expanded ≡ false) batch × Nodup batch
    unfolding batch_of
    batch-facts beam s t =
        let open_test : ℕ → Bool = λ c. not (elem c s.expanded) in
        let listed = append-nil (rows s.cand) in
        let known : AllIn (rows s.cand) s.seen =
          subst (λ xs. AllIn xs s.seen) listed t.listed.known in
        let left = filter open_test (rows s.cand) in
        (
          All-take _ beam left (All-filter _ open_test (rows s.cand) known),
          All-take _ beam left
              (All-map (λ c k. ground arith) left (All-filter_self open_test (rows s.cand))),
          Nodup-take beam left
              (Nodup-filter open_test (rows s.cand) (subst Nodup listed t.listed.once)),
        )

    batch-empty :
        (beam : ℕ) (s : Beam V)
        → 0 < beam
        → batch_of beam s.expanded s.cand ≡ []
        → AllIn (rows s.cand) s.expanded
    unfolding batch_of
    batch-empty zero s pos e = absurd (omega arith)
    batch-empty (suc beam) s pos e = none_open (rows s.cand) e
      where
        none_open :
            (xs : List ℕ)
            → take (suc beam) (filter (λ c. not (elem c s.expanded)) xs) ≡ []
            → AllIn xs s.expanded
        none_open [] e = tt
        none_open (x ∷ xs) e = elim (Bool-cases (elem x s.expanded)) [
          | inl old ↦ (old, none_open xs (rw old at e))
          | inr new ↦ absurd (let e' = rw new at e in cc)
        ]

    -- With a list of at least one place, and a round for each row that is not expanded and one more, the loop ends by its own test: then
    -- every listed row is expanded.
    pub rounds-end :
        (l beam : ℕ) (pos_l : 0 < l)
        → 0 < beam
        → (fuel : ℕ) (s : Beam V) → n < fuel + length s.expanded
        → Sound s []
        → (end : Beam V) × (rounds read score l beam fuel s ≡ some end)
          × Sound end []
          × AllIn (rows end.cand) end.expanded
    unfolding rounds
    rounds-end l beam pos_l pos zero s enough t =
        let below =
          All-map (λ x k. elem-All (λ e. e < n) x s.seen t.listed.below k) s.expanded t.opened in
        absurd (omega (arith, length-le_of_Nodup n s.expanded t.once below))
    rounds-end l beam pos_l pos (suc fuel) s enough t =
        elim (List-cases (batch_of beam s.expanded s.cand)) [
          | inl none_left ↦ (s, rw (rounds, none_left) refl, t, batch-empty beam s pos none_left)
          | inr (c, batch, e) ↦
              let facts =
                subst (λ xs. AllIn xs s.seen × All (λ c. elem c s.expanded ≡ false) xs × Nodup xs) e
                  (batch-facts beam s t) in
              let went = visits-Sound (c ∷ batch) s [] facts.0 facts.1 facts.2 t in
              let r = foldl (visit read) (s, []) (c ∷ batch) in
              let rest =
                rounds-end l beam pos_l pos fuel (admit read score l r)
                  (omega (arith, went.1, ap (length {A = ℕ}) (admit-kept l r.0 r.1).1))
                  (admit-Sound l pos_l r.0 r.1 went.0) in
              (rest.0, rw (rounds, e) rest.1, rest.2, rest.3)
        ]
