-- ===== src/Diskann/Search/Answers.antt =====
-- What `search` of diskann.py answers.
use mathlib.Core.List.{append-nil}
use mathlib.Core.Path.{subst}
use vector_retrieval_optimiz.Prelude.{
  ℕ, zero, suc, ◌+◌, ◌≤◌, ◌<◌, ◌≡◌, refl, ap, ◌∙◌, sym, true, List, [], ◌∷◌, map, foldl, some,
  Result, ok, ==_iff, length, length-take, length-map, map-take, take, elem, List-cases, All,
  All-map, All-take, max, arith, inl, inr,
}
use vector_retrieval_optimiz.Prelude.Ranges.{Nodup, map-map}
use vector_retrieval_optimiz.Prelude.Arrays.{map_id}
use vector_retrieval_optimiz.Prelude.Sorting.{
  Sorted, Sorted-take, sort_by, sort_by-Sorted, All-sort_by,
}
use vector_retrieval_optimiz.Prelude.Distinct.{
  AllIn, Nodup-take, Nodup-sort_by, All_of_map, elem-All, length-le_of_Nodup,
}
use vector_retrieval_optimiz.Numpy.{Numpy, Score, Hit, better}
use vector_retrieval_optimiz.Distance.Best.{better-StrictWeak}
use vector_retrieval_optimiz.Diskann.{Slots}
use vector_retrieval_optimiz.Diskann.Search.{
  Beam, vec_of, exact_hit, fetch, rank, entered, search_with,
}
use vector_retrieval_optimiz.Diskann.Search.Listed.{rows, SlotBelow}
use vector_retrieval_optimiz.Diskann.Search.Rounds.{Sound, rounds-end}

module _ (np : Numpy) (read : ℕ → np.Vec × Slots) (score : ℕ → Score) (n : ℕ)
    (inside : (c : ℕ) → c < n → All (SlotBelow n) (read c).1) (query : np.Vec) where
  open np use {Vec, zero_vec, dot}

  -- the score that a row is answered with
  abbrev pub final_score : ℕ → ℕ → Score
  final_score zero c = score c
  final_score (suc rerank) c = dot (read c).0 query

  -- At most k rows of the index, each once, in the order of the scores, with one read for each row that
  -- was expanded and none for the ranking.
  pub record IsAnswer (k rerank : ℕ) (hits : List Hit) (s : Beam Vec) : Type 0 where
    pub few : length hits ≤ k
    pub sorted : Sorted better hits
    pub distinct : Nodup (rows hits)
    pub exact : All (λ h. (h.score ≡ final_score rerank h.row) × (h.row < n)) hits
    pub reads_eq : s.reads ≡ length s.expanded
    pub reads_le : s.reads ≤ n

  fetch-all :
      (s : Beam Vec)
      → ((c : ℕ) → elem c s.expanded ≡ true → vec_of s.vecs c ≡ some (read c).0)
      → (top : List ℕ) → AllIn top s.expanded
      → foldl (fetch read) s top ≡ s
  unfolding fetch
  fetch-all s stored [] h = refl
  fetch-all s stored (c ∷ top) h =
      let one : fetch read s c ≡ s = rw (fetch, stored c h.0) refl in
      rw one (fetch-all s stored top h.1)

  exact_hits :
      (s : Beam Vec)
      → ((c : ℕ) → elem c s.expanded ≡ true → vec_of s.vecs c ≡ some (read c).0)
      → (top : List ℕ) → AllIn top s.expanded
      → All (λ c. c < n) top
      → All
          (λ h. (h.score ≡ dot (read h.row).0 query) × (h.row < n))
          (map (exact_hit np s.vecs query) top)
  exact_hits s stored [] h b = tt
  exact_hits s stored (c ∷ top) h b =
      ((rw (stored c h.0) refl, b.0), exact_hits s stored top h.1 b.1)

  expanded_below : (s : Beam Vec) → Sound read score n s [] → All (λ c. c < n) s.expanded
  expanded_below s t =
      All-map (λ c k. elem-All (λ e. e < n) c s.seen t.listed.below k) s.expanded t.opened

  reads-le : (s : Beam Vec) → Sound read score n s [] → s.reads ≤ n
  reads-le s t =
      omega (arith, t.counted, length-le_of_Nodup n s.expanded t.once (expanded_below s t))

  listed_below :
      (s : Beam Vec)
      → Sound read score n s []
      → AllIn (rows s.cand) s.expanded
      → All (λ c. c < n) (rows s.cand)
  listed_below s t known =
      All-map (λ c k. elem-All (λ e. e < n) c s.expanded (expanded_below s t) k) (rows s.cand) known

  first-IsAnswer :
      (k : ℕ) (s : Beam Vec)
      → Sound read score n s []
      → AllIn (rows s.cand) s.expanded
      → IsAnswer k 0 (take k s.cand) s
  first-IsAnswer k s t known = record {
    few = omega (arith, length-take k s.cand);
    sorted = Sorted-take better k s.cand t.ordered;
    distinct =
        rw (map-take (λ (h : Hit). h.row) k s.cand)
          (Nodup-take k (rows s.cand) (subst Nodup (append-nil (rows s.cand)) t.listed.once));
    exact = All-take _ k s.cand (
        All-and s.cand t.exact
          (All_of_map (λ (h : Hit). h.row) (λ c. c < n) s.cand (listed_below s t known)));
    reads_eq = t.counted;
    reads_le = reads-le s t;
  }
    where
      All-and :
          (hs : List Hit)
          → All (λ h. h.score ≡ score h.row) hs
          → All (λ h. h.row < n) hs
          → All (λ h. (h.score ≡ score h.row) × (h.row < n)) hs
      All-and [] a b = tt
      All-and (h ∷ hs) a b = ((a.0, b.0), All-and hs a.1 b.1)

  exact-IsAnswer :
      (k rerank m : ℕ) (s : Beam Vec) (top : List ℕ)
      → Sound read score n s []
      → AllIn top s.expanded
      → Nodup top
      → IsAnswer k
          (suc rerank)
          (take k (sort_by better (map (exact_hit np s.vecs query) top)))
          (record s { ndist = m })
  exact-IsAnswer k rerank m s top t known once =
      let hits = map (exact_hit np s.vecs query) top in
      let below =
        All-map (λ c j. elem-All (λ e. e < n) c s.expanded (expanded_below s t) j) top known in
      let same : rows hits ≡ top =
        map-map (λ (h : Hit). h.row) (exact_hit np s.vecs query) top ∙ map_id top in
      record {
        few = omega (arith, length-take k (sort_by better hits));
        sorted = Sorted-take better k (sort_by better hits) (sort_by-Sorted better-StrictWeak hits);
        distinct = rw (map-take (λ (h : Hit). h.row) k (sort_by better hits)) (
            Nodup-take k _
              (Nodup-sort_by better (λ (h : Hit). h.row) hits (subst Nodup (sym same) once)));
        exact =
            All-take _ k (sort_by better hits)
              (All-sort_by better _ hits (exact_hits s t.stored top known below));
        reads_eq = t.counted;
        reads_le = reads-le s t;
      }

  rank-IsAnswer :
      (k rerank : ℕ) (s : Beam Vec)
      → Sound read score n s []
      → AllIn (rows s.cand) s.expanded
      → (out : List Hit × Beam Vec) × (rank np read query k rerank s ≡ ok out)
        × IsAnswer k rerank out.0 out.1
  unfolding rank
  rank-IsAnswer k zero s t known = (_, refl, first-IsAnswer k s t known)
  rank-IsAnswer k (suc rerank) s t known = elim (List-cases (rows (take (suc rerank) s.cand))) [
    | inl none_left ↦ absurd (
        omega (
          arith,
          ap (length {A = ℕ}) none_left,
          length-map (λ (h : Hit). h.row) (take (suc rerank) s.cand),
          length-take (suc rerank) s.cand,
          t.some_listed,
        ))
    | inr (c, top, e) ↦
        let cut = map-take (λ (h : Hit). h.row) (suc rerank) s.cand in
        let facts =
          subst (λ xs. AllIn xs s.expanded × Nodup xs) (sym cut ∙ e)
            (
              All-take _ (suc rerank) (rows s.cand) known,
              Nodup-take (suc rerank) (rows s.cand)
                  (subst Nodup (append-nil (rows s.cand)) t.listed.once),
            ) in
        let kept = fetch-all s t.stored (c ∷ top) facts.0 in
        let m = s.ndist + length (c ∷ top) in
        (
          (
            take k (sort_by better (map (exact_hit np s.vecs query) (c ∷ top))),
            record s { ndist = m },
          ),
          rw (rank, e)
              (ap
                (λ (b : Beam Vec).
                  let r : Result (List Hit × Beam Vec) = ok (
                    take k (sort_by better (map (exact_hit np b.vecs query) (c ∷ top))),
                    record b { ndist = b.ndist + length (c ∷ top) },
                  ) in
                  r)
                kept),
          exact-IsAnswer k rerank m s (c ∷ top) t facts.0 facts.1,
        )
  ]

  entered-Sound : (entry : ℕ) → entry < n → Sound read score n (entered read score entry) []
  unfolding entered
  entered-Sound entry lt = record {
    listed = record {
      below = (lt, tt);
      known = (ground (arith, ==_iff entry entry), tt);
      once = (tt, tt);
    };
    opened = tt;
    once = tt;
    counted = refl;
    stored = λ c k. absurd (cc k);
    exact = (refl, tt);
    ordered = (tt, tt);
    some_listed = omega arith;
  }

  -- Where the records name rows of the index, and so does the entry point, and l or k is not 0, the
  -- search ends within its rounds and raises nothing: it answers with at most k distinct rows in the
  -- order of their scores, which are the exact dot products with the rows in the records, or with
  -- rerank 0 the scores of the codes. It reads each expanded record once, none for the ranking, and no
  -- more records than there are rows.
  pub search_with-IsAnswer :
      (entry k l beam rerank : ℕ)
      → entry < n
      → 0 < max l k
      → (out : List Hit × Beam Vec) × (search_with np read score n entry query k l beam rerank
          ≡ some (ok out))
        × IsAnswer k rerank out.0 out.1
  unfolding search_with
  search_with-IsAnswer entry k l beam rerank lt pos =
      let start = entered read score entry in
      let ended =
        rounds-end read score n inside (max l k) (max 1 beam) pos (omega arith) (suc n) start
          (omega arith) (entered-Sound entry lt) in
      let ranked = rank-IsAnswer k rerank ended.0 ended.2 ended.3 in
      (ranked.0, rw (search_with, ended.1) (ap some ranked.1), ranked.2)
