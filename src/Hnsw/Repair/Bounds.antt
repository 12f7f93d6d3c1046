-- ===== src/Hnsw/Repair/Bounds.antt =====
-- The repair pass of hnsw.py keeps the lists within their caps and the rows.
use vector_retrieval_optimiz.Prelude.{
  ℕ, zero, suc, ◌+◌, ◌≤◌, ◌<◌, ◌≡◌, refl, ◌∙◌, Bool, true, false, ◌||◌, List, [], ◌∷◌, ◌++◌, map,
  foldl, Option, ltb, ◌==◌, if◌then◌else◌, length, length-append, length-set, length-replicate,
  length-map, get_or, All, All-map, All-filter, All-append, arith, Bool-cases, Option-cases,
  List-cases, inl, inr, replicate, range_from, elem,
}
use vector_retrieval_optimiz.Prelude.Arrays.{flatnonzero, flatnonzero_from}
use vector_retrieval_optimiz.Prelude.Ranges.{range_from-bound}
use vector_retrieval_optimiz.Numpy.{Numpy}
use vector_retrieval_optimiz.Hnsw.{Layer, Adjacency, list_of, links, cap}
use vector_retrieval_optimiz.Hnsw.Select.Picks.{select_bounds}
use vector_retrieval_optimiz.Hnsw.Graph.{scored_to}
use vector_retrieval_optimiz.Hnsw.Graph.Bounded.{
  AllBounded, set_links-AllBounded, scored_to-rows, cap-pos,
}
use vector_retrieval_optimiz.Hnsw.Repair.{
  bump, in_degree0, is_dead, unreachable0, Edges, kept_of, Repair, nearest_from_entry,
  add_protected, source_a, repair_a, free_or_first, repair_b, step_a, repair_pass, repair_passes,
  repair,
}

length-in_degree0 : (layer : Layer) (n : ℕ) → length (in_degree0 layer n) ≡ n
unfolding in_degree0 bump
length-in_degree0 layer n = over_layer layer (replicate n 0) ∙ length-replicate n 0
  where
    over_list : (es deg : List ℕ) → length (foldl bump deg es) ≡ length deg
    over_list [] deg = refl
    over_list (e ∷ es) deg = over_list es (bump deg e) ∙ length-set deg e (suc (get_or deg e 0))

    over_layer :
        (layer : Layer) (deg : List ℕ)
        → length (foldl (λ deg nb. foldl bump deg (list_of nb)) deg layer) ≡ length deg
    over_layer [] deg = refl
    over_layer (nb ∷ layer) deg =
        over_layer layer (foldl bump deg (list_of nb)) ∙ over_list (list_of nb) deg

flatnonzero_from-lt :
    (a : ℕ) (ms : List Bool) → All (λ x. x < a + length ms) (flatnonzero_from a ms)
flatnonzero_from-lt a [] = tt
flatnonzero_from-lt a (b ∷ ms) =
    let rest =
      All-map (λ x k. omega arith) (flatnonzero_from (suc a) ms) (flatnonzero_from-lt (suc a) ms) in
    elim b
      as (λ b.
        All (λ x. x < a + suc (length ms))
          (if b then a ∷ flatnonzero_from (suc a) ms else flatnonzero_from (suc a) ms)) [
            | true ↦ (omega arith, rest)
            | false ↦ rest
          ]

module _ (np : Numpy) (v : List np.Vec) (m : ℕ) (pos : 1 ≤ m) where
  add_protected-AllBounded :
      (adj : Adjacency) (protected : Edges) (u x : ℕ)
      → x < length v
      → AllBounded np v m adj
      → AllBounded np v m (add_protected np v m adj protected u x).1
  unfolding add_protected
  add_protected-AllBounded adj protected u x lx b =
      let nb = links adj 0 u in
      let grown : All (λ j. j < length v) (nb ++ x ∷ []) =
        All-append (λ j. j < length v) nb (x ∷ []) (b 0 u).1 (lx, tt) in
      elim (Bool-cases (elem x nb)) [
        | inl there ↦ rw (add_protected, there) b
        | inr fresh ↦ elim (Bool-cases (ltb (length nb) (cap m 0))) [
          | inl room ↦
              rw (add_protected, fresh, room)
                (set_links-AllBounded np v m adj 0 u (nb ++ x ∷ []) b
                  (ground (arith, length-append nb (x ∷ []), room), grown))
          | inr full ↦
              rw (add_protected, fresh, full)
                (set_links-AllBounded np v m adj 0 u _ b (
                  select_bounds np v (λ j. j < length v) (scored_to np v m u (nb ++ x ∷ []))
                    (cap m 0) (kept_of ((u, x) ∷ protected) u) (cap-pos np v m 0 pos)
                    (scored_to-rows np v m u (nb ++ x ∷ []) grown)))
        ]
      ]

  module _ (entry top ef_c : ℕ) where
    repair_a-AllBounded :
        (dead : Option (List Bool)) (r : Repair) (x : ℕ)
        → x < length v
        → AllBounded np v m r.adj
        → AllBounded np v m (repair_a np v m entry top ef_c dead r x).adj
    unfolding repair_a
    repair_a-AllBounded dead r x lx b = elim (Bool-cases (x == entry || is_dead dead x)) [
      | inl skip ↦ rw (repair_a, skip) b
      | inr take ↦ elim (Option-cases (source_a np v m r.adj entry top ef_c x)) [
        | inl e ↦ rw (repair_a, take, e) b
        | inr (u, e) ↦ rw (repair_a, take, e) (add_protected-AllBounded r.adj r.protected u x lx b)
      ]
    ]

    repair_b-AllBounded :
        (r : Repair) (x : ℕ)
        → x < length v
        → AllBounded np v m r.adj
        → AllBounded np v m (repair_b np v m entry top ef_c r x).adj
    unfolding repair_b
    repair_b-AllBounded r x lx b =
        elim (List-cases (nearest_from_entry np v m r.adj x entry top ef_c)) [
          | inl e ↦ rw (repair_b, e) b
          | inr (u, near, e) ↦
              rw (repair_b, e)
                (add_protected-AllBounded r.adj r.protected
                  (free_or_first np v m r.adj u (u ∷ near)) x lx b)
        ]

    foldl-repair-AllBounded :
        (round : Repair → ℕ → Repair)
        → ((r : Repair) (x : ℕ)
            → x < length v
            → AllBounded np v m r.adj
            → AllBounded np v m (round r x).adj)
        → (xs : List ℕ) (r : Repair) → All (λ x. x < length v) xs
        → AllBounded np v m r.adj
        → AllBounded np v m (foldl round r xs).adj
    foldl-repair-AllBounded round keep [] r a b = b
    foldl-repair-AllBounded round keep (x ∷ xs) r a b =
        foldl-repair-AllBounded round keep xs (round r x) a.1 (keep r x a.0 b)

    repair_pass-AllBounded :
        (n : ℕ) (dead : Option (List Bool)) (r : Repair)
        → n ≤ length v
        → AllBounded np v m r.adj
        → AllBounded np v m (repair_pass np v m n entry top ef_c dead r).0.adj
    unfolding repair_pass step_a unreachable0
    repair_pass-AllBounded n dead r ln b =
        let deg = in_degree0 (get_or r.adj 0 []) n in
        let isolated = flatnonzero (map (λ d. d == 0) deg) in
        let size : length (map (λ d. d == 0) deg) ≡ n =
          length-map (λ d. d == 0) deg ∙ length-in_degree0 (get_or r.adj 0 []) n in
        let in_rows : All (λ x. x < length v) isolated =
          All-map (λ x k. omega (arith, k, size, ln)) isolated
            (flatnonzero_from-lt 0 (map (λ d. d == 0) deg)) in
        foldl-repair-AllBounded (repair_b np v m entry top ef_c) repair_b-AllBounded
          (unreachable0 (links (step_a np v m n entry top ef_c dead r).adj 0) n entry dead)
          (step_a np v m n entry top ef_c dead r)
          (All-filter (λ x. x < length v) _ (range_from 0 n)
            (range_from-bound 0 n (length v) (omega arith)))
          (foldl-repair-AllBounded (repair_a np v m entry top ef_c dead) (repair_a-AllBounded dead)
            isolated r in_rows b)

    repair_passes-AllBounded :
        (passes n : ℕ) (dead : Option (List Bool)) (r : Repair)
        → n ≤ length v
        → AllBounded np v m r.adj
        → AllBounded np v m (repair_passes np v m passes n entry top ef_c dead r).adj
    unfolding repair_passes
    repair_passes-AllBounded zero n dead r ln b = b
    repair_passes-AllBounded (suc passes) n dead r ln b =
        let kept = repair_pass-AllBounded n dead r ln b in
        elim (List-cases (repair_pass np v m n entry top ef_c dead r).1) [
          | inl e ↦ rw (repair_passes, e) kept
          | inr (x, xs, e) ↦
              rw (repair_passes, e)
                (repair_passes-AllBounded passes n dead
                  (repair_pass np v m n entry top ef_c dead r).0 ln kept)
        ]

    -- The repair pass keeps every list within its cap and the rows.
    pub repair-AllBounded :
        (adj : Adjacency) (n : ℕ) (dead : Option (List Bool))
        → n ≤ length v
        → AllBounded np v m adj
        → AllBounded np v m (repair np v m adj n entry top ef_c dead).adj
    unfolding repair
    repair-AllBounded adj n dead ln b =
        let blank : Repair = record { adj = adj; protected = []; added_a = 0; added_b = 0 } in
        elim (Bool-cases (n == 0)) [
          | inl nothing ↦ rw (repair, nothing) b
          | inr rows ↦ rw (repair, rows) (repair_passes-AllBounded 3 n dead blank ln b)
        ]
