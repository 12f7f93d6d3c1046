-- ===== src/Hnsw/Edits/Live.antt =====
-- `search` of hnsw.py after `delete`: no deleted row is answered.
use mathlib.Core.Path.{ap₂, subst}
use vector_retrieval_optimiz.Prelude.{
  ℕ, zero, suc, ◌≤◌, ◌<◌, ◌≡◌, refl, ◌∙◌, sym, ap, Bool, true, false, String, List, [], ◌∷◌, Option,
  some, Result, ok, ◌>>=◌, >>=-eq-ok, length, get_or, arith, replicate, ◌==◌, str_eq, Bool-cases,
  inl, inr,
}
use vector_retrieval_optimiz.Numpy.{Numpy}
use vector_retrieval_optimiz.Distance.{Ranking}
use vector_retrieval_optimiz.Files.{Files}
use vector_retrieval_optimiz.Flat.{cached, and_not, or_else, through}
use vector_retrieval_optimiz.Hnsw.Index.{Index, allow, allow_mask, filter_of, search_masked, search}
use vector_retrieval_optimiz.Hnsw.Index.Answers.{IsAnswer, InRange, search_masked-IsAnswer}
use vector_retrieval_optimiz.Hnsw.Edits.{delete}

and_not-live :
    (bs ds : List Bool) (i : ℕ) → get_or (and_not bs ds) i false ≡ true → get_or ds i false ≡ false
and_not-live [] ds i h = cc
and_not-live (b ∷ bs) [] i h = refl
and_not-live (b ∷ bs) (d ∷ ds) zero h = ground arith
and_not-live (b ∷ bs) (d ∷ ds) (suc i) h = and_not-live bs ds i h

-- no row of the mask is deleted
abbrev pub Spares : List Bool → List Bool → Type 0
Spares dead mask = (i : ℕ) → get_or mask i false ≡ true → get_or dead i false ≡ false

-- what a call returned
ok-inj {ℓ} : {A : Type ℓ} (a b : A) → ok a ≡ ok b → a ≡ b
ok-inj a b e = cc

module _ (np : Numpy) (files : Files np.Vec) (index : Index np.Vec) (dead : List Bool) where
  abbrev Masked : Option (List Bool) × Index np.Vec → Type 0
  Masked (m, index') =
      (mask : List Bool) × (m ≡ some mask)
      × Spares dead mask
      × (cache : List (String × List Bool)) × (index'
          ≡ record (delete index dead) { allow = cache })

  allow-delete :
      (name : String) (r : Option (List Bool) × Index np.Vec)
      → allow np files (delete index dead) name ≡ ok r
      → Masked r
  unfolding allow delete cached allow_mask
  allow-delete name r e =
      let asked : Result (Option (List Bool)) = filter_of np files (delete index dead) name in
      let answer : Option (List Bool) → Option (List Bool) × Index np.Vec = λ fm.
        let mask = allow_mask np (delete index dead) fm in
        (some mask, record (delete index dead) { allow = (name, mask) ∷ [] }) in
      let chain : (asked >>= λ fm. ok (answer fm)) ≡ ok r = elim (Bool-cases (str_eq name "none")) [
        | inl plain ↦ rw plain at e
        | inr named ↦ rw named at e
      ] in
      let (fm, got, last) = >>=-eq-ok asked (λ fm. ok (answer fm)) chain in
      subst Masked (ok-inj (answer fm) r last) (made fm)
    where
      made :
          (fm : Option (List Bool))
          → let mask = allow_mask np (delete index dead) fm in
            Masked (some mask, record (delete index dead) { allow = (name, mask) ∷ [] })
      made fm = (
        _,
        refl,
        and_not-live (or_else (through index.id_map fm) (replicate (length index.v) true)) dead,
        _,
        refl,
      )

  -- After a delete, whatever the filter, a search that returns answers with rows that are not deleted:
  -- at most k hits in the order of the scores, each with its own score for the query, then padding.
  pub search-delete-IsAnswer :
      InRange np index
      → (query : np.Vec) (k ef : ℕ) (name : String) (out : Ranking) (index' : Index np.Vec) → 1 ≤ k
      → search np files (delete index dead) query k ef name ≡ ok (out, index')
      → (mask : List Bool) × Spares dead mask × IsAnswer np index query k (some mask) out
  unfolding search delete
  search-delete-IsAnswer ok_rows query k ef name out index' pos e =
      let chain : (allow np files (delete index dead) name >>= λ p.
      ok (search_masked np p.1 query k ef p.0))
          ≡ ok (out, index') =
        rw (not_zero index.v ok_rows.1) at e in
      let (p, got, last) = >>=-eq-ok (allow np files (delete index dead) name) _ chain in
      let (mask, some_mask, spares, cache, same) = allow-delete name p got in
      let found : Index np.Vec = record (delete index dead) { allow = cache } in
      let answer : (search_masked np found query k ef (some mask)).0 ≡ out =
        ap₂ (λ (i : Index np.Vec) (o : Option (List Bool)). (search_masked np i query k ef o).0)
          (sym same) (sym some_mask)
        ∙ ap (λ (r : Ranking × Index np.Vec). r.0) (ok-inj _ _ last) in
      let right = search_masked-IsAnswer np found query ok_rows k ef (some mask) pos in
      (
        mask,
        spares,
        subst (IsAnswer np index query k (some mask)) answer (record {
          best = right.best;
          few = right.few;
          sorted = right.sorted;
          hits = right.hits;
          ids_eq = right.ids_eq;
          scores_eq = right.scores_eq;
        }),
      )
    where
      not_zero : (v : List np.Vec) → index.entry < length v → (length v == 0) ≡ false
      not_zero v l = ground arith
