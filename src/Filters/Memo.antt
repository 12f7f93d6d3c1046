-- ===== src/Filters/Memo.antt =====
-- The memo of `mask` is transparent, and the memo of `count` is not.
use vector_retrieval_optimiz.Prelude.{
  ℕ, Bool, true, String, ◌≡◌, refl, List, [], ◌∷◌, foldl, ==_iff, Option, none, some, Result, ok,
  raise, value_error, guard, leb, length, length-take, >>=-eq-ok, ◌>>=◌, ◌>>◌, ◌&&◌, ◌==◌, str_eq,
  eq_iff, if◌then◌else◌, arith, Option-cases, inl, inr, Bool-cases,
}
use vector_retrieval_optimiz.Files.{Files, filter_file}
use vector_retrieval_optimiz.Filters.{
  Memo, is_filter, recall, read, remember, with_dir, mask, Counts, lookup_count, count,
}

module _ {ℓ} {V : Type ℓ} (files : Files V) where
  unfoldable pub read_in : Option String → String → ℕ → Result (Option (List Bool))
  unfolding read
  read_in none name n = raise value_error
  read_in (some dir) name n = do m ← read files dir name n; ok (some m)

  -- `mask` without the memo
  unfoldable pub mask_of : String → ℕ → Result (Option (List Bool))
  mask_of name n = do
    guard (is_filter name) value_error
    if str_eq name "none" then ok none else read_in files.data_dir name n

  length-read :
      (dir name : String) (n : ℕ) (m : List Bool) → read files dir name n ≡ ok m → length m ≡ n
  unfolding read
  length-read dir name n m h =
      let (a, got, rest) = >>=-eq-ok (files.load dir (filter_file name)) _ h in
      let (u, fits, cut) =
        >>=-eq-ok (guard (a.is_bool && a.ndim == 1 && leb n (length a.items)) value_error) _ rest in
      ground (arith, length-take n a.items)

  length-read_in :
      (dir : Option String) (name : String) (n : ℕ) (f : List Bool)
      → read_in dir name n ≡ ok (some f)
      → length f ≡ n
  unfolding read_in
  length-read_in none name n f h = cc
  length-read_in (some dir) name n f h =
      let (m, got, same) = >>=-eq-ok (read files dir name n) _ h in
      let e : m ≡ f = cc same in rw (← e) (length-read dir name n m got)

  -- a mask has as many entries as were asked for
  pub length-mask_of :
      (name : String) (n : ℕ) (f : List Bool) → mask_of name n ≡ ok (some f) → length f ≡ n
  unfolding mask_of
  length-mask_of name n f h = elim (Bool-cases (str_eq name "none")) [
    | inl unfiltered ↦ absurd (ground arith)
    | inr filtered ↦ length-read_in files.data_dir name n f (ground arith)
  ]

  -- without a filter there is no mask
  pub mask_of_unfiltered :
      (name : String) (n : ℕ) (r : Option (List Bool))
      → str_eq name "none" ≡ true
      → mask_of name n ≡ ok r
      → r ≡ none
  unfolding mask_of
  mask_of_unfiltered name n r e h = ground arith

  -- every entry is what a fresh read gives
  pub record IsFaithful (memo : Memo) : Type 0 where
    pub at_key :
        (dir name : String) (n : ℕ) (m : List Bool)
        → recall (dir, name, n) memo ≡ some m
        → read files dir name n ≡ ok m

  IsFaithful-cons :
      (dir name : String) (n : ℕ) (m : List Bool) (memo : Memo)
      → read files dir name n ≡ ok m
      → IsFaithful memo
      → IsFaithful (((dir, name, n), m) ∷ memo)
  unfolding recall
  IsFaithful-cons dir name n m memo e h = record {
    at_key = λ d j k b r. ground (arith, h.at_key d j k b, eq_iff dir d, eq_iff name j, e);
  }

  remember-read :
      (dir name : String) (n : ℕ) (memo : Memo) (m : List Bool)
      → IsFaithful memo
      → read files dir name n ≡ ok m
      → (memo' : Memo) × (remember files dir name n memo ≡ ok (m, memo')) × IsFaithful memo'
  unfolding remember
  remember-read dir name n memo m h e = elim (Option-cases (recall (dir, name, n) memo)) [
    | inl new ↦ (((dir, name, n), m) ∷ memo, ground arith, IsFaithful-cons dir name n m memo e h)
    | inr (b, old) ↦ (memo, ground (arith, h.at_key dir name n b old), h)
  ]

  with_dir-read_in :
      (dir : Option String) (name : String) (n : ℕ) (memo : Memo) {r : Option (List Bool)}
      → IsFaithful memo
      → read_in dir name n ≡ ok r
      → (memo' : Memo) × (with_dir files dir name n memo ≡ ok (r, memo')) × IsFaithful memo'
  unfolding with_dir read_in
  with_dir-read_in none name n memo h e = cc
  with_dir-read_in (some dir) name n memo h e =
      let (m, got, same) = >>=-eq-ok (read files dir name n) _ e in
      let (memo', kept, faithful) = remember-read dir name n memo m h got in
      (memo', rw kept (cc same), faithful)

  -- Whatever was asked before, a call of `mask` whose fresh read of the file succeeds returns what
  -- that read gives, and leaves a faithful memo.
  pub mask-mask_of :
      (name : String) (n : ℕ) (memo : Memo) {r : Option (List Bool)}
      → IsFaithful memo
      → mask_of name n ≡ ok r
      → (memo' : Memo) × (mask files name n memo ≡ ok (r, memo')) × IsFaithful memo'
  unfolding mask mask_of
  mask-mask_of name n memo {r} h e = elim (Bool-cases (str_eq name "none")) [
    | inl unfiltered ↦ (memo, ground arith, h)
    | inr filtered ↦
        let (memo', got, faithful) =
          with_dir-read_in files.data_dir name n memo {r = r} h (ground arith) in
        (memo', ground arith, faithful)
  ]

-- the memo of `count` after calls for masks at addresses
abbrev pub counted : Counts → List (ℕ × List Bool) → Counts
counted = foldl (λ (counts : Counts) (call : ℕ × List Bool). (count call.0 call.1 counts).1)

-- a call answers with what the memo then holds at the address
count-stores :
    (address : ℕ) (m : List Bool) (counts : Counts)
    → lookup_count address (count address m counts).1 ≡ some (count address m counts).0
unfolding count
count-stores address m counts = elim (Option-cases (lookup_count address counts)) [
  | inl new ↦ rw (count, new) (ground (arith, ==_iff address address))
  | inr (c, old) ↦ rw (count, old) old
]

-- what the memo holds at an address, it keeps
count-keeps :
    (address other c : ℕ) (m : List Bool) (counts : Counts)
    → lookup_count address counts ≡ some c
    → lookup_count address (count other m counts).1 ≡ some c
unfolding count
count-keeps address other c m counts h = elim (Option-cases (lookup_count other counts)) [
  | inr (d, old) ↦ rw (count, old) h
  | inl new ↦ elim (Bool-cases (other == address)) [
    | inl same ↦
        let e : other ≡ address = ground arith in absurd (let h' = rw (← e) at h in cc (new, h'))
    | inr apart ↦ rw (count, new, apart) h
  ]
]

counted-keeps :
    (calls : List (ℕ × List Bool)) (address c : ℕ) (counts : Counts)
    → lookup_count address counts ≡ some c
    → lookup_count address (counted counts calls) ≡ some c
counted-keeps [] address c counts h = h
counted-keeps ((other, m) ∷ calls) address c counts h =
    counted-keeps calls address c (count other m counts).1 (count-keeps address other c m counts h)

-- The memo of `count` goes by the address of the array: once a call has counted a mask at an address, a
-- call for any mask at that address, after any calls in between, gets the first mask's count.
pub count_stale :
    (address : ℕ) (m m' : List Bool) (counts : Counts) (calls : List (ℕ × List Bool))
    → (count address m' (counted (count address m counts).1 calls)).0 ≡ (count address m counts).0
unfolding count
count_stale address m m' counts calls =
    let held =
      counted-keeps calls address (count address m counts).0 (count address m counts).1
        (count-stores address m counts) in
    answer (counted (count address m counts).1 calls) held
  where
    answer :
        (later : Counts)
        → lookup_count address later ≡ some (count address m counts).0
        → (count address m' later).0 ≡ (count address m counts).0
    answer later held = rw (count, held) refl
