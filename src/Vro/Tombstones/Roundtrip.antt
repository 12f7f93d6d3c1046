-- ===== src/Vro/Tombstones/Roundtrip.antt =====
-- Unpacking the packed tombstones gives them back.
use mathlib.Core.List.{append-nil, append_assoc}
use vector_retrieval_optimiz.Prelude.{
  ℕ, zero, suc, ◌+◌, ◌-◌, ◌*◌, ◌/◌, ◌≡◌, refl, ap, sym, ◌∙◌, Bool, false, none, some, List, [], ◌∷◌,
  ◌++◌, take, drop, replicate, length, if◌then◌else◌, arith, take_of_length-le, length-take,
  drop_of_length-le, take-append-drop, length-drop, replicate-add, dec_lt, take-append_self,
}
use vector_retrieval_optimiz.Vro.Tombstones.{
  byte_of, bits_of, packbits, unpackbits, any_set, pack_tombstones, unpack_tombstones,
}

bits_of-zero : (k : ℕ) → bits_of k 0 ≡ replicate k false
unfolding bits_of
bits_of-zero zero = refl
bits_of-zero (suc k) = ap (◌∷◌ false) (bits_of-zero k)

-- the bits of a byte are its entries, filled up with zeros
bits_of-byte_of :
    (bs : List Bool) (z k : ℕ)
    → k ≡ length bs + z
    → bits_of k (byte_of bs) ≡ bs ++ replicate z false
unfolding bits_of byte_of
bits_of-byte_of [] z k e = bits_of-zero k ∙ ap (λ (n : ℕ). replicate n false) (omega arith)
bits_of-byte_of (b ∷ bs) z zero e = absurd (omega arith)
bits_of-byte_of (b ∷ bs) z (suc k) e =
    let half : ((if b then 1 else 0) + 2 * byte_of bs) / 2 ≡ byte_of bs = ground arith in
    rw half (ground (arith, bits_of-byte_of bs z k (omega arith)))

unpackbits-packbits :
    (c : ℕ) (bs : List Bool) (z : ℕ)
    → 8 * c ≡ length bs + z
    → unpackbits (packbits c bs) ≡ bs ++ replicate z false
unfolding unpackbits packbits
unpackbits-packbits zero [] z e = ap (λ (n : ℕ). replicate n false) {x = 0} (omega arith)
unpackbits-packbits zero (b ∷ bs) z e = absurd (omega arith)
unpackbits-packbits (suc c) bs z e = elim (dec_lt 8 (length bs)) [
  | yes h ↦
      rw
        (
          bits_of-byte_of (take 8 bs) 0 8 (omega (arith, length-take 8 bs)),
          unpackbits-packbits c (drop 8 bs) z (omega (arith, length-drop 8 bs)),
        )
        (simp (append-nil, ← append_assoc, take-append-drop))
  | no h ↦
      rw
        (
          take_of_length-le 8 bs (omega arith),
          drop_of_length-le 8 bs (omega arith),
          bits_of-byte_of bs (8 - length bs) 8 (omega arith),
          unpackbits-packbits c [] (8 * c) (omega arith),
        )
        (append_assoc bs (replicate (8 - length bs) false) (replicate (8 * c) false)
          ∙ ap (◌++◌ bs) (
              replicate-add (8 - length bs) (8 * c) false
              ∙ ap (λ (n : ℕ). replicate n false) (omega arith)))
]

packbits-nil : (c : ℕ) → replicate c 0 ≡ packbits c []
unfolding packbits byte_of
packbits-nil zero = refl
packbits-nil (suc c) = ap (◌∷◌ 0) (packbits-nil c)

packed_zeros : (c : ℕ) → unpackbits (replicate c 0) ≡ unpackbits (packbits c [])
packed_zeros c = ap unpackbits (packbits-nil c)

any_set_zeros : (n k : ℕ) → any_set (take n (replicate k false)) ≡ false
unfolding any_set
any_set_zeros zero k = refl
any_set_zeros (suc n) zero = refl
any_set_zeros (suc n) (suc k) = any_set_zeros n k

-- Packing tombstones and unpacking them gives them back; `None` and a mask with no bit set both
-- come back as `None`.
pub unpack-pack :
    (dead : List Bool) (n : ℕ)
    → length dead ≡ n
    → (unpack_tombstones (pack_tombstones (some dead) n) n
        ≡ (if any_set dead then some dead else none))
      × (unpack_tombstones (pack_tombstones none n) n ≡ none)
unfolding unpack_tombstones pack_tombstones
unpack-pack dead n e =
    let c = (n + 7) / 8 in
    let b = unpackbits-packbits c dead (8 * c - n) (omega arith) in
    let t : take n (dead ++ replicate (8 * c - n) false ++ replicate n false) ≡ dead =
      ap (take n) (append_assoc dead _ _)
      ∙ ap (λ (k : ℕ). take k (dead ++ (replicate (8 * c - n) false ++ replicate n false))) (sym e)
      ∙ take-append_self dead _ in
    let z = packed_zeros c ∙ unpackbits-packbits c [] (8 * c) (omega arith) in
    (
      rw (take_of_length-le n dead (omega arith), e, b, t) refl,
      rw (z, replicate-add (8 * c) n false, any_set_zeros n (8 * c + n)) refl,
    )
