-- ===== src/Vro/Tombstones.antt =====
-- `pack_tombstones` and `unpack_tombstones`. numpy's packbits and unpackbits with bitorder="little":
-- bit i of a byte, lowest first, is entry i of its eight.
pub mod Roundtrip
use vector_retrieval_optimiz.Prelude.{
  ℕ, zero, suc, ◌+◌, ◌*◌, ◌/◌, ◌%◌, Bool, true, false, ◌||◌, Option, none, some, List, [], ◌∷◌,
  ◌++◌, ◌==◌, length, take, drop, replicate, if◌then◌else◌,
}

unfoldable pub byte_of : List Bool → ℕ
byte_of [] = 0
byte_of (b ∷ bs) = (if b then 1 else 0) + 2 * byte_of bs

unfoldable pub bits_of : ℕ → ℕ → List Bool
bits_of zero x = []
bits_of (suc k) x = (x % 2 == 1) ∷ bits_of k (x / 2)

-- np.packbits into a number of bytes
unfoldable pub packbits : ℕ → List Bool → List ℕ
packbits zero bs = []
packbits (suc c) bs = byte_of (take 8 bs) ∷ packbits c (drop 8 bs)

-- np.unpackbits, all bits; a count beyond them pads with zeros
unfoldable pub unpackbits : List ℕ → List Bool
unpackbits [] = []
unpackbits (x ∷ xs) = bits_of 8 x ++ unpackbits xs

-- dead.any()
unfoldable pub any_set : List Bool → Bool
any_set [] = false
any_set (b ∷ bs) = b || any_set bs

unfoldable pub pack_tombstones : Option (List Bool) → ℕ → List ℕ
pack_tombstones none n = replicate ((n + 7) / 8) 0
pack_tombstones (some dead) n = let kept = take n dead in packbits ((length kept + 7) / 8) kept

unfoldable pub unpack_tombstones : List ℕ → ℕ → Option (List Bool)
unpack_tombstones bits n =
    let dead = take n (unpackbits bits ++ replicate n false) in
    if any_set dead then some dead else none
