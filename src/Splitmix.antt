-- ===== src/Splitmix.antt =====
-- indexes/python/splitmix.py: the SplitMix64 generator. A Python integer under `& MASK` is the number
-- modulo 2 ^ 64. A call returns the number beside the new state.
pub mod Bounds
use Prim.Native.Nat.{bit_xor}
use vector_retrieval_optimiz.Prelude.{ℕ, ◌+◌, ◌*◌, ◌/◌, ◌%◌, ◌^◌}

-- MASK + 1
abbrev pub modulus : ℕ
modulus = 2 ^ 64

pub record Rng : Type 0 where
  pub s : ℕ

unfoldable pub new : ℕ → Rng
new seed = record { s = seed % modulus }

unfoldable pub next_u64 : Rng → Rng × ℕ
next_u64 rng =
    let s = (rng.s + 0x9E3779B97F4A7C15) % modulus in
    let z = (bit_xor s (s / 2 ^ 30) * 0xBF58476D1CE4E5B9) % modulus in
    let z' = (bit_xor z (z / 2 ^ 27) * 0x94D049BB133111EB) % modulus in
    (record { s = s }, bit_xor z' (z' / 2 ^ 31))

-- The 53-bit numerator of `next_f64`: the float is this number times 2 ^ -53.
unfoldable pub next_f64 : Rng → Rng × ℕ
unfolding next_u64
next_f64 rng = let (rng', z) = next_u64 rng in (rng', z / 2 ^ 11)

unfoldable pub next_below : Rng → ℕ → Rng × ℕ
unfolding next_u64
next_below rng n = let (rng', z) = next_u64 rng in (rng', z % n)
