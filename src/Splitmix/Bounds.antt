-- ===== src/Splitmix/Bounds.antt =====
-- The ranges of the generator's results, and the states that it goes through.
use Prim.Native.Nat.{bit_xor, bit_xor-bitwise, digits, differ}
use native.Mathlib.Nat.{pow-suc}
use vector_retrieval_optimiz.Prelude.{ℕ, zero, suc, ◌+◌, ◌*◌, ◌/◌, ◌%◌, ◌^◌, ◌<◌, ◌≡◌, ◌≢◌, arith}
use vector_retrieval_optimiz.Splitmix.{Rng, modulus, new, next_u64, next_f64, next_below}

differ-lt : (x y : ℕ) → x < 2 → y < 2 → differ x y < 2
differ-lt zero y p q = q
differ-lt (suc x) zero p q = p
differ-lt (suc zero) (suc zero) p q = omega arith
differ-lt (suc (suc x)) (suc y) p q = absurd (omega arith)
differ-lt (suc zero) (suc (suc y)) p q = absurd (omega arith)

xor_digits-lt : (n w a b : ℕ) → a < 2 ^ w → b < 2 ^ w → digits (λ y. y) differ n a b < 2 ^ w
xor_digits-lt zero w a b p q = q
xor_digits-lt (suc n) w zero b p q = q
xor_digits-lt (suc n) zero (suc a) b p q = absurd (omega arith)
xor_digits-lt (suc n) (suc w) (suc a) b p q =
    ground
      (arith, pow-suc 2 w, xor_digits-lt n w (suc a / 2) (b / 2), differ-lt (suc a % 2) (b % 2))

-- The exclusive or of two w-bit numbers has w bits.
pub bit_xor-lt : (w a b : ℕ) → a < 2 ^ w → b < 2 ^ w → bit_xor a b < 2 ^ w
bit_xor-lt w a b p q = rw bit_xor-bitwise (xor_digits-lt a w a b p q)

-- A draw is a 64-bit number, its `next_f64` is below 1 (the numerator is below 2 ^ 53), its
-- `next_below n` is below n for a positive n, and the state stays a 64-bit number.
pub next-in_range :
    (rng : Rng) (n : ℕ)
    → 0 < n
    → ((next_u64 rng).1 < 2 ^ 64)
      × ((next_f64 rng).1 < 2 ^ 53)
      × ((next_below rng n).1 < n)
      × ((next_u64 rng).0.s < 2 ^ 64)
unfolding next_u64 next_f64 next_below
next-in_range rng n pos =
    let s = (rng.s + 0x9E3779B97F4A7C15) % modulus in
    let z = (bit_xor s (s / 2 ^ 30) * 0xBF58476D1CE4E5B9) % modulus in
    let z' = (bit_xor z (z / 2 ^ 27) * 0x94D049BB133111EB) % modulus in
    let h = bit_xor-lt 64 z' (z' / 2 ^ 31) (omega arith) (omega arith) in
    (h, omega arith, omega arith, omega arith)

-- The state after a number of draws.
pub after : ℕ → Rng → Rng
after zero rng = rng
after (suc k) rng = after k (next_u64 rng).0

-- The state after k draws is the first state plus k times the increment, modulo 2 ^ 64.
after-add :
    (k : ℕ) (rng : Rng)
    → rng.s < modulus
    → (after k rng).s ≡ (rng.s + k * 0x9E3779B97F4A7C15) % modulus
unfolding after next_u64
after-add zero rng h = omega arith
after-add (suc k) rng h = omega (arith, after-add k (next_u64 rng).0 (omega arith))

-- From any seed, the first 2 ^ 64 states are all different: the generator has the full period.
pub after-distinct :
    (seed j k : ℕ)
    → j < modulus
    → k < modulus
    → j ≢ k
    → (after j (new seed)).s ≢ (after k (new seed)).s
unfolding new
after-distinct seed j k hj hk ne e =
    ne (omega (arith, after-add j (new seed) (omega arith), after-add k (new seed) (omega arith)))
