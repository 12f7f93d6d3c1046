-- ===== src/Prelude/Results.antt =====
-- What a Python call returns: a value, or the exception that it raises.
use mathlib.Core.Bool.{Bool, true, false}
use mathlib.Core.Logic.{◌⊎◌, inl, inr}
use mathlib.Core.Path.{◌≡◌, refl}

pub data Error : Type 0 where
  value_error key_error index_error format_error struct_error : Error

pub data Result {ℓ} (A : Type ℓ) : Type ℓ where
  ok : A → Result A
  raise : Error → Result A

-- `if not test: raise error`
abbrev pub guard : Bool → Error → Result (Unit {0})
guard false error = raise error
guard true error = ok tt

infixl 5 ◌>>=◌ ◌>>◌
abbrev pub ◌>>=◌ {ℓ κ} : {X : Type ℓ} {Y : Type κ} → Result X → (X → Result Y) → Result Y
raise error >>= next = raise error
ok x >>= next = next x

abbrev pub ◌>>◌ {κ} : {Y : Type κ} → Result (Unit {0}) → Result Y → Result Y
first >> next = first >>= λ done. next

-- A chain that returns went through its first call.
pub >>=-eq-ok {ℓ κ} :
    {X : Type ℓ} {Y : Type κ} (first : Result X) (next : X → Result Y) {y : Y}
    → (first >>= next) ≡ ok y
    → (x : X) × (first ≡ ok x) × (next x ≡ ok y)
>>=-eq-ok (raise error) next e = cc
>>=-eq-ok (ok x) next e = (x, refl, e)

pub Result-cases {ℓ} :
    {X : Type ℓ} (result : Result X)
    → ((error : Error) × (result ≡ raise error)) ⊎ ((x : X) × (result ≡ ok x))
Result-cases (raise error) = inl (error, refl)
Result-cases (ok x) = inr (x, refl)
