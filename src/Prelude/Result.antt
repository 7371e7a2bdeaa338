-- ===== src/Prelude/Result.antt =====
-- What an `ereport(ERROR, …)` or `elog(ERROR, …)` of the source raises, and calls that may raise.
use mathlib.Core.Path.{◌≡◌, refl}
use mathlib.Core.Logic.{◌⊎◌, inl, inr}
use Prim.Native.Nat.{ℕ}
use plx.Prelude.Text.{Bytes}

pub data Error : Type 0 where
  -- "plx: dialect \"%s\" has ABI %u, core expects %u"
  abi_mismatch : Bytes → ℕ → Error
  -- "plx: too many dialects registered"
  too_many_dialects : Error
  -- "plx: cache lookup failed for function %u"
  no_function : ℕ → Error
  -- "plx: null prosrc for function %u"
  null_prosrc : ℕ → Error
  -- "plx: cache lookup failed for language plpgsql"
  no_plpgsql : Error
  -- "plx: plpgsql has no inline handler"
  no_inline_handler : Error
  -- "%s: cannot infer a PostgreSQL type for local variable \"%s\""
  cannot_infer_type : Bytes → Bytes → Error
  -- "invalid memory alloc request size", raised by the server's allocator
  invalid_alloc : ℕ → Error
  -- any other report of a front end: the source line and the message
  syntax : ℕ → Bytes → Error

-- What a call comes to: it raises, or it returns.
pub data Result {ℓ} (Value : Type ℓ) : Type ℓ where
  err : Error → Result Value
  ok : Value → Result Value

-- The error leaves the rest of the function, as the `longjmp` of `ereport` does.
infixl 5 ◌>>=◌
abbrev pub ◌>>=◌ {ℓ κ} :
    {Value : Type ℓ} {Next : Type κ} → Result Value → (Value → Result Next) → Result Next
err raised >>= rest = err raised
ok value >>= rest = rest value

abbrev pub map_ok {ℓ κ} : {A : Type ℓ} {B : Type κ} → (A → B) → Result A → Result B
map_ok f (ok a) = ok (f a)
map_ok f (err e) = err e

-- Where the whole returns, its first call returned.
pub >>=-eq-ok {ℓ κ} :
    {Value : Type ℓ} {Next : Type κ} (first : Result Value) (rest : Value → Result Next)
    {end : Next}
    → (first >>= rest) ≡ ok end
    → (value : Value) × (first ≡ ok value) × (rest value ≡ ok end)
>>=-eq-ok (err raised) rest returns = cc
>>=-eq-ok (ok value) rest returns = (value, refl, returns)

pub Result-cases {ℓ} :
    {A : Type ℓ} (r : Result A) → ((e : Error) × (r ≡ err e)) ⊎ ((a : A) × (r ≡ ok a))
Result-cases (err e) = inl (e, refl)
Result-cases (ok a) = inr (a, refl)
