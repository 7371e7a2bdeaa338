-- ===== src/Prelude/Outcome.antt =====
-- What a run of a parser comes to: it returns, raises an error, reads a token behind the last one,
-- or is cut short for want of fuel.
use plx.Prelude.Result.{Error}

pub data Outcome {ℓ} (A : Type ℓ) : Type ℓ where
  done : A → Outcome A
  raised : Error → Outcome A
  fault : Outcome A
  cut_short : Outcome A

infixl 5 ◌>>=◌
abbrev pub ◌>>=◌ {ℓ κ} : {A : Type ℓ} {B : Type κ} → Outcome A → (A → Outcome B) → Outcome B
done a >>= next = next a
raised e >>= next = raised e
fault >>= next = fault
cut_short >>= next = cut_short
