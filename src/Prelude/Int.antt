-- ===== src/Prelude/Int.antt =====
-- The signed counters of the source (`int depth`). `negsuc n` is -(n + 1).
use Prim.Native.Nat.{ℕ, zero, suc}
use mathlib.Core.Bool.{Bool, true, false}

pub data ℤ : Type 0 where
  pos : ℕ → ℤ
  negsuc : ℕ → ℤ

-- `d++`
abbrev pub increment : ℤ → ℤ
increment (pos n) = pos (suc n)
increment (negsuc zero) = pos zero
increment (negsuc (suc n)) = negsuc n

-- `d--`
abbrev pub decrement : ℤ → ℤ
decrement (pos zero) = negsuc zero
decrement (pos (suc n)) = pos n
decrement (negsuc n) = negsuc (suc n)

-- `d == 0`
abbrev pub is_zero : ℤ → Bool
is_zero (pos zero) = true
is_zero (pos (suc n)) = false
is_zero (negsuc n) = false

-- `d <= 0`
abbrev pub is_nonpos : ℤ → Bool
is_nonpos (pos zero) = true
is_nonpos (pos (suc n)) = false
is_nonpos (negsuc n) = true
