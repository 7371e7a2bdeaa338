-- ===== src/Prelude/Text.antt =====
-- C strings: the bytes before the terminating NUL, and the literals of the source.
use Prim.Native.Nat.{ℕ, ◌<◌}
use Prim.Native.Char.{code}
use Prim.Native.String.{String}
use mathlib.Core.Bool.{Bool, true, false, ◌&&◌}
use mathlib.Core.List.{List, [], ◌∷◌, ◌++◌}
use mathlib.Core.Logic.{◌↔◌}
use mathlib.Core.Path.{◌≡◌, refl}
use native.Mathlib.Omega.{arith}
use plx.Prelude.Tests.{◌==◌}

abbrev pub Bytes : Type 0
Bytes = List ℕ

-- A literal of the source; every one is ASCII.
abbrev pub codes : String → Bytes
codes String.[] = []
codes (String.◌∷◌ c s) = code c ∷ codes s

-- `strcmp(a, b) == 0`
abbrev pub str_eq : Bytes → Bytes → Bool
str_eq [] [] = true
str_eq (x ∷ a) (y ∷ b) = x == y && str_eq a b
str_eq _ _ = false

-- `strncmp(s, w, strlen(w)) == 0`
abbrev pub starts_with : Bytes → Bytes → Bool
starts_with [] s = true
starts_with (x ∷ w) [] = false
starts_with (x ∷ w) (y ∷ s) = x == y && starts_with w s

abbrev pub All {ℓ κ} : {A : Type ℓ} → (A → Type κ) → List A → Type κ
All P [] = Unit
All P (x ∷ xs) = P x × All P xs

-- Each element is a byte.
abbrev pub IsBytes : Bytes → Type 0
IsBytes = All (λ c. c < 256)

pub str_eq_iff : (a b : Bytes) → (str_eq a b ≡ true) ↔ (a ≡ b)
str_eq_iff [] [] = ground arith
str_eq_iff (x ∷ a) (y ∷ b) = ground (arith, str_eq_iff a b)
str_eq_iff _ _ = ground arith

pub str_eq_refl : (a : Bytes) → str_eq a a ≡ true
str_eq_refl a = (str_eq_iff a a).1 refl

pub starts_with-append : (w s : Bytes) → starts_with w (w ++ s) ≡ true
starts_with-append [] s = refl
starts_with-append (x ∷ w) s = ground (arith, starts_with-append w s)
