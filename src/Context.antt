-- ===== src/Context.antt =====
-- What the front ends of src/plx_transpile.c share of the context: locals, indentation, reports.
use plx.Assemble.{PlxLocal2}
use plx.Prelude.Outcome.{Outcome, raised}
use plx.Prelude.Result.{syntax}
use plx.Prelude.{
  ℕ, zero, suc, Bytes, codes, length, take, Bool, ◌&&◌, ◌==◌, if◌then◌else◌, List, [], ◌∷◌, ◌++◌,
  Option, none, some,
}

unfoldable pub indent : ℕ → Bytes
indent zero = []
indent (suc n) = codes "  " ++ indent n

-- `plx_err`, whose message has room for 511 bytes.
abbrev pub plx_err {ℓ} : {A : Type ℓ} → ℕ → Bytes → Outcome A
plx_err line msg = raised (syntax line (take 511 msg))

-- A text, or a blank where there is none, at its last byte.
abbrev pub last_byte : Bytes → ℕ
last_byte [] = b' '
last_byte (c ∷ []) = c
last_byte (c ∷ d ∷ r) = last_byte (d ∷ r)

abbrev pub plx_max_depth : ℕ
plx_max_depth = 500

-- `ci` compares texts of one length but for case.
unfoldable pub local_find : (Bytes → Bytes → Bool) → List PlxLocal2 → Bytes → Option PlxLocal2
local_find ci [] name = none
local_find ci (l ∷ ls) name =
    if length l.name == length name && ci l.name name then some l else local_find ci ls name
