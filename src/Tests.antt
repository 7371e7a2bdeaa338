-- ===== src/Tests.antt =====
-- Tests and instances, over a concrete comparison of texts and concrete parameters.
mod Plsql
mod Ts
mod Cobol
mod Ternary
mod Lexer
mod Tsql
mod Go
mod Strbuild
mod Core
use plx.Prelude.{ℕ, ◌+◌, Bytes, str_eq, within, Bool, if◌then◌else◌, List, [], ◌∷◌}

-- ASCII letters in lower case.
abbrev pub lower : Bytes → Bytes
lower [] = []
lower (c ∷ r) = (if within b'A' b'Z' c then c + 32 else c) ∷ lower r

abbrev pub ascii_ci : Bytes → Bytes → Bool
ascii_ci a b = str_eq (lower a) (lower b)
