-- ===== src/Cobol.antt =====
-- The COBOL front end of src/plx_transpile.c: the data names and the picture clause.
pub mod Picture
use plx.Prelude.{ℕ, Bytes, ◌+◌, ◌-◌, ◌==◌, within, if◌then◌else◌, [], ◌∷◌}

-- A byte of a data name as PL/pgSQL writes it.
abbrev mapped_char : ℕ → ℕ
mapped_char c = if c == b'-' then b'_' else if within b'A' b'Z' c then c - b'A' + b'a' else c

unfoldable pub cob_map : Bytes → Bytes
cob_map [] = []
cob_map (c ∷ r) = mapped_char c ∷ cob_map r
