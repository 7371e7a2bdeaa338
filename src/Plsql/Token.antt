-- ===== src/Plsql/Token.antt =====
-- `PlKind` and `PlTok`. A pointer and a length are the bytes that they span.
use plx.Prelude.{Bytes, Bool, true, false, ◌≡◌, List, [], ◌∷◌, ◌++◌}

pub data PlKind : Type 0 where
  pl_eof pl_word pl_num pl_str pl_punct : PlKind

pub record PlTok : Type 0 where
  pub kind : PlKind
  pub s : Bytes
  -- whitespace and comments in front of the token, verbatim
  pub pre : Bytes

-- The source that a run of tokens spans, the leading trivia of each included.
abbrev pub source_of : List PlTok → Bytes
source_of [] = []
source_of (t ∷ ts) = t.pre ++ (t.s ++ source_of ts)

abbrev pub is_eof : PlKind → Bool
is_eof pl_eof = true
is_eof _ = false

-- One end token, with no text, behind tokens of other kinds.
abbrev pub Ended : List PlTok → Type 0
Ended [] = ⊥
Ended (t ∷ []) = (is_eof t.kind ≡ true) × (t.s ≡ [])
Ended (t ∷ u ∷ ts) = (is_eof t.kind ≡ false) × Ended (u ∷ ts)
