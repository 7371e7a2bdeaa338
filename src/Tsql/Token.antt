-- ===== src/Tsql/Token.antt =====
-- `TqKind`, `TqTok` and the tests on a token of the T-SQL front end. A token's pointer and length
-- are the bytes that they span.
use plx.Prelude.{
  ℕ, ◌+◌, ◌-◌, Bytes, codes, str_eq, length, Bool, true, false, ◌&&◌, ◌||◌, ◌==◌, within,
  if◌then◌else◌, List, [], ◌∷◌,
}

pub data TqKind : Type 0 where
  tq_eof tq_word tq_var tq_gvar tq_num tq_str tq_op : TqKind
  tq_lp tq_rp tq_comma tq_semi tq_dot : TqKind

pub record TqTok : Type 0 where
  pub kind : TqKind
  pub s : Bytes
  pub line : ℕ

abbrev pub is_eof : TqKind → Bool
is_eof tq_eof = true
is_eof _ = false

abbrev pub is_word : TqKind → Bool
is_word tq_word = true
is_word _ = false

abbrev pub is_var : TqKind → Bool
is_var tq_var = true
is_var _ = false

abbrev pub is_op : TqKind → Bool
is_op tq_op = true
is_op _ = false

abbrev pub is_lp : TqKind → Bool
is_lp tq_lp = true
is_lp _ = false

abbrev pub is_rp : TqKind → Bool
is_rp tq_rp = true
is_rp _ = false

abbrev pub is_comma : TqKind → Bool
is_comma tq_comma = true
is_comma _ = false

abbrev pub is_semi : TqKind → Bool
is_semi tq_semi = true
is_semi _ = false

-- `t->kind == TQ_OP && t->len == 1 && t->s[0] == '='`
abbrev pub is_assign : TqTok → Bool
is_assign t = is_op t.kind && str_eq t.s (codes "=")

abbrev lower : ℕ → ℕ
lower c = if within b'A' b'Z' c then c - b'A' + b'a' else c

-- The name of a variable, in lower case.
unfoldable pub tq_ident : Bytes → Bytes
tq_ident [] = []
tq_ident (c ∷ r) = lower c ∷ tq_ident r

module _ (ci : Bytes → Bytes → Bool) where
  -- Two texts of one length are equal but for case.
  abbrev pub same_word : Bytes → Bytes → Bool
  same_word s w = length s == length w && ci s w

  -- `tq_ci`: a word, delimited or not.
  abbrev pub tq_ci : TqTok → Bytes → Bool
  tq_ci t w = is_word t.kind && same_word t.s w

  abbrev tq_any : TqTok → List Bytes → Bool
  tq_any t [] = false
  tq_any t (w ∷ ws) = tq_ci t w || tq_any t ws

  -- The words that begin a statement.
  abbrev statement_words : List Bytes
  statement_words =
      codes "SELECT"
      ∷ codes "SET"
      ∷ codes "UPDATE"
      ∷ codes "INSERT"
      ∷ codes "DELETE"
      ∷ codes "MERGE"
      ∷ codes "PRINT"
      ∷ codes "RETURN"
      ∷ codes "IF"
      ∷ codes "WHILE"
      ∷ codes "EXEC"
      ∷ codes "EXECUTE"
      ∷ codes "DECLARE"
      ∷ codes "THROW"
      ∷ codes "RAISERROR"
      ∷ codes "BREAK"
      ∷ codes "CONTINUE"
      ∷ codes "WAITFOR"
      ∷ codes "GOTO"
      ∷ codes "TRUNCATE"
      ∷ codes "CREATE"
      ∷ codes "DROP"
      ∷ codes "ALTER"
      ∷ codes "OPEN"
      ∷ codes "CLOSE"
      ∷ codes "FETCH"
      ∷ codes "COMMIT"
      ∷ codes "ROLLBACK"
      ∷ []

  unfoldable pub tq_is_stmt_kw : TqTok → Bool
  tq_is_stmt_kw t = is_word t.kind && tq_any t statement_words
