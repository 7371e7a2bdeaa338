-- ===== src/Plsql/Words.antt =====
-- `pl_ci`, `pl_punct`, `pl_type_map`, `pl_word_map`, `pl_match_paren` and `pl_emit_raw`.
-- `pg_strncasecmp` of the server is a parameter: `ci a b` says that two texts of one length are
-- equal but for case.
use plx.Plsql.Token.{PlKind, pl_word, pl_punct, PlTok, source_of, is_eof}
use plx.Prelude.Int.{ℤ, pos, increment, decrement, is_zero}
use plx.Prelude.{
  ℕ, suc, Bytes, codes, str_eq, length, take, drop, Bool, true, false, ◌&&◌, ◌==◌, if◌then◌else◌,
  List, [], ◌∷◌, ◌++◌, Option, none, some,
}

abbrev pub is_word : PlKind → Bool
is_word pl_word = true
is_word _ = false

abbrev pub is_punct : PlKind → Bool
is_punct pl_punct = true
is_punct _ = false

-- `pl_punct`, whose name is that of a kind of token
unfoldable pub is_punct_char : PlTok → ℕ → Bool
is_punct_char t c = is_punct t.kind && str_eq t.s (c ∷ [])

-- The text between token `a` and token `b`, from the first byte of `a` to the last byte before the
-- trivia of `b`. The tokens stand one behind the other in the body, so the span from pointer to
-- pointer is each text with the trivia between them.
unfoldable pub pl_emit_raw : List PlTok → ℕ → ℕ → Bytes
pl_emit_raw ts a b = elim (drop a (take b ts)) [ [] ↦ [] | t ∷ r ↦ t.s ++ source_of r ]

-- The parentheses open behind a token.
abbrev pub paren_depth : PlTok → ℤ → ℤ
paren_depth t depth =
    if is_punct_char t b'('
    then increment depth
    else if is_punct_char t b')'
    then decrement depth
    else depth

-- From the token at `i` on, with `depth` parentheses open: the `)` that brings the depth to 0.
unfoldable pub match_from : ℤ → ℕ → List PlTok → Option ℕ
match_from depth i [] = none
match_from depth i (t ∷ ts) =
    let rest = match_from (paren_depth t depth) (suc i) ts in
    if is_punct_char t b'('
    then rest
    else if is_punct_char t b')'
    then (if is_zero (decrement depth) then some i else rest)
    else if is_eof t.kind
    then none
    else rest

-- The place of the matching `)` in the tokens that begin with the `(`; -1 is `none`.
unfoldable pub pl_match_paren : List PlTok → Option ℕ
unfolding match_from
pl_match_paren ts = match_from (pos 0) 0 ts

-- The first comma outside parentheses, in tokens of which the first is number `k`.
unfoldable pub find_comma : ℤ → ℕ → List PlTok → Option ℕ
find_comma depth k [] = none
find_comma depth k (t ∷ ts) =
    let rest = find_comma (paren_depth t depth) (suc k) ts in
    if is_punct_char t b'('
    then rest
    else if is_punct_char t b')'
    then rest
    else if is_zero depth && is_punct_char t b','
    then some k
    else rest

module _ (ci : Bytes → Bytes → Bool) where
  unfoldable pub pl_ci : PlTok → Bytes → Bool
  pl_ci t w = is_word t.kind && length t.s == length w && ci t.s w

  unfoldable pub first_match : List (Bytes × Bytes) → PlTok → Option Bytes
  first_match [] t = none
  first_match ((o, pg) ∷ m) t = if pl_ci t o then some pg else first_match m t

  abbrev pub type_table : List (Bytes × Bytes)
  type_table =
      (codes "NUMBER", codes "numeric")
      ∷ (codes "VARCHAR2", codes "varchar")
      ∷ (codes "NVARCHAR2", codes "varchar")
      ∷ (codes "PLS_INTEGER", codes "integer")
      ∷ (codes "BINARY_INTEGER", codes "integer")
      ∷ (codes "SIMPLE_INTEGER", codes "integer")
      ∷ (codes "BINARY_FLOAT", codes "real")
      ∷ (codes "BINARY_DOUBLE", codes "double precision")
      ∷ (codes "CLOB", codes "text")
      ∷ (codes "NCLOB", codes "text")
      ∷ (codes "LONG", codes "text")
      ∷ (codes "BLOB", codes "bytea")
      ∷ (codes "RAW", codes "bytea")
      ∷ (codes "NUMBER", codes "numeric")
      ∷ []

  abbrev pub word_table : List (Bytes × Bytes)
  word_table =
      (codes "NVL", codes "coalesce")
      ∷ (codes "SYSDATE", codes "LOCALTIMESTAMP")
      ∷ (codes "SYSTIMESTAMP", codes "clock_timestamp()")
      ∷ []

  unfoldable pub pl_type_map : PlTok → Option Bytes
  pl_type_map = first_match type_table

  unfoldable pub pl_word_map : PlTok → Option Bytes
  pl_word_map = first_match word_table
