-- ===== src/Surface/Ts.antt =====
-- The keyword table and the surface of src/plx_dialect_ts.c.
use plx.Prelude.{codes, List, [], ◌∷◌, none, true, false}
use plx.Surface.Defs.{
  PlxSurface, PlxKwSpell, spell, plx_trusted, brace, kw_begin, kw_break, kw_case, kw_def, kw_else,
  kw_emit, kw_ensure, kw_false, kw_for, kw_if, kw_let, kw_next, kw_nil, kw_of, kw_raise, kw_rescue,
  kw_return, kw_return_next, kw_true, kw_when, kw_while,
}

abbrev pub ts_kws : List PlxKwSpell
ts_kws =
    spell "if" kw_if
    ∷ spell "else" kw_else
    ∷ spell "while" kw_while
    ∷ spell "for" kw_for
    ∷ spell "of" kw_of
    ∷ spell "return" kw_return
    ∷ spell "break" kw_break
    ∷ spell "continue" kw_next
    ∷ spell "try" kw_begin
    ∷ spell "catch" kw_rescue
    ∷ spell "finally" kw_ensure
    ∷ spell "throw" kw_raise
    ∷ spell "function" kw_def
    ∷ spell "switch" kw_case
    ∷ spell "case" kw_when
    ∷ spell "default" kw_else
    ∷ spell "let" kw_let
    ∷ spell "const" kw_let
    ∷ spell "var" kw_let
    ∷ spell "true" kw_true
    ∷ spell "false" kw_false
    ∷ spell "null" kw_nil
    ∷ spell "emit" kw_emit
    ∷ spell "return_next" kw_return_next
    ∷ []

abbrev pub ts_surface : PlxSurface
ts_surface = record {
  lanname = codes "plxts";
  block_style = brace;
  stmt_semicolon = true;
  var_sigil = 0;
  cmt_hash = false;
  cmt_slash = true;
  cmt_block = true;
  type_ann = none;
  sq_is_raw = false;
  interp_quote = b'`';
  interp_hashbrace = false;
  interp_dollar = false;
  interp_dollarbrace = true;
  fstrings = false;
  concat_op = 0;
  ts_types = true;
  kws = ts_kws;
  excs = [];
  flags = plx_trusted;
}
