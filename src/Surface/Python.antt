-- ===== src/Surface/Python.antt =====
-- The keyword table and the surface of src/plx_dialect_python.c.
use plx.Prelude.{codes, List, [], ◌∷◌, some, true, false}
use plx.Surface.Defs.{
  PlxSurface, PlxKwSpell, spell, plx_trusted, indent, kw_and, kw_as, kw_begin, kw_break, kw_case,
  kw_def, kw_else, kw_elsif, kw_emit, kw_ensure, kw_false, kw_for, kw_if, kw_in, kw_next, kw_nil,
  kw_not, kw_or, kw_pass, kw_raise, kw_rescue, kw_return, kw_return_next, kw_true, kw_while,
}

abbrev pub py_kws : List PlxKwSpell
py_kws =
    spell "if" kw_if
    ∷ spell "elif" kw_elsif
    ∷ spell "else" kw_else
    ∷ spell "while" kw_while
    ∷ spell "for" kw_for
    ∷ spell "in" kw_in
    ∷ spell "return" kw_return
    ∷ spell "break" kw_break
    ∷ spell "continue" kw_next
    ∷ spell "try" kw_begin
    ∷ spell "except" kw_rescue
    ∷ spell "finally" kw_ensure
    ∷ spell "as" kw_as
    ∷ spell "raise" kw_raise
    ∷ spell "def" kw_def
    ∷ spell "class" kw_def
    ∷ spell "lambda" kw_def
    ∷ spell "match" kw_case
    ∷ spell "pass" kw_pass
    ∷ spell "and" kw_and
    ∷ spell "or" kw_or
    ∷ spell "not" kw_not
    ∷ spell "None" kw_nil
    ∷ spell "True" kw_true
    ∷ spell "False" kw_false
    ∷ spell "emit" kw_emit
    ∷ spell "return_next" kw_return_next
    ∷ []

abbrev pub py_surface : PlxSurface
py_surface = record {
  lanname = codes "plxpython3";
  block_style = indent;
  stmt_semicolon = false;
  var_sigil = 0;
  cmt_hash = true;
  cmt_slash = false;
  cmt_block = false;
  type_ann = some (codes "#::");
  sq_is_raw = false;
  interp_quote = 0;
  interp_hashbrace = false;
  interp_dollar = false;
  interp_dollarbrace = false;
  fstrings = true;
  concat_op = 0;
  ts_types = false;
  kws = py_kws;
  excs = [];
  flags = plx_trusted;
}
