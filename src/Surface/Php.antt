-- ===== src/Surface/Php.antt =====
-- The keyword table and the surface of src/plx_dialect_php.c.
use plx.Prelude.{codes, List, [], ◌∷◌, none, true, false}
use plx.Surface.Defs.{
  PlxSurface, PlxKwSpell, spell, plx_trusted, brace, kw_as, kw_begin, kw_break, kw_case, kw_def,
  kw_else, kw_elsif, kw_emit, kw_ensure, kw_false, kw_for, kw_foreach, kw_if, kw_next, kw_nil,
  kw_raise, kw_rescue, kw_return, kw_return_next, kw_true, kw_when, kw_while,
}

abbrev pub php_kws : List PlxKwSpell
php_kws =
    spell "if" kw_if
    ∷ spell "elseif" kw_elsif
    ∷ spell "else" kw_else
    ∷ spell "while" kw_while
    ∷ spell "for" kw_for
    ∷ spell "foreach" kw_foreach
    ∷ spell "as" kw_as
    ∷ spell "return" kw_return
    ∷ spell "break" kw_break
    ∷ spell "continue" kw_next
    ∷ spell "try" kw_begin
    ∷ spell "catch" kw_rescue
    ∷ spell "finally" kw_ensure
    ∷ spell "throw" kw_raise
    ∷ spell "function" kw_def
    ∷ spell "switch" kw_case
    ∷ spell "case" kw_when
    ∷ spell "default" kw_else
    ∷ spell "true" kw_true
    ∷ spell "false" kw_false
    ∷ spell "null" kw_nil
    ∷ spell "emit" kw_emit
    ∷ spell "return_next" kw_return_next
    ∷ []

abbrev pub php_surface : PlxSurface
php_surface = record {
  lanname = codes "plxphp";
  block_style = brace;
  stmt_semicolon = true;
  var_sigil = b'$';
  cmt_hash = true;
  cmt_slash = true;
  cmt_block = true;
  type_ann = none;
  sq_is_raw = true;
  interp_quote = b'"';
  interp_hashbrace = false;
  interp_dollar = true;
  interp_dollarbrace = false;
  fstrings = false;
  concat_op = b'.';
  ts_types = false;
  kws = php_kws;
  excs = [];
  flags = plx_trusted;
}
