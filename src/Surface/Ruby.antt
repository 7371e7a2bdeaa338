-- ===== src/Surface/Ruby.antt =====
-- The keyword table and the surface of src/plx_dialect_ruby.c.
use plx.Prelude.{codes, List, [], ◌∷◌, some, true, false}
use plx.Surface.Defs.{
  PlxSurface, PlxKwSpell, spell, plx_trusted, keyword_end, kw_and, kw_begin, kw_break, kw_case,
  kw_def, kw_do, kw_else, kw_elsif, kw_emit, kw_end, kw_ensure, kw_false, kw_for, kw_if, kw_in,
  kw_loop, kw_next, kw_nil, kw_not, kw_or, kw_raise, kw_rescue, kw_return, kw_return_next, kw_then,
  kw_true, kw_unless, kw_until, kw_when, kw_while,
}

abbrev pub ruby_kws : List PlxKwSpell
ruby_kws =
    spell "if" kw_if
    ∷ spell "unless" kw_unless
    ∷ spell "elsif" kw_elsif
    ∷ spell "else" kw_else
    ∷ spell "then" kw_then
    ∷ spell "end" kw_end
    ∷ spell "while" kw_while
    ∷ spell "until" kw_until
    ∷ spell "for" kw_for
    ∷ spell "in" kw_in
    ∷ spell "do" kw_do
    ∷ spell "begin" kw_begin
    ∷ spell "rescue" kw_rescue
    ∷ spell "ensure" kw_ensure
    ∷ spell "case" kw_case
    ∷ spell "when" kw_when
    ∷ spell "return" kw_return
    ∷ spell "next" kw_next
    ∷ spell "break" kw_break
    ∷ spell "raise" kw_raise
    ∷ spell "and" kw_and
    ∷ spell "or" kw_or
    ∷ spell "not" kw_not
    ∷ spell "emit" kw_emit
    ∷ spell "return_next" kw_return_next
    ∷ spell "loop" kw_loop
    ∷ spell "def" kw_def
    ∷ spell "nil" kw_nil
    ∷ spell "true" kw_true
    ∷ spell "false" kw_false
    ∷ []

abbrev pub ruby_surface : PlxSurface
ruby_surface = record {
  lanname = codes "plxruby";
  block_style = keyword_end;
  stmt_semicolon = false;
  var_sigil = 0;
  cmt_hash = true;
  cmt_slash = false;
  cmt_block = false;
  type_ann = some (codes "#::");
  sq_is_raw = true;
  interp_quote = b'"';
  interp_hashbrace = true;
  interp_dollar = false;
  interp_dollarbrace = false;
  fstrings = false;
  concat_op = 0;
  ts_types = false;
  kws = ruby_kws;
  excs = [];
  flags = plx_trusted;
}
