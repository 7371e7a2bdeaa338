-- ===== src/Surface/Plsql.antt =====
-- The surface of src/plx_dialect_plsql.c.
use plx.Prelude.{codes, [], none, true, false}
use plx.Surface.Defs.{PlxSurface, plx_trusted, plsql}

abbrev pub plsql_surface : PlxSurface
plsql_surface = record {
  lanname = codes "plxplsql";
  block_style = plsql;
  stmt_semicolon = true;
  var_sigil = 0;
  cmt_hash = false;
  cmt_slash = false;
  cmt_block = false;
  type_ann = none;
  sq_is_raw = false;
  interp_quote = 0;
  interp_hashbrace = false;
  interp_dollar = false;
  interp_dollarbrace = false;
  fstrings = false;
  concat_op = 0;
  ts_types = false;
  kws = [];
  excs = [];
  flags = plx_trusted;
}
