-- ===== src/Surface/Go.antt =====
-- The surface of src/plx_dialect_go.c.
use plx.Prelude.{codes, [], none, true, false}
use plx.Surface.Defs.{PlxSurface, plx_trusted, go}

abbrev pub go_surface : PlxSurface
go_surface = record {
  lanname = codes "plxgo";
  block_style = go;
  stmt_semicolon = true;
  var_sigil = 0;
  cmt_hash = false;
  cmt_slash = true;
  cmt_block = true;
  type_ann = none;
  sq_is_raw = false;
  interp_quote = 0;
  interp_hashbrace = false;
  interp_dollar = false;
  interp_dollarbrace = false;
  fstrings = false;
  concat_op = 0;
  ts_types = false;
  kws = [];
  excs = [];
  flags = plx_trusted;
}
