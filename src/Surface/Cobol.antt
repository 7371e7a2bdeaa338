-- ===== src/Surface/Cobol.antt =====
-- The surface of src/plx_dialect_cobol.c.
use plx.Prelude.{codes, [], none, false}
use plx.Surface.Defs.{PlxSurface, plx_trusted, cobol}

abbrev pub cob_surface : PlxSurface
cob_surface = record {
  lanname = codes "plxcobol";
  block_style = cobol;
  stmt_semicolon = false;
  var_sigil = 0;
  cmt_hash = false;
  cmt_slash = false;
  cmt_block = false;
  type_ann = none;
  sq_is_raw = false;
  interp_quote = 0;
  interp_hashbrace = false;
  interp_dollar = false;
  interp_dollarbrace = false;
  fstrings = false;
  concat_op = 0;
  ts_types = false;
  kws = [];
  excs = [];
  flags = plx_trusted;
}
