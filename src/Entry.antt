-- ===== src/Entry.antt =====
-- The entry points of src/plx_dialect_*.c: each dialect's validator and inline handler.
use plx.Builtin.{
  plx_ruby_dialect, plx_php_dialect, plx_js_dialect, plx_py_dialect, plx_cobol_dialect,
  plx_plsql_dialect, plx_ts_dialect, plx_tsql_dialect, plx_go_dialect,
}
use plx.Handler.{
  Catalog, InlineCodeBlock, Languages, plx_generic_validator, plx_generic_inline_handler,
}
use plx.Prelude.Result.{Result}
use plx.Prelude.{ℕ, Bool}
use plx.Transpile.{FrontEnds}

abbrev Validator : Type 0
Validator = (ℕ → Bool) → Catalog → ℕ → Result Catalog

abbrev InlineHandler : Type 0
InlineHandler = Languages → InlineCodeBlock → Result (ℕ × InlineCodeBlock)

module _ (fe : FrontEnds) where
  abbrev plx_ruby_validator : Validator
  plx_ruby_validator access = plx_generic_validator access (plx_ruby_dialect fe)

  abbrev plx_ruby_inline_handler : InlineHandler
  plx_ruby_inline_handler langs = plx_generic_inline_handler langs (plx_ruby_dialect fe)

  abbrev plx_php_validator : Validator
  plx_php_validator access = plx_generic_validator access (plx_php_dialect fe)

  abbrev plx_php_inline_handler : InlineHandler
  plx_php_inline_handler langs = plx_generic_inline_handler langs (plx_php_dialect fe)

  abbrev plx_js_validator : Validator
  plx_js_validator access = plx_generic_validator access (plx_js_dialect fe)

  abbrev plx_js_inline_handler : InlineHandler
  plx_js_inline_handler langs = plx_generic_inline_handler langs (plx_js_dialect fe)

  abbrev plx_py_validator : Validator
  plx_py_validator access = plx_generic_validator access (plx_py_dialect fe)

  abbrev plx_py_inline_handler : InlineHandler
  plx_py_inline_handler langs = plx_generic_inline_handler langs (plx_py_dialect fe)

  abbrev plx_cob_validator : Validator
  plx_cob_validator access = plx_generic_validator access (plx_cobol_dialect fe)

  abbrev plx_cob_inline_handler : InlineHandler
  plx_cob_inline_handler langs = plx_generic_inline_handler langs (plx_cobol_dialect fe)

  abbrev plx_plsql_validator : Validator
  plx_plsql_validator access = plx_generic_validator access (plx_plsql_dialect fe)

  abbrev plx_plsql_inline_handler : InlineHandler
  plx_plsql_inline_handler langs = plx_generic_inline_handler langs (plx_plsql_dialect fe)

  abbrev plx_ts_validator : Validator
  plx_ts_validator access = plx_generic_validator access (plx_ts_dialect fe)

  abbrev plx_ts_inline_handler : InlineHandler
  plx_ts_inline_handler langs = plx_generic_inline_handler langs (plx_ts_dialect fe)

  abbrev plx_tsql_validator : Validator
  plx_tsql_validator access = plx_generic_validator access (plx_tsql_dialect fe)

  abbrev plx_tsql_inline_handler : InlineHandler
  plx_tsql_inline_handler langs = plx_generic_inline_handler langs (plx_tsql_dialect fe)

  abbrev plx_go_validator : Validator
  plx_go_validator access = plx_generic_validator access (plx_go_dialect fe)

  abbrev plx_go_inline_handler : InlineHandler
  plx_go_inline_handler langs = plx_generic_inline_handler langs (plx_go_dialect fe)
