-- ===== src/Builtin.antt =====
-- The descriptors of the nine dialects (src/plx_dialect_*.c) and their registration by `_PG_init`
-- (src/plx_core.c).
pub mod Laws
use plx.Dialect.{PlxFuncMeta, PlxDialect, plx_abi_version}
use plx.Prelude.Result.{Result}
use plx.Prelude.{Bytes, codes, List, [], ◌∷◌, Option}
use plx.Registry.{Registry, register_all}
use plx.Surface.Defs.{plx_trusted}
use plx.Surface.Cobol.{cob_surface}
use plx.Surface.Go.{go_surface}
use plx.Surface.Js.{js_surface}
use plx.Surface.Php.{php_surface}
use plx.Surface.Plsql.{plsql_surface}
use plx.Surface.Python.{py_surface}
use plx.Surface.Ruby.{ruby_surface}
use plx.Surface.Ts.{ts_surface}
use plx.Surface.Tsql.{tsql_surface}
use plx.Transpile.{FrontEnds, plx_transpile}

module _ (fe : FrontEnds) where
  abbrev pub ruby_transpile : Bytes → Option PlxFuncMeta → Result Bytes
  ruby_transpile src meta = plx_transpile fe src meta ruby_surface

  abbrev pub plx_ruby_dialect : PlxDialect
  plx_ruby_dialect = record {
    abi_version = plx_abi_version;
    lanname = codes "plxruby";
    transpile = ruby_transpile;
    flags = plx_trusted;
  }

  abbrev pub php_transpile : Bytes → Option PlxFuncMeta → Result Bytes
  php_transpile src meta = plx_transpile fe src meta php_surface

  abbrev pub plx_php_dialect : PlxDialect
  plx_php_dialect = record {
    abi_version = plx_abi_version;
    lanname = codes "plxphp";
    transpile = php_transpile;
    flags = plx_trusted;
  }

  abbrev pub js_transpile : Bytes → Option PlxFuncMeta → Result Bytes
  js_transpile src meta = plx_transpile fe src meta js_surface

  abbrev pub plx_js_dialect : PlxDialect
  plx_js_dialect = record {
    abi_version = plx_abi_version;
    lanname = codes "plxjs";
    transpile = js_transpile;
    flags = plx_trusted;
  }

  abbrev pub py_transpile : Bytes → Option PlxFuncMeta → Result Bytes
  py_transpile src meta = plx_transpile fe src meta py_surface

  abbrev pub plx_py_dialect : PlxDialect
  plx_py_dialect = record {
    abi_version = plx_abi_version;
    lanname = codes "plxpython3";
    transpile = py_transpile;
    flags = plx_trusted;
  }

  abbrev pub cob_transpile : Bytes → Option PlxFuncMeta → Result Bytes
  cob_transpile src meta = plx_transpile fe src meta cob_surface

  abbrev pub plx_cobol_dialect : PlxDialect
  plx_cobol_dialect = record {
    abi_version = plx_abi_version;
    lanname = codes "plxcobol";
    transpile = cob_transpile;
    flags = plx_trusted;
  }

  abbrev pub plsql_transpile_body : Bytes → Option PlxFuncMeta → Result Bytes
  plsql_transpile_body src meta = plx_transpile fe src meta plsql_surface

  abbrev pub plx_plsql_dialect : PlxDialect
  plx_plsql_dialect = record {
    abi_version = plx_abi_version;
    lanname = codes "plxplsql";
    transpile = plsql_transpile_body;
    flags = plx_trusted;
  }

  abbrev pub ts_transpile : Bytes → Option PlxFuncMeta → Result Bytes
  ts_transpile src meta = plx_transpile fe src meta ts_surface

  abbrev pub plx_ts_dialect : PlxDialect
  plx_ts_dialect = record {
    abi_version = plx_abi_version;
    lanname = codes "plxts";
    transpile = ts_transpile;
    flags = plx_trusted;
  }

  abbrev pub tsql_transpile_entry : Bytes → Option PlxFuncMeta → Result Bytes
  tsql_transpile_entry src meta = plx_transpile fe src meta tsql_surface

  abbrev pub plx_tsql_dialect : PlxDialect
  plx_tsql_dialect = record {
    abi_version = plx_abi_version;
    lanname = codes "plxtsql";
    transpile = tsql_transpile_entry;
    flags = plx_trusted;
  }

  abbrev pub go_transpile_entry : Bytes → Option PlxFuncMeta → Result Bytes
  go_transpile_entry src meta = plx_transpile fe src meta go_surface

  abbrev pub plx_go_dialect : PlxDialect
  plx_go_dialect = record {
    abi_version = plx_abi_version;
    lanname = codes "plxgo";
    transpile = go_transpile_entry;
    flags = plx_trusted;
  }

  -- In the order of `_PG_init`.
  abbrev pub builtins : List PlxDialect
  builtins =
      plx_ruby_dialect ∷ plx_php_dialect ∷ plx_js_dialect ∷ plx_py_dialect ∷ plx_cobol_dialect
      ∷ plx_plsql_dialect ∷ plx_ts_dialect ∷ plx_tsql_dialect ∷ plx_go_dialect ∷ []

  -- `load_file` of plpgsql, in front of the registrations, is the server's.
  unfoldable pub pg_init : Registry → Result Registry
  pg_init = register_all builtins
