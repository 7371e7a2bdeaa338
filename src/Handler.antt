-- ===== src/Handler.antt =====
-- `build_meta`, the generic validator and the generic inline handler of src/plx_core.c, and the
-- trampolines of src/plx_dialect_*.c. The catalog and the language lookups are the server's:
-- pg_proc is a map from object ids to rows, and what the rest of the server answers is a parameter.
pub mod Laws
use plx.Assemble.{plx_has_sentinel}
use plx.Dialect.{PlxFuncMeta, PlxDialect}
use plx.Prelude.Result.{
  Result, ok, err, no_function, null_prosrc, no_plpgsql, no_inline_handler, ◌>>=◌,
}
use plx.Prelude.{ℕ, Bytes, Bool, true, false, not, ◌==◌, if◌then◌else◌, List, Option, none, some}

-- The columns of pg_proc that are read, with the arguments as `get_func_arg_info` gives them.
pub record ProcRow : Type 0 where
  pub prosrc : Option Bytes
  pub prorettype : ℕ
  pub proretset : Bool
  pub prokind : ℕ
  pub argtypes : List ℕ
  pub argnames : List (Option Bytes)
  pub argmodes : Option (List ℕ)

abbrev pub Catalog : Type 0
Catalog = ℕ → Option ProcRow

-- `CatalogTupleUpdate` of one row
abbrev pub update : Catalog → ℕ → ProcRow → Catalog
update cat oid row k = if k == oid then some row else cat k

unfoldable pub build_meta : ProcRow → ℕ → PlxFuncMeta
build_meta row oid = record {
  argtypes = row.argtypes;
  argnames = row.argnames;
  argmodes = row.argmodes;
  rettype = row.prorettype;
  retset = row.proretset;
  prokind = row.prokind;
  funcoid = oid;
}

-- The text is transpiled and put in place of the source, unless it has been before.
unfoldable pub validate_row : PlxDialect → Catalog → ℕ → ProcRow → Bytes → Result Catalog
unfolding build_meta
validate_row d cat oid row src =
    if plx_has_sentinel src
    then ok cat
    else d.transpile src (some (build_meta row oid)) >>= λ plpgsql.
        ok (update cat oid (record row { prosrc = some plpgsql }))

unfoldable pub validate_found : PlxDialect → Catalog → ℕ → Option ProcRow → Result Catalog
unfolding validate_row
validate_found d cat oid none = err (no_function oid)
validate_found d cat oid (some row) = elim row.prosrc [
  | none ↦ err (null_prosrc oid)
  | some src ↦ validate_row d cat oid row src
]

-- `access` is `CheckFunctionValidatorAccess`.
unfoldable pub plx_generic_validator : (ℕ → Bool) → PlxDialect → Catalog → ℕ → Result Catalog
unfolding validate_found
plx_generic_validator access d cat oid =
    if not (access oid) then ok cat else validate_found d cat oid (cat oid)

-- `InlineCodeBlock`
pub record InlineCodeBlock : Type 0 where
  pub source_text : Bytes
  pub lang_oid : ℕ
  pub lang_is_trusted : Bool
  pub atomic : Bool

-- `get_language_oid("plpgsql", false)`, which may raise, and the column `laninline` of pg_language.
pub record Languages : Type 0 where
  pub plpgsql_oid : Result ℕ
  pub laninline : ℕ → Option ℕ

-- The inline handler of plpgsql; object id 0 is none.
unfoldable pub inline_oid_of : Option ℕ → Result ℕ
inline_oid_of none = err no_plpgsql
inline_oid_of (some oid) = if oid == 0 then err no_inline_handler else ok oid

-- The function that is called, and the block that it is called with.
unfoldable pub plx_generic_inline_handler :
    Languages → PlxDialect → InlineCodeBlock → Result (ℕ × InlineCodeBlock)
unfolding inline_oid_of
plx_generic_inline_handler langs d block = do
  transpiled ← d.transpile block.source_text none
  plpgsql ← langs.plpgsql_oid
  inline ← inline_oid_of (langs.laninline plpgsql)
  ok (inline, record block { source_text = transpiled; lang_oid = plpgsql })
