-- ===== src/Builtin/Laws.antt =====
-- The registry after `_PG_init`.
use plx.Builtin.{builtins, pg_init}
use plx.Dialect.{PlxDialect, plx_abi_version}
use plx.Prelude.Result.{ok}
use plx.Prelude.{◌+◌, ◌≤◌, All, Bytes, codes, length, List, [], ◌∷◌, ◌≡◌, refl}
use plx.Registry.Laws.{or_else, lookup-register_all, register_all_ok, register_all_idem}
use plx.Registry.{Registry, plx_max_dialects, plx_lookup_dialect}
use plx.Surface.Cobol.{cob_surface}
use plx.Surface.Defs.{PlxSurface, plx_trusted}
use plx.Surface.Go.{go_surface}
use plx.Surface.Js.{js_surface}
use plx.Surface.Php.{php_surface}
use plx.Surface.Plsql.{plsql_surface}
use plx.Surface.Python.{py_surface}
use plx.Surface.Ruby.{ruby_surface}
use plx.Surface.Ts.{ts_surface}
use plx.Surface.Tsql.{tsql_surface}
use plx.Transpile.{FrontEnds, plx_transpile}

module _ (fe : FrontEnds) where
  -- A trusted dialect of this core that transpiles a surface.
  abbrev pub dialect_of : Bytes → PlxSurface → PlxDialect
  dialect_of name surf = record {
    abi_version = plx_abi_version;
    lanname = name;
    transpile = λ src meta. plx_transpile fe src meta surf;
    flags = plx_trusted;
  }

  -- The nine languages by name, each with its surface.
  abbrev pub languages : List PlxDialect
  languages =
      dialect_of (codes "plxruby") ruby_surface
      ∷ dialect_of (codes "plxphp") php_surface
      ∷ dialect_of (codes "plxjs") js_surface
      ∷ dialect_of (codes "plxpython3") py_surface
      ∷ dialect_of (codes "plxcobol") cob_surface
      ∷ dialect_of (codes "plxplsql") plsql_surface
      ∷ dialect_of (codes "plxts") ts_surface
      ∷ dialect_of (codes "plxtsql") tsql_surface
      ∷ dialect_of (codes "plxgo") go_surface
      ∷ []

builtins_abi : (fe : FrontEnds) → All (λ d. d.abi_version ≡ plx_abi_version) (builtins fe)
builtins_abi fe = (refl, (refl, (refl, (refl, (refl, (refl, (refl, (refl, (refl, tt)))))))))

-- Where the registry has room for nine dialects, `_PG_init` succeeds. A name that was registered
-- before is looked up as before; every other name gives the trusted dialect with the surface of
-- that language if it is one of the nine languages, and nothing else. When the module is loaded
-- again it changes nothing.
pub pg_init_lem :
    (fe : FrontEnds) (reg : Registry)
    → length reg + 9 ≤ plx_max_dialects
    → (reg' : Registry) × (pg_init fe reg ≡ ok reg')
      × (pg_init fe reg' ≡ ok reg')
      × ((n : Bytes)
          → plx_lookup_dialect reg' n
            ≡ or_else (plx_lookup_dialect reg n) (plx_lookup_dialect (languages fe) n))
unfolding pg_init
pg_init_lem fe reg room =
    let (reg', e) = register_all_ok (builtins fe) reg (builtins_abi fe) room in
    let (again, all) = register_all_idem (builtins fe) reg e in
    (reg', e, again, λ n. lookup-register_all (builtins fe) reg n e)
