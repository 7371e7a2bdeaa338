-- ===== src/Registry.antt =====
-- The dialect registry of src/plx_core.c. `plx_dialects[0 .. plx_ndialects)` is a list.
pub mod Laws
use plx.Dialect.{PlxDialect, plx_abi_version}
use plx.Prelude.Result.{Result, ok, err, abi_mismatch, too_many_dialects, ◌>>=◌}
use plx.Prelude.{
  ℕ, ◌+◌, Bytes, str_eq, leb, ◌==◌, if◌then◌else◌, not, Bool, true, false, length, List, [], ◌∷◌,
  ◌++◌, Option, none, some,
}

abbrev pub Registry : Type 0
Registry = List PlxDialect

abbrev pub plx_max_dialects : ℕ
plx_max_dialects = 32

-- The first dialect of that name.
unfoldable pub plx_lookup_dialect : Registry → Bytes → Option PlxDialect
plx_lookup_dialect [] lanname = none
plx_lookup_dialect (x ∷ xs) lanname =
    if str_eq x.lanname lanname then some x else plx_lookup_dialect xs lanname

-- The loop that looks for a dialect of that name.
unfoldable pub is_registered : Registry → Bytes → Bool
is_registered [] lanname = false
is_registered (x ∷ xs) lanname = if str_eq x.lanname lanname then true else is_registered xs lanname

unfoldable pub plx_register_dialect : PlxDialect → Registry → Result Registry
plx_register_dialect d reg =
    if not (d.abi_version == plx_abi_version)
    then err (abi_mismatch d.lanname d.abi_version)
    else if is_registered reg d.lanname
    then ok reg
    else if leb plx_max_dialects (length reg)
    then err too_many_dialects
    else ok (reg ++ d ∷ [])

-- Registrations in a row, as `_PG_init` makes them; the first error ends them.
unfoldable pub register_all : List PlxDialect → Registry → Result Registry
register_all [] reg = ok reg
register_all (d ∷ ds) reg = plx_register_dialect d reg >>= register_all ds
