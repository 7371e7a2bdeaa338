-- ===== src/Dialect.antt =====
-- `PlxFuncMeta` and `PlxDialect` of src/plx.h.
use plx.Prelude.Result.{Result}
use plx.Prelude.{ℕ, Bytes, Bool, List, Option}

-- What the catalog says of the function: object ids are numbers, an argument may have no name, and
-- no modes are given where every argument is an input.
pub record PlxFuncMeta : Type 0 where
  pub argtypes : List ℕ
  pub argnames : List (Option Bytes)
  pub argmodes : Option (List ℕ)
  pub rettype : ℕ
  pub retset : Bool
  pub prokind : ℕ
  pub funcoid : ℕ

abbrev pub plx_abi_version : ℕ
plx_abi_version = 1

-- `meta` is NULL for a DO block.
pub record PlxDialect : Type 0 where
  pub abi_version : ℕ
  pub lanname : Bytes
  pub transpile : Bytes → Option PlxFuncMeta → Result Bytes
  pub flags : ℕ
