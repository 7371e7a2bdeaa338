-- ===== src/Surface.antt =====
-- What a dialect tells the shared transpiler (src/plx_int.h), the nine surfaces of the files
-- src/plx_dialect_*.c, and the keyword lookup of src/plx_transpile.c.
pub mod Defs
pub mod Ruby
pub mod Php
pub mod Js
pub mod Ts
pub mod Python
pub mod Cobol
pub mod Plsql
pub mod Tsql
pub mod Go
pub mod Keywords
