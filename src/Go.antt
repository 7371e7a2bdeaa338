-- ===== src/Go.antt =====
-- The Go front end of src/plx_transpile.c.
pub mod Token
pub mod Lexer
pub mod Literal
pub mod Scan
pub mod Types
pub mod Emit
pub mod Expr
pub mod State
pub mod Declare
pub mod Simple
pub mod If
pub mod Counting
pub mod Range
pub mod For
pub mod Switch
pub mod Parser
pub mod Progress
pub mod Value
