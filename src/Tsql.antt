-- ===== src/Tsql.antt =====
-- The T-SQL front end of src/plx_transpile.c.
pub mod Token
pub mod Lexer
pub mod Types
pub mod Emit
pub mod Scan
pub mod State
pub mod Assign
pub mod Select
pub mod Raise
pub mod Blocks
pub mod Parser
pub mod Progress
