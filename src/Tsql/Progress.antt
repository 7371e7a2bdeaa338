-- ===== src/Tsql/Progress.antt =====
-- The T-SQL front end ends, and goes on.
pub mod Brackets
pub mod Emit
pub mod Scan
pub mod Leaves
pub mod Assign
pub mod Select
pub mod Loop
pub mod Blocks
pub mod Laws
pub mod Lexer
