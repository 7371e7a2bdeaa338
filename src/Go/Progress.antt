-- ===== src/Go/Progress.antt =====
-- What the Go front end takes and leaves: it stops, each statement takes a token, and expressions
-- are always written.
pub mod Rounds
pub mod Lexer
pub mod Brackets
pub mod Calls
pub mod Emit
pub mod Scan
pub mod State
pub mod Declare
pub mod Simple
pub mod If
pub mod Range
pub mod For
pub mod Switch
pub mod Laws
