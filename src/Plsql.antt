-- ===== src/Plsql.antt =====
-- The PL/SQL front end of src/plx_transpile.c: `pl_lex` is in Lexer, the word tables in Words, and
-- the rewriting of the token stream in Rewrite.
pub mod Token
pub mod Lexer
pub mod Words
pub mod Rewrite
