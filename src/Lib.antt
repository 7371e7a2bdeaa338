-- ===== src/Lib.antt =====
-- A verification library for plx, a PostgreSQL extension that turns function bodies written in
-- nine dialects into plpgsql when the function is created.
--
-- The program. A dialect's validator (src/plx_dialect_*.c) calls the generic validator of
-- src/plx_core.c, which transpiles the source of a function by `plx_transpile` of
-- src/plx_transpile.c and writes the text back to pg_proc; a DO block goes by the generic inline
-- handler. The text begins with a sentinel, by which it is known when it comes again, and ends
-- with the original source in base64. src/plx_strbuild.c is apart: a text buffer that loops append
-- to in place.
--
-- The files.
--   Prelude         shared names: tests on numbers, lists, C strings as lists of bytes, counters
--                   that may be negative (Prelude/Int), errors as values (Prelude/Result).
--   Dialect         `PlxFuncMeta` and `PlxDialect` of src/plx.h.
--   Registry        `plx_register_dialect` and `plx_lookup_dialect`; Registry/Laws.
--   Surface         src/plx_int.h, the tables of src/plx_dialect_*.c (one child each),
--                   `kw_lookup`; Surface/Keywords.
--   Builtin, Entry  the descriptors of the dialects, `_PG_init`, the entry points; Builtin/Laws.
--   Handler         `plx_generic_validator` and `plx_generic_inline_handler`; Handler/Laws.
--   Transpile       `plx_transpile`, which selects a front end; Transpile/Stored.
--   Assemble        the text that is stored: sentinel, DECLARE section, trailer; Assemble/Recover.
--   Base64          `b64_encode_body`; Base64/RoundTrip has a decoder.
--   Plsql           the PL/SQL front end: `pl_lex` in Lexer, the tables and the scans over tokens
--                   in Words, `plsql_transpile` in Rewrite.
--   Ts              `ts_preprocess`: `ts_map_type` in Types, the scans over text in Scan, the pass
--                   in Preprocess.
--   Lexer           `lex`, the lexer of the Ruby, brace and indented styles: tokens in Token, the
--                   scans over one token in Scan, the indentation in Layout, a round of the loop
--                   in Rounds.
--   Ternary         `find_ternary_q` and `find_ternary_colon`, of the expression rewriter.
--   Tsql            the T-SQL front end: `tq_lex` in Lexer, `tq_read_type` in Types, the scans
--                   over tokens in Scan, `tq_emit_range` in Emit, the state in State, the
--                   statements in Assign, Select and Raise, those that hold statements in Blocks,
--                   `tq_stmt` and `tsql_transpile` in Parser.
--   Context         what the front ends share of `Ctx`: the locals, `indent`, `plx_err`.
--   Go              the Go front end: `go_lex` in Lexer, `go_emit_str` in Literal, `go_read_type`
--                   in Types, the scans over tokens in Scan, `go_emit_range` in Emit, the state in
--                   State, the statements in Declare, Simple, If, Range, Counting, For and
--                   Switch, `go_stmt` and `go_transpile` in Parser; Value has readers of both kinds of
--                   literals, Expr a grammar of expressions with the SQL text of each.
--   Cobol           `cob_map`, and the picture clause, `cob_type_from_pic`, in Picture.
--   Strbuild        `sb_ensure` and `make_expanded_sb` in Buffer, `plx_sb_append` in Append.
--   Tests           runs on small inputs, and instances of the results.
--
-- The correspondence. A C string is the list of the bytes in front of its NUL; a pointer into it
-- is the list of the bytes from there on, and a test `p < end` a match on that list. A
-- `StringInfo` is the list of the bytes written; its size limit is not modelled. `ereport(ERROR,
-- ...)` is the error of a `Result`. A token's pointer and length are the bytes that they span; in
-- the shared lexer the pointer stays the list from it on, of which a token spans the first `len`.
-- A position among the tokens of T-SQL and Go is the list of the tokens from it on, and a range
-- the list of its tokens; a read behind the last token is the fault of an `Outcome`
-- (Prelude/Outcome). Object ids are numbers, pg_proc is a map from ids to rows, and an expanded
-- object is a place in a store.
--
-- Loops. Scans recur on the text. The outer loops of the lexer, of the rewriting, of the pass, of
-- a picture, of the scans for a ternary and of the growth of a buffer take fuel, and return `none`
-- where it runs out; in T-SQL and Go they are cut short. The fuel is one more than the length of
-- what is left, of which each round takes a byte or a token; for the buffer it is one more than
-- the need, since a capacity from 1 on that is doubled so often is over it.
--
-- Parameters. `pg_strncasecmp` is a comparison of texts of one length; the allocator is its limit
-- and the cells that it hands out; catalog access, permissions and languages are arguments of the
-- handlers.
--
-- Not modelled. The expression rewriter but for those scans, the lowering and the block parsers,
-- and COBOL but for the names and the pictures: `FrontEnds` (Transpile) stands for them, and for
-- what a run of the T-SQL or the Go front end comes to that reads behind its tokens. The scripts
-- and the server's own calls are left out; so is the count of open loops of T-SQL and Go, which is
-- never read.
pub mod Prelude
pub mod Base64
pub mod Plsql
pub mod Ts
pub mod Strbuild
pub mod Surface
pub mod Cobol
pub mod Ternary
pub mod Lexer
pub mod Tsql
pub mod Go
pub mod Dialect
pub mod Assemble
pub mod Context
pub mod Transpile
pub mod Builtin
pub mod Handler
pub mod Entry
mod Tests
pub mod Registry
