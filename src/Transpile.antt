-- ===== src/Transpile.antt =====
-- `plx_transpile` of src/plx_transpile.c: which front end a surface selects, and the assembly of
-- what the front end leaves.
pub mod Stored
use mathlib.Core.Option
use plx.Assemble.{PlxLocal2, assemble, assemble_plain}
use plx.Dialect.{PlxFuncMeta}
use plx.Lexer.Token.{Tok}
use plx.Lexer.{lex}
use plx.Plsql.Rewrite.{plsql_transpile}
use plx.Prelude.Result.{Result, ok, err, syntax, ◌>>=◌}
use plx.Prelude.Outcome.{Outcome, done, raised, fault, cut_short}
use plx.Prelude.{Bytes, Bool, true, false, if◌then◌else◌, List, [], ◌∷◌, Option, none, some}
use plx.Surface.Defs.{PlxSurface, PlxBlockStyle, keyword_end, brace, indent, cobol, plsql, tsql, go}
use plx.Go.Parser.{go_transpile}
use plx.Tsql.Parser.{tsql_transpile}
use plx.Ts.Preprocess.{ts_preprocess}

-- What a front end leaves in the context: the locals to declare, and the text of the body.
abbrev pub Emitted : Type 0
Emitted = List PlxLocal2 × Bytes

-- The front ends that this library does not model: the walk over the tokens of Ruby, brace and
-- indented programs, and that of COBOL, over the body that they read. `undefined` is what a run of the
-- T-SQL or the Go front end comes to that reads behind its tokens. `ci` is the server's comparison of
-- texts of one length but for case.
pub record FrontEnds : Type 0 where
  pub statements : PlxSurface → Option PlxFuncMeta → List Tok → Result Emitted
  pub cobol_transpile : Option PlxFuncMeta → Bytes → Result Emitted
  pub undefined : Bytes → Result Emitted
  pub ci : Bytes → Bytes → Bool

-- A loop cut short is a report with no text, which no line of the source makes.
abbrev pub finished : Option Bytes → Result Bytes
finished none = err (syntax 0 [])
finished (some b) = ok b

abbrev pub tokens : Option (Result (List Tok)) → Result (List Tok)
tokens none = err (syntax 0 [])
tokens (some made) = made

abbrev retset_of : Option PlxFuncMeta → Bool
retset_of none = false
retset_of (some meta) = meta.retset

-- What the T-SQL or the Go front end leaves.
abbrev pub left_by : Outcome Emitted → Result Emitted → Result Emitted
left_by (done e) undefined = ok e
left_by (raised e) undefined = err e
left_by fault undefined = undefined
left_by cut_short undefined = err (syntax 0 [])

module _ (fe : FrontEnds) where
  -- The body that the shared lexer reads.
  unfoldable pub lexed_body : PlxSurface → Bytes → Result Bytes
  lexed_body surf body = if surf.ts_types then finished (ts_preprocess fe.ci body) else ok body

  -- The tokens of that body.
  unfoldable pub lexed_toks : PlxSurface → Bytes → Result (List Tok)
  unfolding lexed_body
  lexed_toks surf body = lexed_body surf body >>= λ read. tokens (lex surf read)

  abbrev pub assembled : PlxSurface → Bytes → Result Emitted → Result Bytes
  assembled surf body emitted = emitted >>= λ e. assemble surf.lanname body e.0 e.1

  abbrev pub walked : PlxSurface → Option PlxFuncMeta → Bytes → Result Bytes
  walked surf meta body = assembled surf body (lexed_toks surf body >>= fe.statements surf meta)

  unfoldable pub transpile_by :
      PlxBlockStyle → PlxSurface → Option PlxFuncMeta → Bytes → Result Bytes
  unfolding lexed_toks
  transpile_by cobol surf meta body = assembled surf body (fe.cobol_transpile meta body)
  transpile_by tsql surf meta body =
      assembled surf body (left_by (tsql_transpile fe.ci (retset_of meta) body) (fe.undefined body))
  transpile_by go surf meta body =
      assembled surf body (left_by (go_transpile fe.ci (retset_of meta) body) (fe.undefined body))
  transpile_by plsql surf meta body =
      finished (plsql_transpile fe.ci body) >>= λ out. ok (assemble_plain surf.lanname body out)
  transpile_by keyword_end surf meta body = walked surf meta body
  transpile_by brace surf meta body = walked surf meta body
  transpile_by indent surf meta body = walked surf meta body

  -- The context that receives the scratch allocations has no part in the result.
  unfoldable pub plx_transpile : Bytes → Option PlxFuncMeta → PlxSurface → Result Bytes
  unfolding transpile_by
  plx_transpile body meta surf = transpile_by surf.block_style surf meta body
