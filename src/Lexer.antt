-- ===== src/Lexer.antt =====
-- `lex` of src/plx_transpile.c, the lexer that the Ruby, brace and indented styles share: a round
-- of its loop at each kind of byte is in Rounds, the loop here.
pub mod Token
pub mod Scan
pub mod Layout
pub mod Rounds
pub mod Spans
pub mod Sound
pub mod Laws
use mathlib.Core.Option
use plx.Lexer.Layout.{indent_from, dedents}
use plx.Lexer.Rounds.{LexState, Round, lex_round, is_indent}
use plx.Lexer.Token.{Tok, token, t_newline, t_dedent, t_eof}
use plx.Prelude.Result.{Result, ok, err, map_ok}
use plx.Prelude.{
  ℕ, zero, suc, ◌-◌, Bytes, length, Bool, true, false, if◌then◌else◌, List, [], ◌∷◌, ◌++◌, Option,
  none, some,
}
use plx.Surface.Defs.{PlxSurface}

-- The column of the first line that is no comment, in the indented style.
abbrev pub base_indent : PlxSurface → Bytes → ℕ
base_indent surf body = if is_indent surf.block_style then (indent_from false 0 0 body).0 else 0

abbrev pub start : PlxSurface → Bytes → LexState
start surf body = record { line = 1; paren = 0; indents = base_indent surf body ∷ []; prev = none }

abbrev pub last_of : Option Tok → List Tok → Option Tok
last_of prev [] = prev
last_of prev (t ∷ ts) = last_of (some t) ts

-- The newline, the levels that are still open, and the end.
unfoldable pub finish : PlxSurface → LexState → List Tok
finish surf st =
    token t_newline st.line [] []
    ∷ ((if is_indent surf.block_style
          then dedents (length st.indents - 1) (token t_dedent st.line [] [])
          else [])
        ++ token t_eof st.line [] [] ∷ [])

-- On fuel; `none` is a loop cut short.
unfoldable pub lex_from : PlxSurface → ℕ → LexState → Bytes → Option (Result (List Tok))
unfolding finish
lex_from surf zero st r = none
lex_from surf (suc fuel) st [] = some (ok (finish surf st))
lex_from surf (suc fuel) st (c ∷ r) = elim (lex_round surf st c r) [
  | err e ↦ some (err e)
  | ok w ↦
      Option.map (map_ok (λ ts. w.toks ++ ts))
        (lex_from surf fuel (record w.state { prev = last_of st.prev w.toks }) w.left)
]

unfoldable pub lex : PlxSurface → Bytes → Option (Result (List Tok))
unfolding lex_from
lex surf body = lex_from surf (suc (length body)) (start surf body) body
