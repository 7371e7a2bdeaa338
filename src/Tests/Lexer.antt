-- ===== src/Tests/Lexer.antt =====
-- The shared lexer, run.
use plx.Lexer.Layout.{indent_from, layout}
use plx.Lexer.Rounds.{lex_round}
use plx.Lexer.Laws.{Refused, lex_total, lex-Spans, lex-levels}
use plx.Lexer.Sound.{Spans, levels}
use plx.Lexer.Scan.{word_rest, word_token, number_rest, drop_while, find_close}
use plx.Lexer.Token.{
  Tok, TokKind, text_of, suppress_newline, t_ident, t_op, t_kw, t_int, t_float, t_comma, t_lbracket,
  t_rbracket, t_newline, t_indent, t_dedent, t_eof,
}
use plx.Lexer.{lex, lex_from}
use plx.Prelude.Result.{Result, ok, err}
use plx.Prelude.{ℕ, Bytes, codes, List, [], ◌∷◌, Option, none, some, ◌≡◌, refl}
use plx.Surface.Defs.{PlxSurface, kw_lookup}
use plx.Surface.Python.{py_surface}
use plx.Surface.Ruby.{ruby_surface}
use plx.Ternary.{string_rest}
use plx.Ts.Scan.{is_ident, is_ident_start}

abbrev lines_of : Option (Result (List Tok)) → List (TokKind × ℕ × Bytes)
lines_of none = []
lines_of (some (err e)) = []
lines_of (some (ok ts)) = all ts
  where
    all : List Tok → List (TokKind × ℕ × Bytes)
    all [] = []
    all (t ∷ ts) = (t.kind, t.line, text_of t) ∷ all ts

lexed : PlxSurface → Bytes → List (TokKind × ℕ × Bytes)
unfolding lex lex_from lex_round word_rest word_token number_rest suppress_newline kw_lookup
    string_rest is_ident is_ident_start drop_while find_close indent_from layout
lexed surf body = lines_of (lex surf body)

words :
    lexed ruby_surface (codes "x = [1,\n2.5] # c\n")
    ≡ (t_ident, 1, codes "x")
      ∷ (t_op, 1, codes "=")
      ∷ (t_lbracket, 1, codes "[")
      ∷ (t_int, 1, codes "1")
      ∷ (t_comma, 1, codes ",")
      ∷ (t_float, 2, codes "2.5")
      ∷ (t_rbracket, 2, codes "]")
      ∷ (t_newline, 3, [])
      ∷ (t_newline, 3, [])
      ∷ (t_eof, 3, [])
      ∷ []
unfolding lexed
words = refl

-- Line 3 of this body is reported as line 4: the blank line is counted when the lexer looks for the
-- next line's column, and again when it comes to it.
blocks :
    lexed py_surface (codes "if a:\n\n  b\nc")
    ≡ (t_kw, 1, codes "if")
      ∷ (t_ident, 1, codes "a")
      ∷ (t_op, 1, codes ":")
      ∷ (t_newline, 2, [])
      ∷ (t_indent, 3, [])
      ∷ (t_newline, 4, [])
      ∷ (t_ident, 4, codes "b")
      ∷ (t_newline, 5, [])
      ∷ (t_dedent, 5, [])
      ∷ (t_ident, 5, codes "c")
      ∷ (t_newline, 5, [])
      ∷ (t_eof, 5, [])
      ∷ []
unfolding lexed
blocks = refl

abbrev block : Bytes
block = codes "if a:\n  b\nc"

block_toks : List Tok
unfolding lexed
block_toks = elim (lex py_surface block) [ some (ok ts) ↦ ts | _ ↦ [] ]

block_made : lex py_surface block ≡ some (ok block_toks)
unfolding block_toks
block_made = refl

lex_total_example :
    (res : Result (List Tok)) × (lex py_surface block ≡ some res) × Refused py_surface block res
lex_total_example = lex_total py_surface block

lex-Spans_example : Spans block block_toks []
lex-Spans_example = lex-Spans py_surface block block_toks block_made

lex-levels_example : levels 0 block_toks ≡ some 0
lex-levels_example = lex-levels py_surface block block_toks block_made
