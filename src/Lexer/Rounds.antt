-- ===== src/Lexer/Rounds.antt =====
-- A round of the loop of `lex`, at the byte `c` with `r` behind it.
use plx.Lexer.Layout.{indent_from, layout}
use plx.Lexer.Scan.{
  drop_while, starts, is_blank, is_space, not_newline, is_digit, trim_end_of, between,
  annotation_token, find_close, word_rest, word_token, number_rest, string_token, mark,
}
use plx.Lexer.Token.{
  Tok, TokKind, token, t_newline, t_ident, t_int, t_float, suppress_newline, t_lparen, t_rparen,
  t_lbracket, t_rbracket,
}
use plx.Prelude.Result.{Result, ok, ◌>>=◌}
use plx.Prelude.{
  ℕ, suc, ◌+◌, ◌-◌, Bytes, length, drop, Bool, true, false, not, ◌&&◌, ◌||◌, ◌==◌, ltb,
  if◌then◌else◌, starts_with, List, [], ◌∷◌, Option, none, some,
}
use plx.Surface.Defs.{PlxSurface, PlxBlockStyle, indent}
use plx.Ternary.{string_rest}
use plx.Ts.Scan.{is_ident_start, is_ident}

abbrev pub is_indent : PlxBlockStyle → Bool
is_indent indent = true
is_indent _ = false

-- The variables of the loop: the line, the brackets open, the stack of indentations from its top
-- down, and the last token, if any.
pub record LexState : Type 0 where
  pub line : ℕ
  pub paren : ℕ
  pub indents : List ℕ
  pub prev : Option Tok

-- What a round pushes, the variables behind it, and what is left of the body.
pub record Round : Type 0 where
  pub toks : List Tok
  pub state : LexState
  pub left : Bytes

abbrev pub skip : LexState → Bytes → Result Round
skip st rest = ok (record { toks = []; state = st; left = rest })

abbrev pub push : LexState → Tok → Bytes → Result Round
push st t rest = ok (record { toks = t ∷ []; state = st; left = rest })

-- Behind a newline of the indented style: the NEWLINE, and what the next line's column gives. The
-- body goes on behind the newline, whatever lines were looked at.
unfoldable pub newline_layout : LexState → ℕ → ℕ → Bytes → Bytes → Result Round
newline_layout st lines col ahead r =
    let line = suc st.line in
    let newline = token t_newline line r r in
    let st' = record st { line = line + lines } in
    let levels = layout (line + lines) r col st.indents >>= λ made.
    ok (record { toks = newline ∷ made.0; state = record st' { indents = made.1 }; left = r }) in
    elim ahead [ [] ↦ push st' newline r | _ ∷ _ ↦ levels ]

unfoldable pub newline_round : PlxSurface → LexState → Bytes → Result Round
unfolding newline_layout
newline_round surf st r =
    let (col, lines, ahead) = indent_from false 0 0 r in
    let st' = record st { line = suc st.line } in
    if ltb 0 st.paren || (not (is_indent surf.block_style) && suppress_newline st.prev)
    then skip st' r
    else if is_indent surf.block_style
    then newline_layout st lines col ahead r
    else push st' (token t_newline (suc st.line) r r) r

-- Behind the lead of an annotation of a line, such as Ruby's `#::`.
unfoldable pub annotation_round : LexState → Bytes → Result Round
annotation_round st behind =
    let from = drop_while is_blank behind in
    let to = drop_while not_newline from in
    push st (annotation_token st.line (trim_end_of is_space (between from to))) to

-- A block comment, from behind its `/*`; with `::` in front it is an annotation.
unfoldable pub comment_round : LexState → Bytes → Result Round
comment_round st r =
    let q = drop_while is_blank r in
    let from = drop_while is_blank (drop 2 q) in
    let to = find_close from in
    if starts (λ c. c == b':') q && starts (λ c. c == b':') (drop 1 q)
    then push st (annotation_token st.line (trim_end_of is_blank (between from to))) (drop 2 to)
    else skip st (drop 2 (find_close r))

-- Python's `f"…"`, whose token spans the `f` too.
unfoldable pub fstring_round : LexState → ℕ → Bytes → Result Round
fstring_round st c [] = skip st []
fstring_round st c (q ∷ r) =
    let rest = string_rest q r in push st (string_token st.line q true (c ∷ q ∷ r) rest) rest

-- `paren` behind a bracket
abbrev pub paren_behind : TokKind → ℕ → ℕ
paren_behind t_lparen n = suc n
paren_behind t_lbracket n = suc n
paren_behind t_rparen n = n - 1
paren_behind t_rbracket n = n - 1
paren_behind _ n = n

unfoldable pub mark_round : LexState → ℕ → Bytes → Result Round
unfolding mark
mark_round st c r =
    let (kind, rest) = mark c r in
    push (record st { paren = paren_behind kind st.paren }) (token kind st.line (c ∷ r) rest) rest

-- The parts of a round that make a token of text.
unfoldable pub text_round : PlxSurface → LexState → ℕ → Bytes → Result Round
unfolding fstring_round mark_round
text_round surf st c r =
    if ltb 0 surf.var_sigil && c == surf.var_sigil && starts is_ident_start r
    then push st (token t_ident st.line r (drop_while is_ident r)) (drop_while is_ident r)
    else if surf.fstrings && (c == b'f' || c == b'F') && starts (λ d. d == b'"' || d == b'\'') r
    then fstring_round st c r
    else if is_ident_start c
    then push st (word_token surf st.line (c ∷ r)) (word_rest (c ∷ r))
    else if is_digit c
    then push st
        (token (if (number_rest c r).1 then t_float else t_int) st.line (c ∷ r) (number_rest c r).0)
        (number_rest c r).0
    else if c == b'\'' || c == b'"' || c == b'`'
    then push st (string_token st.line c false (c ∷ r) (string_rest c r)) (string_rest c r)
    else mark_round st c r

-- The lead of an annotation stands here; none is `type_ann` NULL.
abbrev pub annotated : Option Bytes → Bytes → Bool
annotated none p = false
annotated (some lead) p = starts_with lead p

abbrev pub behind_lead : Option Bytes → Bytes → Bytes
behind_lead none p = p
behind_lead (some lead) p = drop (length lead) p

unfoldable pub lex_round : PlxSurface → LexState → ℕ → Bytes → Result Round
unfolding newline_round annotation_round comment_round text_round
lex_round surf st c r =
    if is_space c
    then skip st r
    else if c == b'\n'
    then newline_round surf st r
    else if annotated surf.type_ann (c ∷ r)
    then annotation_round st (behind_lead surf.type_ann (c ∷ r))
    else if surf.cmt_block && c == b'/' && starts (λ d. d == b'*') r
    then comment_round st (drop 1 r)
    else if surf.cmt_hash && c == b'#'
    then skip st (drop_while not_newline r)
    else if surf.cmt_slash && c == b'/' && starts (λ d. d == b'/') r
    then skip st (drop_while not_newline r)
    else text_round surf st c r
