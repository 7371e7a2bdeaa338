-- ===== src/Go/Lexer.antt =====
-- `go_lex`: a round of its loop at each kind of byte, the loop, and the semicolons at line breaks.
use mathlib.Core.Option
use plx.Lexer.Scan.{drop_while, starts, not_newline, between, is_digit}
use plx.Prelude.Result.{Result, ok, err, map_ok, syntax}
use plx.Prelude.{
  ℕ, zero, suc, ◌+◌, Bytes, codes, length, take, drop, str_eq, Bool, false, not, ◌&&◌, ◌||◌, ◌==◌,
  within, if◌then◌else◌, List, [], ◌∷◌, ◌++◌, Option, none, some,
}
use plx.Go.Token.{
  GoTok, GoKind, go_eof, go_word, go_num, go_str, go_op, go_lp, go_rp, go_lbrace, go_rbrace,
  go_lbrack, go_rbrack, go_comma, go_semi, go_dot, go_asi_kind,
}
use plx.Tsql.Lexer.{is_alpha, is_name, newlines}

-- What a round pushes, the line behind it, and what is left of the body.
pub record Round : Type 0 where
  pub toks : List GoTok
  pub line : ℕ
  pub left : Bytes

abbrev skip : ℕ → Bytes → Result Round
skip line rest = ok (record { toks = []; line = line; left = rest })

-- `GOPUSH`
abbrev pub push : GoKind → Bytes → ℕ → Bytes → Result Round
push kind s line rest =
    ok (record { toks = record { kind = kind; s = s; line = line } ∷ []; line = line; left = rest })

-- The last token pushed, or none.
abbrev pub asi : Option GoTok → Bool
asi none = false
asi (some t) = go_asi_kind t

unfoldable pub newline_round : Option GoTok → ℕ → Bytes → Result Round
unfolding go_asi_kind
newline_round prev line r =
    if asi prev
    then ok (record {
      toks = record { kind = go_semi; s = codes "\n"; line = line } ∷ [];
      line = suc line;
      left = r;
    })
    else skip (suc line) r

-- A block comment, from behind its opening; one that is not closed runs to the end of the body.
unfoldable pub block_rest : ℕ → Bytes → ℕ × Bytes
block_rest line [] = (line, [])
block_rest line (c ∷ []) = (line, [])
block_rest line (c ∷ d ∷ r) =
    let one = block_rest (line + newlines c) (d ∷ r) in
    if c == b'*' && d == b'/' then (line, r) else one

-- An interpreted string from behind its opening quote: what is left behind it, or none where it is
-- not closed in its line.
unfoldable pub quote_rest : Bytes → Option Bytes
quote_rest [] = none
quote_rest (c ∷ []) = if c == b'"' then some [] else none
quote_rest (c ∷ d ∷ r) =
    let escaped = quote_rest r in
    let one = quote_rest (d ∷ r) in
    if c == b'\\'
    then escaped
    else if c == b'"'
    then some (d ∷ r)
    else if c == b'\n'
    then none
    else one

abbrev pub quoted_by : Option Bytes → ℕ → Bytes → Result Round
quoted_by none line r = err (syntax line (codes "unterminated string literal"))
quoted_by (some rest) line r = push go_str (between (b'"' ∷ r) rest) line rest

unfoldable pub quoted_round : ℕ → Bytes → Result Round
unfolding quote_rest
quoted_round line r = quoted_by (quote_rest r) line r

-- A raw string from behind its opening quote: what is left from its closing quote on, and the line
-- there.
unfoldable pub raw_rest : ℕ → Bytes → ℕ × Bytes
raw_rest line [] = (line, [])
raw_rest line (c ∷ r) =
    let more = raw_rest (line + newlines c) r in if c == b'`' then (line, c ∷ r) else more

-- With the line and what is left at the closing quote.
abbrev pub raw_by : ℕ × Bytes → Bytes → Result Round
raw_by (line, []) r = err (syntax line (codes "unterminated raw string literal"))
raw_by (line, q ∷ rest) r = push go_str (between (b'`' ∷ r) rest) line rest

unfoldable pub raw_round : ℕ → Bytes → Result Round
unfolding raw_rest
raw_round line r = raw_by (raw_rest line r) r

-- A rune from behind its opening quote; one that is not closed runs to the end of the body.
unfoldable pub rune_rest : Bytes → Bytes
rune_rest [] = []
rune_rest (c ∷ []) = []
rune_rest (c ∷ d ∷ r) =
    let escaped = rune_rest r in
    let one = rune_rest (d ∷ r) in if c == b'\'' then d ∷ r else if c == b'\\' then escaped else one

abbrev is_hex_letter : ℕ → Bool
is_hex_letter c = within b'a' b'f' c || within b'A' b'F' c

-- `prev` is the byte in front.
unfoldable pub number_rest : ℕ → Bytes → Bytes
number_rest prev [] = []
number_rest prev (c ∷ r) =
    let more = number_rest c r in
    if is_digit c
      || c == b'.'
      || c == b'_'
      || c == b'x'
      || c == b'X'
      || is_hex_letter c
      || ((c == b'+' || c == b'-') && (prev == b'e' || prev == b'E'))
    then more
    else c ∷ r

abbrev pub in_table : Bytes → List Bytes → Bool
in_table s [] = false
in_table s (w ∷ ws) = str_eq s w || in_table s ws

abbrev pub ops3 : List Bytes
ops3 = codes "&^=" ∷ codes "<<=" ∷ codes ">>=" ∷ codes "..." ∷ []

abbrev pub ops2 : List Bytes
ops2 =
    codes ":="
    ∷ codes "=="
    ∷ codes "!="
    ∷ codes "<="
    ∷ codes ">="
    ∷ codes "&&"
    ∷ codes "||"
    ∷ codes "+="
    ∷ codes "-="
    ∷ codes "*="
    ∷ codes "/="
    ∷ codes "%="
    ∷ codes "++"
    ∷ codes "--"
    ∷ codes "<<"
    ∷ codes ">>"
    ∷ codes "&^"
    ∷ codes "<-"
    ∷ codes "&="
    ∷ codes "|="
    ∷ codes "^="
    ∷ []

-- The longest operator that stands here.
unfoldable pub operator_round : ℕ → ℕ → Bytes → Result Round
operator_round line c r =
    if in_table (take 3 (c ∷ r)) ops3
    then push go_op (take 3 (c ∷ r)) line (drop 2 r)
    else if in_table (take 2 (c ∷ r)) ops2
    then push go_op (take 2 (c ∷ r)) line (drop 1 r)
    else push go_op (c ∷ []) line r

unfoldable pub dot_round : ℕ → ℕ → Bytes → Result Round
unfolding operator_round
dot_round line c r =
    if c == b'.' && not (starts is_digit r)
    then (if str_eq (take 2 r) (codes "..")
        then push go_op (codes "...") line (drop 2 r)
        else push go_dot (c ∷ []) line r)
    else operator_round line c r

unfoldable pub mark_round : ℕ → ℕ → Bytes → Result Round
unfolding dot_round
mark_round line c r =
    if c == b'('
    then push go_lp (c ∷ []) line r
    else if c == b')'
    then push go_rp (c ∷ []) line r
    else if c == b'{'
    then push go_lbrace (c ∷ []) line r
    else if c == b'}'
    then push go_rbrace (c ∷ []) line r
    else if c == b'['
    then push go_lbrack (c ∷ []) line r
    else if c == b']'
    then push go_rbrack (c ∷ []) line r
    else if c == b','
    then push go_comma (c ∷ []) line r
    else if c == b';'
    then push go_semi (c ∷ []) line r
    else dot_round line c r

unfoldable pub text_round : ℕ → ℕ → Bytes → Result Round
unfolding quoted_round raw_round rune_rest number_rest mark_round drop_while
text_round line c r =
    if c == b'"'
    then quoted_round line r
    else if c == b'`'
    then raw_round line r
    else if c == b'\''
    then push go_str (between (c ∷ r) (rune_rest r)) line (rune_rest r)
    else if is_alpha c
    then push go_word (between (c ∷ r) (drop_while is_name (c ∷ r))) line
        (drop_while is_name (c ∷ r))
    else if is_digit c
    then push go_num (between (c ∷ r) (number_rest c r)) line (number_rest c r)
    else mark_round line c r

unfoldable pub go_round : Option GoTok → ℕ → ℕ → Bytes → Result Round
unfolding newline_round block_rest text_round
go_round prev line c r =
    if c == b'\n'
    then newline_round prev line r
    else if c == b' ' || c == b'\t' || c == b'\r'
    then skip line r
    else if c == b'/' && starts (λ d. d == b'/') r
    then skip line (drop_while not_newline r)
    else if c == b'/' && starts (λ d. d == b'*') r
    then skip (block_rest line (drop 1 r)).0 (block_rest line (drop 1 r)).1
    else text_round line c r

abbrev pub last_tok : Option GoTok → List GoTok → Option GoTok
last_tok prev [] = prev
last_tok prev (t ∷ ts) = last_tok (some t) ts

-- The semicolon and the end behind the last token.
unfoldable pub finish_toks : Option GoTok → ℕ → List GoTok
unfolding go_asi_kind
finish_toks prev line =
    let eof : GoTok = record { kind = go_eof; s = []; line = line } in
    if asi prev then record { kind = go_semi; s = []; line = line } ∷ eof ∷ [] else eof ∷ []

-- On fuel; `none` is a loop cut short.
unfoldable pub go_lex_from : ℕ → Option GoTok → ℕ → Bytes → Option (Result (List GoTok))
unfolding finish_toks
go_lex_from zero prev line r = none
go_lex_from (suc fuel) prev line [] = some (ok (finish_toks prev line))
go_lex_from (suc fuel) prev line (c ∷ r) = elim (go_round prev line c r) [
  | err e ↦ some (err e)
  | ok w ↦
      Option.map (map_ok (λ ts. w.toks ++ ts))
        (go_lex_from fuel (last_tok prev w.toks) w.line w.left)
]

unfoldable pub go_lex : Bytes → Option (Result (List GoTok))
unfolding go_lex_from
go_lex body = go_lex_from (suc (length body)) none 1 body
