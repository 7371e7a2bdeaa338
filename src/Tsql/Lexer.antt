-- ===== src/Tsql/Lexer.antt =====
-- `tq_lex`: a round of its loop at each kind of byte, and the loop.
use mathlib.Core.Option
use plx.Lexer.Scan.{drop_while, starts, not_newline, between, is_digit}
use plx.Prelude.Result.{Result, ok, err, map_ok, syntax}
use plx.Prelude.{
  ℕ, zero, suc, ◌+◌, Bytes, codes, length, drop, Bool, true, false, not, ◌&&◌, ◌||◌, ◌==◌, within,
  if◌then◌else◌, List, [], ◌∷◌, ◌++◌, Option, none, some,
}
use plx.Tsql.Token.{
  TqTok, TqKind, tq_eof, tq_word, tq_var, tq_gvar, tq_num, tq_str, tq_op, tq_lp, tq_rp, tq_comma,
  tq_semi, tq_dot,
}

abbrev pub is_alpha : ℕ → Bool
is_alpha c = within b'A' b'Z' c || within b'a' b'z' c || c == b'_'

abbrev pub is_name : ℕ → Bool
is_name c = is_alpha c || is_digit c

abbrev pub is_var_char : ℕ → Bool
is_var_char c = is_name c || c == b'@' || c == b'#' || c == b'$'

abbrev pub is_word_char : ℕ → Bool
is_word_char c = is_name c || c == b'#' || c == b'$'

-- What a round pushes, the line behind it, and what is left of the body.
pub record Round : Type 0 where
  pub toks : List TqTok
  pub line : ℕ
  pub left : Bytes

abbrev pub skip : ℕ → Bytes → Result Round
skip line rest = ok (record { toks = []; line = line; left = rest })

-- `TQPUSH`
abbrev pub push : TqKind → Bytes → ℕ → Bytes → Result Round
push kind s line rest =
    ok (record { toks = record { kind = kind; s = s; line = line } ∷ []; line = line; left = rest })

abbrev pub newlines : ℕ → ℕ
newlines c = if c == b'\n' then 1 else 0

-- Inside `d` block comments: the line at the end of them, and what is left.
unfoldable pub comment_rest : ℕ → ℕ → Bytes → ℕ × Bytes
comment_rest zero line r = (line, r)
comment_rest (suc d) line [] = (line, [])
comment_rest (suc d) line (c ∷ []) = (line + newlines c, [])
comment_rest (suc d) line (c ∷ e ∷ r) =
    let opened = comment_rest (suc (suc d)) line r in
    let closed = comment_rest d line r in
    let one = comment_rest (suc d) (line + newlines c) (e ∷ r) in
    if c == b'/' && e == b'*' then opened else if c == b'*' && e == b'/' then closed else one

-- A string from behind its opening quote: whether it is closed, the line at its end, and what is
-- left behind it.
unfoldable pub string_end : ℕ → Bytes → Bool × ℕ × Bytes
string_end line [] = (false, line, [])
string_end line (c ∷ []) = if c == b'\'' then (true, line, []) else (false, line + newlines c, [])
string_end line (c ∷ d ∷ r) =
    let doubled = string_end line r in
    let one = string_end (line + newlines c) (d ∷ r) in
    if c == b'\'' then (if d == b'\'' then doubled else (true, line, d ∷ r)) else one

unfoldable pub string_round : ℕ → Bytes → Result Round
unfolding string_end
string_round line r =
    let (closed, end, rest) = string_end line r in
    if closed
    then push tq_str (between (b'\'' ∷ r) rest) end rest
    else err (syntax end (codes "unterminated string literal"))

-- A name in delimiters, from behind the opening one.
unfoldable pub delimited_round : ℕ → ℕ → Bytes → Result Round
unfolding drop_while
delimited_round close line r =
    let q = drop_while (λ c. not (c == close)) r in push tq_word (between r q) line (drop 1 q)

unfoldable pub variable_round : ℕ → Bytes → Result Round
unfolding drop_while
variable_round line r =
    let global = drop 1 r in
    if starts (λ c. c == b'@') r
    then push tq_gvar (between global (drop_while is_name global)) line (drop_while is_name global)
    else push tq_var (between r (drop_while is_var_char r)) line (drop_while is_var_char r)

abbrev pub is_more : Bytes → Bool
is_more [] = false
is_more (c ∷ r) = true

-- `st[1]` of a number that begins with `0`
abbrev pub is_hex : ℕ → Bytes → Bool
is_hex c r = c == b'0' && starts (λ d. d == b'x' || d == b'X') r

unfoldable pub number_rest : Bool → Bytes → Bytes
number_rest hex [] = []
number_rest hex (c ∷ r) =
    if is_digit c
      || c == b'.'
      || ((c == b'e' || c == b'E') && is_more r)
      || c == b'x'
      || c == b'X'
      || (is_alpha c && hex)
    then number_rest hex r
    else c ∷ r

unfoldable pub number_round : ℕ → ℕ → Bytes → Result Round
unfolding number_rest
number_round line c r =
    let rest = number_rest (is_hex c r) (c ∷ r) in push tq_num (between (c ∷ r) rest) line rest

-- The operators of two characters.
unfoldable pub is_ops2 : ℕ → ℕ → Bool
is_ops2 c d =
    (c == b'<' && d == b'=')
    || (c == b'>' && d == b'=')
    || (c == b'<' && d == b'>')
    || (c == b'!' && d == b'=')
    || (c == b'!' && d == b'<')
    || (c == b'!' && d == b'>')
    || (c == b'+' && d == b'=')
    || (c == b'-' && d == b'=')
    || (c == b'*' && d == b'=')
    || (c == b'/' && d == b'=')
    || (c == b'%' && d == b'=')
    || (c == b'|' && d == b'|')
    || (c == b':' && d == b':')

unfoldable pub operator_round : ℕ → ℕ → Bytes → Result Round
unfolding is_ops2
operator_round line c [] = push tq_op (c ∷ []) line []
operator_round line c (d ∷ r) =
    if is_ops2 c d then push tq_op (c ∷ d ∷ []) line r else push tq_op (c ∷ []) line (d ∷ r)

unfoldable pub mark_round : ℕ → ℕ → Bytes → Result Round
unfolding operator_round
mark_round line c r =
    if c == b'('
    then push tq_lp (c ∷ []) line r
    else if c == b')'
    then push tq_rp (c ∷ []) line r
    else if c == b','
    then push tq_comma (c ∷ []) line r
    else if c == b';'
    then push tq_semi (c ∷ []) line r
    else if c == b'.'
    then push tq_dot (c ∷ []) line r
    else operator_round line c r

-- A token of text, behind the `N` of a national string if there is one.
unfoldable pub text_round : ℕ → ℕ → Bytes → Result Round
unfolding string_round number_round mark_round
text_round line c r =
    if c == b'N' && starts (λ d. d == b'\'') r
    then string_round line (drop 1 r)
    else if c == b'\''
    then string_round line r
    else if is_alpha c || c == b'#'
    then push tq_word (between (c ∷ r) (drop_while is_word_char (c ∷ r))) line
        (drop_while is_word_char (c ∷ r))
    else if is_digit c || (c == b'.' && starts is_digit r)
    then number_round line c r
    else mark_round line c r

unfoldable pub tq_round : ℕ → ℕ → Bytes → Result Round
unfolding drop_while comment_rest variable_round delimited_round text_round
tq_round line c r =
    if c == b'\n'
    then skip (suc line) r
    else if c == b' ' || c == b'\t' || c == b'\r'
    then skip line r
    else if c == b'-' && starts (λ d. d == b'-') r
    then skip line (drop_while not_newline r)
    else if c == b'/' && starts (λ d. d == b'*') r
    then skip (comment_rest 1 line (drop 1 r)).0 (comment_rest 1 line (drop 1 r)).1
    else if c == b'@'
    then variable_round line r
    else if c == b'['
    then delimited_round b']' line r
    else if c == b'"'
    then delimited_round b'"' line r
    else text_round line c r

-- On fuel; `none` is a loop cut short.
unfoldable pub tq_lex_from : ℕ → ℕ → Bytes → Option (Result (List TqTok))
tq_lex_from zero line r = none
tq_lex_from (suc fuel) line [] = some (ok (record { kind = tq_eof; s = []; line = line } ∷ []))
tq_lex_from (suc fuel) line (c ∷ r) = elim (tq_round line c r) [
  | err e ↦ some (err e)
  | ok w ↦ Option.map (map_ok (λ ts. w.toks ++ ts)) (tq_lex_from fuel w.line w.left)
]

unfoldable pub tq_lex : Bytes → Option (Result (List TqTok))
unfolding tq_lex_from
tq_lex body = tq_lex_from (suc (length body)) 1 body
