-- ===== src/Lexer/Scan.antt =====
-- The scans of `lex` over one token. A scan over text returns what is left behind it; a read of the
-- NUL behind the body is a read of no byte.
use mathlib.Core.List.{reverse}
use plx.Lexer.Token.{
  Tok, TokKind, token, t_kw, t_ident, t_string, t_typeann, t_op, t_lparen, t_rparen, t_lbracket,
  t_rbracket, t_lbrace, t_rbrace, t_comma, t_semi, t_dot, t_pipe, t_error,
}
use plx.Prelude.{
  ℕ, ◌-◌, Bytes, length, take, drop, Bool, true, false, not, ◌&&◌, ◌||◌, ◌==◌, within,
  if◌then◌else◌, [], ◌∷◌, some,
}
use plx.Surface.Defs.{PlxSurface, Kw, kw_none, kw_lookup}
use plx.Ts.Scan.{is_ident}

-- `while (p < end && test(*p)) p++`
unfoldable pub drop_while : (ℕ → Bool) → Bytes → Bytes
drop_while test [] = []
drop_while test (c ∷ r) = if test c then drop_while test r else c ∷ r

abbrev pub starts : (ℕ → Bool) → Bytes → Bool
starts test [] = false
starts test (c ∷ r) = test c

abbrev pub is_blank : ℕ → Bool
is_blank c = c == b' ' || c == b'\t'

abbrev pub is_space : ℕ → Bool
is_space c = is_blank c || c == b'\r'

abbrev pub not_newline : ℕ → Bool
not_newline c = not (c == b'\n')

abbrev pub is_digit : ℕ → Bool
is_digit c = within b'0' b'9' c

-- A digit, or the `_` between digits.
abbrev pub is_decimal : ℕ → Bool
is_decimal c = is_digit c || c == b'_'

abbrev pub trim_end_of : (ℕ → Bool) → Bytes → Bytes
trim_end_of test s = reverse (drop_while test (reverse s))

-- What stands between two positions, of which the second is the later.
abbrev pub between : Bytes → Bytes → Bytes
between from to = take (length from - length to) from

-- The text of an annotation, from behind its lead to the end of the line.
abbrev pub annotation_token : ℕ → Bytes → Tok
annotation_token line text = record {
  kind = t_typeann;
  kw = kw_none;
  s = [];
  len = 0;
  line = line;
  sq = false;
  fstr = false;
  quote = 0;
  ann = some text;
}

-- `strstr(s, "*/")`, or the end.
unfoldable pub find_close : Bytes → Bytes
find_close [] = []
find_close (c ∷ []) = []
find_close (c ∷ d ∷ r) =
    let later = find_close (d ∷ r) in if c == b'*' && d == b'/' then c ∷ d ∷ r else later

-- A name or a keyword; a `?` or `!` behind it belongs to it.
unfoldable pub word_rest : Bytes → Bytes
unfolding drop_while
word_rest p =
    let q = drop_while is_ident p in if starts (λ c. c == b'?' || c == b'!') q then drop 1 q else q

abbrev pub kw_kind : Kw → TokKind
kw_kind kw_none = t_ident
kw_kind _ = t_kw

unfoldable pub word_token : PlxSurface → ℕ → Bytes → Tok
unfolding word_rest
word_token surf line p =
    let k = kw_lookup surf (between p (word_rest p)) in
    record (token (kw_kind k) line p (word_rest p)) { kw = k }

-- The digits that a prefix `0x`, `0o` or `0b` allows.
unfoldable pub radix_digit : ℕ → ℕ → Bool
radix_digit pfx c =
    if pfx == b'x' || pfx == b'X'
    then within b'0' b'9' c || within b'a' b'f' c || within b'A' b'F' c || c == b'_'
    else if pfx == b'o' || pfx == b'O'
    then within b'0' b'7' c || c == b'_'
    else c == b'0' || c == b'1' || c == b'_'

abbrev pub is_radix : ℕ → Bool
is_radix c = c == b'x' || c == b'X' || c == b'o' || c == b'O' || c == b'b' || c == b'B'

-- The fraction, where a `.` and a digit stand; then whether there was one.
abbrev pub fraction : Bytes → Bytes × Bool
fraction [] = ([], false)
fraction (c ∷ r) =
    if c == b'.' && starts is_digit r then (drop_while is_decimal r, true) else (c ∷ r, false)

abbrev pub exponent : Bytes → Bytes × Bool
exponent [] = ([], false)
exponent (c ∷ r) =
    if c == b'e' || c == b'E'
    then (
      drop_while is_digit (if starts (λ d. d == b'+' || d == b'-') r then drop 1 r else r),
      true,
    )
    else (c ∷ r, false)

-- A number, which begins with `c`: what is left, and whether it is a float.
unfoldable pub number_rest : ℕ → Bytes → Bytes × Bool
unfolding drop_while radix_digit
number_rest c [] = ([], false)
number_rest c (d ∷ r) =
    let (q, point) = fraction (drop_while is_decimal (d ∷ r)) in
    let (e, power) = exponent q in
    if c == b'0' && is_radix d then (drop_while (radix_digit d) r, false) else (e, point || power)

-- A string, from behind the opening quote.
abbrev pub string_token : ℕ → ℕ → Bool → Bytes → Bytes → Tok
string_token line q f start rest = record (token t_string line start rest) {
  sq = q == b'\'';
  quote = q;
  fstr = f;
}

abbrev pub is_operator : ℕ → Bool
is_operator c =
    c == b'='
    || c == b'!'
    || c == b'<'
    || c == b'>'
    || c == b'+'
    || c == b'-'
    || c == b'*'
    || c == b'/'
    || c == b'%'
    || c == b'&'
    || c == b'?'
    || c == b':'
    || c == b'~'
    || c == b'^'

-- Behind `.`, `..` or `...`
abbrev pub dots : Bytes → TokKind × Bytes
dots r =
    if starts (λ d. d == b'.') r
    then (t_op, if starts (λ d. d == b'.') (drop 1 r) then drop 2 r else drop 1 r)
    else (t_dot, r)

-- Behind `|` or `||`
abbrev pub pipes : Bytes → TokKind × Bytes
pipes r = if starts (λ d. d == b'|') r then (t_op, drop 1 r) else (t_pipe, r)

-- What is neither word, number nor string: the kind of the token, and what is left.
unfoldable pub mark : ℕ → Bytes → TokKind × Bytes
unfolding drop_while
mark c r =
    if c == b'('
    then (t_lparen, r)
    else if c == b')'
    then (t_rparen, r)
    else if c == b'['
    then (t_lbracket, r)
    else if c == b']'
    then (t_rbracket, r)
    else if c == b'{'
    then (t_lbrace, r)
    else if c == b'}'
    then (t_rbrace, r)
    else if c == b','
    then (t_comma, r)
    else if c == b';'
    then (t_semi, r)
    else if c == b'.'
    then dots r
    else if c == b'|'
    then pipes r
    else if is_operator c
    then (t_op, drop_while is_operator r)
    else (t_error, r)
