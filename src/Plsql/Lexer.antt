-- ===== src/Plsql/Lexer.antt =====
-- `pl_lex`. The pointer `p` is the list of the bytes from it to the end; a scan returns the bytes
-- that it passes over and those that it leaves. A read of the NUL at the end is a read of no byte.
pub mod Lossless
use mathlib.Core.Option
use plx.Plsql.Token.{PlKind, pl_eof, pl_word, pl_num, pl_str, pl_punct, PlTok}
use plx.Prelude.{
  ℕ, zero, suc, Bytes, Bool, true, false, not, ◌&&◌, ◌||◌, ◌==◌, if◌then◌else◌, within, length,
  List, [], ◌∷◌, ◌++◌, Option, none, some,
}

-- `c >= 'A' && c <= 'Z' || c >= 'a' && c <= 'z'`
abbrev pub is_letter : ℕ → Bool
is_letter c = within b'A' b'Z' c || within b'a' b'z' c

abbrev pub is_digit : ℕ → Bool
is_digit c = within b'0' b'9' c

unfoldable pub pl_word_char : ℕ → Bool
pl_word_char c = is_letter c || is_digit c || c == b'_' || c == b'$' || c == b'#'

abbrev pub is_space : ℕ → Bool
is_space c = c == b' ' || c == b'\t' || c == b'\r' || c == b'\n'

-- A byte more in front of what a scan has passed.
abbrev pub passed : ℕ → Bytes × Bytes → Bytes × Bytes
passed c (taken, rest) = (c ∷ taken, rest)

abbrev pub joined : Bytes → Bytes × Bytes → Bytes × Bytes
joined front (taken, rest) = (front ++ taken, rest)

-- `while (p < end && *p != '\n') p++`
unfoldable pub line_comment : Bytes → Bytes × Bytes
line_comment [] = ([], [])
line_comment (c ∷ r) = if c == b'\n' then ([], c ∷ r) else passed c (line_comment r)

-- From behind `/*`: up to and over `*/`, or to the end, where `p += 2` is cut back to `end`.
unfoldable pub block_comment : Bytes → Bytes × Bytes
block_comment [] = ([], [])
block_comment (c ∷ []) = (c ∷ [], [])
block_comment (c ∷ d ∷ r) =
    if c == b'*' && d == b'/' then (c ∷ d ∷ [], r) else passed c (block_comment (d ∷ r))

-- What a round of the trivia loop takes: nothing when the loop breaks.
unfoldable pub trivia_round : Bytes → Bytes × Bytes
trivia_round [] = ([], [])
trivia_round (c ∷ []) = if is_space c then (c ∷ [], []) else ([], c ∷ [])
trivia_round (c ∷ d ∷ r) =
    if is_space c
    then (c ∷ [], d ∷ r)
    else if c == b'-' && d == b'-'
    then line_comment (c ∷ d ∷ r)
    else if c == b'/' && d == b'*'
    then passed c (passed d (block_comment r))
    else ([], c ∷ d ∷ r)

-- `for (;;)`, on fuel; each round but the last passes a byte.
unfoldable pub trivia : ℕ → Bytes → Bytes × Bytes
trivia zero r = ([], r)
trivia (suc fuel) r =
    let (taken, rest) = trivia_round r in
    elim taken [ [] ↦ ([], rest) | c ∷ cs ↦ joined (c ∷ cs) (trivia fuel rest) ]

-- A string literal, from behind the opening quote; `''` does not end it.
unfoldable pub string_body : Bytes → Bytes × Bytes
string_body [] = ([], [])
string_body (c ∷ []) = (c ∷ [], [])
string_body (c ∷ d ∷ r) =
    let quoted = passed c (passed d (string_body r)) in
    let one = passed c (string_body (d ∷ r)) in
    if c == b'\'' then (if d == b'\'' then quoted else (c ∷ [], d ∷ r)) else one

-- A quoted identifier, from behind the opening quote.
unfoldable pub quoted_body : Bytes → Bytes × Bytes
quoted_body [] = ([], [])
quoted_body (c ∷ r) = if c == b'"' then (c ∷ [], r) else passed c (quoted_body r)

unfoldable pub word_body : Bytes → Bytes × Bytes
word_body [] = ([], [])
word_body (c ∷ r) = if pl_word_char c then passed c (word_body r) else ([], c ∷ r)

abbrev is_exponent : ℕ → Bool
is_exponent c = c == b'e' || c == b'E'

abbrev is_sign : ℕ → Bool
is_sign c = c == b'+' || c == b'-'

abbrev starts_dot : Bytes → Bool
starts_dot [] = false
starts_dot (d ∷ r) = d == b'.'

-- Where the loop over a number ends, at `c` with `prev` in front of it and `r` behind: at a byte of
-- no number, at a `.` that begins `..`, and at a sign that does not stand behind an exponent.
unfoldable pub number_stops : ℕ → ℕ → Bytes → Bool
number_stops prev c r =
    not (is_digit c || c == b'.' || is_exponent c || is_sign c)
    || (c == b'.' && starts_dot r)
    || (is_sign c && not (is_exponent prev))

-- The bytes of a number behind `prev`. The first byte is a digit, so `p > st` holds at every sign.
unfoldable pub number_body : ℕ → Bytes → Bytes × Bytes
number_body prev [] = ([], [])
number_body prev (c ∷ r) = if number_stops prev c r then ([], c ∷ r) else passed c (number_body c r)

-- The operators of two characters.
unfoldable pub is_pair : ℕ → ℕ → Bool
is_pair c d =
    (c == b':' && d == b'=')
    || (c == b'|' && d == b'|')
    || (c == b'<' && (d == b'=' || d == b'>'))
    || (c == b'>' && d == b'=')
    || (c == b'!' && d == b'=')
    || (c == b'.' && d == b'.')

unfoldable pub punct : ℕ → Bytes → Bytes × Bytes
punct c [] = (c ∷ [], [])
punct c (d ∷ r) = if is_pair c d then (c ∷ d ∷ [], r) else (c ∷ [], d ∷ r)

abbrev push : PlKind → Bytes → Bytes × Bytes → PlTok × Bytes
push k pre (text, rest) = (record { kind = k; s = text; pre = pre }, rest)

-- One token, which begins with `c`.
unfoldable pub token : Bytes → ℕ → Bytes → PlTok × Bytes
token pre c r =
    if c == b'\''
    then push pl_str pre (passed c (string_body r))
    else if c == b'"'
    then push pl_word pre (passed c (quoted_body r))
    else if is_letter c || c == b'_'
    then push pl_word pre (word_body (c ∷ r))
    else if is_digit c
    then push pl_num pre (number_body c (c ∷ r))
    else push pl_punct pre (punct c r)

abbrev pub eof : Bytes → PlTok
eof pre = record { kind = pl_eof; s = []; pre = pre }

-- The outer loop, on fuel; `none` is a loop cut short. The trivia at the end goes to the end token.
unfoldable pub lex_from : ℕ → Bytes → Option (List PlTok)
lex_from zero r = none
lex_from (suc fuel) r =
    let (pre, rest) = trivia (suc (length r)) r in
    elim rest [
      | [] ↦ some (eof pre ∷ [])
      | c ∷ more ↦
          let (t, left) = token pre c more in Option.map (λ ts. t ∷ ts) (lex_from fuel left)
    ]

unfoldable pub pl_lex : Bytes → Option (List PlTok)
unfolding lex_from
pl_lex body = lex_from (suc (length body)) body
