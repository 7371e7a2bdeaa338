-- ===== src/Go/Literal.antt =====
-- `go_emit_str`: a string or a rune of Go as a literal of SQL.
use plx.Prelude.{
  ℕ, ◌-◌, Bytes, codes, length, take, drop, Bool, false, ◌==◌, if◌then◌else◌, [], ◌∷◌, ◌++◌,
}

-- A byte inside a literal of SQL.
abbrev pub sql_char : ℕ → Bytes
sql_char c = if c == b'\'' then codes "''" else c ∷ []

unfoldable pub raw_chars : Bytes → Bytes
raw_chars [] = []
raw_chars (c ∷ r) = sql_char c ++ raw_chars r

-- The byte that an escape stands for.
unfoldable pub escape : ℕ → ℕ
escape c = if c == b'n' then b'\n' else if c == b't' then b'\t' else if c == b'r' then b'\r' else c

unfoldable pub escaped_chars : Bytes → Bytes
unfolding escape
escaped_chars [] = []
escaped_chars (c ∷ []) = sql_char c
escaped_chars (c ∷ d ∷ r) =
    let behind = sql_char (escape d) ++ escaped_chars r in
    let one = sql_char c ++ escaped_chars (d ∷ r) in if c == b'\\' then behind else one

-- `[tk->s + 1, tk->s + tk->len - 1)`
abbrev pub unquoted : Bytes → Bytes
unquoted s = take (length s - 2) (drop 1 s)

abbrev is_raw : Bytes → Bool
is_raw [] = false
is_raw (q ∷ s) = q == b'`'

unfoldable pub go_emit_str : Bytes → Bytes
unfolding raw_chars escaped_chars
go_emit_str s =
    codes "'"
    ++ ((if is_raw s then raw_chars (unquoted s) else escaped_chars (unquoted s)) ++ codes "'")
