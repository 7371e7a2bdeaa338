-- ===== src/Lexer/Layout.antt =====
-- The layout of the indented style in `lex`: the stack of indentations, from its top down.
use plx.Lexer.Token.{Tok, token, t_indent, t_dedent}
use plx.Prelude.{
  ℕ, zero, suc, ◌+◌, Bytes, Bool, true, false, ◌||◌, ◌==◌, ltb, leb, if◌then◌else◌, length, List,
  [], ◌∷◌, codes,
}
use plx.Prelude.Result.{Result, ok, err, syntax}

-- The column of the next line that holds more than blanks and a comment, the newlines passed, and
-- what is left. `comment` is the inner loop over a comment.
unfoldable pub indent_from : Bool → ℕ → ℕ → Bytes → ℕ × ℕ × Bytes
indent_from comment col lines [] = (if comment then 0 else col, lines, [])
indent_from true col lines (c ∷ r) =
    let newline = indent_from false 0 (suc lines) r in
    let more = indent_from true 0 lines r in if c == b'\n' then newline else more
indent_from false col lines (c ∷ r) =
    let blank = indent_from false (col + (if c == b'\t' then 8 else 1)) lines r in
    let newline = indent_from false 0 (suc lines) r in
    let hash = indent_from true 0 lines r in
    if c == b' ' || c == b'\t'
    then blank
    else if c == b'\n'
    then newline
    else if c == b'#'
    then hash
    else (col, lines, c ∷ r)

-- `lengthof(indent_stack)`
abbrev pub max_indents : ℕ
max_indents = 128

-- The levels that end, and those that stay.
unfoldable pub pop_indents : ℕ → List ℕ → ℕ × List ℕ
pop_indents col [] = (0, [])
pop_indents col (x ∷ []) = (0, x ∷ [])
pop_indents col (x ∷ y ∷ st) =
    let (n, kept) = pop_indents col (y ∷ st) in if ltb col x then (suc n, kept) else (0, x ∷ y ∷ st)

abbrev pub top : List ℕ → ℕ
top [] = 0
top (x ∷ st) = x

-- `PUSH0(T_DEDENT)`, so often
abbrev pub dedents : ℕ → Tok → List Tok
dedents zero t = []
dedents (suc n) t = t ∷ dedents n t

-- At the first line behind a newline whose column is `col`; `p` is where the tokens point.
unfoldable pub layout : ℕ → Bytes → ℕ → List ℕ → Result (List Tok × List ℕ)
unfolding pop_indents
layout line p col st =
    let (n, kept) = pop_indents col st in
    if ltb (top st) col
    then if leb max_indents (length st)
      then err (syntax line (codes "indentation nested too deeply"))
      else ok (token t_indent line p p ∷ [], col ∷ st)
    else ok (dedents n (token t_dedent line p p), kept)
