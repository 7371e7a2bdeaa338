-- ===== src/Lexer/Sound.antt =====
-- What a round of the lexer keeps: tokens in their place, and levels that match the stack.
pub mod Ahead
pub mod Layout
pub mod Text
use plx.Lexer.Layout.{indent_from, max_indents, pop_indents, top, dedents, layout}
use plx.Lexer.Rounds.{
  is_indent, LexState, Round, skip, push, newline_layout, newline_round, annotation_round,
  comment_round, fstring_round, paren_behind, mark_round, text_round, annotated, behind_lead,
  lex_round,
}
use plx.Lexer.Scan.{
  drop_while, starts, is_blank, is_space, not_newline, is_digit, trim_end_of, between,
  annotation_token, find_close, word_rest, word_token, number_rest, string_token, mark,
}
use plx.Lexer.Spans.{
  drop_while-IsSuffix, find_close-IsSuffix, string_rest-IsSuffix, word_rest-IsSuffix,
  number_rest-IsSuffix, mark-IsSuffix,
}
use plx.Lexer.Token.{
  Tok, TokKind, token, suppress_newline, t_newline, t_indent, t_dedent, t_ident, t_int, t_float,
  t_string, t_typeann,
}
use plx.Prelude.Result.{Error, Result, ok, err, syntax, ◌>>=◌}
use plx.Prelude.Suffix.{
  IsSuffix, whole, behind, IsSuffix-trans, IsSuffix-tail, IsSuffix-le, drop-IsSuffix,
  drop-eq_suffix, nil-IsSuffix,
}
use plx.Prelude.{
  ℕ, zero, suc, ◌+◌, ◌-◌, ◌≤◌, ◌<◌, Bytes, codes, length, drop, Bool, true, false, not, ◌&&◌, ◌||◌,
  ◌==◌, ltb, leb, ltb→lt, ltb-false, leb-false, if◌then◌else◌, if-case, List, [], ◌∷◌, ◌++◌, Option,
  none, some, ◌≡◌, ◌⊎◌, All, inl, inr, refl, ap, sym, ◌∙◌, Bool-cases, arith,
}
use plx.Surface.Defs.{PlxSurface}
use plx.Ternary.{string_rest}
use plx.Ts.Scan.{is_ident_start, is_ident}

-- The tokens stand one behind the other between two pointers. An annotation has no text.
abbrev pub Spans : Bytes → List Tok → Bytes → Type 0
Spans p [] q = IsSuffix q p
Spans p (t ∷ ts) q = elim t.ann [
  | some _ ↦ (t.s ≡ []) × (t.len ≡ 0) × Spans p ts q
  | none ↦ IsSuffix t.s p × (t.len ≤ length t.s) × Spans (drop t.len t.s) ts q
]

-- The levels that are open behind the tokens; `none` is a level closed that is not open, or more
-- levels than the stack has room for.
abbrev pub level_behind : TokKind → ℕ → Option ℕ
level_behind t_indent n = if leb (max_indents - 1) n then none else some (suc n)
level_behind t_dedent zero = none
level_behind t_dedent (suc n) = some n
level_behind _ n = some n

abbrev pub levels : ℕ → List Tok → Option ℕ
levels n [] = some n
levels n (t ∷ ts) = elim (level_behind t.kind n) [ none ↦ none | some k ↦ levels k ts ]

-- The stack is never empty, and its columns grow.
abbrev pub IsStack : List ℕ → Type 0
IsStack [] = ⊥
IsStack (x ∷ []) = Unit
IsStack (x ∷ y ∷ st) = (y < x) × IsStack (y ∷ st)

-- The column of a line that holds more than blanks and a comment, from the column of its first byte
-- on; a tab is eight wide.
abbrev pub column_from : ℕ → Bytes → Option ℕ
column_from col [] = none
column_from col (c ∷ r) =
    if c == b' ' || c == b'\t'
    then column_from (col + (if c == b'\t' then 8 else 1)) r
    else if c == b'\n' || c == b'#'
    then none
    else some col

-- The text in a line of the body, but the first one, begins at that column.
abbrev pub IsLine : Bytes → ℕ → Type 0
IsLine body col = (p : Bytes) × IsSuffix (b'\n' ∷ p) body × (column_from 0 p ≡ some col)

-- The levels, without the column that the body begins at.
abbrev pub opened : List ℕ → List ℕ
opened [] = []
opened (x ∷ []) = []
opened (x ∷ y ∷ st) = x ∷ opened (y ∷ st)

-- Only the indented style has levels, and each of them has a line.
abbrev pub IsIndents : PlxSurface → Bytes → List ℕ → Type 0
IsIndents surf body st =
    IsStack st
    × (length st ≤ max_indents)
    × ((is_indent surf.block_style ≡ true) ⊎ (length st ≡ 1))
    × All (IsLine body) (opened st)

-- In the indented style, 128 lines of the body whose columns differ: each column of the list is
-- greater than the next one.
abbrev pub IsTooDeep : PlxSurface → Bytes → Error → Type 0
IsTooDeep surf body e =
    (is_indent surf.block_style ≡ true)
    × ((line : ℕ) × (e ≡ syntax line (codes "indentation nested too deeply")))
    × ((cols : List ℕ) × (length cols ≡ 128) × IsStack cols × All (IsLine body) cols)

module _ (surf : PlxSurface) (body : Bytes) (st : LexState) (c : ℕ) (r : Bytes) where
  abbrev pub IsSound : Result Round → Type 0
  IsSound (err e) = IsTooDeep surf body e
  IsSound (ok w) =
      IsSuffix w.left r
      × Spans (c ∷ r) w.toks w.left
      × (levels (length st.indents - 1) w.toks ≡ some (length w.state.indents - 1))
      × IsIndents surf body w.state.indents

-- A token that is neither a level nor an annotation, with its place.
abbrev pub IsPlain : TokKind → Type 0
IsPlain k = (n : ℕ) → level_behind k n ≡ some n

module _ (surf : PlxSurface) (body : Bytes) (st : LexState) (c : ℕ) (r : Bytes)
    (held : IsIndents surf body st.indents) where
  pub skip-IsSound :
      (st' : LexState) (rest : Bytes)
      → st'.indents ≡ st.indents
      → IsSuffix rest r
      → IsSound surf body st c r (skip st' rest)
  skip-IsSound st' rest same h = (h, behind c h, rw same refl, rw same held)

  pub push-IsSound :
      (st' : LexState) (t : Tok) (rest : Bytes)
      → st'.indents ≡ st.indents
      → IsPlain t.kind
      → t.ann ≡ none
      → IsSuffix t.s (c ∷ r)
      → t.len ≡ length t.s - length rest
      → IsSuffix rest t.s
      → IsSuffix rest r
      → IsSound surf body st c r (push st' t rest)
  push-IsSound st' t rest same plain text from len to h =
      let e : drop t.len t.s ≡ rest = rw len (drop-eq_suffix to) in
      (
        h,
        rw text (from, omega (arith, len), rw e whole),
        rw (plain (length st.indents - 1), levels) (rw same refl),
        rw same held,
      )

  pub token-IsSound :
      (st' : LexState) (kind : TokKind) (line : ℕ) (rest : Bytes)
      → st'.indents ≡ st.indents
      → IsPlain kind
      → IsSuffix rest r
      → IsSound surf body st c r (push st' (token kind line (c ∷ r) rest) rest)
  token-IsSound st' kind line rest same plain h =
      push-IsSound st' (token kind line (c ∷ r) rest) rest same plain refl whole refl (behind c h) h

  pub annotation-IsSound :
      (line : ℕ) (text rest : Bytes)
      → IsSuffix rest r
      → IsSound surf body st c r (push st (annotation_token line text) rest)
  annotation-IsSound line text rest h = (h, (refl, refl, behind c h), refl, held)
