-- ===== src/Go/If.antt =====
-- `go_block` and `go_if`, over a parser of a statement. A statement takes the count of those around
-- it, `cx->depth`, and the indentation.
use plx.Context.{indent, plx_max_depth}
use plx.Prelude.Int.{pos}
use plx.Prelude.Outcome.{Outcome, done, fault, cut_short, ◌>>=◌}
use plx.Prelude.{
  ℕ, zero, suc, Bytes, codes, length, take, drop, ltb, Bool, true, false, if◌then◌else◌, List, [],
  ◌∷◌, ◌++◌, Option, none, some,
}
use plx.Go.Scan.{Split, tops, last_of, go_header_end}
use plx.Go.Simple.{go_simple}
use plx.Go.State.{GoState, at, write, go_err, go_eat_semi, at_close, loop_until, emit_line}
use plx.Go.Token.{GoTok, no_braces, is_lbrace, is_rbrace, is_semi, go_ci}

-- A statement at a depth and an indentation.
abbrev pub Stmt : Type 0
Stmt = ℕ → ℕ → GoState → Outcome GoState

module _ (ci : Bytes → Bytes → Bool) (stmt : Stmt) where
  -- `{` at the tokens `ts`.
  abbrev pub open_brace : List GoTok → GoState → Outcome GoState
  open_brace [] st = fault
  open_brace (t ∷ ts) st =
      if is_lbrace t.kind then done (at ts st) else go_err (t ∷ ts) (codes "expected {")

  abbrev pub close_brace : List GoTok → GoState → Outcome GoState
  close_brace [] st = fault
  close_brace (t ∷ ts) st =
      if is_rbrace t.kind then done (at ts st) else go_err (t ∷ ts) (codes "missing }")

  unfoldable pub go_block : Stmt
  unfolding loop_until go_eat_semi
  go_block depth ind st =
      open_brace st.toks st
      >>= go_eat_semi
      >>= loop_until at_close (stmt depth ind)
      >>= (λ made. close_brace made.toks made)

  -- The statement in front of the last semicolon of a header, and the condition.
  unfoldable pub if_header : ℕ → Option ℕ → Split → List GoTok → GoState → Outcome GoState
  unfolding emit_line go_simple
  if_header ind none (header, rest) ts st =
      emit_line ci ind (codes "IF") header (codes " THEN\n") (at rest st)
  if_header ind (some k) (header, rest) ts st =
      go_simple ci ind (take k header, drop k ts) ts (at ts st) >>= (λ made.
        emit_line ci ind (codes "IF") (drop (suc k) header) (codes " THEN\n") (at rest made))

  abbrev pub if_split : ℕ → Split → List GoTok → GoState → Outcome GoState
  if_split ind p ts st =
      if_header ind (last_of (tops no_braces (λ t. is_semi t.kind) (pos 0) 0 p.0)) p ts st

  -- Behind the block: `again` is `go_if` for an `else if`.
  abbrev pub else_block :
      (List GoTok → GoState → Outcome GoState) → ℕ → ℕ → List GoTok → GoState → Outcome GoState
  else_block again depth ind [] st = fault
  else_block again depth ind (t ∷ ts) st = elim (go_ci t (codes "if")) [
    | true ↦ again (t ∷ ts) (write (indent ind ++ codes "ELSE\n") (at (t ∷ ts) st))
    | false ↦ go_block depth (suc ind) (write (indent ind ++ codes "ELSE\n") (at (t ∷ ts) st))
  ]

  abbrev pub else_at :
      (List GoTok → GoState → Outcome GoState) → ℕ → ℕ → List GoTok → GoState → Outcome GoState
  else_at again depth ind [] st = fault
  else_at again depth ind (t ∷ ts) st = elim (go_ci t (codes "else")) [
    | true ↦ else_block again depth ind ts st >>= go_eat_semi
    | false ↦ done st
  ]

  -- From the tokens `t ∷ ts` on, of which `t` is `if`; `depth` counts this statement.
  unfoldable pub if_at :
      (List GoTok → GoState → Outcome GoState)
      → ℕ
      → ℕ
      → GoTok
      → List GoTok
      → GoState
      → Outcome GoState
  unfolding go_header_end if_header tops go_block go_eat_semi indent
  if_at again depth ind t ts st =
      if ltb plx_max_depth depth
      then go_err (t ∷ ts) (codes "if/else nested too deeply")
      else if_split ind (go_header_end ts) ts st
        >>= go_block depth (suc ind)
        >>= go_eat_semi
        >>= (λ made. else_at again depth ind made.toks made)
        >>= (λ made. done (write (indent ind ++ codes "END IF;\n") made))

  -- On fuel, which the number of tokens bounds.
  unfoldable pub if_on : ℕ → ℕ → ℕ → List GoTok → GoState → Outcome GoState
  unfolding if_at
  if_on zero depth ind ts st = cut_short
  if_on (suc fuel) depth ind [] st = fault
  if_on (suc fuel) depth ind (t ∷ ts) st =
      if_at (if_on fuel (suc depth) (suc ind)) (suc depth) ind t ts st

  unfoldable pub go_if : ℕ → ℕ → List GoTok → GoState → Outcome GoState
  unfolding if_on
  go_if depth ind ts st = if_on (suc (length ts)) depth ind ts st
