-- ===== src/Go/Parser.antt =====
-- `go_stmt`, `go_return` and `go_transpile`. A statement is on fuel, which the number of tokens
-- bounds: every statement takes a token.
use plx.Assemble.{PlxLocal2}
use plx.Context.{indent, plx_max_depth}
use plx.Prelude.Outcome.{Outcome, done, raised, fault, cut_short, ◌>>=◌}
use plx.Prelude.Result.{ok, err}
use plx.Prelude.{
  ℕ, zero, suc, Bytes, codes, length, leb, ltb, Bool, true, false, ◌&&◌, ◌||◌, ◌==◌, if◌then◌else◌,
  List, [], ◌∷◌, ◌++◌, Option, none, some,
}
use plx.Go.Declare.{go_var}
use plx.Go.For.{go_for}
use plx.Go.If.{Stmt, go_block, go_if}
use plx.Go.Lexer.{go_lex}
use plx.Go.Scan.{Split, Inside, go_match, go_stmt_end}
use plx.Go.Simple.{go_simple}
use plx.Go.State.{GoState, at, write, go_err, semis, go_eat_semi, at_close, loop_until, emit_line}
use plx.Go.Switch.{go_switch}
use plx.Go.Token.{GoTok, is_eof, is_semi, is_lbrace, is_rbrace, go_ci}

-- What stands at the position, in the order in which `go_stmt` asks.
pub data GoStmt : Type 0 where
  semi bare_block var_stmt const_stmt if_stmt for_stmt switch_stmt return_stmt : GoStmt
  break_stmt continue_stmt func_stmt refused simple_stmt : GoStmt

unfoldable pub late_kind : GoTok → GoStmt
late_kind t =
    if go_ci t (codes "return")
    then return_stmt
    else if go_ci t (codes "break")
    then break_stmt
    else if go_ci t (codes "continue")
    then continue_stmt
    else if go_ci t (codes "func")
    then func_stmt
    else if go_ci t (codes "go")
        || go_ci t (codes "defer")
        || go_ci t (codes "select")
        || go_ci t (codes "goto")
    then refused
    else simple_stmt

unfoldable pub stmt_kind : GoTok → GoStmt
unfolding late_kind
stmt_kind t =
    if is_semi t.kind
    then semi
    else if is_lbrace t.kind
    then bare_block
    else if go_ci t (codes "var")
    then var_stmt
    else if go_ci t (codes "const")
    then const_stmt
    else if go_ci t (codes "if")
    then if_stmt
    else if go_ci t (codes "for")
    then for_stmt
    else if go_ci t (codes "switch")
    then switch_stmt
    else late_kind t

-- The parser stands at go_eof.
abbrev pub at_eof : List GoTok → Outcome Bool
at_eof [] = fault
at_eof (t ∷ ts) = done (is_eof t.kind)

-- Where the bracket that opens a body is closed at its end: what is inside and behind it. The last
-- clause is a bracket that is the last token.
unfoldable pub closes_body : Option Inside → Outcome Bool
closes_body none = done false
closes_body (some (inside, close, r ∷ rest)) =
    done (length (r ∷ rest) == 1 || (is_semi r.kind && leb (length (r ∷ rest)) 2))
closes_body (some (inside, close, [])) = fault

module _ (ci : Bytes → Bytes → Bool) where
  abbrev pub return_at : ℕ → Split → GoState → Outcome GoState
  return_at ind ([], rest) st = done (write (indent ind ++ codes "RETURN;\n") (at rest st))
  return_at ind (t ∷ value, rest) st =
      emit_line ci ind (if st.retset then codes "RETURN QUERY SELECT" else codes "RETURN")
        (t ∷ value) (codes ";\n") (at rest st)

  unfoldable pub go_return : ℕ → List GoTok → GoState → Outcome GoState
  unfolding go_stmt_end emit_line indent
  go_return ind ts st = return_at ind (go_stmt_end ts) st

  abbrev pub emit_jump : ℕ → Bytes → List GoTok → GoState → Outcome GoState
  emit_jump ind word ts st = go_eat_semi (write (indent ind ++ word) (at ts st))

  -- A statement that `t` begins, over the parser of the statements in it. `depth` counts the
  -- statement itself.
  unfoldable pub run_stmt : Stmt → GoStmt → ℕ → ℕ → GoTok → List GoTok → GoState → Outcome GoState
  unfolding go_stmt_end go_eat_semi go_block go_simple indent
  run_stmt stmt semi depth ind t ts st = done (at ts st)
  run_stmt stmt bare_block depth ind t ts st =
      go_block ci stmt depth ind (at (t ∷ ts) st) >>= go_eat_semi
  run_stmt stmt var_stmt depth ind t ts st = go_var ci ind false ts st
  run_stmt stmt const_stmt depth ind t ts st = go_var ci ind true ts st
  run_stmt stmt if_stmt depth ind t ts st = go_if ci stmt depth ind (t ∷ ts) st
  run_stmt stmt for_stmt depth ind t ts st = go_for ci stmt depth ind ts st
  run_stmt stmt switch_stmt depth ind t ts st = go_switch ci stmt depth ind ts st
  run_stmt stmt return_stmt depth ind t ts st = go_return ind ts st
  run_stmt stmt break_stmt depth ind t ts st = emit_jump ind (codes "EXIT;\n") ts st
  run_stmt stmt continue_stmt depth ind t ts st = emit_jump ind (codes "CONTINUE;\n") ts st
  run_stmt stmt func_stmt depth ind t ts st =
      go_err (t ∷ ts) (codes "nested function definitions are not supported")
  run_stmt stmt refused depth ind t ts st =
      go_err (t ∷ ts) (codes "go, defer, select, and goto are not supported")
  run_stmt stmt simple_stmt depth ind t ts st =
      go_simple ci ind (go_stmt_end (t ∷ ts)) (t ∷ ts) (at (t ∷ ts) st) >>= go_eat_semi

  unfoldable pub stmt_at : Stmt → ℕ → ℕ → List GoTok → GoState → Outcome GoState
  unfolding run_stmt stmt_kind
  stmt_at stmt depth ind [] st = fault
  stmt_at stmt depth ind (t ∷ ts) st =
      if ltb plx_max_depth (suc depth)
      then go_err (t ∷ ts) (codes "statement nested too deeply")
      else run_stmt stmt (stmt_kind t) (suc depth) ind t ts st

  unfoldable pub stmt_on : ℕ → Stmt
  unfolding stmt_at
  stmt_on zero depth ind st = cut_short
  stmt_on (suc fuel) depth ind st = stmt_at (stmt_on fuel) depth ind st.toks st

  unfoldable pub go_stmt : Stmt
  unfolding stmt_on
  go_stmt depth ind st = stmt_on (suc (length st.toks)) depth ind st

  -- A statement of the list that the body is, where no `}` may stand.
  abbrev pub listed_stmt : List GoTok → GoState → Outcome GoState
  listed_stmt [] st = fault
  listed_stmt (t ∷ ts) st =
      if is_rbrace t.kind then go_err (t ∷ ts) (codes "unexpected }") else go_stmt 0 1 st

  unfoldable pub statement_list : GoState → Outcome GoState
  unfolding loop_until go_stmt
  statement_list st = loop_until at_eof (λ s. listed_stmt s.toks s) st

  -- Braces around the whole body are left out.
  abbrev pub body_at : List GoTok → GoState → Outcome GoState
  body_at [] st = fault
  body_at (t ∷ ts) st = elim (is_lbrace t.kind) [
    | false ↦ statement_list st
    | true ↦ closes_body (go_match (t ∷ ts)) >>= (λ whole. elim whole [
      | true ↦ loop_until at_close (go_stmt 0 1) (at ts st)
      | false ↦ statement_list st
    ])
  ]

  unfoldable pub go_program : Bool → List GoTok → Outcome GoState
  unfolding semis closes_body go_match loop_until statement_list go_stmt
  go_program retset ts = semis ts >>= (λ from.
      body_at from (record { all = ts; toks = from; out = []; locals = []; retset = retset }))

  -- What it leaves in the context: the locals, and the text of the body.
  unfoldable pub go_transpile : Bool → Bytes → Outcome (List PlxLocal2 × Bytes)
  unfolding go_program go_lex
  go_transpile retset body = elim (go_lex body) [
    | none ↦ cut_short
    | some (err e) ↦ raised e
    | some (ok ts) ↦ go_program retset ts >>= (λ st. done (st.locals, st.out))
  ]
