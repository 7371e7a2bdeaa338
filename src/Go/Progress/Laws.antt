-- ===== src/Go/Progress/Laws.antt =====
-- The Go parser ends, and each statement takes a token.
use plx.Assemble.{PlxLocal2}
use plx.Context.{indent, plx_max_depth}
use plx.Prelude.Outcome.{done, raised, cut_short, ◌>>=◌}
use plx.Prelude.Result.{Result, ok, err}
use plx.Prelude.{
  ℕ, zero, suc, ◌≤◌, ◌<◌, Bytes, codes, length, Bool, ltb, List, [], ◌∷◌, ◌++◌, Option, none, some,
  ◌≢◌, arith, if-case, if-split, elim-split,
}
use plx.Go.If.{Stmt, go_block}
use plx.Go.Parser.{
  GoStmt, semi, bare_block, var_stmt, const_stmt, if_stmt, for_stmt, switch_stmt, return_stmt,
  break_stmt, continue_stmt, func_stmt, refused, simple_stmt, stmt_kind, at_eof, closes_body,
  return_at, go_return, emit_jump, run_stmt, stmt_at, stmt_on, go_stmt, listed_stmt, statement_list,
  body_at, go_program, go_transpile,
}
use plx.Go.Progress.Declare.{go_var-Ends}
use plx.Go.Progress.For.{go_for-Ends}
use plx.Go.Progress.If.{AllTake, then_on, go_block-takes, go_if-Ends}
use plx.Go.Progress.Lexer.{go_lex_total}
use plx.Go.Progress.Scan.{Stops, go_stmt_end-size}
use plx.Go.Progress.Simple.{go_simple-takes}
use plx.Go.Progress.State.{
  Within, Takes, semis-Ends, go_eat_semi-Ends, at_close-Stops, loop_until-Ends, emit_line-Ends,
}
use plx.Go.Progress.Switch.{go_switch-Ends}
use plx.Go.Scan.{Split, Inside, go_match, go_stmt_end}
use plx.Go.Simple.{go_simple}
use plx.Go.State.{GoState, at, write, semis, go_eat_semi, at_close, loop_until}
use plx.Go.Token.{GoTok, is_lbrace, is_rbrace}
use plx.Prelude.Ends.{Ends, returns, raises, faults, >>=-Ends, Ends-mono, Ends-done}

module _ (ci : Bytes → Bytes → Bool) where
  return_at-Ends :
      (n ind : ℕ) (p : Split) (st : GoState)
      → length p.1 ≤ n
      → Ends (Within n) (return_at ci ind p st)
  return_at-Ends n ind ([], rest) st h = returns h
  return_at-Ends n ind (t ∷ value, rest) st h =
      emit_line-Ends ci n ind _ (t ∷ value) (codes ";\n") (at rest st) h

  emit_jump-Ends :
      (n ind : ℕ) (word : Bytes) (ts : List GoTok) (st : GoState)
      → length ts ≤ n
      → Ends (Within n) (emit_jump ci ind word ts st)
  emit_jump-Ends n ind word ts st h = go_eat_semi-Ends n (write (indent ind ++ word) (at ts st)) h

  -- A statement takes its tokens from behind `t`, where the statements in it take tokens.
  run_stmt-Ends :
      (stmt : Stmt) (kind : GoStmt) (depth ind : ℕ) (t : GoTok) (ts : List GoTok) (st : GoState)
      → AllTake stmt (length ts)
      → Ends (Within (length ts)) (run_stmt ci stmt kind depth ind t ts st)
  unfolding run_stmt go_return
  run_stmt-Ends stmt semi depth ind t ts st takes = returns (omega arith)
  run_stmt-Ends stmt bare_block depth ind t ts st takes =
      then_on (length ts) (go_block ci stmt depth ind (at (t ∷ ts) st)) go_eat_semi
        (go_block-takes ci stmt (length ts) takes depth ind (at (t ∷ ts) st) (omega arith))
        (λ mid k. go_eat_semi-Ends (length ts) mid k)
  run_stmt-Ends stmt var_stmt depth ind t ts st takes = go_var-Ends ci ind _ ts st
  run_stmt-Ends stmt const_stmt depth ind t ts st takes = go_var-Ends ci ind _ ts st
  run_stmt-Ends stmt if_stmt depth ind t ts st takes =
      go_if-Ends ci stmt (length ts) depth ind (t ∷ ts) st takes (omega arith)
  run_stmt-Ends stmt for_stmt depth ind t ts st takes =
      go_for-Ends ci stmt (length ts) takes depth ind ts st (omega arith)
  run_stmt-Ends stmt switch_stmt depth ind t ts st takes =
      go_switch-Ends ci stmt (length ts) takes depth ind ts st (omega arith)
  run_stmt-Ends stmt return_stmt depth ind t ts st takes =
      return_at-Ends (length ts) ind (go_stmt_end ts) st (omega (arith, go_stmt_end-size ts))
  run_stmt-Ends stmt break_stmt depth ind t ts st takes =
      emit_jump-Ends (length ts) ind (codes "EXIT;\n") ts st (omega arith)
  run_stmt-Ends stmt continue_stmt depth ind t ts st takes =
      emit_jump-Ends (length ts) ind (codes "CONTINUE;\n") ts st (omega arith)
  run_stmt-Ends stmt func_stmt depth ind t ts st takes = raises
  run_stmt-Ends stmt refused depth ind t ts st takes = raises
  run_stmt-Ends stmt simple_stmt depth ind t ts st takes =
      then_on (length ts) (go_simple ci ind (go_stmt_end (t ∷ ts)) (t ∷ ts) (at (t ∷ ts) st))
        go_eat_semi
        (go_simple-takes ci (length ts) ind (go_stmt_end (t ∷ ts)) (t ∷ ts) (at (t ∷ ts) st)
          (omega (arith, go_stmt_end-size (t ∷ ts))))
        (λ mid k. go_eat_semi-Ends (length ts) mid k)

  stmt_at-Ends :
      (stmt : Stmt) (depth ind : ℕ) (ts : List GoTok) (st : GoState)
      → length ts ≤ length st.toks
      → ((depth ind : ℕ) (s : GoState) → length s.toks < length ts → Takes s (stmt depth ind s))
      → Takes st (stmt_at ci stmt depth ind ts st)
  unfolding stmt_at
  stmt_at-Ends stmt depth ind [] st less takes = faults
  stmt_at-Ends stmt depth ind (t ∷ ts) st less takes =
      if-split (Takes st) (ltb plx_max_depth (suc depth)) (λ _. raises)
        (λ _.
          Ends-mono _
            (run_stmt-Ends stmt (stmt_kind t) (suc depth) ind t ts st
              (λ depth' ind' s few. takes depth' ind' s (omega (arith, few))))
            (λ made h. omega (arith, h, less)))

  stmt_on-Takes :
      (fuel depth ind : ℕ) (st : GoState)
      → length st.toks < fuel
      → Takes st (stmt_on ci fuel depth ind st)
  unfolding stmt_on
  stmt_on-Takes zero depth ind st small = absurd (omega arith)
  stmt_on-Takes (suc fuel) depth ind st small =
      stmt_at-Ends (stmt_on ci fuel) depth ind st.toks st (omega arith)
        (λ depth' ind' s few. stmt_on-Takes fuel depth' ind' s (omega (arith, few, small)))

  -- A statement is never cut short, and where it returns, it has taken at least a token.
  pub go_stmt-Takes : (depth ind : ℕ) (st : GoState) → Takes st (go_stmt ci depth ind st)
  unfolding go_stmt
  go_stmt-Takes depth ind st = stmt_on-Takes (suc (length st.toks)) depth ind st (omega arith)

  listed_stmt-Takes : (ts : List GoTok) (st : GoState) → Takes st (listed_stmt ci ts st)
  listed_stmt-Takes [] st = faults
  listed_stmt-Takes (t ∷ ts) st =
      if-case (Takes st) (is_rbrace t.kind) raises (go_stmt-Takes 0 1 st)

  at_eof-Stops : (ts : List GoTok) → Stops (at_eof ts)
  at_eof-Stops [] = faults
  at_eof-Stops (t ∷ ts) = returns tt

  statement_list-Stops : (st : GoState) → Stops (statement_list ci st)
  unfolding statement_list
  statement_list-Stops st =
      Ends-mono _
        (loop_until-Ends (length st.toks) at_eof _ st at_eof-Stops
          (λ s _. listed_stmt-Takes s.toks s) (omega arith))
        (λ _ _. tt)

  closes_body-Stops : (o : Option Inside) → Stops (closes_body o)
  unfolding closes_body
  closes_body-Stops none = returns tt
  closes_body-Stops (some (inside, close, r ∷ rest)) = returns tt
  closes_body-Stops (some (inside, close, [])) = faults

  braced-Stops : (st : GoState) → Stops (loop_until at_close (go_stmt ci 0 1) st)
  braced-Stops st =
      Ends-mono _
        (loop_until-Ends (length st.toks) at_close (go_stmt ci 0 1) st at_close-Stops
          (λ s _. go_stmt-Takes 0 1 s) (omega arith))
        (λ _ _. tt)

  body_at-Stops : (ts : List GoTok) (st : GoState) → Stops (body_at ci ts st)
  body_at-Stops [] st = faults
  body_at-Stops (t ∷ ts) st =
      elim-split Stops (is_lbrace t.kind)
        (λ _. >>=-Ends _ (closes_body (go_match (t ∷ ts))) _ (closes_body-Stops _) (λ whole _.
          elim-split Stops whole (λ _. braced-Stops (at ts st)) (λ _. statement_list-Stops st)))
        (λ _. statement_list-Stops st)

  go_program-Stops : (retset : Bool) (ts : List GoTok) → Stops (go_program ci retset ts)
  unfolding go_program
  go_program-Stops retset ts =
      >>=-Ends _ (semis ts) _ (semis-Ends (length ts) ts (omega arith))
        (λ from _. body_at-Stops from _)

  -- On every body the front end stops: it returns, reports an error, or reads behind its tokens, and is
  -- never cut short.
  pub go_transpile_stops : (retset : Bool) (body : Bytes) → go_transpile ci retset body ≢ cut_short
  unfolding go_transpile
  go_transpile_stops retset body =
      let (res, found, _) = go_lex_total body in rw (found, go_transpile) (Ends-done (read res))
    where
      left : GoState → List PlxLocal2 × Bytes
      left st = (st.locals, st.out)

      read :
          (res : Result (List GoTok))
          → Stops (elim (some res) [
            | none ↦ cut_short
            | some (err e) ↦ raised e
            | some (ok ts) ↦ go_program ci retset ts >>= (λ st. done (left st))
          ])
      read (err e) = raises
      read (ok ts) =
          >>=-Ends _ (go_program ci retset ts) _ (go_program-Stops retset ts) (λ st _. returns tt)
