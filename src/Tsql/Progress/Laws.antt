-- ===== src/Tsql/Progress/Laws.antt =====
-- The T-SQL parser ends, each statement takes a token, and it only writes behind what it has
-- written.
use plx.Context.{plx_max_depth}
use plx.Assemble.{PlxLocal2}
use plx.Prelude.Outcome.{Outcome, done, raised, fault, cut_short, ◌>>=◌}
use plx.Prelude.{
  ℕ, zero, suc, ◌≤◌, ◌<◌, Bytes, codes, length, Bool, true, ◌||◌, ltb, List, [], ◌∷◌, none, some,
  ◌≡◌, ◌≢◌, arith, if-case, if-split, elim-split,
}
use plx.Tsql.Blocks.{Stmt, at_end, tq_block}
use plx.Tsql.Parser.{
  TqStmt, semi, declare_stmt, set_stmt, select_stmt, if_stmt, while_stmt, print_stmt, return_stmt,
  raiserror_stmt, throw_stmt, exec_stmt, break_stmt, continue_stmt, try_stmt, block_stmt,
  begin_tran, transaction, goto_stmt, raw_stmt, behind_end, begin_kind, late_kind, stmt_kind,
  run_stmt, stmt_at, stmt_on, tq_stmt, listed_stmt, statement_list, wraps_all, unwrapped,
  tq_program, tsql_transpile, at_eof, fresh,
}
use plx.Tsql.Progress.Assign.{tq_declare-Ends, tq_set-Ends}
use plx.Tsql.Progress.Select.{tq_select-Ends}
use plx.Tsql.Progress.Loop.{Takes, KeepsOn, Tests, stmts_until-Ends}
use plx.Tsql.Progress.Blocks.{
  at_end-Tests, tq_block-KeepsOn, tq_if-Ends, tq_while-Ends, tq_try-Ends, tq_group-Ends,
}
use plx.Tsql.Progress.Leaves.{
  Keeps, tq_err-Ends, tq_eat_semi-Ends, tq_print-Ends, tq_return-Ends, tq_raiserror-Ends,
  tq_throw-Ends, tq_exec-Ends, emit_jump-Ends, tq_raw-Ends,
}
use plx.Tsql.Progress.Lexer.{IsOpenString, lexed, open_at, tq_lex_total}
use plx.Prelude.Result.{Result, ok, err}
use plx.Prelude.Ends.{Ends, returns, raises, faults, >>=-Ends, Ends-mono, Ends-done, Extends-self}
use plx.Tsql.State.{TqState, tq_eat_semi}
use plx.Tsql.Token.{TqTok, is_semi, tq_ci}

module _ (ci : Bytes → Bytes → Bool) (t : TqTok) where
  -- What a kind says of the token: where it is SELECT, the token is that word.
  unfoldable Fits : TqStmt → Type 0
  Fits select_stmt = tq_ci ci t (codes "SELECT") ≡ true
  Fits _ = Unit

  begin_kind-Fits : (ts : List TqTok) → Fits (begin_kind ci ts)
  unfolding Fits
  begin_kind-Fits [] = tt
  begin_kind-Fits (n ∷ ts) =
      if-split Fits (tq_ci ci n (codes "TRY")) (λ _. tt)
        (λ _.
          if-split Fits (tq_ci ci n (codes "TRAN") || tq_ci ci n (codes "TRANSACTION")) (λ _. tt)
            (λ _. tt))

  -- Of the kinds behind SELECT none is SELECT.
  late_kind-Fits : (ts : List TqTok) → Fits (late_kind ci t ts)
  unfolding Fits late_kind
  late_kind-Fits ts =
      let P = Fits in
      if-split P (tq_ci ci t (codes "IF")) (λ _. tt)
        (λ _.
          if-split P (tq_ci ci t (codes "WHILE")) (λ _. tt)
            (λ _.
              if-split P (tq_ci ci t (codes "PRINT")) (λ _. tt)
                (λ _.
                  if-split P (tq_ci ci t (codes "RETURN")) (λ _. tt)
                    (λ _.
                      if-split P (tq_ci ci t (codes "RAISERROR")) (λ _. tt)
                        (λ _.
                          if-split P (tq_ci ci t (codes "THROW")) (λ _. tt)
                            (λ _.
                              if-split P (tq_ci ci t (codes "EXEC") || tq_ci ci t (codes "EXECUTE"))
                                (λ _. tt)
                                (λ _.
                                  if-split P (tq_ci ci t (codes "BREAK")) (λ _. tt)
                                    (λ _.
                                      if-split P (tq_ci ci t (codes "CONTINUE")) (λ _. tt)
                                        (λ _.
                                          if-split P (tq_ci ci t (codes "BEGIN"))
                                            (λ _. begin_kind-Fits ts)
                                            (λ _.
                                              if-split P
                                                (tq_ci ci t (codes "COMMIT")
                                                  || tq_ci ci t (codes "ROLLBACK"))
                                                (λ _. tt)
                                                (λ _.
                                                  if-split P
                                                    (tq_ci ci t (codes "GOTO")
                                                      || tq_ci ci t (codes "WAITFOR"))
                                                    (λ _. tt) (λ _. tt))))))))))))

  stmt_kind-Fits : (ts : List TqTok) → Fits (stmt_kind ci t ts)
  unfolding Fits stmt_kind
  stmt_kind-Fits ts =
      let P = Fits in
      if-split P (is_semi t.kind) (λ _. tt)
        (λ _.
          if-split P (tq_ci ci t (codes "DECLARE")) (λ _. tt)
            (λ _.
              if-split P (tq_ci ci t (codes "SET")) (λ _. tt)
                (λ _. if-split P (tq_ci ci t (codes "SELECT")) (λ e. e) (λ _. late_kind-Fits ts))))

module _ (ci : Bytes → Bytes → Bool) (retset : Bool) where
  -- A statement takes its tokens from behind `t`, where the statements in it take tokens.
  run_stmt-Ends :
      (stmt : Stmt) (kind : TqStmt) (depth ind : ℕ) (t : TqTok) (ts : List TqTok) (st : TqState)
      → ((depth ind : ℕ) (at : TqState) → length at.toks ≤ length ts → Takes at (stmt depth ind at))
      → Fits ci t kind
      → Ends (Keeps (length ts) st) (run_stmt ci retset stmt kind depth ind t ts st)
  unfolding run_stmt Fits
  run_stmt-Ends stmt semi depth ind t ts st takes fits =
      returns (omega arith, (Extends-self st.out, Extends-self st.locals))
  run_stmt-Ends stmt declare_stmt depth ind t ts st takes fits = tq_declare-Ends ci ind ts st
  run_stmt-Ends stmt set_stmt depth ind t ts st takes fits = tq_set-Ends ci ind ts st
  run_stmt-Ends stmt select_stmt depth ind t ts st takes fits =
      tq_select-Ends ci retset ind t ts st fits
  run_stmt-Ends stmt if_stmt depth ind t ts st takes fits =
      tq_if-Ends ci stmt (length ts) takes depth ind ts st (omega arith)
  run_stmt-Ends stmt while_stmt depth ind t ts st takes fits =
      tq_while-Ends ci stmt (length ts) takes depth ind ts st (omega arith)
  run_stmt-Ends stmt print_stmt depth ind t ts st takes fits = tq_print-Ends ci ind ts st
  run_stmt-Ends stmt return_stmt depth ind t ts st takes fits = tq_return-Ends ci ind ts st
  run_stmt-Ends stmt raiserror_stmt depth ind t ts st takes fits = tq_raiserror-Ends ci ind ts st
  run_stmt-Ends stmt throw_stmt depth ind t ts st takes fits = tq_throw-Ends ci ind ts st
  run_stmt-Ends stmt exec_stmt depth ind t ts st takes fits = tq_exec-Ends ci ind ts st
  run_stmt-Ends stmt break_stmt depth ind t ts st takes fits = emit_jump-Ends ci ind _ ts st
  run_stmt-Ends stmt continue_stmt depth ind t ts st takes fits = emit_jump-Ends ci ind _ ts st
  run_stmt-Ends stmt try_stmt depth ind t ts st takes fits =
      tq_try-Ends ci stmt (length ts) takes depth ind ts st (omega arith)
  run_stmt-Ends stmt block_stmt depth ind t ts st takes fits =
      tq_group-Ends ci stmt (length ts) takes depth ind ts st (omega arith)
  run_stmt-Ends stmt begin_tran depth ind t ts st takes fits = raises
  run_stmt-Ends stmt transaction depth ind t ts st takes fits = raises
  run_stmt-Ends stmt goto_stmt depth ind t ts st takes fits = raises
  run_stmt-Ends stmt raw_stmt depth ind t ts st takes fits = tq_raw-Ends ci ind t ts st
  run_stmt-Ends stmt behind_end depth ind t ts st takes fits = faults

  stmt_at-Ends :
      (stmt : Stmt) (depth ind : ℕ) (ts : List TqTok) (st : TqState)
      → length ts ≤ length st.toks
      → ((depth ind : ℕ) (at : TqState) → length at.toks < length ts → Takes at (stmt depth ind at))
      → Takes st (stmt_at ci retset stmt depth ind ts st)
  unfolding stmt_at
  stmt_at-Ends stmt depth ind [] st less takes = faults
  stmt_at-Ends stmt depth ind (t ∷ ts) st less takes =
      if-split (Takes st) (ltb plx_max_depth (suc depth)) (λ _. raises)
        (λ _.
          Ends-mono _
            (run_stmt-Ends stmt (stmt_kind ci t ts) (suc depth) ind t ts st
              (λ depth' ind' at few. takes depth' ind' at (omega (arith, few)))
              (stmt_kind-Fits ci t ts))
            (λ made h. (omega (arith, h.0, less), (omega (arith, h.0, less), h.1))))

  stmt_on-Takes :
      (fuel depth ind : ℕ) (st : TqState)
      → length st.toks < fuel
      → Takes st (stmt_on ci retset fuel depth ind st)
  unfolding stmt_on
  stmt_on-Takes zero depth ind st small = absurd (omega arith)
  stmt_on-Takes (suc fuel) depth ind st small =
      stmt_at-Ends (stmt_on ci retset fuel) depth ind st.toks st (omega arith)
        (λ depth' ind' at few. stmt_on-Takes fuel depth' ind' at (omega (arith, few, small)))

  -- A statement is never cut short. Where it returns, it has taken at least a token, and has only
  -- added to the text and to the locals that were there.
  pub tq_stmt-Takes : (depth ind : ℕ) (st : TqState) → Takes st (tq_stmt ci retset depth ind st)
  unfolding tq_stmt
  tq_stmt-Takes depth ind st = stmt_on-Takes (suc (length st.toks)) depth ind st (omega arith)

  listed_stmt-Takes : (st : TqState) → Takes st (listed_stmt ci retset st)
  listed_stmt-Takes st = >>=-Ends _ (at_end ci st.toks) _ (at_end-Tests ci st.toks) (λ b _.
      if-case (Takes st) b (tq_err-Ends _ st.toks (codes "unexpected END")) (tq_stmt-Takes 0 1 st))

  at_eof-Tests : Tests at_eof
  at_eof-Tests [] = faults
  at_eof-Tests (t ∷ ts) = returns tt

  statement_list-KeepsOn : (st : TqState) → KeepsOn st (statement_list ci retset st)
  unfolding statement_list
  statement_list-KeepsOn st =
      stmts_until-Ends at_eof (listed_stmt ci retset) (length st.toks) st at_eof-Tests
        (λ at _. listed_stmt-Takes at) (omega arith)

  wraps_all-Ends : Tests (wraps_all ci retset)
  unfolding wraps_all
  wraps_all-Ends [] = faults
  wraps_all-Ends (t ∷ ts) =
      if-split (Ends _) (tq_ci ci t (codes "END"))
        (λ _.
          >>=-Ends _ (tq_eat_semi ts) at_eof (tq_eat_semi-Ends ts) (λ left _. at_eof-Tests left))
        (λ _. returns tt)

  -- The run is not cut short.
  abbrev Stops {ℓ} : {A : Type ℓ} → Outcome A → Type ℓ
  Stops o = Ends (λ _. Unit) o

  list-Stops : (st : TqState) → Stops (statement_list ci retset st)
  list-Stops st = Ends-mono _ (statement_list-KeepsOn st) (λ _ _. tt)

  unwrapped-Stops : (t : TqTok) (ts : List TqTok) → Stops (unwrapped ci retset t ts)
  unfolding unwrapped
  unwrapped-Stops t ts =
      >>=-Ends _ (tq_block ci (tq_stmt ci retset) 0 1 (fresh ts)) _
        (tq_block-KeepsOn ci (tq_stmt ci retset) (length ts)
          (λ depth ind at _. tq_stmt-Takes depth ind at) 0 1 (fresh ts) (omega arith))
        (λ inner _.
          >>=-Ends _ (wraps_all ci retset inner.toks) _ (wraps_all-Ends inner.toks)
            (λ b _. elim-split Stops b (λ _. returns tt) (λ _. list-Stops (fresh (t ∷ ts)))))

  tq_program-Stops : (ts : List TqTok) → Stops (tq_program ci retset ts)
  unfolding tq_program
  tq_program-Stops [] = faults
  tq_program-Stops (t ∷ ts) =
      elim-split Stops (tq_ci ci t (codes "BEGIN")) (λ _. outer (begin_kind ci ts))
        (λ _. list-Stops (fresh (t ∷ ts)))
    where
      outer :
          (kind : TqStmt)
          → Stops (elim kind [
            | behind_end ↦ fault
            | block_stmt ↦ unwrapped ci retset t ts
            | _ ↦ statement_list ci retset (fresh (t ∷ ts))
          ])
      outer behind_end = faults
      outer block_stmt = unwrapped-Stops t ts
      outer _ = list-Stops (fresh (t ∷ ts))

  -- On every body the front end stops: it returns, reports an error, or reads behind its tokens,
  -- and is never cut short.
  pub tsql_transpile_stops : (body : Bytes) → tsql_transpile ci retset body ≢ cut_short
  unfolding tsql_transpile
  tsql_transpile_stops body =
      let (res, made, good) = tq_lex_total body in
      rw (made, tsql_transpile) (Ends-done (read res good))
    where
      left : TqState → List PlxLocal2 × Bytes
      left st = (st.locals, st.out)

      read :
          (res : Result (List TqTok))
          → IsOpenString body res
          → Stops (elim (some res) [
            | none ↦ cut_short
            | some (err e) ↦ raised e
            | some (ok ts) ↦ do
              from ← tq_eat_semi ts
              st ← tq_program ci retset from
              done (left st)
          ])
      read (err e) (open_at reached string never) = raises
      read (ok ts) lexed = >>=-Ends _ (tq_eat_semi ts) _ (tq_eat_semi-Ends ts) (λ from _.
          >>=-Ends _ (tq_program ci retset from) _ (tq_program-Stops from) (λ st _. returns tt))
