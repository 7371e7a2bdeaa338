-- ===== src/Tsql/Parser.antt =====
-- `tq_stmt` and `tsql_transpile`. A statement is on fuel, which the number of tokens bounds: every
-- statement takes a token.
use plx.Assemble.{PlxLocal2}
use plx.Context.{plx_max_depth}
use plx.Prelude.Outcome.{Outcome, done, raised, fault, cut_short, ◌>>=◌}
use plx.Prelude.Result.{ok, err}
use plx.Prelude.{
  ℕ, zero, suc, Bytes, codes, length, Bool, true, false, ◌||◌, ltb, if◌then◌else◌, List, [], ◌∷◌,
  none, some,
}
use plx.Tsql.Assign.{tq_declare, tq_set}
use plx.Tsql.Lexer.{tq_lex}
use plx.Tsql.Raise.{tq_print, tq_return, tq_raiserror, tq_throw, tq_exec, emit_jump, tq_raw}
use plx.Tsql.Select.{tq_select}
use plx.Tsql.State.{TqState, tq_err, tq_eat_semi}
use plx.Tsql.Token.{TqTok, is_eof, is_semi, tq_ci}
use plx.Tsql.Blocks.{Stmt, at_end, stmts_until, tq_block, tq_if, tq_while, tq_try, tq_group}

-- What stands at the position, in the order in which `tq_stmt` asks.
pub data TqStmt : Type 0 where
  semi declare_stmt set_stmt select_stmt if_stmt while_stmt print_stmt return_stmt : TqStmt
  raiserror_stmt throw_stmt exec_stmt break_stmt continue_stmt try_stmt block_stmt : TqStmt
  begin_tran transaction goto_stmt raw_stmt behind_end : TqStmt

-- The parser stands at tq_eof.
abbrev pub at_eof : List TqTok → Outcome Bool
at_eof [] = fault
at_eof (t ∷ ts) = done (is_eof t.kind)

abbrev pub fresh : List TqTok → TqState
fresh ts = record { toks = ts; out = []; locals = [] }

module _ (ci : Bytes → Bytes → Bool) where
  abbrev pub begin_kind : List TqTok → TqStmt
  begin_kind [] = behind_end
  begin_kind (n ∷ ts) =
      if tq_ci ci n (codes "TRY")
      then try_stmt
      else if tq_ci ci n (codes "TRAN") || tq_ci ci n (codes "TRANSACTION")
      then begin_tran
      else block_stmt

  -- Behind the words DECLARE, SET and SELECT.
  unfoldable pub late_kind : TqTok → List TqTok → TqStmt
  late_kind t ts =
      let is : Bytes → Bool = tq_ci ci t in
      if is (codes "IF")
      then if_stmt
      else if is (codes "WHILE")
      then while_stmt
      else if is (codes "PRINT")
      then print_stmt
      else if is (codes "RETURN")
      then return_stmt
      else if is (codes "RAISERROR")
      then raiserror_stmt
      else if is (codes "THROW")
      then throw_stmt
      else if is (codes "EXEC") || is (codes "EXECUTE")
      then exec_stmt
      else if is (codes "BREAK")
      then break_stmt
      else if is (codes "CONTINUE")
      then continue_stmt
      else if is (codes "BEGIN")
      then begin_kind ts
      else if is (codes "COMMIT") || is (codes "ROLLBACK")
      then transaction
      else if is (codes "GOTO") || is (codes "WAITFOR")
      then goto_stmt
      else raw_stmt

  unfoldable pub stmt_kind : TqTok → List TqTok → TqStmt
  unfolding late_kind
  stmt_kind t ts =
      let is : Bytes → Bool = tq_ci ci t in
      if is_semi t.kind
      then semi
      else if is (codes "DECLARE")
      then declare_stmt
      else if is (codes "SET")
      then set_stmt
      else if is (codes "SELECT")
      then select_stmt
      else late_kind t ts

  module _ (retset : Bool) where
    -- A statement that `t` begins, over the parser of the statements in it. `depth` counts the
    -- statement itself.
    unfoldable pub run_stmt : Stmt → TqStmt → ℕ → ℕ → TqTok → List TqTok → TqState → Outcome TqState
    run_stmt stmt semi depth ind t ts st = done (record st { toks = ts })
    run_stmt stmt declare_stmt depth ind t ts st = tq_declare ci ind ts st
    run_stmt stmt set_stmt depth ind t ts st = tq_set ci ind ts st
    run_stmt stmt select_stmt depth ind t ts st = tq_select ci retset ind t ts st
    run_stmt stmt if_stmt depth ind t ts st = tq_if ci stmt depth ind ts st
    run_stmt stmt while_stmt depth ind t ts st = tq_while ci stmt depth ind ts st
    run_stmt stmt print_stmt depth ind t ts st = tq_print ci ind ts st
    run_stmt stmt return_stmt depth ind t ts st = tq_return ci ind ts st
    run_stmt stmt raiserror_stmt depth ind t ts st = tq_raiserror ci ind ts st
    run_stmt stmt throw_stmt depth ind t ts st = tq_throw ci ind ts st
    run_stmt stmt exec_stmt depth ind t ts st = tq_exec ci ind ts st
    run_stmt stmt break_stmt depth ind t ts st = emit_jump ind (codes "EXIT;\n") ts st
    run_stmt stmt continue_stmt depth ind t ts st = emit_jump ind (codes "CONTINUE;\n") ts st
    run_stmt stmt try_stmt depth ind t ts st = tq_try ci stmt depth ind ts st
    run_stmt stmt block_stmt depth ind t ts st = tq_group ci stmt depth ind ts st
    run_stmt stmt begin_tran depth ind t ts st =
        tq_err (t ∷ ts) (codes "transaction control (BEGIN TRAN) is not allowed in a function")
    run_stmt stmt transaction depth ind t ts st =
        tq_err (t ∷ ts) (codes "transaction control is not allowed in a function")
    run_stmt stmt goto_stmt depth ind t ts st =
        tq_err (t ∷ ts) (codes "GOTO and WAITFOR are not supported")
    run_stmt stmt raw_stmt depth ind t ts st = tq_raw ci ind (t ∷ ts) st
    run_stmt stmt behind_end depth ind t ts st = fault

    unfoldable pub stmt_at : Stmt → ℕ → ℕ → List TqTok → TqState → Outcome TqState
    unfolding run_stmt stmt_kind
    stmt_at stmt depth ind [] st = fault
    stmt_at stmt depth ind (t ∷ ts) st =
        if ltb plx_max_depth (suc depth)
        then tq_err (t ∷ ts) (codes "statement nested too deeply")
        else run_stmt stmt (stmt_kind t ts) (suc depth) ind t ts st

    unfoldable pub stmt_on : ℕ → Stmt
    unfolding stmt_at
    stmt_on zero depth ind st = cut_short
    stmt_on (suc fuel) depth ind st = stmt_at (stmt_on fuel) depth ind st.toks st

    unfoldable pub tq_stmt : Stmt
    unfolding stmt_on
    tq_stmt depth ind st = stmt_on (suc (length st.toks)) depth ind st

    -- A statement of the list that the body is, where no END may stand.
    abbrev pub listed_stmt : TqState → Outcome TqState
    listed_stmt st =
        at_end ci st.toks
        >>= (λ b. if b then tq_err st.toks (codes "unexpected END") else tq_stmt 0 1 st)

    unfoldable pub statement_list : TqState → Outcome TqState
    unfolding stmts_until
    statement_list st = stmts_until at_eof listed_stmt st

    -- Behind the statements of an outer BEGIN: whether END and the end of the body follow.
    unfoldable pub wraps_all : List TqTok → Outcome Bool
    wraps_all [] = fault
    wraps_all (t ∷ ts) = if tq_ci ci t (codes "END") then tq_eat_semi ts >>= at_eof else done false

    -- An outer BEGIN and END that hold the whole body are left out; where they do not, the body is
    -- read again from the top.
    unfoldable pub unwrapped : TqTok → List TqTok → Outcome TqState
    unfolding tq_block wraps_all statement_list
    unwrapped t ts = do
      inner ← tq_block ci tq_stmt 0 1 (fresh ts)
      whole ← wraps_all inner.toks
      elim whole [ true ↦ done inner | false ↦ statement_list (fresh (t ∷ ts)) ]

    unfoldable pub tq_program : List TqTok → Outcome TqState
    unfolding unwrapped
    tq_program [] = fault
    tq_program (t ∷ ts) = elim (tq_ci ci t (codes "BEGIN")) [
      | false ↦ statement_list (fresh (t ∷ ts))
      | true ↦ elim (begin_kind ts) [
        | behind_end ↦ fault
        | block_stmt ↦ unwrapped t ts
        | _ ↦ statement_list (fresh (t ∷ ts))
      ]
    ]

    -- What it leaves in the context: the locals, and the text of the body.
    unfoldable pub tsql_transpile : Bytes → Outcome (List PlxLocal2 × Bytes)
    unfolding tq_program
    tsql_transpile body = elim (tq_lex body) [
      | none ↦ cut_short
      | some (err e) ↦ raised e
      | some (ok ts) ↦ do from ← tq_eat_semi ts; st ← tq_program from; done (st.locals, st.out)
    ]
