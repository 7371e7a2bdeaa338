-- ===== src/Tsql/Blocks.antt =====
-- The statements of T-SQL that hold statements, over a parser of a statement. A statement takes the
-- count of those around it, `cx->depth`, and the indentation.
use plx.Context.{indent}
use plx.Prelude.Outcome.{Outcome, done, fault, cut_short, ◌>>=◌}
use plx.Prelude.{
  ℕ, zero, suc, Bytes, codes, length, drop, Bool, true, false, ◌||◌, if◌then◌else◌, List, [], ◌∷◌,
  ◌++◌,
}
use plx.Tsql.Emit.{tq_emit_range}
use plx.Tsql.Scan.{tq_cond_end}
use plx.Tsql.State.{TqState, tq_err, finish_at}
use plx.Tsql.Token.{TqTok, is_eof, tq_ci}

-- A statement at a depth and an indentation.
abbrev pub Stmt : Type 0
Stmt = ℕ → ℕ → TqState → Outcome TqState

abbrev pub write : Bytes → TqState → TqState
write text st = record st { out = st.out ++ text }

-- A loop over statements, on fuel.
unfoldable pub stmts_on :
    ℕ → (List TqTok → Outcome Bool) → (TqState → Outcome TqState) → TqState → Outcome TqState
stmts_on zero stop stmt st = cut_short
stmts_on (suc fuel) stop stmt st =
    stop st.toks >>= λ b. elim b [ true ↦ done st | false ↦ stmt st >>= stmts_on fuel stop stmt ]

unfoldable pub stmts_until :
    (List TqTok → Outcome Bool) → (TqState → Outcome TqState) → TqState → Outcome TqState
unfolding stmts_on
stmts_until stop stmt st = stmts_on (suc (length st.toks)) stop stmt st

module _ (ci : Bytes → Bytes → Bool) where
  -- A test of the token at the position and of the token behind it.
  abbrev pub second_is : List TqTok → Bytes → Outcome Bool
  second_is [] w = fault
  second_is (n ∷ ts) w = done (tq_ci ci n w)

  -- Where a block ends.
  abbrev pub at_end : List TqTok → Outcome Bool
  at_end [] = fault
  at_end (t ∷ ts) = done (is_eof t.kind || tq_ci ci t (codes "END"))

  -- Where the statements of `BEGIN w` end.
  abbrev pub at_end_of : Bytes → List TqTok → Outcome Bool
  at_end_of w [] = fault
  at_end_of w (t ∷ ts) =
      if tq_ci ci t (codes "END")
      then second_is ts w >>= (λ b. done (b || is_eof t.kind))
      else done (is_eof t.kind)

  -- END behind a block, at the tokens `ts` of the state.
  abbrev pub block_end : List TqTok → TqState → Outcome TqState
  block_end [] st = fault
  block_end (t ∷ ts) st =
      if tq_ci ci t (codes "END")
      then done (record st { toks = ts })
      else tq_err (t ∷ ts) (codes "missing END for BEGIN")

  abbrev pub eat_semi : TqState → Outcome TqState
  eat_semi st = finish_at st.toks st st.out

  -- A range in a line of its own, which opens a block.
  abbrev pub emit_head : ℕ → Bytes → List TqTok → Bytes → TqState → Outcome TqState
  emit_head ind head ts tail st = do
    text ← tq_emit_range ci (tq_cond_end ci ts).0 (st.out ++ (indent ind ++ head))
    done (record st { toks = (tq_cond_end ci ts).1; out = text ++ tail })

  module _ (stmt : Stmt) where
    unfoldable pub tq_block : Stmt
    unfolding stmts_until
    tq_block depth ind st = stmts_until at_end (stmt depth ind) st

    -- From behind BEGIN.
    abbrev pub block_body : Stmt
    block_body depth ind st = tq_block depth ind st >>= (λ made. block_end made.toks made)

    -- At the tokens of the state.
    abbrev pub body_at : ℕ → ℕ → List TqTok → TqState → Outcome TqState
    body_at depth ind [] st = fault
    body_at depth ind (t ∷ ts) st = elim (tq_ci ci t (codes "BEGIN")) [
      | true ↦ second_is ts (codes "TRY") >>= (λ b. elim b [
        | true ↦ stmt depth ind st
        | false ↦ block_body depth ind (record st { toks = ts })
      ])
      | false ↦ stmt depth ind st
    ]

    unfoldable pub tq_body : Stmt
    unfolding tq_block
    tq_body depth ind st = body_at depth ind st.toks st

    -- ELSE at the tokens of the state, if it stands there.
    abbrev pub else_at : ℕ → ℕ → List TqTok → TqState → Outcome TqState
    else_at depth ind [] st = fault
    else_at depth ind (t ∷ ts) st = elim (tq_ci ci t (codes "ELSE")) [
      | true ↦
          tq_body depth (suc ind) (write (indent ind ++ codes "ELSE\n") (record st { toks = ts }))
          >>= eat_semi
      | false ↦ done st
    ]

    unfoldable pub tq_if : ℕ → ℕ → List TqTok → TqState → Outcome TqState
    unfolding tq_body
    tq_if depth ind ts st = do
      head ← emit_head ind (codes "IF") ts (codes " THEN\n") st
      body ← tq_body depth (suc ind) head
      here ← eat_semi body
      made ← else_at depth ind here.toks here
      done (write (indent ind ++ codes "END IF;\n") made)

    unfoldable pub tq_while : ℕ → ℕ → List TqTok → TqState → Outcome TqState
    unfolding tq_body
    tq_while depth ind ts st = do
      head ← emit_head ind (codes "WHILE") ts (codes " LOOP\n") st
      body ← tq_body depth (suc ind) head
      made ← eat_semi body
      done (write (indent ind ++ codes "END LOOP;\n") made)

    -- At `END w` or the end of the tokens: the position behind `END w`.
    abbrev pub try_end : Bytes → List TqTok → TqState → Outcome TqState
    try_end missing [] st = fault
    try_end missing (t ∷ ts) st =
        if is_eof t.kind then tq_err (t ∷ ts) missing else eat_semi (record st { toks = drop 1 ts })

    -- The statements of `BEGIN w` up to `END w`, and the position behind that.
    unfoldable pub try_part : Bytes → Bytes → ℕ → ℕ → TqState → Outcome TqState
    unfolding stmts_until
    try_part w missing depth ind st =
        stmts_until (at_end_of w) (stmt depth (suc ind)) st
        >>= (λ made. try_end missing made.toks made)

    abbrev pub begin_catch : List TqTok → TqState → Outcome TqState
    begin_catch [] st = fault
    begin_catch (t ∷ ts) st =
        if tq_ci ci t (codes "BEGIN")
        then second_is ts (codes "CATCH") >>= (λ b.
          if b
          then done (record st { toks = drop 1 ts })
          else tq_err (t ∷ ts) (codes "expected BEGIN CATCH after END TRY"))
        else tq_err (t ∷ ts) (codes "expected BEGIN CATCH after END TRY")

    -- `ts` are the tokens behind BEGIN.
    unfoldable pub tq_try : ℕ → ℕ → List TqTok → TqState → Outcome TqState
    unfolding try_part
    tq_try depth ind ts st = do
      tried ←
          try_part (codes "TRY") (codes "missing END TRY") depth ind
            (write (indent ind ++ codes "BEGIN\n") (record st { toks = drop 1 ts }))
      opened ← begin_catch tried.toks tried
      caught ←
          try_part (codes "CATCH") (codes "missing END CATCH") depth ind
            (write (indent ind ++ codes "EXCEPTION WHEN OTHERS THEN\n") opened)
      done (write (indent ind ++ codes "END;\n") caught)

    unfoldable pub tq_group : ℕ → ℕ → List TqTok → TqState → Outcome TqState
    unfolding tq_block
    tq_group depth ind ts st = block_body depth ind (record st { toks = ts }) >>= eat_semi
