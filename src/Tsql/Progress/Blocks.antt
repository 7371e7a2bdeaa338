-- ===== src/Tsql/Progress/Blocks.antt =====
-- The statements of T-SQL that hold statements keep what the statements in them keep.
use plx.Context.{indent}
use plx.Prelude.Outcome.{done, ◌>>=◌}
use plx.Prelude.{
  ℕ, suc, ◌≤◌, Bytes, codes, length, drop, Bool, ◌||◌, List, [], ◌∷◌, ◌++◌, arith, if-case,
  if-split, elim-split,
}
use plx.Tsql.Blocks.{
  Stmt, write, second_is, at_end, at_end_of, stmts_until, block_end, eat_semi, emit_head, tq_block,
  block_body, body_at, tq_body, else_at, try_end, tq_if, tq_while, try_part, begin_catch, tq_try,
  tq_group,
}
use plx.Tsql.Progress.Assign.{Keeps-behind, drop-le}
use plx.Tsql.Progress.Emit.{Extends-more}
use plx.Tsql.Progress.Leaves.{Keeps, tq_err-Ends, finish_at-Ends, emit_behind}
use plx.Tsql.Progress.Scan.{tq_cond_end-le}
use plx.Prelude.Ends.{
  Ends, returns, raises, faults, >>=-Ends, Ends-mono, Extends-self, Extends-append, Extends-trans,
}
use plx.Tsql.Scan.{tq_cond_end}
use plx.Tsql.State.{TqState, finish_at}
use plx.Tsql.Token.{TqTok, is_eof, tq_ci}
use plx.Tsql.Progress.Loop.{
  Keeps-self, KeepsOn, Takes, Tests, go_on, step, stmts_until-Ends, write-Keeps,
}

module _ (ci : Bytes → Bytes → Bool) where
  pub at_end-Tests : Tests (at_end ci)
  at_end-Tests [] = faults
  at_end-Tests (t ∷ ts) = returns tt

  at_end_of-Tests : (w : Bytes) → Tests (at_end_of ci w)
  at_end_of-Tests w [] = faults
  at_end_of-Tests w (t ∷ ts) =
      if-split (Ends _) (tq_ci ci t (codes "END")) (λ _. second ts) (λ _. returns tt)
    where
      second :
          (us : List TqTok)
          → Ends (λ b. Unit) (second_is ci us w >>= (λ b. done (b || is_eof t.kind)))
      second [] = faults
      second (n ∷ us) = returns tt

  eat_semi-KeepsOn : (st : TqState) → KeepsOn st (eat_semi ci st)
  eat_semi-KeepsOn st = finish_at-Ends _ st.toks st st.out (omega arith) (Extends-self st.out)

  block_end-Ends :
      (n : ℕ) (ts : List TqTok) (st : TqState)
      → length ts ≤ n
      → Ends (Keeps n st) (block_end ci ts st)
  block_end-Ends n [] st few = faults
  block_end-Ends n (t ∷ ts) st few =
      if-split (Ends (Keeps n st)) (tq_ci ci t (codes "END"))
        (λ _. returns (omega (arith, few), (Extends-self st.out, Extends-self st.locals)))
        (λ _. raises)

  -- The line that opens a block.
  emit_head-Ends :
      (ind : ℕ) (head : Bytes) (ts : List TqTok) (tail : Bytes) (st : TqState)
      → Ends (Keeps (length ts) st) (emit_head ci ind head ts tail st)
  emit_head-Ends ind head ts tail st =
      >>=-Ends (Keeps _ st) _ _
        (emit_behind ci st.out (st.out ++ (indent ind ++ head)) (tq_cond_end ci ts).0
          (Extends-append st.out _))
        (λ text k.
          returns (tq_cond_end-le ci ts, (Extends-more st.out text tail k, Extends-self st.locals)))

  module _ (stmt : Stmt) (bound : ℕ)
      (takes : (depth ind : ℕ) (at : TqState)
        → length at.toks ≤ bound
        → Takes at (stmt depth ind at)) where
    stmt-KeepsOn :
        (depth ind : ℕ) (st : TqState) → length st.toks ≤ bound → KeepsOn st (stmt depth ind st)
    stmt-KeepsOn depth ind st few = Ends-mono (Keeps _ st) (takes depth ind st few) (λ made h. h.1)

    pub tq_block-KeepsOn :
        (depth ind : ℕ) (st : TqState)
        → length st.toks ≤ bound
        → KeepsOn st (tq_block ci stmt depth ind st)
    unfolding tq_block
    tq_block-KeepsOn depth ind st few =
        stmts_until-Ends (at_end ci) (stmt depth ind) bound st at_end-Tests (takes depth ind) few

    block_body-KeepsOn :
        (depth ind : ℕ) (st : TqState)
        → length st.toks ≤ bound
        → KeepsOn st (block_body ci stmt depth ind st)
    block_body-KeepsOn depth ind st few =
        step st (tq_block ci stmt depth ind st) (λ made. block_end ci made.toks made) _
          (tq_block-KeepsOn depth ind st few) (λ mid _. block_end-Ends _ mid.toks mid (omega arith))

    -- The same from the tokens `ts` of the state on.
    block_body-from :
        (depth ind n : ℕ) (ts : List TqTok) (st : TqState)
        → length ts ≤ bound
        → length ts ≤ n
        → Ends (Keeps n st) (block_body ci stmt depth ind (record st { toks = ts }))
    block_body-from depth ind n ts st few less =
        Ends-mono (Keeps n st) (block_body-KeepsOn depth ind (record st { toks = ts }) few)
          (λ made h. (omega (arith, h.0, less), h.1))

    body_at-Ends :
        (depth ind : ℕ) (ts : List TqTok) (st : TqState)
        → length st.toks ≤ bound
        → length ts ≤ length st.toks
        → KeepsOn st (body_at ci stmt depth ind ts st)
    body_at-Ends depth ind [] st few less = faults
    body_at-Ends depth ind (t ∷ []) st few less =
        elim-split (KeepsOn st) (tq_ci ci t (codes "BEGIN")) (λ _. faults)
          (λ _. stmt-KeepsOn depth ind st few)
    body_at-Ends depth ind (t ∷ n ∷ ts) st few less =
        elim-split (KeepsOn st) (tq_ci ci t (codes "BEGIN"))
          (λ _.
            elim-split (KeepsOn st) (tq_ci ci n (codes "TRY")) (λ _. stmt-KeepsOn depth ind st few)
              (λ _.
                block_body-from depth ind (length st.toks) (n ∷ ts) st (omega (arith, few, less))
                  (omega (arith, less))))
          (λ _. stmt-KeepsOn depth ind st few)

    tq_body-KeepsOn :
        (depth ind : ℕ) (st : TqState)
        → length st.toks ≤ bound
        → KeepsOn st (tq_body ci stmt depth ind st)
    unfolding tq_body
    tq_body-KeepsOn depth ind st few = body_at-Ends depth ind st.toks st few (omega arith)

    -- The body of IF and WHILE with the semicolons behind it.
    body_then_semi :
        (depth ind : ℕ) (st : TqState)
        → length st.toks ≤ bound
        → KeepsOn st (tq_body ci stmt depth ind st >>= eat_semi ci)
    body_then_semi depth ind st few =
        step st (tq_body ci stmt depth ind st) (eat_semi ci) _ (tq_body-KeepsOn depth ind st few)
          (λ mid _. eat_semi-KeepsOn mid)

    else_at-Ends :
        (depth ind : ℕ) (ts : List TqTok) (st : TqState)
        → length st.toks ≤ bound
        → length ts ≤ length st.toks
        → KeepsOn st (else_at ci stmt depth ind ts st)
    else_at-Ends depth ind [] st few less = faults
    else_at-Ends depth ind (t ∷ ts) st few less =
        elim-split (KeepsOn st) (tq_ci ci t (codes "ELSE"))
          (λ _.
            Ends-mono (Keeps _ st)
              (body_then_semi depth (suc ind)
                (write (indent ind ++ codes "ELSE\n") (record st { toks = ts }))
                (omega (arith, few, less)))
              (λ made h. (
                omega (arith, h.0, less),
                (Extends-trans st.out _ made.out (Extends-append st.out _) h.1.0, h.1.1),
              )))
          (λ _. returns (Keeps-self st))

    pub tq_while-Ends :
        (depth ind : ℕ) (ts : List TqTok) (st : TqState)
        → length ts ≤ bound
        → Ends (Keeps (length ts) st) (tq_while ci stmt depth ind ts st)
    unfolding tq_while
    tq_while-Ends depth ind ts st few =
        >>=-Ends (Keeps _ st) (emit_head ci ind (codes "WHILE") ts (codes " LOOP\n") st) _
          (emit_head-Ends ind (codes "WHILE") ts (codes " LOOP\n") st)
          (λ head h.
            go_on (length ts) st head (tq_body ci stmt depth (suc ind) head) _ h
              (tq_body-KeepsOn depth (suc ind) head (omega (arith, h.0, few)))
              (λ body k.
                go_on (length ts) st body (eat_semi ci body) _ k (eat_semi-KeepsOn body)
                  (λ made l. returns (write-Keeps (length ts) st made _ l))))

    pub tq_if-Ends :
        (depth ind : ℕ) (ts : List TqTok) (st : TqState)
        → length ts ≤ bound
        → Ends (Keeps (length ts) st) (tq_if ci stmt depth ind ts st)
    unfolding tq_if
    tq_if-Ends depth ind ts st few =
        >>=-Ends (Keeps _ st) (emit_head ci ind (codes "IF") ts (codes " THEN\n") st) _
          (emit_head-Ends ind (codes "IF") ts (codes " THEN\n") st)
          (λ head h.
            go_on (length ts) st head (tq_body ci stmt depth (suc ind) head) _ h
              (tq_body-KeepsOn depth (suc ind) head (omega (arith, h.0, few)))
              (λ body k.
                go_on (length ts) st body (eat_semi ci body) _ k (eat_semi-KeepsOn body) (λ here l.
                  go_on (length ts) st here (else_at ci stmt depth ind here.toks here) _ l
                    (else_at-Ends depth ind here.toks here (omega (arith, l.0, few)) (omega arith))
                    (λ made m. returns (write-Keeps (length ts) st made _ m)))))

    try_end-Ends :
        (missing : Bytes) (ts : List TqTok) (st : TqState)
        → length ts ≤ length st.toks
        → KeepsOn st (try_end ci stmt missing ts st)
    unfolding finish_at
    try_end-Ends missing [] st less = faults
    try_end-Ends missing (t ∷ ts) st less =
        if-case (KeepsOn st) (is_eof t.kind) (tq_err-Ends _ (t ∷ ts) missing) (
          finish_at-Ends _ (drop 1 ts) st st.out (omega (arith, less, drop-le 1 ts))
            (Extends-self st.out))

    try_part-KeepsOn :
        (w missing : Bytes) (depth ind : ℕ) (st : TqState)
        → length st.toks ≤ bound
        → KeepsOn st (try_part ci stmt w missing depth ind st)
    unfolding try_part
    try_part-KeepsOn w missing depth ind st few =
        step st (stmts_until (at_end_of ci w) (stmt depth (suc ind)) st)
          (λ made. try_end ci stmt missing made.toks made) _
          (stmts_until-Ends (at_end_of ci w) (stmt depth (suc ind)) bound st (at_end_of-Tests w)
            (takes depth (suc ind)) few)
          (λ mid _. try_end-Ends missing mid.toks mid (omega arith))

    begin_catch-Ends :
        (ts : List TqTok) (st : TqState)
        → length ts ≤ length st.toks
        → KeepsOn st (begin_catch ci stmt ts st)
    begin_catch-Ends [] st less = faults
    begin_catch-Ends (t ∷ []) st less =
        if-split (KeepsOn st) (tq_ci ci t (codes "BEGIN")) (λ _. faults) (λ _. raises)
    begin_catch-Ends (t ∷ n ∷ ts) st less =
        if-split (KeepsOn st) (tq_ci ci t (codes "BEGIN"))
          (λ _.
            if-split (KeepsOn st) (tq_ci ci n (codes "CATCH"))
              (λ _. returns (omega (arith, less), (Extends-self st.out, Extends-self st.locals)))
              (λ _. raises))
          (λ _. raises)

    -- A part of the statement from a state on that has kept another.
    part :
        (w missing : Bytes) (depth ind n : ℕ) (st mid : TqState)
        → Keeps n st mid
        → n ≤ bound
        → Ends (Keeps n st) (try_part ci stmt w missing depth ind mid)
    part w missing depth ind n st mid h few =
        Keeps-behind n _ n st mid h h.0
          (try_part-KeepsOn w missing depth ind mid (omega (arith, h.0, few)))

    pub tq_try-Ends :
        (depth ind : ℕ) (ts : List TqTok) (st : TqState)
        → length ts ≤ bound
        → Ends (Keeps (length ts) st) (tq_try ci stmt depth ind ts st)
    unfolding tq_try
    tq_try-Ends depth ind ts st few =
        let n = length ts in
        let opened : Keeps n st
            (write (indent ind ++ codes "BEGIN\n") (record st { toks = drop 1 ts })) =
          (drop-le 1 ts, (Extends-append st.out _, Extends-self st.locals)) in
        >>=-Ends (Keeps n st) _ _
          (part (codes "TRY") (codes "missing END TRY") depth ind n st _ opened few)
          (λ tried h.
            go_on n st tried (begin_catch ci stmt tried.toks tried) _ h
              (begin_catch-Ends tried.toks tried (omega arith))
              (λ caught k.
                >>=-Ends (Keeps n st) _ _
                  (part (codes "CATCH") (codes "missing END CATCH") depth ind n st
                    (write (indent ind ++ codes "EXCEPTION WHEN OTHERS THEN\n") caught)
                    (write-Keeps n st caught _ k) few)
                  (λ made l. returns (write-Keeps n st made _ l))))

    pub tq_group-Ends :
        (depth ind : ℕ) (ts : List TqTok) (st : TqState)
        → length ts ≤ bound
        → Ends (Keeps (length ts) st) (tq_group ci stmt depth ind ts st)
    unfolding tq_group
    tq_group-Ends depth ind ts st few =
        step st (block_body ci stmt depth ind (record st { toks = ts })) (eat_semi ci) _
          (block_body-from depth ind (length ts) ts st few (omega arith))
          (λ mid _. eat_semi-KeepsOn mid)
