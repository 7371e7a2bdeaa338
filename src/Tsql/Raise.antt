-- ===== src/Tsql/Raise.antt =====
-- PRINT, RETURN, RAISERROR, THROW, EXEC, BREAK, CONTINUE, and a statement of SQL that is passed
-- through. `ts` are the tokens behind the keyword.
use plx.Context.{indent}
use plx.Prelude.Outcome.{Outcome, done, fault, ◌>>=◌}
use plx.Prelude.Int.{pos}
use plx.Prelude.{ℕ, Bytes, codes, Bool, if◌then◌else◌, List, [], ◌∷◌, ◌++◌, none, some}
use plx.Tsql.Emit.{split_args, tq_match_lp}
use plx.Tsql.Scan.{tq_value_end}
use plx.Tsql.Token.{TqTok, is_lp}
use plx.Tsql.State.{TqState, tq_err, finish_at, is_empty, emit_line}

-- The range in front of the first comma outside brackets.
abbrev pub first_arg : List (List TqTok) → List TqTok
first_arg [] = []
first_arg (arg ∷ args) = arg

-- BREAK and CONTINUE
unfoldable pub emit_jump : ℕ → Bytes → List TqTok → TqState → Outcome TqState
unfolding finish_at
emit_jump ind word ts st = finish_at ts st (st.out ++ (indent ind ++ word))

-- The message of THROW: between its first two commas, or all that stands there.
unfoldable pub thrown : List TqTok → List TqTok
unfolding split_args
thrown range = elim (split_args 2 (pos 0) range) [ number ∷ msg ∷ state ∷ _ ↦ msg | _ ↦ range ]

module _ (ci : Bytes → Bytes → Bool) where
  unfoldable pub tq_print : ℕ → List TqTok → TqState → Outcome TqState
  unfolding emit_line
  tq_print ind ts st = do
    text ←
        (if is_empty (tq_value_end ci ts).0
          then done (st.out ++ (indent ind ++ codes "RAISE NOTICE '';\n"))
          else emit_line ci ind (codes "RAISE NOTICE '%',") (tq_value_end ci ts).0 (codes ";\n")
              st.out)
    finish_at (tq_value_end ci ts).1 st text

  unfoldable pub tq_return : ℕ → List TqTok → TqState → Outcome TqState
  unfolding emit_line
  tq_return ind ts st = do
    text ←
        (if is_empty (tq_value_end ci ts).0
          then done (st.out ++ (indent ind ++ codes "RETURN;\n"))
          else emit_line ci ind (codes "RETURN") (tq_value_end ci ts).0 (codes ";\n") st.out)
    finish_at (tq_value_end ci ts).1 st text

  unfoldable pub tq_raise_msg : ℕ → List TqTok → Bytes → Outcome Bytes
  unfolding emit_line
  tq_raise_msg ind msg out =
      if is_empty msg
      then done (out ++ (indent ind ++ codes "RAISE EXCEPTION 'error';\n"))
      else emit_line ci ind (codes "RAISE EXCEPTION '%',") msg (codes ";\n") out

  unfoldable pub tq_raiserror : ℕ → List TqTok → TqState → Outcome TqState
  unfolding tq_raise_msg
  tq_raiserror ind [] st = fault
  tq_raiserror ind (t ∷ ts) st =
      if is_lp t.kind
      then elim (tq_match_lp (t ∷ ts)) [
        | none ↦ tq_err (t ∷ ts) (codes "unbalanced ( in RAISERROR")
        | some p ↦
            tq_raise_msg ind (first_arg (split_args 1 (pos 0) p.0)) st.out >>= finish_at p.1 st
      ]
      else tq_err (t ∷ ts) (codes "expected ( after RAISERROR")

  unfoldable pub tq_throw : ℕ → List TqTok → TqState → Outcome TqState
  unfolding tq_raise_msg thrown
  tq_throw ind ts st = do
    text ←
        (if is_empty (tq_value_end ci ts).0
          then done (st.out ++ (indent ind ++ codes "RAISE;\n"))
          else tq_raise_msg ind (thrown (tq_value_end ci ts).0) st.out)
    finish_at (tq_value_end ci ts).1 st text

  unfoldable pub tq_exec : ℕ → List TqTok → TqState → Outcome TqState
  unfolding emit_line
  tq_exec ind [] st = fault
  tq_exec ind (t ∷ ts) st =
      if is_lp t.kind
      then elim (tq_match_lp (t ∷ ts)) [
        | none ↦ tq_err (t ∷ ts) (codes "unbalanced ( in EXEC")
        | some p ↦ emit_line ci ind (codes "EXECUTE") p.0 (codes ";\n") st.out >>= finish_at p.1 st
      ]
      else tq_err (t ∷ ts)
          (codes "EXEC of a stored procedure is not supported; use EXEC('<sql>') for dynamic SQL")

  -- `ts` from the first token of the statement on.
  unfoldable pub tq_raw : ℕ → List TqTok → TqState → Outcome TqState
  unfolding emit_line
  tq_raw ind ts st =
      if is_empty (tq_value_end ci ts).0
      then tq_err ts (codes "unexpected keyword in statement position")
      else emit_line ci ind [] (tq_value_end ci ts).0 (codes ";\n") st.out
        >>= finish_at (tq_value_end ci ts).1 st
