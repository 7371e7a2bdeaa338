-- ===== src/Go/Progress/Range.antt =====
-- Loops of Go over a range keep what the statements in them keep.
use plx.Context.{indent, local_find}
use plx.Assemble.{PlxLocal2}
use plx.Prelude.Outcome.{Outcome, ◌>>=◌}
use plx.Prelude.{ℕ, suc, ◌≤◌, Bytes, codes, length, Bool, true, List, ◌++◌, Option, none, some}
use plx.Go.Range.{
  loop_body, with_local, unless_known, range_query, with_value, range_slice, range_plain, range_by,
}
use plx.Go.If.{Stmt, go_block}
use plx.Go.Progress.If.{AllTake, then_on, go_block-Ends}
use plx.Go.Progress.State.{Within, go_err-Ends, go_eat_semi-Ends, emit_line-Ends}
use plx.Go.State.{GoState, at, write, new_local}
use plx.Go.Token.{GoTok}
use plx.Prelude.Ends.{Ends, returns}

module _ (ci : Bytes → Bytes → Bool) (stmt : Stmt) (n : ℕ) (takes : AllTake stmt n) where
  -- A head is written, and the body of a loop follows.
  pub loop_body-Ends :
      (depth ind : ℕ) (rest : List GoTok) (st : GoState)
      → length rest ≤ n
      → Ends (Within n) (loop_body ci stmt depth ind rest st)
  unfolding loop_body
  loop_body-Ends depth ind rest st h =
      then_on n (go_block ci stmt depth (suc ind) (at rest st)) _
        (go_block-Ends ci stmt n takes depth (suc ind) (at rest st) h)
        (λ mid k. go_eat_semi-Ends n (write (indent ind ++ codes "END LOOP;\n") mid) k)

  pub with_body :
      (depth ind : ℕ) (rest : List GoTok) (o : Outcome GoState)
      → Ends (Within n) o
      → length rest ≤ n
      → Ends (Within n) (o >>= loop_body ci stmt depth ind rest)
  with_body depth ind rest o head h =
      then_on n o (loop_body ci stmt depth ind rest) head
        (λ mid _. loop_body-Ends depth ind rest mid h)

  unless_known-Within :
      (o : Option PlxLocal2) (l : PlxLocal2) (st : GoState)
      → Within n st
      → Within n (unless_known o l st)
  unless_known-Within none l st h = h
  unless_known-Within (some known) l st h = h

  range_query-Ends :
      (depth ind : ℕ) (row : Option Bytes) (inside rest ts : List GoTok) (st : GoState)
      → length rest ≤ n
      → Within n st
      → Ends (Within n) (range_query ci stmt depth ind row inside rest ts st)
  unfolding range_query
  range_query-Ends depth ind none inside rest ts st h k = go_err-Ends _ ts _
  range_query-Ends depth ind (some row) inside rest ts st h k =
      let local = record (new_local row none) { is_record = true } in
      with_body depth ind rest _
        (emit_line-Ends ci n ind (codes "FOR " ++ (row ++ codes " IN EXECUTE")) inside
          (codes " LOOP\n") (with_local ci stmt local st)
          (unless_known-Within (local_find ci st.locals row) local st k))
        h

  with_value-Ends :
      (o : Option PlxLocal2) (typ : Option Bytes) (name : Bytes) (ts : List GoTok) (st : GoState)
      → Within n st
      → Ends (Within n) (with_value ci stmt o typ name ts st)
  with_value-Ends (some known) typ name ts st h = returns h
  with_value-Ends none (some typ) name ts st h = returns h
  with_value-Ends none none name ts st h = go_err-Ends _ ts _

  range_slice-Ends :
      (depth ind : ℕ) (name : Option Bytes) (range rest ts : List GoTok) (st : GoState)
      → length rest ≤ n
      → Within n st
      → Ends (Within n) (range_slice ci stmt depth ind name range rest ts st)
  unfolding range_slice
  range_slice-Ends depth ind none range rest ts st h k = go_err-Ends _ ts _
  range_slice-Ends depth ind (some name) range rest ts st h k =
      with_body depth ind rest _
        (then_on n (with_value ci stmt (local_find ci st.locals name) _ name ts st) _
          (with_value-Ends (local_find ci st.locals name) _ name ts st k)
          (λ mid l.
            emit_line-Ends ci n ind (codes "FOREACH " ++ (name ++ codes " IN ARRAY")) range
              (codes " LOOP\n") mid l))
        h

  range_plain-Ends :
      (depth ind : ℕ) (names : Option Bytes × Option Bytes) (range rest ts : List GoTok)
      (st : GoState)
      → length rest ≤ n
      → Within n st
      → Ends (Within n) (range_plain ci stmt depth ind names range rest ts st)
  unfolding range_plain
  range_plain-Ends depth ind (some i, some v) range rest ts st h k = go_err-Ends _ ts _
  range_plain-Ends depth ind (some i, none) range rest ts st h k =
      let local = new_local i (some (codes "integer")) in
      with_body depth ind rest _
        (emit_line-Ends ci n ind (codes "FOR " ++ (i ++ codes " IN 0 .. (")) range
          (codes ") - 1 LOOP\n") (with_local ci stmt local st)
          (unless_known-Within (local_find ci st.locals i) local st k))
        h
  range_plain-Ends depth ind (none, value) range rest ts st h k =
      range_slice-Ends depth ind value range rest ts st h k

  pub range_by-Ends :
      (depth ind : ℕ) (o : Option (List GoTok)) (names : Option Bytes × Option Bytes)
      (range rest ts : List GoTok) (st : GoState)
      → length rest ≤ n
      → Within n st
      → Ends (Within n) (range_by ci stmt depth ind o names range rest ts st)
  range_by-Ends depth ind (some inside) names range rest ts st h k =
      range_query-Ends depth ind _ inside rest ts st h k
  range_by-Ends depth ind none names range rest ts st h k =
      range_plain-Ends depth ind names range rest ts st h k
