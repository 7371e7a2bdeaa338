-- ===== src/Go/Progress/Simple.antt =====
-- `go_simple` is not cut short and leaves the tokens behind its range.
use plx.Prelude.{
  ℕ, suc, ◌+◌, ◌≤◌, Bytes, codes, length, take, drop, Bool, true, false, ◌&&◌, List, [], ◌∷◌, ◌++◌,
  Option, none, some, arith, if-case,
}
use plx.Context.{local_find}
use plx.Assemble.{PlxLocal2}
use plx.Go.Progress.Declare.{go_declare_one-Ends}
use plx.Go.Progress.State.{Within, go_err-Ends, emit_behind-Ends, emit_line-Ends}
use plx.Go.Emit.{in_parens}
use plx.Go.Scan.{Split, last_from}
use plx.Go.Simple.{
  AssignOp, short, plain, arith_op, assign_op, commas, line_or, starts_dot, call_stmt, step_stmt,
  no_assign, declare_or_assign, declare_all, assign_by, short_decl, plain_assign, arith_assign,
  assignment, simple_text, go_simple, words, arguments, fmt_args, place_holders,
}
use plx.Go.State.{GoState, emit_line}
use plx.Go.Declare.{go_declare_one}
use plx.Go.Token.{GoTok, is_step, go_ci}
use plx.Prelude.Ends.{Ends, returns, faults, >>=-Ends}

module _ (ci : Bytes → Bytes → Bool) (n : ℕ) where
  line_or-Ends :
      (ind : ℕ) (other head : Bytes) (args : List GoTok) (st : GoState)
      → Within n st
      → Ends (Within n) (line_or ci ind other head args st)
  line_or-Ends ind other head [] st h = returns h
  line_or-Ends ind other head (t ∷ args) st h = emit_line-Ends ci n ind head (t ∷ args) _ st h

  call_stmt-Ends :
      (ind : ℕ) (h : GoTok) (ts : List GoTok) (st : GoState)
      → Within n st
      → Ends (Within n) (call_stmt ci ind h ts st)
  unfolding call_stmt
  call_stmt-Ends ind h ts st k =
      let P = Ends (Within n) in
      let args = arguments (in_parens ts) in
      let values = fmt_args (drop 1 ts) in
      let line = emit_line-Ends ci n ind in
      if-case P (go_ci h (codes "panic"))
        (line_or-Ends ind (codes "RAISE EXCEPTION 'panic';\n") (codes "RAISE EXCEPTION '%',") args
          st k)
        (if-case P (go_ci h (codes "fmt") && starts_dot ts)
          (line_or-Ends ind (codes "RAISE NOTICE '';\n")
            (codes "RAISE NOTICE '" ++ (place_holders (commas values) ++ codes "',")) values st k)
          (if-case P (go_ci h (codes "emit"))
            (line_or-Ends ind (codes "RETURN NEXT;\n") (codes "RETURN NEXT") args
              (record st { retset = true }) k)
            (if-case P (go_ci h (codes "execute")) (line (codes "EXECUTE") args (codes ";\n") st k)
              (if-case P (go_ci h (codes "perform"))
                (line (codes "PERFORM") args (codes ";\n") st k)
                (line (codes "PERFORM") (h ∷ ts) (codes ";\n") st k)))))

  step_stmt-Ends :
      (ind : ℕ) (target : List GoTok) (op : Bytes) (st : GoState)
      → Within n st
      → Ends (Within n) (step_stmt ci ind target op st)
  unfolding step_stmt
  step_stmt-Ends ind target op st h =
      >>=-Ends (Within n) _ _ (emit_line-Ends ci n ind [] target _ st h) (λ first k.
        >>=-Ends (Within n) _ _ (emit_behind-Ends ci n [] target first k) (λ second l. returns l))

  no_assign-Ends :
      (ind : ℕ) (h : GoTok) (ts : List GoTok) (p : Split) (st : GoState)
      → Within n st
      → Ends (Within n) (no_assign ci ind h ts p st)
  no_assign-Ends ind h ts (c ∷ target, t ∷ rest) st k =
      if-case (Ends (Within n)) (is_step t) (step_stmt-Ends ind (c ∷ target) _ st k)
        (call_stmt-Ends ind h ts st k)
  no_assign-Ends ind h ts ([], rest) st k = call_stmt-Ends ind h ts st k
  no_assign-Ends ind h ts (c ∷ target, []) st k = call_stmt-Ends ind h ts st k

  declare_or_assign-Ends :
      (ind : ℕ) (name : Bytes) (p : Split) (st : GoState)
      → Within n st
      → Ends (Within n) (declare_or_assign ci ind name p st)
  declare_or_assign-Ends ind name (range, from) st h = found (local_find ci st.locals name)
    where
      found :
          (o : Option PlxLocal2)
          → Ends (Within n) (elim o [
            | none ↦ go_declare_one ci ind false name [] range from st
            | some l ↦ emit_line ci ind (name ++ codes " :=") range (codes ";\n") st
          ])
      found none = go_declare_one-Ends ci n ind false name [] range from st h
      found (some l) = emit_line-Ends ci n ind _ range _ st h

  declare_all-Ends :
      (ind : ℕ) (names : List Bytes) (values : List Split) (st : GoState)
      → Within n st
      → Ends (Within n) (declare_all ci ind names values st)
  unfolding declare_all
  declare_all-Ends ind [] values st h = returns h
  declare_all-Ends ind (name ∷ names) [] st h = returns h
  declare_all-Ends ind (name ∷ names) (value ∷ values) st h =
      >>=-Ends (Within n) _ _ (declare_or_assign-Ends ind name value st h)
        (λ mid k. declare_all-Ends ind names values mid k)

  short_decl-Ends :
      (ind : ℕ) (names : List Bytes) (rhs from : List GoTok) (st : GoState)
      → Within n st
      → Ends (Within n) (short_decl ci ind names rhs from st)
  short_decl-Ends ind [] rhs from st h = declare_all-Ends ind [] _ st h
  short_decl-Ends ind (name ∷ []) rhs from st h = declare_or_assign-Ends ind name (rhs, from) st h
  short_decl-Ends ind (a ∷ b ∷ names) rhs from st h = declare_all-Ends ind (a ∷ b ∷ names) _ st h

  plain_assign-Ends :
      (ind : ℕ) (ks : List ℕ) (lhs rhs : List GoTok) (st : GoState)
      → Within n st
      → Ends (Within n) (plain_assign ci ind ks lhs rhs st)
  unfolding plain_assign
  plain_assign-Ends ind [] lhs rhs st h =
      >>=-Ends (Within n) _ _ (emit_line-Ends ci n ind [] lhs _ st h) (λ mid k.
        >>=-Ends (Within n) _ _ (emit_behind-Ends ci n [] rhs mid k) (λ made l. returns l))
  plain_assign-Ends ind (k ∷ ks) lhs rhs st h =
      >>=-Ends (Within n) _ _ (emit_line-Ends ci n ind _ rhs _ st h) (λ mid k.
        >>=-Ends (Within n) _ _ (emit_behind-Ends ci n [] lhs mid k) (λ made l. returns l))

  arith_assign-Ends :
      (ind : ℕ) (op : Bytes) (lhs rhs : List GoTok) (st : GoState)
      → Within n st
      → Ends (Within n) (arith_assign ci ind op lhs rhs st)
  unfolding arith_assign
  arith_assign-Ends ind op lhs rhs st h =
      >>=-Ends (Within n) _ _ (emit_line-Ends ci n ind [] lhs _ st h) (λ mid k.
        >>=-Ends (Within n) _ _ (emit_behind-Ends ci n [] lhs mid k) (λ again l.
          >>=-Ends (Within n) _ _ (emit_behind-Ends ci n _ rhs again l) (λ made m. returns m)))

  assign_by-Ends :
      (ind : ℕ) (o : Option AssignOp) (lhs rhs from : List GoTok) (st : GoState)
      → Within n st
      → Ends (Within n) (assign_by ci ind o lhs rhs from st)
  unfolding assign_by
  assign_by-Ends ind (some short) lhs rhs from st h =
      short_decl-Ends ind (take 32 (words lhs)) rhs from st h
  assign_by-Ends ind (some plain) lhs rhs from st h =
      plain_assign-Ends ind (commas lhs) lhs rhs st h
  assign_by-Ends ind (some (arith_op op)) lhs rhs from st h = arith_assign-Ends ind op lhs rhs st h
  assign_by-Ends ind none lhs rhs from st h = faults

  assignment-Ends :
      (ind : ℕ) (lhs rest from : List GoTok) (st : GoState)
      → Within n st
      → Ends (Within n) (assignment ci ind lhs rest from st)
  unfolding assignment
  assignment-Ends ind lhs [] from st h = faults
  assignment-Ends ind lhs (o ∷ rhs) from st h = assign_by-Ends ind (assign_op o) lhs rhs from st h

  simple_text-Ends :
      (ind : ℕ) (o : Option ℕ) (h : GoTok) (ts from : List GoTok) (st : GoState)
      → Within n st
      → Ends (Within n) (simple_text ci ind o h ts from st)
  unfolding simple_text
  simple_text-Ends ind none h ts from st k = no_assign-Ends ind h ts (last_from (h ∷ ts)) st k
  simple_text-Ends ind (some i) h ts from st k =
      assignment-Ends ind (take i (h ∷ ts)) (drop i (h ∷ ts)) (drop (suc i) from) st k

module _ (ci : Bytes → Bytes → Bool) where
  pub go_simple-Ends :
      (n ind : ℕ) (p : Split) (from : List GoTok) (st : GoState)
      → length p.1 ≤ n
      → Ends (Within n) (go_simple ci ind p from st)
  unfolding go_simple
  go_simple-Ends n ind ([], rest) from st h = go_err-Ends _ from _
  go_simple-Ends n ind (t ∷ ts, rest) from st h =
      >>=-Ends (Within n) _ _
        (simple_text-Ends ci (length st.toks) ind _ t ts from st (omega arith))
        (λ made _. returns h)

  -- A statement takes a token.
  pub go_simple-takes :
      (n ind : ℕ) (p : Split) (from : List GoTok) (st : GoState)
      → length p.0 + length p.1 ≤ suc n
      → Ends (Within n) (go_simple ci ind p from st)
  unfolding go_simple
  go_simple-takes n ind ([], rest) from st h = go_err-Ends _ from _
  go_simple-takes n ind (t ∷ ts, rest) from st h =
      go_simple-Ends n ind (t ∷ ts, rest) from st (omega (arith, h))
