-- ===== src/Tsql/Progress/Assign.antt =====
-- DECLARE and SET are not cut short, leave no more tokens than stand behind their keyword,
-- and write behind what is there.
use plx.Prelude.Outcome.{Outcome, ◌>>=◌}
use plx.Prelude.{
  ℕ, zero, suc, ◌≤◌, ◌<◌, Bytes, codes, length, drop, Bool, true, false, List, [], ◌∷◌, ◌++◌,
  Option, none, some, arith, inl, inr, if-case, if-split, elim-split, Option-cases,
}
use plx.Tsql.Assign.{
  over_as, refuse_table, declare_value, declare_one, next_declared, declare_on, tq_declare,
  arith_op, assign_field, set_to, set_field, set_value, set_variable, tq_set,
}
use plx.Tsql.Progress.Emit.{Extends-more}
use plx.Tsql.Progress.Leaves.{
  Keeps, tq_err-Ends, finish_at-Ends, written-Ends, emit_behind, emit_line-Ends,
}
use plx.Tsql.Progress.Scan.{tq_value_end-le, declared_end-le, Leaves, ReadsType, tq_read_type-Ends}
use plx.Prelude.Ends.{
  Ends, returns, raises, faults, >>=-Ends, Ends-mono, Extends, Extends-self, Extends-append,
  Extends-trans,
}
use plx.Tsql.Scan.{Split, tq_value_end, declared_end}
use plx.Tsql.State.{TqState, finish_at, local_add, is_empty}
use plx.Tsql.Token.{TqTok, is_var, is_comma, is_assign, tq_ident, tq_ci}
use plx.Tsql.Types.{tq_read_type}

-- A state that keeps another keeps what that one keeps.
Keeps-trans :
    (n k m : ℕ) (st mid end : TqState) → Keeps k st mid → Keeps m mid end → m ≤ n → Keeps n st end
Keeps-trans n k m st mid end (a, (b, c)) (d, (e, f)) small = (
  omega arith,
  (Extends-trans st.out mid.out end.out b e, Extends-trans st.locals mid.locals end.locals c f),
)

-- The same of a run behind a state.
pub Keeps-behind :
    (n m k : ℕ) (st mid : TqState) {o : Outcome TqState}
    → Keeps k st mid
    → m ≤ n
    → Ends (Keeps m mid) o
    → Ends (Keeps n st) o
Keeps-behind n m k st mid h small run =
    Ends-mono (Keeps n st) run (λ end l. Keeps-trans n k m st mid end h l small)

pub drop-le : (n : ℕ) (ts : List TqTok) → length (drop n ts) ≤ length ts
drop-le zero ts = omega arith
drop-le (suc n) [] = omega arith
drop-le (suc n) (t ∷ ts) = omega (arith, drop-le n ts)

module _ (ci : Bytes → Bytes → Bool) where
  over_as-Ends : (ts : List TqTok) → Ends (Leaves (length ts)) (over_as ci ts)
  over_as-Ends [] = faults
  over_as-Ends (t ∷ ts) = returns (
      if-split (Leaves (suc (length ts))) (tq_ci ci t (codes "AS")) (λ _. omega arith)
        (λ _. omega arith))

  refuse_table-Ends : (ts : List TqTok) → Ends (Leaves (length ts)) (refuse_table ci ts)
  refuse_table-Ends [] = faults
  refuse_table-Ends (t ∷ ts) =
      if-split (Ends (Leaves _)) _ (λ _. raises) (λ _. returns (omega arith))

  declare_value-Ends :
      (ind : ℕ) (name : Bytes) (ts : List TqTok) (st : TqState)
      → Ends (Keeps (length ts) st) (declare_value ci ind name ts st)
  unfolding declare_value
  declare_value-Ends ind name [] st = faults
  declare_value-Ends ind name (t ∷ ts) st =
      if-split (Ends (Keeps _ st)) (is_assign t)
        (λ _.
          >>=-Ends (Keeps _ st) _ _
            (emit_line-Ends ci ind (name ++ codes " :=") (declared_end ci ts).0 (codes ";\n")
              st.out)
            (λ text k. returns (omega (arith, declared_end-le ci ts), (k, Extends-self st.locals))))
        (λ _. returns (omega arith, (Extends-self st.out, Extends-self st.locals)))

  declare_one-Ends :
      (ind n : ℕ) (ts : List TqTok) (st : TqState)
      → length ts ≤ suc n
      → Ends (Keeps n st) (declare_one ci ind ts st)
  unfolding declare_one local_add
  declare_one-Ends ind n [] st short = faults
  declare_one-Ends ind n (v ∷ ts) st short =
      if-split (Ends (Keeps n st)) (is_var v.kind)
        (λ _.
          >>=-Ends (Keeps n st) (over_as ci ts >>= refuse_table ci >>= tq_read_type ci) _
            (read-Ends ts)
            (λ read small.
              Ends-mono (Keeps n st)
                (declare_value-Ends ind (tq_ident v.s) read.1
                  (record st { locals = local_add st.locals (tq_ident v.s) read.0 }))
                (λ made h. (
                  omega (arith, h.0, small, short),
                  (
                    h.1.0,
                    Extends-trans st.locals (local_add st.locals (tq_ident v.s) read.0) made.locals
                        (Extends-append st.locals _) h.1.1,
                  ),
                ))))
        (λ _. raises)
    where
      read-Ends :
          (ts : List TqTok)
          → Ends (ReadsType (length ts)) (over_as ci ts >>= refuse_table ci >>= tq_read_type ci)
      read-Ends ts =
          >>=-Ends (ReadsType _) (over_as ci ts >>= refuse_table ci) (tq_read_type ci)
            (>>=-Ends (Leaves (length ts)) (over_as ci ts) (refuse_table ci) (over_as-Ends ts)
              (λ named h.
                Ends-mono (Leaves _) (refuse_table-Ends named) (λ typed k. omega (arith, h, k))))
            (λ typed h.
              Ends-mono (ReadsType _) (tq_read_type-Ends ci typed) (λ read k. omega (arith, h, k)))

  next_declared-Ends :
      (n : ℕ) (again : List TqTok → TqState → Outcome TqState) (us : List TqTok) (st made : TqState)
      → Keeps n st made
      → length us ≤ n
      → ((vs : List TqTok) → length vs ≤ n → Ends (Keeps (length vs) made) (again vs made))
      → Ends (Keeps n st) (next_declared ci again us made)
  next_declared-Ends n again [] st made h short rest = faults
  next_declared-Ends n again (t ∷ us) st made h short rest =
      let few : length us ≤ n = omega (arith, short) in
      elim-split (Ends (Keeps n st)) (is_comma t.kind)
        (λ _. Keeps-behind n (length us) n st made h few (rest us few))
        (λ _.
          Keeps-behind n n n st made h (omega arith)
            (finish_at-Ends n (t ∷ us) made made.out short (Extends-self made.out)))

  declare_on-Ends :
      (fuel ind : ℕ) (ts : List TqTok) (st : TqState)
      → length ts < fuel
      → Ends (Keeps (length ts) st) (declare_on ci fuel ind ts st)
  unfolding declare_on
  declare_on-Ends zero ind ts st small = absurd (omega arith)
  declare_on-Ends (suc fuel) ind [] st small = faults
  declare_on-Ends (suc fuel) ind (v ∷ ts) st small =
      >>=-Ends (Keeps _ st) (declare_one ci ind (v ∷ ts) st) _
        (declare_one-Ends ind (length ts) (v ∷ ts) st (omega arith))
        (λ made h.
          Ends-mono (Keeps _ st)
            (next_declared-Ends (length ts) (declare_on ci fuel ind) made.toks st made h h.0
              (λ vs few. declare_on-Ends fuel ind vs made (omega (arith, few, small))))
            (λ end k. (omega (arith, k.0), k.1)))

  pub tq_declare-Ends :
      (ind : ℕ) (ts : List TqTok) (st : TqState)
      → Ends (Keeps (length ts) st) (tq_declare ci ind ts st)
  unfolding tq_declare
  tq_declare-Ends ind ts st = declare_on-Ends (suc (length ts)) ind ts st (omega arith)

  set_value-Ends :
      (op : Option ℕ) (ind : ℕ) (name : Bytes) (value : List TqTok) (out : Bytes)
      → Ends (Extends out) (set_value ci op ind name value out)
  set_value-Ends none ind name value out = emit_line-Ends ci ind _ value _ out
  set_value-Ends (some op) ind name value out = emit_line-Ends ci ind _ value _ out

  set_to-Ends :
      (op : Option ℕ) (ind : ℕ) (name : Bytes) (ts : List TqTok) (st : TqState)
      → Ends (Keeps (length ts) st) (set_to ci op ind name ts st)
  unfolding set_to
  set_to-Ends op ind name ts st =
      if-case (Ends (Keeps _ st)) (is_empty (tq_value_end ci ts).0)
        (tq_err-Ends _ ts (codes "SET is missing a value expression"))
        (written-Ends _ _ st _ (tq_value_end-le ci ts)
          (set_value-Ends op ind name (tq_value_end ci ts).0 st.out))

  -- The token in front is taken too.
  one_more :
      (t : TqTok) (ts : List TqTok) (st : TqState) {o : Outcome TqState}
      → Ends (Keeps (length ts) st) o
      → Ends (Keeps (length (t ∷ ts)) st) o
  one_more t ts st h = Ends-mono (Keeps _ st) h (λ end k. (omega (arith, k.0), k.1))

  set_variable-Ends :
      (ind : ℕ) (name : Bytes) (ts : List TqTok) (st : TqState)
      → Ends (Keeps (length ts) st) (set_variable ci ind name ts st)
  unfolding set_variable
  set_variable-Ends ind name [] st = faults
  set_variable-Ends ind name (t ∷ ts) st = elim (Option-cases (arith_op t)) [
    | inr (op, e) ↦ rw (e, set_variable) (one_more t ts st (set_to-Ends (some op) ind name ts st))
    | inl e ↦
        rw (e, set_variable)
          (if-split (Ends (Keeps _ st)) (is_assign t)
            (λ _. one_more t ts st (set_to-Ends none ind name ts st)) (λ _. raises))
  ]

  skipped :
      (ts : List TqTok) (st : TqState)
      → Ends (Keeps (length ts) st) (finish_at (tq_value_end ci ts).1 st st.out)
  skipped ts st = finish_at-Ends _ _ st st.out (tq_value_end-le ci ts) (Extends-self st.out)

  assign_field-Ends :
      (found : Option (Bool × Split)) (ind : ℕ) (ts : List TqTok) (st : TqState)
      → Ends (Keeps (length ts) st) (assign_field ci found ind ts st)
  unfolding assign_field
  assign_field-Ends (some (true, (l ∷ lhs, rhs))) ind ts st =
      >>=-Ends (Keeps _ st) _ _ (emit_line-Ends ci ind [] (l ∷ lhs) (codes " :=") st.out)
        (λ target h. >>=-Ends (Keeps _ st) _ _ (emit_behind ci st.out target rhs h) (λ text k.
          finish_at-Ends _ _ st _ (tq_value_end-le ci ts) (Extends-more st.out text _ k)))
  assign_field-Ends (some (true, ([], rhs))) ind ts st = skipped ts st
  assign_field-Ends (some (false, p)) ind ts st = skipped ts st
  assign_field-Ends none ind ts st = skipped ts st

  pub tq_set-Ends :
      (ind : ℕ) (ts : List TqTok) (st : TqState) → Ends (Keeps (length ts) st) (tq_set ci ind ts st)
  unfolding tq_set set_field
  tq_set-Ends ind [] st = faults
  tq_set-Ends ind (v ∷ ts) st =
      if-case (Ends (Keeps _ st)) (is_var v.kind)
        (one_more v ts st (set_variable-Ends ind (tq_ident v.s) ts st))
        (assign_field-Ends _ ind (v ∷ ts) st)
