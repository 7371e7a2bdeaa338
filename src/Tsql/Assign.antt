-- ===== src/Tsql/Assign.antt =====
-- DECLARE and SET. `ts` are the tokens behind the keyword.
use plx.Context.{plx_err}
use plx.Prelude.Outcome.{Outcome, done, fault, cut_short, ◌>>=◌}
use plx.Prelude.{
  ℕ, zero, suc, Bytes, codes, length, Bool, true, false, ◌&&◌, ◌||◌, ◌==◌, if◌then◌else◌, List, [],
  ◌∷◌, ◌++◌, Option, none, some,
}
use plx.Tsql.Emit.{tq_emit_range}
use plx.Tsql.Scan.{Split, find_assign, tq_value_end, declared_end}
use plx.Tsql.Token.{TqTok, is_var, is_op, is_comma, is_assign, tq_ident, tq_ci}
use plx.Tsql.Types.{tq_read_type}
use plx.Tsql.State.{TqState, tq_err, finish_at, local_add, is_empty, emit_line}

-- `strchr("+-*/%", c)`
abbrev is_arith : ℕ → Bool
is_arith c = c == b'+' || c == b'-' || c == b'*' || c == b'/' || c == b'%'

-- The operator of `+=` and its like.
unfoldable pub arith_op : TqTok → Option ℕ
arith_op t = elim t.s [
  | c ∷ d ∷ [] ↦ if is_op t.kind && d == b'=' && is_arith c then some c else none
  | _ ↦ none
]

module _ (ci : Bytes → Bytes → Bool) where
  -- `if (tq_ci(tq_cur(tq), "AS")) tq->pos++`
  abbrev pub over_as : List TqTok → Outcome (List TqTok)
  over_as [] = fault
  over_as (t ∷ ts) = done (if tq_ci ci t (codes "AS") then ts else t ∷ ts)

  abbrev pub refuse_table : List TqTok → Outcome (List TqTok)
  refuse_table [] = fault
  refuse_table (t ∷ ts) =
      if tq_ci ci t (codes "TABLE") || tq_ci ci t (codes "CURSOR")
      then plx_err t.line (codes "DECLARE of a TABLE variable or CURSOR is not supported")
      else done (t ∷ ts)

  -- The value of a declaration, where it has one.
  unfoldable pub declare_value : ℕ → Bytes → List TqTok → TqState → Outcome TqState
  unfolding emit_line
  declare_value ind name [] st = fault
  declare_value ind name (t ∷ ts) st =
      if is_assign t
      then emit_line ci ind (name ++ codes " :=") (declared_end ci ts).0 (codes ";\n") st.out
        >>= (λ text. done (record st { toks = (declared_end ci ts).1; out = text }))
      else done (record st { toks = t ∷ ts })

  -- One variable, from its name on.
  unfoldable pub declare_one : ℕ → List TqTok → TqState → Outcome TqState
  unfolding declare_value
  declare_one ind [] st = fault
  declare_one ind (v ∷ ts) st =
      if is_var v.kind
      then over_as ts >>= refuse_table >>= tq_read_type ci >>= (λ read.
        declare_value ind (tq_ident v.s) read.1
          (record st { locals = local_add st.locals (tq_ident v.s) read.0 }))
      else tq_err (v ∷ ts) (codes "expected an @variable after DECLARE")

  abbrev pub next_declared :
      (List TqTok → TqState → Outcome TqState) → List TqTok → TqState → Outcome TqState
  next_declared again [] st = fault
  next_declared again (t ∷ ts) st = elim (is_comma t.kind) [
    | true ↦ again ts st
    | false ↦ finish_at (t ∷ ts) st st.out
  ]

  -- On fuel, which the number of tokens bounds.
  unfoldable pub declare_on : ℕ → ℕ → List TqTok → TqState → Outcome TqState
  unfolding declare_one
  declare_on zero ind ts st = cut_short
  declare_on (suc fuel) ind ts st = do
    made ← declare_one ind ts st
    next_declared (declare_on fuel ind) made.toks made

  unfoldable pub tq_declare : ℕ → List TqTok → TqState → Outcome TqState
  unfolding declare_on
  tq_declare ind ts st = declare_on (suc (length ts)) ind ts st

  -- SET of a field at the `=` that was found; a session option writes nothing.
  unfoldable pub assign_field : Option (Bool × Split) → ℕ → List TqTok → TqState → Outcome TqState
  unfolding emit_line
  assign_field (some (true, (l ∷ lhs, rhs))) ind ts st = do
    target ← emit_line ci ind [] (l ∷ lhs) (codes " :=") st.out
    text ← tq_emit_range ci rhs target
    finish_at (tq_value_end ci ts).1 st (text ++ codes ";\n")
  assign_field _ ind ts st = finish_at (tq_value_end ci ts).1 st st.out

  unfoldable pub set_field : ℕ → List TqTok → TqState → Outcome TqState
  unfolding assign_field
  set_field ind ts st = assign_field (find_assign 0 false (tq_value_end ci ts).0) ind ts st

  abbrev pub set_value : Option ℕ → ℕ → Bytes → List TqTok → Bytes → Outcome Bytes
  set_value none ind name value out = emit_line ci ind (name ++ codes " :=") value (codes ";\n") out
  set_value (some op) ind name value out =
      emit_line ci ind (name ++ (codes " := " ++ (name ++ (codes " " ++ (op ∷ codes " ("))))) value
        (codes ");\n") out

  -- From behind the operator on.
  unfoldable pub set_to : Option ℕ → ℕ → Bytes → List TqTok → TqState → Outcome TqState
  unfolding emit_line
  set_to op ind name ts st =
      if is_empty (tq_value_end ci ts).0
      then tq_err ts (codes "SET is missing a value expression")
      else set_value op ind name (tq_value_end ci ts).0 st.out
        >>= finish_at (tq_value_end ci ts).1 st

  -- From the operator on.
  unfoldable pub set_variable : ℕ → Bytes → List TqTok → TqState → Outcome TqState
  unfolding set_to
  set_variable ind name [] st = fault
  set_variable ind name (t ∷ ts) st = elim (arith_op t) [
    | some op ↦ set_to (some op) ind name ts st
    | none ↦
        if is_assign t
        then set_to none ind name ts st
        else tq_err (t ∷ ts) (codes "expected = after SET @variable")
  ]

  unfoldable pub tq_set : ℕ → List TqTok → TqState → Outcome TqState
  unfolding set_field set_variable
  tq_set ind [] st = fault
  tq_set ind (v ∷ ts) st =
      if is_var v.kind then set_variable ind (tq_ident v.s) ts st else set_field ind (v ∷ ts) st
