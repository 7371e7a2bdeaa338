-- ===== src/Tsql/Select.antt =====
-- SELECT: assignments, into variables from a query, or a query. `ts` are the tokens behind SELECT.
use plx.Context.{indent}
use plx.Prelude.Outcome.{Outcome, done, fault, ◌>>=◌}
use plx.Prelude.{
  ℕ, zero, suc, Bytes, codes, drop, Bool, true, false, ◌&&◌, if◌then◌else◌, List, [], ◌∷◌, ◌++◌,
}
use plx.Tsql.Emit.{tq_emit_range}
use plx.Tsql.Scan.{tq_value_end, selected_end, begins_clause}
use plx.Tsql.Token.{TqTok, is_var, is_comma, is_assign, tq_ident}
use plx.Tsql.State.{TqState, finish_at, emit_line}

-- The names and the values of SELECT, whether a clause follows them, and the tokens from there on.
abbrev pub Assigns : Type 0
Assigns = List (Bytes × List TqTok) × (Bool × List TqTok)

abbrev pub first_assign : Bytes → List TqTok → Outcome Assigns → Outcome Assigns
first_assign name value assigns = assigns >>= λ a. done ((name, value) ∷ a.0, a.1)

module _ (ci : Bytes → Bytes → Bool) where
  -- Behind a value in the list of SELECT: a clause ends the list, a comma goes on with it.
  abbrev pub behind_value :
      (List TqTok → Outcome Assigns) → Bytes → List TqTok → List TqTok → Outcome Assigns
  behind_value again name value [] = fault
  behind_value again name value (t ∷ rest) =
      if begins_clause ci t
      then done ((name, value) ∷ [], (true, t ∷ rest))
      else if is_comma t.kind
      then first_assign name value (again rest)
      else done ((name, value) ∷ [], (false, t ∷ rest))

  -- The assignments of SELECT from a name on, as many as there is room for.
  unfoldable pub select_assigns : ℕ → List TqTok → Outcome Assigns
  select_assigns room [] = fault
  select_assigns zero (v ∷ ts) = done ([], (false, v ∷ ts))
  select_assigns (suc room) (v ∷ ts) =
      if is_var v.kind
      then behind_value (select_assigns room) (tq_ident v.s) (selected_end ci (drop 1 ts)).0
          (selected_end ci (drop 1 ts)).1
      else done ([], (false, v ∷ ts))

  unfoldable pub emit_values : Bytes → List (Bytes × List TqTok) → Bytes → Outcome Bytes
  emit_values sep [] out = done out
  emit_values sep ((name, value) ∷ rest) out =
      tq_emit_range ci value (out ++ sep) >>= emit_values (codes ",") rest

  abbrev pub into_names : Bytes → List (Bytes × List TqTok) → Bytes
  into_names sep [] = []
  into_names sep ((name, value) ∷ rest) =
      sep ++ (codes " " ++ (name ++ into_names (codes ",") rest))

  -- Without a clause, a line for each.
  unfoldable pub emit_assigns : ℕ → List (Bytes × List TqTok) → Bytes → Outcome Bytes
  unfolding emit_line
  emit_assigns ind [] out = done out
  emit_assigns ind ((name, value) ∷ rest) out =
      emit_line ci ind (name ++ codes " :=") value (codes ";\n") out >>= emit_assigns ind rest

  unfoldable pub select_into : ℕ → TqState → Assigns → Outcome TqState
  unfolding emit_values emit_assigns indent
  select_into ind st (assigns, (true, ts)) = do
    values ← emit_values [] assigns (st.out ++ (indent ind ++ codes "SELECT"))
    text ←
        tq_emit_range ci (tq_value_end ci ts).0 (values ++ (codes " INTO" ++ into_names [] assigns))
    finish_at (tq_value_end ci ts).1 st (text ++ codes ";\n")
  select_into ind st (assigns, (false, ts)) = do
    text ← emit_assigns ind assigns st.out
    finish_at ts st text

  -- A query without assignments; `s` is the token SELECT.
  unfoldable pub select_query : Bool → ℕ → TqTok → List TqTok → TqState → Outcome TqState
  unfolding emit_line
  select_query retset ind s ts st = do
    text ←
        emit_line ci ind (if retset then codes "RETURN QUERY SELECT" else codes "PERFORM")
          (drop 1 (tq_value_end ci (s ∷ ts)).0) (codes ";\n") st.out
    finish_at (tq_value_end ci (s ∷ ts)).1 st text

  unfoldable pub tq_select : Bool → ℕ → TqTok → List TqTok → TqState → Outcome TqState
  unfolding select_query select_assigns select_into
  tq_select retset ind s [] st = fault
  tq_select retset ind s (v ∷ []) st =
      if is_var v.kind then fault else select_query retset ind s (v ∷ []) st
  tq_select retset ind s (v ∷ op ∷ ts) st =
      if is_var v.kind && is_assign op
      then select_assigns 64 (v ∷ op ∷ ts) >>= select_into ind st
      else select_query retset ind s (v ∷ op ∷ ts) st
