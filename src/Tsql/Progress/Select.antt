-- ===== src/Tsql/Progress/Select.antt =====
-- SELECT is not cut short, leaves no more tokens than stand behind it, and writes behind what is
-- there.
use plx.Context.{indent}
use plx.Prelude.Outcome.{Outcome}
use plx.Prelude.{
  ℕ, zero, suc, ◌≤◌, Bytes, codes, length, drop, Bool, true, false, ◌&&◌, if◌then◌else◌, List, [],
  ◌∷◌, ◌++◌, ◌≡◌, arith, if-case, if-split,
}
use plx.Tsql.Progress.Emit.{Extends-more}
use plx.Tsql.Progress.Leaves.{Keeps, finish_at-Ends, written-Ends, emit_behind, emit_line-Ends}
use plx.Tsql.Progress.Scan.{tq_value_end-le, query_end-le, selected_end-le}
use plx.Prelude.Ends.{
  Ends, returns, faults, >>=-Ends, Ends-mono, Extends, Extends-self, Extends-append, Extends-trans,
}
use plx.Tsql.Scan.{tq_value_end, selected_end, begins_clause}
use plx.Tsql.Select.{
  Assigns, behind_value, select_assigns, emit_values, emit_assigns, select_into, into_names,
  select_query, tq_select,
}
use plx.Tsql.State.{TqState}
use plx.Tsql.Token.{TqTok, is_var, is_comma, is_assign, tq_ident, tq_ci}
use plx.Tsql.Progress.Assign.{drop-le}

module _ (ci : Bytes → Bytes → Bool) where
  -- The tokens behind the assignments of SELECT are no more than those in front.
  abbrev ReadsAssigns : ℕ → Assigns → Type 0
  ReadsAssigns n a = length a.1.1 ≤ n

  behind_value-Ends :
      (again : List TqTok → Outcome Assigns) (name : Bytes) (value us : List TqTok)
      → ((vs : List TqTok) → Ends (ReadsAssigns (length vs)) (again vs))
      → Ends (ReadsAssigns (length us)) (behind_value ci again name value us)
  behind_value-Ends again name value [] rest = faults
  behind_value-Ends again name value (t ∷ us) rest =
      let P = Ends (ReadsAssigns (suc (length us))) in
      if-split P (begins_clause ci t) (λ _. returns (omega arith))
        (λ _.
          if-split P (is_comma t.kind)
            (λ _.
              >>=-Ends (ReadsAssigns _) (again us) _ (rest us) (λ a h. returns (omega (arith, h))))
            (λ _. returns (omega arith)))

  select_assigns-Ends :
      (room : ℕ) (ts : List TqTok) → Ends (ReadsAssigns (length ts)) (select_assigns ci room ts)
  unfolding select_assigns
  select_assigns-Ends zero [] = faults
  select_assigns-Ends (suc room) [] = faults
  select_assigns-Ends zero (v ∷ ts) = returns (omega arith)
  select_assigns-Ends (suc room) (v ∷ ts) =
      let rest = selected_end ci (drop 1 ts) in
      let few : length rest.1 ≤ suc (length ts) =
        omega (arith, selected_end-le ci (drop 1 ts), drop-le 1 ts) in
      if-split (Ends (ReadsAssigns _)) (is_var v.kind)
        (λ _.
          Ends-mono (ReadsAssigns _)
            (behind_value-Ends (select_assigns ci room) (tq_ident v.s) rest.0 rest.1
              (select_assigns-Ends room))
            (λ a h. omega (arith, h, few)))
        (λ _. returns (omega arith))

  emit_values-Ends :
      (sep : Bytes) (assigns : List (Bytes × List TqTok)) (out : Bytes)
      → Ends (Extends out) (emit_values ci sep assigns out)
  unfolding emit_values
  emit_values-Ends sep [] out = returns (Extends-self out)
  emit_values-Ends sep ((name, value) ∷ rest) out =
      >>=-Ends (Extends out) _ _ (emit_behind ci out (out ++ sep) value (Extends-append out sep))
        (λ text h.
          Ends-mono (Extends out) (emit_values-Ends (codes ",") rest text)
            (λ end k. Extends-trans out text end h k))

  emit_assigns-Ends :
      (ind : ℕ) (assigns : List (Bytes × List TqTok)) (out : Bytes)
      → Ends (Extends out) (emit_assigns ci ind assigns out)
  unfolding emit_assigns
  emit_assigns-Ends ind [] out = returns (Extends-self out)
  emit_assigns-Ends ind ((name, value) ∷ rest) out =
      >>=-Ends (Extends out) _ _
        (emit_line-Ends ci ind (name ++ codes " :=") value (codes ";\n") out)
        (λ text h.
          Ends-mono (Extends out) (emit_assigns-Ends ind rest text)
            (λ end k. Extends-trans out text end h k))

  select_into-Ends :
      (ind n : ℕ) (st : TqState) (a : Assigns)
      → length a.1.1 ≤ n
      → Ends (Keeps n st) (select_into ci ind st a)
  unfolding select_into
  select_into-Ends ind n st (assigns, (true, ts)) small =
      let front = st.out ++ (indent ind ++ codes "SELECT") in
      >>=-Ends (Keeps n st) (emit_values ci [] assigns front) _ (emit_values-Ends [] assigns front)
        (λ values h.
          >>=-Ends (Keeps n st) _ _
            (emit_behind ci st.out (values ++ (codes " INTO" ++ into_names ci [] assigns))
              (tq_value_end ci ts).0
              (Extends-more st.out values _
                (Extends-trans st.out front values (Extends-append st.out _) h)))
            (λ text k.
              finish_at-Ends n _ st _ (omega (arith, tq_value_end-le ci ts))
                (Extends-more st.out text _ k)))
  select_into-Ends ind n st (assigns, (false, ts)) small =
      >>=-Ends (Keeps n st) (emit_assigns ci ind assigns st.out) _
        (emit_assigns-Ends ind assigns st.out) (λ text h. finish_at-Ends n ts st text small h)

  select_query-Ends :
      (retset : Bool) (ind : ℕ) (s v : TqTok) (ts : List TqTok) (st : TqState)
      → tq_ci ci s (codes "SELECT") ≡ true
      → Ends (Keeps (length (v ∷ ts)) st) (select_query ci retset ind s (v ∷ ts) st)
  unfolding select_query
  select_query-Ends retset ind s v ts st h = written-Ends _ _ st _ (query_end-le ci s v ts h) (
      emit_line-Ends ci ind (if retset then codes "RETURN QUERY SELECT" else codes "PERFORM") _
        (codes ";\n") st.out)

  pub tq_select-Ends :
      (retset : Bool) (ind : ℕ) (s : TqTok) (ts : List TqTok) (st : TqState)
      → tq_ci ci s (codes "SELECT") ≡ true
      → Ends (Keeps (length ts) st) (tq_select ci retset ind s ts st)
  unfolding tq_select
  tq_select-Ends retset ind s [] st h = faults
  tq_select-Ends retset ind s (v ∷ []) st h =
      if-case (Ends (Keeps _ st)) (is_var v.kind) faults (select_query-Ends retset ind s v [] st h)
  tq_select-Ends retset ind s (v ∷ op ∷ ts) st h =
      if-case (Ends (Keeps _ st)) (is_var v.kind && is_assign op)
        (>>=-Ends (Keeps _ st) (select_assigns ci 64 (v ∷ op ∷ ts)) (select_into ci ind st)
          (select_assigns-Ends 64 (v ∷ op ∷ ts)) (select_into-Ends ind _ st))
        (select_query-Ends retset ind s v (op ∷ ts) st h)
