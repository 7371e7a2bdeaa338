-- ===== src/Tsql/Progress/Leaves.antt =====
-- The statements of T-SQL that hold no statement are not cut short, leave no more tokens than stand
-- behind their keyword, and write behind what is there.
use plx.Context.{indent}
use plx.Prelude.Outcome.{Outcome, done, ◌>>=◌}
use plx.Prelude.Int.{pos}
use plx.Prelude.{
  ℕ, suc, ◌+◌, ◌≤◌, Bytes, codes, length, Bool, false, if◌then◌else◌, List, [], ◌∷◌, ◌++◌, Option,
  none, some, ◌≡◌, arith, if-case, if-split,
}
use plx.Tsql.Emit.{split_args, tq_match_lp, tq_emit_range}
use plx.Tsql.Progress.Emit.{tq_emit_range-Ends}
use plx.Tsql.Progress.Brackets.{tq_match_lp-IsInside, IsInside, IsInside-le}
use plx.Prelude.Ends.{
  Ends, returns, raises, faults, >>=-Ends, Ends-mono, Extends, Extends-self, Extends-append,
  Extends-trans,
}
use plx.Tsql.Progress.Scan.{tq_value_end-le, tq_value_end-size, Leaves}
use plx.Tsql.Raise.{
  first_arg, tq_print, tq_return, tq_raise_msg, tq_raiserror, thrown, tq_throw, tq_exec, emit_jump,
  tq_raw,
}
use plx.Tsql.Scan.{tq_value_end}
use plx.Tsql.State.{TqState, tq_err, tq_eat_semi, finish_at, is_empty, emit_line}
use plx.Tsql.Token.{TqTok, is_lp, is_semi}

-- At most so many tokens are left, and the text and the locals have only grown.
abbrev pub Keeps : ℕ → TqState → TqState → Type 0
Keeps n st made = Leaves n made.toks × (Extends st.out made.out × Extends st.locals made.locals)

pub tq_err-Ends {ℓ} :
    {A : Type ℓ} (P : A → Type 0) (ts : List TqTok) (msg : Bytes) → Ends P (tq_err ts msg)
tq_err-Ends P [] msg = faults
tq_err-Ends P (t ∷ ts) msg = raises

pub tq_eat_semi-Ends : (ts : List TqTok) → Ends (Leaves (length ts)) (tq_eat_semi ts)
unfolding tq_eat_semi
tq_eat_semi-Ends [] = faults
tq_eat_semi-Ends (t ∷ ts) =
    if-case (Ends (Leaves (suc (length ts)))) (is_semi t.kind)
      (Ends-mono (Leaves _) (tq_eat_semi-Ends ts) (λ rest h. omega (arith, h)))
      (returns (omega arith))

pub finish_at-Ends :
    (n : ℕ) (rest : List TqTok) (st : TqState) (text : Bytes)
    → length rest ≤ n
    → Extends st.out text
    → Ends (Keeps n st) (finish_at rest st text)
unfolding finish_at
finish_at-Ends n rest st text small h =
    >>=-Ends (Keeps n st) (tq_eat_semi rest) _ (tq_eat_semi-Ends rest)
      (λ left k. returns (omega (arith, k, small), (h, Extends-self st.locals)))

-- A text that is written, and the tokens behind it.
pub written-Ends :
    (n : ℕ) (rest : List TqTok) (st : TqState) (o : Outcome Bytes)
    → length rest ≤ n
    → Ends (Extends st.out) o
    → Ends (Keeps n st) (o >>= finish_at rest st)
written-Ends n rest st o small h =
    >>=-Ends (Keeps n st) o (finish_at rest st) h (λ text k. finish_at-Ends n rest st text small k)

module _ (ci : Bytes → Bytes → Bool) where
  pub emit_behind :
      (out front : Bytes) (range : List TqTok)
      → Extends out front
      → Ends (Extends out) (tq_emit_range ci range front)
  emit_behind out front range h =
      Ends-mono (Extends out) (tq_emit_range-Ends ci range front)
        (λ text k. Extends-trans out front text h k)

  pub emit_line-Ends :
      (ind : ℕ) (head : Bytes) (range : List TqTok) (tail out : Bytes)
      → Ends (Extends out) (emit_line ci ind head range tail out)
  unfolding emit_line
  emit_line-Ends ind head range tail out =
      >>=-Ends (Extends out) _ _ (emit_behind out _ range (Extends-append out (indent ind ++ head)))
        (λ text k. returns (Extends-trans out text _ k (Extends-append text tail)))

  -- A line with a range, or one without.
  line_or :
      (b : Bool) (ind : ℕ) (other head : Bytes) (range : List TqTok) (tail out : Bytes)
      → Ends
          (Extends out)
          (if b then done (out ++ (indent ind ++ other)) else emit_line ci ind head range tail out)
  line_or b ind other head range tail out =
      if-case (Ends (Extends out)) b (returns (Extends-append out (indent ind ++ other)))
        (emit_line-Ends ind head range tail out)

  pub tq_print-Ends :
      (ind : ℕ) (ts : List TqTok) (st : TqState)
      → Ends (Keeps (length ts) st) (tq_print ci ind ts st)
  unfolding tq_print
  tq_print-Ends ind ts st =
      written-Ends _ _ st _ (tq_value_end-le ci ts) (line_or _ ind _ _ _ _ st.out)

  pub tq_return-Ends :
      (ind : ℕ) (ts : List TqTok) (st : TqState)
      → Ends (Keeps (length ts) st) (tq_return ci ind ts st)
  unfolding tq_return
  tq_return-Ends ind ts st =
      written-Ends _ _ st _ (tq_value_end-le ci ts) (line_or _ ind _ _ _ _ st.out)

  tq_raise_msg-Ends :
      (ind : ℕ) (msg : List TqTok) (out : Bytes) → Ends (Extends out) (tq_raise_msg ci ind msg out)
  unfolding tq_raise_msg
  tq_raise_msg-Ends ind msg out = line_or (is_empty msg) ind _ _ msg _ out

  -- A statement with its argument in brackets.
  bracket-Ends :
      (missing : Bytes) (ts : List TqTok) (st : TqState) (m : Option (List TqTok × List TqTok))
      {text : List TqTok → Outcome Bytes}
      → IsInside (length ts) m
      → ((us : List TqTok) → Ends (Extends st.out) (text us))
      → Ends
          (Keeps (length ts) st)
          (elim m [ none ↦ tq_err ts missing | some p ↦ text p.0 >>= finish_at p.1 st ])
  bracket-Ends missing ts st none h writes = tq_err-Ends _ ts missing
  bracket-Ends missing ts st (some p) h writes =
      written-Ends _ p.1 st _ (IsInside-le ts p h).1 (writes p.0)

  pub tq_raiserror-Ends :
      (ind : ℕ) (ts : List TqTok) (st : TqState)
      → Ends (Keeps (length ts) st) (tq_raiserror ci ind ts st)
  unfolding tq_raiserror
  tq_raiserror-Ends ind [] st = faults
  tq_raiserror-Ends ind (t ∷ ts) st =
      if-case (Ends (Keeps _ st)) (is_lp t.kind)
        (bracket-Ends (codes "unbalanced ( in RAISERROR") (t ∷ ts) st (tq_match_lp (t ∷ ts))
          (tq_match_lp-IsInside (t ∷ ts))
          (λ us. tq_raise_msg-Ends ind (first_arg (split_args 1 (pos 0) us)) st.out))
        (tq_err-Ends _ (t ∷ ts) (codes "expected ( after RAISERROR"))

  pub tq_throw-Ends :
      (ind : ℕ) (ts : List TqTok) (st : TqState)
      → Ends (Keeps (length ts) st) (tq_throw ci ind ts st)
  unfolding tq_throw
  tq_throw-Ends ind ts st = written-Ends _ _ st _ (tq_value_end-le ci ts) (
      if-case (Ends (Extends st.out)) (is_empty (tq_value_end ci ts).0)
        (returns (Extends-append st.out (indent ind ++ codes "RAISE;\n")))
        (tq_raise_msg-Ends ind (thrown (tq_value_end ci ts).0) st.out))

  pub tq_exec-Ends :
      (ind : ℕ) (ts : List TqTok) (st : TqState)
      → Ends (Keeps (length ts) st) (tq_exec ci ind ts st)
  unfolding tq_exec
  tq_exec-Ends ind [] st = faults
  tq_exec-Ends ind (t ∷ ts) st =
      if-case (Ends (Keeps _ st)) (is_lp t.kind)
        (bracket-Ends (codes "unbalanced ( in EXEC") (t ∷ ts) st (tq_match_lp (t ∷ ts))
          (tq_match_lp-IsInside (t ∷ ts))
          (λ us. emit_line-Ends ind (codes "EXECUTE") us (codes ";\n") st.out))
        (tq_err-Ends _ (t ∷ ts)
          (codes "EXEC of a stored procedure is not supported; use EXEC('<sql>') for dynamic SQL"))

  pub emit_jump-Ends :
      (ind : ℕ) (word : Bytes) (ts : List TqTok) (st : TqState)
      → Ends (Keeps (length ts) st) (emit_jump ind word ts st)
  unfolding emit_jump
  emit_jump-Ends ind word ts st =
      finish_at-Ends _ ts st _ (omega arith) (Extends-append st.out (indent ind ++ word))

  -- Of a statement that is not empty at least a token is taken.
  taken :
      (ts : List TqTok)
      → is_empty (tq_value_end ci ts).0 ≡ false
      → suc (length (tq_value_end ci ts).1) ≤ length ts
  taken ts h = positive (tq_value_end ci ts) h (tq_value_end-size ci ts)
    where
      positive :
          (p : List TqTok × List TqTok)
          → is_empty p.0 ≡ false
          → length p.0 + length p.1 ≡ length ts
          → suc (length p.1) ≤ length ts
      positive ([], rest) h k = cc
      positive (t ∷ front, rest) h k = omega (arith, k)

  pub tq_raw-Ends :
      (ind : ℕ) (t : TqTok) (ts : List TqTok) (st : TqState)
      → Ends (Keeps (length ts) st) (tq_raw ci ind (t ∷ ts) st)
  unfolding tq_raw
  tq_raw-Ends ind t ts st =
      if-split (Ends (Keeps _ st)) (is_empty (tq_value_end ci (t ∷ ts)).0) (λ e. raises)
        (λ e.
          written-Ends _ _ st _ (omega (arith, taken (t ∷ ts) e))
            (emit_line-Ends ind [] (tq_value_end ci (t ∷ ts)).0 _ st.out))
