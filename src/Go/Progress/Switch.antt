-- ===== src/Go/Progress/Switch.antt =====
-- `switch` of Go keeps what the statements in it keep.
use plx.Context.{indent}
use plx.Prelude.Outcome.{◌>>=◌}
use plx.Prelude.{
  ℕ, suc, ◌≤◌, ◌<◌, Bytes, codes, length, take, drop, Bool, true, if◌then◌else◌, List, [], ◌∷◌,
  ◌++◌, Option, none, some, arith, if-case, if-split,
}
use plx.Go.If.{Stmt}
use plx.Go.Progress.Brackets.{drop-le}
use plx.Go.Progress.If.{AllTake, then_on}
use plx.Go.Progress.Scan.{Stops, go_header_end-le}
use plx.Go.Progress.State.{
  Within, Takes, go_err-Ends, go_eat_semi-Ends, at_close-Stops, loop_on-Ends, loop_until-Ends,
  emit_behind-Ends,
}
use plx.Go.Scan.{Split, go_header_end, ranges, part_ends}
use plx.Go.State.{GoState, at, write, go_eat_semi, emit_behind, at_close, loop_until}
use plx.Go.Switch.{
  Cases, case_value, more_values, case_values, case_end, case_stmt, case_body, case_at, default_at,
  one_case, over_brace, end_cases, cases_from, switch_at, go_switch,
}
use plx.Go.Token.{GoTok, no_braces, is_lbrace, is_rbrace, go_ci}
use plx.Prelude.Ends.{Ends, returns, raises, faults, >>=-Ends, Ends-mono}

-- At most so many tokens are left behind a case.
abbrev WithinCase : ℕ → Cases → Type 0
WithinCase n cases = Within n cases.1

module _ (ci : Bytes → Bytes → Bool) (stmt : Stmt) (n : ℕ) where
  case_value-Ends :
      (tag value : List GoTok) (st : GoState)
      → Within n st
      → Ends (Within n) (case_value ci stmt tag value st)
  case_value-Ends [] value st h = emit_behind-Ends ci n [] value st h
  case_value-Ends (t ∷ tag) value st h =
      then_on n (emit_behind ci (codes " ") (t ∷ tag) st) (emit_behind ci (codes " =") value)
        (emit_behind-Ends ci n (codes " ") (t ∷ tag) st h)
        (λ mid k. emit_behind-Ends ci n (codes " =") value mid k)

  more_values-Ends :
      (tag : List GoTok) (values : List Split) (st : GoState)
      → Within n st
      → Ends (Within n) (more_values ci stmt tag values st)
  more_values-Ends tag [] st h = returns h
  more_values-Ends tag (value ∷ values) st h =
      then_on n (case_value ci stmt tag value.0 (write (codes " OR") st))
        (more_values ci stmt tag values) (case_value-Ends tag value.0 (write (codes " OR") st) h)
        (λ mid k. more_values-Ends tag values mid k)

  case_values-Ends :
      (tag : List GoTok) (values : List Split) (st : GoState)
      → Within n st
      → Ends (Within n) (case_values ci stmt tag values st)
  unfolding case_values
  case_values-Ends tag [] st h = returns h
  case_values-Ends tag (value ∷ values) st h =
      then_on n (case_value ci stmt tag value.0 st) (more_values ci stmt tag values)
        (case_value-Ends tag value.0 st h) (λ mid k. more_values-Ends tag values mid k)

module _ (ci : Bytes → Bytes → Bool) (stmt : Stmt) (n : ℕ) (takes : AllTake stmt n) where
  case_end-Stops : (ts : List GoTok) → Stops (case_end ci stmt ts)
  case_end-Stops [] = faults
  case_end-Stops (t ∷ ts) = returns tt

  case_stmt-Takes :
      (depth ind : ℕ) (ts : List GoTok) (st : GoState)
      → Within n st
      → Takes st (case_stmt ci stmt depth ind ts st)
  case_stmt-Takes depth ind [] st h = faults
  case_stmt-Takes depth ind (t ∷ ts) st h =
      if-case (Takes st) (go_ci t (codes "fallthrough")) raises (takes depth (suc ind) st h)

  case_body-Ends :
      (depth ind : ℕ) (st : GoState)
      → Within n st
      → Ends (WithinCase n) (case_body ci stmt depth ind st)
  unfolding case_body
  case_body-Ends depth ind st h =
      let body = λ (s : GoState). case_stmt ci stmt depth ind s.toks s in
      >>=-Ends (WithinCase n) (go_eat_semi st >>= loop_until (case_end ci stmt) body) _
        (then_on n (go_eat_semi st) (loop_until (case_end ci stmt) body) (go_eat_semi-Ends n st h)
          (λ mid k.
            loop_until-Ends n (case_end ci stmt) body mid case_end-Stops
              (λ s l. case_stmt-Takes depth ind s.toks s l) k))
        (λ mid k. returns k)

  case_at-Ends :
      (depth ind : ℕ) (tag : List GoTok) (first : Bool) (o : Option ℕ) (ts : List GoTok)
      (st : GoState)
      → length ts ≤ n
      → Ends (WithinCase n) (case_at ci stmt depth ind tag first o ts st)
  unfolding case_at
  case_at-Ends depth ind tag first none ts st h = go_err-Ends _ ts _
  case_at-Ends depth ind tag first (some i) ts st h =
      let opened = write (indent ind ++ (if first then codes "IF" else codes "ELSIF")) st in
      >>=-Ends (WithinCase n) _ _
        (case_values-Ends ci stmt (length st.toks) tag
          (ranges 0 (part_ends no_braces (take i ts)) (take i ts)) opened (omega arith))
        (λ made _. body (write (codes " THEN\n") made))
    where
      body :
          (made : GoState)
          → Ends (WithinCase n) (case_body ci stmt depth ind (at (drop (suc i) ts) made))
      body made =
          case_body-Ends depth ind (at (drop (suc i) ts) made)
            (omega (arith, drop-le (suc i) ts, h))

  default_at-Ends :
      (depth ind : ℕ) (first : Bool) (o : Option ℕ) (ts : List GoTok) (st : GoState)
      → length ts ≤ n
      → Ends (WithinCase n) (default_at ci stmt depth ind first o ts st)
  unfolding default_at
  default_at-Ends depth ind first none ts st h = go_err-Ends _ ts _
  default_at-Ends depth ind first (some i) ts st h =
      case_body-Ends depth ind
        (at (drop (suc i) ts)
          (write (indent ind ++ (if first then codes "IF true THEN\n" else codes "ELSE\n")) st))
        (omega (arith, drop-le (suc i) ts, h))

module _ (ci : Bytes → Bytes → Bool) (stmt : Stmt) where
  -- A case takes a token.
  one_case-Takes :
      (n depth ind : ℕ) (tag ts : List GoTok) (cases : Cases)
      → AllTake stmt n
      → length ts ≤ n
      → Ends (λ made. length made.1.toks < length ts) (one_case ci stmt depth ind tag ts cases)
  unfolding one_case
  one_case-Takes n depth ind tag [] cases takes h = faults
  one_case-Takes n depth ind tag (t ∷ ts) (first, st) takes h =
      let fewer : AllTake stmt (length ts) = λ d i s k. takes d i s (omega (arith, k, h)) in
      Ends-mono _
        (if-split (Ends (WithinCase (length ts))) (go_ci t (codes "case"))
          (λ _. case_at-Ends ci stmt (length ts) fewer depth ind tag first _ ts st (omega arith))
          (λ _.
            if-split (Ends (WithinCase (length ts))) (go_ci t (codes "default"))
              (λ _. default_at-Ends ci stmt (length ts) fewer depth ind first _ ts st (omega arith))
              (λ _. raises)))
        (λ made k. omega (arith, k))

module _ (ci : Bytes → Bytes → Bool) (stmt : Stmt) (n : ℕ) (takes : AllTake stmt n) where
  over_brace-Ends :
      (ts : List GoTok) (cases : Cases)
      → length ts ≤ n
      → WithinCase n cases
      → Ends (WithinCase n) (over_brace ci stmt ts cases)
  over_brace-Ends [] cases h k = faults
  over_brace-Ends (t ∷ ts) (first, st) h k =
      if-case (Ends (WithinCase n)) (is_rbrace t.kind) (returns (omega (arith, h))) (returns k)

  end_cases-Ends :
      (ind : ℕ) (cases : Cases) → WithinCase n cases → Ends (Within n) (end_cases ci stmt ind cases)
  end_cases-Ends ind (first, st) h =
      then_on n (go_eat_semi st) _ (go_eat_semi-Ends n st h)
        (λ mid k. returns (if-case (Within n) first k k))

  cases_from-Ends :
      (depth ind : ℕ) (tag : List GoTok) (st : GoState)
      → Within n st
      → Ends (Within n) (cases_from ci stmt depth ind tag st)
  unfolding cases_from
  cases_from-Ends depth ind tag st h =
      >>=-Ends (Within n) _ (end_cases ci stmt ind)
        (>>=-Ends (WithinCase n) _ (λ cases. over_brace ci stmt cases.1.toks cases)
          (>>=-Ends (WithinCase n) (go_eat_semi st) _ (go_eat_semi-Ends n st h) (λ opened k.
            loop_on-Ends (λ s. length s.1.toks) (λ s. at_close s.1.toks) _ n
              (suc (length opened.toks)) (true, opened) (λ s. at_close-Stops s.1.toks)
              (λ s few. one_case-Takes ci stmt n depth ind tag s.1.toks s takes few) k
              (omega arith)))
          (λ cases k. over_brace-Ends cases.1.toks cases k k))
        (λ cases k. end_cases-Ends ind cases k)

  switch_at-Ends :
      (depth ind : ℕ) (p : Split) (ts : List GoTok) (st : GoState)
      → length p.1 ≤ n
      → Ends (Within n) (switch_at ci stmt depth ind p ts st)
  unfolding switch_at
  switch_at-Ends depth ind (tag, []) ts st h = faults
  switch_at-Ends depth ind (tag, t ∷ rest) ts st h =
      if-split (Ends (Within n)) (is_lbrace t.kind)
        (λ _. cases_from-Ends depth ind tag (at rest st) (omega (arith, h)))
        (λ _. go_err-Ends _ ts _)

  pub go_switch-Ends :
      (depth ind : ℕ) (ts : List GoTok) (st : GoState)
      → length ts ≤ n
      → Ends (Within n) (go_switch ci stmt depth ind ts st)
  unfolding go_switch
  go_switch-Ends depth ind ts st h =
      switch_at-Ends depth ind (go_header_end ts) ts st (omega (arith, h, go_header_end-le ts))
