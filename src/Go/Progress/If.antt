-- ===== src/Go/Progress/If.antt =====
-- Blocks and `if` of Go keep what the statements in them keep.
use plx.Context.{plx_max_depth}
use plx.Prelude.Outcome.{Outcome, ◌>>=◌}
use plx.Prelude.{
  ℕ, zero, suc, ◌≤◌, ◌<◌, Bytes, codes, length, take, drop, Bool, ltb, List, [], ◌∷◌, Option, none,
  some, arith, if-split, elim-split,
}
use plx.Go.If.{
  Stmt, open_brace, close_brace, go_block, if_header, if_split, else_block, else_at, if_at, if_on,
  go_if,
}
use plx.Go.Progress.Brackets.{drop-le}
use plx.Go.Progress.Scan.{go_header_end-le}
use plx.Go.Progress.Simple.{go_simple-Ends}
use plx.Go.Progress.State.{
  Within, Takes, go_eat_semi-Ends, at_close-Stops, loop_until-Ends, emit_line-Ends,
}
use plx.Go.Scan.{Split, go_header_end}
use plx.Go.State.{GoState, at, go_eat_semi, loop_until, at_close}
use plx.Go.Token.{GoTok, is_lbrace, is_rbrace, go_ci}
use plx.Prelude.Ends.{Ends, returns, raises, faults, >>=-Ends, Ends-mono}

-- Statements take a token each, where no more than so many are left.
abbrev pub AllTake : Stmt → ℕ → Type 0
AllTake stmt n = (depth ind : ℕ) (s : GoState) → Within n s → Takes s (stmt depth ind s)

-- A run behind another that leaves so many tokens.
pub then_on :
    (n : ℕ) (o : Outcome GoState) (f : GoState → Outcome GoState)
    → Ends (Within n) o
    → ((mid : GoState) → Within n mid → Ends (Within n) (f mid))
    → Ends (Within n) (o >>= f)
then_on n o f h k = >>=-Ends (Within n) o f h k

module _ (ci : Bytes → Bytes → Bool) (stmt : Stmt) (n : ℕ) (takes : AllTake stmt n) where
  open_brace-Ends :
      (ts : List GoTok) (st : GoState)
      → length ts ≤ suc n
      → Ends (Within n) (open_brace ci stmt ts st)
  open_brace-Ends [] st h = faults
  open_brace-Ends (t ∷ ts) st h =
      if-split (Ends (Within n)) (is_lbrace t.kind) (λ _. returns (omega (arith, h))) (λ _. raises)

  close_brace-Ends :
      (ts : List GoTok) (st : GoState) → length ts ≤ n → Ends (Within n) (close_brace ci stmt ts st)
  close_brace-Ends [] st h = faults
  close_brace-Ends (t ∷ ts) st h =
      if-split (Ends (Within n)) (is_rbrace t.kind) (λ _. returns (omega (arith, h))) (λ _. raises)

  -- A block takes its brace.
  pub go_block-takes :
      (depth ind : ℕ) (st : GoState)
      → length st.toks ≤ suc n
      → Ends (Within n) (go_block ci stmt depth ind st)
  unfolding go_block
  go_block-takes depth ind st h =
      then_on n
        (open_brace ci stmt st.toks st >>= go_eat_semi >>= loop_until at_close (stmt depth ind)) _
        (then_on n (open_brace ci stmt st.toks st >>= go_eat_semi)
          (loop_until at_close (stmt depth ind))
          (then_on n (open_brace ci stmt st.toks st) go_eat_semi (open_brace-Ends st.toks st h)
            (λ mid k. go_eat_semi-Ends n mid k))
          (λ mid k.
            loop_until-Ends n at_close (stmt depth ind) mid at_close-Stops
              (λ s l. takes depth ind s l) k))
        (λ mid k. close_brace-Ends mid.toks mid k)

  pub go_block-Ends :
      (depth ind : ℕ) (st : GoState) → Within n st → Ends (Within n) (go_block ci stmt depth ind st)
  go_block-Ends depth ind st h = go_block-takes depth ind st (omega (arith, h))

  if_header-Ends :
      (ind : ℕ) (o : Option ℕ) (p : Split) (ts : List GoTok) (st : GoState)
      → length p.1 ≤ n
      → length ts ≤ n
      → Ends (Within n) (if_header ci stmt ind o p ts st)
  unfolding if_header
  if_header-Ends ind none (header, rest) ts st h few =
      emit_line-Ends ci n ind (codes "IF") header (codes " THEN\n") (at rest st) h
  if_header-Ends ind (some k) (header, rest) ts st h few =
      then_on n _ _
        (go_simple-Ends ci n ind (take k header, drop k ts) ts (at ts st)
          (omega (arith, drop-le k ts, few)))
        (λ made _.
          emit_line-Ends ci n ind (codes "IF") (drop (suc k) header) (codes " THEN\n")
            (at rest made) h)

  -- `go_if` for an `else if`, of no more tokens.
  abbrev Again : (List GoTok → GoState → Outcome GoState) → Type 0
  Again again = (us : List GoTok) (s : GoState) → length us ≤ n → Ends (Within n) (again us s)

  else_block-Ends :
      (again : List GoTok → GoState → Outcome GoState) (depth ind : ℕ) (ts : List GoTok)
      (st : GoState)
      → Again again
      → length ts ≤ n
      → Ends (Within n) (else_block ci stmt again depth ind ts st)
  else_block-Ends again depth ind [] st more h = faults
  else_block-Ends again depth ind (t ∷ ts) st more h =
      elim-split (Ends (Within n)) (go_ci t (codes "if")) (λ _. more (t ∷ ts) _ h)
        (λ _. go_block-Ends depth (suc ind) _ h)

  else_at-Ends :
      (again : List GoTok → GoState → Outcome GoState) (depth ind : ℕ) (ts : List GoTok)
      (st : GoState)
      → Again again
      → length ts ≤ n
      → Within n st
      → Ends (Within n) (else_at ci stmt again depth ind ts st)
  else_at-Ends again depth ind [] st more h few = faults
  else_at-Ends again depth ind (t ∷ ts) st more h few =
      elim-split (Ends (Within n)) (go_ci t (codes "else"))
        (λ _.
          then_on n (else_block ci stmt again depth ind ts st) go_eat_semi
            (else_block-Ends again depth ind ts st more (omega (arith, h)))
            (λ mid k. go_eat_semi-Ends n mid k))
        (λ _. returns few)

  if_at-Ends :
      (again : List GoTok → GoState → Outcome GoState) (depth ind : ℕ) (t : GoTok) (ts : List GoTok)
      (st : GoState)
      → Again again
      → length ts ≤ n
      → Ends (Within n) (if_at ci stmt again depth ind t ts st)
  unfolding if_at
  if_at-Ends again depth ind t ts st more h =
      if-split (Ends (Within n)) (ltb plx_max_depth depth) (λ _. raises)
        (λ _.
          let opened = if_split ci stmt ind (go_header_end ts) ts st in
          let block = go_block ci stmt depth (suc ind) in
          then_on n
            (opened
              >>= block
              >>= go_eat_semi
              >>= (λ made. else_at ci stmt again depth ind made.toks made))
            _
            (then_on n (opened >>= block >>= go_eat_semi) _
              (then_on n (opened >>= block) go_eat_semi
                (then_on n opened block
                  (if_header-Ends ind _ (go_header_end ts) ts st
                    (omega (arith, h, go_header_end-le ts)) h)
                  (λ mid k. go_block-Ends depth (suc ind) mid k))
                (λ mid k. go_eat_semi-Ends n mid k))
              (λ mid k. else_at-Ends again depth ind mid.toks mid more k k))
            (λ mid k. returns k))

module _ (ci : Bytes → Bytes → Bool) (stmt : Stmt) where
  if_on-Ends :
      (fuel n depth ind : ℕ) (ts : List GoTok) (st : GoState)
      → AllTake stmt n
      → length ts < fuel
      → length ts ≤ suc n
      → Ends (Within n) (if_on ci stmt fuel depth ind ts st)
  unfolding if_on
  if_on-Ends zero n depth ind ts st takes small h = absurd (omega arith)
  if_on-Ends (suc fuel) n depth ind [] st takes small h = faults
  if_on-Ends (suc fuel) n depth ind (t ∷ ts) st takes small h =
      let fewer : AllTake stmt (length ts) = λ d i s k. takes d i s (omega (arith, k, h)) in
      Ends-mono (Within n)
        (if_at-Ends ci stmt (length ts) fewer (if_on ci stmt fuel (suc depth) (suc ind)) (suc depth)
          ind t ts st
          (λ us s few.
            if_on-Ends fuel (length ts) (suc depth) (suc ind) us s fewer (omega (arith, few, small))
              (omega (arith, few)))
          (omega arith))
        (λ made k. omega (arith, k, h))

  pub go_if-Ends :
      (n depth ind : ℕ) (ts : List GoTok) (st : GoState)
      → AllTake stmt n
      → length ts ≤ suc n
      → Ends (Within n) (go_if ci stmt depth ind ts st)
  unfolding go_if
  go_if-Ends n depth ind ts st takes h =
      if_on-Ends (suc (length ts)) n depth ind ts st takes (omega arith) h
