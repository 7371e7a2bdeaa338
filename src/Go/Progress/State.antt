-- ===== src/Go/Progress/State.antt =====
-- What every statement of Go does with the tokens that are left.
use plx.Prelude.Outcome.{Outcome}
use plx.Prelude.{
  ℕ, zero, suc, ◌≤◌, ◌<◌, Bytes, length, Bool, List, [], ◌∷◌, ◌++◌, arith, if-case, elim-split,
}
use plx.Go.Progress.Emit.{go_emit_range-Returns}
use plx.Go.Progress.Scan.{Stops, Leaves}
use plx.Go.State.{
  GoState, go_err, semis, go_eat_semi, at_close, loop_on, loop_until, emit_behind, emit_line,
}
use plx.Go.Token.{GoTok, is_semi}
use plx.Prelude.Ends.{Ends, returns, raises, faults, >>=-Ends, Returns-Ends}

-- At most so many tokens are left.
abbrev pub Within : ℕ → GoState → Type 0
Within n st = length st.toks ≤ n

-- The run takes at least a token.
abbrev pub Takes : GoState → Outcome GoState → Type 0
Takes st o = Ends (λ made. length made.toks < length st.toks) o

pub go_err-Ends {ℓ} :
    {A : Type ℓ} (P : A → Type 0) (ts : List GoTok) (msg : Bytes) → Ends P (go_err ts msg)
go_err-Ends P [] msg = faults
go_err-Ends P (t ∷ ts) msg = raises

pub semis-Ends : (n : ℕ) (ts : List GoTok) → length ts ≤ n → Ends (Leaves n) (semis ts)
unfolding semis
semis-Ends n [] h = faults
semis-Ends n (t ∷ ts) h =
    if-case (Ends (Leaves n)) (is_semi t.kind) (semis-Ends n ts (omega (arith, h))) (returns h)

pub go_eat_semi-Ends : (n : ℕ) (st : GoState) → Within n st → Ends (Within n) (go_eat_semi st)
unfolding go_eat_semi
go_eat_semi-Ends n st h =
    >>=-Ends (Within n) (semis st.toks) _ (semis-Ends n st.toks h) (λ ts k. returns k)

pub at_close-Stops : (ts : List GoTok) → Stops (at_close ts)
at_close-Stops [] = faults
at_close-Stops (t ∷ ts) = returns tt

-- A loop whose rounds each make a state smaller.
pub loop_on-Ends {ℓ} :
    {S : Type ℓ} (size : S → ℕ) (stop : S → Outcome Bool) (item : S → Outcome S) (n fuel : ℕ)
    (st : S)
    → ((s : S) → Stops (stop s))
    → ((s : S) → size s ≤ n → Ends (λ made. size made < size s) (item s))
    → size st ≤ n
    → size st < fuel
    → Ends (λ made. size made ≤ n) (loop_on stop item fuel st)
unfolding loop_on
loop_on-Ends size stop item n zero st tests takes few small = absurd (omega arith)
loop_on-Ends size stop item n (suc fuel) st tests takes few small =
    >>=-Ends _ (stop st) _ (tests st) (λ b _.
      elim-split (Ends _) b (λ _. returns few)
        (λ _. >>=-Ends _ (item st) _ (takes st few) (λ made h.
          loop_on-Ends size stop item n fuel made tests takes (omega (arith, h, few))
            (omega (arith, h, small)))))

pub loop_until-Ends :
    (n : ℕ) (stop : List GoTok → Outcome Bool) (item : GoState → Outcome GoState) (st : GoState)
    → ((ts : List GoTok) → Stops (stop ts))
    → ((s : GoState) → Within n s → Takes s (item s))
    → Within n st
    → Ends (Within n) (loop_until stop item st)
unfolding loop_until
loop_until-Ends n stop item st tests takes few =
    loop_on-Ends (λ s. length s.toks) (λ s. stop s.toks) item n (suc (length st.toks)) st
      (λ s. tests s.toks) takes few (omega arith)

module _ (ci : Bytes → Bytes → Bool) where
  pub emit_behind-Ends :
      (n : ℕ) (head : Bytes) (range : List GoTok) (st : GoState)
      → Within n st
      → Ends (Within n) (emit_behind ci head range st)
  unfolding emit_behind
  emit_behind-Ends n head range st h =
      >>=-Ends (Within n) _ _
        (Returns-Ends (go_emit_range-Returns ci st.locals range (st.out ++ head)))
        (λ text _. returns h)

  pub emit_line-Ends :
      (n ind : ℕ) (head : Bytes) (range : List GoTok) (tail : Bytes) (st : GoState)
      → Within n st
      → Ends (Within n) (emit_line ci ind head range tail st)
  unfolding emit_line
  emit_line-Ends n ind head range tail st h =
      >>=-Ends (Within n) _ _ (emit_behind-Ends n _ range st h) (λ mid k. returns k)
