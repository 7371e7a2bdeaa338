-- ===== src/Tsql/Progress/Loop.antt =====
-- Loops over statements of T-SQL, and runs one behind another.
use plx.Prelude.Outcome.{Outcome, ◌>>=◌}
use plx.Prelude.{ℕ, zero, suc, ◌≤◌, ◌<◌, Bytes, length, Bool, List, arith, elim-split}
use plx.Tsql.Blocks.{write, stmts_on, stmts_until}
use plx.Tsql.Progress.Assign.{Keeps-behind}
use plx.Tsql.Progress.Emit.{Extends-more}
use plx.Tsql.Progress.Leaves.{Keeps}
use plx.Prelude.Ends.{Ends, returns, >>=-Ends, Extends-self}
use plx.Tsql.State.{TqState}
use plx.Tsql.Token.{TqTok}

-- The run takes at least a token.
abbrev pub Takes : TqState → Outcome TqState → Type 0
Takes st o = Ends (λ made. (length made.toks < length st.toks) × Keeps (length st.toks) st made) o

-- The run takes no token back.
abbrev pub KeepsOn : TqState → Outcome TqState → Type 0
KeepsOn st o = Ends (Keeps (length st.toks) st) o

-- A test never is cut short.
abbrev pub Tests : (List TqTok → Outcome Bool) → Type 0
Tests stop = (ts : List TqTok) → Ends (λ b. Unit) (stop ts)

-- A state of its own tokens.
pub Keeps-self : (st : TqState) → Keeps (length st.toks) st st
Keeps-self st = (omega arith, (Extends-self st.out, Extends-self st.locals))

stmts_on-Ends :
    (fuel : ℕ) (stop : List TqTok → Outcome Bool) (stmt : TqState → Outcome TqState) (bound : ℕ)
    (st : TqState)
    → Tests stop
    → ((at : TqState) → length at.toks ≤ bound → Takes at (stmt at))
    → length st.toks ≤ bound
    → length st.toks < fuel
    → KeepsOn st (stmts_on fuel stop stmt st)
unfolding stmts_on
stmts_on-Ends zero stop stmt bound st tests takes few small = absurd (omega arith)
stmts_on-Ends (suc fuel) stop stmt bound st tests takes few small =
    >>=-Ends (Keeps _ st) (stop st.toks) _ (tests st.toks) (λ b _.
      elim-split (Ends (Keeps _ st)) b (λ _. returns (Keeps-self st))
        (λ _. >>=-Ends (Keeps _ st) (stmt st) _ (takes st few) (λ made h.
          Keeps-behind _ _ _ st made h.1 (omega (arith, h.0)) (
            stmts_on-Ends fuel stop stmt bound made tests takes (omega (arith, h.0, few))
              (omega (arith, h.0, small))))))

-- The loop over statements ends, where each takes a token.
pub stmts_until-Ends :
    (stop : List TqTok → Outcome Bool) (stmt : TqState → Outcome TqState) (bound : ℕ) (st : TqState)
    → Tests stop
    → ((at : TqState) → length at.toks ≤ bound → Takes at (stmt at))
    → length st.toks ≤ bound
    → KeepsOn st (stmts_until stop stmt st)
unfolding stmts_until
stmts_until-Ends stop stmt bound st tests takes few =
    stmts_on-Ends (suc (length st.toks)) stop stmt bound st tests takes few (omega arith)

-- A run behind another that keeps a state.
pub step :
    (st : TqState) (o : Outcome TqState) (f : TqState → Outcome TqState) (n : ℕ)
    → Ends (Keeps n st) o
    → ((mid : TqState) → length mid.toks ≤ n → KeepsOn mid (f mid))
    → Ends (Keeps n st) (o >>= f)
step st o f n h k =
    >>=-Ends (Keeps n st) o f h (λ mid l. Keeps-behind n _ n st mid l l.0 (k mid l.0))

-- The same in the middle of a run.
pub go_on :
    (n : ℕ) (st mid : TqState) (o : Outcome TqState) (f : TqState → Outcome TqState)
    → Keeps n st mid
    → KeepsOn mid o
    → ((next : TqState) → Keeps n st next → Ends (Keeps n st) (f next))
    → Ends (Keeps n st) (o >>= f)
go_on n st mid o f h run rest = >>=-Ends (Keeps n st) o f (Keeps-behind n _ n st mid h h.0 run) rest

-- Text that is written behind a run.
pub write-Keeps :
    (n : ℕ) (st made : TqState) (text : Bytes) → Keeps n st made → Keeps n st (write text made)
write-Keeps n st made text h = (h.0, (Extends-more st.out made.out text h.1.0, h.1.1))
