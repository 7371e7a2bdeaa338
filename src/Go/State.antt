-- ===== src/Go/State.antt =====
-- The state of the Go parser and what every statement does with it. A read of `g->t[g->pos]` where
-- no token is left is a fault. The count of loops that are open is written and never read, and has
-- no field.
use plx.Assemble.{PlxLocal2}
use plx.Context.{indent, plx_err}
use plx.Prelude.Outcome.{Outcome, done, fault, cut_short, ◌>>=◌}
use plx.Prelude.{
  ℕ, zero, suc, Bytes, length, Bool, true, false, ◌||◌, if◌then◌else◌, List, [], ◌∷◌, ◌++◌, Option,
  none,
}
use plx.Go.Emit.{go_emit_range}
use plx.Go.Token.{GoTok, is_semi, is_eof, is_rbrace}

-- `Go` and what it reads and writes of `Ctx`: all tokens, those from the position on, the text of
-- the body, the locals, and whether the function returns a set.
pub record GoState : Type 0 where
  pub all : List GoTok
  pub toks : List GoTok
  pub out : Bytes
  pub locals : List PlxLocal2
  pub retset : Bool

abbrev pub at : List GoTok → GoState → GoState
at ts st = record st { toks = ts }

abbrev pub write : Bytes → GoState → GoState
write text st = record st { out = st.out ++ text }

-- `go_err`, and an error at the first of some tokens.
abbrev pub go_err {ℓ} : {A : Type ℓ} → List GoTok → Bytes → Outcome A
go_err [] msg = fault
go_err (t ∷ ts) msg = plx_err t.line msg

unfoldable pub semis : List GoTok → Outcome (List GoTok)
semis [] = fault
semis (t ∷ ts) = let rest = semis ts in if is_semi t.kind then rest else done (t ∷ ts)

unfoldable pub go_eat_semi : GoState → Outcome GoState
unfolding semis
go_eat_semi st = semis st.toks >>= (λ ts. done (at ts st))

-- `local_add`, of a local that is no record and no constant and has no value yet.
abbrev pub new_local : Bytes → Option Bytes → PlxLocal2
new_local name typ = record {
  name = name;
  typ = typ;
  is_record = false;
  is_const = false;
  init = none;
}

abbrev pub add_local : PlxLocal2 → GoState → GoState
add_local l st = record st { locals = st.locals ++ (l ∷ []) }

-- The parser stands at `}` or at the end.
abbrev pub at_close : List GoTok → Outcome Bool
at_close [] = fault
at_close (t ∷ ts) = done (is_rbrace t.kind || is_eof t.kind)

-- A loop over what stands at the position, on fuel.
unfoldable pub loop_on {ℓ} : {S : Type ℓ} → (S → Outcome Bool) → (S → Outcome S) → ℕ → S → Outcome S
loop_on stop item zero st = cut_short
loop_on stop item (suc fuel) st =
    stop st >>= λ b. elim b [ true ↦ done st | false ↦ item st >>= loop_on stop item fuel ]

unfoldable pub loop_until :
    (List GoTok → Outcome Bool) → (GoState → Outcome GoState) → GoState → Outcome GoState
unfolding loop_on
loop_until stop item st = loop_on (λ s. stop s.toks) item (suc (length st.toks)) st

module _ (ci : Bytes → Bytes → Bool) where
  -- A range behind a head.
  unfoldable pub emit_behind : Bytes → List GoTok → GoState → Outcome GoState
  unfolding go_emit_range
  emit_behind head range st = do
    text ← go_emit_range ci st.locals range (st.out ++ head)
    done (record st { out = text })

  -- A head, a range and a tail as a line.
  unfoldable pub emit_line : ℕ → Bytes → List GoTok → Bytes → GoState → Outcome GoState
  unfolding emit_behind indent
  emit_line ind head range tail st =
      emit_behind (indent ind ++ head) range st >>= (λ made. done (write tail made))
