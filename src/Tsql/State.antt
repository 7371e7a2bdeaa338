-- ===== src/Tsql/State.antt =====
-- The state of the T-SQL parser and what every statement does with it. A read of `tq->t[tq->pos]`
-- where no token is left is a fault. The count of loops that are open is written and never read,
-- and has no field.
use plx.Assemble.{PlxLocal2}
use plx.Prelude.Outcome.{Outcome, done, fault, ◌>>=◌}
use plx.Prelude.{ℕ, Bytes, Bool, true, false, if◌then◌else◌, List, [], ◌∷◌, ◌++◌, none, some}
use plx.Context.{indent, plx_err}
use plx.Tsql.Emit.{tq_emit_range}
use plx.Tsql.Token.{TqTok, is_semi}

-- `Tq` and what it reads and writes of `Ctx`: the tokens from the position on, the text of the
-- body, and the locals.
pub record TqState : Type 0 where
  pub toks : List TqTok
  pub out : Bytes
  pub locals : List PlxLocal2

-- `tq_err`
abbrev pub tq_err {ℓ} : {A : Type ℓ} → List TqTok → Bytes → Outcome A
tq_err [] msg = fault
tq_err (t ∷ ts) msg = plx_err t.line msg

unfoldable pub tq_eat_semi : List TqTok → Outcome (List TqTok)
tq_eat_semi [] = fault
tq_eat_semi (t ∷ ts) = let rest = tq_eat_semi ts in if is_semi t.kind then rest else done (t ∷ ts)

-- The statement is written, and the tokens go on.
unfoldable pub finish_at : List TqTok → TqState → Bytes → Outcome TqState
unfolding tq_eat_semi
finish_at rest st text = do
  left ← tq_eat_semi rest
  done (record { toks = left; out = text; locals = st.locals })

unfoldable pub local_add : List PlxLocal2 → Bytes → Bytes → List PlxLocal2
local_add locals name ty =
    locals
    ++ (record { name = name; typ = some ty; is_record = false; is_const = false; init = none }
        ∷ [])

abbrev pub is_empty : List TqTok → Bool
is_empty [] = true
is_empty (t ∷ ts) = false

module _ (ci : Bytes → Bytes → Bool) where
  -- A head, a range and a tail as a line.
  unfoldable pub emit_line : ℕ → Bytes → List TqTok → Bytes → Bytes → Outcome Bytes
  unfolding indent
  emit_line ind head range tail out = do
    text ← tq_emit_range ci range (out ++ (indent ind ++ head))
    done (text ++ tail)
