-- ===== src/Go/Switch.antt =====
-- `go_switch`.
use plx.Context.{indent}
use plx.Prelude.Int.{pos}
use plx.Prelude.Outcome.{Outcome, done, fault, ◌>>=◌}
use plx.Prelude.{
  ℕ, suc, Bytes, codes, length, take, drop, Bool, true, false, ◌||◌, if◌then◌else◌, List, [], ◌∷◌,
  ◌++◌, Option, none, some,
}
use plx.Go.If.{Stmt}
use plx.Go.Scan.{Split, tops, first_of, spots, part_ends, ranges, go_header_end}
use plx.Go.State.{
  GoState, at, write, go_err, go_eat_semi, at_close, loop_on, loop_until, emit_behind,
}
use plx.Go.Token.{GoTok, all_brackets, no_braces, is_lbrace, is_rbrace, is_eof, go_ci, op_is}

-- The state in front of a case, and whether none is written yet.
abbrev pub Cases : Type 0
Cases = Bool × GoState

abbrev is_colon : GoTok → Bool
is_colon t = op_is t (codes ":")

module _ (ci : Bytes → Bytes → Bool) (stmt : Stmt) where
  -- The comparison of the tag with a value; without a tag the value alone.
  abbrev pub case_value : List GoTok → List GoTok → GoState → Outcome GoState
  case_value [] value st = emit_behind ci [] value st
  case_value (t ∷ tag) value st =
      emit_behind ci (codes " ") (t ∷ tag) st >>= emit_behind ci (codes " =") value

  abbrev pub more_values : List GoTok → List Split → GoState → Outcome GoState
  more_values tag [] st = done st
  more_values tag (value ∷ values) st =
      case_value tag value.0 (write (codes " OR") st) >>= more_values tag values

  unfoldable pub case_values : List GoTok → List Split → GoState → Outcome GoState
  unfolding emit_behind
  case_values tag [] st = done st
  case_values tag (value ∷ values) st = case_value tag value.0 st >>= more_values tag values

  -- The statements behind a colon.
  abbrev pub case_end : List GoTok → Outcome Bool
  case_end [] = fault
  case_end (t ∷ ts) =
      done
        (go_ci t (codes "case") || go_ci t (codes "default") || is_rbrace t.kind || is_eof t.kind)

  abbrev pub case_stmt : ℕ → ℕ → List GoTok → GoState → Outcome GoState
  case_stmt depth ind [] st = fault
  case_stmt depth ind (t ∷ ts) st =
      if go_ci t (codes "fallthrough")
      then go_err (t ∷ ts) (codes "fallthrough is not supported")
      else stmt depth (suc ind) st

  unfoldable pub case_body : ℕ → ℕ → GoState → Outcome Cases
  unfolding go_eat_semi loop_until
  case_body depth ind st =
      go_eat_semi st
      >>= loop_until case_end (λ s. case_stmt depth ind s.toks s)
      >>= (λ made. done (false, made))

  -- Behind `case`, with where its colon stands.
  unfoldable pub case_at :
      ℕ → ℕ → List GoTok → Bool → Option ℕ → List GoTok → GoState → Outcome Cases
  unfolding part_ends ranges case_values case_body indent
  case_at depth ind tag first none ts st = go_err ts (codes "expected : after case")
  case_at depth ind tag first (some k) ts st =
      case_values tag (ranges 0 (part_ends no_braces (take k ts)) (take k ts))
        (write (indent ind ++ (if first then codes "IF" else codes "ELSIF")) st)
      >>= (λ made. case_body depth ind (at (drop (suc k) ts) (write (codes " THEN\n") made)))

  -- Behind `default`.
  unfoldable pub default_at : ℕ → ℕ → Bool → Option ℕ → List GoTok → GoState → Outcome Cases
  unfolding case_body indent
  default_at depth ind first none ts st = go_err ts (codes "expected : after default")
  default_at depth ind first (some k) ts st = case_body depth ind (
      at (drop (suc k) ts)
        (write (indent ind ++ (if first then codes "IF true THEN\n" else codes "ELSE\n")) st))

  unfoldable pub one_case : ℕ → ℕ → List GoTok → List GoTok → Cases → Outcome Cases
  unfolding case_at default_at tops
  one_case depth ind tag [] cases = fault
  one_case depth ind tag (t ∷ ts) (first, st) =
      if go_ci t (codes "case")
      then case_at depth ind tag first (first_of (tops all_brackets is_colon (pos 0) 0 ts)) ts st
      else if go_ci t (codes "default")
      then default_at depth ind first (first_of (spots is_colon 0 ts)) ts st
      else go_err (t ∷ ts) (codes "expected case or default in switch")

  abbrev pub over_brace : List GoTok → Cases → Outcome Cases
  over_brace [] cases = fault
  over_brace (t ∷ ts) (first, st) =
      if is_rbrace t.kind then done (first, at ts st) else done (first, st)

  abbrev pub end_cases : ℕ → Cases → Outcome GoState
  end_cases ind (first, st) =
      go_eat_semi st
      >>= (λ made. done (if first then made else write (indent ind ++ codes "END IF;\n") made))

  -- Behind the opening brace.
  unfoldable pub cases_from : ℕ → ℕ → List GoTok → GoState → Outcome GoState
  unfolding go_eat_semi loop_on one_case indent
  cases_from depth ind tag st =
      go_eat_semi st
      >>= (λ opened.
          loop_on (λ s. at_close s.1.toks) (λ s. one_case depth ind tag s.1.toks s)
            (suc (length opened.toks)) (true, opened))
      >>= (λ cases. over_brace cases.1.toks cases)
      >>= end_cases ind

  -- The tag and what stands behind it; `ts` are the tokens behind `switch`.
  unfoldable pub switch_at : ℕ → ℕ → Split → List GoTok → GoState → Outcome GoState
  unfolding cases_from
  switch_at depth ind (tag, []) ts st = fault
  switch_at depth ind (tag, t ∷ rest) ts st =
      if is_lbrace t.kind
      then cases_from depth ind tag (at rest st)
      else go_err ts (codes "expected { after switch")

  unfoldable pub go_switch : ℕ → ℕ → List GoTok → GoState → Outcome GoState
  unfolding go_header_end switch_at
  go_switch depth ind ts st = switch_at depth ind (go_header_end ts) ts st
