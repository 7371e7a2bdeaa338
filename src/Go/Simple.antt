-- ===== src/Go/Simple.antt =====
-- `go_simple`: assignments, short declarations, steps and calls for their effect. A statement is a
-- range with the tokens behind it; `from` are the tokens from where it begins. Behind a range stands
-- a semicolon, a bracket that closes or opens, or the end, so a test of a token behind it that asks
-- for `(` or `.` is false, as it is at the end of the range.
use plx.Context.{indent, local_find}
use plx.Prelude.Int.{pos}
use plx.Prelude.Outcome.{Outcome, done, fault, ◌>>=◌}
use plx.Prelude.{
  ℕ, suc, Bytes, codes, take, drop, Bool, true, false, ◌&&◌, ◌||◌, if◌then◌else◌, List, [], ◌∷◌,
  ◌++◌, Option, none, some,
}
use plx.Go.Declare.{go_declare_one}
use plx.Go.Emit.{in_parens}
use plx.Go.Scan.{Split, Inside, tops, first_of, last_from, part_ends, ranges, go_match, comma_split}
use plx.Go.State.{GoState, at, write, go_err, emit_behind, emit_line}
use plx.Go.Token.{GoTok, all_brackets, is_word, is_comma, is_dot, go_ci, op_is, is_step}

pub data AssignOp : Type 0 where
  short plain : AssignOp
  arith_op : Bytes → AssignOp

-- `+=`, `-=`, `*=`, `/=` and `%=`
abbrev is_arith : GoTok → Bool
is_arith t =
    op_is t (codes "+=")
    || op_is t (codes "-=")
    || op_is t (codes "*=")
    || op_is t (codes "/=")
    || op_is t (codes "%=")

abbrev pub assign_op : GoTok → Option AssignOp
assign_op t =
    if op_is t (codes ":=")
    then some short
    else if op_is t (codes "=")
    then some plain
    else if is_arith t
    then some (arith_op (take 1 t.s))
    else none

abbrev is_assign_op : GoTok → Bool
is_assign_op t = op_is t (codes ":=") || op_is t (codes "=") || is_arith t

-- The words of a range.
abbrev pub words : List GoTok → List Bytes
words [] = []
words (t ∷ ts) = if is_word t.kind then t.s ∷ words ts else words ts

abbrev pub commas : List GoTok → List ℕ
commas range = tops all_brackets (λ t. is_comma t.kind) (pos 0) 0 range

-- `%` for each value, from the second on behind a blank.
abbrev pub place_holders : List ℕ → Bytes
place_holders [] = codes "%"
place_holders (k ∷ ks) = codes "% " ++ place_holders ks

-- Of the arguments of Printf and Sprintf the first is left out.
abbrev without_format : GoTok → List GoTok → List GoTok
without_format m inside =
    if go_ci m (codes "Printf") || go_ci m (codes "Sprintf")
    then elim (comma_split inside) [ none ↦ inside | some p ↦ p.1 ]
    else inside

-- What stands in the brackets of a call; nothing where none do.
abbrev pub arguments : Option Inside → List GoTok
arguments none = []
arguments (some p) = p.0

abbrev pub fmt_args : List GoTok → List GoTok
fmt_args [] = []
fmt_args (m ∷ ts) = without_format m (arguments (in_parens ts))

abbrev pub starts_dot : List GoTok → Bool
starts_dot [] = false
starts_dot (t ∷ ts) = is_dot t.kind

module _ (ci : Bytes → Bytes → Bool) where
  -- A line with the arguments, or another where there are none.
  abbrev pub line_or : ℕ → Bytes → Bytes → List GoTok → GoState → Outcome GoState
  line_or ind other head [] st = done (write (indent ind ++ other) st)
  line_or ind other head (t ∷ args) st = emit_line ci ind head (t ∷ args) (codes ";\n") st

  -- A call for its effect: `h` begins the range.
  unfoldable pub call_stmt : ℕ → GoTok → List GoTok → GoState → Outcome GoState
  unfolding emit_line indent go_match comma_split tops
  call_stmt ind h ts st =
      if go_ci h (codes "panic")
      then line_or ind (codes "RAISE EXCEPTION 'panic';\n") (codes "RAISE EXCEPTION '%',")
          (arguments (in_parens ts)) st
      else if go_ci h (codes "fmt") && starts_dot ts
      then line_or ind (codes "RAISE NOTICE '';\n")
          (codes "RAISE NOTICE '" ++ (place_holders (commas (fmt_args (drop 1 ts))) ++ codes "',"))
          (fmt_args (drop 1 ts)) st
      else if go_ci h (codes "emit")
      then line_or ind (codes "RETURN NEXT;\n") (codes "RETURN NEXT") (arguments (in_parens ts))
          (record st { retset = true })
      else if go_ci h (codes "execute")
      then emit_line ci ind (codes "EXECUTE") (arguments (in_parens ts)) (codes ";\n") st
      else if go_ci h (codes "perform")
      then emit_line ci ind (codes "PERFORM") (arguments (in_parens ts)) (codes ";\n") st
      else emit_line ci ind (codes "PERFORM") (h ∷ ts) (codes ";\n") st

  -- `x++` and `x--`
  unfoldable pub step_stmt : ℕ → List GoTok → Bytes → GoState → Outcome GoState
  unfolding emit_behind emit_line
  step_stmt ind target op st = do
    first ← emit_line ci ind [] target (codes " := ") st
    second ← emit_behind ci [] target first
    done (write (codes " " ++ (op ++ codes " 1;\n")) second)

  -- Without an assignment: `h ∷ ts` is the range.
  abbrev pub no_assign : ℕ → GoTok → List GoTok → Split → GoState → Outcome GoState
  no_assign ind h ts (c ∷ target, t ∷ rest) st =
      if is_step t then step_stmt ind (c ∷ target) (take 1 t.s) st else call_stmt ind h ts st
  no_assign ind h ts _ st = call_stmt ind h ts st

  -- A name with a value that is a range which begins at `from`: it is declared where it is new.
  abbrev pub declare_or_assign : ℕ → Bytes → Split → GoState → Outcome GoState
  declare_or_assign ind name (range, from) st = elim (local_find ci st.locals name) [
    | none ↦ go_declare_one ci ind false name [] range from st
    | some l ↦ emit_line ci ind (name ++ codes " :=") range (codes ";\n") st
  ]

  -- As many as there are names and values.
  unfoldable pub declare_all : ℕ → List Bytes → List Split → GoState → Outcome GoState
  unfolding go_declare_one emit_line local_find
  declare_all ind (name ∷ names) (value ∷ values) st =
      declare_or_assign ind name value st >>= declare_all ind names values
  declare_all ind _ _ st = done st

  -- `rhs` is the range on the right, and `from` are the tokens from there.
  abbrev pub short_decl : ℕ → List Bytes → List GoTok → List GoTok → GoState → Outcome GoState
  short_decl ind (name ∷ []) rhs from st = declare_or_assign ind name (rhs, from) st
  short_decl ind names rhs from st =
      declare_all ind names (ranges 0 (take 32 (part_ends all_brackets rhs)) from) st

  -- By the commas on the left.
  unfoldable pub plain_assign : ℕ → List ℕ → List GoTok → List GoTok → GoState → Outcome GoState
  unfolding emit_line emit_behind
  plain_assign ind [] lhs rhs st = do
    target ← emit_line ci ind [] lhs (codes " :=") st
    made ← emit_behind ci [] rhs target
    done (write (codes ";\n") made)
  plain_assign ind (k ∷ ks) lhs rhs st = do
    values ← emit_line ci ind (codes "SELECT") rhs (codes " INTO") st
    made ← emit_behind ci [] lhs values
    done (write (codes ";\n") made)

  unfoldable pub arith_assign : ℕ → Bytes → List GoTok → List GoTok → GoState → Outcome GoState
  unfolding emit_line emit_behind
  arith_assign ind op lhs rhs st = do
    target ← emit_line ci ind [] lhs (codes " :=") st
    again ← emit_behind ci [] lhs target
    made ← emit_behind ci (codes " " ++ (op ++ codes " (")) rhs again
    done (write (codes ");\n") made)

  -- The ranges on the left and on the right, and the tokens from the right on.
  unfoldable pub assign_by :
      ℕ → Option AssignOp → List GoTok → List GoTok → List GoTok → GoState → Outcome GoState
  unfolding declare_all plain_assign arith_assign tops
  assign_by ind (some short) lhs rhs from st = short_decl ind (take 32 (words lhs)) rhs from st
  assign_by ind (some plain) lhs rhs from st = plain_assign ind (commas lhs) lhs rhs st
  assign_by ind (some (arith_op op)) lhs rhs from st = arith_assign ind op lhs rhs st
  assign_by ind none lhs rhs from st = fault

  -- An assignment: the range in front of its operator, the rest of the range, and the tokens behind
  -- the operator.
  unfoldable pub assignment : ℕ → List GoTok → List GoTok → List GoTok → GoState → Outcome GoState
  unfolding assign_by
  assignment ind lhs [] from st = fault
  assignment ind lhs (o ∷ rhs) from st = assign_by ind (assign_op o) lhs rhs from st

  -- A range that is not empty, with where its assignment operator stands.
  unfoldable pub simple_text :
      ℕ → Option ℕ → GoTok → List GoTok → List GoTok → GoState → Outcome GoState
  unfolding assignment call_stmt step_stmt
  simple_text ind none h ts from st = no_assign ind h ts (last_from (h ∷ ts)) st
  simple_text ind (some k) h ts from st =
      assignment ind (take k (h ∷ ts)) (drop k (h ∷ ts)) (drop (suc k) from) st

  unfoldable pub go_simple : ℕ → Split → List GoTok → GoState → Outcome GoState
  unfolding simple_text tops
  go_simple ind ([], rest) from st = go_err from (codes "unexpected token")
  go_simple ind (h ∷ ts, rest) from st =
      simple_text ind (first_of (tops all_brackets is_assign_op (pos 0) 0 (h ∷ ts))) h ts from st
      >>= (λ made. done (at rest made))
