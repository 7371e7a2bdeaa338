-- ===== src/Go/Declare.antt =====
-- `go_declare_one` and `go_var`.
use plx.Lexer.Scan.{starts}
use plx.Prelude.Outcome.{Outcome, done, fault, ◌>>=◌}
use plx.Prelude.{
  ℕ, Bytes, codes, length, Bool, true, false, ◌&&◌, ◌||◌, ◌==◌, if◌then◌else◌, List, [], ◌∷◌, ◌++◌,
  Option, none, some,
}
use plx.Go.Emit.{go_emit_range}
use plx.Go.Scan.{go_stmt_end}
use plx.Go.State.{GoState, at, add_local, go_err, go_eat_semi, new_local, loop_until, emit_line}
use plx.Go.Token.{GoTok, is_word, is_op, is_lp, is_rp, is_eof, op_is}
use plx.Go.Types.{go_read_type, go_infer_type}

abbrev no_type : List GoTok → Bytes → Outcome (Option Bytes)
no_type from name = go_err from (
    codes "cannot infer a PostgreSQL type for \""
    ++ (name ++ (codes "\"; declare it with an explicit type (var " ++ (name ++ codes " T)"))))

abbrev pub or_no_type : List GoTok → Bytes → Option Bytes → Outcome (Option Bytes)
or_no_type from name none = no_type from name
or_no_type from name (some typ) = done (some typ)

-- The type of a name: the explicit one if it is not empty, or that of the initialiser.
unfoldable pub declared_type : Bytes → Bytes → List GoTok → List GoTok → Outcome (Option Bytes)
unfolding go_infer_type
declared_type name (c ∷ typ) range from = done (some (c ∷ typ))
declared_type name [] [] from = done none
declared_type name [] (t ∷ range) from =
    go_infer_type (length (t ∷ range)) from >>= or_no_type from name

module _ (ci : Bytes → Bytes → Bool) where
  -- The initialiser is a range that begins at `from`.
  unfoldable pub initialise :
      ℕ → Bool → Bytes → Option Bytes → List GoTok → List GoTok → GoState → Outcome GoState
  unfolding go_emit_range emit_line
  initialise ind true name typ [] from st =
      go_err from (codes "a constant needs a value (const " ++ (name ++ codes " = ...)"))
  initialise ind true name typ (t ∷ range) from st = do
    text ← go_emit_range ci (st.locals ++ (new_local name typ ∷ [])) (t ∷ range) []
    done (add_local (record (new_local name typ) { is_const = true; init = some text }) st)
  initialise ind false name typ [] from st = done (add_local (new_local name typ) st)
  initialise ind false name typ (t ∷ range) from st =
      emit_line ci ind (name ++ codes " :=") (t ∷ range) (codes ";\n")
        (add_local (new_local name typ) st)

  unfoldable pub go_declare_one :
      ℕ → Bool → Bytes → Bytes → List GoTok → List GoTok → GoState → Outcome GoState
  unfolding declared_type initialise
  go_declare_one ind isconst name typ range from st =
      declared_type name typ range from
      >>= (λ known. initialise ind isconst name known range from st)

  -- Behind the name and the type. Without a value the initialiser is the empty range at the first
  -- of all tokens.
  unfoldable pub var_value : ℕ → Bool → Bytes → Bytes → List GoTok → GoState → Outcome GoState
  unfolding go_declare_one go_stmt_end
  var_value ind isconst name typ [] st = fault
  var_value ind isconst name typ (t ∷ ts) st =
      if op_is t (codes "=")
      then go_declare_one ind isconst name typ (go_stmt_end ts).0 ts (at (go_stmt_end ts).1 st)
      else go_declare_one ind isconst name typ [] st.all (at (t ∷ ts) st)

  -- A name without a type, by a test of the token behind it.
  abbrev pub var_type : (GoTok → Bool) → List GoTok → Outcome (Bytes × List GoTok)
  var_type untyped [] = fault
  var_type untyped (t ∷ ts) = if untyped t then done ([], t ∷ ts) else go_read_type (t ∷ ts)

  unfoldable pub one_var :
      (GoTok → Bool) → Bytes → ℕ → Bool → List GoTok → GoState → Outcome GoState
  unfolding go_read_type var_value
  one_var untyped missing ind isconst [] st = fault
  one_var untyped missing ind isconst (nm ∷ ts) st =
      if is_word nm.kind
      then var_type untyped ts
        >>= (λ read. var_value ind isconst nm.s read.0 read.1 st)
        >>= go_eat_semi
      else go_err (nm ∷ ts) missing

  -- The group ends.
  abbrev pub at_rp : List GoTok → Outcome Bool
  at_rp [] = fault
  at_rp (t ∷ ts) = done (is_rp t.kind || is_eof t.kind)

  abbrev pub over_rp : List GoTok → GoState → Outcome GoState
  over_rp [] st = fault
  over_rp (t ∷ ts) st = if is_rp t.kind then done (at ts st) else done st

  unfoldable pub var_group : ℕ → Bool → GoState → Outcome GoState
  unfolding loop_until one_var go_eat_semi
  var_group ind isconst st =
      go_eat_semi st
      >>= loop_until at_rp (λ s.
        one_var (λ t. is_op t.kind && starts (λ c. c == b'=') t.s)
          (codes "expected a name in var block") ind isconst s.toks s)
      >>= (λ made. over_rp made.toks made)
      >>= go_eat_semi

  -- `ts` are the tokens behind `var` or `const`.
  unfoldable pub go_var : ℕ → Bool → List GoTok → GoState → Outcome GoState
  unfolding var_group one_var
  go_var ind isconst [] st = fault
  go_var ind isconst (t ∷ ts) st =
      if is_lp t.kind
      then var_group ind isconst (at ts st)
      else one_var (λ t. op_is t (codes "=")) (codes "expected a name after var") ind isconst
          (t ∷ ts) st
