-- ===== src/Tests/Go.antt =====
-- The Go front end.
use plx.Prelude.Outcome.{done, cut_short}
use plx.Prelude.Result.{Result}
use plx.Prelude.{Bytes, codes, false, List, [], ◌∷◌, ◌++◌, some, ◌≡◌, ◌≢◌, refl}
use plx.Tests.{ascii_ci}
use plx.Go.Emit.{go_sp, go_emit_range}
use plx.Go.Expr.{
  both, not_equal, to_upper, max, to_string, Expr, name, number, string, negated, binary,
  call as called, call_two, converted, sql,
}
use plx.Context.{local_find}
use plx.Go.Declare.{go_var}
use plx.Go.For.{go_for}
use plx.Go.If.{go_if}
use plx.Go.Lexer.{go_lex, go_round}
use plx.Go.Simple.{go_simple}
use plx.Go.Switch.{go_switch}
use plx.Go.Types.{go_base_type}
use plx.Go.Literal.{go_emit_str}
use plx.Go.Parser.{go_transpile, go_stmt, go_return}
use plx.Go.Progress.Laws.{go_transpile_stops, go_stmt-Takes}
use plx.Go.Progress.Lexer.{IsOpenText, go_lex_total}
use plx.Go.Progress.State.{Takes}
use plx.Go.State.{GoState, new_local}
use plx.Go.Token.{GoTok, GoKind, go_word, go_op, go_lp, go_rp, go_semi, go_eof}
use plx.Go.Value.{sql_literal, quoted_value, go_emit_str-value}

abbrev program : Bytes
program =
    codes "{\nvar xs []int\nfor i := 0; i < 3; i++ {\nxs = append(xs, i)\n}\n"
    ++ codes "if n := len(xs); n != 2 { return xs[0] }\n}\n"

abbrev plpgsql : Bytes
plpgsql =
    codes "  FOR i IN 0 .. (3) - 1 LOOP\n    xs := array_append(xs, i);\n  END LOOP;\n"
    ++ (codes "  n := coalesce(cardinality(xs), 0);\n"
        ++ codes "  IF n <> 2 THEN\n    RETURN xs[(0) + 1];\n  END IF;\n")

-- The locals and the text of the program.
transpiles :
    go_transpile ascii_ci false program
    ≡ done (
      new_local (codes "xs") (some (codes "integer[]"))
          ∷ new_local (codes "n") (some (codes "integer"))
          ∷ [],
      plpgsql,
    )
unfolding go_transpile go_stmt go_round go_var go_base_type go_for go_if go_return go_switch
    go_simple go_emit_range
transpiles = refl

-- A default in front of the cases is always taken.
default_first :
    go_transpile ascii_ci false (codes "switch x {\ndefault: f()\ncase 1: g()\n}\n")
    ≡ done (
      [],
      codes "  IF true THEN\n    PERFORM f ();\n  ELSIF x = 1 THEN\n    PERFORM g ();\n  END IF;\n",
    )
unfolding go_transpile go_stmt go_round go_var go_base_type go_for go_if go_return go_switch
    go_simple go_emit_range
default_first = refl

-- The second value reads the name that the first one has changed.
declared_in_turn :
    go_transpile ascii_ci false (codes "a := 0\na, b := 1, int(a)\n")
    ≡ done (
      new_local (codes "a") (some (codes "integer"))
          ∷ new_local (codes "b") (some (codes "integer"))
          ∷ [],
      codes "  a := 0;\n  a := 1;\n  b := (a)::integer;\n",
    )
unfolding go_transpile go_stmt go_round go_var go_base_type go_for go_if go_return go_switch
    go_simple go_emit_range
declared_in_turn = refl

lost_assignment :
    go_transpile ascii_ci false (codes "x |= 1\n") ≡ done ([], codes "  PERFORM x |= 1;\n")
unfolding go_transpile go_stmt go_round go_var go_base_type go_for go_if go_return go_switch
    go_simple go_emit_range
lost_assignment = refl

go_transpile_stops_example : go_transpile ascii_ci false program ≢ cut_short
go_transpile_stops_example = go_transpile_stops ascii_ci false program

abbrev token : GoKind → Bytes → GoTok
token kind s = record { kind = kind; s = s; line = 1 }

-- `f(x);` and the end.
abbrev call : List GoTok
call =
    token go_word (codes "f")
    ∷ token go_lp (codes "(")
    ∷ token go_word (codes "x")
    ∷ token go_rp (codes ")")
    ∷ token go_semi (codes ";")
    ∷ token go_eof []
    ∷ []

abbrev start : GoState
start = record { all = call; toks = call; out = []; locals = []; retset = false }

go_stmt-Takes_example : Takes start (go_stmt ascii_ci 0 1 start)
go_stmt-Takes_example = go_stmt-Takes ascii_ci 0 1 start

-- `x == len(x)`
abbrev range : List GoTok
range =
    token go_word (codes "x")
    ∷ token go_op (codes "==")
    ∷ token go_word (codes "len")
    ∷ token go_lp (codes "(")
    ∷ token go_word (codes "x")
    ∷ token go_rp (codes ")")
    ∷ []

emits : go_emit_range ascii_ci [] range (codes "IF") ≡ done (codes "IF x = length(x)")
unfolding go_emit_range go_base_type local_find
emits = refl

-- `strings.ToUpper("it's") != string(math.Max(x, 1)) && !done`
abbrev condition : Expr
condition =
    binary both
      (binary not_equal (called to_upper (string (codes "\"it's\"")))
        (converted to_string (call_two max (name (codes "x")) (number (codes "1")))))
      (negated (name (codes "done")))

sql_text :
    sql condition (codes "IF") ≡ codes "IF upper('it''s') <> (greatest(x, 1))::text AND NOT done"
unfolding go_sp go_emit_str
sql_text = refl

go_lex_total_example :
    (res : Result (List GoTok)) × (go_lex (codes "x := \"a\nb") ≡ some res) × IsOpenText res
go_lex_total_example = go_lex_total (codes "x := \"a\nb")

-- The string "it's\n" of Go.
go_emit_str-value_example :
    sql_literal (go_emit_str (b'"' ∷ (codes "it's\\n" ++ (b'"' ∷ []))) ++ codes ";")
    ≡ some (codes "it's\n", codes ";")
unfolding quoted_value
go_emit_str-value_example =
    go_emit_str-value b'"' (codes "it's\\n") (codes "it's\n") (codes ";") refl refl
