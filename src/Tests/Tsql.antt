-- ===== src/Tests/Tsql.antt =====
-- The T-SQL front end.
use plx.Prelude.Outcome.{done, fault, cut_short}
use plx.Prelude.Result.{Result}
use plx.Prelude.{Bytes, codes, false, List, [], ◌∷◌, some, none, ◌≡◌, ◌≢◌, refl}
use plx.Tests.{ascii_ci}
use plx.Tsql.Emit.{tq_emit_range, emit_on, call_at}
use plx.Tsql.Assign.{tq_declare}
use plx.Tsql.Types.{tq_read_type}
use plx.Tsql.Scan.{declared_end, ends_value, tq_cond_end, tq_value_end}
use plx.Tsql.Blocks.{tq_if}
use plx.Tsql.Raise.{emit_jump, tq_return}
use plx.Tsql.Lexer.{tq_lex, tq_round}
use plx.Tsql.Parser.{tsql_transpile, tq_stmt}
use plx.Tsql.Progress.Loop.{Takes}
use plx.Tsql.Progress.Laws.{tsql_transpile_stops, tq_stmt-Takes}
use plx.Tsql.Progress.Lexer.{IsOpenString, tq_lex_total}
use plx.Tsql.Scan.Laws.{IsEnd, tq_value_end-IsEnd}
use plx.Tsql.State.{TqState, tq_eat_semi, finish_at, local_add}
use plx.Tsql.Token.{TqTok, tq_is_stmt_kw, tq_ident, tq_word, tq_lp, tq_rp, tq_semi, tq_eof}

abbrev program : Bytes
program = codes "BEGIN DECLARE @i INT = 0; IF @i < 3 BREAK; RETURN @i END"

abbrev plpgsql : Bytes
plpgsql = codes "  i := 0;\n  IF i < 3 THEN\n    EXIT;\n  END IF;\n  RETURN i;\n"

-- The locals and the text of the program.
transpiles :
    tsql_transpile ascii_ci false program
    ≡ done (
      record {
        name = codes "i";
        typ = some (codes "integer");
        is_record = false;
        is_const = false;
        init = none;
      }
          ∷ [],
      plpgsql,
    )
unfolding tsql_transpile tq_lex tq_round tq_eat_semi tq_stmt tq_declare tq_read_type tq_emit_range
    emit_on declared_end call_at finish_at tq_if tq_cond_end tq_is_stmt_kw emit_jump tq_value_end
    tq_return local_add tq_ident
transpiles = refl

-- An opening bracket that is not closed takes the value of a declaration behind the last token.
reads_behind : tsql_transpile ascii_ci false (codes "DECLARE @x INT = (1") ≡ fault
unfolding tsql_transpile tq_lex tq_round tq_eat_semi tq_stmt tq_declare tq_read_type tq_emit_range
    emit_on declared_end call_at
reads_behind = refl

tsql_transpile_stops_example : tsql_transpile ascii_ci false program ≢ cut_short
tsql_transpile_stops_example = tsql_transpile_stops ascii_ci false program

abbrev token : Bytes → TqTok
token s = record { kind = tq_word; s = s; line = 1 }

-- `IF a BREAK;` and the end.
abbrev at_if : TqState
at_if = record {
  toks =
      token (codes "IF")
      ∷ token (codes "a")
      ∷ token (codes "BREAK")
      ∷ record { kind = tq_semi; s = codes ";"; line = 1 }
      ∷ record { kind = tq_eof; s = []; line = 1 }
      ∷ [];
  out = codes "  NULL;\n";
  locals = [];
}

tq_stmt-Takes_example : Takes at_if (tq_stmt ascii_ci false 0 1 at_if)
tq_stmt-Takes_example = tq_stmt-Takes ascii_ci false 0 1 at_if

tq_lex_total_example :
    (res : Result (List TqTok)) × (tq_lex (codes "PRINT N'it''s") ≡ some res)
    × IsOpenString (codes "PRINT N'it''s") res
tq_lex_total_example = tq_lex_total (codes "PRINT N'it''s")

-- `(a); c` and the end.
abbrev value : List TqTok
value =
    record { kind = tq_lp; s = codes "("; line = 1 }
    ∷ token (codes "a")
    ∷ record { kind = tq_rp; s = codes ")"; line = 1 }
    ∷ record { kind = tq_semi; s = codes ";"; line = 1 }
    ∷ token (codes "c")
    ∷ record { kind = tq_eof; s = []; line = 1 }
    ∷ []

tq_value_end-IsEnd_example : IsEnd (ends_value ascii_ci) 0 value (tq_value_end ascii_ci value)
tq_value_end-IsEnd_example = tq_value_end-IsEnd ascii_ci value
