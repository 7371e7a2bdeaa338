-- ===== src/Tests/Plsql.antt =====
-- The PL/SQL front end on small bodies.
use mathlib.Core.Option
use plx.Plsql.Lexer.{
  pl_lex, lex_from, trivia, trivia_round, line_comment, block_comment, token, string_body,
  quoted_body, word_body, number_body, number_stops, punct, is_pair, pl_word_char,
}
use plx.Plsql.Lexer.Lossless.{pl_lex-source_of}
use plx.Plsql.Rewrite.Laws.{plsql_transpile-IsPlain}
use plx.Plsql.Rewrite.{
  plsql_transpile, rewrite_all, rewrite, rewrite_token, rewrite_word, put_line, application_error,
  application_error_at, error_or_word, sequence_or_word, plain_word, need_declare,
}
use plx.Plsql.Token.{PlTok, source_of, Ended}
use plx.Plsql.Words.{
  pl_emit_raw, pl_match_paren, match_from, find_comma, pl_ci, pl_type_map, pl_word_map, first_match,
  is_punct_char,
}
use plx.Prelude.{Bytes, codes, List, ◌++◌, Option, some, ◌≡◌, refl, arith}
use plx.Tests.{ascii_ci}

lexed : Bytes → Option (List PlTok)
unfolding pl_lex lex_from trivia trivia_round line_comment block_comment token string_body
    quoted_body word_body number_body number_stops punct is_pair pl_word_char Option.bind
lexed = pl_lex

run : Bytes → Option Bytes
unfolding lexed plsql_transpile rewrite_all rewrite rewrite_token rewrite_word put_line
    application_error application_error_at error_or_word sequence_or_word plain_word need_declare
    pl_emit_raw pl_match_paren match_from find_comma pl_ci pl_type_map pl_word_map first_match
    is_punct_char
run = plsql_transpile ascii_ci

types :
    run (codes "\nn NUMBER;\nBEGIN x := number; END;")
    ≡ some (codes "DECLARE\nn numeric;\nBEGIN x := number; END;")
unfolding run
types = refl

rewritings :
    (run (codes "begin execute immediate 'x'; c := s.nextval; select nvl(a,1) from dual; end")
      ≡ some (codes "begin EXECUTE 'x'; c := nextval('s'); select coalesce(a,1) ; end"))
    × (run (codes "begin DBMS_OUTPUT.put_line((1) || ')'); end")
        ≡ some (codes "begin RAISE NOTICE '%', ((1) || ')'); end"))
    × (run (codes "begin raise_application_error(-20001, f(a, b), true); end")
        ≡ some (codes "begin RAISE EXCEPTION '%', (f(a, b)); end"))
    × (run (codes "declare cursor c is select 1..2; begin null; end -- x")
        ≡ some (codes "declare c CURSOR FOR select 1..2; begin null; end -- x"))
unfolding run
rewritings = (refl, refl, refl, refl)

abbrev plain_body : Bytes
plain_body = codes "n int := 1; BEGIN null; END; -- it's"

plsql_transpile-IsPlain_example :
    plsql_transpile ascii_ci plain_body ≡ some (codes "DECLARE" ++ plain_body)
unfolding lexed run
plsql_transpile-IsPlain_example = plsql_transpile-IsPlain ascii_ci plain_body refl (ground arith)

pl_lex-source_of_example :
    (ts : List PlTok) × (pl_lex (codes "a/*x*/1..2") ≡ some ts)
    × (source_of ts ≡ codes "a/*x*/1..2")
    × Ended ts
pl_lex-source_of_example = pl_lex-source_of (codes "a/*x*/1..2")
