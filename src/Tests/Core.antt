-- ===== src/Tests/Core.antt =====
-- The registry, the keyword tables, the assembly and the handlers.
use mathlib.Core.Path.{subst}
use plx.Assemble.Recover.{recover}
use plx.Assemble.{
  plx_has_sentinel, header, trailer, assemble, declare_section, djb2, djb2_from, hex8,
}
use plx.Base64.RoundTrip.{decode, decode-encode}
use plx.Base64.{encode, digit}
use plx.Builtin.Laws.{languages, pg_init_lem}
use plx.Builtin.{pg_init, plx_ruby_dialect, plx_php_dialect}
use plx.Dialect.{PlxDialect}
use plx.Handler.Laws.{Stored, Handed, validator-Stored, validator_idem, inline_handler-Stored}
use plx.Handler.{
  ProcRow, Catalog, plx_generic_validator, validate_found, validate_row, InlineCodeBlock, Languages,
  plx_generic_inline_handler,
}
use plx.Prelude.Result.{Result, ok}
use plx.Prelude.{
  List, ℕ, ◌+◌, ◌*◌, ◌↔◌, ◌≢◌, ◌==◌, Bytes, codes, IsBytes, str_eq, if◌then◌else◌, Bool, true,
  false, [], ◌∷◌, none, some, ◌≡◌, refl, inl, arith,
}
use plx.Registry.Laws.{IsValid, or_else, plx_register_dialect-IsValid, lookup-register}
use plx.Registry.{Registry, plx_lookup_dialect, plx_register_dialect, is_registered}
use plx.Surface.Defs.{kw_if, kw_lookup}
use plx.Surface.Keywords.{Listed, kw_lookup_iff}
use plx.Surface.Ruby.{ruby_surface}
use plx.Tests.{ascii_ci}
use plx.Surface.Plsql.{plsql_surface}
use plx.Lexer.Rounds.{lex_round}
use plx.Lexer.Scan.{drop_while, word_rest, word_token, number_rest}
use plx.Lexer.Token.{Tok, suppress_newline}
use plx.Lexer.{lex, lex_from}
use plx.Ternary.{string_rest}
use plx.Ts.Scan.{is_ident, is_ident_start}
use plx.Transpile.Stored.{plx_transpile-Keeps, plx_transpile_plsql}
use plx.Transpile.{FrontEnds, plx_transpile, transpile_by}

-- The body from the first token on.
abbrev from_first : List Tok → Bytes
from_first [] = []
from_first (t ∷ ts) = t.s

-- Front ends that declare nothing and emit the body itself.
abbrev echo : FrontEnds
echo = record {
  statements = λ surf meta toks. ok ([], from_first toks);
  cobol_transpile = λ meta body. ok ([], body);
  undefined = λ body. ok ([], body);
  ci = ascii_ci;
}

abbrev body : Bytes
body = codes "x = 1\n"

stored_now : Result Bytes
unfolding plx_transpile transpile_by assemble header trailer declare_section djb2 djb2_from hex8
    encode digit lex lex_from lex_round word_rest word_token number_rest suppress_newline kw_lookup
    string_rest is_ident is_ident_start drop_while
stored_now = plx_transpile echo body none ruby_surface

hashes : djb2 (codes "ab") ≡ (5381 * 33 + 97) * 33 + 98
unfolding djb2 djb2_from
hashes = refl

abbrev stored : Bytes
stored =
    codes "/*plx:v1:plxruby:222f21f5*/\nBEGIN\nx = 1\nEND;\n/*plx-orig:b64$eCA9IDEK$plx-orig*/\n"

plx_transpile-Keeps_example : (plx_has_sentinel stored ≡ true) × (recover stored ≡ body)
unfolding stored_now
plx_transpile-Keeps_example = plx_transpile-Keeps echo body none ruby_surface (omega arith) refl

plx_transpile_plsql_example :
    (out : Bytes) × (plx_transpile echo (codes "n int; begin n := 1; end") none plsql_surface
      ≡ ok out)
    × (plx_has_sentinel out ≡ true)
    × (recover out ≡ codes "n int; begin n := 1; end")
plx_transpile_plsql_example =
    plx_transpile_plsql echo (codes "n int; begin n := 1; end") none plsql_surface (omega arith)
      refl

decode-encode_example : decode (encode body) ≡ body
decode-encode_example = decode-encode body (omega arith)

abbrev ruby : PlxDialect
ruby = plx_ruby_dialect echo

plx_register_dialect-IsValid_example : IsValid (ruby ∷ [])
unfolding plx_register_dialect is_registered
plx_register_dialect-IsValid_example =
    plx_register_dialect-IsValid ruby []
      (record { distinct = tt; same_abi = tt; in_bounds = omega arith }) refl

lookup-register_example :
    plx_lookup_dialect (plx_php_dialect echo ∷ ruby ∷ []) (codes "plxruby") ≡ (
      if is_registered (plx_php_dialect echo ∷ []) (codes "plxruby")
      then plx_lookup_dialect (plx_php_dialect echo ∷ []) (codes "plxruby")
      else if str_eq (codes "plxruby") (codes "plxruby")
      then some ruby
      else none)
unfolding plx_register_dialect is_registered
lookup-register_example = lookup-register ruby (plx_php_dialect echo ∷ []) (codes "plxruby") refl

pg_init_lem_example :
    (reg : Registry) × (pg_init echo [] ≡ ok reg)
    × (pg_init echo reg ≡ ok reg)
    × ((n : Bytes)
        → plx_lookup_dialect reg n
          ≡ or_else (plx_lookup_dialect [] n) (plx_lookup_dialect (languages echo) n))
pg_init_lem_example = pg_init_lem echo [] (omega arith)

kw_lookup_iff_example :
    (kw_lookup ruby_surface (codes "if") ≡ kw_if) ↔ Listed (codes "if") kw_if ruby_surface.kws
kw_lookup_iff_example = kw_lookup_iff ruby_surface (codes "if") kw_if (inl refl) (λ e. cc)

abbrev row : ProcRow
row = record {
  prosrc = some body;
  prorettype = 23;
  proretset = false;
  prokind = b'f';
  argtypes = [];
  argnames = [];
  argmodes = none;
}

abbrev catalog : Catalog
catalog oid = if oid == 7 then some row else none

abbrev allow : ℕ → Bool
allow oid = true

abbrev after : Catalog
after oid = if oid == 7 then some (record row { prosrc = some stored }) else catalog oid

validator-Stored_example :
    (out : Bytes) × (after 7 ≡ some (record row { prosrc = some out }))
    × Stored body out
    × ((j : ℕ) → j ≢ 7 → after j ≡ catalog j)
unfolding stored_now plx_generic_validator validate_found validate_row plx_has_sentinel
validator-Stored_example =
    validator-Stored echo ruby ruby_surface (λ src meta. refl) allow catalog 7 row body
      (omega arith) refl refl refl refl

body_bytes : (r : ProcRow) (src : Bytes) → catalog 7 ≡ some r → r.prosrc ≡ some src → IsBytes src
body_bytes r src at has = let same : body ≡ src = ground arith in subst IsBytes same (omega arith)

validator_idem_example : plx_generic_validator allow ruby after 7 ≡ ok after
unfolding stored_now plx_generic_validator validate_found validate_row plx_has_sentinel
validator_idem_example =
    validator_idem echo ruby ruby_surface (λ src meta. refl) allow catalog 7 body_bytes refl

abbrev block : InlineCodeBlock
block = record { source_text = body; lang_oid = 1; lang_is_trusted = true; atomic = false }

abbrev langs : Languages
langs = record { plpgsql_oid = ok 5; laninline = λ oid. some 9 }

inline_handler-Stored_example :
    Handed langs block
      (9, record { source_text = stored; lang_oid = 5; lang_is_trusted = true; atomic = false })
unfolding stored_now plx_generic_inline_handler
inline_handler-Stored_example =
    inline_handler-Stored echo ruby ruby_surface (λ src meta. refl) langs block (omega arith) refl
