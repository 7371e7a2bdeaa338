-- ===== src/Lexer/Token.antt =====
-- `TokKind` and `Tok` of src/plx_transpile.c, and the tests on a token. The pointer `s` into the
-- body is the list of the bytes from it on, of which a token spans the first `len`.
use plx.Prelude.{ℕ, ◌-◌, Bytes, str_eq, length, take, Bool, true, false, ◌&&◌, Option, none, some}
use plx.Surface.Defs.{Kw, kw_none, kw_and, kw_or, kw_not}

pub data TokKind : Type 0 where
  t_eof t_newline t_semi t_ident t_kw t_int t_float t_string : TokKind
  t_op t_lparen t_rparen t_lbracket t_rbracket t_lbrace t_rbrace : TokKind
  t_pipe t_comma t_dot t_typeann t_indent t_dedent t_error : TokKind

pub record Tok : Type 0 where
  pub kind : TokKind
  pub kw : Kw
  pub s : Bytes
  pub len : ℕ
  pub line : ℕ
  -- a string in single quotes, one of Python's `f`, and the quote; 0 is none
  pub sq : Bool
  pub fstr : Bool
  pub quote : ℕ
  -- the type of an annotation, where `s` is NULL
  pub ann : Option Bytes

-- `PUSH`: what stands between `start` and `rest`.
abbrev pub token : TokKind → ℕ → Bytes → Bytes → Tok
token kind line start rest = record {
  kind = kind;
  kw = kw_none;
  s = start;
  len = length start - length rest;
  line = line;
  sq = false;
  fstr = false;
  quote = 0;
  ann = none;
}

-- The bytes that a token spans.
abbrev pub text_of : Tok → Bytes
text_of t = take t.len t.s

abbrev pub is_op : TokKind → Bool
is_op t_op = true
is_op _ = false

-- `tk->kind == T_OP && strlen(op) == tk->len && strncmp(tk->s, op, tk->len) == 0`
unfoldable pub tok_is : Tok → Bytes → Bool
tok_is t op = is_op t.kind && str_eq (text_of t) op

unfoldable pub name_eq : Tok → Bytes → Bool
name_eq t w = str_eq (text_of t) w

abbrev continues_line : Kw → Bool
continues_line kw_and = true
continues_line kw_or = true
continues_line kw_not = true
continues_line _ = false

-- After such a token the line goes on.
unfoldable pub continues : TokKind → Kw → Bool
continues t_op k = true
continues t_comma k = true
continues t_dot k = true
continues t_lparen k = true
continues t_lbracket k = true
continues t_lbrace k = true
continues t_kw k = continues_line k
continues _ k = false

-- `none` is the begin of the body.
unfoldable pub suppress_newline : Option Tok → Bool
unfolding continues
suppress_newline none = true
suppress_newline (some t) = continues t.kind t.kw
