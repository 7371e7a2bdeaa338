-- ===== src/Go/Token.antt =====
-- `GoKind`, `GoTok` and the tests on a token of the Go front end. A token's pointer and length are
-- the bytes that they span.
use plx.Prelude.{ℕ, Bytes, codes, str_eq, Bool, true, false, ◌&&◌, ◌||◌}

pub data GoKind : Type 0 where
  go_eof go_word go_num go_str go_op go_lp go_rp : GoKind
  go_lbrace go_rbrace go_lbrack go_rbrack go_comma go_semi go_dot : GoKind

pub record GoTok : Type 0 where
  pub kind : GoKind
  pub s : Bytes
  pub line : ℕ

abbrev pub is_eof : GoKind → Bool
is_eof go_eof = true
is_eof _ = false

abbrev pub is_word : GoKind → Bool
is_word go_word = true
is_word _ = false

abbrev pub is_num : GoKind → Bool
is_num go_num = true
is_num _ = false

abbrev pub is_str : GoKind → Bool
is_str go_str = true
is_str _ = false

abbrev pub is_op : GoKind → Bool
is_op go_op = true
is_op _ = false

abbrev pub is_lp : GoKind → Bool
is_lp go_lp = true
is_lp _ = false

abbrev pub is_rp : GoKind → Bool
is_rp go_rp = true
is_rp _ = false

abbrev pub is_lbrace : GoKind → Bool
is_lbrace go_lbrace = true
is_lbrace _ = false

abbrev pub is_rbrace : GoKind → Bool
is_rbrace go_rbrace = true
is_rbrace _ = false

abbrev pub is_lbrack : GoKind → Bool
is_lbrack go_lbrack = true
is_lbrack _ = false

abbrev pub is_rbrack : GoKind → Bool
is_rbrack go_rbrack = true
is_rbrack _ = false

abbrev pub is_comma : GoKind → Bool
is_comma go_comma = true
is_comma _ = false

abbrev pub is_semi : GoKind → Bool
is_semi go_semi = true
is_semi _ = false

abbrev pub is_dot : GoKind → Bool
is_dot go_dot = true
is_dot _ = false

-- A word of the language; case matters.
abbrev pub go_ci : GoTok → Bytes → Bool
go_ci t w = is_word t.kind && str_eq t.s w

-- An operator.
abbrev pub op_is : GoTok → Bytes → Bool
op_is t w = is_op t.kind && str_eq t.s w

-- `++` and `--`
abbrev pub is_step : GoTok → Bool
is_step t = op_is t (codes "++") || op_is t (codes "--")

-- A token behind which a line break is a semicolon.
unfoldable pub go_asi_kind : GoTok → Bool
go_asi_kind t = elim t.kind [
  | go_word ↦ true
  | go_num ↦ true
  | go_str ↦ true
  | go_rp ↦ true
  | go_rbrack ↦ true
  | go_rbrace ↦ true
  | go_op ↦ is_step t
  | _ ↦ false
]

-- The brackets that a scan counts: all three, all but braces, or parentheses alone.
pub data Nesting : Type 0 where
  all_brackets no_braces parens : Nesting

abbrev pub opens : Nesting → GoKind → Bool
opens all_brackets k = is_lp k || is_lbrace k || is_lbrack k
opens no_braces k = is_lp k || is_lbrack k
opens parens k = is_lp k

abbrev pub closes : Nesting → GoKind → Bool
closes all_brackets k = is_rp k || is_rbrace k || is_rbrack k
closes no_braces k = is_rp k || is_rbrack k
closes parens k = is_rp k
