-- ===== src/Go/Expr.antt =====
-- Expressions of Go as a grammar: their tokens, and the text of plpgsql that each stands for. The
-- grammar describes what `go_emit_range` of src/plx_transpile.c is to do, by itself.
pub mod Balanced
pub mod Runs
pub mod Laws
use plx.Go.Emit.{go_sp}
use plx.Go.Literal.{go_emit_str}
use plx.Go.Token.{GoTok, GoKind, go_word, go_num, go_str, go_op, go_lp, go_rp, go_comma, go_dot}
use plx.Prelude.{Bytes, codes, str_eq, false, List, [], ◌∷◌, ◌++◌, ◌≡◌}

pub data BinaryOp : Type 0 where
  equal not_equal both either less at_most greater at_least plus minus times by modulo : BinaryOp

-- Functions of one argument, and of two.
pub data UnaryFn : Type 0 where
  to_upper to_lower trim_space abs floor ceil sqrt itoa atoi : UnaryFn

pub data BinaryFn : Type 0 where
  pow max min mod_of : BinaryFn

pub data Conversion : Type 0 where
  to_int to_int64 to_float64 to_string to_bool : Conversion

-- A string is the text of its literal.
pub data Expr : Type 0 where
  name number string : Bytes → Expr
  nil : Expr
  negated grouped : Expr → Expr
  binary : BinaryOp → Expr → Expr → Expr
  call : UnaryFn → Expr → Expr
  call_two : BinaryFn → Expr → Expr → Expr
  converted : Conversion → Expr → Expr

abbrev pub op_of : BinaryOp → Bytes
op_of equal = codes "=="
op_of not_equal = codes "!="
op_of both = codes "&&"
op_of either = codes "||"
op_of less = codes "<"
op_of at_most = codes "<="
op_of greater = codes ">"
op_of at_least = codes ">="
op_of plus = codes "+"
op_of minus = codes "-"
op_of times = codes "*"
op_of by = codes "/"
op_of modulo = codes "%"

abbrev pub sql_op : BinaryOp → Bytes
sql_op equal = codes "="
sql_op not_equal = codes "<>"
sql_op both = codes "AND"
sql_op either = codes "OR"
sql_op op = op_of op

abbrev pub fn_of : UnaryFn → Bytes × Bytes
fn_of to_upper = (codes "strings", codes "ToUpper")
fn_of to_lower = (codes "strings", codes "ToLower")
fn_of trim_space = (codes "strings", codes "TrimSpace")
fn_of abs = (codes "math", codes "Abs")
fn_of floor = (codes "math", codes "Floor")
fn_of ceil = (codes "math", codes "Ceil")
fn_of sqrt = (codes "math", codes "Sqrt")
fn_of itoa = (codes "strconv", codes "Itoa")
fn_of atoi = (codes "strconv", codes "Atoi")

-- What stands in front of the argument, and behind it.
abbrev pub sql_fn : UnaryFn → Bytes × Bytes
sql_fn to_upper = (codes "upper(", codes ")")
sql_fn to_lower = (codes "lower(", codes ")")
sql_fn trim_space = (codes "btrim(", codes ")")
sql_fn abs = (codes "abs(", codes ")")
sql_fn floor = (codes "floor(", codes ")")
sql_fn ceil = (codes "ceil(", codes ")")
sql_fn sqrt = (codes "sqrt(", codes ")")
sql_fn itoa = (codes "(", codes ")::text")
sql_fn atoi = (codes "(", codes ")::integer")

abbrev pub method_of : BinaryFn → Bytes
method_of pow = codes "Pow"
method_of max = codes "Max"
method_of min = codes "Min"
method_of mod_of = codes "Mod"

abbrev pub sql_method : BinaryFn → Bytes
sql_method pow = codes "power("
sql_method max = codes "greatest("
sql_method min = codes "least("
sql_method mod_of = codes "mod("

abbrev pub type_of : Conversion → Bytes
type_of to_int = codes "int"
type_of to_int64 = codes "int64"
type_of to_float64 = codes "float64"
type_of to_string = codes "string"
type_of to_bool = codes "bool"

abbrev pub sql_type : Conversion → Bytes
sql_type to_int = codes "integer"
sql_type to_int64 = codes "bigint"
sql_type to_float64 = codes "double precision"
sql_type to_string = codes "text"
sql_type to_bool = codes "boolean"

abbrev pub tok : GoKind → Bytes → GoTok
tok kind s = record { kind = kind; s = s; line = 1 }

abbrev pub in_brackets : List GoTok → List GoTok
in_brackets ts = tok go_lp (codes "(") ∷ (ts ++ tok go_rp (codes ")") ∷ [])

-- `pkg.meth(…)`
abbrev pub method_call : Bytes → Bytes → List GoTok → List GoTok
method_call pkg meth ts =
    tok go_word pkg ∷ tok go_dot (codes ".") ∷ tok go_word meth ∷ in_brackets ts

abbrev pub tokens : Expr → List GoTok
tokens (name w) = tok go_word w ∷ []
tokens (number s) = tok go_num s ∷ []
tokens (string s) = tok go_str s ∷ []
tokens nil = tok go_word (codes "nil") ∷ []
tokens (negated e) = tok go_op (codes "!") ∷ tokens e
tokens (grouped e) = in_brackets (tokens e)
tokens (binary op e f) = tokens e ++ tok go_op (op_of op) ∷ tokens f
tokens (call fn e) = let (pkg, meth) = fn_of fn in method_call pkg meth (tokens e)
tokens (call_two fn e f) =
    method_call (codes "math") (method_of fn) (tokens e ++ tok go_comma (codes ",") ∷ tokens f)
tokens (converted type e) = tok go_word (type_of type) ∷ in_brackets (tokens e)

-- The text of an expression behind a text; `go_sp` is the blank between two of them.
abbrev pub sql : Expr → Bytes → Bytes
sql (name w) out = go_sp out ++ w
sql (number s) out = go_sp out ++ s
sql (string s) out = go_sp out ++ go_emit_str s
sql nil out = go_sp out ++ codes "NULL"
sql (negated e) out = sql e (go_sp out ++ codes "NOT ")
sql (grouped e) out = sql e (go_sp out ++ codes "(") ++ codes ")"
sql (binary op e f) out = sql f (go_sp (sql e out) ++ sql_op op)
sql (call fn e) out = let (front, tail) = sql_fn fn in sql e (go_sp out ++ front) ++ tail
sql (call_two fn e f) out = sql f (sql e (go_sp out ++ sql_method fn) ++ codes ",") ++ codes ")"
sql (converted type e) out = sql e (go_sp out ++ codes "(") ++ (codes ")::" ++ sql_type type)

-- No name of a variable is `nil`.
abbrev pub IsExpr : Expr → Type 0
IsExpr (name w) = str_eq w (codes "nil") ≡ false
IsExpr (number s) = Unit
IsExpr (string s) = Unit
IsExpr nil = Unit
IsExpr (negated e) = IsExpr e
IsExpr (grouped e) = IsExpr e
IsExpr (binary op e f) = IsExpr e × IsExpr f
IsExpr (call fn e) = IsExpr e
IsExpr (call_two fn e f) = IsExpr e × IsExpr f
IsExpr (converted type e) = IsExpr e
