-- ===== src/Go/Types.antt =====
-- The types of Go: `go_base_type`, `go_read_type`, `go_infer_type`. A read of a token behind the last
-- one is a fault.
use plx.Context.{plx_err}
use plx.Prelude.Outcome.{Outcome, done, fault, ◌>>=◌}
use plx.Prelude.{
  ℕ, Bytes, codes, str_eq, length, ltb, Bool, true, false, not, ◌&&◌, ◌||◌, ◌==◌, if◌then◌else◌,
  List, [], ◌∷◌, ◌++◌, Option, none, some,
}
use plx.Go.Token.{
  GoTok, is_eof, is_word, is_num, is_str, is_lp, is_lbrack, is_rbrack, is_dot, go_ci, op_is,
}

abbrev type_table : List (Bytes × Bytes)
type_table =
    (codes "int", codes "integer")
    ∷ (codes "int8", codes "smallint")
    ∷ (codes "int16", codes "smallint")
    ∷ (codes "int32", codes "integer")
    ∷ (codes "int64", codes "bigint")
    ∷ (codes "rune", codes "integer")
    ∷ (codes "uint", codes "bigint")
    ∷ (codes "uint8", codes "smallint")
    ∷ (codes "byte", codes "smallint")
    ∷ (codes "uint16", codes "integer")
    ∷ (codes "uint32", codes "bigint")
    ∷ (codes "uint64", codes "bigint")
    ∷ (codes "float32", codes "real")
    ∷ (codes "float64", codes "double precision")
    ∷ (codes "string", codes "text")
    ∷ (codes "bool", codes "boolean")
    ∷ []

abbrev pub lookup : List (Bytes × Bytes) → Bytes → Option Bytes
lookup [] s = none
lookup ((go, pg) ∷ rest) s = if str_eq go s then some pg else lookup rest s

unfoldable pub go_base_type : Bytes → Option Bytes
go_base_type s = lookup type_table s

-- Pointers are dropped.
unfoldable pub over_stars : List GoTok → Outcome (List GoTok)
over_stars [] = fault
over_stars (t ∷ ts) =
    let rest = over_stars ts in if op_is t (codes "*") then rest else done (t ∷ ts)

-- Behind the `[` of an array: past the `]`, or at the end of the tokens.
unfoldable pub over_length : List GoTok → Outcome (List GoTok)
over_length [] = fault
over_length (t ∷ ts) =
    let rest = over_length ts in
    if is_rbrack t.kind then done ts else if is_eof t.kind then done (t ∷ ts) else rest

-- `time.Time`, from behind `time`: the tokens behind it.
unfoldable pub time_type : GoTok → List GoTok → Outcome (Bytes × List GoTok)
time_type w [] = fault
time_type w (d ∷ []) = if is_dot d.kind && go_ci w (codes "time") then fault else done (w.s, d ∷ [])
time_type w (d ∷ t ∷ ts) =
    if is_dot d.kind && go_ci w (codes "time") && go_ci t (codes "Time")
    then done (codes "timestamp", ts)
    else done (w.s, d ∷ t ∷ ts)

abbrev pub unsupported : GoTok → Bool
unsupported w =
    go_ci w (codes "map")
    || go_ci w (codes "chan")
    || go_ci w (codes "func")
    || go_ci w (codes "interface")
    || go_ci w (codes "struct")

unfoldable pub named_type : List GoTok → Outcome (Bytes × List GoTok)
unfolding time_type
named_type [] = fault
named_type (w ∷ ts) =
    if is_word w.kind
    then (if unsupported w
        then plx_err w.line (codes "map, chan, func, interface, and struct types are not supported")
        else elim (go_base_type w.s) [ some base ↦ done (base, ts) | none ↦ time_type w ts ])
    else plx_err w.line (codes "expected a type name")

unfoldable pub slice_type : List GoTok → Outcome (Bytes × List GoTok)
unfolding over_length named_type
slice_type [] = fault
slice_type (t ∷ ts) =
    if is_lbrack t.kind
    then over_length ts >>= named_type >>= (λ read. done (read.0 ++ codes "[]", read.1))
    else named_type (t ∷ ts)

unfoldable pub go_read_type : List GoTok → Outcome (Bytes × List GoTok)
unfolding over_stars slice_type
go_read_type ts = over_stars ts >>= slice_type

-- The second byte of a number is no `x`.
abbrev no_hex : Bytes → Bool
no_hex (c ∷ d ∷ r) = not (d == b'x')
no_hex _ = true

abbrev has_point : Bool → Bytes → Bool
has_point exponents [] = false
has_point exponents (c ∷ r) =
    c == b'.' || ((c == b'e' || c == b'E') && exponents) || has_point exponents r

unfoldable number_type : Bytes → Bytes
number_type s =
    if has_point (ltb 2 (length s) && no_hex s) s then codes "double precision" else codes "integer"

unfoldable single_type : GoTok → Option Bytes
unfolding number_type
single_type t =
    if is_num t.kind
    then some (number_type t.s)
    else if is_str t.kind
    then some (codes "text")
    else if go_ci t (codes "true") || go_ci t (codes "false")
    then some (codes "boolean")
    else none

-- The type of an initialiser that begins with a call, or none.
unfoldable call_type : GoTok → GoTok → Option Bytes
call_type t u =
    if go_ci t (codes "len") || go_ci t (codes "cap")
    then some (codes "integer")
    else if is_word t.kind && is_lp u.kind
    then go_base_type t.s
    else none

abbrev array_of : Option Bytes → Option Bytes
array_of none = none
array_of (some base) = some (base ++ codes "[]")

-- Behind `[]`.
unfoldable pub array_type : List GoTok → Outcome (Option Bytes)
array_type [] = fault
array_type (w ∷ ts) = done (if is_word w.kind then array_of (go_base_type w.s) else none)

-- `ts` are the tokens from the initialiser on, of which it is the first `n`.
unfoldable pub go_infer_type : ℕ → List GoTok → Outcome (Option Bytes)
unfolding single_type array_type call_type
go_infer_type n [] = fault
go_infer_type n (t ∷ []) =
    if n == 1
    then done (single_type t)
    else if is_lbrack t.kind
    then fault
    else if go_ci t (codes "len") || go_ci t (codes "cap")
    then done (some (codes "integer"))
    else if is_word t.kind
    then fault
    else done none
go_infer_type n (t ∷ u ∷ ts) =
    if n == 1
    then done (single_type t)
    else if is_lbrack t.kind && is_rbrack u.kind
    then array_type ts
    else done (call_type t u)
