-- ===== src/Go/Emit.antt =====
-- `go_emit_range` and `go_emit_call`: the tokens of a range as an expression of plpgsql, behind the
-- text that is there already.
use plx.Assemble.{PlxLocal2}
use plx.Context.{last_byte, local_find}
use plx.Prelude.Outcome.{Outcome, done, cut_short, ◌>>=◌}
use plx.Prelude.{
  ℕ, zero, suc, ◌-◌, Bytes, codes, str_eq, length, drop, ltb, Bool, false, not, ◌&&◌, ◌||◌, ◌==◌,
  if◌then◌else◌, List, [], ◌∷◌, ◌++◌, Option, none, some,
}
use plx.Go.Literal.{go_emit_str}
use plx.Go.Scan.{Inside, go_match, comma_split, Split}
use plx.Go.Token.{
  GoTok, GoKind, go_word, go_num, go_str, go_op, go_lp, go_rp, go_lbrack, go_rbrack, go_comma,
  go_dot, is_word, is_lp, is_rp, is_lbrace, is_lbrack, is_rbrack, is_dot, go_ci,
}
use plx.Go.Types.{go_base_type}

-- A blank where one is needed.
unfoldable pub go_sp : Bytes → Bytes
go_sp out =
    let last = last_byte out in if last == b' ' || last == b'(' then out else out ++ codes " "

-- A range as text behind a text.
abbrev pub Emits : Type 0
Emits = List GoTok → Bytes → Outcome Bytes

-- A range between a head and a tail.
abbrev pub between_texts : Emits → Bytes → List GoTok → Bytes → Outcome Bytes
between_texts emit front range tail = do text ← emit range front; done (text ++ tail)

-- A text in place of a call or a bracket, with the token that closes it and those behind.
abbrev pub Emitted : Type 0
Emitted = Option (Outcome Bytes × GoTok × List GoTok)

abbrev pub call_table : List (Bytes × Bytes × Bytes)
call_table =
    (codes "strings", codes "ToUpper", codes "upper")
    ∷ (codes "strings", codes "ToLower", codes "lower")
    ∷ (codes "strings", codes "TrimSpace", codes "btrim")
    ∷ (codes "strings", codes "ReplaceAll", codes "replace")
    ∷ (codes "math", codes "Abs", codes "abs")
    ∷ (codes "math", codes "Floor", codes "floor")
    ∷ (codes "math", codes "Ceil", codes "ceil")
    ∷ (codes "math", codes "Sqrt", codes "sqrt")
    ∷ (codes "math", codes "Pow", codes "power")
    ∷ (codes "math", codes "Max", codes "greatest")
    ∷ (codes "math", codes "Min", codes "least")
    ∷ (codes "math", codes "Mod", codes "mod")
    ∷ (codes "time", codes "Now", codes "now")
    ∷ (codes "fmt", codes "Sprintf", codes "format")
    ∷ []

abbrev pub called : List (Bytes × Bytes × Bytes) → Bytes → Bytes → Option Bytes
called [] pkg meth = none
called ((p, m, pg) ∷ rest) pkg meth =
    if str_eq p pkg && str_eq m meth then some pg else called rest pkg meth

abbrev pub emit_contains : Emits → Bytes → Option Split → Option (Outcome Bytes)
emit_contains emit out none = none
emit_contains emit out (some (a, b)) = some do
  first ← emit a (go_sp out ++ codes "(strpos(")
  second ← emit b (first ++ codes ",")
  done (second ++ codes ") > 0)")

-- `pkg.Meth(...)`
unfoldable pub qualified_call : Emits → GoTok → GoTok → Bytes → List GoTok → Option (Outcome Bytes)
unfolding go_sp
qualified_call emit pkg meth out inside =
    if str_eq pkg.s (codes "strconv") && str_eq meth.s (codes "Itoa")
    then some (between_texts emit (go_sp out ++ codes "(") inside (codes ")::text"))
    else if str_eq pkg.s (codes "strconv") && str_eq meth.s (codes "Atoi")
    then some (between_texts emit (go_sp out ++ codes "(") inside (codes ")::integer"))
    else elim (called call_table pkg.s meth.s) [
      | some pg ↦ some (between_texts emit (go_sp out ++ (pg ++ codes "(")) inside (codes ")"))
      | none ↦
          if go_ci pkg (codes "strings") && go_ci meth (codes "Contains")
          then emit_contains emit out (comma_split inside)
          else none
    ]

-- Behind the package: the method, and the tokens from its bracket on.
abbrev pub qualified : List GoTok → Option (GoTok × List GoTok)
qualified (d ∷ m ∷ p ∷ ts) =
    if is_dot d.kind && is_word m.kind && is_lp p.kind then some (m, p ∷ ts) else none
qualified _ = none

-- What stands inside `(`, if that is what stands here.
abbrev pub in_parens : List GoTok → Option Inside
in_parens [] = none
in_parens (t ∷ ts) = if is_lp t.kind then go_match (t ∷ ts) else none

-- `strcmp(typ + strlen(typ) - 2, "[]")`, of a type of more than two bytes.
abbrev pub is_array : Option Bytes → Bool
is_array none = false
is_array (some typ) = ltb 2 (length typ) && str_eq (drop (length typ - 2) typ) (codes "[]")

-- The type of a local of that name.
abbrev pub type_of : Option PlxLocal2 → Option Bytes
type_of none = none
type_of (some l) = l.typ

-- With the call's own bracket, whose tokens are `inside`.
abbrev pub in_bracket : (List GoTok → Option (Outcome Bytes)) → Option Inside → Emitted
in_bracket call none = none
in_bracket call (some (inside, close, rest)) = elim (call inside) [
  | none ↦ none
  | some o ↦ some (o, close, rest)
]

-- Behind `[`: the tokens from the `{` of an array literal on.
abbrev pub literal_at : GoTok → List GoTok → Option (List GoTok)
literal_at t (r ∷ w ∷ b ∷ ts) =
    if is_lbrack t.kind && is_rbrack r.kind && is_word w.kind && is_lbrace b.kind
    then some (b ∷ ts)
    else none
literal_at t _ = none

-- A token behind which `[` is a subscript.
abbrev pub has_subscript : Option GoTok → Bool
has_subscript none = false
has_subscript (some t) = is_word t.kind || is_rp t.kind || is_rbrack t.kind

abbrev pub not_rbrack : List GoTok → Bool
not_rbrack [] = false
not_rbrack (t ∷ ts) = not (is_rbrack t.kind)

-- An operator by itself.
unfoldable pub emit_op : GoTok → Bytes
emit_op t =
    if str_eq t.s (codes "==")
    then codes "="
    else if str_eq t.s (codes "!=")
    then codes "<>"
    else if str_eq t.s (codes "&&")
    then codes "AND"
    else if str_eq t.s (codes "||")
    then codes "OR"
    else if str_eq t.s (codes "!")
    then codes "NOT "
    else t.s

-- A token by itself.
unfoldable pub emit_token : GoKind → GoTok → Bytes → Bytes
unfolding go_sp go_emit_str emit_op
emit_token go_word t out = go_sp out ++ (if go_ci t (codes "nil") then codes "NULL" else t.s)
emit_token go_num t out = go_sp out ++ t.s
emit_token go_str t out = go_sp out ++ go_emit_str t.s
emit_token go_lp t out = go_sp out ++ codes "("
emit_token go_rp t out = out ++ codes ")"
emit_token go_lbrack t out = out ++ codes "["
emit_token go_rbrack t out = out ++ codes "]"
emit_token go_comma t out = out ++ codes ","
emit_token go_dot t out = out ++ codes "."
emit_token go_op t out = go_sp out ++ emit_op t
emit_token _ t out = out

module _ (ci : Bytes → Bytes → Bool) (locals : List PlxLocal2) where
  -- Whether the argument of `len` is a local that holds a slice.
  abbrev pub counts_slice : List GoTok → Bool
  counts_slice (w ∷ []) = is_word w.kind && is_array (type_of (local_find ci locals w.s))
  counts_slice _ = false

  -- `word(...)`
  unfoldable pub plain_call : Emits → GoTok → Bytes → List GoTok → Option (Outcome Bytes)
  unfolding go_sp
  plain_call emit t out inside = elim (go_base_type t.s) [
    | some conv ↦ some (between_texts emit (go_sp out ++ codes "(") inside (codes ")::" ++ conv))
    | none ↦
        if go_ci t (codes "len")
        then (if counts_slice inside
            then some (
                between_texts emit (go_sp out ++ codes "coalesce(cardinality(") inside
                  (codes "), 0)"))
            else some (between_texts emit (go_sp out ++ codes "length(") inside (codes ")")))
        else if go_ci t (codes "append")
        then some (between_texts emit (go_sp out ++ codes "array_append(") inside (codes ")"))
        else none
  ]

  -- At a word, with the tokens behind it.
  unfoldable pub go_emit_call : Emits → GoTok → List GoTok → Bytes → Emitted
  unfolding qualified_call plain_call go_match
  go_emit_call emit t ts out = elim (qualified ts) [
    | some q ↦ in_bracket (qualified_call emit t q.0 out) (go_match q.1)
    | none ↦ in_bracket (plain_call emit t out) (in_parens ts)
  ]

  -- A call, an array literal or a subscript. `prev` is the token in front in the range.
  unfoldable pub emit_special : Emits → Option GoTok → GoTok → List GoTok → Bytes → Emitted
  unfolding go_sp go_emit_call
  emit_special emit prev t ts out =
      if is_word t.kind then go_emit_call emit t ts out else elim (literal_at t ts) [
        | some us ↦
            in_bracket
              (λ inside. some (between_texts emit (go_sp out ++ codes "ARRAY[") inside (codes "]")))
              (go_match us)
        | none ↦
            if is_lbrack t.kind && has_subscript prev && not_rbrack ts
            then in_bracket
                (λ inside. some (between_texts emit (out ++ codes "[(") inside (codes ") + 1]")))
                (go_match (t ∷ ts))
            else none
      ]

  -- On fuel, which the length of the range bounds.
  unfoldable pub emit_on : ℕ → Option GoTok → Emits
  unfolding emit_special emit_token
  emit_on zero prev ts out = cut_short
  emit_on (suc fuel) prev [] out = done out
  emit_on (suc fuel) prev (t ∷ ts) out = elim (emit_special (emit_on fuel none) prev t ts out) [
    | some p ↦ p.0 >>= emit_on fuel (some p.1) p.2
    | none ↦ emit_on fuel (some t) ts (emit_token t.kind t out)
  ]

  unfoldable pub go_emit_range : Emits
  unfolding emit_on
  go_emit_range ts out = emit_on (suc (length ts)) none ts out
