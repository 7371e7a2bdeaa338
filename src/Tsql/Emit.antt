-- ===== src/Tsql/Emit.antt =====
-- `tq_emit_range` and `tq_emit_call`: the tokens of a range as an expression of plpgsql, behind the
-- text that is there already.
use plx.Context.{plx_err, last_byte}
use plx.Prelude.Outcome.{Outcome, done, cut_short, ◌>>=◌}
use plx.Prelude.{
  ℕ, zero, suc, ◌-◌, Bytes, codes, str_eq, length, Bool, true, false, ◌&&◌, ◌||◌, ◌==◌, ltb,
  if◌then◌else◌, List, [], ◌∷◌, ◌++◌, Option, none, some,
}
use plx.Prelude.Int.{ℤ, pos, increment, decrement, is_zero}
use plx.Tsql.Token.{
  TqTok, TqKind, tq_word, tq_var, tq_gvar, tq_num, tq_str, tq_op, tq_lp, tq_rp, tq_comma, tq_dot,
  is_word, is_lp, is_rp, is_comma, tq_ident, same_word, tq_ci,
}
use plx.Tsql.Types.{tq_type_from_range}

-- A blank where one is needed.
unfoldable pub tq_sp : Bytes → Bytes
tq_sp out =
    let last = last_byte out in
    if last == b' ' || last == b'(' || last == b'.' then out else out ++ codes " "

-- A token in front of the tokens inside brackets.
abbrev pub before : TqTok → Option (List TqTok × List TqTok) → Option (List TqTok × List TqTok)
before t none = none
before t (some (inside, rest)) = some (t ∷ inside, rest)

-- Inside `depth` brackets more: the tokens up to the `)`, and those behind it; `none` is no match
-- in the range.
unfoldable pub inside_lp : ℕ → List TqTok → Option (List TqTok × List TqTok)
inside_lp depth [] = none
inside_lp depth (t ∷ ts) =
    let deeper = before t (inside_lp (suc depth) ts) in
    let upper = before t (inside_lp (depth - 1) ts) in
    let same = before t (inside_lp depth ts) in
    if is_lp t.kind
    then deeper
    else if is_rp t.kind
    then (if depth == 0 then some ([], ts) else upper)
    else same

-- `tq_match_lp`, where a `(` stands.
unfoldable pub tq_match_lp : List TqTok → Option (List TqTok × List TqTok)
unfolding inside_lp
tq_match_lp [] = none
tq_match_lp (t ∷ ts) = if is_lp t.kind then inside_lp 0 ts else none

abbrev pub depth_behind : TqTok → ℤ → ℤ
depth_behind t depth =
    if is_lp t.kind then increment depth else if is_rp t.kind then decrement depth else depth

abbrev pub first_with : TqTok → List (List TqTok) → List (List TqTok)
first_with t [] = []
first_with t (arg ∷ args) = (t ∷ arg) ∷ args

-- The arguments, split at the first `n` commas outside brackets.
unfoldable pub split_args : ℕ → ℤ → List TqTok → List (List TqTok)
split_args n depth [] = [] ∷ []
split_args n depth (t ∷ ts) =
    let split = [] ∷ split_args (n - 1) depth ts in
    let more = first_with t (split_args n (depth_behind t depth) ts) in
    if is_comma t.kind && is_zero depth && ltb 0 n then split else more

-- A range as text behind a text.
abbrev pub Emits : Type 0
Emits = List TqTok → Bytes → Outcome Bytes

-- CONVERT(type, expr [, style])
unfoldable pub emit_convert :
    (Bytes → Bytes → Bool) → Emits → Bytes → List (List TqTok) → Option (Outcome Bytes)
emit_convert ci emit out [] = none
emit_convert ci emit out (type ∷ []) = none
emit_convert ci emit out (type ∷ expr ∷ _) = some do
  text ← emit expr (tq_sp out ++ codes "CAST(")
  done (text ++ (codes " AS " ++ (tq_type_from_range ci type ++ codes ")")))

-- IIF(cond, a, b)
unfoldable pub emit_iif : Emits → Bytes → List (List TqTok) → Option (Outcome Bytes)
emit_iif emit out (cond ∷ a ∷ b ∷ _) = some do
  when ← emit cond (tq_sp out ++ codes "CASE WHEN")
  then_text ← emit a (when ++ codes " THEN")
  else_text ← emit b (then_text ++ codes " ELSE")
  done (else_text ++ codes " END")
emit_iif emit out _ = none

-- CHARINDEX(sub, str)
unfoldable pub emit_charindex : Emits → Bytes → List (List TqTok) → Option (Outcome Bytes)
emit_charindex emit out (sub ∷ str ∷ _) = some do
  first ← emit str (tq_sp out ++ codes "strpos(")
  second ← emit sub (first ++ codes ",")
  done (second ++ codes ")")
emit_charindex emit out _ = none

abbrev pub rename_table : List (Bytes × Bytes)
rename_table =
    (codes "isnull", codes "coalesce")
    ∷ (codes "len", codes "length")
    ∷ (codes "datalength", codes "octet_length")
    ∷ (codes "getdate", codes "now")
    ∷ (codes "sysdatetime", codes "now")
    ∷ (codes "getutcdate", codes "now")
    ∷ (codes "newid", codes "gen_random_uuid")
    ∷ (codes "ceiling", codes "ceil")
    ∷ []

module _ (ci : Bytes → Bytes → Bool) where
  abbrev pub renamed : List (Bytes × Bytes) → TqTok → Option Bytes
  renamed [] t = none
  renamed ((tsql, pg) ∷ rest) t = if tq_ci ci t tsql then some pg else renamed rest t

  -- A function of another name with the same arguments.
  unfoldable pub emit_renamed : Emits → Bytes → TqTok → List TqTok → Option (Outcome Bytes)
  emit_renamed emit out t inside = elim (renamed rename_table t) [
    | none ↦ none
    | some pg ↦
        some do text ← emit inside (tq_sp out ++ (pg ++ codes "(")); done (text ++ codes ")")
  ]

  abbrev pub no_tokens : List TqTok → Bool
  no_tokens [] = true
  no_tokens (t ∷ ts) = false

  -- A call of `t` with what is inside its brackets; `none` is a call that is written as it is.
  unfoldable pub tq_emit_call : Emits → TqTok → List TqTok → Bytes → Option (Outcome Bytes)
  unfolding emit_convert emit_iif emit_charindex emit_renamed
  tq_emit_call emit t inside out =
      if tq_ci ci t (codes "CONVERT")
      then emit_convert ci emit out (split_args 2 (pos 0) inside)
      else if tq_ci ci t (codes "IIF")
      then emit_iif emit out (split_args 2 (pos 0) inside)
      else if tq_ci ci t (codes "ERROR_MESSAGE") && no_tokens inside
      then some (done (tq_sp out ++ codes "SQLERRM"))
      else if tq_ci ci t (codes "charindex")
      then emit_charindex emit out (split_args 1 (pos 0) inside)
      else emit_renamed emit out t inside

  -- The call that stands here, with the tokens behind it.
  unfoldable pub call_at : Emits → TqTok → List TqTok → Bytes → Option (Outcome Bytes × List TqTok)
  unfolding tq_emit_call
  call_at emit t ts out =
      if is_word t.kind
      then elim (tq_match_lp ts) [
        | none ↦ none
        | some p ↦ elim (tq_emit_call emit t p.0 out) [ none ↦ none | some o ↦ some (o, p.1) ]
      ]
      else none

  -- A token by itself.
  unfoldable pub emit_token : TqKind → TqTok → Bytes → Outcome Bytes
  unfolding tq_sp
  emit_token tq_var t out = done (tq_sp out ++ tq_ident t.s)
  emit_token tq_gvar t out =
      if same_word ci t.s (codes "IDENTITY")
      then done (tq_sp out ++ codes "lastval()")
      else plx_err t.line
          (codes "the T-SQL global variable @@" ++ (t.s ++ codes " is not supported"))
  emit_token tq_word t out =
      if tq_ci ci t (codes "GETDATE") || tq_ci ci t (codes "SYSDATETIME")
      then done (tq_sp out ++ codes "now()")
      else done (tq_sp out ++ t.s)
  emit_token tq_num t out = done (tq_sp out ++ t.s)
  emit_token tq_str t out = done (tq_sp out ++ t.s)
  emit_token tq_lp t out = done (tq_sp out ++ codes "(")
  emit_token tq_rp t out = done (out ++ codes ")")
  emit_token tq_comma t out = done (out ++ codes ",")
  emit_token tq_dot t out = done (out ++ codes ".")
  emit_token tq_op t out = done (tq_sp out ++ (if str_eq t.s (codes "!=") then codes "<>" else t.s))
  emit_token _ t out = done out

  -- On fuel, which the length of the range bounds.
  unfoldable pub emit_on : ℕ → Emits
  unfolding emit_token
  emit_on zero ts out = cut_short
  emit_on (suc fuel) [] out = done out
  emit_on (suc fuel) (t ∷ ts) out = elim (call_at (emit_on fuel) t ts out) [
    | some p ↦ p.0 >>= emit_on fuel p.1
    | none ↦ emit_token t.kind t out >>= emit_on fuel ts
  ]

  unfoldable pub tq_emit_range : Emits
  tq_emit_range ts out = emit_on (suc (length ts)) ts out
