-- ===== src/Tsql/Progress/Emit.antt =====
-- `tq_emit_range` is never cut short, and writes behind what is there.
use plx.Prelude.Int.{pos}
use plx.Prelude.Outcome.{Outcome, ◌>>=◌}
use plx.Prelude.{
  ℕ, zero, suc, ◌≤◌, ◌<◌, Bytes, codes, length, Bool, List, [], ◌∷◌, ◌++◌, Option, none, some,
  arith, inl, inr, if-case, Option-cases,
}
use plx.Tsql.Emit.{
  tq_sp, tq_match_lp, split_args, Emits, emit_convert, emit_iif, emit_charindex, emit_renamed,
  tq_emit_call, call_at, emit_token, emit_on, tq_emit_range, renamed, rename_table,
}
use plx.Prelude.Ends.{
  Ends, Answers-Ends, Answers, answers, refuses, >>=-Answers, Answers-mono, Extends, Extends-self,
  Extends-append, Extends-trans,
}
use plx.Tsql.Token.{
  TqTok, TqKind, tq_eof, tq_word, tq_var, tq_gvar, tq_num, tq_str, tq_op, tq_lp, tq_rp, tq_comma,
  tq_semi, tq_dot, is_word,
}
use plx.Tsql.Progress.Brackets.{
  AreShort, AreShort-mono, IsInside, IsInside-le, split_args-AreShort, tq_match_lp-IsInside,
}

tq_sp-Extends : (out : Bytes) → Extends out (tq_sp out)
unfolding tq_sp
tq_sp-Extends out = if-case (Extends out) _ (Extends-self out) (Extends-append out (codes " "))

-- A text behind `tq_sp`.
sp_append : (out text : Bytes) → Extends out (tq_sp out ++ text)
sp_append out text =
    Extends-trans out (tq_sp out) _ (tq_sp-Extends out) (Extends-append (tq_sp out) text)

-- A text behind one that extends another.
pub Extends-more : (out text more : Bytes) → Extends out text → Extends out (text ++ more)
Extends-more out text more h = Extends-trans out text _ h (Extends-append text more)

-- A call that is rewritten.
data Writes (out : Bytes) : Option (Outcome Bytes) → Type 0 where
  as_is : Writes out none
  instead : {o : Outcome Bytes} → Answers (Extends out) o → Writes out (some o)

module _ (ci : Bytes → Bytes → Bool) (emit : Emits) (bound : ℕ)
    (writes : (us : List TqTok) (o : Bytes)
      → length us ≤ bound
      → Answers (Extends o) (emit us o)) where
  -- A range between a text in front and a text behind.
  emit_between :
      (out front : Bytes) (us : List TqTok)
      → Extends out front
      → length us ≤ bound
      → Answers (Extends out) (emit us front)
  emit_between out front us h small =
      Answers-mono (Extends out) (writes us front small)
        (λ text k. Extends-trans out front text h k)

  emit_convert-Writes :
      (out : Bytes) (args : List (List TqTok))
      → AreShort bound args
      → Writes out (emit_convert ci emit out args)
  unfolding emit_convert AreShort
  emit_convert-Writes out [] h = as_is
  emit_convert-Writes out (type ∷ []) h = as_is
  emit_convert-Writes out (type ∷ expr ∷ rest) h = instead (
      >>=-Answers (Extends out) _ _
        (emit_between out (tq_sp out ++ codes "CAST(") expr (sp_append out (codes "CAST(")) h.1.0)
        (λ text k. answers (Extends-more out text _ k)))

  emit_iif-Writes :
      (out : Bytes) (args : List (List TqTok))
      → AreShort bound args
      → Writes out (emit_iif emit out args)
  unfolding emit_iif AreShort
  emit_iif-Writes out [] h = as_is
  emit_iif-Writes out (cond ∷ []) h = as_is
  emit_iif-Writes out (cond ∷ a ∷ []) h = as_is
  emit_iif-Writes out (cond ∷ a ∷ b ∷ rest) h = instead (
      >>=-Answers (Extends out) _ _
        (emit_between out (tq_sp out ++ codes "CASE WHEN") cond (sp_append out (codes "CASE WHEN"))
          h.0)
        (λ when k.
          >>=-Answers (Extends out) _ _
            (emit_between out (when ++ codes " THEN") a (Extends-more out when _ k) h.1.0)
            (λ text l.
              >>=-Answers (Extends out) _ _
                (emit_between out (text ++ codes " ELSE") b (Extends-more out text _ l) h.1.1.0)
                (λ last m. answers (Extends-more out last _ m)))))

  emit_charindex-Writes :
      (out : Bytes) (args : List (List TqTok))
      → AreShort bound args
      → Writes out (emit_charindex emit out args)
  unfolding emit_charindex AreShort
  emit_charindex-Writes out [] h = as_is
  emit_charindex-Writes out (sub ∷ []) h = as_is
  emit_charindex-Writes out (sub ∷ str ∷ rest) h = instead (
      >>=-Answers (Extends out) _ _
        (emit_between out (tq_sp out ++ codes "strpos(") str (sp_append out (codes "strpos("))
          h.1.0)
        (λ first k.
          >>=-Answers (Extends out) _ _
            (emit_between out (first ++ codes ",") sub (Extends-more out first _ k) h.0)
            (λ text l. answers (Extends-more out text _ l))))

  emit_renamed-Writes :
      (out : Bytes) (t : TqTok) (inside : List TqTok)
      → length inside ≤ bound
      → Writes out (emit_renamed ci emit out t inside)
  unfolding emit_renamed
  emit_renamed-Writes out t inside small = elim (Option-cases (renamed ci rename_table t)) [
    | inl e ↦ rw (e, emit_renamed) as_is
    | inr (pg, e) ↦
        rw (e, emit_renamed)
          (instead (
            >>=-Answers (Extends out) _ _
              (emit_between out (tq_sp out ++ (pg ++ codes "(")) inside (sp_append out _) small)
              (λ text k. answers (Extends-more out text _ k))))
  ]

  tq_emit_call-Writes :
      (t : TqTok) (inside : List TqTok) (out : Bytes)
      → length inside ≤ bound
      → Writes out (tq_emit_call ci emit t inside out)
  unfolding tq_emit_call
  tq_emit_call-Writes t inside out small =
      let P = Writes out in
      let args : (n : ℕ) → AreShort bound (split_args n (pos 0) inside) =
        λ n. AreShort-mono (length inside) bound _ small (split_args-AreShort n (pos 0) inside) in
      if-case P _ (emit_convert-Writes out _ (args 2)) (
        if-case P _ (emit_iif-Writes out _ (args 2)) (
          if-case P _ (instead (answers (sp_append out (codes "SQLERRM")))) (
            if-case P _ (emit_charindex-Writes out _ (args 1))
              (emit_renamed-Writes out t inside small))))

-- A token that is written by itself.
emit_token-Answers :
    (ci : Bytes → Bytes → Bool) (kind : TqKind) (t : TqTok) (out : Bytes)
    → Answers (Extends out) (emit_token ci kind t out)
unfolding emit_token
emit_token-Answers ci tq_var t out = answers (sp_append out _)
emit_token-Answers ci tq_gvar t out =
    if-case (Answers (Extends out)) _ (answers (sp_append out _)) refuses
emit_token-Answers ci tq_word t out =
    if-case (Answers (Extends out)) _ (answers (sp_append out _)) (answers (sp_append out _))
emit_token-Answers ci tq_num t out = answers (sp_append out _)
emit_token-Answers ci tq_str t out = answers (sp_append out _)
emit_token-Answers ci tq_lp t out = answers (sp_append out _)
emit_token-Answers ci tq_rp t out = answers (Extends-append out _)
emit_token-Answers ci tq_comma t out = answers (Extends-append out _)
emit_token-Answers ci tq_dot t out = answers (Extends-append out _)
emit_token-Answers ci tq_op t out = answers (sp_append out _)
emit_token-Answers ci tq_eof t out = answers (Extends-self out)
emit_token-Answers ci tq_semi t out = answers (Extends-self out)

-- What is written behind a text that extends another.
behind :
    {bound : ℕ} {emit : Emits} (out : Bytes) (us : List TqTok) (text : Bytes)
    → Extends out text
    → length us ≤ bound
    → ((vs : List TqTok) (o : Bytes) → length vs ≤ bound → Answers (Extends o) (emit vs o))
    → Answers (Extends out) (emit us text)
behind out us text k small writes =
    Answers-mono (Extends out) (writes us text small) (λ end l. Extends-trans out text end k l)

-- A call that stands here, and the tokens behind it.
data IsCall (n : ℕ) (out : Bytes) : Option (Outcome Bytes × List TqTok) → Type 0 where
  no_call : IsCall n out none
  call :
      {o : Outcome Bytes} {rest : List TqTok}
      → Answers (Extends out) o
      → length rest ≤ n
      → IsCall n out (some (o, rest))

module _ (ci : Bytes → Bytes → Bool) where
  written-IsCall :
      {n : ℕ} {out : Bytes} (w : Option (Outcome Bytes)) (rest : List TqTok)
      → Writes out w
      → length rest ≤ n
      → IsCall n out (elim w [ none ↦ none | some o ↦ some (o, rest) ])
  written-IsCall none rest as_is small = no_call
  written-IsCall (some o) rest (instead h) small = call h small

  call_at-IsCall :
      (emit : Emits) (t : TqTok) (ts : List TqTok) (out : Bytes)
      → ((us : List TqTok) (o : Bytes) → length us ≤ length ts → Answers (Extends o) (emit us o))
      → IsCall (length ts) out (call_at ci emit t ts out)
  unfolding call_at
  call_at-IsCall emit t ts out writes =
      if-case (IsCall (length ts) out) (is_word t.kind)
        (matched (tq_match_lp ts) (tq_match_lp-IsInside ts)) no_call
    where
      matched :
          (m : Option (List TqTok × List TqTok))
          → IsInside (length ts) m
          → IsCall (length ts) out (elim m [
            | none ↦ none
            | some p ↦ elim (tq_emit_call ci emit t p.0 out) [
              | none ↦ none
              | some o ↦ some (o, p.1)
            ]
          ])
      matched none h = no_call
      matched (some p) h =
          written-IsCall (tq_emit_call ci emit t p.0 out) p.1
            (tq_emit_call-Writes ci emit (length ts) writes t p.0 out (IsInside-le ts p h).0)
            (IsInside-le ts p h).1

  emit_on-Answers :
      (fuel : ℕ) (ts : List TqTok) (out : Bytes)
      → length ts < fuel
      → Answers (Extends out) (emit_on ci fuel ts out)
  unfolding emit_on
  emit_on-Answers zero ts out small = absurd (omega arith)
  emit_on-Answers (suc fuel) [] out small = answers (Extends-self out)
  emit_on-Answers (suc fuel) (t ∷ ts) out small =
      step (call_at ci (emit_on ci fuel) t ts out)
        (call_at-IsCall (emit_on ci fuel) t ts out
          (λ us o short. emit_on-Answers fuel us o (omega (arith, short, small))))
        (λ us o short. emit_on-Answers fuel us o (omega (arith, short, small)))
    where
      step :
          (c : Option (Outcome Bytes × List TqTok))
          → IsCall (length ts) out c
          → ((us : List TqTok) (o : Bytes)
              → length us ≤ length ts
              → Answers (Extends o) (emit_on ci fuel us o))
          → Answers (Extends out) (elim c [
            | some p ↦ p.0 >>= emit_on ci fuel p.1
            | none ↦ emit_token ci t.kind t out >>= emit_on ci fuel ts
          ])
      step none h rest =
          >>=-Answers (Extends out) _ _ (emit_token-Answers ci t.kind t out)
            (λ text k. behind out ts text k (omega arith) rest)
      step (some p) (call h small) rest =
          >>=-Answers (Extends out) _ _ h (λ text k. behind out p.1 text k small rest)

  -- The fuel is enough: a range is emitted, with the text that was there in front, or refused.
  tq_emit_range-Answers :
      (ts : List TqTok) (out : Bytes) → Answers (Extends out) (tq_emit_range ci ts out)
  unfolding tq_emit_range
  tq_emit_range-Answers ts out = emit_on-Answers (suc (length ts)) ts out (omega arith)

  pub tq_emit_range-Ends :
      (ts : List TqTok) (out : Bytes) → Ends (Extends out) (tq_emit_range ci ts out)
  tq_emit_range-Ends ts out = Answers-Ends (tq_emit_range-Answers ts out)
