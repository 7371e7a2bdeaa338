-- ===== src/Go/Progress/Calls.antt =====
-- Calls that are rewritten, and what stands in place of brackets, are written behind what was there.
use plx.Assemble.{PlxLocal2}
use plx.Prelude.Outcome.{Outcome}
use plx.Prelude.{
  ℕ, suc, ◌≤◌, Bytes, codes, str_eq, length, Bool, ◌&&◌, if◌then◌else◌, List, ◌++◌, Option, none,
  some, arith, inl, inr, if-case, if-split, Option-cases,
}
use plx.Go.Emit.{
  go_sp, Emits, between_texts, Emitted, called, call_table, emit_contains, qualified_call,
  in_bracket, counts_slice, plain_call,
}
use plx.Go.Progress.Brackets.{IsInside, AreShort, whole, parts, comma_split-AreShort}
use plx.Go.Scan.{Inside, Split, comma_split}
use plx.Go.Token.{GoTok, go_ci}
use plx.Go.Types.{go_base_type}
use plx.Prelude.Ends.{
  Returns, made, Returns-mono, >>=-Returns, Extends, Extends-self, Extends-append, Extends-trans,
}

go_sp-Extends : (out : Bytes) → Extends out (go_sp out)
unfolding go_sp
go_sp-Extends out = if-case (Extends out) _ (Extends-self out) (Extends-append out (codes " "))

-- A text behind `go_sp`.
pub sp_append : (out text : Bytes) → Extends out (go_sp out ++ text)
sp_append out text =
    Extends-trans out (go_sp out) _ (go_sp-Extends out) (Extends-append (go_sp out) text)

-- A call that is rewritten.
pub data Writes (out : Bytes) : Option (Outcome Bytes) → Type 0 where
  as_is : Writes out none
  instead : {o : Outcome Bytes} → Returns (Extends out) o → Writes out (some o)

-- What is written in place of some tokens, with fewer tokens behind.
pub data Fits (out : Bytes) (bound : ℕ) : Emitted → Type 0 where
  alone : Fits out bound none
  special :
      {o : Outcome Bytes} {close : GoTok} {rest : List GoTok}
      → Returns (Extends out) o
      → length rest ≤ bound
      → Fits out bound (some (o, close, rest))

module _ (emit : Emits) (bound : ℕ)
    (writes : (us : List GoTok) (o : Bytes)
      → length us ≤ bound
      → Returns (Extends o) (emit us o)) where
  -- A range between a text in front and a text behind.
  pub between-Returns :
      (out front : Bytes) (us : List GoTok) (tail : Bytes)
      → Extends out front
      → length us ≤ bound
      → Returns (Extends out) (between_texts emit front us tail)
  between-Returns out front us tail h small =
      >>=-Returns (Extends out) _ _ (writes us front small) (λ text k.
        made
          (Extends-trans out front _ h (Extends-trans front text _ k (Extends-append text tail))))

  -- The same where the text in front begins with a blank.
  pub spaced :
      (out front : Bytes) (us : List GoTok) (tail : Bytes)
      → length us ≤ bound
      → Returns (Extends out) (between_texts emit (go_sp out ++ front) us tail)
  spaced out front us tail small =
      between-Returns out (go_sp out ++ front) us tail (sp_append out front) small

  emit_contains-Writes :
      (out : Bytes) {o : Option Split} → AreShort bound o → Writes out (emit_contains emit out o)
  emit_contains-Writes out whole = as_is
  emit_contains-Writes out (parts {a} {b} h k) = instead (
      >>=-Returns (Extends out) (emit a (go_sp out ++ codes "(strpos(")) _
        (Returns-mono (Extends out) (writes a _ h)
          (λ text l. Extends-trans out _ text (sp_append out (codes "(strpos(")) l))
        (λ first l.
          between-Returns out (first ++ codes ",") b (codes ") > 0)")
            (Extends-trans out first _ l (Extends-append first (codes ","))) k))

  AreShort-mono : (n : ℕ) {o : Option Split} → n ≤ bound → AreShort n o → AreShort bound o
  AreShort-mono n small whole = whole
  AreShort-mono n small (parts h k) = parts (omega (arith, h, small)) (omega (arith, k, small))

  pub qualified_call-Writes :
      (pkg meth : GoTok) (out : Bytes) (inside : List GoTok)
      → length inside ≤ bound
      → Writes out (qualified_call emit pkg meth out inside)
  unfolding qualified_call
  qualified_call-Writes pkg meth out inside small =
      let P = Writes out in
      if-split P (str_eq pkg.s (codes "strconv") && str_eq meth.s (codes "Itoa"))
        (λ _. instead (spaced out (codes "(") inside (codes ")::text") small))
        (λ _.
          if-split P (str_eq pkg.s (codes "strconv") && str_eq meth.s (codes "Atoi"))
            (λ _. instead (spaced out (codes "(") inside (codes ")::integer") small)) (λ _. tabled))
    where
      tabled : Writes out (elim (called call_table pkg.s meth.s) [
        | some pg ↦ some (between_texts emit (go_sp out ++ (pg ++ codes "(")) inside (codes ")"))
        | none ↦
            if go_ci pkg (codes "strings") && go_ci meth (codes "Contains")
            then emit_contains emit out (comma_split inside)
            else none
      ])
      tabled = elim (Option-cases (called call_table pkg.s meth.s)) [
        | inr (pg, e) ↦ rw e (instead (spaced out _ inside _ small))
        | inl e ↦ rw e (
            if-case (Writes out) _
              (emit_contains-Writes out (AreShort-mono _ small (comma_split-AreShort inside)))
              as_is)
      ]

  pub in_bracket-Fits :
      (out : Bytes) (call : List GoTok → Option (Outcome Bytes)) (m : Option Inside)
      → IsInside (suc bound) m
      → ((us : List GoTok) → length us ≤ bound → Writes out (call us))
      → Fits out bound (in_bracket call m)
  unfolding IsInside
  in_bracket-Fits out call none h w = alone
  in_bracket-Fits out call (some (inside, close, rest)) h w =
      from (call inside) (w inside (omega (arith, h)))
    where
      from :
          (o : Option (Outcome Bytes))
          → Writes out o
          → Fits out bound (elim o [ none ↦ none | some o ↦ some (o, close, rest) ])
      from none as_is = alone
      from (some o) (instead k) = special k (omega (arith, h))

  module _ (ci : Bytes → Bytes → Bool) (locals : List PlxLocal2) where
    pub plain_call-Writes :
        (t : GoTok) (out : Bytes) (inside : List GoTok)
        → length inside ≤ bound
        → Writes out (plain_call ci locals emit t out inside)
    unfolding plain_call
    plain_call-Writes t out inside small = elim (Option-cases (go_base_type t.s)) [
      | inr (conv, e) ↦ rw (e, plain_call) (instead (spaced out _ inside _ small))
      | inl e ↦
          rw (e, plain_call)
            (if-case (Writes out) (go_ci t (codes "len"))
              (if-case (Writes out) (counts_slice ci locals inside)
                (instead (spaced out _ inside _ small)) (instead (spaced out _ inside _ small)))
              (if-case (Writes out) (go_ci t (codes "append"))
                (instead (spaced out _ inside _ small)) as_is))
    ]
