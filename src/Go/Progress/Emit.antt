-- ===== src/Go/Progress/Emit.antt =====
-- The fuel of `go_emit_range` is enough, and its text has what was there in front.
use plx.Assemble.{PlxLocal2}
use plx.Prelude.Outcome.{◌>>=◌}
use plx.Prelude.{
  ℕ, zero, suc, ◌≤◌, ◌<◌, Bytes, codes, length, Bool, ◌&&◌, if◌then◌else◌, List, [], ◌∷◌, ◌++◌,
  Option, none, some, arith, if-case,
}
use plx.Go.Emit.{
  go_sp, Emits, between_texts, Emitted, qualified_call, qualified, in_parens, in_bracket,
  literal_at, has_subscript, not_rbrack, emit_token, plain_call, go_emit_call, emit_special,
  emit_on, go_emit_range,
}
use plx.Go.Progress.Calls.{
  sp_append, instead, Fits, alone, special, between-Returns, spaced, in_bracket-Fits,
  qualified_call-Writes, plain_call-Writes,
}
use plx.Go.Progress.Brackets.{IsInside-mono, go_match-IsInside, in_parens-IsInside}
use plx.Go.Scan.{go_match}
use plx.Go.Token.{
  GoTok, GoKind, go_eof, go_word, go_num, go_str, go_op, go_lp, go_rp, go_lbrace, go_rbrace,
  go_lbrack, go_rbrack, go_comma, go_semi, go_dot, is_word, is_lbrack,
}
use plx.Prelude.Ends.{
  Returns, made, Returns-mono, >>=-Returns, Extends, Extends-self, Extends-append, Extends-trans,
}

emit_token-Extends : (k : GoKind) (t : GoTok) (out : Bytes) → Extends out (emit_token k t out)
unfolding emit_token
emit_token-Extends go_word t out = sp_append out _
emit_token-Extends go_num t out = sp_append out _
emit_token-Extends go_str t out = sp_append out _
emit_token-Extends go_lp t out = sp_append out _
emit_token-Extends go_rp t out = Extends-append out _
emit_token-Extends go_lbrack t out = Extends-append out _
emit_token-Extends go_rbrack t out = Extends-append out _
emit_token-Extends go_comma t out = Extends-append out _
emit_token-Extends go_dot t out = Extends-append out _
emit_token-Extends go_op t out = sp_append out _
emit_token-Extends go_eof t out = Extends-self out
emit_token-Extends go_lbrace t out = Extends-self out
emit_token-Extends go_rbrace t out = Extends-self out
emit_token-Extends go_semi t out = Extends-self out

-- What `qualified` and `literal_at` leave begins with a bracket.
data Follows (n : ℕ) : Option (GoTok × List GoTok) → Type 0 where
  no_method : Follows n none
  method : (m p : GoTok) (us : List GoTok) → length us ≤ n → Follows n (some (m, p ∷ us))

data Opens (n : ℕ) : Option (List GoTok) → Type 0 where
  no_brace : Opens n none
  brace : (b : GoTok) (us : List GoTok) → length us ≤ n → Opens n (some (b ∷ us))

qualified-Follows : (n : ℕ) (ts : List GoTok) → length ts ≤ n → Follows n (qualified ts)
qualified-Follows n [] h = no_method
qualified-Follows n (d ∷ []) h = no_method
qualified-Follows n (d ∷ m ∷ []) h = no_method
qualified-Follows n (d ∷ m ∷ p ∷ ts) h =
    if-case (Follows n) _ (method m p ts (omega (arith, h))) no_method

literal_at-Opens : (n : ℕ) (t : GoTok) (ts : List GoTok) → length ts ≤ n → Opens n (literal_at t ts)
literal_at-Opens n t [] h = no_brace
literal_at-Opens n t (r ∷ []) h = no_brace
literal_at-Opens n t (r ∷ w ∷ []) h = no_brace
literal_at-Opens n t (r ∷ w ∷ b ∷ ts) h =
    if-case (Opens n) _ (brace b ts (omega (arith, h))) no_brace

module _ (emit : Emits) (bound : ℕ)
    (writes : (us : List GoTok) (o : Bytes) → length us ≤ bound → Returns (Extends o) (emit us o))
    (ci : Bytes → Bytes → Bool) (locals : List PlxLocal2) where
  go_emit_call-Fits :
      (t : GoTok) (ts : List GoTok) (out : Bytes)
      → length ts ≤ bound
      → Fits out bound (go_emit_call ci locals emit t ts out)
  unfolding go_emit_call
  go_emit_call-Fits t ts out small = from (qualified ts) (qualified-Follows bound ts small)
    where
      from :
          (q : Option (GoTok × List GoTok))
          → Follows bound q
          → Fits out bound (elim q [
            | some q ↦ in_bracket (qualified_call emit t q.0 out) (go_match q.1)
            | none ↦ in_bracket (plain_call ci locals emit t out) (in_parens ts)
          ])
      from none no_method =
          in_bracket-Fits emit bound writes out (plain_call ci locals emit t out) (in_parens ts)
            (IsInside-mono _ _ _ (omega arith) (in_parens-IsInside ts))
            (λ us h. plain_call-Writes emit bound writes ci locals t out us h)
      from (some q) (method m p us h) =
          in_bracket-Fits emit bound writes out (qualified_call emit t m out) (go_match (p ∷ us))
            (go_match-IsInside (suc bound) p us (omega (arith, h)))
            (λ vs k. qualified_call-Writes emit bound writes t m out vs k)

  emit_special-Fits :
      (prev : Option GoTok) (t : GoTok) (ts : List GoTok) (out : Bytes)
      → length ts ≤ bound
      → Fits out bound (emit_special ci locals emit prev t ts out)
  unfolding emit_special
  emit_special-Fits prev t ts out small =
      if-case (Fits out bound) (is_word t.kind) (go_emit_call-Fits t ts out small)
        (from (literal_at t ts) (literal_at-Opens bound t ts small))
    where
      from :
          (l : Option (List GoTok))
          → Opens bound l
          → Fits out bound (elim l [
            | some us ↦
                in_bracket
                  (λ inside.
                    some (between_texts emit (go_sp out ++ codes "ARRAY[") inside (codes "]")))
                  (go_match us)
            | none ↦
                if is_lbrack t.kind && has_subscript prev && not_rbrack ts
                then in_bracket
                    (λ inside.
                      some (between_texts emit (out ++ codes "[(") inside (codes ") + 1]")))
                    (go_match (t ∷ ts))
                else none
          ])
      from none no_brace =
          if-case (Fits out bound) (is_lbrack t.kind && has_subscript prev && not_rbrack ts)
            (in_bracket-Fits emit bound writes out
              (λ inside. some (between_texts emit (out ++ codes "[(") inside (codes ") + 1]")))
              (go_match (t ∷ ts)) (go_match-IsInside (suc bound) t ts (omega (arith, small)))
              (λ us h. instead (
                between-Returns emit bound writes out (out ++ codes "[(") us (codes ") + 1]")
                  (Extends-append out (codes "[(")) h)))
            alone
      from (some _) (brace b us h) =
          in_bracket-Fits emit bound writes out
            (λ inside. some (between_texts emit (go_sp out ++ codes "ARRAY[") inside (codes "]")))
            (go_match (b ∷ us)) (go_match-IsInside (suc bound) b us (omega (arith, h)))
            (λ vs k. instead (spaced emit bound writes out (codes "ARRAY[") vs (codes "]") k))

module _ (ci : Bytes → Bytes → Bool) (locals : List PlxLocal2) where
  emit_on-Returns :
      (fuel : ℕ) (prev : Option GoTok) (ts : List GoTok) (out : Bytes)
      → length ts < fuel
      → Returns (Extends out) (emit_on ci locals fuel prev ts out)
  unfolding emit_on
  emit_on-Returns zero prev ts out small = absurd (omega arith)
  emit_on-Returns (suc fuel) prev [] out small = made (Extends-self out)
  emit_on-Returns (suc fuel) prev (t ∷ ts) out small =
      from (emit_special ci locals (emit_on ci locals fuel none) prev t ts out)
        (emit_special-Fits (emit_on ci locals fuel none) (length ts)
          (λ us o h. emit_on-Returns fuel none us o (omega (arith, h, small))) ci locals prev t ts
          out (omega arith))
        (λ before us o h. emit_on-Returns fuel before us o (omega (arith, h, small)))
    where
      from :
          (e : Emitted)
          → Fits out (length ts) e
          → ((before : Option GoTok) (us : List GoTok) (o : Bytes)
              → length us ≤ length ts
              → Returns (Extends o) (emit_on ci locals fuel before us o))
          → Returns (Extends out) (elim e [
            | some p ↦ p.0 >>= emit_on ci locals fuel (some p.1) p.2
            | none ↦ emit_on ci locals fuel (some t) ts (emit_token t.kind t out)
          ])
      from none alone rest =
          Returns-mono (Extends out) (rest (some t) ts (emit_token t.kind t out) (omega arith))
            (λ text k. Extends-trans out _ text (emit_token-Extends t.kind t out) k)
      from (some p) (special h small') rest = >>=-Returns (Extends out) p.0 _ h (λ text k.
          Returns-mono (Extends out) (rest (some p.1) p.2 text small')
            (λ end l. Extends-trans out text end k l))

  -- The fuel is enough: a range is emitted, with the text that was there in front.
  pub go_emit_range-Returns :
      (ts : List GoTok) (out : Bytes) → Returns (Extends out) (go_emit_range ci locals ts out)
  unfolding go_emit_range
  go_emit_range-Returns ts out = emit_on-Returns (suc (length ts)) none ts out (omega arith)
