-- ===== src/Go/Expr/Runs.antt =====
-- `emit_on` over a token, and over a call with its brackets.
use plx.Go.Expr.Balanced.{IsBalanced, go_match-brackets}
use plx.Assemble.{PlxLocal2}
use plx.Go.Emit.{
  Emits, between_texts, emit_token, qualified_call, qualified, plain_call, go_emit_call,
  emit_special, literal_at, in_parens, emit_on,
}
use plx.Go.Expr.{tok, in_brackets, method_call}
use plx.Go.Token.{GoTok, go_word, go_lp, go_rp, is_word, is_lp, is_dot, is_lbrack}
use plx.Go.Types.{go_base_type}
use plx.Prelude.Outcome.{done}
use plx.Prelude.{
  ℕ, zero, suc, ◌≤◌, ◌<◌, Bytes, codes, length, length-append, Bool, false, List, [], ◌∷◌, ◌++◌,
  Option, none, some, ◌≡◌, refl, arith,
}

-- No bracket and no point: a word in front is no call.
unfoldable pub IsFree : List GoTok → Type 0
IsFree [] = Unit
IsFree (t ∷ ts) = (is_lp t.kind ≡ false) × (is_dot t.kind ≡ false)

qualified-none : (ts : List GoTok) → IsFree ts → qualified ts ≡ none
unfolding IsFree
qualified-none [] h = refl
qualified-none (d ∷ []) h = refl
qualified-none (d ∷ m ∷ []) h = refl
qualified-none (d ∷ m ∷ p ∷ ts) h = rw (h.1) refl

qualified_paren : (ts : List GoTok) → qualified (tok go_lp (codes "(") ∷ ts) ≡ none
qualified_paren [] = refl
qualified_paren (m ∷ []) = refl
qualified_paren (m ∷ p ∷ ts) = refl

in_parens-none : (ts : List GoTok) → IsFree ts → in_parens ts ≡ none
unfolding IsFree
in_parens-none [] h = refl
in_parens-none (t ∷ ts) h = rw (h.0) refl

literal_at-none : (t : GoTok) (ts : List GoTok) → is_lbrack t.kind ≡ false → literal_at t ts ≡ none
literal_at-none t [] h = refl
literal_at-none t (r ∷ []) h = refl
literal_at-none t (r ∷ w ∷ []) h = refl
literal_at-none t (r ∷ w ∷ b ∷ ts) h = rw h refl

module _ (ci : Bytes → Bytes → Bool) (locals : List PlxLocal2) where
  pub word-none :
      (emit : Emits) (prev : Option GoTok) (w : Bytes) (ts : List GoTok) (out : Bytes)
      → IsFree ts
      → emit_special ci locals emit prev (tok go_word w) ts out ≡ none
  unfolding emit_special go_emit_call
  word-none emit prev w ts out h =
      rw (qualified-none ts h, emit_special, go_emit_call) (rw (in_parens-none ts h) refl)

  mark-none :
      (emit : Emits) (prev : Option GoTok) (t : GoTok) (ts : List GoTok) (out : Bytes)
      → is_word t.kind ≡ false
      → is_lbrack t.kind ≡ false
      → emit_special ci locals emit prev t ts out ≡ none
  unfolding emit_special
  mark-none emit prev t ts out word bracket = rw (word, literal_at-none t ts bracket, bracket) refl

  -- Behind the text the tokens give the whole text, whatever fuel above their number there is.
  unfoldable pub Runs : List GoTok → Bytes → Bytes → Type 0
  Runs ts out text =
      (fuel : ℕ) (prev : Option GoTok)
      → length ts < fuel
      → emit_on ci locals fuel prev ts out ≡ done text

  pub Runs-nil : (out : Bytes) → Runs [] out out
  unfolding Runs emit_on
  Runs-nil out zero prev small = absurd (omega arith)
  Runs-nil out (suc fuel) prev small = refl

  -- A token by itself.
  pub Runs-token :
      (t : GoTok) (ts : List GoTok) (out text : Bytes)
      → ((emit : Emits) (prev : Option GoTok) → emit_special ci locals emit prev t ts out ≡ none)
      → Runs ts (emit_token t.kind t out) text
      → Runs (t ∷ ts) out text
  unfolding Runs emit_on
  Runs-token t ts out text alone runs zero prev small = absurd (omega arith)
  Runs-token t ts out text alone runs (suc fuel) prev small =
      rw (alone (emit_on ci locals fuel none) prev, emit_on) (runs fuel (some t) (omega arith))

  -- A token that is neither word nor bracket of an array.
  pub Runs-mark :
      (t : GoTok) (ts : List GoTok) (out text : Bytes)
      → is_word t.kind ≡ false
      → is_lbrack t.kind ≡ false
      → Runs ts (emit_token t.kind t out) text
      → Runs (t ∷ ts) out text
  Runs-mark t ts out text word bracket runs =
      Runs-token t ts out text (λ emit prev. mark-none emit prev t ts out word bracket) runs

  -- A call, with its argument between a front and a tail.
  Runs-call :
      (t close : GoTok) (ts inside rest : List GoTok) (out front text tail end : Bytes)
      → ((emit : Emits) (prev : Option GoTok)
          → emit_special ci locals emit prev t ts out
            ≡ some (between_texts emit front inside tail, close, rest))
      → length inside ≤ length ts
      → length rest ≤ length ts
      → Runs inside front text
      → Runs rest (text ++ tail) end
      → Runs (t ∷ ts) out end
  unfolding Runs emit_on
  Runs-call t close ts inside rest out front text tail end at small small' runs after zero prev
        bound =
      absurd (omega arith)
  Runs-call t close ts inside rest out front text tail end at small small' runs after (suc fuel)
        prev bound =
      let inner = runs fuel none (omega arith) in
      rw (at (emit_on ci locals fuel none) prev, emit_on)
        (rw inner (after fuel (some close) (omega arith)))

  -- A call in brackets of the grammar's tokens.
  module _ (inside rest : List GoTok) (out front text tail end : Bytes)
      (balanced : IsBalanced inside) (runs : Runs inside front text)
      (after : Runs rest (text ++ tail) end) where
    pub Runs-method :
        (pkg meth : Bytes)
        → ((emit : Emits)
            → qualified_call emit (tok go_word pkg) (tok go_word meth) out inside
              ≡ some (between_texts emit front inside tail))
        → Runs (method_call pkg meth inside ++ rest) out end
    unfolding emit_special go_emit_call
    Runs-method pkg meth is_call =
        let close = tok go_rp (codes ")") in
        let small = length-append inside (close ∷ []) in
        let all = length-append (inside ++ close ∷ []) rest in
        Runs-call (tok go_word pkg) close _ inside rest out front text tail end
          (λ emit prev. rw (go_match-brackets inside rest balanced) (rw (is_call emit) refl))
          (omega (arith, small, all)) (omega (arith, small, all)) runs after

    pub Runs-plain :
        (w : Bytes)
        → ((emit : Emits)
            → plain_call ci locals emit (tok go_word w) out inside
              ≡ some (between_texts emit front inside tail))
        → Runs (tok go_word w ∷ (in_brackets inside ++ rest)) out end
    unfolding emit_special go_emit_call go_base_type
    Runs-plain w is_call =
        let close = tok go_rp (codes ")") in
        let small = length-append inside (close ∷ []) in
        let all = length-append (inside ++ close ∷ []) rest in
        Runs-call (tok go_word w) close _ inside rest out front text tail end
          (λ emit prev.
            rw (qualified_paren ((inside ++ close ∷ []) ++ rest), emit_special, go_emit_call)
              (rw (go_match-brackets inside rest balanced) (rw (is_call emit) refl)))
          (omega (arith, small, all)) (omega (arith, small, all)) runs after
