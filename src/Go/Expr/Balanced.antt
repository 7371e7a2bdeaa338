-- ===== src/Go/Expr/Balanced.antt =====
-- The brackets of an expression match.
use plx.Go.Expr.{
  Expr, name, number, string, nil, negated, grouped, binary, call, call_two, converted, fn_of,
  method_of, tok, in_brackets, method_call, tokens,
}
use plx.Go.Scan.{Inside, before, match_from, go_match}
use plx.Go.Token.{GoTok, go_lp, go_rp, go_comma, all_brackets, opens, closes}
use plx.Prelude.{
  ℕ, suc, Bytes, codes, false, ◌==◌, ◌-◌, List, [], ◌∷◌, ◌++◌, append_assoc, append-nil, Option,
  none, some, ◌≡◌, refl, sym, ap, ◌∙◌, arith,
}

-- Tokens in front of those inside a bracket.
abbrev prepend : List GoTok → Option Inside → Option Inside
prepend ts none = none
prepend ts (some (inside, close, rest)) = some (ts ++ inside, close, rest)

before-prepend :
    (t : GoTok) (ts : List GoTok) (o : Option Inside) → before t (prepend ts o) ≡ prepend (t ∷ ts) o
before-prepend t ts none = refl
before-prepend t ts (some i) = refl

prepend_nil : (o : Option Inside) → prepend [] o ≡ o
prepend_nil none = refl
prepend_nil (some i) = refl

prepend-append :
    (ts us : List GoTok) (o : Option Inside) → prepend ts (prepend us o) ≡ prepend (ts ++ us) o
prepend-append ts us none = refl
prepend-append ts us (some i) = ap (λ x. some (x, i.1, i.2)) (sym (append_assoc ts us i.0))

around :
    (ts : List GoTok) (o : Option Inside)
    → before (tok go_lp (codes "(")) (prepend ts (before (tok go_rp (codes ")")) o))
      ≡ prepend (in_brackets ts) o
around ts none = refl
around ts (some i) =
    ap (λ x. some (tok go_lp (codes "(") ∷ x, i.1, i.2))
      (sym (append_assoc ts (tok go_rp (codes ")") ∷ []) i.0))

-- The match of a bracket passes over the tokens.
pub IsBalanced : List GoTok → Type 0
IsBalanced ts =
    (depth : ℕ) (rest : List GoTok)
    → match_from depth (ts ++ rest) ≡ prepend ts (match_from depth rest)

-- A token that is no bracket.
IsBalanced-token :
    (t : GoTok) (ts : List GoTok)
    → opens all_brackets t.kind ≡ false
    → closes all_brackets t.kind ≡ false
    → IsBalanced ts
    → IsBalanced (t ∷ ts)
unfolding IsBalanced match_from
IsBalanced-token t ts no_open no_close h depth rest =
    rw (no_open, no_close) (rw (h depth rest) (before-prepend t ts (match_from depth rest)))

IsBalanced-nil : IsBalanced []
unfolding IsBalanced
IsBalanced-nil depth rest = sym (prepend_nil (match_from depth rest))

IsBalanced-append : (ts us : List GoTok) → IsBalanced ts → IsBalanced us → IsBalanced (ts ++ us)
unfolding IsBalanced
IsBalanced-append ts us h k depth rest = rw (append_assoc ts us rest) (
    h depth (us ++ rest)
    ∙ (ap (prepend ts) (k depth rest) ∙ prepend-append ts us (match_from depth rest)))

-- Two balanced ranges with a token between them that is no bracket.
IsBalanced-between :
    (t : GoTok) (ts us : List GoTok)
    → opens all_brackets t.kind ≡ false
    → closes all_brackets t.kind ≡ false
    → IsBalanced ts
    → IsBalanced us
    → IsBalanced (ts ++ t ∷ us)
IsBalanced-between t ts us no_open no_close h k =
    IsBalanced-append ts (t ∷ us) h (IsBalanced-token t us no_open no_close k)

closing :
    (depth : ℕ) (rest : List GoTok)
    → match_from (suc depth) (tok go_rp (codes ")") ∷ rest)
      ≡ before (tok go_rp (codes ")")) (match_from depth rest)
unfolding match_from
closing depth rest =
    let inner : (suc depth == 0) ≡ false = ground arith in
    let upper : suc depth - 1 ≡ depth = omega arith in rw (inner, upper) refl

IsBalanced-brackets : (ts : List GoTok) → IsBalanced ts → IsBalanced (in_brackets ts)
unfolding IsBalanced match_from
IsBalanced-brackets ts h depth rest =
    let close = tok go_rp (codes ")") in
    rw (append_assoc ts (close ∷ []) rest) (
      ap (before (tok go_lp (codes "("))) (h (suc depth) (close ∷ rest))
      ∙ (ap (λ o. before (tok go_lp (codes "(")) (prepend ts o)) (closing depth rest)
          ∙ around ts (match_from depth rest)))

method_call-IsBalanced :
    (pkg meth : Bytes) (ts : List GoTok) → IsBalanced ts → IsBalanced (method_call pkg meth ts)
method_call-IsBalanced pkg meth ts h =
    IsBalanced-token _ _ refl refl
      (IsBalanced-token _ _ refl refl (IsBalanced-token _ _ refl refl (IsBalanced-brackets ts h)))

pub tokens-IsBalanced : (e : Expr) → IsBalanced (tokens e)
tokens-IsBalanced (name w) = IsBalanced-token _ [] refl refl IsBalanced-nil
tokens-IsBalanced (number s) = IsBalanced-token _ [] refl refl IsBalanced-nil
tokens-IsBalanced (string s) = IsBalanced-token _ [] refl refl IsBalanced-nil
tokens-IsBalanced nil = IsBalanced-token _ [] refl refl IsBalanced-nil
tokens-IsBalanced (negated e) = IsBalanced-token _ (tokens e) refl refl (tokens-IsBalanced e)
tokens-IsBalanced (grouped e) = IsBalanced-brackets (tokens e) (tokens-IsBalanced e)
tokens-IsBalanced (binary op e f) =
    IsBalanced-between _ (tokens e) (tokens f) refl refl (tokens-IsBalanced e) (tokens-IsBalanced f)
tokens-IsBalanced (call fn e) =
    method_call-IsBalanced (fn_of fn).0 (fn_of fn).1 (tokens e) (tokens-IsBalanced e)
tokens-IsBalanced (call_two fn e f) = method_call-IsBalanced (codes "math") (method_of fn) _ (
    IsBalanced-between _ (tokens e) (tokens f) refl refl (tokens-IsBalanced e)
      (tokens-IsBalanced f))
tokens-IsBalanced (converted type e) =
    IsBalanced-token _ _ refl refl (IsBalanced-brackets (tokens e) (tokens-IsBalanced e))

pub pair-IsBalanced : (e f : Expr) → IsBalanced (tokens e ++ tok go_comma (codes ",") ∷ tokens f)
pair-IsBalanced e f =
    IsBalanced-between _ (tokens e) (tokens f) refl refl (tokens-IsBalanced e) (tokens-IsBalanced f)

-- The match of the bracket around balanced tokens.
pub go_match-brackets :
    (ts rest : List GoTok)
    → IsBalanced ts
    → go_match (in_brackets ts ++ rest) ≡ some (ts, tok go_rp (codes ")"), rest)
unfolding go_match match_from IsBalanced
go_match-brackets ts rest h =
    let close = tok go_rp (codes ")") in
    rw (append_assoc ts (close ∷ []) rest)
      (h 0 (close ∷ rest) ∙ ap (λ x. some (x, close, rest)) (append-nil ts))
