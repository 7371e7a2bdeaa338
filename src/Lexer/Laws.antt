-- ===== src/Lexer/Laws.antt =====
-- What the shared lexer makes of a body.
use mathlib.Core.Path.{subst}
use plx.Lexer.Layout.{dedents}
use plx.Lexer.Rounds.{is_indent, LexState, Round, lex_round}
use plx.Lexer.Sound.{Spans, level_behind, levels, IsIndents, IsTooDeep, IsSound}
use plx.Lexer.Sound.Layout.{dedents-Spans, dedents-levels}
use plx.Lexer.Sound.Text.{lex_round-IsSound}
use plx.Lexer.Token.{Tok, token, t_dedent, t_eof}
use plx.Lexer.{start, last_of, finish, lex_from, lex}
use plx.Prelude.Result.{Result, ok, err, map_ok, Result-cases}
use plx.Prelude.Suffix.{IsSuffix, whole, IsSuffix-trans, IsSuffix-tail, IsSuffix-le}
use plx.Prelude.{
  ℕ, zero, suc, ◌-◌, ◌<◌, Bytes, length, drop, List, [], ◌∷◌, ◌++◌, Option, none, some, ◌≡◌, inl,
  inr, refl, sym, ap, ◌∙◌, arith, Bool-cases, Option-cases,
}
use plx.Surface.Defs.{PlxSurface}

Spans-mono : (p q : Bytes) (us : List Tok) (s : Bytes) → IsSuffix q p → Spans q us s → Spans p us s
Spans-mono p q [] s h k = IsSuffix-trans k h
Spans-mono p q (t ∷ ts) s h k = elim (Option-cases t.ann) [
  | inl e ↦ let at = rw e at k in rw e (IsSuffix-trans at.0 h, at.1, at.2)
  | inr (text, e) ↦ let at = rw e at k in rw e (at.0, at.1, Spans-mono p q ts s h at.2)
]

Spans-append :
    (p : Bytes) (ts us : List Tok) (q s : Bytes)
    → Spans p ts q
    → Spans q us s
    → Spans p (ts ++ us) s
Spans-append p [] us q s h k = Spans-mono p q us s h k
Spans-append p (t ∷ ts) us q s h k = elim (Option-cases t.ann) [
  | inl e ↦ let at = rw e at h in rw e (at.0, at.1, Spans-append (drop t.len t.s) ts us q s at.2 k)
  | inr (text, e) ↦ let at = rw e at h in rw e (at.0, at.1, Spans-append p ts us q s at.2 k)
]

levels-append :
    (n m : ℕ) (ts us : List Tok) → levels n ts ≡ some m → levels n (ts ++ us) ≡ levels m us
levels-append n m [] us h = ground (arith, h)
levels-append n m (t ∷ ts) us h = elim (Option-cases (level_behind t.kind n)) [
  | inl e ↦ let bad : ◌≡◌ {A = Option ℕ} none (some m) = rw (e, levels) at h in cc
  | inr (k, e) ↦
      let more : levels k ts ≡ some m = rw (e, levels) at h in
      rw (e, levels) (levels-append k m ts us more)
]

module _ (surf : PlxSurface) (body : Bytes) where
  -- From a pointer on, with so many levels open: all is closed and in its place at the end, or the
  -- indentation is too deep.
  abbrev IsLexed : ℕ → Bytes → Result (List Tok) → Type 0
  IsLexed n p (err e) = IsTooDeep surf body e
  IsLexed n p (ok ts) = Spans p ts [] × (levels n ts ≡ some 0)

  finish-IsLexed :
      (st : LexState)
      → IsIndents surf body st.indents
      → IsLexed (length st.indents - 1) [] (ok (finish surf st))
  unfolding finish
  finish-IsLexed st held =
      let last = token t_eof st.line [] [] ∷ [] in
      let closed = dedents (length st.indents - 1) (token t_dedent st.line [] []) in
      elim (Bool-cases (is_indent surf.block_style)) [
        | inl style ↦
            let closes : levels (length st.indents - 1) closed ≡ some 0 =
              ap (λ n. levels n closed) (omega arith)
              ∙ dedents-levels (length st.indents - 1) 0 st.line [] in
            rw style (
              (
                whole,
                omega arith,
                Spans-append [] closed last [] [] (dedents-Spans (length st.indents - 1) st.line [])
                    (whole, omega arith, whole),
              ),
              levels-append (length st.indents - 1) 0 closed last closes,
            )
        | inr style ↦
            let flat : length st.indents - 1 ≡ 0 = ground arith in
            rw (style, flat) ((whole, omega arith, (whole, omega arith, whole)), refl)
      ]

  -- The tokens of a round in front of the rest.
  round_first :
      (n m : ℕ) (p : Bytes) (w : Round) (res : Result (List Tok))
      → Spans p w.toks w.left
      → levels n w.toks ≡ some m
      → IsLexed m w.left res
      → IsLexed n p (map_ok (λ ts. w.toks ++ ts) res)
  round_first n m p w (err e) spans level good = good
  round_first n m p w (ok ts) spans level good =
      (Spans-append p w.toks ts w.left [] spans good.0, levels-append n m w.toks ts level ∙ good.1)

  lex_from-IsLexed :
      (fuel : ℕ) (st : LexState) (r : Bytes)
      → length r < fuel
      → IsIndents surf body st.indents
      → IsSuffix r body
      → (res : Result (List Tok)) × (lex_from surf fuel st r ≡ some res)
        × IsLexed (length st.indents - 1) r res
  unfolding lex_from
  lex_from-IsLexed zero st r small held here = absurd (omega arith)
  lex_from-IsLexed (suc fuel) st [] small held here =
      (ok (finish surf st), refl, finish-IsLexed st held)
  lex_from-IsLexed (suc fuel) st (c ∷ r) small held here =
      let sound = lex_round-IsSound surf body st c r held here in
      elim (Result-cases (lex_round surf st c r)) [
        | inl (e, q) ↦
            let deep : IsTooDeep surf body e = rw q at sound in (err e, rw (q, lex_from) refl, deep)
        | inr (w, q) ↦
            let kept : IsSound surf body st c r (ok w) = rw q at sound in
            let st' = record w.state { prev = last_of st.prev w.toks } in
            let (res, made, good) =
              lex_from-IsLexed fuel st' w.left (omega (arith, IsSuffix-le kept.0)) kept.3
                (IsSuffix-trans kept.0 (IsSuffix-tail here)) in
            (
              map_ok (λ ts. w.toks ++ ts) res,
              rw (q, lex_from) (rw made refl),
              round_first (length st.indents - 1) (length w.state.indents - 1) (c ∷ r) w res kept.1
                  kept.2 good,
            )
      ]

-- A result is an error only for levels too deep.
abbrev pub Refused : PlxSurface → Bytes → Result (List Tok) → Type 0
Refused surf body (err e) = IsTooDeep surf body e
Refused surf body (ok toks) = Unit

refused :
    (surf : PlxSurface) (body : Bytes) (n : ℕ) (p : Bytes) (res : Result (List Tok))
    → IsLexed surf body n p res
    → Refused surf body res
refused surf body n p (err e) good = good
refused surf body n p (ok toks) good = tt

some-injective {ℓ} : {A : Type ℓ} {a b : A} → ◌≡◌ {A = Option A} (some a) (some b) → a ≡ b
some-injective h = cc

start-IsIndents : (surf : PlxSurface) (body : Bytes) → IsIndents surf body (start surf body).indents
start-IsIndents surf body = (tt, omega arith, inr refl, tt)

-- On every body the lexer ends; it refuses a body only in the indented style, and only where the
-- text in 128 of its lines begins at 128 different columns, and then with the report that the
-- indentation is nested too deeply.
pub lex_total :
    (surf : PlxSurface) (body : Bytes)
    → (res : Result (List Tok)) × (lex surf body ≡ some res) × Refused surf body res
unfolding lex
lex_total surf body =
    let (res, made, good) =
      lex_from-IsLexed surf body (suc (length body)) (start surf body) body (omega arith)
        (start-IsIndents surf body) whole in
    (res, made, refused surf body 0 body res good)

module _ (surf : PlxSurface) (body : Bytes) (toks : List Tok)
    (made : lex surf body ≡ some (ok toks)) where
  lex-IsLexed : IsLexed surf body 0 body (ok toks)
  unfolding lex
  lex-IsLexed =
      let (res, made', good) =
        lex_from-IsLexed surf body (suc (length body)) (start surf body) body (omega arith)
          (start-IsIndents surf body) whole in
      let same : res ≡ ok toks = some-injective (sym made' ∙ made) in
      subst (λ x. IsLexed surf body 0 body x) same good

  -- The tokens of a body stand in it one behind the other, and span no byte behind its end.
  pub lex-Spans : Spans body toks []
  lex-Spans = lex-IsLexed.0

  -- Every level that a token opens a later one closes, no token closes one that is not open, and
  -- never are more than 127 open.
  pub lex-levels : levels 0 toks ≡ some 0
  lex-levels = lex-IsLexed.1
