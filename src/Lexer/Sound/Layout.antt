-- ===== src/Lexer/Sound/Layout.antt =====
-- What the rounds at a newline keep.
use plx.Lexer.Sound.{
  Spans, levels, IsStack, IsLine, opened, IsIndents, IsTooDeep, IsSound, skip-IsSound, push-IsSound,
}
use plx.Lexer.Sound.Ahead.{ahead-IsLine}
use plx.Lexer.Layout.{indent_from, max_indents, pop_indents, top, dedents, layout}
use plx.Lexer.Rounds.{is_indent, LexState, newline_layout, newline_round}
use plx.Lexer.Token.{Tok, token, suppress_newline, t_newline, t_dedent}
use plx.Prelude.Result.{Result, ok, err, ◌>>=◌}
use plx.Prelude.Suffix.{IsSuffix, whole, behind, drop-eq_suffix}
use plx.Prelude.{
  ℕ, zero, suc, ◌+◌, ◌-◌, ◌<◌, Bytes, length, drop, true, false, not, ◌&&◌, ◌||◌, ltb, leb, ◌==◌,
  All, ltb→lt, leb→le, leb-false, if-case, List, [], ◌∷◌, some, ◌≡◌, inl, inr, refl, ap, Bool-cases,
  arith,
}
use plx.Surface.Defs.{PlxSurface}

-- Tokens of no length, all at one place.
pub drop_none : (p : Bytes) → drop (length p - length p) p ≡ p
drop_none p = drop-eq_suffix whole

pub dedents-Spans : (n line : ℕ) (p : Bytes) → Spans p (dedents n (token t_dedent line p p)) p
dedents-Spans zero line p = whole
dedents-Spans (suc n) line p = (whole, omega arith, rw (drop_none p) (dedents-Spans n line p))

pub dedents-levels :
    (n m line : ℕ) (p : Bytes) → levels (n + m) (dedents n (token t_dedent line p p)) ≡ some m
dedents-levels zero m line p = ap (λ k. some k) (omega arith)
dedents-levels (suc n) m line p =
    let e : suc n + m ≡ suc (n + m) = omega arith in rw e (dedents-levels n m line p)

pop_indents-IsStack :
    (col : ℕ) (st : List ℕ)
    → IsStack st
    → let (n, kept) = pop_indents col st in IsStack kept × (n + length kept ≡ length st)
unfolding pop_indents
pop_indents-IsStack col [] h = absurd h
pop_indents-IsStack col (x ∷ []) h = ground arith
pop_indents-IsStack col (x ∷ y ∷ st) h = ground (arith, pop_indents-IsStack col (y ∷ st) h.1)

abbrev IsMade : PlxSurface → Bytes → List ℕ → Bytes → Result (List Tok × List ℕ) → Type 0
IsMade surf body st p (err e) = IsTooDeep surf body e
IsMade surf body st p (ok (toks, kept)) =
    Spans p toks p
    × (levels (length st - 1) toks ≡ some (length kept - 1))
    × IsIndents surf body kept

-- The levels that stay are of those that were open.
pop_indents-All :
    (P : ℕ → Type 0) (col : ℕ) (st : List ℕ)
    → All P (opened st)
    → All P (opened (pop_indents col st).1)
unfolding pop_indents
pop_indents-All P col [] h = tt
pop_indents-All P col (x ∷ []) h = tt
pop_indents-All P col (x ∷ y ∷ st) h =
    if-case (λ (p : ℕ × List ℕ). All P (opened p.1)) (ltb col x)
      (pop_indents-All P col (y ∷ st) h.1) h

opened-IsStack : (z : ℕ) (st : List ℕ) → IsStack (z ∷ st) → IsStack (z ∷ opened st)
opened-IsStack z [] h = tt
opened-IsStack z (x ∷ []) h = tt
opened-IsStack z (x ∷ y ∷ st) h = (h.0, opened-IsStack x (y ∷ st) h.1)

length-opened : (st : List ℕ) → length (opened st) ≡ length st - 1
length-opened [] = refl
length-opened (x ∷ []) = refl
length-opened (x ∷ y ∷ st) = omega (arith, length-opened (y ∷ st))

opened-cons :
    (P : ℕ → Type 0) (col : ℕ) (st : List ℕ)
    → IsStack st
    → P col
    → All P (opened st)
    → All P (opened (col ∷ st))
opened-cons P col [] h at all = absurd h
opened-cons P col (x ∷ st) h at all = (at, all)

IsStack-pos : (st : List ℕ) → IsStack st → 0 < length st
IsStack-pos [] h = absurd h
IsStack-pos (x ∷ st) h = omega arith

IsStack-cons : (col : ℕ) (st : List ℕ) → IsStack st → ltb (top st) col ≡ true → IsStack (col ∷ st)
IsStack-cons col [] h lt = absurd h
IsStack-cons col (x ∷ st) h lt = (ltb→lt x col lt, h)

layout-IsMade :
    (surf : PlxSurface) (body : Bytes) (line : ℕ) (p : Bytes) (col : ℕ) (st : List ℕ)
    → is_indent surf.block_style ≡ true
    → IsIndents surf body st
    → IsLine body col
    → IsMade surf body st p (layout line p col st)
unfolding layout
layout-IsMade surf body line p col st style held at =
    let pos = IsStack-pos st held.0 in
    elim (Bool-cases (ltb (top st) col)) [
      | inl deeper ↦ elim (Bool-cases (leb max_indents (length st))) [
        | inl full ↦
            let deep : length st ≡ max_indents =
              omega (arith, held.1, leb→le max_indents (length st) full) in
            rw (deeper, full)
              (
                style,
                (line, refl),
                (
                  col ∷ opened st,
                  omega (arith, deep, length-opened st),
                  opened-IsStack col st (IsStack-cons col st held.0 deeper),
                  (at, held.3),
                ),
              )
        | inr room ↦
            let small = leb-false max_indents (length st) room in
            let free : leb (max_indents - 1) (length st - 1) ≡ false = ground (arith, small, pos) in
            rw (deeper, room)
              (
                (whole, omega arith, rw (drop_none p) whole),
                rw (free, levels) (ap (λ k. some k) (omega (arith, pos))),
                (
                  IsStack-cons col st held.0 deeper,
                  omega (arith, small),
                  inl style,
                  opened-cons (IsLine body) col st held.0 at held.3,
                ),
              )
      ]
      | inr ends ↦
          let (n, kept) = pop_indents col st in
          let (stack, count) = pop_indents-IsStack col st held.0 in
          let e : length st - 1 ≡ n + (length kept - 1) =
            omega (arith, count, IsStack-pos kept stack) in
          rw ends (
            dedents-Spans n line p,
            rw e (dedents-levels n (length kept - 1) line p),
            (
              stack,
              omega (arith, count, held.1),
              inl style,
              pop_indents-All (IsLine body) col st held.3,
            ),
          )
    ]

module _ (surf : PlxSurface) (body : Bytes) (st : LexState) (c : ℕ) (r : Bytes)
    (held : IsIndents surf body st.indents) where
  -- The levels that a newline makes, behind its token.
  made-IsSound :
      (st' : LexState) (line : ℕ) (m : Result (List Tok × List ℕ))
      → IsMade surf body st.indents r m
      → IsSound surf body st c r (
          m >>= λ made. ok (record {
            toks = token t_newline line r r ∷ made.0;
            state = record st' { indents = made.1 };
            left = r;
          }))
  made-IsSound st' line (err e) h = h
  made-IsSound st' line (ok (toks, kept)) h =
      (whole, (behind c whole, omega arith, rw (drop_none r) h.0), h.1, h.2)

  newline_layout-IsSound :
      (lines col : ℕ) (ahead : Bytes)
      → is_indent surf.block_style ≡ true
      → (0 < length ahead → IsLine body col)
      → IsSound surf body st c r (newline_layout st lines col ahead r)
  unfolding newline_layout
  newline_layout-IsSound lines col [] style line =
      push-IsSound surf body st c r held (record st { line = suc st.line + lines })
        (token t_newline (suc st.line) r r) r refl (λ n. refl) refl (behind c whole) refl whole
        whole
  newline_layout-IsSound lines col (d ∷ ahead) style line =
      made-IsSound (record st { line = suc st.line + lines }) (suc st.line)
        (layout (suc st.line + lines) r col st.indents)
        (layout-IsMade surf body (suc st.line + lines) r col st.indents style held
          (line (omega arith)))

  pub newline_round-IsSound :
      (c == b'\n') ≡ true
      → IsSuffix (c ∷ r) body
      → IsSound surf body st c r (newline_round surf st r)
  unfolding newline_round
  newline_round-IsSound newline here =
      let (col, lines, ahead) = indent_from false 0 0 r in
      let st' = record st { line = suc st.line } in
      if-case (IsSound surf body st c r)
        (ltb 0 st.paren || (not (is_indent surf.block_style) && suppress_newline st.prev))
        (skip-IsSound surf body st c r held st' r refl whole)
        (elim (Bool-cases (is_indent surf.block_style)) [
          | inl style ↦
              rw style
                (newline_layout-IsSound lines col ahead style (ahead-IsLine body c r newline here))
          | inr style ↦ rw style (
              push-IsSound surf body st c r held st' (token t_newline (suc st.line) r r) r refl
                (λ n. refl) refl (behind c whole) refl whole whole)
        ])
