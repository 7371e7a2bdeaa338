-- ===== src/Lexer/Sound/Text.antt =====
-- What the rounds over text keep, and a round of the loop.
use plx.Lexer.Sound.{
  IsIndents, IsSound, IsPlain, skip-IsSound, push-IsSound, token-IsSound, annotation-IsSound,
}
use plx.Lexer.Sound.Layout.{newline_round-IsSound}
use plx.Lexer.Rounds.{
  LexState, annotation_round, comment_round, fstring_round, paren_behind, mark_round, text_round,
  annotated, behind_lead, lex_round,
}
use plx.Lexer.Scan.{
  drop_while, starts, is_blank, is_space, not_newline, is_digit, trim_end_of, between, find_close,
  word_rest, word_token, number_rest, string_token, mark, dots, pipes, kw_kind,
}
use plx.Lexer.Spans.{
  drop_while-IsSuffix, find_close-IsSuffix, string_rest-IsSuffix, word_rest-IsSuffix,
  number_rest-IsSuffix, mark-IsSuffix,
}
use plx.Lexer.Token.{token, t_ident, t_int, t_float}
use plx.Prelude.Suffix.{IsSuffix, whole, behind, IsSuffix-trans, drop-IsSuffix}
use plx.Prelude.{
  ℕ, Bytes, length, drop, true, false, ◌&&◌, ◌||◌, ◌==◌, ltb, if◌then◌else◌, if-case, if-split, [],
  ◌∷◌, Option, none, some, ◌≡◌, refl, arith,
}
use plx.Surface.Defs.{PlxSurface, Kw, kw_none}
use plx.Ternary.{string_rest}
use plx.Ts.Scan.{is_ident_start, is_ident}

module _ (surf : PlxSurface) (body : Bytes) (st : LexState) (c : ℕ) (r : Bytes)
    (held : IsIndents surf body st.indents) where
  annotation_round-IsSound :
      (p : Bytes)
      → IsSuffix (drop_while not_newline (drop_while is_blank p)) r
      → IsSound surf body st c r (annotation_round st p)
  unfolding annotation_round
  annotation_round-IsSound p h =
      let from = drop_while is_blank p in
      let to = drop_while not_newline from in
      annotation-IsSound surf body st c r held st.line (trim_end_of is_space (between from to)) to h

  comment_round-IsSound : (p : Bytes) → IsSuffix p r → IsSound surf body st c r (comment_round st p)
  unfolding comment_round
  comment_round-IsSound p h =
      let q = drop_while is_blank p in
      let from = drop_while is_blank (drop 2 q) in
      let inside : IsSuffix from r =
        IsSuffix-trans (drop_while-IsSuffix is_blank (drop 2 q)) (
          IsSuffix-trans (drop-IsSuffix 2 q) (IsSuffix-trans (drop_while-IsSuffix is_blank p) h)) in
      if-case (IsSound surf body st c r)
        (starts (λ x. x == b':') q && starts (λ x. x == b':') (drop 1 q))
        (annotation-IsSound surf body st c r held st.line
          (trim_end_of is_blank (between from (find_close from))) _
          (IsSuffix-trans (drop-IsSuffix 2 (find_close from))
            (IsSuffix-trans (find_close-IsSuffix from) inside)))
        (skip-IsSound surf body st c r held st _ refl (
          IsSuffix-trans (drop-IsSuffix 2 (find_close p))
            (IsSuffix-trans (find_close-IsSuffix p) h)))

kw_kind-IsPlain : (k : Kw) → IsPlain (kw_kind k)
kw_kind-IsPlain kw_none n = refl
kw_kind-IsPlain _ n = refl

dots-IsPlain : (r : Bytes) → IsPlain (dots r).0
dots-IsPlain r n = ground arith

pipes-IsPlain : (r : Bytes) → IsPlain (pipes r).0
pipes-IsPlain r n = ground arith

mark-IsPlain : (c : ℕ) (r : Bytes) → IsPlain (mark c r).0
unfolding mark
mark-IsPlain c r n = ground (arith, dots-IsPlain r n, pipes-IsPlain r n)

-- The lead of an annotation, and the rest of its line, pass the byte where the lead stands.
behind_lead-IsSuffix :
    (lead : Option Bytes) (c : ℕ) (r : Bytes)
    → is_space c ≡ false
    → (c == b'\n') ≡ false
    → annotated lead (c ∷ r) ≡ true
    → IsSuffix (drop_while not_newline (drop_while is_blank (behind_lead lead (c ∷ r)))) r
unfolding drop_while
behind_lead-IsSuffix none c r space line h = cc
behind_lead-IsSuffix (some []) c r space line h =
    let blank : is_blank c ≡ false = ground arith in
    rw blank (rw line (drop_while-IsSuffix not_newline r))
behind_lead-IsSuffix (some (x ∷ w)) c r space line h =
    IsSuffix-trans (drop_while-IsSuffix not_newline _)
      (IsSuffix-trans (drop_while-IsSuffix is_blank _) (drop-IsSuffix (length w) r))

fstring_round-IsSound :
    (surf : PlxSurface) (body : Bytes) (st : LexState) (c : ℕ) (r : Bytes)
    → IsIndents surf body st.indents
    → IsSound surf body st c r (fstring_round st c r)
unfolding fstring_round
fstring_round-IsSound surf body st c [] held = skip-IsSound surf body st c [] held st [] refl whole
fstring_round-IsSound surf body st c (q ∷ r) held =
    let rest = string_rest q r in
    let left = behind q (string_rest-IsSuffix q r) in
    push-IsSound surf body st c (q ∷ r) held st (string_token st.line q true (c ∷ q ∷ r) rest) rest
      refl (λ n. refl) refl whole refl (behind c left) left

module _ (surf : PlxSurface) (body : Bytes) (st : LexState) (c : ℕ) (r : Bytes)
    (held : IsIndents surf body st.indents) where
  text_round-IsSound : IsSound surf body st c r (text_round surf st c r)
  unfolding text_round mark_round word_token
  text_round-IsSound =
      let P = IsSound surf body st c r in
      if-split P (ltb 0 surf.var_sigil && c == surf.var_sigil && starts is_ident_start r)
        (λ _.
          push-IsSound surf body st c r held st (token t_ident st.line r (drop_while is_ident r))
            (drop_while is_ident r) refl (λ n. refl) refl (behind c whole) refl
            (drop_while-IsSuffix is_ident r) (drop_while-IsSuffix is_ident r))
        (λ _.
          if-split P
            (surf.fstrings && (c == b'f' || c == b'F') && starts (λ d. d == b'"' || d == b'\'') r)
            (λ _. fstring_round-IsSound surf body st c r held)
            (λ _.
              if-split P (is_ident_start c)
                (λ first.
                  push-IsSound surf body st c r held st (word_token surf st.line (c ∷ r))
                    (word_rest (c ∷ r)) refl (kw_kind-IsPlain _) refl whole refl
                    (behind c (word_rest-IsSuffix c r first)) (word_rest-IsSuffix c r first))
                (λ _.
                  if-split P (is_digit c)
                    (λ _.
                      token-IsSound surf body st c r held st
                        (if (number_rest c r).1 then t_float else t_int) st.line (number_rest c r).0
                        refl (if-case (λ k. IsPlain k) (number_rest c r).1 (λ n. refl) (λ n. refl))
                        (number_rest-IsSuffix c r))
                    (λ _.
                      if-case P (c == b'\'' || c == b'"' || c == b'`')
                        (push-IsSound surf body st c r held st
                          (string_token st.line c false (c ∷ r) (string_rest c r)) (string_rest c r)
                          refl (λ n. refl) refl whole refl (behind c (string_rest-IsSuffix c r))
                          (string_rest-IsSuffix c r))
                        (token-IsSound surf body st c r held
                          (record st { paren = paren_behind (mark c r).0 st.paren }) (mark c r).0
                          st.line (mark c r).1 refl (mark-IsPlain c r) (mark-IsSuffix c r))))))

  pub lex_round-IsSound : IsSuffix (c ∷ r) body → IsSound surf body st c r (lex_round surf st c r)
  unfolding lex_round
  lex_round-IsSound here =
      let P = IsSound surf body st c r in
      let to_newline = drop_while-IsSuffix not_newline r in
      if-split P (is_space c) (λ _. skip-IsSound surf body st c r held st r refl whole)
        (λ space.
          if-split P (c == b'\n')
            (λ newline. newline_round-IsSound surf body st c r held newline here)
            (λ line.
              if-split P (annotated surf.type_ann (c ∷ r))
                (λ lead.
                  annotation_round-IsSound surf body st c r held (behind_lead surf.type_ann (c ∷ r))
                    (behind_lead-IsSuffix surf.type_ann c r space line lead))
                (λ _.
                  if-case P (surf.cmt_block && c == b'/' && starts (λ d. d == b'*') r)
                    (comment_round-IsSound surf body st c r held (drop 1 r) (drop-IsSuffix 1 r))
                    (if-case P (surf.cmt_hash && c == b'#')
                      (skip-IsSound surf body st c r held st (drop_while not_newline r) refl
                        to_newline)
                      (if-case P (surf.cmt_slash && c == b'/' && starts (λ d. d == b'/') r)
                        (skip-IsSound surf body st c r held st (drop_while not_newline r) refl
                          to_newline)
                        (text_round-IsSound))))))
