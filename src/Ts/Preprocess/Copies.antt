-- ===== src/Ts/Preprocess/Copies.antt =====
-- The pass ends on every source, and copies one that has no colon byte for byte.
use mathlib.Core.Path.{subst}
use plx.Prelude.{
  ℕ, zero, suc, ◌<◌, Bytes, length, All, Bool, true, Option-cases, [], ◌∷◌, ◌++◌, Option, none,
  some, ◌≡◌, ◌≢◌, refl, ap, arith, inl, inr,
}
use plx.Ts.Preprocess.{
  TsState, behind_colon, read_annotated, Round, plain_round, comment_round, word_round, ts_round,
  preprocess_from, ts_preprocess,
}
use plx.Ts.Preprocess.Ends.{ts_round_total}
use plx.Ts.Scan.Laws.{Splits, span-Splits, ts_copy_string-Splits, comment_body-Splits}
use plx.Ts.Scan.{passed, is_ident, span, not_newline}
use plx.Ts.Types.{is_blank}

-- No colon in the text.
abbrev pub NoColon : Bytes → Type 0
NoColon = All (λ c. c ≢ b':')

NoColon-append : (xs ys : Bytes) → NoColon (xs ++ ys) → NoColon ys
NoColon-append [] ys h = h
NoColon-append (x ∷ xs) ys h = NoColon-append xs ys h.1

-- What a scan leaves of a text with no colon has none.
NoColon-left : (s : Bytes) (p : Bytes × Bytes) → Splits s p → NoColon s → NoColon p.1
NoColon-left s p e h = NoColon-append p.0 p.1 (rw e h)

behind_colon-none : (t : Bytes) → NoColon t → behind_colon t ≡ none
behind_colon-none [] h = refl
behind_colon-none (c ∷ r) h = ground arith

no_annotation : (s : Bytes) → NoColon s → read_annotated s ≡ none
unfolding read_annotated
no_annotation s h =
    let q = (span is_blank s).1 in
    let r = (span is_ident q).1 in
    let no_q = NoColon-left s (span is_blank s) (span-Splits is_blank s) h in
    let no_r = NoColon-left q (span is_ident q) (span-Splits is_ident q) no_q in
    let no_t = NoColon-left r (span is_blank r) (span-Splits is_blank r) no_r in
    ground (arith, behind_colon-none (span is_blank r).1 no_t)

-- A round that copies: what is written and what is left make up the source.
abbrev Copies : Bytes → Option Round → Type 0
Copies s none = ⊥
Copies s (some w) = w.out ++ w.left ≡ s

span_first : (p : ℕ → Bool) (c : ℕ) (r : Bytes) → p c ≡ true → span p (c ∷ r) ≡ passed c (span p r)
unfolding span
span_first p c r h = rw h refl

plain_round-Copies : (st : TsState) (c : ℕ) (r : Bytes) → Copies (c ∷ r) (some (plain_round st c r))
unfolding plain_round
plain_round-Copies st c r = ground arith

module _ (ci : Bytes → Bytes → Bool) where
  word_round-Copies :
      (st : TsState) (word rest : Bytes)
      → NoColon rest
      → Copies (word ++ rest) (word_round ci st word rest)
  unfolding word_round
  word_round-Copies st word rest h = ground (arith, no_annotation rest h)

  comment_round-Copies :
      (st : TsState) (c : ℕ) (r : Bytes) {w : Round}
      → comment_round st c r ≡ some w
      → Copies (c ∷ r) (some w)
  unfolding comment_round
  comment_round-Copies st c [] h = ground arith
  comment_round-Copies st c (d ∷ r) h =
      ground (arith, span-Splits not_newline (c ∷ d ∷ r), comment_body-Splits r)

  ts_round-Copies :
      (st : TsState) (c : ℕ) (r : Bytes) → NoColon (c ∷ r) → Copies (c ∷ r) (ts_round ci st c r)
  unfolding ts_round
  ts_round-Copies st c r h =
      let (word, rest) = span is_ident (c ∷ r) in
      let at_word : Copies (c ∷ r) (word_round ci st word rest) =
        subst (λ s. Copies s (word_round ci st word rest)) (span-Splits is_ident (c ∷ r))
          (word_round-Copies st word rest
            (NoColon-left (c ∷ r) (span is_ident (c ∷ r)) (span-Splits is_ident (c ∷ r)) h)) in
      elim (Option-cases (comment_round st c r)) [
        | inl e ↦
            rw (e, ts_round)
              (ground (arith, ts_copy_string-Splits (c ∷ r), plain_round-Copies st c r, at_word))
        | inr (w, e) ↦
            rw (e, ts_round)
              (ground (arith, ts_copy_string-Splits (c ∷ r), comment_round-Copies st c r e))
      ]

  preprocess_from-NoColon :
      (fuel : ℕ) (st : TsState) (s : Bytes)
      → length s < fuel
      → NoColon s
      → preprocess_from ci fuel st s ≡ some s
  unfolding preprocess_from
  preprocess_from-NoColon zero st s h k = elim h [ ]
  preprocess_from-NoColon (suc fuel) st [] h k = refl
  preprocess_from-NoColon (suc fuel) st (c ∷ r) h k =
      let (w, e, small) = ts_round_total ci st c r in
      let whole : w.out ++ w.left ≡ c ∷ r = subst (Copies (c ∷ r)) e (ts_round-Copies st c r k) in
      let rest =
        preprocess_from-NoColon fuel w.state w.left (omega (arith, small))
          (NoColon-left (c ∷ r) (w.out, w.left) whole k) in
      rw (e, preprocess_from, rest) (ap some whole)

  -- A source with no colon, and so with no annotation, comes through the pass as it is.
  pub ts_preprocess-NoColon : (src : Bytes) → NoColon src → ts_preprocess ci src ≡ some src
  unfolding ts_preprocess
  ts_preprocess-NoColon src k = preprocess_from-NoColon (suc (length src)) _ src (omega arith) k
