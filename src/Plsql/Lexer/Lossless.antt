-- ===== src/Plsql/Lexer/Lossless.antt =====
-- What `pl_lex` keeps: each scan splits the bytes it is given, and the tokens span the body.
use mathlib.Core.Option
use mathlib.Core.Path.{subst}
use plx.Plsql.Lexer.{
  passed, line_comment, block_comment, trivia_round, trivia, string_body, quoted_body, word_body,
  number_stops, number_body, punct, is_letter, is_digit, token, eof, lex_from, pl_lex, pl_word_char,
}
use plx.Plsql.Token.{PlTok, source_of, is_eof, Ended}
use plx.Prelude.{
  ℕ, zero, suc, ◌<◌, ◌≤◌, Bytes, List-cases, Option-cases, length, length-append, List, [], ◌∷◌,
  ◌++◌, ◌||◌, ◌==◌, true, false, append-nil, append_assoc, some, ◌≡◌, refl, ap, arith, inl, inr,
  ◌∙◌, ◌⊎◌,
}

-- What a scan passed and what it left make up what it was given.
abbrev pub Splits : Bytes → Bytes × Bytes → Type 0
Splits r (taken, rest) = taken ++ rest ≡ r

passed-Splits : (c : ℕ) (r : Bytes) (p : Bytes × Bytes) → Splits r p → Splits (c ∷ r) (passed c p)
passed-Splits c r p h = ap (◌∷◌ c) h

line_comment-Splits : (r : Bytes) → Splits r (line_comment r)
unfolding line_comment
line_comment-Splits [] = refl
line_comment-Splits (c ∷ r) = ground (arith, line_comment-Splits r)

block_comment-Splits : (r : Bytes) → Splits r (block_comment r)
unfolding block_comment
block_comment-Splits [] = refl
block_comment-Splits (c ∷ []) = refl
block_comment-Splits (c ∷ d ∷ r) = ground (arith, block_comment-Splits (d ∷ r))

trivia_round-Splits : (r : Bytes) → Splits r (trivia_round r)
unfolding trivia_round
trivia_round-Splits [] = refl
trivia_round-Splits (c ∷ []) = ground arith
trivia_round-Splits (c ∷ d ∷ r) =
    ground (arith, line_comment-Splits (c ∷ d ∷ r), block_comment-Splits r)

trivia-Splits : (fuel : ℕ) (r : Bytes) → Splits r (trivia fuel r)
unfolding trivia
trivia-Splits zero r = refl
trivia-Splits (suc fuel) r = ground (
  arith,
  trivia_round-Splits r,
  trivia-Splits fuel (trivia_round r).1,
  append_assoc (trivia_round r).0 (trivia fuel (trivia_round r).1).0
      (trivia fuel (trivia_round r).1).1,
)

string_body-Splits : (r : Bytes) → Splits r (string_body r)
unfolding string_body
string_body-Splits [] = refl
string_body-Splits (c ∷ []) = refl
string_body-Splits (c ∷ d ∷ r) = ground (arith, string_body-Splits r, string_body-Splits (d ∷ r))

quoted_body-Splits : (r : Bytes) → Splits r (quoted_body r)
unfolding quoted_body
quoted_body-Splits [] = refl
quoted_body-Splits (c ∷ r) = ground (arith, quoted_body-Splits r)

word_body-Splits : (r : Bytes) → Splits r (word_body r)
unfolding word_body
word_body-Splits [] = refl
word_body-Splits (c ∷ r) = ground (arith, word_body-Splits r)

number_body-Splits : (prev : ℕ) (r : Bytes) → Splits r (number_body prev r)
unfolding number_body
number_body-Splits prev [] = refl
number_body-Splits prev (c ∷ r) = ground (arith, number_body-Splits c r)

punct-Splits : (c : ℕ) (r : Bytes) → Splits (c ∷ r) (punct c r)
unfolding punct
punct-Splits c [] = refl
punct-Splits c (d ∷ r) = ground arith

-- A token's text and what is left behind it.
token-Splits :
    (pre : Bytes) (c : ℕ) (r : Bytes)
    → let (t, rest) = token pre c r in (t.s ++ rest ≡ c ∷ r) × (t.pre ≡ pre)
unfolding token
token-Splits pre c r = ground (
  arith,
  string_body-Splits r,
  quoted_body-Splits r,
  word_body-Splits (c ∷ r),
  number_body-Splits c (c ∷ r),
  punct-Splits c r,
)

word_first : (c : ℕ) → (is_letter c || c == b'_') ≡ true → pl_word_char c ≡ true
unfolding pl_word_char
word_first c h = ground arith

number_first : (c : ℕ) (r : Bytes) → is_digit c ≡ true → number_stops c c r ≡ false
unfolding number_stops
number_first c r h = ground arith

punct-Nonempty : (c : ℕ) (r : Bytes) → 0 < length (punct c r).0
unfolding punct
punct-Nonempty c [] = omega arith
punct-Nonempty c (d ∷ r) = ground arith

-- Every token takes a byte at least.
token-Nonempty : (pre : Bytes) (c : ℕ) (r : Bytes) → 0 < length (token pre c r).0.s
unfolding token word_body number_body
token-Nonempty pre c r = ground (arith, word_first c, number_first c r, punct-Nonempty c r)

token-progress : (pre : Bytes) (c : ℕ) (r : Bytes) → length (token pre c r).1 ≤ length r
token-progress pre c r =
    let (t, rest) = token pre c r in
    omega
      (arith, token-Nonempty pre c r, ap length (token-Splits pre c r).0, length-append t.s rest)

trivia-progress : (fuel : ℕ) (r : Bytes) → length (trivia fuel r).1 ≤ length r
trivia-progress fuel r =
    omega
      (arith, ap length (trivia-Splits fuel r), length-append (trivia fuel r).0 (trivia fuel r).1)

module _ (fuel : ℕ) (r : Bytes) where
  pre : Bytes
  pre = (trivia (suc (length r)) r).0

  left : Bytes
  left = (trivia (suc (length r)) r).1

  -- A round of the outer loop: the end of the body, or a token and what is behind it.
  lex_from_round :
      ((left ≡ []) × (lex_from (suc fuel) r ≡ some (eof pre ∷ [])))
      ⊎ ((c : ℕ) × (more : Bytes) × (left ≡ c ∷ more)
          × (lex_from (suc fuel) r
              ≡ Option.map (λ ts. (token pre c more).0 ∷ ts) (lex_from fuel (token pre c more).1)))
  unfolding lex_from pre left
  lex_from_round = elim (List-cases left) [
    | inl e ↦ inl (e, rw (e, lex_from) refl)
    | inr (c, more, e) ↦ inr (c, more, e, rw (e, lex_from) refl)
  ]

lex_from_total :
    (fuel : ℕ) (r : Bytes) → length r < fuel → (ts : List PlTok) × (lex_from fuel r ≡ some ts)
unfolding left
lex_from_total zero r h = elim h [ ]
lex_from_total (suc fuel) r h = elim (lex_from_round fuel r) [
  | inl (e, q) ↦ (eof (pre fuel r) ∷ [], q)
  | inr (c, more, e, q) ↦
      let (t, rest) = token (pre fuel r) c more in
      let (ts, p) = lex_from_total fuel rest (
        omega (
          arith,
          ap length e,
          token-progress (pre fuel r) c more,
          trivia-progress (suc (length r)) r,
        )) in
      (t ∷ ts, q ∙ rw p refl)
]

split_at_trivia : (fuel : ℕ) (r : Bytes) → pre fuel r ++ left fuel r ≡ r
unfolding pre left
split_at_trivia fuel r = trivia-Splits (suc (length r)) r

lex_from-source_of :
    (fuel : ℕ) (r : Bytes) {ts : List PlTok} → lex_from fuel r ≡ some ts → source_of ts ≡ r
unfolding lex_from
lex_from-source_of zero r h = ground arith
lex_from-source_of (suc fuel) r {ts} h = elim (lex_from_round fuel r) [
  | inl (e, q) ↦ ground (arith, split_at_trivia fuel r, append-nil (pre fuel r))
  | inr (c, more, e, q) ↦
      let (t, rest) = token (pre fuel r) c more in
      elim (Option-cases (lex_from fuel rest)) [
        | inl stop ↦ ground arith
        | inr (us, p) ↦ ground (
          arith,
          lex_from-source_of fuel rest p,
          token-Splits (pre fuel r) c more,
          split_at_trivia fuel r,
        )
      ]
]

token-kind : (pre : Bytes) (c : ℕ) (r : Bytes) → is_eof (token pre c r).0.kind ≡ false
unfolding token
token-kind pre c r = ground arith

Ended-cons : (t : PlTok) (ts : List PlTok) → is_eof t.kind ≡ false → Ended ts → Ended (t ∷ ts)
Ended-cons t [] h e = absurd e
Ended-cons t (u ∷ ts) h e = (h, e)

lex_from-Ended : (fuel : ℕ) (r : Bytes) {ts : List PlTok} → lex_from fuel r ≡ some ts → Ended ts
unfolding lex_from
lex_from-Ended zero r h = ground arith
lex_from-Ended (suc fuel) r {ts} h = elim (lex_from_round fuel r) [
  | inl (e, q) ↦
      let same : eof (pre fuel r) ∷ [] ≡ ts = ground arith in subst Ended same (refl, refl)
  | inr (c, more, e, q) ↦
      let (t, rest) = token (pre fuel r) c more in
      elim (Option-cases (lex_from fuel rest)) [
        | inl stop ↦ absurd (ground arith)
        | inr (us, p) ↦
            let same : t ∷ us ≡ ts = ground arith in
            subst Ended same
              (Ended-cons t us (token-kind (pre fuel r) c more) (lex_from-Ended fuel rest p))
      ]
]

-- The lexer ends on every body. The source that its tokens span, the trivia in front of each
-- included, is the body; and the last token, and no other, is the end token.
pub pl_lex-source_of :
    (body : Bytes) → (ts : List PlTok) × (pl_lex body ≡ some ts) × (source_of ts ≡ body) × Ended ts
unfolding pl_lex
pl_lex-source_of body =
    let (ts, p) = lex_from_total (suc (length body)) body (omega arith) in
    (
      ts,
      p,
      lex_from-source_of (suc (length body)) body p,
      lex_from-Ended (suc (length body)) body p,
    )
