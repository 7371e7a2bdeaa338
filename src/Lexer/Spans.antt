-- ===== src/Lexer/Spans.antt =====
-- Every scan over a token leaves a later pointer into the same text.
use plx.Lexer.Scan.{
  drop_while, starts, is_digit, is_decimal, find_close, word_rest, radix_digit, is_radix, fraction,
  exponent, number_rest, is_operator, dots, pipes, mark,
}
use plx.Prelude.Suffix.{IsSuffix, whole, behind, IsSuffix-trans, drop-IsSuffix, if-IsSuffix}
use plx.Prelude.{
  ℕ, Bytes, drop, Bool, true, ◌&&◌, ◌||◌, ◌==◌, if◌then◌else◌, [], ◌∷◌, Bool-cases, inl, inr, ◌≡◌,
  if-case,
}
use plx.Lexer.Token.{TokKind}
use plx.Ternary.{string_rest}
use plx.Ts.Scan.{is_ident, is_ident_start}

pub drop_while-IsSuffix : (test : ℕ → Bool) (r : Bytes) → IsSuffix (drop_while test r) r
unfolding drop_while
drop_while-IsSuffix test [] = whole
drop_while-IsSuffix test (c ∷ r) =
    if-IsSuffix (test c) (behind c (drop_while-IsSuffix test r)) whole

pub find_close-IsSuffix : (r : Bytes) → IsSuffix (find_close r) r
unfolding find_close
find_close-IsSuffix [] = whole
find_close-IsSuffix (c ∷ []) = behind c whole
find_close-IsSuffix (c ∷ d ∷ r) = if-IsSuffix _ whole (behind c (find_close-IsSuffix (d ∷ r)))

pub string_rest-IsSuffix : (q : ℕ) (r : Bytes) → IsSuffix (string_rest q r) r
unfolding string_rest
string_rest-IsSuffix q [] = whole
string_rest-IsSuffix q (c ∷ []) = behind c whole
string_rest-IsSuffix q (c ∷ d ∷ r) = if-IsSuffix (c == q) (behind c whole) (
    if-IsSuffix (c == b'\\') (behind c (behind d (string_rest-IsSuffix q r)))
      (behind c (string_rest-IsSuffix q (d ∷ r))))

-- A name passes its first byte.
pub word_rest-IsSuffix :
    (c : ℕ) (r : Bytes) → is_ident_start c ≡ true → IsSuffix (word_rest (c ∷ r)) r
unfolding word_rest drop_while is_ident
word_rest-IsSuffix c r h = rw h (
    if-IsSuffix _ (IsSuffix-trans (drop-IsSuffix 1 _) (drop_while-IsSuffix is_ident r))
      (drop_while-IsSuffix is_ident r))

fraction-IsSuffix : (r : Bytes) → IsSuffix (fraction r).0 r
fraction-IsSuffix [] = whole
fraction-IsSuffix (c ∷ r) = elim (Bool-cases (c == b'.' && starts is_digit r)) [
  | inl e ↦ rw e (behind c (drop_while-IsSuffix is_decimal r))
  | inr e ↦ rw e whole
]

exponent-IsSuffix : (r : Bytes) → IsSuffix (exponent r).0 r
exponent-IsSuffix [] = whole
exponent-IsSuffix (c ∷ r) = elim (Bool-cases (c == b'e' || c == b'E')) [
  | inl e ↦ rw e (
      behind c (
        IsSuffix-trans (drop_while-IsSuffix is_digit _)
          (if-IsSuffix (starts (λ d. d == b'+' || d == b'-') r) (drop-IsSuffix 1 r) whole)))
  | inr e ↦ rw e whole
]

pub number_rest-IsSuffix : (c : ℕ) (r : Bytes) → IsSuffix (number_rest c r).0 r
unfolding number_rest
number_rest-IsSuffix c [] = whole
number_rest-IsSuffix c (d ∷ r) = elim (Bool-cases (c == b'0' && is_radix d)) [
  | inl e ↦ rw e (behind d (drop_while-IsSuffix (radix_digit d) r))
  | inr e ↦
      let q = drop_while is_decimal (d ∷ r) in
      rw e (
        IsSuffix-trans (exponent-IsSuffix (fraction q).0)
          (IsSuffix-trans (fraction-IsSuffix q) (drop_while-IsSuffix is_decimal (d ∷ r))))
]

abbrev Leaves : Bytes → TokKind × Bytes → Type 0
Leaves r p = IsSuffix p.1 r

dots-IsSuffix : (r : Bytes) → Leaves r (dots r)
dots-IsSuffix r =
    if-case (Leaves r) (starts (λ d. d == b'.') r)
      (if-IsSuffix (starts (λ d. d == b'.') (drop 1 r)) (drop-IsSuffix 2 r) (drop-IsSuffix 1 r))
      whole

pipes-IsSuffix : (r : Bytes) → Leaves r (pipes r)
pipes-IsSuffix r = if-case (Leaves r) (starts (λ d. d == b'|') r) (drop-IsSuffix 1 r) whole

or :
    {r : Bytes} (b : Bool) (x y : TokKind × Bytes)
    → Leaves r x
    → Leaves r y
    → Leaves r (if b then x else y)
or {r} b x y h k = if-case (Leaves r) b {x = x} {y = y} h k

pub mark-IsSuffix : (c : ℕ) (r : Bytes) → Leaves r (mark c r)
unfolding mark
mark-IsSuffix c r = or (c == b'(') _ _ whole (
    or (c == b')') _ _ whole (
      or (c == b'[') _ _ whole (
        or (c == b']') _ _ whole (
          or (c == b'{') _ _ whole (
            or (c == b'}') _ _ whole (
              or (c == b',') _ _ whole (
                or (c == b';') _ _ whole (
                  or (c == b'.') _ _ (dots-IsSuffix r) (
                    or (c == b'|') _ _ (pipes-IsSuffix r)
                      (or (is_operator c) _ _ (drop_while-IsSuffix is_operator r) whole))))))))))
