-- ===== src/Tsql/Progress/Lexer.antt =====
-- The T-SQL lexer ends on every body, and refuses one only for a string that is not closed.
use mathlib.Core.Option
use mathlib.Core.Path.{subst}
use plx.Lexer.Scan.{drop_while, starts, not_newline, is_digit}
use plx.Lexer.Spans.{drop_while-IsSuffix}
use plx.Prelude.Result.{Error, Result, ok, err, map_ok, syntax}
use plx.Prelude.Suffix.{
  IsSuffix, whole, behind, IsSuffix-trans, IsSuffix-le, drop-IsSuffix, if-IsSuffix,
}
use plx.Prelude.{
  ℕ, zero, suc, ◌+◌, ◌<◌, ◌≤◌, Bytes, codes, length, drop, Bool, true, false, ◌&&◌, ◌||◌, ◌==◌,
  List, [], ◌∷◌, ◌++◌, some, ◌≡◌, refl, sym, ◌∙◌, Bool-cases, inl, inr, arith, if-case, if-split,
}
use plx.Tsql.Lexer.{
  is_alpha, is_word_char, is_more, newlines, Round, comment_rest, string_end, string_round,
  delimited_round, variable_round, number_rest, is_hex, number_round, is_ops2, operator_round,
  mark_round, text_round, tq_round, tq_lex_from, tq_lex,
}
use plx.Tsql.Token.{TqTok}

-- Every quote in it is one of two that stand together: no quote closes a string of these bytes.
pub data IsOpen : Bytes → Type 0 where
  no_more : IsOpen []
  byte : {c : ℕ} {r : Bytes} → (c == b'\'') ≡ false → IsOpen r → IsOpen (c ∷ r)
  two_quotes : {r : Bytes} → IsOpen r → IsOpen (b'\'' ∷ b'\'' ∷ r)

abbrev pub lines_of : Bytes → ℕ
lines_of [] = 0
lines_of (c ∷ r) = newlines c + lines_of r

-- A string, national or not, begins at the byte `c`, with `p` behind its opening quote.
pub data IsString : ℕ → Bytes → Bytes → Type 0 where
  quoted : {p : Bytes} → IsString b'\'' p p
  national : {p : Bytes} → IsString b'N' (b'\'' ∷ p) p

abbrev unterminated : ℕ → Error
unterminated line = syntax line (codes "unterminated string literal")

-- A round ends at a pointer into what it is given, or at a string that is open to the end.
data Reads (line c : ℕ) (r : Bytes) : Result Round → Type 0 where
  to : {w : Round} → IsSuffix w.left r → Reads line c r (ok w)
  open_string :
      (p : Bytes)
      → IsString c r p
      → IsOpen p
      → Reads line c r (err (unterminated (line + lines_of p)))

comment_rest-IsSuffix : (d line : ℕ) (r : Bytes) → IsSuffix (comment_rest d line r).1 r
unfolding comment_rest
comment_rest-IsSuffix zero line r = whole
comment_rest-IsSuffix (suc d) line [] = whole
comment_rest-IsSuffix (suc d) line (c ∷ []) = behind c whole
comment_rest-IsSuffix (suc d) line (c ∷ e ∷ r) =
    let P : ℕ × Bytes → Type 0 = λ p. IsSuffix p.1 (c ∷ e ∷ r) in
    if-case P (c == b'/' && e == b'*')
      (behind c (behind e (comment_rest-IsSuffix (suc (suc d)) line r)))
      (if-case P (c == b'*' && e == b'/') (behind c (behind e (comment_rest-IsSuffix d line r)))
        (behind c (comment_rest-IsSuffix (suc d) _ (e ∷ r))))

string_end-IsSuffix : (line : ℕ) (r : Bytes) → IsSuffix (string_end line r).2 r
unfolding string_end
string_end-IsSuffix line [] = whole
string_end-IsSuffix line (c ∷ []) =
    let P : Bool × ℕ × Bytes → Type 0 = λ p. IsSuffix p.2 (c ∷ []) in
    if-case P (c == b'\'') (behind c whole) (behind c whole)
string_end-IsSuffix line (c ∷ d ∷ r) =
    let P : Bool × ℕ × Bytes → Type 0 = λ p. IsSuffix p.2 (c ∷ d ∷ r) in
    if-case P (c == b'\'')
      (if-case P (d == b'\'') (behind c (behind d (string_end-IsSuffix line r))) (behind c whole))
      (behind c (string_end-IsSuffix (line + newlines c) (d ∷ r)))

-- A string that is not closed is open to the end, with the line of the end.
string_end-IsOpen :
    (line : ℕ) (r : Bytes)
    → (string_end line r).0 ≡ false
    → IsOpen r × ((string_end line r).1 ≡ line + lines_of r)
unfolding string_end
string_end-IsOpen line [] h = (no_more, omega arith)
string_end-IsOpen line (c ∷ []) h = elim (Bool-cases (c == b'\'')) [
  | inl e ↦ let bad : true ≡ false = rw e at h in absurd (ground arith)
  | inr e ↦ (byte e no_more, rw e (omega arith))
]
string_end-IsOpen line (c ∷ d ∷ r) h = elim (Bool-cases (c == b'\'')) [
  | inl e ↦ elim (Bool-cases (d == b'\'')) [
    | inl e' ↦
        let (never, at) = string_end-IsOpen line r (rw (e, e') at h) in
        let same : c ≡ b'\'' = ground arith in
        let same' : d ≡ b'\'' = ground arith in
        (
          subst (λ x. IsOpen (x ∷ d ∷ r)) (sym same)
              (subst (λ x. IsOpen (b'\'' ∷ x ∷ r)) (sym same') (two_quotes never)),
          rw (e, e') (at ∙ ground arith),
        )
    | inr e' ↦ let bad : true ≡ false = rw (e, e') at h in absurd (ground arith)
  ]
  | inr e ↦
      let (never, at) = string_end-IsOpen (line + newlines c) (d ∷ r) (rw e at h) in
      (byte e never, rw e (at ∙ omega arith))
]

string_round-Reads :
    (line c : ℕ) (s r : Bytes)
    → IsString c s r
    → IsSuffix r s
    → Reads line c s (string_round line r)
unfolding string_round
string_round-Reads line c s r string h =
    if-split (Reads line c s) (string_end line r).0
      (λ _. to (IsSuffix-trans (string_end-IsSuffix line r) h))
      (λ not_closed.
        let (never, at) = string_end-IsOpen line r not_closed in rw at (open_string r string never))

delimited_round-Reads :
    (close line c : ℕ) (r : Bytes) → Reads line c r (delimited_round close line r)
unfolding delimited_round
delimited_round-Reads close line c r =
    to (IsSuffix-trans (drop-IsSuffix 1 _) (drop_while-IsSuffix _ r))

variable_round-Reads : (line c : ℕ) (r : Bytes) → Reads line c r (variable_round line r)
unfolding variable_round
variable_round-Reads line c r =
    if-split (Reads line c r) (starts (λ c. c == b'@') r)
      (λ _. to (IsSuffix-trans (drop_while-IsSuffix _ (drop 1 r)) (drop-IsSuffix 1 r)))
      (λ _. to (drop_while-IsSuffix _ r))

number_rest-IsSuffix : (hex : Bool) (r : Bytes) → IsSuffix (number_rest hex r) r
unfolding number_rest
number_rest-IsSuffix hex [] = whole
number_rest-IsSuffix hex (c ∷ r) = if-IsSuffix _ (behind c (number_rest-IsSuffix hex r)) whole

-- What passes the test of the first byte passes that byte.
pub first_passes :
    (test : ℕ → Bool) (c : ℕ) (r : Bytes) → test c ≡ true → IsSuffix (drop_while test (c ∷ r)) r
unfolding drop_while
first_passes test c r h = rw h (drop_while-IsSuffix test r)

or_middle : (a d h m : Bool) → (a || h) ≡ true → (a || d || h || m) ≡ true
or_middle true d h m k = refl
or_middle false true h m k = refl
or_middle false false true m k = refl
or_middle false false false m k = cc

or_weaken : (a b x : Bool) → (a || (b && x)) ≡ true → (a || b) ≡ true
or_weaken true b x h = refl
or_weaken false true x h = refl
or_weaken false false x h = cc

-- The first byte of a number is a digit or a point.
number_rest-first :
    (hex : Bool) (c : ℕ) (r : Bytes)
    → (is_digit c || c == b'.') ≡ true
    → IsSuffix (number_rest hex (c ∷ r)) r
unfolding number_rest
number_rest-first hex c r h =
    let passes : (is_digit c
          || c == b'.'
          || ((c == b'e' || c == b'E') && is_more r)
          || c == b'x'
          || c == b'X'
          || (is_alpha c && hex))
        ≡ true =
      rw h refl in
    rw passes (number_rest-IsSuffix hex r)

operator_round-Reads : (line c : ℕ) (r : Bytes) → Reads line c r (operator_round line c r)
unfolding operator_round
operator_round-Reads line c [] = to whole
operator_round-Reads line c (d ∷ r) =
    if-split (Reads line c (d ∷ r)) (is_ops2 c d) (λ _. to (behind d whole)) (λ _. to whole)

mark_round-Reads : (line c : ℕ) (r : Bytes) → Reads line c r (mark_round line c r)
unfolding mark_round
mark_round-Reads line c r =
    let P = Reads line c r in
    if-split P (c == b'(') (λ _. to whole)
      (λ _.
        if-split P (c == b')') (λ _. to whole)
          (λ _.
            if-split P (c == b',') (λ _. to whole)
              (λ _.
                if-split P (c == b';') (λ _. to whole)
                  (λ _.
                    if-split P (c == b'.') (λ _. to whole) (λ _. operator_round-Reads line c r)))))

quoted-IsString : (c : ℕ) (r : Bytes) → (c == b'\'') ≡ true → IsString c r r
quoted-IsString c r h =
    let same : c ≡ b'\'' = ground arith in subst (λ x. IsString x r r) (sym same) quoted

national-IsString :
    (c : ℕ) (r : Bytes) → (c == b'N' && starts (λ d. d == b'\'') r) ≡ true → IsString c r (drop 1 r)
national-IsString c [] h = absurd (ground arith)
national-IsString c (d ∷ r) h =
    let same : c ≡ b'N' = ground arith in
    let same' : d ≡ b'\'' = ground arith in
    subst (λ x. IsString x (d ∷ r) r) (sym same)
      (subst (λ x. IsString b'N' (x ∷ r) r) (sym same') national)

text_round-Reads : (line c : ℕ) (r : Bytes) → Reads line c r (text_round line c r)
unfolding text_round number_round
text_round-Reads line c r =
    let P = Reads line c r in
    if-split P (c == b'N' && starts (λ d. d == b'\'') r)
      (λ h. string_round-Reads line c r (drop 1 r) (national-IsString c r h) (drop-IsSuffix 1 r))
      (λ _.
        if-split P (c == b'\'') (λ h. string_round-Reads line c r r (quoted-IsString c r h) whole)
          (λ _.
            if-split P (is_alpha c || c == b'#')
              (λ h. to (
                first_passes is_word_char c r
                  (or_middle (is_alpha c) (is_digit c) (c == b'#') (c == b'$') h)))
              (λ _.
                if-split P (is_digit c || (c == b'.' && starts is_digit r))
                  (λ h. to (
                    number_rest-first (is_hex c r) c r
                      (or_weaken (is_digit c) (c == b'.') (starts is_digit r) h)))
                  (λ _. mark_round-Reads line c r))))

tq_round-Reads : (line c : ℕ) (r : Bytes) → Reads line c r (tq_round line c r)
unfolding tq_round
tq_round-Reads line c r =
    let P = Reads line c r in
    if-split P (c == b'\n') (λ _. to whole)
      (λ _.
        if-split P (c == b' ' || c == b'\t' || c == b'\r') (λ _. to whole)
          (λ _.
            if-split P (c == b'-' && starts (λ d. d == b'-') r)
              (λ _. to (drop_while-IsSuffix not_newline r))
              (λ _.
                if-split P (c == b'/' && starts (λ d. d == b'*') r)
                  (λ _.
                    to (
                      IsSuffix-trans (comment_rest-IsSuffix 1 line (drop 1 r)) (drop-IsSuffix 1 r)))
                  (λ _.
                    if-split P (c == b'@') (λ _. variable_round-Reads line c r)
                      (λ _.
                        if-split P (c == b'[') (λ _. delimited_round-Reads b']' line c r)
                          (λ _.
                            if-split P (c == b'"') (λ _. delimited_round-Reads b'"' line c r)
                              (λ _. text_round-Reads line c r)))))))

-- The lexer comes to a line and a pointer, round by round.
pub data Reaches (body : Bytes) : ℕ → Bytes → Type 0 where
  begin : Reaches body 1 body
  round :
      {line c : ℕ} {r : Bytes} {w : Round}
      → Reaches body line (c ∷ r)
      → tq_round line c r ≡ ok w
      → Reaches body w.line w.left

-- Tokens, or the only report of the lexer: it comes to the opening of a string that is open to the
-- end of the body, and the report has the line of that end.
pub data IsOpenString (body : Bytes) : Result (List TqTok) → Type 0 where
  lexed : {ts : List TqTok} → IsOpenString body (ok ts)
  open_at :
      {line c : ℕ} {r p : Bytes}
      → Reaches body line (c ∷ r)
      → IsString c r p
      → IsOpen p
      → IsOpenString body (err (unterminated (line + lines_of p)))

map_ok-IsOpenString :
    {body : Bytes} (f : List TqTok → List TqTok) {res : Result (List TqTok)}
    → IsOpenString body res
    → IsOpenString body (map_ok f res)
map_ok-IsOpenString f lexed = lexed
map_ok-IsOpenString f (open_at reached string never) = open_at reached string never

-- From a pointer on that the lexer comes to.
Lexes : Bytes → ℕ → ℕ → Bytes → Type 0
Lexes body fuel line r =
    (res : Result (List TqTok)) × (tq_lex_from fuel line r ≡ some res) × IsOpenString body res

tq_lex_from-total :
    (body : Bytes) (fuel line : ℕ) (r : Bytes)
    → length r < fuel
    → Reaches body line r
    → Lexes body fuel line r
unfolding tq_lex_from Lexes
tq_lex_from-total body zero line r small reached = absurd (omega arith)
tq_lex_from-total body (suc fuel) line [] small reached = (_, refl, lexed)
tq_lex_from-total body (suc fuel) line (c ∷ r) small reached =
    from (tq_round line c r) refl (tq_round-Reads line c r)
      (λ next u less there. tq_lex_from-total body fuel next u (omega (arith, less, small)) there)
  where
    from :
        (made : Result Round)
        → tq_round line c r ≡ made
        → Reads line c r made
        → ((next : ℕ) (u : Bytes)
            → length u ≤ length r
            → Reaches body next u
            → (res : Result (List TqTok)) × (tq_lex_from fuel next u ≡ some res)
              × IsOpenString body res)
        → (res : Result (List TqTok)) × (elim made [
          | err e ↦ some (err e)
          | ok w ↦ Option.map (map_ok (λ ts. w.toks ++ ts)) (tq_lex_from fuel w.line w.left)
        ]
            ≡ some res)
          × IsOpenString body res
    from (ok w) e (to h) rest =
        let (res, made, good) = rest w.line w.left (IsSuffix-le h) (round reached e) in
        (map_ok (λ ts. w.toks ++ ts) res, rw made refl, map_ok-IsOpenString _ good)
    from (err _) e (open_string p string never) rest = (_, refl, open_at reached string never)

-- On every body the lexer ends: with tokens, or with the report that it came to the opening quote
-- of a string, and that in all of the body behind it every quote is one of two that stand together; the line of the
-- report is the line of the string and one more for each newline behind the opening quote.
pub tq_lex_total :
    (body : Bytes) → (res : Result (List TqTok)) × (tq_lex body ≡ some res) × IsOpenString body res
unfolding tq_lex Lexes
tq_lex_total body = tq_lex_from-total body (suc (length body)) 1 body (omega arith) begin
