-- ===== src/Go/Progress/Rounds.antt =====
-- A round of the Go lexer ends at what it is given, or at a string that is not closed.
use plx.Lexer.Scan.{starts, not_newline, is_digit}
use plx.Lexer.Spans.{drop_while-IsSuffix}
use plx.Prelude.Result.{Result, ok, err, syntax}
use plx.Prelude.Suffix.{IsSuffix, whole, behind, IsSuffix-trans, drop-IsSuffix, if-IsSuffix}
use plx.Prelude.{
  ℕ, ◌+◌, Bytes, codes, str_eq, take, drop, Bool, true, false, not, ◌&&◌, ◌||◌, ◌==◌, List, [], ◌∷◌,
  Option, none, some, ◌≡◌, refl, if-case, if-split,
}
use plx.Go.Lexer.{
  Round, asi, newline_round, block_rest, quote_rest, quoted_by, raw_by, quoted_round, raw_rest,
  raw_round, rune_rest, number_rest, in_table, ops2, ops3, operator_round, dot_round, mark_round,
  text_round, go_round,
}
use plx.Go.Token.{GoTok, is_eof}
use plx.Tsql.Lexer.{is_alpha, is_name, newlines}
use plx.Tsql.Progress.Lexer.{first_passes}

-- Of some tokens none is the end.
abbrev pub NoEnd : List GoTok → Type 0
NoEnd [] = Unit
NoEnd (t ∷ ts) = (is_eof t.kind ≡ false) × NoEnd ts

-- The reports on a string that is not closed.
pub data OpenString : Bytes → Type 0 where
  in_quotes : OpenString (codes "unterminated string literal")
  in_backquotes : OpenString (codes "unterminated raw string literal")

-- A round ends at a pointer into what it is given, or at a string that is open to the end.
pub data Reads (r : Bytes) : Result Round → Type 0 where
  to : {w : Round} → IsSuffix w.left r → NoEnd w.toks → Reads r (ok w)
  open_string : (line : ℕ) {msg : Bytes} → OpenString msg → Reads r (err (syntax line msg))

newline_round-Reads :
    (prev : Option GoTok) (line : ℕ) (r : Bytes) → Reads r (newline_round prev line r)
unfolding newline_round
newline_round-Reads prev line r =
    if-split (Reads r) (asi prev) (λ _. to whole (refl, tt)) (λ _. to whole tt)

block_rest-IsSuffix : (line : ℕ) (r : Bytes) → IsSuffix (block_rest line r).1 r
unfolding block_rest
block_rest-IsSuffix line [] = whole
block_rest-IsSuffix line (c ∷ []) = behind c whole
block_rest-IsSuffix line (c ∷ d ∷ r) =
    let P : ℕ × Bytes → Type 0 = λ p. IsSuffix p.1 (c ∷ d ∷ r) in
    if-case P (c == b'*' && d == b'/') (behind c (behind d whole))
      (behind c (block_rest-IsSuffix (line + newlines c) (d ∷ r)))

-- What is left behind a string, if it is closed.
data Closes (r : Bytes) : Option Bytes → Type 0 where
  unclosed : Closes r none
  closed : {u : Bytes} → IsSuffix u r → Closes r (some u)

Closes-behind : (c : ℕ) {r : Bytes} {o : Option Bytes} → Closes r o → Closes (c ∷ r) o
Closes-behind c unclosed = unclosed
Closes-behind c (closed h) = closed (behind c h)

quote_rest-Closes : (r : Bytes) → Closes r (quote_rest r)
unfolding quote_rest
quote_rest-Closes [] = unclosed
quote_rest-Closes (c ∷ []) =
    if-case (Closes (c ∷ [])) (c == b'"') (closed (behind c whole)) unclosed
quote_rest-Closes (c ∷ d ∷ r) =
    let P = Closes (c ∷ d ∷ r) in
    if-case P (c == b'\\') (Closes-behind c (Closes-behind d (quote_rest-Closes r))) (
      if-case P (c == b'"') (closed (behind c whole))
        (if-case P (c == b'\n') unclosed (Closes-behind c (quote_rest-Closes (d ∷ r)))))

quoted_by-Reads :
    (o : Option Bytes) (line : ℕ) (r : Bytes) → Closes r o → Reads r (quoted_by o line r)
quoted_by-Reads none line r unclosed = open_string line in_quotes
quoted_by-Reads (some u) line r (closed h) = to h (refl, tt)

quoted_round-Reads : (line : ℕ) (r : Bytes) → Reads r (quoted_round line r)
unfolding quoted_round
quoted_round-Reads line r = quoted_by-Reads (quote_rest r) line r (quote_rest-Closes r)

raw_rest-IsSuffix : (line : ℕ) (r : Bytes) → IsSuffix (raw_rest line r).1 r
unfolding raw_rest
raw_rest-IsSuffix line [] = whole
raw_rest-IsSuffix line (c ∷ r) =
    let P : ℕ × Bytes → Type 0 = λ p. IsSuffix p.1 (c ∷ r) in
    if-case P (c == b'`') whole (behind c (raw_rest-IsSuffix (line + newlines c) r))

raw_by-Reads : (p : ℕ × Bytes) (r : Bytes) → IsSuffix p.1 r → Reads r (raw_by p r)
raw_by-Reads (line, []) r h = open_string line in_backquotes
raw_by-Reads (line, q ∷ u) r h = to (IsSuffix-trans (behind q whole) h) (refl, tt)

raw_round-Reads : (line : ℕ) (r : Bytes) → Reads r (raw_round line r)
unfolding raw_round
raw_round-Reads line r = raw_by-Reads (raw_rest line r) r (raw_rest-IsSuffix line r)

rune_rest-IsSuffix : (r : Bytes) → IsSuffix (rune_rest r) r
unfolding rune_rest
rune_rest-IsSuffix [] = whole
rune_rest-IsSuffix (c ∷ []) = behind c whole
rune_rest-IsSuffix (c ∷ d ∷ r) =
    let P : Bytes → Type 0 = λ u. IsSuffix u (c ∷ d ∷ r) in
    if-case P (c == b'\'') (behind c whole) (
      if-case P (c == b'\\') (behind c (behind d (rune_rest-IsSuffix r)))
        (behind c (rune_rest-IsSuffix (d ∷ r))))

number_rest-IsSuffix : (prev : ℕ) (r : Bytes) → IsSuffix (number_rest prev r) r
unfolding number_rest
number_rest-IsSuffix prev [] = whole
number_rest-IsSuffix prev (c ∷ r) = if-IsSuffix _ (behind c (number_rest-IsSuffix c r)) whole

operator_round-Reads : (line c : ℕ) (r : Bytes) → Reads r (operator_round line c r)
unfolding operator_round
operator_round-Reads line c r =
    if-split (Reads r) (in_table (take 3 (c ∷ r)) ops3) (λ _. to (drop-IsSuffix 2 r) (refl, tt))
      (λ _.
        if-split (Reads r) (in_table (take 2 (c ∷ r)) ops2) (λ _. to (drop-IsSuffix 1 r) (refl, tt))
          (λ _. to whole (refl, tt)))

dot_round-Reads : (line c : ℕ) (r : Bytes) → Reads r (dot_round line c r)
unfolding dot_round
dot_round-Reads line c r =
    if-split (Reads r) (c == b'.' && not (starts is_digit r))
      (λ _.
        if-split (Reads r) (str_eq (take 2 r) (codes "..")) (λ _. to (drop-IsSuffix 2 r) (refl, tt))
          (λ _. to whole (refl, tt)))
      (λ _. operator_round-Reads line c r)

or_left : (a b : Bool) → a ≡ true → (a || b) ≡ true
or_left true b h = refl
or_left false b h = cc

mark_round-Reads : (line c : ℕ) (r : Bytes) → Reads r (mark_round line c r)
unfolding mark_round
mark_round-Reads line c r =
    let P = Reads r in
    if-split P (c == b'(') (λ _. to whole (refl, tt))
      (λ _.
        if-split P (c == b')') (λ _. to whole (refl, tt))
          (λ _.
            if-split P (c == b'{') (λ _. to whole (refl, tt))
              (λ _.
                if-split P (c == b'}') (λ _. to whole (refl, tt))
                  (λ _.
                    if-split P (c == b'[') (λ _. to whole (refl, tt))
                      (λ _.
                        if-split P (c == b']') (λ _. to whole (refl, tt))
                          (λ _.
                            if-split P (c == b',') (λ _. to whole (refl, tt))
                              (λ _.
                                if-split P (c == b';') (λ _. to whole (refl, tt))
                                  (λ _. dot_round-Reads line c r))))))))

text_round-Reads : (line c : ℕ) (r : Bytes) → Reads r (text_round line c r)
unfolding text_round
text_round-Reads line c r =
    let P = Reads r in
    if-split P (c == b'"') (λ _. quoted_round-Reads line r)
      (λ _.
        if-split P (c == b'`') (λ _. raw_round-Reads line r)
          (λ _.
            if-split P (c == b'\'') (λ _. to (rune_rest-IsSuffix r) (refl, tt))
              (λ _.
                if-split P (is_alpha c)
                  (λ h. to (first_passes is_name c r (or_left (is_alpha c) _ h)) (refl, tt))
                  (λ _.
                    if-split P (is_digit c) (λ h. to (number_rest-IsSuffix c r) (refl, tt))
                      (λ _. mark_round-Reads line c r)))))

pub go_round-Reads :
    (prev : Option GoTok) (line c : ℕ) (r : Bytes) → Reads r (go_round prev line c r)
unfolding go_round
go_round-Reads prev line c r =
    let P = Reads r in
    if-split P (c == b'\n') (λ _. newline_round-Reads prev line r)
      (λ _.
        if-split P (c == b' ' || c == b'\t' || c == b'\r') (λ _. to whole tt)
          (λ _.
            if-split P (c == b'/' && starts (λ d. d == b'/') r)
              (λ _. to (drop_while-IsSuffix not_newline r) tt)
              (λ _.
                if-split P (c == b'/' && starts (λ d. d == b'*') r)
                  (λ _.
                    to (IsSuffix-trans (block_rest-IsSuffix line (drop 1 r)) (drop-IsSuffix 1 r))
                      tt)
                  (λ _. text_round-Reads line c r))))
