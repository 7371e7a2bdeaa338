-- ===== src/Tests/Ternary.antt =====
-- The scans for a ternary, run.
use plx.Prelude.{Bytes, codes, ◌++◌, ◌∷◌, [], Option, none, some, ◌≡◌, refl, arith}
use plx.Ternary.Laws.{
  single_quotes, double_quotes, round_brackets, square_brackets, byte, escaped, Expr, text, string,
  bracketed, brackets, cast, both, ternary, print, find_ternary_colon-print,
}
use plx.Ternary.Question.{find_ternary_q-print}
use plx.Ternary.{string_rest, find_q, find_ternary_q, find_colon, find_ternary_colon}

question_of : Bytes → Option (Option Bytes)
unfolding find_ternary_q find_q string_rest
question_of = find_ternary_q

colon_of : Bytes → Option (Option Bytes)
unfolding find_ternary_colon find_colon string_rest
colon_of = find_ternary_colon

scans :
    (question_of (codes "f('?\\'?', (a ? b : c)) ? d : e") ≡ some (some (codes "? d : e")))
    × (question_of (codes "a::int") ≡ some none)
    × (colon_of (codes " a ? b : c : d") ≡ some (some (codes ": d")))
    × (colon_of (codes " a::int : d") ≡ some (some (codes ": d")))
    × (colon_of (codes " ':' [i : j]") ≡ some none)
unfolding question_of colon_of
scans = (refl, refl, refl, refl, refl)

-- `f(x)[']\'?']`
abbrev call_x : Expr
call_x = both (text b'f' []) (
    both (bracketed round_brackets (text b'x' [])) (
      bracketed square_brackets
        (string single_quotes (byte b']' ∷ escaped b'\'' ∷ byte b'?' ∷ []))))

-- `y::int ? "z:" : w()`
abbrev nested : Expr
nested =
    ternary (cast (text b'y' []) b'i' (codes "nt ")) (string double_quotes (byte b':' ∷ []))
      (both (text b'w' []) (brackets round_brackets))

find_ternary_colon-print_example :
    find_ternary_colon (print (both nested call_x) ++ b':' ∷ print call_x)
    ≡ some (some (b':' ∷ print call_x))
find_ternary_colon-print_example =
    find_ternary_colon-print (both nested call_x) call_x (ground arith) (ground arith)

find_ternary_q-print_example :
    find_ternary_q (print (both call_x (bracketed square_brackets nested)) ++ b'?' ∷ codes "a : b")
    ≡ some (some (b'?' ∷ codes "a : b"))
find_ternary_q-print_example =
    find_ternary_q-print (both call_x (bracketed square_brackets nested)) (codes "a : b")
      (ground arith) ((tt, (tt, tt)), tt)
