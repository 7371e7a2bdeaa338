-- ===== src/Ternary.antt =====
-- `find_ternary_q` and `find_ternary_colon` of src/plx_transpile.c: the scans over an expression
-- for the parts of `c ? a : b`. A position is the list of the bytes from it on.
pub mod Laws
pub mod Question
pub mod Ends
use plx.Prelude.Int.{ℤ, pos, increment, decrement, is_zero}
use plx.Prelude.{
  ℕ, zero, suc, ◌-◌, Bytes, length, Bool, true, false, not, ◌&&◌, ◌||◌, ◌==◌, if◌then◌else◌, [],
  ◌∷◌, Option, none, some,
}

abbrev pub is_quote : ℕ → Bool
is_quote c = c == b'\'' || c == b'"'

-- The brackets open behind a byte.
abbrev pub depth_behind : ℕ → ℤ → ℤ
depth_behind c depth =
    if c == b'(' || c == b'['
    then increment depth
    else if c == b')' || c == b']'
    then decrement depth
    else depth

-- From behind the opening quote to behind the closing one; a backslash passes a byte more.
unfoldable pub string_rest : ℕ → Bytes → Bytes
string_rest q [] = []
string_rest q (c ∷ []) = []
string_rest q (c ∷ d ∷ r) =
    let escaped = string_rest q r in
    let one = string_rest q (d ∷ r) in if c == q then d ∷ r else if c == b'\\' then escaped else one

-- Over a string, or over a byte: the depth, and where the loop goes on.
abbrev pub passed_over : ℤ → ℕ → Bytes → ℤ × Bytes
passed_over depth c r = if is_quote c then (depth, string_rest c r) else (depth_behind c depth, r)

-- On fuel, of which the outer `none` is the end; the inner one is -1.
unfoldable pub find_q : ℕ → ℤ → Bytes → Option (Option Bytes)
unfolding string_rest
find_q zero depth r = none
find_q (suc fuel) depth [] = some none
find_q (suc fuel) depth (c ∷ r) =
    let (depth', rest) = passed_over depth c r in
    let more = find_q fuel depth' rest in
    if c == b'?' && is_zero depth then some (some (c ∷ r)) else more

unfoldable pub find_ternary_q : Bytes → Option (Option Bytes)
unfolding find_q
find_ternary_q s = find_q (suc (length s)) (pos 0) s

-- `c == ':'` that is no part of `::`, where `prev` is the byte in front.
abbrev pub is_lone_colon : ℕ → ℕ → Bytes → Bool
is_lone_colon prev c [] = false
is_lone_colon prev c (d ∷ r) = c == b':' && not (d == b':') && not (prev == b':')

-- The ternaries that are open behind a byte at depth 0.
abbrev pub open_behind : ℤ → ℕ → ℕ → Bytes → ℕ → ℕ
open_behind depth prev c r tern =
    if not (is_zero depth)
    then tern
    else if c == b'?'
    then suc tern
    else if is_lone_colon prev c r
    then tern - 1
    else tern

-- Behind a string the byte in front is its closing quote.
unfoldable pub find_colon : ℕ → ℤ → ℕ → ℕ → Bytes → Option (Option Bytes)
unfolding string_rest
find_colon zero depth tern prev r = none
find_colon (suc fuel) depth tern prev [] = some none
find_colon (suc fuel) depth tern prev (c ∷ r) =
    let (depth', rest) = passed_over depth c r in
    let more = find_colon fuel depth' (open_behind depth prev c r tern) c rest in
    if is_zero depth && tern == 0 && is_lone_colon prev c r then some (some (c ∷ r)) else more

-- From behind the `?`, which is in front of the first byte.
unfoldable pub find_ternary_colon : Bytes → Option (Option Bytes)
unfolding find_colon
find_ternary_colon r = find_colon (suc (length r)) (pos 0) 0 b'?' r
