-- ===== src/Ts/Types.antt =====
-- `ts_map_type`. `ci a b` says that two texts of one length are equal but for case, as
-- `pg_strncasecmp` of the server finds them.
pub mod Laws
use mathlib.Core.Option
use plx.Prelude.Int.{ℤ, pos, increment, decrement, is_zero}
use plx.Prelude.{
  ℕ, zero, suc, Bytes, codes, length, Bool, true, false, not, ◌&&◌, ◌||◌, ◌==◌, if◌then◌else◌, List,
  [], ◌∷◌, ◌++◌, reverse, Option, none, some,
}

abbrev pub is_blank : ℕ → Bool
is_blank c = c == b' ' || c == b'\t'

unfoldable pub trim_start : Bytes → Bytes
trim_start [] = []
trim_start (c ∷ r) = if is_blank c then trim_start r else c ∷ r

unfoldable pub trim_end : Bytes → Bytes
unfolding trim_start
trim_end s = reverse (trim_start (reverse s))

abbrev pub opens : ℕ → Bool
opens c = c == b'<' || c == b'(' || c == b'[' || c == b'{'

abbrev pub closes : ℕ → Bool
closes c = c == b'>' || c == b')' || c == b']' || c == b'}'

-- The brackets open behind a character.
abbrev pub bracket_depth : ℕ → ℤ → ℤ
bracket_depth c depth =
    if opens c then increment depth else if closes c then decrement depth else depth

-- The two sides of the first `|` outside brackets.
unfoldable pub split_union : ℤ → Bytes → Option (Bytes × Bytes)
split_union depth [] = none
split_union depth (c ∷ r) =
    let later =
      Option.map (λ (p : Bytes × Bytes). (c ∷ p.0, p.1)) (split_union (bracket_depth c depth) r) in
    if opens c
    then later
    else if closes c
    then later
    else if is_zero depth && c == b'|'
    then some ([], r)
    else later

-- A trailing `[]`, taken off with the blanks in front of it.
unfoldable pub without_brackets : Bytes → Option Bytes
unfolding trim_end
without_brackets s = strip (reverse s)
  where
    strip : Bytes → Option Bytes
    strip [] = none
    strip (c ∷ []) = none
    strip (c ∷ d ∷ r) = if d == b'[' && c == b']' then some (trim_end (reverse r)) else none

module _ (ci : Bytes → Bytes → Bool) where
  -- `len == strlen(w) && pg_strncasecmp(s, w, len) == 0`
  abbrev pub same_word : Bytes → Bytes → Bool
  same_word s w = length s == length w && ci s w

  unfoldable pub map_scalar : Bytes → Bytes
  map_scalar s =
      if same_word s (codes "number")
      then codes "numeric"
      else if same_word s (codes "string")
      then codes "text"
      else if same_word s (codes "boolean")
      then codes "boolean"
      else if same_word s (codes "bigint")
      then codes "bigint"
      else s

  unfoldable pub map_single : Bytes → Bytes
  unfolding map_scalar without_brackets
  map_single s = elim (without_brackets s) [
    | some item ↦ map_scalar item ++ codes "[]"
    | none ↦ map_scalar s
  ]

  -- On fuel, since the call is on one side of the union; `none` is a recursion cut short.
  unfoldable pub map_type_on : ℕ → Bytes → Option Bytes
  unfolding split_union map_single trim_end
  map_type_on zero s = none
  map_type_on (suc fuel) s =
      let t = trim_end (trim_start s) in
      elim (split_union (pos 0) t) [
        | none ↦ some (map_single t)
        | some p ↦ elim (same_word p.0 (codes "null") || same_word p.0 (codes "undefined")) [
          | true ↦ map_type_on fuel p.1
          | false ↦ map_type_on fuel p.0
        ]
      ]

  unfoldable pub ts_map_type : Bytes → Option Bytes
  unfolding map_type_on
  ts_map_type s = map_type_on (suc (length s)) s
