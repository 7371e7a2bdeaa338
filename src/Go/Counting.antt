-- ===== src/Go/Counting.antt =====
-- The counting loop of `go_for`: `for i := A; i < B; i++` and its kin, read from the three parts of
-- the header.
use plx.Prelude.{
  Bytes, codes, str_eq, Bool, true, false, ◌&&◌, ◌||◌, if◌then◌else◌, List, ◌∷◌, Option, none, some,
}
use plx.Go.Token.{GoTok, is_word, op_is}

-- `:=` and `=`
abbrev pub is_set : GoTok → Bool
is_set t = op_is t (codes ":=") || op_is t (codes "=")

-- What the loop counts: the variable, the direction, whether the bound belongs to it, where it
-- starts, the bound, and the step if one is written.
pub record Counting : Type 0 where
  pub name : Bytes
  pub down : Bool
  pub inclusive : Bool
  pub start : List GoTok
  pub bound : List GoTok
  pub step : Option (List GoTok)

abbrev is_name : Bytes → GoTok → Bool
is_name name t = is_word t.kind && str_eq t.s name

-- The last part: the direction and the step.
unfoldable counting_post : Bytes → List GoTok → Option (Bool × Option (List GoTok))
counting_post name (v ∷ o ∷ step) =
    if is_name name v
    then (if op_is o (codes "++")
        then some (false, none)
        else if op_is o (codes "--")
        then some (true, none)
        else if op_is o (codes "+=")
        then some (false, some step)
        else if op_is o (codes "-=")
        then some (true, some step)
        else none)
    else none
counting_post name _ = none

-- The middle part: whether the comparison includes the bound, and the bound. It agrees with the
-- direction.
unfoldable counting_cond : Bytes → Bool → List GoTok → Option (Bool × List GoTok)
counting_cond name down (v ∷ o ∷ bound) =
    if is_name name v
    then (if op_is o (if down then codes ">" else codes "<")
        then some (false, bound)
        else if op_is o (if down then codes ">=" else codes "<=")
        then some (true, bound)
        else none)
    else none
counting_cond name down _ = none

unfoldable pub counting : List GoTok → List GoTok → List GoTok → Option Counting
unfolding counting_post counting_cond
counting (v ∷ a ∷ start) cond post =
    if is_word v.kind && is_set a
    then elim (counting_post v.s post) [
      | none ↦ none
      | some p ↦ elim (counting_cond v.s p.0 cond) [
        | none ↦ none
        | some c ↦ some (record {
          name = v.s;
          down = p.0;
          inclusive = c.0;
          start = start;
          bound = c.1;
          step = p.1;
        })
      ]
    ]
    else none
counting _ cond post = none
