-- ===== src/Tsql/Scan.antt =====
-- The scans over tokens that bound a statement: `tq_value_end`, `tq_cond_end` and those that stand
-- in the statements. Each splits the tokens at the position that it finds.
pub mod Laws
use plx.Prelude.{
  ℕ, suc, ◌-◌, Bytes, codes, Bool, true, false, ◌&&◌, ◌||◌, ◌==◌, if◌then◌else◌, List, [], ◌∷◌,
  Option, none, some,
}
use plx.Tsql.Token.{
  TqTok, TqKind, is_lp, is_rp, is_eof, is_semi, is_comma, is_assign, tq_dot, tq_ci, tq_is_stmt_kw,
}

abbrev pub Split : Type 0
Split = List TqTok × List TqTok

abbrev pub before : TqTok → Option Split → Option Split
before t none = none
before t (some (front, rest)) = some (t ∷ front, rest)

-- At the first token outside brackets that passes the test; a `)` too many changes nothing.
unfoldable pub scan_end : (TqTok → Bool) → ℕ → List TqTok → Option Split
scan_end stop depth [] = none
scan_end stop depth (t ∷ ts) =
    let deeper = before t (scan_end stop (suc depth) ts) in
    let upper = before t (scan_end stop (depth - 1) ts) in
    let same = before t (scan_end stop depth ts) in
    if is_lp t.kind
    then deeper
    else if is_rp t.kind
    then upper
    else if depth == 0 && stop t
    then some ([], t ∷ ts)
    else same

-- At `nt - 1`; a list of tokens ends with tq_eof, and the first case is not reached.
abbrev pub at_last : List TqTok → Split
at_last [] = ([], [])
at_last (t ∷ []) = ([], t ∷ [])
at_last (t ∷ u ∷ ts) = let (front, rest) = at_last (u ∷ ts) in (t ∷ front, rest)

abbrev pub found_or_last : Option Split → List TqTok → Split
found_or_last none ts = at_last ts
found_or_last (some p) ts = p

-- `nt`, where the loop has run through.
abbrev pub found_or_end : Option Split → List TqTok → Split
found_or_end none ts = (ts, [])
found_or_end (some p) ts = p

abbrev is_dot : TqKind → Bool
is_dot tq_dot = true
is_dot _ = false

abbrev front_assign : TqTok → Option (Bool × Split) → Option (Bool × Split)
front_assign t none = none
front_assign t (some p) = some (p.0, (t ∷ p.1.0, p.1.1))

-- The first `=` outside brackets, and whether a `.` outside brackets stands in front of it: what
-- stands in front of the `=`, and what behind it.
unfoldable pub find_assign : ℕ → Bool → List TqTok → Option (Bool × Split)
find_assign depth qualified [] = none
find_assign depth qualified (t ∷ ts) =
    let deeper = front_assign t (find_assign (suc depth) qualified ts) in
    let upper = front_assign t (find_assign (depth - 1) qualified ts) in
    let dotted = front_assign t (find_assign depth true ts) in
    let same = front_assign t (find_assign depth qualified ts) in
    if is_lp t.kind
    then deeper
    else if is_rp t.kind
    then upper
    else if depth == 0 && is_dot t.kind
    then dotted
    else if depth == 0 && is_assign t
    then some (qualified, ([], ts))
    else same

module _ (ci : Bytes → Bytes → Bool) where
  abbrev pub ends_value : TqTok → Bool
  ends_value t =
      is_semi t.kind || is_eof t.kind || tq_ci ci t (codes "END") || tq_ci ci t (codes "ELSE")

  unfoldable pub tq_value_end : List TqTok → Split
  unfolding scan_end
  tq_value_end ts = found_or_last (scan_end ends_value 0 ts) ts

  unfoldable pub tq_cond_end : List TqTok → Split
  unfolding scan_end
  tq_cond_end ts =
      found_or_last
        (scan_end (λ t. ends_value t || tq_ci ci t (codes "BEGIN") || tq_is_stmt_kw ci t) 0 ts) ts

  -- A value in DECLARE.
  unfoldable pub declared_end : List TqTok → Split
  unfolding scan_end
  declared_end ts =
      found_or_end
        (scan_end
          (λ t. is_comma t.kind || is_semi t.kind || is_eof t.kind || tq_ci ci t (codes "END")) 0
          ts)
        ts

  -- The words that end the list of a SELECT.
  abbrev pub begins_clause : TqTok → Bool
  begins_clause t =
      tq_ci ci t (codes "FROM")
      || tq_ci ci t (codes "WHERE")
      || tq_ci ci t (codes "INTO")
      || tq_ci ci t (codes "GROUP")
      || tq_ci ci t (codes "ORDER")
      || tq_ci ci t (codes "HAVING")

  -- A value in the list of a SELECT.
  unfoldable pub selected_end : List TqTok → Split
  unfolding scan_end
  selected_end ts =
      found_or_end (scan_end (λ t. is_comma t.kind || ends_value t || begins_clause t) 0 ts) ts
