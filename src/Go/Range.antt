-- ===== src/Go/Range.antt =====
-- The loops of `go_for` over a range.
use plx.Assemble.{PlxLocal2}
use plx.Context.{indent, local_find}
use plx.Prelude.Outcome.{Outcome, done, ◌>>=◌}
use plx.Prelude.{
  ℕ, suc, ◌-◌, Bytes, codes, str_eq, length, take, Bool, true, ◌&&◌, if◌then◌else◌, List, [], ◌∷◌,
  ◌++◌, Option, none, some,
}
use plx.Go.Counting.{is_set}
use plx.Go.Emit.{in_parens, is_array, type_of}
use plx.Go.If.{Stmt, go_block}
use plx.Go.Scan.{last_of, spots}
use plx.Go.Simple.{arguments, words}
use plx.Go.State.{GoState, at, write, go_err, go_eat_semi, new_local, add_local, emit_line}
use plx.Go.Token.{GoTok, is_word, is_lp, go_ci}

-- The names of a range clause: the index and the value, without `_`.
abbrev pub named : Bytes → Option Bytes
named w = if str_eq w (codes "_") then none else some w

abbrev pub range_names : List Bytes → Option Bytes × Option Bytes
range_names [] = (none, none)
range_names (k ∷ []) = (named k, none)
range_names (k ∷ v ∷ ws) = (named k, named v)

-- The words in front of the last assignment of the tokens, where it is not the first token.
abbrev pub clause_words : Option ℕ → List GoTok → List Bytes
clause_words none front = []
clause_words (some k) front = words (take k front)

-- `query(`: the tokens inside, nothing where the bracket is not closed in the header.
abbrev pub query_at : List GoTok → Option (List GoTok)
query_at (q ∷ p ∷ ts) =
    if go_ci q (codes "query") && is_lp p.kind then some (arguments (in_parens (p ∷ ts))) else none
query_at _ = none

abbrev pub or_else {ℓ} : {A : Type ℓ} → Option A → Option A → Option A
or_else none y = y
or_else (some x) y = some x

-- The name of a local of that type, of a slice: the type without `[]`.
abbrev pub element : Option Bytes → Option Bytes
element none = none
element (some typ) = if is_array (some typ) then some (take (length typ - 2) typ) else none

abbrev pub unless_known : Option PlxLocal2 → PlxLocal2 → GoState → GoState
unless_known none l st = add_local l st
unless_known (some known) l st = st

module _ (ci : Bytes → Bytes → Bool) (stmt : Stmt) where
  -- The body of a loop whose head is written, at the tokens from the end of the header on.
  unfoldable pub loop_body : ℕ → ℕ → List GoTok → GoState → Outcome GoState
  unfolding go_block go_eat_semi indent
  loop_body depth ind rest st =
      go_block ci stmt depth (suc ind) (at rest st)
      >>= (λ made. go_eat_semi (write (indent ind ++ codes "END LOOP;\n") made))

  -- A local is added where there is none of the name.
  abbrev pub with_local : PlxLocal2 → GoState → GoState
  with_local l st = unless_known (local_find ci st.locals l.name) l st

  unfoldable pub range_query :
      ℕ → ℕ → Option Bytes → List GoTok → List GoTok → List GoTok → GoState → Outcome GoState
  unfolding emit_line loop_body local_find
  range_query depth ind none inside rest ts st =
      go_err ts (codes "range over query() needs a row variable (for _, row := range query(...))")
  range_query depth ind (some row) inside rest ts st =
      emit_line ci ind (codes "FOR " ++ (row ++ codes " IN EXECUTE")) inside (codes " LOOP\n")
        (with_local (record (new_local row none) { is_record = true }) st)
      >>= loop_body depth ind rest

  abbrev single_word : List GoTok → Option Bytes
  single_word (w ∷ []) = if is_word w.kind then some w.s else none
  single_word _ = none

  -- The type of the elements of a range that is a local.
  abbrev element_of : List PlxLocal2 → Option Bytes → Option Bytes
  element_of locals none = none
  element_of locals (some w) = element (type_of (local_find ci locals w))

  -- The local of the name, if there is one, and the type of the elements.
  abbrev pub with_value :
      Option PlxLocal2 → Option Bytes → Bytes → List GoTok → GoState → Outcome GoState
  with_value (some known) typ name ts st = done st
  with_value none (some typ) name ts st = done (add_local (new_local name (some typ)) st)
  with_value none none name ts st =
      go_err ts (codes "declare the range value variable with var before the loop")

  unfoldable pub range_slice :
      ℕ → ℕ → Option Bytes → List GoTok → List GoTok → List GoTok → GoState → Outcome GoState
  unfolding emit_line loop_body local_find
  range_slice depth ind none range rest ts st =
      go_err ts (codes "range needs a value variable (for _, v := range s)")
  range_slice depth ind (some name) range rest ts st =
      with_value (local_find ci st.locals name) (element_of st.locals (single_word range)) name ts
        st
      >>= emit_line ci ind (codes "FOREACH " ++ (name ++ codes " IN ARRAY")) range (codes " LOOP\n")
      >>= loop_body depth ind rest

  unfoldable pub range_plain :
      ℕ
      → ℕ
      → Option Bytes × Option Bytes
      → List GoTok
      → List GoTok
      → List GoTok
      → GoState
      → Outcome GoState
  unfolding range_slice emit_line loop_body local_find
  range_plain depth ind (some i, some v) range rest ts st = go_err ts (
      codes "for index, value := range is not supported; "
      ++ codes "use for _, v := range (value) or for i := range (index)")
  range_plain depth ind (some i, none) range rest ts st =
      emit_line ci ind (codes "FOR " ++ (i ++ codes " IN 0 .. (")) range (codes ") - 1 LOOP\n")
        (with_local (new_local i (some (codes "integer"))) st)
      >>= loop_body depth ind rest
  range_plain depth ind (none, value) range rest ts st =
      range_slice depth ind value range rest ts st

  -- `for k, v := range e`: what stands in front of `range`, and what stands behind it.
  abbrev pub range_by :
      ℕ
      → ℕ
      → Option (List GoTok)
      → Option Bytes × Option Bytes
      → List GoTok
      → List GoTok
      → List GoTok
      → GoState
      → Outcome GoState
  range_by depth ind (some inside) names range rest ts st =
      range_query depth ind (or_else names.1 names.0) inside rest ts st
  range_by depth ind none names range rest ts st = range_plain depth ind names range rest ts st

  unfoldable pub range_for :
      ℕ → ℕ → List GoTok → List GoTok → List GoTok → List GoTok → GoState → Outcome GoState
  unfolding range_query range_plain
  range_for depth ind front range rest ts st =
      let names = range_names (take 4 (clause_words (last_of (spots is_set 0 front)) front)) in
      range_by depth ind (query_at range) names range rest ts st
